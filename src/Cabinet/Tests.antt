-- ===== src/Cabinet/Tests.antt =====
-- Runs of the cabinet's operations on concrete tables, and the theorems at inputs that meet their
-- hypotheses.
use mosaicvpn.Prelude.{
  ℕ, ◌≡◌, ◌≢◌, refl, true, false, Option, none, some, List, [], ◌∷◌, ◌++◌, arith, if◌then◌else◌,
  All,
}
use mosaicvpn.Prelude.Int.{ℤ, pos, negsuc}
use mosaicvpn.Prelude.Text.{Text, text, upper_char, upper, lstrip, strip, is_space, eq_text}
use mosaicvpn.Prelude.Table.{find_where}
use mosaicvpn.Prelude.Decimal.{decimal}
use mosaicvpn.Prelude.Result.{Result, ok, is_ok}
use mosaicvpn.Cabinet.Codes
use mosaicvpn.Cabinet.Codes.{
  LinkCode, normalise, free_draw, issued, issue_link_code, payload, used, too_many, redeem_row,
  redeem_link_code, issue_call, redeem_call,
}
use mosaicvpn.Cabinet.Typed.{Typed, small, separator, as_is, done}
use mosaicvpn.Cabinet.Pairing.{is_payload, redeem_once, issue-redeem}
use mosaicvpn.Cabinet.Live.{attempts_unlimited}
use mosaicvpn.Cabinet.Tables.{ResetToken, Tables}
use mosaicvpn.Cabinet.Bind.{
  bind_issued, issue_telegram_link_code, get_telegram_account_link, resolve_telegram_account_id,
  get_user, bound, bind_links, bind_chat, bind_row, claim_telegram_link_code,
  unlink_telegram_account,
}
use mosaicvpn.Cabinet.Sessions.{
  create_web_session, session_row, get_web_session, insert_auth_code, issue_app_auth_code, account,
  state_mismatch, redeem_auth_row, redeem_app_auth_code,
}
use mosaicvpn.Cabinet.Accounts.{
  Digests, is_email, validate_password, next_index, created, normalize_email, new_user,
  insert_account, provisioned, create_checked, create_website_account, attach_checked,
  attach_website_credentials, authenticate_row, authenticate_checked, authenticate_website_account,
}
use mosaicvpn.Cabinet.Resets.{
  has_hash, reset_stored, issue_password_reset, reset_row, reset_checked, hash_of_typed,
  reset_website_password,
}
use mosaicvpn.Cabinet.Steps
use mosaicvpn.Cabinet.Steps.{issue_bind, unlink, log_in}
use mosaicvpn.Cabinet.Binding.{IsOneToOne, claim-IsOneToOne, claim_holds}
use mosaicvpn.Cabinet.Signing.{is_account, auth_code_once, issue-redeem_auth}
use mosaicvpn.Cabinet.Registering.{register-authenticate}
use mosaicvpn.Cabinet.Revoking.{is_session_of, signs_in, reset_revokes}

-- All the definitions that a run computes with.
program : Unit {0}
unfolding decimal upper_char upper lstrip strip is_space normalise free_draw issued issue_link_code
    redeem_row redeem_link_code Codes.after Codes.run bind_issued issue_telegram_link_code
    get_telegram_account_link resolve_telegram_account_id get_user bind_links bind_chat bind_row
    claim_telegram_link_code unlink_telegram_account create_web_session session_row get_web_session
    insert_auth_code issue_app_auth_code redeem_auth_row redeem_app_auth_code is_email
    validate_password next_index normalize_email insert_account provisioned create_checked
    create_website_account attach_checked attach_website_credentials authenticate_row
    authenticate_checked authenticate_website_account reset_stored issue_password_reset reset_row
    reset_checked reset_website_password Steps.after Steps.run
program = tt

-- Codes drawn one after the other.
abbrev draws : ℕ → Text
draws n = text "AB23"

abbrev pairing : List LinkCode
pairing = (issue_link_code 5 draws (pos 7) (some (text "anna")) (some (text "tok")) []).1

typed : Typed (text "AB23") (text "a-B 23")
unfolding program
typed = small b'A' refl (omega arith) (
    separator b'-' refl
      (as_is b'B' refl (separator b' ' refl (as_is b'2' refl (as_is b'3' refl done)))))

stored :
    (issue_link_code 5 draws (pos 7) (some (text "anna")) (some (text "tok")) []).0
    ≡ ok (text "AB23", 600000005)
unfolding program
stored = refl

redeems :
    (redeem_link_code 9 (some (text "ab23")) pairing).0 ≡ payload (pos 7) (text "anna") (text "tok")
unfolding program
redeems = refl

redeem-payload : is_payload (redeem_link_code 9 (some (text "ab23")) pairing).0 ≡ true
unfolding program
redeem-payload = refl

same_code : normalise (some (text "AB-23")) ≡ normalise (some (text "ab23"))
unfolding program
same_code = refl

abbrev pairing_calls : List Codes.Call
pairing_calls =
    issue_call 20 (λ n. text "CD45") (pos 7) none none ∷ redeem_call 30 (some (text "ab 23")) ∷ []

redeem_once_example :
    let t' = Codes.run pairing_calls (redeem_link_code 9 (some (text "ab23")) pairing).1 in
    redeem_link_code 40 (some (text "AB-23")) t' ≡ (used, t')
redeem_once_example =
    redeem_once 9 40 (some (text "ab23")) (some (text "AB-23")) pairing_calls pairing redeem-payload
      same_code

issue-redeem_example :
    (redeem_link_code 9 (some (text "a-B 23")) pairing).0
    ≡ payload (pos 7) (text "anna") (text "tok")
issue-redeem_example =
    issue-redeem 5 9 draws (pos 7) (some (text "anna")) (some (text "tok")) [] (text "a-B 23")
      stored refl typed (omega arith)

attempts_unlimited_example :
    (redeem_link_code 40 (some (text "zz99")) (Codes.run pairing_calls [])).0 ≢ too_many
attempts_unlimited_example = attempts_unlimited 40 (some (text "zz99")) pairing_calls [] tt

-- Stand-ins for the digests.
abbrev digests : Digests
digests = record {
  casefold = λ s. s;
  upper = λ s. s;
  scrypt = λ p salt. salt ++ p;
  sha256 = λ s. b'#' ∷ s;
}

abbrev empty : Tables
empty = record {
  bind_codes = [];
  links = [];
  users = [];
  sessions = [];
  credentials = [];
  resets = [];
  auth_codes = [];
}

-- A code for the account -2.
abbrev offered : Tables
offered = (issue_telegram_link_code 5 draws (negsuc 1) empty).1

binds :
    (claim_telegram_link_code 9 (some (text "ab23")) (pos 7) none offered).0 ≡ ok (bound (negsuc 1))
unfolding program
binds = refl

abbrev cabinet_calls : List Steps.Call
cabinet_calls = unlink (negsuc 4) ∷ log_in 12 (text "session") (pos 7) none ∷ []

offered-IsOneToOne : IsOneToOne offered.links
unfolding program
offered-IsOneToOne = tt

claim-IsOneToOne_example :
    IsOneToOne (Steps.run digests cabinet_calls offered).links
    × (is_ok
          (claim_telegram_link_code 9
            (some (text "ab23"))
            (pos 7)
            none
            (Steps.run digests cabinet_calls offered)).0
        ≡ true)
claim-IsOneToOne_example =
    claim-IsOneToOne digests cabinet_calls offered 9 (some (text "ab23")) (pos 7) none
      offered-IsOneToOne

others : All (λ c. c ≢ unlink (negsuc 1)) cabinet_calls
others = (λ e. ground arith, (λ e. ground arith, tt))

claim_holds_example :
    resolve_telegram_account_id (pos 7) (
      Steps.run digests cabinet_calls
        (claim_telegram_link_code 9 (some (text "ab23")) (pos 7) none offered).1)
    ≡ negsuc 1
claim_holds_example =
    claim_holds digests 9 (some (text "ab23")) (pos 7) (negsuc 1) none cabinet_calls offered binds
      others

-- A session of the chat 7, and a callback code for it.
abbrev state : Text
state = text "0123456789abcdef"

abbrev token : Option Text
token = some (text "session")

abbrev signed : Tables
signed = (create_web_session 5 (text "session") (pos 7) (some (text "anna")) empty).1

abbrev coded : Tables
coded = (issue_app_auth_code 6 (text "code") token (some state) (text "login") signed).1

issues :
    (issue_app_auth_code 6 (text "code") token (some state) (text "login") signed).0
    ≡ ok (some (text "code"))
unfolding program
issues = refl

signs : is_account (redeem_app_auth_code 9 (some (text "code")) (some state) coded).0 ≡ true
unfolding program
signs = refl

auth_code_once_example :
    is_account
      (redeem_app_auth_code 40 (some (text "code")) (some state) (
        Steps.run digests cabinet_calls
          (redeem_app_auth_code 9 (some (text "code")) (some state) coded).1)).0
    ≢ true
auth_code_once_example =
    auth_code_once digests 9 40 (some (text "code")) (some state) (some state) cabinet_calls coded
      signs

issue-redeem_auth_example :
    (who : ℤ × Text) × (get_web_session 6 token signed ≡ some who)
    × ((redeem_app_auth_code 9 (some (text "code")) (some state) coded).0
        ≡ (if eq_text state state then account who.0 who.1 (text "login") else state_mismatch))
issue-redeem_auth_example =
    issue-redeem_auth 6 9 (text "code") (text "login") token (some state) (some state) signed issues
      refl refl (omega arith)

-- A registration, and a reset of its password.
abbrev email : Option Text
email = some (text "a@b.org")

abbrev password : Option Text
password = some (text "0123456789")

abbrev new_password : Option Text
new_password = some (text "9876543210")

abbrev panel : Text → ℕ → ℤ → Result (Option Text)
panel name days i = ok (some (text "uuid"))

registers :
    (create_website_account digests 5 (text "salt") panel email password empty).0
    ≡ created (negsuc 0) (text "web_1") (text "uuid")
unfolding program
registers = refl

register-authenticate_example :
    authenticate_website_account digests email password
      (create_website_account digests 5 (text "salt") panel email password empty).1
    ≡ some (negsuc 0, new_user 5 (negsuc 0) (text "uuid"))
register-authenticate_example =
    register-authenticate digests 5 (text "salt") panel email password (negsuc 0) (text "web_1")
      (text "uuid") empty registers refl

abbrev registered : Tables
registered = (create_website_account digests 5 (text "salt") panel email password empty).1

abbrev resettable : Tables
resettable =
    (issue_password_reset digests 6 (text "CODE") (λ address code. true) email registered).1

abbrev typed_code : Option Text
typed_code = some (text " CODE ")

resets :
    (reset_website_password digests 7 (text "salz") typed_code new_password resettable).0 ≡ true
unfolding program
resets = refl

reset_revokes_example :
    let t = (reset_website_password digests 7 (text "salz") typed_code new_password resettable).1 in
    (r : ResetToken) × (find_where (has_hash (hash_of_typed digests typed_code)) resettable.resets
      ≡ some r)
    × (is_session_of r.account_id (get_web_session 8 token t) ≡ false)
    × (signs_in r.account_id (redeem_app_auth_code 8 (some (text "code")) (some state) t).0 ≡ false)
    × ((reset_website_password digests 8 (text "salz") typed_code password t).0 ≡ false)
reset_revokes_example =
    reset_revokes digests 7 8 (text "salz") (text "salz") typed_code new_password password token
      (some (text "code")) (some state) resettable resets
