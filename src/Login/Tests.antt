-- ===== src/Login/Tests.antt =====
-- Runs of the login store on concrete calls, and the theorems at inputs that meet their hypotheses.
use mosaicvpn.Prelude.{
  ℕ, ◌≡◌, ◌≢◌, ◌↔◌, refl, ap, true, false, none, some, List, [], ◌∷◌, arith, All,
}
use mosaicvpn.Prelude.Int.{pos}
use mosaicvpn.Prelude.Text.{Text, text}
use mosaicvpn.Prelude.Value.{Value, int, str}
use mosaicvpn.Prelude.Result.{is_ok, ok}
use mosaicvpn.Prelude.Table.{find_where}
use mosaicvpn.Login.Types.{pending, approved, Challenge, locked_out, success}
use mosaicvpn.Login.Store.{
  failed_attempt, url_safe, url_safe_line, line_length, request_id_of, poll_secret_of, with_request,
  poll_verified, create, verify_row, verify_selected, verify_checked, verify, poll, prune_expired,
}
use mosaicvpn.Login.Approve.{
  Exchange, call_exchange, payload, is_digits, digits_value, telegram_id_of, race_answer,
  approve_update, approve_row, approve_checked, approve, exchanged, consume_update,
  consume_verified, consume,
}
use mosaicvpn.Login.Steps.{RowStep, AreDistinct, Call, poll_call, approve_call, mints, after, run}
use mosaicvpn.Login.Refines.{after-RowStep}
use mosaicvpn.Login.Invariant.{Consistent, run-Consistent}
use mosaicvpn.Login.Once.{is_consumed, who, IsReady, consume-consumed_iff, consumed_once}
use mosaicvpn.Login.Lockout.{IsWrong, guesses, lockout, lost_attempt}
use mosaicvpn.Login.Binding.{approval_binds}

-- All the definitions that a run computes with.
program : Unit {0}
unfolding url_safe url_safe_line line_length request_id_of poll_secret_of poll_verified create
    verify_row verify_selected verify_checked verify poll prune_expired is_digits digits_value
    telegram_id_of race_answer approve_update approve_row approve_checked approve exchanged
    consume_update consume_verified consume after run
program = tt

-- A hash for the tests.
abbrev joined : Text → Text → Text
joined secret salt = b'#' ∷ secret

abbrev request : Text
request = text "request-00000001"

abbrev secret : Text
secret = text "secret_000000001"

abbrev bad_secret : Text
bad_secret = text "secret_000000002"

abbrev session : Exchange
session = some (λ p. ok (some (text "session")))

abbrev minted_row : Challenge
minted_row = record {
  request_id = request;
  secret_hash = b'#' ∷ secret;
  salt = text "salt";
  telegram_id = none;
  telegram_username = none;
  status = pending;
  issued_at = 1000;
  expires_at = 600001000;
  approved_at = none;
  used_at = none;
  claim_token = none;
  attempts = 0;
}

abbrev open_table : List Challenge
open_table = minted_row ∷ []

abbrev approved_row : Challenge
approved_row = record minted_row {
  status = approved;
  telegram_id = some (pos 42);
  telegram_username = some (text "anna");
  approved_at = some 2000;
}

abbrev approved_table : List Challenge
approved_table = approved_row ∷ []

create_stores : (create joined 1000 request secret (text "salt") 600 []).1 ≡ open_table
unfolding program
create_stores = refl

request_fits : request_id_of (str request) ≡ some request
unfolding program
request_fits = refl

secret_fits : poll_secret_of (str secret) ≡ some secret
unfolding program
secret_fits = refl

bad_secret_fits : poll_secret_of (str bad_secret) ≡ some bad_secret
unfolding program
bad_secret_fits = refl

newline_passes : request_id_of (str (text "request-00000001\n")) ≡ some (text "request-00000001\n")
unfolding program
newline_passes = refl

account_fits : telegram_id_of (int (pos 42)) ≡ some (pos 42)
unfolding program
account_fits = refl

other_account_fits : telegram_id_of (str (text "43")) ≡ some (pos 43)
unfolding program
other_account_fits = refl

approve_succeeds :
    approve 2000 (str request) (int (pos 42)) (some (text "anna")) open_table
    ≡ (success (pos 42), approved_table)
unfolding program
approve_succeeds = refl

abbrev calls : List Call
calls =
    poll_call 2500 (str request) (str bad_secret)
    ∷ poll_call 2600 (str request) (str secret)
    ∷ approve_call 2700 (str request) (int (pos 43)) none
    ∷ []

consume_succeeds :
    is_consumed
      (consume joined 5 3000 (text "claim") session (str request) (str secret) approved_table).0
    ≡ true
unfolding program
consume_succeeds = refl

open-AreDistinct : AreDistinct open_table
open-AreDistinct = (refl, tt)

approved-AreDistinct : AreDistinct approved_table
approved-AreDistinct = (refl, tt)

after-RowStep_example : RowStep 5 false (some minted_row) (
    find_where
      (with_request request)
      (after joined 5 (approve_call 2000 (str request) (int (pos 42)) none) open_table))
after-RowStep_example =
    after-RowStep joined 5 (approve_call 2000 (str request) (int (pos 42)) none) open_table request
      open-AreDistinct

open-Consistent : Consistent 5 (some minted_row)
open-Consistent = ground arith

run-Consistent_example :
    Consistent 5 (find_where (with_request request) (run joined 5 calls open_table))
run-Consistent_example =
    run-Consistent 5 (omega arith) joined calls open_table request open-AreDistinct open-Consistent

consume-consumed_iff_example :
    (is_consumed
        (consume joined 5 3000 (text "claim") session (str request) (str secret) approved_table).0
      ≡ true)
    ↔ ((r : Challenge) × (find_where (with_request request) approved_table ≡ some r)
        × IsReady joined 5 3000 secret r
        × (is_ok (call_exchange session (payload r (text "claim"))) ≡ true))
consume-consumed_iff_example =
    consume-consumed_iff joined 5 3000 (text "claim") session (str request) (str secret)
      approved_table request_fits secret_fits

calls_mint_nothing : All (λ c. mints request c ≡ false) calls
calls_mint_nothing = (refl, (refl, (refl, tt)))

consumed_once_example :
    is_consumed
      (consume joined 5 4000 (text "again") none (str request) (str secret) (
        run joined 5 calls
          (consume joined 5 3000
            (text "claim")
            session
            (str request)
            (str secret)
            approved_table).1)).0
    ≢ true
consumed_once_example =
    consumed_once joined 5 3000 4000 (text "claim") (text "again") session none (str request)
      (str secret) (str secret) calls approved_table request_fits secret_fits secret_fits
      approved-AreDistinct calls_mint_nothing consume_succeeds

abbrev tries : List (ℕ × Value)
tries =
    (2000, str bad_secret)
    ∷ (2001, str bad_secret)
    ∷ (2002, str bad_secret)
    ∷ (2003, str bad_secret)
    ∷ (2004, str bad_secret)
    ∷ []

bad_secret-differs : (b'#' ∷ secret) ≢ (b'#' ∷ bad_secret)
bad_secret-differs e = ground arith

try-IsWrong : (now : ℕ) → IsWrong joined approved_row (now, str bad_secret)
try-IsWrong now = (bad_secret, bad_secret_fits, bad_secret-differs)

lockout_example :
    let t' = run joined 5 (guesses (str request) tries) approved_table in
    consume joined 5 3000 (text "claim") session (str request) (str secret) t' ≡ (locked_out, t')
lockout_example =
    lockout joined 5 3000 (text "claim") session (str request) (str secret) tries approved_row
      approved_table request_fits secret_fits refl refl
      (
        try-IsWrong 2000,
        (try-IsWrong 2001, (try-IsWrong 2002, (try-IsWrong 2003, (try-IsWrong 2004, tt)))),
      )
      (omega arith)

approval_binds_example :
    let t' =
      run joined 5 calls
        (approve 2000 (str request) (int (pos 42)) (some (text "anna")) open_table).1 in
    ((approve 2900 (str request) (str (text "43")) none t').0 ≢ success (pos 43))
    × (is_consumed (consume joined 5 3000 (text "claim") session (str request) (str secret) t').0
          ≡ true
        → who (consume joined 5 3000 (text "claim") session (str request) (str secret) t').0
          ≡ some (some (pos 42)))
approval_binds_example =
    approval_binds joined 5 2000 2900 3000 (text "claim") session (str request) (int (pos 42))
      (str (text "43")) (str secret) (some (text "anna")) none calls open_table request_fits
      account_fits other_account_fits secret_fits open-AreDistinct calls_mint_nothing
      (ap (λ p. p.0) approve_succeeds)

lost_attempt_example :
    let t1 = (verify_row joined 5 bad_secret minted_row open_table).1 in
    find_where (with_request request) (verify_row joined 5 bad_secret minted_row t1).1
    ≡ some (failed_attempt 5 minted_row minted_row)
lost_attempt_example =
    lost_attempt joined 5 request bad_secret bad_secret minted_row open_table refl
      (λ e. ground arith) (omega arith) bad_secret-differs bad_secret-differs
