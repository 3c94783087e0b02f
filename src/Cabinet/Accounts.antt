-- ===== src/Cabinet/Accounts.antt =====
-- Website accounts of bot/bot.py: `_normalize_email`, `_validate_password`, `create_website_account`,
-- `attach_website_credentials` and `authenticate_website_account`. Arguments are the clock, the random
-- texts, the digests, the Unicode case folding, and what the panel answers.
use mosaicvpn.Prelude.{
  ℕ, suc, max, Bool, true, false, not, ◌&&◌, ◌||◌, ◌==◌, Option, none, some, List, [], ◌∷◌, ◌++◌,
  leb, ltb, is_some, or_else, length, if◌then◌else◌,
}
use mosaicvpn.Prelude.Int.{ℤ, pos, negsuc, eq_ℤ}
use mosaicvpn.Prelude.Text.{Text, text, eq_text, truthy, strip, is_space}
use mosaicvpn.Prelude.Decimal.{decimal}
use mosaicvpn.Prelude.Table.{find_where, update_where}
use mosaicvpn.Prelude.Result.{Result, ok, raise}
use mosaicvpn.Cabinet.Tables.{User, Credential, Tables, has_user_id}
use mosaicvpn.Cabinet.Bind.{resolve_telegram_account_id, get_user}

-- What the program takes from its libraries: `str.casefold`, `str.upper`, the scrypt digest of a password and its
-- salt, and SHA-256.
pub record Digests : Type 0 where
  pub casefold : Text → Text
  pub upper : Text → Text
  pub scrypt : Text → Text → Text
  pub sha256 : Text → Text

-- `[^@\s]`
abbrev pub is_atom : ℕ → Bool
is_atom c = not (c == b'@') && not (is_space c)

abbrev pub all_atoms : Text → Bool
all_atoms [] = true
all_atoms (c ∷ s) = is_atom c && all_atoms s

-- The text behind the first `@`, with the number of characters before it, if these are atoms.
abbrev pub domain_of : ℕ → Text → Option (ℕ × Text)
domain_of n [] = none
domain_of n (c ∷ s) =
    let rest = domain_of (suc n) s in
    if c == b'@' then some (n, s) else if is_space c then none else rest

abbrev pub is_domain : Option (ℕ × Text) → Bool
is_domain none = false
is_domain (some (n, s)) =
    leb 1 n && leb n 64 && leb 1 (length s) && leb (length s) 255 && all_atoms s

-- `_EMAIL_RE.fullmatch`
unfoldable pub is_email : Text → Bool
unfolding is_space
is_email s = is_domain (domain_of 0 s)

unfoldable pub validate_password : Option Text → Option Text
validate_password value =
    let p = or_else value [] in if ltb (length p) 10 || ltb 128 (length p) then none else some p

abbrev pub with_email : Text → Credential → Bool
with_email e r = eq_text r.email_normalized e

abbrev pub of_account : ℤ → Credential → Bool
of_account i r = eq_ℤ r.account_id i

-- The least negative id and one less: its place below -1, counted from 0.
abbrev pub index_of : ℤ → ℕ
index_of (pos n) = 0
index_of (negsuc n) = suc n

unfoldable pub next_index : List User → ℕ
next_index [] = 0
next_index (u ∷ us) = max (index_of u.telegram_id) (next_index us)

abbrev pub allocate_website_account_id : List User → ℤ
allocate_website_account_id us = negsuc (next_index us)

abbrev pub web_username : ℤ → Text
web_username i = text "web_" ++ decimal (index_of i)

pub data Created : Type 0 where
  created : ℤ → Text → Text → Created
  invalid exists provider : Created

abbrev pub welcome_trial_days : ℕ
welcome_trial_days = 3

abbrev pub new_user : ℕ → ℤ → Text → User
new_user now i short_uuid = record {
  telegram_id = i;
  username = web_username i;
  short_uuid = short_uuid;
  language = text "ru";
  trial_used = 1;
  created_at = now;
  referrer_id = none;
}

module _ (d : Digests) where
  -- `str(value or "").strip().casefold()`
  unfoldable pub normalize_email : Option Text → Text
  normalize_email value = d.casefold (strip (or_else value []))

  abbrev pub new_credential : ℕ → ℤ → Text → Text → Text → Credential
  new_credential now i email password salt = record {
    account_id = i;
    email_normalized = email;
    password_salt = salt;
    password_hash = d.scrypt password salt;
    password_version = 1;
    created_at = now;
    updated_at = now;
  }

  -- The two INSERTs; a clash of keys is an exception, which rolls back.
  unfoldable pub insert_account : ℕ → Text → Text → Text → ℤ → Text → Tables → Created × Tables
  insert_account now email password salt i short_uuid s =
      if not (truthy short_uuid)
        || is_some (find_where (has_user_id i) s.users)
        || is_some (find_where (of_account i) s.credentials)
        || is_some (find_where (with_email email) s.credentials)
      then (provider, s)
      else (
        created i (web_username i) short_uuid,
        record s {
          users = s.users ++ new_user now i short_uuid ∷ [];
          credentials = s.credentials ++ new_credential now i email password salt ∷ [];
        },
      )

  -- The panel's answer: a short id, no short id, or an exception.
  unfoldable pub provisioned :
      ℕ → Text → Text → Text → ℤ → Result (Option Text) → Tables → Created × Tables
  provisioned now email password salt i (raise e) s = (provider, s)
  provisioned now email password salt i (ok o) s =
      insert_account now email password salt i (or_else o []) s

  unfoldable pub create_checked :
      ℕ
      → Text
      → (Text → ℕ → ℤ → Result (Option Text))
      → Text
      → Option Text
      → Tables
      → Created × Tables
  create_checked now salt panel email none s = (invalid, s)
  create_checked now salt panel email (some password) s =
      if not (is_email email)
      then (invalid, s)
      else if is_some (find_where (with_email email) s.credentials)
      then (exists, s)
      else let i = allocate_website_account_id s.users in
        provisioned now email password salt i (panel (web_username i) welcome_trial_days i) s

  unfoldable pub create_website_account :
      ℕ
      → Text
      → (Text → ℕ → ℤ → Result (Option Text))
      → Option Text
      → Option Text
      → Tables
      → Created × Tables
  create_website_account now salt panel email raw_password s =
      create_checked now salt panel (normalize_email email) (validate_password raw_password) s

  -- `UPDATE web_credentials` of `attach_website_credentials`.
  abbrev pub attached : ℕ → Text → Text → Text → Credential → Credential
  attached now email password salt r = record r {
    email_normalized = email;
    password_salt = salt;
    password_hash = d.scrypt password salt;
    updated_at = now;
  }

  -- Whether the address is another account's.
  abbrev pub is_other : ℤ → Option Credential → Bool
  is_other i none = false
  is_other i (some r) = not (eq_ℤ r.account_id i)

  pub data Attached : Type 0 where
    done bad taken missing : Attached

  unfoldable pub attach_checked : ℕ → Text → ℤ → Text → Option Text → Tables → Attached × Tables
  attach_checked now salt i email none s = (bad, s)
  attach_checked now salt i email (some password) s =
      if not (is_email email)
      then (bad, s)
      else if not (is_some (find_where (of_account i) s.credentials))
      then (missing, s)
      else if is_other i (find_where (with_email email) s.credentials)
      then (taken, s)
      else (
        done,
        record s {
          credentials =
              update_where (of_account i) (attached now email password salt) s.credentials;
        },
      )

  unfoldable pub attach_website_credentials :
      ℕ → Text → ℤ → Option Text → Option Text → Tables → Attached × Tables
  attach_website_credentials now salt i email raw_password s =
      attach_checked now salt i (normalize_email email) (validate_password raw_password) s

  abbrev pub with_profile : ℤ → Option User → Option (ℤ × User)
  with_profile i none = none
  with_profile i (some u) = some (i, u)

  -- The answer's account is that of the profile, which the chat's link may lead to.
  unfoldable pub authenticate_row : Text → Option Credential → Tables → Option (ℤ × User)
  authenticate_row password none s = none
  authenticate_row password (some r) s =
      if eq_text (d.scrypt password r.password_salt) r.password_hash
      then with_profile (resolve_telegram_account_id r.account_id s) (get_user r.account_id s)
      else none

  unfoldable pub authenticate_checked : Text → Option Text → Tables → Option (ℤ × User)
  authenticate_checked email none s = none
  authenticate_checked email (some password) s =
      if is_email email
      then authenticate_row password (find_where (with_email email) s.credentials) s
      else none

  unfoldable pub authenticate_website_account :
      Option Text → Option Text → Tables → Option (ℤ × User)
  authenticate_website_account email raw_password s =
      authenticate_checked (normalize_email email) (validate_password raw_password) s
