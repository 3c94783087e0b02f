-- ===== src/Cabinet/Resets.antt =====
-- `issue_password_reset` and `reset_website_password` of bot/bot.py.
use mosaicvpn.Prelude.{
  ℕ, ◌+◌, ◌*◌, Bool, true, false, not, ◌&&◌, Option, none, some, [], ◌∷◌, ◌++◌, leb, is_some,
  or_else, if◌then◌else◌,
}
use mosaicvpn.Prelude.Int.{ℤ, eq_ℤ}
use mosaicvpn.Prelude.Text.{Text, eq_text, strip}
use mosaicvpn.Prelude.Table.{find_where, update_where, delete_where}
use mosaicvpn.Prelude.Result.{Result, ok, raise, integrity_error}
use mosaicvpn.Cabinet.Tables.{Credential, ResetToken, Session, AuthCode, Tables}
use mosaicvpn.Cabinet.Accounts.{
  Digests, normalize_email, is_email, validate_password, with_email, of_account,
}

abbrev pub reset_ttl_minutes : ℕ
reset_ttl_minutes = 15

abbrev pub has_hash : Text → ResetToken → Bool
has_hash h r = eq_text r.token_hash h

abbrev pub live_reset : ℤ → ResetToken → Bool
live_reset i r = eq_ℤ r.account_id i && not (is_some r.used_at)

abbrev pub new_reset : ℕ → Text → ℤ → ResetToken
new_reset now hash i = record {
  token_hash = hash;
  account_id = i;
  created_at = now;
  expires_at = now + reset_ttl_minutes * 60000000;
  used_at = none;
}

abbrev pub unused_reset : Text → ResetToken → Bool
unused_reset h r = eq_text r.token_hash h && not (is_some r.used_at)

abbrev pub reset_burnt : ℕ → ResetToken → ResetToken
reset_burnt now r = record r { used_at = some now }

abbrev pub session_of : ℤ → Session → Bool
session_of i r = eq_ℤ r.telegram_id i

abbrev pub live_auth : ℤ → AuthCode → Bool
live_auth i r = eq_ℤ r.telegram_id i && not (is_some r.used_at)

module _ (d : Digests) where
  -- The stored token, and whether the mail with its code went out.
  unfoldable pub reset_stored :
      ℕ → Text → (Text → Text → Bool) → Text → Option Credential → Tables → Result Bool × Tables
  reset_stored now code mail email none s = (ok false, s)
  reset_stored now code mail email (some r) s =
      let rest = delete_where (live_reset r.account_id) s.resets in
      if is_some (find_where (has_hash (d.sha256 code)) rest) then (raise integrity_error, s) else (
        ok (mail email code),
        record s { resets = rest ++ new_reset now (d.sha256 code) r.account_id ∷ [] },
      )

  unfoldable pub issue_password_reset :
      ℕ → Text → (Text → Text → Bool) → Option Text → Tables → Result Bool × Tables
  issue_password_reset now code mail email s =
      let e = normalize_email d email in
      if is_email e
      then reset_stored now code mail e (find_where (with_email e) s.credentials) s
      else (ok false, s)

  abbrev pub repassworded : ℕ → Text → Text → Credential → Credential
  repassworded now password salt r = record r {
    password_salt = salt;
    password_hash = d.scrypt password salt;
    password_version = r.password_version + 1;
    updated_at = now;
  }

  -- The statements of a reset that goes through.
  abbrev pub reset_tables : ℕ → Text → Text → Text → ℤ → Tables → Tables
  reset_tables now password salt hash i s = record s {
    credentials = update_where (of_account i) (repassworded now password salt) s.credentials;
    resets = update_where (unused_reset hash) (reset_burnt now) s.resets;
    sessions = delete_where (session_of i) s.sessions;
    auth_codes = delete_where (live_auth i) s.auth_codes;
  }

  unfoldable pub reset_row : ℕ → Text → Text → Text → Option ResetToken → Tables → Bool × Tables
  reset_row now password salt hash none s = (false, s)
  reset_row now password salt hash (some r) s =
      if is_some r.used_at
      then (false, s)
      else if leb r.expires_at now
      then (false, s)
      else (true, reset_tables now password salt hash r.account_id s)

  unfoldable pub reset_checked : ℕ → Text → Text → Option Text → Tables → Bool × Tables
  reset_checked now salt hash none s = (false, s)
  reset_checked now salt hash (some password) s =
      reset_row now password salt hash (find_where (has_hash hash) s.resets) s

  -- `sha256(str(raw_code or "").strip().upper())`
  abbrev pub hash_of_typed : Option Text → Text
  hash_of_typed raw = d.sha256 (d.upper (strip (or_else raw [])))

  unfoldable pub reset_website_password :
      ℕ → Text → Option Text → Option Text → Tables → Bool × Tables
  reset_website_password now salt raw_code raw_password s =
      reset_checked now salt (hash_of_typed raw_code) (validate_password raw_password) s
