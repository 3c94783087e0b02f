-- ===== src/Cabinet/Tables.antt =====
-- The tables of `init_db` in bot/bot.py that the web cabinet works on. Instants are microseconds since
-- the epoch, account ids are integers: positive for Telegram users, negative for website accounts.
use mosaicvpn.Prelude.{ℕ, Bool, Option, List}
use mosaicvpn.Prelude.Int.{ℤ, eq_ℤ}
use mosaicvpn.Prelude.Text.{Text, eq_text}

-- `telegram_link_codes`
pub record BindCode : Type 0 where
  pub code : Text
  pub account_id : ℤ
  pub issued_at : ℕ
  pub expires_at : ℕ
  pub used_at : Option ℕ
  pub attempts : ℕ

-- `telegram_account_links`
pub record Link : Type 0 where
  pub telegram_id : ℤ
  pub account_id : ℤ
  pub telegram_username : Text
  pub linked_at : ℕ

-- `users`, without the columns of the terms' acceptance.
pub record User : Type 0 where
  pub telegram_id : ℤ
  pub username : Text
  pub short_uuid : Text
  pub language : Text
  pub trial_used : ℕ
  pub created_at : ℕ
  pub referrer_id : Option ℤ

-- `web_sessions`
pub record Session : Type 0 where
  pub token : Text
  pub telegram_id : ℤ
  pub username : Text
  pub created_at : ℕ
  pub expires_at : ℕ

-- `web_credentials`
pub record Credential : Type 0 where
  pub account_id : ℤ
  pub email_normalized : Text
  pub password_salt : Text
  pub password_hash : Text
  pub password_version : ℕ
  pub created_at : ℕ
  pub updated_at : ℕ

-- `password_reset_tokens`
pub record ResetToken : Type 0 where
  pub token_hash : Text
  pub account_id : ℤ
  pub created_at : ℕ
  pub expires_at : ℕ
  pub used_at : Option ℕ

-- `app_auth_codes`
pub record AuthCode : Type 0 where
  pub code : Text
  pub telegram_id : ℤ
  pub username : Text
  pub state : Text
  pub purpose : Text
  pub created_at : ℕ
  pub expires_at : ℕ
  pub used_at : Option ℕ

pub record Tables : Type 0 where
  pub bind_codes : List BindCode
  pub links : List Link
  pub users : List User
  pub sessions : List Session
  pub credentials : List Credential
  pub resets : List ResetToken
  pub auth_codes : List AuthCode

abbrev pub has_bind_code : Text → BindCode → Bool
has_bind_code c r = eq_text r.code c

abbrev pub from_chat : ℤ → Link → Bool
from_chat i l = eq_ℤ l.telegram_id i

abbrev pub to_account : ℤ → Link → Bool
to_account i l = eq_ℤ l.account_id i

abbrev pub has_user_id : ℤ → User → Bool
has_user_id i u = eq_ℤ u.telegram_id i

abbrev pub has_token : Text → Session → Bool
has_token c s = eq_text s.token c

abbrev pub has_auth_code : Text → AuthCode → Bool
has_auth_code c r = eq_text r.code c
