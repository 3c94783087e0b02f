-- ===== src/Login/Types.antt =====
-- The table `browser_login_challenges` and the answers of bot/onboarding_auth.py. Instants are
-- microseconds since the epoch; the program stores them as ISO texts in UTC, which it writes itself,
-- so they always parse, and which compare as the instants do.
use mosaicvpn.Prelude.{ℕ, Bool, true, false, Option}
use mosaicvpn.Prelude.Int.{ℤ}
use mosaicvpn.Prelude.Text.{Text}

pub data Status : Type 0 where
  pending approved used expired locked : Status

abbrev pub eq_status : Status → Status → Bool
eq_status pending pending = true
eq_status approved approved = true
eq_status used used = true
eq_status expired expired = true
eq_status locked locked = true
eq_status _ _ = false

pub record Challenge : Type 0 where
  pub request_id : Text
  pub secret_hash : Text
  pub salt : Text
  pub telegram_id : Option ℤ
  pub telegram_username : Option Text
  pub status : Status
  pub issued_at : ℕ
  pub expires_at : ℕ
  pub approved_at : Option ℕ
  pub used_at : Option ℕ
  pub claim_token : Option Text
  pub attempts : ℕ

-- What `poll` and `consume` answer; `status_only` carries a status with no case of its own.
pub data Reply : Type 0 where
  malformed_input : Reply
  not_found : Reply
  locked_out : Reply
  invalid_secret : ℕ → Reply
  expired_reply : Reply
  used_reply : Reply
  approved_reply : Option ℤ → Text → Reply
  pending_reply : Reply
  status_only : Status → Reply
  exchange_failed : Reply
  consumed : Option ℤ → Text → Text → Option Text → Reply

-- What `approve` answers.
pub data Approval : Type 0 where
  success : ℤ → Approval
  refused_malformed : Approval
  refused_not_found : Approval
  refused_expired : Approval
  refused_used : Approval
  refused_locked : Approval
  already_bound : Approval
  failed : Approval

-- The payload that `consume` hands to the exchange callback.
pub record Payload : Type 0 where
  pub request_id : Text
  pub telegram_id : Option ℤ
  pub telegram_username : Text
  pub claim_token : Text

-- The metadata that `get_challenge` answers.
pub record Metadata : Type 0 where
  pub request_id : Text
  pub telegram_id : Option ℤ
  pub telegram_username : Text
  pub status : Status
  pub issued_at : ℕ
  pub expires_at : ℕ
  pub approved_at : Option ℕ
  pub used_at : Option ℕ
  pub is_live : Bool
