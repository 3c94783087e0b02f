-- ===== src/Invites/Types.antt =====
-- The table `sponsored_invites` and the dictionaries that bot/sponsored_invites.py returns.
-- Instants are microseconds since the epoch; the program stores them as ISO texts in UTC, which
-- compare as the instants do.
use mosaicvpn.Prelude.{ℕ, Bool, true, false, Option}
use mosaicvpn.Prelude.Int.{ℤ}
use mosaicvpn.Prelude.Text.{Text}
use mosaicvpn.Prelude.Value.{Value}

pub data Status : Type 0 where
  pending processing succeeded failed uncertain revoked : Status

abbrev pub eq_status : Status → Status → Bool
eq_status pending pending = true
eq_status processing processing = true
eq_status succeeded succeeded = true
eq_status failed failed = true
eq_status uncertain uncertain = true
eq_status revoked revoked = true
eq_status _ _ = false

-- A row of the table.
pub record Invite : Type 0 where
  pub id : Text
  pub admin_id : ℤ
  pub request_id : Text
  pub amount : ℤ
  pub label : Text
  pub token_hash : Text
  pub status : Status
  pub created_at : ℕ
  pub expires_at : ℕ
  pub claimed_at : Option ℕ
  pub claimant_account_id : Option ℤ
  pub claimant_label : Option Text
  pub completed_at : Option ℕ
  pub result : Option Text
  pub error : Option Text

-- The dictionary that `_row_to_dict` returns without the hash.
pub record Shown : Type 0 where
  pub id : Text
  pub admin_id : ℤ
  pub request_id : Text
  pub amount : ℤ
  pub label : Text
  pub status : Status
  pub created_at : ℕ
  pub expires_at : ℕ
  pub claimed_at : Option ℕ
  pub claimant_account_id : Option ℤ
  pub claimant_telegram_id : Option ℤ
  pub claimant_label : Option Text
  pub completed_at : Option ℕ
  pub result : Option Text
  pub error : Option Text

unfoldable pub row_to_dict : Invite → Shown
row_to_dict r = record {
  id = r.id;
  admin_id = r.admin_id;
  request_id = r.request_id;
  amount = r.amount;
  label = r.label;
  status = r.status;
  created_at = r.created_at;
  expires_at = r.expires_at;
  claimed_at = r.claimed_at;
  claimant_account_id = r.claimant_account_id;
  claimant_telegram_id = r.claimant_account_id;
  claimant_label = r.claimant_label;
  completed_at = r.completed_at;
  result = r.result;
  error = r.error;
}

-- The status texts of `ClaimResult`.
pub data ClaimStatus : Type 0 where
  not_found expired revoked_invite repeat already_claimed claimed : ClaimStatus

pub record ClaimResult : Type 0 where
  pub entry : Option Shown
  pub error : Option ClaimStatus
  pub status : ClaimStatus

-- The arguments of `create`; `ttl_seconds` left out is `none_value`.
pub record CreateArgs : Type 0 where
  pub admin_id : Value
  pub amount : Value
  pub label : Value
  pub request_id : Value
  pub ttl : Value
  pub ttl_seconds : Value

-- The arguments after validation, the texts stripped.
pub record Request : Type 0 where
  pub admin_id : ℤ
  pub amount : ℤ
  pub label : Text
  pub request_id : Text
  pub ttl : ℤ
