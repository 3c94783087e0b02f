-- ===== src/Invites/Claim.antt =====
-- `SponsoredInviteStore.claim` of bot/sponsored_invites.py. A claim runs under `BEGIN IMMEDIATE`, so
-- it is one step of the table.
use mathlib.Core.Option
use mosaicvpn.Prelude.{
  ℕ, ◌==◌, Bool, true, false, not, ◌&&◌, ◌||◌, Option, none, some, List, leb, if◌then◌else◌, take,
  is_some,
}
use mosaicvpn.Prelude.Int.{ℤ, pos, eq_ℤ}
use mosaicvpn.Prelude.Text.{Text, eq_text, strip, truthy}
use mosaicvpn.Prelude.Table.{find_where, update_where, count_where}
use mosaicvpn.Prelude.Value.{Value, none_value, str}
use mosaicvpn.Prelude.Result.{
  Result, ok, raise, value_error, type_error, ◌>>=◌, ◌>>◌, raise_if, int_or_raise, text_or_raise,
}
use mosaicvpn.Invites.Types.{
  pending, processing, revoked, eq_status, Invite, row_to_dict, ClaimStatus, not_found, expired,
  revoked_invite, repeat, already_claimed, claimed, ClaimResult,
}
use mosaicvpn.Invites.Create.{default_to, with_id, with_hash}

-- The properties `is_claimed` and `is_repeat` of a result, false of a call that raises.
abbrev pub is_claimed : Result ClaimResult → Bool
is_claimed (raise e) = false
is_claimed (ok c) = elim c.status [ claimed ↦ true | _ ↦ false ]

abbrev pub is_repeat : Result ClaimResult → Bool
is_repeat (raise e) = false
is_repeat (ok c) = elim c.status [ repeat ↦ true | _ ↦ false ]

abbrev pub refused : ClaimStatus → ClaimResult
refused s = record { entry = none; error = some s; status = s }

abbrev pub shown : ClaimStatus → Option ClaimStatus → Option Invite → ClaimResult
shown s e row = record { entry = Option.map row_to_dict row; error = e; status = s }

-- `current_claimant == eff_account_id`
abbrev pub is_claimant : Option ℤ → ℤ → Bool
is_claimant none account = false
is_claimant (some a) account = eq_ℤ a account

-- `SET status = 'processing', claimed_at = ?, claimant_account_id = ?, claimant_label = ?`
abbrev pub to_processing : ℕ → ℤ → Option Text → Invite → Invite
to_processing now account label r = record r {
  status = processing;
  claimed_at = some now;
  claimant_account_id = some account;
  claimant_label = label;
}

abbrev pub pending_id : Text → Invite → Bool
pending_id i r = eq_text r.id i && eq_status r.status pending

abbrev pub is_own : Option Invite → ℤ → Bool
is_own none account = false
is_own (some r) account = is_claimant r.claimant_account_id account

-- The UPDATE of `claim` with what follows it, the lost race included.
unfoldable pub claim_pending :
    ℕ → ℤ → Option Text → Invite → List Invite → ClaimResult × List Invite
claim_pending now account label r t =
    let t' = update_where (pending_id r.id) (to_processing now account label) t in
    let fresh = find_where (with_id r.id) t' in
    if count_where (pending_id r.id) t == 0
    then (
      if is_own fresh account then shown repeat (some repeat) fresh else refused already_claimed,
      t',
    )
    else (shown claimed none fresh, t')

-- What `claim` decides from the row that it selected.
unfoldable pub claim_row : ℕ → ℤ → Option Text → Invite → List Invite → ClaimResult × List Invite
claim_row now account label r t =
    if leb r.expires_at now
    then (refused expired, t)
    else if eq_status r.status revoked
    then (refused revoked_invite, t)
    else if is_claimant r.claimant_account_id account
    then (shown repeat (some repeat) (some r), t)
    else if not (eq_status r.status pending) || is_some r.claimant_account_id
    then (refused already_claimed, t)
    else claim_pending now account label r t

-- `claimant_label`: absent, or a text stripped and cut to 120 characters.
unfoldable pub label_or_raise : Value → Result (Option Text)
label_or_raise none_value = ok none
label_or_raise (str s) = ok (some (take 120 (strip s)))
label_or_raise _ = raise type_error

-- The checks of `claim`: the token, the account and the label.
unfoldable pub validate_claim : Value → Value → Value → Value → Result (Text × ℤ × Option Text)
validate_claim token account_id claimant_label telegram_id = do
  token ← text_or_raise token value_error
  raise_if (not (truthy (strip token))) value_error
  account ← int_or_raise (default_to account_id telegram_id) value_error
  raise_if (eq_ℤ account (pos 0)) value_error
  label ← label_or_raise claimant_label
  ok (strip token, account, label)

-- What `claim` does with the row that the SELECT by token hash found.
unfoldable pub claim_selected :
    ℕ → ℤ → Option Text → Option Invite → List Invite → ClaimResult × List Invite
claim_selected now account label none t = (refused not_found, t)
claim_selected now account label (some r) t = claim_row now account label r t

module _ (hash_token : Text → Text) where
  -- `claim` behind its checks.
  unfoldable pub claim_checked :
      ℕ → Result (Text × ℤ × Option Text) → List Invite → Result ClaimResult × List Invite
  claim_checked now (raise e) t = (raise e, t)
  claim_checked now (ok (token, account, label)) t =
      let row = find_where (with_hash (hash_token token)) t in
      let (c, t') = claim_selected now account label row t in (ok c, t')

  unfoldable pub claim :
      ℕ → Value → Value → Value → Value → List Invite → Result ClaimResult × List Invite
  claim now token account_id claimant_label telegram_id t =
      claim_checked now (validate_claim token account_id claimant_label telegram_id) t
