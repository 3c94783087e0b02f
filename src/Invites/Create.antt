-- ===== src/Invites/Create.antt =====
-- `SponsoredInviteStore.create` of bot/sponsored_invites.py: the checks, the idempotent request, and
-- the INSERT with its constraints. SHA-256 and the random texts are arguments.
use mosaicvpn.Prelude.{
  ℕ, ◌+◌, ◌*◌, Bool, not, ◌&&◌, ◌||◌, Option, none, some, List, [], ◌∷◌, ◌++◌, leb, if◌then◌else◌,
  length, is_some,
}
use mosaicvpn.Prelude.Int.{ℤ, pos, pos_part, ltb_ℤ, leb_ℤ, eq_ℤ}
use mosaicvpn.Prelude.Text.{Text, eq_text, strip, truthy}
use mosaicvpn.Prelude.Table.{find_where}
use mosaicvpn.Prelude.Value.{Value, none_value}
use mosaicvpn.Prelude.Result.{
  Result, ok, raise, value_error, type_error, integrity_error, ◌>>=◌, ◌>>◌, raise_if, int_or_raise,
  text_or_raise,
}
use mosaicvpn.Invites.Types.{pending, Invite, CreateArgs, Request}

abbrev pub max_ttl_seconds : ℤ
max_ttl_seconds = pos 604800

abbrev pub default_to : Value → Value → Value
default_to none_value d = d
default_to v d = v

-- The checks of `create`, in the order of the source.
unfoldable pub validate_create : CreateArgs → Result Request
validate_create args = do
  let ttl_value = default_to args.ttl_seconds args.ttl
  admin_id ← int_or_raise args.admin_id value_error
  raise_if (leb_ℤ admin_id (pos 0)) value_error
  amount ← int_or_raise args.amount type_error
  raise_if (ltb_ℤ amount (pos 1) || ltb_ℤ (pos 10000) amount) value_error
  label ← text_or_raise args.label type_error
  raise_if (not (leb 1 (length (strip label)) && leb (length (strip label)) 80)) value_error
  request_id ← text_or_raise args.request_id type_error
  raise_if (not (truthy (strip request_id))) value_error
  ttl ← int_or_raise ttl_value type_error
  raise_if (leb_ℤ ttl (pos 0) || ltb_ℤ max_ttl_seconds ttl) value_error
  ok (record {
    admin_id = admin_id;
    amount = amount;
    label = strip label;
    request_id = strip request_id;
    ttl = ttl;
  })

-- `WHERE admin_id = ? AND request_id = ?`
abbrev pub of_request : Request → Invite → Bool
of_request q r = eq_ℤ r.admin_id q.admin_id && eq_text r.request_id q.request_id

abbrev pub with_id : Text → Invite → Bool
with_id i r = eq_text r.id i

abbrev pub with_hash : Text → Invite → Bool
with_hash h r = eq_text r.token_hash h

-- The primary key and the two UNIQUE constraints.
abbrev pub conflicts : Invite → Invite → Bool
conflicts new r =
    with_id new.id r
    || with_hash new.token_hash r
    || eq_ℤ r.admin_id new.admin_id && eq_text r.request_id new.request_id

-- `INSERT`; `none` is an IntegrityError.
unfoldable pub insert_invite : Invite → List Invite → Option (List Invite)
insert_invite new t = if is_some (find_where (conflicts new) t) then none else some (t ++ new ∷ [])

-- A request id that is known: the stored row, or a conflict.
unfoldable pub same_request : Request → Invite → Result (Option Invite × Option Text)
same_request q r =
    if not (eq_ℤ r.amount q.amount) || not (eq_text r.label q.label)
    then raise value_error
    else ok (some r, none)

abbrev pub new_invite : Request → Text → Text → ℕ → Invite
new_invite q invite_id token_hash now = record {
  id = invite_id;
  admin_id = q.admin_id;
  request_id = q.request_id;
  amount = q.amount;
  label = q.label;
  token_hash = token_hash;
  status = pending;
  created_at = now;
  expires_at = now + pos_part q.ttl * 1000000;
  claimed_at = none;
  claimant_account_id = none;
  claimant_label = none;
  completed_at = none;
  result = none;
  error = none;
}

-- After an IntegrityError: the row of another writer, or the error again.
unfoldable pub reread : Request → Option Invite → Result (Option Invite × Option Text)
reread q none = raise integrity_error
reread q (some r) = same_request q r

-- What follows the INSERT.
unfoldable pub inserted :
    Request
    → Text
    → Text
    → Option (List Invite)
    → List Invite
    → Result (Option Invite × Option Text) × List Invite
inserted q invite_id token (some t') t = (ok (find_where (with_id invite_id) t', some token), t')
inserted q invite_id token none t = (reread q (find_where (of_request q) t), t)

module _ (hash_token : Text → Text) where
  -- What follows the SELECT of the request.
  unfoldable pub create_selected :
      ℕ
      → Text
      → Text
      → Request
      → Option Invite
      → List Invite
      → Result (Option Invite × Option Text) × List Invite
  create_selected now invite_id token q (some r) t = (same_request q r, t)
  create_selected now invite_id token q none t =
      let new = new_invite q invite_id (hash_token token) now in
      inserted q invite_id token (insert_invite new t) t

  unfoldable pub create_checked :
      ℕ
      → Text
      → Text
      → Result Request
      → List Invite
      → Result (Option Invite × Option Text) × List Invite
  create_checked now invite_id token (raise e) t = (raise e, t)
  create_checked now invite_id token (ok q) t =
      create_selected now invite_id token q (find_where (of_request q) t) t

  unfoldable pub create :
      ℕ
      → Text
      → Text
      → CreateArgs
      → List Invite
      → Result (Option Invite × Option Text) × List Invite
  create now invite_id token args t = create_checked now invite_id token (validate_create args) t
