-- ===== src/Invites/Admin.antt =====
-- `SponsoredInviteStore.finish`, `revoke`, `get` and `list` of bot/sponsored_invites.py.
use mathlib.Core.Option
use mosaicvpn.Prelude.{
  ℕ, Bool, true, false, not, ◌&&◌, Option, none, some, List, [], ◌∷◌, ltb, if◌then◌else◌, map,
}
use mosaicvpn.Prelude.Int.{ℤ, pos, leb_ℤ, eq_ℤ}
use mosaicvpn.Prelude.Text.{Text, eq_text, strip, truthy}
use mosaicvpn.Prelude.Table.{find_where, filter_where, update_where, count_where}
use mosaicvpn.Prelude.Value.{Value, none_value, int, str}
use mosaicvpn.Prelude.Result.{
  Result, ok, raise, value_error, ◌>>=◌, ◌>>◌, raise_if, int_or_raise, text_or_raise,
}
use mosaicvpn.Invites.Types.{
  Status, pending, processing, succeeded, failed, uncertain, revoked, eq_status, Invite, Shown,
  row_to_dict,
}
use mosaicvpn.Invites.Create.{with_id}

-- A non-empty text, stripped.
unfoldable pub id_or_raise : Value → Result Text
id_or_raise v = do
  s ← text_or_raise v value_error
  raise_if (not (truthy (strip s))) value_error
  ok (strip s)

abbrev pub is_outcome : Status → Bool
is_outcome succeeded = true
is_outcome failed = true
is_outcome uncertain = true
is_outcome _ = false

abbrev pub processing_id : Text → Invite → Bool
processing_id i r = eq_text r.id i && eq_status r.status processing

abbrev pub to_finished : ℕ → Status → Option Text → Option Text → Invite → Invite
to_finished now status result error r = record r {
  status = status;
  completed_at = some now;
  result = result;
  error = error;
}

unfoldable pub finish_checked :
    ℕ → Result Text → Status → Option Text → Option Text → List Invite → Result Bool × List Invite
finish_checked now (raise e) status result error t = (raise e, t)
finish_checked now (ok i) status result error t =
    if not (is_outcome status) then (raise value_error, t) else (
      ok (ltb 0 (count_where (processing_id i) t)),
      update_where (processing_id i) (to_finished now status result error) t,
    )

-- A text that names no status is refused as a status that is no outcome is, so `status` is typed.
unfoldable pub finish :
    ℕ → Value → Status → Option Text → Option Text → List Invite → Result Bool × List Invite
finish now invite_id status result error t =
    finish_checked now (id_or_raise invite_id) status result error t

-- `WHERE id = ? AND admin_id = ? AND status = 'pending' AND expires_at > ?`
abbrev pub revocable : ℕ → Text → ℤ → Invite → Bool
revocable now i admin r =
    eq_text r.id i && eq_ℤ r.admin_id admin && eq_status r.status pending && ltb now r.expires_at

abbrev pub to_revoked : ℕ → Invite → Invite
to_revoked now r = record r { status = revoked; completed_at = some now }

-- `_is_valid_int(admin_id)` and `admin_id > 0`
unfoldable pub admin_or_raise : Value → Result ℤ
admin_or_raise v = do n ← int_or_raise v value_error; raise_if (leb_ℤ n (pos 0)) value_error; ok n

unfoldable pub revoke_args : Value → Value → Result (Text × ℤ)
revoke_args invite_id admin_id = do
  i ← id_or_raise invite_id
  admin ← admin_or_raise admin_id
  ok (i, admin)

unfoldable pub revoke_checked : ℕ → Result (Text × ℤ) → List Invite → Result Bool × List Invite
revoke_checked now (raise e) t = (raise e, t)
revoke_checked now (ok (i, admin)) t = (
  ok (ltb 0 (count_where (revocable now i admin) t)),
  update_where (revocable now i admin) (to_revoked now) t,
)

unfoldable pub revoke : ℕ → Value → Value → List Invite → Result Bool × List Invite
revoke now invite_id admin_id t = revoke_checked now (revoke_args invite_id admin_id) t

-- `get`; `admin_id` is `none_value` when the caller gives no owner.
unfoldable pub get_for : Text → Value → List Invite → Option Invite
get_for i none_value t = find_where (with_id i) t
get_for i (int n) t =
    if leb_ℤ n (pos 0) then none else find_where (λ r. eq_text r.id i && eq_ℤ r.admin_id n) t
get_for i _ t = none

unfoldable pub get : Value → Value → List Invite → Option Shown
get (str s) admin_id t =
    if truthy (strip s) then Option.map row_to_dict (get_for (strip s) admin_id t) else none
get _ admin_id t = none

-- `ORDER BY created_at DESC`; rows of one instant keep their order.
unfoldable pub insert_by_created : Invite → List Invite → List Invite
insert_by_created r [] = r ∷ []
insert_by_created r (x ∷ xs) =
    let rest = insert_by_created r xs in
    if ltb r.created_at x.created_at then x ∷ rest else r ∷ x ∷ xs

unfoldable pub order_by_created : List Invite → List Invite
order_by_created [] = []
order_by_created (r ∷ rs) = insert_by_created r (order_by_created rs)

unfoldable pub list : Value → List Invite → Result (List Shown)
list admin_id t = do
  admin ← admin_or_raise admin_id
  ok (map row_to_dict (order_by_created (filter_where (λ r. eq_ℤ r.admin_id admin) t)))
