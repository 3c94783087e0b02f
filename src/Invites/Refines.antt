-- ===== src/Invites/Refines.antt =====
-- The methods of bot/sponsored_invites.py against the transition system of an invite.
use mosaicvpn.Prelude.{
  ℕ, ◌≡◌, refl, Bool, true, false, Option, none, some, List, arith, inl, inr, Option-cases,
  Bool-cases, if◌then◌else◌,
}
use mosaicvpn.Prelude.Int.{ℤ}
use mosaicvpn.Prelude.Text.{Text}
use mosaicvpn.Prelude.Table.{find_where, update_where}
use mosaicvpn.Prelude.Result.{Result, ok, raise}
use mosaicvpn.Invites.Types.{Status, pending, Invite, CreateArgs, Request}
use mosaicvpn.Invites.Create.{
  validate_create, conflicts, insert_invite, new_invite, inserted, create_selected, create_checked,
  create,
}
use mosaicvpn.Invites.Claim.{
  to_processing, pending_id, claim_pending, claim_row, claim_selected, claim_checked, claim,
}
use mosaicvpn.Invites.Admin.{
  is_outcome, processing_id, to_finished, finish_checked, finish, revocable, to_revoked,
  revoke_checked, revoke,
}
use mosaicvpn.Invites.Steps.{
  IsConsistent, Edge, by_claim, by_finish, by_revoke, Step, stay, insert, edit, Call, create_call,
  claim_call, finish_call, revoke_call, after,
}

pending_id-Edge :
    (now : ℕ) (account : ℤ) (label : Option Text) (i : Text) (r : Invite)
    → pending_id i r ≡ true
    → Edge r (to_processing now account label r)
pending_id-Edge now account label i r h = by_claim now account label (ground arith)

-- A branch that leaves the table in one of two ways.
Step-if :
    {A : Type 0} (b : Bool) {t : List Invite} (x y : A × List Invite)
    → Step t x.1
    → Step t y.1
    → Step t (if b then x else y).1
Step-if true x y h k = h
Step-if false x y h k = k

claim_pending-Step :
    (now : ℕ) (account : ℤ) (label : Option Text) (r : Invite) (t : List Invite)
    → Step t (claim_pending now account label r t).1
unfolding claim_pending
claim_pending-Step now account label r t =
    let step : Step t (update_where (pending_id r.id) (to_processing now account label) t) =
      edit (pending_id r.id) (to_processing now account label)
        (pending_id-Edge now account label r.id) in
    Step-if _ _ _ step step

claim_row-Step :
    (now : ℕ) (account : ℤ) (label : Option Text) (r : Invite) (t : List Invite)
    → Step t (claim_row now account label r t).1
unfolding claim_row
claim_row-Step now account label r t =
    search (Step-if, stay, claim_pending-Step now account label r t) depth 10

new_invite-IsConsistent :
    (args : CreateArgs) (q : Request) (i h : Text) (now : ℕ)
    → validate_create args ≡ ok q
    → IsConsistent (new_invite q i h now)
unfolding validate_create
new_invite-IsConsistent args q i h now e = ground arith

claim_selected-Step :
    (now : ℕ) (account : ℤ) (label : Option Text) (o : Option Invite) (t : List Invite)
    → Step t (claim_selected now account label o t).1
unfolding claim_selected
claim_selected-Step now account label none t = stay
claim_selected-Step now account label (some r) t = claim_row-Step now account label r t

pub claim_checked-Step :
    (hash : Text → Text) (now : ℕ) (v : Result (Text × ℤ × Option Text)) (t : List Invite)
    → Step t (claim_checked hash now v t).1
unfolding claim_checked
claim_checked-Step hash now (raise e) t = stay
claim_checked-Step hash now (ok (token, account, label)) t =
    claim_selected-Step now account label _ t

inserted-Step :
    (q : Request) (i token : Text) (new : Invite) (t : List Invite)
    → IsConsistent new
    → new.status ≡ pending
    → Step t (inserted q i token (insert_invite new t) t).1
unfolding inserted insert_invite
inserted-Step q i token new t c p = elim (Option-cases (find_where (conflicts new) t)) [
  | inl free ↦ rw free (insert new c p free)
  | inr (r, taken) ↦ rw taken stay
]

create_selected-Step :
    (hash : Text → Text) (now : ℕ) (i token : Text) (args : CreateArgs) (q : Request)
    → validate_create args ≡ ok q
    → (o : Option Invite) (t : List Invite) → Step t (create_selected hash now i token q o t).1
unfolding create_selected
create_selected-Step hash now i token args q e (some r) t = stay
create_selected-Step hash now i token args q e none t =
    inserted-Step q i token (new_invite q i (hash token) now) t
      (new_invite-IsConsistent args q i (hash token) now e) refl

pub create_checked-Step :
    (hash : Text → Text) (now : ℕ) (i token : Text) (args : CreateArgs) (v : Result Request)
    → validate_create args ≡ v
    → (t : List Invite) → Step t (create_checked hash now i token v t).1
unfolding create_checked
create_checked-Step hash now i token args (raise x) e t = stay
create_checked-Step hash now i token args (ok q) e t =
    create_selected-Step hash now i token args q e _ t

pub finish_checked-Step :
    (now : ℕ) (v : Result Text) (s : Status) (result error : Option Text) (t : List Invite)
    → Step t (finish_checked now v s result error t).1
unfolding finish_checked
finish_checked-Step now (raise e) s result error t = stay
finish_checked-Step now (ok i) s result error t = elim (Bool-cases (is_outcome s)) [
  | inl o ↦ rw o (
      edit (processing_id i) (to_finished now s result error)
        (λ r h. by_finish now s result error (ground arith) o))
  | inr o ↦ rw o stay
]

pub revoke_checked-Step :
    (now : ℕ) (v : Result (Text × ℤ)) (t : List Invite) → Step t (revoke_checked now v t).1
unfolding revoke_checked
revoke_checked-Step now (raise e) t = stay
revoke_checked-Step now (ok (i, admin)) t =
    edit (revocable now i admin) (to_revoked now)
      (λ r h. by_revoke now (ground arith) (ground arith))

-- Whatever the call, its arguments, the time and the random texts, and whether it returns or raises:
-- the table is left alone, gains one consistent pending row that clashes with no other, or has rows
-- moved along the edges claim (from pending), finish (from processing) and revoke (from pending,
-- before expiry).
pub after-Step : (hash : Text → Text) (c : Call) (t : List Invite) → Step t (after hash c t)
unfolding after create claim finish revoke
after-Step hash (create_call now i token args) t =
    create_checked-Step hash now i token args _ refl t
after-Step hash (claim_call now token account label telegram) t = claim_checked-Step hash now _ t
after-Step hash (finish_call now i s result error) t = finish_checked-Step now _ s result error t
after-Step hash (revoke_call now i admin) t = revoke_checked-Step now _ t
