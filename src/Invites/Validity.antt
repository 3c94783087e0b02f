-- ===== src/Invites/Validity.antt =====
-- The constraints of the invite table of bot/sponsored_invites.py, along runs of calls.
use mosaicvpn.Prelude.{
  ◌≡◌, refl, ◌∙◌, Bool, true, false, none, List, [], ◌∷◌, ◌++◌, arith, inl, inr, All, All-append,
  Bool-cases, if◌then◌else◌,
}
use mosaicvpn.Prelude.Text.{Text, eq_text_sym}
use mosaicvpn.Prelude.Int.{eq_ℤ_sym}
use mosaicvpn.Prelude.Table.{find_where, update_where, All-update}
use mosaicvpn.Invites.Types.{Invite}
use mosaicvpn.Invites.Create.{conflicts}
use mosaicvpn.Invites.Steps.{
  IsConsistent, AreDistinct, IsValid, Edge, by_claim, by_finish, by_revoke, Step, stay, insert,
  edit, Call, after, run,
}
use mosaicvpn.Invites.Refines.{after-Step}

pub Edge-IsConsistent : {r r' : Invite} → Edge r r' → IsConsistent r → IsConsistent r'
Edge-IsConsistent (by_claim now account label p) c = ground arith
Edge-IsConsistent (by_finish now s result error p o) c = ground arith
Edge-IsConsistent (by_revoke now p l) c = ground arith

-- An edge keeps the columns with constraints.
Edge-conflicts_left : {r r' : Invite} (x : Invite) → Edge r r' → conflicts r' x ≡ conflicts r x
Edge-conflicts_left x (by_claim now account label p) = refl
Edge-conflicts_left x (by_finish now s result error p o) = refl
Edge-conflicts_left x (by_revoke now p l) = refl

Edge-conflicts_right : {r r' : Invite} (x : Invite) → Edge r r' → conflicts x r' ≡ conflicts x r
Edge-conflicts_right x (by_claim now account label p) = refl
Edge-conflicts_right x (by_finish now s result error p o) = refl
Edge-conflicts_right x (by_revoke now p l) = refl

conflicts_sym : (x y : Invite) → conflicts x y ≡ conflicts y x
conflicts_sym x y =
    rw
      (
        eq_text_sym y.id x.id,
        eq_text_sym y.token_hash x.token_hash,
        eq_text_sym y.request_id x.request_id,
        eq_ℤ_sym y.admin_id x.admin_id,
      )
      refl

module _ (p : Invite → Bool) (f : Invite → Invite)
    (edges : (r : Invite) → p r ≡ true → Edge r (f r)) where
  edited_left : (x r : Invite) → conflicts (if p r then f r else r) x ≡ conflicts r x
  edited_left x r = elim (Bool-cases (p r)) [
    | inl h ↦ rw h (Edge-conflicts_left x (edges r h))
    | inr h ↦ rw h refl
  ]

  edited_right : (x r : Invite) → conflicts x (if p r then f r else r) ≡ conflicts x r
  edited_right x r = elim (Bool-cases (p r)) [
    | inl h ↦ rw h (Edge-conflicts_right x (edges r h))
    | inr h ↦ rw h refl
  ]

  apart-update :
      (r : Invite) (t : List Invite)
      → All (λ x. conflicts x r ≡ false) t
      → All (λ x. conflicts x (if p r then f r else r) ≡ false) (update_where p f t)
  apart-update r [] h = h
  apart-update r (x ∷ t) h =
      (edited_right (if p x then f x else x) r ∙ edited_left r x ∙ h.0, apart-update r t h.1)

  AreDistinct-update : (t : List Invite) → AreDistinct t → AreDistinct (update_where p f t)
  AreDistinct-update [] h = h
  AreDistinct-update (r ∷ t) h = (apart-update r t h.0, AreDistinct-update t h.1)

AreDistinct-append :
    (new : Invite) (t : List Invite)
    → find_where (conflicts new) t ≡ none
    → AreDistinct t
    → AreDistinct (t ++ new ∷ [])
AreDistinct-append new [] h d = (tt, tt)
AreDistinct-append new (r ∷ t) h d = (
  All-append (λ x. conflicts x r ≡ false) t (new ∷ []) d.0 (ground arith, tt),
  AreDistinct-append new t (ground arith) d.1,
)

pub Step-IsValid : {t t' : List Invite} → Step t t' → IsValid t → IsValid t'
Step-IsValid stay v = v
Step-IsValid {t} (insert new c p free) v = record {
  rows = All-append IsConsistent t (new ∷ []) v.rows (c, tt);
  distinct = AreDistinct-append new t free v.distinct;
}
Step-IsValid {t} (edit p f edges) v = record {
  rows = All-update IsConsistent p f (λ r h c. Edge-IsConsistent (edges r h) c) t v.rows;
  distinct = AreDistinct-update p f edges t v.distinct;
}

-- From a valid table, every run of calls of `create`, `claim`, `finish` and `revoke`, with any
-- arguments, ends in a valid table: no two rows share an id, a token hash or an administrator's
-- request id; every amount lies in 1..10000, every label has 1 to 80 characters, every lifetime is
-- positive and at most a week; and a row has a claimant and a claim time exactly in the states
-- processing, succeeded, failed and uncertain, and an end time exactly in the states that are over.
pub run-IsValid :
    (hash : Text → Text) (cs : List Call) (t : List Invite) → IsValid t → IsValid (run hash cs t)
unfolding run
run-IsValid hash [] t v = v
run-IsValid hash (c ∷ cs) t v =
    run-IsValid hash cs (after hash c t) (Step-IsValid (after-Step hash c t) v)
