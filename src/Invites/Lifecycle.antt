-- ===== src/Invites/Lifecycle.antt =====
-- One invite of bot/sponsored_invites.py along a run of calls.
use mosaicvpn.Prelude.{
  ◌≡◌, refl, ◌∙◌, Bool, true, ◌||◌, Option, none, some, List, [], ◌∷◌, arith, inl, inr, All,
  Bool-cases, if◌then◌else◌, ap, subst,
}
use mosaicvpn.Prelude.Int.{ℤ}
use mosaicvpn.Prelude.Text.{Text, eq_text}
use mosaicvpn.Prelude.Table.{find_where, update_where, find-append}
use mosaicvpn.Invites.Types.{Status, Invite, pending, processing, eq_status}
use mosaicvpn.Invites.Create.{with_id}
use mosaicvpn.Invites.Admin.{is_outcome}
use mosaicvpn.Invites.Steps.{
  IsConsistent, IsValid, Edge, by_claim, by_finish, by_revoke, Step, stay, insert, edit, Call,
  after, run,
}
use mosaicvpn.Invites.Refines.{after-Step}
use mosaicvpn.Invites.Validity.{Step-IsValid}

-- A status that is, or comes later than, another: pending before all, processing before the three
-- outcomes.
abbrev pub advances : Status → Status → Bool
advances pending s = true
advances processing s = eq_status s processing || is_outcome s
advances s s' = eq_status s s'

abbrev pub Kept : Option ℤ → Option ℤ → Type 0
Kept none o = Unit
Kept (some a) o = o ≡ some a

pub record Follows (r r' : Invite) : Type 0 where
  pub id : r'.id ≡ r.id
  pub admin_id : r'.admin_id ≡ r.admin_id
  pub request_id : r'.request_id ≡ r.request_id
  pub amount : r'.amount ≡ r.amount
  pub label : r'.label ≡ r.label
  pub token_hash : r'.token_hash ≡ r.token_hash
  pub created_at : r'.created_at ≡ r.created_at
  pub expires_at : r'.expires_at ≡ r.expires_at
  pub status : advances r.status r'.status ≡ true
  pub claimant : Kept r.claimant_account_id r'.claimant_account_id

advances_refl : (s : Status) → advances s s ≡ true
advances_refl pending = refl
advances_refl s = refl

advances_trans : (a b c : Status) → advances a b ≡ true → advances b c ≡ true → advances a c ≡ true
advances_trans pending b c h k = refl
advances_trans a b c h k = ground arith

Kept-refl : (o : Option ℤ) → Kept o o
Kept-refl none = tt
Kept-refl (some a) = refl

Kept-trans : (a b c : Option ℤ) → Kept a b → Kept b c → Kept a c
Kept-trans none b c h k = tt
Kept-trans (some a) none c h k = cc
Kept-trans (some a) (some b) c h k = k ∙ h

Follows-refl : (r : Invite) → Follows r r
Follows-refl r = record {
  id = refl;
  admin_id = refl;
  request_id = refl;
  amount = refl;
  label = refl;
  token_hash = refl;
  created_at = refl;
  expires_at = refl;
  status = advances_refl r.status;
  claimant = Kept-refl r.claimant_account_id;
}

Follows-trans : {a b c : Invite} → Follows a b → Follows b c → Follows a c
Follows-trans {a} {b} {c} h k = record {
  id = k.id ∙ h.id;
  admin_id = k.admin_id ∙ h.admin_id;
  request_id = k.request_id ∙ h.request_id;
  amount = k.amount ∙ h.amount;
  label = k.label ∙ h.label;
  token_hash = k.token_hash ∙ h.token_hash;
  created_at = k.created_at ∙ h.created_at;
  expires_at = k.expires_at ∙ h.expires_at;
  status = advances_trans a.status b.status c.status h.status k.status;
  claimant =
      Kept-trans a.claimant_account_id b.claimant_account_id c.claimant_account_id h.claimant
        k.claimant;
}

Edge-Follows : {r r' : Invite} → Edge r r' → IsConsistent r → Follows r r'
Edge-Follows (by_claim now account label p) c = ground arith
Edge-Follows (by_finish now s result error p o) c = ground arith
Edge-Follows (by_revoke now p l) c = ground arith

edited-Follows :
    (p : Invite → Bool) (f : Invite → Invite)
    → ((r : Invite) → p r ≡ true → Edge r (f r))
    → (r : Invite) → IsConsistent r
    → Follows r (if p r then f r else r)
edited-Follows p f edges r c = elim (Bool-cases (p r)) [
  | inl h ↦ rw h (Edge-Follows (edges r h) c)
  | inr h ↦ rw h (Follows-refl r)
]

-- What a SELECT finds that asks only for columns which never change.
module _ (q : Invite → Bool) (steady : (r r' : Invite) → Follows r r' → q r' ≡ q r) where
  find-edit :
      (p : Invite → Bool) (f : Invite → Invite)
      → ((r : Invite) → p r ≡ true → Edge r (f r))
      → (t : List Invite) {r : Invite} → All IsConsistent t
      → find_where q t ≡ some r
      → (r' : Invite) × (find_where q (update_where p f t) ≡ some r') × Follows r r'
  find-edit p f edges [] v h = cc
  find-edit p f edges (x ∷ t) {r} v h =
      let y : Invite = if p x then f x else x in
      let fy : Follows x y = edited-Follows p f edges x v.0 in
      elim (Bool-cases (q x)) [
        | inl e ↦
            let same : x ≡ r = ground arith in
            (y, rw (steady x y fy, e) refl, subst (λ z. Follows z y) same fy)
        | inr e ↦ rw (steady x y fy, e) (find-edit p f edges t v.1 (ground arith))
      ]

  find-Step :
      {t t' : List Invite}
      → Step t t'
      → IsValid t
      → {r : Invite} → find_where q t ≡ some r
      → (r' : Invite) × (find_where q t' ≡ some r') × Follows r r'
  find-Step stay v {r} h = (r, h, Follows-refl r)
  find-Step {t} (insert new c p free) v {r} h = (r, find-append q t new h, Follows-refl r)
  find-Step {t} (edit p f edges) v h = find-edit p f edges t v.rows h

  pub find-run :
      (hash : Text → Text) (cs : List Call) (t : List Invite)
      → IsValid t
      → {r : Invite} → find_where q t ≡ some r
      → (r' : Invite) × (find_where q (run hash cs t) ≡ some r') × Follows r r'
  unfolding run
  find-run hash [] t v {r} h = (r, h, Follows-refl r)
  find-run hash (c ∷ cs) t v h =
      let step = after-Step hash c t in
      let (r1, h1, f1) = find-Step step v h in
      let (r2, h2, f2) = find-run hash cs (after hash c t) (Step-IsValid step v) h1 in
      (r2, h2, Follows-trans f1 f2)

-- In a valid table an invite, found by its id, is never lost by a run of calls: it is found again
-- with the same owner, request, amount, label, token hash and lifetime, its status has only moved
-- forward (pending, then processing, then an outcome; or pending, then revoked), and a claimant
-- that it had is the claimant that it has.
pub run-Follows :
    (hash : Text → Text) (cs : List Call) (t : List Invite) (i : Text) {r : Invite}
    → IsValid t
    → find_where (with_id i) t ≡ some r
    → (r' : Invite) × (find_where (with_id i) (run hash cs t) ≡ some r') × Follows r r'
run-Follows hash cs t i v h =
    find-run (with_id i) (λ r r' f. ap (λ (k : Text). eq_text k i) f.id) hash cs t v h
