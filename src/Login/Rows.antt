-- ===== src/Login/Rows.antt =====
-- The row of one request id under the statements of bot/onboarding_auth.py.
use mathlib.Core.Option
use mosaicvpn.Prelude.{
  ℕ, ◌≡◌, refl, ◌∙◌, Bool, true, Option, none, some, List, [], ◌∷◌, ◌++◌, arith, inl, inr, sym,
  if◌then◌else◌, Bool-cases,
}
use mosaicvpn.Prelude.Text.{Text, eq_text, eq_text_iff}
use mosaicvpn.Prelude.Table.{
  find_where, update_where, delete_where, find-update, find-holds, find-append_new,
}
use mosaicvpn.Login.Types.{Challenge}
use mosaicvpn.Login.Store.{with_request}
use mosaicvpn.Login.Steps.{Edge, RowStep, stay, moved, AreDistinct}

-- Rows found by their request ids are one row if the ids are equal.
pub same_row :
    (t : List Challenge) (i j : Text) {x r : Challenge}
    → find_where (with_request i) t ≡ some x
    → find_where (with_request j) t ≡ some r
    → eq_text x.request_id r.request_id ≡ true
    → x ≡ r
same_row t i j {x} {r} hx hr e =
    let xi : x.request_id ≡ i = (eq_text_iff _ _).0 (find-holds (with_request i) t {r = x} hx) in
    let rj : r.request_id ≡ j = (eq_text_iff _ _).0 (find-holds (with_request j) t {r = r} hr) in
    let xr : x.request_id ≡ r.request_id = (eq_text_iff _ _).0 e in
    let ij : i ≡ j = sym xi ∙ xr ∙ rj in
    let hr' : find_where (with_request i) t ≡ some r = rw ij hr in cc

module _ (max_attempts : ℕ) (can_mint : Bool) (i : Text) where
  pub update-RowStep :
      (p : Challenge → Bool) (f : Challenge → Challenge) (t : List Challenge)
      → ((x : Challenge) → with_request i (f x) ≡ with_request i x)
      → ((r : Challenge)
          → find_where (with_request i) t ≡ some r
          → p r ≡ true
          → Edge max_attempts r (f r))
      → RowStep max_attempts can_mint
          (find_where (with_request i) t)
          (find_where (with_request i) (update_where p f t))
  update-RowStep p f t keep edges =
      rw (find-update (with_request i) p f keep t) (by_row (find_where (with_request i) t) refl)
    where
      by_row :
          (o : Option Challenge)
          → find_where (with_request i) t ≡ o
          → RowStep max_attempts can_mint o (Option.map (λ r. if p r then f r else r) o)
      by_row none e = stay
      by_row (some r) e = elim (Bool-cases (p r)) [
        | inl h ↦ rw h (moved (edges r e h))
        | inr h ↦ rw h stay
      ]

abbrev pub unless_deleted : (Challenge → Bool) → Option Challenge → Option Challenge
unless_deleted p none = none
unless_deleted p (some r) = if p r then none else some r

-- A deleted row leaves no other of its request id.
pub find-delete :
    (p : Challenge → Bool) (i : Text) (t : List Challenge)
    → AreDistinct t
    → find_where (with_request i) (delete_where p t)
      ≡ unless_deleted p (find_where (with_request i) t)
find-delete p i [] d = refl
find-delete p i (x ∷ t) d = elim (Bool-cases (with_request i x)) [
  | inr other ↦ ground (arith, find-delete p i t d.1)
  | inl own ↦
      let same : x.request_id ≡ i = (eq_text_iff _ _).0 own in
      let last : find_where (with_request i) t ≡ none = rw (← same) d.0 in
      ground (arith, find-delete p i t d.1)
]

-- An UPDATE that keeps the request ids brings no row of an id that is missing.
find_none-update :
    (i : Text) (p : Challenge → Bool) (f : Challenge → Challenge)
    → ((j : Text) (x : Challenge) → with_request j (f x) ≡ with_request j x)
    → (t : List Challenge) → find_where (with_request i) t ≡ none
    → find_where (with_request i) (update_where p f t) ≡ none
find_none-update i p f keep t h = rw (find-update (with_request i) p f (keep i) t, h) refl

pub AreDistinct-update :
    (p : Challenge → Bool) (f : Challenge → Challenge)
    → ((x : Challenge) → (f x).request_id ≡ x.request_id)
    → (t : List Challenge) → AreDistinct t
    → AreDistinct (update_where p f t)
AreDistinct-update p f keep [] d = d
AreDistinct-update p f keep (x ∷ t) d = (
  rw same_id (find_none-update x.request_id p f (λ j y. rw (keep y) refl) t d.0),
  AreDistinct-update p f keep t d.1,
)
  where
    same_id : (if p x then f x else x).request_id ≡ x.request_id
    same_id = ground (arith, keep x)

pub AreDistinct-append :
    (new : Challenge) (t : List Challenge)
    → find_where (with_request new.request_id) t ≡ none
    → AreDistinct t
    → AreDistinct (t ++ new ∷ [])
AreDistinct-append new [] h d = (refl, tt)
AreDistinct-append new (x ∷ t) h d = (
  ground (
    arith,
    find-append_new (with_request x.request_id) t new d.0,
    eq_text_iff new.request_id x.request_id,
    eq_text_iff x.request_id new.request_id,
  ),
  AreDistinct-append new t (ground arith) d.1,
)

pub AreDistinct-delete :
    (p : Challenge → Bool) (t : List Challenge) → AreDistinct t → AreDistinct (delete_where p t)
AreDistinct-delete p [] d = d
AreDistinct-delete p (x ∷ t) d = elim (Bool-cases (p x)) [
  | inl h ↦ rw h (AreDistinct-delete p t d.1)
  | inr h ↦ rw h (rw (find-delete p x.request_id t d.1, d.0) refl, AreDistinct-delete p t d.1)
]
