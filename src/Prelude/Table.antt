-- ===== src/Prelude/Table.antt =====
-- SQL tables as lists of rows in insertion order: SELECT of the first row, UPDATE, DELETE and the
-- row count of a statement, each with its WHERE test.
use Prim.Native.Nat.{ℕ, suc, ◌+◌, ◌≤◌}
use mathlib.Core.Path.{◌≡◌, refl, subst, ap, ◌∙◌}
use mathlib.Core.Logic.{inl, inr}
use mathlib.Core.Bool.{Bool, true, false}
use mathlib.Core.List.{List, [], ◌∷◌, ◌++◌}
use mathlib.Core.Option
use mathlib.Core.Option.{Option, none, some}
use native.Mathlib.Omega.{arith}
use mosaicvpn.Prelude.Tests.{Bool-cases, Option-cases, is_some, if◌then◌else◌}
use mosaicvpn.Prelude.Lists.{All}

module _ {ℓ} {A : Type ℓ} where
  -- `SELECT * … WHERE p` and `fetchone()`
  abbrev pub find_where : (A → Bool) → List A → Option A
  find_where p [] = none
  find_where p (r ∷ rs) = if p r then some r else find_where p rs

  -- `SELECT * … WHERE p` and `fetchall()`
  abbrev pub filter_where : (A → Bool) → List A → List A
  filter_where p [] = []
  filter_where p (r ∷ rs) = let rest = filter_where p rs in if p r then r ∷ rest else rest

  -- `UPDATE … SET f WHERE p`
  abbrev pub update_where : (A → Bool) → (A → A) → List A → List A
  update_where p f [] = []
  update_where p f (r ∷ rs) = (if p r then f r else r) ∷ update_where p f rs

  -- `DELETE … WHERE p`
  abbrev pub delete_where : (A → Bool) → List A → List A
  delete_where p [] = []
  delete_where p (r ∷ rs) = let rest = delete_where p rs in if p r then rest else r ∷ rest

  -- `cursor.rowcount` of a statement whose WHERE is `p`
  abbrev pub count_where : (A → Bool) → List A → ℕ
  count_where p [] = 0
  count_where p (r ∷ rs) = let rest = count_where p rs in if p r then suc rest else rest

  -- an UPDATE that keeps what a later SELECT asks for acts on the selected row
  pub find-update :
      (q p : A → Bool) (f : A → A)
      → ((r : A) → q (f r) ≡ q r)
      → (rs : List A)
      → find_where q (update_where p f rs)
        ≡ Option.map (λ r. if p r then f r else r) (find_where q rs)
  find-update q p f keep [] = refl
  find-update q p f keep (r ∷ rs) = ground (arith, keep r, find-update q p f keep rs)

  -- an INSERT does not change which row an earlier row's SELECT finds
  pub find-append :
      (q : A → Bool) (rs : List A) {r : A} (new : A)
      → find_where q rs ≡ some r
      → find_where q (rs ++ new ∷ []) ≡ some r
  find-append q [] new h = ground arith
  find-append q (x ∷ rs) {r} new h = ground (arith, find-append q rs {r = r} new)

  pub find-append_new :
      (q : A → Bool) (rs : List A) (new : A)
      → find_where q rs ≡ none
      → find_where q (rs ++ new ∷ []) ≡ (if q new then some new else none)
  find-append_new q [] new h = refl
  find-append_new q (x ∷ rs) new h = ground (arith, find-append_new q rs new)

  -- what SELECT finds passes its test
  pub find-holds : (q : A → Bool) (rs : List A) {r : A} → find_where q rs ≡ some r → q r ≡ true
  find-holds q [] h = ground arith
  find-holds q (x ∷ rs) {r} h = ground (arith, find-holds q rs {r = r})

  -- if SELECT finds nothing, a statement with the same test changes no row
  pub count_of_none : (q : A → Bool) (rs : List A) → find_where q rs ≡ none → count_where q rs ≡ 0
  count_of_none q [] h = refl
  count_of_none q (x ∷ rs) h = ground (arith, count_of_none q rs)

  pub count_of_some :
      (q : A → Bool) (rs : List A) {r : A} → find_where q rs ≡ some r → 1 ≤ count_where q rs
  count_of_some q [] h = ground arith
  count_of_some q (x ∷ rs) {r} h = ground (arith, count_of_some q rs {r = r})

  -- a stronger test finds nothing either
  pub find-none :
      (p q : A → Bool)
      → ((r : A) → p r ≡ true → q r ≡ true)
      → (rs : List A) → find_where q rs ≡ none
      → find_where p rs ≡ none
  find-none p q imp [] h = refl
  find-none p q imp (x ∷ rs) h = ground (arith, imp x, find-none p q imp rs)

  -- a statement whose test holds of a row that is found changes a row
  pub count_of_found :
      (q p : A → Bool) (rs : List A) {r : A}
      → find_where q rs ≡ some r
      → p r ≡ true
      → 1 ≤ count_where p rs
  count_of_found q p [] h e = cc
  count_of_found q p (x ∷ rs) {r} h e = elim (Bool-cases (q x)) [
    | inl t ↦ let same : x ≡ r = ground arith in let holds : p x ≡ true = rw same e in ground arith
    | inr t ↦ ground (arith, count_of_found q p rs {r = r} (ground arith) e)
  ]

  pub update_of_none :
      (q : A → Bool) (f : A → A) (rs : List A) → find_where q rs ≡ none → update_where q f rs ≡ rs
  update_of_none q f [] h = refl
  update_of_none q f (x ∷ rs) h = ground (arith, update_of_none q f rs)

  -- a DELETE keeps the found row if its test fails there
  pub find-delete_kept :
      (q p : A → Bool) (rs : List A) {r : A}
      → find_where q rs ≡ some r
      → p r ≡ false
      → find_where q (delete_where p rs) ≡ some r
  find-delete_kept q p [] h k = ground arith
  find-delete_kept q p (x ∷ rs) {r} h k = elim (Bool-cases (q x)) [
    | inl t ↦
        let same : x ≡ r = ground arith in
        let kept : p x ≡ false = rw same k in rw kept (rw t (ap some same))
    | inr t ↦ elim (Bool-cases (p x)) [
      | inl gone ↦ rw gone (find-delete_kept q p rs {r = r} (ground arith) k)
      | inr kept ↦ rw (kept, t) (find-delete_kept q p rs {r = r} (ground arith) k)
    ]
  ]

  -- an UPDATE keeps the found row if its test fails there
  pub find-update_kept :
      (q p : A → Bool) (f : A → A)
      → ((x : A) → q (f x) ≡ q x)
      → (rs : List A) {r : A} → find_where q rs ≡ some r
      → p r ≡ false
      → find_where q (update_where p f rs) ≡ some r
  find-update_kept q p f keep rs h k = find-update q p f keep rs ∙ rw (h, k) refl

  -- and changes it if the test holds
  pub find-update_hit :
      (q p : A → Bool) (f : A → A)
      → ((x : A) → q (f x) ≡ q x)
      → (rs : List A) {r : A} → find_where q rs ≡ some r
      → p r ≡ true
      → find_where q (update_where p f rs) ≡ some (f r)
  find-update_hit q p f keep rs h k = find-update q p f keep rs ∙ rw (h, k) refl

  pub find-delete_none :
      (q p : A → Bool) (rs : List A)
      → find_where q rs ≡ none
      → find_where q (delete_where p rs) ≡ none
  find-delete_none q p [] h = refl
  find-delete_none q p (x ∷ rs) h = ground (arith, find-delete_none q p rs)

  -- a DELETE by a test leaves no row that meets it
  pub find-delete_own : (p : A → Bool) (rs : List A) → find_where p (delete_where p rs) ≡ none
  find-delete_own p [] = refl
  find-delete_own p (x ∷ rs) = ground (arith, find-delete_own p rs)

  pub append-some :
      (q : A → Bool) (rs : List A) (new : A)
      → is_some (find_where q rs) ≡ true
      → is_some (find_where q (rs ++ new ∷ [])) ≡ true
  append-some q rs new h = elim (Option-cases (find_where q rs)) [
    | inl absent ↦ absurd (ground arith)
    | inr (r, found) ↦ rw (find-append q rs new found) refl
  ]

  pub append-own :
      (q : A → Bool) (rs : List A) (new : A)
      → q new ≡ true
      → is_some (find_where q (rs ++ new ∷ [])) ≡ true
  append-own q [] new own = rw own refl
  append-own q (x ∷ rs) new own = ground (arith, append-own q rs new own)

  pub count-append :
      (p : A → Bool) (rs : List A) (new : A)
      → count_where p (rs ++ new ∷ []) ≡ count_where p rs + (if p new then 1 else 0)
  count-append p [] new = ground arith
  count-append p (x ∷ rs) new = ground (arith, count-append p rs new)

  pub count-delete-le :
      (p q : A → Bool) (rs : List A) → count_where p (delete_where q rs) ≤ count_where p rs
  count-delete-le p q [] = omega arith
  count-delete-le p q (x ∷ rs) = ground (arith, count-delete-le p q rs)

  pub count-delete_own : (p : A → Bool) (rs : List A) → count_where p (delete_where p rs) ≡ 0
  count-delete_own p [] = refl
  count-delete_own p (x ∷ rs) = ground (arith, count-delete_own p rs)

  pub count-update-le :
      (p q : A → Bool) (f : A → A)
      → ((x : A) → p (f x) ≡ true → p x ≡ true)
      → (rs : List A) → count_where p (update_where q f rs) ≤ count_where p rs
  count-update-le p q f back [] = omega arith
  count-update-le p q f back (x ∷ rs) = ground (arith, back x, count-update-le p q f back rs)

module _ {ℓ κ} {A : Type ℓ} (P : A → Type κ) where
  pub All-update :
      (p : A → Bool) (f : A → A)
      → ((r : A) → p r ≡ true → P r → P (f r))
      → (rs : List A) → All P rs
      → All P (update_where p f rs)
  All-update p f keep [] h = h
  All-update p f keep (r ∷ rs) h = elim (Bool-cases (p r)) [
    | inl t ↦ rw t (keep r t h.0, All-update p f keep rs h.1)
    | inr t ↦ rw t (h.0, All-update p f keep rs h.1)
  ]

  pub All-find : (q : A → Bool) (rs : List A) {r : A} → All P rs → find_where q rs ≡ some r → P r
  All-find q [] h e = cc
  All-find q (x ∷ rs) {r} h e = elim (Bool-cases (q x)) [
    | inl t ↦ let same : x ≡ r = ground arith in subst P same h.0
    | inr t ↦ All-find q rs h.1 (ground arith)
  ]

  pub All-delete : (p : A → Bool) (rs : List A) → All P rs → All P (delete_where p rs)
  All-delete p [] h = h
  All-delete p (r ∷ rs) h = elim (Bool-cases (p r)) [
    | inl t ↦ rw t (All-delete p rs h.1)
    | inr t ↦ rw t (h.0, All-delete p rs h.1)
  ]

module _ {ℓ} {A : Type ℓ} where
  pub All-delete_own : (p : A → Bool) (rs : List A) → All (λ r. p r ≡ false) (delete_where p rs)
  All-delete_own p [] = tt
  All-delete_own p (r ∷ rs) = elim (Bool-cases (p r)) [
    | inl t ↦ rw t (All-delete_own p rs)
    | inr t ↦ rw t (t, All-delete_own p rs)
  ]

  -- no SELECT finds a row that meets the test of a DELETE
  pub find-deleted :
      (q p : A → Bool) (rs : List A) {r : A}
      → find_where q (delete_where p rs) ≡ some r
      → p r ≡ false
  find-deleted q p rs h = All-find (λ r. p r ≡ false) q (delete_where p rs) (All-delete_own p rs) h
