-- ===== src/Prelude/Counts.antt =====
-- Row counts of statements on tables that are joined, cut, or updated.
use mosaicvpn.Prelude.Table.{count_where, update_where}
use Prim.Native.Nat.{ℕ, zero, suc, ◌+◌, ◌≤◌}
use mathlib.Core.Path.{◌≡◌, refl}
use mathlib.Core.Bool.{Bool, true, false}
use mathlib.Core.List.{List, [], ◌∷◌, ◌++◌}
use native.Mathlib.Omega.{arith}
use mosaicvpn.Prelude.Lists.{length, take, drop}

module _ {ℓ} {A : Type ℓ} where
  pub count-join :
      (p : A → Bool) (xs ys : List A)
      → count_where p (xs ++ ys) ≡ count_where p xs + count_where p ys
  count-join p [] ys = omega arith
  count-join p (x ∷ xs) ys = ground (arith, count-join p xs ys)

  pub count-take-le :
      (p : A → Bool) (k : ℕ) (xs : List A) → count_where p (take k xs) ≤ count_where p xs
  count-take-le p zero xs = omega arith
  count-take-le p (suc k) [] = omega arith
  count-take-le p (suc k) (x ∷ xs) = ground (arith, count-take-le p k xs)

  pub count-take-drop :
      (p : A → Bool) (k : ℕ) (xs : List A)
      → count_where p (take k xs) + count_where p (drop k xs) ≡ count_where p xs
  count-take-drop p zero xs = omega arith
  count-take-drop p (suc k) [] = omega arith
  count-take-drop p (suc k) (x ∷ xs) = ground (arith, count-take-drop p k xs)

  pub count-all : (xs : List A) → count_where (λ x. true) xs ≡ length xs
  count-all [] = refl
  count-all (x ∷ xs) = omega (arith, count-all xs)

  pub count-update_own :
      (p : A → Bool) (f : A → A)
      → ((x : A) → p (f x) ≡ false)
      → (rs : List A) → count_where p (update_where p f rs) ≡ 0
  count-update_own p f off [] = refl
  count-update_own p f off (x ∷ rs) = ground (arith, off x, count-update_own p f off rs)
