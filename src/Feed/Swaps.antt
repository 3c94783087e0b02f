-- ===== src/Feed/Swaps.antt =====
-- The swaps of `_lcg_shuffle_indices` of bot/bot.py.
use mosaicvpn.Prelude.{
  ℕ, zero, suc, ◌+◌, ◌<◌, ◌≡◌, ◌∙◌, ◌%◌, ◌^◌, ◌&&◌, leb, refl, sym, Bool, ◌==◌, some, List, [], ◌∷◌,
  arith, length, get_elem?, ltb, if◌then◌else◌,
}
use mosaicvpn.Prelude.Table.{count_where}
use mosaicvpn.Feed.Shuffle.{range_from, next_state, set_at, swap, shuffle_from, lcg_shuffle_indices}

module _ {ℓ} {A : Type ℓ} where
  pub get_present : (xs : List A) (i : ℕ) → i < length xs → (x : A) × (get_elem? xs i ≡ some x)
  get_present [] i h = absurd (omega (arith, h))
  get_present (x ∷ xs) zero h = (x, refl)
  get_present (x ∷ xs) (suc i) h = get_present xs i (omega (arith, h))

  length-set_at : (i : ℕ) (y : A) (xs : List A) → length (set_at i y xs) ≡ length xs
  length-set_at i y [] = refl
  length-set_at zero y (x ∷ xs) = refl
  length-set_at (suc i) y (x ∷ xs) = omega (arith, length-set_at i y xs)

  -- A place that is set loses its element and gets the new one.
  count-set_at :
      (p : A → Bool) (i : ℕ) (y : A) (xs : List A) {x : A}
      → get_elem? xs i ≡ some x
      → count_where p (set_at i y xs) + (if p x then 1 else 0)
        ≡ count_where p xs + (if p y then 1 else 0)
  count-set_at p i y [] h = absurd (ground (arith, h))
  count-set_at p zero y (z ∷ xs) {x} h =
      let same : z ≡ x = ground (arith, h) in rw (sym same) (ground arith)
  count-set_at p (suc i) y (z ∷ xs) {x} h =
      let rest = count-set_at p i y xs {x = x} h in ground (arith, rest)

  -- What stands at `j` after `i` got it stands there still.
  get-set_at :
      (i j : ℕ) (xs : List A) {y : A}
      → get_elem? xs j ≡ some y
      → get_elem? (set_at i y xs) j ≡ some y
  get-set_at i j [] h = h
  get-set_at zero zero (x ∷ xs) h = refl
  get-set_at zero (suc j) (x ∷ xs) h = h
  get-set_at (suc i) zero (x ∷ xs) h = h
  get-set_at (suc i) (suc j) (x ∷ xs) {y} h = get-set_at i j xs {y = y} h

  -- Two lists with the same elements, each as often.
  abbrev pub IsReordering : List A → List A → Type ℓ
  IsReordering ys xs =
      (length ys ≡ length xs) × ((p : A → Bool) → count_where p ys ≡ count_where p xs)

  swap-IsReordering :
      (i j : ℕ) (xs : List A)
      → i < length xs
      → j < length xs
      → (ys : List A) × (swap i j xs ≡ some ys) × IsReordering ys xs
  swap-IsReordering i j xs hi hj =
      let (x, at_i) = get_present xs i hi in
      let (y, at_j) = get_present xs j hj in
      let first = length-set_at i y xs in
      let second = length-set_at j x (set_at i y xs) in
      (
        set_at j x (set_at i y xs),
        rw (at_i, at_j) refl,
        (
          omega (arith, first, second),
          λ p.
              let put = count-set_at p i y xs {x = x} at_i in
              let back =
                count-set_at p j x (set_at i y xs) {x = y} (get-set_at i j xs {y = y} at_j) in
              omega (arith, put, back),
        ),
      )

shuffle-IsReordering :
    (i state : ℕ) (xs : List ℕ)
    → i < length xs
    → (ys : List ℕ) × (shuffle_from i state (some xs) ≡ some ys) × IsReordering ys xs
unfolding shuffle_from
shuffle-IsReordering zero state xs h = (xs, refl, (refl, λ p. refl))
shuffle-IsReordering (suc i) state xs h =
    let state' = next_state state in
    let j = state' % (i + 2) in
    let (ys, swapped, same) = swap-IsReordering (suc i) j xs h (omega (arith, h)) in
    let (zs, shuffled, again) = shuffle-IsReordering i state' ys (omega (arith, h, same.0)) in
    (zs, rw swapped shuffled, (again.0 ∙ same.0, λ p. again.1 p ∙ same.1 p))

length-range_from : (n count : ℕ) → length (range_from n count) ≡ count
length-range_from n zero = refl
length-range_from n (suc count) = omega (arith, length-range_from (n + 1) count)

-- A range has each number of it once.
count-range_from :
    (v n count : ℕ)
    → count_where (λ x. x == v) (range_from n count)
      ≡ (if leb n v && ltb v (n + count) then 1 else 0)
count-range_from v n zero = ground arith
count-range_from v n (suc count) = ground (arith, count-range_from v (n + 1) count)

-- The shuffle returns, and what it returns are the numbers below the count, each once.
pub lcg_shuffle-IsReordering :
    (seed count : ℕ)
    → (ys : List ℕ) × (lcg_shuffle_indices seed count ≡ some ys)
      × (length ys ≡ count)
      × ((v : ℕ) → count_where (λ x. x == v) ys ≡ (if ltb v count then 1 else 0))
unfolding lcg_shuffle_indices
lcg_shuffle-IsReordering seed zero = ([], refl, refl, λ v. ground arith)
lcg_shuffle-IsReordering seed (suc n) =
    let all = length-range_from 0 (suc n) in
    let (ys, out, same) =
      shuffle-IsReordering n (seed % 2 ^ 64) (range_from 0 (suc n)) (omega (arith, all)) in
    (
      ys,
      out,
      same.0 ∙ all,
      λ v. let once = count-range_from v 0 (suc n) in same.1 (λ x. x == v) ∙ once ∙ ground arith,
    )
