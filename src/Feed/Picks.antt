-- ===== src/Feed/Picks.antt =====
-- Picking elements of a list by indices, as `_shard_group_nodes` of bot/bot.py does.
use mosaicvpn.Prelude.{
  ℕ, zero, suc, ◌+◌, ◌≤◌, ◌<◌, ◌≡◌, refl, Bool, ◌==◌, Option, none, some, List, [], ◌∷◌, arith,
  length, get_elem?, All, ltb, if◌then◌else◌,
}
use mosaicvpn.Prelude.Table.{count_where}
use mosaicvpn.Feed.Shard.{FeedNode, pick_all}
use mosaicvpn.Feed.Swaps.{get_present}

-- The indices behind the first element.
abbrev behind : List ℕ → List ℕ
behind [] = []
behind (zero ∷ is) = behind is
behind (suc i ∷ is) = i ∷ behind is

count-behind :
    (v : ℕ) (is : List ℕ) → count_where (λ x. x == v) (behind is) ≡ count_where (λ x. x == suc v) is
count-behind v [] = refl
count-behind v (zero ∷ is) = ground (arith, count-behind v is)
count-behind v (suc i ∷ is) = ground (arith, count-behind v is)

-- Each index once at most, and none out of range.
abbrev pub AreDistinctBelow : ℕ → List ℕ → Type 0
AreDistinctBelow n is = (v : ℕ) → count_where (λ x. x == v) is ≤ (if ltb v n then 1 else 0)

module _ {ℓ} {A : Type ℓ} where
  abbrev got : Option A → List A → List A
  got none xs = xs
  got (some x) xs = x ∷ xs

  -- What indices pick, those out of range passed over.
  abbrev picks : List A → List ℕ → List A
  picks band [] = []
  picks band (i ∷ is) = got (get_elem? band i) (picks band is)

  picks-empty : (is : List ℕ) → picks [] is ≡ []
  picks-empty [] = refl
  picks-empty (i ∷ is) = picks-empty is

  count-picks :
      (p : A → Bool) (x : A) (band : List A) (is : List ℕ)
      → count_where p (picks (x ∷ band) is)
        ≡ (if p x then count_where (λ v. v == 0) is else 0) + count_where p (picks band (behind is))
  count-picks p x band [] = ground arith
  count-picks p x band (zero ∷ is) = ground (arith, count-picks p x band is)
  count-picks p x band (suc i ∷ is) = ground (arith, count-picks p x band is)

  count-picks-le :
      (p : A → Bool) (band : List A) (is : List ℕ)
      → AreDistinctBelow (length band) is
      → count_where p (picks band is) ≤ count_where p band
  count-picks-le p [] is h = rw (picks-empty is) (omega arith)
  count-picks-le p (x ∷ band) is h =
      let first = h 0 in
      let rest =
        count-picks-le p band (behind is) (λ v.
          let once = h (suc v) in let same = count-behind v is in ground (arith, once, same)) in
      let sum = count-picks p x band is in ground (arith, first, rest, sum)

below-All : (n : ℕ) (is : List ℕ) → AreDistinctBelow n is → All (λ i. i < n) is
below-All n [] h = tt
below-All n (i ∷ is) h =
    let here = h i in
    (ground (arith, here), below-All n is (λ v. let once = h v in ground (arith, once)))

pick_all-got :
    (band : List FeedNode) (is : List ℕ)
    → All (λ i. i < length band) is
    → (pick_all band is ≡ some (picks band is)) × (length (picks band is) ≡ length is)
pick_all-got band [] h = (refl, refl)
pick_all-got band (i ∷ is) h =
    let (n, found) = get_present band i h.0 in
    let (rest, size) = pick_all-got band is h.1 in
    (rw (found, rest) refl, rw found (omega (arith, size)))

pub pick_all-picks :
    (band : List FeedNode) (is : List ℕ)
    → AreDistinctBelow (length band) is
    → (out : List FeedNode) × (pick_all band is ≡ some out)
      × (length out ≡ length is)
      × ((p : FeedNode → Bool) → count_where p out ≤ count_where p band)
pick_all-picks band is h =
    let (out, size) = pick_all-got band is (below-All (length band) is h) in
    (picks band is, out, size, λ p. count-picks-le p band is h)
