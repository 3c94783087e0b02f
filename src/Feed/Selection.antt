-- ===== src/Feed/Selection.antt =====
-- The selection that `_shard_group_nodes` of bot/bot.py offers to a client.
use mosaicvpn.Prelude.{
  ℕ, ◌-◌, ◌≤◌, ◌<◌, ◌≡◌, refl, min, max, Bool, false, ◌||◌, ◌==◌, some, List, [], ◌∷◌, ◌++◌, arith,
  inl, inr, length, take, drop, Bool-cases, length-take, length-drop, length-append, leb,
}
use mosaicvpn.Prelude.Text.{Text}
use mosaicvpn.Prelude.Counts.{count-join, count-take-le, count-take-drop}
use mosaicvpn.Prelude.Table.{count_where}
use mosaicvpn.Feed.Shuffle.{lcg_seed, lcg_shuffle_indices}
use mosaicvpn.Feed.Shard.{
  FeedNode, ranked, band_size, extra_picked, shard_ranked, shard_group_nodes,
}
use mosaicvpn.Feed.Swaps.{lcg_shuffle-IsReordering}
use mosaicvpn.Feed.Picks.{AreDistinctBelow, pick_all-picks}
use mosaicvpn.Feed.Ranking.{length-ranked, count-ranked, IsRanked, ranked-IsRanked}

-- The selection begins as the candidates do when they are put in order.
abbrev pub LedByBest : List FeedNode → List FeedNode → Type 0
LedByBest out ns =
    (order : List FeedNode) × ((p : FeedNode → Bool) → count_where p order ≡ count_where p ns)
    × IsRanked order
    × (take 2 out ≡ take 2 order)

-- A selection from ranked candidates: its size, its elements, and its head.
abbrev pub Selects : ℕ → List FeedNode → List FeedNode → Type 0
Selects target ns out =
    (length out ≡ max (min 2 (length ns)) target)
    × ((p : FeedNode → Bool) → count_where p out ≤ count_where p ns)
    × (take 2 out ≡ take 2 ns)

extra-picks :
    (seed k : ℕ) (band : List FeedNode)
    → k ≤ length band
    → (out : List FeedNode) × (extra_picked k band (lcg_shuffle_indices seed (length band))
        ≡ some out)
      × (length out ≡ k)
      × ((p : FeedNode → Bool) → count_where p out ≤ count_where p band)
unfolding extra_picked
extra-picks seed k band h =
    let (is, shuffled, size, once) = lcg_shuffle-IsReordering seed (length band) in
    let distinct : AreDistinctBelow (length band) (take k is) = λ v.
      let fewer = count-take-le (λ x. x == v) k is in
      let own = once v in omega (arith, fewer, own) in
    let (out, found, len, few) = pick_all-picks band (take k is) distinct in
    (out, rw shuffled found, omega (arith, len, length-take k is, size, h), few)

head-head : {A : Type 0} (xs : List A) → take 2 (take 2 xs) ≡ take 2 xs
head-head [] = refl
head-head (x ∷ []) = refl
head-head (x ∷ y ∷ xs) = refl

head-append : {A : Type 0} (xs ys : List A) → 2 ≤ length xs → take 2 (take 2 xs ++ ys) ≡ take 2 xs
head-append [] ys h = absurd (omega (arith, h))
head-append (x ∷ []) ys h = absurd (omega (arith, h))
head-append (x ∷ y ∷ xs) ys h = refl

shard_ranked-Selects :
    (seed target : ℕ) (ns : List FeedNode)
    → target < length ns
    → (out : List FeedNode) × (shard_ranked seed target ns ≡ some out) × Selects target ns out
unfolding shard_ranked
shard_ranked-Selects seed target ns h =
    let anchors = take 2 ns in
    let rest = drop 2 ns in
    let k = target - length anchors in
    let band = take (band_size k rest) rest in
    let heads = length-take 2 ns in
    let tails = length-drop 2 ns in
    elim (Bool-cases (leb (length rest) 0 || leb k 0)) [
      | inl enough ↦ (
        anchors,
        rw enough refl,
        (ground (arith, heads, tails, enough, h), (λ p. count-take-le p 2 ns), head-head ns),
      )
      | inr more ↦
          let wide = length-take (band_size k rest) rest in
          let (extra, found, len, few) = extra-picks seed k band (ground (arith, wide, more)) in
          let whole = length-append anchors extra in
          let long : 2 ≤ length ns = ground (arith, tails, more) in
          let size : length (anchors ++ extra) ≡ max (min 2 (length ns)) target =
            ground (arith, whole, heads, len, long, h, more) in
          (
            anchors ++ extra,
            rw (more, found) refl,
            (
              size,
              (λ p.
                  let both = count-join p anchors extra in
                  let parts = count-take-drop p 2 ns in
                  let in_band = count-take-le p (band_size k rest) rest in
                  let some_of = few p in omega (arith, both, parts, in_band, some_of)),
              head-append ns extra long,
            ),
          )
    ]

-- What a client is offered when there are more candidates than the target: a selection that is always
-- found, has as many nodes as the target, but never less than two or all there are, has no node more
-- often than the candidates have it, and begins with two nodes, or all there are, than which no other
-- candidate is faster, or as fast and of a shorter latency.
pub shard_group_nodes-Selects :
    (digest : Text → ℕ) (opaque_id group_id : Text) (year week target : ℕ) (ns : List FeedNode)
    → target < length ns
    → (out : List FeedNode) × (shard_group_nodes digest opaque_id group_id year week target ns
        ≡ some out)
      × (length out ≡ max (min 2 (length ns)) target)
      × ((p : FeedNode → Bool) → count_where p out ≤ count_where p ns)
      × LedByBest out ns
unfolding shard_group_nodes
shard_group_nodes-Selects digest opaque_id group_id year week target ns h =
    let size = length-ranked ns in
    let (out, found, sel) =
      shard_ranked-Selects (lcg_seed digest opaque_id group_id year week) target (ranked ns)
        (omega (arith, size, h)) in
    let many : leb (length ns) target ≡ false = ground (arith, h) in
    (
      out,
      rw (many, found) refl,
      omega (arith, sel.0, size),
      λ p. omega (arith, sel.1 p, count-ranked p ns),
      (ranked ns, (λ p. count-ranked p ns), ranked-IsRanked ns, sel.2),
    )
