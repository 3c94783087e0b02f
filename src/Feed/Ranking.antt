-- ===== src/Feed/Ranking.antt =====
-- The ranking of the candidates in `_shard_group_nodes` of bot/bot.py.
use mosaicvpn.Prelude.{
  suc, ◌≡◌, refl, Bool, true, false, List, [], ◌∷◌, arith, inl, inr, length, All, Bool-cases,
}
use mosaicvpn.Prelude.Table.{count_where}
use mosaicvpn.Feed.Shard.{FeedNode, is_worse, ranked_in, ranked}

ranked_in-length : (n : FeedNode) (ns : List FeedNode) → length (ranked_in n ns) ≡ suc (length ns)
ranked_in-length n [] = refl
ranked_in-length n (m ∷ ms) = ground (arith, ranked_in-length n ms)

pub length-ranked : (ns : List FeedNode) → length (ranked ns) ≡ length ns
unfolding ranked
length-ranked [] = refl
length-ranked (n ∷ ns) = omega (arith, ranked_in-length n (ranked ns), length-ranked ns)

count-ranked_in :
    (p : FeedNode → Bool) (n : FeedNode) (ns : List FeedNode)
    → count_where p (ranked_in n ns) ≡ count_where p (n ∷ ns)
count-ranked_in p n [] = refl
count-ranked_in p n (m ∷ ms) = ground (arith, count-ranked_in p n ms)

pub count-ranked :
    (p : FeedNode → Bool) (ns : List FeedNode) → count_where p (ranked ns) ≡ count_where p ns
unfolding ranked
count-ranked p [] = refl
count-ranked p (n ∷ ns) =
    let here = count-ranked_in p n (ranked ns) in
    let rest = count-ranked p ns in ground (arith, here, rest)

-- No node is worse than a later one.
abbrev pub IsRanked : List FeedNode → Type 0
IsRanked [] = Unit
IsRanked (n ∷ ns) = All (λ m. is_worse n m ≡ false) ns × IsRanked ns

worse-asym : (a b : FeedNode) → is_worse a b ≡ true → is_worse b a ≡ false
worse-asym a b h = ground (arith, h)

better_trans :
    (a b c : FeedNode) → is_worse a b ≡ false → is_worse b c ≡ false → is_worse a c ≡ false
better_trans a b c h k = ground (arith, h, k)

All-better :
    (a b : FeedNode) (ns : List FeedNode)
    → is_worse a b ≡ false
    → All (λ m. is_worse b m ≡ false) ns
    → All (λ m. is_worse a m ≡ false) ns
All-better a b [] h all = tt
All-better a b (n ∷ ns) h all = (better_trans a b n h all.0, All-better a b ns h all.1)

ranked_in-All :
    (P : FeedNode → Type 0) (n : FeedNode) (ns : List FeedNode)
    → P n
    → All P ns
    → All P (ranked_in n ns)
ranked_in-All P n [] h all = (h, tt)
ranked_in-All P n (m ∷ ms) h all = elim (Bool-cases (is_worse n m)) [
  | inl worse ↦ rw worse (all.0, ranked_in-All P n ms h all.1)
  | inr better ↦ rw better (h, all)
]

ranked_in-IsRanked : (n : FeedNode) (ns : List FeedNode) → IsRanked ns → IsRanked (ranked_in n ns)
ranked_in-IsRanked n [] h = (tt, tt)
ranked_in-IsRanked n (m ∷ ms) h = elim (Bool-cases (is_worse n m)) [
  | inl worse ↦ rw worse (
    ranked_in-All (λ x. is_worse m x ≡ false) n ms (worse-asym n m worse) h.0,
    ranked_in-IsRanked n ms h.1,
  )
  | inr better ↦ rw better ((better, All-better n m ms better h.0), h)
]

pub ranked-IsRanked : (ns : List FeedNode) → IsRanked (ranked ns)
unfolding ranked
ranked-IsRanked [] = tt
ranked-IsRanked (n ∷ ns) = ranked_in-IsRanked n (ranked ns) (ranked-IsRanked ns)
