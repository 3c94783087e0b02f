-- ===== src/Collector/Fair.antt =====
-- The choice of nodes to probe by `stratify_candidates` of bot/mosaic_pool_collector.py.
use mosaicvpn.Prelude.{
  ℕ, zero, suc, ◌+◌, ◌-◌, ◌/◌, ◌≤◌, ◌≡◌, refl, subst, min, Bool, true, List, [], ◌∷◌, ◌++◌, arith,
  inl, inr, Bool-cases, length, take, length-take, length-append,
}
use mosaicvpn.Prelude.Int.{ℤ, pos_part}
use mosaicvpn.Prelude.Text.{Text, eq_text, eq_text_iff}
use mosaicvpn.Prelude.Counts.{count-join, count-take-le, count-all}
use mosaicvpn.Prelude.Table.{filter_where, count_where}
use mosaicvpn.Collector.Strata.{
  Node, has_fingerprint, put_all, priority_countries, is_among, in_country, is_other, within_quota,
  beyond_quota, per_country_quota, stratify_unique, stratify_candidates,
}
use mosaicvpn.Collector.Unique.{count-put_all}
use mosaicvpn.Collector.Counts.{count-parts, count-quotas}

-- As much as the quotas allow.
abbrev room_of : ℕ → List Text → ℕ
room_of q [] = 0
room_of q (cc ∷ ccs) = q + room_of q ccs

length-within_quota :
    (q : ℕ) (ccs : List Text) (u : List Node) → length (within_quota q ccs u) ≤ room_of q ccs
length-within_quota q [] u = omega arith
length-within_quota q (cc ∷ ccs) u =
    let here = length-take q (filter_where (in_country cc) u) in
    let rest = length-within_quota q ccs u in
    let both = length-append (take q (filter_where (in_country cc) u)) (within_quota q ccs u) in
    omega (arith, here, rest, both)

filter-length :
    (p : Node → Bool) (u : List Node) → count_where p (filter_where p u) ≡ count_where p u
filter-length p [] = refl
filter-length p (x ∷ u) = ground (arith, filter-length p u)

count-take-filter :
    (p : Node → Bool) (q : ℕ) (u : List Node)
    → count_where p (take q (filter_where p u)) ≡ min q (count_where p u)
count-take-filter p zero u = omega arith
count-take-filter p (suc q) [] = omega arith
count-take-filter p (suc q) (x ∷ u) = elim (Bool-cases (p x)) [
  | inl t ↦ let rest = count-take-filter p q u in rw t (rw t (omega (arith, rest)))
  | inr t ↦ rw t (count-take-filter p (suc q) u)
]

country-within :
    (q : ℕ) (cc : Text) (ccs : List Text) (u : List Node)
    → is_among cc ccs ≡ true
    → min q (count_where (in_country cc) u) ≤ count_where (in_country cc) (within_quota q ccs u)
country-within q cc [] u h = absurd (ground (arith, h))
country-within q cc (c ∷ ccs) u h =
    let both =
      count-join (in_country cc) (take q (filter_where (in_country c) u)) (within_quota q ccs u) in
    elim (Bool-cases (eq_text cc c)) [
      | inr other ↦
          let rest = country-within q cc ccs u (ground (arith, h, other)) in
          omega (arith, both, rest)
      | inl own ↦
          let same : cc ≡ c = (eq_text_iff cc c).0 own in
          let here : count_where (in_country cc) (take q (filter_where (in_country c) u))
              ≡ min q (count_where (in_country cc) u) =
            subst
              (λ x.
                count_where (in_country cc) (take q (filter_where (in_country x) u))
                ≡ min q (count_where (in_country cc) u))
              same (count-take-filter (in_country cc) q u) in
          omega (arith, both, here)
    ]

-- The parts of the choice.
module _ (total : ℕ) (u : List Node) where
  abbrev quota_part : List Node
  quota_part = within_quota (per_country_quota total) priority_countries u

  abbrev overflow : List Node
  overflow = beyond_quota (per_country_quota total) priority_countries u ++ filter_where is_other u

  count-split :
      (p : Node → Bool) → count_where p quota_part + count_where p overflow ≡ count_where p u
  count-split p =
      let quotas = count-quotas p (per_country_quota total) priority_countries u in
      let parts = count-parts p u in
      let both =
        count-join p (beyond_quota (per_country_quota total) priority_countries u)
          (filter_where is_other u) in
      omega (arith, quotas, parts, both)

  count-stratify :
      (p : Node → Bool)
      → (count_where p quota_part ≤ count_where p (stratify_unique total u))
        × (count_where p (stratify_unique total u) ≤ count_where p u)
  unfolding stratify_unique
  count-stratify p =
      let split = count-split p in
      let both = count-join p quota_part (take (total - length quota_part) overflow) in
      let fewer = count-take-le p (total - length quota_part) overflow in
      (omega (arith, both), omega (arith, both, fewer, split))

  length-stratify : length (stratify_unique total u) ≡ min total (length u)
  unfolding stratify_unique
  length-stratify =
      let split = count-split (λ x. true) in
      let whole = count-all u in
      let inner = count-all quota_part in
      let outer = count-all overflow in
      let room = length-within_quota (per_country_quota total) priority_countries u in
      let cut = length-take (total - length quota_part) overflow in
      let both = length-append quota_part (take (total - length quota_part) overflow) in
      omega (arith, split, whole, inner, outer, room, cut, both)

-- The choice is fair: the unique nodes have each fingerprint that was found once, and no other; of
-- them the choice takes as many as the budget allows, or all, none of them twice and no fingerprint
-- twice, and of each priority country as many as its quota, or all.
pub stratify_candidates-fair :
    (total_limit : ℤ) (nodes : List Node) (cc f : Text) (p : Node → Bool)
    → is_among cc priority_countries ≡ true
    → let out = stratify_candidates total_limit nodes in
      let u = put_all nodes [] in
      (count_where (has_fingerprint f) u ≡ min 1 (count_where (has_fingerprint f) nodes))
      × (length out ≡ min (pos_part total_limit) (length u))
      × (count_where p out ≤ count_where p u)
      × (count_where (has_fingerprint f) out ≤ 1)
      × (min (pos_part total_limit / 12) (count_where (in_country cc) u)
          ≤ count_where (in_country cc) out)
unfolding stratify_candidates
stratify_candidates-fair total_limit nodes cc f p h =
    let total = pos_part total_limit in
    let u = put_all nodes [] in
    let all = count-stratify total u p in
    let marks = count-stratify total u (has_fingerprint f) in
    let places = count-stratify total u (in_country cc) in
    let within = country-within (per_country_quota total) cc priority_countries u h in
    let once = count-put_all f nodes [] (omega arith) in
    (
      omega (arith, once),
      length-stratify total u,
      all.1,
      omega (arith, marks.1, once),
      omega (arith, places.0, within),
    )
