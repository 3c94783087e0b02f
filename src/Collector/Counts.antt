-- ===== src/Collector/Counts.antt =====
-- The parts of the unique nodes in `stratify_candidates` of bot/mosaic_pool_collector.py, counted.
use mosaicvpn.Prelude.{
  ℕ, ◌+◌, ◌≡◌, refl, sym, subst, Bool, false, not, List, [], ◌∷◌, arith, inl, inr, Bool-cases, take,
  drop, if◌then◌else◌,
}
use mosaicvpn.Prelude.Text.{Text, eq_text, eq_text_iff}
use mosaicvpn.Prelude.Counts.{count-join, count-take-drop}
use mosaicvpn.Prelude.Table.{filter_where, count_where}
use mosaicvpn.Collector.Strata.{
  Node, priority_countries, is_among, country_of, in_country, is_other, within_quota, beyond_quota,
}

-- In how many of the lists of countries a text stands.
abbrev hits : Text → List Text → ℕ
hits c [] = 0
hits c (d ∷ ds) = (if eq_text c d then 1 else 0) + hits c ds

abbrev AreDistinct : List Text → Type 0
AreDistinct [] = Unit
AreDistinct (c ∷ cs) = (is_among c cs ≡ false) × AreDistinct cs

hits_none : (c : Text) (ds : List Text) → is_among c ds ≡ false → hits c ds ≡ 0
hits_none c [] h = refl
hits_none c (d ∷ ds) h = ground (arith, hits_none c ds)

hits_once :
    (c : Text) (ds : List Text) → AreDistinct ds → hits c ds ≡ (if is_among c ds then 1 else 0)
hits_once c [] a = refl
hits_once c (d ∷ ds) a = elim (Bool-cases (eq_text c d)) [
  | inr other ↦ let rest = hits_once c ds a.1 in ground (arith, rest, other)
  | inl own ↦
      let same : c ≡ d = (eq_text_iff c d).0 own in
      let rest = hits_none c ds (subst (λ x. is_among x ds ≡ false) (sym same) a.0) in
      ground (arith, rest, own)
]

-- The nodes of a list of countries, a node as often as its country stands there.
abbrev pub of_countries : (Node → Bool) → List Text → List Node → ℕ
of_countries p [] u = 0
of_countries p (cc ∷ ccs) u = count_where p (filter_where (in_country cc) u) + of_countries p ccs u

of_countries-none : (p : Node → Bool) (ccs : List Text) → of_countries p ccs [] ≡ 0
of_countries-none p [] = refl
of_countries-none p (cc ∷ ccs) = omega (arith, of_countries-none p ccs)

of_countries-cons :
    (p : Node → Bool) (ccs : List Text) (x : Node) (u : List Node)
    → of_countries p ccs (x ∷ u)
      ≡ (if p x then hits (country_of x) ccs else 0) + of_countries p ccs u
of_countries-cons p [] x u = ground arith
of_countries-cons p (cc ∷ ccs) x u = ground (arith, of_countries-cons p ccs x u)

-- The nodes of no country of the list.
abbrev outside : List Text → Node → Bool
outside ccs n = not (is_among (country_of n) ccs)

count-outside :
    (p : Node → Bool) (ccs : List Text) (u : List Node)
    → AreDistinct ccs
    → of_countries p ccs u + count_where p (filter_where (outside ccs) u) ≡ count_where p u
count-outside p ccs [] a = omega (arith, of_countries-none p ccs)
count-outside p ccs (x ∷ u) a =
    let step = of_countries-cons p ccs x u in
    let rest = count-outside p ccs u a in
    let once = hits_once (country_of x) ccs a in ground (arith, step, rest, once)

pub count-parts :
    (p : Node → Bool) (u : List Node)
    → of_countries p priority_countries u + count_where p (filter_where is_other u)
      ≡ count_where p u
count-parts p u =
    count-outside p priority_countries u
      (refl, (refl, (refl, (refl, (refl, (refl, (refl, (refl, (refl, (refl, tt))))))))))

pub count-quotas :
    (p : Node → Bool) (q : ℕ) (ccs : List Text) (u : List Node)
    → count_where p (within_quota q ccs u) + count_where p (beyond_quota q ccs u)
      ≡ of_countries p ccs u
count-quotas p q [] u = omega arith
count-quotas p q (cc ∷ ccs) u =
    let first = count-join p (take q (filter_where (in_country cc) u)) (within_quota q ccs u) in
    let second = count-join p (drop q (filter_where (in_country cc) u)) (beyond_quota q ccs u) in
    let both = count-take-drop p q (filter_where (in_country cc) u) in
    let rest = count-quotas p q ccs u in omega (arith, first, second, both, rest)
