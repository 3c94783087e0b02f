-- ===== src/Collector/Unique.antt =====
-- The dictionary of unique nodes that `stratify_candidates` of bot/mosaic_pool_collector.py begins
-- with.
use mosaicvpn.Prelude.{
  ◌+◌, ◌≤◌, ◌≡◌, refl, subst, min, true, none, some, List, [], ◌∷◌, arith, inl, inr, Bool-cases,
  Option-cases,
}
use mosaicvpn.Prelude.Text.{Text, eq_text, eq_text_iff}
use mosaicvpn.Prelude.Table.{
  find_where, update_where, count_where, count-append, count_of_none, count_of_some,
}
use mosaicvpn.Collector.Strata.{Node, has_fingerprint, better_of, put, put_all}

better_of-fingerprint :
    (new old : Node)
    → eq_text old.fingerprint new.fingerprint ≡ true
    → (better_of new old).fingerprint ≡ old.fingerprint
better_of-fingerprint new old h =
    let same : old.fingerprint ≡ new.fingerprint =
      (eq_text_iff old.fingerprint new.fingerprint).0 h in
    ground (arith, same)

count-update_kept :
    (f : Text) (n : Node) (u : List Node)
    → count_where (has_fingerprint f) (update_where (has_fingerprint n.fingerprint) (better_of n) u)
      ≡ count_where (has_fingerprint f) u
count-update_kept f n [] = refl
count-update_kept f n (x ∷ u) = elim (Bool-cases (eq_text x.fingerprint n.fingerprint)) [
  | inr other ↦ rw other (ground (arith, count-update_kept f n u))
  | inl own ↦
      let same = better_of-fingerprint n x own in
      let rest = count-update_kept f n u in rw own (rw (same, rest) refl)
]

count-put :
    (f : Text) (n : Node) (u : List Node)
    → count_where (has_fingerprint f) u ≤ 1
    → count_where (has_fingerprint f) (put n u) ≡ min 1 (count_where (has_fingerprint f) (n ∷ u))
count-put f n u h = elim (Option-cases (find_where (has_fingerprint n.fingerprint) u)) [
  | inr (x, found) ↦
      let kept = count-update_kept f n u in
      rw found (elim (Bool-cases (eq_text n.fingerprint f)) [
        | inr other ↦ rw other (omega (arith, kept, h))
        | inl own ↦
            let same : n.fingerprint ≡ f = (eq_text_iff n.fingerprint f).0 own in
            let there : 1 ≤ count_where (has_fingerprint f) u =
              count_of_some (has_fingerprint f) u {r = x}
                (subst (λ k. find_where (has_fingerprint k) u ≡ some x) same found) in
            rw own (omega (arith, kept, h, there))
      ])
  | inl fresh ↦
      let more = count-append (has_fingerprint f) u n in
      rw fresh (elim (Bool-cases (eq_text n.fingerprint f)) [
        | inr other ↦ ground (arith, more, other, h)
        | inl own ↦
            let same : n.fingerprint ≡ f = (eq_text_iff n.fingerprint f).0 own in
            let none_yet =
              count_of_none (has_fingerprint f) u
                (subst (λ k. find_where (has_fingerprint k) u ≡ none) same fresh) in
            ground (arith, more, own, none_yet)
      ])
]

-- Among the unique nodes a fingerprint stands once if it stood there or is found, and else not at all.
pub count-put_all :
    (f : Text) (ns u : List Node)
    → count_where (has_fingerprint f) u ≤ 1
    → count_where (has_fingerprint f) (put_all ns u)
      ≡ min 1 (count_where (has_fingerprint f) u + count_where (has_fingerprint f) ns)
unfolding put_all
count-put_all f [] u h = omega (arith, h)
count-put_all f (n ∷ ns) u h =
    let here = count-put f n u h in
    let rest = count-put_all f ns (put n u) (omega (arith, here)) in
    elim (Bool-cases (eq_text n.fingerprint f)) [
      | inl own ↦ rw own (omega (arith, rest, (rw own at here)))
      | inr other ↦ rw other (omega (arith, rest, (rw other at here)))
    ]
