-- ===== src/Routes/Gates.antt =====
-- The manifest's groups of bot/bot.py after `set_route_policy` and `apply_route_policies`.
use mosaicvpn.Prelude.{
  ℕ, ◌≡◌, ◌∙◌, refl, sym, subst, Bool, false, ◌||◌, Option, none, some, List, [], ◌∷◌, arith, inl,
  inr, Bool-cases, Option-cases, is_some, map, if◌then◌else◌,
}
use mosaicvpn.Prelude.Int.{ℤ, ltb_ℤ}
use mosaicvpn.Prelude.Text.{Text, eq_text, eq_text_iff}
use mosaicvpn.Prelude.Table.{find_where, update_where, find-append, find-append_new}
use mosaicvpn.Routes.Policies.{
  Policy, Group, has_route, new_policy, upserted, set_route_policy, route_db_group_id, minimum_of,
  count_in, gated, overridden, apply_route_policy, apply_route_policies,
}

-- Whether too few nodes are eligible: only where there are counts, and the route has a group.
abbrev pub is_starved : Option (List (Text × ℤ)) → Option Text → ℤ → Bool
is_starved none group minimum = false
is_starved (some counts) none minimum = false
is_starved (some counts) (some group) minimum = ltb_ℤ (count_in counts group) minimum

-- What the administrators decided, or else what the manifest said.
abbrev pub decided : Option Policy → Bool → Bool
decided none before = before
decided (some p) before = p.disabled

-- A route is off when it is starved, or when it was decided so.
abbrev pub is_off : List Policy → Option (List (Text × ℤ)) → Group → Bool
is_off ps counts g =
    let policy = find_where (has_route g.id) ps in
    is_starved counts (route_db_group_id g.id) (minimum_of g.id policy) || decided policy g.disabled

apply_one-disabled :
    (policy : Option Policy) (counts : Option (List (Text × ℤ))) (group : Option Text) (g : Group)
    → (overridden g.id policy counts group (gated g.id policy counts group g)).disabled
      ≡ (is_starved counts group (minimum_of g.id policy) || decided policy g.disabled)
apply_one-disabled none none group g = ground arith
apply_one-disabled none (some counts) none g = ground arith
apply_one-disabled none (some counts) (some group) g = ground arith
apply_one-disabled (some p) none group g = ground arith
apply_one-disabled (some p) (some counts) none g = ground arith
apply_one-disabled (some p) (some counts) (some group) g = ground arith

apply-is_off :
    (ps : List Policy) (counts : Option (List (Text × ℤ))) (groups : List Group)
    → map Group.disabled (apply_route_policies ps counts groups) ≡ map (is_off ps counts) groups
unfolding apply_route_policies apply_route_policy
apply-is_off ps counts [] = refl
apply-is_off ps counts (g ∷ groups) =
    let here =
      apply_one-disabled (find_where (has_route g.id) ps) counts (route_db_group_id g.id) g in
    let rest = apply-is_off ps counts groups in rw (here, rest) refl

find-replaced :
    (j : Text) (p : Policy) (ps : List Policy)
    → find_where (has_route j) (update_where (has_route p.route_id) (λ old. p) ps) ≡ (
        if eq_text p.route_id j
        then (if is_some (find_where (has_route p.route_id) ps) then some p else none)
        else find_where (has_route j) ps)
find-replaced j p [] = ground arith
find-replaced j p (x ∷ ps) =
    let rest = find-replaced j p ps in
    elim (Bool-cases (eq_text x.route_id p.route_id)) [
      | inl own ↦
          let same : x.route_id ≡ p.route_id = (eq_text_iff x.route_id p.route_id).0 own in
          rw own (elim (Bool-cases (eq_text p.route_id j)) [
            | inl hit ↦ rw hit refl
            | inr miss ↦
                let miss' : eq_text x.route_id j ≡ false = rw same miss in
                rw (miss, miss') (rest ∙ rw miss refl)
          ])
      | inr other ↦ elim (Bool-cases (eq_text p.route_id j)) [
        | inl hit ↦
            let same : p.route_id ≡ j = (eq_text_iff p.route_id j).0 hit in
            let miss : eq_text x.route_id j ≡ false = rw (sym same) other in
            rw (other, miss, hit) (rest ∙ rw hit refl)
        | inr miss ↦
            rw (other, miss)
              (elim (Bool-cases (eq_text x.route_id j)) [
                | inl found ↦ rw found refl
                | inr on ↦ rw on (rest ∙ rw miss refl)
              ])
      ]
    ]

find-upserted :
    (j : Text) (p : Policy) (ps : List Policy)
    → find_where (has_route j) (upserted p ps)
      ≡ (if eq_text p.route_id j then some p else find_where (has_route j) ps)
find-upserted j p ps = elim (Option-cases (find_where (has_route p.route_id) ps)) [
  | inr (x, found) ↦ let replaced = find-replaced j p ps in rw (found, replaced) (rw found refl)
  | inl absent ↦ rw absent (elim (Option-cases (find_where (has_route j) ps)) [
    | inl no_row ↦ rw no_row (find-append_new (has_route j) ps p no_row)
    | inr (y, there) ↦ elim (Bool-cases (eq_text p.route_id j)) [
      | inr miss ↦ rw (miss, there) (find-append (has_route j) ps p there)
      | inl hit ↦
          let same : p.route_id ≡ j = (eq_text_iff p.route_id j).0 hit in
          let gone : find_where (has_route j) ps ≡ none =
            subst (λ x. find_where (has_route x) ps ≡ none) same absent in
          absurd (ground (arith, gone, there))
    ]
  ])
]

after_set :
    (p : Policy) (ps : List Policy) (counts : Option (List (Text × ℤ))) (groups : List Group)
    → map (is_off (upserted p ps) counts) groups
      ≡ map
          (λ g.
            if eq_text p.route_id (Group.id g)
            then is_starved counts
                (route_db_group_id (Group.id g))
                (minimum_of (Group.id g) (some p))
              || p.disabled
            else is_off ps counts g)
          groups
after_set p ps counts [] = refl
after_set p ps counts (g ∷ groups) =
    let found = find-upserted g.id p ps in
    let rest = after_set p ps counts groups in
    elim (Bool-cases (eq_text p.route_id g.id)) [
      | inl hit ↦
          let own : find_where (has_route g.id) (upserted p ps) ≡ some p = rw found (rw hit refl) in
          rw (hit, own, rest) refl
      | inr miss ↦
          let own : find_where (has_route g.id) (upserted p ps) ≡ find_where (has_route g.id) ps =
            rw found (rw miss refl) in
          rw (miss, own, rest) refl
    ]

-- What a policy that is set does: of the manifest's groups, in their order, the groups of its route are
-- off exactly when the policy disables it or fewer nodes are eligible than the policy asks for, and
-- each other group exactly when it was to be off before: when it is starved by its own minimum, or its
-- own policy disables it, or it has none and the manifest disables it.
pub set-apply :
    (now : ℕ) (i : Text) (disabled : Bool) (reason icon : Text) (minimum admin : ℤ)
    (ps : List Policy) (counts : Option (List (Text × ℤ))) (groups : List Group)
    → map Group.disabled (
        apply_route_policies
          (set_route_policy now i disabled reason icon minimum admin ps).1
          counts
          groups)
      ≡ map
          (λ g.
            if eq_text i (Group.id g)
            then is_starved counts (route_db_group_id (Group.id g)) minimum || disabled
            else is_off ps counts g)
          groups
unfolding set_route_policy
set-apply now i disabled reason icon minimum admin ps counts groups =
    let p = new_policy now i disabled reason icon minimum admin in
    apply-is_off (upserted p ps) counts groups ∙ after_set p ps counts groups
