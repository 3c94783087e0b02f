-- ===== src/Routes/Tests.antt =====
-- A manifest under a policy, and the theorem on it.
use mosaicvpn.Prelude.{
  ◌≡◌, ◌||◌, refl, true, false, Option, none, some, List, [], ◌∷◌, map, if◌then◌else◌,
}
use mosaicvpn.Prelude.Int.{ℤ, pos}
use mosaicvpn.Prelude.Text.{Text, text, eq_text}
use mosaicvpn.Routes.Policies.{
  Group, set_route_policy, route_db_group_id, default_route_min_eligible, apply_route_policy,
  apply_route_policies,
}
use mosaicvpn.Routes.Gates.{is_starved, is_off, set-apply}

abbrev group : Text → Group
group i = record {
  id = i;
  disabled = false;
  disabled_reason = [];
  badge = [];
  icon = [];
  eligible_count = none;
  minimum_eligible = none;
}

abbrev groups : List Group
groups = group (text "germany") ∷ group (text "usa") ∷ group (text "direct") ∷ []

abbrev counts : Option (List (Text × ℤ))
counts = some ((text "germany", pos 5) ∷ (text "auto-us", pos 1) ∷ [])

offers :
    map Group.disabled (
      apply_route_policies
        (set_route_policy 1 (text "germany") true [] [] (pos 0) (pos 7) []).1
        counts
        groups)
    ≡ true ∷ true ∷ false ∷ []
unfolding set_route_policy route_db_group_id default_route_min_eligible apply_route_policy
    apply_route_policies
offers = refl

set-apply_example :
    map Group.disabled (
      apply_route_policies
        (set_route_policy 1 (text "germany") true [] [] (pos 0) (pos 7) []).1
        counts
        groups)
    ≡ map
        (λ g.
          if eq_text (text "germany") (Group.id g)
          then is_starved counts (route_db_group_id (Group.id g)) (pos 0) || true
          else is_off [] counts g)
        groups
set-apply_example = set-apply 1 (text "germany") true [] [] (pos 0) (pos 7) [] counts groups
