-- ===== src/Routes/Policies.antt =====
-- The route policies of bot/bot.py, as the table that `get_route_policies` reads: `get_route_policy`,
-- `set_route_policy` and `apply_route_policies`.
use mosaicvpn.Prelude.{
  ℕ, Bool, true, false, ◌||◌, Option, none, some, List, [], ◌∷◌, ◌++◌, is_some, or_else, map,
  if◌then◌else◌,
}
use mosaicvpn.Prelude.Int.{ℤ, pos, ltb_ℤ}
use mosaicvpn.Prelude.Text.{Text, text, eq_text, truthy}
use mosaicvpn.Prelude.Table.{find_where, update_where}

-- `route_policies`, whose key is the route.
pub record Policy : Type 0 where
  pub route_id : Text
  pub disabled : Bool
  pub reason : Text
  pub icon : Text
  pub min_eligible : Option ℤ
  pub updated_at : ℕ
  pub updated_by : ℤ

-- A group of the manifest, by the fields that the policies read and write.
pub record Group : Type 0 where
  pub id : Text
  pub disabled : Bool
  pub disabled_reason : Text
  pub badge : Text
  pub icon : Text
  pub eligible_count : Option ℤ
  pub minimum_eligible : Option ℤ

abbrev pub has_route : Text → Policy → Bool
has_route i p = eq_text p.route_id i

unfoldable pub get_route_policy : Text → List Policy → Option Policy
get_route_policy i ps = find_where (has_route i) ps

abbrev pub new_policy : ℕ → Text → Bool → Text → Text → ℤ → ℤ → Policy
new_policy now i disabled reason icon minimum admin = record {
  route_id = i;
  disabled = disabled;
  reason = reason;
  icon = icon;
  min_eligible = some minimum;
  updated_at = now;
  updated_by = admin;
}

abbrev pub upserted : Policy → List Policy → List Policy
upserted p ps =
    if is_some (find_where (has_route p.route_id) ps)
    then update_where (has_route p.route_id) (λ old. p) ps
    else ps ++ p ∷ []

unfoldable pub set_route_policy :
    ℕ → Text → Bool → Text → Text → ℤ → ℤ → List Policy → Option Policy × List Policy
unfolding get_route_policy
set_route_policy now i disabled reason icon minimum admin ps =
    let ps' = upserted (new_policy now i disabled reason icon minimum admin) ps in
    (get_route_policy i ps', ps')

-- `ROUTE_DB_GROUP_IDS`
unfoldable pub route_db_group_id : Text → Option Text
route_db_group_id i =
    if eq_text i (text "min-latency")
    then some (text "min_latency")
    else if eq_text i (text "stable")
    then some (text "stable")
    else if eq_text i (text "max-speed")
    then some (text "max_speed")
    else if eq_text i (text "compatibility")
    then some (text "allowlist")
    else if eq_text i (text "germany")
    then some (text "germany")
    else if eq_text i (text "usa")
    then some (text "auto-us")
    else if eq_text i (text "netherlands")
    then some (text "auto-nl")
    else if eq_text i (text "france")
    then some (text "auto-fr")
    else if eq_text i (text "canada")
    then some (text "canada")
    else none

-- `DEFAULT_ROUTE_MIN_ELIGIBLE` of a route that has a group.
unfoldable pub default_route_min_eligible : Text → ℤ
default_route_min_eligible i =
    if eq_text i (text "min-latency") || eq_text i (text "stable") || eq_text i (text "max-speed")
    then pos 4
    else pos 2

abbrev pub minimum_of : Text → Option Policy → ℤ
minimum_of i none = default_route_min_eligible i
minimum_of i (some p) = or_else p.min_eligible (default_route_min_eligible i)

-- `eligible_counts.get(…, 0)`
abbrev pub count_in : List (Text × ℤ) → Text → ℤ
count_in [] g = pos 0
count_in ((h, n) ∷ counts) g = let rest = count_in counts g in if eq_text h g then n else rest

-- The gate on the number of eligible nodes, where there are counts and the route has a group.
abbrev pub gated : Text → Option Policy → Option (List (Text × ℤ)) → Option Text → Group → Group
gated i policy (some counts) (some group) g =
    let eligible = count_in counts group in
    let counted : Group = record g {
      eligible_count = some eligible;
      minimum_eligible = some (minimum_of i policy);
    } in
    if ltb_ℤ eligible (minimum_of i policy)
    then record counted {
      disabled = true;
      disabled_reason =
          text "Пока недостаточно качественных серверов. Маршрут вскоре станет доступен.";
      badge = text "Скоро доступно";
      icon = text "hourglass";
    }
    else counted
gated i policy _ _ g = g

abbrev pub enabled : Group → Group
enabled g = record g { disabled = false; disabled_reason = [] }

-- A policy that enables: it may not pass a gate that failed.
abbrev pub manually_enabled :
    Text → Option Policy → Option (List (Text × ℤ)) → Option Text → Group → Group
manually_enabled i policy (some counts) (some group) g =
    if ltb_ℤ (count_in counts group) (minimum_of i policy) then g else enabled g
manually_enabled i policy _ _ g = enabled g

abbrev pub overridden :
    Text → Option Policy → Option (List (Text × ℤ)) → Option Text → Group → Group
overridden i none counts group g = g
overridden i (some p) counts group g =
    if p.disabled
    then record g {
      disabled = true;
      disabled_reason = if truthy p.reason then p.reason else g.disabled_reason;
      icon = if truthy p.icon then p.icon else g.icon;
    }
    else manually_enabled i (some p) counts group g

unfoldable pub apply_route_policy : Option Policy → Option (List (Text × ℤ)) → Group → Group
apply_route_policy policy counts g =
    let group = route_db_group_id g.id in
    overridden g.id policy counts group (gated g.id policy counts group g)

unfoldable pub apply_route_policies :
    List Policy → Option (List (Text × ℤ)) → List Group → List Group
unfolding apply_route_policy
apply_route_policies ps counts groups =
    map (λ g. apply_route_policy (find_where (has_route (Group.id g)) ps) counts g) groups
