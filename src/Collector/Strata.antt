-- ===== src/Collector/Strata.antt =====
-- `stratify_candidates` of bot/mosaic_pool_collector.py.
use mosaicvpn.Prelude.{
  ℕ, ◌+◌, ◌-◌, ◌/◌, Bool, false, not, ◌&&◌, ◌||◌, Option, List, [], ◌∷◌, ◌++◌, is_some, or_else,
  length, take, drop, if◌then◌else◌,
}
use mosaicvpn.Prelude.Int.{ℤ, pos_part}
use mosaicvpn.Prelude.Text.{Text, text, eq_text, upper}
use mosaicvpn.Prelude.Table.{find_where, filter_where, update_where}

-- A node, by what the choice reads of it; `raw` stands for the rest of its fields.
pub record Node : Type 0 where
  pub fingerprint : Text
  pub country_code : Option Text
  pub raw : Text

abbrev pub has_fingerprint : Text → Node → Bool
has_fingerprint f n = eq_text n.fingerprint f

-- A later node takes the place of one without a country, if it has one.
abbrev pub better_of : Node → Node → Node
better_of new old = if not (is_some old.country_code) && is_some new.country_code then new else old

-- `unique[node.fingerprint] = node`, which keeps the place of a key that is there.
abbrev pub put : Node → List Node → List Node
put n u =
    if is_some (find_where (has_fingerprint n.fingerprint) u)
    then update_where (has_fingerprint n.fingerprint) (better_of n) u
    else u ++ n ∷ []

unfoldable pub put_all : List Node → List Node → List Node
put_all [] u = u
put_all (n ∷ ns) u = put_all ns (put n u)

-- `sorted(priority_countries)`
abbrev pub priority_countries : List Text
priority_countries =
    text "CA"
    ∷ text "DE"
    ∷ text "FI"
    ∷ text "FR"
    ∷ text "GB"
    ∷ text "JP"
    ∷ text "NL"
    ∷ text "PL"
    ∷ text "SG"
    ∷ text "US"
    ∷ []

abbrev pub is_among : Text → List Text → Bool
is_among c [] = false
is_among c (d ∷ ds) = eq_text c d || is_among c ds

-- `(node.country_code or '').upper()`
abbrev pub country_of : Node → Text
country_of n = upper (or_else n.country_code [])

abbrev pub in_country : Text → Node → Bool
in_country cc n = eq_text (country_of n) cc

abbrev pub is_other : Node → Bool
is_other n = not (is_among (country_of n) priority_countries)

-- The first nodes of each country, up to the quota.
abbrev pub within_quota : ℕ → List Text → List Node → List Node
within_quota q [] u = []
within_quota q (cc ∷ ccs) u = take q (filter_where (in_country cc) u) ++ within_quota q ccs u

-- The nodes of each country behind the quota.
abbrev pub beyond_quota : ℕ → List Text → List Node → List Node
beyond_quota q [] u = []
beyond_quota q (cc ∷ ccs) u = drop q (filter_where (in_country cc) u) ++ beyond_quota q ccs u

abbrev pub per_country_quota : ℕ → ℕ
per_country_quota total = total / (length priority_countries + 2)

-- The budget that is left is filled; none left adds nothing.
unfoldable pub stratify_unique : ℕ → List Node → List Node
stratify_unique total u =
    let q = per_country_quota total in
    let selected = within_quota q priority_countries u in
    let overflow = beyond_quota q priority_countries u ++ filter_where is_other u in
    selected ++ take (total - length selected) overflow

unfoldable pub stratify_candidates : ℤ → List Node → List Node
unfolding put_all stratify_unique
stratify_candidates total_limit nodes = stratify_unique (pos_part total_limit) (put_all nodes [])
