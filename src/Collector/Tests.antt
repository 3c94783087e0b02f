-- ===== src/Collector/Tests.antt =====
-- A choice among concrete nodes, and the theorem on them.
use mosaicvpn.Prelude.{◌/◌, ◌≤◌, ◌≡◌, refl, min, Option, none, some, List, [], ◌∷◌, length}
use mosaicvpn.Prelude.Int.{pos, pos_part}
use mosaicvpn.Prelude.Text.{Text, text, upper_char, upper}
use mosaicvpn.Prelude.Table.{count_where}
use mosaicvpn.Collector.Strata.{
  Node, has_fingerprint, put_all, in_country, stratify_unique, stratify_candidates,
}
use mosaicvpn.Collector.Fair.{stratify_candidates-fair}

abbrev node : Text → Option Text → Node
node f country = record { fingerprint = f; country_code = country; raw = [] }

abbrev found : List Node
found =
    node (text "a") none
    ∷ node (text "b") (some (text "br"))
    ∷ node (text "a") (some (text "de"))
    ∷ node (text "c") (some (text "DE"))
    ∷ []

unique_nodes :
    put_all found []
    ≡ node (text "a") (some (text "de"))
      ∷ node (text "b") (some (text "br"))
      ∷ node (text "c") (some (text "DE"))
      ∷ []
unfolding put_all
unique_nodes = refl

chosen :
    stratify_candidates (pos 12) found
    ≡ node (text "a") (some (text "de"))
      ∷ node (text "c") (some (text "DE"))
      ∷ node (text "b") (some (text "br"))
      ∷ []
unfolding put_all stratify_unique stratify_candidates upper_char upper
chosen = refl

stratify_candidates-fair_example :
    let out = stratify_candidates (pos 2) found in
    let u = put_all found [] in
    (count_where (has_fingerprint (text "a")) u
      ≡ min 1 (count_where (has_fingerprint (text "a")) found))
    × (length out ≡ min (pos_part (pos 2)) (length u))
    × (count_where (in_country (text "DE")) out ≤ count_where (in_country (text "DE")) u)
    × (count_where (has_fingerprint (text "a")) out ≤ 1)
    × (min (pos_part (pos 2) / 12) (count_where (in_country (text "DE")) u)
        ≤ count_where (in_country (text "DE")) out)
stratify_candidates-fair_example =
    stratify_candidates-fair (pos 2) found (text "DE") (text "a") (in_country (text "DE")) refl
