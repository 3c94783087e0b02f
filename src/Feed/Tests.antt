-- ===== src/Feed/Tests.antt =====
-- A shuffle and a selection of concrete nodes, and the theorem on them.
use mosaicvpn.Prelude.{
  ℕ, ◌≤◌, ◌≡◌, refl, min, max, Bool, Option, none, some, List, [], ◌∷◌, arith, length,
}
use mosaicvpn.Prelude.Text.{text}
use mosaicvpn.Prelude.Table.{count_where}
use mosaicvpn.Feed.Shuffle.{shuffle_from, lcg_shuffle_indices}
use mosaicvpn.Feed.Shard.{FeedNode, ranked, shard_group_nodes}
use mosaicvpn.Feed.Selection.{LedByBest, shard_group_nodes-Selects}

abbrev node : ℕ → Option ℕ → FeedNode
node speed latency = record {
  uri = text "vless://n";
  speed_mbps = some speed;
  latency_ms = latency;
}

abbrev nodes : List FeedNode
nodes = node 10 none ∷ node 40 (some 80) ∷ node 20 none ∷ node 40 (some 60) ∷ []

shuffles : lcg_shuffle_indices 7 4 ≡ some (1 ∷ 3 ∷ 0 ∷ 2 ∷ [])
unfolding lcg_shuffle_indices shuffle_from
shuffles = refl

ranks : ranked nodes ≡ node 40 (some 60) ∷ node 40 (some 80) ∷ node 20 none ∷ node 10 none ∷ []
unfolding ranked
ranks = refl

shard_group_nodes-Selects_example :
    (out : List FeedNode) × (shard_group_nodes length (text "client") (text "group") 2026 7 3 nodes
      ≡ some out)
    × (length out ≡ max (min 2 4) 3)
    × ((p : FeedNode → Bool) → count_where p out ≤ count_where p nodes)
    × LedByBest out nodes
shard_group_nodes-Selects_example =
    shard_group_nodes-Selects length (text "client") (text "group") 2026 7 3 nodes (omega arith)
