-- ===== src/Feed/Shard.antt =====
-- `_shard_group_nodes` of bot/bot.py. Speeds and latencies are whole numbers of thousandths; a text or
-- a value that is no number stands for a missing one, as the code reads it.
use mosaicvpn.Prelude.{
  ℕ, ◌+◌, ◌-◌, ◌/◌, max, Bool, ◌&&◌, ◌||◌, Option, none, some, List, [], ◌∷◌, ◌++◌, leb, ltb,
  length, take, drop, get_elem?, if◌then◌else◌,
}
use mosaicvpn.Prelude.Text.{Text}
use mosaicvpn.Feed.Shuffle.{lcg_seed, lcg_shuffle_indices}

pub record FeedNode : Type 0 where
  pub uri : Text
  pub speed_mbps : Option ℕ
  pub latency_ms : Option ℕ

-- A missing speed is below every other, -1.
abbrev pub speed_key : Option ℕ → ℕ
speed_key none = 0
speed_key (some v) = v + 1000

-- A missing latency is 10,000 ms.
abbrev pub latency_key : Option ℕ → ℕ
latency_key none = 10000000
latency_key (some v) = v

-- `_node_quality(a) < _node_quality(b)`: slower, or as fast and of a longer latency.
abbrev pub is_worse : FeedNode → FeedNode → Bool
is_worse a b =
    ltb (speed_key a.speed_mbps) (speed_key b.speed_mbps)
    || leb (speed_key a.speed_mbps) (speed_key b.speed_mbps)
      && leb (speed_key b.speed_mbps) (speed_key a.speed_mbps)
      && ltb (latency_key b.latency_ms) (latency_key a.latency_ms)

-- `sorted(…, reverse=True)`, which keeps the order of equals.
abbrev pub ranked_in : FeedNode → List FeedNode → List FeedNode
ranked_in n [] = n ∷ []
ranked_in n (m ∷ ms) = let rest = ranked_in n ms in if is_worse n m then m ∷ rest else n ∷ m ∷ ms

unfoldable pub ranked : List FeedNode → List FeedNode
ranked [] = []
ranked (n ∷ ns) = ranked_in n (ranked ns)

-- `[band[i] for i in indices]`, where an index out of range is an exception.
abbrev pub picked : Option FeedNode → Option (List FeedNode) → Option (List FeedNode)
picked (some n) (some ns) = some (n ∷ ns)
picked _ _ = none

abbrev pub pick_all : List FeedNode → List ℕ → Option (List FeedNode)
pick_all band [] = some []
pick_all band (i ∷ is) = picked (get_elem? band i) (pick_all band is)

abbrev pub band_size : ℕ → List FeedNode → ℕ
band_size need_extra rest = max need_extra ((length rest + 1) / 2)

abbrev pub with_extra : List FeedNode → Option (List FeedNode) → Option (List FeedNode)
with_extra anchors none = none
with_extra anchors (some extra) = some (anchors ++ extra)

unfoldable pub extra_picked : ℕ → List FeedNode → Option (List ℕ) → Option (List FeedNode)
extra_picked need_extra band none = none
extra_picked need_extra band (some indices) = pick_all band (take need_extra indices)

unfoldable pub shard_ranked : ℕ → ℕ → List FeedNode → Option (List FeedNode)
unfolding extra_picked
shard_ranked seed target candidates =
    let anchors = take 2 candidates in
    let rest = drop 2 candidates in
    let need_extra = target - length anchors in
    let band = take (band_size need_extra rest) rest in
    if leb (length rest) 0 || leb need_extra 0
    then some anchors
    else with_extra anchors (extra_picked need_extra band (lcg_shuffle_indices seed (length band)))

-- `None` stands for an exception. The client, the group, the year and the week make the seed.
unfoldable pub shard_group_nodes :
    (Text → ℕ) → Text → Text → ℕ → ℕ → ℕ → List FeedNode → Option (List FeedNode)
unfolding shard_ranked ranked
shard_group_nodes digest opaque_id group_id year week target candidates =
    if leb (length candidates) target
    then some candidates
    else shard_ranked (lcg_seed digest opaque_id group_id year week) target (ranked candidates)
