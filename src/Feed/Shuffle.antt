-- ===== src/Feed/Shuffle.antt =====
-- `_lcg_seed` and `_lcg_shuffle_indices` of bot/bot.py.
use mosaicvpn.Prelude.{
  ℕ, zero, suc, ◌+◌, ◌*◌, ◌%◌, ◌^◌, Option, none, some, List, [], ◌∷◌, ◌++◌, get_elem?,
}
use mosaicvpn.Prelude.Text.{Text, text}
use mosaicvpn.Prelude.Decimal.{decimal}

abbrev pub multiplier : ℕ
multiplier = 6364136223846793005

abbrev pub increment : ℕ
increment = 1442695040888963407

-- The text that is hashed; `digest` is SHA-256, read as a number.
abbrev pub lcg_seed : (Text → ℕ) → Text → Text → ℕ → ℕ → ℕ
lcg_seed digest opaque_id group_id year week =
    digest
      (opaque_id ++ text ":" ++ group_id ++ text ":" ++ decimal year ++ text ":" ++ decimal week)

-- `list(range(n, n + count))`
abbrev pub range_from : ℕ → ℕ → List ℕ
range_from n zero = []
range_from n (suc count) = n ∷ range_from (n + 1) count

abbrev pub next_state : ℕ → ℕ
next_state state = (multiplier * state + increment) % 2 ^ 64

module _ {ℓ} {A : Type ℓ} where
  abbrev pub set_at : ℕ → A → List A → List A
  set_at i y [] = []
  set_at zero y (x ∷ xs) = y ∷ xs
  set_at (suc i) y (x ∷ xs) = x ∷ set_at i y xs

  -- `xs[i], xs[j] = xs[j], xs[i]`, where an index out of range is an exception.
  abbrev pub swap_read : ℕ → ℕ → Option A → Option A → List A → Option (List A)
  swap_read i j (some x) (some y) xs = some (set_at j x (set_at i y xs))
  swap_read i j _ _ xs = none

  abbrev pub swap : ℕ → ℕ → List A → Option (List A)
  swap i j xs = swap_read i j (get_elem? xs i) (get_elem? xs j) xs

  abbrev pub and_swap : ℕ → ℕ → Option (List A) → Option (List A)
  and_swap i j none = none
  and_swap i j (some xs) = swap i j xs

-- The loop from `i` down to 1.
unfoldable pub shuffle_from : ℕ → ℕ → Option (List ℕ) → Option (List ℕ)
shuffle_from zero state xs = xs
shuffle_from (suc i) state xs =
    let state' = next_state state in shuffle_from i state' (and_swap (suc i) (state' % (i + 2)) xs)

-- `count - 1` where the range starts, or no round at all.
abbrev pub last_index : ℕ → ℕ
last_index zero = 0
last_index (suc n) = n

unfoldable pub lcg_shuffle_indices : ℕ → ℕ → Option (List ℕ)
unfolding shuffle_from
lcg_shuffle_indices seed count =
    shuffle_from (last_index count) (seed % 2 ^ 64) (some (range_from 0 count))
