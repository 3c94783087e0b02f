-- ===== src/Prelude/Decimal.antt =====
-- Decimal texts of numbers, as `str` and f-strings print them.
use Prim.Native.Nat.{ℕ, zero, suc, ◌+◌, ◌/◌, ◌%◌}
use mathlib.Core.List.{[], ◌∷◌, ◌++◌}
use mosaicvpn.Prelude.Tests.{ltb, if◌then◌else◌}
use mosaicvpn.Prelude.Int.{ℤ, pos, negsuc}
use mosaicvpn.Prelude.Text.{Text}

-- The fuel is above the number, which falls at each step.
abbrev pub decimal_digits : ℕ → ℕ → Text
decimal_digits zero n = []
decimal_digits (suc f) n =
    let rest = decimal_digits f (n / 10) ++ (48 + n % 10) ∷ [] in
    if ltb n 10 then (48 + n) ∷ [] else rest

unfoldable pub decimal : ℕ → Text
decimal n = decimal_digits (suc n) n

abbrev pub decimal_ℤ : ℤ → Text
decimal_ℤ (pos n) = decimal n
decimal_ℤ (negsuc n) = b'-' ∷ decimal (suc n)
