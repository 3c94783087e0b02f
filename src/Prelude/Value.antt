-- ===== src/Prelude/Value.antt =====
-- Arguments of the entry points as Python sees them: a value of any type, which the program tests
-- with `isinstance` and `type`.
use mathlib.Core.Bool.{Bool}
use mathlib.Core.Option.{Option, none, some}
use mosaicvpn.Prelude.Int.{ℤ}
use mosaicvpn.Prelude.Text.{Text}

pub data Value : Type 0 where
  none_value : Value
  bool : Bool → Value
  int : ℤ → Value
  str : Text → Value
  other : Value

-- `type(val) is int`
abbrev pub as_int : Value → Option ℤ
as_int (int n) = some n
as_int _ = none

-- `isinstance(val, str)`
abbrev pub as_text : Value → Option Text
as_text (str s) = some s
as_text _ = none
