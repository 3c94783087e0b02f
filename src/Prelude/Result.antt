-- ===== src/Prelude/Result.antt =====
-- Results of calls that may raise: the exception classes of the program, without their messages.
use mathlib.Core.Bool.{Bool, true, false}
use mosaicvpn.Prelude.Int.{ℤ}
use mosaicvpn.Prelude.Text.{Text}
use mosaicvpn.Prelude.Value.{Value, int, str}

-- `integrity_error` is `sqlite3.IntegrityError`; `callback_error` is any exception of a callback.
pub data Error : Type 0 where
  value_error type_error lookup_error runtime_error integrity_error callback_error : Error

pub data Result {ℓ} (A : Type ℓ) : Type ℓ where
  ok : A → Result A
  raise : Error → Result A

infixl 5 ◌>>=◌ ◌>>◌
abbrev pub ◌>>=◌ {ℓ κ} : {A : Type ℓ} {B : Type κ} → Result A → (A → Result B) → Result B
◌>>=◌ (raise e) next = raise e
◌>>=◌ (ok a) next = next a

-- A check that may raise, and what follows it.
abbrev pub ◌>>◌ {ℓ} : {B : Type ℓ} → Result (Unit {0}) → Result B → Result B
raise e >> rest = raise e
ok done >> rest = rest

-- `if c: raise e`
abbrev pub raise_if : Bool → Error → Result (Unit {0})
raise_if true e = raise e
raise_if false e = ok tt

-- `if not _is_valid_int(val): raise e`
abbrev pub int_or_raise : Value → Error → Result ℤ
int_or_raise (int n) e = ok n
int_or_raise _ e = raise e

-- `if not isinstance(val, str): raise e`
abbrev pub text_or_raise : Value → Error → Result Text
text_or_raise (str s) e = ok s
text_or_raise _ e = raise e

abbrev pub is_ok {ℓ} : {A : Type ℓ} → Result A → Bool
is_ok (ok a) = true
is_ok (raise e) = false
