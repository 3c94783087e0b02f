-- ===== src/Prelude/Text.antt =====
-- Texts as lists of Unicode code points, with the `str` methods that the program calls.
use Prim.Native.Nat.{ℕ, ◌-◌}
use Prim.Native.Char.{code}
use Prim.Native.String.{String}
use mathlib.Core.Path.{◌≡◌, refl}
use mathlib.Core.Bool.{Bool, true, false, ◌&&◌, ◌||◌}
use mathlib.Core.Logic.{◌↔◌}
use mathlib.Core.List.{List, [], ◌∷◌, ◌++◌, reverse}
use native.Mathlib.Omega.{arith}
use mosaicvpn.Prelude.Tests.{leb, ◌==◌, if◌then◌else◌}

abbrev pub Text : Type 0
Text = List ℕ

-- The code points of a literal.
abbrev pub text : String → Text
text String.[] = []
text (String.◌∷◌ c s) = code c ∷ text s

abbrev pub eq_text : Text → Text → Bool
eq_text [] [] = true
eq_text (a ∷ s) (b ∷ t) = a == b && eq_text s t
eq_text _ _ = false

pub eq_text_sound : (s t : Text) → eq_text s t ≡ true → s ≡ t
eq_text_sound [] [] h = refl
eq_text_sound [] (b ∷ t) h = ground arith
eq_text_sound (a ∷ s) [] h = ground arith
eq_text_sound (a ∷ s) (b ∷ t) h = ground (arith, eq_text_sound s t)

pub eq_text_refl : (s : Text) → eq_text s s ≡ true
eq_text_refl [] = refl
eq_text_refl (a ∷ s) = ground (arith, eq_text_refl s)

pub eq_text_iff : (s t : Text) → (eq_text s t ≡ true) ↔ (s ≡ t)
eq_text_iff s t = (eq_text_sound s t, λ e. rw e (eq_text_refl t))

-- `str.isspace` of one character: the code points that `str.strip` removes.
unfoldable pub is_space : ℕ → Bool
is_space c =
    leb 9 c && leb c 13
    || leb 28 c && leb c 32
    || c == 133
    || c == 160
    || c == 5760
    || leb 8192 c && leb c 8202
    || c == 8232
    || c == 8233
    || c == 8239
    || c == 8287
    || c == 12288

unfoldable pub lstrip : Text → Text
unfolding is_space
lstrip [] = []
lstrip (c ∷ s) = let rest = lstrip s in if is_space c then rest else c ∷ s

-- `str.strip()`
unfoldable pub strip : Text → Text
unfolding lstrip
strip s = reverse (lstrip (reverse (lstrip s)))

-- Truth of a text: it is not empty.
abbrev pub truthy : Text → Bool
truthy [] = false
truthy (c ∷ s) = true

pub eq_text_sym : (s t : Text) → eq_text s t ≡ eq_text t s
eq_text_sym [] [] = refl
eq_text_sym [] (b ∷ t) = refl
eq_text_sym (a ∷ s) [] = refl
eq_text_sym (a ∷ s) (b ∷ t) = ground (arith, eq_text_sym s t)

-- `str.upper()` of one character: the ASCII letters, and the characters whose capitals begin with or
-- contain ASCII letters. Any other character stands for its own capital, which is not ASCII.
unfoldable pub upper_char : ℕ → Text
upper_char c =
    if leb b'a' c && leb c b'z'
    then (c - 32) ∷ []
    else if c == 305
    then b'I' ∷ []
    else if c == 383
    then b'S' ∷ []
    else if c == 223
    then b'S' ∷ b'S' ∷ []
    else if c == 329
    then 700 ∷ b'N' ∷ []
    else if c == 496
    then b'J' ∷ 780 ∷ []
    else if c == 7830
    then b'H' ∷ 817 ∷ []
    else if c == 7831
    then b'T' ∷ 776 ∷ []
    else if c == 7832
    then b'W' ∷ 778 ∷ []
    else if c == 7833
    then b'Y' ∷ 778 ∷ []
    else if c == 7834
    then b'A' ∷ 702 ∷ []
    else if c == 64256
    then b'F' ∷ b'F' ∷ []
    else if c == 64257
    then b'F' ∷ b'I' ∷ []
    else if c == 64258
    then b'F' ∷ b'L' ∷ []
    else if c == 64259
    then b'F' ∷ b'F' ∷ b'I' ∷ []
    else if c == 64260
    then b'F' ∷ b'F' ∷ b'L' ∷ []
    else if c == 64261 || c == 64262
    then b'S' ∷ b'T' ∷ []
    else c ∷ []

unfoldable pub upper : Text → Text
unfolding upper_char
upper [] = []
upper (c ∷ s) = upper_char c ++ upper s
