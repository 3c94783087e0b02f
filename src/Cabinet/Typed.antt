-- ===== src/Cabinet/Typed.antt =====
-- `_link_code_normalise` of bot/bot.py on what a user may type for a pairing code.
use mosaicvpn.Prelude.{
  ℕ, ◌+◌, ◌≤◌, ◌≡◌, ◌∙◌, ◌==◌, refl, ap, true, some, [], ◌∷◌, ◌++◌, arith, inl, inr, All,
  Bool-cases,
}
use mosaicvpn.Prelude.Text.{Text, upper, upper_char}
use mosaicvpn.Cabinet.Codes.{alphabet, occurs, keep_known, normalise}

keep_known-append : (s t : Text) → keep_known (s ++ t) ≡ keep_known s ++ keep_known t
keep_known-append [] t = refl
keep_known-append (c ∷ s) t = elim (Bool-cases (occurs c alphabet)) [
  | inl known ↦ rw (known, keep_known-append s t) refl
  | inr other ↦ rw (other, keep_known-append s t) refl
]

-- The glyphs are digits from 2 on and capitals.
abbrev IsGlyph : ℕ → Type 0
IsGlyph c = (50 ≤ c) × (c ≤ 90)

occurs-All : (P : ℕ → Type 0) (c : ℕ) (s : Text) → All P s → occurs c s ≡ true → P c
occurs-All P c [] a h = absurd (ground arith)
occurs-All P c (d ∷ s) a h = elim (Bool-cases (c == d)) [
  | inl same ↦ let e : c ≡ d = ground arith in rw e a.0
  | inr other ↦ occurs-All P c s a.1 (rw other at h)
]

alphabet-IsGlyph : All IsGlyph alphabet
alphabet-IsGlyph = omega arith

glyph-upper : (c : ℕ) → 50 ≤ c → c ≤ 90 → upper_char c ≡ c ∷ []
unfolding upper_char
glyph-upper c low high = ground arith

small-upper : (c : ℕ) → 65 ≤ c → c ≤ 90 → upper_char (c + 32) ≡ c ∷ []
unfolding upper_char
small-upper c low high = ground arith

upper_char-glyph : (c : ℕ) → occurs c alphabet ≡ true → upper_char c ≡ c ∷ []
upper_char-glyph c h =
    let range = occurs-All IsGlyph c alphabet alphabet-IsGlyph h in glyph-upper c range.0 range.1

upper_char-small : (c : ℕ) → occurs c alphabet ≡ true → 65 ≤ c → upper_char (c + 32) ≡ c ∷ []
upper_char-small c h letter =
    small-upper c letter (occurs-All IsGlyph c alphabet alphabet-IsGlyph h).1

-- A typed text: the glyphs of the code, a letter possibly small, with any separators between them.
pub data Typed : Text → Text → Type 0 where
  done : Typed [] []
  as_is :
      {code s : Text} (c : ℕ) → occurs c alphabet ≡ true → Typed code s → Typed (c ∷ code) (c ∷ s)
  small :
      {code s : Text} (c : ℕ)
      → occurs c alphabet ≡ true
      → 65 ≤ c
      → Typed code s
      → Typed (c ∷ code) ((c + 32) ∷ s)
  separator :
      {code s : Text} (c : ℕ) → keep_known (upper_char c) ≡ [] → Typed code s → Typed code (c ∷ s)

pub Typed-normalise : {code s : Text} → Typed code s → normalise (some s) ≡ code
unfolding normalise upper
Typed-normalise done = refl
Typed-normalise (as_is {code} {s} c h t) =
    rw (upper_char-glyph c h) (rw h (ap (λ u. c ∷ u) (Typed-normalise t)))
Typed-normalise (small {code} {s} c h letter t) =
    rw (upper_char-small c h letter) (rw h (ap (λ u. c ∷ u) (Typed-normalise t)))
Typed-normalise (separator {code} {s} c h t) =
    keep_known-append (upper_char c) (upper s) ∙ rw h (Typed-normalise t)
