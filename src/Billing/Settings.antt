-- ===== src/Billing/Settings.antt =====
-- `update_service_settings` of bot/mosaic_billing.py on the settings that `service_settings` reads, with
-- the lines that it writes into the audit trail.
use mosaicvpn.Prelude.{
  ◌≡◌, ◌↔◌, ◌∙◌, ◌⊎◌, refl, sym, ap, subst, Bool, false, ◌||◌, Option, none, some, List, [], ◌∷◌,
  ◌++◌, arith, is_some, Bool-cases, if◌then◌else◌, or_else, inl, inr,
}
use mosaicvpn.Prelude.Int.{ℤ, pos, ltb_ℤ, ◌≤ℤ◌}
use mosaicvpn.Prelude.Text.{Text}
use mosaicvpn.Prelude.Result.{Result, ok, raise, value_error}

pub record Settings : Type 0 where
  pub daily_price_kopecks : ℤ
  pub checkout_discount_percent : ℤ

-- A line of `mosaic_admin_audit` under the action settings_updated.
pub record Audit : Type 0 where
  pub actor_account_id : Text
  pub new_price : Option ℤ
  pub new_discount : Option ℤ

abbrev pub default_settings : Settings
default_settings = record { daily_price_kopecks = pos 100; checkout_discount_percent = pos 0 }

-- `value < low or value > high`, for a value that is given
abbrev pub out_of_range : ℤ → ℤ → Option ℤ → Bool
out_of_range low high none = false
out_of_range low high (some v) = ltb_ℤ v low || ltb_ℤ high v

abbrev pub bad_values : Option ℤ → Option ℤ → Bool
bad_values price discount =
    out_of_range (pos 10) (pos 100000) price || out_of_range (pos 0) (pos 90) discount

abbrev pub with_values : Option ℤ → Option ℤ → Settings → Settings
with_values price discount s = record {
  daily_price_kopecks = or_else price s.daily_price_kopecks;
  checkout_discount_percent = or_else discount s.checkout_discount_percent;
}

unfoldable pub update_service_settings :
    Text → Option ℤ → Option ℤ → Settings × List Audit → Result Settings × (Settings × List Audit)
update_service_settings actor price discount (s, log) =
    if bad_values price discount
    then (raise value_error, (s, log))
    else if is_some price || is_some discount
    then (
      ok (with_values price discount s),
      (
        with_values price discount s,
        log ++ record { actor_account_id = actor; new_price = price; new_discount = discount } ∷ [],
      ),
    )
    else (ok s, (s, log))

-- The CHECK constraints of the settings' columns.
pub record IsInRange (s : Settings) : Type 0 where
  pub price_low : pos 10 ≤ℤ s.daily_price_kopecks
  pub price_high : s.daily_price_kopecks ≤ℤ pos 100000
  pub discount_low : pos 0 ≤ℤ s.checkout_discount_percent
  pub discount_high : s.checkout_discount_percent ≤ℤ pos 90

pub default-IsInRange : IsInRange default_settings
default-IsInRange = ground arith

-- A value, if one is given, lies between two bounds.
abbrev pub Within : ℤ → ℤ → Option ℤ → Type 0
Within low high none = Unit
Within low high (some v) = (low ≤ℤ v) × (v ≤ℤ high)

-- The last value that a trail gives, from the one before it.
abbrev pub last_given : (Audit → Option ℤ) → ℤ → List Audit → ℤ
last_given field before [] = before
last_given field before (a ∷ log) = last_given field (or_else (field a) before) log

-- The settings are what the trail says, from the prices that the service begins with.
abbrev pub IsAudited : Settings × List Audit → Type 0
IsAudited (s, log) =
    (s.daily_price_kopecks ≡ last_given (λ a. a.new_price) (pos 100) log)
    × (s.checkout_discount_percent ≡ last_given (λ a. a.new_discount) (pos 0) log)

last_given-append :
    (field : Audit → Option ℤ) (before : ℤ) (log : List Audit) (a : Audit)
    → last_given field before (log ++ a ∷ []) ≡ or_else (field a) (last_given field before log)
last_given-append field before [] a = refl
last_given-append field before (b ∷ log) a =
    last_given-append field (or_else (field b) before) log a

out_of_range_iff :
    (low high : ℤ) (v : Option ℤ) → (out_of_range low high v ≡ false) ↔ Within low high v
out_of_range_iff low high none = (λ h. tt, λ h. refl)
out_of_range_iff low high (some v) = ground arith

bad_values_iff :
    (price discount : Option ℤ)
    → (bad_values price discount ≡ false)
      ↔ (Within (pos 10) (pos 100000) price × Within (pos 0) (pos 90) discount)
bad_values_iff price discount =
    let p = out_of_range_iff (pos 10) (pos 100000) price in
    let d = out_of_range_iff (pos 0) (pos 90) discount in
    (
      λ h. (p.0 (ground (arith, h)), d.0 (ground (arith, h))),
      λ (u, v). let a = p.1 u in let b = d.1 v in rw (a, b) refl,
    )

-- Values within their bounds keep the settings in range.
with_values-IsInRange :
    (price discount : Option ℤ) (s : Settings)
    → Within (pos 10) (pos 100000) price
    → Within (pos 0) (pos 90) discount
    → IsInRange s
    → IsInRange (with_values price discount s)
with_values-IsInRange none none s p d r = ground arith
with_values-IsInRange (some v) none s p d r = ground arith
with_values-IsInRange none (some w) s p d r = ground arith
with_values-IsInRange (some v) (some w) s p d r = ground arith

-- Whether the values that an update gives are within their bounds.
abbrev pub AreWithin : Option ℤ → Option ℤ → Type 0
AreWithin price discount = Within (pos 10) (pos 100000) price × Within (pos 0) (pos 90) discount

module _ (actor : Text) (price discount : Option ℤ) (s : Settings) (log : List Audit) where
  -- An accepted update stores what it gives and writes it down.
  accepted :
      IsAudited (s, log)
      → bad_values price discount ≡ false
      → let (reply, t) = update_service_settings actor price discount (s, log) in
        (reply ≡ ok t.0) × (t.0 ≡ with_values price discount s) × IsAudited t
  unfolding update_service_settings
  accepted a fine = elim (Bool-cases (is_some price || is_some discount)) [
    | inr silent ↦
        let same : s ≡ with_values price discount s = kept price discount silent in
        rw (fine, silent) (refl, same, a)
    | inl given ↦
        let entry : Audit = record {
          actor_account_id = actor;
          new_price = price;
          new_discount = discount;
        } in
        let p = last_given-append (λ e. e.new_price) (pos 100) log entry in
        let d = last_given-append (λ e. e.new_discount) (pos 0) log entry in
        let old_price = a.0 in
        let old_discount = a.1 in
        rw (fine, given)
          (
            refl,
            refl,
            (ap (or_else price) old_price ∙ sym p, ap (or_else discount) old_discount ∙ sym d),
          )
  ]
    where
      kept : (p d : Option ℤ) → (is_some p || is_some d) ≡ false → s ≡ with_values p d s
      kept none none h = refl
      kept none (some v) h = absurd (ground arith)
      kept (some v) d h = absurd (ground arith)

  -- `update_service_settings` never meets the CHECK constraints, and the trail accounts for the
  -- settings: if settings are in range and what the audit trail gave last, or 100 kopecks and no
  -- discount before it gave any, they are so after an update. If the price that is given, if one is,
  -- lies between 10 and 100000, and the discount, if one is, between 0 and 90, the update answers the
  -- new settings, in which each value is the given one or else the old one; and if not, it raises a
  -- value error and changes neither the settings nor the trail.
  pub update-IsInRange :
      IsInRange s
      → IsAudited (s, log)
      → let (reply, t) = update_service_settings actor price discount (s, log) in
        IsInRange t.0
        × IsAudited t
        × ((AreWithin price discount
              × (reply ≡ ok t.0)
              × (t.0.daily_price_kopecks ≡ or_else price s.daily_price_kopecks)
              × (t.0.checkout_discount_percent ≡ or_else discount s.checkout_discount_percent))
            ⊎ ((¬ AreWithin price discount) × (reply ≡ raise value_error) × (t ≡ (s, log))))
  unfolding update_service_settings
  update-IsInRange r a = elim (Bool-cases (bad_values price discount)) [
    | inl bad ↦
        let outside : ¬ AreWithin price discount = λ w.
          let fine = (bad_values_iff price discount).1 w in absurd (ground (arith, bad, fine)) in
        rw bad (r, a, inr (outside, refl, refl))
    | inr fine ↦
        let w = (bad_values_iff price discount).0 fine in
        let (reply, new, audited) = accepted a fine in
        (
          subst IsInRange (sym new) (with_values-IsInRange price discount s w.0 w.1 r),
          audited,
          inl (
            w,
            reply,
            ap (λ x. x.daily_price_kopecks) new,
            ap (λ x. x.checkout_discount_percent) new,
          ),
        )
  ]
