-- ===== src/Shop/Types.antt =====
-- The tables of `init_db` in bot/bot.py that the payments work on, next to the cabinet's, and the
-- panel's answers. Amounts of money are floats that the code only stores, and are left out, with the
-- columns of the promo code.
use mosaicvpn.Prelude.{ℕ, Bool, Option, List}
use mosaicvpn.Prelude.Int.{ℤ, eq_ℤ}
use mosaicvpn.Prelude.Text.{Text}
use mosaicvpn.Prelude.Result.{Result}
use mosaicvpn.Cabinet.Tables.{Tables}

-- `invoices`
pub record Invoice : Type 0 where
  pub invoice_id : ℤ
  pub telegram_id : ℤ
  pub days : ℤ
  pub status : Text
  pub created_at : ℕ
  pub payment_provider : Text
  pub provider_invoice_id : Option Text
  pub order_id : Option Text
  pub terms_version : Text

-- `referral_stats`
pub record Stats : Type 0 where
  pub referrer_id : ℤ
  pub clicks : ℤ
  pub joined : ℤ
  pub paid : ℤ
  pub bonus_days_earned : ℤ

pub record Store : Type 0 where
  pub tables : Tables
  pub invoices : List Invoice
  pub stats : List Stats

-- What the panel answers in a call: whether it has a user, and to an update the short id of the user,
-- nothing, or an exception when the connection fails.
pub record Panel : Type 0 where
  pub has_user : Text → Bool
  pub extend_user : Text → ℤ → Result (Option Text)
  pub create_user : Text → ℤ → ℤ → Result (Option Text)

pub data Payee : Type 0 where
  payer referrer : Payee

-- A call of the panel that adds days, with its answer.
pub record Write : Type 0 where
  pub payee : Payee
  pub invoice_id : ℤ
  pub username : Text
  pub days : ℤ
  pub answer : Result (Option Text)

abbrev pub has_invoice : ℤ → Invoice → Bool
has_invoice i r = eq_ℤ r.invoice_id i
