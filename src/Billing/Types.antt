-- ===== src/Billing/Types.antt =====
-- The tables of bot/mosaic_billing.py, as far as the wallet's operations read and write them. Instants
-- are microseconds since the epoch, money is in kopecks, an account's id and a date are their texts.
use mosaicvpn.Prelude.{ℕ, Bool, Option, List}
use mosaicvpn.Prelude.Int.{ℤ}
use mosaicvpn.Prelude.Text.{Text, text, eq_text}

pub record Account : Type 0 where
  pub id : Text
  pub status : Text
  pub trial_started_at : Option ℕ
  pub trial_ends_at : Option ℕ

pub record Wallet : Type 0 where
  pub account_id : Text
  pub balance_kopecks : ℤ

pub record Subscription : Type 0 where
  pub account_id : Text
  pub remnawave_username : Option Text
  pub frozen_at : Option ℕ
  pub last_debit_at : Option ℕ

pub record Entry : Type 0 where
  pub account_id : Text
  pub kind : Text
  pub amount_kopecks : ℤ
  pub balance_after_kopecks : ℤ
  pub idempotency_key : Text

pub record Debit : Type 0 where
  pub account_id : Text
  pub debit_date : Text
  pub amount_kopecks : ℤ

pub record Payment : Type 0 where
  pub invoice_id : Text
  pub account_id : Text
  pub amount_kopecks : ℤ
  pub status : Text

-- A row of `mosaic_trial_claims`.
pub record TrialClaim : Type 0 where
  pub account_id : Text
  pub channel_username : Text
  pub telegram_user_id : ℤ

-- The answers of `claim_telegram_trial`, with the end of the trial.
pub data TrialReply : Type 0 where
  already_active : ℕ → TrialReply
  already_claimed_elsewhere : TrialReply
  claimed : ℕ → TrialReply

-- The tables that the operations share; `price` is the daily price of the service settings.
pub record Books : Type 0 where
  pub accounts : List Account
  pub wallets : List Wallet
  pub subscriptions : List Subscription
  pub ledger : List Entry
  pub debits : List Debit
  pub payments : List Payment
  pub price : ℤ

-- What `summary` answers of an account and its wallet.
pub record Summary : Type 0 where
  pub account_id : Text
  pub status : Text
  pub trial_ends_at : Option ℕ
  pub balance_kopecks : ℤ

-- The answers of `debit_one_day` and of `complete_payment`.
pub data DebitReply : Type 0 where
  already_done : DebitReply
  no_funds : DebitReply
  debited : ℤ → ℤ → DebitReply

pub data PaymentReply : Type 0 where
  already_paid : Text → PaymentReply
  not_payable : Text → Text → PaymentReply
  credited : Text → ℤ → PaymentReply

abbrev pub active : Text
active = text "active"

abbrev pub frozen : Text
frozen = text "frozen"

abbrev pub revoked : Text
revoked = text "revoked"

abbrev pub insufficient_funds : Text
insufficient_funds = text "insufficient_funds"

abbrev pub has_id : Text → Account → Bool
has_id i a = eq_text a.id i

abbrev pub wallet_of : Text → Wallet → Bool
wallet_of i w = eq_text w.account_id i

abbrev pub subscription_of : Text → Subscription → Bool
subscription_of i s = eq_text s.account_id i

abbrev pub has_key : Text → Entry → Bool
has_key k e = eq_text e.idempotency_key k

abbrev pub has_invoice : Text → Payment → Bool
has_invoice i p = eq_text p.invoice_id i
