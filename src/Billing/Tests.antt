-- ===== src/Billing/Tests.antt =====
-- Runs of the wallet's operations on concrete tables, and the theorems at inputs that meet their
-- hypotheses.
use mosaicvpn.Prelude.{◌≡◌, refl, true, false, none, some, List, [], ◌∷◌, arith}
use mosaicvpn.Prelude.Int.{pos, pos_part, ◌≤ℤ◌, ◌+ℤ◌, ◌-ℤ◌}
use mosaicvpn.Prelude.Text.{Text, text}
use mosaicvpn.Prelude.Result.{ok, is_ok}
use mosaicvpn.Prelude.{false}
use mosaicvpn.Prelude.Result.{value_error}
use mosaicvpn.Billing.Settings.{
  default_settings, default-IsInRange, update_service_settings, IsInRange, IsAudited, AreWithin,
  update-IsInRange,
}
use mosaicvpn.Billing.Types.{Account, Books, already_done, debited, already_paid, credited, active}
use mosaicvpn.Billing.Wallet.{
  joined, summary, freeze, is_funded, on_trial, unfreeze, credit_wallet, credit, debit_wallet,
  debit_one_day, refund_debit,
}
use mosaicvpn.Billing.Payments.{
  create_payment, pay_wallet, pay_selected, complete_payment, Call, freeze_call, unfreeze_call,
  credit_call, debit_call, refund_call, create_payment_call, complete_payment_call, after, run,
}
use mosaicvpn.Billing.Steps.{money, MoneyStep, meets_own_key, after-MoneyStep}
use mosaicvpn.Billing.Balance.{IsBalanced, MeetsNoOwnKey, balance_is_ledger}
use mosaicvpn.Billing.Once.{credit_once, debit_once}
use mosaicvpn.Billing.Paid.{payment_once}
use mosaicvpn.Billing.Daily.{
  Panel, active_accounts, refunded, refunded_in_try, extended, settle, disabled, after_debit,
  debit_account, debit_all, run_daily_debits,
}
use mosaicvpn.Billing.Extension.{failed_extension_is_free}
use mosaicvpn.Billing.Trial.{
  TrialTables, trial_end, record_claim, is_running, claim_trial_row, claim_telegram_trial,
}
use mosaicvpn.Billing.Renewal.{trial_renewable}
use mosaicvpn.Billing.Entitled.{IsExclusive, IsEntitled, trial-claimed_iff}
use mosaicvpn.Prelude.{◌↔◌, ◌⊎◌, ◌+◌, ◌*◌}
use mosaicvpn.Prelude.Table.{find_where}
use mosaicvpn.Prelude.Result.{raise, callback_error}
use mosaicvpn.Billing.Types.{Wallet, wallet_of, claimed}

-- All the definitions that a run computes with.
program : Unit {0}
unfolding ◌+ℤ◌ ◌-ℤ◌ joined summary freeze is_funded on_trial unfreeze credit_wallet credit
    debit_wallet debit_one_day refund_debit create_payment pay_wallet pay_selected complete_payment
    after run meets_own_key
program = tt

daily : Unit {0}
unfolding program active_accounts refunded refunded_in_try extended settle disabled after_debit
    debit_account debit_all run_daily_debits
daily = tt

trials : Unit {0}
unfolding record_claim is_running claim_trial_row claim_telegram_trial
trials = tt

abbrev anna : Text
anna = text "a1"

abbrev today : Text
today = text "2026-01-02"

abbrev invoice : Text
invoice = text "inv"

abbrev books : Books
books = record {
  accounts =
      record { id = anna; status = active; trial_started_at = none; trial_ends_at = none } ∷ [];
  wallets = record { account_id = anna; balance_kopecks = pos 0 } ∷ [];
  subscriptions =
      record {
        account_id = anna;
        remnawave_username = some (text "anna");
        frozen_at = none;
        last_debit_at = none;
      }
      ∷ [];
  ledger = [];
  debits = [];
  payments = [];
  price = pos 100;
}

abbrev calls : List Call
calls =
    credit_call anna (pos 500) (text "k1") (text "topup")
    ∷ create_payment_call anna invoice (pos 300)
    ∷ debit_call 10 anna today
    ∷ refund_call anna today
    ∷ complete_payment_call invoice
    ∷ freeze_call 20 anna
    ∷ unfreeze_call 30 anna
    ∷ []

calls_give :
    summary anna (run calls books)
    ≡ some record {
      account_id = anna;
      status = active;
      trial_ends_at = none;
      balance_kopecks = pos 800;
    }
unfolding program
calls_give = refl

after-MoneyStep_example :
    MoneyStep false
      (money books)
      (money (after (credit_call anna (pos 500) (text "k1") (text "topup")) books))
unfolding meets_own_key
after-MoneyStep_example =
    after-MoneyStep (credit_call anna (pos 500) (text "k1") (text "topup")) books

calls-MeetsNoOwnKey : MeetsNoOwnKey calls books
unfolding program
calls-MeetsNoOwnKey = (refl, (refl, (refl, (refl, (refl, (refl, (refl, tt)))))))

books-IsBalanced : IsBalanced anna (money books)
books-IsBalanced w found = ground arith

balance_is_ledger_example : IsBalanced anna (money (run calls books))
balance_is_ledger_example = balance_is_ledger calls books anna calls-MeetsNoOwnKey books-IsBalanced

credit_passes : is_ok (credit anna (pos 500) (text "k1") (text "topup") books).0 ≡ true
unfolding program
credit_passes = refl

credit_once_example :
    let b' = run calls (credit anna (pos 500) (text "k1") (text "topup") books).1 in
    credit anna (pos 700) (text "k1") (text "bonus") b' ≡ (ok (summary anna b'), b')
credit_once_example =
    credit_once anna anna (text "k1") (text "topup") (text "bonus") (pos 500) (pos 700) calls books
      credit_passes refl

abbrev funded : Books
funded = record books {
  wallets = record { account_id = anna; balance_kopecks = pos 250 } ∷ [];
  payments =
      record {
        invoice_id = invoice;
        account_id = anna;
        amount_kopecks = pos 300;
        status = text "pending";
      }
      ∷ [];
}

debit_passes : (debit_one_day 10 anna today funded).0 ≡ ok (debited (pos 150) (pos 100))
unfolding program
debit_passes = refl

debit_once_example :
    let b' = run calls (debit_one_day 10 anna today funded).1 in
    debit_one_day 99 anna today b' ≡ (ok already_done, b')
debit_once_example = debit_once 10 99 anna today (pos 150) (pos 100) calls funded debit_passes

payment_passes : (complete_payment invoice funded).0 ≡ ok (credited anna (pos 550))
unfolding program
payment_passes = refl

payment_once_example :
    let b' = run calls (complete_payment invoice funded).1 in
    complete_payment invoice b' ≡ (ok (already_paid anna), b')
payment_once_example = payment_once invoice anna (pos 550) calls funded payment_passes

-- A panel that is out of reach, and one that refuses.
abbrev broken : Panel
broken = record { extend = λ u. raise callback_error; disable = λ u. ok tt }

daily_run : (run_daily_debits 10 broken today funded).0 ≡ ok tt
unfolding daily
daily_run = refl

abbrev purse : Wallet
purse = record { account_id = anna; balance_kopecks = pos 250 }

failed_extension_is_free_example :
    let (reply, b') = debit_account 10 broken today (anna, some (text "anna")) funded in
    (reply ≡ ok tt) × (find_where (wallet_of anna) b'.wallets ≡ some purse)
failed_extension_is_free_example =
    failed_extension_is_free 10 broken anna today (some (text "anna")) funded purse (pos 150)
      (pos 100) refl debit_passes refl refl refl

abbrev trial_tables : TrialTables
trial_tables = (books.accounts, [])

trial_passes :
    (claim_telegram_trial 10 anna (pos 42) (text "@chan") (pos 3) trial_tables).0
    ≡ ok (claimed (trial_end 10 (pos 3)))
unfolding trials
trial_passes = refl

-- Another user's claim, and an earlier one of the account's own.
abbrev claimed_tables : TrialTables
claimed_tables = (
  books.accounts,
  record { account_id = text "b2"; channel_username = text "@chan"; telegram_user_id = pos 43 }
      ∷ record { account_id = anna; channel_username = text "@chan"; telegram_user_id = pos 42 }
      ∷ [],
)

claimed_tables-IsExclusive : IsExclusive claimed_tables.1
claimed_tables-IsExclusive = (
  ((λ p q. refl), ((λ p q. absurd (ground (arith, q))), tt)),
  (((λ p q. absurd (ground (arith, q))), ((λ p q. refl), tt)), tt),
)

trial-claimed_iff_example :
    let (reply, t) = claim_telegram_trial 10 anna (pos 42) (text "@chan") (pos 3) claimed_tables in
    IsExclusive t.1
    × ((reply ≡ ok (claimed (10 + pos_part (pos 3) * (24 * 60 * 60 * 1000000)))) ↔ (
        (pos 1 ≤ℤ pos 3)
        × ((a : Account) × IsEntitled 10 anna (pos 42) (text "@chan") (pos 3) claimed_tables a)))
trial-claimed_iff_example =
    trial-claimed_iff 10 anna (pos 42) (text "@chan") (pos 3) claimed_tables
      claimed_tables-IsExclusive

trial_renewable_example :
    (claim_telegram_trial 259200000011 anna
      (pos 42)
      (text "@chan")
      (pos 5)
      (claim_telegram_trial 10 anna (pos 42) (text "@chan") (pos 3) trial_tables).1).0
    ≡ ok (claimed (trial_end 259200000011 (pos 5)))
trial_renewable_example =
    trial_renewable 10 259200000011 anna (pos 42) (text "@chan") (pos 3) (pos 5) trial_tables refl
      refl trial_passes (omega arith)

update-IsInRange_example :
    let (reply, t) = update_service_settings anna (some (pos 250)) none (default_settings, []) in
    IsInRange t.0
    × IsAudited t
    × ((AreWithin (some (pos 250)) none
          × (reply ≡ ok t.0)
          × (t.0.daily_price_kopecks ≡ pos 250)
          × (t.0.checkout_discount_percent ≡ pos 0))
        ⊎ ((¬ AreWithin (some (pos 250)) none)
            × (reply ≡ raise value_error)
            × (t ≡ (default_settings, []))))
update-IsInRange_example =
    update-IsInRange anna (some (pos 250)) none default_settings [] default-IsInRange (refl, refl)

-- A price under the least one is refused.
low_price_refused :
    update_service_settings anna (some (pos 5)) none (default_settings, [])
    ≡ (raise value_error, (default_settings, []))
unfolding update_service_settings
low_price_refused = refl
