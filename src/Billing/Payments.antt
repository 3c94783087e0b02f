-- ===== src/Billing/Payments.antt =====
-- `create_payment` and `complete_payment` of bot/mosaic_billing.py, and the runs of the wallet's
-- operations.
use mosaicvpn.Prelude.{ℕ, Option, none, some, List, [], ◌∷◌, ◌++◌, is_some, if◌then◌else◌, not}
use mosaicvpn.Prelude.Int.{ℤ, ◌+ℤ◌}
use mosaicvpn.Prelude.Text.{Text, text, eq_text}
use mosaicvpn.Prelude.Table.{find_where, update_where}
use mosaicvpn.Prelude.Result.{Result, ok, raise, lookup_error, type_error}
use mosaicvpn.Billing.Types.{
  Account, Wallet, Payment, Books, PaymentReply, already_paid, not_payable, credited, active,
  insufficient_funds, has_id, wallet_of, has_key, has_invoice,
}
use mosaicvpn.Billing.Wallet.{
  freeze, unfreeze, with_balance, entry, credit, debit_one_day, refund_debit,
}

abbrev pub waiting : Text
waiting = text "pending"

abbrev pub paid : Text
paid = text "paid"

abbrev pub new_payment : Text → Text → ℤ → Payment
new_payment i invoice amount = record {
  invoice_id = invoice;
  account_id = i;
  amount_kopecks = amount;
  status = waiting;
}

unfoldable pub create_payment : Text → Text → ℤ → Books → Books
create_payment i invoice amount b =
    if is_some (find_where (has_invoice invoice) b.payments)
    then b
    else record b { payments = b.payments ++ new_payment i invoice amount ∷ [] }

-- `f'cryptopay:{invoice_id}'`
abbrev pub payment_key : Text → Text
payment_key invoice = text "cryptopay:" ++ invoice

abbrev pub to_paid : Payment → Payment
to_paid p = record p { status = paid }

-- `CASE WHEN status='insufficient_funds' THEN 'active' ELSE status END`
abbrev pub paid_status : Account → Account
paid_status a = record a {
  status = if eq_text a.status insufficient_funds then active else a.status;
}

-- The tables after a payment: the ledger's INSERT is `ON CONFLICT(idempotency_key) DO NOTHING`.
abbrev pub paid_books : Payment → ℤ → Books → Books
paid_books p balance b = record b {
  wallets = update_where (wallet_of p.account_id) (with_balance balance) b.wallets;
  ledger =
      if is_some (find_where (has_key (payment_key p.invoice_id)) b.ledger)
      then b.ledger
      else b.ledger
        ++ entry p.account_id (text "topup") p.amount_kopecks balance (payment_key p.invoice_id)
          ∷ [];
  payments = update_where (has_invoice p.invoice_id) to_paid b.payments;
  accounts = update_where (has_id p.account_id) paid_status b.accounts;
}

-- Without a wallet the UPDATE returns no row, and the code takes an item of None.
unfoldable pub pay_wallet : Payment → Option Wallet → Books → Result PaymentReply × Books
pay_wallet p none b = (raise type_error, b)
pay_wallet p (some w) b =
    let balance = w.balance_kopecks +ℤ p.amount_kopecks in
    (ok (credited p.account_id balance), paid_books p balance b)

unfoldable pub pay_selected : Option Payment → Books → Result PaymentReply × Books
pay_selected none b = (raise lookup_error, b)
pay_selected (some p) b =
    if eq_text p.status paid
    then (ok (already_paid p.account_id), b)
    else if not (eq_text p.status waiting)
    then (ok (not_payable p.status p.account_id), b)
    else pay_wallet p (find_where (wallet_of p.account_id) b.wallets) b

unfoldable pub complete_payment : Text → Books → Result PaymentReply × Books
complete_payment invoice b = pay_selected (find_where (has_invoice invoice) b.payments) b

-- The operations on the tables, with the time where they read it.
pub data Call : Type 0 where
  freeze_call : ℕ → Text → Call
  unfreeze_call : ℕ → Text → Call
  credit_call : Text → ℤ → Text → Text → Call
  debit_call : ℕ → Text → Text → Call
  refund_call : Text → Text → Call
  create_payment_call : Text → Text → ℤ → Call
  complete_payment_call : Text → Call

unfoldable pub after : Call → Books → Books
after (freeze_call now i) b = (freeze now i b).1
after (unfreeze_call now i) b = (unfreeze now i b).1
after (credit_call i amount key kind) b = (credit i amount key kind b).1
after (debit_call now i date) b = (debit_one_day now i date b).1
after (refund_call i date) b = (refund_debit i date b).1
after (create_payment_call i invoice amount) b = create_payment i invoice amount b
after (complete_payment_call invoice) b = (complete_payment invoice b).1

unfoldable pub run : List Call → Books → Books
unfolding after
run [] b = b
run (c ∷ cs) b = run cs (after c b)
