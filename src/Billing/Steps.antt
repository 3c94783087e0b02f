-- ===== src/Billing/Steps.antt =====
-- The wallets and the ledger of bot/mosaic_billing.py as a transition system.
use mosaicvpn.Prelude.{
  ℕ, ◌≡◌, refl, sym, Bool, true, false, none, some, List, [], ◌∷◌, ◌++◌, arith, inl, inr, is_some,
  Bool-cases, Option-cases,
}
use mosaicvpn.Prelude.Int.{ℤ, pos, ◌+ℤ◌, ◌-ℤ◌, int_laws, leb_ℤ, ltb_ℤ, eq_of_parts}
use mosaicvpn.Prelude.Text.{Text, text, eq_text, eq_text_iff}
use mosaicvpn.Prelude.Table.{find_where, update_where, find-holds}
use mosaicvpn.Billing.Types.{Wallet, Entry, Payment, Books, wallet_of, has_key, has_invoice}
use mosaicvpn.Billing.Wallet.{
  freeze, unfreeze, with_balance, entry, credit_wallet, credit, debit_key, debit_on, debit_wallet,
  debit_one_day, refund_debit,
}
use mosaicvpn.Billing.Payments.{
  create_payment, payment_key, pay_wallet, pay_selected, complete_payment, waiting, paid, Call,
  freeze_call, unfreeze_call, credit_call, debit_call, refund_call, create_payment_call,
  complete_payment_call, after,
}

abbrev pub Money : Type 0
Money = List Wallet × List Entry

abbrev pub money : Books → Money
money b = (b.wallets, b.ledger)

-- The wallet of `i` changed by an amount.
abbrev pub moved : Text → ℤ → Wallet → List Wallet → List Wallet
moved i amount w = update_where (wallet_of i) (with_balance (w.balance_kopecks +ℤ amount))

-- A change of the wallets and the ledger: none; an amount posted to one wallet, with an entry under a
-- fresh key; or, at a payment whose key stands in the ledger, the wallet alone.
pub data MoneyStep (listed : Bool) (m : Money) : Money → Type 0 where
  idle : MoneyStep listed m m
  posting :
      (i kind key : Text) (amount : ℤ) (w : Wallet)
      → find_where (wallet_of i) m.0 ≡ some w
      → find_where (has_key key) m.1 ≡ none
      → MoneyStep listed m
          (moved i amount w m.0, m.1 ++ entry i kind amount (w.balance_kopecks +ℤ amount) key ∷ [])
  unlisted :
      (i : Text) (amount : ℤ) (w : Wallet)
      → find_where (wallet_of i) m.0 ≡ some w
      → listed ≡ true
      → MoneyStep listed m (moved i amount w m.0, m.1)

-- The call completes a payment whose key stands in the ledger already.
unfoldable pub meets_own_key : Call → Books → Bool
meets_own_key (complete_payment_call invoice) b =
    is_some (find_where (has_key (payment_key invoice)) b.ledger)
meets_own_key _ b = false

credit-MoneyStep :
    (f : Bool) (i : Text) (amount : ℤ) (key kind : Text) (b : Books)
    → MoneyStep f (money b) (money (credit i amount key kind b).1)
unfolding credit credit_wallet
credit-MoneyStep f i amount key kind b = elim (Bool-cases (leb_ℤ amount (pos 0))) [
  | inl refused ↦ rw refused idle
  | inr room ↦ elim (Option-cases (find_where (has_key key) b.ledger)) [
    | inr (e, taken) ↦ rw (room, taken) idle
    | inl fresh ↦ elim (Option-cases (find_where (wallet_of i) b.wallets)) [
      | inl absent ↦ rw (room, fresh, absent) idle
      | inr (w, found) ↦ rw (room, fresh, found) (posting i kind key amount w found fresh)
    ]
  ]
]

minus_as_plus : (a b : ℤ) → a -ℤ b ≡ a +ℤ (pos 0 -ℤ b)
minus_as_plus a b = eq_of_parts _ _ (omega int_laws)

debit-MoneyStep :
    (f : Bool) (now : ℕ) (i date : Text) (b : Books)
    → MoneyStep f (money b) (money (debit_one_day now i date b).1)
unfolding debit_one_day debit_wallet
debit-MoneyStep f now i date b = elim (Option-cases (find_where (debit_on i date) b.debits)) [
  | inr (d, done) ↦ rw done idle
  | inl open_day ↦ elim (Option-cases (find_where (wallet_of i) b.wallets)) [
    | inl absent ↦ rw (open_day, absent) idle
    | inr (w, found) ↦ elim (Bool-cases (ltb_ℤ w.balance_kopecks b.price)) [
      | inl poor ↦ rw (open_day, found, poor) idle
      | inr rich ↦ elim (Option-cases (find_where (has_key (debit_key i date)) b.ledger)) [
        | inr (e, taken) ↦ rw (open_day, found, rich, taken) idle
        | inl fresh ↦
            rw (open_day, found, rich, fresh, minus_as_plus w.balance_kopecks b.price)
              (posting i (text "daily_debit") (debit_key i date) (pos 0 -ℤ b.price) w found fresh)
      ]
    ]
  ]
]

freeze-money : (now : ℕ) (i : Text) (b : Books) → money (freeze now i b).1 ≡ money b
unfolding freeze
freeze-money now i b = ground arith

unfreeze-money : (now : ℕ) (i : Text) (b : Books) → money (unfreeze now i b).1 ≡ money b
unfolding unfreeze
unfreeze-money now i b = ground arith

create_payment-money :
    (i invoice : Text) (amount : ℤ) (b : Books)
    → money (create_payment i invoice amount b) ≡ money b
unfolding create_payment
create_payment-money i invoice amount b = ground arith

pay_wallet-MoneyStep :
    (f : Bool) (p : Payment) (b : Books)
    → is_some (find_where (has_key (payment_key p.invoice_id)) b.ledger) ≡ f
    → MoneyStep f
        (money b)
        (money (pay_wallet p (find_where (wallet_of p.account_id) b.wallets) b).1)
unfolding pay_wallet
pay_wallet-MoneyStep f p b e = elim (Option-cases (find_where (wallet_of p.account_id) b.wallets)) [
  | inl absent ↦ rw absent idle
  | inr (w, found) ↦
      elim (Option-cases (find_where (has_key (payment_key p.invoice_id)) b.ledger)) [
        | inl fresh ↦
            rw (found, fresh)
              (posting p.account_id (text "topup") (payment_key p.invoice_id) p.amount_kopecks w
                found fresh)
        | inr (x, taken) ↦
            let hit : true ≡ f = rw taken at e in
            rw (found, taken) (unlisted p.account_id p.amount_kopecks w found (sym hit))
      ]
]

pay-MoneyStep :
    (f : Bool) (invoice : Text) (b : Books)
    → is_some (find_where (has_key (payment_key invoice)) b.ledger) ≡ f
    → MoneyStep f (money b) (money (complete_payment invoice b).1)
unfolding complete_payment pay_selected
pay-MoneyStep f invoice b e = elim (Option-cases (find_where (has_invoice invoice) b.payments)) [
  | inl absent ↦ rw absent idle
  | inr (p, found) ↦
      let own : p.invoice_id ≡ invoice =
        (eq_text_iff _ _).0 (find-holds (has_invoice invoice) b.payments {r = p} found) in
      elim (Bool-cases (eq_text p.status paid)) [
        | inl done ↦ rw (found, done) idle
        | inr open_payment ↦ elim (Bool-cases (eq_text p.status waiting)) [
          | inr other ↦ rw (found, open_payment, other) idle
          | inl payable ↦ rw (found, open_payment, payable) (pay_wallet-MoneyStep f p b (rw own e))
        ]
      ]
]

-- Money moves in steps: every call leaves the wallets and the ledger alone, or posts one amount to
-- one wallet with an entry that has a fresh key and the new balance; only a `complete_payment` whose
-- key stands in the ledger already changes a wallet without an entry.
pub after-MoneyStep :
    (c : Call) (b : Books) → MoneyStep (meets_own_key c b) (money b) (money (after c b))
unfolding after meets_own_key refund_debit
after-MoneyStep (freeze_call now i) b = rw (freeze-money now i b) idle
after-MoneyStep (unfreeze_call now i) b = rw (unfreeze-money now i b) idle
after-MoneyStep (credit_call i amount key kind) b = credit-MoneyStep false i amount key kind b
after-MoneyStep (debit_call now i date) b = debit-MoneyStep false now i date b
after-MoneyStep (refund_call i date) b = credit-MoneyStep false i _ _ _ b
after-MoneyStep (create_payment_call i invoice amount) b =
    rw (create_payment-money i invoice amount b) idle
after-MoneyStep (complete_payment_call invoice) b = pay-MoneyStep _ invoice b refl
