-- ===== src/Billing/Once.antt =====
-- Repeated calls of `credit` and `debit_one_day` of bot/mosaic_billing.py.
use mosaicvpn.Prelude.{
  ℕ, ◌≡◌, ◌≢◌, ◌⊎◌, refl, Bool, true, false, List, [], ◌∷◌, ◌++◌, arith, inl, inr, is_some,
  Bool-cases, Option-cases,
}
use mosaicvpn.Prelude.Int.{ℤ, pos, leb_ℤ, ltb_ℤ}
use mosaicvpn.Prelude.Text.{Text, eq_text_refl}
use mosaicvpn.Prelude.Table.{append-some, append-own, find_where}
use mosaicvpn.Prelude.Result.{ok, is_ok}
use mosaicvpn.Billing.Types.{Entry, Books, debited, already_done, wallet_of, has_key, has_invoice}
use mosaicvpn.Billing.Wallet.{
  freeze, unfreeze, summary, credit_wallet, credit, debit_key, debit_on, debit_wallet,
  debit_one_day, refund_debit,
}
use mosaicvpn.Billing.Payments.{
  create_payment, pay_wallet, pay_selected, complete_payment, Call, freeze_call, unfreeze_call,
  credit_call, debit_call, refund_call, create_payment_call, complete_payment_call, after, run,
}
use mosaicvpn.Billing.Steps.{Money, MoneyStep, idle, posting, unlisted, after-MoneyStep}

-- A key that stands in the ledger.
abbrev pub HasKey : Text → List Entry → Type 0
HasKey key l = is_some (find_where (has_key key) l) ≡ true

MoneyStep-HasKey :
    {f : Bool} {m m' : Money} (key : Text) → MoneyStep f m m' → HasKey key m.1 → HasKey key m'.1
MoneyStep-HasKey key idle h = h
MoneyStep-HasKey {m = m} key (posting i kind k amount w found fresh) h =
    append-some (has_key key) m.1 _ h
MoneyStep-HasKey key (unlisted i amount w found met) h = h

run-HasKey :
    (key : Text) (cs : List Call) (b : Books) → HasKey key b.ledger → HasKey key (run cs b).ledger
unfolding run
run-HasKey key [] b h = h
run-HasKey key (c ∷ cs) b h =
    run-HasKey key cs (after c b) (MoneyStep-HasKey key (after-MoneyStep c b) h)

credit-HasKey :
    (i : Text) (amount : ℤ) (key kind : Text) (b : Books)
    → is_ok (credit i amount key kind b).0 ≡ true
    → HasKey key (credit i amount key kind b).1.ledger
unfolding credit credit_wallet
credit-HasKey i amount key kind b = elim (Bool-cases (leb_ℤ amount (pos 0))) [
  | inl refused ↦ rw refused (λ h. absurd (ground arith))
  | inr room ↦ elim (Bool-cases (is_some (find_where (has_key key) b.ledger))) [
    | inl taken ↦ rw (room, taken) (λ h. taken)
    | inr fresh ↦ elim (Option-cases (find_where (wallet_of i) b.wallets)) [
      | inl absent ↦ rw (room, fresh, absent) (λ h. absurd (ground arith))
      | inr (w, found) ↦
          rw (room, fresh, found) (λ h. append-own (has_key key) b.ledger _ (eq_text_refl key))
    ]
  ]
]

-- A credit happens once: after a `credit` that raised nothing, and any run of calls, a `credit` of a
-- positive amount under the same idempotency key, whatever its account and amount, raises nothing and
-- changes nothing.
pub credit_once :
    (i i' key kind kind' : Text) (amount amount' : ℤ) (cs : List Call) (b : Books)
    → is_ok (credit i amount key kind b).0 ≡ true
    → leb_ℤ amount' (pos 0) ≡ false
    → let b' = run cs (credit i amount key kind b).1 in
      credit i' amount' key kind' b' ≡ (ok (summary i' b'), b')
credit_once i i' key kind kind' amount amount' cs b done positive =
    let b' = run cs (credit i amount key kind b).1 in
    let here =
      run-HasKey key cs (credit i amount key kind b).1 (credit-HasKey i amount key kind b done) in
    unfold credit in rw (positive, here) refl

abbrev pub HasDebit : Text → Text → Books → Type 0
HasDebit i date b = is_some (find_where (debit_on i date) b.debits) ≡ true

-- A `credit` leaves the days and the payments alone.
pub credit-keeps :
    (i : Text) (amount : ℤ) (key kind : Text) (b : Books)
    → let b' = (credit i amount key kind b).1 in (b'.debits ≡ b.debits) × (b'.payments ≡ b.payments)
unfolding credit credit_wallet
credit-keeps i amount key kind b = elim (Option-cases (find_where (wallet_of i) b.wallets)) [
  | inl absent ↦ (ground (arith, absent), ground (arith, absent))
  | inr (w, found) ↦ (ground (arith, found), ground (arith, found))
]

pub freeze-keeps :
    (now : ℕ) (i : Text) (b : Books)
    → let b' = (freeze now i b).1 in (b'.debits ≡ b.debits) × (b'.payments ≡ b.payments)
unfolding freeze
freeze-keeps now i b = (ground arith, ground arith)

pub unfreeze-keeps :
    (now : ℕ) (i : Text) (b : Books)
    → let b' = (unfreeze now i b).1 in (b'.debits ≡ b.debits) × (b'.payments ≡ b.payments)
unfolding unfreeze
unfreeze-keeps now i b = (ground arith, ground arith)

pay-debits : (invoice : Text) (b : Books) → (complete_payment invoice b).1.debits ≡ b.debits
unfolding complete_payment pay_selected pay_wallet
pay-debits invoice b = elim (Option-cases (find_where (has_invoice invoice) b.payments)) [
  | inl absent ↦ rw absent refl
  | inr (p, found) ↦ elim (Option-cases (find_where (wallet_of p.account_id) b.wallets)) [
    | inl absent ↦ ground (arith, absent, found)
    | inr (w, here) ↦ ground (arith, here, found)
  ]
]

create_payment-debits :
    (i invoice : Text) (amount : ℤ) (b : Books)
    → (create_payment i invoice amount b).debits ≡ b.debits
unfolding create_payment
create_payment-debits i invoice amount b = ground arith

-- A debit leaves the days, or adds its own.
pub debit-cases :
    (now : ℕ) (i date : Text) (b : Books)
    → let (reply, b') = debit_one_day now i date b in
      (b'.payments ≡ b.payments)
      × (((b'.debits ≡ b.debits) × ((n price : ℤ) → reply ≢ ok (debited n price)))
          ⊎ (b'.debits
              ≡ b.debits
                ++ record { account_id = i; debit_date = date; amount_kopecks = b.price } ∷ []))
unfolding debit_one_day debit_wallet
debit-cases now i date b = elim (Bool-cases (is_some (find_where (debit_on i date) b.debits))) [
  | inl done ↦ rw done (refl, inl (refl, λ n price e. ground arith))
  | inr open_day ↦ elim (Option-cases (find_where (wallet_of i) b.wallets)) [
    | inl absent ↦ rw (open_day, absent) (refl, inl (refl, λ n price e. ground arith))
    | inr (w, found) ↦ elim (Bool-cases (ltb_ℤ w.balance_kopecks b.price)) [
      | inl poor ↦ rw (open_day, found, poor) (refl, inl (refl, λ n price e. ground arith))
      | inr rich ↦ elim (Bool-cases (is_some (find_where (has_key (debit_key i date)) b.ledger))) [
        | inl taken ↦
            rw (open_day, found, rich, taken) (refl, inl (refl, λ n price e. ground arith))
        | inr fresh ↦ rw (open_day, found, rich, fresh) (refl, inr refl)
      ]
    ]
  ]
]

debit-HasDebit :
    (now : ℕ) (j day i date : Text) (b : Books)
    → HasDebit i date b
    → HasDebit i date (debit_one_day now j day b).1
debit-HasDebit now j day i date b h = elim ((debit-cases now j day b).1) [
  | inl (same, _) ↦ rw same h
  | inr more ↦ rw more (append-some (debit_on i date) b.debits _ h)
]

after-HasDebit :
    (c : Call) (i date : Text) (b : Books) → HasDebit i date b → HasDebit i date (after c b)
unfolding after refund_debit
after-HasDebit (freeze_call now j) i date b h = rw (freeze-keeps now j b).0 h
after-HasDebit (unfreeze_call now j) i date b h = rw (unfreeze-keeps now j b).0 h
after-HasDebit (credit_call j amount key kind) i date b h =
    rw (credit-keeps j amount key kind b).0 h
after-HasDebit (debit_call now j day) i date b h = debit-HasDebit now j day i date b h
after-HasDebit (refund_call j day) i date b h = rw (credit-keeps j _ _ _ b).0 h
after-HasDebit (create_payment_call j invoice amount) i date b h =
    rw (create_payment-debits j invoice amount b) h
after-HasDebit (complete_payment_call invoice) i date b h = rw (pay-debits invoice b) h

run-HasDebit :
    (cs : List Call) (i date : Text) (b : Books) → HasDebit i date b → HasDebit i date (run cs b)
unfolding run
run-HasDebit [] i date b h = h
run-HasDebit (c ∷ cs) i date b h = run-HasDebit cs i date (after c b) (after-HasDebit c i date b h)

-- A day is debited once: after a `debit_one_day` that answered that it debited an account for a date,
-- and any run of calls, refunds included, a `debit_one_day` of the account for that date answers that
-- it is done already and changes nothing.
pub debit_once :
    (now now' : ℕ) (i date : Text) (n price : ℤ) (cs : List Call) (b : Books)
    → (debit_one_day now i date b).0 ≡ ok (debited n price)
    → let b' = run cs (debit_one_day now i date b).1 in
      debit_one_day now' i date b' ≡ (ok already_done, b')
debit_once now now' i date n price cs b h =
    let b1 = (debit_one_day now i date b).1 in
    let own : debit_on i date
          (record { account_id = i; debit_date = date; amount_kopecks = b.price })
        ≡ true =
      rw (eq_text_refl i, eq_text_refl date) refl in
    let written : HasDebit i date b1 = elim ((debit-cases now i date b).1) [
      | inl (_, never) ↦ absurd (never n price h)
      | inr more ↦ rw more (append-own (debit_on i date) b.debits _ own)
    ] in
    let later = run-HasDebit cs i date b1 written in unfold debit_one_day in rw later refl
