-- ===== src/Billing/Paid.antt =====
-- Repeated calls of `complete_payment` of bot/mosaic_billing.py.
use mathlib.Core.Option
use mosaicvpn.Prelude.{
  ◌≡◌, ◌≢◌, ◌∙◌, ◌⊎◌, refl, true, Option, none, some, List, [], ◌∷◌, arith, inl, inr, is_some,
  Bool-cases, Option-cases, if◌then◌else◌,
}
use mosaicvpn.Prelude.Int.{ℤ, ◌+ℤ◌}
use mosaicvpn.Prelude.Text.{Text, eq_text, eq_text_iff}
use mosaicvpn.Prelude.Table.{find_where, update_where, find-update, find-holds, find-append}
use mosaicvpn.Prelude.Result.{ok}
use mosaicvpn.Billing.Types.{Payment, Books, credited, already_paid, wallet_of, has_invoice}
use mosaicvpn.Billing.Wallet.{refund_debit}
use mosaicvpn.Billing.Payments.{
  create_payment, new_payment, to_paid, paid, waiting, pay_wallet, pay_selected, complete_payment,
  Call, freeze_call, unfreeze_call, credit_call, debit_call, refund_call, create_payment_call,
  complete_payment_call, after, run,
}
use mosaicvpn.Billing.Once.{credit-keeps, freeze-keeps, unfreeze-keeps, debit-cases}

-- The payment of an invoice is there and paid.
abbrev pub PaidTo : Text → Option Payment → Type 0
PaidTo i none = ⊥
PaidTo i (some p) = (p.status ≡ paid) × (p.account_id ≡ i)

create_payment-PaidTo :
    (j inv : Text) (amount : ℤ) (i invoice : Text) (b : Books)
    → PaidTo i (find_where (has_invoice invoice) b.payments)
    → PaidTo i (find_where (has_invoice invoice) (create_payment j inv amount b).payments)
unfolding create_payment
create_payment-PaidTo j inv amount i invoice b h =
    elim (Bool-cases (is_some (find_where (has_invoice inv) b.payments))) [
      | inl there ↦ rw there h
      | inr absent ↦ elim (Option-cases (find_where (has_invoice invoice) b.payments)) [
        | inl none_found ↦ absurd (rw none_found at h)
        | inr (p, found) ↦
            rw
              (
                absent,
                find-append (has_invoice invoice) b.payments (new_payment j inv amount) found,
              )
              (rw found at h)
      ]
    ]

to_paid-PaidTo :
    (inv i invoice : Text) (t : List Payment)
    → PaidTo i (find_where (has_invoice invoice) t)
    → PaidTo i (find_where (has_invoice invoice) (update_where (has_invoice inv) to_paid t))
to_paid-PaidTo inv i invoice t h =
    rw (find-update (has_invoice invoice) (has_invoice inv) to_paid (λ x. refl) t)
      (by_row (find_where (has_invoice invoice) t) h)
  where
    by_row :
        (o : Option Payment)
        → PaidTo i o
        → PaidTo i (Option.map (λ p. if has_invoice inv p then to_paid p else p) o)
    by_row none h = h
    by_row (some p) h = elim (Bool-cases (has_invoice inv p)) [
      | inl hit ↦ rw hit (refl, h.1)
      | inr miss ↦ rw miss h
    ]

-- A completed payment: nothing changed among the payments, or the invoice's row is marked as paid.
pay-cases :
    (inv : Text) (b : Books)
    → let (reply, b') = complete_payment inv b in
      ((b'.payments ≡ b.payments) × ((j : Text) (n : ℤ) → reply ≢ ok (credited j n)))
      ⊎ ((p : Payment) × (n : ℤ) × (find_where (has_invoice inv) b.payments ≡ some p)
          × (reply ≡ ok (credited p.account_id n))
          × (b'.payments ≡ update_where (has_invoice inv) to_paid b.payments))
unfolding complete_payment pay_selected pay_wallet
pay-cases inv b = elim (Option-cases (find_where (has_invoice inv) b.payments)) [
  | inl absent ↦ rw absent (inl (refl, λ j n e. ground arith))
  | inr (p, found) ↦
      let own : p.invoice_id ≡ inv =
        (eq_text_iff _ _).0 (find-holds (has_invoice inv) b.payments {r = p} found) in
      elim (Bool-cases (eq_text p.status paid)) [
        | inl done ↦ rw (found, done) (inl (refl, λ j n e. ground arith))
        | inr unpaid ↦ elim (Bool-cases (eq_text p.status waiting)) [
          | inr other ↦ rw (found, unpaid, other) (inl (refl, λ j n e. ground arith))
          | inl payable ↦ elim (Option-cases (find_where (wallet_of p.account_id) b.wallets)) [
            | inl absent ↦ rw (found, unpaid, payable, absent) (inl (refl, λ j n e. ground arith))
            | inr (w, here) ↦
                rw (found, unpaid, payable, here)
                  (inr (p, w.balance_kopecks +ℤ p.amount_kopecks, refl, refl, rw own refl))
          ]
        ]
      ]
]

pay-PaidTo :
    (inv i invoice : Text) (b : Books)
    → PaidTo i (find_where (has_invoice invoice) b.payments)
    → PaidTo i (find_where (has_invoice invoice) (complete_payment inv b).1.payments)
pay-PaidTo inv i invoice b h = elim (pay-cases inv b) [
  | inl (same, _) ↦ rw same h
  | inr (p, n, _, _, marked) ↦ rw marked (to_paid-PaidTo inv i invoice b.payments h)
]

after-PaidTo :
    (c : Call) (i invoice : Text) (b : Books)
    → PaidTo i (find_where (has_invoice invoice) b.payments)
    → PaidTo i (find_where (has_invoice invoice) (after c b).payments)
unfolding after refund_debit
after-PaidTo (freeze_call now j) i invoice b h = rw (freeze-keeps now j b).1 h
after-PaidTo (unfreeze_call now j) i invoice b h = rw (unfreeze-keeps now j b).1 h
after-PaidTo (credit_call j amount key kind) i invoice b h =
    rw (credit-keeps j amount key kind b).1 h
after-PaidTo (debit_call now j day) i invoice b h = rw (debit-cases now j day b).0 h
after-PaidTo (refund_call j day) i invoice b h = rw (credit-keeps j _ _ _ b).1 h
after-PaidTo (create_payment_call j inv amount) i invoice b h =
    create_payment-PaidTo j inv amount i invoice b h
after-PaidTo (complete_payment_call inv) i invoice b h = pay-PaidTo inv i invoice b h

run-PaidTo :
    (cs : List Call) (i invoice : Text) (b : Books)
    → PaidTo i (find_where (has_invoice invoice) b.payments)
    → PaidTo i (find_where (has_invoice invoice) (run cs b).payments)
unfolding run
run-PaidTo [] i invoice b h = h
run-PaidTo (c ∷ cs) i invoice b h =
    run-PaidTo cs i invoice (after c b) (after-PaidTo c i invoice b h)

-- A credited payment leaves its row paid.
credited-PaidTo :
    (invoice i : Text) (n : ℤ) (b : Books)
    → (complete_payment invoice b).0 ≡ ok (credited i n)
    → PaidTo i (find_where (has_invoice invoice) (complete_payment invoice b).1.payments)
credited-PaidTo invoice i n b h = elim (pay-cases invoice b) [
  | inl (_, never) ↦ absurd (never i n h)
  | inr (p, m, found, reply, marked) ↦
      let same : p.account_id ≡ i = ground arith in
      let own = find-holds (has_invoice invoice) b.payments {r = p} found in
      let row : find_where (has_invoice invoice)
            (update_where (has_invoice invoice) to_paid b.payments)
          ≡ some (to_paid p) =
        find-update (has_invoice invoice) (has_invoice invoice) to_paid (λ x. refl) b.payments
        ∙ rw (found, own) refl in
      rw (marked, row) (refl, same)
]

-- An invoice is credited once: after a `complete_payment` that answered that it credited an account,
-- and any run of calls, a `complete_payment` of the invoice answers that it is paid already, with that
-- account, and changes nothing.
pub payment_once :
    (invoice i : Text) (n : ℤ) (cs : List Call) (b : Books)
    → (complete_payment invoice b).0 ≡ ok (credited i n)
    → let b' = run cs (complete_payment invoice b).1 in
      complete_payment invoice b' ≡ (ok (already_paid i), b')
unfolding complete_payment pay_selected
payment_once invoice i n cs b h =
    let b1 = (complete_payment invoice b).1 in
    let later = run-PaidTo cs i invoice b1 (credited-PaidTo invoice i n b h) in
    elim (Option-cases (find_where (has_invoice invoice) (run cs b1).payments)) [
      | inl absent ↦ absurd (rw absent at later)
      | inr (p, found) ↦
          let state : PaidTo i (some p) = rw found at later in
          let hit : eq_text p.status paid ≡ true = (eq_text_iff p.status paid).1 state.0 in
          rw found (rw (hit, state.1) refl)
    ]
