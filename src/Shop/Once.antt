-- ===== src/Shop/Once.antt =====
-- The panel's calls for one invoice of bot/bot.py, along runs of saves, polls and webhooks.
use mosaicvpn.Prelude.{
  ℕ, ◌+◌, ◌≤◌, ◌≡◌, ◌∙◌, refl, sym, subst, true, false, not, ◌&&◌, ◌||◌, Option, none, some, List,
  [], ◌∷◌, arith, inl, inr, Bool-cases, if◌then◌else◌,
}
use mosaicvpn.Prelude.Int.{ℤ, pos, eq_ℤ, eq_ℤ_refl}
use mosaicvpn.Prelude.Text.{Text, text, eq_text, eq_text_iff}
use mosaicvpn.Prelude.Counts.{count-join}
use mosaicvpn.Prelude.Table.{count_where}
use mosaicvpn.Prelude.Result.{Result, ok, raise}
use mosaicvpn.Cabinet.Tables.{User}
use mosaicvpn.Cabinet.Bind.{get_user}
use mosaicvpn.Shop.Types.{Store, Panel, Payee, payer, referrer, Write}
use mosaicvpn.Shop.Invoices.{
  new_invoice, new_lava_invoice, pending, save_invoice, save_lava_invoice, LavaInvoice,
  update_invoice_status,
}
use mosaicvpn.Shop.Accrual.{
  username_or_tg, tg_name, payment_write, panel_update, referrer_of, lava_answered, lava_accrued,
  process_lava_paid_invoice, poll_answered, bonus_answered, bonus_accrued, poll_bonus, poll_paid,
  poll_invoice,
}
use mosaicvpn.Shop.Steps.{Event, saves, saves_lava, polls, told_paid, step, run}
use mosaicvpn.Shop.Open.{eq_payee, is_for, is_pending, open_count, insert-open, claim-open}

lava_answered-invoices :
    (now : ℕ) (i : ℤ) (username : Text) (u : Option User) (answer : Result (Option Text))
    (s : Store)
    → (lava_answered now i username u answer s).1.invoices ≡ s.invoices
unfolding lava_answered
lava_answered-invoices now i username u (raise e) s = refl
lava_answered-invoices now i username u (ok none) s = refl
lava_answered-invoices now i username u (ok (some short)) s = refl

poll_answered-invoices :
    (now : ℕ) (i : ℤ) (username : Text) (u : Option User) (answer : Result (Option Text))
    (s : Store)
    → (poll_answered now i username u answer s).1.invoices ≡ s.invoices
unfolding poll_answered
poll_answered-invoices now i username u (raise e) s = refl
poll_answered-invoices now i username u (ok none) s = refl
poll_answered-invoices now i username u (ok (some short)) s = refl

bonus_answered-invoices :
    (i days : ℤ) (answer : Result (Option Text)) (s : Store)
    → (bonus_answered i days answer s).1.invoices ≡ s.invoices
unfolding bonus_answered
bonus_answered-invoices i days (raise e) s = refl
bonus_answered-invoices i days (ok none) s = refl
bonus_answered-invoices i days (ok (some short)) s = refl

-- One accrual at most: the invoices are as they were, and the panel is called once at most for each
-- payee, for this invoice.
abbrev Accrues {ℓ} : {A : Type ℓ} → ℤ → (A × Store) × List Write → Store → Type 0
Accrues id' out s =
    (out.0.1.invoices ≡ s.invoices)
    × ((k : Payee) (id : ℤ) → count_where (is_for k id) out.1 ≤ (if eq_ℤ id' id then 1 else 0))

lava-Accrues :
    (now : ℕ) (p : Panel) (v : LavaInvoice) (u : Option User) (s : Store)
    → Accrues v.invoice_id (lava_accrued now p v u s) s
unfolding lava_accrued
lava-Accrues now p v u s = (lava_answered-invoices now v.telegram_id _ u _ s, λ k id. ground arith)

-- The referrer's part: the same, and no call for the payer.
abbrev Rewards : ℤ → (Result (Unit {0}) × Store) × List Write → Store → Type 0
Rewards id' out s =
    (out.0.1.invoices ≡ s.invoices)
    × ((k : Payee) (id : ℤ)
        → count_where (is_for k id) out.1 ≤ (if eq_payee k referrer && eq_ℤ id' id then 1 else 0))

bonus-Rewards :
    (p : Panel) (id' days : ℤ) (who : Option ℤ) (s : Store)
    → Rewards id' (bonus_accrued p id' days who s) s
unfolding bonus_accrued
bonus-Rewards p id' days none s = (refl, λ k id. omega arith)
bonus-Rewards p id' days (some i) s =
    elim (Bool-cases (eq_ℤ i (pos 0) || not (p.has_user (tg_name i)))) [
      | inl no_one ↦ rw no_one (refl, λ k id. omega arith)
      | inr known ↦ rw known (bonus_answered-invoices i days _ s, λ k id. ground arith)
    ]

poll_bonus-Rewards :
    (p : Panel) (id' i days : ℤ) (out : Result (Unit {0}) × Store)
    → Rewards id' (poll_bonus p id' i days out) out.1
unfolding poll_bonus
poll_bonus-Rewards p id' i days (raise e, s) = (refl, λ k id. omega arith)
poll_bonus-Rewards p id' i days (ok done, s) =
    bonus-Rewards p id' days (referrer_of (get_user i s.tables)) s

one_each :
    (k : Payee) (id' id : ℤ) (w : Write) (ws : List Write)
    → w.payee ≡ payer
    → w.invoice_id ≡ id'
    → count_where (is_for k id) ws ≤ (if eq_payee k referrer && eq_ℤ id' id then 1 else 0)
    → count_where (is_for k id) (w ∷ ws) ≤ (if eq_ℤ id' id then 1 else 0)
one_each payer id' id w ws e own h = ground arith
one_each referrer id' id w ws e own h = ground arith

poll-Accrues :
    (now : ℕ) (p : Panel) (id' i days : ℤ) (s : Store)
    → Accrues id' (poll_paid now p id' i days s) s
unfolding poll_paid
poll-Accrues now p id' i days s =
    let answer = panel_update p (tg_name i) days i in
    let u = get_user i s.tables in
    let bonus = poll_bonus-Rewards p id' i days (poll_answered now i (tg_name i) u answer s) in
    (
      bonus.0 ∙ poll_answered-invoices now i (tg_name i) u answer s,
      λ k id.
          one_each k id' id (payment_write id' (tg_name i) days answer) _ refl refl (bonus.1 k id),
    )

-- What an event calls the panel for, and leaves open.
abbrev after_step : Payee → ℤ → Store × List Write → ℕ
after_step k id out = count_where (is_for k id) out.1 + open_count id out.0.invoices

status-le :
    (id id' : ℤ) (status : Text) (s : Store)
    → eq_text status pending ≡ false
    → 0 + open_count id (update_invoice_status id' status (some pending) s).1.invoices
      ≤ open_count id s.invoices
unfolding update_invoice_status
status-le id id' status s final =
    let room = claim-open id id' status s.invoices final in ground (arith, room)

accrual-le :
    {A : Type 0} (k : Payee) (id id' : ℤ) (s : Store) (out : (A × Store) × List Write)
    → (update_invoice_status id' (text "paid") (some pending) s).0 ≡ true
    → Accrues id' out (update_invoice_status id' (text "paid") (some pending) s).1
    → after_step k id (out.0.1, out.1) ≤ open_count id s.invoices
unfolding update_invoice_status
accrual-le k id id' s out claimed (same, few) =
    let room = claim-open id id' (text "paid") s.invoices refl in
    let some_calls = few k id in rw same (ground (arith, room, some_calls, claimed))

lava-le :
    (k : Payee) (id : ℤ) (now : ℕ) (p : Panel) (v : Option LavaInvoice) (s : Store)
    → let out = process_lava_paid_invoice now p v s in
      after_step k id (out.0.1, out.1) ≤ open_count id s.invoices
unfolding process_lava_paid_invoice
lava-le k id now p none s = omega arith
lava-le k id now p (some v) s =
    let s' = (update_invoice_status v.invoice_id (text "paid") (some pending) s).1 in
    elim (Bool-cases (update_invoice_status v.invoice_id (text "paid") (some pending) s).0) [
      | inl claimed ↦ rw claimed (
          accrual-le k id v.invoice_id s
            (lava_accrued now p v (get_user v.telegram_id s'.tables) s') claimed
            (lava-Accrues now p v (get_user v.telegram_id s'.tables) s'))
      | inr lost ↦ rw lost (status-le id v.invoice_id (text "paid") s refl)
    ]

over-final :
    (status : Text)
    → (eq_text status (text "expired") || eq_text status (text "cancelled")) ≡ true
    → eq_text status pending ≡ false
over-final status h = elim (Bool-cases (eq_text status (text "expired"))) [
  | inl expired ↦ rw ((eq_text_iff status (text "expired")).0 expired) refl
  | inr not_expired ↦
      let cancelled : eq_text status (text "cancelled") ≡ true = ground (arith, h, not_expired) in
      rw ((eq_text_iff status (text "cancelled")).0 cancelled) refl
]

poll-le :
    (k : Payee) (id : ℤ) (now : ℕ) (p : Panel) (status : Option Text) (id' i days : ℤ) (s : Store)
    → let out = poll_invoice now p status id' i days s in
      after_step k id (out.0.1, out.1) ≤ open_count id s.invoices
unfolding poll_invoice
poll-le k id now p none id' i days s = omega arith
poll-le k id now p (some status) id' i days s =
    let s' = (update_invoice_status id' (text "paid") (some pending) s).1 in
    elim (Bool-cases (eq_text status (text "paid"))) [
      | inl paid ↦ elim (Bool-cases (update_invoice_status id' (text "paid") (some pending) s).0) [
        | inl claimed ↦
            rw (paid, claimed)
              (accrual-le k id id' s (poll_paid now p id' i days s') claimed
                (poll-Accrues now p id' i days s'))
        | inr lost ↦ rw (paid, lost) (status-le id id' (text "paid") s refl)
      ]
      | inr other ↦
          elim (Bool-cases (eq_text status (text "expired") || eq_text status (text "cancelled"))) [
            | inl over ↦ rw (other, over) (status-le id id' status s (over-final status over))
            | inr unknown ↦ rw (other, unknown) (omega arith)
          ]
    ]

step-le :
    (k : Payee) (id : ℤ) (e : Event) (s : Store)
    → after_step k id (step e s) ≤ open_count id s.invoices
unfolding step save_invoice save_lava_invoice
step-le k id (saves now id' i days terms) s =
    let room = insert-open id (new_invoice now id' i days terms) s in omega (arith, room)
step-le k id (saves_lava now id' provider_id order i days store terms) s =
    let room = insert-open id (new_lava_invoice now id' provider_id order i days store terms) s in
    omega (arith, room)
step-le k id (polls now p status id' i days) s = poll-le k id now p status id' i days s
step-le k id (told_paid now p v) s = lava-le k id now p v s

run-le :
    (k : Payee) (id : ℤ) (es : List Event) (s : Store)
    → after_step k id (run es s) ≤ open_count id s.invoices
unfolding run
run-le k id [] s = omega arith
run-le k id (e ∷ es) s =
    let now = step-le k id e s in
    let later = run-le k id es (step e s).0 in
    let both = count-join (is_for k id) (step e s).1 (run es (step e s).0).1 in
    omega (arith, now, later, both)

-- An invoice accrues once: if it stands in one pending row at most, then in every run of saves, polls
-- and webhooks, with whatever the provider and the panel answer, the panel is called once at most to
-- add its days for the payer, and once at most for the referrer.
pub accrued_once :
    (k : Payee) (id : ℤ) (es : List Event) (s : Store)
    → count_where (is_pending id) s.invoices ≤ 1
    → count_where (is_for k id) (run es s).1 ≤ 1
accrued_once k id es s h = let bound = run-le k id es s in ground (arith, bound)

-- A failed accrual is final: if a webhook claims an invoice that stands in one pending row, and the
-- panel then answers nothing, the reply is that it was not processed, the tables of the accounts are as
-- they were, and no run of saves, polls and webhooks calls the panel for the invoice's payer again.
pub failed_accrual_is_final :
    (now : ℕ) (p : Panel) (v : LavaInvoice) (es : List Event) (s : Store)
    → count_where (is_pending v.invoice_id) s.invoices ≡ 1
    → panel_update p
        (username_or_tg v.telegram_id (get_user v.telegram_id s.tables))
        v.days
        v.telegram_id
      ≡ ok none
    → let out = process_lava_paid_invoice now p (some v) s in
      (out.0.0 ≡ ok false)
      × (out.0.1.tables ≡ s.tables)
      × (count_where (is_for payer v.invoice_id) (run es out.0.1).1 ≡ 0)
unfolding process_lava_paid_invoice update_invoice_status
failed_accrual_is_final now p v es s one refused =
    let s' = (update_invoice_status v.invoice_id (text "paid") (some pending) s).1 in
    let username = username_or_tg v.telegram_id (get_user v.telegram_id s.tables) in
    let w = payment_write v.invoice_id username v.days (ok none) in
    let out : process_lava_paid_invoice now p (some v) s ≡ ((ok false, s'), w ∷ []) =
      unfold lava_accrued lava_answered in rw (one, refused) refl in
    let used_up =
      subst (λ o. after_step payer v.invoice_id (o.0.1, o.1) ≤ open_count v.invoice_id s.invoices)
        out (lava-le payer v.invoice_id now p (some v) s) in
    let later = run-le payer v.invoice_id es s' in
    let own = eq_ℤ_refl v.invoice_id in
    subst
      (λ o.
        (o.0.0 ≡ ok false)
        × (o.0.1.tables ≡ s.tables)
        × (count_where (is_for payer v.invoice_id) (run es o.0.1).1 ≡ 0))
      (sym out) (refl, refl, ground (arith, used_up, later, one, own))
