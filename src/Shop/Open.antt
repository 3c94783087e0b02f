-- ===== src/Shop/Open.antt =====
-- How often an invoice of bot/bot.py may still accrue, under saves and changes of its status.
use mosaicvpn.Prelude.{
  ℕ, ◌+◌, ◌≤◌, ◌≡◌, ◌==◌, refl, sym, subst, Bool, true, false, ◌&&◌, none, some, List, arith, inl,
  inr, Bool-cases, Option-cases, if◌then◌else◌, is_some,
}
use mosaicvpn.Prelude.Int.{ℤ, eq_ℤ, eq_ℤ_iff}
use mosaicvpn.Prelude.Text.{Text, eq_text}
use mosaicvpn.Prelude.Counts.{count-update_own}
use mosaicvpn.Prelude.Table.{
  find_where, update_where, count_where, find-update, find-append, find-append_new, count_of_none,
  find-none, count-append, count-update-le,
}
use mosaicvpn.Shop.Types.{Invoice, Store, Payee, payer, referrer, Write, has_invoice}
use mosaicvpn.Shop.Invoices.{pending, is_expected, with_status, insert_invoice}

abbrev pub eq_payee : Payee → Payee → Bool
eq_payee payer payer = true
eq_payee referrer referrer = true
eq_payee _ _ = false

-- Panel calls for an invoice, in favour of the payer or of the referrer.
abbrev pub is_for : Payee → ℤ → Write → Bool
is_for k id w = eq_payee k w.payee && eq_ℤ w.invoice_id id

abbrev pub is_pending : ℤ → Invoice → Bool
is_pending id = is_expected id (some pending)

-- How often an invoice may still accrue: as often as it is pending, and once if it is still to come.
abbrev pub open_count : ℤ → List Invoice → ℕ
open_count id rs =
    if is_some (find_where (has_invoice id) rs) then count_where (is_pending id) rs else 1

absent-open :
    (id : ℤ) (rs : List Invoice)
    → find_where (has_invoice id) rs ≡ none
    → count_where (is_pending id) rs ≡ 0
absent-open id rs e =
    count_of_none (is_pending id) rs
      (find-none (is_pending id) (has_invoice id) (λ r h. ground arith) rs e)

pub insert-open :
    (id : ℤ) (r : Invoice) (s : Store)
    → open_count id (insert_invoice r s).1.invoices ≤ open_count id s.invoices
unfolding insert_invoice
insert-open id r s = elim (Option-cases (find_where (has_invoice r.invoice_id) s.invoices)) [
  | inr (x, found) ↦ rw found (omega arith)
  | inl fresh ↦ rw fresh (elim (Option-cases (find_where (has_invoice id) s.invoices)) [
    | inr (y, known) ↦
        let still = find-append (has_invoice id) s.invoices r known in
        let more = count-append (is_pending id) s.invoices r in
        elim (Bool-cases (eq_ℤ r.invoice_id id)) [
          | inl same ↦
              let own : r.invoice_id ≡ id = (eq_ℤ_iff r.invoice_id id).0 same in
              let gone : find_where (has_invoice id) s.invoices ≡ none =
                subst (λ i. find_where (has_invoice i) s.invoices ≡ none) own fresh in
              absurd (ground (arith, gone, known))
          | inr other ↦ ground (arith, still, more, known, other)
        ]
    | inl absent ↦
        let added = find-append_new (has_invoice id) s.invoices r absent in
        let more = count-append (is_pending id) s.invoices r in
        let before = absent-open id s.invoices absent in ground (arith, added, more, before, absent)
  ])
]

-- What a claim answers and what it leaves open.
abbrev pub after_claim : ℤ → ℤ → Text → List Invoice → ℕ
after_claim id id' status rs =
    (if count_where (is_pending id') rs == 1 && eq_ℤ id' id then 1 else 0)
    + open_count id (update_where (is_pending id') (with_status status) rs)

claim-present :
    (id id' : ℤ) (status : Text) (rs : List Invoice)
    → is_some (find_where (has_invoice id) (update_where (is_pending id') (with_status status) rs))
      ≡ is_some (find_where (has_invoice id) rs)
claim-present id id' status rs =
    let kept = find-update (has_invoice id) (is_pending id') (with_status status) (λ r. refl) rs in
    rw kept (elim (Option-cases (find_where (has_invoice id) rs)) [
      | inl absent ↦ rw absent refl
      | inr (r, found) ↦ rw found refl
    ])

claim-own :
    (id : ℤ) (status : Text) (rs : List Invoice)
    → eq_text status pending ≡ false
    → after_claim id id status rs ≤ open_count id rs
claim-own id status rs final =
    let same = claim-present id id status rs in
    let gone =
      count-update_own (is_pending id) (with_status status) (λ x. ground (arith, final)) rs in
    elim (Option-cases (find_where (has_invoice id) rs)) [
      | inl absent ↦ let before = absent-open id rs absent in ground (arith, same, absent, before)
      | inr (r, found) ↦ ground (arith, same, gone, found)
    ]

-- A claim of an invoice that is pending uses its accrual up.
pub claim-open :
    (id id' : ℤ) (status : Text) (rs : List Invoice)
    → eq_text status pending ≡ false
    → after_claim id id' status rs ≤ open_count id rs
claim-open id id' status rs final =
    let same = claim-present id id' status rs in
    let fewer =
      count-update-le (is_pending id) (is_pending id') (with_status status)
        (λ r h. ground (arith, final)) rs in
    elim (Bool-cases (eq_ℤ id' id)) [
      | inr other ↦ elim (Bool-cases (is_some (find_where (has_invoice id) rs))) [
        | inl found ↦ ground (arith, same, found, other, fewer)
        | inr absent ↦ ground (arith, same, absent, other)
      ]
      | inl own ↦
          subst (λ i. after_claim id i status rs ≤ open_count id rs) (sym ((eq_ℤ_iff id' id).0 own))
            (claim-own id status rs final)
    ]
