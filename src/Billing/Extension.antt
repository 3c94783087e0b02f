-- ===== src/Billing/Extension.antt =====
-- The turn of `run_daily_debits` of bot/mosaic_billing.py for one account, where the panel fails.
use mosaicvpn.Prelude.{
  ℕ, ◌≡◌, ◌∙◌, refl, ap, Bool, true, false, Option, none, some, [], ◌∷◌, ◌++◌, arith, inl, inr,
  Option-cases,
}
use mosaicvpn.Prelude.Int.{ℤ, pos, leb_ℤ, ◌+ℤ◌, ◌-ℤ◌, int_laws, eq_of_parts}
use mosaicvpn.Prelude.Text.{Text, text, eq_text_refl}
use mosaicvpn.Prelude.Table.{find_where, update_where, find-update, find-holds, find-append_new}
use mosaicvpn.Prelude.Result.{Result, ok, raise}
use mosaicvpn.Billing.Types.{Wallet, Debit, Books, debited, wallet_of, has_key}
use mosaicvpn.Billing.Wallet.{
  with_balance, entry, credit_wallet, credit, debit_key, refund_key, debit_on, debit_books,
  debit_wallet, debit_one_day, refund_debit,
}
use mosaicvpn.Billing.Daily.{
  Panel, or_handle, refunded, refunded_in_try, extended, settle, after_debit, debit_account,
}

abbrev pub refuses : Result Bool → Bool
refuses (raise e) = true
refuses (ok true) = false
refuses (ok false) = true

-- The extension of the user's day fails: there is no username, or the panel refuses or raises.
abbrev pub fails : Panel → Option Text → Bool
fails panel none = true
fails panel (some []) = true
fails panel (some (c ∷ u)) = refuses (panel.extend (c ∷ u))

or_handle-ok :
    (x : Result (Unit {0}) × Books) (handler : Books → Result (Unit {0}) × Books)
    → x.0 ≡ ok tt
    → or_handle x handler ≡ x
or_handle-ok (raise e, b) handler h = absurd (ground arith)
or_handle-ok (ok done, b) handler h = refl

minus_plus : (a b : ℤ) → (a -ℤ b) +ℤ b ≡ a
minus_plus a b = eq_of_parts _ _ (omega int_laws)

module _ (now : ℕ) (i date : Text) where
  -- What a debit leaves.
  debited-leaves :
      (b : Books) (w : Wallet) (n price : ℤ)
      → find_where (wallet_of i) b.wallets ≡ some w
      → (debit_one_day now i date b).0 ≡ ok (debited n price)
      → (find_where (debit_on i date) b.debits ≡ none)
        × ((debit_one_day now i date b).1 ≡ debit_books now i date (w.balance_kopecks -ℤ b.price) b)
  unfolding debit_one_day debit_wallet
  debited-leaves b w n price found h = elim (Option-cases (find_where (debit_on i date) b.debits)) [
    | inr (d, done) ↦ absurd (ground (arith, done, h))
    | inl fresh ↦ (fresh, ground (arith, fresh, found, h))
  ]

  -- The refund of a debit under a fresh key puts the balance back.
  refunded-restores :
      (b : Books) (w : Wallet)
      → find_where (wallet_of i) b.wallets ≡ some w
      → find_where (debit_on i date) b.debits ≡ none
      → find_where (has_key (refund_key i date)) b.ledger ≡ none
      → leb_ℤ b.price (pos 0) ≡ false
      → let b1 = debit_books now i date (w.balance_kopecks -ℤ b.price) b in
        let (reply, b2) = refunded i date b1 in
        (reply ≡ ok tt) × (find_where (wallet_of i) b2.wallets ≡ some w)
  unfolding refunded refund_debit credit credit_wallet
  refunded-restores b w found fresh unused positive =
      let day : Debit = record { account_id = i; debit_date = date; amount_kopecks = b.price } in
      let own : debit_on i date day ≡ true = rw (eq_text_refl i, eq_text_refl date) refl in
      let balance = w.balance_kopecks -ℤ b.price in
      let mine : wallet_of i w ≡ true = find-holds (wallet_of i) b.wallets {r = w} found in
      let written = find-append_new (debit_on i date) b.debits day fresh in
      let line = entry i (text "daily_debit") (pos 0 -ℤ b.price) balance (debit_key i date) in
      let open_key = find-append_new (has_key (refund_key i date)) b.ledger line unused in
      let low : find_where (wallet_of i)
            (update_where (wallet_of i) (with_balance balance) b.wallets)
          ≡ some (with_balance balance w) =
        find-update (wallet_of i) (wallet_of i) (with_balance balance) (λ x. refl) b.wallets
        ∙ rw (found, mine) refl in
      let back =
        find-update (wallet_of i) (wallet_of i) (with_balance (balance +ℤ b.price)) (λ x. refl)
          (update_where (wallet_of i) (with_balance balance) b.wallets) in
      let there : find_where (debit_on i date) (b.debits ++ day ∷ []) ≡ some day =
        written ∙ rw own refl in
      let free : find_where (has_key (refund_key i date)) (b.ledger ++ line ∷ []) ≡ none =
        open_key in
      let whole : some (with_balance (balance +ℤ b.price) w) ≡ some w =
        ap (λ n. some (with_balance n w)) (minus_plus w.balance_kopecks b.price) in
      rw (there, positive, free, low) (refl, back ∙ rw (low, mine) whole)

  -- With one refund or with the `try` around it, a refund that answers is the end of the turn.
  refunded_in_try-same :
      (b : Books) → (refunded i date b).0 ≡ ok tt → refunded_in_try i date b ≡ refunded i date b
  unfolding refunded_in_try
  refunded_in_try-same b h = or_handle-ok (refunded i date b) (refunded i date) h

  settle-refunds :
      (panel : Panel) (username : Option Text) (b : Books)
      → fails panel username ≡ true
      → (refunded i date b).0 ≡ ok tt
      → settle panel i date username b ≡ refunded i date b
  unfolding settle extended
  settle-refunds panel none b f h = refunded_in_try-same b h
  settle-refunds panel (some []) b f h = refunded_in_try-same b h
  settle-refunds panel (some (c ∷ u)) b f h = by_answer (panel.extend (c ∷ u)) f
    where
      by_answer : (o : Result Bool) → refuses o ≡ true → extended i date o b ≡ refunded i date b
      by_answer (raise e) f = refl
      by_answer (ok true) f = absurd (ground arith)
      by_answer (ok false) f = refunded_in_try-same b h

-- A day whose extension fails costs nothing: if `debit_one_day` debits an account, the price is
-- positive, no refund of that account and date stands in the ledger, and the user has no username or
-- the panel refuses or raises, then the turn of `run_daily_debits` for the account raises nothing and
-- leaves its wallet as it found it.
pub failed_extension_is_free :
    (now : ℕ) (panel : Panel) (i date : Text) (username : Option Text) (b : Books) (w : Wallet)
    (n price : ℤ)
    → find_where (wallet_of i) b.wallets ≡ some w
    → (debit_one_day now i date b).0 ≡ ok (debited n price)
    → leb_ℤ b.price (pos 0) ≡ false
    → find_where (has_key (refund_key i date)) b.ledger ≡ none
    → fails panel username ≡ true
    → let (reply, b') = debit_account now panel date (i, username) b in
      (reply ≡ ok tt) × (find_where (wallet_of i) b'.wallets ≡ some w)
unfolding debit_account after_debit
failed_extension_is_free now panel i date username b w n price found h positive unused f =
    let (fresh, left) = debited-leaves now i date b w n price found h in
    let back = refunded-restores now i date b w found fresh unused positive in
    let turn =
      settle-refunds now i date panel username
        (debit_books now i date (w.balance_kopecks -ℤ b.price) b) f back.0 in
    rw (h, left, turn) back
