-- ===== src/Billing/Balance.antt =====
-- The wallets' balances and the ledger of bot/mosaic_billing.py along runs of its operations.
use mathlib.Core.Option
use mosaicvpn.Prelude.{
  ◌≡◌, ◌∙◌, subst, refl, sym, ap, true, false, some, List, [], ◌∷◌, ◌++◌, arith, inl, inr,
  Bool-cases, Option-cases, if◌then◌else◌,
}
use mosaicvpn.Prelude.Int.{ℤ, pos, ◌+ℤ◌, int_laws, eq_of_parts}
use mosaicvpn.Prelude.Text.{Text, eq_text, eq_text_iff, eq_text_refl, eq_text_sym}
use mosaicvpn.Prelude.Table.{find_where, find-update, find-holds}
use mosaicvpn.Billing.Types.{Wallet, Entry, Books, wallet_of}
use mosaicvpn.Billing.Wallet.{with_balance, entry}
use mosaicvpn.Billing.Payments.{Call, after, run}
use mosaicvpn.Billing.Steps.{
  Money, money, moved, MoneyStep, idle, posting, unlisted, meets_own_key, after-MoneyStep,
}

-- The sum of the account's entries.
abbrev pub total : Text → List Entry → ℤ
total i [] = pos 0
total i (e ∷ l) =
    let rest = total i l in if eq_text e.account_id i then e.amount_kopecks +ℤ rest else rest

total-append :
    (i : Text) (l : List Entry) (e : Entry)
    → total i (l ++ e ∷ [])
      ≡ (if eq_text e.account_id i then total i l +ℤ e.amount_kopecks else total i l)
total-append i [] e = elim (Bool-cases (eq_text e.account_id i)) [
  | inl own ↦ rw own (eq_of_parts _ _ (omega int_laws))
  | inr other ↦ rw other refl
]
total-append i (x ∷ l) e = rw (total-append i l e) (elim (Bool-cases (eq_text e.account_id i)) [
  | inr other ↦ rw other refl
  | inl own ↦ elim (Bool-cases (eq_text x.account_id i)) [
    | inr away ↦ rw (own, away) refl
    | inl mine ↦ rw (own, mine) (eq_of_parts _ _ (omega int_laws))
  ]
])

-- The wallet of the account, if there is one, holds the sum of the account's entries.
abbrev pub IsBalanced : Text → Money → Type 0
IsBalanced i m =
    (w : Wallet) → find_where (wallet_of i) m.0 ≡ some w → w.balance_kopecks ≡ total i m.1

find-moved :
    (i j : Text) (amount : ℤ) (w : Wallet) (ws : List Wallet)
    → find_where (wallet_of i) (moved j amount w ws)
      ≡ Option.map
          (λ x. if wallet_of j x then with_balance (w.balance_kopecks +ℤ amount) x else x)
          (find_where (wallet_of i) ws)
find-moved i j amount w ws = find-update (wallet_of i) (wallet_of j) _ (λ x. refl) ws

posting-IsBalanced :
    (i j kind key : Text) (amount : ℤ) (w : Wallet) (m : Money)
    → find_where (wallet_of j) m.0 ≡ some w
    → IsBalanced i m
    → IsBalanced i
        (moved j amount w m.0, m.1 ++ entry j kind amount (w.balance_kopecks +ℤ amount) key ∷ [])
posting-IsBalanced i j kind key amount w m found balanced w' found' =
    elim (Option-cases (find_where (wallet_of i) m.0)) [
      | inl absent ↦ absurd (ground (arith, find-moved i j amount w m.0))
      | inr (x, here) ↦
          let xi : x.account_id ≡ i =
            (eq_text_iff _ _).0 (find-holds (wallet_of i) m.0 {r = x} here) in
          let now_moved = find-moved i j amount w m.0 in
          let sum = total-append i m.1 (entry j kind amount (w.balance_kopecks +ℤ amount) key) in
          let new : some w'
              ≡ some (if wallet_of j x then with_balance (w.balance_kopecks +ℤ amount) x else x) =
            sym found' ∙ now_moved ∙ rw here refl in
          elim (Bool-cases (eq_text j i)) [
            | inl same ↦
                let ji : j ≡ i = (eq_text_iff j i).0 same in
                let here' : find_where (wallet_of i) m.0 ≡ some w = rw ji at found in
                let hit : wallet_of j x ≡ true = rw (xi, ji) (eq_text_refl i) in
                let old : w.balance_kopecks ≡ total i m.1 = balanced w here' in
                let after_it : w'.balance_kopecks ≡ w.balance_kopecks +ℤ amount = ground (arith) in
                after_it ∙ ap (λ n. n +ℤ amount) old ∙ sym (rw same at sum)
            | inr other ↦
                let miss : wallet_of j x ≡ false = rw xi ((eq_text_sym i j) ∙ other) in
                let kept : w' ≡ x = ground arith in
                ap (λ r. r.balance_kopecks) kept ∙ balanced x here ∙ sym (rw other at sum)
          ]
    ]

MoneyStep-IsBalanced :
    {m m' : Money} (i : Text) → MoneyStep false m m' → IsBalanced i m → IsBalanced i m'
MoneyStep-IsBalanced i idle balanced = balanced
MoneyStep-IsBalanced i (unlisted j amount w found met) balanced = absurd (ground arith)
MoneyStep-IsBalanced {m} i (posting j kind key amount w found fresh) balanced =
    posting-IsBalanced i j kind key amount w m found balanced

-- No call of the run is a `complete_payment` that meets its own key in the ledger.
abbrev pub MeetsNoOwnKey : List Call → Books → Type 0
MeetsNoOwnKey [] b = Unit
MeetsNoOwnKey (c ∷ cs) b = (meets_own_key c b ≡ false) × MeetsNoOwnKey cs (after c b)

-- The wallet agrees with the ledger: if an account's balance is the sum of its ledger entries, it is
-- after every run of calls in which no `complete_payment` meets an entry with its own key.
pub balance_is_ledger :
    (cs : List Call) (b : Books) (i : Text)
    → MeetsNoOwnKey cs b
    → IsBalanced i (money b)
    → IsBalanced i (money (run cs b))
unfolding run
balance_is_ledger [] b i none_met balanced = balanced
balance_is_ledger (c ∷ cs) b i none_met balanced =
    let step =
      subst (λ f. MoneyStep f (money b) (money (after c b))) none_met.0 (after-MoneyStep c b) in
    balance_is_ledger cs (after c b) i none_met.1 (MoneyStep-IsBalanced i step balanced)
