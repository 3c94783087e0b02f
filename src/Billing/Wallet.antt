-- ===== src/Billing/Wallet.antt =====
-- `summary`, `freeze`, `unfreeze`, `credit`, `debit_one_day` and `refund_debit` of
-- bot/mosaic_billing.py. Each transaction is one function of the tables; the metadata that it stores
-- for people to read is left out.
use mosaicvpn.Prelude.{
  ℕ, Bool, false, not, ◌&&◌, ◌||◌, Option, none, some, [], ◌∷◌, ◌++◌, ltb, is_some, if◌then◌else◌,
}
use mosaicvpn.Prelude.Int.{ℤ, pos, ltb_ℤ, leb_ℤ, ◌+ℤ◌, ◌-ℤ◌}
use mosaicvpn.Prelude.Text.{Text, text, eq_text}
use mosaicvpn.Prelude.Table.{find_where, update_where}
use mosaicvpn.Prelude.Result.{Result, ok, raise, value_error, lookup_error, integrity_error}
use mosaicvpn.Billing.Types.{
  Account, Wallet, Entry, Debit, Books, Summary, DebitReply, already_done, no_funds, debited,
  active, frozen, revoked, insufficient_funds, has_id, wallet_of, subscription_of, has_key,
}

-- The SELECT of `summary`, an account joined with its wallet.
unfoldable pub joined : Option Account → Option Wallet → Option Summary
joined (some a) (some w) = some record {
  account_id = a.id;
  status = a.status;
  trial_ends_at = a.trial_ends_at;
  balance_kopecks = w.balance_kopecks;
}
joined _ _ = none

unfoldable pub summary : Text → Books → Option Summary
summary i b = joined (find_where (has_id i) b.accounts) (find_where (wallet_of i) b.wallets)

-- `status <> 'revoked'`
abbrev pub not_revoked : Text → Account → Bool
not_revoked i a = eq_text a.id i && not (eq_text a.status revoked)

abbrev pub with_status : Text → Account → Account
with_status s a = record a { status = s }

unfoldable pub freeze : ℕ → Text → Books → Bool × Books
freeze now i b =
    let changed = is_some (find_where (not_revoked i) b.accounts) in
    (
      changed,
      (if changed
          then record b {
            accounts = update_where (not_revoked i) (with_status frozen) b.accounts;
            subscriptions =
                update_where (subscription_of i) (λ s. record s { frozen_at = some now })
                  b.subscriptions;
          }
          else b),
    )

-- `balance_kopecks>0` of the account's wallet
unfoldable pub is_funded : Option Wallet → Bool
is_funded none = false
is_funded (some w) = ltb_ℤ (pos 0) w.balance_kopecks

-- `trial_ends_at>now()` of the account
unfoldable pub on_trial : ℕ → Option ℕ → Bool
on_trial now none = false
on_trial now (some ends) = ltb now ends

abbrev pub trial_of : Option Account → Option ℕ
trial_of none = none
trial_of (some a) = a.trial_ends_at

abbrev pub frozen_id : Text → Account → Bool
frozen_id i a = eq_text a.id i && eq_text a.status frozen

unfoldable pub unfreeze : ℕ → Text → Books → Option Text × Books
unfreeze now i b =
    let funded = is_funded (find_where (wallet_of i) b.wallets) in
    let trial = on_trial now (trial_of (find_where (has_id i) b.accounts)) in
    let s = if funded || trial then active else insufficient_funds in
    if is_some (find_where (frozen_id i) b.accounts)
    then (
      some s,
      record b {
        accounts = update_where (frozen_id i) (with_status s) b.accounts;
        subscriptions =
            update_where (subscription_of i) (λ r. record r { frozen_at = none }) b.subscriptions;
      },
    )
    else (none, b)

abbrev pub with_balance : ℤ → Wallet → Wallet
with_balance n w = record w { balance_kopecks = n }

abbrev pub entry : Text → Text → ℤ → ℤ → Text → Entry
entry i kind amount balance key = record {
  account_id = i;
  kind = kind;
  amount_kopecks = amount;
  balance_after_kopecks = balance;
  idempotency_key = key;
}

-- A change of a wallet with its line in the ledger.
abbrev pub posted : Text → Text → ℤ → ℤ → Text → Books → Books
posted i kind amount balance key b = record b {
  wallets = update_where (wallet_of i) (with_balance balance) b.wallets;
  ledger = b.ledger ++ entry i kind amount balance key ∷ [];
}

-- `CASE WHEN status IN ('insufficient_funds','frozen') THEN status ELSE 'active' END`
abbrev pub credited_status : Account → Account
credited_status a = record a {
  status =
      if eq_text a.status insufficient_funds || eq_text a.status frozen then a.status else active;
}

unfoldable pub credit_wallet :
    Text → ℤ → Text → Text → Option Wallet → Books → Result (Option Summary) × Books
credit_wallet i amount key kind none b = (raise lookup_error, b)
credit_wallet i amount key kind (some w) b =
    let p = posted i kind amount (w.balance_kopecks +ℤ amount) key b in
    let b' = record p { accounts = update_where (has_id i) credited_status p.accounts } in
    (ok (summary i b'), b')

unfoldable pub credit : Text → ℤ → Text → Text → Books → Result (Option Summary) × Books
credit i amount key kind b =
    if leb_ℤ amount (pos 0)
    then (raise value_error, b)
    else if is_some (find_where (has_key key) b.ledger)
    then (ok (summary i b), b)
    else credit_wallet i amount key kind (find_where (wallet_of i) b.wallets) b

-- `f'daily-debit:{account_id}:{debit_date.isoformat()}'`
abbrev pub debit_key : Text → Text → Text
debit_key i date = text "daily-debit:" ++ i ++ text ":" ++ date

abbrev pub refund_key : Text → Text → Text
refund_key i date = text "daily-debit-refund:" ++ i ++ text ":" ++ date

abbrev pub debit_on : Text → Text → Debit → Bool
debit_on i date d = eq_text d.account_id i && eq_text d.debit_date date

abbrev pub without_funds : Text → Books → DebitReply × Books
without_funds i b = (
  no_funds,
  record b { accounts = update_where (not_revoked i) (with_status insufficient_funds) b.accounts },
)

-- The debit of a wallet that holds the price.
abbrev pub debit_books : ℕ → Text → Text → ℤ → Books → Books
debit_books now i date balance b =
    let p = posted i (text "daily_debit") (pos 0 -ℤ b.price) balance (debit_key i date) b in
    record p {
      debits =
          p.debits ++ record { account_id = i; debit_date = date; amount_kopecks = b.price } ∷ [];
      accounts = update_where (not_revoked i) (with_status active) p.accounts;
      subscriptions =
          update_where (subscription_of i) (λ s. record s { last_debit_at = some now })
            p.subscriptions;
    }

unfoldable pub debit_wallet : ℕ → Text → Text → Option Wallet → Books → Result DebitReply × Books
debit_wallet now i date none b = let (reply, b') = without_funds i b in (ok reply, b')
debit_wallet now i date (some w) b =
    if ltb_ℤ w.balance_kopecks b.price
    then (let (reply, b') = without_funds i b in (ok reply, b'))
    else if is_some (find_where (has_key (debit_key i date)) b.ledger)
    then (raise integrity_error, b)
    else let balance = w.balance_kopecks -ℤ b.price in
      (ok (debited balance b.price), debit_books now i date balance b)

-- `debit_one_day`: the ledger's key is unique, so an entry with the day's key ends the transaction
-- with an IntegrityError.
unfoldable pub debit_one_day : ℕ → Text → Text → Books → Result DebitReply × Books
debit_one_day now i date b =
    if is_some (find_where (debit_on i date) b.debits)
    then (ok already_done, b)
    else debit_wallet now i date (find_where (wallet_of i) b.wallets) b

-- What `refund_debit` gives back: the day's debit, or the price of today.
abbrev pub refund_amount : Option Debit → ℤ → ℤ
refund_amount none price = price
refund_amount (some d) price = d.amount_kopecks

unfoldable pub refund_debit : Text → Text → Books → Result (Option Summary) × Books
refund_debit i date b =
    credit i (refund_amount (find_where (debit_on i date) b.debits) b.price) (refund_key i date)
      (text "refund") b
