-- ===== src/Billing/Daily.antt =====
-- `active_accounts_for_debit` and `run_daily_debits` of bot/mosaic_billing.py. The calls of the panel
-- that extend and disable a user are arguments, which answer or raise.
use mosaicvpn.Prelude.{
  ℕ, Bool, true, false, ◌&&◌, Option, none, some, List, [], ◌∷◌, leb, if◌then◌else◌,
}
use mosaicvpn.Prelude.Text.{Text, eq_text}
use mosaicvpn.Prelude.Table.{find_where}
use mosaicvpn.Prelude.Result.{Result, ok, raise}
use mosaicvpn.Billing.Types.{
  Account, Subscription, Books, Summary, DebitReply, already_done, no_funds, debited, active,
  subscription_of,
}
use mosaicvpn.Billing.Wallet.{debit_one_day, refund_debit}

-- `trial_ends_at IS NULL OR trial_ends_at <= now()`
abbrev pub trial_over : ℕ → Option ℕ → Bool
trial_over now none = true
trial_over now (some ends) = leb ends now

abbrev pub username_in : Option Subscription → Option Text
username_in none = none
username_in (some s) = s.remnawave_username

-- The rows of `active_accounts_for_debit`: accounts with their usernames.
unfoldable pub active_accounts : ℕ → List Subscription → List Account → List (Text × Option Text)
active_accounts now subs [] = []
active_accounts now subs (a ∷ rest) =
    let more = active_accounts now subs rest in
    if eq_text a.status active && trial_over now a.trial_ends_at
    then (a.id, username_in (find_where (subscription_of a.id) subs)) ∷ more
    else more

-- The panel's calls: `extend_user(username, 1)` and `disable_user(username)`.
pub record Panel : Type 0 where
  pub extend : Text → Result Bool
  pub disable : Text → Result (Unit {0})

-- What a statement `refund_debit(...)` leaves.
abbrev pub outcome : Result (Option Summary) × Books → Result (Unit {0}) × Books
outcome (raise e, b) = (raise e, b)
outcome (ok s, b) = (ok tt, b)

-- A statement, and the next one unless it raised.
abbrev pub and_then :
    Result (Unit {0}) × Books → (Books → Result (Unit {0}) × Books) → Result (Unit {0}) × Books
and_then (raise e, b) next = (raise e, b)
and_then (ok done, b) next = next b

-- A statement, and the handler of its exception.
abbrev pub or_handle :
    Result (Unit {0}) × Books → (Books → Result (Unit {0}) × Books) → Result (Unit {0}) × Books
or_handle (raise e, b) handler = handler b
or_handle (ok done, b) handler = (ok done, b)

unfoldable pub refunded : Text → Text → Books → Result (Unit {0}) × Books
refunded i date b = outcome (refund_debit i date b)

-- The refund inside the `try`: if it raises, the handler refunds once more.
unfoldable pub refunded_in_try : Text → Text → Books → Result (Unit {0}) × Books
refunded_in_try i date b = or_handle (refunded i date b) (refunded i date)

unfoldable pub extended : Text → Text → Result Bool → Books → Result (Unit {0}) × Books
extended i date (raise e) b = refunded i date b
extended i date (ok true) b = (ok tt, b)
extended i date (ok false) b = refunded_in_try i date b

-- The `try` after a debit; an absent or empty username fails.
unfoldable pub settle : Panel → Text → Text → Option Text → Books → Result (Unit {0}) × Books
settle panel i date none b = refunded_in_try i date b
settle panel i date (some []) b = refunded_in_try i date b
settle panel i date (some (c ∷ u)) b = extended i date (panel.extend (c ∷ u)) b

unfoldable pub disabled : Panel → Option Text → Result (Unit {0})
disabled panel none = ok tt
disabled panel (some []) = ok tt
disabled panel (some (c ∷ u)) = panel.disable (c ∷ u)

unfoldable pub after_debit :
    Panel → Text → Text → Option Text → Result DebitReply → Books → Result (Unit {0}) × Books
after_debit panel i date username (raise e) b = (raise e, b)
after_debit panel i date username (ok already_done) b = (ok tt, b)
after_debit panel i date username (ok no_funds) b = (disabled panel username, b)
after_debit panel i date username (ok (debited n price)) b = settle panel i date username b

-- One turn of the loop.
unfoldable pub debit_account :
    ℕ → Panel → Text → Text × Option Text → Books → Result (Unit {0}) × Books
debit_account now panel date (i, username) b =
    let (reply, b') = debit_one_day now i date b in after_debit panel i date username reply b'

unfoldable pub debit_all :
    ℕ → Panel → Text → List (Text × Option Text) → Books → Result (Unit {0}) × Books
debit_all now panel date [] b = (ok tt, b)
debit_all now panel date (x ∷ xs) b =
    and_then (debit_account now panel date x b) (debit_all now panel date xs)

unfoldable pub run_daily_debits : ℕ → Panel → Text → Books → Result (Unit {0}) × Books
run_daily_debits now panel date b =
    debit_all now panel date (active_accounts now b.subscriptions b.accounts) b
