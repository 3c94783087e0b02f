-- ===== src/Shop/Credits.antt =====
-- `claim_admin_balance_credit`, `finish_admin_balance_credit` and the part of
-- `_handle_admin_balance_credit` behind the checks of its request, of bot/bot.py.
use mosaicvpn.Prelude.{
  ℕ, Bool, true, false, not, ◌&&◌, ◌||◌, ◌==◌, Option, none, some, List, [], ◌∷◌, ◌++◌,
  if◌then◌else◌,
}
use mosaicvpn.Prelude.Int.{ℤ, eq_ℤ}
use mosaicvpn.Prelude.Text.{Text, text, eq_text}
use mosaicvpn.Prelude.Table.{find_where, update_where, count_where}
use mosaicvpn.Prelude.Result.{Result, ok, raise, value_error}
use mosaicvpn.Cabinet.Tables.{Tables}
use mosaicvpn.Cabinet.Bind.{get_user}
use mosaicvpn.Shop.Types.{Panel}
use mosaicvpn.Shop.Accrual.{username_or_tg}

-- `admin_balance_credits`
pub record Credit : Type 0 where
  pub request_id : Text
  pub admin_telegram_id : ℤ
  pub target_telegram_id : ℤ
  pub amount_rub : ℤ
  pub reason : Text
  pub status : Text
  pub created_at : ℕ
  pub completed_at : Option ℕ
  pub error : Option Text
  pub resulting_short_uuid : Option Text

-- What an administrator asks for.
pub record CreditRequest : Type 0 where
  pub request_id : Text
  pub admin_telegram_id : ℤ
  pub target_telegram_id : ℤ
  pub amount_rub : ℤ
  pub reason : Text

abbrev pub has_request : Text → Credit → Bool
has_request rid r = eq_text r.request_id rid

abbrev pub new_credit : ℕ → CreditRequest → Credit
new_credit now q = record {
  request_id = q.request_id;
  admin_telegram_id = q.admin_telegram_id;
  target_telegram_id = q.target_telegram_id;
  amount_rub = q.amount_rub;
  reason = q.reason;
  status = text "processing";
  created_at = now;
  completed_at = none;
  error = none;
  resulting_short_uuid = none;
}

unfoldable pub claim_row :
    ℕ → CreditRequest → Option Credit → List Credit → (Credit × Bool) × List Credit
claim_row now q (some r) t = ((r, false), t)
claim_row now q none t = ((new_credit now q, true), t ++ new_credit now q ∷ [])

unfoldable pub claim_admin_balance_credit :
    ℕ → CreditRequest → List Credit → (Credit × Bool) × List Credit
claim_admin_balance_credit now q t = claim_row now q (find_where (has_request q.request_id) t) t

abbrev pub is_final : Text → Bool
is_final status = eq_text status (text "succeeded") || eq_text status (text "failed")

-- `request_id = ? AND status = 'processing'`
abbrev pub is_processing : Text → Credit → Bool
is_processing rid r = eq_text r.request_id rid && eq_text r.status (text "processing")

abbrev pub finished : ℕ → Text → Option Text → Option Text → Credit → Credit
finished now status error short r = record r {
  status = status;
  completed_at = some now;
  error = error;
  resulting_short_uuid = short;
}

unfoldable pub finish_admin_balance_credit :
    ℕ → Text → Text → Option Text → Option Text → List Credit → Result Bool × List Credit
finish_admin_balance_credit now rid status error short t =
    if not (is_final status) then (raise value_error, t) else (
      ok (count_where (is_processing rid) t == 1),
      update_where (is_processing rid) (finished now status error short) t,
    )

-- The answers of the handler.
pub data Credited : Type 0 where
  credited already_processed conflict account_missing not_updated : Credited
  recorded : Text → Credited

abbrev pub same_request : CreditRequest → Credit → Bool
same_request q r =
    eq_ℤ r.admin_telegram_id q.admin_telegram_id
    && eq_ℤ r.target_telegram_id q.target_telegram_id
    && eq_ℤ r.amount_rub q.amount_rub
    && eq_text r.reason q.reason

abbrev pub repeated : CreditRequest → Credit → Credited
repeated q r =
    if not (same_request q r)
    then conflict
    else if eq_text r.status (text "succeeded")
    then already_processed
    else recorded r.status

-- A call of the panel that adds days, for a request.
pub record Extension : Type 0 where
  pub request_id : Text
  pub username : Text
  pub days : ℤ

-- What follows the panel's answer; an exception is a failure.
unfoldable pub credit_answered :
    ℕ → Text → Result (Option Text) → List Credit → Credited × List Credit
credit_answered now rid (raise e) t = (
  not_updated,
  (finish_admin_balance_credit now rid (text "failed") (some (text "internal_error")) none t).1,
)
credit_answered now rid (ok none) t = (
  not_updated,
  (finish_admin_balance_credit now rid (text "failed") (some (text "subscription_update_failed"))
      none t).1,
)
credit_answered now rid (ok (some short)) t =
    (credited, (finish_admin_balance_credit now rid (text "succeeded") none (some short) t).1)

unfoldable pub credit_claimed :
    ℕ → Panel → Text → CreditRequest → List Credit → (Credited × List Credit) × List Extension
credit_claimed now p username q t =
    if not (p.has_user username)
    then (
      (
        account_missing,
        (finish_admin_balance_credit now q.request_id (text "failed")
            (some (text "account_not_found")) none t).1,
      ),
      [],
    )
    else (
      credit_answered now q.request_id (p.extend_user username q.amount_rub) t,
      record { request_id = q.request_id; username = username; days = q.amount_rub } ∷ [],
    )

unfoldable pub handle_admin_balance_credit :
    ℕ → Panel → Tables → CreditRequest → List Credit → (Credited × List Credit) × List Extension
handle_admin_balance_credit now p s q t =
    let ((r, claimed), t') = claim_admin_balance_credit now q t in
    if not claimed
    then ((repeated q r, t'), [])
    else credit_claimed now p
        (username_or_tg q.target_telegram_id (get_user q.target_telegram_id s)) q t'

-- A request with its clock, the panel's answers and the account tables at that time.
pub record CreditCall : Type 0 where
  pub now : ℕ
  pub panel : Panel
  pub tables : Tables
  pub request : CreditRequest

-- The calls of the panel of a run of requests.
unfoldable pub credit_run : List CreditCall → List Credit → List Credit × List Extension
credit_run [] t = (t, [])
credit_run (c ∷ cs) t =
    let out = handle_admin_balance_credit c.now c.panel c.tables c.request t in
    let rest = credit_run cs out.0.1 in (rest.0, out.1 ++ rest.1)
