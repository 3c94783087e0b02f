-- ===== src/Shop/Tests.antt =====
-- Runs of the payments and of the limits on concrete tables, and the theorems at inputs that meet their
-- hypotheses.
use mosaicvpn.Prelude.{
  ℕ, ◌+◌, ◌≤◌, ◌<◌, ◌≡◌, refl, true, false, none, some, List, [], ◌∷◌, arith, All, if◌then◌else◌,
}
use mosaicvpn.Prelude.Int.{pos, ◌+ℤ◌}
use mosaicvpn.Prelude.Text.{text}
use mosaicvpn.Prelude.Decimal.{decimal}
use mosaicvpn.Prelude.Table.{count_where}
use mosaicvpn.Prelude.Result.{ok}
use mosaicvpn.Cabinet.Tables.{Tables}
use mosaicvpn.Cabinet.Bind.{resolve_telegram_account_id, get_user}
use mosaicvpn.Shop.Types.{Store, Panel, payer, referrer}
use mosaicvpn.Shop.Invoices.{
  NewUser, save_user, update_user_lang, insert_invoice, save_invoice, save_lava_invoice, is_lava,
  get_lava_invoice, LavaInvoice, get_pending_invoices, get_pending_lava_invoices,
  update_invoice_status,
}
use mosaicvpn.Shop.Accrual.{
  stats_added, ref_stats_incr, username_or_tg, panel_update, lava_answered, lava_accrued,
  process_lava_paid_invoice, poll_answered, bonus_answered, bonus_accrued, poll_bonus, poll_paid,
  poll_invoice,
}
use mosaicvpn.Shop.Steps.{Event, saves, polls, told_paid, step, run}
use mosaicvpn.Shop.Open.{is_for, is_pending}
use mosaicvpn.Shop.Once.{accrued_once, failed_accrual_is_final}
use mosaicvpn.Shop.Credits.{
  CreditRequest, claim_row, claim_admin_balance_credit, finish_admin_balance_credit,
  credit_answered, credit_claimed, handle_admin_balance_credit, CreditCall, credit_run,
}
use mosaicvpn.Shop.Credited.{is_recorded, extends, admin_credit_once}
use mosaicvpn.Shop.Limits.{rate_limit_rules, rate_limit_check, Act, rate_run, window}
use mosaicvpn.Shop.Limited.{IsLimited, run-IsLimited, rate_limit_reopens}

-- All the definitions that a run computes with.
program : Unit {0}
unfolding decimal ◌+ℤ◌ resolve_telegram_account_id get_user save_user update_user_lang
    insert_invoice save_invoice save_lava_invoice is_lava get_lava_invoice get_pending_invoices
    get_pending_lava_invoices update_invoice_status stats_added ref_stats_incr lava_answered
    lava_accrued process_lava_paid_invoice poll_answered bonus_answered bonus_accrued poll_bonus
    poll_paid poll_invoice step run claim_row claim_admin_balance_credit finish_admin_balance_credit
    credit_answered credit_claimed handle_admin_balance_credit credit_run rate_limit_rules
    rate_limit_check rate_run
program = tt

abbrev tables : Tables
tables = record {
  bind_codes = [];
  links = [];
  users = [];
  sessions = [];
  credentials = [];
  resets = [];
  auth_codes = [];
}

abbrev friend : NewUser
friend = record {
  telegram_id = pos 7;
  username = text "tg_7";
  short_uuid = text "abc";
  language = text "en";
  trial_used = 0;
  referrer_id = some (pos 9);
}

-- The user 7, whom the user 9 has invited.
abbrev invited : Store
invited = record { tables = save_user 1 friend tables; invoices = []; stats = [] }

-- A panel that knows everybody, and one whose updates fail.
abbrev working : Panel
working = record {
  has_user = λ name. true;
  extend_user = λ name days. ok (some (text "abc"));
  create_user = λ name days i. ok (some (text "abc"));
}

abbrev failing : Panel
failing = record working { extend_user = λ name days. ok none }

abbrev events : List Event
events =
    saves 2 (pos 1) (pos 7) (pos 30) none
    ∷ polls 3 working (some (text "paid")) (pos 1) (pos 7) (pos 30)
    ∷ polls 4 working (some (text "paid")) (pos 1) (pos 7) (pos 30)
    ∷ []

both_accrue :
    (count_where (is_for payer (pos 1)) (run events invited).1 ≡ 1)
    × (count_where (is_for referrer (pos 1)) (run events invited).1 ≡ 1)
unfolding program
both_accrue = (refl, refl)

accrued_once_example : count_where (is_for payer (pos 1)) (run events invited).1 ≤ 1
accrued_once_example = accrued_once payer (pos 1) events invited (omega arith)

abbrev sold : Store
sold =
    (save_lava_invoice 2 (pos 5) (text "inv") (text "order") (pos 7) (pos 30) (text "site") none
      invited).1

abbrev lava : LavaInvoice
lava = record {
  invoice_id = pos 5;
  telegram_id = pos 7;
  days = pos 30;
  status = text "pending";
  store = text "site";
}

lava_found : get_lava_invoice (some (text "order")) none sold.invoices ≡ some lava
unfolding program
lava_found = refl

one_pending : count_where (is_pending (pos 5)) sold.invoices ≡ 1
unfolding program
one_pending = refl

refuses :
    panel_update failing (username_or_tg (pos 7) (get_user (pos 7) sold.tables)) (pos 30) (pos 7)
    ≡ ok none
refuses = refl

failed_accrual_is_final_example :
    let out = process_lava_paid_invoice 3 failing (some lava) sold in
    (out.0.0 ≡ ok false)
    × (out.0.1.tables ≡ sold.tables)
    × (count_where (is_for payer (pos 5)) (run (told_paid 4 working (some lava) ∷ []) out.0.1).1
        ≡ 0)
failed_accrual_is_final_example =
    failed_accrual_is_final 3 failing lava (told_paid 4 working (some lava) ∷ []) sold one_pending
      refuses

abbrev request : CreditRequest
request = record {
  request_id = text "request-00000001";
  admin_telegram_id = pos 1;
  target_telegram_id = pos 7;
  amount_rub = pos 100;
  reason = text "bonus";
}

abbrev asks : CreditCall
asks = record { now = 5; panel = working; tables = tables; request = request }

admin_credit_once_example :
    count_where (extends (text "request-00000001")) (credit_run (asks ∷ asks ∷ []) []).1
    ≤ (if is_recorded (text "request-00000001") [] then 0 else 1)
admin_credit_once_example = admin_credit_once (text "request-00000001") (asks ∷ asks ∷ []) []

abbrev act : ℕ → Act
act n = record { now = n; telegram_id = pos 7; action = text "rating" }

abbrev acts : List Act
acts = act 5 ∷ act 9 ∷ []

second_refused : (rate_limit_check 9 (pos 7) (text "rating") (rate_run (act 5 ∷ []) [])).0 ≡ false
unfolding program
second_refused = refl

run-IsLimited_example : IsLimited (pos 7) (text "rating") (rate_run acts [])
run-IsLimited_example = run-IsLimited acts (pos 7) (text "rating") [] (omega arith)

acts-early : All (λ a. Act.now a ≤ 9) acts
acts-early = (omega arith, (omega arith, tt))

long_after : 9 + window (text "rating") < 86400000010
unfolding program
long_after = omega arith

rate_limit_reopens_example :
    (rate_limit_check 86400000010 (pos 7) (text "rating") (rate_run acts [])).0 ≡ true
rate_limit_reopens_example =
    rate_limit_reopens 9 86400000010 (pos 7) (text "rating") acts [] acts-early tt long_after
