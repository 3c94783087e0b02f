-- ===== src/Shop/Accrual.antt =====
-- What a paid invoice accrues: `process_lava_paid_invoice`, the turn of `polling_invoices_thread` for
-- one invoice, and `ref_stats_incr`, of bot/bot.py. Messages to users are left out.
use mosaicvpn.Prelude.{
  ℕ, Bool, true, false, not, ◌||◌, Option, none, some, List, [], ◌∷◌, ◌++◌, is_some, if◌then◌else◌,
}
use mosaicvpn.Prelude.Int.{ℤ, pos, eq_ℤ, ◌+ℤ◌}
use mosaicvpn.Prelude.Text.{Text, text, eq_text, truthy}
use mosaicvpn.Prelude.Decimal.{decimal_ℤ}
use mosaicvpn.Prelude.Table.{find_where, update_where}
use mosaicvpn.Prelude.Result.{Result, ok, raise}
use mosaicvpn.Cabinet.Tables.{User}
use mosaicvpn.Cabinet.Bind.{get_user}
use mosaicvpn.Shop.Types.{Stats, Store, Panel, payer, referrer, Write}
use mosaicvpn.Shop.Invoices.{NewUser, save_user, pending, LavaInvoice, update_invoice_status}

-- f"tg_{telegram_id}"
abbrev pub tg_name : ℤ → Text
tg_name i = text "tg_" ++ decimal_ℤ i

abbrev pub stats_of : ℤ → Stats → Bool
stats_of i r = eq_ℤ r.referrer_id i

abbrev pub no_stats : ℤ → Stats
no_stats i = record {
  referrer_id = i;
  clicks = pos 0;
  joined = pos 0;
  paid = pos 0;
  bonus_days_earned = pos 0;
}

abbrev pub allowed_field : Text → Bool
allowed_field f =
    eq_text f (text "clicks")
    || eq_text f (text "joined")
    || eq_text f (text "paid")
    || eq_text f (text "bonus_days_earned")

-- `SET {field} = {field} + ?`
unfoldable pub stats_added : Text → ℤ → Stats → Stats
stats_added f n r =
    if eq_text f (text "clicks")
    then record r { clicks = r.clicks +ℤ n }
    else if eq_text f (text "joined")
    then record r { joined = r.joined +ℤ n }
    else if eq_text f (text "paid")
    then record r { paid = r.paid +ℤ n }
    else record r { bonus_days_earned = r.bonus_days_earned +ℤ n }

-- `INSERT OR IGNORE`
abbrev pub with_stats : ℤ → List Stats → List Stats
with_stats i rs = if is_some (find_where (stats_of i) rs) then rs else rs ++ no_stats i ∷ []

unfoldable pub ref_stats_incr : ℤ → Text → ℤ → List Stats → List Stats
ref_stats_incr i f n rs =
    if allowed_field f then update_where (stats_of i) (stats_added f n) (with_stats i rs) else rs

-- `(db_user or {}).get("username") or f"tg_{telegram_id}"`
abbrev pub username_or_tg : ℤ → Option User → Text
username_or_tg i none = tg_name i
username_or_tg i (some u) = if truthy u.username then u.username else tg_name i

-- `(db_user or {}).get("language") or "ru"`
abbrev pub language_or_ru : Option User → Text
language_or_ru none = text "ru"
language_or_ru (some u) = if truthy u.language then u.language else text "ru"

-- `db_user["language"] if db_user else "ru"`
abbrev pub language_of : Option User → Text
language_of none = text "ru"
language_of (some u) = u.language

abbrev pub referrer_of : Option User → Option ℤ
referrer_of none = none
referrer_of (some u) = u.referrer_id

-- An existing user is extended, another is created.
abbrev pub panel_update : Panel → Text → ℤ → ℤ → Result (Option Text)
panel_update p username days i =
    if p.has_user username then p.extend_user username days else p.create_user username days i

abbrev pub paid_user : ℤ → Text → Text → Text → Option User → NewUser
paid_user i username short language u = record {
  telegram_id = i;
  username = username;
  short_uuid = short;
  language = language;
  trial_used = 1;
  referrer_id = referrer_of u;
}

abbrev pub saved : ℕ → NewUser → Store → Store
saved now n s = record s { tables = save_user now n s.tables }

-- What follows the panel's answer in `process_lava_paid_invoice`.
unfoldable pub lava_answered :
    ℕ → ℤ → Text → Option User → Result (Option Text) → Store → Result Bool × Store
lava_answered now i username u (raise e) s = (raise e, s)
lava_answered now i username u (ok none) s = (ok false, s)
lava_answered now i username u (ok (some short)) s =
    (ok true, saved now (paid_user i username short (language_or_ru u) u) s)

abbrev pub payment_write : ℤ → Text → ℤ → Result (Option Text) → Write
payment_write id username days answer = record {
  payee = payer;
  invoice_id = id;
  username = username;
  days = days;
  answer = answer;
}

unfoldable pub lava_accrued :
    ℕ → Panel → LavaInvoice → Option User → Store → (Result Bool × Store) × List Write
lava_accrued now p v u s =
    let username = username_or_tg v.telegram_id u in
    let answer = panel_update p username v.days v.telegram_id in
    (
      lava_answered now v.telegram_id username u answer s,
      payment_write v.invoice_id username v.days answer ∷ [],
    )

unfoldable pub process_lava_paid_invoice :
    ℕ → Panel → Option LavaInvoice → Store → (Result Bool × Store) × List Write
process_lava_paid_invoice now p none s = ((ok false, s), [])
process_lava_paid_invoice now p (some v) s =
    let (claimed, s') = update_invoice_status v.invoice_id (text "paid") (some pending) s in
    if claimed
    then lava_accrued now p v (get_user v.telegram_id s'.tables) s'
    else ((ok false, s'), [])

-- What follows the panel's answer for the payer; an exception ends the pass over the invoices.
unfoldable pub poll_answered :
    ℕ → ℤ → Text → Option User → Result (Option Text) → Store → Result (Unit {0}) × Store
poll_answered now i username u (raise e) s = (raise e, s)
poll_answered now i username u (ok none) s = (ok tt, s)
poll_answered now i username u (ok (some short)) s =
    (ok tt, saved now (paid_user i username short (language_of u) u) s)

abbrev pub bonus_write : ℤ → Text → ℤ → Result (Option Text) → Write
bonus_write id username days answer = record {
  payee = referrer;
  invoice_id = id;
  username = username;
  days = days;
  answer = answer;
}

-- The statistics of a referrer whom the panel extended.
unfoldable pub bonus_answered : ℤ → ℤ → Result (Option Text) → Store → Result (Unit {0}) × Store
bonus_answered i days (raise e) s = (raise e, s)
bonus_answered i days (ok none) s = (ok tt, s)
bonus_answered i days (ok (some short)) s =
    let counted = ref_stats_incr i (text "paid") (pos 1) s.stats in
    (ok tt, record s { stats = ref_stats_incr i (text "bonus_days_earned") days counted })

unfoldable pub bonus_accrued :
    Panel → ℤ → ℤ → Option ℤ → Store → (Result (Unit {0}) × Store) × List Write
bonus_accrued p id days none s = ((ok tt, s), [])
bonus_accrued p id days (some i) s =
    if eq_ℤ i (pos 0) || not (p.has_user (tg_name i))
    then ((ok tt, s), [])
    else let answer = p.extend_user (tg_name i) days in
      (bonus_answered i days answer s, bonus_write id (tg_name i) days answer ∷ [])

-- The referral bonus, unless the payer's part raised.
unfoldable pub poll_bonus :
    Panel → ℤ → ℤ → ℤ → Result (Unit {0}) × Store → (Result (Unit {0}) × Store) × List Write
poll_bonus p id i days (raise e, s) = ((raise e, s), [])
poll_bonus p id i days (ok done, s) = bonus_accrued p id days (referrer_of (get_user i s.tables)) s

unfoldable pub poll_paid : ℕ → Panel → ℤ → ℤ → ℤ → Store → (Result (Unit {0}) × Store) × List Write
poll_paid now p id i days s =
    let answer = panel_update p (tg_name i) days i in
    let (out, writes) =
      poll_bonus p id i days (poll_answered now i (tg_name i) (get_user i s.tables) answer s) in
    (out, payment_write id (tg_name i) days answer ∷ writes)

-- The branch of a status that is not paid: an expired or cancelled invoice is closed.
abbrev pub poll_ended : Text → ℤ → Store → Store
poll_ended status id s =
    if eq_text status (text "expired") || eq_text status (text "cancelled")
    then (update_invoice_status id status (some pending) s).1
    else s

-- One invoice of the pass, with the status that the provider told.
unfoldable pub poll_invoice :
    ℕ → Panel → Option Text → ℤ → ℤ → ℤ → Store → (Result (Unit {0}) × Store) × List Write
poll_invoice now p none id i days s = ((ok tt, s), [])
poll_invoice now p (some status) id i days s =
    let (claimed, s') = update_invoice_status id (text "paid") (some pending) s in
    if eq_text status (text "paid")
    then (if claimed then poll_paid now p id i days s' else ((ok tt, s'), []))
    else ((ok tt, poll_ended status id s), [])
