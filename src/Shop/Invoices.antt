-- ===== src/Shop/Invoices.antt =====
-- `save_user`, `update_user_lang`, `save_invoice`, `save_lava_invoice`, `get_lava_invoice`,
-- `get_pending_invoices`, `get_pending_lava_invoices` and `update_invoice_status` of bot/bot.py.
use mosaicvpn.Prelude.{
  ℕ, Bool, false, ◌&&◌, ◌||◌, ◌==◌, Option, none, some, List, [], ◌∷◌, ◌++◌, is_some, or_else,
  if◌then◌else◌,
}
use mosaicvpn.Prelude.Int.{ℤ, eq_ℤ}
use mosaicvpn.Prelude.Text.{Text, text, eq_text, truthy}
use mosaicvpn.Prelude.Table.{find_where, filter_where, update_where, count_where}
use mosaicvpn.Prelude.Result.{Result, ok, raise, integrity_error}
use mosaicvpn.Cabinet.Tables.{User, Tables, has_user_id}
use mosaicvpn.Cabinet.Bind.{resolve_telegram_account_id}
use mosaicvpn.Shop.Types.{Invoice, Store, has_invoice}

-- The row of `excluded` in the UPSERT.
pub record NewUser : Type 0 where
  pub telegram_id : ℤ
  pub username : Text
  pub short_uuid : Text
  pub language : Text
  pub trial_used : ℕ
  pub referrer_id : Option ℤ

abbrev pub user_of : ℕ → NewUser → User
user_of now n = record {
  telegram_id = n.telegram_id;
  username = n.username;
  short_uuid = n.short_uuid;
  language = n.language;
  trial_used = n.trial_used;
  created_at = now;
  referrer_id = n.referrer_id;
}

-- `CASE WHEN users.referrer_id IS NULL THEN excluded.referrer_id ELSE users.referrer_id END`
abbrev pub first_referrer : Option ℤ → Option ℤ → Option ℤ
first_referrer none new = new
first_referrer (some i) new = some i

abbrev pub user_upserted : NewUser → User → User
user_upserted n u = record u {
  username = n.username;
  short_uuid = n.short_uuid;
  language = n.language;
  trial_used = n.trial_used;
  referrer_id = first_referrer u.referrer_id n.referrer_id;
}

unfoldable pub save_user : ℕ → NewUser → Tables → Tables
save_user now n s =
    if is_some (find_where (has_user_id n.telegram_id) s.users)
    then record s { users = update_where (has_user_id n.telegram_id) (user_upserted n) s.users }
    else record s { users = s.users ++ user_of now n ∷ [] }

abbrev pub with_language : Text → User → User
with_language language u = record u { language = language }

unfoldable pub update_user_lang : ℤ → Text → Tables → Tables
update_user_lang i language s = record s {
  users =
      update_where (has_user_id (resolve_telegram_account_id i s)) (with_language language) s.users;
}

-- `if terms_version`, or else the column's default.
abbrev pub terms_or_default : Option Text → Text
terms_or_default terms = if truthy (or_else terms []) then or_else terms [] else text "1.0"

abbrev pub pending : Text
pending = text "pending"

abbrev pub new_invoice : ℕ → ℤ → ℤ → ℤ → Option Text → Invoice
new_invoice now id i days terms = record {
  invoice_id = id;
  telegram_id = i;
  days = days;
  status = pending;
  created_at = now;
  payment_provider = text "cryptobot";
  provider_invoice_id = none;
  order_id = none;
  terms_version = terms_or_default terms;
}

-- An INSERT, which the primary key may refuse.
unfoldable pub insert_invoice : Invoice → Store → Result (Unit {0}) × Store
insert_invoice r s =
    if is_some (find_where (has_invoice r.invoice_id) s.invoices)
    then (raise integrity_error, s)
    else (ok tt, record s { invoices = s.invoices ++ r ∷ [] })

unfoldable pub save_invoice : ℕ → ℤ → ℤ → ℤ → Option Text → Store → Result (Unit {0}) × Store
save_invoice now id i days terms s = insert_invoice (new_invoice now id i days terms) s

abbrev pub new_lava_invoice : ℕ → ℤ → Text → Text → ℤ → ℤ → Text → Option Text → Invoice
new_lava_invoice now id provider_id order i days store terms =
    record (new_invoice now id i days terms) {
      payment_provider = text "lava_" ++ store;
      provider_invoice_id = some provider_id;
      order_id = some order;
    }

unfoldable pub save_lava_invoice :
    ℕ → ℤ → Text → Text → ℤ → ℤ → Text → Option Text → Store → Result (Unit {0}) × Store
save_lava_invoice now id provider_id order i days store terms s =
    insert_invoice (new_lava_invoice now id provider_id order i days store terms) s

-- One character of a LIKE pattern, without the letter case.
abbrev pub is_letter : ℕ → ℕ → ℕ → Bool
is_letter small capital c = c == small || c == capital

-- `payment_provider LIKE 'lava_%'`, where `_` is any character.
unfoldable pub is_lava : Text → Bool
is_lava (l ∷ a ∷ v ∷ b ∷ any ∷ s) =
    is_letter b'l' b'L' l && is_letter b'a' b'A' a && is_letter b'v' b'V' v && is_letter b'a' b'A' b
is_lava _ = false

-- The text behind a prefix.
abbrev pub strip_prefix : Text → Text → Option Text
strip_prefix [] s = some s
strip_prefix (c ∷ p) [] = none
strip_prefix (c ∷ p) (d ∷ s) = let rest = strip_prefix p s in if c == d then rest else none

-- `.replace("lava_", "", 1)`
abbrev pub without_lava : Text → Text
without_lava [] = []
without_lava (c ∷ s) = or_else (strip_prefix (text "lava_") (c ∷ s)) (c ∷ without_lava s)

pub record LavaInvoice : Type 0 where
  pub invoice_id : ℤ
  pub telegram_id : ℤ
  pub days : ℤ
  pub status : Text
  pub store : Text

abbrev pub lava_view : Invoice → LavaInvoice
lava_view r = record {
  invoice_id = r.invoice_id;
  telegram_id = r.telegram_id;
  days = r.days;
  status = r.status;
  store = without_lava r.payment_provider;
}

-- `column = ?` with a text, which NULL does not equal.
abbrev pub is_text : Option Text → Text → Bool
is_text none t = false
is_text (some s) t = eq_text s t

abbrev pub lava_by_provider : Text → Invoice → Bool
lava_by_provider id r = is_lava r.payment_provider && is_text r.provider_invoice_id id

abbrev pub lava_by_order : Text → Invoice → Bool
lava_by_order id r = is_lava r.payment_provider && is_text r.order_id id

abbrev pub viewed : Option Invoice → Option LavaInvoice
viewed none = none
viewed (some r) = some (lava_view r)

-- `str(order_id)` of nothing is "None".
unfoldable pub get_lava_invoice : Option Text → Option Text → List Invoice → Option LavaInvoice
unfolding is_lava
get_lava_invoice order provider_id rs = viewed (
    if truthy (or_else provider_id [])
    then find_where (lava_by_provider (or_else provider_id [])) rs
    else find_where (lava_by_order (or_else order (text "None"))) rs)

abbrev pub is_pending_crypto : Invoice → Bool
is_pending_crypto r = eq_text r.status pending && eq_text r.payment_provider (text "cryptobot")

unfoldable pub get_pending_invoices : List Invoice → List Invoice
get_pending_invoices rs = filter_where is_pending_crypto rs

abbrev pub is_pending_lava : Invoice → Bool
is_pending_lava r = eq_text r.status pending && is_lava r.payment_provider

unfoldable pub get_pending_lava_invoices : List Invoice → List Invoice
get_pending_lava_invoices rs = filter_where is_pending_lava rs

-- `invoice_id = ?`, with `AND status = ?` when a status is expected.
abbrev pub is_expected : ℤ → Option Text → Invoice → Bool
is_expected id none r = eq_ℤ r.invoice_id id
is_expected id (some expect) r = eq_ℤ r.invoice_id id && eq_text r.status expect

abbrev pub with_status : Text → Invoice → Invoice
with_status status r = record r { status = status }

unfoldable pub update_invoice_status : ℤ → Text → Option Text → Store → Bool × Store
update_invoice_status id status expect s = (
  count_where (is_expected id expect) s.invoices == 1,
  record s { invoices = update_where (is_expected id expect) (with_status status) s.invoices },
)
