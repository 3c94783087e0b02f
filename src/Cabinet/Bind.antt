-- ===== src/Cabinet/Bind.antt =====
-- The binding of a Telegram chat to a website profile in bot/bot.py: `issue_telegram_link_code`,
-- `get_telegram_account_link`, `resolve_telegram_account_id`, `claim_telegram_link_code`,
-- `unlink_telegram_account` and `get_user`.
use mosaicvpn.Prelude.{
  ℕ, ◌+◌, ◌*◌, Bool, not, ◌&&◌, ◌||◌, ◌==◌, Option, none, some, List, [], ◌∷◌, ◌++◌, leb, ltb,
  is_some, or_else, if◌then◌else◌,
}
use mosaicvpn.Prelude.Int.{ℤ, eq_ℤ}
use mosaicvpn.Prelude.Text.{Text, eq_text, truthy}
use mosaicvpn.Prelude.Table.{find_where, update_where, delete_where, count_where}
use mosaicvpn.Prelude.Result.{Result, ok, raise, runtime_error, integrity_error}
use mosaicvpn.Cabinet.Codes.{normalise, ttl_minutes, max_attempts, free_draw}
use mosaicvpn.Cabinet.Tables.{
  BindCode, Link, User, Tables, has_bind_code, from_chat, to_account, has_user_id,
}

-- `account_id = ? AND used_at IS NULL`
abbrev pub live_bind : ℤ → BindCode → Bool
live_bind i r = eq_ℤ r.account_id i && not (is_some r.used_at)

abbrev pub new_bind_code : ℕ → ℤ → Text → BindCode
new_bind_code now i code = record {
  code = code;
  account_id = i;
  issued_at = now;
  expires_at = now + ttl_minutes * 60000000;
  used_at = none;
  attempts = 0;
}

-- Without a free code the DELETE is not committed either.
unfoldable pub bind_issued :
    ℕ → ℤ → Option Text → List BindCode → Tables → Result (Text × ℕ) × Tables
bind_issued now i none rest s = (raise runtime_error, s)
bind_issued now i (some code) rest s = (
  ok (code, now + ttl_minutes * 60000000),
  record s { bind_codes = rest ++ new_bind_code now i code ∷ [] },
)

unfoldable pub issue_telegram_link_code : ℕ → (ℕ → Text) → ℤ → Tables → Result (Text × ℕ) × Tables
issue_telegram_link_code now draw i s =
    let rest = delete_where (live_bind i) s.bind_codes in
    bind_issued now i (free_draw has_bind_code 12 draw rest) rest s

unfoldable pub get_telegram_account_link : ℤ → Tables → Option Link
get_telegram_account_link i s = find_where (to_account i) s.links

abbrev pub linked_or : ℤ → Option Link → ℤ
linked_or i none = i
linked_or i (some l) = l.account_id

unfoldable pub resolve_telegram_account_id : ℤ → Tables → ℤ
resolve_telegram_account_id i s = linked_or i (find_where (from_chat i) s.links)

-- The profile of a chat, by the account that it resolves to.
unfoldable pub get_user : ℤ → Tables → Option User
get_user i s = find_where (has_user_id (resolve_telegram_account_id i s)) s.users

pub data Bound : Type 0 where
  bound : ℤ → Bound
  not_found used too_many expired : Bound
  already_linked telegram_already_linked telegram_profile_exists account_already_linked : Bound

abbrev pub unused_bind : Text → BindCode → Bool
unused_bind c r = eq_text r.code c && not (is_some r.used_at)

abbrev pub bind_burnt : ℕ → BindCode → BindCode
bind_burnt now r = record r { used_at = some now; attempts = r.attempts + 1 }

-- `telegram_id = ? AND telegram_id != ?`
abbrev pub own_profile : ℤ → ℤ → User → Bool
own_profile i account u = eq_ℤ u.telegram_id i && not (eq_ℤ u.telegram_id account)

abbrev pub new_link : ℕ → ℤ → ℤ → Option Text → Link
new_link now i account username = record {
  telegram_id = i;
  account_id = account;
  telegram_username = or_else username [];
  linked_at = now;
}

-- The keys of `telegram_account_links`: the chat, and the account.
abbrev pub breaks_keys : ℤ → ℤ → List Link → Bool
breaks_keys i account ls =
    is_some (find_where (from_chat i) ls) || is_some (find_where (to_account account) ls)

-- The UPDATE that burns the code, and the INSERT of the link.
unfoldable pub bind_links : ℕ → Text → ℤ → Option Text → ℤ → Tables → Result Bound × Tables
bind_links now c i username account s =
    if not (count_where (unused_bind c) s.bind_codes == 1)
    then (ok used, s)
    else if breaks_keys i account s.links
    then (raise integrity_error, s)
    else (
      ok (bound account),
      record s {
        bind_codes = update_where (unused_bind c) (bind_burnt now) s.bind_codes;
        links = s.links ++ new_link now i account username ∷ [];
      },
    )

-- The checks of the chat and of the account.
unfoldable pub bind_chat :
    ℕ → Text → ℤ → Option Text → ℤ → Option Link → Tables → Result Bound × Tables
bind_chat now c i username account (some l) s =
    (ok (if eq_ℤ l.account_id account then already_linked else telegram_already_linked), s)
bind_chat now c i username account none s =
    if is_some (find_where (own_profile i account) s.users)
    then (ok telegram_profile_exists, s)
    else if is_some (find_where (to_account account) s.links)
    then (ok account_already_linked, s)
    else bind_links now c i username account s

unfoldable pub bind_row :
    ℕ → Text → ℤ → Option Text → Option BindCode → Tables → Result Bound × Tables
bind_row now c i username none s = (ok not_found, s)
bind_row now c i username (some r) s =
    if is_some r.used_at
    then (ok used, s)
    else if leb max_attempts r.attempts
    then (ok too_many, s)
    else if ltb r.expires_at now
    then (ok expired, s)
    else bind_chat now c i username r.account_id (find_where (from_chat i) s.links) s

unfoldable pub claim_telegram_link_code :
    ℕ → Option Text → ℤ → Option Text → Tables → Result Bound × Tables
claim_telegram_link_code now raw i username s =
    let c = normalise raw in
    if truthy c
    then bind_row now c i username (find_where (has_bind_code c) s.bind_codes) s
    else (ok not_found, s)

unfoldable pub unlink_telegram_account : ℤ → Tables → Bool × Tables
unlink_telegram_account account s = (
  count_where (to_account account) s.links == 1,
  record s { links = delete_where (to_account account) s.links },
)
