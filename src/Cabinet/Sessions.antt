-- ===== src/Cabinet/Sessions.antt =====
-- `create_web_session`, `get_web_session`, `issue_app_auth_code` and `redeem_app_auth_code` of
-- bot/bot.py. Tokens and codes that the code draws are arguments.
use mosaicvpn.Prelude.{
  ℕ, ◌+◌, ◌*◌, Bool, true, not, ◌&&◌, ◌||◌, ◌==◌, Option, none, some, [], ◌∷◌, ◌++◌, leb, ltb,
  is_some, or_else, length, if◌then◌else◌,
}
use mosaicvpn.Prelude.Int.{ℤ}
use mosaicvpn.Prelude.Text.{Text, text, eq_text, truthy}
use mosaicvpn.Prelude.Table.{find_where, update_where, count_where}
use mosaicvpn.Prelude.Result.{Result, ok, raise, integrity_error}
use mosaicvpn.Cabinet.Tables.{Session, AuthCode, Tables, has_token, has_auth_code}

abbrev pub session_ttl_days : ℕ
session_ttl_days = 30

abbrev pub auth_ttl_seconds : ℕ
auth_ttl_seconds = 300

abbrev pub new_session : ℕ → Text → ℤ → Option Text → Session
new_session now token i username = record {
  token = token;
  telegram_id = i;
  username = or_else username [];
  created_at = now;
  expires_at = now + session_ttl_days * 86400000000;
}

unfoldable pub create_web_session : ℕ → Text → ℤ → Option Text → Tables → Result (Text × ℕ) × Tables
create_web_session now token i username s =
    if is_some (find_where (has_token token) s.sessions) then (raise integrity_error, s) else (
      ok (token, now + session_ttl_days * 86400000000),
      record s { sessions = s.sessions ++ new_session now token i username ∷ [] },
    )

-- `token` is absent, empty or too long.
abbrev pub is_bad : Option Text → Bool
is_bad none = true
is_bad (some c) = not (truthy c) || ltb 128 (length c)

unfoldable pub session_row : ℕ → Option Session → Option (ℤ × Text)
session_row now none = none
session_row now (some r) = if ltb r.expires_at now then none else some (r.telegram_id, r.username)

unfoldable pub get_web_session : ℕ → Option Text → Tables → Option (ℤ × Text)
get_web_session now token s =
    if is_bad token
    then none
    else session_row now (find_where (has_token (or_else token [])) s.sessions)

abbrev pub is_purpose : Text → Bool
is_purpose p = eq_text p (text "login") || eq_text p (text "enroll")

abbrev pub bad_state : Option Text → Bool
bad_state none = true
bad_state (some c) = not (truthy c) || ltb (length c) 16 || ltb 128 (length c)

abbrev pub new_auth_code : ℕ → Text → ℤ × Text → Text → Text → AuthCode
new_auth_code now code who state purpose = record {
  code = code;
  telegram_id = who.0;
  username = who.1;
  state = state;
  purpose = purpose;
  created_at = now;
  expires_at = now + auth_ttl_seconds * 1000000;
  used_at = none;
}

unfoldable pub insert_auth_code :
    ℕ → Text → Option (ℤ × Text) → Option Text → Text → Tables → Result (Option Text) × Tables
insert_auth_code now code none state purpose s = (ok none, s)
insert_auth_code now code (some who) state purpose s =
    if bad_state state
    then (ok none, s)
    else if is_some (find_where (has_auth_code code) s.auth_codes)
    then (raise integrity_error, s)
    else (
      ok (some code),
      record s {
        auth_codes = s.auth_codes ++ new_auth_code now code who (or_else state []) purpose ∷ [];
      },
    )

unfoldable pub issue_app_auth_code :
    ℕ → Text → Option Text → Option Text → Text → Tables → Result (Option Text) × Tables
issue_app_auth_code now code session_token state purpose s =
    if not (is_purpose purpose)
    then (ok none, s)
    else insert_auth_code now code (get_web_session now session_token s) state purpose s

pub data Authorised : Type 0 where
  account : ℤ → Text → Text → Authorised
  invalid not_found used state_mismatch expired : Authorised

abbrev pub unused_auth : Text → AuthCode → Bool
unused_auth c r = eq_text r.code c && not (is_some r.used_at)

abbrev pub auth_burnt : ℕ → AuthCode → AuthCode
auth_burnt now r = record r { used_at = some now }

-- `purpose or "login"`
abbrev pub purpose_of : Text → Text
purpose_of p = if truthy p then p else text "login"

unfoldable pub redeem_auth_row : ℕ → Text → Text → Option AuthCode → Tables → Authorised × Tables
redeem_auth_row now code state none s = (not_found, s)
redeem_auth_row now code state (some r) s =
    if is_some r.used_at
    then (used, s)
    else if not (eq_text r.state state)
    then (state_mismatch, s)
    else if leb r.expires_at now
    then (expired, s)
    else if not (count_where (unused_auth code) s.auth_codes == 1)
    then (used, s)
    else (
      account r.telegram_id r.username (purpose_of r.purpose),
      record s { auth_codes = update_where (unused_auth code) (auth_burnt now) s.auth_codes },
    )

unfoldable pub redeem_app_auth_code : ℕ → Option Text → Option Text → Tables → Authorised × Tables
redeem_app_auth_code now code state s =
    if is_bad code || is_bad state
    then (invalid, s)
    else redeem_auth_row now (or_else code []) (or_else state [])
        (find_where (has_auth_code (or_else code [])) s.auth_codes) s
