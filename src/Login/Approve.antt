-- ===== src/Login/Approve.antt =====
-- `approve` and `consume` of `BrowserLoginStore`, bot/onboarding_auth.py.
use mosaicvpn.Prelude.{
  ℕ, ◌+◌, ◌*◌, ◌-◌, Bool, false, not, ◌&&◌, ◌||◌, ◌==◌, Option, none, some, List, [], ◌∷◌, leb, ltb,
  if◌then◌else◌, take, is_some,
}
use mosaicvpn.Prelude.Int.{ℤ, pos, ltb_ℤ}
use mosaicvpn.Prelude.Text.{Text, eq_text}
use mosaicvpn.Prelude.Table.{find_where, update_where, count_where}
use mosaicvpn.Prelude.Value.{Value, int, str}
use mosaicvpn.Prelude.Result.{Result, ok, raise}
use mosaicvpn.Login.Types.{
  pending, approved, used, locked, eq_status, Challenge, Reply, expired_reply, used_reply,
  pending_reply, status_only, exchange_failed, consumed, Approval, success, refused_malformed,
  refused_not_found, refused_expired, refused_used, refused_locked, already_bound, failed, Payload,
}
use mosaicvpn.Login.Store.{
  with_request, username_of, request_id_of, Verified, verified, rejected, verify,
}

-- `str.isdigit` on ASCII, and `int` of such a text.
unfoldable pub is_digits : Text → Bool
is_digits [] = false
is_digits (c ∷ []) = leb b'0' c && leb c b'9'
is_digits (c ∷ d ∷ s) = leb b'0' c && leb c b'9' && is_digits (d ∷ s)

unfoldable pub digits_value : ℕ → Text → ℕ
digits_value acc [] = acc
digits_value acc (c ∷ s) = digits_value (acc * 10 + (c - b'0')) s

-- `telegram_id` as a positive integer: an int, or a text of digits.
unfoldable pub telegram_id_of : Value → Option ℤ
telegram_id_of (int n) = if ltb_ℤ (pos 0) n then some n else none
telegram_id_of (str s) =
    let n = digits_value 0 s in if is_digits s && ltb 0 n then some (pos n) else none
telegram_id_of _ = none

-- `str(telegram_username)[:64] if telegram_username else ""`
abbrev pub clean_username : Option Text → Text
clean_username none = []
clean_username (some s) = take 64 s

-- `WHERE request_id = ? AND status = 'pending' AND used_at IS NULL AND expires_at > ?`
abbrev pub approvable : ℕ → Text → Challenge → Bool
approvable now i r =
    eq_text r.request_id i
    && eq_status r.status pending
    && not (is_some r.used_at)
    && ltb now r.expires_at

abbrev pub to_approved : ℕ → ℤ → Text → Challenge → Challenge
to_approved now tid username r = record r {
  status = approved;
  telegram_id = some tid;
  telegram_username = some username;
  approved_at = some now;
}

-- The answer when the UPDATE changed no row.
unfoldable pub race_answer : Option Challenge → Approval
race_answer none = failed
race_answer (some r) =
    if eq_status r.status approved || is_some r.telegram_id then already_bound else failed

unfoldable pub approve_update : ℕ → Text → ℤ → Text → List Challenge → Approval × List Challenge
approve_update now i tid username t =
    let t' = update_where (approvable now i) (to_approved now tid username) t in
    if count_where (approvable now i) t == 1
    then (success tid, t')
    else (race_answer (find_where (with_request i) t'), t')

unfoldable pub approve_row :
    ℕ → Text → ℤ → Text → Option Challenge → List Challenge → Approval × List Challenge
approve_row now i tid username none t = (refused_not_found, t)
approve_row now i tid username (some r) t =
    if leb r.expires_at now
    then (refused_expired, t)
    else if is_some r.used_at || eq_status r.status used
    then (refused_used, t)
    else if eq_status r.status locked
    then (refused_locked, t)
    else if eq_status r.status approved || is_some r.telegram_id
    then (already_bound, t)
    else approve_update now i tid username t

unfoldable pub approve_checked :
    ℕ → Option Text → Option ℤ → Option Text → List Challenge → Approval × List Challenge
approve_checked now (some i) (some tid) username t =
    approve_row now i tid (clean_username username) (find_where (with_request i) t) t
approve_checked now _ _ username t = (refused_malformed, t)

-- `approve`, and its other name `bind`.
unfoldable pub approve :
    ℕ → Value → Value → Option Text → List Challenge → Approval × List Challenge
approve now request_id telegram_id username t =
    approve_checked now (request_id_of request_id) (telegram_id_of telegram_id) username t

-- `WHERE request_id = ? AND status = 'approved' AND used_at IS NULL AND expires_at > ?`
abbrev pub consumable : ℕ → Text → Challenge → Bool
consumable now i r =
    eq_text r.request_id i
    && eq_status r.status approved
    && not (is_some r.used_at)
    && ltb now r.expires_at

abbrev pub to_used : ℕ → Text → Challenge → Challenge
to_used now claim_token r = record r {
  status = used;
  used_at = some now;
  claim_token = some claim_token;
}

-- The exchange callback: `none` if there is none, and a session, no session, or an exception.
abbrev pub Exchange : Type 0
Exchange = Option (Payload → Result (Option Text))

-- The callback's outcome decides between the commit of `t'` and the rollback to `t`.
unfoldable pub exchanged :
    Challenge
    → Text
    → Result (Option Text)
    → List Challenge
    → List Challenge
    → Reply × List Challenge
exchanged r claim_token (raise e) t t' = (exchange_failed, t)
exchanged r claim_token (ok session) t t' =
    (consumed r.telegram_id (username_of r) claim_token session, t')

abbrev pub call_exchange : Exchange → Payload → Result (Option Text)
call_exchange none p = ok none
call_exchange (some callback) p = callback p

abbrev pub payload : Challenge → Text → Payload
payload r claim_token = record {
  request_id = r.request_id;
  telegram_id = r.telegram_id;
  telegram_username = username_of r;
  claim_token = claim_token;
}

unfoldable pub consume_update :
    ℕ → Text → Exchange → Challenge → List Challenge → Reply × List Challenge
consume_update now claim_token exchange r t =
    let p = consumable now r.request_id in
    if count_where p t == 0
    then (used_reply, t)
    else exchanged r claim_token (call_exchange exchange (payload r claim_token)) t
        (update_where p (to_used now claim_token) t)

unfoldable pub consume_verified :
    ℕ → Text → Exchange → Verified → List Challenge → Reply × List Challenge
consume_verified now claim_token exchange (rejected e) t = (e, t)
consume_verified now claim_token exchange (verified r) t =
    if leb r.expires_at now
    then (expired_reply, t)
    else if is_some r.used_at || eq_status r.status used
    then (used_reply, t)
    else if eq_status r.status pending
    then (pending_reply, t)
    else if not (eq_status r.status approved)
    then (status_only r.status, t)
    else consume_update now claim_token exchange r t

module _ (hash_secret : Text → Text → Text) (max_attempts : ℕ) where
  unfoldable pub consume :
      ℕ → Text → Exchange → Value → Value → List Challenge → Reply × List Challenge
  consume now claim_token exchange request_id poll_secret t =
      let (v, t') = verify hash_secret max_attempts request_id poll_secret t in
      consume_verified now claim_token exchange v t'
