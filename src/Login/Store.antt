-- ===== src/Login/Store.antt =====
-- `create`, `get_challenge`, `_verify_secret_and_get_row`, `poll` and `prune_expired` of
-- `BrowserLoginStore`, bot/onboarding_auth.py. The salted hash and the random texts are arguments.
use mosaicvpn.Prelude.{
  ℕ, suc, ◌+◌, ◌*◌, ◌-◌, Bool, true, ◌&&◌, ◌||◌, ◌==◌, Option, none, some, List, [], ◌∷◌, ◌++◌, leb,
  ltb, if◌then◌else◌, is_some, or_else,
}
use mosaicvpn.Prelude.Text.{Text, eq_text}
use mosaicvpn.Prelude.Table.{find_where, update_where, delete_where, count_where}
use mosaicvpn.Prelude.Value.{Value, str}
use mosaicvpn.Prelude.Result.{Result, ok, raise, integrity_error}
use mosaicvpn.Login.Types.{
  Status, pending, approved, used, expired, locked, eq_status, Challenge, Reply, malformed_input,
  not_found, locked_out, invalid_secret, expired_reply, used_reply, approved_reply, pending_reply,
  status_only, Metadata,
}

-- `[A-Za-z0-9_-]`
unfoldable pub url_safe : ℕ → Bool
url_safe c =
    leb b'A' c && leb c b'Z'
    || leb b'a' c && leb c b'z'
    || leb b'0' c && leb c b'9'
    || c == b'_'
    || c == b'-'

-- `^[A-Za-z0-9_-]*$`: in Python `$` also matches before a newline that ends the text.
unfoldable pub url_safe_line : Text → Bool
unfolding url_safe
url_safe_line [] = true
url_safe_line (c ∷ []) = url_safe c || c == 10
url_safe_line (c ∷ d ∷ s) = url_safe c && url_safe_line (d ∷ s)

-- The number of characters before such a newline.
unfoldable pub line_length : Text → ℕ
line_length [] = 0
line_length (c ∷ []) = if c == 10 then 0 else 1
line_length (c ∷ d ∷ s) = suc (line_length (d ∷ s))

-- `_RE_REQUEST_ID.match` and `_RE_POLL_SECRET.match`
abbrev pub is_request_id : Text → Bool
is_request_id s = url_safe_line s && leb 16 (line_length s) && leb (line_length s) 64

abbrev pub is_poll_secret : Text → Bool
is_poll_secret s = url_safe_line s && leb 16 (line_length s) && leb (line_length s) 128

unfoldable pub request_id_of : Value → Option Text
unfolding url_safe_line line_length
request_id_of (str s) = if is_request_id s then some s else none
request_id_of _ = none

unfoldable pub poll_secret_of : Value → Option Text
unfolding url_safe_line line_length
poll_secret_of (str s) = if is_poll_secret s then some s else none
poll_secret_of _ = none

abbrev pub with_request : Text → Challenge → Bool
with_request i r = eq_text r.request_id i

-- `row["telegram_username"] or ""`
abbrev pub username_of : Challenge → Text
username_of r = or_else r.telegram_username []

abbrev pub new_challenge : Text → Text → Text → ℕ → ℕ → Challenge
new_challenge request_id salt secret_hash now ttl = record {
  request_id = request_id;
  secret_hash = secret_hash;
  salt = salt;
  telegram_id = none;
  telegram_username = none;
  status = pending;
  issued_at = now;
  expires_at = now + ttl * 1000000;
  approved_at = none;
  used_at = none;
  claim_token = none;
  attempts = 0;
}

-- `get_challenge`: a pending challenge past its time is shown as expired.
abbrev pub shown_status : ℕ → Challenge → Status
shown_status now r =
    if leb r.expires_at now && eq_status r.status pending then expired else r.status

abbrev pub metadata : ℕ → Challenge → Metadata
metadata now r = record {
  request_id = r.request_id;
  telegram_id = r.telegram_id;
  telegram_username = username_of r;
  status = shown_status now r;
  issued_at = r.issued_at;
  expires_at = r.expires_at;
  approved_at = r.approved_at;
  used_at = r.used_at;
  is_live = eq_status (shown_status now r) pending && ltb now r.expires_at;
}

unfoldable pub metadata_of : ℕ → Option Challenge → Option Metadata
metadata_of now none = none
metadata_of now (some r) = some (metadata now r)

unfoldable pub get_selected : ℕ → Option Text → List Challenge → Option Metadata
get_selected now none t = none
get_selected now (some i) t = metadata_of now (find_where (with_request i) t)

unfoldable pub get_challenge : ℕ → Value → List Challenge → Option Metadata
get_challenge now request_id t = get_selected now (request_id_of request_id) t

-- The UPDATE after a wrong secret, from the row that was read.
abbrev pub failed_attempt : ℕ → Challenge → Challenge → Challenge
failed_attempt max_attempts read r = record r {
  attempts = read.attempts + 1;
  status = if leb max_attempts (read.attempts + 1) then locked else read.status;
}

-- The answer to a wrong secret: the lock, or the attempts that are left.
abbrev pub wrong_reply : ℕ → Challenge → Reply
wrong_reply max_attempts r =
    if leb max_attempts (r.attempts + 1)
    then locked_out
    else invalid_secret (max_attempts - (r.attempts + 1))

-- A secret that was checked: the row, or the answer that ends the call.
pub data Verified : Type 0 where
  verified : Challenge → Verified
  rejected : Reply → Verified

abbrev pub to_expired : Challenge → Challenge
to_expired r = record r { status = expired }

unfoldable pub poll_verified : ℕ → Verified → List Challenge → Reply × List Challenge
poll_verified now (rejected e) t = (e, t)
poll_verified now (verified r) t =
    if leb r.expires_at now
    then (
      expired_reply,
      (if eq_status r.status pending
          then update_where (with_request r.request_id) to_expired t
          else t),
    )
    else if is_some r.used_at || eq_status r.status used
    then (used_reply, t)
    else if eq_status r.status approved
    then (approved_reply r.telegram_id (username_of r), t)
    else if eq_status r.status pending
    then (pending_reply, t)
    else (status_only r.status, t)

module _ (hash_secret : Text → Text → Text) where
  -- `create`: the clashing request id is an IntegrityError.
  unfoldable pub create :
      ℕ → Text → Text → Text → ℕ → List Challenge → Result (Text × Text × ℕ × ℕ) × List Challenge
  create now request_id poll_secret salt ttl t =
      let new = new_challenge request_id salt (hash_secret poll_secret salt) now ttl in
      if is_some (find_where (with_request request_id) t)
      then (raise integrity_error, t)
      else (ok (request_id, poll_secret, ttl, new.expires_at), t ++ new ∷ [])

module _ (hash_secret : Text → Text → Text) (max_attempts : ℕ) where
  -- `_verify_secret_and_get_row` after its SELECT: the row may be older than the table that the
  -- UPDATE meets.
  unfoldable pub verify_row : Text → Challenge → List Challenge → Verified × List Challenge
  verify_row secret r t =
      if eq_status r.status locked || leb max_attempts r.attempts
      then (rejected locked_out, t)
      else if eq_text r.secret_hash (hash_secret secret r.salt)
      then (verified r, t)
      else (
        rejected (wrong_reply max_attempts r),
        update_where (with_request r.request_id) (failed_attempt max_attempts r) t,
      )

  unfoldable pub verify_selected :
      Text → Option Challenge → List Challenge → Verified × List Challenge
  verify_selected secret none t = (rejected not_found, t)
  verify_selected secret (some r) t = verify_row secret r t

  unfoldable pub verify_checked :
      Option Text → Option Text → List Challenge → Verified × List Challenge
  verify_checked (some i) (some secret) t = verify_selected secret (find_where (with_request i) t) t
  verify_checked _ _ t = (rejected malformed_input, t)

  unfoldable pub verify : Value → Value → List Challenge → Verified × List Challenge
  verify request_id poll_secret t =
      verify_checked (request_id_of request_id) (poll_secret_of poll_secret) t

  unfoldable pub poll : ℕ → Value → Value → List Challenge → Reply × List Challenge
  poll now request_id poll_secret t =
      let (v, t') = verify request_id poll_secret t in poll_verified now v t'

-- `prune_expired`: the row count, and the table without what expired `older` µs ago.
unfoldable pub prune_expired : ℕ → ℕ → List Challenge → ℕ × List Challenge
prune_expired now older t = (
  count_where (λ r. ltb (r.expires_at + older) now) t,
  delete_where (λ r. ltb (r.expires_at + older) now) t,
)
