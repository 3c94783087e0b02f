-- ===== src/Login/Steps.antt =====
-- A challenge of bot/onboarding_auth.py as a transition system: how the row of one request id may
-- change; and the runs of calls.
use mosaicvpn.Prelude.{
  ℕ, ◌+◌, [], ◌∷◌, ◌≤◌, ◌<◌, ◌≡◌, ◌≢◌, Bool, true, false, Option, none, some, List,
}
use mosaicvpn.Prelude.Int.{ℤ}
use mosaicvpn.Prelude.Text.{Text, eq_text}
use mosaicvpn.Prelude.Value.{Value}
use mosaicvpn.Prelude.Table.{find_where}
use mosaicvpn.Login.Types.{pending, approved, locked, Challenge}
use mosaicvpn.Login.Store.{
  with_request, failed_attempt, new_challenge, create, poll, prune_expired, to_expired,
}
use mosaicvpn.Login.Approve.{to_approved, approve, to_used, Exchange, consume}

module _ (max_attempts : ℕ) where
  -- How a row may change.
  pub data Edge (r : Challenge) : Challenge → Type 0 where
    by_failure :
        (read : Challenge)
        → read ≡ r
        → r.status ≢ locked
        → r.attempts < max_attempts
        → Edge r (failed_attempt max_attempts read r)
    by_expiry : (now : ℕ) → r.status ≡ pending → r.expires_at ≤ now → Edge r (to_expired r)
    by_approval :
        (now : ℕ) (tid : ℤ) (username : Text)
        → r.status ≡ pending
        → r.used_at ≡ none
        → now < r.expires_at
        → Edge r (to_approved now tid username r)
    by_use :
        (now : ℕ) (claim_token : Text)
        → r.status ≡ approved
        → r.used_at ≡ none
        → now < r.expires_at
        → Edge r (to_used now claim_token r)

  -- How the row of a request id may change: minted, if the call may mint it, moved along an edge, or
  -- pruned.
  pub data RowStep (can_mint : Bool) : Option Challenge → Option Challenge → Type 0 where
    stay : {o : Option Challenge} → RowStep can_mint o o
    minted :
        (i salt hash : Text) (now ttl : ℕ)
        → can_mint ≡ true
        → RowStep can_mint none (some (new_challenge i salt hash now ttl))
    moved : {r r' : Challenge} → Edge r r' → RowStep can_mint (some r) (some r')
    pruned :
        {r : Challenge} (now older : ℕ)
        → r.expires_at + older < now
        → RowStep can_mint (some r) none

-- No two rows share a request id.
abbrev pub AreDistinct : List Challenge → Type 0
AreDistinct [] = Unit
AreDistinct (r ∷ t) = (find_where (with_request r.request_id) t ≡ none) × AreDistinct t

-- The calls that may change the table, with the time and the random texts that they draw.
pub data Call : Type 0 where
  create_call : ℕ → Text → Text → Text → ℕ → Call
  poll_call : ℕ → Value → Value → Call
  approve_call : ℕ → Value → Value → Option Text → Call
  consume_call : ℕ → Text → Exchange → Value → Value → Call
  prune_call : ℕ → ℕ → Call

-- Only a `create` that draws the request id mints its row.
abbrev pub mints : Text → Call → Bool
mints i (create_call now j secret salt ttl) = eq_text j i
mints i _ = false

module _ (hash_secret : Text → Text → Text) (max_attempts : ℕ) where
  unfoldable pub after : Call → List Challenge → List Challenge
  after (create_call now i secret salt ttl) t = (create hash_secret now i secret salt ttl t).1
  after (poll_call now i secret) t = (poll hash_secret max_attempts now i secret t).1
  after (approve_call now i tid username) t = (approve now i tid username t).1
  after (consume_call now token exchange i secret) t =
      (consume hash_secret max_attempts now token exchange i secret t).1
  after (prune_call now older) t = (prune_expired now older t).1

  unfoldable pub run : List Call → List Challenge → List Challenge
  unfolding after
  run [] t = t
  run (c ∷ cs) t = run cs (after c t)
