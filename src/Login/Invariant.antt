-- ===== src/Login/Invariant.antt =====
-- The fields of a challenge of bot/onboarding_auth.py, along runs of calls.
use mosaicvpn.Prelude.{
  ℕ, ◌≤◌, ◌<◌, ◌≡◌, Bool, true, false, not, ◌||◌, Option, none, some, List, [], ◌∷◌, arith, is_some,
  leb,
}
use mosaicvpn.Prelude.Text.{Text}
use mosaicvpn.Prelude.Table.{find_where}
use mosaicvpn.Login.Types.{pending, approved, used, expired, locked, eq_status, Challenge}
use mosaicvpn.Login.Store.{with_request}
use mosaicvpn.Login.Steps.{
  Edge, by_failure, by_expiry, by_approval, by_use, RowStep, stay, minted, moved, pruned,
  AreDistinct, Call, after, run,
}
use mosaicvpn.Login.Refines.{after-RowStep, after-AreDistinct}

abbrev pub implies : Bool → Bool → Bool
implies true b = b
implies false b = true

-- The attempts stay within the limit and the lock agrees with them; a bound account, a use and a
-- claim token stand exactly where the status allows them.
pub record IsConsistent (max_attempts : ℕ) (r : Challenge) : Type 0 where
  pub few : r.attempts ≤ max_attempts
  pub lock : eq_status r.status locked ≡ leb max_attempts r.attempts
  pub unbound :
      implies
        (eq_status r.status pending || eq_status r.status expired)
        (not (is_some r.telegram_id))
      ≡ true
  pub bound :
      implies
        (eq_status r.status approved || eq_status r.status used || is_some r.used_at)
        (is_some r.telegram_id)
      ≡ true
  pub claim : is_some r.claim_token ≡ is_some r.used_at
  pub use_time : implies (eq_status r.status used) (is_some r.used_at) ≡ true
  pub use_status :
      implies (is_some r.used_at) (eq_status r.status used || eq_status r.status locked) ≡ true

abbrev pub Consistent : ℕ → Option Challenge → Type 0
Consistent max_attempts none = Unit
Consistent max_attempts (some r) = IsConsistent max_attempts r

module _ (max_attempts : ℕ) (some_attempt : 0 < max_attempts) where
  Edge-IsConsistent :
      {r r' : Challenge}
      → Edge max_attempts r r'
      → IsConsistent max_attempts r
      → IsConsistent max_attempts r'
  Edge-IsConsistent {r} (by_failure read same live room) c = rw same (ground arith)
  Edge-IsConsistent (by_expiry now p late) c = ground arith
  Edge-IsConsistent (by_approval now tid username p unused live) c = ground arith
  Edge-IsConsistent (by_use now token p unused live) c = ground arith

  RowStep-Consistent :
      {b : Bool} {o o' : Option Challenge}
      → RowStep max_attempts b o o'
      → Consistent max_attempts o
      → Consistent max_attempts o'
  RowStep-Consistent stay c = c
  RowStep-Consistent (minted i salt hash now ttl ok) c = ground arith
  RowStep-Consistent (moved e) c = Edge-IsConsistent e c
  RowStep-Consistent (pruned now older gone) c = tt

  -- With a positive limit, from a table with distinct request ids and for each request id: if its row
  -- is consistent, it is after every run of calls, so that attempts never pass the limit, a challenge
  -- is locked exactly when they reach it, a pending or expired challenge is bound to no account, an
  -- approved or used one is bound to one, and a use comes with its claim token.
  pub run-Consistent :
      (hash : Text → Text → Text) (cs : List Call) (t : List Challenge) (i : Text)
      → AreDistinct t
      → Consistent max_attempts (find_where (with_request i) t)
      → Consistent max_attempts (find_where (with_request i) (run hash max_attempts cs t))
  unfolding run
  run-Consistent hash [] t i d c = c
  run-Consistent hash (k ∷ cs) t i d c =
      run-Consistent hash cs (after hash max_attempts k t) i
        (after-AreDistinct hash max_attempts k t d)
        (RowStep-Consistent (after-RowStep hash max_attempts k t i d) c)
