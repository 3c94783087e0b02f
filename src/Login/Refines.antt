-- ===== src/Login/Refines.antt =====
-- The methods of bot/onboarding_auth.py against the transition system of a challenge.
use mosaicvpn.Prelude.{
  ℕ, ◌<◌, ◌≤◌, ◌≡◌, ◌≢◌, ◌⊎◌, refl, Bool, none, some, List, arith, inl, inr, Bool-cases, leb, ltb,
  Option, Option-cases, sym, ◌+◌, [], ◌∷◌, ◌++◌,
}
use mosaicvpn.Prelude.Int.{ℤ}
use mosaicvpn.Prelude.Text.{Text, eq_text}
use mosaicvpn.Prelude.Result.{Result, ok, raise}
use mosaicvpn.Prelude.Table.{find_where, update_where, find-append, find-append_new}
use mosaicvpn.Login.Types.{Challenge, pending, locked, eq_status}
use mosaicvpn.Login.Store.{
  with_request, failed_attempt, verified, verify_selected, verify_checked, verify, poll_verified,
  poll, to_expired, create, new_challenge, prune_expired,
}
use mosaicvpn.Login.Approve.{
  approvable, to_approved, approve_update, approve_row, approve_checked, approve, consumable,
  to_used, Exchange, exchanged, call_exchange, payload, consume_update, consume_verified, consume,
}
use mosaicvpn.Login.Steps.{
  by_failure, by_expiry, by_approval, by_use, RowStep, stay, minted, pruned, AreDistinct, Call,
  create_call, poll_call, approve_call, consume_call, prune_call, mints, after,
}
use mosaicvpn.Login.Rows.{
  same_row, update-RowStep, find-delete, unless_deleted, AreDistinct-update, AreDistinct-append,
  AreDistinct-delete,
}
use mosaicvpn.Login.Verify.{verify_row-cases}

module _ (hash_secret : Text → Text → Text) (max_attempts : ℕ) (can_mint : Bool) (i : Text) where
  abbrev Moves : List Challenge → List Challenge → Type 0
  Moves t t' =
      RowStep max_attempts can_mint (find_where (with_request i) t) (find_where (with_request i) t')
      × (AreDistinct t → AreDistinct t')

  still : (t : List Challenge) → Moves t t
  still t = (stay, λ d. d)

  failure-Moves :
      (j : Text) (r : Challenge) (t : List Challenge)
      → find_where (with_request j) t ≡ some r
      → r.status ≢ locked
      → r.attempts < max_attempts
      → Moves t (update_where (with_request r.request_id) (failed_attempt max_attempts r) t)
  failure-Moves j r t found live room = (
    update-RowStep max_attempts can_mint i _ _ t (λ x. refl)
        (λ x hx e.
          let same : x ≡ r = same_row t i j hx found e in
          by_failure r (sym same) (rw same live) (rw same room)),
    AreDistinct-update _ _ (λ x. refl) t,
  )

  expiry-Moves :
      (now : ℕ) (j : Text) (r : Challenge) (t : List Challenge)
      → find_where (with_request j) t ≡ some r
      → r.status ≡ pending
      → r.expires_at ≤ now
      → Moves t (update_where (with_request r.request_id) to_expired t)
  expiry-Moves now j r t found p late = (
    update-RowStep max_attempts can_mint i _ _ t (λ x. refl)
        (λ x hx e.
          let same : x ≡ r = same_row t i j hx found e in by_expiry now (rw same p) (rw same late)),
    AreDistinct-update _ _ (λ x. refl) t,
  )

  -- A call that leaves the table alone.
  same-Moves : (t t' : List Challenge) → t' ≡ t → Moves t t'
  same-Moves t t' e = rw e (still t)

  poll_verified-Moves :
      (now : ℕ) (j : Text) (r : Challenge) (t : List Challenge)
      → find_where (with_request j) t ≡ some r
      → Moves t (poll_verified now (verified r) t).1
  unfolding poll_verified
  poll_verified-Moves now j r t found = elim (Bool-cases (leb r.expires_at now)) [
    | inr live ↦ same-Moves t (poll_verified now (verified r) t).1 (ground arith)
    | inl late ↦ elim (Bool-cases (eq_status r.status pending)) [
      | inl p ↦ rw (late, p) (expiry-Moves now j r t found (ground arith) (ground arith))
      | inr p ↦ rw (late, p) (still t)
    ]
  ]

  poll_checked-Moves :
      (now : ℕ) (oj os : Option Text) (t : List Challenge)
      → let (v, t') = verify_checked hash_secret max_attempts oj os t in
        Moves t (poll_verified now v t').1
  unfolding verify_checked verify_selected poll_verified
  poll_checked-Moves now none os t = still t
  poll_checked-Moves now (some j) none t = still t
  poll_checked-Moves now (some j) (some secret) t =
      elim (Option-cases (find_where (with_request j) t)) [
        | inl absent ↦ rw absent (still t)
        | inr (r, found) ↦ elim (verify_row-cases hash_secret max_attempts secret r t) [
          | inl dead ↦ rw (found, dead) (still t)
          | inr (inl (_, _, _, passed)) ↦ rw (found, passed) (poll_verified-Moves now j r t found)
          | inr (inr (live, room, _, wrong)) ↦
              rw (found, wrong) (failure-Moves j r t found live room)
        ]
      ]

  approve_update-Moves :
      (now : ℕ) (j : Text) (tid : ℤ) (name : Text) (t : List Challenge)
      → Moves t (update_where (approvable now j) (to_approved now tid name) t)
  approve_update-Moves now j tid name t = (
    update-RowStep max_attempts can_mint i _ _ t (λ x. refl)
        (λ x hx e. by_approval now tid name (ground arith) (ground arith) (ground arith)),
    AreDistinct-update _ _ (λ x. refl) t,
  )

  approve_row-Moves :
      (now : ℕ) (j : Text) (tid : ℤ) (name : Text) (o : Option Challenge) (t : List Challenge)
      → Moves t (approve_row now j tid name o t).1
  unfolding approve_row approve_update
  approve_row-Moves now j tid name none t = still t
  approve_row-Moves now j tid name (some r) t =
      let out = approve_row now j tid name (some r) t in
      let two : (out.1 ≡ t)
          ⊎ (out.1 ≡ update_where (approvable now j) (to_approved now tid name) t) =
        ground arith in
      elim two [
        | inl e ↦ same-Moves t out.1 e
        | inr e ↦ rw e (approve_update-Moves now j tid name t)
      ]

  approve_checked-Moves :
      (now : ℕ) (oj : Option Text) (ot : Option ℤ) (name : Option Text) (t : List Challenge)
      → Moves t (approve_checked now oj ot name t).1
  unfolding approve_checked
  approve_checked-Moves now none ot name t = still t
  approve_checked-Moves now (some j) none name t = still t
  approve_checked-Moves now (some j) (some tid) name t = approve_row-Moves now j tid _ _ t

  use-Moves :
      (now : ℕ) (token j : Text) (t : List Challenge)
      → Moves t (update_where (consumable now j) (to_used now token) t)
  use-Moves now token j t = (
    update-RowStep max_attempts can_mint i _ _ t (λ x. refl)
        (λ x hx e. by_use now token (ground arith) (ground arith) (ground arith)),
    AreDistinct-update _ _ (λ x. refl) t,
  )

  -- `consume` behind the check of the secret leaves the table, or uses the challenge.
  consume_verified-two :
      (now : ℕ) (token : Text) (exchange : Exchange) (r : Challenge) (t : List Challenge)
      → let t' = (consume_verified now token exchange (verified r) t).1 in
        (t' ≡ t) ⊎ (t' ≡ update_where (consumable now r.request_id) (to_used now token) t)
  unfolding consume_verified consume_update exchanged
  consume_verified-two now token exchange r t =
      by_outcome (call_exchange exchange (payload r token)) refl
    where
      by_outcome :
          (o : Result (Option Text))
          → call_exchange exchange (payload r token) ≡ o
          → let t' = (consume_verified now token exchange (verified r) t).1 in
            (t' ≡ t) ⊎ (t' ≡ update_where (consumable now r.request_id) (to_used now token) t)
      by_outcome (ok s) e = ground arith
      by_outcome (raise x) e = ground arith

  consume_checked-Moves :
      (now : ℕ) (token : Text) (exchange : Exchange) (oj os : Option Text) (t : List Challenge)
      → let (v, t') = verify_checked hash_secret max_attempts oj os t in
        Moves t (consume_verified now token exchange v t').1
  unfolding verify_checked verify_selected consume_verified
  consume_checked-Moves now token exchange none os t = still t
  consume_checked-Moves now token exchange (some j) none t = still t
  consume_checked-Moves now token exchange (some j) (some secret) t =
      elim (Option-cases (find_where (with_request j) t)) [
        | inl absent ↦ rw absent (still t)
        | inr (r, found) ↦ elim (verify_row-cases hash_secret max_attempts secret r t) [
          | inl dead ↦ rw (found, dead) (still t)
          | inr (inl (_, _, _, passed)) ↦
              rw (found, passed)
                (elim (consume_verified-two now token exchange r t) [
                  | inl e ↦ same-Moves t (consume_verified now token exchange (verified r) t).1 e
                  | inr e ↦ rw e (use-Moves now token r.request_id t)
                ])
          | inr (inr (live, room, _, wrong)) ↦
              rw (found, wrong) (failure-Moves j r t found live room)
        ]
      ]

  mint-RowStep :
      (j salt hash : Text) (now ttl : ℕ) (t : List Challenge)
      → eq_text j i ≡ can_mint
      → RowStep max_attempts can_mint
          (find_where (with_request i) t)
          (find_where (with_request i) (t ++ new_challenge j salt hash now ttl ∷ []))
  mint-RowStep j salt hash now ttl t e =
      let new = new_challenge j salt hash now ttl in
      elim (Option-cases (find_where (with_request i) t)) [
        | inr (x, here) ↦ rw (find-append (with_request i) t new here, here) stay
        | inl absent ↦
            rw (find-append_new (with_request i) t new absent, absent)
              (elim (Bool-cases (with_request i new)) [
                | inl own ↦ rw own (minted j salt hash now ttl (ground arith))
                | inr other ↦ rw other stay
              ])
      ]

  create-Moves :
      (now : ℕ) (j secret salt : Text) (ttl : ℕ) (t : List Challenge)
      → eq_text j i ≡ can_mint
      → Moves t (create hash_secret now j secret salt ttl t).1
  unfolding create
  create-Moves now j secret salt ttl t e = elim (Option-cases (find_where (with_request j) t)) [
    | inr (r, taken) ↦ rw taken (still t)
    | inl free ↦
        let new = new_challenge j salt (hash_secret secret salt) now ttl in
        rw free
          (mint-RowStep j salt (hash_secret secret salt) now ttl t e, AreDistinct-append new t free)
  ]

  prune-Moves :
      (now older : ℕ) (t : List Challenge) → AreDistinct t → Moves t (prune_expired now older t).1
  unfolding prune_expired
  prune-Moves now older t d = (
    rw (find-delete _ i t d) (by_row (find_where (with_request i) t)),
    AreDistinct-delete (λ r. ltb (r.expires_at + older) now) t,
  )
    where
      by_row :
          (o : Option Challenge)
          → RowStep max_attempts can_mint o (unless_deleted (λ r. ltb (r.expires_at + older) now) o)
      by_row none = stay
      by_row (some r) = elim (Bool-cases (ltb (r.expires_at + older) now)) [
        | inl gone ↦ rw gone (pruned now older (ground arith))
        | inr kept ↦ rw kept stay
      ]

after-Moves :
    (hash : Text → Text → Text) (m : ℕ) (c : Call) (t : List Challenge) (i : Text)
    → AreDistinct t
    → Moves hash m (mints i c) i t (after hash m c t)
unfolding after poll approve consume verify
after-Moves hash m (create_call now j secret salt ttl) t i d =
    create-Moves hash m _ i now j secret salt ttl t refl
after-Moves hash m (poll_call now j secret) t i d = poll_checked-Moves hash m _ i now _ _ t
after-Moves hash m (approve_call now j tid name) t i d =
    approve_checked-Moves hash m _ i now _ _ name t
after-Moves hash m (consume_call now token exchange j secret) t i d =
    consume_checked-Moves hash m _ i now token exchange _ _ t
after-Moves hash m (prune_call now older) t i d = prune-Moves hash m _ i now older t d

-- In a table with distinct request ids, whatever the call, its arguments, the time and the random
-- texts, the row of each request id is left alone, minted as a fresh pending challenge
-- (only by a `create` that draws this id), pruned
-- after its expiry, or moved along an edge: a wrong secret counted, expiry of a pending challenge,
-- approval of a live pending one, or use of a live approved one.
pub after-RowStep :
    (hash : Text → Text → Text) (max_attempts : ℕ) (c : Call) (t : List Challenge) (i : Text)
    → AreDistinct t
    → RowStep max_attempts
        (mints i c)
        (find_where (with_request i) t)
        (find_where (with_request i) (after hash max_attempts c t))
after-RowStep hash m c t i d = (after-Moves hash m c t i d).0

pub after-AreDistinct :
    (hash : Text → Text → Text) (m : ℕ) (c : Call) (t : List Challenge)
    → AreDistinct t
    → AreDistinct (after hash m c t)
after-AreDistinct hash m c t d = (after-Moves hash m c t [] d).1 d
