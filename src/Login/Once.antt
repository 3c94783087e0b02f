-- ===== src/Login/Once.antt =====
-- `consume` of bot/onboarding_auth.py, once and repeated.
use mosaicvpn.Prelude.{
  ℕ, ◌≤◌, ◌<◌, ◌≡◌, ◌≢◌, ◌↔◌, ◌∙◌, refl, Bool, true, false, Option, none, some, List, [], ◌∷◌,
  arith, is_some, All, inl, inr, Option-cases,
}
use mosaicvpn.Prelude.Text.{Text, eq_text_refl, eq_text_iff}
use mosaicvpn.Prelude.Int.{ℤ}
use mosaicvpn.Prelude.Value.{Value}
use mosaicvpn.Prelude.Result.{is_ok, Result, ok, raise}
use mosaicvpn.Prelude.Table.{find_where, update_where, find-update, count_of_found, count_where}
use mosaicvpn.Login.Types.{approved, Challenge, Reply, consumed}
use mosaicvpn.Login.Store.{
  with_request, request_id_of, poll_secret_of, verify_row, verify_selected, verify_checked, verify,
  verified,
}
use mosaicvpn.Login.Approve.{
  Exchange, call_exchange, payload, exchanged, consumable, to_used, consume_update,
  consume_verified, consume,
}
use mosaicvpn.Login.Steps.{
  Edge, by_failure, by_expiry, by_approval, by_use, RowStep, stay, minted, moved, pruned,
  AreDistinct, Call, consume_call, mints, after, run,
}
use mosaicvpn.Login.Verify.{verify_row-cases}
use mosaicvpn.Login.Refines.{after-RowStep, after-AreDistinct}

abbrev pub is_consumed : Reply → Bool
is_consumed (consumed tid name token session) = true
is_consumed _ = false

-- The account of a consumed challenge.
abbrev pub who : Reply → Option (Option ℤ)
who (consumed tid name token session) = some tid
who _ = none

-- The challenge may be consumed: by its secret, approved, unused, in time and not locked.
pub record IsReady (hash : Text → Text → Text) (max_attempts now : ℕ) (secret : Text)
    (r : Challenge) : Type 0 where
  pub secret_fits : r.secret_hash ≡ hash secret r.salt
  pub room : r.attempts < max_attempts
  pub is_approved : r.status ≡ approved
  pub unused : r.used_at ≡ none
  pub live : now < r.expires_at

module _ (hash : Text → Text → Text) (max_attempts now : ℕ) (claim_token : Text)
    (exchange : Exchange) where
  consume_verified-needs :
      (r : Challenge) (t : List Challenge)
      → is_consumed (consume_verified now claim_token exchange (verified r) t).0 ≡ true
      → (r.status ≡ approved)
        × (r.used_at ≡ none)
        × (now < r.expires_at)
        × (is_ok (call_exchange exchange (payload r claim_token)) ≡ true)
        × ((consume_verified now claim_token exchange (verified r) t).1
            ≡ update_where (consumable now r.request_id) (to_used now claim_token) t)
  unfolding consume_verified consume_update exchanged
  consume_verified-needs r t h = by_outcome (call_exchange exchange (payload r claim_token)) refl
    where
      by_outcome :
          (o : Result (Option Text))
          → call_exchange exchange (payload r claim_token) ≡ o
          → (r.status ≡ approved)
            × (r.used_at ≡ none)
            × (now < r.expires_at)
            × (is_ok (call_exchange exchange (payload r claim_token)) ≡ true)
            × ((consume_verified now claim_token exchange (verified r) t).1
                ≡ update_where (consumable now r.request_id) (to_used now claim_token) t)
      by_outcome (ok s) e = ground arith
      by_outcome (raise x) e = absurd (ground arith)

  consume_verified-gives :
      (r : Challenge) (t : List Challenge)
      → 1 ≤ count_where (consumable now r.request_id) t
      → r.status ≡ approved
      → r.used_at ≡ none
      → now < r.expires_at
      → is_ok (call_exchange exchange (payload r claim_token)) ≡ true
      → is_consumed (consume_verified now claim_token exchange (verified r) t).0 ≡ true
  unfolding consume_verified consume_update exchanged
  consume_verified-gives r t one p unused live fine =
      by_outcome (call_exchange exchange (payload r claim_token)) refl
    where
      by_outcome :
          (o : Result (Option Text))
          → call_exchange exchange (payload r claim_token) ≡ o
          → is_consumed (consume_verified now claim_token exchange (verified r) t).0 ≡ true
      by_outcome (ok s) e = ground arith
      by_outcome (raise x) e = absurd (ground arith)

  consume_checked-takes :
      (j secret : Text) (t : List Challenge)
      → let (v, t') = verify_checked hash max_attempts (some j) (some secret) t in
        let out = consume_verified now claim_token exchange v t' in
        is_consumed out.0 ≡ true
        → (r : Challenge) × (find_where (with_request j) t ≡ some r)
          × IsReady hash max_attempts now secret r
          × (is_ok (call_exchange exchange (payload r claim_token)) ≡ true)
          × (find_where (with_request j) out.1 ≡ some (to_used now claim_token r))
  unfolding verify_checked verify_selected
  consume_checked-takes j secret t = elim (Option-cases (find_where (with_request j) t)) [
    | inl absent ↦ rw absent (λ h. absurd (unfold consume_verified in ground arith))
    | inr (r, found) ↦ elim (verify_row-cases hash max_attempts secret r t) [
      | inl dead ↦ rw (found, dead) (λ h. absurd (unfold consume_verified in cc))
      | inr (inl (live, room, fits, passed)) ↦
          rw (found, passed)
            λ h.
              let (p, unused, early, fine, table) = consume_verified-needs r t h in
              let hit : consumable now r.request_id r ≡ true =
                ground (arith, eq_text_refl r.request_id) in
              (
                r,
                refl,
                record {
                  secret_fits = fits;
                  room = room;
                  is_approved = p;
                  unused = unused;
                  live = early;
                },
                fine,
                rw table (
                    find-update (with_request j) (consumable now r.request_id)
                      (to_used now claim_token) (λ x. refl) t
                    ∙ rw (found, hit) refl),
              )
      | inr (inr (live, room, _, wrong)) ↦
          rw (found, wrong) (λ h. absurd (unfold consume_verified in ground arith))
    ]
  ]

verify_row-passes :
    (hash : Text → Text → Text) (m now : ℕ) (secret : Text) (r : Challenge) (t : List Challenge)
    → IsReady hash m now secret r
    → verify_row hash m secret r t ≡ (verified r, t)
unfolding verify_row
verify_row-passes hash m now secret r t ready =
    ground (arith, eq_text_iff r.secret_hash (hash secret r.salt))

-- With a well-formed request id and secret, `consume` answers that the challenge is consumed exactly
-- when its row is there, the secret fits, the attempts are below the limit, and it is approved,
-- unused and in time, and the exchange callback, if there is one, raises nothing.
pub consume-consumed_iff :
    (hash : Text → Text → Text) (max_attempts now : ℕ) (claim_token : Text) (exchange : Exchange)
    (iv sv : Value) {j secret : Text} (t : List Challenge)
    → request_id_of iv ≡ some j
    → poll_secret_of sv ≡ some secret
    → (is_consumed (consume hash max_attempts now claim_token exchange iv sv t).0 ≡ true) ↔ (
        (r : Challenge) × (find_where (with_request j) t ≡ some r)
        × IsReady hash max_attempts now secret r
        × (is_ok (call_exchange exchange (payload r claim_token)) ≡ true))
unfolding consume verify
consume-consumed_iff hash m now token exchange iv sv {j} {secret} t ej es =
    rw (ej, es)
      (
        (λ h.
            let (r, found, ready, fine, _) =
              consume_checked-takes hash m now token exchange j secret t h in
            (r, found, ready, fine)),
        (λ (r, found, ready, fine).
            let passed = verify_row-passes hash m now secret r t ready in
            let hit : consumable now r.request_id r ≡ true =
              ground (arith, eq_text_refl r.request_id) in
            let one : 1 ≤ count_where (consumable now r.request_id) t =
              count_of_found (with_request j) (consumable now r.request_id) t found hit in
            unfold verify_checked verify_selected in
            rw (found, passed)
              (consume_verified-gives hash m now token exchange r t one ready.is_approved
                ready.unused ready.live fine)),
      )

-- The row of a request id is gone, or used.
abbrev pub Spent : Option Challenge → Type 0
Spent none = Unit
Spent (some r) = is_some r.used_at ≡ true

Edge-Spent :
    {m : ℕ} {r r' : Challenge} → Edge m r r' → is_some r.used_at ≡ true → is_some r'.used_at ≡ true
Edge-Spent (by_failure read same live room) h = h
Edge-Spent (by_expiry now p late) h = h
Edge-Spent (by_approval now tid username p unused live) h = h
Edge-Spent (by_use now token p unused live) h = refl

RowStep-Spent :
    {m : ℕ} {b : Bool} {o o' : Option Challenge} → b ≡ false → RowStep m b o o' → Spent o → Spent o'
RowStep-Spent f stay s = s
RowStep-Spent f (minted i salt hash now ttl allowed) s = absurd (ground arith)
RowStep-Spent f (moved e) s = Edge-Spent e s
RowStep-Spent f (pruned now older gone) s = tt

run-Spent :
    (hash : Text → Text → Text) (m : ℕ) (cs : List Call) (t : List Challenge) (i : Text)
    → AreDistinct t
    → All (λ c. mints i c ≡ false) cs
    → Spent (find_where (with_request i) t)
    → Spent (find_where (with_request i) (run hash m cs t))
unfolding run
run-Spent hash m [] t i d f s = s
run-Spent hash m (c ∷ cs) t i d f s =
    run-Spent hash m cs (after hash m c t) i (after-AreDistinct hash m c t d) f.1
      (RowStep-Spent f.0 (after-RowStep hash m c t i d) s)

consume-takes :
    (hash : Text → Text → Text) (m now : ℕ) (token : Text) (exchange : Exchange) (iv sv : Value)
    {j secret : Text} (t : List Challenge)
    → request_id_of iv ≡ some j
    → poll_secret_of sv ≡ some secret
    → is_consumed (consume hash m now token exchange iv sv t).0 ≡ true
    → (r : Challenge) × (find_where (with_request j) t ≡ some r)
      × IsReady hash m now secret r
      × (find_where (with_request j) (consume hash m now token exchange iv sv t).1
          ≡ some (to_used now token r))
unfolding consume verify
consume-takes hash m now token exchange iv sv {j} {secret} t ej es =
    rw (ej, es)
      λ h.
        let (r, found, ready, _, used_row) =
          consume_checked-takes hash m now token exchange j secret t h in
        (r, found, ready, used_row)

consume-AreDistinct :
    (hash : Text → Text → Text) (m now : ℕ) (token : Text) (exchange : Exchange) (iv sv : Value)
    (t : List Challenge)
    → AreDistinct t
    → AreDistinct (consume hash m now token exchange iv sv t).1
unfolding after
consume-AreDistinct hash m now token exchange iv sv t d =
    after-AreDistinct hash m (consume_call now token exchange iv sv) t d

-- A challenge is consumed once: in a table with distinct request ids, after a `consume` that answered
-- that the challenge is consumed, no `consume` of the same request id answers so again, with any
-- secret and callback and at any time, after any run of calls that does not mint the same random
-- request id anew.
pub consumed_once :
    (hash : Text → Text → Text) (max_attempts now now' : ℕ) (token token' : Text)
    (exchange exchange' : Exchange) (iv sv sv' : Value) {j secret secret' : Text} (cs : List Call)
    (t : List Challenge)
    → request_id_of iv ≡ some j
    → poll_secret_of sv ≡ some secret
    → poll_secret_of sv' ≡ some secret'
    → AreDistinct t
    → All (λ c. mints j c ≡ false) cs
    → let (reply, t') = consume hash max_attempts now token exchange iv sv t in
      is_consumed reply ≡ true
      → is_consumed
          (consume hash max_attempts now' token' exchange' iv sv' (run hash max_attempts cs t')).0
        ≢ true
consumed_once hash m now now' token token' exchange exchange' iv sv sv' {j} cs t ej es es' d fresh h
      again =
    let t1 = (consume hash m now token exchange iv sv t).1 in
    let (r, _, _, used_row) = consume-takes hash m now token exchange iv sv t ej es h in
    let spent : Spent (find_where (with_request j) t1) = rw used_row refl in
    let later =
      run-Spent hash m cs t1 j (consume-AreDistinct hash m now token exchange iv sv t d) fresh
        spent in
    let (r', found, ready, _) =
      consume-takes hash m now' token' exchange' iv sv' (run hash m cs t1) ej es' again in
    let was_used : Spent (some r') = rw found at later in let unused = ready.unused in ground arith
