-- ===== src/Login/Binding.antt =====
-- The account of an approved challenge of bot/onboarding_auth.py, along runs of calls.
use mosaicvpn.Prelude.{
  ℕ, ◌<◌, ◌≡◌, ◌≢◌, ◌∙◌, refl, Bool, true, false, Option, none, some, List, [], ◌∷◌, arith, All,
  inl, inr, Option-cases, Bool-cases, if◌then◌else◌, ap,
}
use mosaicvpn.Prelude.Text.{Text, eq_text_iff}
use mosaicvpn.Prelude.Int.{ℤ}
use mosaicvpn.Prelude.Value.{Value}
use mosaicvpn.Prelude.Result.{Result, ok, raise}
use mosaicvpn.Prelude.Table.{
  find_where, update_where, find-update, find-holds, find-none, count_where, count_of_none,
}
use mosaicvpn.Login.Types.{pending, eq_status, Challenge, success}
use mosaicvpn.Login.Store.{
  with_request, request_id_of, verify, verify_checked, verify_selected, verified, poll_secret_of,
}
use mosaicvpn.Login.Approve.{
  Exchange, consume, call_exchange, payload, exchanged, consume_update, consume_verified,
  telegram_id_of, clean_username, approvable, to_approved, approve_update, approve_row,
  approve_checked, approve, race_answer,
}
use mosaicvpn.Login.Steps.{
  Edge, by_failure, by_expiry, by_approval, by_use, RowStep, stay, minted, moved, pruned,
  AreDistinct, Call, approve_call, mints, after, run,
}
use mosaicvpn.Login.Refines.{after-RowStep, after-AreDistinct}
use mosaicvpn.Login.Verify.{verify_row-cases}
use mosaicvpn.Login.Once.{is_consumed, who}

-- A statement on one request id changes one row at most.
count-own :
    (p : Challenge → Bool) (j : Text)
    → ((r : Challenge) → p r ≡ true → with_request j r ≡ true)
    → (t : List Challenge) {r : Challenge} → AreDistinct t
    → find_where (with_request j) t ≡ some r
    → count_where p t ≡ (if p r then 1 else 0)
count-own p j own [] d found = absurd (ground arith)
count-own p j own (x ∷ t) {r} d found = elim (Bool-cases (with_request j x)) [
  | inl e ↦
      let same : x ≡ r = ground arith in
      let xj : x.request_id ≡ j = (eq_text_iff _ _).0 e in
      let last : find_where (with_request j) t ≡ none = rw (← xj) d.0 in
      let gone = count_of_none p t (find-none p (with_request j) own t last) in
      rw (← same) (ground arith)
  | inr e ↦ ground (arith, own x, count-own p j own t {r = r} d.1 (ground arith))
]

race_answer-fails : (o : Option Challenge) (tid : ℤ) → race_answer o ≢ success tid
unfolding race_answer
race_answer-fails none tid e = ground arith
race_answer-fails (some r) tid e = ground arith

module _ (now : ℕ) (j : Text) (tid : ℤ) (name : Text) where
  approve_row-needs :
      (r : Challenge) (t : List Challenge)
      → AreDistinct t
      → find_where (with_request j) t ≡ some r
      → (approve_row now j tid name (some r) t).0 ≡ success tid
      → (r.status ≡ pending)
        × (r.used_at ≡ none)
        × (r.telegram_id ≡ none)
        × (now < r.expires_at)
        × ((approve_row now j tid name (some r) t).1
            ≡ update_where (approvable now j) (to_approved now tid name) t)
  unfolding approve_row approve_update
  approve_row-needs r t d found h =
      let one = count-own (approvable now j) j (λ x e. ground arith) t {r = r} d found in
      let t' = update_where (approvable now j) (to_approved now tid name) t in
      let lost = race_answer-fails (find_where (with_request j) t') tid in
      elim (Bool-cases (approvable now j r)) [
        | inl ready ↦ (
          ground arith,
          ground arith,
          elim (Option-cases r.telegram_id) [
            | inl free ↦ free
            | inr (x, bound) ↦ absurd (ground arith)
          ],
          ground arith,
          ground arith,
        )
        | inr other ↦ absurd (ground arith)
      ]

  -- What a successful approval leaves in the row.
  approve_row-leaves :
      (r : Challenge) (t : List Challenge)
      → AreDistinct t
      → find_where (with_request j) t ≡ some r
      → (approve_row now j tid name (some r) t).0 ≡ success tid
      → find_where (with_request j) (approve_row now j tid name (some r) t).1
        ≡ some (to_approved now tid name r)
  approve_row-leaves r t d found h =
      let (p, unused, _, live, table) = approve_row-needs r t d found h in
      let own = find-holds (with_request j) t {r = r} found in
      let hit : approvable now j r ≡ true = ground arith in
      rw table (
        find-update (with_request j) (approvable now j) (to_approved now tid name) (λ x. refl) t
        ∙ rw (found, hit) refl)

-- The row of a request id is gone, or bound to the account and not pending.
abbrev pub BoundTo : ℤ → Option Challenge → Type 0
BoundTo tid none = Unit
BoundTo tid (some r) = (r.telegram_id ≡ some tid) × (eq_status r.status pending ≡ false)

Edge-BoundTo :
    {m : ℕ} {r r' : Challenge} (tid : ℤ)
    → Edge m r r'
    → BoundTo tid (some r)
    → BoundTo tid (some r')
Edge-BoundTo tid (by_failure read same live room) b = rw same (ground arith)
Edge-BoundTo tid (by_expiry now p late) b = absurd (ground arith)
Edge-BoundTo tid (by_approval now x username p unused live) b = absurd (ground arith)
Edge-BoundTo tid (by_use now token p unused live) b = (b.0, refl)

RowStep-BoundTo :
    {m : ℕ} {f : Bool} {o o' : Option Challenge} (tid : ℤ)
    → f ≡ false
    → RowStep m f o o'
    → BoundTo tid o
    → BoundTo tid o'
RowStep-BoundTo tid f stay b = b
RowStep-BoundTo tid f (minted i salt hash now ttl allowed) b = absurd (ground arith)
RowStep-BoundTo tid f (moved e) b = Edge-BoundTo tid e b
RowStep-BoundTo tid f (pruned now older gone) b = tt

run-BoundTo :
    (hash : Text → Text → Text) (m : ℕ) (tid : ℤ) (cs : List Call) (t : List Challenge) (i : Text)
    → AreDistinct t
    → All (λ c. mints i c ≡ false) cs
    → BoundTo tid (find_where (with_request i) t)
    → BoundTo tid (find_where (with_request i) (run hash m cs t))
unfolding run
run-BoundTo hash m tid [] t i d f b = b
run-BoundTo hash m tid (c ∷ cs) t i d f b =
    run-BoundTo hash m tid cs (after hash m c t) i (after-AreDistinct hash m c t d) f.1
      (RowStep-BoundTo tid f.0 (after-RowStep hash m c t i d) b)

-- A consumed challenge answers the account of its row.
consume_verified-who :
    (now : ℕ) (token : Text) (exchange : Exchange) (r : Challenge) (t : List Challenge)
    → is_consumed (consume_verified now token exchange (verified r) t).0 ≡ true
    → who (consume_verified now token exchange (verified r) t).0 ≡ some r.telegram_id
unfolding consume_verified consume_update exchanged
consume_verified-who now token exchange r t =
    by_outcome (call_exchange exchange (payload r token)) refl
  where
    by_outcome :
        (o : Result (Option Text))
        → call_exchange exchange (payload r token) ≡ o
        → is_consumed (consume_verified now token exchange (verified r) t).0 ≡ true
        → who (consume_verified now token exchange (verified r) t).0 ≡ some r.telegram_id
    by_outcome (ok s) e h = ground arith
    by_outcome (raise x) e h = absurd (ground arith)

module _ (hash : Text → Text → Text) (m now : ℕ) (token : Text) (exchange : Exchange) where
  consume-who :
      (iv sv : Value) {j secret : Text} (t : List Challenge)
      → request_id_of iv ≡ some j
      → poll_secret_of sv ≡ some secret
      → is_consumed (consume hash m now token exchange iv sv t).0 ≡ true
      → (r : Challenge) × (find_where (with_request j) t ≡ some r)
        × (who (consume hash m now token exchange iv sv t).0 ≡ some r.telegram_id)
  unfolding consume verify verify_checked verify_selected
  consume-who iv sv {j} {secret} t ej es =
      rw (ej, es)
        (elim (Option-cases (find_where (with_request j) t)) [
          | inl absent ↦ rw absent (λ h. absurd (unfold consume_verified in ground arith))
          | inr (r, found) ↦ elim (verify_row-cases hash m secret r t) [
            | inl dead ↦ rw (found, dead) (λ h. absurd (unfold consume_verified in cc))
            | inr (inl (_, _, _, passed)) ↦
                rw (found, passed) (λ h. (r, refl, consume_verified-who now token exchange r t h))
            | inr (inr (_, _, _, wrong)) ↦
                rw (found, wrong) (λ h. absurd (unfold consume_verified in ground arith))
          ]
        ])

-- A successful `approve`: it met a pending row, and left it bound.
approve-binds :
    (now : ℕ) (iv tv : Value) (name : Option Text) {j : Text} {tid : ℤ} (t : List Challenge)
    → request_id_of iv ≡ some j
    → telegram_id_of tv ≡ some tid
    → AreDistinct t
    → (approve now iv tv name t).0 ≡ success tid
    → (r : Challenge) × (find_where (with_request j) t ≡ some r)
      × (r.status ≡ pending)
      × (find_where (with_request j) (approve now iv tv name t).1
          ≡ some (to_approved now tid (clean_username name) r))
unfolding approve approve_checked
approve-binds now iv tv name {j} {tid} t ej et d =
    rw (ej, et)
      (elim (Option-cases (find_where (with_request j) t)) [
        | inl absent ↦ rw absent (λ h. absurd (unfold approve_row in ground arith))
        | inr (r, found) ↦ rw found λ h. (
          r,
          refl,
          (approve_row-needs now j tid (clean_username name) r t d found h).0,
          approve_row-leaves now j tid (clean_username name) r t d found h,
        )
      ])

approve-AreDistinct :
    (hash : Text → Text → Text) (m now : ℕ) (iv tv : Value) (name : Option Text)
    (t : List Challenge)
    → AreDistinct t
    → AreDistinct (approve now iv tv name t).1
unfolding after
approve-AreDistinct hash m now iv tv name t d =
    after-AreDistinct hash m (approve_call now iv tv name) t d

run-AreDistinct :
    (hash : Text → Text → Text) (m : ℕ) (cs : List Call) (t : List Challenge)
    → AreDistinct t
    → AreDistinct (run hash m cs t)
unfolding run
run-AreDistinct hash m [] t d = d
run-AreDistinct hash m (c ∷ cs) t d =
    run-AreDistinct hash m cs (after hash m c t) (after-AreDistinct hash m c t d)

-- The account that approves a challenge is the only one that it signs in: in a table with distinct
-- request ids, if `approve` answers success for an account, then after any run of calls that does not
-- mint the same random request id anew, an `approve` of it by whatever account does not succeed, and
-- a `consume` of it that succeeds answers the approving account.
pub approval_binds :
    (hash : Text → Text → Text) (max_attempts now now' now'' : ℕ) (token : Text)
    (exchange : Exchange) (iv tv tv' sv : Value) (name name' : Option Text) {j secret : Text}
    {tid tid' : ℤ} (cs : List Call) (t : List Challenge)
    → request_id_of iv ≡ some j
    → telegram_id_of tv ≡ some tid
    → telegram_id_of tv' ≡ some tid'
    → poll_secret_of sv ≡ some secret
    → AreDistinct t
    → All (λ c. mints j c ≡ false) cs
    → (approve now iv tv name t).0 ≡ success tid
    → let t' = run hash max_attempts cs (approve now iv tv name t).1 in
      ((approve now' iv tv' name' t').0 ≢ success tid')
      × (is_consumed (consume hash max_attempts now'' token exchange iv sv t').0 ≡ true
          → who (consume hash max_attempts now'' token exchange iv sv t').0 ≡ some (some tid))
approval_binds hash m now now' now'' token exchange iv tv tv' sv name name' {j} {secret} {tid}
      {tid'} cs t ej et et' es d fresh h =
    let t1 = (approve now iv tv name t).1 in
    let t2 = run hash m cs t1 in
    let (r, _, _, row) = approve-binds now iv tv name t ej et d h in
    let d1 = approve-AreDistinct hash m now iv tv name t d in
    let bound : BoundTo tid (find_where (with_request j) t1) = rw row (refl, refl) in
    let later = run-BoundTo hash m tid cs t1 j d1 fresh bound in
    (
      (λ again.
          let (r', found, p, _) =
            approve-binds now' iv tv' name' t2 ej et' (run-AreDistinct hash m cs t1 d1) again in
          let still : BoundTo tid (some r') = rw found at later in
          let closed = still.1 in absurd (ground arith)),
      (λ used_up.
          let (r', found, account) =
            consume-who hash m now'' token exchange iv sv t2 ej es used_up in
          let still : BoundTo tid (some r') = rw found at later in account ∙ ap some still.0),
    )
