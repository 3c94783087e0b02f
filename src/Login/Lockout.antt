-- ===== src/Login/Lockout.antt =====
-- Wrong secrets and the attempts that a challenge of bot/onboarding_auth.py counts.
use mosaicvpn.Prelude.{
  ℕ, ◌+◌, ◌≤◌, ◌<◌, ◌≡◌, ◌≢◌, ◌∙◌, ◌⊎◌, refl, true, false, some, List, [], ◌∷◌, arith, All, inl,
  inr, Bool-cases, length, map, leb,
}
use mosaicvpn.Prelude.Text.{Text, eq_text_refl, eq_text_iff}
use mosaicvpn.Prelude.Value.{Value}
use mosaicvpn.Prelude.Table.{find_where, update_where, find-update, find-holds}
use mosaicvpn.Login.Types.{locked, eq_status, Challenge, locked_out}
use mosaicvpn.Login.Store.{
  with_request, request_id_of, poll_secret_of, failed_attempt, wrong_reply, verify_row,
  verify_selected, verify_checked, verify, poll_verified, poll, rejected,
}
use mosaicvpn.Login.Approve.{Exchange, consume_verified, consume}
use mosaicvpn.Login.Steps.{Call, poll_call, after, run}

-- A guess, by its time and secret: that it is well formed and wrong.
abbrev pub IsWrong : (Text → Text → Text) → Challenge → ℕ × Value → Type 0
IsWrong hash r (now, v) =
    (secret : Text) × (poll_secret_of v ≡ some secret) × (r.secret_hash ≢ hash secret r.salt)

abbrev pub guesses : Value → List (ℕ × Value) → List Call
guesses iv = map (λ g. poll_call g.0 iv g.1)

module _ (hash : Text → Text → Text) (max_attempts : ℕ) (j : Text) where
  wrong-answer :
      (secret : Text) (r : Challenge) (t : List Challenge)
      → eq_status r.status locked ≡ false
      → r.attempts < max_attempts
      → r.secret_hash ≢ hash secret r.salt
      → verify_row hash max_attempts secret r t ≡ (
        rejected (wrong_reply max_attempts r),
        update_where (with_request r.request_id) (failed_attempt max_attempts r) t,
      )
  unfolding verify_row
  wrong-answer secret r t open_row room wrong =
      ground (arith, eq_text_iff r.secret_hash (hash secret r.salt))

  -- A wrong secret on an open challenge, read as `r` when the table holds `x` by now.
  wrong-row :
      (secret : Text) (r x : Challenge) (t : List Challenge)
      → find_where (with_request j) t ≡ some x
      → r.request_id ≡ j
      → x.request_id ≡ j
      → eq_status r.status locked ≡ false
      → r.attempts < max_attempts
      → r.secret_hash ≢ hash secret r.salt
      → find_where (with_request j) (verify_row hash max_attempts secret r t).1
        ≡ some (failed_attempt max_attempts r x)
  wrong-row secret r x t found own own' open_row room wrong =
      let hit : with_request r.request_id x ≡ true = rw (own, own') (eq_text_refl j) in
      rw (wrong-answer secret r t open_row room wrong) (
        find-update (with_request j) (with_request r.request_id) (failed_attempt max_attempts r)
          (λ y. refl) t
        ∙ rw (found, hit) refl)

  own_id :
      (r : Challenge) (t : List Challenge)
      → find_where (with_request j) t ≡ some r
      → r.request_id ≡ j
  own_id r t found = (eq_text_iff _ _).0 (find-holds (with_request j) t {r = r} found)

  locked-row :
      (secret : Text) (r : Challenge) (t : List Challenge)
      → eq_status r.status locked ≡ true
      → verify_row hash max_attempts secret r t ≡ (rejected locked_out, t)
  unfolding verify_row
  locked-row secret r t shut = ground arith

  -- Two wrong guesses that both read the row before either wrote its count leave a count of one
  -- more, not two: a guess made at the same time as another is free.
  pub lost_attempt :
      (secret secret' : Text) (r : Challenge) (t : List Challenge)
      → find_where (with_request j) t ≡ some r
      → r.status ≢ locked
      → r.attempts < max_attempts
      → r.secret_hash ≢ hash secret r.salt
      → r.secret_hash ≢ hash secret' r.salt
      → let t1 = (verify_row hash max_attempts secret r t).1 in
        find_where (with_request j) (verify_row hash max_attempts secret' r t1).1
        ≡ some (failed_attempt max_attempts r r)
  lost_attempt secret secret' r t found open_row room wrong wrong' =
      let own = own_id r t found in
      let live : eq_status r.status locked ≡ false = ground arith in
      wrong-row secret' r (failed_attempt max_attempts r r) _
        (wrong-row secret r r t found own own live room wrong) own own live room wrong'

  -- One guess: the count goes up and the lock follows, or the challenge is locked already.
  guess-row :
      (now : ℕ) (iv v : Value) (r : Challenge) (t : List Challenge)
      → request_id_of iv ≡ some j
      → find_where (with_request j) t ≡ some r
      → eq_status r.status locked ≡ leb max_attempts r.attempts
      → IsWrong hash r (now, v)
      → (r' : Challenge) × (find_where (with_request j) (poll hash max_attempts now iv v t).1
          ≡ some r')
        × (eq_status r'.status locked ≡ leb max_attempts r'.attempts)
        × ((r.attempts + 1 ≤ r'.attempts) ⊎ (max_attempts ≤ r'.attempts))
        × (r'.secret_hash ≡ r.secret_hash)
        × (r'.salt ≡ r.salt)
  unfolding poll verify verify_checked verify_selected
  guess-row now iv v r t ej found lock (secret, es, wrong) =
      elim (Bool-cases (leb max_attempts r.attempts)) [
        | inl full ↦
            let shut = locked-row secret r t (lock ∙ full) in
            (
              r,
              rw (ej, es, found, shut) (unfold poll_verified in found),
              lock,
              inr (ground arith),
              refl,
              refl,
            )
        | inr room ↦
            let own = own_id r t found in
            let out = wrong-answer secret r t (lock ∙ room) (ground arith) wrong in
            let row = wrong-row secret r r t found own own (lock ∙ room) (ground arith) wrong in
            (
              failed_attempt max_attempts r r,
              rw (ej, es, found, out) (unfold poll_verified in rw out at row),
              ground arith,
              inl (ground arith),
              refl,
              refl,
            )
      ]

  still-IsWrong :
      (r r' : Challenge) (gs : List (ℕ × Value))
      → r'.secret_hash ≡ r.secret_hash
      → r'.salt ≡ r.salt
      → All (IsWrong hash r) gs
      → All (IsWrong hash r') gs
  still-IsWrong r r' [] h k a = tt
  still-IsWrong r r' (g ∷ gs) h k ((secret, es, wrong), rest) =
      ((secret, es, rw (h, k) wrong), still-IsWrong r r' gs h k rest)

  -- Enough wrong guesses lock a challenge.
  pub guesses-locked :
      (iv : Value) (gs : List (ℕ × Value)) (r : Challenge) (t : List Challenge)
      → request_id_of iv ≡ some j
      → find_where (with_request j) t ≡ some r
      → eq_status r.status locked ≡ leb max_attempts r.attempts
      → All (IsWrong hash r) gs
      → max_attempts ≤ r.attempts + length gs
      → (r' : Challenge) × (find_where (with_request j) (run hash max_attempts (guesses iv gs) t)
          ≡ some r')
        × (r'.status ≡ locked)
  unfolding run after
  guesses-locked iv [] r t ej found lock wrong enough = (r, found, ground arith)
  guesses-locked iv (g ∷ gs) r t ej found lock wrong enough =
      let (r1, found1, lock1, more, h, k) = guess-row g.0 iv g.1 r t ej found lock wrong.0 in
      guesses-locked iv gs r1 (poll hash max_attempts g.0 iv g.1 t).1 ej found1 lock1
        (still-IsWrong r r1 gs h k wrong.1) (omega arith)

-- The lock: on a challenge whose status and count agree, once the wrong guesses polled one after
-- another bring the count to the limit, `consume` answers that the challenge is locked and changes
-- nothing, whatever well-formed secret it is given, the right one included, and whatever the time.
pub lockout :
    (hash : Text → Text → Text) (max_attempts now : ℕ) (token : Text) (exchange : Exchange)
    (iv sv : Value) {j secret : Text} (gs : List (ℕ × Value)) (r : Challenge) (t : List Challenge)
    → request_id_of iv ≡ some j
    → poll_secret_of sv ≡ some secret
    → find_where (with_request j) t ≡ some r
    → eq_status r.status locked ≡ leb max_attempts r.attempts
    → All (IsWrong hash r) gs
    → max_attempts ≤ r.attempts + length gs
    → let t' = run hash max_attempts (guesses iv gs) t in
      consume hash max_attempts now token exchange iv sv t' ≡ (locked_out, t')
unfolding consume verify verify_checked verify_selected
lockout hash m now token exchange iv sv {j} {secret} gs r t ej es found lock wrong enough =
    let (r', found', shut) = guesses-locked hash m j iv gs r t ej found lock wrong enough in
    let dead = locked-row hash m j secret r' (run hash m (guesses iv gs) t) (ground arith) in
    rw (ej, es, found', dead) (unfold consume_verified in refl)
