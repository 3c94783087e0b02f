-- ===== src/Login/Verify.antt =====
-- The ends of `_verify_secret_and_get_row` of bot/onboarding_auth.py.
use mosaicvpn.Prelude.{ℕ, ◌<◌, ◌≡◌, ◌≢◌, ◌⊎◌, List, arith, inl, inr, Bool-cases, leb, ◌||◌}
use mosaicvpn.Prelude.Text.{Text, eq_text, eq_text_iff}
use mosaicvpn.Prelude.Table.{update_where}
use mosaicvpn.Login.Types.{Challenge, locked, eq_status, locked_out}
use mosaicvpn.Login.Store.{
  with_request, failed_attempt, wrong_reply, verified, rejected, verify_row,
}

module _ (hash_secret : Text → Text → Text) (max_attempts : ℕ) (secret : Text) (r : Challenge)
    (t : List Challenge) where
  abbrev pub Passes : Type 0
  Passes =
      (r.status ≢ locked)
      × (r.attempts < max_attempts)
      × (r.secret_hash ≡ hash_secret secret r.salt)
      × (verify_row hash_secret max_attempts secret r t ≡ (verified r, t))

  abbrev pub Fails : Type 0
  Fails =
      (r.status ≢ locked)
      × (r.attempts < max_attempts)
      × (r.secret_hash ≢ hash_secret secret r.salt)
      × (verify_row hash_secret max_attempts secret r t ≡ (
        rejected (wrong_reply max_attempts r),
        update_where (with_request r.request_id) (failed_attempt max_attempts r) t,
      ))

  pub verify_row-cases :
      (verify_row hash_secret max_attempts secret r t ≡ (rejected locked_out, t)) ⊎ Passes ⊎ Fails
  unfolding verify_row
  verify_row-cases = elim (Bool-cases (eq_status r.status locked || leb max_attempts r.attempts)) [
    | inl dead ↦ inl (ground arith)
    | inr live ↦ elim (Bool-cases (eq_text r.secret_hash (hash_secret secret r.salt))) [
      | inl same ↦ inr (inl (ground arith, ground arith, (eq_text_iff _ _).0 same, ground arith))
      | inr differ ↦ inr (
          inr (
            ground arith,
            ground arith,
            ground (arith, eq_text_iff r.secret_hash (hash_secret secret r.salt)),
            ground arith,
          ))
    ]
  ]
