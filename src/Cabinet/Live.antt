-- ===== src/Cabinet/Live.antt =====
-- The unused pairing codes of bot/bot.py, along runs of `issue_link_code` and `redeem_link_code`.
use mosaicvpn.Prelude.{
  ℕ, ◌≤◌, ◌≡◌, ◌≢◌, ◌⊎◌, refl, true, ◌||◌, ◌==◌, Option, List, [], ◌∷◌, ◌++◌, is_some, arith, inl,
  inr, All, All-append, Bool-cases, Option-cases,
}
use mosaicvpn.Prelude.Int.{ℤ, eq_ℤ, eq_ℤ_iff}
use mosaicvpn.Prelude.Text.{Text, truthy}
use mosaicvpn.Prelude.Table.{
  find_where, update_where, delete_where, count_where, count-append, count-delete-le,
  count-delete_own, count-update-le, All-update, All-delete, All-find,
}
use mosaicvpn.Cabinet.Codes.{
  normalise, LinkCode, has_code, live_of, new_code, free_draw, issued, issue_link_code, too_many,
  unused_code, burnt, redeem_row, redeem_link_code, Call, issue_call, redeem_call, after, run,
}

-- What a redeem leaves of the table.
redeem-two :
    (now : ℕ) (raw : Option Text) (t : List LinkCode)
    → let t' = (redeem_link_code now raw t).1 in
      (t' ≡ t) ⊎ (t' ≡ update_where (unused_code (normalise raw)) (burnt now) t)
unfolding redeem_link_code redeem_row
redeem-two now raw t = elim (Option-cases (find_where (has_code (normalise raw)) t)) [
  | inl absent ↦ inl (ground (arith, absent))
  | inr (r, found) ↦ ground (arith, found)
]

-- And an issue: the table as it was, or without the account's live codes and with a new one.
issue-two :
    (now : ℕ) (draw : ℕ → Text) (i : ℤ) (username token : Option Text) (t : List LinkCode)
    → let t' = (issue_link_code now draw i username token t).1 in
      (t' ≡ t)
      ⊎ ((c : Text) × (t' ≡ delete_where (live_of i) t ++ new_code now i username token c ∷ []))
unfolding issue_link_code issued
issue-two now draw i username token t =
    elim (Option-cases (free_draw has_code 12 draw (delete_where (live_of i) t))) [
      | inl full ↦ rw full (inl refl)
      | inr (c, drawn) ↦ rw drawn (inr (c, refl))
    ]

-- An account has one live code at most.
abbrev pub IsSingle : ℤ → List LinkCode → Type 0
IsSingle i t = count_where (live_of i) t ≤ 1

issue-IsSingle :
    (now : ℕ) (draw : ℕ → Text) (i j : ℤ) (username token : Option Text) (t : List LinkCode)
    → IsSingle j t
    → IsSingle j (issue_link_code now draw i username token t).1
issue-IsSingle now draw i j username token t single = elim (issue-two now draw i username token t) [
  | inl same ↦ rw same single
  | inr (c, out) ↦
      let rest = delete_where (live_of i) t in
      let more = count-append (live_of j) rest (new_code now i username token c) in
      rw out (elim (Bool-cases (eq_ℤ i j)) [
        | inl own ↦
            let e : i ≡ j = (eq_ℤ_iff i j).0 own in
            let gone : count_where (live_of j) rest ≡ 0 = rw e (count-delete_own (live_of j) t) in
            ground arith
        | inr other ↦ let fewer = count-delete-le (live_of j) (live_of i) t in ground arith
      ])
]

redeem-IsSingle :
    (now : ℕ) (raw : Option Text) (j : ℤ) (t : List LinkCode)
    → IsSingle j t
    → IsSingle j (redeem_link_code now raw t).1
redeem-IsSingle now raw j t single = elim (redeem-two now raw t) [
  | inl same ↦ rw same single
  | inr out ↦
      let fewer =
        count-update-le (live_of j) (unused_code (normalise raw)) (burnt now) (λ x h. ground arith)
          t in
      rw out (omega (arith, fewer))
]

-- Several live codes would widen what can be guessed: if an account has one unused code at most, so it
-- has after every run of issues, for whatever accounts, and redeems.
run-IsSingle : (cs : List Call) (j : ℤ) (t : List LinkCode) → IsSingle j t → IsSingle j (run cs t)
unfolding run after
run-IsSingle [] j t single = single
run-IsSingle (issue_call now draw i username token ∷ cs) j t single =
    run-IsSingle cs j (issue_link_code now draw i username token t).1
      (issue-IsSingle now draw i j username token t single)
run-IsSingle (redeem_call now raw ∷ cs) j t single =
    run-IsSingle cs j (redeem_link_code now raw t).1 (redeem-IsSingle now raw j t single)

-- A code that is not used has no attempts.
abbrev pub IsUntried : LinkCode → Type 0
IsUntried r = (is_some r.used_at || r.attempts == 0) ≡ true

issue-IsUntried :
    (now : ℕ) (draw : ℕ → Text) (i : ℤ) (username token : Option Text) (t : List LinkCode)
    → All IsUntried t
    → All IsUntried (issue_link_code now draw i username token t).1
issue-IsUntried now draw i username token t a = elim (issue-two now draw i username token t) [
  | inl same ↦ rw same a
  | inr (c, out) ↦ rw out (
      All-append IsUntried (delete_where (live_of i) t) (new_code now i username token c ∷ [])
        (All-delete IsUntried (live_of i) t a) (refl, tt))
]

redeem-IsUntried :
    (now : ℕ) (raw : Option Text) (t : List LinkCode)
    → All IsUntried t
    → All IsUntried (redeem_link_code now raw t).1
redeem-IsUntried now raw t a = elim (redeem-two now raw t) [
  | inl same ↦ rw same a
  | inr out ↦
      rw out (All-update IsUntried (unused_code (normalise raw)) (burnt now) (λ r hit u. refl) t a)
]

run-IsUntried : (cs : List Call) (t : List LinkCode) → All IsUntried t → All IsUntried (run cs t)
unfolding run after
run-IsUntried [] t a = a
run-IsUntried (issue_call now draw i username token ∷ cs) t a =
    run-IsUntried cs (issue_link_code now draw i username token t).1
      (issue-IsUntried now draw i username token t a)
run-IsUntried (redeem_call now raw ∷ cs) t a =
    run-IsUntried cs (redeem_link_code now raw t).1 (redeem-IsUntried now raw t a)

redeem_row-limit :
    (now : ℕ) (c : Text) (t : List LinkCode)
    → All IsUntried t
    → (redeem_row now c (find_where (has_code c) t) t).0 ≢ too_many
unfolding redeem_row
redeem_row-limit now c t a = elim (Option-cases (find_where (has_code c) t)) [
  | inl absent ↦ rw absent (λ e. ground arith)
  | inr (r, found) ↦
      let u : IsUntried r = All-find IsUntried (has_code c) t a found in
      rw found (λ e. ground arith)
]

-- The limit of attempts is never met: the code counts an attempt only when it succeeds, so that from
-- a table whose unused codes have no attempts, no run leads to the answer that there were too many.
pub attempts_unlimited :
    (now : ℕ) (raw : Option Text) (cs : List Call) (t : List LinkCode)
    → All IsUntried t
    → (redeem_link_code now raw (run cs t)).0 ≢ too_many
unfolding redeem_link_code
attempts_unlimited now raw cs t a = elim (Bool-cases (truthy (normalise raw))) [
  | inl given ↦ rw given (redeem_row-limit now (normalise raw) (run cs t) (run-IsUntried cs t a))
  | inr nothing ↦ rw nothing (λ e. ground arith)
]
