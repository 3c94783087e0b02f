-- ===== src/Cabinet/Pairing.antt =====
-- `issue_link_code` and `redeem_link_code` of bot/bot.py, one after the other and along runs.
use mosaicvpn.Prelude.{
  ℕ, zero, suc, ◌+◌, ◌*◌, ◌≤◌, ◌<◌, ◌≡◌, ◌∙◌, ◌⊎◌, refl, sym, ap, Bool, true, false, Option, none,
  some, List, [], ◌∷◌, leb, ltb, is_some, or_else, arith, inl, inr, Bool-cases, Option-cases,
}
use mosaicvpn.Prelude.Int.{ℤ}
use mosaicvpn.Prelude.Text.{Text, eq_text_refl, truthy}
use mosaicvpn.Prelude.Table.{
  find_where, update_where, delete_where, find-append, find-append_new, find-holds,
  find-delete_kept, find-update_kept, find-update_hit, count_of_found,
}
use mosaicvpn.Prelude.Result.{ok}
use mosaicvpn.Cabinet.Codes.{
  normalise, LinkCode, has_code, live_of, new_code, ttl_minutes, max_attempts, free_draw, issued,
  issue_link_code, Redeemed, payload, used, unused_code, burnt, redeem_row, redeem_link_code, Call,
  issue_call, redeem_call, after, run,
}
use mosaicvpn.Cabinet.Typed.{Typed, Typed-normalise}

-- A draw that the loop takes is free.
free_draw-free :
    {A : Type 0} (has : Text → A → Bool) (n : ℕ) (draw : ℕ → Text) (t : List A) {c : Text}
    → free_draw has n draw t ≡ some c
    → find_where (has c) t ≡ none
unfolding free_draw
free_draw-free has zero draw t h = absurd (ground arith)
free_draw-free has (suc n) draw t {c} h = elim (Option-cases (find_where (has (draw n)) t)) [
  | inr (r, taken) ↦ free_draw-free has n draw t {c = c} (rw taken at h)
  | inl free ↦ let same : draw n ≡ c = ground (arith, h, free) in rw (← same) free
]

-- The code of an issue is stored, fresh and unused.
issue-stores :
    (now : ℕ) (draw : ℕ → Text) (i : ℤ) (username token : Option Text) (t : List LinkCode)
    {c : Text} {e : ℕ}
    → (issue_link_code now draw i username token t).0 ≡ ok (c, e)
    → (e ≡ now + ttl_minutes * 60000000)
      × (find_where (has_code c) (issue_link_code now draw i username token t).1
          ≡ some (new_code now i username token c))
unfolding issue_link_code issued
issue-stores now draw i username token t {c} {e} =
    let t' = delete_where (live_of i) t in
    elim (Option-cases (free_draw has_code 12 draw t')) [
      | inl full ↦ rw full (λ h. absurd (ground arith))
      | inr (d, drawn) ↦ rw drawn λ h.
          let same : d ≡ c = ground arith in
          let until : now + ttl_minutes * 60000000 ≡ e = ground arith in
          let fresh = free_draw-free has_code 12 draw t' drawn in
          rw (← same)
            (sym until, find-append_new (has_code d) t' _ fresh ∙ rw (eq_text_refl d) refl)
    ]

-- A row that is used already.
abbrev pub IsUsed : Text → List LinkCode → Type 0
IsUsed c t = (r : LinkCode) × (find_where (has_code c) t ≡ some r) × (is_some r.used_at ≡ true)

issue-IsUsed :
    (now : ℕ) (draw : ℕ → Text) (i : ℤ) (username token : Option Text) (c : Text)
    (t : List LinkCode)
    → IsUsed c t
    → IsUsed c (issue_link_code now draw i username token t).1
unfolding issue_link_code issued
issue-IsUsed now draw i username token c t (r, found, spent) =
    let t' = delete_where (live_of i) t in
    let kept = find-delete_kept (has_code c) (live_of i) t found (ground arith) in
    elim (Option-cases (free_draw has_code 12 draw t')) [
      | inl full ↦ rw full (r, found, spent)
      | inr (d, drawn) ↦ rw drawn (r, find-append (has_code c) t' _ kept, spent)
    ]

abbrev pub is_payload : Redeemed → Bool
is_payload (payload i username token) = true
is_payload _ = false

redeem_row-gives :
    (now : ℕ) (c : Text) (r : LinkCode) (t : List LinkCode)
    → find_where (has_code c) t ≡ some r
    → r.used_at ≡ none
    → r.attempts < max_attempts
    → now ≤ r.expires_at
    → redeem_row now c (some r) t ≡ (
      payload r.telegram_id r.username r.session_token,
      update_where (unused_code c) (burnt now) t,
    )
unfolding redeem_row
redeem_row-gives now c r t found fresh few early =
    let own = find-holds (has_code c) t {r = r} found in
    let one = count_of_found (has_code c) (unused_code c) t found (ground (arith, fresh)) in
    ground (arith, fresh)

-- A redeem leaves the table, or burns an unused code in time.
redeem_row-cases :
    (now : ℕ) (c : Text) (r : LinkCode) (t : List LinkCode)
    → find_where (has_code c) t ≡ some r
    → let out = redeem_row now c (some r) t in
      ((out.1 ≡ t) × (is_payload out.0 ≡ false))
      ⊎ ((r.used_at ≡ none)
          × (r.attempts < max_attempts)
          × (now ≤ r.expires_at)
          × (out ≡ (
            payload r.telegram_id r.username r.session_token,
            update_where (unused_code c) (burnt now) t,
          )))
unfolding redeem_row
redeem_row-cases now c r t found = elim (Option-cases r.used_at) [
  | inr (u, spent) ↦ inl (ground (arith, spent), ground (arith, spent))
  | inl fresh ↦ elim (Bool-cases (leb max_attempts r.attempts)) [
    | inl many ↦ inl (ground (arith, fresh), ground (arith, fresh))
    | inr few ↦ elim (Bool-cases (ltb r.expires_at now)) [
      | inl late ↦ inl (ground (arith, fresh), ground (arith, fresh))
      | inr live ↦
          let few : r.attempts < max_attempts = ground arith in
          let early : now ≤ r.expires_at = ground arith in
          inr (fresh, few, early, redeem_row-gives now c r t found fresh few early)
    ]
  ]
]

redeem_row-IsUsed :
    (now : ℕ) (d c : Text) (t : List LinkCode)
    → IsUsed c t
    → IsUsed c (redeem_row now d (find_where (has_code d) t) t).1
redeem_row-IsUsed now d c t (r, found, spent) = elim (Option-cases (find_where (has_code d) t)) [
  | inl absent ↦ rw absent (unfold redeem_row in (r, found, spent))
  | inr (x, here) ↦
      let kept =
        find-update_kept (has_code c) (unused_code d) (burnt now) (λ y. refl) t found
          (ground arith) in
      elim (redeem_row-cases now d x t here) [
        | inl (same, _) ↦ rw (here, same) (r, found, spent)
        | inr (_, _, _, out) ↦ rw (here, out) (r, kept, spent)
      ]
]

redeem-IsUsed :
    (now : ℕ) (raw : Option Text) (c : Text) (t : List LinkCode)
    → IsUsed c t
    → IsUsed c (redeem_link_code now raw t).1
unfolding redeem_link_code
redeem-IsUsed now raw c t u = elim (Bool-cases (truthy (normalise raw))) [
  | inl given ↦ rw given (redeem_row-IsUsed now (normalise raw) c t u)
  | inr nothing ↦ rw nothing u
]

after-IsUsed : (call : Call) (c : Text) (t : List LinkCode) → IsUsed c t → IsUsed c (after call t)
unfolding after
after-IsUsed (issue_call now draw i username token) c t u =
    issue-IsUsed now draw i username token c t u
after-IsUsed (redeem_call now raw) c t u = redeem-IsUsed now raw c t u

run-IsUsed : (cs : List Call) (c : Text) (t : List LinkCode) → IsUsed c t → IsUsed c (run cs t)
unfolding run
run-IsUsed [] c t u = u
run-IsUsed (k ∷ cs) c t u = run-IsUsed cs c (after k t) (after-IsUsed k c t u)

-- A redeem that gives a payload leaves its code used.
redeem-burns :
    (now : ℕ) (raw : Option Text) (t : List LinkCode)
    → is_payload (redeem_link_code now raw t).0 ≡ true
    → (truthy (normalise raw) ≡ true) × IsUsed (normalise raw) (redeem_link_code now raw t).1
unfolding redeem_link_code
redeem-burns now raw t = elim (Bool-cases (truthy (normalise raw))) [
  | inr nothing ↦ rw nothing (λ h. absurd (ground arith))
  | inl given ↦ rw given (elim (Option-cases (find_where (has_code (normalise raw)) t)) [
    | inl absent ↦ rw absent (λ h. absurd (unfold redeem_row in ground arith))
    | inr (r, found) ↦
        let c = normalise raw in
        let own = find-holds (has_code c) t {r = r} found in
        elim (redeem_row-cases now c r t found) [
          | inl (_, refused) ↦ rw (found, refused) (λ h. absurd (ground arith))
          | inr (fresh, _, _, out) ↦
              let hit : unused_code c r ≡ true = ground (arith, fresh) in
              rw (found, out)
                (λ h. (
                  refl,
                  (
                    burnt now r,
                    find-update_hit (has_code c) (unused_code c) (burnt now) (λ y. refl) t found
                        hit,
                    refl,
                  ),
                ))
        ]
  ])
]

redeem-used :
    (now : ℕ) (raw : Option Text) (t : List LinkCode)
    → truthy (normalise raw) ≡ true
    → IsUsed (normalise raw) t
    → redeem_link_code now raw t ≡ (used, t)
unfolding redeem_link_code redeem_row
redeem-used now raw t given (r, found, spent) = rw (given, found, spent) refl

-- A code is redeemed once: after a redeem that gave a payload, and any run of issues and redeems, a
-- redeem of what normalises to the same code answers that it is used, and changes nothing.
pub redeem_once :
    (now now' : ℕ) (raw raw' : Option Text) (cs : List Call) (t : List LinkCode)
    → is_payload (redeem_link_code now raw t).0 ≡ true
    → normalise raw' ≡ normalise raw
    → let t' = run cs (redeem_link_code now raw t).1 in redeem_link_code now' raw' t' ≡ (used, t')
redeem_once now now' raw raw' cs t h same =
    let (given, burns) = redeem-burns now raw t h in
    let spent = run-IsUsed cs (normalise raw) (redeem_link_code now raw t).1 burns in
    let t' = run cs (redeem_link_code now raw t).1 in
    redeem-used now' raw' t' (rw same given) (rw same spent)

-- A code works: what a user types for an issued code, in whatever letter case and with whatever
-- separators, gives the account, the name and the session that it was issued for, until it expires.
pub issue-redeem :
    (now now' : ℕ) (draw : ℕ → Text) (i : ℤ) (username token : Option Text) (t : List LinkCode)
    {c : Text} {e : ℕ} (typed : Text)
    → (issue_link_code now draw i username token t).0 ≡ ok (c, e)
    → truthy c ≡ true
    → Typed c typed
    → now' ≤ e
    → (redeem_link_code now' (some typed) (issue_link_code now draw i username token t).1).0
      ≡ payload i (or_else username []) (or_else token [])
issue-redeem now now' draw i username token t {c} {e} typed h given ty early =
    let (until, found) = issue-stores now draw i username token t h in
    let t' = (issue_link_code now draw i username token t).1 in
    let code = Typed-normalise ty in
    unfold redeem_link_code in
    rw (code, given, found)
      (ap (λ p. p.0)
        (redeem_row-gives now' c (new_code now i username token c) t' found refl (omega arith)
          (omega (arith, until))))
