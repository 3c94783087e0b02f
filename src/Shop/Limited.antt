-- ===== src/Shop/Limited.antt =====
-- The marks of `rate_limit_check` of bot/bot.py, along runs of checks.
use mosaicvpn.Prelude.{
  ℕ, ◌+◌, ◌-◌, ◌<◌, ◌≤◌, ◌≡◌, refl, subst, true, ◌&&◌, List, [], ◌∷◌, arith, inl, inr, All,
  All-append, Bool-cases, is_some, leb, if◌then◌else◌,
}
use mosaicvpn.Prelude.Int.{ℤ, eq_ℤ, eq_ℤ_iff}
use mosaicvpn.Prelude.Text.{Text, eq_text, eq_text_iff}
use mosaicvpn.Prelude.Table.{
  find_where, delete_where, count_where, count-append, count-delete-le, All-delete,
}
use mosaicvpn.Shop.Limits.{
  Mark, rate_limit_rules, window, is_stale, is_of, is_recent, is_same, new_mark, mark_inserted,
  rate_limit_check, Act, rate_run,
}

-- No more marks of a user's action than its rule allows.
abbrev pub IsLimited : ℤ → Text → List Mark → Type 0
IsLimited i action t = count_where (is_of i action) t ≤ (rate_limit_rules action).0

-- Behind a DELETE of the stale marks, all marks of the action are recent.
recent-all :
    (i : ℤ) (action : Text) (cutoff : ℕ) (t : List Mark)
    → count_where (is_of i action) (delete_where (is_stale action cutoff) t)
      ≡ count_where (is_recent i action cutoff) (delete_where (is_stale action cutoff) t)
recent-all i action cutoff [] = refl
recent-all i action cutoff (r ∷ t) = ground (arith, recent-all i action cutoff t)

inserted-count :
    (i j : ℤ) (action a : Text) (now : ℕ) (t : List Mark)
    → count_where (is_of i action) (mark_inserted j a now t)
      ≤ count_where (is_of i action) t + (if eq_ℤ j i && eq_text a action then 1 else 0)
inserted-count i j action a now t =
    let more = count-append (is_of i action) t (new_mark j a now) in ground (arith, more)

check-IsLimited :
    (now : ℕ) (i j : ℤ) (action a : Text) (t : List Mark)
    → IsLimited i action t
    → IsLimited i action (rate_limit_check now j a t).1
unfolding rate_limit_check
check-IsLimited now i j action a t h =
    let cutoff = now - window a in
    let rest = delete_where (is_stale a cutoff) t in
    let fewer = count-delete-le (is_of i action) (is_stale a cutoff) t in
    let more = inserted-count i j action a now rest in
    elim (Bool-cases (leb (rate_limit_rules a).0 (count_where (is_recent j a cutoff) rest))) [
      | inl full ↦ rw full (omega (arith, fewer, h))
      | inr open_still ↦ rw open_still (elim (Bool-cases (eq_ℤ j i && eq_text a action)) [
        | inr other ↦ ground (arith, more, other, fewer, h)
        | inl own ↦
            let user : j ≡ i = (eq_ℤ_iff j i).0 (ground (arith, own)) in
            let act : a ≡ action = (eq_text_iff a action).0 (ground (arith, own)) in
            let all = recent-all j a cutoff t in
            let room : count_where (is_of j a) rest < (rate_limit_rules a).0 =
              ground (arith, all, open_still) in
            let room' =
              subst (λ x. count_where (is_of x a) rest < (rate_limit_rules a).0) user room in
            let own_room =
              subst (λ x. count_where (is_of i x) rest < (rate_limit_rules x).0) act room' in
            ground (arith, more, own_room, own)
      ])
    ]

-- A limit is never passed: if a user has no more marks of an action than its rule allows, this is so
-- after every run of checks, of whatever users and actions, at whatever instants.
pub run-IsLimited :
    (acts : List Act) (i : ℤ) (action : Text) (t : List Mark)
    → IsLimited i action t
    → IsLimited i action (rate_run acts t)
unfolding rate_run
run-IsLimited [] i action t h = h
run-IsLimited (a ∷ acts) i action t h =
    run-IsLimited acts i action (rate_limit_check a.now a.telegram_id a.action t).1
      (check-IsLimited a.now i a.telegram_id action a.action t h)

-- Marks that are not younger than an instant.
abbrev pub IsUpTo : ℕ → Mark → Type 0
IsUpTo last r = r.ts ≤ last

check-IsUpTo :
    (last now : ℕ) (i : ℤ) (action : Text) (t : List Mark)
    → now ≤ last
    → All (IsUpTo last) t
    → All (IsUpTo last) (rate_limit_check now i action t).1
unfolding rate_limit_check
check-IsUpTo last now i action t early h =
    let cutoff = now - window action in
    let rest = delete_where (is_stale action cutoff) t in
    let old = All-delete (IsUpTo last) (is_stale action cutoff) t h in
    elim (Bool-cases
      (leb (rate_limit_rules action).0 (count_where (is_recent i action cutoff) rest))) [
        | inl full ↦ rw full old
        | inr open_still ↦
            rw open_still (elim (Bool-cases (is_some (find_where (is_same i action now) rest))) [
              | inl there ↦ rw there old
              | inr new ↦
                  rw new
                    (All-append (IsUpTo last) rest (new_mark i action now ∷ []) old (early, tt))
            ])
      ]

run-IsUpTo :
    (last : ℕ) (acts : List Act) (t : List Mark)
    → All (λ a. Act.now a ≤ last) acts
    → All (IsUpTo last) t
    → All (IsUpTo last) (rate_run acts t)
unfolding rate_run
run-IsUpTo last [] t early h = h
run-IsUpTo last (a ∷ acts) t early h =
    run-IsUpTo last acts (rate_limit_check a.now a.telegram_id a.action t).1 early.1
      (check-IsUpTo last a.now a.telegram_id a.action t early.0 h)

old-recent :
    (last cutoff : ℕ) (i : ℤ) (action : Text) (t : List Mark)
    → last < cutoff
    → All (IsUpTo last) t
    → count_where (is_recent i action cutoff) (delete_where (is_stale action cutoff) t) ≡ 0
old-recent last cutoff i action [] past h = refl
old-recent last cutoff i action (r ∷ t) past h =
    let rest = old-recent last cutoff i action t past h.1 in
    let old = h.0 in ground (arith, rest, old, past)

rules_positive : (action : Text) → 1 ≤ (rate_limit_rules action).0
unfolding rate_limit_rules
rules_positive action = ground arith

-- A user who is refused need only wait: after every run of checks up to an instant, from marks up to
-- it, a check more than the action's window later is allowed.
pub rate_limit_reopens :
    (last now : ℕ) (i : ℤ) (action : Text) (acts : List Act) (t : List Mark)
    → All (λ a. Act.now a ≤ last) acts
    → All (IsUpTo last) t
    → last + window action < now
    → (rate_limit_check now i action (rate_run acts t)).0 ≡ true
unfolding rate_limit_check
rate_limit_reopens last now i action acts t early h later =
    let none_left =
      old-recent last (now - window action) i action (rate_run acts t) (omega (arith, later))
        (run-IsUpTo last acts t early h) in
    let some_allowed = rules_positive action in ground (arith, none_left, some_allowed)
