-- ===== src/Invites/Requests.antt =====
-- Repeated calls of `create` and `finish` of bot/sponsored_invites.py.
use mosaicvpn.Prelude.{
  ℕ, ◌≡◌, ◌≢◌, refl, ◌∙◌, true, false, ◌&&◌, Option, none, some, List, [], ◌∷◌, arith, ap, fun_ext,
  inl, inr, if◌then◌else◌, Option-cases, Bool-cases, All,
}
use mosaicvpn.Prelude.Int.{ℤ, eq_ℤ, eq_ℤ_iff}
use mosaicvpn.Prelude.Text.{Text, eq_text, eq_text_refl, eq_text_iff}
use mosaicvpn.Prelude.Value.{Value}
use mosaicvpn.Prelude.Result.{Result, ok, raise, value_error}
use mosaicvpn.Prelude.Table.{
  find_where, count_where, find-append_new, find-none, find-holds, find-update, count_of_none,
}
use mosaicvpn.Invites.Types.{Invite, CreateArgs, Request, Status, processing, eq_status}
use mosaicvpn.Invites.Create.{
  validate_create, with_id, of_request, conflicts, insert_invite, same_request, new_invite, reread,
  inserted, create_selected, create_checked, create,
}
use mosaicvpn.Invites.Admin.{
  processing_id, to_finished, is_outcome, id_or_raise, finish_checked, finish,
}
use mosaicvpn.Invites.Steps.{IsValid, AreDistinct, Call, run}
use mosaicvpn.Invites.Refines.{create_checked-Step, finish_checked-Step}
use mosaicvpn.Invites.Validity.{Step-IsValid, run-IsValid}
use mosaicvpn.Invites.Lifecycle.{Follows, find-run, advances}

eq_ℤ_refl : (a : ℤ) → eq_ℤ a a ≡ true
eq_ℤ_refl a = (eq_ℤ_iff a a).1 refl

-- A call that minted a token stored a new row, and found no earlier row of the request.
create_checked-mints :
    (hash : Text → Text) (now : ℕ) (i token : Text) (q : Request) (t : List Invite)
    {row : Option Invite} {minted : Text}
    → (create_checked hash now i token (ok q) t).0 ≡ ok (row, some minted)
    → let new = new_invite q i (hash token) now in
      let t' = (create_checked hash now i token (ok q) t).1 in
      (row ≡ some new) × (minted ≡ token) × (find_where (of_request q) t' ≡ some new)
unfolding create_checked create_selected inserted insert_invite same_request reread
create_checked-mints hash now i token q t {row} {minted} h =
    let new = new_invite q i (hash token) now in
    elim (Option-cases (find_where (of_request q) t)) [
      | inr (r, known) ↦ absurd (ground arith)
      | inl fresh ↦ elim (Option-cases (find_where (conflicts new) t)) [
        | inr (r, clash) ↦ absurd (ground arith)
        | inl free ↦
            let no_id : find_where (with_id i) t ≡ none =
              find-none (with_id i) (conflicts new) (λ r e. ground arith) t free in
            ground (
              arith,
              find-append_new (with_id i) t new no_id,
              find-append_new (of_request q) t new fresh,
              eq_text_refl i,
              eq_text_refl q.request_id,
              eq_ℤ_refl q.admin_id,
            )
      ]
    ]

request_steady : (q : Request) (r r' : Invite) → Follows r r' → of_request q r' ≡ of_request q r
request_steady q r r' f = rw (f.admin_id, f.request_id)

of_same_request :
    (q q' : Request)
    → q'.admin_id ≡ q.admin_id
    → q'.request_id ≡ q.request_id
    → (r : Invite) → of_request q' r ≡ of_request q r
of_same_request q q' a b r = rw (a, b)

-- Repeating a request, in a valid table: if `create` minted a token for it, then after any run of calls a `create` by
-- the same administrator with the same request id leaves the table alone, mints no token, and
-- answers the stored invite, which has all its terms still, if the amount and the label are the
-- same, and raises ValueError if they are not.
pub create_idempotent :
    (hash : Text → Text) (now now' : ℕ) (i i' token token' : Text) (args args' : CreateArgs)
    {q q' : Request} {row : Option Invite} {minted : Text} (cs : List Call) (t : List Invite)
    → validate_create args ≡ ok q
    → validate_create args' ≡ ok q'
    → q'.admin_id ≡ q.admin_id
    → q'.request_id ≡ q.request_id
    → IsValid t
    → (create hash now i token args t).0 ≡ ok (row, some minted)
    → let t' = run hash cs (create hash now i token args t).1 in
      (r : Invite) × (r' : Invite) × (row ≡ some r)
      × Follows r r'
      × (create hash now' i' token' args' t' ≡ (
        (if eq_ℤ q.amount q'.amount && eq_text q.label q'.label
            then ok (some r', none)
            else raise value_error),
        t',
      ))
unfolding create
create_idempotent hash now now' i i' token token' args args' {q} {q'} cs t e e' same_admin same_id
      v =
    rw (e, e')
      λ h.
        let new = new_invite q i (hash token) now in
        let t1 = (create_checked hash now i token (ok q) t).1 in
        let (answer, _, found) = create_checked-mints hash now i token q t h in
        let v1 = Step-IsValid (create_checked-Step hash now i token args (ok q) e t) v in
        let (r', found', f) = find-run (of_request q) (request_steady q) hash cs t1 v1 found in
        let found2 : find_where (of_request q') (run hash cs t1) ≡ some r' =
          rw (fun_ext (of_same_request q q' same_admin same_id)) found' in
        (
          new,
          r',
          answer,
          f,
          unfold create_checked create_selected same_request in
              rw (found2, f.amount, f.label) (ground arith),
        )

ids_apart :
    (i : Text) (x : Invite) (t : List Invite)
    → with_id i x ≡ true
    → All (λ y. conflicts y x ≡ false) t
    → find_where (with_id i) t ≡ none
ids_apart i x [] h a = refl
ids_apart i x (y ∷ t) h a =
    ground
      (arith, eq_text_iff x.id i, eq_text_iff y.id i, eq_text_iff x.id y.id, ids_apart i x t h a.1)

-- In a valid table the first row with an id is the only one.
only_row :
    (i : Text) (t : List Invite) (r : Invite)
    → AreDistinct t
    → find_where (with_id i) t ≡ some r
    → r.status ≢ processing
    → count_where (processing_id i) t ≡ 0
only_row i [] r d h p = refl
only_row i (x ∷ t) r d h p = elim (Bool-cases (with_id i x)) [
  | inl e ↦
      let same : x ≡ r = ground arith in
      let gone : find_where (processing_id i) t ≡ none =
        find-none (processing_id i) (with_id i) (λ y k. ground arith) t (ids_apart i x t e d.0) in
      ground (arith, count_of_none (processing_id i) t gone)
  | inr e ↦ ground (arith, only_row i t r d.1 (ground arith) p)
]

id_steady : (i : Text) (r r' : Invite) → Follows r r' → with_id i r' ≡ with_id i r
id_steady i r r' f = ap (λ (k : Text). eq_text k i) f.id

finished_stays : (s s' : Status) → is_outcome s ≡ true → advances s s' ≡ true → s' ≢ processing
finished_stays s s' h k = ground arith

module _ (hash : Text → Text) (now now' : ℕ) (i : Text) (s s' : Status)
    (res res' err err' : Option Text) where
  finish_checked-once :
      (cs : List Call) (t : List Invite)
      → IsValid t
      → let (b, t') = finish_checked now (ok i) s res err t in
        b ≡ ok true → (finish_checked now' (ok i) s' res' err' (run hash cs t')).0 ≢ ok true
  unfolding finish_checked
  finish_checked-once cs t v h again = elim (Option-cases (find_where (with_id i) t)) [
    | inl absent ↦
        let gone : find_where (processing_id i) t ≡ none =
          find-none (processing_id i) (with_id i) (λ y k. ground arith) t absent in
        ground (arith, count_of_none (processing_id i) t gone)
    | inr (r, found) ↦
        let good : is_outcome s ≡ true = ground arith in
        let was : eq_status r.status processing ≡ true =
          elim (Bool-cases (eq_status r.status processing)) [
            | inl e ↦ e
            | inr e ↦ absurd (ground (arith, only_row i t r v.distinct found (λ p. ground arith)))
          ] in
        let hit : processing_id i r ≡ true =
          ground (arith, find-holds (with_id i) t {r = r} found) in
        let t1 = (finish_checked now (ok i) s res err t).1 in
        let v1 = Step-IsValid (finish_checked-Step now (ok i) s res err t) v in
        let found1 : find_where (with_id i) t1 ≡ some (to_finished now s res err r) = rw good (
          find-update (with_id i) (processing_id i) (to_finished now s res err) (λ x. refl) t
          ∙ rw (found, hit) refl) in
        let (r2, found2, f) = find-run (with_id i) (id_steady i) hash cs t1 v1 found1 in
        let v2 = run-IsValid hash cs t1 v1 in
        ground (
          arith,
          only_row i (run hash cs t1) r2 v2.distinct found2
              (finished_stays s r2.status good f.status),
        )
  ]

-- An invite is settled once: in a valid table, after a `finish` that answered True, no `finish` with the same id
-- answers True again, whatever the outcome that it reports, after whatever run of calls.
finish_once :
    (hash : Text → Text) (now now' : ℕ) (iv : Value) (s s' : Status)
    (res res' err err' : Option Text) (cs : List Call) (t : List Invite)
    → IsValid t
    → let (b, t') = finish now iv s res err t in
      b ≡ ok true → (finish now' iv s' res' err' (run hash cs t')).0 ≢ ok true
unfolding finish
finish_once hash now now' iv s s' res res' err err' cs t v = by_id (id_or_raise iv)
  where
    by_id :
        (o : Result Text)
        → let (b, t') = finish_checked now o s res err t in
          b ≡ ok true → (finish_checked now' o s' res' err' (run hash cs t')).0 ≢ ok true
    by_id (raise e) h again = unfold finish_checked in cc
    by_id (ok i) h again = finish_checked-once hash now now' i s s' res res' err err' cs t v h again
