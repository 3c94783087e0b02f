-- ===== src/Invites/Winner.antt =====
-- Who gets an invite of bot/sponsored_invites.py: `claim`, and `revoke` against it.
use mosaicvpn.Prelude.{
  ℕ, ◌≤◌, ◌<◌, ◌≡◌, ◌≢◌, ◌↔◌, refl, ◌∙◌, true, Option, some, List, arith, ap, inl, inr,
  Option-cases,
}
use mosaicvpn.Prelude.Int.{ℤ, eq_ℤ_iff}
use mosaicvpn.Prelude.Text.{Text, eq_text, eq_text_refl, eq_text_iff}
use mosaicvpn.Prelude.Value.{Value}
use mosaicvpn.Prelude.Result.{ok}
use mosaicvpn.Prelude.Table.{
  find_where, update_where, count_where, find-update, count_of_found, All-find,
}
use mosaicvpn.Invites.Types.{Status, Invite, pending}
use mosaicvpn.Invites.Create.{with_hash}
use mosaicvpn.Invites.Claim.{
  is_claimed, to_processing, pending_id, claim_pending, claim_row, claim_selected, claim_checked,
  claim, validate_claim,
}
use mosaicvpn.Invites.Admin.{revocable, to_revoked, revoke_args, revoke_checked, revoke}
use mosaicvpn.Invites.Steps.{IsConsistent, IsValid, Call, run}
use mosaicvpn.Invites.Refines.{claim_checked-Step, revoke_checked-Step}
use mosaicvpn.Invites.Validity.{Step-IsValid}
use mosaicvpn.Invites.Lifecycle.{Follows, find-run, advances}

module _ (now : ℕ) (account : ℤ) (label : Option Text) (r : Invite) (t : List Invite) where
  -- Only a live pending row is claimed.
  claim_row-needs :
      is_claimed (ok (claim_row now account label r t).0) ≡ true
      → (now < r.expires_at)
        × (r.status ≡ pending)
        × ((claim_row now account label r t).1
            ≡ update_where (pending_id r.id) (to_processing now account label) t)
  unfolding claim_row claim_pending
  claim_row-needs h = ground arith

  claim_row-gives :
      IsConsistent r
      → 1 ≤ count_where (pending_id r.id) t
      → now < r.expires_at
      → r.status ≡ pending
      → is_claimed (ok (claim_row now account label r t).0) ≡ true
  unfolding claim_row claim_pending
  claim_row-gives c one live p = ground arith

-- The row of a claim that succeeds, before and after it.
claim_checked-takes :
    (hash : Text → Text) (now : ℕ) (token : Text) (account : ℤ) (label : Option Text)
    (t : List Invite)
    → let (c, t') = claim_checked hash now (ok (token, account, label)) t in
      is_claimed c ≡ true
      → (r : Invite) × (find_where (with_hash (hash token)) t ≡ some r)
        × (now < r.expires_at)
        × (r.status ≡ pending)
        × (find_where (with_hash (hash token)) t' ≡ some (to_processing now account label r))
unfolding claim_checked claim_selected
claim_checked-takes hash now token account label t h =
    elim (Option-cases (find_where (with_hash (hash token)) t)) [
      | inl none_found ↦ absurd (ground arith)
      | inr (r, found) ↦
          let own : is_claimed (ok (claim_row now account label r t).0) ≡ true = ground arith in
          let (live, p, table) = claim_row-needs now account label r t own in
          let hit : pending_id r.id r ≡ true = ground (arith, eq_text_refl r.id) in
          (
            r,
            found,
            live,
            p,
            rw (found, claim_selected, table)
                (find-update (with_hash (hash token)) (pending_id r.id)
                    (to_processing now account label) (λ x. refl) t
                  ∙ rw (found, hit) refl),
          )
    ]

-- With arguments that pass the checks and a valid table, a claim succeeds exactly when the token's
-- hash is that of a stored invite which is pending and not yet expired.
pub claim-claimed_iff :
    (hash : Text → Text) (now : ℕ) (tv av lv gv : Value) {token : Text} {account : ℤ}
    {label : Option Text} (t : List Invite)
    → validate_claim tv av lv gv ≡ ok (token, account, label)
    → IsValid t
    → (is_claimed (claim hash now tv av lv gv t).0 ≡ true) ↔ (
        (r : Invite) × (find_where (with_hash (hash token)) t ≡ some r)
        × (now < r.expires_at)
        × (r.status ≡ pending))
unfolding claim
claim-claimed_iff hash now tv av lv gv {token} {account} {label} t e v = rw e (
  (λ h.
      let (r, found, live, p, _) = claim_checked-takes hash now token account label t h in
      (r, found, live, p)),
  (λ (r, found, live, p).
      let one =
        count_of_found (with_hash (hash token)) (pending_id r.id) t found
          (ground (arith, eq_text_refl r.id)) in
      unfold claim_checked claim_selected in
      rw found (
        claim_row-gives now account label r t
          (All-find IsConsistent (with_hash (hash token)) t v.rows found) one live p)),
)

hash_steady : (h : Text) (r r' : Invite) → Follows r r' → with_hash h r' ≡ with_hash h r
hash_steady h r r' f = ap (λ (k : Text). eq_text k h) f.token_hash

advances_past_pending : (s s' : Status) → s ≢ pending → advances s s' ≡ true → s' ≢ pending
advances_past_pending s s' h k = ground arith

module _ (hash : Text → Text) (now : ℕ) (token : Text) (account : ℤ) (label : Option Text) where
  -- A token whose invite is no longer pending is never claimed again.
  dead_token :
      (cs : List Call) (t : List Invite) (r : Invite)
      → IsValid t
      → find_where (with_hash (hash token)) t ≡ some r
      → r.status ≢ pending
      → is_claimed (claim_checked hash now (ok (token, account, label)) (run hash cs t)).0 ≢ true
  dead_token cs t r v found over again =
      let (r2, found2, f) =
        find-run (with_hash (hash token)) (hash_steady (hash token)) hash cs t v found in
      let (r3, found3, _, p, _) =
        claim_checked-takes hash now token account label (run hash cs t) again in
      let r2≡r3 : r2 ≡ r3 = cc in
      advances_past_pending r.status r2.status over f.status
        (ap (λ (x : Invite). x.status) r2≡r3 ∙ p)

-- In a valid table, once a claim has succeeded, no claim of an invite with that token hash succeeds again, whoever
-- makes it, after whatever run of calls and at whatever time.
pub claim_single_winner :
    (hash : Text → Text) (now now' : ℕ) (tv av lv gv tv' av' lv' gv' : Value) {token token' : Text}
    {account account' : ℤ} {label label' : Option Text} (cs : List Call) (t : List Invite)
    → validate_claim tv av lv gv ≡ ok (token, account, label)
    → validate_claim tv' av' lv' gv' ≡ ok (token', account', label')
    → hash token' ≡ hash token
    → IsValid t
    → let (c, t') = claim hash now tv av lv gv t in
      is_claimed c ≡ true → is_claimed (claim hash now' tv' av' lv' gv' (run hash cs t')).0 ≢ true
unfolding claim
claim_single_winner hash now now' tv av lv gv tv' av' lv' gv' {token} {token'} {account} {account'}
      {label} {label'} cs t e e' same v =
    rw (e, e')
      λ h.
        let (r, _, _, _, found) = claim_checked-takes hash now token account label t h in
        dead_token hash now' token' account' label' cs _ (to_processing now account label r)
          (Step-IsValid (claim_checked-Step hash now (ok (token, account, label)) t) v)
          (rw same found) (ground arith)

-- In a valid table, the owner of a live pending invite can revoke it: `revoke` answers True, and from then on no claim
-- with its token succeeds, after whatever run of calls and at whatever time.
pub revoke_final :
    (hash : Text → Text) (now now' : ℕ) (iv ov tv av lv gv : Value) {i : Text} {admin : ℤ}
    {token : Text} {account : ℤ} {label : Option Text} {r : Invite} (cs : List Call)
    (t : List Invite)
    → revoke_args iv ov ≡ ok (i, admin)
    → validate_claim tv av lv gv ≡ ok (token, account, label)
    → IsValid t
    → find_where (with_hash (hash token)) t ≡ some r
    → r.id ≡ i
    → r.admin_id ≡ admin
    → r.status ≡ pending
    → now < r.expires_at
    → let (b, t') = revoke now iv ov t in
      (b ≡ ok true) × (is_claimed (claim hash now' tv av lv gv (run hash cs t')).0 ≢ true)
unfolding claim revoke revoke_checked
revoke_final hash now now' iv ov tv av lv gv {i} {admin} {token} {account} {label} {r} cs t e e' v
      found own owner p live =
    let hit : revocable now i admin r ≡ true =
      ground (arith, eq_text_iff r.id i, eq_ℤ_iff r.admin_id admin) in
    let one = count_of_found (with_hash (hash token)) (revocable now i admin) t found hit in
    rw (e, e')
      (
        ground arith,
        dead_token hash now' token account label cs _ (to_revoked now r)
            (Step-IsValid (revoke_checked-Step now (ok (i, admin)) t) v)
            (find-update (with_hash (hash token)) (revocable now i admin) (to_revoked now)
                (λ x. refl) t
              ∙ rw (found, hit) refl)
            (ground arith),
      )
