-- ===== src/Cabinet/Signing.antt =====
-- `issue_app_auth_code` and `redeem_app_auth_code` of bot/bot.py, along runs of the cabinet's
-- operations.
use mosaicvpn.Prelude.{
  ℕ, ◌+◌, ◌*◌, ◌<◌, ◌≡◌, ◌≢◌, ◌∙◌, ◌==◌, refl, ap, Bool, true, false, ◌||◌, Option, none, some,
  List, [], ◌∷◌, ◌++◌, arith, inl, inr, Bool-cases, Option-cases, if◌then◌else◌, or_else, is_some,
  leb,
}
use mosaicvpn.Prelude.Int.{ℤ}
use mosaicvpn.Prelude.Text.{Text, eq_text, eq_text_refl}
use mosaicvpn.Prelude.Table.{
  find_where, update_where, delete_where, count_where, find-append, find-append_new,
  find-delete_kept, find-update_kept, find-update_hit, find-holds, find-none, count_of_none,
  count-append,
}
use mosaicvpn.Prelude.Result.{ok}
use mosaicvpn.Cabinet.Tables.{AuthCode, Tables, has_auth_code}
use mosaicvpn.Cabinet.Sessions.{
  get_web_session, new_auth_code, auth_ttl_seconds, issue_app_auth_code, Authorised, account,
  state_mismatch, is_bad, is_purpose, purpose_of, unused_auth, auth_burnt, redeem_auth_row,
  redeem_app_auth_code,
}
use mosaicvpn.Cabinet.Resets.{live_auth}
use mosaicvpn.Cabinet.Bind.{unlink_telegram_account}
use mosaicvpn.Cabinet.Accounts.{Digests}
use mosaicvpn.Cabinet.Steps.{
  Call, issue_bind, claim_bind, unlink, log_in, issue_auth, redeem_auth, register, attach,
  issue_reset, reset, after, run,
}
use mosaicvpn.Cabinet.Effects.{
  issue_bind-effect, claim-Claims, log_in-effect, issue_auth-effect, redeem_auth-effect,
}
use mosaicvpn.Cabinet.AccountEffects.{
  register-Registration, attach-effect, issue_reset-effect, reset-effect,
}

-- How a call may change the callback codes.
pub data AuthStep (t : List AuthCode) : List AuthCode → Type 0 where
  same : AuthStep t t
  issued :
      (new : AuthCode) → find_where (has_auth_code new.code) t ≡ none → AuthStep t (t ++ new ∷ [])
  burnt : (now : ℕ) (c : Text) → AuthStep t (update_where (unused_auth c) (auth_burnt now) t)
  revoked : (i : ℤ) → AuthStep t (delete_where (live_auth i) t)

keeps_codes : {t t' : List AuthCode} → t' ≡ t → AuthStep t t'
keeps_codes e = rw e same

inserts :
    {t t' : List AuthCode} (new : AuthCode)
    → t' ≡ t ++ new ∷ []
    → find_where (has_auth_code new.code) t ≡ none
    → AuthStep t t'
inserts new e fresh = rw e (issued new fresh)

burns :
    {t t' : List AuthCode} (now : ℕ) (c : Text)
    → t' ≡ update_where (unused_auth c) (auth_burnt now) t
    → AuthStep t t'
burns now c e = rw e (burnt now c)

revokes : {t t' : List AuthCode} (i : ℤ) → t' ≡ delete_where (live_auth i) t → AuthStep t t'
revokes i e = rw e (revoked i)

purpose_kept : (p : Text) → is_purpose p ≡ true → purpose_of p ≡ p
purpose_kept [] h = absurd (ground arith)
purpose_kept (c ∷ p) h = refl

module _ (d : Digests) where
  pub after-AuthStep : (c : Call) (s : Tables) → AuthStep s.auth_codes (after d c s).auth_codes
  unfolding after unlink_telegram_account
  after-AuthStep (issue_bind now draw i) s = elim (issue_bind-effect now draw i s) [
    | inl e ↦ keeps_codes (ap Tables.auth_codes e)
    | inr (t, e) ↦ keeps_codes (ap Tables.auth_codes e)
  ]
  after-AuthStep (claim_bind now raw i name) s =
      let (reply, _, outcome) = claim-Claims now raw i name s in
      elim outcome [
        | inl (_, e) ↦ keeps_codes (ap Tables.auth_codes e)
        | inr (_, _, _, _, e) ↦ keeps_codes (ap Tables.auth_codes e)
      ]
  after-AuthStep (unlink i) s = same
  after-AuthStep (log_in now token i name) s = elim (log_in-effect now token i name s) [
    | inl e ↦ keeps_codes (ap Tables.auth_codes e)
    | inr (_, e) ↦ keeps_codes (ap Tables.auth_codes e)
  ]
  after-AuthStep (issue_auth now code token state purpose) s =
      elim (issue_auth-effect now code token state purpose s) [
        | inl (e, _) ↦ keeps_codes (ap Tables.auth_codes e)
        | inr (who, _, _, _, fresh, e) ↦
            inserts (new_auth_code now code who (or_else state []) purpose)
              (ap (λ o. Tables.auth_codes o.1) e) fresh
      ]
  after-AuthStep (redeem_auth now code state) s = elim (redeem_auth-effect now code state s) [
    | inl e ↦ keeps_codes (ap Tables.auth_codes e)
    | inr e ↦ burns now (or_else code []) (ap Tables.auth_codes e)
  ]
  after-AuthStep (register now salt panel email password) s =
      elim (register-Registration d now salt panel email password s) [
        | inl (e, _) ↦ keeps_codes (ap Tables.auth_codes e)
        | inr (_, _, _, _, _, (_, _, _, e)) ↦ keeps_codes (ap Tables.auth_codes e)
      ]
  after-AuthStep (attach now salt i email password) s =
      elim (attach-effect d now salt i email password s) [
        | inl e ↦ keeps_codes (ap Tables.auth_codes e)
        | inr (_, _, e) ↦ keeps_codes (ap Tables.auth_codes e)
      ]
  after-AuthStep (issue_reset now code mail email) s =
      elim (issue_reset-effect d now code mail email s) [
        | inl e ↦ keeps_codes (ap Tables.auth_codes e)
        | inr (_, e) ↦ keeps_codes (ap Tables.auth_codes e)
      ]
  after-AuthStep (reset now salt code password) s = elim (reset-effect d now salt code password s) [
    | inl e ↦ keeps_codes (ap (λ o. Tables.auth_codes o.1) e)
    | inr (_, r, _, _, _, e) ↦ revokes r.account_id (ap (λ o. Tables.auth_codes o.1) e)
  ]

-- A callback code that is used.
abbrev pub IsUsed : Text → List AuthCode → Type 0
IsUsed c t = (r : AuthCode) × (find_where (has_auth_code c) t ≡ some r) × (is_some r.used_at ≡ true)

AuthStep-IsUsed : {t t' : List AuthCode} (c : Text) → AuthStep t t' → IsUsed c t → IsUsed c t'
AuthStep-IsUsed c same u = u
AuthStep-IsUsed {t = t} c (issued new fresh) (r, found, spent) =
    (r, find-append (has_auth_code c) t new found, spent)
AuthStep-IsUsed {t = t} c (burnt now b) (r, found, spent) = (
  r,
  find-update_kept (has_auth_code c) (unused_auth b) (auth_burnt now) (λ x. refl) t found
      (ground arith),
  spent,
)
AuthStep-IsUsed {t = t} c (revoked i) (r, found, spent) =
    (r, find-delete_kept (has_auth_code c) (live_auth i) t found (ground arith), spent)

run-IsUsed :
    (d : Digests) (cs : List Call) (c : Text) (s : Tables)
    → IsUsed c s.auth_codes
    → IsUsed c (run d cs s).auth_codes
unfolding run
run-IsUsed d [] c s u = u
run-IsUsed d (k ∷ cs) c s u =
    run-IsUsed d cs c (after d k s) (AuthStep-IsUsed c (after-AuthStep d k s) u)

abbrev pub is_account : Authorised → Bool
is_account (account i name purpose) = true
is_account _ = false

redeem_row-burns :
    (now : ℕ) (c state : Text) (s : Tables)
    → let out = redeem_auth_row now c state (find_where (has_auth_code c) s.auth_codes) s in
      is_account out.0 ≡ true → IsUsed c out.1.auth_codes
unfolding redeem_auth_row
redeem_row-burns now c state s = elim (Option-cases (find_where (has_auth_code c) s.auth_codes)) [
  | inl absent ↦ rw absent (λ h. absurd (ground arith))
  | inr (r, found) ↦ elim (Option-cases r.used_at) [
    | inr (u, spent) ↦ rw found (λ h. absurd (ground (arith, spent, h)))
    | inl fresh ↦ elim (Bool-cases (eq_text r.state state)) [
      | inr other ↦ rw found (λ h. absurd (ground (arith, fresh, other, h)))
      | inl own ↦ elim (Bool-cases (leb r.expires_at now)) [
        | inl late ↦ rw found (λ h. absurd (ground (arith, fresh, own, late, h)))
        | inr live ↦ elim (Bool-cases (count_where (unused_auth c) s.auth_codes == 1)) [
          | inr lost ↦ rw found (λ h. absurd (ground (arith, fresh, own, live, lost, h)))
          | inl one ↦
              let holds = find-holds (has_auth_code c) s.auth_codes {r = r} found in
              let unspent : is_some r.used_at ≡ false = rw fresh refl in
              let hit : unused_auth c r ≡ true = rw (holds, unspent) refl in
              rw (found, unspent, own, live, one)
                (λ h. (
                  auth_burnt now r,
                  find-update_hit (has_auth_code c) (unused_auth c) (auth_burnt now) (λ x. refl)
                      s.auth_codes found hit,
                  refl,
                ))
        ]
      ]
    ]
  ]
]

redeem-burns :
    (now : ℕ) (code state : Option Text) (s : Tables)
    → is_account (redeem_app_auth_code now code state s).0 ≡ true
    → (is_bad code ≡ false)
      × IsUsed (or_else code []) (redeem_app_auth_code now code state s).1.auth_codes
unfolding redeem_app_auth_code
redeem-burns now code state s = elim (Bool-cases (is_bad code)) [
  | inl bad ↦ rw bad (λ h. absurd (ground arith))
  | inr fit ↦ elim (Bool-cases (is_bad state)) [
    | inl bad ↦ rw (fit, bad) (λ h. absurd (ground arith))
    | inr fit' ↦
        rw (fit, fit') (λ h. (refl, redeem_row-burns now (or_else code []) (or_else state []) s h))
  ]
]

redeem-refuses :
    (now : ℕ) (code state : Option Text) (s : Tables)
    → IsUsed (or_else code []) s.auth_codes
    → is_account (redeem_app_auth_code now code state s).0 ≢ true
unfolding redeem_app_auth_code redeem_auth_row
redeem-refuses now code state s (r, found, spent) =
    elim (Bool-cases (is_bad code || is_bad state)) [
      | inl bad ↦ rw bad (λ h. ground arith)
      | inr fit ↦ rw (fit, found, spent) (λ h. ground arith)
    ]

-- A callback code signs in once: after a redeem that answered an account, and any run of the cabinet's
-- operations, no redeem of the code answers an account, with whatever state.
pub auth_code_once :
    (d : Digests) (now now' : ℕ) (code state state' : Option Text) (cs : List Call) (s : Tables)
    → is_account (redeem_app_auth_code now code state s).0 ≡ true
    → is_account
        (redeem_app_auth_code now' code state'
          (run d cs (redeem_app_auth_code now code state s).1)).0
      ≢ true
auth_code_once d now now' code state state' cs s h =
    let s1 = (redeem_app_auth_code now code state s).1 in
    redeem-refuses now' code state' (run d cs s1)
      (run-IsUsed d cs (or_else code []) s1 (redeem-burns now code state s h).1)

redeem_row-gives :
    (now : ℕ) (c state : Text) (r : AuthCode) (s : Tables)
    → find_where (has_auth_code c) s.auth_codes ≡ some r
    → r.used_at ≡ none
    → now < r.expires_at
    → count_where (unused_auth c) s.auth_codes ≡ 1
    → (redeem_auth_row now c state (some r) s).0 ≡ (
        if eq_text r.state state
        then account r.telegram_id r.username (purpose_of r.purpose)
        else state_mismatch)
unfolding redeem_auth_row
redeem_row-gives now c state r s found fresh early one = ground (arith, fresh)

-- A code signs in the account of its session: until its five minutes are over, a fresh code, redeemed
-- with a text of allowed length as the state, answers the session's account and the purpose if this is
-- the state that it was issued for, and a mismatch of the states if not.
pub issue-redeem_auth :
    (now now' : ℕ) (code purpose : Text) (token state state' : Option Text) (s : Tables)
    → (issue_app_auth_code now code token state purpose s).0 ≡ ok (some code)
    → is_bad (some code) ≡ false
    → is_bad state' ≡ false
    → now' < now + auth_ttl_seconds * 1000000
    → (who : ℤ × Text) × (get_web_session now token s ≡ some who)
      × ((redeem_app_auth_code now'
            (some code)
            state'
            (issue_app_auth_code now code token state purpose s).1).0
          ≡ (if eq_text (or_else state []) (or_else state' [])
              then account who.0 who.1 purpose
              else state_mismatch))
unfolding redeem_app_auth_code
issue-redeem_auth now now' code purpose token state state' s h fit fit' early =
    elim (issue_auth-effect now code token state purpose s) [
      | inl (_, never) ↦ absurd (never code h)
      | inr (who, session, _, known, fresh, out) ↦
          let new = new_auth_code now code who (or_else state []) purpose in
          let s1 : Tables = record s { auth_codes = s.auth_codes ++ new ∷ [] } in
          let me : has_auth_code code new ≡ true = eq_text_refl code in
          let row : find_where (has_auth_code code) s1.auth_codes ≡ some new =
            find-append_new (has_auth_code code) s.auth_codes new fresh ∙ rw me refl in
          let before : count_where (unused_auth code) s.auth_codes ≡ 0 =
            count_of_none (unused_auth code) s.auth_codes (
              find-none (unused_auth code) (has_auth_code code) (λ r e. ground arith) s.auth_codes
                fresh) in
          let one : count_where (unused_auth code) s1.auth_codes ≡ 1 =
            count-append (unused_auth code) s.auth_codes new ∙ rw (before, me) refl in
          let gives = redeem_row-gives now' code (or_else state' []) new s1 row refl early one in
          let same_purpose : purpose_of purpose ≡ purpose = purpose_kept purpose known in
          (
            who,
            session,
            rw (ap (λ o. o.1) out) (rw (fit, fit', row) (gives ∙ rw same_purpose refl)),
          )
    ]
