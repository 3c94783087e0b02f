-- ===== src/Cabinet/Revoking.antt =====
-- The sessions and the codes of an account after `reset_website_password` of bot/bot.py.
use mosaicvpn.Prelude.{
  ℕ, ◌≡◌, refl, sym, subst, ap, Bool, true, false, ◌||◌, Option, none, some, List, [], arith, inl,
  inr, Bool-cases, Option-cases, or_else, is_some, ltb,
}
use mosaicvpn.Prelude.Int.{ℤ, eq_ℤ}
use mosaicvpn.Prelude.Text.{Text}
use mosaicvpn.Prelude.Table.{find_where, delete_where, find-deleted, find-update_hit, find-holds}
use mosaicvpn.Cabinet.Tables.{Session, AuthCode, ResetToken, Tables, has_token, has_auth_code}
use mosaicvpn.Cabinet.Sessions.{
  session_row, get_web_session, Authorised, account, redeem_auth_row, redeem_app_auth_code, is_bad,
}
use mosaicvpn.Cabinet.Accounts.{Digests, validate_password}
use mosaicvpn.Cabinet.Resets.{
  has_hash, session_of, live_auth, unused_reset, reset_burnt, hash_of_typed, reset_tables,
  reset_row, reset_checked, reset_website_password,
}
use mosaicvpn.Cabinet.AccountEffects.{reset-effect}

abbrev pub is_session_of : ℤ → Option (ℤ × Text) → Bool
is_session_of i none = false
is_session_of i (some who) = eq_ℤ who.0 i

abbrev pub signs_in : ℤ → Authorised → Bool
signs_in i (account j name purpose) = eq_ℤ j i
signs_in i _ = false

row-owner :
    (i : ℤ) (now : ℕ) (c : Text) (rest : List Session)
    → is_session_of i
        (session_row now (find_where (has_token c) (delete_where (session_of i) rest)))
      ≡ false
unfolding session_row
row-owner i now c rest =
    elim (Option-cases (find_where (has_token c) (delete_where (session_of i) rest))) [
      | inl absent ↦ rw absent refl
      | inr (r, found) ↦ elim (Bool-cases (ltb r.expires_at now)) [
        | inl late ↦ rw (found, late) refl
        | inr live ↦ rw (found, live) (find-deleted (has_token c) (session_of i) rest found)
      ]
    ]

session-owner :
    (i : ℤ) (now : ℕ) (token : Option Text) (s : Tables) (rest : List Session)
    → s.sessions ≡ delete_where (session_of i) rest
    → is_session_of i (get_web_session now token s) ≡ false
unfolding get_web_session
session-owner i now token s rest e = elim (Bool-cases (is_bad token)) [
  | inl bad ↦ rw bad refl
  | inr fit ↦ rw (fit, e) (row-owner i now (or_else token []) rest)
]

code-owner :
    (i : ℤ) (now : ℕ) (c state : Text) (r : AuthCode) (s : Tables)
    → live_auth i r ≡ false
    → signs_in i (redeem_auth_row now c state (some r) s).0 ≡ false
unfolding redeem_auth_row
code-owner i now c state r s other = ground (arith, other)

redeem-owner :
    (i : ℤ) (now : ℕ) (code state : Option Text) (s : Tables) (rest : List AuthCode)
    → s.auth_codes ≡ delete_where (live_auth i) rest
    → signs_in i (redeem_app_auth_code now code state s).0 ≡ false
unfolding redeem_app_auth_code redeem_auth_row
redeem-owner i now code state s rest e = elim (Bool-cases (is_bad code || is_bad state)) [
  | inl bad ↦ rw bad refl
  | inr fit ↦ elim (Option-cases (find_where (has_auth_code (or_else code [])) s.auth_codes)) [
    | inl absent ↦ rw (fit, absent) refl
    | inr (r, found) ↦
        let gone : find_where (has_auth_code (or_else code [])) (delete_where (live_auth i) rest)
            ≡ some r =
          rw (sym e) found in
        let other = find-deleted (has_auth_code (or_else code [])) (live_auth i) rest gone in
        rw (fit, found) (code-owner i now (or_else code []) (or_else state []) r s other)
  ]
]

module _ (d : Digests) where
  token-refuses :
      (now : ℕ) (salt : Text) (code password : Option Text) (r : ResetToken) (s : Tables)
      → find_where (has_hash (hash_of_typed d code)) s.resets ≡ some r
      → is_some r.used_at ≡ true
      → (reset_website_password d now salt code password s).0 ≡ false
  unfolding reset_website_password reset_checked reset_row
  token-refuses now salt code password r s found spent =
      elim (Option-cases (validate_password password)) [
        | inl short ↦ rw short refl
        | inr (secret, fit) ↦ rw (fit, found, spent) refl
      ]

  -- What a reset takes back: when it has answered that it was done, it was for the account of a stored
  -- token, no session token gives that account, no callback code signs it in, and the reset code
  -- resets nothing again.
  pub reset_revokes :
      (now now' : ℕ) (salt salt' : Text) (code password password' token c state : Option Text)
      (s : Tables)
      → (reset_website_password d now salt code password s).0 ≡ true
      → let t = (reset_website_password d now salt code password s).1 in
        (r : ResetToken) × (find_where (has_hash (hash_of_typed d code)) s.resets ≡ some r)
        × (is_session_of r.account_id (get_web_session now' token t) ≡ false)
        × (signs_in r.account_id (redeem_app_auth_code now' c state t).0 ≡ false)
        × ((reset_website_password d now' salt' code password' t).0 ≡ false)
  reset_revokes now now' salt salt' code password password' token c state s h =
      elim (reset-effect d now salt code password s) [
        | inl e ↦ absurd (ground (arith, h, ap (λ o. o.0) e))
        | inr (secret, r, _, found, fresh, out) ↦
            let hash = hash_of_typed d code in
            let i = r.account_id in
            let t = reset_tables d now secret salt hash i s in
            let hit : unused_reset hash r ≡ true =
              rw (find-holds (has_hash hash) s.resets {r = r} found, fresh) refl in
            let burnt_row : find_where (has_hash hash) t.resets ≡ some (reset_burnt now r) =
              find-update_hit (has_hash hash) (unused_reset hash) (reset_burnt now) (λ x. refl)
                s.resets found hit in
            (
              r,
              found,
              subst (λ o. is_session_of i (get_web_session now' token o.1) ≡ false) (sym out)
                  (session-owner i now' token t s.sessions refl),
              subst (λ o. signs_in i (redeem_app_auth_code now' c state o.1).0 ≡ false) (sym out)
                  (redeem-owner i now' c state t s.auth_codes refl),
              subst (λ o. (reset_website_password d now' salt' code password' o.1).0 ≡ false)
                  (sym out)
                  (token-refuses now' salt' code password' (reset_burnt now r) t burnt_row refl),
            )
      ]
