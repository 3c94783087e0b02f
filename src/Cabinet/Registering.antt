-- ===== src/Cabinet/Registering.antt =====
-- `authenticate_website_account` of bot/bot.py after a registration and after a password reset.
use mosaicvpn.Prelude.{
  ℕ, ◌≡◌, ◌∙◌, refl, sym, subst, ap, true, Option, none, some, [], ◌∷◌, ◌++◌, arith, inl, inr,
}
use mosaicvpn.Prelude.Int.{ℤ, eq_ℤ_refl}
use mosaicvpn.Prelude.Text.{Text, eq_text, eq_text_refl}
use mosaicvpn.Prelude.Table.{find_where, update_where, find-append_new, find-update_hit}
use mosaicvpn.Prelude.Result.{Result}
use mosaicvpn.Cabinet.Tables.{User, Credential, ResetToken, Tables, from_chat, has_user_id}
use mosaicvpn.Cabinet.Bind.{get_user, resolve_telegram_account_id}
use mosaicvpn.Cabinet.Accounts.{
  Digests, normalize_email, is_email, validate_password, with_email, of_account, created,
  allocate_website_account_id, new_user, new_credential, create_website_account, authenticate_row,
  authenticate_checked, authenticate_website_account,
}
use mosaicvpn.Cabinet.Resets.{
  has_hash, repassworded, reset_tables, hash_of_typed, reset_website_password,
}
use mosaicvpn.Cabinet.AccountEffects.{register-Registration, reset-effect}

get_user_of :
    (i : ℤ) {u : User} (s : Tables)
    → find_where (from_chat i) s.links ≡ none
    → find_where (has_user_id i) s.users ≡ some u
    → get_user i s ≡ some u
unfolding get_user resolve_telegram_account_id
get_user_of i s free found = rw free found

-- Without a link a number stands for its own account.
resolve-unlinked :
    (i : ℤ) (s : Tables)
    → find_where (from_chat i) s.links ≡ none
    → resolve_telegram_account_id i s ≡ i
unfolding resolve_telegram_account_id
resolve-unlinked i s free = rw free refl

module _ (d : Digests) where
  authenticates :
      (email password : Option Text) {secret : Text} {r : Credential} {u : User} (s : Tables)
      → validate_password password ≡ some secret
      → is_email (normalize_email d email) ≡ true
      → find_where (with_email (normalize_email d email)) s.credentials ≡ some r
      → d.scrypt secret r.password_salt ≡ r.password_hash
      → get_user r.account_id s ≡ some u
      → authenticate_website_account d email password s
        ≡ some (resolve_telegram_account_id r.account_id s, u)
  unfolding authenticate_website_account authenticate_checked authenticate_row
  authenticates email password {secret} {r} s fit address found own profile =
      let same : eq_text (d.scrypt secret r.password_salt) r.password_hash ≡ true =
        rw own (eq_text_refl r.password_hash) in
      rw (fit, address, found, same, profile) refl

  registered :
      (now : ℕ) (salt : Text) (email password : Option Text) {secret : Text} (i : ℤ) (uuid : Text)
      (s : Tables)
      → validate_password password ≡ some secret
      → is_email (normalize_email d email) ≡ true
      → find_where (with_email (normalize_email d email)) s.credentials ≡ none
      → find_where (has_user_id i) s.users ≡ none
      → find_where (from_chat i) s.links ≡ none
      → authenticate_website_account d email password (record s {
        users = s.users ++ new_user now i uuid ∷ [];
        credentials =
            s.credentials ++ new_credential d now i (normalize_email d email) secret salt ∷ [];
      })
        ≡ some (i, new_user now i uuid)
  registered now salt email password {secret} i uuid s fit address no_email no_user free =
      let e = normalize_email d email in
      let r = new_credential d now i e secret salt in
      let u = new_user now i uuid in
      let row : find_where (with_email e) (s.credentials ++ r ∷ []) ≡ some r =
        find-append_new (with_email e) s.credentials r no_email ∙ rw (eq_text_refl e) refl in
      let profile : find_where (has_user_id i) (s.users ++ u ∷ []) ≡ some u =
        find-append_new (has_user_id i) s.users u no_user ∙ rw (eq_ℤ_refl i) refl in
      let t : Tables = record s {
        users = s.users ++ u ∷ [];
        credentials = s.credentials ++ r ∷ [];
      } in
      authenticates email password {r = r} t fit address row refl (get_user_of i t free profile)
      ∙ ap (λ x. some (x, u)) (resolve-unlinked i t free)

  -- Who has registered can sign in: after a registration that answered an account to which no chat is
  -- linked under the same number, the same address and password give that account and its new profile.
  pub register-authenticate :
      (now : ℕ) (salt : Text) (panel : Text → ℕ → ℤ → Result (Option Text))
      (email password : Option Text) (i : ℤ) (name uuid : Text) (s : Tables)
      → (create_website_account d now salt panel email password s).0 ≡ created i name uuid
      → find_where (from_chat i) s.links ≡ none
      → authenticate_website_account d email password
          (create_website_account d now salt panel email password s).1
        ≡ some (i, new_user now i uuid)
  register-authenticate now salt panel email password i name uuid s h free =
      elim (register-Registration d now salt panel email password s) [
        | inl (_, never) ↦ absurd (never i name uuid h)
        | inr (secret, uuid', fit, address, made, (_, no_email, no_user, out)) ↦
            let own : i ≡ allocate_website_account_id s.users = cc in
            let given : uuid ≡ uuid' = cc in
            let free' : find_where (from_chat (allocate_website_account_id s.users)) s.links
                ≡ none =
              subst (λ x. find_where (from_chat x) s.links ≡ none) own free in
            subst
              (λ t. authenticate_website_account d email password t ≡ some (i, new_user now i uuid))
              (sym out)
              (registered now salt email password (allocate_website_account_id s.users) uuid' s fit
                  address no_email no_user free'
                ∙ rw (own, given) refl)
      ]

  -- A reset changes the password: after a reset that answered that it was done, an address whose
  -- credential is that of the reset's account signs in with the new password, and gets the account and
  -- the profile that it leads to.
  pub reset-authenticate :
      (now : ℕ) (salt : Text) (code email password : Option Text) (x : ResetToken) (r : Credential)
      (u : User) (s : Tables)
      → (reset_website_password d now salt code password s).0 ≡ true
      → find_where (has_hash (hash_of_typed d code)) s.resets ≡ some x
      → is_email (normalize_email d email) ≡ true
      → find_where (with_email (normalize_email d email)) s.credentials ≡ some r
      → r.account_id ≡ x.account_id
      → get_user r.account_id s ≡ some u
      → authenticate_website_account d email password
          (reset_website_password d now salt code password s).1
        ≡ some (resolve_telegram_account_id r.account_id s, u)
  unfolding get_user resolve_telegram_account_id
  reset-authenticate now salt code email password x r u s h token address row own profile =
      elim (reset-effect d now salt code password s) [
        | inl e ↦ absurd (ground (arith, h, ap (λ o. o.0) e))
        | inr (secret, x', fit, found, _, out) ↦
            let same : x' ≡ x = cc in
            let hash = hash_of_typed d code in
            let mine : of_account x'.account_id r ≡ true =
              rw (own, same) (eq_ℤ_refl x.account_id) in
            let after_row : find_where (with_email (normalize_email d email)) (
                  update_where (of_account x'.account_id) (repassworded d now secret salt)
                    s.credentials)
                ≡ some (repassworded d now secret salt r) =
              find-update_hit (with_email (normalize_email d email)) (of_account x'.account_id)
                (repassworded d now secret salt) (λ y. refl) s.credentials row mine in
            subst
              (λ o.
                authenticate_website_account d email password o.1
                ≡ some (resolve_telegram_account_id r.account_id s, u))
              (sym out)
              (authenticates email password {r = repassworded d now secret salt r}
                (reset_tables d now secret salt hash x'.account_id s) fit address after_row refl
                profile)
      ]
