-- ===== src/Cabinet/AccountEffects.antt =====
-- The effects of the operations on website accounts of bot/bot.py on the cabinet's tables.
use mosaicvpn.Prelude.{
  ℕ, ◌≡◌, ◌≢◌, ◌⊎◌, refl, sym, subst, Bool, true, false, Option, none, some, List, [], ◌∷◌, ◌++◌,
  arith, inl, inr, is_some, leb, Bool-cases, Option-cases, or_else,
}
use mosaicvpn.Prelude.Int.{ℤ}
use mosaicvpn.Prelude.Text.{Text, truthy}
use mosaicvpn.Prelude.Table.{find_where, update_where, delete_where}
use mosaicvpn.Prelude.Result.{Result, ok, raise}
use mosaicvpn.Cabinet.Tables.{ResetToken, Tables, has_user_id}
use mosaicvpn.Cabinet.Accounts.{
  Digests, normalize_email, is_email, validate_password, with_email, of_account, Created, created,
  provider, allocate_website_account_id, web_username, welcome_trial_days, new_user, new_credential,
  insert_account, provisioned, create_checked, create_website_account, attached, is_other,
  attach_checked, attach_website_credentials,
}
use mosaicvpn.Cabinet.Resets.{
  has_hash, live_reset, reset_stored, issue_password_reset, reset_tables, reset_row, reset_checked,
  hash_of_typed, reset_website_password,
}

module _ (d : Digests) where
  -- A registration: a new user and a new credential, with all keys free.
  abbrev pub Registers : ℕ → Text → Text → Text → ℤ → Text → Tables → Tables → Type 0
  Registers now email password salt i short_uuid s s' =
      (find_where (of_account i) s.credentials ≡ none)
      × (find_where (with_email email) s.credentials ≡ none)
      × (find_where (has_user_id i) s.users ≡ none)
      × (s' ≡ record s {
        users = s.users ++ new_user now i short_uuid ∷ [];
        credentials = s.credentials ++ new_credential d now i email password salt ∷ [];
      })

  insert_account-effect :
      (now : ℕ) (email password salt : Text) (i : ℤ) (short_uuid : Text) (s : Tables)
      → let out = insert_account d now email password salt i short_uuid s in
        ((out.1 ≡ s) × (out.0 ≡ provider))
        ⊎ ((out.0 ≡ created i (web_username i) short_uuid)
            × Registers now email password salt i short_uuid s out.1)
  unfolding insert_account
  insert_account-effect now email password salt i short_uuid s =
      elim (Bool-cases (truthy short_uuid)) [
        | inr empty ↦ rw empty (inl (refl, refl))
        | inl given ↦ elim (Option-cases (find_where (has_user_id i) s.users)) [
          | inr (u, known) ↦ rw (given, known) (inl (refl, refl))
          | inl new ↦ elim (Option-cases (find_where (of_account i) s.credentials)) [
            | inr (r, held) ↦ rw (given, new, held) (inl (refl, refl))
            | inl open_account ↦ elim (Option-cases (find_where (with_email email) s.credentials)) [
              | inr (r, used_email) ↦ rw (given, new, open_account, used_email) (inl (refl, refl))
              | inl fresh ↦
                  rw (given, new, open_account, fresh) (inr (refl, (refl, refl, refl, refl)))
            ]
          ]
        ]
      ]

  -- What a registration does: nothing, or a new account under checked texts.
  abbrev pub Registration :
      ℕ → Text → Option Text → Option Text → Created × Tables → Tables → Type 0
  Registration now salt email password out s =
      ((out.1 ≡ s) × ((i : ℤ) (name uuid : Text) → out.0 ≢ created i name uuid))
      ⊎ ((secret : Text) × (short_uuid : Text) × (validate_password password ≡ some secret)
          × (is_email (normalize_email d email) ≡ true)
          × (out.0
              ≡ created (allocate_website_account_id s.users)
                  (web_username (allocate_website_account_id s.users)) short_uuid)
          × Registers now (normalize_email d email) secret salt
              (allocate_website_account_id s.users) short_uuid s out.1)

  provisioned-Registration :
      (now : ℕ) (salt : Text) (email password : Option Text) (secret : Text)
      (o : Result (Option Text)) (s : Tables)
      → validate_password password ≡ some secret
      → is_email (normalize_email d email) ≡ true
      → Registration now salt email password
          (provisioned d now
            (normalize_email d email)
            secret
            salt
            (allocate_website_account_id s.users)
            o
            s)
          s
  unfolding provisioned
  provisioned-Registration now salt email password secret (raise e) s fit address =
      inl (refl, λ i name uuid h. ground arith)
  provisioned-Registration now salt email password secret (ok o) s fit address =
      elim (insert_account-effect now (normalize_email d email) secret salt
        (allocate_website_account_id s.users) (or_else o []) s) [
          | inl (same, refused) ↦ inl (same, λ i name uuid h. ground (arith, refused, h))
          | inr (made, registers) ↦ inr (secret, or_else o [], fit, address, made, registers)
        ]

  pub register-Registration :
      (now : ℕ) (salt : Text) (panel : Text → ℕ → ℤ → Result (Option Text))
      (email password : Option Text) (s : Tables)
      → Registration now salt email password
          (create_website_account d now salt panel email password s)
          s
  unfolding create_website_account create_checked
  register-Registration now salt panel email password s =
      elim (Option-cases (validate_password password)) [
        | inl short ↦ rw short (inl (refl, λ i name uuid e. ground arith))
        | inr (secret, fit) ↦ elim (Bool-cases (is_email (normalize_email d email))) [
          | inr odd ↦ rw (fit, odd) (inl (refl, λ i name uuid e. ground arith))
          | inl address ↦
              elim (Option-cases
                (find_where (with_email (normalize_email d email)) s.credentials)) [
                  | inr (r, taken) ↦
                      rw (fit, address, taken) (inl (refl, λ i name uuid e. ground arith))
                  | inl free ↦
                      let i = allocate_website_account_id s.users in
                      let out : create_website_account d now salt panel email password s
                          ≡ provisioned d now (normalize_email d email) secret salt i
                              (panel (web_username i) welcome_trial_days i) s =
                        rw (fit, address, free) refl in
                      subst (λ o. Registration now salt email password o s) (sym out)
                        (provisioned-Registration now salt email password secret
                          (panel (web_username i) welcome_trial_days i) s fit address)
                ]
        ]
      ]

  -- An attachment: the account's credential under an address that no other account has.
  abbrev pub Attaches : ℕ → Text → ℤ → Option Text → Tables → Tables → Type 0
  Attaches now salt i email s s' =
      (secret : Text) × (is_other d i
          (find_where (with_email (normalize_email d email)) s.credentials)
        ≡ false)
      × (s' ≡ record s {
        credentials =
            update_where (of_account i) (attached d now (normalize_email d email) secret salt)
              s.credentials;
      })

  pub attach-effect :
      (now : ℕ) (salt : Text) (i : ℤ) (email password : Option Text) (s : Tables)
      → let s' = (attach_website_credentials d now salt i email password s).1 in
        (s' ≡ s) ⊎ Attaches now salt i email s s'
  unfolding attach_website_credentials attach_checked
  attach-effect now salt i email password s = elim (Option-cases (validate_password password)) [
    | inl short ↦ rw short (inl refl)
    | inr (secret, fit) ↦ elim (Bool-cases (is_email (normalize_email d email))) [
      | inr odd ↦ rw (fit, odd) (inl refl)
      | inl address ↦ elim (Option-cases (find_where (of_account i) s.credentials)) [
        | inl absent ↦ rw (fit, address, absent) (inl refl)
        | inr (r, found) ↦
            elim (Bool-cases
              (is_other d i (find_where (with_email (normalize_email d email)) s.credentials))) [
                | inl other ↦ rw (fit, address, found, other) (inl refl)
                | inr own ↦ rw (fit, address, found, own) (inr (secret, refl, refl))
              ]
      ]
    ]
  ]

  pub issue_reset-effect :
      (now : ℕ) (code : Text) (mail : Text → Text → Bool) (email : Option Text) (s : Tables)
      → let s' = (issue_password_reset d now code mail email s).1 in
        (s' ≡ s) ⊎ ((t : List ResetToken) × (s' ≡ record s { resets = t }))
  unfolding issue_password_reset reset_stored
  issue_reset-effect now code mail email s =
      elim (Bool-cases (is_email (normalize_email d email))) [
        | inr odd ↦ rw odd (inl refl)
        | inl address ↦
            elim (Option-cases (find_where (with_email (normalize_email d email)) s.credentials)) [
              | inl absent ↦ rw (address, absent) (inl refl)
              | inr (r, found) ↦
                  elim (Option-cases (
                    find_where (has_hash (d.sha256 code))
                      (delete_where (live_reset r.account_id) s.resets))) [
                        | inr (x, taken) ↦ rw (address, found, taken) (inl refl)
                        | inl fresh ↦ rw (address, found, fresh) (inr (_, refl))
                      ]
            ]
      ]

  -- A reset: the password of the token's account, its token burnt, and its sessions and live codes gone.
  abbrev pub Resets : ℕ → Text → Option Text → Option Text → Bool × Tables → Tables → Type 0
  Resets now salt code password out s =
      (secret : Text) × (r : ResetToken) × (validate_password password ≡ some secret)
      × (find_where (has_hash (hash_of_typed d code)) s.resets ≡ some r)
      × (is_some r.used_at ≡ false)
      × (out ≡ (true, reset_tables d now secret salt (hash_of_typed d code) r.account_id s))

  pub reset-effect :
      (now : ℕ) (salt : Text) (code password : Option Text) (s : Tables)
      → let out = reset_website_password d now salt code password s in
        (out ≡ (false, s)) ⊎ Resets now salt code password out s
  unfolding reset_website_password reset_checked reset_row
  reset-effect now salt code password s = elim (Option-cases (validate_password password)) [
    | inl short ↦ rw short (inl refl)
    | inr (secret, fit) ↦
        elim (Option-cases (find_where (has_hash (hash_of_typed d code)) s.resets)) [
          | inl absent ↦ rw (fit, absent) (inl refl)
          | inr (r, found) ↦ elim (Bool-cases (is_some r.used_at)) [
            | inl spent ↦ rw (fit, found, spent) (inl refl)
            | inr fresh ↦ elim (Bool-cases (leb r.expires_at now)) [
              | inl late ↦ rw (fit, found, fresh, late) (inl refl)
              | inr live ↦
                  let out : reset_website_password d now salt code password s ≡ (
                    true,
                    reset_tables d now secret salt (hash_of_typed d code) r.account_id s,
                  ) =
                    rw (fit, found, fresh, live) refl in
                  inr (secret, r, fit, found, fresh, out)
            ]
          ]
        ]
  ]
