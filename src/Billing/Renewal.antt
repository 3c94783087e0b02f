-- ===== src/Billing/Renewal.antt =====
-- Repeated calls of `claim_telegram_trial` of bot/mosaic_billing.py.
use mosaicvpn.Prelude.{
  ℕ, ◌≤◌, ◌≡◌, ◌∙◌, ◌↔◌, refl, true, false, some, List, [], ◌∷◌, arith, inl, inr, is_some,
  Bool-cases, Option-cases,
}
use mosaicvpn.Prelude.Int.{ℤ, pos, leb_ℤ, eq_ℤ_iff}
use mosaicvpn.Prelude.Text.{Text, eq_text, eq_text_refl}
use mosaicvpn.Prelude.Table.{
  find_where, update_where, find-update, find-holds, find-append, find-append_new,
}
use mosaicvpn.Prelude.Result.{ok}
use mosaicvpn.Billing.Types.{Account, has_id, TrialClaim, claimed}
use mosaicvpn.Billing.Trial.{
  TrialTables, claim_by, to_trial, trial_end, record_claim, is_elsewhere, is_running,
  claim_trial_row, claim_telegram_trial,
}

module _ (now : ℕ) (i : Text) (user : ℤ) (channel : Text) (days : ℤ) where
  -- The checks of `claim_telegram_trial` behind that of the days, passed for the account `a`.
  pub record PassesChecks (t : TrialTables) (a : Account) : Type 0 where
    pub known : find_where (has_id i) t.0 ≡ some a
    pub over : is_running now a.trial_ends_at ≡ false
    pub free : is_elsewhere i (find_where (claim_by channel user) t.1) ≡ false

  pub claimed-PassesChecks :
      (t : TrialTables)
      → leb_ℤ days (pos 0) ≡ false
      → ((claim_telegram_trial now i user channel days t).0 ≡ ok (claimed (trial_end now days)))
        ↔ ((a : Account) × PassesChecks t a)
  unfolding claim_telegram_trial claim_trial_row
  claimed-PassesChecks t positive = rw positive (elim (Option-cases (find_where (has_id i) t.0)) [
    | inl absent ↦ rw absent (
      (λ h. absurd (ground arith)),
      (λ (a, e). let k = e.known in absurd (ground (arith, absent, k))),
    )
    | inr (a, found) ↦ rw found (elim (Bool-cases (is_running now a.trial_ends_at)) [
      | inl on ↦ rw on (
        (λ h. absurd (ground arith)),
        (λ (x, e).
            let same : x ≡ a = row_of x a found e.known in
            let over : is_running now a.trial_ends_at ≡ false = rw same at e.over in
            absurd (ground arith)),
      )
      | inr over ↦ elim (Bool-cases (is_elsewhere i (find_where (claim_by channel user) t.1))) [
        | inl other ↦
            rw (over, other)
              ((λ h. absurd (ground arith)), (λ (x, e). let mine = e.free in absurd (ground arith)))
        | inr free ↦
            rw (over, free)
              ((λ h. (a, record { known = found; over = over; free = free })), (λ e. refl))
      ]
    ])
  ])
    where
      row_of :
          (x a : Account)
          → find_where (has_id i) t.0 ≡ some a
          → find_where (has_id i) t.0 ≡ some x
          → x ≡ a
      row_of x a h k = ground arith

  abbrev pub own_claim : TrialClaim
  own_claim = record { account_id = i; channel_username = channel; telegram_user_id = user }

  update-free :
      (t : List TrialClaim)
      → is_elsewhere i (find_where (claim_by channel user) t) ≡ false
      → is_elsewhere i (
          find_where
            (claim_by channel user)
            (update_where (λ x. eq_text x.account_id i) (λ x. own_claim) t))
        ≡ false
  update-free [] h = refl
  update-free (x ∷ t) h = elim (Bool-cases (eq_text x.account_id i)) [
    | inl own ↦ rw own (rw (own_pair, eq_text_refl i) refl)
    | inr other ↦ elim (Bool-cases (claim_by channel user x)) [
      | inl pair ↦ absurd (ground arith)
      | inr miss ↦ rw (other, miss) (update-free t (rw miss at h))
    ]
  ]
    where
      own_pair : claim_by channel user own_claim ≡ true
      own_pair = rw (eq_text_refl channel) ((eq_ℤ_iff user user).1 refl)

  record_claim-free :
      (t : List TrialClaim)
      → is_elsewhere i (find_where (claim_by channel user) t) ≡ false
      → is_elsewhere i (find_where (claim_by channel user) (record_claim own_claim t)) ≡ false
  unfolding record_claim
  record_claim-free t h = elim (Bool-cases (is_some (find_where (λ x. eq_text x.account_id i) t))) [
    | inl there ↦ rw there (update-free t h)
    | inr absent ↦ rw absent (elim (Option-cases (find_where (claim_by channel user) t)) [
      | inr (x, found) ↦ rw (find-append (claim_by channel user) t own_claim found) (rw found at h)
      | inl fresh ↦
          rw (find-append_new (claim_by channel user) t own_claim fresh)
            (elim (Bool-cases (claim_by channel user own_claim)) [
              | inl pair ↦ rw (pair, eq_text_refl i) refl
              | inr miss ↦ rw miss refl
            ])
    ])
  ]

  -- What an issued trial leaves.
  pub entitled-leaves :
      (t : TrialTables) (a : Account)
      → leb_ℤ days (pos 0) ≡ false
      → PassesChecks t a
      → (claim_telegram_trial now i user channel days t).1
        ≡ (update_where (has_id i) (to_trial now days) t.0, record_claim own_claim t.1)
  unfolding claim_telegram_trial claim_trial_row
  entitled-leaves t a positive e = rw (positive, e.known, e.over, e.free) refl

-- A trial can be taken again: once an account's trial of a positive number of days was issued, the
-- same call at any time from its end on issues the account another one, of any positive number of
-- days.
pub trial_renewable :
    (now now' : ℕ) (i : Text) (user : ℤ) (channel : Text) (days days' : ℤ) (t : TrialTables)
    → leb_ℤ days (pos 0) ≡ false
    → leb_ℤ days' (pos 0) ≡ false
    → (claim_telegram_trial now i user channel days t).0 ≡ ok (claimed (trial_end now days))
    → trial_end now days ≤ now'
    → (claim_telegram_trial now' i user channel days'
        (claim_telegram_trial now i user channel days t).1).0
      ≡ ok (claimed (trial_end now' days'))
trial_renewable now now' i user channel days days' t positive positive' h later =
    let (a, e) = (claimed-PassesChecks now i user channel days t positive).0 h in
    let left = entitled-leaves now i user channel days t a positive e in
    let mine = find-holds (has_id i) t.0 {r = a} e.known in
    let row : find_where (has_id i) (update_where (has_id i) (to_trial now days) t.0)
        ≡ some (to_trial now days a) =
      find-update (has_id i) (has_id i) (to_trial now days) (λ x. refl) t.0
      ∙ rw (e.known, mine) refl in
    (claimed-PassesChecks now' i user channel days'
        (claim_telegram_trial now i user channel days t).1 positive').1
      (
        to_trial now days a,
        record {
          known = rw left row;
          over = unfold is_running in ground arith;
          free = rw left (record_claim-free now i user channel days t.1 e.free);
        },
      )
