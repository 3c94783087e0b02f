-- ===== src/Billing/Entitled.antt =====
-- Who is issued a Telegram trial by `claim_telegram_trial` of bot/mosaic_billing.py.
use mosaicvpn.Prelude.{
  ℕ, ◌+◌, ◌*◌, ◌≤◌, ◌≡◌, ◌↔◌, ◌⊎◌, refl, sym, subst, true, false, Option, none, some, List, [], ◌∷◌,
  arith, inl, inr, is_some, Bool-cases, Option-cases, All, All-append,
}
use mosaicvpn.Prelude.Int.{ℤ, pos, pos_part, ◌≤ℤ◌, leb_ℤ, eq_ℤ_iff}
use mosaicvpn.Prelude.Text.{Text, eq_text, eq_text_iff, eq_text_refl}
use mosaicvpn.Prelude.Table.{find_where, find-holds, All-find, All-update}
use mosaicvpn.Prelude.Result.{ok, raise, value_error}
use mosaicvpn.Billing.Types.{Account, has_id, TrialClaim, claimed}
use mosaicvpn.Billing.Trial.{
  TrialTables, claim_by, record_claim, is_elsewhere, is_running, claim_trial_row,
  claim_telegram_trial,
}
use mosaicvpn.Billing.Renewal.{PassesChecks, claimed-PassesChecks, own_claim, entitled-leaves}

-- Every claim of this channel by this user is the account's.
abbrev pub HoldsAlone : Text → ℤ → Text → List TrialClaim → Type 0
HoldsAlone channel user i =
    All (λ c. c.channel_username ≡ channel → c.telegram_user_id ≡ user → c.account_id ≡ i)

-- Two claims of one channel by one user are one account's.
abbrev pub IsExclusive : List TrialClaim → Type 0
IsExclusive l = All (λ c. HoldsAlone c.channel_username c.telegram_user_id c.account_id l) l

All-record_claim :
    (P : TrialClaim → Type 0) (c : TrialClaim) (l : List TrialClaim)
    → P c
    → All P l
    → All P (record_claim c l)
unfolding record_claim
All-record_claim P c l h all =
    let own = λ (x : TrialClaim). eq_text x.account_id c.account_id in
    elim (Bool-cases (is_some (find_where own l))) [
      | inl there ↦ rw there (All-update P own (λ x. c) (λ r t p. h) l all)
      | inr absent ↦ rw absent (All-append P l (c ∷ []) all (h, tt))
    ]

All-zip :
    (P Q R : TrialClaim → Type 0)
    → ((x : TrialClaim) → P x → Q x → R x)
    → (l : List TrialClaim) → All P l
    → All Q l
    → All R l
All-zip P Q R f [] p q = tt
All-zip P Q R f (x ∷ l) p q = (f x p.0 q.0, All-zip P Q R f l p.1 q.1)

module _ (channel : Text) (user : ℤ) (i : Text) where
  claim_by_iff :
      (c : TrialClaim)
      → (claim_by channel user c ≡ true)
        ↔ ((c.channel_username ≡ channel) × (c.telegram_user_id ≡ user))
  claim_by_iff c =
      let place = eq_text_iff c.channel_username channel in
      let person = eq_ℤ_iff c.telegram_user_id user in
      (
        λ h. (place.0 (ground (arith, h)), person.0 (ground (arith, h))),
        λ (p, q). let l = place.1 p in let r = person.1 q in rw (l, r) refl,
      )

  find_none-HoldsAlone :
      (l : List TrialClaim)
      → find_where (claim_by channel user) l ≡ none
      → HoldsAlone channel user i l
  find_none-HoldsAlone [] h = tt
  find_none-HoldsAlone (x ∷ l) h = elim (Bool-cases (claim_by channel user x)) [
    | inl hit ↦ absurd (ground (arith, h, hit))
    | inr miss ↦ (
      λ p q. let hit = (claim_by_iff x).1 (p, q) in absurd (ground (arith, hit, miss)),
      find_none-HoldsAlone l (rw miss at h),
    )
  ]

  first-HoldsAlone :
      (l : List TrialClaim)
      → IsExclusive l
      → is_elsewhere i (find_where (claim_by channel user) l) ≡ false
      → HoldsAlone channel user i l
  first-HoldsAlone l e h = elim (Option-cases (find_where (claim_by channel user) l)) [
    | inl absent ↦ find_none-HoldsAlone l absent
    | inr (x, found) ↦
        let (p, q) = (claim_by_iff x).0 (find-holds (claim_by channel user) l {r = x} found) in
        let own : eq_text x.account_id i ≡ true = ground (arith, h, found) in
        let same : x.account_id ≡ i = (eq_text_iff x.account_id i).0 own in
        let alone : HoldsAlone x.channel_username x.telegram_user_id x.account_id l =
          All-find (λ c. HoldsAlone c.channel_username c.telegram_user_id c.account_id l)
            (claim_by channel user) l {r = x} e found in
        subst (λ k. HoldsAlone channel user k l) same
          (subst (λ k. HoldsAlone channel k x.account_id l) q
            (subst (λ k. HoldsAlone k x.telegram_user_id x.account_id l) p alone))
  ]

  HoldsAlone-first :
      (l : List TrialClaim)
      → HoldsAlone channel user i l
      → is_elsewhere i (find_where (claim_by channel user) l) ≡ false
  HoldsAlone-first l h = elim (Option-cases (find_where (claim_by channel user) l)) [
    | inl absent ↦ rw absent refl
    | inr (x, found) ↦
        let (p, q) = (claim_by_iff x).0 (find-holds (claim_by channel user) l {r = x} found) in
        let own : x.account_id ≡ i =
          All-find
            (λ c. c.channel_username ≡ channel → c.telegram_user_id ≡ user → c.account_id ≡ i)
            (claim_by channel user) l {r = x} h found p q in
        rw (found, own) (rw (eq_text_refl i) refl)
  ]

-- What an account claims alone leaves the claims exclusive.
record_claim-IsExclusive :
    (c : TrialClaim) (l : List TrialClaim)
    → HoldsAlone c.channel_username c.telegram_user_id c.account_id l
    → IsExclusive l
    → IsExclusive (record_claim c l)
record_claim-IsExclusive c l alone e =
    let after = record_claim c l in
    let Alone : TrialClaim → Type 0 =
      λ x. HoldsAlone x.channel_username x.telegram_user_id x.account_id after in
    All-record_claim Alone c l
      (All-record_claim
        (λ x.
          x.channel_username ≡ c.channel_username
          → x.telegram_user_id ≡ c.telegram_user_id
          → x.account_id ≡ c.account_id)
        c l (λ p q. refl) alone)
      (All-zip (λ x. HoldsAlone x.channel_username x.telegram_user_id x.account_id l)
        (λ x.
          x.channel_username ≡ c.channel_username
          → x.telegram_user_id ≡ c.telegram_user_id
          → x.account_id ≡ c.account_id)
        Alone
        (λ x before own.
          All-record_claim
            (λ y.
              y.channel_username ≡ x.channel_username
              → y.telegram_user_id ≡ x.telegram_user_id
              → y.account_id ≡ x.account_id)
            c l (λ p q. sym (own (sym p) (sym q))) before)
        l e alone)

module _ (now : ℕ) (i : Text) (user : ℤ) (channel : Text) (days : ℤ) where
  -- The account is known, its trial is over or never began, and every earlier claim of this channel by
  -- this user is its own.
  pub record IsEntitled (t : TrialTables) (a : Account) : Type 0 where
    pub known : find_where (λ x. eq_text x.id i) t.0 ≡ some a
    pub over : (ends : ℕ) → a.trial_ends_at ≡ some ends → ends ≤ now
    pub alone : HoldsAlone channel user i t.1

  over_iff : (o : Option ℕ) → (is_running now o ≡ false) ↔ ((ends : ℕ) → o ≡ some ends → ends ≤ now)
  unfolding is_running
  over_iff none = (λ h ends e. absurd (cc), λ h. refl)
  over_iff (some n) = (λ h ends e. ground arith, λ h. let late = h n refl in ground (arith, late))

  PassesChecks-IsEntitled :
      (t : TrialTables) (a : Account)
      → IsExclusive t.1
      → PassesChecks now i user channel days t a ↔ IsEntitled t a
  PassesChecks-IsEntitled t a e = (
    λ p. record {
      known = p.known;
      over = (over_iff a.trial_ends_at).0 p.over;
      alone = first-HoldsAlone channel user i t.1 e p.free;
    },
    λ p. record {
      known = p.known;
      over = (over_iff a.trial_ends_at).1 p.over;
      free = HoldsAlone-first channel user i t.1 p.alone;
    },
  )

  -- What is not issued changes nothing.
  claimed_or_kept :
      (t : TrialTables)
      → ((claim_telegram_trial now i user channel days t).1 ≡ t)
        ⊎ ((leb_ℤ days (pos 0) ≡ false)
            × ((a : Account) × PassesChecks now i user channel days t a))
  unfolding claim_telegram_trial claim_trial_row
  claimed_or_kept t = elim (Bool-cases (leb_ℤ days (pos 0))) [
    | inl bad ↦ inl (rw bad refl)
    | inr positive ↦ elim (Option-cases (find_where (has_id i) t.0)) [
      | inl absent ↦ inl (rw (positive, absent) refl)
      | inr (a, found) ↦ elim (Bool-cases (is_running now a.trial_ends_at)) [
        | inl on ↦ inl (rw (positive, found) (rw on refl))
        | inr over ↦ elim (Bool-cases (is_elsewhere i (find_where (claim_by channel user) t.1))) [
          | inl other ↦ inl (rw (positive, found) (rw (over, other) refl))
          | inr free ↦ inr (positive, (a, record { known = found; over = over; free = free }))
        ]
      ]
    ]
  ]

  claim-IsExclusive :
      (t : TrialTables)
      → IsExclusive t.1
      → IsExclusive (claim_telegram_trial now i user channel days t).1.1
  claim-IsExclusive t e = elim (claimed_or_kept t) [
    | inl same ↦ rw same e
    | inr (positive, (a, p)) ↦ rw (entitled-leaves now i user channel days t a positive p) (
        record_claim-IsExclusive (own_claim now i user channel days) t.1
          (first-HoldsAlone channel user i t.1 e p.free) e)
  ]

  no_days :
      (t : TrialTables)
      → leb_ℤ days (pos 0) ≡ true
      → (claim_telegram_trial now i user channel days t).0 ≡ raise value_error
  unfolding claim_telegram_trial
  no_days t h = rw h refl

  -- Claims of trials, each of one channel by one user: if two of one pair are always one account's,
  -- this is so after `claim_telegram_trial`, and the trial is issued, up to so many days of 24 hours
  -- from now, exactly when the days are positive and the account is known, its trial is over or never
  -- began, and no other account has claimed this channel with this user.
  pub trial-claimed_iff :
      (t : TrialTables)
      → IsExclusive t.1
      → let (reply, t') = claim_telegram_trial now i user channel days t in
        IsExclusive t'.1
        × ((reply ≡ ok (claimed (now + pos_part days * (24 * 60 * 60 * 1000000))))
            ↔ ((pos 1 ≤ℤ days) × ((a : Account) × IsEntitled t a)))
  trial-claimed_iff t e = (
    claim-IsExclusive t e,
    elim (Bool-cases (leb_ℤ days (pos 0))) [
      | inl bad ↦
          let none_issued = no_days t bad in
          (
            λ h. absurd (ground (arith, h, none_issued)),
            λ w. let some_days = w.0 in absurd (ground (arith, bad, some_days)),
          )
      | inr positive ↦
          let issued = claimed-PassesChecks now i user channel days t positive in
          (
            λ h.
                let (a, p) = issued.0 h in
                (ground (arith, positive), (a, (PassesChecks-IsEntitled t a e).0 p)),
            λ w. let (a, p) = w.1 in issued.1 (a, (PassesChecks-IsEntitled t a e).1 p),
          )
    ],
  )
