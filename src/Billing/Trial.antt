-- ===== src/Billing/Trial.antt =====
-- `claim_telegram_trial` of bot/mosaic_billing.py, on the tables of accounts and of trial claims.
use mosaicvpn.Prelude.{
  ℕ, ◌+◌, ◌*◌, Bool, false, not, ◌&&◌, Option, none, some, List, [], ◌∷◌, ◌++◌, is_some, ltb,
  if◌then◌else◌,
}
use mosaicvpn.Prelude.Int.{ℤ, pos, pos_part, leb_ℤ, eq_ℤ}
use mosaicvpn.Prelude.Text.{Text, eq_text}
use mosaicvpn.Prelude.Table.{find_where, update_where}
use mosaicvpn.Prelude.Result.{Result, ok, raise, value_error, lookup_error}
use mosaicvpn.Billing.Types.{
  Account, active, has_id, TrialClaim, TrialReply, already_active, already_claimed_elsewhere,
  claimed,
}

abbrev pub TrialTables : Type 0
TrialTables = List Account × List TrialClaim

abbrev pub claim_by : Text → ℤ → TrialClaim → Bool
claim_by channel user c = eq_text c.channel_username channel && eq_ℤ c.telegram_user_id user

-- `COALESCE(trial_started_at,now())`
abbrev pub started : ℕ → Option ℕ → Option ℕ
started now none = some now
started now (some t) = some t

-- `now()+(days * interval '1 day')`
abbrev pub trial_end : ℕ → ℤ → ℕ
trial_end now days = now + pos_part days * 86400000000

abbrev pub to_trial : ℕ → ℤ → Account → Account
to_trial now days a = record a {
  status = active;
  trial_started_at = started now a.trial_started_at;
  trial_ends_at = some (trial_end now days);
}

-- The INSERT with `ON CONFLICT(account_id) DO UPDATE`.
unfoldable pub record_claim : TrialClaim → List TrialClaim → List TrialClaim
record_claim c t =
    let own = λ (x : TrialClaim). eq_text x.account_id c.account_id in
    if is_some (find_where own t) then update_where own (λ x. c) t else t ++ c ∷ []

-- A prior claim of the pair by another account.
abbrev pub is_elsewhere : Text → Option TrialClaim → Bool
is_elsewhere i none = false
is_elsewhere i (some c) = not (eq_text c.account_id i)

unfoldable pub is_running : ℕ → Option ℕ → Bool
is_running now none = false
is_running now (some ends) = ltb now ends

abbrev pub end_or : ℕ → Option ℕ → ℕ
end_or d none = d
end_or d (some ends) = ends

unfoldable pub claim_trial_row :
    ℕ → Text → ℤ → Text → ℤ → Option Account → TrialTables → Result TrialReply × TrialTables
claim_trial_row now i user channel days none t = (raise lookup_error, t)
claim_trial_row now i user channel days (some a) t =
    if is_running now a.trial_ends_at
    then (ok (already_active (end_or now a.trial_ends_at)), t)
    else if is_elsewhere i (find_where (claim_by channel user) t.1)
    then (ok already_claimed_elsewhere, t)
    else (
      ok (claimed (trial_end now days)),
      (
        update_where (has_id i) (to_trial now days) t.0,
        record_claim
            (record { account_id = i; channel_username = channel; telegram_user_id = user }) t.1,
      ),
    )

unfoldable pub claim_telegram_trial :
    ℕ → Text → ℤ → Text → ℤ → TrialTables → Result TrialReply × TrialTables
claim_telegram_trial now i user channel days t =
    if leb_ℤ days (pos 0)
    then (raise value_error, t)
    else claim_trial_row now i user channel days (find_where (has_id i) t.0) t
