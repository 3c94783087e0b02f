-- ===== src/Shop/Limits.antt =====
-- `rate_limit_check` of bot/bot.py: how often a user may act. Instants are microseconds.
use mosaicvpn.Prelude.{
  ℕ, ◌-◌, ◌*◌, Bool, true, false, ◌&&◌, ◌==◌, List, [], ◌∷◌, ◌++◌, is_some, leb, ltb, if◌then◌else◌,
}
use mosaicvpn.Prelude.Int.{ℤ, eq_ℤ}
use mosaicvpn.Prelude.Text.{Text, text, eq_text}
use mosaicvpn.Prelude.Table.{find_where, delete_where, count_where}

-- `rate_limits`
pub record Mark : Type 0 where
  pub telegram_id : ℤ
  pub action : Text
  pub ts : ℕ

-- `RATE_LIMIT_RULES`, with the default of an unknown action: the number of acts, and the seconds.
unfoldable pub rate_limit_rules : Text → ℕ × ℕ
rate_limit_rules action =
    if eq_text action (text "message")
    then (5, 60)
    else if eq_text action (text "ref_click")
    then (10, 86400)
    else if eq_text action (text "ticket")
    then (3, 3600)
    else if eq_text action (text "promo_apply")
    then (3, 3600)
    else if eq_text action (text "rating")
    then (1, 86400)
    else if eq_text action (text "broadcast")
    then (1, 60)
    else (10, 60)

abbrev pub window : Text → ℕ
window action = (rate_limit_rules action).1 * 1000000

-- `action = ? AND ts < ?`
abbrev pub is_stale : Text → ℕ → Mark → Bool
is_stale action cutoff r = eq_text r.action action && ltb r.ts cutoff

abbrev pub is_of : ℤ → Text → Mark → Bool
is_of i action r = eq_ℤ r.telegram_id i && eq_text r.action action

-- `telegram_id = ? AND action = ? AND ts >= ?`
abbrev pub is_recent : ℤ → Text → ℕ → Mark → Bool
is_recent i action cutoff r = is_of i action r && leb cutoff r.ts

abbrev pub is_same : ℤ → Text → ℕ → Mark → Bool
is_same i action now r = is_of i action r && r.ts == now

abbrev pub new_mark : ℤ → Text → ℕ → Mark
new_mark i action now = record { telegram_id = i; action = action; ts = now }

-- `INSERT OR IGNORE`
abbrev pub mark_inserted : ℤ → Text → ℕ → List Mark → List Mark
mark_inserted i action now t =
    if is_some (find_where (is_same i action now) t) then t else t ++ new_mark i action now ∷ []

unfoldable pub rate_limit_check : ℕ → ℤ → Text → List Mark → Bool × List Mark
rate_limit_check now i action t =
    let cutoff = now - window action in
    let rest = delete_where (is_stale action cutoff) t in
    if leb (rate_limit_rules action).0 (count_where (is_recent i action cutoff) rest)
    then (false, rest)
    else (true, mark_inserted i action now rest)

pub record Act : Type 0 where
  pub now : ℕ
  pub telegram_id : ℤ
  pub action : Text

unfoldable pub rate_run : List Act → List Mark → List Mark
rate_run [] t = t
rate_run (a ∷ acts) t = rate_run acts (rate_limit_check a.now a.telegram_id a.action t).1
