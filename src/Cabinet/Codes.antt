-- ===== src/Cabinet/Codes.antt =====
-- `_link_code_normalise`, `issue_link_code` and `redeem_link_code` of bot/bot.py: pairing codes for
-- the clients. The random draws and the clock are arguments.
use mosaicvpn.Prelude.{
  ℕ, zero, suc, ◌+◌, ◌*◌, Bool, false, not, ◌&&◌, ◌||◌, ◌==◌, Option, none, some, List, [], ◌∷◌,
  ◌++◌, leb, ltb, is_some, or_else, if◌then◌else◌,
}
use mosaicvpn.Prelude.Int.{ℤ, eq_ℤ}
use mosaicvpn.Prelude.Text.{Text, text, eq_text, upper, truthy}
use mosaicvpn.Prelude.Table.{find_where, update_where, delete_where, count_where}
use mosaicvpn.Prelude.Result.{Result, ok, raise, runtime_error}

abbrev pub alphabet : Text
alphabet = text "ABCDEFGHJKMNPQRSTUVWXYZ23456789"

-- `ch in LINK_CODE_ALPHABET` of one character
abbrev pub occurs : ℕ → Text → Bool
occurs c [] = false
occurs c (d ∷ s) = c == d || occurs c s

abbrev pub ttl_minutes : ℕ
ttl_minutes = 10

abbrev pub max_attempts : ℕ
max_attempts = 5

abbrev pub keep_known : Text → Text
keep_known [] = []
keep_known (c ∷ s) = let rest = keep_known s in if occurs c alphabet then c ∷ rest else rest

-- Nothing or an empty text gives the empty text.
unfoldable pub normalise : Option Text → Text
unfolding upper
normalise none = []
normalise (some s) = keep_known (upper s)

pub record LinkCode : Type 0 where
  pub code : Text
  pub telegram_id : ℤ
  pub username : Text
  pub session_token : Text
  pub issued_at : ℕ
  pub expires_at : ℕ
  pub used_at : Option ℕ
  pub attempts : ℕ

abbrev pub has_code : Text → LinkCode → Bool
has_code c r = eq_text r.code c

-- `telegram_id = ? AND used_at IS NULL`
abbrev pub live_of : ℤ → LinkCode → Bool
live_of i r = eq_ℤ r.telegram_id i && not (is_some r.used_at)

abbrev pub new_code : ℕ → ℤ → Option Text → Option Text → Text → LinkCode
new_code now i username token code = record {
  code = code;
  telegram_id = i;
  username = or_else username [];
  session_token = or_else token [];
  issued_at = now;
  expires_at = now + ttl_minutes * 60000000;
  used_at = none;
  attempts = 0;
}

-- The loop that draws codes until one is free; a draw is named by the rounds that are left after it.
unfoldable pub free_draw {ℓ} :
    {A : Type ℓ} → (Text → A → Bool) → ℕ → (ℕ → Text) → List A → Option Text
free_draw has zero draw t = none
free_draw has (suc n) draw t =
    let rest = free_draw has n draw t in
    if is_some (find_where (has (draw n)) t) then rest else some (draw n)

-- Without a free code nothing is committed, the DELETE included.
unfoldable pub issued :
    ℕ
    → ℤ
    → Option Text
    → Option Text
    → Option Text
    → List LinkCode
    → List LinkCode
    → Result (Text × ℕ) × List LinkCode
issued now i username token none before t = (raise runtime_error, before)
issued now i username token (some code) before t =
    (ok (code, now + ttl_minutes * 60000000), t ++ new_code now i username token code ∷ [])

unfoldable pub issue_link_code :
    ℕ
    → (ℕ → Text)
    → ℤ
    → Option Text
    → Option Text
    → List LinkCode
    → Result (Text × ℕ) × List LinkCode
issue_link_code now draw i username token t =
    let t' = delete_where (live_of i) t in
    issued now i username token (free_draw has_code 12 draw t') t t'

-- What `redeem_link_code` answers.
pub data Redeemed : Type 0 where
  payload : ℤ → Text → Text → Redeemed
  not_found used too_many expired : Redeemed

-- `WHERE code = ? AND used_at IS NULL`
abbrev pub unused_code : Text → LinkCode → Bool
unused_code c r = eq_text r.code c && not (is_some r.used_at)

abbrev pub burnt : ℕ → LinkCode → LinkCode
burnt now r = record r { used_at = some now; attempts = r.attempts + 1 }

unfoldable pub redeem_row : ℕ → Text → Option LinkCode → List LinkCode → Redeemed × List LinkCode
redeem_row now c none t = (not_found, t)
redeem_row now c (some r) t =
    if is_some r.used_at
    then (used, t)
    else if leb max_attempts r.attempts
    then (too_many, t)
    else if ltb r.expires_at now
    then (expired, t)
    else if count_where (unused_code c) t == 0
    then (used, t)
    else (
      payload r.telegram_id r.username r.session_token,
      update_where (unused_code c) (burnt now) t,
    )

unfoldable pub redeem_link_code : ℕ → Option Text → List LinkCode → Redeemed × List LinkCode
redeem_link_code now raw t =
    let c = normalise raw in
    if truthy c then redeem_row now c (find_where (has_code c) t) t else (not_found, t)

pub data Call : Type 0 where
  issue_call : ℕ → (ℕ → Text) → ℤ → Option Text → Option Text → Call
  redeem_call : ℕ → Option Text → Call

unfoldable pub after : Call → List LinkCode → List LinkCode
after (issue_call now draw i username token) t = (issue_link_code now draw i username token t).1
after (redeem_call now raw) t = (redeem_link_code now raw t).1

unfoldable pub run : List Call → List LinkCode → List LinkCode
unfolding after
run [] t = t
run (c ∷ cs) t = run cs (after c t)
