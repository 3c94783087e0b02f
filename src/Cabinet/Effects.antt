-- ===== src/Cabinet/Effects.antt =====
-- The effects of the operations on codes, links and sessions of bot/bot.py on the cabinet's tables.
use mosaicvpn.Prelude.{
  ℕ, ◌≡◌, ◌≢◌, ◌⊎◌, refl, sym, subst, Bool, true, false, ◌==◌, Option, none, some, List, [], ◌∷◌,
  ◌++◌, arith, inl, inr, is_some, leb, ltb, Bool-cases, Option-cases, or_else,
}
use mosaicvpn.Prelude.Int.{ℤ, eq_ℤ}
use mosaicvpn.Prelude.Text.{Text, truthy}
use mosaicvpn.Prelude.Table.{find_where, update_where, delete_where, count_where}
use mosaicvpn.Prelude.Result.{Result, ok}
use mosaicvpn.Cabinet.Codes.{normalise, free_draw, max_attempts}
use mosaicvpn.Cabinet.Tables.{
  BindCode, Tables, has_bind_code, from_chat, to_account, has_token, has_auth_code,
}
use mosaicvpn.Cabinet.Bind.{
  live_bind, bind_issued, issue_telegram_link_code, Bound, bound, used, unused_bind, bind_burnt,
  own_profile, new_link, breaks_keys, bind_links, bind_chat, bind_row, claim_telegram_link_code,
}
use mosaicvpn.Cabinet.Sessions.{
  new_session, create_web_session, get_web_session, bad_state, new_auth_code, insert_auth_code,
  issue_app_auth_code, unused_auth, auth_burnt, redeem_auth_row, redeem_app_auth_code, is_purpose,
}

pub issue_bind-effect :
    (now : ℕ) (draw : ℕ → Text) (i : ℤ) (s : Tables)
    → let s' = (issue_telegram_link_code now draw i s).1 in
      (s' ≡ s) ⊎ ((t : List BindCode) × (s' ≡ record s { bind_codes = t }))
unfolding issue_telegram_link_code bind_issued
issue_bind-effect now draw i s =
    elim (Option-cases
      (free_draw has_bind_code 12 draw (delete_where (live_bind i) s.bind_codes))) [
        | inl full ↦ rw full (inl refl)
        | inr (c, drawn) ↦ rw drawn (inr (_, refl))
      ]

-- A binding: the code is burnt and the link is new, with both its keys free.
abbrev pub Binds : ℤ → Option Text → ℕ → Text → Bound → Tables → Tables → Type 0
Binds i name now c reply s s' =
    (account : ℤ) × (reply ≡ bound account)
    × (find_where (from_chat i) s.links ≡ none)
    × (find_where (to_account account) s.links ≡ none)
    × (s' ≡ record s {
      bind_codes = update_where (unused_bind c) (bind_burnt now) s.bind_codes;
      links = s.links ++ new_link now i account name ∷ [];
    })

abbrev pub is_bound : Bound → Bool
is_bound (bound account) = true
is_bound _ = false

-- Every answer of a claim: no exception, and the tables as they were unless it binds.
abbrev pub Claims : ℤ → Option Text → ℕ → Text → Result Bound × Tables → Tables → Type 0
Claims i name now c out s =
    (reply : Bound) × (out.0 ≡ ok reply)
    × (((is_bound reply ≡ false) × (out.1 ≡ s)) ⊎ Binds i name now c reply s out.1)

bind_links-Claims :
    (now : ℕ) (c : Text) (i : ℤ) (name : Option Text) (account : ℤ) (s : Tables)
    → find_where (from_chat i) s.links ≡ none
    → find_where (to_account account) s.links ≡ none
    → Claims i name now c (bind_links now c i name account s) s
unfolding bind_links
bind_links-Claims now c i name account s free open_account =
    elim (Bool-cases (count_where (unused_bind c) s.bind_codes == 1)) [
      | inr lost ↦ rw lost (used, refl, inl (refl, refl))
      | inl one ↦
          let keys : breaks_keys i account s.links ≡ false = rw (free, open_account) refl in
          rw (one, keys) (bound account, refl, inr (account, refl, free, open_account, refl))
    ]

bind_chat-Claims :
    (now : ℕ) (c : Text) (i : ℤ) (name : Option Text) (account : ℤ) (s : Tables)
    → Claims i name now c (bind_chat now c i name account (find_where (from_chat i) s.links) s) s
unfolding bind_chat
bind_chat-Claims now c i name account s = elim (Option-cases (find_where (from_chat i) s.links)) [
  | inr (l, linked) ↦ elim (Bool-cases (eq_ℤ l.account_id account)) [
    | inl own ↦ rw (linked, own) (_, refl, inl (refl, refl))
    | inr other ↦ rw (linked, other) (_, refl, inl (refl, refl))
  ]
  | inl free ↦ elim (Bool-cases (is_some (find_where (own_profile i account) s.users))) [
    | inl profile ↦ rw (free, profile) (_, refl, inl (refl, refl))
    | inr no_profile ↦ elim (Option-cases (find_where (to_account account) s.links)) [
      | inr (l, taken) ↦
          let held : is_some (find_where (to_account account) s.links) ≡ true = rw taken refl in
          rw (free, no_profile, held) (_, refl, inl (refl, refl))
      | inl open_account ↦
          let unheld : is_some (find_where (to_account account) s.links) ≡ false =
            rw open_account refl in
          subst (λ o. Claims i name now c (bind_chat now c i name account o s) s) (sym free)
            (rw (no_profile, unheld) (bind_links-Claims now c i name account s free open_account))
    ]
  ]
]

pub claim-Claims :
    (now : ℕ) (raw : Option Text) (i : ℤ) (name : Option Text) (s : Tables)
    → Claims i name now (normalise raw) (claim_telegram_link_code now raw i name s) s
unfolding claim_telegram_link_code bind_row
claim-Claims now raw i name s = elim (Bool-cases (truthy (normalise raw))) [
  | inr nothing ↦ rw nothing (_, refl, inl (refl, refl))
  | inl given ↦ elim (Option-cases (find_where (has_bind_code (normalise raw)) s.bind_codes)) [
    | inl absent ↦ rw (given, absent) (_, refl, inl (refl, refl))
    | inr (r, found) ↦ elim (Bool-cases (is_some r.used_at)) [
      | inl spent ↦ rw (given, found, spent) (_, refl, inl (refl, refl))
      | inr fresh ↦ elim (Bool-cases (leb max_attempts r.attempts)) [
        | inl many ↦ rw (given, found, fresh, many) (_, refl, inl (refl, refl))
        | inr few ↦ elim (Bool-cases (ltb r.expires_at now)) [
          | inl late ↦ rw (given, found, fresh, few, late) (_, refl, inl (refl, refl))
          | inr live ↦
              rw (given, found, fresh, few, live)
                (bind_chat-Claims now (normalise raw) i name r.account_id s)
        ]
      ]
    ]
  ]
]

pub log_in-effect :
    (now : ℕ) (token : Text) (i : ℤ) (name : Option Text) (s : Tables)
    → let s' = (create_web_session now token i name s).1 in
      (s' ≡ s)
      ⊎ ((find_where (has_token token) s.sessions ≡ none)
          × (s' ≡ record s { sessions = s.sessions ++ new_session now token i name ∷ [] }))
unfolding create_web_session
log_in-effect now token i name s = elim (Option-cases (find_where (has_token token) s.sessions)) [
  | inr (r, taken) ↦ rw taken (inl refl)
  | inl fresh ↦ rw fresh (inr (refl, refl))
]

-- An issued code: for a session, with a fit state and a known purpose, under a fresh code.
abbrev pub IssuesAuth :
    ℕ → Text → Option Text → Option Text → Text → Result (Option Text) × Tables → Tables → Type 0
IssuesAuth now code token state purpose out s =
    (who : ℤ × Text) × (get_web_session now token s ≡ some who)
    × (bad_state state ≡ false)
    × (is_purpose purpose ≡ true)
    × (find_where (has_auth_code code) s.auth_codes ≡ none)
    × (out ≡ (
      ok (some code),
      record s {
        auth_codes = s.auth_codes ++ new_auth_code now code who (or_else state []) purpose ∷ [];
      },
    ))

pub issue_auth-effect :
    (now : ℕ) (code : Text) (token state : Option Text) (purpose : Text) (s : Tables)
    → let out = issue_app_auth_code now code token state purpose s in
      ((out.1 ≡ s) × ((c : Text) → out.0 ≢ ok (some c)))
      ⊎ IssuesAuth now code token state purpose out s
unfolding issue_app_auth_code insert_auth_code
issue_auth-effect now code token state purpose s = elim (Bool-cases (is_purpose purpose)) [
  | inr odd ↦ rw odd (inl (refl, λ c e. ground arith))
  | inl known ↦ elim (Option-cases (get_web_session now token s)) [
    | inl nobody ↦ rw (known, nobody) (inl (refl, λ c e. ground arith))
    | inr (who, session) ↦ elim (Bool-cases (bad_state state)) [
      | inl bad ↦ rw (known, session, bad) (inl (refl, λ c e. ground arith))
      | inr fit ↦ elim (Option-cases (find_where (has_auth_code code) s.auth_codes)) [
        | inr (r, taken) ↦ rw (known, session, fit, taken) (inl (refl, λ c e. ground arith))
        | inl fresh ↦ rw (known, session, fit, fresh) (inr (who, refl, refl, refl, refl, refl))
      ]
    ]
  ]
]

pub redeem_auth-effect :
    (now : ℕ) (code state : Option Text) (s : Tables)
    → let s' = (redeem_app_auth_code now code state s).1 in
      (s' ≡ s)
      ⊎ (s' ≡ record s {
        auth_codes = update_where (unused_auth (or_else code [])) (auth_burnt now) s.auth_codes;
      })
unfolding redeem_app_auth_code redeem_auth_row
redeem_auth-effect now code state s =
    elim (Option-cases (find_where (has_auth_code (or_else code [])) s.auth_codes)) [
      | inl absent ↦ inl (ground (arith, absent))
      | inr (r, found) ↦ ground (arith, found)
    ]
