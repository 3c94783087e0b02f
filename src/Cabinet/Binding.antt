-- ===== src/Cabinet/Binding.antt =====
-- The links between chats and website profiles of bot/bot.py, along runs of the cabinet's operations.
use mosaicvpn.Prelude.{
  ℕ, ◌≡◌, ◌≢◌, ◌∙◌, refl, sym, ap, Bool, true, Option, none, some, List, [], ◌∷◌, ◌++◌, arith, inl,
  inr, All, Bool-cases,
}
use mosaicvpn.Prelude.Int.{ℤ, eq_ℤ, eq_ℤ_iff, eq_ℤ_sym}
use mosaicvpn.Prelude.Text.{Text}
use mosaicvpn.Prelude.Table.{
  find_where, delete_where, find-append, find-append_new, find-delete_kept, find-delete_none,
}
use mosaicvpn.Prelude.Result.{ok, is_ok}
use mosaicvpn.Cabinet.Tables.{Link, Tables, from_chat, to_account}
use mosaicvpn.Cabinet.Bind.{
  bound, new_link, claim_telegram_link_code, unlink_telegram_account, resolve_telegram_account_id,
}
use mosaicvpn.Cabinet.Accounts.{Digests}
use mosaicvpn.Cabinet.Steps.{
  Call, issue_bind, claim_bind, unlink, log_in, issue_auth, redeem_auth, register, attach,
  issue_reset, reset, after, run,
}
use mosaicvpn.Cabinet.Effects.{
  issue_bind-effect, claim-Claims, log_in-effect, issue_auth-effect, redeem_auth-effect,
}
use mosaicvpn.Cabinet.AccountEffects.{
  register-Registration, attach-effect, issue_reset-effect, reset-effect,
}

-- How a call may change the links: not at all, by a binding with both keys free, or by taking an
-- account's link off.
pub data LinkStep (c : Call) (ls : List Link) : List Link → Type 0 where
  same : LinkStep c ls ls
  linked :
      (now : ℕ) (i account : ℤ) (name : Option Text)
      → find_where (from_chat i) ls ≡ none
      → find_where (to_account account) ls ≡ none
      → LinkStep c ls (ls ++ new_link now i account name ∷ [])
  taken_off :
      (account : ℤ) → c ≡ unlink account → LinkStep c ls (delete_where (to_account account) ls)

keeps_links : {c : Call} {ls ls' : List Link} → ls' ≡ ls → LinkStep c ls ls'
keeps_links e = rw e same

module _ (d : Digests) where
  pub after-LinkStep : (c : Call) (s : Tables) → LinkStep c s.links (after d c s).links
  unfolding after unlink_telegram_account
  after-LinkStep (issue_bind now draw i) s = elim (issue_bind-effect now draw i s) [
    | inl e ↦ keeps_links (ap Tables.links e)
    | inr (t, e) ↦ keeps_links (ap Tables.links e)
  ]
  after-LinkStep (claim_bind now raw i name) s =
      let (reply, _, outcome) = claim-Claims now raw i name s in
      elim outcome [
        | inl (_, e) ↦ keeps_links (ap Tables.links e)
        | inr (account, _, free, open_account, e) ↦
            rw e (linked now i account name free open_account)
      ]
  after-LinkStep (unlink i) s = taken_off i refl
  after-LinkStep (log_in now token i name) s = elim (log_in-effect now token i name s) [
    | inl e ↦ keeps_links (ap Tables.links e)
    | inr (_, e) ↦ keeps_links (ap Tables.links e)
  ]
  after-LinkStep (issue_auth now code token state purpose) s =
      elim (issue_auth-effect now code token state purpose s) [
        | inl (e, _) ↦ keeps_links (ap Tables.links e)
        | inr (_, _, _, _, _, e) ↦ keeps_links (ap (λ o. Tables.links o.1) e)
      ]
  after-LinkStep (redeem_auth now code state) s = elim (redeem_auth-effect now code state s) [
    | inl e ↦ keeps_links (ap Tables.links e)
    | inr e ↦ keeps_links (ap Tables.links e)
  ]
  after-LinkStep (register now salt panel email password) s =
      elim (register-Registration d now salt panel email password s) [
        | inl (e, _) ↦ keeps_links (ap Tables.links e)
        | inr (_, _, _, _, _, (_, _, _, e)) ↦ keeps_links (ap Tables.links e)
      ]
  after-LinkStep (attach now salt i email password) s =
      elim (attach-effect d now salt i email password s) [
        | inl e ↦ keeps_links (ap Tables.links e)
        | inr (_, _, e) ↦ keeps_links (ap Tables.links e)
      ]
  after-LinkStep (issue_reset now code mail email) s =
      elim (issue_reset-effect d now code mail email s) [
        | inl e ↦ keeps_links (ap Tables.links e)
        | inr (_, e) ↦ keeps_links (ap Tables.links e)
      ]
  after-LinkStep (reset now salt code password) s = elim (reset-effect d now salt code password s) [
    | inl e ↦ keeps_links (ap (λ o. Tables.links o.1) e)
    | inr (_, _, _, _, _, e) ↦ keeps_links (ap (λ o. Tables.links o.1) e)
  ]

-- No chat and no account stands in two links.
abbrev pub IsOneToOne : List Link → Type 0
IsOneToOne [] = Unit
IsOneToOne (l ∷ ls) =
    (find_where (from_chat l.telegram_id) ls ≡ none)
    × (find_where (to_account l.account_id) ls ≡ none)
    × IsOneToOne ls

append-IsOneToOne :
    (new : Link) (ls : List Link)
    → find_where (from_chat new.telegram_id) ls ≡ none
    → find_where (to_account new.account_id) ls ≡ none
    → IsOneToOne ls
    → IsOneToOne (ls ++ new ∷ [])
append-IsOneToOne new [] f t o = (refl, refl, tt)
append-IsOneToOne new (l ∷ ls) f t o = (
  find-append_new (from_chat l.telegram_id) ls new o.0
      ∙ ground (arith, eq_ℤ_sym new.telegram_id l.telegram_id),
  find-append_new (to_account l.account_id) ls new o.1
      ∙ ground (arith, eq_ℤ_sym new.account_id l.account_id),
  append-IsOneToOne new ls (ground arith) (ground arith) o.2,
)

delete-IsOneToOne :
    (p : Link → Bool) (ls : List Link) → IsOneToOne ls → IsOneToOne (delete_where p ls)
delete-IsOneToOne p [] o = o
delete-IsOneToOne p (l ∷ ls) o = elim (Bool-cases (p l)) [
  | inl gone ↦ rw gone (delete-IsOneToOne p ls o.2)
  | inr kept ↦ rw kept (
    find-delete_none (from_chat l.telegram_id) p ls o.0,
    find-delete_none (to_account l.account_id) p ls o.1,
    delete-IsOneToOne p ls o.2,
  )
]

LinkStep-IsOneToOne :
    {c : Call} {ls ls' : List Link} → LinkStep c ls ls' → IsOneToOne ls → IsOneToOne ls'
LinkStep-IsOneToOne same o = o
LinkStep-IsOneToOne {ls = ls} (linked now i account name free open_account) o =
    append-IsOneToOne (new_link now i account name) ls free open_account o
LinkStep-IsOneToOne {ls = ls} (taken_off account e) o = delete-IsOneToOne (to_account account) ls o

-- Chats and profiles are bound one to one: if no chat and no account stands in two links, this is so
-- after every run of the cabinet's operations; and a claim never meets a key of the table of links, so
-- that it raises nothing, whatever the tables are.
pub claim-IsOneToOne :
    (d : Digests) (cs : List Call) (s : Tables) (now : ℕ) (raw : Option Text) (i : ℤ)
    (name : Option Text)
    → IsOneToOne s.links
    → IsOneToOne (run d cs s).links
      × (is_ok (claim_telegram_link_code now raw i name (run d cs s)).0 ≡ true)
unfolding run
claim-IsOneToOne d [] s now raw i name o =
    let (reply, e, _) = claim-Claims now raw i name s in (o, rw e refl)
claim-IsOneToOne d (c ∷ cs) s now raw i name o =
    claim-IsOneToOne d cs (after d c s) now raw i name
      (LinkStep-IsOneToOne (after-LinkStep d c s) o)

-- The chat's link is to the account.
abbrev pub IsLinked : ℤ → ℤ → List Link → Type 0
IsLinked i account ls =
    (l : Link) × (find_where (from_chat i) ls ≡ some l) × (l.account_id ≡ account)

LinkStep-IsLinked :
    {c : Call} {ls ls' : List Link} (i account : ℤ)
    → c ≢ unlink account
    → LinkStep c ls ls'
    → IsLinked i account ls
    → IsLinked i account ls'
LinkStep-IsLinked i account stays same k = k
LinkStep-IsLinked {ls = ls} i account stays (linked now j other name free open_account)
      (l, found, a) =
    (l, find-append (from_chat i) ls _ found, a)
LinkStep-IsLinked {ls = ls} i account stays (taken_off other e) (l, found, a) =
    elim (Bool-cases (eq_ℤ account other)) [
      | inl own ↦ absurd (stays (e ∙ ap unlink (sym ((eq_ℤ_iff account other).0 own))))
      | inr away ↦ (l, find-delete_kept (from_chat i) (to_account other) ls found (rw a away), a)
    ]

run-IsLinked :
    (d : Digests) (cs : List Call) (s : Tables) (i account : ℤ)
    → All (λ c. c ≢ unlink account) cs
    → IsLinked i account s.links
    → IsLinked i account (run d cs s).links
unfolding run
run-IsLinked d [] s i account stays k = k
run-IsLinked d (c ∷ cs) s i account stays k =
    run-IsLinked d cs (after d c s) i account stays.1
      (LinkStep-IsLinked i account stays.0 (after-LinkStep d c s) k)

-- A binding holds: after a claim that bound a chat to an account, and any run of the cabinet's
-- operations that does not take this account's link off, the chat resolves to the account.
pub claim_holds :
    (d : Digests) (now : ℕ) (raw : Option Text) (i account : ℤ) (name : Option Text)
    (cs : List Call) (s : Tables)
    → (claim_telegram_link_code now raw i name s).0 ≡ ok (bound account)
    → All (λ c. c ≢ unlink account) cs
    → resolve_telegram_account_id i (run d cs (claim_telegram_link_code now raw i name s).1)
      ≡ account
unfolding resolve_telegram_account_id
claim_holds d now raw i account name cs s h stays =
    let s1 = (claim_telegram_link_code now raw i name s).1 in
    let (reply, e, outcome) = claim-Claims now raw i name s in
    let first : IsLinked i account s1.links = elim outcome [
      | inl (refused, _) ↦ absurd (ground (arith, e, h, refused))
      | inr (a, answer, free, open_account, out) ↦
          let own : a ≡ account = ground (arith, e, h, answer) in
          let me : eq_ℤ i i ≡ true = (eq_ℤ_iff i i).1 refl in
          rw out (
            new_link now i a name,
            find-append_new (from_chat i) s.links (new_link now i a name) free ∙ rw me refl,
            own,
          )
    ] in
    let (l, found, a) = run-IsLinked d cs s1 i account stays first in rw found a
