-- ===== src/Shop/Credited.antt =====
-- The administrators' requests for credit of bot/bot.py, along runs.
use mosaicvpn.Prelude.{
  ℕ, ◌+◌, ◌≤◌, ◌≡◌, refl, subst, Bool, true, false, Option, none, some, List, [], ◌∷◌, ◌++◌, arith,
  inl, inr, Bool-cases, Option-cases, if◌then◌else◌, is_some,
}
use mosaicvpn.Prelude.Text.{Text, text, eq_text, eq_text_iff}
use mosaicvpn.Prelude.Counts.{count-join}
use mosaicvpn.Prelude.Table.{find_where, count_where, find-update, append-some, append-own}
use mosaicvpn.Prelude.Result.{Result, ok, raise}
use mosaicvpn.Cabinet.Tables.{Tables}
use mosaicvpn.Cabinet.Bind.{get_user}
use mosaicvpn.Shop.Types.{Panel}
use mosaicvpn.Shop.Accrual.{username_or_tg}
use mosaicvpn.Shop.Credits.{
  Credit, CreditRequest, has_request, new_credit, claim_row, claim_admin_balance_credit,
  is_processing, finished, finish_admin_balance_credit, Extension, credit_answered, credit_claimed,
  handle_admin_balance_credit, CreditCall, credit_run,
}

abbrev pub is_recorded : Text → List Credit → Bool
is_recorded rid t = is_some (find_where (has_request rid) t)

abbrev pub extends : Text → Extension → Bool
extends rid w = eq_text w.request_id rid

finish-is_recorded :
    (now : ℕ) (rid rid' status : Text) (error short : Option Text) (t : List Credit)
    → is_recorded rid (finish_admin_balance_credit now rid' status error short t).1
      ≡ is_recorded rid t
unfolding finish_admin_balance_credit
finish-is_recorded now rid rid' status error short t =
    let kept =
      find-update (has_request rid) (is_processing rid') (finished now status error short)
        (λ r. refl) t in
    ground (arith, kept)

answered-is_recorded :
    (now : ℕ) (rid rid' : Text) (answer : Result (Option Text)) (t : List Credit)
    → is_recorded rid (credit_answered now rid' answer t).1 ≡ is_recorded rid t
unfolding credit_answered
answered-is_recorded now rid rid' (raise e) t = finish-is_recorded now rid rid' _ _ _ t
answered-is_recorded now rid rid' (ok none) t = finish-is_recorded now rid rid' _ _ _ t
answered-is_recorded now rid rid' (ok (some short)) t = finish-is_recorded now rid rid' _ _ _ t

-- How often a request may still reach the panel.
abbrev credit_room : Text → List Credit → ℕ
credit_room rid t = if is_recorded rid t then 0 else 1

claimed-le :
    (rid : Text) (now : ℕ) (p : Panel) (username : Text) (q : CreditRequest) (t : List Credit)
    → let out = credit_claimed now p username q t in
      count_where (extends rid) out.1 + credit_room rid out.0.1
      ≤ (if eq_text q.request_id rid then 1 else 0) + credit_room rid t
unfolding credit_claimed
claimed-le rid now p username q t = elim (Bool-cases (p.has_user username)) [
  | inl known ↦
      let same =
        answered-is_recorded now rid q.request_id (p.extend_user username q.amount_rub) t in
      rw (known, same) (ground arith)
  | inr missing ↦
      let same =
        finish-is_recorded now rid q.request_id (text "failed") (some (text "account_not_found"))
          none t in
      rw (missing, same) (ground arith)
]

handle-le :
    (rid : Text) (now : ℕ) (p : Panel) (s : Tables) (q : CreditRequest) (t : List Credit)
    → let out = handle_admin_balance_credit now p s q t in
      count_where (extends rid) out.1 + credit_room rid out.0.1 ≤ credit_room rid t
unfolding handle_admin_balance_credit claim_admin_balance_credit claim_row
handle-le rid now p s q t = elim (Option-cases (find_where (has_request q.request_id) t)) [
  | inr (r, found) ↦ rw found (omega arith)
  | inl fresh ↦
      let t' = t ++ new_credit now q ∷ [] in
      let username = username_or_tg q.target_telegram_id (get_user q.target_telegram_id s) in
      let more = claimed-le rid now p username q t' in
      rw fresh (elim (Bool-cases (eq_text q.request_id rid)) [
        | inl own ↦
            let here : is_recorded rid t' ≡ true =
              append-own (has_request rid) t (new_credit now q) own in
            let e : q.request_id ≡ rid = (eq_text_iff q.request_id rid).0 own in
            let before : is_recorded rid t ≡ false =
              subst (λ x. is_recorded x t ≡ false) e (rw fresh refl) in
            ground (arith, more, here, before, own)
        | inr other ↦ elim (Bool-cases (is_recorded rid t)) [
          | inl there ↦
              let still = append-some (has_request rid) t (new_credit now q) there in
              ground (arith, more, still, there, other)
          | inr absent ↦ ground (arith, more, absent, other)
        ]
      ])
]

run-le :
    (rid : Text) (cs : List CreditCall) (t : List Credit)
    → count_where (extends rid) (credit_run cs t).1 + credit_room rid (credit_run cs t).0
      ≤ credit_room rid t
unfolding credit_run
run-le rid [] t = omega arith
run-le rid (c ∷ cs) t =
    let out = handle_admin_balance_credit c.now c.panel c.tables c.request t in
    let now = handle-le rid c.now c.panel c.tables c.request t in
    let later = run-le rid cs out.0.1 in
    let both = count-join (extends rid) out.1 (credit_run cs out.0.1).1 in
    omega (arith, now, later, both)

-- An administrator's credit is given once: in every run of requests, whatever they ask for and
-- whatever the panel answers, the panel is asked once at most to add days for a request id, and not at
-- all if a credit with this id is recorded before.
pub admin_credit_once :
    (rid : Text) (cs : List CreditCall) (t : List Credit)
    → count_where (extends rid) (credit_run cs t).1 ≤ (if is_recorded rid t then 0 else 1)
admin_credit_once rid cs t = omega (arith, run-le rid cs t)
