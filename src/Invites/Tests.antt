-- ===== src/Invites/Tests.antt =====
-- Runs of the invite store on concrete calls, and the theorems at inputs that meet their hypotheses.
use mosaicvpn.Prelude.{
  ◌≡◌, ◌≢◌, ◌↔◌, ◌<◌, refl, true, ◌&&◌, none, some, List, [], ◌∷◌, arith, if◌then◌else◌,
}
use mosaicvpn.Prelude.Int.{pos, negsuc, eq_ℤ}
use mosaicvpn.Prelude.Text.{Text, text, eq_text, lstrip, strip}
use mosaicvpn.Prelude.Value.{Value, none_value, int, str}
use mosaicvpn.Prelude.Result.{ok, raise, value_error}
use mosaicvpn.Prelude.Table.{find_where}
use mosaicvpn.Invites.Types.{Invite, Status, pending, succeeded, CreateArgs, Request}
use mosaicvpn.Invites.Create.{
  validate_create, with_id, with_hash, insert_invite, same_request, reread, inserted,
  create_selected, create_checked, create,
}
use mosaicvpn.Invites.Claim.{
  is_claimed, claim_pending, claim_row, label_or_raise, validate_claim, claim_selected,
  claim_checked, claim,
}
use mosaicvpn.Invites.Admin.{
  id_or_raise, finish_checked, finish, admin_or_raise, revoke_args, revoke_checked, revoke,
}
use mosaicvpn.Invites.Steps.{IsValid, Step, Call, create_call, claim_call, finish_call, after, run}
use mosaicvpn.Invites.Refines.{after-Step}
use mosaicvpn.Invites.Validity.{run-IsValid}
use mosaicvpn.Invites.Lifecycle.{Follows, run-Follows}
use mosaicvpn.Invites.Winner.{claim-claimed_iff, claim_single_winner, revoke_final}
use mosaicvpn.Invites.Requests.{create_idempotent}

-- All the definitions that a run computes with.
program : Unit {0}
unfolding lstrip strip validate_create insert_invite same_request reread inserted create_selected
    create_checked create claim_pending claim_row label_or_raise validate_claim claim_selected
    claim_checked claim id_or_raise finish_checked finish admin_or_raise revoke_args revoke_checked
    revoke after run
program = tt

-- A hash for the tests.
abbrev tagged : Text → Text
tagged token = b'#' ∷ token

abbrev args : CreateArgs
args = record {
  admin_id = int (pos 7);
  amount = int (pos 300);
  label = str (text " Anna ");
  request_id = str (text "req-1");
  ttl = int (pos 3600);
  ttl_seconds = none_value;
}

abbrev fields : Request
fields = record {
  admin_id = pos 7;
  amount = pos 300;
  label = text "Anna";
  request_id = text "req-1";
  ttl = pos 3600;
}

abbrev stored : Invite
stored = record {
  id = text "inv_1";
  admin_id = pos 7;
  request_id = text "req-1";
  amount = pos 300;
  label = text "Anna";
  token_hash = text "#tok";
  status = pending;
  created_at = 1000;
  expires_at = 3600001000;
  claimed_at = none;
  claimant_account_id = none;
  claimant_label = none;
  completed_at = none;
  result = none;
  error = none;
}

abbrev one : List Invite
one = stored ∷ []

create_stores :
    create tagged 1000 (text "inv_1") (text "tok") args []
    ≡ (ok (some stored, some (text "tok")), one)
unfolding program
create_stores = refl

args-fields : validate_create args ≡ ok fields
unfolding program
args-fields = refl

abbrev token_value : Value
token_value = str (text "tok ")

abbrev account_value : Value
account_value = int (negsuc 4)

abbrev nobody : Value
nobody = none_value

claim_args :
    validate_claim token_value account_value nobody nobody ≡ ok (text "tok", negsuc 4, none)
unfolding program
claim_args = refl

claim_succeeds : is_claimed (claim tagged 2000 token_value account_value nobody nobody one).0 ≡ true
unfolding program
claim_succeeds = refl

one-IsValid : IsValid one
one-IsValid = ground arith

abbrev calls : List Call
calls =
    create_call 1000 (text "inv_1") (text "tok") args
    ∷ claim_call 2000 token_value account_value nobody nobody
    ∷ finish_call 3000 (str (text "inv_1")) succeeded none none
    ∷ []

after-Step_example : Step [] (after tagged (create_call 1000 (text "inv_1") (text "tok") args) [])
after-Step_example = after-Step tagged (create_call 1000 (text "inv_1") (text "tok") args) []

run-IsValid_example : IsValid (run tagged calls [])
run-IsValid_example = run-IsValid tagged calls [] (omega arith)

run-Follows_example :
    (r' : Invite) × (find_where (with_id (text "inv_1")) (run tagged calls one) ≡ some r')
    × Follows stored r'
run-Follows_example = run-Follows tagged calls one (text "inv_1") one-IsValid refl

claim-claimed_iff_example :
    (is_claimed (claim tagged 2000 token_value account_value nobody nobody one).0 ≡ true) ↔ (
      (r : Invite) × (find_where (with_hash (tagged (text "tok"))) one ≡ some r)
      × (2000 < r.expires_at)
      × (r.status ≡ pending))
claim-claimed_iff_example =
    claim-claimed_iff tagged 2000 token_value account_value nobody nobody one claim_args one-IsValid

claim_single_winner_example :
    is_claimed
      (claim tagged 4000 token_value account_value nobody nobody
        (run tagged calls (claim tagged 2000 token_value account_value nobody nobody one).1)).0
    ≢ true
claim_single_winner_example =
    claim_single_winner tagged 2000 4000 token_value account_value nobody nobody token_value
      account_value nobody nobody calls one claim_args claim_args refl one-IsValid claim_succeeds

revoke_checks : revoke_args (str (text "inv_1")) (int (pos 7)) ≡ ok (text "inv_1", pos 7)
unfolding program
revoke_checks = refl

revoke_final_example :
    let (b, t') = revoke 2000 (str (text "inv_1")) (int (pos 7)) one in
    (b ≡ ok true)
    × (is_claimed
          (claim tagged 3000 token_value account_value nobody nobody (run tagged calls t')).0
        ≢ true)
revoke_final_example =
    revoke_final tagged 2000 3000 (str (text "inv_1")) (int (pos 7)) token_value account_value
      nobody nobody calls one revoke_checks claim_args one-IsValid refl refl refl refl (omega arith)

create_minted :
    (create tagged 1000 (text "inv_1") (text "tok") args []).0 ≡ ok (some stored, some (text "tok"))
unfolding program
create_minted = refl

create_idempotent_example :
    let t' = run tagged calls (create tagged 1000 (text "inv_1") (text "tok") args []).1 in
    (r : Invite) × (r' : Invite) × (some stored ≡ some r)
    × Follows r r'
    × (create tagged 9000 (text "inv_2") (text "tok2") args t' ≡ (
      (if eq_ℤ (pos 300) (pos 300) && eq_text (text "Anna") (text "Anna")
          then ok (some r', none)
          else raise value_error),
      t',
    ))
create_idempotent_example =
    create_idempotent tagged 1000 9000 (text "inv_1") (text "inv_2") (text "tok") (text "tok2") args
      args calls [] args-fields args-fields refl refl (omega arith) create_minted

abbrev claimed_table : List Invite
claimed_table =
    record stored {
      status = Status.processing;
      claimed_at = some 2000;
      claimant_account_id = some (negsuc 4);
    }
    ∷ []

finish_succeeds : (finish 3000 (str (text "inv_1")) succeeded none none claimed_table).0 ≡ ok true
unfolding program
finish_succeeds = refl
