-- ===== src/Invites/Steps.antt =====
-- The invite table of bot/sponsored_invites.py as a transition system: what a row must satisfy, how a
-- row may change, and how the table may change; and the runs of calls.
use mosaicvpn.Prelude.{
  ℕ, ◌+◌, ◌*◌, ◌≤◌, ◌<◌, ◌≡◌, Bool, true, false, Option, none, List, [], ◌∷◌, ◌++◌, length, All,
  is_some,
}
use mosaicvpn.Prelude.Int.{ℤ, pos, ◌≤ℤ◌}
use mosaicvpn.Prelude.Text.{Text}
use mosaicvpn.Prelude.Table.{find_where, update_where}
use mosaicvpn.Prelude.Value.{Value}
use mosaicvpn.Invites.Types.{Status, pending, processing, revoked, Invite, CreateArgs}
use mosaicvpn.Invites.Create.{conflicts, create}
use mosaicvpn.Invites.Claim.{to_processing, claim}
use mosaicvpn.Invites.Admin.{is_outcome, to_finished, to_revoked, finish, revoke}

-- A claim is on record, and the invite is over.
abbrev pub was_claimed : Status → Bool
was_claimed pending = false
was_claimed revoked = false
was_claimed _ = true

abbrev pub is_over : Status → Bool
is_over pending = false
is_over processing = false
is_over _ = true

-- The amount, the label and the lifetime are in range, and the optional fields agree with the
-- status.
pub record IsConsistent (r : Invite) : Type 0 where
  pub amount_low : pos 1 ≤ℤ r.amount
  pub amount_high : r.amount ≤ℤ pos 10000
  pub label_low : 1 ≤ length r.label
  pub label_high : length r.label ≤ 80
  pub lives : r.created_at < r.expires_at
  pub week : r.expires_at ≤ r.created_at + 604800 * 1000000
  pub claimant : is_some r.claimant_account_id ≡ was_claimed r.status
  pub claim_time : is_some r.claimed_at ≡ was_claimed r.status
  pub end_time : is_some r.completed_at ≡ is_over r.status

-- No two rows share an id, a token hash, or an administrator's request id.
abbrev pub AreDistinct : List Invite → Type 0
AreDistinct [] = Unit
AreDistinct (r ∷ t) = All (λ x. conflicts x r ≡ false) t × AreDistinct t

pub record IsValid (t : List Invite) : Type 0 where
  pub rows : All IsConsistent t
  pub distinct : AreDistinct t

-- How a row may change.
pub data Edge (r : Invite) : Invite → Type 0 where
  by_claim :
      (now : ℕ) (account : ℤ) (label : Option Text)
      → r.status ≡ pending
      → Edge r (to_processing now account label r)
  by_finish :
      (now : ℕ) (s : Status) (result error : Option Text)
      → r.status ≡ processing
      → is_outcome s ≡ true
      → Edge r (to_finished now s result error r)
  by_revoke : (now : ℕ) → r.status ≡ pending → now < r.expires_at → Edge r (to_revoked now r)

-- How the table may change: not at all, by a new pending row, or by an edge at each of some rows.
pub data Step (t : List Invite) : List Invite → Type 0 where
  stay : Step t t
  insert :
      (new : Invite)
      → IsConsistent new
      → new.status ≡ pending
      → find_where (conflicts new) t ≡ none
      → Step t (t ++ new ∷ [])
  edit :
      (p : Invite → Bool) (f : Invite → Invite)
      → ((r : Invite) → p r ≡ true → Edge r (f r))
      → Step t (update_where p f t)

-- The calls that may change the table, with the time and the random texts that they draw.
pub data Call : Type 0 where
  create_call : ℕ → Text → Text → CreateArgs → Call
  claim_call : ℕ → Value → Value → Value → Value → Call
  finish_call : ℕ → Value → Status → Option Text → Option Text → Call
  revoke_call : ℕ → Value → Value → Call

module _ (hash_token : Text → Text) where
  unfoldable pub after : Call → List Invite → List Invite
  after (create_call now invite_id token args) t = (create hash_token now invite_id token args t).1
  after (claim_call now token account label telegram) t =
      (claim hash_token now token account label telegram t).1
  after (finish_call now invite_id s result error) t = (finish now invite_id s result error t).1
  after (revoke_call now invite_id admin) t = (revoke now invite_id admin t).1

  unfoldable pub run : List Call → List Invite → List Invite
  unfolding after
  run [] t = t
  run (c ∷ cs) t = run cs (after c t)
