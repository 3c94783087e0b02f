-- ===== src/Cabinet/Steps.antt =====
-- The operations on the cabinet's tables as calls, with what they draw and what the panel and the mail
-- server answer, and runs of them.
use mosaicvpn.Prelude.{ℕ, Bool, Option, List, [], ◌∷◌}
use mosaicvpn.Prelude.Int.{ℤ}
use mosaicvpn.Prelude.Text.{Text}
use mosaicvpn.Prelude.Result.{Result}
use mosaicvpn.Cabinet.Tables.{Tables}
use mosaicvpn.Cabinet.Bind.{
  issue_telegram_link_code, claim_telegram_link_code, unlink_telegram_account,
}
use mosaicvpn.Cabinet.Sessions.{create_web_session, issue_app_auth_code, redeem_app_auth_code}
use mosaicvpn.Cabinet.Accounts.{Digests, create_website_account, attach_website_credentials}
use mosaicvpn.Cabinet.Resets.{issue_password_reset, reset_website_password}

pub data Call : Type 0 where
  issue_bind : ℕ → (ℕ → Text) → ℤ → Call
  claim_bind : ℕ → Option Text → ℤ → Option Text → Call
  unlink : ℤ → Call
  log_in : ℕ → Text → ℤ → Option Text → Call
  issue_auth : ℕ → Text → Option Text → Option Text → Text → Call
  redeem_auth : ℕ → Option Text → Option Text → Call
  register : ℕ → Text → (Text → ℕ → ℤ → Result (Option Text)) → Option Text → Option Text → Call
  attach : ℕ → Text → ℤ → Option Text → Option Text → Call
  issue_reset : ℕ → Text → (Text → Text → Bool) → Option Text → Call
  reset : ℕ → Text → Option Text → Option Text → Call

module _ (d : Digests) where
  unfoldable pub after : Call → Tables → Tables
  after (issue_bind now draw i) s = (issue_telegram_link_code now draw i s).1
  after (claim_bind now raw i name) s = (claim_telegram_link_code now raw i name s).1
  after (unlink i) s = (unlink_telegram_account i s).1
  after (log_in now token i name) s = (create_web_session now token i name s).1
  after (issue_auth now code token state purpose) s =
      (issue_app_auth_code now code token state purpose s).1
  after (redeem_auth now code state) s = (redeem_app_auth_code now code state s).1
  after (register now salt panel email password) s =
      (create_website_account d now salt panel email password s).1
  after (attach now salt i email password) s =
      (attach_website_credentials d now salt i email password s).1
  after (issue_reset now code mail email) s = (issue_password_reset d now code mail email s).1
  after (reset now salt code password) s = (reset_website_password d now salt code password s).1

  unfoldable pub run : List Call → Tables → Tables
  unfolding after
  run [] s = s
  run (c ∷ cs) s = run cs (after c s)
