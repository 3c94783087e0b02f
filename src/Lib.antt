-- ===== src/Lib.antt =====
-- MosaicVPN's control plane: the Python services in bot/ that hold accounts, sign-ins and money,
-- and choose the nodes of the pool. Most of what is modelled are stores on SQL tables, three in
-- modules of their own, and those inside the bot with its HTTP handlers (bot/bot.py), which calls
-- them all; the rest are pure choices among nodes and routes. A store's table is a list of rows in
-- insertion order; a method is a function of the table and of the method's arguments, and answers
-- with its result and the table after it.
--
-- Invites: `SponsoredInviteStore` of bot/sponsored_invites.py. Create holds `create`, Claim `claim`,
--   Admin `finish`, `revoke`, `get` and `list`; Steps holds the transition system of an invite and the
--   runs of calls, and the other files the theorems.
-- Login: `BrowserLoginStore` of bot/onboarding_auth.py. Store holds `create`, `get_challenge`,
--   `_verify_secret_and_get_row`, `poll` and `prune_expired`, Approve holds `approve` and `consume`;
--   Steps holds the transition system of a challenge and the runs of calls.
-- Billing: the wallet of bot/mosaic_billing.py. Wallet holds `summary`, `freeze`, `unfreeze`, `credit`,
--   `debit_one_day` and `refund_debit`, Payments `create_payment` and `complete_payment`, Daily
--   `run_daily_debits`, Trial `claim_telegram_trial`, Settings `update_service_settings`.
-- Cabinet: the account tables of bot/bot.py. Codes holds `issue_link_code` and `redeem_link_code`, Bind
--   the binding of a Telegram chat to a website profile and `get_user`, Sessions the web sessions and
--   the callback codes of an application, Accounts `create_website_account`,
--   `attach_website_credentials` and `authenticate_website_account`, Resets `issue_password_reset` and
--   `reset_website_password`. Tables holds the rows, Steps the runs of calls, Effects and
--   AccountEffects what each call may change.
-- Shop: invoices and what they accrue, credits and limits of bot/bot.py. Invoices holds `save_user`,
--   `save_invoice`, `save_lava_invoice`, `get_lava_invoice` and `update_invoice_status`, Accrual
--   `process_lava_paid_invoice`, the turn of `polling_invoices_thread` for one invoice and
--   `ref_stats_incr`, Credits the administrator's credits, Limits `rate_limit_check`. It works on the
--   users and links of Cabinet.
-- Feed: the selection of a group's nodes for one client in bot/bot.py. Shuffle holds `_lcg_seed` and
--   `_lcg_shuffle_indices`, Shard `_shard_group_nodes`.
-- Routes: the administrators' policies of the manifest's routes in bot/bot.py. Policies holds
--   `set_route_policy`, `get_route_policy` and `apply_route_policies`.
-- Collector: the choice of the nodes to probe in bot/mosaic_pool_collector.py. Strata holds
--   `stratify_candidates`, with the dictionary of unique nodes that it begins with.
-- Prelude: what they share: Boolean tests, lists, signed integers, texts as code points, SQL
--   statements on lists of rows, decimal texts, Python values and
--   results that may raise.
--
-- Arguments of the model are the clock, the random texts that a call draws, the hash of secrets and
-- tokens (SHA-256 in the code), the scrypt digest, `str.casefold` and `str.upper` of Unicode texts,
-- the exchange callback of `consume`, the mail server, the payment provider's status, and the panel
-- that creates, extends and disables users. Instants are microseconds since the epoch. A
-- transaction is one step, so that calls interleave whole; where `_verify_secret_and_get_row` reads
-- a row outside a write transaction, `verify_row` takes the row apart from the table. Exceptions
-- are values without their messages. No loop needs fuel: they run over lists, or a given number of
-- rounds (12 draws of a code, an index that counts down).
--
-- Not modelled: the connections, schema set-up and migrations of the databases, JSON metadata that is
-- only stored for people, amounts of money that are only stored as floats, logging, messages to users,
-- the other Telegram and HTTP handlers of bot/bot.py, the rest of the pool of servers
-- (parsers, probes and scheduler), and the clients, which are written in other languages.
pub mod Billing
pub mod Cabinet
pub mod Collector
pub mod Feed
pub mod Invites
pub mod Login
pub mod Prelude
pub mod Routes
pub mod Shop
