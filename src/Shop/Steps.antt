-- ===== src/Shop/Steps.antt =====
-- What happens to the invoices: they are saved, polled, and told paid by a webhook, in any order, with
-- whatever the panel answers; and the calls of the panel that a run of such events makes.
use mosaicvpn.Prelude.{ℕ, Option, List, [], ◌∷◌, ◌++◌}
use mosaicvpn.Prelude.Int.{ℤ}
use mosaicvpn.Prelude.Text.{Text}
use mosaicvpn.Shop.Types.{Store, Panel, Write}
use mosaicvpn.Shop.Invoices.{LavaInvoice, save_invoice, save_lava_invoice}
use mosaicvpn.Shop.Accrual.{process_lava_paid_invoice, poll_invoice}

pub data Event : Type 0 where
  saves : ℕ → ℤ → ℤ → ℤ → Option Text → Event
  saves_lava : ℕ → ℤ → Text → Text → ℤ → ℤ → Text → Option Text → Event
  polls : ℕ → Panel → Option Text → ℤ → ℤ → ℤ → Event
  told_paid : ℕ → Panel → Option LavaInvoice → Event

unfoldable pub step : Event → Store → Store × List Write
step (saves now id i days terms) s = ((save_invoice now id i days terms s).1, [])
step (saves_lava now id provider_id order i days store terms) s =
    ((save_lava_invoice now id provider_id order i days store terms s).1, [])
step (polls now p status id i days) s =
    let out = poll_invoice now p status id i days s in (out.0.1, out.1)
step (told_paid now p v) s = let out = process_lava_paid_invoice now p v s in (out.0.1, out.1)

-- The panel's calls of a run, in order.
unfoldable pub run : List Event → Store → Store × List Write
unfolding step
run [] s = (s, [])
run (e ∷ es) s = let out = step e s in let rest = run es out.0 in (rest.0, out.1 ++ rest.1)
