-- ===== src/Dim/Irq.antt =====
-- The interrupt `dim_service_ahb_int_irq` of hdm-dim2/dim2_hal.c. Of the hardware it models the two slots of
-- each channel: the hardware can end the transfer of a slot that it has at any time, also while the
-- interrupt runs.
pub mod Ends
mod Tests
use unicens2_driver.Common.{
  ℕ, zero, suc, ◌+◌, ◌*◌, length, Bool, true, false, not, ◌&&◌, ◌||◌, Option, none, some, List, [],
  ◌∷◌, ◌==◌, if◌then◌else◌,
}
use unicens2_driver.Dim.Types.{DimChannel}
use unicens2_driver.Dim.Channel.{channel_service_interrupt}

-- What a slot holds: nothing, a buffer that the hardware transfers, or one that it is done with.
pub data Slot : Type 0 where
  free busy done : Slot

-- A channel with the slots of its descriptors.
pub record Port : Type 0 where
  pub ch : DimChannel
  pub slot0 : Slot
  pub slot1 : Slot

abbrev pub slot_at : ℕ → Port → Slot
slot_at idx p = if idx == 0 then p.slot0 else p.slot1

abbrev pub set_slot : ℕ → Slot → Port → Port
set_slot idx x p = if idx == 0 then record p { slot0 = x } else record p { slot1 = x }

abbrev pub is_slot_done : Slot → Bool
is_slot_done free = false
is_slot_done busy = false
is_slot_done done = true

-- The hardware ends a transfer, if `b` says so.
abbrev pub ended : Bool → Slot → Slot
ended true busy = done
ended true free = free
ended true done = done
ended false x = x

-- Which transfers the hardware ends before it is asked for channel `n`, where `left` rounds are left.
abbrev pub Hardware : Type 0
Hardware = ℕ → ℕ → Bool × Bool

abbrev pub progress : Bool × Bool → Port → Port
progress (b0, b1) p = record p { slot0 = ended b0 p.slot0; slot1 = ended b1 p.slot1 }

-- `service_channel` on slot `idx`: a done bit that is set is cleared.
unfoldable pub service_channel : ℕ → Port → Bool × Port
service_channel idx p =
    if not (is_slot_done (slot_at idx p)) then (false, p) else (true, set_slot idx free p)

abbrev pub port_interrupt : Port → Bool × Port
port_interrupt p =
    let (found, q) = service_channel p.ch.state.idx2 p in
    let (changed, c) = channel_service_interrupt found p.ch in (changed, record q { ch = c })

-- The inner loop from channel `n` on: whether a channel changed, and the channels.
pub irq_pass : (ℕ → Bool × Bool) → ℕ → List Port → Bool × List Port
irq_pass hw n [] = (false, [])
irq_pass hw n (p ∷ ps) =
    let (b, q) = port_interrupt (progress (hw n) p) in
    let (rest, qs) = irq_pass hw (suc n) ps in (b || rest, q ∷ qs)

-- The outer loop, with fuel.
pub irq_loop : Hardware → ℕ → List Port → Option (List Port)
irq_loop hw zero ps = none
irq_loop hw (suc f) ps =
    let (changed, qs) = irq_pass (hw f) 0 ps in
    let rest = irq_loop hw f qs in if changed then rest else some qs

-- `dim_service_ahb_int_irq`; `channels` is `none` for the null pointer. An error changes nothing.
pub dim_service_ahb_int_irq : Hardware → Bool → Option (List Port) → Option (Option (List Port))
dim_service_ahb_int_irq hw initialized none = some none
dim_service_ahb_int_irq hw initialized (some ps) =
    if not initialized
    then some (some ps)
    else elim (irq_loop hw (2 * length ps + 1) ps) [ none ↦ none | some qs ↦ some (some qs) ]
