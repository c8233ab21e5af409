-- ===== src/Dim/Channel/Slots.antt =====
-- The two slots of a channel over any order of starts, interrupts and services.
use unicens2_driver.Common.{
  ℕ, ◌+◌, ◌%◌, ◌^◌, ◌≡◌, ◌≢◌, ◌≤◌, ◌<◌, Bool, true, false, arith, if◌then◌else◌, ◌==◌,
}
use unicens2_driver.Dim.Types.{DimError, no_error, DimChannel}
use unicens2_driver.Dim.Channel.{
  AsyncTxDbr, state_init, StartResult, started, refused, Command, start_isoc_sync, start_ctrl_async,
  start_command, channel_start, channel_service, channel_service_interrupt,
}

-- A channel, with how many buffers were started, completed by the hardware and serviced so far.
pub record Slots : Type 0 where
  pub ch : DimChannel
  pub starts : ℕ
  pub completed : ℕ
  pub serviced : ℕ

abbrev is_started : StartResult → Bool
is_started (started k) = true
is_started (refused e) = false

abbrev after_start : Slots → StartResult × DimChannel × AsyncTxDbr → Slots
after_start s (r, ch, d) = record s {
  ch = ch;
  starts = if is_started r then s.starts + 1 else s.starts;
}

-- A service counts if there was something to service.
abbrev after_service : Slots → DimError × DimChannel → Slots
after_service s (e, ch) = record s {
  ch = ch;
  serviced =
      if s.ch.state.service_counter == s.ch.state.request_counter
      then s.serviced
      else s.serviced + 1;
}

pub data Step : Slots → Slots → Type 0 where
  starting :
      (s : Slots) (fcnt buf_addr buf_size : ℕ) (d : AsyncTxDbr)
      → Step s (after_start s (channel_start fcnt buf_addr buf_size s.ch d))
  -- The hardware completes a buffer only if it was given one.
  completing :
      (s : Slots)
      → s.completed < s.starts
      → Step s
          (record s { ch = (channel_service_interrupt true s.ch).1; completed = s.completed + 1 })
  servicing : (s : Slots) → Step s (after_service s (channel_service s.ch))

pub data Reach (s : Slots) : Slots → Type 0 where
  here : Reach s s
  next : {t u : Slots} → Reach s t → Step t u → Reach s u

-- Serviced buffers were completed, completed ones were started, and two at most are on their way.
pub record IsSlotted (s : Slots) : Type 0 where
  pub order0 : s.serviced ≤ s.completed
  pub order1 : s.completed ≤ s.starts
  pub level : s.ch.state.level + s.serviced ≡ s.starts
  pub two : s.ch.state.level ≤ 2
  pub slot1 : s.ch.state.idx1 ≡ s.starts % 2
  pub slot2 : s.ch.state.idx2 ≡ s.completed % 2
  pub requests : s.ch.state.request_counter ≡ s.completed % 2 ^ 32
  pub services : s.ch.state.service_counter ≡ s.serviced % 2 ^ 32

init-IsSlotted :
    (ch : DimChannel)
    → IsSlotted
        (record { ch = record ch { state = state_init }; starts = 0; completed = 0; serviced = 0 })
unfolding state_init
init-IsSlotted ch = ground arith

pub IsSlotted-Step : {s t : Slots} → Step s t → IsSlotted s → IsSlotted t
unfolding channel_start channel_service channel_service_interrupt
IsSlotted-Step (starting s fcnt a n d) v = ground arith
IsSlotted-Step (completing s h) v = ground arith
IsSlotted-Step (servicing s) v = ground arith

-- In every order of starts, interrupts and services: what is serviced was completed and what is
-- completed was started; `level` is the number of buffers that are not serviced, two at most; and
-- the indices point to the slots of the next start and the next completion.
pub IsSlotted-Reach : {s t : Slots} → IsSlotted s → Reach s t → IsSlotted t
IsSlotted-Reach v here = v
IsSlotted-Reach v (next r st) = IsSlotted-Step st (IsSlotted-Reach v r)

-- After no such order does `channel_service` report an underflow, and it serves a buffer exactly if a
-- completed one is left.
pub service_no_underflow :
    {s t : Slots}
    → IsSlotted s
    → Reach s t
    → let (e, ch) = channel_service t.ch in
      (e ≡ no_error)
      × (ch.state.level + (if t.serviced == t.completed then 0 else 1) ≡ t.ch.state.level)
unfolding channel_service
service_no_underflow {s} {t} i r = let v = IsSlotted-Reach i r in ground arith

abbrev pub slot_of : Command → ℕ
slot_of (start_isoc_sync a slot b n) = slot
slot_of (start_ctrl_async a slot b n) = slot

command_slot : (ch : DimChannel) (a n : ℕ) → slot_of (start_command ch a n) ≡ ch.state.idx1
command_slot ch a n = ground arith

start_slot :
    (fcnt a n : ℕ) (d : AsyncTxDbr) (ch : DimChannel) (k : Command)
    → (channel_start fcnt a n ch d).0 ≡ started k
    → (slot_of k ≡ ch.state.idx1) × (ch.state.level < 2)
unfolding channel_start
start_slot fcnt a n d ch k e = ground (arith, command_slot ch a n)

-- A buffer that `channel_start` accepts goes to the slot of none of the buffers that were started
-- and are not serviced yet (the `j`-th buffer has slot `j % 2`).
pub start_free_slot :
    {s t : Slots} (fcnt buf_addr buf_size j : ℕ) (d : AsyncTxDbr) (k : Command)
    → IsSlotted s
    → Reach s t
    → (channel_start fcnt buf_addr buf_size t.ch d).0 ≡ started k
    → t.serviced ≤ j
    → j < t.starts
    → j % 2 ≢ slot_of k
start_free_slot {s} {t} fcnt a n j d k i r e low high =
    let v = IsSlotted-Reach i r in
    let (p, q) = start_slot fcnt a n d t.ch k e in λ same. absurd (omega (arith, v, p, q, same))
