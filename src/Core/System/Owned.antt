-- ===== src/Core/System/Owned.antt =====
-- No step loses a buffer, makes one up, or frees one that is still in use.
use unicens2_driver.Common.{ℕ, ◌+◌, ◌≡◌, ap, arith, List}
use mathlib.Core.Path.{subst}
use unicens2_driver.Core.Types.{Channel, Mbo}
use unicens2_driver.Core.Channel.{Round, stopped, idle, failed, passed}
use unicens2_driver.Core.Channel.Copies.{
  Weight, at, copies, copies-middle, in_channel, in_channel-put, in_channel-submit, in_channel-halt,
  in_channel-resume, in_channel-write_completion, in_channel-read_completion, taken, in_channel-get,
  passed_copies, in_channel-round, copies-cons, copies-append, in_channel-flush_trash,
  in_channel-flush_fifos,
}
use unicens2_driver.Core.Run.Copies.{
  in_channel-stop_begin, StaysHeld, wait-StaysHeld, in_channel-arm_one, in_channel-thread,
  in_channel-take_ref, in_channel-drop_ref,
}
use unicens2_driver.Core.System.{
  System, with_round, Step, gets, submits, puts, feeds, writes, reads, halts, resumes, poisons,
}
use unicens2_driver.Core.System.Moves.{
  prepares, Move, steps, arms, threads, joins, leaves, flushes_trash, flushes_fifos, ends, Moves,
  unmoved, then_move,
}

-- The weight of all the places where a buffer can stand; `owned (at a)` counts the places of the
-- buffer at the address `a`.
abbrev pub owned : Weight → System → ℕ
owned i s = in_channel i s.chan + copies i s.hdm + copies i s.held

round-owned :
    (i : Weight) (s : System) (r : Round) (d : Channel)
    → passed_copies i r + in_channel i d ≡ in_channel i s.chan
    → owned i (with_round s (r, d)) ≡ owned i s
round-owned i s (passed m) d h = omega (arith, copies-cons i m s.hdm)
round-owned i s stopped d h = omega arith
round-owned i s idle d h = omega arith
round-owned i s failed d h = omega arith

pub owned-Step : (i : Weight) {s t : System} → Step s t → owned i t ≡ owned i s
owned-Step i (gets s aim m e) =
    omega (arith, in_channel-get i aim s.chan, ap (taken i) e, copies-cons i m s.held)
owned-Step i (submits s xs ys m n e d) = omega (
  arith,
  ap (copies i) e,
  copies-middle i xs ys m,
  in_channel-submit i (record m { buffer_length = n }) s.chan,
)
owned-Step i (puts s xs ys m e) =
    omega (arith, ap (copies i) e, copies-middle i xs ys m, in_channel-put i m s.chan)
owned-Step i (feeds s stop enqueue) = round-owned i s _ _ (in_channel-round i stop enqueue s.chan)
owned-Step i (writes s xs ys m st e w) = omega (
  arith,
  ap (copies i) e,
  copies-middle i xs ys m,
  in_channel-write_completion i (record m { status = st }) s.chan,
)
owned-Step i (reads s xs ys m st rx e w) = ground (
  arith,
  ap (copies i) e,
  copies-middle i xs ys m,
  copies-cons i (record m { status = st }) s.held,
  in_channel-read_completion rx i (record m { status = st }) s.chan,
)
owned-Step i (halts s) = omega (arith, in_channel-halt i s.chan)
owned-Step i (resumes s) = omega (arith, in_channel-resume i s.chan)
owned-Step i (poisons s) = omega (arith, in_channel-stop_begin i s.chan)

owned-Move :
    (i : Weight) {s t : System} {ms : List Mbo} → Move s t ms → owned i t ≡ owned i s + copies i ms
unfolding copies
owned-Move i (steps st) = omega (arith, owned-Step i st)
owned-Move i (arms s dir k a) = omega (arith, in_channel-arm_one i dir k a s.chan)
owned-Move i (prepares s cfg refs) = omega arith
owned-Move i (threads s thread n) = omega (arith, in_channel-thread i thread n s.chan)
owned-Move i (joins s aim) = omega (arith, in_channel-take_ref i aim s.chan)
owned-Move i (leaves s aim) = omega (arith, in_channel-drop_ref i aim s.chan)
owned-Move i (flushes_trash s) = omega (arith, in_channel-flush_trash i s.chan)
owned-Move i (flushes_fifos s) = omega (arith, in_channel-flush_fifos i s.chan)
owned-Move i (ends s aim d e) =
    let v : in_channel i d ≡ in_channel i s.chan =
      subst (StaysHeld i s.chan) e (wait-StaysHeld i aim s.chan) in
    omega (arith, v)

owned-Moves :
    (i : Weight) {s t : System} {ms : List Mbo} → Moves s t ms → owned i t ≡ owned i s + copies i ms
unfolding copies
owned-Moves i unmoved = omega arith
owned-Moves i (then_move {ms = ms} {ns = ns} r st) =
    omega (arith, owned-Moves i r, owned-Move i st, copies-append i ms ns)

-- From the first buffer that is armed to the last that is freed, in every order of the steps of a channel, of
-- its users and of its hardware module: the buffer at each address stands in as many places as before and
-- as it was allocated since. So one that stood nowhere and is allocated once always stands in exactly one
-- place: in a list of the channel, with the hardware module, with an application module, or freed.
pub places-Reach :
    (a : ℕ) {s t : System} {ms : List Mbo}
    → Moves s t ms
    → owned (at a) t ≡ owned (at a) s + copies (at a) ms
places-Reach a r = owned-Moves (at a) r
