-- ===== src/Core/Run/Copies.antt =====
-- Beginning to stop a channel moves no buffer, charges none and changes no link; the other parts of
-- starting and stopping it, and the buffers.
use unicens2_driver.Common.{ℕ, ◌+◌, ◌≡◌, refl, true, arith, ◌==◌, inl, inr, Bool-cases}
use unicens2_driver.Common.Int.{ℤ, pos, ◌==ℤ◌}
use unicens2_driver.Core.Types.{Completion, Channel, Counter, dummy, of_aim0, of_aim1}
use unicens2_driver.Core.Channel.Copies.{Weight, one, in_channel, in_channel-arm, in_channel-nq}
use unicens2_driver.Core.Channel.Links.{SameLinks}
use unicens2_driver.Core.Channel.Balance.{Adds}
use unicens2_driver.Core.Channel.Floor.{IsShared}
use unicens2_driver.Core.Channel.{level_up}
use unicens2_driver.Core.Run.{
  stop_begin, new_mbo, arm_one, take_ref, drop_ref, start_thread, run_enqueue_thread, start_error,
  Outcome, returned, waiting, stop_wait,
}

pub in_channel-stop_begin :
    (i : Weight) (c : Channel) → in_channel i (stop_begin c) ≡ in_channel i c
unfolding stop_begin
in_channel-stop_begin i c = refl

pub SameLinks-stop_begin : (c : Channel) → SameLinks c (stop_begin c)
unfolding stop_begin
SameLinks-stop_begin c = ground arith

pub stop_begin-Adds : (k : Counter) (c : Channel) → Adds k 0 c (stop_begin c)
unfolding stop_begin
stop_begin-Adds dummy c = omega arith
stop_begin-Adds of_aim0 c = omega arith
stop_begin-Adds of_aim1 c = omega arith

pub IsShared-stop_begin : (c : Channel) → IsShared c → IsShared (stop_begin c)
unfolding stop_begin
IsShared-stop_begin c v = ground arith

pub stop_begin_poisons : (c : Channel) → (stop_begin c).is_poisoned ≡ true
unfolding stop_begin
stop_begin_poisons c = refl

-- Of a wait that may have ended.
abbrev pub StaysHeld : Weight → Channel → Outcome → Type 0
StaysHeld i c (returned ret d) = in_channel i d ≡ in_channel i c
StaysHeld i c (waiting d) = in_channel i d ≡ in_channel i c

pub wait-StaysHeld : (i : Weight) (aim : ℕ) (c : Channel) → StaysHeld i c (stop_wait aim c)
unfolding stop_wait drop_ref
wait-StaysHeld i aim c = elim (Bool-cases (c.cleanup == 0)) [
  | inl e ↦ simp (e, stop_wait) refl
  | inr e ↦ simp (e, stop_wait) refl
]

pub in_channel-arm_one :
    (i : Weight) (dir : ℕ) (k : Completion) (a : ℕ) (c : Channel)
    → in_channel i (arm_one dir k a c) ≡ in_channel i c + one i (new_mbo a k c)
unfolding arm_one level_up
in_channel-arm_one i dir k a c =
    ground (arith, in_channel-arm i (new_mbo a k c) c, in_channel-nq i (new_mbo a k c) c)

pub in_channel-thread :
    (i : Weight) (thread : ℤ) (n : ℕ) (c : Channel)
    → in_channel i (start_thread thread n c).1 ≡ in_channel i c
unfolding start_thread run_enqueue_thread start_error
in_channel-thread i thread n c = elim (Bool-cases (thread ==ℤ pos 0)) [
  | inl e ↦ simp (e, start_thread, run_enqueue_thread) refl
  | inr e ↦ simp (e, start_thread, run_enqueue_thread) refl
]

pub in_channel-take_ref :
    (i : Weight) (aim : ℕ) (c : Channel) → in_channel i (take_ref aim c) ≡ in_channel i c
unfolding take_ref
in_channel-take_ref i aim c = refl

pub in_channel-drop_ref :
    (i : Weight) (aim : ℕ) (c : Channel) → in_channel i (drop_ref aim c) ≡ in_channel i c
unfolding drop_ref
in_channel-drop_ref i aim c = refl
