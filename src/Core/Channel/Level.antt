-- ===== src/Core/Channel/Level.antt =====
-- `mbo_nq_level` of an Rx channel against the buffers that wait for the hardware.
use unicens2_driver.Common.{
  ℕ, ◌+◌, ◌≡◌, refl, ap, Bool, true, false, List, [], ◌∷◌, if◌then◌else◌, arith, length,
  length-append,
}
use unicens2_driver.Common.Int.{ℤ, ◌+ℤ◌, ◌-ℤ◌, pos_part, neg_part}
use unicens2_driver.Core.Types.{
  Mbo, Channel, Counter, dummy, of_aim0, of_aim1, Status, success, inval, close, ch_rx,
}
use unicens2_driver.Core.Channel.{
  trash_mbo, nq_hdm_mbo, count_down, level_up, level_down, most_put_mbo, most_read_completion,
  get_first, most_get_mbo, counter_of, Round, stopped, idle, failed, passed, pass_on,
  hdm_enqueue_round, most_stop_enqueue, most_resume_enqueue,
}

-- `mbo_nq_level` less the length of `halt_fifo` grows by `a` and falls by `b`.
abbrev pub Drifts : ℕ → ℕ → Channel → Channel → Type 0
Drifts a b c d =
    pos_part d.mbo_nq_level + neg_part c.mbo_nq_level + length c.halt_fifo + b
    ≡ pos_part c.mbo_nq_level + neg_part d.mbo_nq_level + length d.halt_fifo + a

-- A completion that does not lower the level.
abbrev pub is_fault : Status → Bool
is_fault success = false
is_fault inval = true
is_fault close = true

nq-Drifts : (m : Mbo) (c : Channel) → Drifts 0 0 c (level_up (nq_hdm_mbo m c))
unfolding level_up nq_hdm_mbo ◌+ℤ◌
nq-Drifts m c = ground (arith, length-append c.halt_fifo (m ∷ []))

level_down-Drifts : (c : Channel) → Drifts 0 1 c (level_down c)
unfolding level_down ◌-ℤ◌
level_down-Drifts c = ground arith

module _ (m : Mbo) (c : Channel) (rx : c.cfg.direction ≡ ch_rx) where
  pub put-Drifts : Drifts 0 0 c (most_put_mbo m c)
  unfolding most_put_mbo
  put-Drifts = ground (arith, nq-Drifts m c)

level_down-cfg : (c : Channel) → (level_down c).cfg ≡ c.cfg
unfolding level_down
level_down-cfg c = refl

-- A completion takes 1 off the level, unless its status is a fault.
pub read-Drifts :
    (f : ℕ → Mbo → ℤ) (m : Mbo) (c : Channel)
    → c.cfg.direction ≡ ch_rx
    → c.is_poisoned ≡ false
    → Drifts 0 (if is_fault m.status then 0 else 1) c (most_read_completion f m c).0
unfolding most_read_completion trash_mbo
read-Drifts f m c rx h =
    ground
      (arith, nq-Drifts m c, level_down-Drifts c, level_down-cfg c, put-Drifts m (level_down c))

get_first-Drifts : (k : Counter) (ms : List Mbo) (c : Channel) → Drifts 0 0 c (get_first k ms c).1
unfolding get_first count_down
get_first-Drifts k [] c = omega arith
get_first-Drifts dummy (m ∷ ms) c = omega arith
get_first-Drifts of_aim0 (m ∷ ms) c = omega arith
get_first-Drifts of_aim1 (m ∷ ms) c = omega arith

pub get-Drifts : (aim : ℕ) (c : Channel) → Drifts 0 0 c (most_get_mbo aim c).1
unfolding most_get_mbo
get-Drifts aim c = ground (arith, get_first-Drifts (counter_of aim c) c.fifo c)

-- A buffer that is passed on leaves `halt_fifo`.
abbrev pub fed : Round → ℕ
fed (passed m) = 1
fed stopped = 0
fed idle = 0
fed failed = 0

pass_on-Drifts :
    (enqueue : Mbo → ℤ) (ms : List Mbo) (c : Channel)
    → c.halt_fifo ≡ ms
    → let (r, d) = pass_on enqueue ms c in Drifts (fed r) 0 c d
unfolding pass_on nq_hdm_mbo
pass_on-Drifts enqueue [] c e = omega arith
pass_on-Drifts enqueue (m ∷ ms) c e = ground (
  arith,
  ap (length {A = Mbo}) e,
  length-append ms (m ∷ []),
  length-append ms (record m { buffer_length = c.cfg.buffer_size } ∷ []),
)

pub round-Drifts :
    (stop : Bool) (enqueue : Mbo → ℤ) (c : Channel)
    → let (r, d) = hdm_enqueue_round stop enqueue c in Drifts (fed r) 0 c d
unfolding hdm_enqueue_round
round-Drifts stop enqueue c = ground (arith, pass_on-Drifts enqueue c.halt_fifo c refl)

pub halt-Drifts : (c : Channel) → Drifts 0 0 c (most_stop_enqueue c)
unfolding most_stop_enqueue
halt-Drifts c = omega arith

pub resume-Drifts : (c : Channel) → Drifts 0 0 c (most_resume_enqueue c)
unfolding most_resume_enqueue
resume-Drifts c = omega arith
