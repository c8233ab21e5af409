-- ===== src/Core/Channel/Links.antt =====
-- What the calls on a started channel leave as it is: its configuration and its two links. None
-- takes the poison off.
use unicens2_driver.Common.{ℕ, ◌≡◌, Bool, false, not, ◌&&◌, some, List, [], ◌∷◌, arith}
use unicens2_driver.Common.Int.{ℤ}
use unicens2_driver.Core.Types.{Mbo, Channel, Counter, dummy, of_aim0, of_aim1}
use unicens2_driver.Core.Channel.{
  trash_mbo, nq_hdm_mbo, count_up, count_down, arm_mbo, most_submit_mbo, level_up, level_down,
  most_put_mbo, most_write_completion, most_read_completion, get_first, most_get_mbo, counter_of,
  pass_on, hdm_enqueue_round, most_stop_enqueue, most_resume_enqueue,
}

pub record SameLinks (c d : Channel) : Type 0 where
  pub cfg : d.cfg ≡ c.cfg
  pub ptr0 : d.aim0.ptr ≡ c.aim0.ptr
  pub ptr1 : d.aim1.ptr ≡ c.aim1.ptr
  pub refs0 : d.aim0.refs ≡ c.aim0.refs
  pub refs1 : d.aim1.refs ≡ c.aim1.refs
  pub poison : (c.is_poisoned && not d.is_poisoned) ≡ false

pub SameLinks-refl : (c : Channel) → SameLinks c c
SameLinks-refl c = ground arith

pub SameLinks-trans : {c d e : Channel} → SameLinks c d → SameLinks d e → SameLinks c e
SameLinks-trans p q = ground arith

SameLinks-count_up : (k : Counter) (c : Channel) → SameLinks c (count_up k c)
unfolding count_up
SameLinks-count_up dummy c = ground arith
SameLinks-count_up of_aim0 c = ground arith
SameLinks-count_up of_aim1 c = ground arith

SameLinks-count_down : (k : Counter) (c : Channel) → SameLinks c (count_down k c)
unfolding count_down
SameLinks-count_down dummy c = ground arith
SameLinks-count_down of_aim0 c = ground arith
SameLinks-count_down of_aim1 c = ground arith

SameLinks-nq : (m : Mbo) (c : Channel) → SameLinks c (nq_hdm_mbo m c)
unfolding nq_hdm_mbo
SameLinks-nq m c = ground arith

SameLinks-arm : (m : Mbo) (c : Channel) → SameLinks c (arm_mbo m c)
unfolding arm_mbo
SameLinks-arm m c = ground (arith, SameLinks-count_up m.num_buffers_ptr c)

pub SameLinks-put : (m : Mbo) (c : Channel) → SameLinks c (most_put_mbo m c)
unfolding most_put_mbo level_up
SameLinks-put m c = ground (arith, SameLinks-arm m c, SameLinks-nq m c)

pub SameLinks-submit : (m : Mbo) (c : Channel) → SameLinks c (most_submit_mbo (some m) c)
unfolding most_submit_mbo
SameLinks-submit m c = SameLinks-nq m c

pub SameLinks-write : (m : Mbo) (c : Channel) → SameLinks c (most_write_completion m c)
unfolding most_write_completion trash_mbo
SameLinks-write m c = ground (arith, SameLinks-arm m c)

pub SameLinks-read :
    (rx : ℕ → Mbo → ℤ) (m : Mbo) (c : Channel) → SameLinks c (most_read_completion rx m c).0
unfolding most_read_completion trash_mbo level_up level_down
SameLinks-read rx m c = ground (arith, SameLinks-nq m c, SameLinks-put m (level_down c))

SameLinks-get_first : (k : Counter) (ms : List Mbo) (c : Channel) → SameLinks c (get_first k ms c).1
unfolding get_first
SameLinks-get_first k [] c = SameLinks-refl c
SameLinks-get_first k (m ∷ ms) c = ground (arith, SameLinks-count_down k (record c { fifo = ms }))

pub SameLinks-get : (aim : ℕ) (c : Channel) → SameLinks c (most_get_mbo aim c).1
unfolding most_get_mbo
SameLinks-get aim c = ground (arith, SameLinks-get_first (counter_of aim c) c.fifo c)

SameLinks-pass_on :
    (enqueue : Mbo → ℤ) (ms : List Mbo) (c : Channel) → SameLinks c (pass_on enqueue ms c).1
unfolding pass_on nq_hdm_mbo
SameLinks-pass_on enqueue [] c = SameLinks-refl c
SameLinks-pass_on enqueue (m ∷ ms) c = ground arith

pub SameLinks-round :
    (stop : Bool) (enqueue : Mbo → ℤ) (c : Channel)
    → SameLinks c (hdm_enqueue_round stop enqueue c).1
unfolding hdm_enqueue_round
SameLinks-round stop enqueue c = ground (arith, SameLinks-pass_on enqueue c.halt_fifo c)

pub SameLinks-halt : (c : Channel) → SameLinks c (most_stop_enqueue c)
unfolding most_stop_enqueue
SameLinks-halt c = ground arith

pub SameLinks-resume : (c : Channel) → SameLinks c (most_resume_enqueue c)
unfolding most_resume_enqueue
SameLinks-resume c = ground arith
