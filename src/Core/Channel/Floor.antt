-- ===== src/Core/Channel/Floor.antt =====
-- With both links running, no call takes a link's counter below 0.
use unicens2_driver.Common.{
  ℕ, ◌≡◌, Bool, true, false, ◌&&◌, ◌||◌, if◌then◌else◌, Bool-cases, inl, inr, some, List, [], ◌∷◌,
  arith,
}
use unicens2_driver.Common.Int.{ℤ, pos, leb_ℤ, ◌+ℤ◌, ◌-ℤ◌, ◌≤ℤ◌}
use unicens2_driver.Core.Types.{Mbo, Channel, Counter, dummy, of_aim0, of_aim1, in_use, points_to}
use unicens2_driver.Core.Channel.{
  trash_mbo, nq_hdm_mbo, count_up, count_down, arm_mbo, most_submit_mbo, level_up, level_down,
  most_put_mbo, most_write_completion, most_read_completion, get_first, most_get_mbo, counter_of,
  quota_used, pass_on, hdm_enqueue_round, most_stop_enqueue, most_resume_enqueue,
}

pub record IsShared (c : Channel) : Type 0 where
  pub floor0 : pos 0 ≤ℤ c.aim0.num_buffers
  pub floor1 : pos 0 ≤ℤ c.aim1.num_buffers

IsShared-count_up : (k : Counter) (c : Channel) → IsShared c → IsShared (count_up k c)
unfolding count_up ◌+ℤ◌
IsShared-count_up dummy c v = ground arith
IsShared-count_up of_aim0 c v = ground arith
IsShared-count_up of_aim1 c v = ground arith

IsShared-arm : (m : Mbo) (c : Channel) → IsShared c → IsShared (arm_mbo m c)
unfolding arm_mbo
IsShared-arm m c v = ground (arith, IsShared-count_up m.num_buffers_ptr c v)

pub IsShared-submit : (m : Mbo) (c : Channel) → IsShared c → IsShared (most_submit_mbo (some m) c)
unfolding most_submit_mbo nq_hdm_mbo
IsShared-submit m c v = ground arith

pub IsShared-put : (m : Mbo) (c : Channel) → IsShared c → IsShared (most_put_mbo m c)
unfolding most_put_mbo level_up nq_hdm_mbo
IsShared-put m c v = ground (arith, IsShared-arm m c v)

pub IsShared-write : (m : Mbo) (c : Channel) → IsShared c → IsShared (most_write_completion m c)
unfolding most_write_completion trash_mbo
IsShared-write m c v = ground (arith, IsShared-arm m c v)

pub IsShared-read :
    (rx : ℕ → Mbo → ℤ) (m : Mbo) (c : Channel)
    → IsShared c
    → IsShared (most_read_completion rx m c).0
unfolding most_read_completion trash_mbo level_up level_down nq_hdm_mbo
IsShared-read rx m c v = ground (arith, IsShared-put m (level_down c))

abbrev pub BothRun : Channel → Type 0
BothRun c = (in_use c.aim0 ≡ true) × (in_use c.aim1 ≡ true)

-- What the counter `k` must have left to be charged once more.
abbrev HasSpare : Counter → Channel → Type 0
HasSpare dummy c = Unit {0}
HasSpare of_aim0 c = pos 1 ≤ℤ c.aim0.num_buffers
HasSpare of_aim1 c = pos 1 ≤ℤ c.aim1.num_buffers

IsShared-count_down :
    (k : Counter) (c : Channel) → HasSpare k c → IsShared c → IsShared (count_down k c)
unfolding count_down ◌-ℤ◌
IsShared-count_down dummy c h v = ground arith
IsShared-count_down of_aim0 c h v = ground arith
IsShared-count_down of_aim1 c h v = ground arith

IsShared-get_first :
    (k : Counter) (ms : List Mbo) (c : Channel)
    → HasSpare k c
    → IsShared c
    → IsShared (get_first k ms c).1
unfolding get_first
IsShared-get_first k [] c h v = v
IsShared-get_first dummy (m ∷ ms) c h v = IsShared-count_down dummy _ h (ground arith)
IsShared-get_first of_aim0 (m ∷ ms) c h v = IsShared-count_down of_aim0 _ h (ground arith)
IsShared-get_first of_aim1 (m ∷ ms) c h v = IsShared-count_down of_aim1 _ h (ground arith)

-- The link that `most_get_mbo` would charge, by what the two comparisons of the pointers give.
HasSpare-of :
    (p0 p1 : Bool) (c : Channel)
    → ((p0 && leb_ℤ c.aim0.num_buffers (pos 0)) || (p1 && leb_ℤ c.aim1.num_buffers (pos 0))) ≡ false
    → HasSpare (if p0 then of_aim0 else if p1 then of_aim1 else dummy) c
HasSpare-of true p1 c h = ground arith
HasSpare-of false true c h = ground arith
HasSpare-of false false c h = tt

quota_left :
    (aim : ℕ) (c : Channel) → BothRun c → quota_used aim c ≡ false → HasSpare (counter_of aim c) c
unfolding quota_used counter_of
quota_left aim c b h =
    HasSpare-of (points_to c.aim0 aim) (points_to c.aim1 aim) c (rw (b.0, b.1) at h)

-- `most_get_mbo` refuses the link whose share is used up.
pub IsShared-get :
    (aim : ℕ) (c : Channel) → BothRun c → IsShared c → IsShared (most_get_mbo aim c).1
unfolding most_get_mbo
IsShared-get aim c b v = elim (Bool-cases (quota_used aim c)) [
  | inl h ↦ rw (h, most_get_mbo) v
  | inr h ↦
      rw (h, most_get_mbo) (IsShared-get_first (counter_of aim c) c.fifo c (quota_left aim c b h) v)
]

IsShared-pass_on :
    (enqueue : Mbo → ℤ) (ms : List Mbo) (c : Channel)
    → IsShared c
    → IsShared (pass_on enqueue ms c).1
unfolding pass_on nq_hdm_mbo
IsShared-pass_on enqueue [] c v = v
IsShared-pass_on enqueue (m ∷ ms) c v = ground arith

pub IsShared-round :
    (stop : Bool) (enqueue : Mbo → ℤ) (c : Channel)
    → IsShared c
    → IsShared (hdm_enqueue_round stop enqueue c).1
unfolding hdm_enqueue_round
IsShared-round stop enqueue c v = ground (arith, IsShared-pass_on enqueue c.halt_fifo c v)

pub IsShared-halt : (c : Channel) → IsShared c → IsShared (most_stop_enqueue c)
unfolding most_stop_enqueue
IsShared-halt c v = ground arith

pub IsShared-resume : (c : Channel) → IsShared c → IsShared (most_resume_enqueue c)
unfolding most_resume_enqueue
IsShared-resume c v = ground arith
