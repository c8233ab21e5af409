-- ===== src/Core/Channel/Arm.antt =====
-- Putting one buffer on a list of the channel: which list grows, and what stays as it is.
use unicens2_driver.Common.{ℕ, ◌+◌, ◌≡◌, false, [], ◌∷◌, arith, length, length-append}
use unicens2_driver.Common.Int.{pos, ◌+ℤ◌}
use unicens2_driver.Core.Types.{Mbo, Channel, dummy}
use unicens2_driver.Core.Channel.{arm_mbo, nq_hdm_mbo, level_up, count_up}

-- What neither a round of arming nor a completion changes.
pub record SameUsers (c d : Channel) : Type 0 where
  pub cfg : d.cfg ≡ c.cfg
  pub mbo_ref : d.mbo_ref ≡ c.mbo_ref
  pub mod_refs : d.mod_refs ≡ c.mod_refs
  pub poisoned : d.is_poisoned ≡ c.is_poisoned
  pub cleanup : d.cleanup ≡ c.cleanup

-- `k` buffers went to `halt_fifo`, and are counted in `mbo_nq_level`.
pub record Queued (k : ℕ) (c d : Channel) : Type 0 where
  pub users : SameUsers c d
  pub same_aim0 : d.aim0 ≡ c.aim0
  pub same_aim1 : d.aim1 ≡ c.aim1
  pub fifo : d.fifo ≡ c.fifo
  pub trash : d.trash_fifo ≡ c.trash_fifo
  pub halt : length d.halt_fifo ≡ length c.halt_fifo + k
  pub level : d.mbo_nq_level ≡ c.mbo_nq_level +ℤ pos k

-- `k` buffers that no link is charged for went to `fifo`.
pub record Pooled (k : ℕ) (c d : Channel) : Type 0 where
  pub users : SameUsers c d
  pub same_aim0 : d.aim0 ≡ c.aim0
  pub same_aim1 : d.aim1 ≡ c.aim1
  pub halt : d.halt_fifo ≡ c.halt_fifo
  pub trash : d.trash_fifo ≡ c.trash_fifo
  pub fifo : length d.fifo ≡ length c.fifo + k
  pub level : d.mbo_nq_level ≡ c.mbo_nq_level

pub nq-Queued : (m : Mbo) (c : Channel) → Queued 1 c (level_up (nq_hdm_mbo m c))
unfolding level_up nq_hdm_mbo
nq-Queued m c = ground (arith, length-append c.halt_fifo (m ∷ []))

pub arm-Pooled :
    (m : Mbo) (c : Channel)
    → c.is_poisoned ≡ false
    → m.num_buffers_ptr ≡ dummy
    → Pooled 1 c (arm_mbo m c)
unfolding arm_mbo count_up
arm-Pooled m c h e = ground (arith, length-append c.fifo (m ∷ []))
