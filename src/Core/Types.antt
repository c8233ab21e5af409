-- ===== src/Core/Types.antt =====
-- The structures of mostcore/mostcore.h and mostcore/core.c that the channel code works on, and the
-- error codes that it returns.
use unicens2_driver.Common.{ℕ, Bool, false, not, Option, none, some, List, ◌==◌}
use unicens2_driver.Common.Int.{ℤ, pos, negsuc, ◌==ℤ◌}

-- `enum most_channel_direction` and `enum most_channel_data_type`.
abbrev pub ch_rx : ℕ
ch_rx = 1

abbrev pub ch_tx : ℕ
ch_tx = 2

abbrev pub ch_control : ℕ
ch_control = 1

abbrev pub ch_async : ℕ
ch_async = 2

abbrev pub ch_isoc : ℕ
ch_isoc = 4

abbrev pub ch_sync : ℕ
ch_sync = 32

-- Linux error numbers, as they are returned.
abbrev pub eperm : ℤ
eperm = negsuc 0

abbrev pub eio : ℤ
eio = negsuc 4

abbrev pub eagain : ℤ
eagain = negsuc 10

abbrev pub enomem : ℤ
enomem = negsuc 11

abbrev pub enodev : ℤ
enodev = negsuc 18

abbrev pub einval : ℤ
einval = negsuc 21

abbrev pub enospc : ℤ
enospc = negsuc 27

abbrev pub enolck : ℤ
enolck = negsuc 36

-- `struct most_channel_config`; a channel that is not configured has direction and type 0.
pub record Config : Type 0 where
  pub direction : ℕ
  pub data_type : ℕ
  pub num_buffers : ℕ
  pub buffer_size : ℕ
  pub extra_len : ℕ
  pub subbuffer_size : ℕ
  pub packets_per_xact : ℕ

-- `enum mbo_status_flags`.
pub data Status : Type 0 where
  success inval close : Status

-- What `num_buffers_ptr` points to: the counter of a link, or `dummy_num_buffers`.
pub data Counter : Type 0 where
  dummy of_aim0 of_aim1 : Counter

-- What `complete` points to.
pub data Completion : Type 0 where
  read write : Completion

-- `struct mbo`, named by its address. `context` and `ifp` are the one channel of the model.
pub record Mbo : Type 0 where
  pub id : ℕ
  pub num_buffers_ptr : Counter
  pub hdm_channel_id : ℕ
  pub buffer_length : ℕ
  pub status : Status
  pub complete : Completion

-- `struct most_aim`, named by its address, and whether the two completion callbacks are set.
pub record Aim : Type 0 where
  pub id : ℕ
  pub has_rx_completion : Bool
  pub has_tx_completion : Bool

-- `struct most_c_aim_obj`.
pub record AimObj : Type 0 where
  pub ptr : Option Aim
  pub refs : ℤ
  pub num_buffers : ℤ

-- `struct most_c_obj`. `cleanup` counts the completions that nobody has waited for.
-- `dummy_num_buffers` is the file's static counter. The last three fields record what the code does
-- outside its own memory: the buffers that it freed, the calls of `tx_completion` that it made, and
-- the references on the hardware module that it took and did not give back.
pub record Channel : Type 0 where
  pub channel_id : ℕ
  pub cfg : Config
  pub is_poisoned : Bool
  pub is_starving : Bool
  pub enqueue_halt : Bool
  pub fifo : List Mbo
  pub halt_fifo : List Mbo
  pub trash_fifo : List Mbo
  pub aim0 : AimObj
  pub aim1 : AimObj
  pub mbo_ref : ℤ
  pub mbo_nq_level : ℤ
  pub cleanup : ℕ
  pub hdm_enqueue_task : Bool
  pub dummy_num_buffers : ℤ
  pub freed : List Mbo
  pub tx_calls : List ℕ
  pub mod_refs : ℤ

-- C's `if (c->aimN.refs)`.
abbrev pub in_use : AimObj → Bool
in_use a = not (a.refs ==ℤ pos 0)

-- C's `aim == c->aimN.ptr`.
abbrev pub points_to : AimObj → ℕ → Bool
points_to a aim = elim a.ptr [ none ↦ false | some b ↦ b.id == aim ]
