-- ===== src/Core/Channel.antt =====
-- The buffer lists of a channel: the functions of mostcore/core.c that move a buffer from one list to
-- another, each with its guards. The spinlock is held around every list access, so that each function
-- is one step; what other threads do comes between the calls.
pub mod Copies
pub mod Flush
pub mod Arm
pub mod Links
pub mod Balance
pub mod Floor
pub mod Level
mod Tests
use unicens2_driver.Common.{
  ℕ, ◌+◌, Bool, true, false, not, ◌&&◌, ◌||◌, Option, none, some, List, [], ◌∷◌, ◌++◌, ◌==◌,
  if◌then◌else◌,
}
use unicens2_driver.Common.Int.{ℤ, pos, ◌+ℤ◌, ◌-ℤ◌, ◌==ℤ◌, leb_ℤ}
use unicens2_driver.Core.Types.{
  Mbo, Channel, AimObj, Counter, dummy, of_aim0, of_aim1, Status, success, inval, close, ch_rx,
  ch_tx, in_use, points_to,
}

abbrev pub list_empty : List Mbo → Bool
list_empty [] = true
list_empty (m ∷ ms) = false

-- `most_free_mbo_coherent`: the last buffer completes `cleanup`.
pub most_free_mbo_coherent : Mbo → Channel → Channel
most_free_mbo_coherent m c =
    let left = c.mbo_ref -ℤ pos 1 in
    record c {
      mbo_ref = left;
      cleanup = if left ==ℤ pos 0 then c.cleanup + 1 else c.cleanup;
      freed = m ∷ c.freed;
    }

-- The loop over a list that frees each buffer.
pub free_all : List Mbo → Channel → Channel
free_all [] c = c
free_all (m ∷ ms) c = free_all ms (most_free_mbo_coherent m c)

pub flush_fifo : Channel → Channel
flush_fifo c = free_all c.fifo (record c { fifo = [] })

pub flush_halt_fifo : Channel → Channel
flush_halt_fifo c = free_all c.halt_fifo (record c { halt_fifo = [] })

pub flush_channel_fifos : Channel → Channel
flush_channel_fifos c =
    if list_empty c.fifo && list_empty c.halt_fifo then c else flush_halt_fifo (flush_fifo c)

pub flush_trash_fifo : Channel → Channel
flush_trash_fifo c = free_all c.trash_fifo (record c { trash_fifo = [] })

-- `list_add`: to the head.
pub trash_mbo : Mbo → Channel → Channel
trash_mbo m c = record c { trash_fifo = m ∷ c.trash_fifo }

-- `list_add_tail`. Waking the thread that feeds the hardware changes no state.
unfoldable pub nq_hdm_mbo : Mbo → Channel → Channel
nq_hdm_mbo m c = record c { halt_fifo = c.halt_fifo ++ m ∷ [] }

pub hdm_mbo_ready : Channel → Bool
hdm_mbo_ready c = if c.enqueue_halt then false else not (list_empty c.halt_fifo)

-- `++*num_buffers_ptr` and `--*num_buffers_ptr`.
pub count_up : Counter → Channel → Channel
count_up dummy c = record c { dummy_num_buffers = c.dummy_num_buffers +ℤ pos 1 }
count_up of_aim0 c = record c { aim0 = record c.aim0 { num_buffers = c.aim0.num_buffers +ℤ pos 1 } }
count_up of_aim1 c = record c { aim1 = record c.aim1 { num_buffers = c.aim1.num_buffers +ℤ pos 1 } }

pub count_down : Counter → Channel → Channel
count_down dummy c = record c { dummy_num_buffers = c.dummy_num_buffers -ℤ pos 1 }
count_down of_aim0 c = record c {
  aim0 = record c.aim0 { num_buffers = c.aim0.num_buffers -ℤ pos 1 };
}
count_down of_aim1 c = record c {
  aim1 = record c.aim1 { num_buffers = c.aim1.num_buffers -ℤ pos 1 };
}

-- The call of one link's `tx_completion`. A link with references has its module.
abbrev pub tx_call : AimObj → List ℕ
tx_call a =
    if in_use a
    then elim a.ptr [ none ↦ [] | some b ↦ if b.has_tx_completion then b.id ∷ [] else [] ]
    else []

pub arm_mbo : Mbo → Channel → Channel
unfolding count_up trash_mbo
arm_mbo m c =
    if c.is_poisoned
    then trash_mbo m c
    else let d = count_up m.num_buffers_ptr c in
      record d {
        fifo = d.fifo ++ m ∷ [];
        tx_calls = d.tx_calls ++ tx_call d.aim0 ++ tx_call d.aim1;
      }

-- `WARN_ONCE` returns on a missing buffer.
pub most_submit_mbo : Option Mbo → Channel → Channel
most_submit_mbo none c = c
most_submit_mbo (some m) c = nq_hdm_mbo m c

unfoldable pub level_up : Channel → Channel
level_up c = record c { mbo_nq_level = c.mbo_nq_level +ℤ pos 1 }

-- `if (atomic_sub_and_test(1, &c->mbo_nq_level)) c->is_starving = 1`.
pub level_down : Channel → Channel
level_down c =
    let left = c.mbo_nq_level -ℤ pos 1 in
    record c { mbo_nq_level = left; is_starving = if left ==ℤ pos 0 then true else c.is_starving }

pub most_put_mbo : Mbo → Channel → Channel
most_put_mbo m c = if c.cfg.direction == ch_tx then arm_mbo m c else level_up (nq_hdm_mbo m c)

pub is_close : Status → Bool
is_close close = true
is_close success = false
is_close inval = false

pub is_inval : Status → Bool
is_inval inval = true
is_inval success = false
is_inval close = false

pub most_write_completion : Mbo → Channel → Channel
unfolding is_close
most_write_completion m c =
    if c.is_poisoned || is_close m.status then trash_mbo m c else arm_mbo m c

-- The call of one link's `rx_completion`, whose result `rx` gives: the module keeps the buffer if
-- it returns 0.
pub offer : (ℕ → Mbo → ℤ) → AimObj → Mbo → Bool
offer rx a m =
    if in_use a
    then elim a.ptr [ none ↦ false | some b ↦ b.has_rx_completion && rx b.id m ==ℤ pos 0 ]
    else false

-- With `true` an application module has kept the buffer.
unfoldable pub most_read_completion : (ℕ → Mbo → ℤ) → Mbo → Channel → Channel × Bool
unfolding is_close is_inval
most_read_completion rx m c =
    if c.is_poisoned || is_close m.status
    then (trash_mbo m c, false)
    else if is_inval m.status
    then (level_up (nq_hdm_mbo m c), false)
    else let d = level_down c in
      if offer rx d.aim0 m || offer rx d.aim1 m then (d, true) else (most_put_mbo m d, false)

-- Both links run, and the one that asks has used up its share.
unfoldable pub quota_used : ℕ → Channel → Bool
quota_used aim c =
    (in_use c.aim0 && in_use c.aim1)
    && ((points_to c.aim0 aim && leb_ℤ c.aim0.num_buffers (pos 0))
        || (points_to c.aim1 aim && leb_ℤ c.aim1.num_buffers (pos 0)))

pub channel_has_mbo : ℕ → Channel → Bool
channel_has_mbo aim c = if quota_used aim c then false else not (list_empty c.fifo)

-- The counter that `most_get_mbo` charges.
pub counter_of : ℕ → Channel → Counter
counter_of aim c =
    if points_to c.aim0 aim then of_aim0 else if points_to c.aim1 aim then of_aim1 else dummy

-- The rest of `most_get_mbo`, on the list as it stands.
unfoldable pub get_first : Counter → List Mbo → Channel → Option Mbo × Channel
unfolding count_down
get_first k [] c = (none, c)
get_first k (m ∷ ms) c = (
  some (record m { num_buffers_ptr = k; buffer_length = c.cfg.buffer_size }),
  count_down k (record c { fifo = ms }),
)

unfoldable pub most_get_mbo : ℕ → Channel → Option Mbo × Channel
unfolding get_first quota_used counter_of
most_get_mbo aim c = if quota_used aim c then (none, c) else get_first (counter_of aim c) c.fifo c

-- What one round of `hdm_enqueue_thread` did.
pub data Round : Type 0 where
  stopped idle failed : Round
  passed : Mbo → Round

-- The buffer that is passed on to `enqueue`, whose result `enqueue` gives.
pub pass_on : (Mbo → ℤ) → List Mbo → Channel → Round × Channel
pass_on enqueue [] c = (idle, c)
pass_on enqueue (m ∷ ms) c =
    let m' =
      if c.cfg.direction == ch_rx then record m { buffer_length = c.cfg.buffer_size } else m in
    let d = record c { halt_fifo = ms } in
    if enqueue m' ==ℤ pos 0
    then (passed m', d)
    else (failed, record (nq_hdm_mbo m' d) { hdm_enqueue_task = false })

-- One round of the loop of `hdm_enqueue_thread`; `stop` is `kthread_should_stop()`. Where the
-- thread would go on waiting, or finds nothing to do under the lock, the round is `idle`.
unfoldable pub hdm_enqueue_round : Bool → (Mbo → ℤ) → Channel → Round × Channel
unfolding pass_on
hdm_enqueue_round stop enqueue c =
    if stop
    then (stopped, c)
    else if not (hdm_mbo_ready c)
    then (idle, c)
    else pass_on enqueue c.halt_fifo c

-- `most_stop_enqueue` and `most_resume_enqueue`.
pub most_stop_enqueue : Channel → Channel
most_stop_enqueue c = record c { enqueue_halt = true }

pub most_resume_enqueue : Channel → Channel
most_resume_enqueue c = record c { enqueue_halt = false }
