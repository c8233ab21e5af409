-- ===== src/Core/Run.antt =====
-- `most_start_channel` and `most_stop_channel` of mostcore/core.c with what they call. The hardware
-- module's `configure` and `poison_channel`, the allocator, the module loader and the kernel's
-- threads are arguments.
pub mod Copies
pub mod Stop
pub mod Chain
pub mod Start
mod Tests
use unicens2_driver.Common.{
  ℕ, zero, suc, ◌+◌, ◌-◌, ◌/◌, Bool, true, false, not, ◌&&◌, ◌||◌, Option, none, some, List, [],
  ◌∷◌, ◌++◌, ◌==◌, if◌then◌else◌,
}
use unicens2_driver.Common.Int.{ℤ, pos, ◌+ℤ◌, ◌-ℤ◌, ◌==ℤ◌, leb_ℤ}
use unicens2_driver.Core.Types.{
  Config, Mbo, Channel, AimObj, Completion, dummy, read, write, success, ch_rx, einval, enomem,
  enolck, eagain, points_to,
}
use unicens2_driver.Core.Channel.{
  arm_mbo, nq_hdm_mbo, level_up, flush_channel_fifos, flush_trash_fifo,
}

-- What `kzalloc` and `dma_alloc_coherent` give for one buffer: its address, or which of them failed.
pub data Memory : Type 0 where
  got : ℕ → Memory
  no_mbo no_buffer : Memory

pub new_mbo : ℕ → Completion → Channel → Mbo
new_mbo a compl c = record {
  id = a;
  num_buffers_ptr = dummy;
  hdm_channel_id = c.channel_id;
  buffer_length = 0;
  status = success;
  complete = compl;
}

-- The body of the loop of `arm_mbo_chain` for one buffer that was allocated.
pub arm_one : ℕ → Completion → ℕ → Channel → Channel
unfolding new_mbo
arm_one dir compl a c =
    let m = new_mbo a compl c in if dir == ch_rx then level_up (nq_hdm_mbo m c) else arm_mbo m c

-- The loop of `arm_mbo_chain`, with the rounds that are left and `i`. It ends at the first buffer
-- that cannot be allocated, and returns `i`.
pub arm_loop : (ℕ → Memory) → ℕ → Completion → ℕ → ℕ → Channel → ℕ × Channel
arm_loop mem dir compl zero i c = (i, c)
arm_loop mem dir compl (suc n) i c = elim (mem i) [
  | got a ↦ arm_loop mem dir compl n (i + 1) (arm_one dir compl a c)
  | no_mbo ↦ (i, c)
  | no_buffer ↦ (i, c)
]

pub arm_mbo_chain : (ℕ → Memory) → ℕ → Completion → Channel → ℕ × Channel
arm_mbo_chain mem dir compl c =
    arm_loop mem dir compl c.cfg.num_buffers 0 (record c { mbo_nq_level = pos 0 })

-- `run_enqueue_thread`; `thread` is 0, or the error of `kthread_run`.
pub run_enqueue_thread : ℤ → Channel → ℤ × Channel
run_enqueue_thread thread c =
    if thread ==ℤ pos 0 then (pos 0, record c { hdm_enqueue_task = true }) else (thread, c)

-- What `most_start_channel` meets outside the core module.
pub record Env : Type 0 where
  pub module_ok : Bool
  pub configure : Config → ℤ × Config
  pub memory : ℕ → Memory
  pub thread : ℤ

-- `if (aim == c->aimN.ptr) c->aimN.refs++`, and `refs--`.
pub ref_up : ℕ → AimObj → AimObj
ref_up aim a = if points_to a aim then record a { refs = a.refs +ℤ pos 1 } else a

pub ref_down : ℕ → AimObj → AimObj
ref_down aim a = if points_to a aim then record a { refs = a.refs -ℤ pos 1 } else a

pub take_ref : ℕ → Channel → Channel
unfolding ref_up
take_ref aim c = record c { aim0 = ref_up aim c.aim0; aim1 = ref_up aim c.aim1 }

pub drop_ref : ℕ → Channel → Channel
unfolding ref_down
drop_ref aim c = record c { aim0 = ref_down aim c.aim0; aim1 = ref_down aim c.aim1 }

-- The label `error` of `most_start_channel`.
pub start_error : ℤ → Channel → ℤ × Channel
start_error ret c = (ret, record c { mod_refs = c.mod_refs -ℤ pos 1 })

-- From `run_enqueue_thread` on, with the number of buffers that were armed.
pub start_thread : ℤ → ℕ → Channel → ℤ × Channel
unfolding run_enqueue_thread start_error
start_thread thread n c =
    let (ret, d) = run_enqueue_thread thread c in
    if ret ==ℤ pos 0
    then (
      pos 0,
      record d {
        is_starving = false;
        aim0 = record d.aim0 { num_buffers = pos (d.cfg.num_buffers / 2) };
        aim1 = record d.aim1 { num_buffers = pos (d.cfg.num_buffers - d.cfg.num_buffers / 2) };
        mbo_ref = pos n;
      },
    )
    else start_error ret d

-- From `arm_mbo_chain` on.
pub start_buffers : Env → Channel → ℤ × Channel
start_buffers env c =
    let (n, d) =
      arm_mbo_chain env.memory c.cfg.direction (if c.cfg.direction == ch_rx then read else write)
        c in
    if n == 0 then start_error enomem d else start_thread env.thread n d

-- From `configure` on.
pub start_configured : Env → Channel → ℤ × Channel
start_configured env c =
    let (ret, cfg) = env.configure (record c.cfg { extra_len = 0 }) in
    let d = record c { cfg = cfg } in
    if not (ret ==ℤ pos 0) then start_error einval d else start_buffers env d

-- The module reference is taken; then `aim` counts itself in, unless the start failed.
pub finish_start : ℕ → ℤ × Channel → ℤ × Channel
finish_start aim (ret, c) = if ret ==ℤ pos 0 then (pos 0, take_ref aim c) else (ret, c)

pub most_start_channel : Env → ℕ → Channel → ℤ × Channel
most_start_channel env aim c =
    if not (leb_ℤ (c.aim0.refs +ℤ c.aim1.refs) (pos 0))
    then (pos 0, take_ref aim c)
    else if not env.module_ok
    then (enolck, c)
    else finish_start aim (start_configured env (record c { mod_refs = c.mod_refs +ℤ pos 1 }))

-- `most_stop_channel` returns, or waits for the completion of `cleanup`.
pub data Outcome : Type 0 where
  returned : ℤ → Channel → Outcome
  waiting : Channel → Outcome

-- Until the call of `poison_channel`: the thread has ended, the module is put.
unfoldable pub stop_begin : Channel → Channel
stop_begin c = record c {
  hdm_enqueue_task = false;
  is_poisoned = true;
  mod_refs = c.mod_refs -ℤ pos 1;
}

-- `wait_for_completion(&c->cleanup)` and the rest.
pub stop_wait : ℕ → Channel → Outcome
stop_wait aim c =
    if c.cleanup == 0
    then waiting c
    else returned (pos 0) (drop_ref aim (record c { cleanup = c.cleanup - 1; is_poisoned = false }))

-- From `poison_channel` on, with its result.
pub stop_poisoned : ℕ → ℤ × Channel → Outcome
stop_poisoned aim (ret, c) =
    if not (ret ==ℤ pos 0)
    then returned eagain c
    else stop_wait aim (flush_channel_fifos (flush_trash_fifo c))

-- `poison` is the hardware module's `poison_channel`, with what it does to the channel by
-- completing its buffers.
pub most_stop_channel : (Channel → ℤ × Channel) → ℕ → Channel → Outcome
unfolding stop_begin stop_poisoned stop_wait
most_stop_channel poison aim c =
    if leb_ℤ (pos 2) (c.aim0.refs +ℤ c.aim1.refs)
    then returned (pos 0) (drop_ref aim c)
    else stop_poisoned aim (poison (stop_begin c))
