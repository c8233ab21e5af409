-- ===== src/Core/Run/Start.antt =====
-- `most_start_channel`: the buffers that it arms, the shares of the two links, the references that
-- it takes, and what its error paths leave behind.
use mathlib.Core.Path.{subst}
use unicens2_driver.Common.{
  ℕ, ◌-◌, ◌/◌, ◌≡◌, ◌<◌, refl, true, false, ◌==◌, if◌then◌else◌, arith, length, inl, inr,
  Bool-cases,
}
use unicens2_driver.Common.Int.{ℤ, pos, ◌+ℤ◌, ◌-ℤ◌, ◌==ℤ◌, leb_ℤ}
use unicens2_driver.Core.Types.{Config, Channel, read, write, ch_rx, points_to}
use unicens2_driver.Core.Channel.Flush.{on_lists}
use unicens2_driver.Core.Channel.Arm.{Queued, Pooled}
use unicens2_driver.Core.Run.{
  Env, take_ref, start_thread, start_buffers, start_configured, finish_start, most_start_channel,
  arm_mbo_chain,
}
use unicens2_driver.Core.Run.Chain.{
  fresh_level, Provides, arm_mbo_chain-Queued, arm_mbo_chain-Pooled, arm_mbo_chain_all,
}

-- A start that goes all the way: nobody uses the channel, its lists are empty, everything outside
-- answers, and `cfg` is the configuration as the hardware module has checked it.
pub record CanStart (env : Env) (c : Channel) (cfg : Config) : Type 0 where
  pub unused : leb_ℤ (c.aim0.refs +ℤ c.aim1.refs) (pos 0) ≡ true
  pub idle : on_lists c ≡ 0
  pub healthy : c.is_poisoned ≡ false
  pub loaded : env.module_ok ≡ true
  pub accepted : env.configure (record c.cfg { extra_len = 0 }) ≡ (pos 0, cfg)
  pub some_buffer : 0 < cfg.num_buffers
  pub memory : Provides env.memory 0 cfg.num_buffers

-- A channel that has just been started with `n` buffers, of which `k` wait for the hardware.
pub record IsStarted (aim n k : ℕ) (c d : Channel) : Type 0 where
  pub pool : length d.fifo ≡ n - k
  pub queue : length d.halt_fifo ≡ k
  pub trash : length d.trash_fifo ≡ 0
  pub level : d.mbo_nq_level ≡ pos k
  pub refs : d.mbo_ref ≡ pos n
  pub share : d.aim0.num_buffers +ℤ d.aim1.num_buffers ≡ pos n
  pub half : d.aim0.num_buffers ≡ pos (n / 2)
  pub users0 : d.aim0.refs ≡ (if points_to c.aim0 aim then c.aim0.refs +ℤ pos 1 else c.aim0.refs)
  pub users1 : d.aim1.refs ≡ (if points_to c.aim1 aim then c.aim1.refs +ℤ pos 1 else c.aim1.refs)
  pub mod_ref : d.mod_refs ≡ c.mod_refs +ℤ pos 1
  pub task : d.hdm_enqueue_task ≡ true

abbrev with_cfg : Channel → Config → Channel
with_cfg c cfg = record c { mod_refs = c.mod_refs +ℤ pos 1; cfg = cfg }

abbrev chain_of : Env → Channel → ℕ × Channel
chain_of env c =
    arm_mbo_chain env.memory c.cfg.direction (if c.cfg.direction == ch_rx then read else write) c

-- What `most_start_channel` comes to when everything up to the thread has worked.
start_to_thread :
    (env : Env) (aim : ℕ) (c : Channel) (cfg : Config)
    → CanStart env c cfg
    → most_start_channel env aim c
      ≡ finish_start aim (start_thread env.thread cfg.num_buffers (chain_of env (with_cfg c cfg)).1)
unfolding most_start_channel start_configured start_buffers
start_to_thread env aim c cfg v = ground (
  arith,
  arm_mbo_chain_all env.memory cfg.direction (if cfg.direction == ch_rx then read else write)
      (with_cfg c cfg) v.memory,
)

-- `k` of the buffers wait for the hardware: all of an Rx channel, none of another.
abbrev pub waiting_share : Config → ℕ
waiting_share cfg = if cfg.direction == ch_rx then cfg.num_buffers else 0

-- The last part of the start, on the channel `c` as the chain has left it.
record IsFinished (aim n : ℕ) (c : Channel) (r : ℤ × Channel) : Type 0 where
  result : r.0 ≡ pos 0
  pool : r.1.fifo ≡ c.fifo
  queue : r.1.halt_fifo ≡ c.halt_fifo
  trash : r.1.trash_fifo ≡ c.trash_fifo
  level : r.1.mbo_nq_level ≡ c.mbo_nq_level
  refs : r.1.mbo_ref ≡ pos n
  half0 : r.1.aim0.num_buffers ≡ pos (c.cfg.num_buffers / 2)
  half1 : r.1.aim1.num_buffers ≡ pos (c.cfg.num_buffers - c.cfg.num_buffers / 2)
  users0 : r.1.aim0.refs ≡ (if points_to c.aim0 aim then c.aim0.refs +ℤ pos 1 else c.aim0.refs)
  users1 : r.1.aim1.refs ≡ (if points_to c.aim1 aim then c.aim1.refs +ℤ pos 1 else c.aim1.refs)
  mod_ref : r.1.mod_refs ≡ c.mod_refs
  task : r.1.hdm_enqueue_task ≡ true

start_thread-IsFinished :
    (aim n : ℕ) (thread : ℤ) (c : Channel)
    → thread ≡ pos 0
    → IsFinished aim n c (finish_start aim (start_thread thread n c))
unfolding finish_start start_thread take_ref
start_thread-IsFinished aim n thread c t = ground arith

-- The start of an Rx channel, from the state that the chain leaves.
module _ (aim n : ℕ) (c d : Channel) (cfg : Config) (r : ℤ × Channel)
    (f : IsFinished aim n d r) where
  rx-IsStarted :
      on_lists c ≡ 0
      → n ≡ cfg.num_buffers
      → Queued n (fresh_level (with_cfg c cfg)) d
      → IsStarted aim n n c r.1
  unfolding ◌+ℤ◌
  rx-IsStarted e en q = ground arith

  tx-IsStarted :
      on_lists c ≡ 0
      → n ≡ cfg.num_buffers
      → Pooled n (fresh_level (with_cfg c cfg)) d
      → IsStarted aim n 0 c r.1
  unfolding ◌+ℤ◌
  tx-IsStarted e en q = ground arith

module _ (env : Env) (aim : ℕ) (c : Channel) (cfg : Config) (v : CanStart env c cfg) where
  chain_all : (chain_of env (with_cfg c cfg)).0 ≡ cfg.num_buffers
  chain_all = arm_mbo_chain_all env.memory cfg.direction _ (with_cfg c cfg) v.memory

  chain-Queued :
      (cfg.direction == ch_rx) ≡ true
      → Queued cfg.num_buffers (fresh_level (with_cfg c cfg)) (chain_of env (with_cfg c cfg)).1
  chain-Queued h =
      subst (λ n. Queued n (fresh_level (with_cfg c cfg)) (chain_of env (with_cfg c cfg)).1)
        chain_all (arm_mbo_chain-Queued env.memory cfg.direction _ (with_cfg c cfg) h).0

  chain-Pooled :
      (cfg.direction == ch_rx) ≡ false
      → Pooled cfg.num_buffers (fresh_level (with_cfg c cfg)) (chain_of env (with_cfg c cfg)).1
  chain-Pooled h =
      subst (λ n. Pooled n (fresh_level (with_cfg c cfg)) (chain_of env (with_cfg c cfg)).1)
        chain_all (arm_mbo_chain-Pooled env.memory cfg.direction _ (with_cfg c cfg) h v.healthy).0

  chain-IsStarted :
      (r : ℤ × Channel)
      → IsFinished aim cfg.num_buffers (chain_of env (with_cfg c cfg)).1 r
      → IsStarted aim cfg.num_buffers (waiting_share cfg) c r.1
  chain-IsStarted r f = elim (Bool-cases (cfg.direction == ch_rx)) [
    | inl h ↦ rw h (rx-IsStarted aim cfg.num_buffers c _ cfg r f v.idle refl (chain-Queued h))
    | inr h ↦ rw h (tx-IsStarted aim cfg.num_buffers c _ cfg r f v.idle refl (chain-Pooled h))
  ]

  -- A start in which everything outside answers returns 0. All `num_buffers` buffers are allocated
  -- and counted in `mbo_ref`: those of an Rx channel wait for the hardware and are counted in
  -- `mbo_nq_level`, those of another are in the pool. The two links share them, half of them, rounded
  -- down, for the first. The caller is counted in at each link that points to it, and one reference
  -- on the hardware module is taken.
  pub start-IsStarted :
      env.thread ≡ pos 0
      → let (ret, d) = most_start_channel env aim c in
        (ret ≡ pos 0) × IsStarted aim cfg.num_buffers (waiting_share cfg) c d
  start-IsStarted t =
      let f =
        start_thread-IsFinished aim cfg.num_buffers env.thread (chain_of env (with_cfg c cfg)).1
          t in
      rw (start_to_thread env aim c cfg v) (f.result, chain-IsStarted _ f)

  -- Where only `kthread_run` fails, its error is returned and the reference on the module is given
  -- back; but all the buffers stay on the lists, and `mbo_ref` does not count them.
  pub start_leaks :
      (env.thread ==ℤ pos 0) ≡ false
      → let (ret, d) = most_start_channel env aim c in
        (ret ≡ env.thread)
        × (on_lists d ≡ cfg.num_buffers)
        × (d.mbo_ref ≡ c.mbo_ref)
        × (d.mod_refs ≡ c.mod_refs)
        × (d.aim0 ≡ c.aim0)
        × (d.aim1 ≡ c.aim1)
  unfolding start_thread finish_start ◌-ℤ◌ ◌+ℤ◌
  start_leaks t = elim (Bool-cases (cfg.direction == ch_rx)) [
    | inl h ↦ rw (start_to_thread env aim c cfg v) (let q = chain-Queued h in ground arith)
    | inr h ↦ rw (start_to_thread env aim c cfg v) (let q = chain-Pooled h in ground arith)
  ]
