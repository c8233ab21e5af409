-- ===== src/Core/Run/Tests.antt =====
-- The theorems on starting and stopping at one channel with two buffers.
use unicens2_driver.Common.{
  ◌⊎◌, inl, inr, ℕ, ◌+◌, ◌≡◌, refl, true, false, none, some, [], ◌∷◌, arith,
}
use unicens2_driver.Common.Int.{ℤ, pos, negsuc, ◌+ℤ◌, ◌-ℤ◌}
use unicens2_driver.Core.Types.{
  Config, Mbo, AimObj, Channel, dummy, success, write, ch_tx, ch_async, eagain,
}
use unicens2_driver.Core.Channel.Flush.{on_lists}
use unicens2_driver.Core.Run.{got, Env, most_start_channel, returned, stop_begin, most_stop_channel}
use unicens2_driver.Core.Run.Start.{
  CanStart, IsStarted, waiting_share, start-IsStarted, start_leaks,
}
use unicens2_driver.Core.Run.Stop.{
  PoisonedBy, Ends, Waits, stop_returns, Refuses, LostRef, stop_refused,
}

abbrev config : Config
config = record {
  direction = ch_tx;
  data_type = ch_async;
  num_buffers = 2;
  buffer_size = 64;
  extra_len = 0;
  subbuffer_size = 0;
  packets_per_xact = 0;
}

abbrev link : ℕ → AimObj
link a = record {
  ptr = some (record { id = a; has_rx_completion = true; has_tx_completion = true });
  refs = pos 0;
  num_buffers = pos 0;
}

abbrev idle_channel : Channel
idle_channel = record {
  channel_id = 0;
  cfg = config;
  is_poisoned = false;
  is_starving = false;
  enqueue_halt = false;
  fifo = [];
  halt_fifo = [];
  trash_fifo = [];
  aim0 = link 7;
  aim1 = record { ptr = none; refs = pos 0; num_buffers = pos 0 };
  mbo_ref = pos 0;
  mbo_nq_level = pos 0;
  cleanup = 0;
  hdm_enqueue_task = false;
  dummy_num_buffers = pos 0;
  freed = [];
  tx_calls = [];
  mod_refs = pos 0;
}

abbrev env : ℤ → Env
env thread = record {
  module_ok = true;
  configure = λ cfg. (pos 0, cfg);
  memory = λ i. got (i + 100);
  thread = thread;
}

can_start : (thread : ℤ) → CanStart (env thread) idle_channel config
unfolding ◌+ℤ◌
can_start thread = record {
  unused = refl;
  idle = refl;
  healthy = refl;
  loaded = refl;
  accepted = refl;
  some_buffer = omega arith;
  memory = ((100, refl), ((101, refl), tt));
}

start-IsStarted_example :
    let (ret, d) = most_start_channel (env (pos 0)) 7 idle_channel in
    (ret ≡ pos 0) × IsStarted 7 2 (waiting_share config) idle_channel d
start-IsStarted_example =
    start-IsStarted (env (pos 0)) 7 idle_channel config (can_start (pos 0)) refl

start_leaks_example :
    let (ret, d) = most_start_channel (env (negsuc 10)) 7 idle_channel in
    (ret ≡ negsuc 10)
    × (on_lists d ≡ 2)
    × (d.mbo_ref ≡ pos 0)
    × (d.mod_refs ≡ pos 0)
    × (d.aim0 ≡ link 7)
    × (d.aim1 ≡ idle_channel.aim1)
start_leaks_example =
    start_leaks (env (negsuc 10)) 7 idle_channel config (can_start (negsuc 10)) refl

abbrev buffer : ℕ → Mbo
buffer a = record {
  id = a;
  num_buffers_ptr = dummy;
  hdm_channel_id = 0;
  buffer_length = 64;
  status = success;
  complete = write;
}

-- One user, one buffer in the pool and one with the hardware.
abbrev running : Channel
running = record idle_channel {
  aim0 = record (link 7) { refs = pos 1 };
  fifo = buffer 100 ∷ [];
  mbo_ref = pos 2;
  mod_refs = pos 1;
}

-- A hardware module that gives its buffer back, and one that loses it.
abbrev gives_back : Channel → ℤ × Channel
gives_back c = (pos 0, record c { trash_fifo = buffer 101 ∷ c.trash_fifo })

abbrev loses : Channel → ℤ × Channel
loses c = (pos 0, c)

abbrev after_give : Channel
after_give = record running {
  trash_fifo = buffer 101 ∷ [];
  is_poisoned = true;
  hdm_enqueue_task = false;
  mod_refs = pos 0;
}

gives_back-PoisonedBy : PoisonedBy 2 gives_back running after_give
unfolding stop_begin ◌+ℤ◌ ◌-ℤ◌
gives_back-PoisonedBy = record {
  last = refl;
  result = refl;
  counted = refl;
  some_buffer = omega arith;
  fits = omega arith;
  fresh = refl;
}

loses-PoisonedBy : PoisonedBy 2 loses running (record after_give { trash_fifo = [] })
unfolding stop_begin ◌+ℤ◌ ◌-ℤ◌
loses-PoisonedBy = record {
  last = refl;
  result = refl;
  counted = refl;
  some_buffer = omega arith;
  fits = omega arith;
  fresh = refl;
}

stop_returns_example :
    Ends 2 7 gives_back gives_back-PoisonedBy ⊎ Waits 2 7 gives_back gives_back-PoisonedBy
stop_returns_example = stop_returns 2 7 gives_back gives_back-PoisonedBy

-- The module that loses a buffer makes the call wait.
loses_waits : Waits 2 7 loses loses-PoisonedBy
loses_waits = elim (stop_returns 2 7 loses loses-PoisonedBy) [
  | inl x ↦ absurd (omega (arith, x.0))
  | inr x ↦ x
]

abbrev refuses : Channel → ℤ × Channel
refuses c = (negsuc 4, c)

refuses-Refuses : Refuses refuses
refuses-Refuses = record {
  refused = λ c. refl;
  same_mod = λ c. refl;
  same_aim0 = λ c. refl;
  same_aim1 = λ c. refl;
  same_poison = λ c. refl;
}

stop_refused_example :
    (d : Channel) × (most_stop_channel refuses 7 running ≡ returned eagain d) × LostRef running d
unfolding ◌+ℤ◌
stop_refused_example = stop_refused 7 refuses running refuses-Refuses refl
