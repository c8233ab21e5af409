-- ===== src/Core/System/Tests.antt =====
-- Orders of steps on small channels, and the theorems at them.
use unicens2_driver.Common.{ℕ, ◌+◌, ◌≡◌, ◌≤◌, refl, true, false, none, some, List, [], ◌∷◌}
use unicens2_driver.Common.Int.{ℤ, pos, ◌+ℤ◌, ◌-ℤ◌}
use unicens2_driver.Core.Types.{
  Config, Mbo, AimObj, Channel, dummy, of_aim0, of_aim1, success, inval, read, write, Completion,
  ch_rx, ch_tx, ch_async,
}
use unicens2_driver.Core.Channel.{
  most_put_mbo, flush_trash_fifo, flush_channel_fifos, most_get_mbo, most_read_completion, level_up,
  nq_hdm_mbo,
}
use unicens2_driver.Core.Channel.Copies.{at, copies}
use unicens2_driver.Core.Channel.Balance.{charged}
use unicens2_driver.Core.Run.{stop_begin}
use unicens2_driver.Core.System.Moves.{
  Moves, unmoved, then_move, steps, flushes_trash, flushes_fifos,
}
use unicens2_driver.Core.System.{System, gets, puts, poisons, reads, Reach, here, next, with_read}
use unicens2_driver.Core.System.Owned.{owned, places-Reach}
use unicens2_driver.Core.System.Share.{out, out-le-share}
use unicens2_driver.Core.System.Level.{queued, faults, level-Reach}

abbrev config : ℕ → Config
config dir = record {
  direction = dir;
  data_type = ch_async;
  num_buffers = 2;
  buffer_size = 64;
  extra_len = 0;
  subbuffer_size = 0;
  packets_per_xact = 0;
}

abbrev buffer : ℕ → Completion → Mbo
buffer a k = record {
  id = a;
  num_buffers_ptr = dummy;
  hdm_channel_id = 3;
  buffer_length = 0;
  status = success;
  complete = k;
}

-- A link with the module at address `a`, used once, with a share of one buffer.
abbrev link : ℕ → AimObj
link a = record {
  ptr = some (record { id = a; has_rx_completion = true; has_tx_completion = true });
  refs = pos 1;
  num_buffers = pos 1;
}

abbrev channel : ℕ → List Mbo → Channel
channel dir pool = record {
  channel_id = 3;
  cfg = config dir;
  is_poisoned = false;
  is_starving = false;
  enqueue_halt = false;
  fifo = pool;
  halt_fifo = [];
  trash_fifo = [];
  aim0 = link 7;
  aim1 = link 8;
  mbo_ref = pos 2;
  mbo_nq_level = pos 0;
  cleanup = 0;
  hdm_enqueue_task = true;
  dummy_num_buffers = pos 0;
  freed = [];
  tx_calls = [];
  mod_refs = pos 1;
}

-- A Tx channel with two buffers in its pool.
abbrev tx_system : System
tx_system = record {
  chan = channel ch_tx (buffer 1 write ∷ buffer 2 write ∷ []);
  hdm = [];
  held = [];
}

abbrev first_buffer : Mbo
first_buffer = record (buffer 1 write) { num_buffers_ptr = of_aim1; buffer_length = 64 }

-- The second module takes a buffer.
abbrev after_get : System
after_get = record tx_system { chan = (most_get_mbo 8 tx_system.chan).1; held = first_buffer ∷ [] }

tx_history : Reach tx_system after_get
unfolding most_get_mbo
tx_history = next here (gets tx_system 8 first_buffer refl)

-- It can have no second one.
get_over_share : (most_get_mbo 8 after_get.chan).0 ≡ none
unfolding most_get_mbo ◌-ℤ◌
get_over_share = refl

-- It is stopped, the module gives its buffer back, and both buffers are freed.
abbrev stopping : System
stopping = record after_get { chan = stop_begin after_get.chan }

abbrev given_back : System
given_back = record stopping { chan = most_put_mbo first_buffer stopping.chan; held = [] }

abbrev no_trash : System
no_trash = record given_back { chan = flush_trash_fifo given_back.chan }

abbrev flushed : System
flushed = record no_trash { chan = flush_channel_fifos no_trash.chan }

tx_life : Moves tx_system flushed []
unfolding most_get_mbo
tx_life =
    then_move
      (then_move
        (then_move
          (then_move (then_move unmoved (steps (gets tx_system 8 first_buffer refl)))
            (steps (poisons after_get)))
          (steps (puts stopping [] [] first_buffer refl)))
        (flushes_trash given_back))
      (flushes_fifos no_trash)

places-Reach_example : owned (at 1) flushed ≡ owned (at 1) tx_system + copies (at 1) []
places-Reach_example = places-Reach 1 tx_life

out-le-share_example : (out of_aim0 after_get ≤ 1) × (out of_aim1 after_get ≤ 1)
unfolding charged
out-le-share_example = out-le-share refl (refl, refl) refl refl refl refl tx_history

-- An Rx channel with one buffer with the hardware, which gives it back with a fault.
abbrev rx_system : System
rx_system = record {
  chan = record (channel ch_rx []) { mbo_nq_level = pos 1 };
  hdm = buffer 1 read ∷ [];
  held = [];
}

abbrev refuses : ℕ → Mbo → ℤ
refuses a m = pos 1

abbrev after_fault : System
after_fault =
    with_read [] (record (buffer 1 read) { status = inval }) []
      (most_read_completion refuses (record (buffer 1 read) { status = inval }) rx_system.chan)

rx_history : Reach rx_system after_fault
rx_history = next here (reads rx_system [] [] (buffer 1 read) inval refuses refl refl)

level-Reach_example :
    after_fault.chan.mbo_nq_level +ℤ pos (queued rx_system)
    ≡ rx_system.chan.mbo_nq_level +ℤ pos (queued after_fault + faults rx_history)
unfolding most_read_completion level_up nq_hdm_mbo copies
level-Reach_example = level-Reach (record { direction = refl; no_writer = refl }) rx_history refl
