-- ===== src/Cdev/Tests.antt =====
-- The theorems on aim-cdev/cdev.c at a channel with buffers of 4 bytes.
use unicens2_driver.Common.{ℕ, ◌≡◌, refl, arith, true, false, some, List, [], ◌∷◌, ◌++◌}
use unicens2_driver.Common.Int.{ℤ, pos}
use unicens2_driver.Core.Types.{Config, ch_rx, ch_tx, ch_sync, enodev}
use unicens2_driver.Cdev.{
  CdevMbo, CdevChannel, gave, nothing, woken, interrupted, came, none_came, efault, aim_open,
  aim_close, aim_disconnect_channel, aim_write, aim_read, aim_rx_completion, read_wait, read_mbo,
}
use unicens2_driver.Cdev.Write.{WriteCall, IsWriting, written, writes, writes-written}
use unicens2_driver.Cdev.Read.{IsReading, completes, read, run_events, events-IsReading}
use unicens2_driver.Cdev.Links.{CdevLinks, ProbeAnswers}
use unicens2_driver.Cdev.Links.Counts.{IsAccounted}
use unicens2_driver.Cdev.Links.Calls.{
  LinkCall, probe_call, disconnect_call, open_call, close_left_call, link_calls,
  link_calls-IsAccounted,
}
use unicens2_driver.Cdev.Life.{IsLive}
use unicens2_driver.Cdev.Life.Calls.{
  opens, closes, disconnects, receives, reads, none_made, then_call, calls-IsLive,
}

abbrev config : Config
config = record {
  direction = ch_tx;
  data_type = ch_sync;
  num_buffers = 2;
  buffer_size = 4;
  extra_len = 0;
  subbuffer_size = 0;
  packets_per_xact = 0;
}

abbrev linked : CdevChannel
linked = record {
  cfg = config;
  has_dev = true;
  access_ref = false;
  mbo_offs = 0;
  fifo = [];
  received = [];
  submitted = [];
  put = [];
  stops = 0;
  destroyed = 0;
}

abbrev opened : CdevChannel
opened = record linked { access_ref = true }

-- Three bytes start a buffer, and one of the next three ends it.
first_write : aim_write true 0 (gave 1 ∷ []) (5 ∷ 6 ∷ 7 ∷ []) opened ≡ (
  some (pos 3),
  record opened { fifo = record { id = 1; bytes = 5 ∷ 6 ∷ 7 ∷ [] } ∷ []; mbo_offs = 3 },
)
unfolding aim_write unicens2_driver.Cdev.write_wait unicens2_driver.Cdev.write_mbo
first_write = refl

second_write :
    (aim_write true 0 []
      (8 ∷ 9 ∷ 10 ∷ [])
      (record opened { fifo = record { id = 1; bytes = 5 ∷ 6 ∷ 7 ∷ [] } ∷ []; mbo_offs = 3 }))
    ≡ (
      some (pos 1),
      record opened { submitted = record { id = 1; bytes = 5 ∷ 6 ∷ 7 ∷ 8 ∷ [] } ∷ [] },
    )
unfolding aim_write unicens2_driver.Cdev.write_wait unicens2_driver.Cdev.write_mbo
second_write = refl

-- Nothing is copied where nothing is to be written, which is an error.
empty_write : (aim_write true 0 (gave 1 ∷ []) [] opened).0 ≡ some efault
unfolding aim_write unicens2_driver.Cdev.write_wait unicens2_driver.Cdev.write_mbo
empty_write = refl

abbrev calls : List WriteCall
calls =
    record { nonblock = true; left = 0; rounds = gave 1 ∷ []; buf = 5 ∷ 6 ∷ 7 ∷ [] }
    ∷ record { nonblock = false; left = 1; rounds = nothing woken ∷ []; buf = 8 ∷ 9 ∷ [] }
    ∷ record { nonblock = false; left = 0; rounds = nothing interrupted ∷ []; buf = 9 ∷ [] }
    ∷ []

writes-written_example :
    (written (writes calls opened).1 ≡ [] ++ (writes calls opened).0)
    × IsWriting (writes calls opened).1
writes-written_example = writes-written calls opened (omega arith, omega arith, omega arith, refl)

abbrev source : CdevChannel
source = record opened { cfg = record config { direction = ch_rx } }

abbrev buffer : CdevMbo
buffer = record { id = 1; bytes = 5 ∷ 6 ∷ 7 ∷ [] }

events-IsReading_example :
    IsReading
      ([]
        ++ (run_events
            (completes buffer
              ∷ read true 0 [] 2
              ∷ read false 0 [] 2
              ∷ read false 0 (came buffer ∷ []) 3
              ∷ [])
            source).0)
      (run_events
        (completes buffer
          ∷ read true 0 [] 2
          ∷ read false 0 [] 2
          ∷ read false 0 (came buffer ∷ []) 3
          ∷ [])
        source).1
events-IsReading_example =
    events-IsReading
      (completes buffer
        ∷ read true 0 [] 2
        ∷ read false 0 [] 2
        ∷ read false 0 (came buffer ∷ []) 3
        ∷ [])
      source [] (omega arith, (tt, (tt, ((omega arith, tt), tt)))) (refl, refl, tt)

abbrev unopened : CdevChannel
unopened = record source { access_ref = false }

abbrev started : CdevChannel
started = (aim_open 0 (pos 0) unopened).1

abbrev filled : CdevChannel
filled = (aim_rx_completion buffer started).1

-- Two of the three bytes are read, so that the buffer is still there when the device goes.
abbrev half_read : CdevChannel
half_read = (aim_read true 0 [] 2 filled).2

calls-IsLive_example : IsLive (aim_close (aim_disconnect_channel half_read).1).1
unfolding aim_open aim_rx_completion aim_disconnect_channel aim_read read_wait read_mbo
calls-IsLive_example =
    calls-IsLive
      (then_call
        (then_call
          (then_call
            (then_call (then_call (none_made unopened) (opens 0 (pos 0) unopened refl))
              (receives buffer started refl))
            (reads true 0 [] 2 filled refl))
          (disconnects half_read refl))
        (closes (aim_disconnect_channel half_read).1 refl))
      (refl, refl)

abbrev no_links : CdevLinks
no_links = record {
  channel_list = [];
  left_open = [];
  minors_got = [];
  minors_removed = [];
  kzallocs = 0;
  kfrees = 0;
  kfifo_allocs = 0;
  kfifo_frees = 0;
}

abbrev gets : ℕ → ℤ → ProbeAnswers
gets n created = record {
  current_minor = pos n;
  has_memory = true;
  kfifo_alloc = pos 0;
  device_create = created;
}

-- A device that cannot be created, one that is opened and then disconnected and closed, and one that is
-- linked twice.
abbrev link_run : List LinkCall
link_run =
    probe_call (some 7) 1 (some config) true true (gets 0 enodev)
    ∷ probe_call (some 7) 1 (some config) true true (gets 0 (pos 0))
    ∷ probe_call (some 7) 1 (some config) true true (gets 1 (pos 0))
    ∷ probe_call (some 7) 2 (some config) true true (gets 1 (pos 0))
    ∷ open_call 0 1 (pos 0)
    ∷ disconnect_call (some 7) 1
    ∷ close_left_call 0
    ∷ []

link_calls-IsAccounted_example : IsAccounted (link_calls link_run no_links)
link_calls-IsAccounted_example =
    link_calls-IsAccounted link_run no_links (λ k. refl, refl, refl, λ i j. omega arith)

run_removed : (link_calls link_run no_links).minors_removed ≡ 0 ∷ 0 ∷ []
unfolding aim_open aim_disconnect_channel
run_removed = refl

run_left : (link_calls link_run no_links).left_open ≡ []
unfolding aim_open aim_disconnect_channel
run_left = refl
