-- ===== src/Dim/Channel/Tests.antt =====
-- The theorems on sizes, slots and the fill state at small channels.
use unicens2_driver.Common.{ℕ, refl, List, [], ◌∷◌, arith}
use unicens2_driver.Dim.Types.{DimChannel}
use unicens2_driver.Dim.Sizes.{norm_isoc_buffer_size}
use unicens2_driver.Dim.Channel.{
  AsyncTxDbr, bad_size, channel_start, dbrcnt_enq, dim_dbr_space, dbr_catch_up, dbr_retire,
  dbr_result,
}
use unicens2_driver.Dim.Channel.Slots.{
  Slots, starting, Reach, here, next, IsSlotted, IsSlotted-Reach,
}
use unicens2_driver.Dim.Channel.Fill.{IsFilled, space-enq}

abbrev blank : DimChannel
blank = record {
  state = record { request_counter = 0; service_counter = 0; idx1 = 0; idx2 = 0; level = 0 };
  addr = 4;
  dbr_addr = 0;
  dbr_size = 0;
  packet_length = 188;
  bytes_per_frame = 0;
  done_sw_buffers_number = 0;
}

abbrev idle : Slots
idle = record { ch = blank; starts = 0; completed = 0; serviced = 0 }

abbrev counts : AsyncTxDbr
counts = record { ch_addr = 10; rpc = 0; wpc = 0; rest_size = 0; sz_queue = [] }

idle-IsSlotted : IsSlotted idle
idle-IsSlotted = ground arith

abbrev started_one : Slots
started_one = record {
  ch = record blank {
    state = record { request_counter = 0; service_counter = 0; idx1 = 1; idx2 = 0; level = 1 };
  };
  starts = 1;
  completed = 0;
  serviced = 0;
}

one_started : Reach idle started_one
unfolding channel_start bad_size norm_isoc_buffer_size
one_started = next here (starting idle 0 0x1000 376 counts)

IsSlotted-Reach_example : IsSlotted started_one
IsSlotted-Reach_example = IsSlotted-Reach idle-IsSlotted one_started

abbrev ring : List ℕ
ring =
    10 ∷ 20 ∷ 30 ∷ 0 ∷ 0 ∷ 0 ∷ 0 ∷ 0 ∷ 0 ∷ 0 ∷ 0 ∷ 0 ∷ 0 ∷ 0 ∷ 0 ∷ 0 ∷ 0 ∷ 0 ∷ 0 ∷ 0 ∷ 0 ∷ 0 ∷ 0 ∷ 0
    ∷ 0 ∷ 0 ∷ 0 ∷ 0 ∷ 0 ∷ 0 ∷ 0 ∷ 0 ∷ []

abbrev three : AsyncTxDbr
three = record { ch_addr = 10; rpc = 0; wpc = 3; rest_size = 40; sz_queue = ring }

three-IsFilled : IsFilled 100 0 (10 ∷ 20 ∷ 30 ∷ []) three
three-IsFilled = record {
  ring = refl;
  read = refl;
  written = refl;
  room = omega arith;
  rest = refl;
  small = omega arith;
  window = (refl, (refl, (refl, tt)));
}

abbrev async_channel : DimChannel
async_channel = record blank { addr = 10; packet_length = 0 }

abbrev one_left : AsyncTxDbr
one_left = record three { rpc = 2; rest_size = 70 }

space-enq_example : IsFilled 100 2 (30 ∷ 70 ∷ []) (dbrcnt_enq 70 one_left)
unfolding dim_dbr_space dbr_catch_up dbr_retire dbr_result
space-enq_example =
    space-enq 2 100 0 2 (10 ∷ 20 ∷ 30 ∷ []) async_channel three three-IsFilled refl refl
      (omega arith) 70 70 one_left refl (omega arith) (omega arith)
