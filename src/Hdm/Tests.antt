-- ===== src/Hdm/Tests.antt =====
-- The theorems on the driver at an isochronous channel that is given one buffer.
use unicens2_driver.Common.{◌+◌, ◌≡◌, true, false, [], ◌∷◌, refl, arith, none}
use unicens2_driver.Common.Int.{pos}
use unicens2_driver.Core.Types.{Config, success, ch_rx, ch_isoc}
use unicens2_driver.Dim.Types.{DimChannel}
use unicens2_driver.Dim.Sizes.{norm_isoc_buffer_size}
use unicens2_driver.Dim.Channel.{
  channel_start, bad_size, dim_dbr_space, channel_service, channel_service_interrupt,
  channel_detach_buffers,
}
use unicens2_driver.Dim.Memory.{zero_word}
use unicens2_driver.Dim.Init.{Lld}
use unicens2_driver.Hdm.{
  HdmMbo, HdmChannel, try_start_dim_transfer, start_first, enqueue, service_hal, service_done_flag,
  finish_loop, finish_one, poison_channel,
}
use unicens2_driver.Hdm.Configure.{configure_channel}
use unicens2_driver.Hdm.Configure.Memory.{ConfigureOutcome, poison-configure}
use unicens2_driver.Hdm.Counts.{IsDriven}
use unicens2_driver.Hdm.Steps.{
  enqueueing, interrupting, servicing, finishing, poisoning, service_interrupt, Reach, here, next,
  IsInStep-Reach,
}
use unicens2_driver.Hdm.Buffers.{spots, spots-Reach}

abbrev channel : DimChannel
channel = record {
  state = record { request_counter = 0; service_counter = 0; idx1 = 0; idx2 = 0; level = 0 };
  addr = 4;
  dbr_addr = 0;
  dbr_size = 564;
  packet_length = 188;
  bytes_per_frame = 0;
  done_sw_buffers_number = 0;
}

abbrev mbo : HdmMbo
mbo = record {
  id = 7;
  bus_address = 0x1000;
  buffer_length = 376;
  processed_length = 0;
  status = success;
  bytes = [];
}

abbrev idle : HdmChannel
idle = record {
  is_initialized = true;
  ch = channel;
  pending_list = [];
  started_list = [];
  direction = ch_rx;
  data_type = ch_isoc;
  atx_dbr = record { ch_addr = 10; rpc = 0; wpc = 0; rest_size = 0; sz_queue = [] };
  deliver_netinfo = 0;
  completed = [];
  hard_error = false;
}

abbrev busy : HdmChannel
busy = record idle {
  ch = record channel {
    state = record { request_counter = 0; service_counter = 0; idx1 = 1; idx2 = 0; level = 1 };
  };
  started_list = mbo ∷ [];
}

abbrev global : Lld
global = record {
  dim_is_initialized = true;
  atx_dbr = busy.atx_dbr;
  fcnt = 5;
  dbr_map = record { map0 = zero_word; map1 = zero_word };
  mien = 0;
}

idle-IsDriven : IsDriven idle
idle-IsDriven = record { room = omega arith; lists = refl; sound = refl }

given_one : Reach idle busy (mbo ∷ [])
unfolding enqueue try_start_dim_transfer dim_dbr_space start_first channel_start bad_size
    norm_isoc_buffer_size
given_one = next here (enqueueing 0 0 mbo (pos 0) busy refl)

-- The hardware is done with the buffer, the tasklet completes it, and the channel is poisoned.
abbrev seen : HdmChannel
seen = service_interrupt true busy

abbrev served : HdmChannel
served = service_hal seen

abbrev finished_one : HdmChannel
finished_one = service_done_flag served

used : (g : Lld) → Reach idle (poison_channel g finished_one).2 (mbo ∷ [])
unfolding service_hal channel_service channel_service_interrupt service_done_flag finish_loop
    finish_one channel_detach_buffers
used g =
    next
      (next (next (next given_one (interrupting true)) (servicing refl (omega arith)))
        (finishing refl))
      (poisoning g)

-- Before the poison the buffer is completed, and not again by it.
completed_once : spots 7 finished_one ≡ 1
unfolding service_hal channel_service channel_service_interrupt service_done_flag finish_loop
    finish_one channel_detach_buffers
completed_once = refl

IsInStep-Reach_example :
    IsDriven (poison_channel global finished_one).2
    × ((poison_channel global finished_one).2.hard_error ≡ false)
IsInStep-Reach_example = IsInStep-Reach idle-IsDriven (used global)

spots-Reach_example : spots 7 (poison_channel global finished_one).2 ≡ 0 + 1
spots-Reach_example = spots-Reach 7 (used global)

abbrev config : Config
config = record {
  direction = ch_rx;
  data_type = ch_isoc;
  num_buffers = 8;
  buffer_size = 1000;
  extra_len = 0;
  subbuffer_size = 188;
  packets_per_xact = 0;
}

poison-configure_example :
    ConfigureOutcome 2 global
      (configure_channel 0 global (record idle { is_initialized = false }) 1 config none)
poison-configure_example =
    poison-configure 0 2 global (record idle { is_initialized = false }) 1 config none refl
