-- ===== src/Usb/Tests.antt =====
-- The theorems on hdm-usb/hdm_usb.c at a synchronous channel with frames of 8 bytes.
use unicens2_driver.Common.{
  ◌+◌, ◌-◌, ◌*◌, ◌/◌, ◌%◌, ◌^◌, ◌≤◌, ◌<◌, ◌≡◌, ◌≢◌, refl, arith, true, false, ◌||◌, [], ◌∷◌, ltb,
  leb, some,
}
use unicens2_driver.Common.Int.{pos}
use unicens2_driver.Core.Types.{Config, ch_sync, ch_tx, success}
use unicens2_driver.Usb.{Urb, UsbMbo, UsbChannel, epipe, get_stream_frame_size}
use unicens2_driver.Usb.Padding.{hdm_add_padding, hdm_remove_padding}
use unicens2_driver.Usb.Padding.Trip.{add-packets, remove-add_padding}
use unicens2_driver.Usb.Configure.{MostDev, padded_sizes}
use unicens2_driver.Usb.Configure.Sizes.{padded_sizes_fit}
use unicens2_driver.Usb.Transfer.{Report, urb_completion, hdm_enqueue, enqueue_urb, submit_urb}
use unicens2_driver.Usb.Transfer.Outcome.{Completes, can_unpad, completion_outcome}
use unicens2_driver.Usb.Steps.{copies, spots, here, next, enqueued}
use unicens2_driver.Usb.Steps.Held.{held-Reach}

abbrev sync8 : Config
sync8 = record {
  direction = ch_tx;
  data_type = ch_sync;
  num_buffers = 4;
  buffer_size = 28;
  extra_len = 0;
  subbuffer_size = 4;
  packets_per_xact = 2;
}

abbrev fixed8 : Config
fixed8 = record sync8 { buffer_size = 24; extra_len = 1512 }

abbrev mbo : UsbMbo
mbo = record { id = 3; buffer_length = 24; processed_length = 0; status = success; memory = λ a. a }

sync8_size : get_stream_frame_size sync8 ≡ 8
unfolding get_stream_frame_size
sync8_size = refl

sync8_fixed : padded_sizes sync8 ≡ some fixed8
unfolding padded_sizes get_stream_frame_size
sync8_fixed = refl

sync8_frames : mbo.buffer_length / get_stream_frame_size sync8 ≡ 3
unfolding get_stream_frame_size
sync8_frames = refl

add-packets_example :
    let (ret, out) = hdm_add_padding sync8 mbo in
    (ret ≡ pos 0)
    × (out.buffer_length ≡ mbo.buffer_length / get_stream_frame_size sync8 * 512 % 2 ^ 16)
    × (out.memory (2 * 512 + 5) ≡ mbo.memory (2 * get_stream_frame_size sync8 + 5))
add-packets_example =
    add-packets sync8 mbo 2 5 (λ e. absurd (omega (arith, e, sync8_size)))
      (omega (arith, sync8_size)) (omega (arith, sync8_frames)) (omega (arith, sync8_frames))
      (omega (arith, sync8_size))

remove-add_padding_example :
    let (ret, out) = hdm_add_padding sync8 mbo in
    let (res, back) =
      hdm_remove_padding sync8 (record out { processed_length = out.buffer_length }) in
    (res ≡ pos 0)
    × (back.processed_length
        ≡ mbo.buffer_length / get_stream_frame_size sync8 * get_stream_frame_size sync8)
    × (back.memory 21 ≡ mbo.memory 21)
remove-add_padding_example =
    remove-add_padding sync8 mbo 21 (λ e. absurd (omega (arith, e, sync8_size)))
      (omega (arith, sync8_size)) (omega (arith, sync8_frames)) (omega (arith, sync8_frames))
      (rw (sync8_frames, sync8_size) (omega arith))

padded_sizes_fit_example :
    let s = get_stream_frame_size fixed8 in
    let n = sync8.buffer_size / s in
    (s ≢ 0)
    × (s ≤ 512)
    × (fixed8.buffer_size ≡ n * s)
    × (leb (n * 512) (fixed8.buffer_size + fixed8.extra_len) ≡ ltb (n * (512 - s)) (2 ^ 16))
padded_sizes_fit_example = padded_sizes_fit sync8 fixed8 (omega arith) sync8_fixed

fixed8_room :
    sync8.buffer_size / get_stream_frame_size fixed8 * (512 - get_stream_frame_size fixed8) < 2 ^ 16
unfolding get_stream_frame_size
fixed8_room = omega arith

abbrev idle : UsbChannel
idle = record {
  conf = fixed8;
  ep_address = 1;
  is_padding_active = true;
  is_channel_healthy = true;
  has_clear_work = false;
  busy_urbs = [];
  completed = [];
}

abbrev urb : Urb
urb = record {
  is_out = true;
  endpoint = 1;
  transfer_length = 1536;
  has_zero_packet = true;
  mbo = mbo;
}

abbrev stalled : Report
stalled = record { urb = urb; status = epipe; actual_length = 0 }

completion_outcome_example :
    Completes (stalled.urb.is_out || can_unpad idle) stalled idle (urb_completion stalled idle)
completion_outcome_example = completion_outcome stalled idle

abbrev device : MostDev
device = record {
  num_channels = 4;
  has_usb_device = true;
  has_link_stat_timer = false;
  has_poll_work = false;
  channels = λ c. idle;
  reg_writes = [];
}

abbrev sent : MostDev
sent = (hdm_enqueue true (pos 0) (pos 2) mbo device).2

abbrev padded : UsbMbo
padded = (hdm_enqueue true (pos 0) (pos 2) mbo device).1

enqueue_mbo : hdm_enqueue true (pos 0) (pos 2) mbo device ≡ (pos 0, padded, sent)
unfolding hdm_enqueue enqueue_urb submit_urb hdm_add_padding get_stream_frame_size
enqueue_mbo = refl

held-Reach_example :
    spots 3 (sent.channels 2) ≡ spots 3 (device.channels 2) + copies 3 (padded ∷ [])
held-Reach_example = held-Reach 3 (next here (enqueued true (pos 0) mbo padded enqueue_mbo))
