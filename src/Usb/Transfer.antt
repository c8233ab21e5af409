-- ===== src/Usb/Transfer.antt =====
-- hdm-usb/hdm_usb.c, the way of a buffer: `hdm_enqueue`, the two completions of an URB,
-- `hdm_poison_channel` and `wq_clear_halt`. What the USB core decides is an argument: whether an URB
-- can be allocated, what `usb_submit_urb` returns, and with which status and length an URB completes.
pub mod Outcome
use unicens2_driver.Common.{
  ℕ, ◌+◌, ◌%◌, ◌^◌, ◌/◌, Bool, true, false, not, ◌&&◌, ◌||◌, Option, none, some, List, [], ◌∷◌,
  ◌++◌, ◌==◌, leb, if◌then◌else◌,
}
use unicens2_driver.Common.Int.{ℤ, pos, negsuc, ◌==ℤ◌}
use unicens2_driver.Core.Types.{
  Config, Status, success, inval, close, ch_async, ch_isoc, ch_tx, eio, enodev, enomem,
}
use unicens2_driver.Usb.{Urb, UsbMbo, UsbChannel, epipe, echrng, eproto, eshutdown}
use unicens2_driver.Usb.Configure.{MostDev, put}
use unicens2_driver.Usb.Padding.{hdm_add_padding, hdm_remove_padding}

-- How the USB core reports an URB.
pub record Report : Type 0 where
  pub urb : Urb
  pub status : ℤ
  pub actual_length : ℕ

-- `mbo->complete(mbo)`.
abbrev pub hand_over : UsbMbo → UsbChannel → UsbChannel
hand_over m h = record h { completed = h.completed ++ m ∷ [] }

-- The switch over `urb->status`, with what a transfer that arrived becomes.
unfoldable pub settle : UsbMbo → Report → UsbMbo → UsbChannel → UsbChannel
settle arrived r m h =
    if (r.status ==ℤ pos 0) || (r.status ==ℤ eshutdown)
    then hand_over arrived h
    else if r.status ==ℤ epipe
    then hand_over m (record h { is_channel_healthy = false; has_clear_work = true })
    else if (r.status ==ℤ enodev) || (r.status ==ℤ eproto)
    then hand_over (record m { status = close }) h
    else hand_over m h

unfoldable pub hdm_write_completion : Report → UsbChannel → UsbChannel
hdm_write_completion r h =
    let m = record r.urb.mbo { processed_length = 0; status = inval } in
    if h.is_channel_healthy
    then settle (record m { processed_length = r.actual_length % 2 ^ 16; status = success }) r m h
    else hand_over m h

-- A received buffer without its padding.
unfoldable pub received : Report → UsbMbo → UsbChannel → UsbMbo
received r m h =
    let n = record m { processed_length = r.actual_length % 2 ^ 16; status = success } in
    let (ret, k) = hdm_remove_padding h.conf n in
    if h.is_padding_active
    then if not (ret ==ℤ pos 0) then record k { processed_length = 0; status = inval } else k
    else n

unfoldable pub hdm_read_completion : Report → UsbChannel → UsbChannel
hdm_read_completion r h =
    let m = record r.urb.mbo { processed_length = 0; status = inval } in
    if h.is_channel_healthy then settle (received r m h) r m h else hand_over m h

-- The completion function that `hdm_enqueue` put into the URB.
abbrev pub urb_completion : Report → UsbChannel → UsbChannel
urb_completion r h = if r.urb.is_out then hdm_write_completion r h else hdm_read_completion r h

-- `usb_kill_anchored_urbs`, with the reports that the USB core makes of the URBs while it unlinks them.
unfoldable pub kill_urbs : List Report → UsbChannel → UsbChannel
kill_urbs [] h = record h { busy_urbs = [] }
kill_urbs (r ∷ rs) h = kill_urbs rs (urb_completion r h)

abbrev pub is_tx : Config → Bool
is_tx conf = conf.direction / ch_tx % 2 == 1

abbrev pub fill_urb : UsbMbo → UsbChannel → Urb
fill_urb m h =
    if is_tx h.conf
    then record {
      is_out = true;
      endpoint = h.ep_address;
      transfer_length = m.buffer_length;
      has_zero_packet = not (h.conf.data_type == ch_isoc);
      mbo = m;
    }
    else record {
      is_out = false;
      endpoint = h.ep_address;
      transfer_length = m.buffer_length + h.conf.extra_len;
      has_zero_packet = false;
      mbo = m;
    }

-- From `usb_fill_bulk_urb` on.
unfoldable pub submit_urb : ℤ → UsbMbo → UsbChannel → ℤ × UsbMbo × UsbChannel
submit_urb submitted m h =
    if submitted ==ℤ pos 0
    then (pos 0, m, record h { busy_urbs = h.busy_urbs ++ fill_urb m h ∷ [] })
    else (submitted, m, h)

-- With the URB allocated: the padding, and the rest.
unfoldable pub enqueue_urb : ℤ → UsbMbo → UsbChannel → ℤ × UsbMbo × UsbChannel
enqueue_urb submitted m h =
    let (ret, k) = hdm_add_padding h.conf m in
    if is_tx h.conf && h.is_padding_active
    then if not (ret ==ℤ pos 0) then (eio, k, h) else submit_urb submitted k h
    else submit_urb submitted m h

-- The result, the buffer as the core has it then, and the device.
unfoldable pub hdm_enqueue : Bool → ℤ → ℤ → UsbMbo → MostDev → ℤ × UsbMbo × MostDev
hdm_enqueue allocated submitted (negsuc n) m d = (echrng, m, d)
hdm_enqueue allocated submitted (pos c) m d =
    let (ret, k, h) = enqueue_urb submitted m (d.channels c) in
    if leb d.num_channels c
    then (echrng, m, d)
    else if not d.has_usb_device
    then (enodev, m, d)
    else if not allocated
    then (enomem, m, d)
    else (ret, k, put c h d)

unfoldable pub hdm_poison_channel : List Report → ℤ → MostDev → ℤ × MostDev
hdm_poison_channel reports (negsuc n) d = (echrng, d)
hdm_poison_channel reports (pos c) d =
    let h = record (d.channels c) { is_channel_healthy = false; has_clear_work = false } in
    let k = record (kill_urbs reports h) { is_padding_active = false } in
    let e = put c k d in
    if leb d.num_channels c
    then (echrng, d)
    else if k.conf.data_type == ch_async
    then (pos 0, record e { has_link_stat_timer = false; has_poll_work = false })
    else (pos 0, e)

-- The work of channel `c`, without what `most_stop_enqueue` and `most_resume_enqueue` do in the core.
unfoldable pub wq_clear_halt : List Report → ℕ → MostDev → MostDev
wq_clear_halt reports c d =
    let h = kill_urbs reports (record (d.channels c) { has_clear_work = false }) in
    put c (record h { is_channel_healthy = true }) d
