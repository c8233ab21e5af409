-- ===== src/Usb/Configure.antt =====
-- hdm-usb/hdm_usb.c, `hdm_configure_channel`. The driver gets the interface and the configuration as
-- references, so its test for null pointers has no counterpart.
pub mod Sizes
use unicens2_driver.Common.{
  ℕ, ◌+◌, ◌-◌, ◌*◌, ◌/◌, ◌%◌, ◌^◌, Bool, true, false, not, ◌&&◌, ◌||◌, Option, none, some, List, [],
  ◌∷◌, ◌++◌, ◌==◌, ltb, leb, if◌then◌else◌,
}
use unicens2_driver.Common.Int.{ℤ, pos, negsuc}
use unicens2_driver.Core.Types.{Config, ch_async, ch_isoc, ch_sync, einval}
use unicens2_driver.Usb.{Urb, UsbMbo, UsbChannel, usb_mtu, get_stream_frame_size}

-- `struct most_dev`: its tables as a function of the channel, whether `usb_device` is set, whether the
-- timer and the work that poll the link run, and the calls of `drci_wr_reg` (register and value).
pub record MostDev : Type 0 where
  pub num_channels : ℕ
  pub has_usb_device : Bool
  pub has_link_stat_timer : Bool
  pub has_poll_work : Bool
  pub channels : ℕ → UsbChannel
  pub reg_writes : List (ℕ × ℕ)

abbrev pub put : ℕ → UsbChannel → MostDev → MostDev
put c h d = record d { channels = λ i. if i == c then h else d.channels i }

-- `DRCI_REG_BASE + DRCI_COMMAND + ep * 16` as an argument of 16 bits.
abbrev pub sync_register : ℕ → ℕ
sync_register ep = (4352 + 2 + ep * 16) % 2 ^ 16

unfoldable pub start_sync_ep : ℕ → MostDev → MostDev
start_sync_ep ep d = record d { reg_writes = d.reg_writes ++ (sync_register ep, 1) ∷ [] }

unfoldable pub has_padding : Config → Bool
has_padding conf =
    (conf.data_type == ch_sync) || (conf.data_type == ch_isoc) && not (conf.packets_per_xact == 255)

-- The sizes for the padding mode; `none` is "frame size wrong".
unfoldable pub padded_sizes : Config → Option Config
padded_sizes conf =
    let frame_size = get_stream_frame_size conf in
    let num_frames = conf.buffer_size / frame_size in
    if (frame_size == 0) || ltb usb_mtu frame_size
    then none
    else some (record conf {
      buffer_size =
          if conf.buffer_size % frame_size == 0
          then conf.buffer_size
          else num_frames * frame_size % 2 ^ 16;
      extra_len = num_frames * (usb_mtu - frame_size) % 2 ^ 16;
    })

-- From the label `exit` on.
unfoldable pub store_config : ℕ → Config → MostDev → MostDev
store_config c conf d =
    let h = d.channels c in
    let e = put c (record h { conf = conf }) d in
    if conf.data_type == ch_async then start_sync_ep h.ep_address e else e

-- The result, the configuration that the core gets back, and the device.
unfoldable pub hdm_configure_channel : ℤ → Config → MostDev → ℤ × Config × MostDev
hdm_configure_channel (negsuc n) conf d = (einval, conf, d)
hdm_configure_channel (pos c) conf d =
    let h = record (d.channels c) { is_channel_healthy = true; has_clear_work = false } in
    let e = put c h d in
    if leb d.num_channels c
    then (einval, conf, e)
    else if (conf.num_buffers == 0) || (conf.buffer_size == 0)
    then (einval, conf, e)
    else if not (has_padding conf)
    then (pos 0, conf, store_config c conf (put c (record h { is_padding_active = false }) e))
    else let k = put c (record h { is_padding_active = true }) e in
      elim (padded_sizes conf) [
        | none ↦ (einval, conf, k)
        | some new ↦ (pos 0, new, store_config c new k)
      ]
