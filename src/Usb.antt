-- ===== src/Usb.antt =====
-- hdm-usb/hdm_usb.c, the driver of the USB device: the padding of streaming channels, and the way of a
-- buffer through the USB core (`usb_*` calls, which are parameters).
pub mod Padding
pub mod Configure
pub mod Transfer
pub mod Steps
mod Tests
use unicens2_driver.Common.{ℕ, ◌+◌, ◌*◌, ◌/◌, Bool, List, ◌==◌, if◌then◌else◌}
use unicens2_driver.Common.Int.{ℤ, negsuc}
use unicens2_driver.Common.Memory.{ByteMemory}
use unicens2_driver.Core.Types.{Config, Status, ch_isoc, ch_sync}

abbrev pub usb_mtu : ℕ
usb_mtu = 512

abbrev pub av_packets_per_xact : ℕ
av_packets_per_xact = 2

-- The Linux error numbers that the driver tells apart.
abbrev pub epipe : ℤ
epipe = negsuc 31

abbrev pub echrng : ℤ
echrng = negsuc 43

abbrev pub eproto : ℤ
eproto = negsuc 70

abbrev pub eshutdown : ℤ
eshutdown = negsuc 107

-- The fields of `struct mbo` that the driver uses; `memory` is what stands from `virt_address` on.
pub record UsbMbo : Type 0 where
  pub id : ℕ
  pub buffer_length : ℕ
  pub processed_length : ℕ
  pub status : Status
  pub memory : ByteMemory

-- What `hdm_enqueue` fills into a `struct urb`.
pub record Urb : Type 0 where
  pub is_out : Bool
  pub endpoint : ℕ
  pub transfer_length : ℕ
  pub has_zero_packet : Bool
  pub mbo : UsbMbo

-- The entries of the tables of `struct most_dev` for one channel. `has_clear_work` is whether
-- its work is scheduled, `busy_urbs` what the USB core has, `completed` the buffers handed to `complete`.
pub record UsbChannel : Type 0 where
  pub conf : Config
  pub ep_address : ℕ
  pub is_padding_active : Bool
  pub is_channel_healthy : Bool
  pub has_clear_work : Bool
  pub busy_urbs : List Urb
  pub completed : List UsbMbo

unfoldable pub get_stream_frame_size : Config → ℕ
get_stream_frame_size cfg =
    let sub_size = cfg.subbuffer_size in
    if sub_size == 0
    then 0
    else if cfg.data_type == ch_isoc
    then av_packets_per_xact * sub_size
    else if cfg.data_type == ch_sync
    then if cfg.packets_per_xact == 0
      then 0
      else if cfg.packets_per_xact == 255
      then usb_mtu / sub_size * sub_size
      else cfg.packets_per_xact * sub_size
    else 0
