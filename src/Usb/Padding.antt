-- ===== src/Usb/Padding.antt =====
-- hdm-usb/hdm_usb.c, `hdm_add_padding` and `hdm_remove_padding`: a buffer of frames one after the other,
-- and the same frames at multiples of the USB packet size. The two lengths of a buffer are u16.
pub mod Frames
pub mod Trip
use unicens2_driver.Common.{ℕ, zero, suc, ◌+◌, ◌-◌, ◌*◌, ◌/◌, ◌%◌, ◌^◌, ◌==◌, ltb, if◌then◌else◌}
use unicens2_driver.Common.Int.{ℤ, pos}
use unicens2_driver.Common.Memory.{ByteMemory, memmove}
use unicens2_driver.Core.Types.{Config, eio}
use unicens2_driver.Usb.{UsbMbo, usb_mtu, get_stream_frame_size}

-- `for (j = num_frames - 1; j > 0; j--)`.
unfoldable pub add_loop : ℕ → ℕ → ByteMemory → ByteMemory
add_loop frame_size zero m = m
add_loop frame_size (suc j) m =
    add_loop frame_size j (memmove (suc j * usb_mtu) (suc j * frame_size) frame_size m)

unfoldable pub hdm_add_padding : Config → UsbMbo → ℤ × UsbMbo
hdm_add_padding conf mbo =
    let frame_size = get_stream_frame_size conf in
    let num_frames = mbo.buffer_length / frame_size in
    if frame_size == 0 then (eio, mbo) else if ltb num_frames 1 then (eio, mbo) else (
      pos 0,
      record mbo {
        memory = add_loop frame_size (num_frames - 1) mbo.memory;
        buffer_length = num_frames * usb_mtu % 2 ^ 16;
      },
    )

-- `for (j = 1; j < num_frames; j++)`, with the number of rounds that are left.
unfoldable pub remove_loop : ℕ → ℕ → ℕ → ByteMemory → ByteMemory
remove_loop frame_size zero j m = m
remove_loop frame_size (suc n) j m =
    remove_loop frame_size n (suc j) (memmove (frame_size * j) (usb_mtu * j) frame_size m)

unfoldable pub hdm_remove_padding : Config → UsbMbo → ℤ × UsbMbo
hdm_remove_padding conf mbo =
    let frame_size = get_stream_frame_size conf in
    let num_frames = mbo.processed_length / usb_mtu in
    if frame_size == 0 then (eio, mbo) else (
      pos 0,
      record mbo {
        memory = remove_loop frame_size (num_frames - 1) 1 mbo.memory;
        processed_length = frame_size * num_frames % 2 ^ 16;
      },
    )
