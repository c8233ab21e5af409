-- ===== src/Dim/Channel/Accept.antt =====
-- `channel_start` accepts the sizes that the functions of `Dim.Sizes` make, while a slot is free.
use unicens2_driver.Common.{ℕ, ◌≡◌, ◌≢◌, ◌<◌, true, false, arith}
use unicens2_driver.Dim.Types.{DimChannel}
use unicens2_driver.Dim.Sizes.{check_packet_length, dim_norm_isoc_buffer_size}
use unicens2_driver.Dim.Sizes.Normal.{isoc_fixed, check_packet_length-pos}
use unicens2_driver.Dim.Channel.{AsyncTxDbr, started, start_command, bad_size, channel_start}

isoc_size_ok :
    (fcnt : ℕ) (ch : DimChannel) (wish : ℕ)
    → check_packet_length ch.packet_length ≡ true
    → ch.bytes_per_frame ≡ 0
    → dim_norm_isoc_buffer_size wish ch.packet_length ≢ 0
    → bad_size fcnt ch (dim_norm_isoc_buffer_size wish ch.packet_length) ≡ false
unfolding bad_size
isoc_size_ok fcnt ch wish h b z =
    ground (arith, check_packet_length-pos ch.packet_length h, isoc_fixed wish ch.packet_length h)

-- On an isochronous channel with a free slot, a size that `dim_norm_isoc_buffer_size` has made is
-- started, whatever the wish was.
pub isoc_start :
    (fcnt buf_addr wish : ℕ) (ch : DimChannel) (d : AsyncTxDbr)
    → check_packet_length ch.packet_length ≡ true
    → ch.bytes_per_frame ≡ 0
    → dim_norm_isoc_buffer_size wish ch.packet_length ≢ 0
    → ch.state.level < 2
    → let size = dim_norm_isoc_buffer_size wish ch.packet_length in
      (channel_start fcnt buf_addr size ch d).0 ≡ started (start_command ch buf_addr size)
unfolding channel_start
isoc_start fcnt buf_addr wish ch d h b z l = ground (arith, isoc_size_ok fcnt ch wish h b z)
