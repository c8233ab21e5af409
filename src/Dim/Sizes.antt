-- ===== src/Dim/Sizes.antt =====
-- The checks of addresses and sizes of hdm-dim2/dim2_hal.c, and the buffer sizes that it makes of a
-- wish. `fcnt` is the field of the global state: 2 ^ fcnt frames make a sub-buffer.
pub mod Normal
use unicens2_driver.Common.{
  ℕ, ◌+◌, ◌-◌, ◌*◌, ◌/◌, ◌%◌, ◌^◌, Bool, true, false, ◌&&◌, ltb, leb, ◌==◌, if◌then◌else◌,
}
use unicens2_driver.Dim.Types.{
  u16, u32, cdt1_bs_isoc_mask, cdt3_bd_mask, cdt3_bd_isoc_mask, adt1_ctrl_async_bd_mask,
  adt1_isoc_sync_bd_mask, cat_cl_mask, isoc_dbr_factor,
}

unfoldable pub check_channel_address : ℕ → Bool
check_channel_address a = ltb 0 a && (a % 2 == 0) && leb (a / 2) cat_cl_mask

unfoldable pub check_packet_length : ℕ → Bool
check_packet_length packet_length =
    let max_size = u16 ((cdt3_bd_isoc_mask + 1) / isoc_dbr_factor) in
    if leb packet_length 0
    then false
    else if ltb max_size packet_length
    then false
    else if ltb cdt1_bs_isoc_mask (packet_length - 1)
    then false
    else true

unfoldable pub check_bytes_per_frame : ℕ → ℕ → Bool
check_bytes_per_frame fcnt bytes_per_frame =
    let max_size = u16 ((cdt3_bd_mask + 1) / 2 ^ u16 (fcnt + 2)) in
    if leb bytes_per_frame 0 then false else if ltb max_size bytes_per_frame then false else true

pub norm_ctrl_async_buffer_size : ℕ → ℕ
norm_ctrl_async_buffer_size buf_size =
    let max_size = adt1_ctrl_async_bd_mask + 1 in
    if ltb max_size buf_size then max_size else buf_size

-- `if (buf_size > max_size) buf_size = max_size` of the next two.
abbrev pub limit_size : ℕ → ℕ
limit_size buf_size =
    if ltb (adt1_isoc_sync_bd_mask + 1) buf_size then adt1_isoc_sync_bd_mask + 1 else buf_size

unfoldable pub norm_isoc_buffer_size : ℕ → ℕ → ℕ
norm_isoc_buffer_size buf_size packet_length =
    let n = u16 (limit_size buf_size / packet_length) in
    if ltb n 2 then 0 else u16 (packet_length * n)

unfoldable pub norm_sync_buffer_size : ℕ → ℕ → ℕ → ℕ
norm_sync_buffer_size fcnt buf_size bytes_per_frame =
    let unit = u32 (bytes_per_frame * 2 ^ fcnt) in
    let n = u16 (limit_size buf_size / unit) in if ltb n 1 then 0 else u16 (unit * n)

pub dim_norm_ctrl_async_buffer_size : ℕ → ℕ
unfolding norm_ctrl_async_buffer_size
dim_norm_ctrl_async_buffer_size buf_size = norm_ctrl_async_buffer_size buf_size

unfoldable pub dim_norm_isoc_buffer_size : ℕ → ℕ → ℕ
dim_norm_isoc_buffer_size buf_size packet_length =
    if check_packet_length packet_length then norm_isoc_buffer_size buf_size packet_length else 0

unfoldable pub dim_norm_sync_buffer_size : ℕ → ℕ → ℕ → ℕ
dim_norm_sync_buffer_size fcnt buf_size bytes_per_frame =
    if check_bytes_per_frame fcnt bytes_per_frame
    then norm_sync_buffer_size fcnt buf_size bytes_per_frame
    else 0
