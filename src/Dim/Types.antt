-- ===== src/Dim/Types.antt =====
-- The constants of hdm-dim2/dim2_reg.h and hdm-dim2/dim2_errors.h, and the structures of
-- hdm-dim2/dim2_hal.h. A field of `w` bits is kept below 2 ^ w by a remainder at each write.
use unicens2_driver.Common.{ℕ, ◌%◌, ◌^◌}

abbrev pub u8 : ℕ → ℕ
u8 x = x % 2 ^ 8

abbrev pub u16 : ℕ → ℕ
u16 x = x % 2 ^ 16

abbrev pub u32 : ℕ → ℕ
u32 x = x % 2 ^ 32

abbrev pub cdt0_rpc_mask : ℕ
cdt0_rpc_mask = 31

abbrev pub cdt1_bs_isoc_mask : ℕ
cdt1_bs_isoc_mask = 511

abbrev pub cdt3_bd_mask : ℕ
cdt3_bd_mask = 4095

abbrev pub cdt3_bd_isoc_mask : ℕ
cdt3_bd_isoc_mask = 8191

abbrev pub adt1_ctrl_async_bd_mask : ℕ
adt1_ctrl_async_bd_mask = 2047

abbrev pub adt1_isoc_sync_bd_mask : ℕ
adt1_isoc_sync_bd_mask = 8191

abbrev pub cat_cl_mask : ℕ
cat_cl_mask = 63

-- ISOC_DBR_FACTOR
abbrev pub isoc_dbr_factor : ℕ
isoc_dbr_factor = 3

-- `enum dim_errors_t`.
pub data DimError : Type 0 where
  no_error dim_addr mlb_clock channel_address out_of_memory not_initialized bad_config : DimError
  bad_buffer_size underflow overflow : DimError

-- `struct int_ch_state`. The two counters are only compared with each other; `++` on an `int` wraps.
pub record IntChState : Type 0 where
  pub request_counter : ℕ
  pub service_counter : ℕ
  pub idx1 : ℕ
  pub idx2 : ℕ
  pub level : ℕ

-- `struct dim_channel`.
pub record DimChannel : Type 0 where
  pub state : IntChState
  pub addr : ℕ
  pub dbr_addr : ℕ
  pub dbr_size : ℕ
  pub packet_length : ℕ
  pub bytes_per_frame : ℕ
  pub done_sw_buffers_number : ℕ
