-- ===== src/Dim/Init.antt =====
-- Channels are initialised and destroyed: `dim_startup`, `dim_shutdown`, the four `dim_init_*` and
-- `dim_destroy_channel` of hdm-dim2/dim2_hal.c. What they do to the hardware, other than the interrupt
-- enable register, is returned as a list of calls.
pub mod Owner
pub mod Destroy
mod Tests
use unicens2_driver.Common.{
  ℕ, ◌+◌, ◌*◌, ◌/◌, ◌%◌, ◌^◌, Bool, true, false, not, ◌&&◌, ◌||◌, Option, none, some, List, [], ◌∷◌,
  ◌++◌, ◌==◌, ltb, leb, if◌then◌else◌,
}
use unicens2_driver.Dim.Types.{
  u16, DimError, no_error, dim_addr, mlb_clock, channel_address, out_of_memory, not_initialized,
  bad_config, DimChannel, isoc_dbr_factor,
}
use unicens2_driver.Dim.Sizes.{check_channel_address, check_packet_length, check_bytes_per_frame}
use unicens2_driver.Dim.Channel.{AsyncTxDbr, dbrcnt_init, channel_init, isoc_init, sync_init}
use unicens2_driver.Dim.Memory.{
  DbrMap, zero_word, dbr_size, dbr_block_size, blocks_of, alloc_dbr, free_dbr,
}

-- MLBC0_FCNT_MAX_VAL, and the channel types.
abbrev pub fcnt_max_val : ℕ
fcnt_max_val = 6

abbrev pub cat_ct_val_sync : ℕ
cat_ct_val_sync = 0

abbrev pub cat_ct_val_control : ℕ
cat_ct_val_control = 1

abbrev pub cat_ct_val_async : ℕ
cat_ct_val_async = 2

abbrev pub cat_ct_val_isoc : ℕ
cat_ct_val_isoc = 3

-- `struct lld_global_vars_t`, with `mien`, the interrupt enable register.
pub record Lld : Type 0 where
  pub dim_is_initialized : Bool
  pub atx_dbr : AsyncTxDbr
  pub fcnt : ℕ
  pub dbr_map : DbrMap
  pub mien : ℕ

-- The calls of `dim2_configure_channel`, `dim2_clear_dbr`, `dim2_clear_channel`, `dim2_initialize` and
-- `dim2_cleanup`.
pub data HwCall : Type 0 where
  configure_channel : ℕ → ℕ → Bool → ℕ → ℕ → ℕ → HwCall
  clear_dbr : ℕ → ℕ → HwCall
  clear_channel : ℕ → HwCall
  initialize : Bool → ℕ → HwCall
  cleanup : HwCall

pub record Result : Type 0 where
  pub ret : DimError
  pub ch : DimChannel
  pub g : Lld
  pub calls : List HwCall

-- `base` says that the base address is not null. `dim2_initialize` begins with `dim2_cleanup`, which
-- disables the interrupts.
pub dim_startup : Bool → ℕ → ℕ → Lld → DimError × Lld × List HwCall
dim_startup base clock fcnt g =
    let h = record g { dim_is_initialized = false } in
    if not base
    then (dim_addr, h, [])
    else if leb 8 clock
    then (mlb_clock, h, [])
    else if ltb fcnt_max_val fcnt
    then (mlb_clock, h, [])
    else (
      no_error,
      record g {
        dim_is_initialized = true;
        fcnt = fcnt;
        dbr_map = record { map0 = zero_word; map1 = zero_word };
        mien = 0;
      },
      initialize (leb 3 clock) clock ∷ [],
    )

pub dim_shutdown : Lld → Lld × List HwCall
dim_shutdown g = (record g { dim_is_initialized = false; mien = 0 }, cleanup ∷ [])

abbrev pub failed : DimError → DimChannel → Lld → Result
failed e ch g = record { ret = e; ch = ch; g = g; calls = [] }

-- The memory for a channel, with the size already in it: `none` on an endless search.
abbrev pub with_memory :
    (DimChannel → DimChannel × List HwCall) → DimChannel → Lld → Option (ℕ × DbrMap) → Option Result
with_memory k ch g none = none
with_memory k ch g (some (addr, m)) =
    let d = record ch { dbr_addr = addr } in
    if leb dbr_size addr
    then some (failed out_of_memory d (record g { dbr_map = m }))
    else let (e, calls) = k d in
      some (record { ret = no_error; ch = e; g = record g { dbr_map = m }; calls = calls })

-- `ROUND_UP_TO(hw_buffer_size, DBR_BLOCK_SIZE)` into a field of 16 bits.
abbrev pub round_up : ℕ → ℕ
round_up size = u16 (blocks_of size * dbr_block_size)

abbrev pub set_size : ℕ → DimChannel → DimChannel
set_size size ch = record ch { dbr_size = size }

abbrev pub configured : ℕ → Bool → ℕ → DimChannel → DimChannel × List HwCall
configured type is_tx packet_length ch =
    (ch, configure_channel ch.addr type is_tx ch.dbr_addr ch.dbr_size packet_length ∷ [])

-- `init_ctrl_async` on a channel that is not null.
unfoldable pub init_ctrl_async : Lld → DimChannel → ℕ → Bool → ℕ → ℕ → Option Result
init_ctrl_async g ch type is_tx ch_address hw_buffer_size =
    let size = round_up hw_buffer_size in
    if not g.dim_is_initialized
    then some (failed not_initialized ch g)
    else if not (check_channel_address ch_address)
    then some (failed channel_address ch g)
    else with_memory (λ d. configured type is_tx 0 (channel_init d (ch_address / 2)))
        (set_size size ch) g (alloc_dbr size g.dbr_map)

unfoldable pub dim_init_control : Lld → DimChannel → Bool → ℕ → ℕ → Option Result
dim_init_control g ch is_tx ch_address max_buffer_size =
    init_ctrl_async g ch cat_ct_val_control is_tx ch_address max_buffer_size

-- `if (is_tx && !g.atx_dbr.ch_addr)`, with what `dim2_rpc` reads.
abbrev pub trace_tx : ℕ → Bool → Result → Result
trace_tx rpc is_tx r =
    if is_tx && r.g.atx_dbr.ch_addr == 0
    then record r {
      g = record r.g {
        atx_dbr = dbrcnt_init rpc r.ch.dbr_size (record r.g.atx_dbr { ch_addr = r.ch.addr });
        mien = 2 ^ 20;
      };
    }
    else r

unfoldable pub dim_init_async : ℕ → Lld → DimChannel → Bool → ℕ → ℕ → Option Result
dim_init_async rpc g ch is_tx ch_address max_buffer_size =
    elim (init_ctrl_async g ch cat_ct_val_async is_tx ch_address max_buffer_size) [
      | none ↦ none
      | some r ↦ some (trace_tx rpc is_tx r)
    ]

unfoldable pub dim_init_isoc : Lld → DimChannel → Bool → ℕ → ℕ → Option Result
dim_init_isoc g ch is_tx ch_address packet_length =
    let size = u16 (packet_length * isoc_dbr_factor) in
    if not g.dim_is_initialized
    then some (failed not_initialized ch g)
    else if not (check_channel_address ch_address)
    then some (failed channel_address ch g)
    else if not (check_packet_length packet_length)
    then some (failed bad_config ch g)
    else with_memory
        (λ d.
          configured cat_ct_val_isoc is_tx packet_length
            (isoc_init d (ch_address / 2) packet_length))
        (set_size size ch) g (alloc_dbr size g.dbr_map)

abbrev pub sync_configured : Bool → ℕ → ℕ → DimChannel → DimChannel × List HwCall
sync_configured is_tx ch_address bytes_per_frame d =
    let (e, calls) =
      configured cat_ct_val_sync is_tx 0 (sync_init d (ch_address / 2) bytes_per_frame) in
    (e, clear_dbr e.dbr_addr e.dbr_size ∷ calls)

unfoldable pub dim_init_sync : Lld → DimChannel → Bool → ℕ → ℕ → Option Result
dim_init_sync g ch is_tx ch_address bytes_per_frame =
    let size = u16 (bytes_per_frame * 2 ^ u16 (g.fcnt + 2)) in
    if not g.dim_is_initialized
    then some (failed not_initialized ch g)
    else if not (check_channel_address ch_address)
    then some (failed channel_address ch g)
    else if not (check_bytes_per_frame g.fcnt bytes_per_frame)
    then some (failed bad_config ch g)
    else with_memory (sync_configured is_tx ch_address bytes_per_frame) (set_size size ch) g
        (alloc_dbr size g.dbr_map)

-- `dim_destroy_channel` on a channel that is not null.
unfoldable pub dim_destroy_channel : Lld → DimChannel → Result
dim_destroy_channel g ch =
    let traced = ch.addr == g.atx_dbr.ch_addr in
    if not g.dim_is_initialized then failed not_initialized ch g else record {
      ret = no_error;
      ch = record ch { dbr_addr = dbr_size };
      g = record g {
        mien = if traced then 0 else g.mien;
        atx_dbr = if traced then record g.atx_dbr { ch_addr = 0 } else g.atx_dbr;
        dbr_map =
            if ltb ch.dbr_addr dbr_size
            then free_dbr ch.dbr_addr ch.dbr_size g.dbr_map
            else g.dbr_map;
      };
      calls = clear_channel ch.addr ∷ [];
    }
