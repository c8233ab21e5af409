-- ===== src/Dim/Channel.antt =====
-- The state of one channel in hdm-dim2/dim2_hal.c: two buffer slots of the hardware that are filled,
-- completed and serviced in turn; and the fill state of the asynchronous Tx channel. What is written
-- to the hardware is returned as a command.
pub mod Slots
pub mod Accept
pub mod Fill
mod Tests
use unicens2_driver.Common.{
  ℕ, zero, suc, ◌+◌, ◌-◌, ◌*◌, ◌%◌, ◌^◌, Bool, true, false, not, ◌&&◌, ◌||◌, Option, none, some,
  List, ◌==◌, ltb, leb, if◌then◌else◌, get_or, set,
}
use unicens2_driver.Dim.Types.{
  u8, u16, u32, cdt0_rpc_mask, DimError, no_error, not_initialized, bad_buffer_size, underflow,
  overflow, IntChState, DimChannel,
}
use unicens2_driver.Dim.Sizes.{
  norm_ctrl_async_buffer_size, norm_isoc_buffer_size, norm_sync_buffer_size,
}

-- `struct async_tx_dbr`, with 32 entries in `sz_queue`.
pub record AsyncTxDbr : Type 0 where
  pub ch_addr : ℕ
  pub rpc : ℕ
  pub wpc : ℕ
  pub rest_size : ℕ
  pub sz_queue : List ℕ

-- `pc & CDT0_RPC_MASK`, five bits.
abbrev pub norm_pc : ℕ → ℕ
norm_pc pc = pc % (cdt0_rpc_mask + 1)

-- `dbrcnt_init`; `rpc` is what `dim2_rpc` reads from the hardware.
unfoldable pub dbrcnt_init : ℕ → ℕ → AsyncTxDbr → AsyncTxDbr
dbrcnt_init rpc dbr_size d = record d { rest_size = dbr_size; rpc = rpc; wpc = rpc }

pub dbrcnt_enq : ℕ → AsyncTxDbr → AsyncTxDbr
dbrcnt_enq buf_sz d = record d {
  rest_size = (d.rest_size + 2 ^ 16 - buf_sz) % 2 ^ 16;
  sz_queue = set d.sz_queue (norm_pc d.wpc) buf_sz;
  wpc = u16 (d.wpc + 1);
}

-- One round of the loop of `dim_dbr_space`.
pub dbr_retire : AsyncTxDbr → AsyncTxDbr
dbr_retire d = record d {
  rest_size = u16 (d.rest_size + get_or d.sz_queue (norm_pc d.rpc) 0);
  rpc = u16 (d.rpc + 1);
}

-- The loop, with fuel for one turn round the queue.
pub dbr_catch_up : ℕ → ℕ → AsyncTxDbr → Option AsyncTxDbr
dbr_catch_up zero cur_rpc d = none
dbr_catch_up (suc f) cur_rpc d = elim (norm_pc d.rpc == cur_rpc) [
  | true ↦ some d
  | false ↦ dbr_catch_up f cur_rpc (dbr_retire d)
]

-- The result of `dim_dbr_space` once the loop has ended.
pub dbr_result : AsyncTxDbr → ℕ
dbr_result d = if leb cdt0_rpc_mask ((d.wpc + 2 ^ 16 - d.rpc) % 2 ^ 16) then 0 else d.rest_size

-- `none` would be a loop that does not end; `cur_rpc` is what `dim2_rpc` reads.
unfoldable pub dim_dbr_space : ℕ → DimChannel → AsyncTxDbr → Option (ℕ × AsyncTxDbr)
unfolding dbr_result
dim_dbr_space cur_rpc ch d =
    if not (ch.addr == d.ch_addr)
    then some (0xFFFF, d)
    else elim (dbr_catch_up 32 cur_rpc d) [ none ↦ none | some e ↦ some (dbr_result e, e) ]

unfoldable pub state_init : IntChState
state_init = record { request_counter = 0; service_counter = 0; idx1 = 0; idx2 = 0; level = 0 }

-- `isoc_init`, `sync_init` and `channel_init`.
unfoldable pub isoc_init : DimChannel → ℕ → ℕ → DimChannel
isoc_init ch ch_addr packet_length = record ch {
  state = state_init;
  addr = ch_addr;
  packet_length = packet_length;
  bytes_per_frame = 0;
  done_sw_buffers_number = 0;
}

unfoldable pub sync_init : DimChannel → ℕ → ℕ → DimChannel
sync_init ch ch_addr bytes_per_frame = record ch {
  state = state_init;
  addr = ch_addr;
  packet_length = 0;
  bytes_per_frame = bytes_per_frame;
  done_sw_buffers_number = 0;
}

unfoldable pub channel_init : DimChannel → ℕ → DimChannel
channel_init ch ch_addr = record ch {
  state = state_init;
  addr = ch_addr;
  packet_length = 0;
  bytes_per_frame = 0;
  done_sw_buffers_number = 0;
}

-- `x ^= 1` on an index.
abbrev pub flip : ℕ → ℕ
flip x = if x % 2 == 0 then x + 1 else x - 1

-- With the result of `service_channel`, which asks the hardware whether slot `idx2` is done.
unfoldable pub channel_service_interrupt : Bool → DimChannel → Bool × DimChannel
channel_service_interrupt done ch = if not done then (false, ch) else (
  true,
  record ch {
    state = record ch.state {
      idx2 = flip ch.state.idx2;
      request_counter = u32 (ch.state.request_counter + 1);
    };
  },
)

-- The calls of `dim2_start_isoc_sync` and `dim2_start_ctrl_async`: channel, slot, buffer, size.
pub data Command : Type 0 where
  start_isoc_sync : ℕ → ℕ → ℕ → ℕ → Command
  start_ctrl_async : ℕ → ℕ → ℕ → ℕ → Command

pub data StartResult : Type 0 where
  started : Command → StartResult
  refused : DimError → StartResult

-- The checks of the size in `channel_start`.
unfoldable pub bad_size : ℕ → DimChannel → ℕ → Bool
bad_size fcnt ch buf_size =
    leb buf_size 0
    || ((ch.packet_length == 0 && ch.bytes_per_frame == 0)
        && not (buf_size == norm_ctrl_async_buffer_size buf_size))
    || (not (ch.packet_length == 0)
        && not (buf_size == norm_isoc_buffer_size buf_size ch.packet_length))
    || (not (ch.bytes_per_frame == 0)
        && not (buf_size == norm_sync_buffer_size fcnt buf_size ch.bytes_per_frame))

abbrev pub start_command : DimChannel → ℕ → ℕ → Command
start_command ch buf_addr buf_size =
    if not (ch.packet_length == 0) || not (ch.bytes_per_frame == 0)
    then start_isoc_sync ch.addr ch.state.idx1 buf_addr buf_size
    else start_ctrl_async ch.addr ch.state.idx1 buf_addr buf_size

unfoldable pub channel_start :
    ℕ → ℕ → ℕ → DimChannel → AsyncTxDbr → StartResult × DimChannel × AsyncTxDbr
unfolding bad_size dbrcnt_enq
channel_start fcnt buf_addr buf_size ch d =
    if bad_size fcnt ch buf_size
    then (refused bad_buffer_size, ch, d)
    else if leb 2 ch.state.level
    then (refused overflow, ch, d)
    else (
      started (start_command ch buf_addr buf_size),
      record ch {
        state = record ch.state { level = u8 (ch.state.level + 1); idx1 = flip ch.state.idx1 };
      },
      if ch.addr == d.ch_addr then dbrcnt_enq buf_size d else d,
    )

unfoldable pub channel_service : DimChannel → DimError × DimChannel
channel_service ch =
    let s = ch.state in
    let served = record s { service_counter = u32 (s.service_counter + 1) } in
    if s.service_counter == s.request_counter
    then (no_error, ch)
    else if s.level == 0
    then (underflow, record ch { state = served })
    else (
      no_error,
      record ch {
        state = record served { level = s.level - 1 };
        done_sw_buffers_number = u16 (ch.done_sw_buffers_number + 1);
      },
    )

unfoldable pub channel_detach_buffers : ℕ → DimChannel → Bool × DimChannel
channel_detach_buffers buffers_number ch =
    if ltb ch.done_sw_buffers_number buffers_number
    then (false, ch)
    else (true, record ch { done_sw_buffers_number = ch.done_sw_buffers_number - buffers_number })

-- `dim_service_channel` and `dim_get_channel_state`, where `none` is the null pointer.
pub dim_service_channel : Bool → Option DimChannel → DimError × Option DimChannel
unfolding channel_service
dim_service_channel initialized none = (not_initialized, none)
dim_service_channel initialized (some ch) =
    if not initialized
    then (not_initialized, some ch)
    else let (e, c) = channel_service ch in (e, some c)

-- `ready` and `done_buffers` of `struct dim_ch_state_t`.
pub dim_get_channel_state : Option DimChannel → Option (Bool × ℕ)
dim_get_channel_state none = none
dim_get_channel_state (some ch) = some (ltb ch.state.level 2, ch.done_sw_buffers_number)

-- With `none` for the null pointer, on which nothing changes.
pub dim_enqueue_buffer :
    ℕ → Option DimChannel → ℕ → ℕ → AsyncTxDbr → StartResult × Option DimChannel × AsyncTxDbr
dim_enqueue_buffer fcnt none buffer_addr buffer_size d = (refused not_initialized, none, d)
dim_enqueue_buffer fcnt (some ch) buffer_addr buffer_size d =
    let (r, c, e) = channel_start fcnt buffer_addr buffer_size ch d in (r, some c, e)

pub dim_detach_buffers : Option DimChannel → ℕ → Bool × Option DimChannel
dim_detach_buffers none buffers_number = (false, none)
dim_detach_buffers (some ch) buffers_number =
    let (ok, c) = channel_detach_buffers buffers_number ch in (ok, some c)
