-- ===== src/Hdm.antt =====
-- hdm-dim2/dim2_hdm.c, the driver of the MediaLB device: the buffers that the core module gives it wait
-- in `pending_list`, are with the hardware in `started_list`, and go back by their `complete`.
pub mod Counts
pub mod Kept
pub mod Steps
pub mod Buffers
pub mod Configure
mod Tests
use unicens2_driver.Common.{
  ℕ, zero, suc, ◌+◌, ◌-◌, ◌*◌, ◌%◌, ◌^◌, Bool, true, false, not, ◌&&◌, ◌||◌, Option, none, some,
  List, [], ◌∷◌, ◌++◌, ◌==◌, ltb, if◌then◌else◌, get_or,
}
use unicens2_driver.Common.Int.{ℤ, pos, negsuc}
use unicens2_driver.Core.Types.{
  eperm, Status, success, inval, close, eagain, ch_rx, ch_control, ch_async,
}
use unicens2_driver.Dim.Types.{DimChannel, no_error}
use unicens2_driver.Dim.Init.{Lld, Result, dim_destroy_channel}
use unicens2_driver.Dim.Channel.{
  AsyncTxDbr, StartResult, started, refused, dim_dbr_space, channel_start, channel_service,
  channel_detach_buffers,
}

abbrev pub efault : ℤ
efault = negsuc 13

-- The fields of `struct mbo` that the driver uses; `bytes` is at `virt_address`.
pub record HdmMbo : Type 0 where
  pub id : ℕ
  pub bus_address : ℕ
  pub buffer_length : ℕ
  pub processed_length : ℕ
  pub status : Status
  pub bytes : List ℕ

-- `struct hdm_channel`, with the trace of the asynchronous Tx channel, `deliver_netinfo`, the buffers
-- that were completed, and whether the message "hard error" was printed.
pub record HdmChannel : Type 0 where
  pub is_initialized : Bool
  pub ch : DimChannel
  pub pending_list : List HdmMbo
  pub started_list : List HdmMbo
  pub direction : ℕ
  pub data_type : ℕ
  pub atx_dbr : AsyncTxDbr
  pub deliver_netinfo : ℕ
  pub completed : List HdmMbo
  pub hard_error : Bool

-- `mbo->complete(mbo)`, after the length and the status are set.
abbrev pub complete : ℕ → Status → HdmMbo → HdmChannel → HdmChannel
complete len status m h = record h {
  completed = h.completed ++ record m { processed_length = len; status = status } ∷ [];
}

-- `dim_enqueue_buffer` of the first pending buffer, and what follows.
unfoldable pub start_first : ℕ → HdmMbo → List HdmMbo → HdmChannel → ℤ × HdmChannel
start_first fcnt m rest h =
    let (r, c, d) = channel_start fcnt m.bus_address m.buffer_length h.ch h.atx_dbr in
    let g = record h { ch = c; atx_dbr = d; pending_list = rest } in
    elim r [
      | refused e ↦ (efault, complete 0 inval m g)
      | started k ↦ (pos 0, record g { started_list = g.started_list ++ m ∷ [] })
    ]

-- `rpc` is what `dim2_rpc` reads, and `none` an endless loop in `dim_dbr_space`.
unfoldable pub try_start_dim_transfer : ℕ → ℕ → HdmChannel → Option (ℤ × HdmChannel)
try_start_dim_transfer fcnt rpc h = elim h.pending_list [
  | [] ↦ some (eagain, h)
  | m ∷ rest ↦
      if not (ltb h.ch.state.level 2)
      then some (eagain, h)
      else elim (dim_dbr_space rpc h.ch h.atx_dbr) [
        | none ↦ none
        | some (space, d) ↦
            if ltb space m.buffer_length
            then some (eagain, record h { atx_dbr = d })
            else some (start_first fcnt m rest (record h { atx_dbr = d }))
      ]
]

-- PACKET_IS_NET_INFO
abbrev pub packet_is_net_info : List ℕ → Bool
packet_is_net_info p =
    (get_or p 1 0 == 0x18)
    && (get_or p 2 0 == 0x05)
    && (get_or p 3 0 == 0x0C)
    && (get_or p 13 0 == 0x3C)
    && (get_or p 14 0 == 0x00)
    && (get_or p 15 0 == 0x0A)

-- `processed_length` of a buffer that the hardware is done with.
abbrev pub done_length : ℕ → HdmMbo → ℕ
done_length data_type m =
    let data_size = get_or m.bytes 0 0 * 256 + get_or m.bytes 1 0 + 2 in
    if data_type == ch_control || data_type == ch_async
    then (if ltb data_size m.buffer_length then data_size else m.buffer_length)
    else m.buffer_length

-- The body of the loop of `service_done_flag` for one buffer.
pub finish_one : HdmMbo → HdmChannel → HdmChannel
finish_one m h =
    if (h.data_type == ch_async) && (h.direction == ch_rx) && packet_is_net_info m.bytes
    then record h {
      deliver_netinfo = h.deliver_netinfo + 1;
      pending_list = h.pending_list ++ m ∷ [];
    }
    else complete (done_length h.data_type m) success m h

pub finish_loop : ℕ → List HdmMbo → HdmChannel → HdmChannel
finish_loop zero ms h = record h { started_list = ms }
finish_loop (suc n) [] h = record h { started_list = []; hard_error = true }
finish_loop (suc n) (m ∷ ms) h = finish_loop n ms (finish_one m h)

pub service_done_flag : HdmChannel → HdmChannel
service_done_flag h =
    let n = h.ch.done_sw_buffers_number in
    let (ok, c) = channel_detach_buffers n h.ch in
    if n == 0 then h else if not ok then h else finish_loop n h.started_list (record h { ch = c })

-- `dim_service_channel` in `dim2_tasklet_fn`.
unfoldable pub service_hal : HdmChannel → HdmChannel
service_hal h = record h { ch = (channel_service h.ch).1 }

-- `enqueue`
unfoldable pub enqueue : ℕ → ℕ → HdmMbo → HdmChannel → Option (ℤ × HdmChannel)
enqueue fcnt rpc m h =
    if not h.is_initialized
    then some (eperm, h)
    else if m.bus_address == 0
    then some (efault, h)
    else elim (try_start_dim_transfer fcnt rpc
        (record h { pending_list = h.pending_list ++ m ∷ [] })) [
          | none ↦ none
          | some (ret, g) ↦ some (pos 0, g)
        ]

-- `complete_all_mbos`
unfoldable pub complete_all_mbos : List HdmMbo → HdmChannel → HdmChannel
complete_all_mbos [] h = h
complete_all_mbos (m ∷ ms) h = complete_all_mbos ms (complete 0 close m h)

-- `poison_channel`; the tasklet does not run while the hardware's channel is destroyed.
unfoldable pub poison_channel : Lld → HdmChannel → ℤ × Lld × HdmChannel
unfolding complete_all_mbos
poison_channel g h =
    let r = dim_destroy_channel (record g { atx_dbr = h.atx_dbr }) h.ch in
    let k = record h {
      is_initialized = false;
      ch = r.ch;
      atx_dbr = r.g.atx_dbr;
      started_list = [];
      pending_list = [];
    } in
    if not h.is_initialized then (eperm, g, h) else (
      elim r.ret [ no_error ↦ pos 0 | _ ↦ efault ],
      r.g,
      complete_all_mbos h.pending_list (complete_all_mbos h.started_list k),
    )
