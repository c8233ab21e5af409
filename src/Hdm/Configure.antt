-- ===== src/Hdm/Configure.antt =====
-- `configure_channel` of hdm-dim2/dim2_hdm.c.
pub mod Fresh
pub mod Memory
use unicens2_driver.Common.{
  ℕ, ◌+◌, ◌*◌, Bool, true, false, not, ◌&&◌, ◌||◌, Option, none, some, ◌==◌, if◌then◌else◌,
}
use unicens2_driver.Common.Int.{ℤ, pos}
use unicens2_driver.Core.Types.{
  eperm, Config, einval, enodev, ch_tx, ch_control, ch_async, ch_isoc, ch_sync,
}
use unicens2_driver.Dim.Types.{DimError, DimChannel, no_error}
use unicens2_driver.Dim.Sizes.{
  dim_norm_ctrl_async_buffer_size, dim_norm_isoc_buffer_size, dim_norm_sync_buffer_size,
}
use unicens2_driver.Dim.Init.{
  Lld, Result, dim_init_control, dim_init_async, dim_init_isoc, dim_init_sync,
}
use unicens2_driver.Hdm.{HdmChannel}

-- `new_size` in the four cases of the switch; another type is refused.
unfoldable pub new_size : ℕ → Config → ℕ
new_size fcnt cfg =
    if cfg.data_type == ch_control || cfg.data_type == ch_async
    then dim_norm_ctrl_async_buffer_size cfg.buffer_size
    else if cfg.data_type == ch_isoc
    then dim_norm_isoc_buffer_size cfg.buffer_size cfg.subbuffer_size
    else dim_norm_sync_buffer_size fcnt cfg.buffer_size cfg.subbuffer_size

abbrev pub has_type : ℕ → Bool
has_type t = t == ch_control || t == ch_async || t == ch_isoc || t == ch_sync

-- The call of the hardware abstraction layer in the four cases; `rpc` is what `dim2_rpc` reads.
unfoldable pub init_hal : ℕ → Lld → DimChannel → ℕ → Config → ℕ → Option Result
init_hal rpc g ch ch_addr cfg size =
    let is_tx = cfg.direction == ch_tx in
    let memory = if is_tx then size * 2 else size in
    if cfg.data_type == ch_control
    then dim_init_control g ch is_tx ch_addr memory
    else if cfg.data_type == ch_async
    then dim_init_async rpc g ch is_tx ch_addr memory
    else if cfg.data_type == ch_isoc
    then dim_init_isoc g ch is_tx ch_addr cfg.subbuffer_size
    else dim_init_sync g ch is_tx ch_addr cfg.subbuffer_size

-- The result, the state of the hardware abstraction layer, the channel, the configuration that was
-- changed in place, and `atx_idx`, where `none` is -1.
pub record Configured : Type 0 where
  pub ret : ℤ
  pub g : Lld
  pub channel : HdmChannel
  pub cfg : Config
  pub atx_idx : Option ℕ

-- An early return.
abbrev pub stay : ℤ → Lld → HdmChannel → Config → Option ℕ → Configured
stay e g h cfg atx_idx = record { ret = e; g = g; channel = h; cfg = cfg; atx_idx = atx_idx }

abbrev pub first_atx : ℕ → Config → Option ℕ → Option ℕ
first_atx ch_idx cfg none =
    if (cfg.data_type == ch_async) && (cfg.direction == ch_tx) then some ch_idx else none
first_atx ch_idx cfg (some i) = some i

-- What follows the switch.
unfoldable pub finish_configure : ℕ → Config → Option ℕ → HdmChannel → Result → Configured
finish_configure ch_idx cfg atx_idx h r =
    let k = record h { ch = r.ch; atx_dbr = r.g.atx_dbr } in
    elim r.ret [
      | no_error ↦ record {
        ret = pos 0;
        g = r.g;
        channel = record k {
          data_type = cfg.data_type;
          direction = cfg.direction;
          is_initialized = true;
        };
        cfg = cfg;
        atx_idx = first_atx ch_idx cfg atx_idx;
      }
      | _ ↦ record { ret = enodev; g = r.g; channel = k; cfg = cfg; atx_idx = atx_idx }
    ]

abbrev pub finished : ℕ → Config → Option ℕ → HdmChannel → Option Result → Option Configured
finished ch_idx cfg atx_idx h none = none
finished ch_idx cfg atx_idx h (some r) = some (finish_configure ch_idx cfg atx_idx h r)

unfoldable pub configure_channel : ℕ → Lld → HdmChannel → ℕ → Config → Option ℕ → Option Configured
configure_channel rpc g h ch_idx cfg atx_idx =
    let size = new_size g.fcnt cfg in
    if h.is_initialized
    then some (stay eperm g h cfg atx_idx)
    else if not (has_type cfg.data_type)
    then some (stay einval g h cfg atx_idx)
    else if size == 0
    then some (stay einval g h cfg atx_idx)
    else finished ch_idx (record cfg { buffer_size = size }) atx_idx h
        (init_hal rpc g h.ch (ch_idx * 2 + 2) cfg size)
