-- ===== src/Hdm/Configure/Memory.antt =====
-- A channel that is configured and then poisoned leaves the buffer memory as it was.
use unicens2_driver.Common.{
  ℕ, ◌+◌, ◌*◌, ◌≡◌, ◌≢◌, ◌≤◌, ◌<◌, ◌⊎◌, inl, inr, Bool, true, false, Option, none, some, ◌==◌,
  if◌then◌else◌, refl, ap, arith, Bool-cases,
}
use unicens2_driver.Common.Int.{ℤ, pos}
use unicens2_driver.Core.Types.{eperm, Config, einval, enodev, ch_tx, ch_control, ch_async, ch_isoc}
use unicens2_driver.Dim.Types.{DimChannel, no_error}
use unicens2_driver.Dim.Sizes.{dim_norm_ctrl_async_buffer_size}
use unicens2_driver.Dim.Sizes.Normal.{ctrl_async-le}
use unicens2_driver.Dim.Memory.Alloc.{bit}
use unicens2_driver.Dim.Init.{Lld, Result, dim_init_control, dim_init_async}
use unicens2_driver.Dim.Init.Owner.{
  InitOutcome, ctrl_async_outcome, isoc_outcome, sync_outcome, async_go,
}
use unicens2_driver.Dim.Init.Destroy.{destroyed}
use unicens2_driver.Hdm.{efault, HdmChannel, poison_channel}
use unicens2_driver.Hdm.Configure.{
  new_size, has_type, init_hal, Configured, stay, finish_configure, finished, configure_channel,
}

-- An error, or a poison_channel that would succeed and restore block `k`.
abbrev pub ConfigureOutcome : ℕ → Lld → Option Configured → Type 0
ConfigureOutcome k g none = ⊥
ConfigureOutcome k g (some c) =
    (c.ret ≢ pos 0)
    ⊎ (c.ret ≡ pos 0)
      × (let (ret, l, h) = poison_channel c.g c.channel in
          (ret ≡ pos 0) × (bit l.dbr_map k ≡ bit g.dbr_map k))

memory_bounds :
    (b : Bool) (size : ℕ)
    → size ≢ 0
    → size ≤ 2048
    → let memory = if b then size * 2 else size in (0 < memory) × (memory ≤ 7936)
memory_bounds true size h0 h = (omega arith, omega arith)
memory_bounds false size h0 h = (omega arith, omega arith)

hal_outcome :
    (rpc : ℕ) (g : Lld) (ch : DimChannel) (ch_addr : ℕ) (cfg : Config)
    → new_size g.fcnt cfg ≢ 0
    → InitOutcome g (init_hal rpc g ch ch_addr cfg (new_size g.fcnt cfg))
unfolding init_hal new_size dim_init_control dim_init_async
hal_outcome rpc g ch ch_addr cfg h0 =
    let is_tx = cfg.direction == ch_tx in
    let size = dim_norm_ctrl_async_buffer_size cfg.buffer_size in
    let le = ctrl_async-le cfg.buffer_size in
    elim (Bool-cases (cfg.data_type == ch_control)) [
      | inl a ↦
          let (low, high) = memory_bounds is_tx size (simp (a, new_size) at h0) le in
          simp (a, init_hal, new_size) (ctrl_async_outcome g ch is_tx ch_addr 1 _ low high)
      | inr a ↦ elim (Bool-cases (cfg.data_type == ch_async)) [
        | inl b ↦
            let (low, high) = memory_bounds is_tx size (simp (a, b, new_size) at h0) le in
            simp (a, b, init_hal, new_size)
              (async_go g ch is_tx ch_addr rpc _
                (ctrl_async_outcome g ch is_tx ch_addr 2 _ low high))
        | inr b ↦ elim (Bool-cases (cfg.data_type == ch_isoc)) [
          | inl c ↦ simp (a, b, c, init_hal) (isoc_outcome g ch is_tx ch_addr cfg.subbuffer_size)
          | inr c ↦ simp (a, b, c, init_hal) (sync_outcome g ch is_tx ch_addr cfg.subbuffer_size)
        ]
      ]
    ]

-- An error of the hardware abstraction layer is passed on as -ENODEV.
refused_ret :
    (ch_idx : ℕ) (cfg : Config) (atx_idx : Option ℕ) (h : HdmChannel) (r : Result)
    → r.ret ≢ no_error
    → (finish_configure ch_idx cfg atx_idx h r).ret ≡ enodev
unfolding finish_configure
refused_ret ch_idx cfg atx_idx h r e = ground (arith, e)

enodev_error : {ret : ℤ} → ret ≡ enodev → ret ≢ pos 0
enodev_error {ret} e = ground (arith, e)

finished_outcome :
    (k ch_idx : ℕ) (cfg : Config) (atx_idx : Option ℕ) (g : Lld) (h : HdmChannel)
    (o : Option Result)
    → g.dim_is_initialized ≡ true
    → InitOutcome g o
    → ConfigureOutcome k g (finished ch_idx cfg atx_idx h o)
unfolding finish_configure poison_channel
finished_outcome k ch_idx cfg atx_idx g h none up v = absurd v
finished_outcome k ch_idx cfg atx_idx g h (some r) up (inl v) =
    let (ok, gone, back) = destroyed g r k v up in
    simp (v.ok, finish_configure)
      (inr (refl, (ap (λ e. elim e as (λ _. ℤ) [ no_error ↦ pos 0 | _ ↦ efault ]) ok, back)))
finished_outcome k ch_idx cfg atx_idx g h (some r) up (inr v) =
    inl (enodev_error (refused_ret ch_idx cfg atx_idx h r v.error))

stays :
    (k : ℕ) (e : ℤ) (g : Lld) (h : HdmChannel) (cfg : Config) (atx_idx : Option ℕ)
    → e ≢ pos 0
    → ConfigureOutcome k g (some (stay e g h cfg atx_idx))
stays k e g h cfg atx_idx n = inl n

-- Where the hardware abstraction layer is up, `configure_channel` ends on every channel and
-- configuration, and either it returns an error, or it returns 0, and then `poison_channel` returns 0
-- and each block of the buffer memory is as it was before the two.
pub poison-configure :
    (rpc k : ℕ) (g : Lld) (h : HdmChannel) (ch_idx : ℕ) (cfg : Config) (atx_idx : Option ℕ)
    → g.dim_is_initialized ≡ true
    → ConfigureOutcome k g (configure_channel rpc g h ch_idx cfg atx_idx)
unfolding configure_channel
poison-configure rpc k g h ch_idx cfg atx_idx up =
    let size = new_size g.fcnt cfg in
    elim (Bool-cases h.is_initialized) [
      | inl a ↦ simp (a, configure_channel) (stays k eperm g h cfg atx_idx (ground arith))
      | inr a ↦ elim (Bool-cases (has_type cfg.data_type)) [
        | inr b ↦ simp (a, b, configure_channel) (stays k einval g h cfg atx_idx (ground arith))
        | inl b ↦ elim (Bool-cases (size == 0)) [
          | inl c ↦
              simp (a, b, c, configure_channel) (stays k einval g h cfg atx_idx (ground arith))
          | inr c ↦
              simp (a, b, c, configure_channel)
                (finished_outcome k ch_idx (record cfg { buffer_size = size }) atx_idx g h
                  (init_hal rpc g h.ch (ch_idx * 2 + 2) cfg size) up
                  (hal_outcome rpc g h.ch (ch_idx * 2 + 2) cfg (ground (arith, c))))
        ]
      ]
    ]
