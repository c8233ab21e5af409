-- ===== src/Hdm/Configure/Fresh.antt =====
-- `configure_channel` of hdm-dim2/dim2_hdm.c: the counters that a channel starts with, and its lists.
use unicens2_driver.Common.{
  ℕ, ◌+◌, ◌*◌, ◌/◌, ◌≡◌, refl, Bool, Option, none, some, List, ◌==◌, ◌&&◌, ◌^◌, leb, if◌then◌else◌,
  inl, inr, Bool-cases,
}
use unicens2_driver.Core.Types.{Config, ch_tx, ch_control, ch_async, ch_isoc}
use unicens2_driver.Dim.Types.{u16, DimError, no_error, DimChannel, isoc_dbr_factor}
use unicens2_driver.Dim.Sizes.{check_channel_address, check_packet_length, check_bytes_per_frame}
use unicens2_driver.Dim.Channel.{channel_init, isoc_init, sync_init, state_init}
use unicens2_driver.Dim.Memory.{DbrMap, dbr_size, alloc_dbr}
use unicens2_driver.Dim.Init.{
  Lld, HwCall, Result, with_memory, round_up, set_size, configured, sync_configured,
  init_ctrl_async, trace_tx, dim_init_control, dim_init_async, dim_init_isoc, dim_init_sync,
}
use unicens2_driver.Hdm.Configure.{init_hal}

-- Nothing is started and nothing done.
abbrev pub IsFresh : DimChannel → Type 0
IsFresh ch = (ch.state.level ≡ 0) × (ch.done_sw_buffers_number ≡ 0)

-- Of an initialisation that succeeded.
abbrev pub FreshIf : DimError → DimChannel → Type 0
FreshIf no_error ch = IsFresh ch
FreshIf _ ch = Unit {0}

abbrev pub AllFresh : Option Result → Type 0
AllFresh none = Unit {0}
AllFresh (some r) = FreshIf r.ret r.ch

memory-AllFresh :
    (k : DimChannel → DimChannel × List HwCall) (ch : DimChannel) (g : Lld)
    (o : Option (ℕ × DbrMap))
    → ((d : DimChannel) → IsFresh (k d).0)
    → AllFresh (with_memory k ch g o)
memory-AllFresh k ch g none f = tt
memory-AllFresh k ch g (some (addr, m)) f = elim (Bool-cases (leb dbr_size addr)) [
  | inl e ↦ simp e tt
  | inr e ↦ simp e (f (record ch { dbr_addr = addr }))
]

ctrl_async-AllFresh :
    (g : Lld) (ch : DimChannel) (type : ℕ) (is_tx : Bool) (a n : ℕ)
    → AllFresh (init_ctrl_async g ch type is_tx a n)
unfolding init_ctrl_async channel_init state_init
ctrl_async-AllFresh g ch type is_tx a n = elim (Bool-cases g.dim_is_initialized) [
  | inr e ↦ simp (e, init_ctrl_async) tt
  | inl e ↦ elim (Bool-cases (check_channel_address a)) [
    | inr f ↦ simp (e, f, init_ctrl_async) tt
    | inl f ↦
        simp (e, f, init_ctrl_async)
          (memory-AllFresh (λ d. configured type is_tx 0 (channel_init d (a / 2)))
            (set_size (round_up n) ch) g (alloc_dbr (round_up n) g.dbr_map) (λ d. (refl, refl)))
  ]
]

trace-AllFresh :
    (rpc : ℕ) (is_tx : Bool) (r : Result)
    → FreshIf r.ret r.ch
    → AllFresh (some (trace_tx rpc is_tx r))
trace-AllFresh rpc is_tx r h = elim (Bool-cases (is_tx && r.g.atx_dbr.ch_addr == 0)) [
  | inl e ↦ simp e h
  | inr e ↦ simp e h
]

async-AllFresh :
    (rpc : ℕ) (g : Lld) (ch : DimChannel) (is_tx : Bool) (a n : ℕ)
    → AllFresh (dim_init_async rpc g ch is_tx a n)
unfolding dim_init_async
async-AllFresh rpc g ch is_tx a n =
    go (init_ctrl_async g ch 2 is_tx a n) (ctrl_async-AllFresh g ch 2 is_tx a n)
  where
    go :
        (o : Option Result)
        → AllFresh o
        → AllFresh (elim o [ none ↦ none | some r ↦ some (trace_tx rpc is_tx r) ])
    go none h = tt
    go (some r) h = trace-AllFresh rpc is_tx r h

isoc-AllFresh :
    (g : Lld) (ch : DimChannel) (is_tx : Bool) (a n : ℕ) → AllFresh (dim_init_isoc g ch is_tx a n)
unfolding dim_init_isoc isoc_init state_init
isoc-AllFresh g ch is_tx a n = elim (Bool-cases g.dim_is_initialized) [
  | inr e ↦ simp (e, dim_init_isoc) tt
  | inl e ↦ elim (Bool-cases (check_channel_address a)) [
    | inr f ↦ simp (e, f, dim_init_isoc) tt
    | inl f ↦ elim (Bool-cases (check_packet_length n)) [
      | inr c ↦ simp (e, f, c, dim_init_isoc) tt
      | inl c ↦
          let size = u16 (n * isoc_dbr_factor) in
          simp (e, f, c, dim_init_isoc)
            (memory-AllFresh (λ d. configured 3 is_tx n (isoc_init d (a / 2) n)) (set_size size ch)
              g (alloc_dbr size g.dbr_map) (λ d. (refl, refl)))
    ]
  ]
]

sync-AllFresh :
    (g : Lld) (ch : DimChannel) (is_tx : Bool) (a n : ℕ) → AllFresh (dim_init_sync g ch is_tx a n)
unfolding dim_init_sync sync_init state_init
sync-AllFresh g ch is_tx a n = elim (Bool-cases g.dim_is_initialized) [
  | inr e ↦ simp (e, dim_init_sync) tt
  | inl e ↦ elim (Bool-cases (check_channel_address a)) [
    | inr f ↦ simp (e, f, dim_init_sync) tt
    | inl f ↦ elim (Bool-cases (check_bytes_per_frame g.fcnt n)) [
      | inr c ↦ simp (e, f, c, dim_init_sync) tt
      | inl c ↦
          let size = u16 (n * 2 ^ u16 (g.fcnt + 2)) in
          simp (e, f, c, dim_init_sync)
            (memory-AllFresh (sync_configured is_tx a n) (set_size size ch) g
              (alloc_dbr size g.dbr_map) (λ d. (refl, refl)))
    ]
  ]
]

pub hal-AllFresh :
    (rpc : ℕ) (g : Lld) (ch : DimChannel) (a : ℕ) (cfg : Config) (size : ℕ)
    → AllFresh (init_hal rpc g ch a cfg size)
unfolding init_hal dim_init_control
hal-AllFresh rpc g ch a cfg size =
    let is_tx = cfg.direction == ch_tx in
    let memory = if is_tx then size * 2 else size in
    elim (Bool-cases (cfg.data_type == ch_control)) [
      | inl e ↦ simp (e, init_hal) (ctrl_async-AllFresh g ch 1 is_tx a memory)
      | inr e ↦ elim (Bool-cases (cfg.data_type == ch_async)) [
        | inl f ↦ simp (e, f, init_hal) (async-AllFresh rpc g ch is_tx a memory)
        | inr f ↦ elim (Bool-cases (cfg.data_type == ch_isoc)) [
          | inl c ↦ simp (e, f, c, init_hal) (isoc-AllFresh g ch is_tx a cfg.subbuffer_size)
          | inr c ↦ simp (e, f, c, init_hal) (sync-AllFresh g ch is_tx a cfg.subbuffer_size)
        ]
      ]
    ]
