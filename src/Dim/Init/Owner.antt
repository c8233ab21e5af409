-- ===== src/Dim/Init/Owner.antt =====
-- The memory of a channel from its initialisation to its end.
use unicens2_driver.Common.{
  ℕ, ◌+◌, ◌*◌, ◌/◌, ◌^◌, ◌≡◌, ◌≢◌, ◌≤◌, ◌<◌, ◌⊎◌, inl, inr, Bool, true, false, ◌&&◌, Option, none,
  some, List, [], ◌==◌, leb, refl, arith, Bool-cases,
}
use native.Mathlib.Nat.{mod-le, one-le-pow, le-div_iff_mul-le}
use unicens2_driver.Dim.Types.{
  u16, DimError, no_error, channel_address, not_initialized, bad_config, DimChannel,
  isoc_dbr_factor,
}
use unicens2_driver.Dim.Sizes.{check_channel_address, check_packet_length, check_bytes_per_frame}
use unicens2_driver.Dim.Channel.{channel_init, isoc_init, sync_init, dbrcnt_init}
use unicens2_driver.Dim.Memory.{DbrMap, dbr_size, blocks_of, alloc_dbr}
use unicens2_driver.Dim.Memory.Alloc.{IsAllocated, Outcome, alloc_outcome}
use unicens2_driver.Dim.Init.{
  Lld, HwCall, Result, failed, with_memory, round_up, set_size, configured, sync_configured,
  init_ctrl_async, dim_init_isoc, dim_init_sync, trace_tx,
}

-- The initialisation gave the channel a place of its own, which was free.
pub record HasPlace (g : Lld) (r : Result) : Type 0 where
  pub ok : r.ret ≡ no_error
  pub ready : r.g.dim_is_initialized ≡ g.dim_is_initialized
  pub place : IsAllocated (blocks_of r.ch.dbr_size) g.dbr_map r.ch.dbr_addr r.g.dbr_map

-- It was refused: the hardware was not touched, and the memory is as before.
pub record IsRefused (g : Lld) (r : Result) : Type 0 where
  pub error : r.ret ≢ no_error
  pub untouched : r.calls ≡ []
  pub same : r.g.dbr_map ≡ g.dbr_map

abbrev pub InitOutcome : Lld → Option Result → Type 0
InitOutcome g none = ⊥
InitOutcome g (some r) = HasPlace g r ⊎ IsRefused g r

with_go :
    (size : ℕ) (k : DimChannel → DimChannel × List HwCall) (ch : DimChannel) (g : Lld)
    (o : Option (ℕ × DbrMap))
    → ((d : DimChannel) → ((k d).0.dbr_addr ≡ d.dbr_addr) × ((k d).0.dbr_size ≡ d.dbr_size))
    → Outcome (blocks_of size) g.dbr_map o
    → InitOutcome g (with_memory k (set_size size ch) g o)
with_go size k ch g none keeps h = absurd h
with_go size k ch g (some (addr, m)) keeps (inl h) =
    rw h.0 (inr (record { error = ground arith; untouched = refl; same = h.1 }))
with_go size k ch g (some (addr, m)) keeps (inr t) =
    let d = record (set_size size ch) { dbr_addr = addr } in
    let c : leb dbr_size addr ≡ false = ground (arith, t.at, t.below) in
    let (a, s) = keeps d in rw c (inl (record { ok = refl; ready = refl; place = rw (a, s) t }))

round_up-bounds : (n : ℕ) → 0 < n → n ≤ 7936 → (0 < round_up n) × (round_up n ≤ 7936)
round_up-bounds n h0 h = omega (arith, h0, h)

failed-InitOutcome :
    (e : DimError) (ch : DimChannel) (g : Lld) → e ≢ no_error → InitOutcome g (some (failed e ch g))
failed-InitOutcome e ch g h = inr (record { error = h; untouched = refl; same = refl })

isoc-bounds :
    (n : ℕ)
    → check_packet_length n ≡ true
    → (0 < u16 (n * isoc_dbr_factor)) × (u16 (n * isoc_dbr_factor) ≤ 7936)
unfolding check_packet_length
isoc-bounds n h = ground arith

sync-bounds :
    (fcnt n : ℕ)
    → check_bytes_per_frame fcnt n ≡ true
    → let size = u16 (n * 2 ^ u16 (fcnt + 2)) in (0 < size) × (size ≤ 7936)
unfolding check_bytes_per_frame
sync-bounds fcnt n h =
    let unit = 2 ^ u16 (fcnt + 2) in
    let low : 1 ≤ unit = one-le-pow (u16 (fcnt + 2)) 2 (omega arith) in
    let cut : u16 (4096 / unit) ≤ 4096 / unit = mod-le _ _ in
    let fits : n ≤ 4096 / unit = ground (arith, cut) in
    let whole : n * unit ≤ 4096 = (le-div_iff_mul-le {k = unit} {x = n} {y = 4096} low).0 fits in
    let some_bytes : 0 < n = ground arith in
    let some_size : 0 < n * unit = grind (arith, low, some_bytes) in omega (arith, whole, some_size)

module _ (g : Lld) (ch : DimChannel) (is_tx : Bool) (ch_address : ℕ) where
  pub ctrl_async_outcome :
      (type hw_buffer_size : ℕ)
      → 0 < hw_buffer_size
      → hw_buffer_size ≤ 7936
      → InitOutcome g (init_ctrl_async g ch type is_tx ch_address hw_buffer_size)
  unfolding init_ctrl_async channel_init
  ctrl_async_outcome type n h0 h = elim (Bool-cases g.dim_is_initialized) [
    | inr e ↦ simp (e, init_ctrl_async) (failed-InitOutcome not_initialized ch g (ground arith))
    | inl e ↦ elim (Bool-cases (check_channel_address ch_address)) [
      | inr f ↦
          simp (e, f, init_ctrl_async) (failed-InitOutcome channel_address ch g (ground arith))
      | inl f ↦
          let (low, high) = round_up-bounds n h0 h in
          simp (e, f, init_ctrl_async)
            (with_go (round_up n) (λ d. configured type is_tx 0 (channel_init d (ch_address / 2)))
              ch g (alloc_dbr (round_up n) g.dbr_map) (λ d. (refl, refl))
              (alloc_outcome (round_up n) g.dbr_map low high))
    ]
  ]

  pub isoc_outcome :
      (packet_length : ℕ) → InitOutcome g (dim_init_isoc g ch is_tx ch_address packet_length)
  unfolding dim_init_isoc isoc_init
  isoc_outcome n = elim (Bool-cases g.dim_is_initialized) [
    | inr e ↦ simp (e, dim_init_isoc) (failed-InitOutcome not_initialized ch g (ground arith))
    | inl e ↦ elim (Bool-cases (check_channel_address ch_address)) [
      | inr f ↦ simp (e, f, dim_init_isoc) (failed-InitOutcome channel_address ch g (ground arith))
      | inl f ↦ elim (Bool-cases (check_packet_length n)) [
        | inr c ↦ simp (e, f, c, dim_init_isoc) (failed-InitOutcome bad_config ch g (ground arith))
        | inl c ↦
            let size = u16 (n * isoc_dbr_factor) in
            let (low, high) = isoc-bounds n c in
            simp (e, f, c, dim_init_isoc)
              (with_go size (λ d. configured 3 is_tx n (isoc_init d (ch_address / 2) n)) ch g
                (alloc_dbr size g.dbr_map) (λ d. (refl, refl))
                (alloc_outcome size g.dbr_map low high))
      ]
    ]
  ]

  pub sync_outcome :
      (bytes_per_frame : ℕ) → InitOutcome g (dim_init_sync g ch is_tx ch_address bytes_per_frame)
  unfolding dim_init_sync sync_init
  sync_outcome n = elim (Bool-cases g.dim_is_initialized) [
    | inr e ↦ simp (e, dim_init_sync) (failed-InitOutcome not_initialized ch g (ground arith))
    | inl e ↦ elim (Bool-cases (check_channel_address ch_address)) [
      | inr f ↦ simp (e, f, dim_init_sync) (failed-InitOutcome channel_address ch g (ground arith))
      | inl f ↦ elim (Bool-cases (check_bytes_per_frame g.fcnt n)) [
        | inr c ↦ simp (e, f, c, dim_init_sync) (failed-InitOutcome bad_config ch g (ground arith))
        | inl c ↦
            let size = u16 (n * 2 ^ u16 (g.fcnt + 2)) in
            let (low, high) = sync-bounds g.fcnt n c in
            simp (e, f, c, dim_init_sync)
              (with_go size (sync_configured is_tx ch_address n) ch g (alloc_dbr size g.dbr_map)
                (λ d. (refl, refl)) (alloc_outcome size g.dbr_map low high))
      ]
    ]
  ]

  trace-InitOutcome :
      (rpc : ℕ) (r : Result) → InitOutcome g (some r) → InitOutcome g (some (trace_tx rpc is_tx r))
  unfolding dbrcnt_init
  trace-InitOutcome rpc r (inl v) = elim (Bool-cases (is_tx && r.g.atx_dbr.ch_addr == 0)) [
    | inl e ↦ simp (e, trace_tx) (inl (record { ok = v.ok; ready = v.ready; place = v.place }))
    | inr e ↦ simp (e, trace_tx) (inl v)
  ]
  trace-InitOutcome rpc r (inr v) = elim (Bool-cases (is_tx && r.g.atx_dbr.ch_addr == 0)) [
    | inl e ↦
        simp (e, trace_tx)
          (inr (record { error = v.error; untouched = v.untouched; same = v.same }))
    | inr e ↦ simp (e, trace_tx) (inr v)
  ]

  pub async_go :
      (rpc : ℕ) (o : Option Result)
      → InitOutcome g o
      → InitOutcome g (elim o [ none ↦ none | some r ↦ some (trace_tx rpc is_tx r) ])
  async_go rpc none v = v
  async_go rpc (some r) v = trace-InitOutcome rpc r v
