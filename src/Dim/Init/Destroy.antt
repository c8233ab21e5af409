-- ===== src/Dim/Init/Destroy.antt =====
-- What one initialisation does, over its four kinds, and what `dim_destroy_channel` gives back.
use unicens2_driver.Common.{
  ℕ, ◌^◌, ◌≡◌, ◌≤◌, ◌<◌, ◌⊎◌, inl, inr, Bool, true, false, some, ◌==◌, ltb, refl, sym, ◌∙◌, arith,
  lt→ltb,
}
use mathlib.Core.Path.{subst}
use unicens2_driver.Dim.Types.{no_error, channel_address, DimChannel}
use unicens2_driver.Dim.Sizes.{check_channel_address}
use unicens2_driver.Dim.Channel.{dbrcnt_init}
use unicens2_driver.Dim.Memory.{dbr_size, blocks_of, free_dbr}
use unicens2_driver.Dim.Memory.Alloc.{bit, free_bits, restored}
use unicens2_driver.Dim.Memory.Try.{in_run}
use unicens2_driver.Dim.Init.{
  Lld, Result, failed, init_ctrl_async, dim_init_isoc, dim_init_sync, dim_destroy_channel,
  dim_init_control, dim_init_async, trace_tx,
}
use unicens2_driver.Dim.Init.Owner.{
  HasPlace, IsRefused, InitOutcome, ctrl_async_outcome, isoc_outcome, sync_outcome, async_go,
}

-- One of the four initialisations of a channel gave the result. A control or an asynchronous channel
-- asks for at most 7936 bytes.
pub data Inits (g : Lld) (r : Result) : Type 0 where
  control :
      (ch : DimChannel) (is_tx : Bool) (ch_address size : ℕ)
      → 0 < size
      → size ≤ 7936
      → dim_init_control g ch is_tx ch_address size ≡ some r
      → Inits g r
  async :
      (rpc : ℕ) (ch : DimChannel) (is_tx : Bool) (ch_address size : ℕ)
      → 0 < size
      → size ≤ 7936
      → dim_init_async rpc g ch is_tx ch_address size ≡ some r
      → Inits g r
  isoc :
      (ch : DimChannel) (is_tx : Bool) (ch_address packet_length : ℕ)
      → dim_init_isoc g ch is_tx ch_address packet_length ≡ some r
      → Inits g r
  sync :
      (ch : DimChannel) (is_tx : Bool) (ch_address bytes_per_frame : ℕ)
      → dim_init_sync g ch is_tx ch_address bytes_per_frame ≡ some r
      → Inits g r

-- Each initialisation either gives the channel a place in the buffer memory that was free, or returns
-- an error, and then the memory is as before and nothing configures the hardware for the channel.
pub init-place : {g : Lld} {r : Result} → Inits g r → HasPlace g r ⊎ IsRefused g r
unfolding dim_init_control dim_init_async
init-place {g} {r} (control ch is_tx a n h0 h e) =
    subst (InitOutcome g) e (ctrl_async_outcome g ch is_tx a 1 n h0 h)
init-place {g} {r} (async rpc ch is_tx a n h0 h e) = subst (InitOutcome g) e (
    async_go g ch is_tx a rpc (init_ctrl_async g ch 2 is_tx a n)
      (ctrl_async_outcome g ch is_tx a 2 n h0 h))
init-place {g} {r} (isoc ch is_tx a n e) = subst (InitOutcome g) e (isoc_outcome g ch is_tx a n)
init-place {g} {r} (sync ch is_tx a n e) = subst (InitOutcome g) e (sync_outcome g ch is_tx a n)

pub destroyed :
    (g : Lld) (r : Result) (k : ℕ)
    → HasPlace g r
    → g.dim_is_initialized ≡ true
    → let t = dim_destroy_channel r.g r.ch in
      (t.ret ≡ no_error) × (t.ch.dbr_addr ≡ dbr_size) × (bit t.g.dbr_map k ≡ bit g.dbr_map k)
unfolding dim_destroy_channel
destroyed g r k v h =
    let p = v.place in
    let below : ltb r.ch.dbr_addr dbr_size ≡ true = lt→ltb _ _ (omega (arith, p.at, p.below)) in
    let ready : r.g.dim_is_initialized ≡ true = v.ready ∙ h in
    let back : bit (free_dbr r.ch.dbr_addr r.ch.dbr_size r.g.dbr_map) k ≡ bit g.dbr_map k =
      subst (λ a. bit (free_dbr a r.ch.dbr_size r.g.dbr_map) k ≡ bit g.dbr_map k) (sym p.at)
        (free_bits r.ch.dbr_size p.pos k r.g.dbr_map p.below p.fits
          ∙ restored (bit g.dbr_map k) (bit r.g.dbr_map k)
              (in_run p.pos (blocks_of r.ch.dbr_size) k) (p.free k) (p.marked k)) in
    simp (ready, below, dim_destroy_channel) (refl, refl, back)

-- Where one of the four initialisations succeeded, with a size of 1 to 7936 bytes for a control or an
-- asynchronous channel, `dim_destroy_channel` succeeds, every block of the buffer memory is as it was
-- before the two, and the channel has no place any more.
pub init-destroy :
    {g : Lld} {r : Result} (k : ℕ)
    → Inits g r
    → r.ret ≡ no_error
    → g.dim_is_initialized ≡ true
    → let t = dim_destroy_channel r.g r.ch in
      (t.ret ≡ no_error) × (t.ch.dbr_addr ≡ dbr_size) × (bit t.g.dbr_map k ≡ bit g.dbr_map k)
init-destroy {g} {r} k i ok h = elim (init-place i) [
  | inl v ↦ destroyed g r k v h
  | inr v ↦ absurd (v.error ok)
]

-- On a Tx channel that is refused for its address while no channel is traced, `dim_init_async`
-- returns the error, but traces the channel that it was given, and enables its interrupt.
pub async_refused :
    (rpc : ℕ) (g : Lld) (ch : DimChannel) (ch_address size : ℕ)
    → g.dim_is_initialized ≡ true
    → check_channel_address ch_address ≡ false
    → g.atx_dbr.ch_addr ≡ 0
    → (r : Result) × (dim_init_async rpc g ch true ch_address size ≡ some r)
      × (r.ret ≡ channel_address)
      × (r.g.atx_dbr.ch_addr ≡ ch.addr)
      × (r.g.mien ≡ 2 ^ 20)
unfolding dim_init_async init_ctrl_async dbrcnt_init
async_refused rpc g ch a n h0 h1 h2 =
    let t : (g.atx_dbr.ch_addr == 0) ≡ true = ground (arith, h2) in
    (
      trace_tx rpc true (failed channel_address ch g),
      simp (h0, h1, dim_init_async, init_ctrl_async),
      simp (t, trace_tx),
      simp (t, trace_tx),
      simp (t, trace_tx),
    )
