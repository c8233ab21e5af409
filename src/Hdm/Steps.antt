-- ===== src/Hdm/Steps.antt =====
-- The calls on a channel of hdm-dim2/dim2_hdm.c in any order: those of the core, the interrupt and the
-- parts of the tasklet, which only looks at channels that are initialised.
use unicens2_driver.Common.{
  ℕ, ◌≡◌, ◌<◌, refl, sym, ap, ◌∙◌, arith, ◌+◌, ◌*◌, Bool, true, false, Option, none, some, List, [],
  ◌∷◌, ◌++◌, ◌==◌, if◌then◌else◌, inl, inr, Bool-cases,
}
use mathlib.Core.Path.{subst}
use unicens2_driver.Common.Int.{ℤ, pos, ◌==ℤ◌}
use unicens2_driver.Core.Types.{Config, eperm}
use unicens2_driver.Dim.Channel.{channel_service_interrupt}
use unicens2_driver.Dim.Init.{Lld, Result, dim_destroy_channel}
use unicens2_driver.Hdm.{
  HdmMbo, HdmChannel, try_start_dim_transfer, service_done_flag, service_hal, enqueue,
  poison_channel, complete_all_mbos,
}
use unicens2_driver.Hdm.Configure.{
  Configured, has_type, new_size, init_hal, finish_configure, finished, configure_channel,
}
use unicens2_driver.Hdm.Configure.Fresh.{FreshIf, AllFresh, hal-AllFresh}
use unicens2_driver.Hdm.Counts.{
  IsInStep, StaysInStep, try_start-StaysInStep, enqueue-StaysInStep, done-IsInStep, hal-IsInStep,
  InStepIf, IsDriven, complete_all_lem,
}
use unicens2_driver.Hdm.Kept.{KeepsInit, try_start-KeepsInit, enqueue-KeepsInit, done_init}

-- A buffer is taken over if `enqueue` returns 0.
abbrev pub accepted : ℤ → HdmMbo → List HdmMbo
accepted ret m = if ret ==ℤ pos 0 then m ∷ [] else []

-- The interrupt finds the slot that is next done, or not.
abbrev pub service_interrupt : Bool → HdmChannel → HdmChannel
service_interrupt done h = record h { ch = (channel_service_interrupt done h.ch).1 }

-- One call, with the buffers that it takes over.
pub data Step (h : HdmChannel) : HdmChannel → List HdmMbo → Type 0 where
  trying :
      (fcnt rpc : ℕ) (ret : ℤ) (g : HdmChannel)
      → h.is_initialized ≡ true
      → try_start_dim_transfer fcnt rpc h ≡ some (ret, g)
      → Step h g []
  enqueueing :
      (fcnt rpc : ℕ) (m : HdmMbo) (ret : ℤ) (g : HdmChannel)
      → enqueue fcnt rpc m h ≡ some (ret, g)
      → Step h g (accepted ret m)
  interrupting : (done : Bool) → Step h (service_interrupt done h) []
  -- The tasklet takes the buffers before 65535 of them are done.
  servicing :
      h.is_initialized ≡ true → h.ch.done_sw_buffers_number < 65535 → Step h (service_hal h) []
  finishing : h.is_initialized ≡ true → Step h (service_done_flag h) []
  poisoning : (g : Lld) → Step h (poison_channel g h).2 []
  configuring :
      (rpc ch_idx : ℕ) (cfg : Config) (atx_idx : Option ℕ) (g : Lld) (r : Configured)
      → configure_channel rpc g h ch_idx cfg atx_idx ≡ some r
      → Step h r.channel []

pub data Reach (h : HdmChannel) : HdmChannel → List HdmMbo → Type 0 where
  here : Reach h h []
  next :
      {f g : HdmChannel} {ms ns : List HdmMbo} → Reach h f ms → Step f g ns → Reach h g (ms ++ ns)

interrupt-IsDriven :
    (done : Bool) (h : HdmChannel) → IsDriven h → IsDriven (service_interrupt done h)
unfolding channel_service_interrupt
interrupt-IsDriven done h v = go h.is_initialized v
  where
    go : (b : Bool) → InStepIf b h → InStepIf b (service_interrupt done h)
    go true w = ground (arith, w.room, w.lists, w.sound)
    go false w = w

poison-IsDriven : (g : Lld) (h : HdmChannel) → IsDriven h → IsDriven (poison_channel g h).2
unfolding poison_channel
poison-IsDriven g h v = elim (Bool-cases h.is_initialized) [
  | inr e ↦ simp (e, poison_channel) (subst (λ b. InStepIf b h) e v)
  | inl e ↦
      let w = subst (λ b. InStepIf b h) e v in
      let r = dim_destroy_channel (record g { atx_dbr = h.atx_dbr }) h.ch in
      let k = record h {
        is_initialized = false;
        ch = r.ch;
        atx_dbr = r.g.atx_dbr;
        started_list = [];
        pending_list = [];
      } in
      let (x, y, z) = complete_all_lem h.started_list k in
      let (a, b, c) = complete_all_lem h.pending_list (complete_all_mbos h.started_list k) in
      simp (e, poison_channel)
        (subst
          (λ b. InStepIf b (complete_all_mbos h.pending_list (complete_all_mbos h.started_list k)))
          (sym (c ∙ z)) (a ∙ x, b ∙ y ∙ w.sound))
]

-- What a configuration gives is driven.
abbrev Drives : Option Configured → Type 0
Drives none = Unit {0}
Drives (some c) = IsDriven c.channel

finish-Drives :
    (ch_idx : ℕ) (cfg : Config) (atx_idx : Option ℕ) (h : HdmChannel) (r : Result)
    → h.is_initialized ≡ false
    → InStepIf false h
    → FreshIf r.ret r.ch
    → IsDriven (finish_configure ch_idx cfg atx_idx h r).channel
unfolding finish_configure
finish-Drives ch_idx cfg atx_idx h r e (s, v) f = ground (arith, e, s, v, f)

finished-Drives :
    (ch_idx : ℕ) (cfg : Config) (atx_idx : Option ℕ) (h : HdmChannel) (o : Option Result)
    → h.is_initialized ≡ false
    → InStepIf false h
    → AllFresh o
    → Drives (finished ch_idx cfg atx_idx h o)
finished-Drives ch_idx cfg atx_idx h none e v f = tt
finished-Drives ch_idx cfg atx_idx h (some r) e v f = finish-Drives ch_idx cfg atx_idx h r e v f

configure-Drives :
    (rpc : ℕ) (g : Lld) (h : HdmChannel) (ch_idx : ℕ) (cfg : Config) (atx_idx : Option ℕ)
    → IsDriven h
    → Drives (configure_channel rpc g h ch_idx cfg atx_idx)
unfolding configure_channel
configure-Drives rpc g h ch_idx cfg atx_idx v =
    let size = new_size g.fcnt cfg in
    elim (Bool-cases h.is_initialized) [
      | inl a ↦ simp (a, configure_channel) (subst (λ b. InStepIf b h) a v)
      | inr a ↦
          let w = subst (λ b. InStepIf b h) a v in
          elim (Bool-cases (has_type cfg.data_type)) [
            | inr b ↦ simp (a, b, configure_channel) w
            | inl b ↦ elim (Bool-cases (size == 0)) [
              | inl c ↦ simp (a, b, c, configure_channel) w
              | inr c ↦
                  simp (a, b, c, configure_channel)
                    (finished-Drives ch_idx (record cfg { buffer_size = size }) atx_idx h
                      (init_hal rpc g h.ch (ch_idx * 2 + 2) cfg size) a w
                      (hal-AllFresh rpc g h.ch (ch_idx * 2 + 2) cfg size))
            ]
          ]
    ]

-- A channel that is initialised and in step is driven.
driven : (g : HdmChannel) → g.is_initialized ≡ true → IsInStep g → IsDriven g
driven g i v = subst (λ b. InStepIf b g) (sym i) v

-- A call on a channel that is initialised gives one that is, and in step.
answered :
    (o : Option (ℤ × HdmChannel)) (ret : ℤ) (g : HdmChannel)
    → o ≡ some (ret, g)
    → StaysInStep o
    → KeepsInit true o
    → IsDriven g
answered o ret g e v k = driven g (subst (KeepsInit true) e k) (subst StaysInStep e v)

try-IsDriven :
    (fcnt rpc : ℕ) (ret : ℤ) (h g : HdmChannel)
    → h.is_initialized ≡ true
    → try_start_dim_transfer fcnt rpc h ≡ some (ret, g)
    → IsDriven h
    → IsDriven g
try-IsDriven fcnt rpc ret h g i e v =
    answered (try_start_dim_transfer fcnt rpc h) ret g e
      (try_start-StaysInStep fcnt rpc h (subst (λ b. InStepIf b h) i v))
      (subst (λ b. KeepsInit b (try_start_dim_transfer fcnt rpc h)) i
        (try_start-KeepsInit fcnt rpc h))

enqueue-IsDriven :
    (fcnt rpc : ℕ) (m : HdmMbo) (ret : ℤ) (h g : HdmChannel)
    → enqueue fcnt rpc m h ≡ some (ret, g)
    → IsDriven h
    → IsDriven g
unfolding enqueue
enqueue-IsDriven fcnt rpc m ret h g e v = elim (Bool-cases h.is_initialized) [
  | inl i ↦
      answered (enqueue fcnt rpc m h) ret g e
        (enqueue-StaysInStep fcnt rpc m h (subst (λ b. InStepIf b h) i v))
        (enqueue-KeepsInit fcnt rpc m h i)
  | inr i ↦
      let q : enqueue fcnt rpc m h ≡ some (eperm, h) = simp (i, enqueue) refl in
      subst IsDriven (ap (λ o. elim o [ none ↦ h | some r ↦ r.1 ]) (sym q ∙ e)) v
]

step-IsDriven : {h g : HdmChannel} {ns : List HdmMbo} → Step h g ns → IsDriven h → IsDriven g
unfolding service_hal
step-IsDriven {h} (trying fcnt rpc ret g i e) v = try-IsDriven fcnt rpc ret h g i e v
step-IsDriven {h} (enqueueing fcnt rpc m ret g e) v = enqueue-IsDriven fcnt rpc m ret h g e v
step-IsDriven {h} (servicing i few) v =
    driven (service_hal h) i (hal-IsInStep h few (subst (λ b. InStepIf b h) i v))
step-IsDriven {h} (finishing i) v =
    driven (service_done_flag h) (done_init h ∙ i) (done-IsInStep h (subst (λ b. InStepIf b h) i v))
step-IsDriven {h} (interrupting done) v = interrupt-IsDriven done h v
step-IsDriven {h} (poisoning g) v = poison-IsDriven g h v
step-IsDriven {h} (configuring rpc ch_idx cfg atx_idx g r e) v =
    subst Drives e (configure-Drives rpc g h ch_idx cfg atx_idx v)

Reach-IsDriven : {h g : HdmChannel} {ms : List HdmMbo} → IsDriven h → Reach h g ms → IsDriven g
Reach-IsDriven v here = v
Reach-IsDriven v (next r st) = step-IsDriven st (Reach-IsDriven v r)

no_error_met : (b : Bool) (h : HdmChannel) → InStepIf b h → h.hard_error ≡ false
no_error_met true h v = v.sound
no_error_met false h v = v.1

-- Over configurations, poisonings, buffers, interrupts and the parts of the tasklet in any order, where the
-- tasklet finds fewer than 65535 buffers done: on a channel that is initialised, `started_list` has as
-- many buffers as the hardware has (two at most) and has completed together; on another it is empty;
-- and the "hard error" is never met.
pub IsInStep-Reach :
    {h g : HdmChannel} {ms : List HdmMbo}
    → IsDriven h
    → Reach h g ms
    → IsDriven g × (g.hard_error ≡ false)
IsInStep-Reach {g = g} v r = let w = Reach-IsDriven v r in (w, no_error_met g.is_initialized g w)
