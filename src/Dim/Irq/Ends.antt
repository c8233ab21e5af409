-- ===== src/Dim/Irq/Ends.antt =====
-- The interrupt ends, with every buffer counted that was done when its slot was looked at.
use unicens2_driver.Common.{
  ℕ, zero, suc, ◌+◌, ◌*◌, ◌≡◌, ◌≤◌, ◌<◌, Bool, true, false, ◌==◌, none, some, List, [], ◌∷◌, length,
  if◌then◌else◌, refl, arith, Bool-cases, inl, inr, ◌∙◌,
}
use unicens2_driver.Dim.Types.{DimChannel, u32}
use unicens2_driver.Dim.Channel.{channel_service_interrupt}
use unicens2_driver.Dim.Irq.{
  Slot, free, busy, done, Port, slot_at, is_slot_done, ended, Hardware, progress, service_channel,
  port_interrupt, irq_pass, irq_loop, dim_service_ahb_int_irq,
}

abbrev pub is_used : Slot → ℕ
is_used free = 0
is_used busy = 1
is_used done = 1

-- How many buffers are with the hardware or wait to be counted.
abbrev pub used : Port → ℕ
used p = is_used p.slot0 + is_used p.slot1

abbrev pub all_used : List Port → ℕ
all_used [] = 0
all_used (p ∷ ps) = used p + all_used ps

-- What `request_counter` will be when all of them are counted.
abbrev pub counted : Port → ℕ
counted p = u32 (p.ch.state.request_counter + used p)

abbrev pub AreSlots : List Port → Type 0
AreSlots [] = Unit {0}
AreSlots (p ∷ ps) = (p.ch.state.idx2 < 2) × AreSlots ps

-- No channel has a buffer in its turn that is done.
abbrev pub AreServed : List Port → Type 0
AreServed [] = Unit {0}
AreServed (p ∷ ps) = (is_slot_done (slot_at p.ch.state.idx2 p) ≡ false) × AreServed ps

-- The same channels, with the same counts.
abbrev pub AreCounted : List Port → List Port → Type 0
AreCounted [] [] = Unit {0}
AreCounted [] (q ∷ qs) = ⊥
AreCounted (p ∷ ps) [] = ⊥
AreCounted (p ∷ ps) (q ∷ qs) = (counted q ≡ counted p) × AreCounted ps qs

ended-used : (b : Bool) (x : Slot) → is_used (ended b x) ≡ is_used x
ended-used true free = refl
ended-used true busy = refl
ended-used true done = refl
ended-used false x = refl

progress-used : (bs : Bool × Bool) (p : Port) → used (progress bs p) ≡ used p
progress-used (b0, b1) p = omega (arith, ended-used b0 p.slot0, ended-used b1 p.slot1)

done-used : (x : Slot) → is_slot_done x ≡ true → is_used x ≡ 1
done-used free e = absurd (ground (arith, e))
done-used busy e = absurd (ground (arith, e))
done-used done e = refl

-- What serving a channel does, whether or not its next slot is done.
record IsServed (p : Port) (r : Bool × Port) : Type 0 where
  less : used r.1 + (if r.0 then 1 else 0) ≡ used p
  count : counted r.1 ≡ counted p
  slot : r.1.ch.state.idx2 < 2
  quiet : r.0 ≡ false → is_slot_done (slot_at r.1.ch.state.idx2 r.1) ≡ false

port-IsServed : (p : Port) → p.ch.state.idx2 < 2 → IsServed p (port_interrupt p)
unfolding service_channel channel_service_interrupt
port-IsServed p h = elim (Bool-cases (p.ch.state.idx2 == 0)) [
  | inl z ↦ elim (Bool-cases (is_slot_done p.slot0)) [
    | inr e ↦
        simp (z, e, service_channel, channel_service_interrupt)
          (record { less = omega arith; count = refl; slot = h; quiet = λ k. rw z e })
    | inl e ↦
        let d : is_used p.slot0 ≡ 1 = done-used p.slot0 e in
        simp (z, e, service_channel, channel_service_interrupt)
          (record {
            less = omega (arith, d);
            count = ground (arith, d);
            slot = ground (arith, h);
            quiet = λ k. ground (arith, k);
          })
  ]
  | inr z ↦ elim (Bool-cases (is_slot_done p.slot1)) [
    | inr e ↦
        simp (z, e, service_channel, channel_service_interrupt)
          (record { less = omega arith; count = refl; slot = h; quiet = λ k. rw z e })
    | inl e ↦
        let d : is_used p.slot1 ≡ 1 = done-used p.slot1 e in
        simp (z, e, service_channel, channel_service_interrupt)
          (record {
            less = omega (arith, d);
            count = ground (arith, d);
            slot = ground (arith, h);
            quiet = λ k. ground (arith, k);
          })
  ]
]

-- What a round does to all of them.
record IsPassed (ps : List Port) (r : Bool × List Port) : Type 0 where
  slots : AreSlots r.1
  less : all_used r.1 + (if r.0 then 1 else 0) ≤ all_used ps
  count : AreCounted ps r.1
  quiet : r.0 ≡ false → AreServed r.1

pass-IsPassed :
    (hw : ℕ → Bool × Bool) (n : ℕ) (ps : List Port) → AreSlots ps → IsPassed ps (irq_pass hw n ps)
unfolding irq_pass
pass-IsPassed hw n [] s = record { slots = tt; less = omega arith; count = tt; quiet = λ e. tt }
pass-IsPassed hw n (p ∷ ps) s =
    let u = progress-used (hw n) p in
    let v = port-IsServed (progress (hw n) p) s.0 in
    let w = pass-IsPassed hw (suc n) ps s.1 in
    record {
      slots = (v.slot, w.slots);
      less = ground (arith, u, v.less, w.less);
      count = (rw u at v.count, w.count);
      quiet = λ e. (v.quiet (ground (arith, e)), w.quiet (ground (arith, e)));
    }

AreCounted-trans : (ps qs rs : List Port) → AreCounted ps qs → AreCounted qs rs → AreCounted ps rs
AreCounted-trans [] [] [] h k = tt
AreCounted-trans [] [] (r ∷ rs) h k = k
AreCounted-trans [] (q ∷ qs) rs h k = absurd h
AreCounted-trans (p ∷ ps) [] rs h k = absurd h
AreCounted-trans (p ∷ ps) (q ∷ qs) [] h k = k
AreCounted-trans (p ∷ ps) (q ∷ qs) (r ∷ rs) h k = (k.0 ∙ h.0, AreCounted-trans ps qs rs h.1 k.1)

loop_lem :
    (hw : Hardware) (f : ℕ) (ps : List Port)
    → all_used ps < f
    → AreSlots ps
    → (qs : List Port) × (irq_loop hw f ps ≡ some qs) × AreServed qs × AreCounted ps qs
unfolding irq_loop
loop_lem hw zero ps l s = absurd (omega (arith, l))
loop_lem hw (suc f) ps l s =
    let v = pass-IsPassed (hw f) 0 ps s in
    let qs = (irq_pass (hw f) 0 ps).1 in
    elim (Bool-cases (irq_pass (hw f) 0 ps).0) [
      | inr e ↦ (qs, rw (e, irq_loop) refl, v.quiet e, v.count)
      | inl e ↦
          let less : all_used qs + 1 ≤ all_used ps = rw e at v.less in
          let (rs, run, served, count) = loop_lem hw f qs (omega (arith, less, l)) v.slots in
          (rs, rw (e, irq_loop) run, served, AreCounted-trans ps qs rs v.count count)
    ]

used_le : (x : Slot) → is_used x ≤ 1
used_le free = omega arith
used_le busy = omega arith
used_le done = omega arith

all_used_le : (ps : List Port) → all_used ps ≤ 2 * length ps
all_used_le [] = omega arith
all_used_le (p ∷ ps) = omega (arith, used_le p.slot0, used_le p.slot1, all_used_le ps)

-- However many channels there are, and whichever transfers the hardware ends while the interrupt runs: it
-- ends within one round more than twice the number of channels; then no channel has a buffer in its turn
-- that was done when it was last looked at, and `request_counter` of each has grown by the number of
-- buffers that left its slots.
pub irq_returns :
    (hw : Hardware) (ps : List Port)
    → AreSlots ps
    → (qs : List Port) × (dim_service_ahb_int_irq hw true (some ps) ≡ some (some qs))
      × AreServed qs
      × AreCounted ps qs
unfolding dim_service_ahb_int_irq
irq_returns hw ps s =
    let (qs, run, served, count) =
      loop_lem hw (2 * length ps + 1) ps (omega (arith, all_used_le ps)) s in
    (qs, rw (run, dim_service_ahb_int_irq) refl, served, count)

-- A single channel with both slots done takes more than two rounds, whatever the hardware does.
pub one_channel :
    (hw : Hardware) (ch : DimChannel)
    → ch.state.idx2 < 2
    → irq_loop hw 2 (record { ch = ch; slot0 = done; slot1 = done } ∷ []) ≡ none
unfolding irq_loop irq_pass service_channel channel_service_interrupt
one_channel hw ch h = elim (Bool-cases (ch.state.idx2 == 0)) [
  | inl e ↦ ground (arith, e, h)
  | inr e ↦ ground (arith, e, h)
]
