-- ===== src/Usb/Steps/Held.antt =====
-- hdm-usb/hdm_usb.c: over any order of the calls for a channel, where each buffer is.
use unicens2_driver.Common.{
  ℕ, ◌+◌, ◌≡◌, refl, arith, Bool, false, ◌&&◌, not, List, [], ◌∷◌, ◌++◌, ◌==◌, leb, if◌then◌else◌,
  inl, inr, Bool-cases,
}
use mathlib.Core.Path.{subst}
use unicens2_driver.Common.Int.{ℤ, pos, ◌==ℤ◌}
use unicens2_driver.Core.Types.{ch_async}
use unicens2_driver.Usb.{UsbMbo, UsbChannel}
use unicens2_driver.Usb.Configure.{MostDev, put}
use unicens2_driver.Usb.Padding.{hdm_add_padding}
use unicens2_driver.Usb.Transfer.{
  Report, kill_urbs, submit_urb, enqueue_urb, hdm_enqueue, hdm_poison_channel, wq_clear_halt, is_tx,
  fill_urb,
}
use unicens2_driver.Usb.Steps.{
  one_if, copies, copies-append, carried-append, spots, Covers, Step, enqueued, refused, completing,
  poisoning, clearing, Reach, here, next, completion-Settled, kill_urbs-spots,
}

fill_urb-mbo : (m : UsbMbo) (h : UsbChannel) → (fill_urb m h).mbo ≡ m
fill_urb-mbo m h = elim (Bool-cases (is_tx h.conf)) [ inl e ↦ rw e refl | inr e ↦ rw e refl ]

-- What `hdm_enqueue` adds to channel `h`: the buffer, when it returns 0.
abbrev Takes : ℕ → UsbChannel → ℤ × UsbMbo × UsbChannel → Type 0
Takes i h r = spots i r.2 ≡ spots i h + (if r.0 ==ℤ pos 0 then one_if i r.1 else 0)

submit_urb-Takes : (i : ℕ) (s : ℤ) (m : UsbMbo) (h : UsbChannel) → Takes i h (submit_urb s m h)
unfolding submit_urb
submit_urb-Takes i s m h = elim (Bool-cases (s ==ℤ pos 0)) [
  | inl e ↦
      simp
        (e, Takes, submit_urb, carried-append i h.busy_urbs (fill_urb m h ∷ []), fill_urb-mbo m h)
        (omega arith)
  | inr e ↦ simp (e, Takes, submit_urb) (omega arith)
]

enqueue_urb-Takes : (i : ℕ) (s : ℤ) (m : UsbMbo) (h : UsbChannel) → Takes i h (enqueue_urb s m h)
unfolding enqueue_urb
enqueue_urb-Takes i s m h =
    let (ret, k) = hdm_add_padding h.conf m in
    elim (Bool-cases (is_tx h.conf && h.is_padding_active)) [
      | inr e ↦ simp (e, enqueue_urb) (submit_urb-Takes i s m h)
      | inl e ↦ elim (Bool-cases (not (ret ==ℤ pos 0))) [
        | inl f ↦ simp (e, f, Takes, enqueue_urb) (omega arith)
        | inr f ↦ simp (e, f, enqueue_urb) (submit_urb-Takes i s k h)
      ]
    ]

abbrev TakesOn : ℕ → ℕ → MostDev → ℤ × UsbMbo × MostDev → Type 0
TakesOn i c d r = Takes i (d.channels c) (r.0, r.1, r.2.channels c)

put_self : (c : ℕ) (h : UsbChannel) (d : MostDev) → (put c h d).channels c ≡ h
put_self c h d = ground arith

enqueue-TakesOn :
    (i c : ℕ) (a : Bool) (s : ℤ) (m : UsbMbo) (d : MostDev)
    → TakesOn i c d (hdm_enqueue a s (pos c) m d)
unfolding hdm_enqueue
enqueue-TakesOn i c a s m d =
    let (ret, k, h) = enqueue_urb s m (d.channels c) in
    elim (Bool-cases (leb d.num_channels c)) [
      | inl e ↦ simp (e, TakesOn, Takes, hdm_enqueue) (omega arith)
      | inr e ↦ elim (Bool-cases (not d.has_usb_device)) [
        | inl f ↦ simp (e, f, TakesOn, Takes, hdm_enqueue) (omega arith)
        | inr f ↦ elim (Bool-cases (not a)) [
          | inl g ↦ simp (e, f, g, TakesOn, Takes, hdm_enqueue) (omega arith)
          | inr g ↦
              simp (e, f, g, TakesOn, hdm_enqueue, put_self)
                (enqueue_urb-Takes i s m (d.channels c))
        ]
      ]
    ]

refused_none : (r : ℤ) (n : ℕ) → (r ==ℤ pos 0) ≡ false → (if r ==ℤ pos 0 then n else 0) ≡ 0
refused_none r n e = rw e refl

poison_one :
    (i c : ℕ) (rs : List Report) (d : MostDev)
    → Covers rs (d.channels c).busy_urbs
    → spots i ((hdm_poison_channel rs (pos c) d).1.channels c) ≡ spots i (d.channels c)
unfolding hdm_poison_channel
poison_one i c rs d v =
    let h = record (d.channels c) { is_channel_healthy = false; has_clear_work = false } in
    let (x, y) = kill_urbs-spots i rs h in
    let z : spots i (kill_urbs rs h) ≡ spots i (d.channels c) = rw x (omega (arith, y, v i)) in
    elim (Bool-cases (leb d.num_channels c)) [
      | inl e ↦ simp (e, hdm_poison_channel) refl
      | inr e ↦ elim (Bool-cases ((kill_urbs rs h).conf.data_type == ch_async)) [
        | inl f ↦ simp (e, f, hdm_poison_channel, put_self) z
        | inr f ↦ simp (e, f, hdm_poison_channel, put_self) z
      ]
    ]

clear_one :
    (i c : ℕ) (rs : List Report) (d : MostDev)
    → Covers rs (d.channels c).busy_urbs
    → spots i ((wq_clear_halt rs c d).channels c) ≡ spots i (d.channels c)
unfolding wq_clear_halt
clear_one i c rs d v =
    let h = record (d.channels c) { has_clear_work = false } in
    let (x, y) = kill_urbs-spots i rs h in simp (wq_clear_halt, put_self, x) (omega (arith, y, v i))

held-Step :
    {c : ℕ} {d e : MostDev} {ns : List UsbMbo} (i : ℕ)
    → Step c d e ns
    → spots i (e.channels c) ≡ spots i (d.channels c) + copies i ns
held-Step {c = c} {d = d} {e = e} i (enqueued a s m k q) =
    let v : TakesOn i c d (pos 0, k, e) = subst (TakesOn i c d) q (enqueue-TakesOn i c a s m d) in
    omega (arith, v)
held-Step {c = c} {d = d} {e = e} i (refused a s r m k f q) =
    let v : TakesOn i c d (r, k, e) = subst (TakesOn i c d) q (enqueue-TakesOn i c a s m d) in
    omega (arith, v, refused_none r (one_if i k) f)
held-Step {c = c} {d = d} i (completing r us vs q) =
    let h = record (d.channels c) { busy_urbs = us ++ vs } in
    let (b, n) = completion-Settled r h in
    simp (put_self, b, q, carried-append i us vs, carried-append i us (r.urb ∷ vs))
      (omega (arith, n i))
held-Step {c = c} {d = d} i (poisoning rs v) = omega (arith, poison_one i c rs d v)
held-Step {c = c} {d = d} i (clearing rs v) = omega (arith, clear_one i c rs d v)

-- In every order of `hdm_enqueue`, completions, `hdm_poison_channel` and `wq_clear_halt` for a channel,
-- a buffer for which `hdm_enqueue` returned 0 is with the USB core or was completed, once for each
-- time, whatever the USB core reports.
pub held-Reach :
    {c : ℕ} {d e : MostDev} {ms : List UsbMbo} (i : ℕ)
    → Reach c d e ms
    → spots i (e.channels c) ≡ spots i (d.channels c) + copies i ms
held-Reach i here = omega arith
held-Reach i (next {ms = ms} {ns = ns} r st) =
    omega (arith, held-Reach i r, held-Step i st, copies-append i ms ns)
