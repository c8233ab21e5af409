-- ===== src/Usb/Steps.antt =====
-- hdm-usb/hdm_usb.c, the calls for one channel of a device in any order, and where a buffer is.
pub mod Held
use unicens2_driver.Common.{
  ℕ, ◌+◌, ◌%◌, ◌^◌, ◌≤◌, ◌≡◌, refl, ◌∙◌, ap, arith, Bool, true, false, ◌||◌, ◌&&◌, not, List, [],
  ◌∷◌, ◌++◌, ◌==◌, leb, if◌then◌else◌, inl, inr, Bool-cases,
}
use mathlib.Core.Path.{subst}
use unicens2_driver.Common.Int.{ℤ, pos, negsuc, ◌==ℤ◌}
use unicens2_driver.Core.Types.{Status, success, inval, close, enodev, Config, ch_async}
use unicens2_driver.Usb.{Urb, UsbMbo, UsbChannel, epipe, eproto, eshutdown, get_stream_frame_size}
use unicens2_driver.Usb.Configure.{MostDev, put}
use unicens2_driver.Usb.Padding.{hdm_add_padding, hdm_remove_padding}
use unicens2_driver.Usb.Transfer.{
  Report, hand_over, settle, received, hdm_write_completion, hdm_read_completion, urb_completion,
  kill_urbs, submit_urb, enqueue_urb, hdm_enqueue, hdm_poison_channel, wq_clear_halt, is_tx,
  fill_urb,
}

abbrev pub one_if : ℕ → UsbMbo → ℕ
one_if i m = if m.id == i then 1 else 0

abbrev pub copies : ℕ → List UsbMbo → ℕ
copies i [] = 0
copies i (m ∷ ms) = one_if i m + copies i ms

abbrev pub carried : ℕ → List Urb → ℕ
carried i [] = 0
carried i (u ∷ us) = one_if i u.mbo + carried i us

abbrev pub reported : ℕ → List Report → ℕ
reported i [] = 0
reported i (r ∷ rs) = one_if i r.urb.mbo + reported i rs

copies-append : (i : ℕ) (xs ys : List UsbMbo) → copies i (xs ++ ys) ≡ copies i xs + copies i ys
copies-append i [] ys = omega arith
copies-append i (x ∷ xs) ys = omega (arith, copies-append i xs ys)

pub carried-append : (i : ℕ) (xs ys : List Urb) → carried i (xs ++ ys) ≡ carried i xs + carried i ys
carried-append i [] ys = omega arith
carried-append i (x ∷ xs) ys = omega (arith, carried-append i xs ys)

-- How often buffer `i` is with the USB core or was completed.
abbrev pub spots : ℕ → UsbChannel → ℕ
spots i h = carried i h.busy_urbs + copies i h.completed

-- The reports are of the URBs in the list, in any order.
abbrev pub Covers : List Report → List Urb → Type 0
Covers rs us = (i : ℕ) → reported i rs ≡ carried i us

-- One call for channel `c`, and the buffers that it takes over.
pub data Step (c : ℕ) : MostDev → MostDev → List UsbMbo → Type 0 where
  enqueued :
      {d e : MostDev} (allocated : Bool) (submitted : ℤ) (m k : UsbMbo)
      → hdm_enqueue allocated submitted (pos c) m d ≡ (pos 0, k, e)
      → Step c d e (k ∷ [])
  refused :
      {d e : MostDev} (allocated : Bool) (submitted ret : ℤ) (m k : UsbMbo)
      → (ret ==ℤ pos 0) ≡ false
      → hdm_enqueue allocated submitted (pos c) m d ≡ (ret, k, e)
      → Step c d e []
  completing :
      {d : MostDev} (r : Report) (us vs : List Urb)
      → (d.channels c).busy_urbs ≡ us ++ r.urb ∷ vs
      → Step c d (put c (urb_completion r (record (d.channels c) { busy_urbs = us ++ vs })) d) []
  poisoning :
      {d : MostDev} (reports : List Report)
      → Covers reports (d.channels c).busy_urbs
      → Step c d (hdm_poison_channel reports (pos c) d).1 []
  clearing :
      {d : MostDev} (reports : List Report)
      → Covers reports (d.channels c).busy_urbs
      → Step c d (wq_clear_halt reports c d) []

pub data Reach (c : ℕ) : MostDev → MostDev → List UsbMbo → Type 0 where
  here : {d : MostDev} → Reach c d d []
  next :
      {d e f : MostDev} {ms ns : List UsbMbo}
      → Reach c d e ms
      → Step c e f ns
      → Reach c d f (ms ++ ns)

-- The channel after a report: nothing new is with the USB core, and the report's buffer was completed.
abbrev Settled : Report → UsbChannel → UsbChannel → Type 0
Settled r h g =
    (g.busy_urbs ≡ h.busy_urbs)
    × ((i : ℕ) → copies i g.completed ≡ copies i h.completed + one_if i r.urb.mbo)

hand_over-Settled :
    (r : Report) (m : UsbMbo) (h g : UsbChannel)
    → m.id ≡ r.urb.mbo.id
    → g.busy_urbs ≡ h.busy_urbs
    → g.completed ≡ h.completed
    → Settled r h (hand_over m g)
hand_over-Settled r m h g e b c =
    (b, λ i. rw (copies-append i g.completed (m ∷ []), c, e) (omega arith))

settle-Settled :
    (a m : UsbMbo) (r : Report) (h : UsbChannel)
    → a.id ≡ r.urb.mbo.id
    → m.id ≡ r.urb.mbo.id
    → Settled r h (settle a r m h)
unfolding settle
settle-Settled a m r h x y = elim (Bool-cases ((r.status ==ℤ pos 0) || (r.status ==ℤ eshutdown))) [
  | inl e ↦ simp (e, settle) (hand_over-Settled r a h h x refl refl)
  | inr e ↦ elim (Bool-cases (r.status ==ℤ epipe)) [
    | inl f ↦
        simp (e, f, settle)
          (hand_over-Settled r m h (record h { is_channel_healthy = false; has_clear_work = true })
            y refl refl)
    | inr f ↦ elim (Bool-cases ((r.status ==ℤ enodev) || (r.status ==ℤ eproto))) [
      | inl g ↦
          simp (e, f, g, settle) (hand_over-Settled r (record m { status = close }) h h y refl refl)
      | inr g ↦ simp (e, f, g, settle) (hand_over-Settled r m h h y refl refl)
    ]
  ]
]

remove_padding-id : (conf : Config) (m : UsbMbo) → (hdm_remove_padding conf m).1.id ≡ m.id
unfolding hdm_remove_padding
remove_padding-id conf m = elim (Bool-cases (get_stream_frame_size conf == 0)) [
  | inl e ↦ rw (e, hdm_remove_padding) refl
  | inr e ↦ rw (e, hdm_remove_padding) refl
]

received-id : (r : Report) (m : UsbMbo) (h : UsbChannel) → (received r m h).id ≡ m.id
unfolding received
received-id r m h =
    let n = record m { processed_length = r.actual_length % 2 ^ 16; status = success } in
    let (ret, k) = hdm_remove_padding h.conf n in
    let a : k.id ≡ m.id = remove_padding-id h.conf n in
    elim (Bool-cases h.is_padding_active) [
      | inl e ↦ elim (Bool-cases (not (ret ==ℤ pos 0))) [
        | inl f ↦ simp (e, f, received) a
        | inr f ↦ simp (e, f, received) a
      ]
      | inr e ↦ simp (e, received) refl
    ]

pub completion-Settled : (r : Report) (h : UsbChannel) → Settled r h (urb_completion r h)
unfolding hdm_write_completion hdm_read_completion
completion-Settled r h =
    let m = record r.urb.mbo { processed_length = 0; status = inval } in
    let a = record m { processed_length = r.actual_length % 2 ^ 16; status = success } in
    elim (Bool-cases r.urb.is_out) [
      | inl e ↦ elim (Bool-cases h.is_channel_healthy) [
        | inl f ↦ simp (e, f, hdm_write_completion) (settle-Settled a m r h refl refl)
        | inr f ↦ simp (e, f, hdm_write_completion) (hand_over-Settled r m h h refl refl refl)
      ]
      | inr e ↦ elim (Bool-cases h.is_channel_healthy) [
        | inl f ↦
            simp (e, f, hdm_read_completion)
              (settle-Settled (received r m h) m r h (received-id r m h) refl)
        | inr f ↦ simp (e, f, hdm_read_completion) (hand_over-Settled r m h h refl refl refl)
      ]
    ]

pub kill_urbs-spots :
    (i : ℕ) (rs : List Report) (h : UsbChannel)
    → ((kill_urbs rs h).busy_urbs ≡ [])
      × (copies i (kill_urbs rs h).completed ≡ copies i h.completed + reported i rs)
unfolding kill_urbs
kill_urbs-spots i [] h = (refl, omega arith)
kill_urbs-spots i (r ∷ rs) h =
    let (b, c) = completion-Settled r h in
    let (x, y) = kill_urbs-spots i rs (urb_completion r h) in (x, omega (arith, y, c i))
