-- ===== src/Cdev/Life.antt =====
-- aim-cdev/cdev.c, the life of one channel: `aim_open`, `aim_close`, `aim_disconnect_channel` and `aim_rx_completion`.
pub mod Calls
use unicens2_driver.Common.{
  ℕ, suc, ◌≡◌, refl, ap, Bool, true, false, not, ◌&&◌, ◌||◌, ◌==◌, [], inl, inr, Bool-cases,
}
use mathlib.Core.Path.{subst}
use unicens2_driver.Common.Int.{ℤ, pos, ◌==ℤ◌}
use unicens2_driver.Core.Types.{ch_rx, ch_tx}
use unicens2_driver.Cdev.{
  CdevMbo, CdevChannel, aim_open, aim_close, aim_disconnect_channel, aim_rx_completion,
}

-- What is true of a channel whose `dev` is set (the first argument) and that is open (the second):
-- it is destroyed once both have ended, and keeps buffers only while both last.
abbrev pub Life : Bool → Bool → CdevChannel → Type 0
Life true true c = c.destroyed ≡ 0
Life true false c = (c.destroyed ≡ 0) × (c.fifo ≡ [])
Life false true c = (c.destroyed ≡ 0) × (c.fifo ≡ [])
Life false false c = (c.destroyed ≡ 1) × (c.fifo ≡ [])

abbrev pub IsLive : CdevChannel → Type 0
IsLive c = Life c.has_dev c.access_ref c

pub open-IsLive :
    (accmode : ℕ) (started : ℤ) (c : CdevChannel) → IsLive c → IsLive (aim_open accmode started c).1
unfolding aim_open
open-IsLive accmode started c h =
    elim (Bool-cases (
      (c.cfg.direction == ch_rx) && not (accmode == 0)
      || (c.cfg.direction == ch_tx) && not (accmode == 1))) [
        | inl x ↦ simp (x, aim_open) h
        | inr x ↦ elim (Bool-cases c.has_dev) [
          | inr d ↦ simp (x, d, aim_open) (subst (λ b. Life b c.access_ref c) d h)
          | inl d ↦ elim (Bool-cases c.access_ref) [
            | inl a ↦
                simp (x, d, a, aim_open)
                  (subst (λ b. Life true b c) a (subst (λ b. Life b c.access_ref c) d h))
            | inr a ↦
                let (z, f) : Life true false c = rw a at (rw d at h) in
                elim (Bool-cases (started ==ℤ pos 0)) [
                  | inl s ↦ simp (x, d, a, s, aim_open) z
                  | inr s ↦ simp (x, d, a, s, aim_open) (z, f)
                ]
          ]
        ]
      ]

pub close-IsLive : (c : CdevChannel) → c.access_ref ≡ true → IsLive c → IsLive (aim_close c).1
unfolding aim_close
close-IsLive c a h = elim (Bool-cases c.has_dev) [
  | inl d ↦ let z : Life true true c = rw a at (rw d at h) in simp (d, aim_close) (z, refl)
  | inr d ↦
      let (z, f) : Life false true c = rw a at (rw d at h) in simp (d, aim_close) (ap suc z, f)
]

pub disconnect-IsLive :
    (c : CdevChannel) → c.has_dev ≡ true → IsLive c → IsLive (aim_disconnect_channel c).1
unfolding aim_disconnect_channel
disconnect-IsLive c d h = elim (Bool-cases c.access_ref) [
  | inl a ↦
      let z : Life true true c = rw a at (rw d at h) in simp (a, aim_disconnect_channel) (z, refl)
  | inr a ↦
      let (z, f) : Life true false c = rw a at (rw d at h) in
      simp (a, aim_disconnect_channel) (ap suc z, f)
]

pub receive-IsLive : (m : CdevMbo) (c : CdevChannel) → IsLive c → IsLive (aim_rx_completion m c).1
unfolding aim_rx_completion
receive-IsLive m c h = elim (Bool-cases c.access_ref) [
  | inr a ↦ simp (a, aim_rx_completion) (subst (λ b. Life c.has_dev b c) a h)
  | inl a ↦ elim (Bool-cases c.has_dev) [
    | inr d ↦
        simp (a, d, aim_rx_completion)
          (subst (λ b. Life b true c) d (subst (λ b. Life c.has_dev b c) a h))
    | inl d ↦ let z : Life true true c = rw a at (rw d at h) in simp (a, d, aim_rx_completion) z
  ]
]
