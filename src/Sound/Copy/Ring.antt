-- ===== src/Sound/Copy/Ring.antt =====
-- aim-sound/sound.c, `copy_data`: the ring buffer of ALSA as the sequence of its frames.
use unicens2_driver.Common.{
  ℕ, ◌+◌, ◌-◌, ◌*◌, ◌^◌, ◌≤◌, ◌<◌, ◌≡◌, ◌∙◌, ap, arith, ltb, inl, inr, Bool-cases, if◌then◌else◌,
}
use native.Mathlib.Nat.{mod-eq_of_lt}
use unicens2_driver.Common.Memory.{ByteMemory}
use unicens2_driver.Common.Rows.{frames_apart}
use unicens2_driver.Sound.Copy.{u32, minus32}
use unicens2_driver.Sound.Copy.Chunks.{Frames}

-- The frame of the ring buffer, `n` frames long, that stands `i` frames after the frame `p`.
abbrev pub slot : ℕ → ℕ → ℕ → ℕ
slot n p i = if ltb (p + i) n then p + i else p + i - n

pub frames_le : (s : ℕ) {j k : ℕ} → j ≤ k → j * s ≤ k * s
frames_le s {j = j} {k = k} h = elim (Bool-cases (ltb j k)) [
  | inl e ↦ omega (arith, frames_apart s {j = j} {k = k} (ground arith))
  | inr e ↦ let d : j ≡ k = ground arith in rw d (omega arith)
]

pub u32_frames : (s j n : ℕ) → j ≤ n → n * s < 2 ^ 32 → u32 (j * s) ≡ j * s
u32_frames s j n h l = mod-eq_of_lt (omega (arith, frames_le s {j = j} {k = n} h, l))

pub positive : (n c : ℕ) → 1 ≤ n → 1 ≤ c → 1 ≤ n * c
positive n c h l = omega (arith, frames_le c {j = 1} {k = n} h, l)

pub minus_le : (a b : ℕ) → b ≤ a → a < 2 ^ 32 → minus32 a b ≡ a - b
minus_le a b h l = omega arith

-- With `f0` frames at the end of a ring buffer of `n` frames, from frame `p` on, and the others at its
-- start.
module _ (w c n p frames f0 i j k : ℕ) (h0 : p + f0 ≤ n) (hf : f0 ≤ frames) (hn : frames ≤ n)
    (hi : i < frames) (hj : j < c) (hk : k < w) where
  inside_row : j * w + k < c * w
  inside_row = omega (arith, frames_apart w {j = j} {k = c} hj, hk)

  head_slot : i < f0 → slot n p i ≡ p + i
  head_slot l = ground (arith, h0)

  tail_slot : p + f0 ≡ n → f0 ≤ i → slot n p i ≡ 0 + (i - f0)
  tail_slot e l = ground (arith, e)

  pub captured_head :
      (alsa most one : ByteMemory)
      → Frames w c f0 alsa p most 0 one
      → i < f0
      → one (slot n p i * (c * w) + j * w + k) ≡ most (i * (c * w) + j * w + (w - 1 - k))
  captured_head alsa most one a l = rw (head_slot l) (a.0 i j k l hj hk ∙ ap most (omega arith))

  pub captured :
      (alsa most one new : ByteMemory)
      → Frames w c f0 alsa p most 0 one
      → Frames w c (frames - f0) one 0 most f0 new
      → p + f0 ≡ n
      → new (slot n p i * (c * w) + j * w + k) ≡ most (i * (c * w) + j * w + (w - 1 - k))
  captured alsa most one new a b e = elim (Bool-cases (ltb i f0)) [
    | inl d ↦
        let l : i < f0 = ground arith in
        let u : (0 + (frames - f0)) * (c * w) ≤ slot n p i * (c * w) + j * w + k = omega (
          arith,
          frames_le (c * w) {j = 0 + (frames - f0)} {k = slot n p i}
              (omega (arith, head_slot l, e, hn)),
        ) in
        b.1 (slot n p i * (c * w) + j * w + k) (inr u) ∙ captured_head alsa most one a l
    | inr d ↦
        let l : f0 ≤ i = ground arith in
        let r : f0 + (i - f0) ≡ i = omega (arith, l) in
        rw (tail_slot e l) (rw r at (b.0 (i - f0) j k (omega (arith, hi, l)) hj hk))
  ]

  pub played_head :
      (alsa most one : ByteMemory)
      → Frames w c f0 most 0 alsa p one
      → i < f0
      → one (i * (c * w) + j * w + k) ≡ alsa (slot n p i * (c * w) + j * w + (w - 1 - k))
  played_head alsa most one a l = rw (head_slot l) (ap one (omega arith) ∙ a.0 i j k l hj hk)

  pub played :
      (alsa most one new : ByteMemory)
      → Frames w c f0 most 0 alsa p one
      → Frames w c (frames - f0) one f0 alsa 0 new
      → p + f0 ≡ n
      → new (i * (c * w) + j * w + k) ≡ alsa (slot n p i * (c * w) + j * w + (w - 1 - k))
  played alsa most one new a b e = elim (Bool-cases (ltb i f0)) [
    | inl d ↦
        let l : i < f0 = ground arith in
        let u : i * (c * w) + j * w + k < f0 * (c * w) =
          omega (arith, frames_apart (c * w) {j = i} {k = f0} l, inside_row) in
        b.1 (i * (c * w) + j * w + k) (inl u) ∙ played_head alsa most one a l
    | inr d ↦
        let l : f0 ≤ i = ground arith in
        let r : f0 + (i - f0) ≡ i = omega (arith, l) in
        rw (tail_slot e l) (rw r at (b.0 (i - f0) j k (omega (arith, hi, l)) hj hk))
  ]
