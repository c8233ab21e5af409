-- ===== src/Sound/Copy/Stream.antt =====
-- aim-sound/sound.c, `copy_data` against the frames that it moves.
use unicens2_driver.Common.{
  ℕ, ◌+◌, ◌-◌, ◌*◌, ◌^◌, ◌≤◌, ◌<◌, ◌≡◌, refl, arith, true, false, ltb, ◌⊎◌, inl, inr, Bool-cases,
  some, Bool,
}
use unicens2_driver.Common.Memory.{ByteMemory}
use unicens2_driver.Sound.{CopyFn, SoundChannel, Runtime, SoundMbo}
use unicens2_driver.Sound.Swap.Samples.{IsBytes}
use unicens2_driver.Sound.Copy.{
  copy_bytes, is_to_most, u32, minus32, min, frames_of, first_part, copy_frames, copy_with,
  copy_data,
}
use unicens2_driver.Sound.Copy.Samples.{width}
use unicens2_driver.Sound.Copy.Chunks.{Frames, copy_at-Frames}
use unicens2_driver.Sound.Copy.Ring.{
  slot, frames_le, u32_frames, positive, minus_le, captured, captured_head, played, played_head,
}

module _ (fn : CopyFn) (c n p frames f0 i j k : ℕ) (alsa most : ByteMemory) (hc : 1 ≤ c)
    (l0 : 1 ≤ f0) (h0 : p + f0 ≤ n) (hf : f0 ≤ frames) (hn : frames ≤ n)
    (he : (f0 ≡ frames) ⊎ (p + f0 ≡ n)) (fits : n * (c * width fn) < 2 ^ 32) (small : n < 2 ^ 32)
    (hi : i < frames) (hj : j < c) (hk : k < width fn) where
  abbrev s : ℕ
  s = c * width fn

  at_p : u32 (p * s) ≡ p * s
  at_p = u32_frames s p n (omega (arith, h0)) fits

  at_f0 : u32 (f0 * s) ≡ f0 * s
  at_f0 = u32_frames s f0 n (omega (arith, h0)) fits

  rest : u32 (minus32 frames f0 * s) ≡ (frames - f0) * s
  rest =
      let a : minus32 frames f0 ≡ frames - f0 = minus_le frames f0 hf (omega (arith, hn, small)) in
      rw a (u32_frames s (frames - f0) n (omega (arith, hn)) fits)

  fits32 : (m : ℕ) → m ≤ n → m * s < 2 ^ 32
  fits32 m h = omega (arith, fits, frames_le s {j = m} {k = n} h)

  full : ltb f0 frames ≡ true → p + f0 ≡ n
  full e = turn e he
    where
      turn : ltb f0 frames ≡ true → (f0 ≡ frames) ⊎ (p + f0 ≡ n) → p + f0 ≡ n
      turn e (inl x) = absurd (ground arith)
      turn e (inr x) = x

  capture_frames :
      IsBytes most
      → is_to_most fn ≡ false
      → (copy_frames fn s p f0 frames (alsa, most)).0 (slot n p i * s + j * width fn + k)
        ≡ most (i * s + j * width fn + (width fn - 1 - k))
  unfolding copy_frames
  capture_frames b t =
      let w = width fn in
      let one = copy_bytes fn alsa (u32 (p * s)) most 0 (u32 (f0 * s)) in
      let a : Frames w c f0 alsa p most 0 one =
        copy_at-Frames fn c f0 alsa p most 0 (u32 (p * s)) 0 (u32 (f0 * s)) b (positive f0 c l0 hc)
          (fits32 f0 (omega (arith, h0))) at_p (omega arith) at_f0 in
      elim (Bool-cases (ltb f0 frames)) [
        | inr e ↦
            let d : f0 ≡ frames = ground (arith, hf) in
            simp (e, t, copy_frames)
              (captured_head w c n p frames f0 i j k h0 hf hn hi hj hk alsa most one a
                (omega (arith, hi, d)))
        | inl e ↦
            let d : p + f0 ≡ n = full e in
            let new = copy_bytes fn one 0 most (u32 (f0 * s)) (u32 (minus32 frames f0 * s)) in
            let q : 1 ≤ frames - f0 = ground arith in
            let g : Frames w c (frames - f0) one 0 most f0 new =
              copy_at-Frames fn c (frames - f0) one 0 most f0 0 (u32 (f0 * s))
                (u32 (minus32 frames f0 * s)) b (positive (frames - f0) c q hc)
                (fits32 (frames - f0) (omega (arith, hn))) (omega arith) at_f0 rest in
            simp (e, t, copy_frames)
              (captured w c n p frames f0 i j k h0 hf hn hi hj hk alsa most one new a g d)
      ]

  playback_frames :
      IsBytes alsa
      → is_to_most fn ≡ true
      → (copy_frames fn s p f0 frames (alsa, most)).1 (i * s + j * width fn + k)
        ≡ alsa (slot n p i * s + j * width fn + (width fn - 1 - k))
  unfolding copy_frames
  playback_frames b t =
      let w = width fn in
      let one = copy_bytes fn most 0 alsa (u32 (p * s)) (u32 (f0 * s)) in
      let a : Frames w c f0 most 0 alsa p one =
        copy_at-Frames fn c f0 most 0 alsa p 0 (u32 (p * s)) (u32 (f0 * s)) b (positive f0 c l0 hc)
          (fits32 f0 (omega (arith, h0))) (omega arith) at_p at_f0 in
      elim (Bool-cases (ltb f0 frames)) [
        | inr e ↦
            let d : f0 ≡ frames = ground (arith, hf) in
            simp (e, t, copy_frames)
              (played_head w c n p frames f0 i j k h0 hf hn hi hj hk alsa most one a
                (omega (arith, hi, d)))
        | inl e ↦
            let d : p + f0 ≡ n = full e in
            let new = copy_bytes fn one (u32 (f0 * s)) alsa 0 (u32 (minus32 frames f0 * s)) in
            let q : 1 ≤ frames - f0 = ground arith in
            let g : Frames w c (frames - f0) one f0 alsa 0 new =
              copy_at-Frames fn c (frames - f0) one f0 alsa 0 (u32 (f0 * s)) 0
                (u32 (minus32 frames f0 * s)) b (positive (frames - f0) c q hc)
                (fits32 (frames - f0) (omega (arith, hn))) at_f0 (omega arith) rest in
            simp (e, t, copy_frames)
              (played w c n p frames f0 i j k h0 hf hn hi hj hk alsa most one new a g d)
      ]

  -- With the frame size as the configuration has it.
  capture_by :
      (z : ℕ)
      → z ≡ s
      → IsBytes most
      → is_to_most fn ≡ false
      → (copy_frames fn z p f0 frames (alsa, most)).0 (slot n p i * s + j * width fn + k)
        ≡ most (i * s + j * width fn + (width fn - 1 - k))
  capture_by z e b t = rw e (capture_frames b t)

  playback_by :
      (z : ℕ)
      → z ≡ s
      → IsBytes alsa
      → is_to_most fn ≡ true
      → (copy_frames fn z p f0 frames (alsa, most)).1 (i * s + j * width fn + k)
        ≡ alsa (slot n p i * s + j * width fn + (width fn - 1 - k))
  playback_by z e b t = rw e (playback_frames b t)

-- The frames at the end of the ring buffer, by cases.
head_cases :
    (n p frames : ℕ)
    → p < n
    → n < 2 ^ 32
    → 1 ≤ frames
    → let f0 = min (minus32 n p) frames in
      (1 ≤ f0) × (p + f0 ≤ n) × (f0 ≤ frames) × ((f0 ≡ frames) ⊎ (p + f0 ≡ n))
head_cases n p frames h l q =
    let e : minus32 n p ≡ n - p = minus_le n p (omega (arith, h)) l in
    rw e (elim (Bool-cases (ltb (n - p) frames)) [
      | inl d ↦ rw d (omega (arith, h), omega (arith, h), ground arith, inr (omega (arith, h)))
      | inr d ↦ rw d (q, ground arith, omega arith, inl refl)
    ])

-- A received buffer that holds no more frames than the ring buffer arrives in it in order: frame `i` of
-- the buffer stands `i` frames after the position, with wrap-around, each of its samples with the bytes
-- in the order of ALSA.
pub capture-slots :
    (fn : CopyFn) (c i j k : ℕ) (ch : SoundChannel) (rt : Runtime) (m : SoundMbo)
    → ch.copy_fn ≡ some fn
    → is_to_most fn ≡ false
    → ch.cfg.subbuffer_size ≡ c * width fn
    → IsBytes m.memory
    → ch.buffer_pos < rt.buffer_size
    → rt.buffer_size < 2 ^ 32
    → rt.buffer_size * (c * width fn) < 2 ^ 32
    → frames_of ch m ≤ rt.buffer_size
    → i < frames_of ch m
    → j < c
    → k < width fn
    → (r : Bool × SoundChannel × Runtime × SoundMbo) × (copy_data ch rt m ≡ some r)
      × (r.2.dma_area (slot rt.buffer_size ch.buffer_pos i * (c * width fn) + j * width fn + k)
          ≡ m.memory (i * (c * width fn) + j * width fn + (width fn - 1 - k)))
unfolding copy_data copy_with
capture-slots fn c i j k ch rt m q t e b hp small fits hn hi hj hk =
    let n = rt.buffer_size in
    let p = ch.buffer_pos in
    let (l0, h0, hf, he) = head_cases n p (frames_of ch m) hp small (omega (arith, hi)) in
    (
      copy_with fn ch rt m,
      simp (q, copy_data) refl,
      (capture_by fn c n p (frames_of ch m) (first_part ch rt (frames_of ch m)) i j k rt.dma_area
          m.memory (omega (arith, hj)) l0 h0 hf hn he fits small hi hj hk ch.cfg.subbuffer_size e b
          t),
    )

-- A buffer to send that holds no more frames than the ring buffer gets them in order: frame `i` of the
-- buffer is the one `i` frames after the position, with wrap-around, each of its samples with the bytes
-- in the order of the network.
pub playback-slots :
    (fn : CopyFn) (c i j k : ℕ) (ch : SoundChannel) (rt : Runtime) (m : SoundMbo)
    → ch.copy_fn ≡ some fn
    → is_to_most fn ≡ true
    → ch.cfg.subbuffer_size ≡ c * width fn
    → IsBytes rt.dma_area
    → ch.buffer_pos < rt.buffer_size
    → rt.buffer_size < 2 ^ 32
    → rt.buffer_size * (c * width fn) < 2 ^ 32
    → frames_of ch m ≤ rt.buffer_size
    → i < frames_of ch m
    → j < c
    → k < width fn
    → (r : Bool × SoundChannel × Runtime × SoundMbo) × (copy_data ch rt m ≡ some r)
      × (r.3.memory (i * (c * width fn) + j * width fn + k)
          ≡ rt.dma_area (
              slot rt.buffer_size ch.buffer_pos i * (c * width fn)
              + j * width fn
              + (width fn - 1 - k)))
unfolding copy_data copy_with
playback-slots fn c i j k ch rt m q t e b hp small fits hn hi hj hk =
    let n = rt.buffer_size in
    let p = ch.buffer_pos in
    let (l0, h0, hf, he) = head_cases n p (frames_of ch m) hp small (omega (arith, hi)) in
    (
      copy_with fn ch rt m,
      simp (q, copy_data) refl,
      (playback_by fn c n p (frames_of ch m) (first_part ch rt (frames_of ch m)) i j k rt.dma_area
          m.memory (omega (arith, hj)) l0 h0 hf hn he fits small hi hj hk ch.cfg.subbuffer_size e b
          t),
    )
