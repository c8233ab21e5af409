-- ===== src/Sound/Swap/Loops.antt =====
-- aim-sound/sound.c, a loop whose rounds each write one sample with its bytes reversed.
use unicens2_driver.Common.{
  ℕ, zero, suc, ◌+◌, ◌-◌, ◌*◌, ◌≤◌, ◌<◌, ◌≡◌, refl, ◌∙◌, arith, ltb, inl, inr, Bool-cases,
}
use unicens2_driver.Common.Memory.{ByteMemory}
use unicens2_driver.Sound.Swap.{rounds}

module _ (w d : ℕ) (src : ByteMemory) (s : ℕ) (body : ℕ → ByteMemory → ByteMemory) where
  -- Round `i` writes sample `i` of `w` bytes, last byte first, and nothing else.
  abbrev pub WritesSample : Type 0
  WritesSample =
      ((i k : ℕ) (m : ByteMemory)
        → k < w
        → body i m (d + i * w + k) ≡ src (s + i * w + (w - 1 - k)))
      × ((i a : ℕ) (m : ByteMemory) → a < d + i * w → body i m a ≡ m a)
      × ((i a : ℕ) (m : ByteMemory) → d + i * w + w ≤ a → body i m a ≡ m a)

  pub rounds-below :
      (h : WritesSample) (n i a : ℕ) (m : ByteMemory) → a < d + i * w → rounds body n i m a ≡ m a
  unfolding rounds
  rounds-below h zero i a m l = refl
  rounds-below h (suc n) i a m l =
      rounds-below h n (suc i) a (body i m) (omega (arith, l)) ∙ h.1 i a m l

  pub rounds-above :
      (h : WritesSample) (n i a : ℕ) (m : ByteMemory)
      → d + (i + n) * w ≤ a
      → rounds body n i m a ≡ m a
  unfolding rounds
  rounds-above h zero i a m l = refl
  rounds-above h (suc n) i a m l =
      let c : d + (suc i + n) * w ≤ a = omega (arith, l) in
      rounds-above h n (suc i) a (body i m) c ∙ h.2 i a m (omega (arith, l))

  pub rounds-sample :
      (h : WritesSample) (n i j k : ℕ) (m : ByteMemory)
      → i ≤ j
      → j < i + n
      → k < w
      → rounds body n i m (d + j * w + k) ≡ src (s + j * w + (w - 1 - k))
  unfolding rounds
  rounds-sample h zero i j k m l u r = absurd (omega (arith, l, u))
  rounds-sample h (suc n) i j k m l u r = elim (Bool-cases (ltb i j)) [
    | inl e ↦ rounds-sample h n (suc i) j k (body i m) (ground arith) (omega arith) r
    | inr e ↦
        let c : j ≡ i = ground arith in
        rw c (rounds-below h n (suc i) (d + i * w + k) (body i m) (omega (arith, r)) ∙ h.0 i k m r)
  ]
