-- ===== src/Sound/Swap/Samples.antt =====
-- aim-sound/sound.c, what the copies do for every sample, on bytes.
use unicens2_driver.Common.{ℕ, zero, suc, ◌+◌, ◌-◌, ◌*◌, ◌/◌, ◌%◌, ◌^◌, ◌<◌, ◌≡◌, ◌∙◌, ap, arith}
use unicens2_driver.Common.Memory.{ByteMemory}
use unicens2_driver.Sound.Swap.{
  swap_one16, swap_one24, swap_one32, swap16, swap32, load16, load32, store16, store32,
}
use unicens2_driver.Sound.Swap.Loops.{WritesSample}

-- Every cell holds a byte.
abbrev pub IsBytes : ByteMemory → Type 0
IsBytes m = (a : ℕ) → m a < 256

swap16_bytes :
    (x y : ℕ)
    → x < 256
    → y < 256
    → (swap16 (x + y * 2 ^ 8) % 2 ^ 8 ≡ y) × (swap16 (x + y * 2 ^ 8) / 2 ^ 8 % 2 ^ 8 ≡ x)
swap16_bytes x y h l = (omega arith, omega arith)

swap32_bytes :
    (x y z w : ℕ)
    → x < 256
    → y < 256
    → z < 256
    → w < 256
    → let v = swap32 (x + y * 2 ^ 8 + z * 2 ^ 16 + w * 2 ^ 24) in
      (v % 2 ^ 8 ≡ w)
      × (v / 2 ^ 8 % 2 ^ 8 ≡ z)
      × (v / 2 ^ 16 % 2 ^ 8 ≡ y)
      × (v / 2 ^ 24 % 2 ^ 8 ≡ x)
swap32_bytes x y z w hx hy hz hw = (omega arith, omega arith, omega arith, omega arith)

store16-at :
    (a v : ℕ) (m : ByteMemory)
    → (store16 a v m (a + 0) ≡ v % 2 ^ 8) × (store16 a v m (a + 1) ≡ v / 2 ^ 8 % 2 ^ 8)
store16-at a v m = (ground arith, ground arith)

store32-at :
    (a v : ℕ) (m : ByteMemory)
    → (store32 a v m (a + 0) ≡ v % 2 ^ 8)
      × (store32 a v m (a + 1) ≡ v / 2 ^ 8 % 2 ^ 8)
      × (store32 a v m (a + 2) ≡ v / 2 ^ 16 % 2 ^ 8)
      × (store32 a v m (a + 3) ≡ v / 2 ^ 24 % 2 ^ 8)
store32-at a v m = (ground arith, ground arith, ground arith, ground arith)

pub one16-WritesSample :
    (d : ℕ) (src : ByteMemory) (s : ℕ) → IsBytes src → WritesSample 2 d src s (swap_one16 d src s)
one16-WritesSample d src s b = (go, λ i a m h. ground arith, λ i a m h. ground arith)
  where
    go :
        (i k : ℕ) (m : ByteMemory)
        → k < 2
        → swap_one16 d src s i m (d + i * 2 + k) ≡ src (s + i * 2 + (2 - 1 - k))
    go i zero m h =
        let a = s + i * 2 in
        (store16-at (d + i * 2) (swap16 (load16 src a)) m).0
        ∙ (swap16_bytes (src a) (src (a + 1)) (b a) (b (a + 1))).0
    go i (suc zero) m h =
        let a = s + i * 2 in
        (store16-at (d + i * 2) (swap16 (load16 src a)) m).1
        ∙ (swap16_bytes (src a) (src (a + 1)) (b a) (b (a + 1))).1
        ∙ ap src (omega arith)
    go i (suc (suc k)) m h = absurd (omega (arith, h))

pub one24-WritesSample :
    (d : ℕ) (src : ByteMemory) (s : ℕ) → WritesSample 3 d src s (swap_one24 d src s)
one24-WritesSample d src s = (go, λ i a m h. ground arith, λ i a m h. ground arith)
  where
    go :
        (i k : ℕ) (m : ByteMemory)
        → k < 3
        → swap_one24 d src s i m (d + i * 3 + k) ≡ src (s + i * 3 + (3 - 1 - k))
    go i zero m h = ground arith
    go i (suc zero) m h = ground arith
    go i (suc (suc zero)) m h =
        let c : swap_one24 d src s i m (d + i * 3 + 2) ≡ src (s + i * 3) = ground arith in
        c ∙ ap src (omega arith)
    go i (suc (suc (suc k))) m h = absurd (omega (arith, h))

pub one32-WritesSample :
    (d : ℕ) (src : ByteMemory) (s : ℕ) → IsBytes src → WritesSample 4 d src s (swap_one32 d src s)
one32-WritesSample d src s b = (go, λ i a m h. ground arith, λ i a m h. ground arith)
  where
    bytes :
        (i : ℕ)
        → let a = s + i * 4 in
          let v = swap32 (load32 src a) in
          (v % 2 ^ 8 ≡ src (a + 3))
          × (v / 2 ^ 8 % 2 ^ 8 ≡ src (a + 2))
          × (v / 2 ^ 16 % 2 ^ 8 ≡ src (a + 1))
          × (v / 2 ^ 24 % 2 ^ 8 ≡ src a)
    bytes i =
        let a = s + i * 4 in
        swap32_bytes (src a) (src (a + 1)) (src (a + 2)) (src (a + 3)) (b a) (b (a + 1)) (b (a + 2))
          (b (a + 3))

    go :
        (i k : ℕ) (m : ByteMemory)
        → k < 4
        → swap_one32 d src s i m (d + i * 4 + k) ≡ src (s + i * 4 + (4 - 1 - k))
    go i zero m h = (store32-at (d + i * 4) (swap32 (load32 src (s + i * 4))) m).0 ∙ (bytes i).0
    go i (suc zero) m h =
        (store32-at (d + i * 4) (swap32 (load32 src (s + i * 4))) m).1 ∙ (bytes i).1
    go i (suc (suc zero)) m h =
        (store32-at (d + i * 4) (swap32 (load32 src (s + i * 4))) m).2 ∙ (bytes i).2
    go i (suc (suc (suc zero))) m h =
        (store32-at (d + i * 4) (swap32 (load32 src (s + i * 4))) m).3
        ∙ (bytes i).3
        ∙ ap src (omega arith)
    go i (suc (suc (suc (suc k)))) m h = absurd (omega (arith, h))
