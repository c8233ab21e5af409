-- ===== src/Sound/Copy/Samples.antt =====
-- aim-sound/sound.c, what every copy function does: it reverses the bytes of each sample of its width.
use unicens2_driver.Common.{
  ℕ, ◌+◌, ◌-◌, ◌*◌, ◌/◌, ◌^◌, ◌≤◌, ◌<◌, ◌≡◌, ap, arith, true, ◌&&◌, ltb, leb, ◌⊎◌, inl, inr,
}
use unicens2_driver.Common.Memory.{ByteMemory, memcpy}
use unicens2_driver.Sound.{
  CopyFn, alsa_to_most_memcpy, alsa_to_most_copy16, alsa_to_most_copy24, alsa_to_most_copy32,
  most_to_alsa_memcpy, most_to_alsa_copy16, most_to_alsa_copy24, most_to_alsa_copy32,
}
use unicens2_driver.Sound.Swap.{
  rounds, swap_one16, swap_one24, swap_one32, swap_copy16, swap_copy24, swap_copy32, rounds24,
}
use unicens2_driver.Sound.Swap.Loops.{WritesSample, rounds-below, rounds-above, rounds-sample}
use unicens2_driver.Sound.Swap.Samples.{
  IsBytes, one16-WritesSample, one24-WritesSample, one32-WritesSample,
}
use unicens2_driver.Sound.Copy.{copy_bytes}

-- The bytes of a sample that a copy function takes together.
abbrev pub width : CopyFn → ℕ
width alsa_to_most_memcpy = 1
width alsa_to_most_copy16 = 2
width alsa_to_most_copy24 = 3
width alsa_to_most_copy32 = 4
width most_to_alsa_memcpy = 1
width most_to_alsa_copy16 = 2
width most_to_alsa_copy24 = 3
width most_to_alsa_copy32 = 4

-- A copy of `n` samples of `w` bytes from offset `s` to offset `d`: each sample backwards, nothing else.
abbrev pub Copies : ℕ → ℕ → ByteMemory → ℕ → ByteMemory → ℕ → ByteMemory → Type 0
Copies w n dest d src s new =
    ((j k : ℕ) → j < n → k < w → new (d + j * w + k) ≡ src (s + j * w + (w - 1 - k)))
    × ((a : ℕ) → (a < d) ⊎ (d + n * w ≤ a) → new a ≡ dest a)

rounds-Copies :
    (w n d : ℕ) (dest src : ByteMemory) (s : ℕ) (body : ℕ → ByteMemory → ByteMemory)
    → WritesSample w d src s body
    → Copies w n dest d src s (rounds body n 0 dest)
rounds-Copies w n d dest src s body h =
    (λ j k l m. rounds-sample w d src s body h n 0 j k dest (omega arith) (omega arith) m, outside)
  where
    outside : (a : ℕ) → (a < d) ⊎ (d + n * w ≤ a) → rounds body n 0 dest a ≡ dest a
    outside a (inl l) = rounds-below w d src s body h n 0 a dest (omega (arith, l))
    outside a (inr l) = rounds-above w d src s body h n 0 a dest (omega (arith, l))

memcpy-Copies :
    (n : ℕ) (dest : ByteMemory) (d : ℕ) (src : ByteMemory) (s : ℕ)
    → Copies 1 n dest d src s (memcpy dest d src s (n * 1))
unfolding memcpy
memcpy-Copies n dest d src s = (inside, outside)
  where
    inside :
        (j k : ℕ)
        → j < n
        → k < 1
        → memcpy dest d src s (n * 1) (d + j * 1 + k) ≡ src (s + j * 1 + (1 - 1 - k))
    inside j k l m =
        let e : (leb d (d + j * 1 + k) && ltb (d + j * 1 + k) (d + n * 1)) ≡ true = ground arith in
        rw e (ap src (omega (arith, m)))

    outside : (a : ℕ) → (a < d) ⊎ (d + n * 1 ≤ a) → memcpy dest d src s (n * 1) a ≡ dest a
    outside a (inl l) = ground arith
    outside a (inr l) = ground arith

swap_copy16-Copies :
    (n : ℕ) (dest : ByteMemory) (d : ℕ) (src : ByteMemory) (s : ℕ)
    → IsBytes src
    → Copies 2 n dest d src s (swap_copy16 dest d src s (n * 2))
unfolding swap_copy16
swap_copy16-Copies n dest d src s b =
    let e : n * 2 / 2 ≡ n = omega arith in
    rw e (rounds-Copies 2 n d dest src s (swap_one16 d src s) (one16-WritesSample d src s b))

rounds24_count : (n : ℕ) → 1 ≤ n → n * 3 < 2 ^ 32 → rounds24 (n * 3) ≡ n
rounds24_count n h l = omega arith

swap_copy24-Copies :
    (n : ℕ) (dest : ByteMemory) (d : ℕ) (src : ByteMemory) (s : ℕ)
    → 1 ≤ n
    → n * 3 < 2 ^ 32
    → Copies 3 n dest d src s (swap_copy24 dest d src s (n * 3))
unfolding swap_copy24
swap_copy24-Copies n dest d src s h l =
    rw (rounds24_count n h l)
      (rounds-Copies 3 n d dest src s (swap_one24 d src s) (one24-WritesSample d src s))

swap_copy32-Copies :
    (n : ℕ) (dest : ByteMemory) (d : ℕ) (src : ByteMemory) (s : ℕ)
    → IsBytes src
    → Copies 4 n dest d src s (swap_copy32 dest d src s (n * 4))
unfolding swap_copy32
swap_copy32-Copies n dest d src s b =
    let e : n * 4 / 4 ≡ n = omega arith in
    rw e (rounds-Copies 4 n d dest src s (swap_one32 d src s) (one32-WritesSample d src s b))

-- Of a positive number of samples.
pub copy_bytes-Copies :
    (fn : CopyFn) (n : ℕ) (dest : ByteMemory) (d : ℕ) (src : ByteMemory) (s : ℕ)
    → IsBytes src
    → 1 ≤ n
    → n * width fn < 2 ^ 32
    → Copies (width fn) n dest d src s (copy_bytes fn dest d src s (n * width fn))
copy_bytes-Copies alsa_to_most_memcpy n dest d src s b h l = memcpy-Copies n dest d src s
copy_bytes-Copies alsa_to_most_copy16 n dest d src s b h l = swap_copy16-Copies n dest d src s b
copy_bytes-Copies alsa_to_most_copy24 n dest d src s b h l = swap_copy24-Copies n dest d src s h l
copy_bytes-Copies alsa_to_most_copy32 n dest d src s b h l = swap_copy32-Copies n dest d src s b
copy_bytes-Copies most_to_alsa_memcpy n dest d src s b h l = memcpy-Copies n dest d src s
copy_bytes-Copies most_to_alsa_copy16 n dest d src s b h l = swap_copy16-Copies n dest d src s b
copy_bytes-Copies most_to_alsa_copy24 n dest d src s b h l = swap_copy24-Copies n dest d src s h l
copy_bytes-Copies most_to_alsa_copy32 n dest d src s b h l = swap_copy32-Copies n dest d src s b

-- With fewer than 2 bytes, the bound of the loop of `swap_copy24` wraps around: it converts 1431655765
-- samples, whatever stands there.
pub copy24_overruns :
    (dest : ByteMemory) (d : ℕ) (src : ByteMemory) (s bytes j k : ℕ)
    → bytes < 2
    → j < 1431655765
    → k < 3
    → swap_copy24 dest d src s bytes (d + j * 3 + k) ≡ src (s + j * 3 + (2 - k))
unfolding swap_copy24
copy24_overruns dest d src s bytes j k h l m =
    let e : rounds24 bytes ≡ 1431655765 = omega arith in
    rw e (
      rounds-sample 3 d src s (swap_one24 d src s) (one24-WritesSample d src s) 1431655765 0 j k
        dest (omega arith) (omega arith) m)
