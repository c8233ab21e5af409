-- ===== src/Sound/Copy/Chunks.antt =====
-- aim-sound/sound.c, copies of whole frames.
use unicens2_driver.Common.{ℕ, ◌+◌, ◌-◌, ◌*◌, ◌^◌, ◌≤◌, ◌<◌, ◌≡◌, sym, arith, ◌⊎◌, inl, inr}
use unicens2_driver.Common.Memory.{ByteMemory}
use unicens2_driver.Common.Rows.{frames_apart}
use unicens2_driver.Sound.{CopyFn}
use unicens2_driver.Sound.Swap.Samples.{IsBytes}
use unicens2_driver.Sound.Copy.{copy_bytes}
use unicens2_driver.Sound.Copy.Samples.{width, copy_bytes-Copies}

-- Frames of `c` samples of `w` bytes: `n` frames from frame `g` of the source on stand from frame `f`
-- of the destination on, with the bytes of each sample backwards, and nothing else has changed.
abbrev pub Frames : ℕ → ℕ → ℕ → ByteMemory → ℕ → ByteMemory → ℕ → ByteMemory → Type 0
Frames w c n dest f src g new =
    ((i j k : ℕ)
      → i < n
      → j < c
      → k < w
      → new ((f + i) * (c * w) + j * w + k) ≡ src ((g + i) * (c * w) + j * w + (w - 1 - k)))
    × ((a : ℕ) → (a < f * (c * w)) ⊎ ((f + n) * (c * w) ≤ a) → new a ≡ dest a)

sample_at : (c w f i j r : ℕ) → f * (c * w) + (i * c + j) * w + r ≡ (f + i) * (c * w) + j * w + r
sample_at c w f i j r = omega arith

pub copy_bytes-Frames :
    (fn : CopyFn) (c n : ℕ) (dest : ByteMemory) (f : ℕ) (src : ByteMemory) (g : ℕ)
    → IsBytes src
    → 1 ≤ n * c
    → n * (c * width fn) < 2 ^ 32
    → Frames
        (width fn)
        c
        n
        dest
        f
        src
        g
        (copy_bytes fn dest (f * (c * width fn)) src (g * (c * width fn)) (n * (c * width fn)))
copy_bytes-Frames fn c n dest f src g b h l =
    let w = width fn in
    let e : n * (c * w) ≡ n * c * w = omega arith in
    let (x, y) =
      copy_bytes-Copies fn (n * c) dest (f * (c * w)) src (g * (c * w)) b h (omega (arith, l)) in
    rw e (
      λ i j k p q r.
          let u : i * c + j < n * c = omega (arith, frames_apart c {j = i} {k = n} p, q) in
          rw (sym (sample_at c w f i j k), sym (sample_at c w g i j (w - 1 - k)))
            (x (i * c + j) k u r),
      λ a o. y a (apart a o),
    )
  where
    apart :
        (a : ℕ)
        → (a < f * (c * width fn)) ⊎ ((f + n) * (c * width fn) ≤ a)
        → (a < f * (c * width fn)) ⊎ (f * (c * width fn) + n * c * width fn ≤ a)
    apart a (inl l) = inl l
    apart a (inr l) = inr (omega (arith, l))

-- With offsets and a length that are computed in another way.
pub copy_at-Frames :
    (fn : CopyFn) (c n : ℕ) (dest : ByteMemory) (f : ℕ) (src : ByteMemory) (g d s bytes : ℕ)
    → IsBytes src
    → 1 ≤ n * c
    → n * (c * width fn) < 2 ^ 32
    → d ≡ f * (c * width fn)
    → s ≡ g * (c * width fn)
    → bytes ≡ n * (c * width fn)
    → Frames (width fn) c n dest f src g (copy_bytes fn dest d src s bytes)
copy_at-Frames fn c n dest f src g d s bytes b h l x y z =
    rw (x, y, z) (copy_bytes-Frames fn c n dest f src g b h l)
