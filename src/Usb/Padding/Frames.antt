-- ===== src/Usb/Padding/Frames.antt =====
-- What the two loops of hdm-usb/hdm_usb.c leave at every address.
use unicens2_driver.Common.{
  ℕ, zero, suc, ◌+◌, ◌*◌, ◌≤◌, ◌<◌, ◌≡◌, refl, ◌∙◌, arith, Bool, true, false, ◌==◌, ◌&&◌, ltb, leb,
  if◌then◌else◌, inl, inr, Bool-cases,
}
use unicens2_driver.Common.Memory.{ByteMemory, memmove, memmove-in, memmove-below, memmove-above}
use unicens2_driver.Common.Rows.{frames_apart}
use unicens2_driver.Usb.Padding.{add_loop, remove_loop}

pub rows_wide : (s k : ℕ) → s ≤ 512 → k * s ≤ k * 512
rows_wide s zero h = omega arith
rows_wide s (suc k) h = omega (arith, rows_wide s k h)

-- Which bytes of a padded buffer the padding loop fills, by frame and offset.
abbrev pub has_frame : ℕ → ℕ → ℕ → ℕ → Bool
has_frame s k j i = leb 1 j && leb j k && ltb i s

-- The memory after the loop, at offset `i` of the `j`-th packet.
pub add_loop-at :
    (s k : ℕ) (m : ByteMemory) (j i : ℕ)
    → s ≤ 512
    → i < 512
    → add_loop s k m (j * 512 + i) ≡ (if has_frame s k j i then m (j * s + i) else m (j * 512 + i))
unfolding add_loop
add_loop-at s zero m j i w h = ground arith
add_loop-at s (suc k) m j i w h =
    let n = memmove (suc k * 512) (suc k * s) s m in
    let ih = add_loop-at s k n j i w h in
    elim (Bool-cases (has_frame s k j i)) [
      | inl e ↦
          let b : ((1 ≤ j) × (j ≤ k)) × (i < s) = ground arith in
          let c : has_frame s (suc k) j i ≡ true = ground arith in
          let d : j * s + s ≤ suc k * s = frames_apart s {j = j} {k = suc k} (omega (arith, b)) in
          let l : j * s + i < suc k * 512 = omega (arith, d, b, rows_wide s (suc k) w) in
          rw c ((rw e at ih) ∙ memmove-below (suc k * 512) (suc k * s) s m (j * s + i) l)
      | inr e ↦ (rw e at ih) ∙ last_frame s k m j i w h e
    ]
  where
    last_frame :
        (s k : ℕ) (m : ByteMemory) (j i : ℕ)
        → s ≤ 512
        → i < 512
        → has_frame s k j i ≡ false
        → memmove (suc k * 512) (suc k * s) s m (j * 512 + i)
          ≡ (if has_frame s (suc k) j i then m (j * s + i) else m (j * 512 + i))
    last_frame s k m j i w h e = elim (Bool-cases ((j == suc k) && ltb i s)) [
      | inl f ↦
          let b : (j ≡ suc k) × (i < s) = ground arith in
          let c : has_frame s (suc k) j i ≡ true = ground arith in
          rw (c, b.0) (memmove-in (suc k * 512) (suc k * s) s m i b.1)
      | inr f ↦ elim (Bool-cases (ltb j (suc k))) [
        | inl g ↦
            let c : has_frame s (suc k) j i ≡ false = ground arith in
            let l : j * 512 + i < suc k * 512 = ground arith in
            rw c (memmove-below (suc k * 512) (suc k * s) s m (j * 512 + i) l)
        | inr g ↦
            let c : has_frame s (suc k) j i ≡ false = ground arith in
            let l : suc k * 512 + s ≤ j * 512 + i = ground arith in
            rw c (memmove-above (suc k * 512) (suc k * s) s m (j * 512 + i) l)
      ]
    ]

-- The memory after `n` rounds of the other loop from frame `j` on, at offset `i` of frame `k`.
pub remove_loop-at :
    (s n j : ℕ) (m : ByteMemory) (k i : ℕ)
    → s ≤ 512
    → i < s
    → remove_loop s n j m (k * s + i)
      ≡ (if leb j k && ltb k (j + n) then m (k * 512 + i) else m (k * s + i))
unfolding remove_loop
remove_loop-at s zero j m k i w h =
    let c : (leb j k && ltb k (j + 0)) ≡ false = ground arith in rw c refl
remove_loop-at s (suc n) j m k i w h =
    let g = memmove (s * j) (512 * j) s m in
    let ih = remove_loop-at s n (suc j) g k i w h in
    elim (Bool-cases (leb (suc j) k && ltb k (suc j + n))) [
      | inl e ↦
          let c : (leb j k && ltb k (j + suc n)) ≡ true = ground arith in
          let b : j < k = ground arith in
          let l : s * j + s ≤ k * 512 + i =
            omega (arith, frames_apart s {j = j} {k = k} b, rows_wide s k w) in
          rw c ((rw e at ih) ∙ memmove-above (s * j) (512 * j) s m (k * 512 + i) l)
      | inr e ↦ (rw e at ih) ∙ first_frame s n j m k i h e
    ]
  where
    first_frame :
        (s n j : ℕ) (m : ByteMemory) (k i : ℕ)
        → i < s
        → (leb (suc j) k && ltb k (suc j + n)) ≡ false
        → memmove (s * j) (512 * j) s m (k * s + i)
          ≡ (if leb j k && ltb k (j + suc n) then m (k * 512 + i) else m (k * s + i))
    first_frame s n j m k i h e = elim (Bool-cases (j == k)) [
      | inl f ↦
          let b : k ≡ j = ground arith in
          let c : (leb j k && ltb k (j + suc n)) ≡ true = ground arith in
          let x : k * s ≡ s * j = rw b (omega arith) in
          let y : k * 512 ≡ 512 * j = omega (arith, b) in
          rw (c, x, y) (memmove-in (s * j) (512 * j) s m i h)
      | inr f ↦
          let c : (leb j k && ltb k (j + suc n)) ≡ false = ground arith in
          rw c (elim (Bool-cases (ltb k j)) [
            | inl g ↦
                let b : k < j = ground arith in
                memmove-below (s * j) (512 * j) s m (k * s + i)
                  (omega (arith, frames_apart s {j = k} {k = j} b))
            | inr g ↦
                let b : j < k = ground arith in
                memmove-above (s * j) (512 * j) s m (k * s + i)
                  (omega (arith, frames_apart s {j = j} {k = k} b))
          ])
    ]
