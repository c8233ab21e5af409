-- ===== src/Usb/Padding/Trip.antt =====
-- hdm-usb/hdm_usb.c, `hdm_add_padding` and `hdm_remove_padding` as a pair.
use unicens2_driver.Common.{
  ℕ, zero, suc, ◌+◌, ◌-◌, ◌*◌, ◌/◌, ◌%◌, ◌^◌, ◌≤◌, ◌<◌, ◌≡◌, ◌≢◌, refl, ◌∙◌, ap, arith, true, false,
  ◌==◌, ◌&&◌, ltb, leb, inl, inr, Bool-cases,
}
use unicens2_driver.Common.Int.{pos}
use unicens2_driver.Common.Memory.{ByteMemory}
use unicens2_driver.Core.Types.{Config}
use unicens2_driver.Usb.{UsbMbo, get_stream_frame_size}
use unicens2_driver.Usb.Padding.{add_loop, hdm_add_padding, remove_loop, hdm_remove_padding}
use unicens2_driver.Usb.Padding.Frames.{has_frame, add_loop-at, remove_loop-at}

pub in_frame : (s n a : ℕ) → a < n * s → (k : ℕ) × (i : ℕ) × (a ≡ k * s + i) × (k < n) × (i < s)
in_frame s zero a h = absurd (omega (arith, h))
in_frame s (suc n) a h = elim (Bool-cases (ltb a (n * s))) [
  | inl e ↦ let (k, i, p, q, r) = in_frame s n a (ground arith) in (k, i, p, omega (arith, q), r)
  | inr e ↦
      let l : n * s ≤ a = ground arith in
      (n, a - n * s, omega (arith, l), omega arith, omega (arith, h, l))
]

add_loop-frame :
    (s n : ℕ) (m : ByteMemory) (j i : ℕ)
    → s ≤ 512
    → j < n
    → i < s
    → add_loop s (n - 1) m (j * 512 + i) ≡ m (j * s + i)
add_loop-frame s n m j i w h l = elim (Bool-cases (leb 1 j)) [
  | inl e ↦
      let c : has_frame s (n - 1) j i ≡ true = ground arith in
      rw c at (add_loop-at s (n - 1) m j i w (omega arith))
  | inr e ↦
      let c : has_frame s (n - 1) j i ≡ false = ground arith in
      let z : j ≡ 0 = ground arith in
      (rw c at (add_loop-at s (n - 1) m j i w (omega arith))) ∙ ap m (rw z (omega arith))
]

remove_loop-frame :
    (s n : ℕ) (m : ByteMemory) (k i : ℕ)
    → s ≤ 512
    → k < n
    → i < s
    → remove_loop s (n - 1) 1 m (k * s + i) ≡ m (k * 512 + i)
remove_loop-frame s n m k i w h l = elim (Bool-cases (leb 1 k)) [
  | inl e ↦
      let c : (leb 1 k && ltb k (1 + (n - 1))) ≡ true = ground arith in
      rw c at (remove_loop-at s (n - 1) 1 m k i w l)
  | inr e ↦
      let c : (leb 1 k && ltb k (1 + (n - 1))) ≡ false = ground arith in
      let z : k ≡ 0 = ground arith in
      (rw c at (remove_loop-at s (n - 1) 1 m k i w l)) ∙ ap m (rw z (omega arith))
]

-- For a streaming channel with a frame size of at most one packet and a buffer of at least one frame,
-- `hdm_add_padding` succeeds, sets the length to one packet for each frame, modulo 2 ^ 16, and puts
-- byte `i` of frame `j` at byte `i` of packet `j`.
pub add-packets :
    (conf : Config) (mbo : UsbMbo) (j i : ℕ)
    → get_stream_frame_size conf ≢ 0
    → get_stream_frame_size conf ≤ 512
    → 1 ≤ mbo.buffer_length / get_stream_frame_size conf
    → j < mbo.buffer_length / get_stream_frame_size conf
    → i < get_stream_frame_size conf
    → let (ret, out) = hdm_add_padding conf mbo in
      (ret ≡ pos 0)
      × (out.buffer_length ≡ mbo.buffer_length / get_stream_frame_size conf * 512 % 2 ^ 16)
      × (out.memory (j * 512 + i) ≡ mbo.memory (j * get_stream_frame_size conf + i))
unfolding hdm_add_padding
add-packets conf mbo j i z w n h l =
    let s = get_stream_frame_size conf in
    let a : (s == 0) ≡ false = ground arith in
    let b : ltb (mbo.buffer_length / s) 1 ≡ false = ground arith in
    simp (a, b, hdm_add_padding)
      (refl, refl, add_loop-frame s (mbo.buffer_length / s) mbo.memory j i w h l)

mul_le : (s q : ℕ) → s ≤ 512 → s * q ≤ 512 * q
mul_le s zero w = omega arith
mul_le s (suc q) w = omega (arith, w, mul_le s q w)

-- What `hdm_add_padding` did to the whole frames of a buffer of fewer than 128 frames, whose padded length
-- fits 16 bits, `hdm_remove_padding` undoes when all of the packets arrive: the length is that of the whole frames, and each of their bytes is back.
pub remove-add_padding :
    (conf : Config) (mbo : UsbMbo) (a : ℕ)
    → get_stream_frame_size conf ≢ 0
    → get_stream_frame_size conf ≤ 512
    → 1 ≤ mbo.buffer_length / get_stream_frame_size conf
    → mbo.buffer_length / get_stream_frame_size conf < 128
    → a < mbo.buffer_length / get_stream_frame_size conf * get_stream_frame_size conf
    → let (ret, out) = hdm_add_padding conf mbo in
      let (res, back) =
        hdm_remove_padding conf (record out { processed_length = out.buffer_length }) in
      (res ≡ pos 0)
      × (back.processed_length
          ≡ mbo.buffer_length / get_stream_frame_size conf * get_stream_frame_size conf)
      × (back.memory a ≡ mbo.memory a)
unfolding hdm_remove_padding
remove-add_padding conf mbo a z w n few h =
    let s = get_stream_frame_size conf in
    let q = mbo.buffer_length / s in
    let out = (hdm_add_padding conf mbo).1 in
    let e : (s == 0) ≡ false = ground arith in
    let (k, i, p, lk, li) = in_frame s q a h in
    let (x, y, v) = add-packets conf mbo k i z w n lk li in
    let d : out.buffer_length / 512 ≡ q = omega (arith, y, few) in
    let b : s * q ≤ 512 * q = mul_le s q w in
    let fits : s * q % 2 ^ 16 ≡ q * s = omega (arith, b, few) in
    simp (e, d, p, hdm_remove_padding)
      (refl, fits, remove_loop-frame s q out.memory k i w lk li ∙ v)
