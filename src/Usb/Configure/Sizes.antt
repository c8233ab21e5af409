-- ===== src/Usb/Configure/Sizes.antt =====
-- hdm-usb/hdm_usb.c, the sizes that `hdm_configure_channel` gives a streaming channel.
use unicens2_driver.Common.{
  ℕ, zero, suc, ◌+◌, ◌-◌, ◌*◌, ◌/◌, ◌%◌, ◌^◌, ◌≤◌, ◌<◌, ◌≡◌, ◌≢◌, refl, arith, ◌==◌, ◌||◌, Option,
  none, some, ltb, leb, if◌then◌else◌, inl, inr, Bool-cases,
}
use native.Mathlib.Nat.{div-add-mod', mod-eq_of_lt}
use mathlib.Core.Path.{subst}
use unicens2_driver.Core.Types.{Config}
use unicens2_driver.Usb.{get_stream_frame_size}
use unicens2_driver.Usb.Configure.{padded_sizes}

split_packets : (n s : ℕ) → s ≤ 512 → n * s + n * (512 - s) ≡ n * 512
split_packets zero s h = omega arith
split_packets (suc n) s h = omega (arith, split_packets n s h)

-- A number of whole frames fits before the end of the buffer.
whole_frames : (b s : ℕ) → b / s * s ≤ b
whole_frames b s = omega (arith, div-add-mod' b s)

same_frame_size :
    (conf : Config) (b e : ℕ)
    → get_stream_frame_size (record conf { buffer_size = b; extra_len = e })
      ≡ get_stream_frame_size conf
unfolding get_stream_frame_size
same_frame_size conf b e = refl

-- What `padded_sizes_fit` states, of a configuration that may be refused.
abbrev Fits : Config → Option Config → Type 0
Fits conf none = Unit {0}
Fits conf (some new) =
    let s = get_stream_frame_size new in
    let n = conf.buffer_size / s in
    (s ≢ 0)
    × (s ≤ 512)
    × (new.buffer_size ≡ n * s)
    × (leb (n * 512) (new.buffer_size + new.extra_len) ≡ ltb (n * (512 - s)) (2 ^ 16))

fixed_size : (b s : ℕ) → b < 2 ^ 16 → (if b % s == 0 then b else b / s * s % 2 ^ 16) ≡ b / s * s
fixed_size b s h = elim (Bool-cases (b % s == 0)) [
  | inl e ↦ let d : b % s ≡ 0 = ground arith in rw e (omega (arith, div-add-mod' b s, d))
  | inr e ↦ rw e (mod-eq_of_lt (omega (arith, whole_frames b s)))
]

room :
    (n s : ℕ)
    → s ≤ 512
    → leb (n * 512) (n * s + n * (512 - s) % 2 ^ 16) ≡ ltb (n * (512 - s)) (2 ^ 16)
room n s w = elim (Bool-cases (ltb (n * (512 - s)) (2 ^ 16))) [
  | inl e ↦
      let l : n * (512 - s) < 2 ^ 16 = ground arith in
      rw (mod-eq_of_lt l, e) (ground (arith, split_packets n s w))
  | inr e ↦
      let l : n * (512 - s) % 2 ^ 16 < 2 ^ 16 = omega arith in
      rw e (ground (arith, split_packets n s w, l))
]

padded_sizes-Fits : (conf : Config) → conf.buffer_size < 2 ^ 16 → Fits conf (padded_sizes conf)
unfolding padded_sizes
padded_sizes-Fits conf h =
    let s = get_stream_frame_size conf in
    let n = conf.buffer_size / s in
    elim (Bool-cases ((s == 0) || ltb 512 s)) [
      | inl e ↦ simp (e, Fits, padded_sizes) tt
      | inr e ↦
          let a : (s ≢ 0) × (s ≤ 512) = ground arith in
          simp (e, Fits, padded_sizes, same_frame_size, fixed_size conf.buffer_size s h)
            (a.0, a.1, refl, room n s a.1)
    ]

-- The sizes that a configuration for the padding mode gets are for whole frames of at most one packet,
-- and a buffer of that many packets fits the memory of `buffer_size + extra_len` bytes exactly when
-- the extra length fits 16 bits.
pub padded_sizes_fit :
    (conf new : Config)
    → conf.buffer_size < 2 ^ 16
    → padded_sizes conf ≡ some new
    → let s = get_stream_frame_size new in
      let n = conf.buffer_size / s in
      (s ≢ 0)
      × (s ≤ 512)
      × (new.buffer_size ≡ n * s)
      × (leb (n * 512) (new.buffer_size + new.extra_len) ≡ ltb (n * (512 - s)) (2 ^ 16))
padded_sizes_fit conf new h e = subst (Fits conf) e (padded_sizes-Fits conf h)
