-- ===== src/Dim/Sizes/Normal.antt =====
-- The sizes that are made of a wish are the largest that fit, and are accepted as they are.
use unicens2_driver.Common.{
  ℕ, ◌+◌, ◌*◌, ◌/◌, ◌%◌, ◌^◌, ◌≡◌, ◌≢◌, ◌≤◌, ◌<◌, true, false, ltb, ◌⊎◌, inl, inr, refl, arith,
  if◌then◌else◌, Bool-cases, ltb→lt,
}
use native.Mathlib.Nat.{
  div-add-mod, le-div_iff_mul-le, div-le_self, mod-le, one-le-pow, pow-le-pow_right, mul_comm,
  zero-mod, mul-mod_right, mul-div-le, div-lt_iff_lt-mul, lt-mul-div-succ, mod-eq_of_lt,
}
use unicens2_driver.Dim.Types.{u16}
use unicens2_driver.Dim.Sizes.{
  dim_norm_ctrl_async_buffer_size, norm_ctrl_async_buffer_size, check_packet_length,
  check_bytes_per_frame, norm_isoc_buffer_size, norm_sync_buffer_size, limit_size,
  dim_norm_isoc_buffer_size, dim_norm_sync_buffer_size,
}

-- `r` is the largest multiple of `unit` that is at most `s`, and at least `k` units long; if there is
-- none, it is 0.
pub record IsLargest (unit k s r : ℕ) : Type 0 where
  pub multiple : r % unit ≡ 0
  pub fits : r ≤ s
  pub largest : (r ≡ 0) × (s < k * unit) ⊎ (k * unit ≤ r) × (s < r + unit)

not_ltb : (a b : ℕ) → ltb a b ≡ false → b ≤ a
not_ltb a b h = ground arith

-- A size cut down to whole units.
whole_units :
    (unit k s : ℕ)
    → 0 < unit
    → 0 < k
    → IsLargest unit k s (if ltb (s / unit) k then 0 else unit * (s / unit))
whole_units unit k s h hk = elim (Bool-cases (ltb (s / unit) k)) [
  | inl less ↦ rw less (record {
    multiple = zero-mod unit;
    fits = omega arith;
    largest = inl (refl, (div-lt_iff_lt-mul h).0 (ltb→lt _ _ less));
  })
  | inr more ↦ rw more (record {
    multiple = mul-mod_right unit (s / unit);
    fits = mul-div-le s unit;
    largest = inr (
      rw (mul_comm k unit) (grind (arith, not_ltb (s / unit) k more)),
      omega (arith, lt-mul-div-succ s h),
    );
  })
]

limit_size-le : (s : ℕ) → (limit_size s ≤ 8192) × (limit_size s ≤ s)
limit_size-le s = ground arith

-- No cast to 16 bits cuts anything off below the limit.
no_cut :
    (unit k s : ℕ)
    → s ≤ 8192
    → (if ltb (u16 (s / unit)) k then 0 else u16 (unit * u16 (s / unit)))
      ≡ (if ltb (s / unit) k then 0 else unit * (s / unit))
no_cut unit k s h =
    rw
      (
        mod-eq_of_lt {n = s / unit} {m = 2 ^ 16} (omega (arith, div-le_self s unit)),
        mod-eq_of_lt {n = unit * (s / unit)} {m = 2 ^ 16} (omega (arith, mul-div-le s unit)),
      )
      refl

pub check_packet_length-pos : (n : ℕ) → check_packet_length n ≡ true → 0 < n
unfolding check_packet_length
check_packet_length-pos n h = ground arith

-- For a packet length that the hardware supports, `dim_norm_isoc_buffer_size` gives the largest
-- whole number of packets, two at least, that fits the wish and the 8192 bytes of the descriptor, or
-- 0 where two packets do not fit.
pub isoc-IsLargest :
    (buf_size packet_length : ℕ)
    → check_packet_length packet_length ≡ true
    → IsLargest packet_length 2
        (limit_size buf_size)
        (dim_norm_isoc_buffer_size buf_size packet_length)
unfolding dim_norm_isoc_buffer_size norm_isoc_buffer_size
isoc-IsLargest buf_size packet_length h =
    rw (h, no_cut packet_length 2 (limit_size buf_size) (limit_size-le buf_size).0)
      (whole_units packet_length 2 (limit_size buf_size) (check_packet_length-pos packet_length h)
        (omega arith))

pub check_bytes_per_frame-bounds :
    (fcnt n : ℕ) → check_bytes_per_frame fcnt n ≡ true → (0 < n) × (n ≤ 4096)
unfolding check_bytes_per_frame
check_bytes_per_frame-bounds fcnt n h =
    let p : u16 (4096 / 2 ^ u16 (fcnt + 2)) ≤ 4096 / 2 ^ u16 (fcnt + 2) = mod-le _ _ in
    let q : 4096 / 2 ^ u16 (fcnt + 2) ≤ 4096 = div-le_self _ _ in ground (arith, p, q)

sub_buffer_bounds :
    (fcnt n : ℕ) → fcnt ≤ 6 → 0 < n → n ≤ 4096 → (0 < n * 2 ^ fcnt) × (n * 2 ^ fcnt < 2 ^ 32)
sub_buffer_bounds fcnt n hf h0 h =
    let low : 1 ≤ 2 ^ fcnt = one-le-pow fcnt 2 (omega arith) in
    let high : 2 ^ fcnt ≤ 2 ^ 6 = pow-le-pow_right {n = 2} (omega arith) hf in
    (grind (arith, low), grind (arith, high))

-- For a number of bytes in a frame that the hardware supports, `dim_norm_sync_buffer_size` gives the
-- largest whole number of sub-buffers of 2 ^ fcnt frames that fits, or 0 where none fits.
pub sync-IsLargest :
    (fcnt buf_size bytes_per_frame : ℕ)
    → fcnt ≤ 6
    → check_bytes_per_frame fcnt bytes_per_frame ≡ true
    → IsLargest
        (bytes_per_frame * 2 ^ fcnt)
        1
        (limit_size buf_size)
        (dim_norm_sync_buffer_size fcnt buf_size bytes_per_frame)
unfolding dim_norm_sync_buffer_size norm_sync_buffer_size
sync-IsLargest fcnt buf_size bytes_per_frame hf h =
    let (h0, h1) = check_bytes_per_frame-bounds fcnt bytes_per_frame h in
    let (low, high) = sub_buffer_bounds fcnt bytes_per_frame hf h0 h1 in
    rw
      (
        h,
        mod-eq_of_lt {n = bytes_per_frame * 2 ^ fcnt} {m = 2 ^ 32} high,
        no_cut (bytes_per_frame * 2 ^ fcnt) 1 (limit_size buf_size) (limit_size-le buf_size).0,
      )
      (whole_units (bytes_per_frame * 2 ^ fcnt) 1 (limit_size buf_size) low (omega arith))

-- Whole units stay as they are when they are cut down again.
whole_fixed :
    (unit k s r : ℕ)
    → 0 < unit
    → IsLargest unit k s r
    → r ≢ 0
    → (if ltb (r / unit) k then 0 else unit * (r / unit)) ≡ r
whole_fixed unit k s r h v z =
    let e : unit * (r / unit) ≡ r = omega (arith, div-add-mod r unit, v.multiple) in
    let low : k * unit ≤ r = elim v.largest [ inl p ↦ absurd (z p.0) | inr p ↦ p.0 ] in
    ground (arith, e, (le-div_iff_mul-le {k = unit} {x = k} {y = r} h).1 low)

limit_size_fixed : (r s : ℕ) → r ≤ limit_size s → limit_size r ≡ r
limit_size_fixed r s h = ground arith

pub isoc_fixed :
    (wish packet_length : ℕ)
    → check_packet_length packet_length ≡ true
    → dim_norm_isoc_buffer_size wish packet_length ≢ 0
    → norm_isoc_buffer_size (dim_norm_isoc_buffer_size wish packet_length) packet_length
      ≡ dim_norm_isoc_buffer_size wish packet_length
unfolding norm_isoc_buffer_size
isoc_fixed wish packet_length h z =
    let r = dim_norm_isoc_buffer_size wish packet_length in
    let v = isoc-IsLargest wish packet_length h in
    rw
      (
        limit_size_fixed r wish v.fits,
        no_cut packet_length 2 r (omega (arith, v.fits, (limit_size-le wish).0)),
      )
      (whole_fixed packet_length 2 (limit_size wish) r (check_packet_length-pos packet_length h) v
        z)

pub ctrl_async-le : (n : ℕ) → dim_norm_ctrl_async_buffer_size n ≤ 2048
unfolding dim_norm_ctrl_async_buffer_size norm_ctrl_async_buffer_size
ctrl_async-le n = ground arith
