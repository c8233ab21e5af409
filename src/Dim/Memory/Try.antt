-- ===== src/Dim/Memory/Try.antt =====
-- The search for a free place in one word.
use unicens2_driver.Common.{
  ℕ, zero, suc, ◌+◌, ◌-◌, ◌*◌, ◌≡◌, ◌≤◌, ◌<◌, inl, inr, Bool, true, false, ◌&&◌, ◌||◌, Option, none,
  some, ◌==◌, ltb, leb, refl, arith, Bool-cases,
}
use unicens2_driver.Dim.Memory.{
  Word, and_word, or_word, shl, none_below, is_zero, mask_of, Tried, taken, full, try_word,
}

-- The bit of a place with `n` blocks from block `p` on.
abbrev pub in_run : ℕ → ℕ → ℕ → Bool
in_run p n i = leb p i && ltb i (p + n)

-- A mask that covers such a place, and nothing else.
pub record IsRun (p n : ℕ) (mask : Word) : Type 0 where
  pub bits : (i : ℕ) → mask i ≡ in_run p n i

pub mask_of-IsRun : (n : ℕ) → IsRun 0 n (mask_of n)
mask_of-IsRun n = record { bits = λ i. ground arith }

pub shl-IsRun : (k p n : ℕ) (mask : Word) → IsRun p n mask → IsRun (k + p) n (shl k mask)
shl-IsRun k p n mask h = record { bits = λ i. ground (arith, h.bits (i - k)) }

next-IsRun :
    (ms p n : ℕ) (mask : Word)
    → 0 < ms
    → IsRun p n mask
    → IsRun (p + ms) n (shl 1 (shl (ms - 1) mask))
next-IsRun ms p n mask pos h =
    let v = shl-IsRun 1 (ms - 1 + p) n (shl (ms - 1) mask) (shl-IsRun (ms - 1) p n mask h) in
    record { bits = λ i. ground (arith, v.bits i) }

-- The test of all bits.
none_below-bit : (n i : ℕ) (w : Word) → none_below n w ≡ true → i < n → w i ≡ false
none_below-bit zero i w h l = absurd (omega (arith, l))
none_below-bit (suc n) i w h l = elim (Bool-cases (i == n)) [
  | inl e ↦ ground (arith, e)
  | inr e ↦ none_below-bit n i w (ground (arith, h)) (ground (arith, e))
]

none_below-intro : (n : ℕ) (w : Word) → ((i : ℕ) → i < n → w i ≡ false) → none_below n w ≡ true
none_below-intro zero w h = refl
none_below-intro (suc n) w h =
    ground (arith, h n (omega arith), none_below-intro n w (λ i l. h i (omega arith)))

-- A place of `n` blocks from block `b` on was free in `word`, whose first block is `base`, and is
-- marked in `w`; nothing else changed.
pub record IsTaken (n base : ℕ) (word : Word) (b : ℕ) (w : Word) : Type 0 where
  pub pos : ℕ
  pub at : b ≡ base + pos
  pub fits : pos + n ≤ 32
  pub free : (i : ℕ) → (in_run pos n i && word i) ≡ false
  pub marked : (i : ℕ) → w i ≡ (word i || in_run pos n i)

abbrev pub TryResult : ℕ → ℕ → Word → Option Tried → Type 0
TryResult n base word none = ⊥
TryResult n base word (some (taken b w)) = IsTaken n base word b w
TryResult n base word (some (full b)) = b ≡ base + 32

or_word-IsTaken :
    (n base p b : ℕ) (word mask : Word)
    → b ≡ base + p
    → p + n ≤ 32
    → IsRun p n mask
    → is_zero (and_word word mask) ≡ true
    → IsTaken n base word b (or_word word mask)
or_word-IsTaken n base p b word mask e h r z = record {
  pos = p;
  at = e;
  fits = h;
  free = λ i. elim (Bool-cases (in_run p n i)) [
    | inr out ↦ ground (arith, out)
    | inl hit ↦
        let q : (word i && mask i) ≡ false =
          none_below-bit 32 i (and_word word mask) z (ground (arith, hit)) in
        ground (arith, hit, q, r.bits i)
  ];
  marked = λ i. ground (arith, r.bits i);
}

past-is_zero : (p n : ℕ) (mask : Word) → IsRun p n mask → 32 ≤ p → is_zero mask ≡ true
past-is_zero p n mask r h = none_below-intro 32 mask (λ i l. ground (arith, r.bits i))

inside-is_zero : (p n : ℕ) (mask : Word) → IsRun p n mask → p < 32 → 0 < n → is_zero mask ≡ false
inside-is_zero p n mask r h k = elim (Bool-cases (is_zero mask)) [
  | inr e ↦ e
  | inl e ↦ let q = none_below-bit 32 p mask e h in ground (arith, q, r.bits p)
]

-- With `s` more places after this one.
pub try_lem :
    (s f ms n base p b : ℕ) (word mask : Word)
    → 32 ≡ p + (s + 1) * ms
    → 0 < n
    → n ≤ ms
    → b ≡ base + p
    → IsRun p n mask
    → s < f
    → TryResult n base word (try_word f ms word mask b)
unfolding try_word
try_lem s zero ms n base p b word mask h pos le e r hf = elim hf [ ]
try_lem zero (suc f) ms n base p b word mask h pos le e r hf =
    elim (Bool-cases (is_zero (and_word word mask))) [
      | inl z ↦ rw (z, try_word) (or_word-IsTaken n base p b word mask e (omega arith) r z)
      | inr z ↦
          let y =
            past-is_zero (p + ms) n (shl 1 (shl (ms - 1) mask))
              (next-IsRun ms p n mask (omega arith) r) (omega arith) in
          rw (z, y, try_word) (omega arith)
    ]
try_lem (suc s) (suc f) ms n base p b word mask h pos le e r hf =
    elim (Bool-cases (is_zero (and_word word mask))) [
      | inl z ↦ rw (z, try_word) (or_word-IsTaken n base p b word mask e (grind arith) r z)
      | inr z ↦
          let next = next-IsRun ms p n mask (omega arith) r in
          let y = inside-is_zero (p + ms) n (shl 1 (shl (ms - 1) mask)) next (grind arith) pos in
          rw (z, y, try_word)
            (try_lem s f ms n base (p + ms) (b + ms) word (shl 1 (shl (ms - 1) mask)) (grind arith)
              pos le (omega arith) next (omega arith))
    ]
