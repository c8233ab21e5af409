-- ===== src/Dim/Memory/Alloc.antt =====
-- `alloc_dbr` takes a place that is free, and `free_dbr` gives it back.
use unicens2_driver.Common.{
  ℕ, ◌+◌, ◌-◌, ◌*◌, ◌/◌, ◌%◌, ◌≡◌, ◌≢◌, ◌≤◌, ◌<◌, ◌⊎◌, inl, inr, Bool, false, not, ◌&&◌, ◌||◌,
  Option, none, some, ◌==◌, ltb, leb, if◌then◌else◌, refl, arith, Bool-cases, ◌∙◌,
}
use mathlib.Core.Path.{subst}
use native.Mathlib.Nat.{div-le_self}
use unicens2_driver.Dim.Memory.{
  Word, DbrMap, dbr_size, dbr_block_size, dbr_get_mask_size, blocks_of, mask_of, Tried, taken, full,
  try_word, try_second, alloc_dbr, free_dbr,
}
use unicens2_driver.Dim.Memory.Try.{in_run, mask_of-IsRun, shl-IsRun, IsTaken, TryResult, try_lem}

-- Block `k` of the memory.
abbrev pub bit : DbrMap → ℕ → Bool
bit m k = if ltb k 32 then m.map0 k else m.map1 (k - 32)

-- The place of `n` blocks at address `addr` was free in `m` and is marked in `e`; it does not cross the
-- two words, and nothing else changed.
pub record IsAllocated (n : ℕ) (m : DbrMap) (addr : ℕ) (e : DbrMap) : Type 0 where
  pub pos : ℕ
  pub at : addr ≡ pos * dbr_block_size
  pub below : pos < 64
  pub fits : pos % 32 + n ≤ 32
  pub free : (k : ℕ) → (in_run pos n k && bit m k) ≡ false
  pub marked : (k : ℕ) → bit e k ≡ (bit m k || in_run pos n k)

first-IsAllocated :
    (n : ℕ) (m : DbrMap) (b : ℕ) (w : Word)
    → 0 < n
    → IsTaken n 0 m.map0 b w
    → IsAllocated n m (b * dbr_block_size) (record m { map0 = w })
first-IsAllocated n m b w h t = record {
  pos = b;
  at = refl;
  below = omega (arith, t.at, t.fits);
  fits = omega (arith, t.at, t.fits);
  free = λ k. ground (arith, t.at, t.fits, t.free k);
  marked = λ k. ground (arith, t.at, t.fits, t.marked k);
}

second-IsAllocated :
    (n : ℕ) (m : DbrMap) (b : ℕ) (w : Word)
    → 0 < n
    → IsTaken n 32 m.map1 b w
    → IsAllocated n m (b * dbr_block_size) (record m { map1 = w })
second-IsAllocated n m b w h t = record {
  pos = b;
  at = refl;
  below = omega (arith, t.at, t.fits);
  fits = omega (arith, t.at, t.fits);
  free = λ k. ground (arith, t.at, t.fits, t.free (k - 32));
  marked = λ k. ground (arith, t.at, t.fits, t.marked (k - 32));
}

mask_size :
    (size : ℕ)
    → 0 < size
    → size ≤ 8192
    → let ms = dbr_get_mask_size size in
      (32 ≡ 0 + (32 / ms - 1 + 1) * ms) × (0 < blocks_of size) × (blocks_of size ≤ ms) × (0 < ms)
unfolding dbr_get_mask_size
mask_size size h0 h = ground arith

-- What a search in the two words gives.
abbrev pub Outcome : ℕ → DbrMap → Option (ℕ × DbrMap) → Type 0
Outcome n m none = ⊥
Outcome n m (some (addr, e)) = (addr ≡ dbr_size) × (e ≡ m) ⊎ IsAllocated n m addr e

second_go :
    (n : ℕ) (m : DbrMap) (t : Option Tried)
    → 0 < n
    → TryResult n 32 m.map1 t
    → Outcome n m (elim t [
      | none ↦ none
      | some (taken b w) ↦ some (b * dbr_block_size, record m { map1 = w })
      | some (full b) ↦ some (dbr_size, m)
    ])
second_go n m none h r = absurd r
second_go n m (some (taken b w)) h r = inr (second-IsAllocated n m b w h r)
second_go n m (some (full b)) h r = inl (refl, refl)

both_go :
    (n ms : ℕ) (m : DbrMap) (t : Option Tried)
    → 0 < n
    → ((b : ℕ) → b ≡ 32 → TryResult n 32 m.map1 (try_word 32 ms m.map1 (mask_of n) b))
    → TryResult n 0 m.map0 t
    → Outcome n m (elim t [
      | none ↦ none
      | some (taken b w) ↦ some (b * dbr_block_size, record m { map0 = w })
      | some (full b) ↦ try_second ms n b m
    ])
both_go n ms m none h k r = absurd r
both_go n ms m (some (taken b w)) h k r = inr (first-IsAllocated n m b w h r)
both_go n ms m (some (full b)) h k r = second_go n m (try_word 32 ms m.map1 (mask_of n) b) h (k b r)

tries_lt : (ms : ℕ) → 32 / ms - 1 < 32
tries_lt ms = omega (arith, div-le_self 32 ms)

-- A size from 1 to 7936, for which the shift of the mask is defined in C: the loops of `alloc_dbr`
-- end, and either the result is DBR_SIZE and the map is unchanged, or it is the address of a place
-- that was free and is marked now, with no other change.
pub alloc_outcome :
    (size : ℕ) (m : DbrMap) → 0 < size → size ≤ 7936 → Outcome (blocks_of size) m (alloc_dbr size m)
unfolding alloc_dbr
alloc_outcome size m h0 h =
    let (tries, some_block, enough, some_step) = mask_size size h0 (omega arith) in
    let ms = dbr_get_mask_size size in
    let n = blocks_of size in
    let first : TryResult n 0 m.map0 (try_word 32 ms m.map0 (mask_of n) 0) =
      try_lem (32 / ms - 1) 32 ms n 0 0 0 m.map0 (mask_of n) tries some_block enough refl
        (mask_of-IsRun n) (tries_lt ms) in
    let second : (b : ℕ) → b ≡ 32 → TryResult n 32 m.map1 (try_word 32 ms m.map1 (mask_of n) b) =
      λ b e.
        try_lem (32 / ms - 1) 32 ms n 32 0 b m.map1 (mask_of n) tries some_block enough
          (omega (arith, e)) (mask_of-IsRun n) (tries_lt ms) in
    let v = both_go n ms m (try_word 32 ms m.map0 (mask_of n) 0) some_block second first in
    let a : leb size 0 ≡ false = ground arith in
    let c : (ms == 0) ≡ false = ground (arith, some_step) in rw (a, c, alloc_dbr) v

pub restored : (x y z : Bool) → (z && x) ≡ false → y ≡ (x || z) → (y && not z) ≡ x
restored x y z h e = ground (arith, h, e)

-- `free_dbr` clears the bits of the place, and no others.
pub free_bits :
    (size pos k : ℕ) (m : DbrMap)
    → pos < 64
    → pos % 32 + blocks_of size ≤ 32
    → bit (free_dbr (pos * dbr_block_size) size m) k
      ≡ (bit m k && not (in_run pos (blocks_of size) k))
unfolding free_dbr
free_bits size pos k m below fits =
    let n = blocks_of size in
    let r = shl-IsRun (pos % 32) 0 n (mask_of n) (mask_of-IsRun n) in
    let q : pos * 256 / 256 ≡ pos = omega arith in
    elim (Bool-cases (pos / 32 == 0)) [
      | inl e ↦ rw (q, e, free_dbr) (ground (arith, e, r.bits k))
      | inr e ↦ rw (q, e, free_dbr) (ground (arith, e, r.bits (k - 32)))
    ]

-- A place that `alloc_dbr` gave is freed: every block of the map is as it was before.
pub free-alloc :
    (size addr k : ℕ) (m e : DbrMap)
    → alloc_dbr size m ≡ some (addr, e)
    → addr ≢ dbr_size
    → 0 < size
    → size ≤ 7936
    → bit (free_dbr addr size e) k ≡ bit m k
free-alloc size addr k m e run ok h0 h =
    elim (subst (Outcome (blocks_of size) m) run (alloc_outcome size m h0 h)) [
      | inl o ↦ absurd (ok o.0)
      | inr t ↦ rw t.at (
          free_bits size t.pos k e t.below t.fits
          ∙ restored (bit m k) (bit e k) (in_run t.pos (blocks_of size) k) (t.free k) (t.marked k))
    ]
