-- ===== src/Dim/Memory.antt =====
-- The allocator of the data buffer RAM (DBR) in hdm-dim2/dim2_hal.c: two words of 32 bits, a bit for
-- each block of 256 bytes. A word is the function that gives its bits, of which the first 32 are read.
pub mod Try
pub mod Alloc
pub mod Held
mod Tests
use unicens2_driver.Common.{
  ℕ, zero, suc, ◌+◌, ◌-◌, ◌*◌, ◌/◌, ◌%◌, Bool, true, false, not, ◌&&◌, ◌||◌, Option, none, some,
  ◌==◌, ltb, leb, if◌then◌else◌,
}

-- DBR_SIZE and DBR_BLOCK_SIZE
abbrev pub dbr_size : ℕ
dbr_size = 16384

abbrev pub dbr_block_size : ℕ
dbr_block_size = 256

abbrev pub Word : Type 0
Word = ℕ → Bool

-- The operators of C on words.
abbrev pub not_word : Word → Word
not_word w = λ i. not (w i)

abbrev pub and_word : Word → Word → Word
and_word w v = λ i. w i && v i

abbrev pub or_word : Word → Word → Word
or_word w v = λ i. w i || v i

abbrev pub shl : ℕ → Word → Word
shl k w = λ i. if ltb i k then false else w (i - k)

abbrev pub zero_word : Word
zero_word = λ i. false

abbrev pub none_below : ℕ → Word → Bool
none_below zero w = true
none_below (suc n) w = not (w n) && none_below n w

-- `w == 0`
abbrev pub is_zero : Word → Bool
is_zero w = none_below 32 w

-- `dbr_map`
pub record DbrMap : Type 0 where
  pub map0 : Word
  pub map1 : Word

-- `dbr_get_mask_size`, the loop written out; 0 for a size that is too large.
unfoldable pub dbr_get_mask_size : ℕ → ℕ
dbr_get_mask_size size =
    if leb size 256
    then 1
    else if leb size 512
    then 2
    else if leb size 1024
    then 4
    else if leb size 2048
    then 8
    else if leb size 4096
    then 16
    else if leb size 8192
    then 32
    else 0

-- `DIV_ROUND_UP(size, DBR_BLOCK_SIZE)`
abbrev pub blocks_of : ℕ → ℕ
blocks_of size = (size + 255) / dbr_block_size

-- `~((~(u32)0) << blocks)`. In C the shift has no meaning from 32 on.
abbrev pub mask_of : ℕ → Word
mask_of blocks = not_word (shl blocks (not_word zero_word))

-- How the search in one word ends: the block that is taken with the word that is left, or `block_idx`.
pub data Tried : Type 0 where
  taken : ℕ → Word → Tried
  full : ℕ → Tried

-- The do loop of `alloc_dbr`, with fuel; `none` would be a loop that does not end.
unfoldable pub try_word : ℕ → ℕ → Word → Word → ℕ → Option Tried
try_word zero mask_size word mask block_idx = none
try_word (suc f) mask_size word mask block_idx =
    let next = shl 1 (shl (mask_size - 1) mask) in
    let rest = try_word f mask_size word next (block_idx + mask_size) in
    if is_zero (and_word word mask)
    then some (taken block_idx (or_word word mask))
    else if is_zero next
    then some (full (block_idx + mask_size))
    else rest

-- The second round of the for loop.
abbrev pub try_second : ℕ → ℕ → ℕ → DbrMap → Option (ℕ × DbrMap)
try_second mask_size blocks block_idx m =
    elim (try_word 32 mask_size m.map1 (mask_of blocks) block_idx) [
      | none ↦ none
      | some (taken b w) ↦ some (b * dbr_block_size, record m { map1 = w })
      | some (full b) ↦ some (dbr_size, m)
    ]

abbrev pub try_both : ℕ → ℕ → DbrMap → Option (ℕ × DbrMap)
try_both mask_size blocks m = elim (try_word 32 mask_size m.map0 (mask_of blocks) 0) [
  | none ↦ none
  | some (taken b w) ↦ some (b * dbr_block_size, record m { map0 = w })
  | some (full b) ↦ try_second mask_size blocks b m
]

-- `alloc_dbr`; fuel 32 is enough for the 32 places of a word.
unfoldable pub alloc_dbr : ℕ → DbrMap → Option (ℕ × DbrMap)
alloc_dbr size m =
    if leb size 0
    then some (dbr_size, m)
    else if dbr_get_mask_size size == 0
    then some (dbr_size, m)
    else try_both (dbr_get_mask_size size) (blocks_of size) m

pub free_dbr : ℕ → ℕ → DbrMap → DbrMap
free_dbr offs size m =
    let block_idx = offs / dbr_block_size in
    let mask = shl (block_idx % 32) (mask_of (blocks_of size)) in
    if block_idx / 32 == 0
    then record m { map0 = and_word m.map0 (not_word mask) }
    else record m { map1 = and_word m.map1 (not_word mask) }
