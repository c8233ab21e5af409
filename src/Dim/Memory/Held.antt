-- ===== src/Dim/Memory/Held.antt =====
-- The buffer memory over any order of allocations and releases.
use unicens2_driver.Common.{
  ℕ, ◌+◌, ◌*◌, ◌/◌, ◌%◌, ◌≡◌, ◌≤◌, ◌<◌, inl, inr, Bool, false, not, ◌&&◌, Option, none, some, List,
  [], ◌∷◌, ◌++◌, ◌==◌, if◌then◌else◌, sym, ◌∙◌, arith,
}
use mathlib.Core.Path.{subst}
use unicens2_driver.Dim.Memory.{DbrMap, dbr_size, dbr_block_size, blocks_of, alloc_dbr, free_dbr}
use unicens2_driver.Dim.Memory.Try.{in_run}
use unicens2_driver.Dim.Memory.Alloc.{bit, Outcome, alloc_outcome, free_bits}

-- What one `alloc_dbr` gave and no `free_dbr` took back: the address, and the size that was asked for.
pub record Holding : Type 0 where
  pub addr : ℕ
  pub size : ℕ

pub record Memory : Type 0 where
  pub dbr_map : DbrMap
  pub held : List Holding

abbrev pub covers : Holding → ℕ → Bool
covers h k = in_run (h.addr / dbr_block_size) (blocks_of h.size) k

-- How many holdings contain block `k`.
abbrev pub holders : List Holding → ℕ → ℕ
holders [] k = 0
holders (h ∷ hs) k = (if covers h k then 1 else 0) + holders hs k

abbrev pub after_alloc : ℕ → Memory → Option (ℕ × DbrMap) → Memory
after_alloc size s none = s
after_alloc size s (some (addr, e)) = record {
  dbr_map = e;
  held = if addr == dbr_size then s.held else record { addr = addr; size = size } ∷ s.held;
}

pub data Step (s : Memory) : Memory → Type 0 where
  allocating :
      (size : ℕ) → 0 < size → size ≤ 7936 → Step s (after_alloc size s (alloc_dbr size s.dbr_map))
  releasing :
      (before after : List Holding) (h : Holding)
      → s.held ≡ before ++ h ∷ after
      → Step s (record { dbr_map = free_dbr h.addr h.size s.dbr_map; held = before ++ after })

pub data Reach (s : Memory) : Memory → Type 0 where
  here : Reach s s
  next : {t u : Memory} → Reach s t → Step t u → Reach s u

-- A holding starts at a block, and lies within one word.
pub record IsPlace (h : Holding) : Type 0 where
  pub at : h.addr ≡ h.addr / dbr_block_size * dbr_block_size
  pub below : h.addr / dbr_block_size < 64
  pub fits : h.addr / dbr_block_size % 32 + blocks_of h.size ≤ 32

abbrev pub ArePlaces : List Holding → Type 0
ArePlaces [] = Unit {0}
ArePlaces (h ∷ hs) = IsPlace h × ArePlaces hs

-- Each block is marked in the map if it is held, and then by one holding only.
pub record IsExclusive (s : Memory) : Type 0 where
  pub places : ArePlaces s.held
  pub once : (k : ℕ) → holders s.held k ≡ (if bit s.dbr_map k then 1 else 0)

holders-append : (hs gs : List Holding) (k : ℕ) → holders (hs ++ gs) k ≡ holders hs k + holders gs k
holders-append [] gs k = omega arith
holders-append (h ∷ hs) gs k = omega (arith, holders-append hs gs k)

ArePlaces-middle :
    (hs gs : List Holding) (h : Holding)
    → ArePlaces (hs ++ h ∷ gs)
    → IsPlace h × ArePlaces (hs ++ gs)
ArePlaces-middle [] gs h v = v
ArePlaces-middle (x ∷ hs) gs h v = let (a, b) = ArePlaces-middle hs gs h v.1 in (a, (v.0, b))

alloc-IsExclusive :
    (size : ℕ) (s : Memory) (r : Option (ℕ × DbrMap))
    → IsExclusive s
    → Outcome (blocks_of size) s.dbr_map r
    → IsExclusive (after_alloc size s r)
alloc-IsExclusive size s none v o = v
alloc-IsExclusive size s (some (addr, e)) v (inl o) = rw (o.0, o.1) v
alloc-IsExclusive size s (some (addr, e)) v (inr t) =
    let c : (addr == dbr_size) ≡ false = ground (arith, t.at, t.below) in
    let q : addr / dbr_block_size ≡ t.pos = omega (arith, t.at) in
    rw c (record {
      places = (
        record {
          at = omega (arith, q, t.at);
          below = omega (arith, q, t.below);
          fits = omega (arith, q, t.fits);
        },
        v.places,
      );
      once = λ k. ground (arith, q, v.once k, t.free k, t.marked k);
    })

release-IsExclusive :
    (s : Memory) (before after : List Holding) (h : Holding)
    → IsExclusive s
    → s.held ≡ before ++ h ∷ after
    → IsExclusive (record { dbr_map = free_dbr h.addr h.size s.dbr_map; held = before ++ after })
release-IsExclusive s before after h v e =
    let (p, rest) = ArePlaces-middle before after h (subst ArePlaces e v.places) in
    record {
      places = rest;
      once = λ k.
          let freed : bit (free_dbr h.addr h.size s.dbr_map) k
              ≡ (bit s.dbr_map k && not (covers h k)) =
            subst (λ a. bit (free_dbr a h.size s.dbr_map) k ≡ (bit s.dbr_map k && not (covers h k)))
              (sym p.at) (free_bits h.size (h.addr / dbr_block_size) k s.dbr_map p.below p.fits) in
          let all : holders before k + holders (h ∷ after) k ≡ (if bit s.dbr_map k then 1 else 0) =
            sym (holders-append before (h ∷ after) k)
            ∙ subst (λ xs. holders xs k ≡ (if bit s.dbr_map k then 1 else 0)) e (v.once k) in
          ground (arith, freed, all, holders-append before after k);
    }

IsExclusive-Step : {s t : Memory} → Step s t → IsExclusive s → IsExclusive t
IsExclusive-Step {s} (allocating size h0 h) v =
    alloc-IsExclusive size s (alloc_dbr size s.dbr_map) v (alloc_outcome size s.dbr_map h0 h)
IsExclusive-Step {s} (releasing before after h e) v = release-IsExclusive s before after h v e

-- In every order of allocations, of sizes from 1 to 7936, and of releases of what was allocated, each
-- block of the buffer memory belongs to one holder at most, and is marked in the map exactly if it
-- belongs to one.
pub IsExclusive-Reach : {s t : Memory} → IsExclusive s → Reach s t → IsExclusive t
IsExclusive-Reach v here = v
IsExclusive-Reach v (next r st) = IsExclusive-Step st (IsExclusive-Reach v r)
