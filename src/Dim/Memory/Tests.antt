-- ===== src/Dim/Memory/Tests.antt =====
-- The theorems on the allocator at an empty map.
use unicens2_driver.Common.{[], ◌∷◌, arith}
use unicens2_driver.Dim.Memory.{
  DbrMap, zero_word, or_word, mask_of, dbr_get_mask_size, try_word, alloc_dbr,
}
use unicens2_driver.Dim.Memory.Alloc.{Outcome, alloc_outcome}
use unicens2_driver.Dim.Memory.Held.{
  Memory, allocating, Reach, here, next, IsExclusive, IsExclusive-Reach,
}

abbrev empty_map : DbrMap
empty_map = record { map0 = zero_word; map1 = zero_word }

alloc_outcome_example : Outcome 4 empty_map (alloc_dbr 1024 empty_map)
alloc_outcome_example = alloc_outcome 1024 empty_map (omega arith) (omega arith)

abbrev four_blocks : DbrMap
four_blocks = record { map0 = or_word zero_word (mask_of 4); map1 = zero_word }

abbrev free_memory : Memory
free_memory = record { dbr_map = empty_map; held = [] }

abbrev one_held : Memory
one_held = record { dbr_map = four_blocks; held = record { addr = 0; size = 1024 } ∷ [] }

one_held_reached : Reach free_memory one_held
unfolding alloc_dbr dbr_get_mask_size try_word
one_held_reached = next here (allocating 1024 (omega arith) (omega arith))

IsExclusive-Reach_example : IsExclusive one_held
IsExclusive-Reach_example =
    IsExclusive-Reach {s = free_memory} (record { places = tt; once = λ k. ground arith })
      one_held_reached
