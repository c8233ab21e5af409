-- ===== src/Core/System/Moves.antt =====
-- mostcore/core.c, the whole life of the buffers of a channel: the steps of a running channel, and those of
-- starting and stopping it, each at the grain of one list access or one loop over a list.
use unicens2_driver.Common.{ℕ, ◌≡◌, List, [], ◌∷◌, ◌++◌}
use unicens2_driver.Common.Int.{ℤ, pos}
use unicens2_driver.Core.Types.{Config, Mbo, Channel, Completion}
use unicens2_driver.Core.Channel.{flush_trash_fifo, flush_channel_fifos}
use unicens2_driver.Core.Run.{
  new_mbo, arm_one, take_ref, drop_ref, start_thread, returned, stop_wait,
}
use unicens2_driver.Core.System.{System, Step}

-- A move, with the buffers that it allocates.
pub data Move : System → System → List Mbo → Type 0 where
  steps : {s t : System} → Step s t → Move s t []
  -- `most_start_channel` up to `arm_mbo_chain`: the configuration, a module reference, and the level.
  prepares :
      (s : System) (cfg : Config) (refs : ℤ)
      → Move s
          (record s { chan = record s.chan { cfg = cfg; mod_refs = refs; mbo_nq_level = pos 0 } })
          []
  -- A round of `arm_mbo_chain`, for the buffer at address `a`.
  arms :
      (s : System) (dir : ℕ) (compl : Completion) (a : ℕ)
      → Move s (record s { chan = arm_one dir compl a s.chan }) (new_mbo a compl s.chan ∷ [])
  -- `most_start_channel` from `run_enqueue_thread` on, with the number of buffers that were armed.
  threads :
      (s : System) (thread : ℤ) (n : ℕ)
      → Move s (record s { chan = (start_thread thread n s.chan).1 }) []
  joins : (s : System) (aim : ℕ) → Move s (record s { chan = take_ref aim s.chan }) []
  leaves : (s : System) (aim : ℕ) → Move s (record s { chan = drop_ref aim s.chan }) []
  flushes_trash : (s : System) → Move s (record s { chan = flush_trash_fifo s.chan }) []
  flushes_fifos : (s : System) → Move s (record s { chan = flush_channel_fifos s.chan }) []
  -- The wait for `cleanup` ends.
  ends :
      (s : System) (aim : ℕ) (d : Channel)
      → stop_wait aim s.chan ≡ returned (pos 0) d
      → Move s (record s { chan = d }) []

-- Moves one after the other, with all the buffers that they allocate.
pub data Moves (s : System) : System → List Mbo → Type 0 where
  unmoved : Moves s s []
  then_move : {t u : System} {ms ns : List Mbo} → Moves s t ms → Move t u ns → Moves s u (ms ++ ns)
