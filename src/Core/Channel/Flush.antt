-- ===== src/Core/Channel/Flush.antt =====
-- Flushing the lists of a channel: every buffer is freed, `mbo_ref` counts them off, and the last
-- one completes `cleanup`.
use unicens2_driver.Common.{
  ℕ, ◌+◌, ◌-◌, ◌≡◌, ◌≤◌, refl, true, List, [], ◌∷◌, ◌==◌, if◌then◌else◌, arith, length,
}
use unicens2_driver.Common.Int.{pos, ◌-ℤ◌}
use unicens2_driver.Core.Types.{Mbo, Channel}
use unicens2_driver.Core.Channel.{
  most_free_mbo_coherent, free_all, flush_fifo, flush_halt_fifo, flush_channel_fifos,
  flush_trash_fifo, list_empty,
}

-- Freeing `k` of the `n` buffers that `mbo_ref` counts.
pub record Freed (k n : ℕ) (c d : Channel) : Type 0 where
  pub refs : d.mbo_ref ≡ pos (n - k)
  pub done : d.cleanup ≡ (if k == 0 then c.cleanup else if k == n then c.cleanup + 1 else c.cleanup)

record SameLists (c d : Channel) : Type 0 where
  fifo : d.fifo ≡ c.fifo
  halt : d.halt_fifo ≡ c.halt_fifo
  trash : d.trash_fifo ≡ c.trash_fifo

free_all-Freed :
    (ms : List Mbo) (n : ℕ) (c : Channel)
    → c.mbo_ref ≡ pos n
    → length ms ≤ n
    → Freed (length ms) n c (free_all ms c)
unfolding free_all most_free_mbo_coherent ◌-ℤ◌
free_all-Freed [] n c e h = ground arith
free_all-Freed (m ∷ ms) n c e h =
    ground (arith, free_all-Freed ms (n - 1) (most_free_mbo_coherent m c))

free_all-SameLists : (ms : List Mbo) (c : Channel) → SameLists c (free_all ms c)
unfolding free_all most_free_mbo_coherent
free_all-SameLists [] c = ground arith
free_all-SameLists (m ∷ ms) c = ground (arith, free_all-SameLists ms (most_free_mbo_coherent m c))

abbrev pub on_lists : Channel → ℕ
on_lists c = length c.trash_fifo + length c.fifo + length c.halt_fifo

abbrev pub flush_all : Channel → Channel
flush_all c = flush_channel_fifos (flush_trash_fifo c)

pub record IsFlushed (n : ℕ) (c d : Channel) : Type 0 where
  pub freed : Freed (on_lists c) n c d
  pub no_fifo : d.fifo ≡ []
  pub no_halt : d.halt_fifo ≡ []
  pub no_trash : d.trash_fifo ≡ []

record IsFlushedTrash (n : ℕ) (c d : Channel) : Type 0 where
  freed : Freed (length c.trash_fifo) n c d
  fifo : d.fifo ≡ c.fifo
  halt : d.halt_fifo ≡ c.halt_fifo
  trash : d.trash_fifo ≡ []

record IsFlushedFifo (n : ℕ) (c d : Channel) : Type 0 where
  freed : Freed (length c.fifo) n c d
  fifo : d.fifo ≡ []
  halt : d.halt_fifo ≡ c.halt_fifo
  trash : d.trash_fifo ≡ c.trash_fifo

record IsFlushedHalt (n : ℕ) (c d : Channel) : Type 0 where
  freed : Freed (length c.halt_fifo) n c d
  fifo : d.fifo ≡ c.fifo
  halt : d.halt_fifo ≡ []
  trash : d.trash_fifo ≡ c.trash_fifo

record IsFlushedBoth (n : ℕ) (c d : Channel) : Type 0 where
  freed : Freed (length c.fifo + length c.halt_fifo) n c d
  fifo : d.fifo ≡ []
  halt : d.halt_fifo ≡ []
  trash : d.trash_fifo ≡ c.trash_fifo

flush_trash-Freed :
    (n : ℕ) (c : Channel)
    → c.mbo_ref ≡ pos n
    → on_lists c ≤ n
    → IsFlushedTrash n c (flush_trash_fifo c)
unfolding flush_trash_fifo
flush_trash-Freed n c e h = ground (
  arith,
  free_all-Freed c.trash_fifo n (record c { trash_fifo = [] }),
  free_all-SameLists c.trash_fifo (record c { trash_fifo = [] }),
)

flush_fifo-Freed :
    (n : ℕ) (c : Channel) → c.mbo_ref ≡ pos n → length c.fifo ≤ n → IsFlushedFifo n c (flush_fifo c)
unfolding flush_fifo
flush_fifo-Freed n c e h = ground (
  arith,
  free_all-Freed c.fifo n (record c { fifo = [] }),
  free_all-SameLists c.fifo (record c { fifo = [] }),
)

flush_halt-Freed :
    (n : ℕ) (c : Channel)
    → c.mbo_ref ≡ pos n
    → length c.halt_fifo ≤ n
    → IsFlushedHalt n c (flush_halt_fifo c)
unfolding flush_halt_fifo
flush_halt-Freed n c e h = ground (
  arith,
  free_all-Freed c.halt_fifo n (record c { halt_fifo = [] }),
  free_all-SameLists c.halt_fifo (record c { halt_fifo = [] }),
)

list_empty_lem : (xs : List Mbo) → list_empty xs ≡ true → xs ≡ []
list_empty_lem [] h = refl
list_empty_lem (x ∷ xs) h = cc

flush_channel_fifos-Freed :
    (n : ℕ) (c : Channel)
    → c.mbo_ref ≡ pos n
    → length c.fifo + length c.halt_fifo ≤ n
    → IsFlushedBoth n c (flush_channel_fifos c)
unfolding flush_channel_fifos
flush_channel_fifos-Freed n c e h = ground (
  arith,
  list_empty_lem c.fifo,
  list_empty_lem c.halt_fifo,
  flush_fifo-Freed n c,
  flush_halt-Freed (n - length c.fifo) (flush_fifo c),
)

-- The two flushes of `most_stop_channel` free what stands on the three lists and empty them.
pub flush_all-IsFlushed :
    (n : ℕ) (c : Channel) → c.mbo_ref ≡ pos n → on_lists c ≤ n → IsFlushed n c (flush_all c)
flush_all-IsFlushed n c e h = ground (
  arith,
  flush_trash-Freed n c,
  flush_channel_fifos-Freed (n - length c.trash_fifo) (flush_trash_fifo c),
)
