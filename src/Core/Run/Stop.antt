-- ===== src/Core/Run/Stop.antt =====
-- `most_stop_channel`: when it returns, and what it leaves behind.
use unicens2_driver.Common.{
  ℕ, ◌-◌, ◌≡◌, ◌≤◌, ◌<◌, ◌==◌, ◌⊎◌, true, false, [], arith, inl, inr, Bool-cases,
}
use unicens2_driver.Common.Int.{ℤ, pos, ◌+ℤ◌, leb_ℤ, ◌-ℤ◌, ◌==ℤ◌}
use unicens2_driver.Core.Types.{Channel, eagain}
use unicens2_driver.Core.Channel.Flush.{on_lists, flush_all, flush_all-IsFlushed}
use unicens2_driver.Core.Run.{returned, waiting, stop_begin, drop_ref, most_stop_channel}

-- No buffer is left, and the channel can be started again.
pub record IsClean (c : Channel) : Type 0 where
  pub no_fifo : c.fifo ≡ []
  pub no_halt : c.halt_fifo ≡ []
  pub no_trash : c.trash_fifo ≡ []
  pub no_refs : c.mbo_ref ≡ pos 0
  pub no_completion : c.cleanup ≡ 0
  pub healthy : c.is_poisoned ≡ false

-- The channel as the hardware module's `poison_channel` leaves it, with `n` buffers to be freed.
pub record PoisonedBy (n : ℕ) (poison : Channel → ℤ × Channel) (c e : Channel) : Type 0 where
  pub last : leb_ℤ (pos 2) (c.aim0.refs +ℤ c.aim1.refs) ≡ false
  pub result : poison (stop_begin c) ≡ (pos 0, e)
  pub counted : e.mbo_ref ≡ pos n
  pub some_buffer : 0 < n
  pub fits : on_lists e ≤ n
  pub fresh : e.cleanup ≡ 0

abbrev stopped_channel : ℕ → Channel → Channel
stopped_channel aim e =
    drop_ref aim (record (flush_all e) { cleanup = (flush_all e).cleanup - 1; is_poisoned = false })

module _ (n aim : ℕ) (poison : Channel → ℤ × Channel) {c e : Channel}
    (v : PoisonedBy n poison c e) where
  -- Every counted buffer is on a list, and the call ends with 0: the lists are empty, no buffer and no
  -- completion is left, the poison is taken off.
  abbrev pub Ends : Type 0
  Ends =
      (on_lists e ≡ n)
      × (d : Channel) × (most_stop_channel poison aim c ≡ returned (pos 0) d)
      × IsClean d

  -- One is still out, and the call waits, with the lists empty and `mbo_ref` at the number of buffers that
  -- are out; the channel is poisoned still.
  abbrev pub Waits : Type 0
  Waits =
      (on_lists e < n)
      × (d : Channel) × (most_stop_channel poison aim c ≡ waiting d)
      × (d.mbo_ref ≡ pos (n - on_lists e))
      × (on_lists d ≡ 0)
      × (d.cleanup ≡ 0)

  ends : on_lists e ≡ n → Ends
  unfolding most_stop_channel drop_ref
  ends h = (
    h,
    stopped_channel aim e,
    ground (arith, flush_all-IsFlushed n e),
    ground (arith, flush_all-IsFlushed n e),
  )

  waits : on_lists e < n → Waits
  unfolding most_stop_channel
  waits h = (
    h,
    flush_all e,
    ground (arith, flush_all-IsFlushed n e),
    ground (arith, flush_all-IsFlushed n e),
    ground (arith, flush_all-IsFlushed n e),
    ground (arith, flush_all-IsFlushed n e),
  )

  -- With the last user of a channel that counts one buffer at least, and no fewer than are on its lists,
  -- and that no completion waits for: if every counted one is on a list when the hardware
  -- module's `poison_channel` has returned with 0, `most_stop_channel` returns 0 and leaves a clean channel.
  -- Otherwise it waits, with the lists empty and the number of buffers that are out in `mbo_ref`.
  pub stop_returns : Ends ⊎ Waits
  stop_returns = elim (Bool-cases (on_lists e == n)) [
    | inl b ↦ inl (ends (ground arith))
    | inr b ↦ inr (waits (ground (arith, v.fits)))
  ]

-- The hardware module refuses to stop the channel, and touches no reference.
pub record Refuses (poison : Channel → ℤ × Channel) : Type 0 where
  pub refused : (c : Channel) → ((poison c).0 ==ℤ pos 0) ≡ false
  pub same_mod : (c : Channel) → (poison c).1.mod_refs ≡ c.mod_refs
  pub same_aim0 : (c : Channel) → (poison c).1.aim0 ≡ c.aim0
  pub same_aim1 : (c : Channel) → (poison c).1.aim1 ≡ c.aim1
  pub same_poison : (c : Channel) → (poison c).1.is_poisoned ≡ c.is_poisoned

-- What a refused attempt leaves: the users still hold the channel, which has lost one reference on
-- the hardware module, and stays poisoned.
pub record LostRef (c d : Channel) : Type 0 where
  pub module_ref : d.mod_refs ≡ c.mod_refs -ℤ pos 1
  pub users0 : d.aim0 ≡ c.aim0
  pub users1 : d.aim1 ≡ c.aim1
  pub poisoned : d.is_poisoned ≡ true

-- Where `poison_channel` fails, the call of the last user returns -EAGAIN, with the user still
-- counted; but the reference on the hardware module is gone already, and so a second attempt gives
-- back another one.
pub stop_refused :
    (aim : ℕ) (poison : Channel → ℤ × Channel) (c : Channel)
    → Refuses poison
    → leb_ℤ (pos 2) (c.aim0.refs +ℤ c.aim1.refs) ≡ false
    → (d : Channel) × (most_stop_channel poison aim c ≡ returned eagain d) × LostRef c d
unfolding most_stop_channel
stop_refused aim poison c r last = (
  (poison (stop_begin c)).1,
  ground (arith, r.refused (stop_begin c)),
  ground (
    arith,
    r.same_mod (stop_begin c),
    r.same_aim0 (stop_begin c),
    r.same_aim1 (stop_begin c),
    r.same_poison (stop_begin c),
  ),
)
