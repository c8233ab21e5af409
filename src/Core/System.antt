-- ===== src/Core/System.antt =====
-- A channel with its surroundings: the buffers that the hardware module and the application modules
-- hold, and every way in which the parties of mostcore/core.c may take the next step. Any order of
-- calls is an order of steps.
pub mod Moves
pub mod Owned
pub mod Links
pub mod Share
pub mod Level
mod Tests
use unicens2_driver.Common.{ℕ, ◌≡◌, Bool, true, false, Option, some, List, ◌∷◌, ◌++◌, if◌then◌else◌}
use unicens2_driver.Common.Int.{ℤ}
use unicens2_driver.Core.Types.{Mbo, Channel, Status, Completion, read, write, ch_tx}
use unicens2_driver.Core.Channel.{
  most_get_mbo, most_submit_mbo, most_put_mbo, most_write_completion, most_read_completion, Round,
  stopped, idle, failed, passed, hdm_enqueue_round, most_stop_enqueue, most_resume_enqueue,
}
use unicens2_driver.Core.Run.{stop_begin}

-- `hdm` is what `enqueue` has passed to the hardware module and what is not completed yet; `held` is
-- what `most_get_mbo` and `rx_completion` have handed to application modules.
pub record System : Type 0 where
  pub chan : Channel
  pub hdm : List Mbo
  pub held : List Mbo

abbrev pub with_round : System → Round × Channel → System
with_round s (passed m, d) = record s { chan = d; hdm = m ∷ s.hdm }
with_round s (stopped, d) = record s { chan = d }
with_round s (idle, d) = record s { chan = d }
with_round s (failed, d) = record s { chan = d }

-- After `rx_completion` of a buffer that the hardware module gave up.
abbrev pub with_read : List Mbo → Mbo → List Mbo → Channel × Bool → System
with_read rest m held (d, kept) = record {
  chan = d;
  hdm = rest;
  held = if kept then m ∷ held else held;
}

pub data Step : System → System → Type 0 where
  gets :
      (s : System) (aim : ℕ) (m : Mbo)
      → (most_get_mbo aim s.chan).0 ≡ some m
      → Step s (record s { chan = (most_get_mbo aim s.chan).1; held = m ∷ s.held })
  -- An application module fills a Tx buffer and submits it.
  submits :
      (s : System) (xs ys : List Mbo) (m : Mbo) (n : ℕ)
      → s.held ≡ xs ++ m ∷ ys
      → s.chan.cfg.direction ≡ ch_tx
      → Step s (record s {
        chan = most_submit_mbo (some (record m { buffer_length = n })) s.chan;
        held = xs ++ ys;
      })
  puts :
      (s : System) (xs ys : List Mbo) (m : Mbo)
      → s.held ≡ xs ++ m ∷ ys
      → Step s (record s { chan = most_put_mbo m s.chan; held = xs ++ ys })
  feeds :
      (s : System) (stop : Bool) (enqueue : Mbo → ℤ)
      → Step s (with_round s (hdm_enqueue_round stop enqueue s.chan))
  -- The hardware module completes a buffer, with a status of its choice.
  writes :
      (s : System) (xs ys : List Mbo) (m : Mbo) (st : Status)
      → s.hdm ≡ xs ++ m ∷ ys
      → m.complete ≡ write
      → Step s (record s {
        chan = most_write_completion (record m { status = st }) s.chan;
        hdm = xs ++ ys;
      })
  reads :
      (s : System) (xs ys : List Mbo) (m : Mbo) (st : Status) (rx : ℕ → Mbo → ℤ)
      → s.hdm ≡ xs ++ m ∷ ys
      → m.complete ≡ read
      → Step s (
          with_read
            (xs ++ ys)
            (record m { status = st })
            s.held
            (most_read_completion rx (record m { status = st }) s.chan))
  halts : (s : System) → Step s (record s { chan = most_stop_enqueue s.chan })
  resumes : (s : System) → Step s (record s { chan = most_resume_enqueue s.chan })
  -- `most_stop_channel` has begun: from here on completed buffers go to the trash.
  poisons : (s : System) → Step s (record s { chan = stop_begin s.chan })

pub data Reach (s : System) : System → Type 0 where
  here : Reach s s
  next : {t u : System} → Reach s t → Step t u → Reach s u
