-- ===== src/Core/System/Level.antt =====
-- `mbo_nq_level` of an Rx channel over any order of steps: it counts the buffers that wait for the
-- hardware or are with it, and one more for every completion with a fault.
use unicens2_driver.Common.{
  ℕ, ◌+◌, ◌≡◌, ap, ◌∙◌, false, List, ◌∷◌, ◌++◌, if◌then◌else◌, arith, length, length-append,
}
use unicens2_driver.Common.Int.{pos, ◌+ℤ◌, pos_part, neg_part, +ℤ_parts, eq_of_parts}
use unicens2_driver.Core.Types.{Mbo, Channel, ch_rx}
use unicens2_driver.Core.Channel.{Round, stopped, idle, failed, passed}
use unicens2_driver.Core.Channel.Copies.{copies, copies-middle, writers}
use unicens2_driver.Core.Channel.Level.{
  Drifts, is_fault, put-Drifts, read-Drifts, get-Drifts, fed, round-Drifts, halt-Drifts,
  resume-Drifts,
}
use unicens2_driver.Core.Run.Copies.{stop_begin_poisons}
use unicens2_driver.Core.System.Links.{SameLinks-Step}
use unicens2_driver.Core.System.Owned.{owned, owned-Step}
use unicens2_driver.Core.System.{
  System, with_round, Step, gets, submits, puts, feeds, writes, reads, halts, resumes, poisons,
  Reach, here, next,
}

-- The buffers that `enqueue` has not been asked for yet, and those that are not completed.
abbrev pub queued : System → ℕ
queued s = length s.chan.halt_fifo + length s.hdm

-- The completions with a status other than success in an order of steps.
abbrev pub step_faults : {s t : System} → Step s t → ℕ
step_faults (reads s xs ys m st rx e w) = if is_fault st then 1 else 0
step_faults (gets s aim m e) = 0
step_faults (submits s xs ys m n e d) = 0
step_faults (puts s xs ys m e) = 0
step_faults (feeds s stop enqueue) = 0
step_faults (writes s xs ys m st e w) = 0
step_faults (halts s) = 0
step_faults (resumes s) = 0
step_faults (poisons s) = 0

pub faults : {s t : System} → Reach s t → ℕ
faults here = 0
faults (next r st) = faults r + step_faults st

-- The level less what is queued grows by `a`.
abbrev Exceeds : ℕ → System → System → Type 0
Exceeds a s t =
    pos_part t.chan.mbo_nq_level + neg_part s.chan.mbo_nq_level + queued s
    ≡ pos_part s.chan.mbo_nq_level + neg_part t.chan.mbo_nq_level + queued t + a

length-middle : (xs ys : List Mbo) (m : Mbo) → length (xs ++ m ∷ ys) ≡ length (xs ++ ys) + 1
length-middle xs ys m = omega (arith, length-append xs (m ∷ ys), length-append xs ys)

round-Exceeds :
    (s : System) (r : Round) (d : Channel)
    → Drifts (fed r) 0 s.chan d
    → Exceeds 0 s (with_round s (r, d))
round-Exceeds s (passed m) d h = omega arith
round-Exceeds s stopped d h = omega arith
round-Exceeds s idle d h = omega arith
round-Exceeds s failed d h = omega arith

-- An Rx channel whose buffers complete as reads.
pub record IsRx (s : System) : Type 0 where
  pub direction : s.chan.cfg.direction ≡ ch_rx
  pub no_writer : owned writers s ≡ 0

Exceeds-Step :
    {s t : System}
    → IsRx s
    → s.chan.is_poisoned ≡ false
    → (st : Step s t) → t.chan.is_poisoned ≡ false
    → Exceeds (step_faults st) s t
Exceeds-Step v h (gets s aim m e) g = omega (arith, get-Drifts aim s.chan)
Exceeds-Step v h (submits s xs ys m n e d) g = absurd (omega (arith, v.direction))
Exceeds-Step v h (puts s xs ys m e) g = omega (arith, put-Drifts m s.chan v.direction)
Exceeds-Step v h (feeds s stop enqueue) g = round-Exceeds s _ _ (round-Drifts stop enqueue s.chan)
Exceeds-Step v h (writes s xs ys m st e w) g = absurd (
    ground (
      arith,
      v.no_writer,
      ap (copies writers) e,
      copies-middle writers xs ys m,
      ap (writers m.id) w,
    ))
Exceeds-Step v h (reads s xs ys m st rx e w) g = ground (
  arith,
  ap (length {A = Mbo}) e,
  length-middle xs ys m,
  read-Drifts rx (record m { status = st }) s.chan v.direction h,
)
Exceeds-Step v h (halts s) g = omega (arith, halt-Drifts s.chan)
Exceeds-Step v h (resumes s) g = omega (arith, resume-Drifts s.chan)
Exceeds-Step v h (poisons s) g = ground (arith, stop_begin_poisons s.chan)

healthy_before : {s t : System} → Step s t → t.chan.is_poisoned ≡ false → s.chan.is_poisoned ≡ false
healthy_before st h = ground (arith, SameLinks-Step st)

IsRx-Step : {s t : System} → IsRx s → Step s t → IsRx t
IsRx-Step v st = record {
  direction = ground (arith, SameLinks-Step st);
  no_writer = owned-Step writers st ∙ v.no_writer;
}

IsRx-Reach : {s t : System} → IsRx s → Reach s t → IsRx t
IsRx-Reach v here = v
IsRx-Reach v (next r st) = IsRx-Step (IsRx-Reach v r) st

Exceeds-Reach :
    {s t : System} → IsRx s → (r : Reach s t) → t.chan.is_poisoned ≡ false → Exceeds (faults r) s t
unfolding faults
Exceeds-Reach v here h = omega arith
Exceeds-Reach v (next r st) h =
    let g = healthy_before st h in
    omega (arith, Exceeds-Reach v r g, Exceeds-Step (IsRx-Reach v r) g st h)

-- On an Rx channel that is not poisoned, in every order of steps, `mbo_nq_level` grows by as much as
-- the number of buffers that wait for the hardware or are with it, and by one more for each
-- completion whose status is not success.
pub level-Reach :
    {s t : System}
    → IsRx s
    → (r : Reach s t) → t.chan.is_poisoned ≡ false
    → t.chan.mbo_nq_level +ℤ pos (queued s) ≡ s.chan.mbo_nq_level +ℤ pos (queued t + faults r)
level-Reach {s} {t} v r h = eq_of_parts _ _ (
    omega (
      arith,
      Exceeds-Reach v r h,
      +ℤ_parts t.chan.mbo_nq_level (pos (queued s)),
      +ℤ_parts s.chan.mbo_nq_level (pos (queued t + faults r)),
    ))
