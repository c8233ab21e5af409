-- ===== src/Core/System/Share.antt =====
-- The two application modules of a Tx channel share its buffers: each counter holds what is left of
-- its share, and with both modules running neither exceeds its share.
use unicens2_driver.Common.{ℕ, ◌+◌, ◌≡◌, ◌≤◌, ap, arith}
use unicens2_driver.Common.Int.{pos, ◌+ℤ◌, +ℤ_parts, eq_of_parts, pos_part, neg_part}
use unicens2_driver.Core.Types.{Channel, Counter, of_aim0, of_aim1, ch_tx}
use unicens2_driver.Core.Channel.{Round, stopped, idle, failed, passed}
use unicens2_driver.Core.Channel.Balance.{
  charged, charged-cons, charged-middle, count_of, on_lists_of, Adds, submit-Adds, put-Adds,
  write-Adds, read-Adds, get-Adds, round-Adds, halt-Adds, resume-Adds, taken, passed_charge,
}
use unicens2_driver.Core.Channel.Floor.{
  IsShared, BothRun, IsShared-submit, IsShared-put, IsShared-write, IsShared-read, IsShared-get,
  IsShared-round, IsShared-halt, IsShared-resume,
}
use unicens2_driver.Core.Run.Copies.{stop_begin-Adds, IsShared-stop_begin}
use unicens2_driver.Core.System.Links.{SameLinks-Step}
use unicens2_driver.Core.System.{
  System, with_round, Step, gets, submits, puts, feeds, writes, reads, halts, resumes, poisons,
  Reach, here, next,
}

-- The buffers of a counter that are out of the pool.
abbrev pub out : Counter → System → ℕ
out k s = on_lists_of k s.chan + charged k s.hdm + charged k s.held

-- `out` grows by as much as the counter falls.
abbrev Moves : Counter → System → System → Type 0
Moves k s t =
    pos_part (count_of k t.chan) + neg_part (count_of k s.chan) + out k t
    ≡ pos_part (count_of k s.chan) + neg_part (count_of k t.chan) + out k s

round-Moves :
    (k : Counter) (s : System) (r : Round) (d : Channel)
    → Adds k (passed_charge k r) d s.chan
    → Moves k s (with_round s (r, d))
round-Moves k s (passed m) d h = omega (arith, charged-cons k m s.hdm)
round-Moves k s stopped d h = omega arith
round-Moves k s idle d h = omega arith
round-Moves k s failed d h = omega arith

Moves-Step : (k : Counter) {s t : System} → s.chan.cfg.direction ≡ ch_tx → Step s t → Moves k s t
Moves-Step k tx (gets s aim m e) =
    omega (arith, get-Adds k aim s.chan, ap (taken k) e, charged-cons k m s.held)
Moves-Step k tx (submits s xs ys m n e d) = omega (
  arith,
  ap (charged k) e,
  charged-middle k xs ys m,
  submit-Adds k (record m { buffer_length = n }) s.chan,
)
Moves-Step k tx (puts s xs ys m e) =
    omega (arith, ap (charged k) e, charged-middle k xs ys m, put-Adds k m s.chan tx)
Moves-Step k tx (feeds s stop enqueue) = round-Moves k s _ _ (round-Adds k stop enqueue s.chan)
Moves-Step k tx (writes s xs ys m st e w) = omega (
  arith,
  ap (charged k) e,
  charged-middle k xs ys m,
  write-Adds k (record m { status = st }) s.chan tx,
)
Moves-Step k tx (reads s xs ys m st rx e w) = ground (
  arith,
  ap (charged k) e,
  charged-middle k xs ys m,
  charged-cons k (record m { status = st }) s.held,
  read-Adds k (record m { status = st }) s.chan tx rx,
)
Moves-Step k tx (halts s) = omega (arith, halt-Adds k s.chan)
Moves-Step k tx (resumes s) = omega (arith, resume-Adds k s.chan)
Moves-Step k tx (poisons s) = omega (arith, stop_begin-Adds k s.chan)

pub tx-Reach :
    {s t : System} → Reach s t → s.chan.cfg.direction ≡ ch_tx → t.chan.cfg.direction ≡ ch_tx
tx-Reach here h = h
tx-Reach (next r st) h = ground (arith, SameLinks-Step st, tx-Reach r h)

Moves-Reach : (k : Counter) {s t : System} → s.chan.cfg.direction ≡ ch_tx → Reach s t → Moves k s t
Moves-Reach k h here = omega arith
Moves-Reach k h (next r st) = omega (arith, Moves-Reach k h r, Moves-Step k (tx-Reach r h) st)

-- On a Tx channel, in every order of steps, a counter and the buffers charged to it that are out of
-- the pool keep their sum: what a link has left plus what it has out is its share.
pub share-Reach :
    (k : Counter) {s t : System}
    → s.chan.cfg.direction ≡ ch_tx
    → Reach s t
    → count_of k t.chan +ℤ pos (out k t) ≡ count_of k s.chan +ℤ pos (out k s)
share-Reach k {s} {t} h r = eq_of_parts _ _ (
    omega (
      arith,
      Moves-Reach k h r,
      +ℤ_parts (count_of k t.chan) (pos (out k t)),
      +ℤ_parts (count_of k s.chan) (pos (out k s)),
    ))

round-IsShared :
    (s : System) (r : Round) (d : Channel) → IsShared d → IsShared (with_round s (r, d)).chan
round-IsShared s (passed m) d h = h
round-IsShared s stopped d h = h
round-IsShared s idle d h = h
round-IsShared s failed d h = h

IsShared-Step : {s t : System} → BothRun s.chan → IsShared s.chan → Step s t → IsShared t.chan
IsShared-Step b v (gets s aim m e) = IsShared-get aim s.chan b v
IsShared-Step b v (submits s xs ys m n e d) = IsShared-submit _ s.chan v
IsShared-Step b v (puts s xs ys m e) = IsShared-put m s.chan v
IsShared-Step b v (feeds s stop enqueue) =
    round-IsShared s _ _ (IsShared-round stop enqueue s.chan v)
IsShared-Step b v (writes s xs ys m st e w) = IsShared-write _ s.chan v
IsShared-Step b v (reads s xs ys m st rx e w) = IsShared-read rx _ s.chan v
IsShared-Step b v (halts s) = IsShared-halt s.chan v
IsShared-Step b v (resumes s) = IsShared-resume s.chan v
IsShared-Step b v (poisons s) = IsShared-stop_begin s.chan v

BothRun-Step : {s t : System} → Step s t → BothRun s.chan → BothRun t.chan
BothRun-Step st b = ground (arith, SameLinks-Step st)

BothRun-Reach : {s t : System} → Reach s t → BothRun s.chan → BothRun t.chan
BothRun-Reach here b = b
BothRun-Reach (next r st) b = BothRun-Step st (BothRun-Reach r b)

IsShared-Reach : {s t : System} → BothRun s.chan → IsShared s.chan → Reach s t → IsShared t.chan
IsShared-Reach b v here = v
IsShared-Reach b v (next r st) = IsShared-Step (BothRun-Reach r b) (IsShared-Reach b v r) st

-- On a Tx channel that both modules run, with the counters at the two shares and no buffer out, no
-- order of steps takes more buffers out of the pool on behalf of a module than its share.
pub out-le-share :
    {n0 n1 : ℕ} {s t : System}
    → s.chan.cfg.direction ≡ ch_tx
    → BothRun s.chan
    → s.chan.aim0.num_buffers ≡ pos n0
    → s.chan.aim1.num_buffers ≡ pos n1
    → out of_aim0 s ≡ 0
    → out of_aim1 s ≡ 0
    → Reach s t
    → (out of_aim0 t ≤ n0) × (out of_aim1 t ≤ n1)
out-le-share h b e0 e1 z0 z1 r =
    let v = IsShared-Reach b (record { floor0 = ground arith; floor1 = ground arith }) r in
    ground (arith, v, Moves-Reach of_aim0 h r, Moves-Reach of_aim1 h r)
