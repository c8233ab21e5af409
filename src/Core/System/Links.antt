-- ===== src/Core/System/Links.antt =====
-- The configuration and the links of a channel stay as they are from step to step.
use unicens2_driver.Core.Channel.{stopped, idle, failed, passed, Round}
use unicens2_driver.Core.Types.{Channel}
use unicens2_driver.Core.Channel.Links.{
  SameLinks, SameLinks-put, SameLinks-submit, SameLinks-write, SameLinks-read, SameLinks-get,
  SameLinks-round, SameLinks-halt, SameLinks-resume,
}
use unicens2_driver.Core.Run.Copies.{SameLinks-stop_begin}
use unicens2_driver.Core.System.{
  System, with_round, Step, gets, submits, puts, feeds, writes, reads, halts, resumes, poisons,
}

round-links :
    (s : System) (r : Round) (d : Channel)
    → SameLinks s.chan d
    → SameLinks s.chan (with_round s (r, d)).chan
round-links s (passed m) d h = h
round-links s stopped d h = h
round-links s idle d h = h
round-links s failed d h = h

pub SameLinks-Step : {s t : System} → Step s t → SameLinks s.chan t.chan
SameLinks-Step (gets s aim m e) = SameLinks-get aim s.chan
SameLinks-Step (submits s xs ys m n e d) = SameLinks-submit _ s.chan
SameLinks-Step (puts s xs ys m e) = SameLinks-put m s.chan
SameLinks-Step (feeds s stop enqueue) = round-links s _ _ (SameLinks-round stop enqueue s.chan)
SameLinks-Step (writes s xs ys m st e w) = SameLinks-write _ s.chan
SameLinks-Step (reads s xs ys m st rx e w) = SameLinks-read rx _ s.chan
SameLinks-Step (halts s) = SameLinks-halt s.chan
SameLinks-Step (resumes s) = SameLinks-resume s.chan
SameLinks-Step (poisons s) = SameLinks-stop_begin s.chan
