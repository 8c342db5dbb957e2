-- ===== src/Common/Halt.antt =====
-- Code that may panic: a panic is told apart from the errors that it returns.
use oxidarr.Common.Outcome.{Outcome, map_err}

pub data Halt (E : Type 0) : Type 0 where
  raised : E → Halt E
  panicked : Halt E

abbrev pub raising : {E A : Type 0} → Outcome E A → Outcome (Halt E) A
raising r = map_err raised r

abbrev pub map_halt : {E F A : Type 0} → (E → F) → Outcome (Halt E) A → Outcome (Halt F) A
map_halt {E} {F} f r = map_err of r
  where
    of : Halt E → Halt F
    of (raised e) = raised (f e)
    of panicked = panicked
