-- ===== src/Signal.antt =====
-- include/fiber_signal.h: a word on which one fiber waits and any fiber raises.
use libfiber.Prelude.{Bool, true, false}

-- FIBER_SIGNAL_NO_WAITER, FIBER_SIGNAL_RAISED, or the fiber that waits.
pub data Word : Type 0 where
  no_waiter raised waiting : Word

-- `scratch` of the fiber that waits: true is FIBER_SIGNAL_READY_TO_WAKE, false NULL.
pub record Signal : Type 0 where
  pub waiter : Word
  pub scratch : Bool

pub init : Signal → Signal
init s = record s { waiter = no_waiter }

-- The compare-exchange of `fiber_signal_wait`; true if the fiber goes to sleep.
abbrev pub arm : Signal → Signal × Bool
arm s = elim (s.waiter) [ no_waiter ↦ (record s { waiter = waiting }, true) | _ ↦ (s, false) ]

-- The exchange of `fiber_signal_raise`; true if a fiber waited, which the raiser has to wake.
abbrev pub raise : Signal → Signal × Bool
raise s = (record s { waiter = raised }, elim (s.waiter) [ waiting ↦ true | _ ↦ false ])

-- The stores that put the word, and `scratch`, back.
abbrev pub reset : Signal → Signal
reset s = record s { waiter = no_waiter }

abbrev pub mark : Bool → Signal → Signal
mark ready s = record s { scratch = ready }
