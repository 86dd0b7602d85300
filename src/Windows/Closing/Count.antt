-- ===== src/Windows/Closing/Count.antt =====
-- The places of threads that matter, as weights.
use subpass.Base.{ℕ, ◌≤◌, arith}
use subpass.Windows.Closing.{
  Pc, idle, entered, using, waiting, leaving, swapped, signalled, drained, ended,
}

-- The threads that have added themselves to `running`.
abbrev pub inside : Pc → ℕ
inside entered = 1
inside using = 1
inside waiting = 1
inside leaving = 1
inside _ = 0

-- Those that found the device open, and may call a function of the session.
abbrev pub in_use : Pc → ℕ
in_use using = 1
in_use waiting = 1
in_use _ = 0

-- Those of `Close` before `onceClose`, up to the end of the session, and after it.
abbrev pub before_once : Pc → ℕ
before_once swapped = 1
before_once _ = 0

abbrev pub within_once : Pc → ℕ
within_once signalled = 1
within_once _ = 0

abbrev pub past_wait : Pc → ℕ
past_wait drained = 1
past_wait _ = 0

abbrev pub past_end : Pc → ℕ
past_end ended = 1
past_end _ = 0

pub in_use_le : (p : Pc) → in_use p ≤ inside p
in_use_le idle = omega arith
in_use_le entered = omega arith
in_use_le using = omega arith
in_use_le waiting = omega arith
in_use_le leaving = omega arith
in_use_le swapped = omega arith
in_use_le signalled = omega arith
in_use_le drained = omega arith
in_use_le ended = omega arith
