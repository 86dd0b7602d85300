-- ===== src/Windows/Closing/Runs.antt =====
-- Runs of the calls that are under way in tun_windows.go, and how many steps are left to them.
use subpass.Go.Threads.Runs
use subpass.Go.Threads.{total}
use subpass.Base.{ℕ, ◌+◌, ◌≤◌, ◌≡◌, arith, true}
use subpass.Windows.Closing.{
  Shared, State, Pc, idle, entered, using, waiting, leaving, swapped, signalled, drained, ended,
  Local, Reachable, unused,
}
use subpass.Windows.Closing.{
  add, load_unset, load_set, wait, retry, return, subtract, swap_unset, swap_set, set_event,
  once_used, running_wait, session_end, adapter_close,
}

-- How many steps of its own a thread is from the end of its call, at most, when the device is closed.
abbrev pub left : Pc → ℕ
left idle = 0
left entered = 2
left using = 4
left waiting = 3
left leaving = 1
left swapped = 4
left signalled = 3
left drained = 2
left ended = 1

-- A step of a thread that is within a call, and a number of such steps.
abbrev pub Going : State → State → Type 0
Going = Runs.Going Local left

abbrev pub Run : State → ℕ → State → Type 0
Run = Runs.Run Local left

abbrev IsShut : Shared → Type 0
IsShut m = m.closed ≡ true

descends : Runs.Descends Local left IsShut
descends m m' p q (add a b c) shut busy = ground arith
descends m m' p q (load_unset a b c d) shut busy = ground arith
descends m m' p q (load_set a b c d) shut busy = ground arith
descends m m' p q (wait a b c) shut busy = ground arith
descends m m' p q (retry a b c) shut busy = ground arith
descends m m' p q (return a b c) shut busy = ground arith
descends m m' p q (subtract a b c) shut busy = ground arith
descends m m' p q (swap_unset a b c d) shut busy = ground arith
descends m m' p q (swap_set a b c d) shut busy = ground arith
descends m m' p q (set_event a b c d) shut busy = ground arith
descends m m' p q (once_used a b c d) shut busy = ground arith
descends m m' p q (running_wait a b c d) shut busy = ground arith
descends m m' p q (session_end a b c) shut busy = ground arith
descends m m' p q (adapter_close a b c) shut busy = ground arith

-- What is left bounds the steps once the device is closed.
pub Run-left :
    (s : State) (n : ℕ) (t : State)
    → Run s n t
    → s.shared.closed ≡ true
    → (n + total left t.threads ≤ total left s.threads) × (t.shared.closed ≡ true)
Run-left = Runs.Run-left Local left IsShut descends

pub run-Reachable : (s : State) (n : ℕ) (t : State) → Run s n t → Reachable s → Reachable t
run-Reachable = Runs.run-Reachable Local left unused idle
