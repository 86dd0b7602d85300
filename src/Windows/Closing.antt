-- ===== src/Windows/Closing.antt =====
-- `Close` of tun_windows.go beside the reads and writes of other threads: the fields `closed`,
-- `running` and `onceClose` that they share, and the steps of each thread.
pub mod Count
mod Invariant
pub mod Safety
pub mod Runs
pub mod Ending
use subpass.Go.Threads
use subpass.Base.{ℕ, ◌+◌, ◌-◌, ◌≡◌, Bool, true, false, List, [], ◌∷◌, ◌++◌, replicate}

-- What the threads share; `session_ends` and `adapter_closes` count the calls of `session.End` and
-- `adaptor.Close`.
pub record Shared : Type 0 where
  pub closed : Bool
  pub once : Bool
  pub running : ℕ
  pub session_ends : ℕ
  pub adapter_closes : ℕ

-- Where a thread stands. A call of `Read` or `Write` has `entered` when it has added itself to
-- `running`, is `using` the session when it found `closed` unset, may be `waiting` in a read, and is
-- `leaving` when its deferred `Done` is due. A call of `Close` has `swapped` the flag, `signalled`
-- the event, `drained` the other threads, and `ended` the session.
pub data Pc : Type 0 where
  idle entered using waiting leaving : Pc
  swapped signalled drained ended : Pc

-- A thread's own steps from p to q, and the shared fields before and after. `Close` that finds
-- `closed` set returns at once, and so does one that finds `onceClose` used.
pub data Local (m : Shared) (p : Pc) (m' : Shared) (q : Pc) : Type 0 where
  add : p ≡ idle → q ≡ entered → m' ≡ record m { running = m.running + 1 } → Local m p m' q
  load_unset : p ≡ entered → q ≡ using → m.closed ≡ false → m' ≡ m → Local m p m' q
  load_set : p ≡ entered → q ≡ leaving → m.closed ≡ true → m' ≡ m → Local m p m' q
  wait : p ≡ using → q ≡ waiting → m' ≡ m → Local m p m' q
  retry : p ≡ waiting → q ≡ entered → m' ≡ m → Local m p m' q
  return : p ≡ using → q ≡ leaving → m' ≡ m → Local m p m' q
  subtract : p ≡ leaving → q ≡ idle → m' ≡ record m { running = m.running - 1 } → Local m p m' q
  swap_unset :
      p ≡ idle → q ≡ swapped → m.closed ≡ false → m' ≡ record m { closed = true } → Local m p m' q
  swap_set : p ≡ idle → q ≡ idle → m.closed ≡ true → m' ≡ m → Local m p m' q
  set_event :
      p ≡ swapped
      → q ≡ signalled
      → m.once ≡ false
      → m' ≡ record m { closed = true; once = true }
      → Local m p m' q
  once_used : p ≡ swapped → q ≡ idle → m.once ≡ true → m' ≡ m → Local m p m' q
  running_wait : p ≡ signalled → q ≡ drained → m.running ≡ 0 → m' ≡ m → Local m p m' q
  session_end :
      p ≡ drained → q ≡ ended → m' ≡ record m { session_ends = m.session_ends + 1 } → Local m p m' q
  adapter_close :
      p ≡ ended
      → q ≡ idle
      → m' ≡ record m { adapter_closes = m.adapter_closes + 1 }
      → Local m p m' q

abbrev pub State : Type 0
State = Threads.State Shared Pc

-- One step of one thread.
abbrev pub Step : State → State → Type 0
Step = Threads.Step Local

-- What the threads of a device share that was just made.
abbrev pub unused : Shared
unused = record { closed = false; once = false; running = 0; session_ends = 0; adapter_closes = 0 }

-- Such a device, with n threads.
abbrev pub fresh : ℕ → State
fresh n = record { shared = unused; threads = replicate n idle }

abbrev pub Reachable : State → Type 0
Reachable = Threads.Reachable Local unused idle
