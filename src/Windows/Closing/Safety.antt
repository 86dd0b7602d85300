-- ===== src/Windows/Closing/Safety.antt =====
-- What `Close` of tun_windows.go promises the threads that read and write.
use subpass.Base.{◌≤◌, ◌<◌, ◌≡◌, arith, Bool-cases, inl, inr, false, List, ◌∷◌, ◌++◌}
use subpass.Windows.Closing.{Pc, swapped, State, Reachable}
use subpass.Go.Threads.{total-append}
use subpass.Windows.Closing.Count.{in_use, before_once}
use subpass.Windows.Closing.Invariant.{reachable-Inv}

-- However many threads read, write and close, in whatever order: the session is ended at most
-- once and the adapter is closed at most once, and not before the session is ended.
pub session_end-once :
    (s : State)
    → Reachable s
    → (s.shared.session_ends ≤ 1) × (s.shared.adapter_closes ≤ s.shared.session_ends)
session_end-once s reached =
    let inv = reachable-Inv s reached in
    elim (Bool-cases s.shared.once) [ inl used ↦ ground arith | inr unused ↦ ground arith ]

-- When the session was ended, no thread is between the test of `closed` and the last call on the
-- session: the session is not used after its end. It was ended once, and the adapter was closed
-- once at most.
pub session_end-alone :
    (s : State) (before after : List Pc) (p : Pc)
    → Reachable s
    → s.threads ≡ before ++ (p ∷ after)
    → 0 < s.shared.session_ends
    → (in_use p ≡ 0) × (s.shared.session_ends ≡ 1) × (s.shared.adapter_closes ≤ 1)
session_end-alone s before after p reached split over =
    let inv = reachable-Inv s reached in
    let sum = total-append in_use before p after in
    let here = rw (← split) at sum in
    let (once, then) = session_end-once s reached in
    (omega (arith, inv.quiet (omega arith)), omega arith, omega arith)

-- The call of `Close` that found `closed` unset is the first that comes to `onceClose`.
pub swapped-once :
    (s : State) (before after : List Pc)
    → Reachable s
    → s.threads ≡ before ++ (swapped ∷ after)
    → s.shared.once ≡ false
swapped-once s before after reached split =
    let inv = reachable-Inv s reached in
    let sum = total-append before_once before swapped after in
    let here = rw (← split) at sum in
    elim (Bool-cases s.shared.once) [
      | inl used ↦ elim (Bool-cases s.shared.closed) [
        | inl shut ↦ absurd (ground arith)
        | inr is_open ↦ absurd (ground arith)
      ]
      | inr unused ↦ unused
    ]
