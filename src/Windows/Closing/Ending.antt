-- ===== src/Windows/Closing/Ending.antt =====
-- `Close` of tun_windows.go comes to its end when no new calls are made.
use subpass.Base.{ℕ, ◌+◌, ◌≤◌, ◌<◌, ◌≡◌, refl, arith, true, Bool-cases, ◌⊎◌, inl, inr, ltb}
use subpass.Windows.Closing.{
  Shared, State, Pc, idle, entered, using, waiting, leaving, swapped, signalled, drained, ended,
  Local, Reachable,
}
use subpass.Windows.Closing.{
  load_set, retry, return, subtract, set_event, once_used, running_wait, session_end, adapter_close,
}
use subpass.Go.Threads.{total, total-le, found}
use subpass.Go.Threads.Runs.{takes_step}
use subpass.Windows.Closing.Count.{inside, before_once, within_once, past_wait, past_end}
use subpass.Windows.Closing.Invariant.{reachable-Inv}
use subpass.Windows.Closing.Runs.{left, Going, Run, Run-left, run-Reachable}

-- Once the device is closed a read or a write can go on, and so can `Close` if none is under way.
inside-moves :
    (m : Shared) (p : Pc)
    → m.closed ≡ true
    → 0 < inside p
    → (m' : Shared) × (q : Pc) × (Local m p m' q × (0 < left p))
inside-moves m entered shut busy = (m, leaving, (load_set refl refl shut refl, omega arith))
inside-moves m using shut busy = (m, leaving, (return refl refl refl, omega arith))
inside-moves m waiting shut busy = (m, entered, (retry refl refl refl, omega arith))
inside-moves m leaving shut busy = (_, idle, (subtract refl refl refl, omega arith))
inside-moves m idle shut busy = absurd (omega arith)
inside-moves m swapped shut busy = absurd (omega arith)
inside-moves m signalled shut busy = absurd (omega arith)
inside-moves m drained shut busy = absurd (omega arith)
inside-moves m ended shut busy = absurd (omega arith)

close-moves :
    (m : Shared) (p : Pc)
    → m.closed ≡ true
    → m.running ≡ 0
    → 0 < left p
    → (m' : Shared) × (q : Pc) × Local m p m' q
close-moves m idle shut quiet busy = absurd (omega arith)
close-moves m entered shut quiet busy = (m, leaving, load_set refl refl shut refl)
close-moves m using shut quiet busy = (m, leaving, return refl refl refl)
close-moves m waiting shut quiet busy = (m, entered, retry refl refl refl)
close-moves m leaving shut quiet busy = (_, idle, subtract refl refl refl)
close-moves m swapped shut quiet busy = elim (Bool-cases m.once) [
  | inl used ↦ (m, idle, once_used refl refl used refl)
  | inr unused ↦ (_, signalled, set_event refl refl unused refl)
]
close-moves m signalled shut quiet busy = (m, drained, running_wait refl refl quiet refl)
close-moves m drained shut quiet busy = (_, ended, session_end refl refl refl)
close-moves m ended shut quiet busy = (_, idle, adapter_close refl refl refl)

-- Unless all threads are idle, one of them can go on.
goes_on :
    (s : State)
    → Reachable s
    → s.shared.closed ≡ true
    → 0 < total left s.threads
    → (t : State) × Going s t
goes_on s reached shut busy = elim (Bool-cases (ltb 0 (total inside s.threads))) [
  | inl some_inside ↦
      let (before, p, after, (split, here)) = found inside s.threads (ground arith) in
      let (m, q, (move, far)) = inside-moves s.shared p shut here in
      takes_step Local left s before after p q m split move far
  | inr none_inside ↦
      let quiet : s.shared.running ≡ 0 = let inv = reachable-Inv s reached in ground arith in
      let (before, p, after, (split, far)) = found left s.threads busy in
      let (m, q, move) = close-moves s.shared p shut quiet far in
      takes_step Local left s before after p q m split move far
]

-- Where no steps are left, no thread is in `Close`.
closers_le : (p : Pc) → before_once p + within_once p + past_wait p + past_end p ≤ left p
closers_le idle = omega arith
closers_le entered = omega arith
closers_le using = omega arith
closers_le waiting = omega arith
closers_le leaving = omega arith
closers_le swapped = omega arith
closers_le signalled = omega arith
closers_le drained = omega arith
closers_le ended = omega arith

all_over :
    (s : State)
    → Reachable s
    → s.shared.closed ≡ true
    → total left s.threads ≡ 0
    → (s.shared.session_ends ≡ 1) × (s.shared.adapter_closes ≡ 1)
all_over s reached shut over =
    let inv = reachable-Inv s reached in
    let a = total-le before_once left s.threads (λ p. omega (arith, closers_le p)) in
    let b = total-le within_once left s.threads (λ p. omega (arith, closers_le p)) in
    let c = total-le past_wait left s.threads (λ p. omega (arith, closers_le p)) in
    let d = total-le past_end left s.threads (λ p. omega (arith, closers_le p)) in
    (ground arith, ground arith)

-- Once `closed` is set, the steps of the calls that are under way are bounded: each takes one from
-- what is left. At every point either some thread can go on, or all calls are done and then the
-- session has been ended and the adapter closed, once each. A wait for a packet is taken to end,
-- and calls that begin after the flag was set are not counted.
pub close_ends :
    (s t : State) (n : ℕ)
    → Reachable s
    → s.shared.closed ≡ true
    → Run s n t
    → (n + total left t.threads ≤ total left s.threads)
      × (((u : State) × Going t u)
          ⊎ ((total left t.threads ≡ 0)
              × (t.shared.session_ends ≡ 1)
              × (t.shared.adapter_closes ≡ 1)))
close_ends s t n reached shut run =
    let (fits, still) = Run-left s n t run shut in
    let there = run-Reachable s n t run reached in
    (
      fits,
      elim (Bool-cases (ltb 0 (total left t.threads))) [
        | inl some_left ↦ inl (goes_on t there still (ground arith))
        | inr none_left ↦
            let over : total left t.threads ≡ 0 = ground arith in
            let (ends, closes) = all_over t there still over in inr (over, ends, closes)
      ],
    )
