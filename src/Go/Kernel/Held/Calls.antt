-- ===== src/Go/Kernel/Held/Calls.antt =====
-- What one system call acquires or gives back.
use subpass.Base.{ℕ, ◌≡◌, arith, true, Option, none, some, List, ◌∷◌}
use subpass.Base.{Bytes, inl, inr, Option-cases}
use subpass.Go.Error.{Errno}
use subpass.Go.Kernel.{
  Family, Call, open_file, socket, close, Reply, History, Kernel, call_result, sys, told,
}
use subpass.Go.Kernel.Held.Counts.{Balance, Ends, Holds, is_neutral}

neutral-Balance :
    (c : Call) (r : Reply) (a : List ℕ) (h : History)
    → is_neutral c ≡ true
    → Balance h a (record { call = c; reply = r } ∷ h) a
neutral-Balance (open_file p) r a h e fd = cc
neutral-Balance (socket f) r a h e fd = cc
neutral-Balance (close x) r a h e fd = cc
neutral-Balance _ r a h e fd = omega arith

pub sys-Holds :
    (kernel : Kernel) (c : Call) (a : List ℕ)
    → is_neutral c ≡ true
    → Holds a (sys kernel c) (λ _. a) a
sys-Holds kernel c a e h = by_reply (kernel h c).errno
  where
    by_reply :
        (n : Option Errno)
        → Ends h a
            (λ _. a)
            a
            (call_result (kernel h c) n, record { call = c; reply = kernel h c } ∷ h)
    by_reply none = neutral-Balance c (kernel h c) a h e
    by_reply (some x) = neutral-Balance c (kernel h c) a h e

pub open_file-Holds :
    (kernel : Kernel) (path : Bytes) (a : List ℕ)
    → Holds a (sys kernel (open_file path)) (λ r. r.value ∷ a) a
open_file-Holds kernel path a h = elim (Option-cases (kernel h (open_file path)).errno) [
  | inl good ↦ rw good (λ fd. omega arith)
  | inr (x, bad) ↦ rw bad (λ fd. omega arith)
]

pub socket-Holds :
    (kernel : Kernel) (family : Family) (a : List ℕ)
    → Holds a (sys kernel (socket family)) (λ r. r.value ∷ a) a
socket-Holds kernel family a h = elim (Option-cases (kernel h (socket family)).errno) [
  | inl good ↦ rw good (λ fd. omega arith)
  | inr (x, bad) ↦ rw bad (λ fd. omega arith)
]

pub close-Holds :
    (kernel : Kernel) (x : ℕ) (a : List ℕ) → Holds (x ∷ a) (sys kernel (close x)) (λ _. a) a
close-Holds kernel x a h = elim (Option-cases (kernel h (close x)).errno) [
  | inl good ↦ rw good (λ fd. omega arith)
  | inr (e, bad) ↦ rw bad (λ fd. omega arith)
]

pub told-Holds :
    (kernel : Kernel) (c : Call) (a : List ℕ)
    → is_neutral c ≡ true
    → Holds a (told kernel c) (λ _. a) a
told-Holds kernel c a e h = neutral-Balance c (kernel h c) a h e
