-- ===== src/Go/Threads/Runs.antt =====
-- Goroutines whose calls are under way, and how many steps are left to them.
use subpass.Base.{ℕ, suc, ◌+◌, ◌≤◌, ◌<◌, ◌≡◌, refl, arith, List, ◌∷◌, ◌++◌}
use subpass.Go.Threads.{State, step, Reachable, next, total, total-append}

-- `left p` is 0 where no call is under way.
module _ {S P : Type 0} (Local : S → P → S → P → Type 0) (left : P → ℕ) where
  -- A step of a goroutine within a call.
  pub data Going (s t : State S P) : Type 0 where
    go :
        (before after : List P) (p q : P)
        → Local s.shared p t.shared q
        → s.threads ≡ before ++ (p ∷ after)
        → t.threads ≡ before ++ (q ∷ after)
        → 0 < left p
        → Going s t

  -- A number of such steps.
  pub data Run : State S P → ℕ → State S P → Type 0 where
    stay : (s : State S P) → Run s 0 s
    more : (s : State S P) (n : ℕ) (t u : State S P) → Run s n t → Going t u → Run s (suc n) u

  pub run-Reachable :
      (m : S) (idle : P) (s : State S P) (n : ℕ) (t : State S P)
      → Run s n t
      → Reachable Local m idle s
      → Reachable Local m idle t
  run-Reachable m idle s _ _ (stay _) reached = reached
  run-Reachable m idle s _ u (more _ n t _ run (go before after p q own from to busy)) reached =
      next t u (run-Reachable m idle s n t run reached) (step before after p q own from to)

  -- That a step of a goroutine takes one from what is left to it, at least.
  abbrev pub Descends : (S → Type 0) → Type 0
  Descends Good =
      (m m' : S) (p q : P) → Local m p m' q → Good m → 0 < left p → (left q < left p) × Good m'

  module _ (Good : S → Type 0) (descends : Descends Good) where
    -- The goroutine that takes a step, apart from the others.
    pub Going-left :
        (s t : State S P)
        → Going s t
        → Good s.shared
        → (suc (total left t.threads) ≤ total left s.threads) × Good t.shared
    Going-left s t (go before after p q own from to busy) good =
        let (less, still) = descends s.shared t.shared p q own good busy in
        (
          rw (from, to)
              (omega (arith, total-append left before p after, total-append left before q after)),
          still,
        )

    -- What is left bounds the steps.
    pub Run-left :
        (s : State S P) (n : ℕ) (t : State S P)
        → Run s n t
        → Good s.shared
        → (n + total left t.threads ≤ total left s.threads) × Good t.shared
    Run-left s _ _ (stay _) good = (omega arith, good)
    Run-left s _ u (more _ n t _ run own) good =
        let (down, there) = Run-left s n t run good in
        let (less, still) = Going-left t u own there in (omega arith, still)

  -- A goroutine that can take a step.
  pub takes_step :
      (s : State S P) (before after : List P) (p q : P) (m' : S)
      → s.threads ≡ before ++ (p ∷ after)
      → Local s.shared p m' q
      → 0 < left p
      → (t : State S P) × Going s t
  takes_step s before after p q m' split own busy = (
    record { shared = m'; threads = before ++ (q ∷ after) },
    go before after p q own split refl busy,
  )
