-- ===== src/Go/Threads.antt =====
-- Goroutines that share a state: a list of places, one for each, of which any may be the next to
-- take a step.
pub mod Runs
use subpass.Base.{
  ℕ, zero, suc, ◌+◌, ◌≤◌, ◌<◌, ◌≡◌, refl, ap, arith, Bool-cases, inl, inr, ltb, List, [], ◌∷◌, ◌++◌,
  replicate,
}

pub record State (S P : Type 0) : Type 0 where
  pub shared : S
  pub threads : List P

module _ {S P : Type 0} (Local : S → P → S → P → Type 0) where
  -- One step of one goroutine; `Local m p m' q` are a goroutine's own steps from the place p to q,
  -- and what is shared before and after.
  pub data Step (s t : State S P) : Type 0 where
    step :
        (before after : List P) (p q : P)
        → Local s.shared p t.shared q
        → s.threads ≡ before ++ (p ∷ after)
        → t.threads ≡ before ++ (q ∷ after)
        → Step s t

  -- What n goroutines reach that start at `idle`.
  pub data Reachable (m : S) (idle : P) : State S P → Type 0 where
    start : (n : ℕ) → Reachable m idle (record { shared = m; threads = replicate n idle })
    next : (s t : State S P) → Reachable m idle s → Step s t → Reachable m idle t

  -- The goroutine between the two lists takes a step.
  pub reach :
      (m : S) (idle : P) (m1 m2 : S) (before after : List P) (p q : P)
      → Reachable m idle (record { shared = m1; threads = before ++ (p ∷ after) })
      → Local m1 p m2 q
      → Reachable m idle (record { shared = m2; threads = before ++ (q ∷ after) })
  reach m idle m1 m2 before after p q reached own =
      next _ _ reached (step before after p q own refl refl)

  -- What holds at the start and is kept by each step.
  pub reachable-all :
      (Inv : State S P → Type 0) (m : S) (idle : P)
      → ((n : ℕ) → Inv (record { shared = m; threads = replicate n idle }))
      → ((s t : State S P) → Step s t → Inv s → Inv t)
      → (s : State S P) → Reachable m idle s
      → Inv s
  reachable-all Inv m idle first keeps _ (start n) = first n
  reachable-all Inv m idle first keeps _ (next s t reached move) =
      keeps s t move (reachable-all Inv m idle first keeps s reached)

module _ {P : Type 0} where
  -- How many goroutines stand where, weighed by a function of the place.
  abbrev pub total : (P → ℕ) → List P → ℕ
  total w [] = 0
  total w (p ∷ ps) = w p + total w ps

  pub total-append :
      (w : P → ℕ) (before : List P) (p : P) (after : List P)
      → total w (before ++ (p ∷ after)) ≡ w p + (total w before + total w after)
  total-append w [] p after = omega arith
  total-append w (q ∷ before) p after = omega (arith, total-append w before p after)

  pub total-replicate : (w : P → ℕ) (n : ℕ) (p : P) → w p ≡ 0 → total w (replicate n p) ≡ 0
  total-replicate w zero p h = refl
  total-replicate w (suc n) p h = omega (arith, total-replicate w n p h)

  pub total-le : (v w : P → ℕ) (ps : List P) → ((p : P) → v p ≤ w p) → total v ps ≤ total w ps
  total-le v w [] bound = omega arith
  total-le v w (p ∷ ps) bound = omega (arith, bound p, total-le v w ps bound)

  -- A goroutine of positive weight, if there is any weight.
  pub found :
      (w : P → ℕ) (ps : List P)
      → 0 < total w ps
      → (before : List P) × (p : P) × (after : List P) × ((ps ≡ before ++ (p ∷ after)) × (0 < w p))
  found w [] some = absurd (omega arith)
  found w (p ∷ ps) some = elim (Bool-cases (ltb 0 (w p))) [
    | inl here ↦ ([], p, ps, (refl, ground arith))
    | inr elsewhere ↦
        let (before, q, after, (split, heavy)) = found w ps (ground arith) in
        (p ∷ before, q, after, (ap (λ t. p ∷ t) split, heavy))
  ]
