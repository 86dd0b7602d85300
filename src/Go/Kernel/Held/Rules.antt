-- ===== src/Go/Kernel/Held/Rules.antt =====
-- What is held after code that returned, and after the simplest pieces of code.
use mathlib.Core.Path.{subst}
use subpass.Base.{ℕ, ◌≡◌, refl, Bool, true, false, List}
use subpass.Base.{if◌then◌else◌}
use subpass.Go.Error.{Error}
use subpass.Go.Result.{Result, ok, err, panic, ok-injective}
use subpass.Go.Kernel.{History, M, pure, fail, mapping, wrap_result}
use subpass.Go.Kernel.Held.Counts.{Balance, Ends, Holds, Balance-trans}

module _ {A : Type 0} where
  pub pure-Holds : (f : A → List ℕ) (g : List ℕ) (a : A) → Holds (f a) (pure a) f g
  pure-Holds f g a h fd = refl

  pub fail-Holds : (f : A → List ℕ) (g : List ℕ) (e : Error) → Holds g (fail {A = A} e) f g
  fail-Holds f g e h fd = refl

  pub if-Holds :
      (b : Bool) (m n : M A) (a : List ℕ) (f : A → List ℕ) (g : List ℕ)
      → Holds a m f g
      → Holds a n f g
      → Holds a (if b then m else n) f g
  if-Holds true m n a f g p q = p
  if-Holds false m n a f g p q = q

  pub mapping-Holds :
      (w : Error → Error) (m : M A) (a : List ℕ) (f : A → List ℕ) (g : List ℕ)
      → Holds a m f g
      → Holds a (mapping w m) f g
  mapping-Holds w m a f g p h = by_result (m h) (p h)
    where
      by_result : (r : Result A × History) → Ends h a f g r → Ends h a f g (wrap_result w r)
      by_result (ok x, h') q = q
      by_result (err e, h') q = q
      by_result (panic, h') q = elim q [ ]

  -- What a cleanup leaves, whether it succeeds or not.
  pub Ends-all :
      (h : History) (a g : List ℕ) (r : Result A × History)
      → Ends h a (λ _. g) g r
      → Balance h a r.1 g
  Ends-all h a g (ok x, h') p = p
  Ends-all h a g (err e, h') p = p
  Ends-all h a g (panic, h') p = elim p [ ]

-- A start from which nothing is left over.
pub Ends-after :
    {A : Type 0} (h h' : History) (a b : List ℕ) (f : A → List ℕ) (g : List ℕ)
    (r : Result A × History)
    → Balance h a h' b
    → Ends h' b f g r
    → Ends h a f g r
Ends-after h h' a b f g (ok y, h'') u v = Balance-trans h h' h'' a b (f y) u v
Ends-after h h' a b f g (err e, h'') u v = Balance-trans h h' h'' a b g u v
Ends-after h h' a b f g (panic, h'') u v = v

module _ {A : Type 0} where
  Ends-ok :
      (h : History) (a g : List ℕ) (f : A → List ℕ) (r : Result A × History) {v : A}
      → Ends h a f g r
      → r.0 ≡ ok v
      → Balance h a r.1 (f v)
  Ends-ok h a g f (ok x, h') {v} p e = rw (ok-injective e) at p
  Ends-ok h a g f (err x, h') p e = cc
  Ends-ok h a g f (panic, h') p e = elim p [ ]

  Ends-err :
      (h : History) (a g : List ℕ) (f : A → List ℕ) (r : Result A × History) {x : Error}
      → Ends h a f g r
      → r.0 ≡ err x
      → Balance h a r.1 g
  Ends-err h a g f (ok x, h') p e = cc
  Ends-err h a g f (err x, h') p e = p
  Ends-err h a g f (panic, h') p e = elim p [ ]

  -- What is held after a run that returned a value, and after one that returned an error.
  pub Holds-ok :
      (m : M A) (a : List ℕ) (f : A → List ℕ) (g : List ℕ) (h : History) {v : A}
      → Holds a m f g
      → (m h).0 ≡ ok v
      → Balance h a (m h).1 (f v)
  Holds-ok m a f g h p = Ends-ok h a g f (m h) (p h)

  pub Holds-Returns :
      (m : M A) (a : List ℕ) (f : A → List ℕ) (g : List ℕ) (h h' : History) {v : A}
      → Holds a m f g
      → m h ≡ (ok v, h')
      → Balance h a h' (f v)
  Holds-Returns m a f g h h' {v} p e =
      subst (λ t. Balance h a t (f v)) (λ i. (e i).1) (Holds-ok m a f g h p (λ i. (e i).0))

  pub Holds-err :
      (m : M A) (a : List ℕ) (f : A → List ℕ) (g : List ℕ) (h : History) {x : Error}
      → Holds a m f g
      → (m h).0 ≡ err x
      → Balance h a (m h).1 g
  Holds-err m a f g h p = Ends-err h a g f (m h) (p h)

  -- What is held after code that leaves the same on success and on an error.
  pub Holds-all :
      (m : M A) (a g : List ℕ) (h : History) → Holds a m (λ _. g) g → Balance h a (m h).1 g
  Holds-all m a g h p = Ends-all h a g (m h) (p h)
