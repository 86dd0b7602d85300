-- ===== src/Go/Kernel/Held/Parts.antt =====
-- What code holds that is put together from parts: sequences, cleanups and tests.
use subpass.Base.{◌≢◌, ℕ, ◌≡◌, refl, arith, Bool, true, false, List}
use subpass.Go.Error.{Error}
use subpass.Go.Result.{Result, ok, err, panic}
use subpass.Go.Kernel.{
  Call, History, Kernel, M, fail_if, lift, ◌>>=◌, done, mapping, clean_if, clean, on_error,
  on_error_if, finally, bind_result, or_else, second_if,
}
use subpass.Go.Kernel.Held.Counts.{Ends, Holds, is_neutral, Balance-trans, Same}
use subpass.Go.Kernel.Held.Calls.{sys-Holds}
use subpass.Go.Kernel.Held.Rules.{pure-Holds, fail-Holds, mapping-Holds, Ends-after, Ends-all}

module _ {A : Type 0} where
  pub or_else-Holds :
      (m again : M A) (a b : List ℕ) (f : A → List ℕ) (g : List ℕ)
      → Holds a m f b
      → Holds b again f g
      → Holds a (or_else m again) f g
  or_else-Holds m again a b f g p q h = by_result (m h) (p h)
    where
      by_result : (r : Result A × History) → Ends h a f b r → Ends h a f g (second_if again r)
      by_result (ok x, h') u = u
      by_result (err e, h') u = Ends-after h h' a b f g (again h') u (q h')
      by_result (panic, h') u = u

module _ {A B : Type 0} where
  pub bind-Holds :
      (m : M A) (k : A → M B) (a : List ℕ) (f : A → List ℕ) (f' : B → List ℕ) (g : List ℕ)
      → Holds a m f g
      → ((x : A) → Holds (f x) (k x) f' g)
      → Holds a (m >>= k) f' g
  bind-Holds m k a f f' g p q h = by_result (m h) (p h)
    where
      by_result : (r : Result A × History) → Ends h a f g r → Ends h a f' g (bind_result k r)
      by_result (ok x, h') u = Ends-after h h' a (f x) f' g (k x h') u (q x h')
      by_result (err e, h') u = u
      by_result (panic, h') u = u

  pub on_error-Holds :
      (cleanup : M B) (m : M A) (a b : List ℕ) (f : A → List ℕ) (g : List ℕ)
      → Holds a m f b
      → Holds b cleanup (λ _. g) g
      → Holds a (on_error cleanup m) f g
  on_error-Holds cleanup m a b f g p q h = by_result (m h) (p h)
    where
      by_result : (r : Result A × History) → Ends h a f b r → Ends h a f g (clean_if cleanup r)
      by_result (ok x, h') u = u
      by_result (err e, h') u =
          Balance-trans h h' (cleanup h').1 a b g u (Ends-all h' b g (cleanup h') (q h'))
      by_result (panic, h') u = u

  pub finally-Holds :
      (cleanup : M B) (m : M A) (a b : List ℕ) (f f' : A → List ℕ) (g : List ℕ)
      → Holds a m f b
      → ((x : A) → Holds (f x) cleanup (λ _. f' x) (f' x))
      → Holds b cleanup (λ _. g) g
      → Holds a (finally cleanup m) f' g
  finally-Holds cleanup m a b f f' g p q q' h = by_result (m h) (p h)
    where
      by_result : (r : Result A × History) → Ends h a f b r → Ends h a f' g (clean cleanup r)
      by_result (ok x, h') u =
          Balance-trans h h' (cleanup h').1 a (f x) (f' x) u
            (Ends-all h' (f x) (f' x) (cleanup h') (q x h'))
      by_result (err e, h') u =
          Balance-trans h h' (cleanup h').1 a b g u (Ends-all h' b g (cleanup h') (q' h'))
      by_result (panic, h') u = u

  -- A value computed beforehand.
  pub lift-Holds :
      (r : Result A) (k : A → M B) (a : List ℕ) (f : B → List ℕ)
      → r ≢ panic
      → ((x : A) → r ≡ ok x → Holds a (k x) f a)
      → Holds a (lift r >>= k) f a
  lift-Holds (ok x) k a f calm q = q x refl
  lift-Holds (err e) k a f calm q = λ h fd. refl
  lift-Holds panic k a f calm q = absurd (calm refl)

  pub on_error_if-Holds :
      (c : Bool) (cleanup : M B) (m : M A) (a : List ℕ) (f : A → List ℕ)
      → Holds a m f a
      → Holds a cleanup (λ _. a) a
      → Holds a (on_error_if c cleanup m) f a
  on_error_if-Holds true cleanup m a f p q = on_error-Holds cleanup m a a f a p q
  on_error_if-Holds false cleanup m a f p q = p

-- A call that leaves the descriptors alone, between what comes before and what follows.
pub done-Holds :
    (kernel : Kernel) (c : Call) (a : List ℕ)
    → is_neutral c ≡ true
    → Holds a (done kernel c) (λ _. a) a
done-Holds kernel c a e =
    bind-Holds _ _ a (λ _. a) (λ _. a) a (sys-Holds kernel c a e) (λ _. pure-Holds (λ _. a) a tt)

-- The same, where the error is wrapped.
pub wrapped-Holds :
    (w : Error → Error) (kernel : Kernel) (c : Call) (a : List ℕ)
    → is_neutral c ≡ true
    → Holds a (mapping w (done kernel c)) (λ _. a) a
wrapped-Holds w kernel c a e = mapping-Holds w _ a (λ _. a) a (done-Holds kernel c a e)

-- The first part leaves the descriptors alone.
pub then-Holds :
    {A B : Type 0} (m : M A) (k : A → M B) (a : List ℕ) (f : B → List ℕ) (g : List ℕ)
    → Holds a m (λ _. a) g
    → ((x : A) → Holds a (k x) f g)
    → Holds a (m >>= k) f g
then-Holds m k a f g p q = bind-Holds m k a (λ _. a) f g p q

pub fail_if-Holds : (c : Bool) (e : Error) (a : List ℕ) → Holds a (fail_if c e) (λ _. a) a
fail_if-Holds true e a = fail-Holds {A = Unit {0}} (λ _. a) a e
fail_if-Holds false e a = pure-Holds (λ _. a) a tt

pub lifted-Holds :
    {A : Type 0} (r : Result A) (a : List ℕ) → r ≢ panic → Holds a (lift r) (λ _. a) a
lifted-Holds {A} (ok x) a calm = pure-Holds (λ _. a) a x
lifted-Holds {A} (err e) a calm = fail-Holds {A = A} (λ _. a) a e
lifted-Holds {A} panic a calm = absurd (calm refl)

pub before-Holds :
    {A : Type 0} (m : M A) (a b : List ℕ) (f : A → List ℕ) (g : List ℕ)
    → Same a b
    → Holds a m f g
    → Holds b m f g
before-Holds {A} m a b f g same p h = by_result (m h) (p h)
  where
    by_result : (r : Result A × History) → Ends h a f g r → Ends h b f g r
    by_result (ok x, h') u = λ fd. omega (arith, u fd, same fd)
    by_result (err e, h') u = λ fd. omega (arith, u fd, same fd)
    by_result (panic, h') u = u
