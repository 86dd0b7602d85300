-- ===== src/Go/Kernel/Gives.antt =====
-- What holds of a value that a piece of code returns, whatever was called before.
use mathlib.Core.Path.{subst}
use subpass.Base.{◌≡◌, refl, Bool, true, false, Option, none, some, if◌then◌else◌}
use subpass.Go.Error.{Error, Errno}
use subpass.Go.Result.{Result, ok, err, panic}
use subpass.Go.Kernel.{
  Call, Reply, History, Kernel, M, pure, lift, fail_if, sys, call_result, mapping, wrap_result,
  bind_result, ◌>>=◌, on_error, clean_if, on_error_if,
}
use subpass.Go.Kernel.Inversion.{Returns}

abbrev Post : {A : Type 0} → (A → Type 0) → Result A × History → Type 0
Post Q (ok a, h) = Q a
Post Q (err e, h) = Unit {0}
Post Q (panic, h) = Unit {0}

abbrev pub Gives : {A : Type 0} → M A → (A → Type 0) → Type 0
Gives m Q = (h : History) → Post Q (m h)

module _ {A : Type 0} where
  Post-ok :
      (Q : A → Type 0) (x : Result A × History) {a : A} {h : History}
      → Post Q x
      → x ≡ (ok a, h)
      → Q a
  Post-ok Q x {a} {h} p e = subst (Post Q) e p

  pub Gives-Returns :
      (m : M A) (Q : A → Type 0) (h : History) {a : A} {h' : History}
      → Gives m Q
      → Returns m h a h'
      → Q a
  Gives-Returns m Q h p e = Post-ok Q (m h) (p h) e

  pub pure-Gives : (Q : A → Type 0) (a : A) → Q a → Gives (pure a) Q
  pure-Gives Q a q h = q

  if-Gives :
      (b : Bool) (m n : M A) (Q : A → Type 0) → Gives m Q → Gives n Q → Gives (if b then m else n) Q
  if-Gives true m n Q p q = p
  if-Gives false m n Q p q = q

  -- Nothing is claimed of the value.
  Post-any : (x : Result A × History) → Post (λ _. Unit {0}) x
  Post-any (ok a, h) = tt
  Post-any (err e, h) = tt
  Post-any (panic, h) = tt

  any-Gives : (m : M A) → Gives m (λ _. Unit {0})
  any-Gives m h = Post-any (m h)

  pub mapping-Gives :
      (w : Error → Error) (m : M A) (Q : A → Type 0) → Gives m Q → Gives (mapping w m) Q
  mapping-Gives w m Q p h = by_result (m h) (p h)
    where
      by_result : (x : Result A × History) → Post Q x → Post Q (wrap_result w x)
      by_result (ok a, h') q = q
      by_result (err e, h') q = q
      by_result (panic, h') q = q

  pub on_error-Gives :
      {C : Type 0} (c : M C) (m : M A) (Q : A → Type 0) → Gives m Q → Gives (on_error c m) Q
  on_error-Gives c m Q p h = by_result (m h) (p h)
    where
      by_result : (x : Result A × History) → Post Q x → Post Q (clean_if c x)
      by_result (ok a, h') q = q
      by_result (err e, h') q = q
      by_result (panic, h') q = q

  pub on_error_if-Gives :
      {C : Type 0} (b : Bool) (c : M C) (m : M A) (Q : A → Type 0)
      → Gives m Q
      → Gives (on_error_if b c m) Q
  on_error_if-Gives true c m Q p = on_error-Gives c m Q p
  on_error_if-Gives false c m Q p = p

  pub weaken-Gives : (m : M A) (P Q : A → Type 0) → Gives m P → ((a : A) → P a → Q a) → Gives m Q
  weaken-Gives m P Q p q h = by_result (m h) (p h)
    where
      by_result : (x : Result A × History) → Post P x → Post Q x
      by_result (ok a, h') u = q a u
      by_result (err e, h') u = u
      by_result (panic, h') u = u

  pub bind-Gives :
      {B : Type 0} (m : M A) (k : A → M B) (P : A → Type 0) (Q : B → Type 0)
      → Gives m P
      → ((a : A) → P a → Gives (k a) Q)
      → Gives (m >>= k) Q
  bind-Gives m k P Q p q h = by_result (m h) (p h)
    where
      by_result : (x : Result A × History) → Post P x → Post Q (bind_result k x)
      by_result (ok a, h') u = q a u h'
      by_result (err e, h') u = tt
      by_result (panic, h') u = tt

  -- The value of the first part plays no part.
  pub then-Gives :
      {B : Type 0} (m : M A) (k : A → M B) (Q : B → Type 0)
      → ((a : A) → Gives (k a) Q)
      → Gives (m >>= k) Q
  then-Gives m k Q q = bind-Gives m k (λ _. Unit {0}) Q (any-Gives m) (λ a _. q a)

  lift-Gives : (r : Result A) (Q : A → Type 0) → ((a : A) → r ≡ ok a → Q a) → Gives (lift r) Q
  lift-Gives (ok a) Q q h = q a refl
  lift-Gives (err e) Q q h = tt
  lift-Gives panic Q q h = tt

pub fail_if-Gives : (c : Bool) (e : Error) → Gives (fail_if c e) (λ _. c ≡ false)
fail_if-Gives true e h = tt
fail_if-Gives false e h = refl

-- The reply of the kernel to this call, at some time, which was no error.
abbrev pub IsReply : Kernel → Call → Reply → Type 0
IsReply kernel c r = (r.errno ≡ none) × ((h : History) × (r ≡ kernel h c))

pub sys-Gives : (kernel : Kernel) (c : Call) → Gives (sys kernel c) (IsReply kernel c)
sys-Gives kernel c h = by_errno (kernel h c) (kernel h c).errno _ refl refl
  where
    by_errno :
        (r : Reply) (n : Option Errno) (h' : History)
        → r.errno ≡ n
        → r ≡ kernel h c
        → Post (IsReply kernel c) (call_result r n, h')
    by_errno r none h' good same = (good, (h, same))
    by_errno r (some e) h' bad same = tt
