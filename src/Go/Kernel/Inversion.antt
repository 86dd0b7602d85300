-- ===== src/Go/Kernel/Inversion.antt =====
-- What a piece of code that returned a value has done, part by part.
use subpass.Base.{◌≡◌, refl, sym, arith, Bool, true, false, Option, none, some}
use subpass.Go.Error.{Error, Errno}
use subpass.Go.Result.{Result, ok, err, panic}
use subpass.Go.Kernel.{
  Call, Reply, History, Kernel, M, lift, fail_if, sys, made, call_result, mapping, wrap_result,
  bind_result, ◌>>=◌, on_error, clean_if,
}

-- The code returned the value and left the history.
abbrev pub Returns : {A : Type 0} → M A → History → A → History → Type 0
Returns m h a h' = m h ≡ (ok a, h')

module _ {A : Type 0} where
  Returns-fst : (m : M A) (h : History) {a : A} → (m h).0 ≡ ok a → Returns m h a (m h).1
  Returns-fst m h e = λ i. (e i, (m h).1)

  lift-Returns :
      (r : Result A) (h : History) {a : A} {h' : History}
      → Returns (lift r) h a h'
      → (r ≡ ok a) × (h' ≡ h)
  lift-Returns r h e = (λ i. (e i).0, λ i. (sym e i).1)

  mapping-inv :
      (w : Error → Error) (x : Result A × History) {a : A} {h' : History}
      → wrap_result w x ≡ (ok a, h')
      → x ≡ (ok a, h')
  mapping-inv w (ok b, h) e = e
  mapping-inv w (err b, h) e = cc
  mapping-inv w (panic, h) e = cc

  pub mapping-Returns :
      (w : Error → Error) (m : M A) (h : History) {a : A} {h' : History}
      → Returns (mapping w m) h a h'
      → Returns m h a h'
  mapping-Returns w m h = mapping-inv w (m h)

  on_error-inv :
      {C : Type 0} (c : M C) (x : Result A × History) {a : A} {h' : History}
      → clean_if c x ≡ (ok a, h')
      → x ≡ (ok a, h')
  on_error-inv c (ok b, h) e = e
  on_error-inv c (err b, h) e = cc
  on_error-inv c (panic, h) e = cc

  on_error-Returns :
      {C : Type 0} (c : M C) (m : M A) (h : History) {a : A} {h' : History}
      → Returns (on_error c m) h a h'
      → Returns m h a h'
  on_error-Returns c m h = on_error-inv c (m h)

  bind-inv :
      {B : Type 0} (k : A → M B) (x : Result A × History) {b : B} {h' : History}
      → bind_result k x ≡ (ok b, h')
      → (a : A) × (h'' : History) × (x ≡ (ok a, h'')) × Returns (k a) h'' b h'
  bind-inv k (ok a, h) e = (a, h, refl, e)
  bind-inv k (err a, h) e = cc
  bind-inv k (panic, h) e = cc

  pub bind-Returns :
      {B : Type 0} (m : M A) (k : A → M B) (h : History) {b : B} {h' : History}
      → Returns (m >>= k) h b h'
      → (a : A) × (h'' : History) × Returns m h a h'' × Returns (k a) h'' b h'
  bind-Returns m k h = bind-inv k (m h)

fail_if-Returns :
    (c : Bool) (e : Error) (h : History) {u : Unit {0}} {h' : History}
    → Returns (fail_if c e) h u h'
    → (c ≡ false) × (h' ≡ h)
fail_if-Returns true e h r = cc
fail_if-Returns false e h r = (refl, λ i. (sym r i).1)

call_result-inv :
    (r : Reply) (n : Option Errno) {a : Reply} → call_result r n ≡ ok a → (n ≡ none) × (a ≡ r)
call_result-inv r none e = (refl, ground arith)
call_result-inv r (some x) e = cc

sys-Returns :
    (kernel : Kernel) (c : Call) (h : History) {r : Reply} {h' : History}
    → Returns (sys kernel c) h r h'
    → (r ≡ kernel h c) × (r.errno ≡ none) × (h' ≡ made kernel c h)
sys-Returns kernel c h e =
    let (good, same) = call_result-inv (kernel h c) (kernel h c).errno (λ i. (e i).0) in
    (same, rw same good, λ i. (sym e i).1)
