-- ===== src/Go/Result.antt =====
-- The result `(value, error)` of a Go function, where the value is read only if the error is nil;
-- `panic` is a run-time fault such as a slice out of range.
use subpass.Base.{ℕ, Bool, true, false, String, leb, List, take, drop, length}
use subpass.Base.{◌≡◌, refl, ◌⊎◌, inl, inr, if◌then◌else◌}
use subpass.Go.Error.{Error, wrap}

pub data Result {ℓ} (A : Type ℓ) : Type ℓ where
  ok : A → Result A
  err : Error → Result A
  panic : Result A

infixl 5 ◌>>=◌ ◌>>◌
abbrev pub ◌>>=◌ {ℓ κ} : {A : Type ℓ} {B : Type κ} → Result A → (A → Result B) → Result B
ok a >>= f = f a
err e >>= f = err e
panic >>= f = panic

abbrev pub ◌>>◌ {ℓ} : {B : Type ℓ} → Result (Unit {0}) → Result B → Result B
m >> k = m >>= λ _. k

-- `if cond { return …, err }`
abbrev pub fail_if : Bool → Error → Result (Unit {0})
fail_if true e = err e
fail_if false e = ok tt

-- `if err != nil { return …, fmt.Errorf(text + ": %w", err) }`
abbrev pub wrapped {ℓ} : {A : Type ℓ} → String → Result A → Result A
wrapped text (ok a) = ok a
wrapped text (err e) = err (wrap text e)
wrapped text panic = panic

-- The same with any change of the error.
abbrev pub with_error {ℓ} : {A : Type ℓ} → (Error → Error) → Result A → Result A
with_error w (ok a) = ok a
with_error w (err e) = err (w e)
with_error w panic = panic

-- `b[:n]` of a slice with no room behind its end: past that end it panics.
abbrev pub slice_to {ℓ} : {A : Type ℓ} → List A → ℕ → Result (List A)
slice_to b n = if leb n (length b) then ok (take n b) else panic

-- `b[n:]`
abbrev slice_from {ℓ} : {A : Type ℓ} → List A → ℕ → Result (List A)
slice_from b n = if leb n (length b) then ok (drop n b) else panic

-- To split on a computed result.
pub Result-cases {ℓ} :
    {A : Type ℓ} (r : Result A) → ((a : A) × (r ≡ ok a)) ⊎ ((e : Error) × (r ≡ err e)) ⊎ (r ≡ panic)
Result-cases (ok a) = inl (a, refl)
Result-cases (err e) = inr (inl (e, refl))
Result-cases panic = inr (inr refl)

pub ok-injective {ℓ} : {A : Type ℓ} {a b : A} → ok a ≡ ok b → a ≡ b
ok-injective h = cc
