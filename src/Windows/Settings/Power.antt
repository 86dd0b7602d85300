-- ===== src/Windows/Settings/Power.antt =====
-- A number and the one before it have no bit in common exactly if the number is a power of two.
use Prim.Native.Nat.{bit_and, bit_and-bitwise, digits}
use native.Mathlib.Nat.{pow-suc, pow-le-pow_right}
use subpass.Base.{
  ℕ, zero, suc, ◌+◌, ◌-◌, ◌*◌, ◌/◌, ◌%◌, ◌^◌, ◌≤◌, ◌<◌, ◌≡◌, ◌⊎◌, inl, inr, refl, arith, min,
}
use subpass.Base.{ltb, ◌==◌, Bool-cases}

-- The definition behind the native operation, with its fuel.
abbrev and_with : ℕ → ℕ → ℕ → ℕ
and_with n a b = digits (λ b. zero) min n a b

-- More fuel than the number has digits changes nothing.
same_fuel : (n m a b : ℕ) → a ≤ n → a ≤ m → and_with n a b ≡ and_with m a b
same_fuel zero zero zero b p q = refl
same_fuel zero (suc m) zero b p q = refl
same_fuel (suc n) zero zero b p q = refl
same_fuel (suc n) (suc m) zero b p q = refl
same_fuel zero m (suc a) b p q = absurd (omega arith)
same_fuel (suc n) zero (suc a) b p q = absurd (omega arith)
same_fuel (suc n) (suc m) (suc a) b p q =
    omega (arith, same_fuel n m (suc a / 2) (b / 2) (omega arith) (omega arith))

-- The lowest digit apart.
by_digit : (c b : ℕ) → 0 < c → bit_and c b ≡ bit_and (c / 2) (b / 2) * 2 + min (c % 2) (b % 2)
by_digit zero b pos = absurd (omega arith)
by_digit (suc c) b pos =
    let half = suc c / 2 in
    omega (
      arith,
      same_fuel c half half (b / 2) (omega arith) (omega arith),
      bit_and-bitwise half (b / 2),
      bit_and-bitwise (suc c) b,
    )

itself : (n c : ℕ) → c ≤ n → bit_and c c ≡ c
itself n zero h = refl
itself zero (suc c) h = absurd (omega arith)
itself (suc n) (suc c) h =
    omega (arith, by_digit (suc c) (suc c), itself n (suc c / 2) (omega arith))

even_pred : (m : ℕ) → 0 < m → bit_and (m * 2) (m * 2 - 1) ≡ bit_and m (m - 1) * 2
even_pred m pos =
    let upper : m * 2 / 2 ≡ m = omega arith in
    let lower : (m * 2 - 1) / 2 ≡ m - 1 = omega arith in
    let first = by_digit (m * 2) (m * 2 - 1) (omega arith) in
    let folded = rw (upper, lower) at first in omega arith

odd_pred : (m : ℕ) → bit_and (m * 2 + 1) (m * 2) ≡ m * 2
odd_pred m =
    let upper : (m * 2 + 1) / 2 ≡ m = omega arith in
    let lower : m * 2 / 2 ≡ m = omega arith in
    let first = by_digit (m * 2 + 1) (m * 2) (omega arith) in
    let folded = rw (upper, lower) at first in omega (arith, itself m m (omega arith))

pub bit_and-pow : (k : ℕ) → bit_and (2 ^ k) (2 ^ k - 1) ≡ 0
bit_and-pow zero = refl
bit_and-pow (suc k) =
    let pos : 0 < 2 ^ k = pow-le-pow_right (omega arith) {i = 0} (omega arith) in
    rw (pow-suc 2 k) (omega (arith, even_pred (2 ^ k) pos, bit_and-pow k))

halves : (c : ℕ) → (m : ℕ) × ((c ≡ m * 2) ⊎ (c ≡ m * 2 + 1))
halves c = (
  c / 2,
  elim (Bool-cases (c % 2 == 0)) [ inl even ↦ inl (ground arith) | inr odd ↦ inr (ground arith) ],
)

pub pow-bit_and : (n c : ℕ) → c ≤ n → 0 < c → bit_and c (c - 1) ≡ 0 → (k : ℕ) × (c ≡ 2 ^ k)
pow-bit_and zero c small pos h = absurd (omega arith)
pow-bit_and (suc n) c small pos h =
    let (m, parity) = halves c in
    elim parity [
      | inl even ↦
          let disjoint = rw even at h in
          let (k, e) = pow-bit_and n m (omega arith) (omega arith) (omega (arith, even_pred m)) in
          (suc k, rw (pow-suc 2 k) (omega arith))
      | inr odd ↦
          let disjoint = rw odd at h in
          let pred : m * 2 + 1 - 1 ≡ m * 2 = omega arith in
          let shorter = rw pred at disjoint in (0, omega (arith, odd_pred m))
    ]

-- The powers of two in the range that the code accepts.
pub exponent_bounds : (k : ℕ) → 0x20000 ≤ 2 ^ k → 2 ^ k ≤ 0x4000000 → (17 ≤ k) × (k ≤ 26)
exponent_bounds k low high = (
  elim (Bool-cases (ltb k 17)) [
    | inl below ↦
        absurd
          (omega (arith, pow-le-pow_right {n = 2} (omega arith) {i = k} {j = 16} (ground arith)))
    | inr above ↦ ground arith
  ],
  elim (Bool-cases (ltb 26 k)) [
    | inl above ↦
        absurd
          (omega (arith, pow-le-pow_right {n = 2} (omega arith) {i = 27} {j = k} (ground arith)))
    | inr below ↦ ground arith
  ],
)
