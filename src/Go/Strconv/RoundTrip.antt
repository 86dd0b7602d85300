-- ===== src/Go/Strconv/RoundTrip.antt =====
-- `Atoi` reads back what %d prints.
use native.Mathlib.Nat.{pow-suc}
use subpass.Base.{ℕ, zero, suc, ◌+◌, ◌*◌, ◌/◌, ◌%◌, ◌^◌, ◌<◌, ◌≤◌, ◌≡◌, refl, ◌∙◌, arith, length}
use subpass.Base.{some, [], ◌∷◌, Bytes, ◌==◌, Bool-cases, inl, inr}
use subpass.Base.Int.{pos}
use subpass.Go.Strconv.{scan, scan_number, atoi, digits, format}

scan_last : (n : ℕ) (out : Bytes) → scan ((b'0' + n % 10) ∷ out) (n / 10) ≡ scan out n
unfolding scan
scan_last n out = ground arith

scan-digits : (fuel n : ℕ) (out : Bytes) → n < 10 ^ fuel → scan (digits fuel n out) 0 ≡ scan out n
unfolding digits
scan-digits zero n out h = let e : n ≡ 0 = omega arith in rw e
scan-digits (suc fuel) n out h =
    let h' : n < 10 ^ fuel * 10 = rw pow-suc at h in
    elim (Bool-cases (n / 10 == 0)) [
      | inl done ↦ rw done (let e : n / 10 ≡ 0 = ground arith in rw e at (scan_last n out))
      | inr more ↦
          rw more
            (scan-digits fuel (n / 10) ((b'0' + n % 10) ∷ out) (omega arith) ∙ scan_last n out)
    ]

-- The first byte is a digit.
digits-head :
    (fuel n d : ℕ) (out : Bytes)
    → d < 10
    → (c : ℕ) × (rest : Bytes) × (digits fuel n ((b'0' + d) ∷ out) ≡ (b'0' + c) ∷ rest) × (c < 10)
unfolding digits
digits-head zero n d out h = (d, out, refl, h)
digits-head (suc fuel) n d out h = elim (Bool-cases (n / 10 == 0)) [
  | inl done ↦ (n % 10, (b'0' + d) ∷ out, rw done, omega arith)
  | inr more ↦ rw more (digits-head fuel (n / 10) (n % 10) ((b'0' + d) ∷ out) (omega arith))
]

format-head : (n : ℕ) → (c : ℕ) × (rest : Bytes) × (format n ≡ (b'0' + c) ∷ rest) × (c < 10)
unfolding format
format-head n = elim (Bool-cases (n / 10 == 0)) [
  | inl done ↦ (n % 10, [], rw done, omega arith)
  | inr more ↦ rw more (digits-head 19 (n / 10) (n % 10) [] (omega arith))
]

scan-format : (n : ℕ) → n < 10 ^ 20 → scan (format n) 0 ≡ some n
unfolding format scan
scan-format n h = scan-digits 20 n [] h

atoi-digits :
    (c n : ℕ) (s rest : Bytes)
    → s ≡ (b'0' + c) ∷ rest
    → c < 10
    → scan s 0 ≡ some n
    → n < 2 ^ 63
    → atoi s ≡ some (pos n)
unfolding atoi
atoi-digits c n s rest e h r lt = rw e (let r' = rw e at r in ground arith)

pub atoi-format : (n : ℕ) → n < 2 ^ 63 → atoi (format n) ≡ some (pos n)
atoi-format n h =
    let (c, rest, e, lt) = format-head n in
    atoi-digits c n (format n) rest e lt (scan-format n (omega arith)) h

length-digits :
    (fuel k n : ℕ) (out : Bytes) → n < 10 ^ suc k → length (digits fuel n out) ≤ suc k + length out
unfolding digits
length-digits zero k n out h = omega arith
length-digits (suc fuel) zero n out h = let e : n / 10 ≡ 0 = omega arith in rw e (omega arith)
length-digits (suc fuel) (suc k) n out h = elim (Bool-cases (n / 10 == 0)) [
  | inl done ↦ rw done (omega arith)
  | inr more ↦
      let h' : n < 10 ^ suc k * 10 = rw pow-suc at h in
      rw more (omega (arith, length-digits fuel k (n / 10) ((b'0' + n % 10) ∷ out) (omega arith)))
]

-- A number below 10 ^ k, k > 0, has at most k digits.
pub length-format : (k n : ℕ) → n < 10 ^ suc k → length (format n) ≤ suc k
unfolding format
length-format k n h = omega (arith, length-digits 20 k n [] h)

scan_number-format : (n : ℕ) → n < 10 ^ 20 → scan_number (format n) ≡ some n
unfolding scan_number
scan_number-format n h = let (c, rest, e, lt) = format-head n in rw e (rw e at (scan-format n h))

-- `Atoi` takes a sign in front of the digits.
pub atoi-plus : (n : ℕ) → n < 2 ^ 63 → atoi (b'+' ∷ format n) ≡ some (pos n)
unfolding atoi
atoi-plus n h = ground (arith, scan_number-format n (omega arith))
