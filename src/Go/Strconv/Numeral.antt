-- ===== src/Go/Strconv/Numeral.antt =====
-- What `strconv.Atoi` reads as a number that is not negative, in terms of the decimal notation.
use native.Mathlib.Nat.{pow-suc}
use subpass.Base.{
  ℕ, zero, suc, ◌+◌, ◌-◌, ◌*◌, ◌^◌, ◌<◌, ◌≤◌, ◌≡◌, ◌≢◌, ◌∙◌, ap, arith, ◌⊎◌, inl, inr, ◌↔◌,
  Bool-cases, true, Option, none, some, [], ◌∷◌, Bytes, length, ◌==◌,
}
use subpass.Base.Int.{pos}
use subpass.Go.Strconv.{is_digit, scan, scan_number, atoi, positive, negative}

abbrev pub IsDigits : Bytes → Type 0
IsDigits [] = Unit
IsDigits (c ∷ s) = (b'0' ≤ c) × (c ≤ b'9') × IsDigits s

-- The sum of the digits, each times the power of ten of its place.
abbrev pub value : Bytes → ℕ
value [] = 0
value (c ∷ s) = (c - b'0') * 10 ^ length s + value s

-- One digit or more, with the value n.
abbrev pub Numeral : Bytes → ℕ → Type 0
Numeral s n = (0 < length s) × IsDigits s × (value s ≡ n)

-- A numeral; or one behind a plus; or a zero behind a minus.
abbrev pub Spells : Bytes → ℕ → Type 0
Spells [] n = ⊥
Spells (c ∷ s) n =
    Numeral (c ∷ s) n ⊎ (((c ≡ b'+') × Numeral s n) ⊎ ((c ≡ b'-') × Numeral s n × (n ≡ 0)))

places : (n d p v : ℕ) → (n * 10 + d) * p + v ≡ n * (p * 10) + (d * p + v)
places n d p v = grind arith

scan-value : (s : Bytes) (n : ℕ) → IsDigits s → scan s n ≡ some (n * 10 ^ length s + value s)
unfolding scan
scan-value [] n h = ap some (omega arith)
scan-value (c ∷ s) n (lo, hi, h) =
    let digit : is_digit c ≡ true = ground arith in
    rw digit (
      scan-value s (n * 10 + (c - b'0')) h
      ∙ ap some (rw pow-suc (places n (c - b'0') (10 ^ length s) (value s))))

scan-IsDigits : (s : Bytes) (n : ℕ) {m : ℕ} → scan s n ≡ some m → IsDigits s
unfolding scan
scan-IsDigits [] n h = tt
scan-IsDigits (c ∷ s) n h = elim (Bool-cases (is_digit c)) [
  | inl digit ↦
      let h' : scan s (n * 10 + (c - b'0')) ≡ some _ = rw digit at h in
      (ground arith, ground arith, scan-IsDigits s (n * 10 + (c - b'0')) h')
  | inr other ↦ ground arith
]

scan_number-Numeral : (s : Bytes) (n : ℕ) → (scan_number s ≡ some n) ↔ Numeral s n
unfolding scan_number
scan_number-Numeral [] n = (λ e. cc, λ (long, digits, same). absurd (omega arith))
scan_number-Numeral (c ∷ s) n = (
  λ e.
      let digits = scan-IsDigits (c ∷ s) 0 e in
      let read = scan-value (c ∷ s) 0 digits in (omega arith, digits, ground (arith, e, read)),
  λ (long, digits, same). scan-value (c ∷ s) 0 digits ∙ ap some (omega (arith, same)),
)

one-pow : (k : ℕ) → 1 ≤ 10 ^ k
one-pow zero = omega arith
one-pow (suc k) = rw pow-suc (omega (arith, one-pow k))

pow-le : (j k : ℕ) → j ≤ k → 10 ^ j ≤ 10 ^ k
pow-le zero k h = one-pow k
pow-le (suc j) zero h = absurd (omega arith)
pow-le (suc j) (suc k) h = rw (pow-suc, pow-suc) (omega (arith, pow-le j k (omega arith)))

digit_place : (d p v : ℕ) → d ≤ 9 → v < p → d * p + v < p * 10
digit_place d p v h k = grind arith

value-lt : (s : Bytes) → IsDigits s → value s < 10 ^ length s
value-lt [] h = omega arith
value-lt (c ∷ s) (lo, hi, h) =
    rw pow-suc (digit_place (c - b'0') (10 ^ length s) (value s) (omega arith) (value-lt s h))

Numeral-lt : (s : Bytes) (n : ℕ) → length s ≤ 18 → Numeral s n → n < 2 ^ 63
Numeral-lt s n short (long, digits, same) =
    omega (arith, value-lt s digits, pow-le (length s) 18 short, same)

positive-pos : (r : Option ℕ) (n : ℕ) → (positive r ≡ some (pos n)) ↔ ((r ≡ some n) × (n < 2 ^ 63))
positive-pos none n = (λ e. cc, λ (e, h). cc)
positive-pos (some m) n = (λ e. ground arith, λ (e, h). ground arith)

negative-pos : (r : Option ℕ) (n : ℕ) → (negative r ≡ some (pos n)) ↔ ((r ≡ some n) × (n ≡ 0))
negative-pos none n = (λ e. cc, λ (e, h). cc)
negative-pos (some zero) n = (λ e. ground arith, λ (e, h). ground arith)
negative-pos (some (suc m)) n = (λ e. ground arith, λ (e, h). ground arith)

atoi-sign :
    (c : ℕ) (s : Bytes)
    → (c ≡ b'-' → atoi (c ∷ s) ≡ negative (scan_number s))
      × (c ≡ b'+' → atoi (c ∷ s) ≡ positive (scan_number s))
      × (c ≢ b'-' → c ≢ b'+' → atoi (c ∷ s) ≡ positive (scan_number (c ∷ s)))
unfolding atoi
atoi-sign c s = (λ e. ground arith, λ e. ground arith, λ e f. ground arith)

atoi-spelt : (s : Bytes) (n : ℕ) → length s ≤ 18 → atoi s ≡ some (pos n) → Spells s n
unfolding atoi
atoi-spelt [] n short h = cc
atoi-spelt (c ∷ s) n short h = elim (Bool-cases (c == b'-')) [
  | inl minus ↦
      let h' : negative (scan_number s) ≡ some (pos n) = rw minus at h in
      let (read, zero_read) = (negative-pos (scan_number s) n).0 h' in
      inr (inr (ground arith, (scan_number-Numeral s n).0 read, zero_read))
  | inr other ↦ elim (Bool-cases (c == b'+')) [
    | inl plus ↦
        let h' : positive (scan_number s) ≡ some (pos n) = rw (other, plus) at h in
        let (read, small) = (positive-pos (scan_number s) n).0 h' in
        inr (inl (ground arith, (scan_number-Numeral s n).0 read))
    | inr digit ↦
        let h' : positive (scan_number (c ∷ s)) ≡ some (pos n) = rw (other, digit) at h in
        let (read, small) = (positive-pos (scan_number (c ∷ s)) n).0 h' in
        inl ((scan_number-Numeral (c ∷ s) n).0 read)
  ]
]

spelt-atoi : (s : Bytes) (n : ℕ) → length s ≤ 18 → Spells s n → atoi s ≡ some (pos n)
spelt-atoi [] n short h = absurd h
spelt-atoi (c ∷ s) n short (inl (long, (lo, hi, digits), same)) =
    (atoi-sign c s).2 (λ e. omega arith) (λ e. omega arith)
    ∙ (positive-pos (scan_number (c ∷ s)) n).1 (
      (scan_number-Numeral (c ∷ s) n).1 (long, (lo, hi, digits), same),
      Numeral-lt (c ∷ s) n short (long, (lo, hi, digits), same),
    )
spelt-atoi (c ∷ s) n short (inr (inl (plus, numeral))) =
    (atoi-sign c s).1 plus
    ∙ (positive-pos (scan_number s) n).1
        ((scan_number-Numeral s n).1 numeral, Numeral-lt s n (omega arith) numeral)
spelt-atoi (c ∷ s) n short (inr (inr (minus, numeral, zero_value))) =
    (atoi-sign c s).0 minus
    ∙ (negative-pos (scan_number s) n).1 ((scan_number-Numeral s n).1 numeral, zero_value)

-- A text of at most 18 bytes is read as the number n exactly if it spells n.
pub atoi-Spells : (s : Bytes) (n : ℕ) → length s ≤ 18 → (atoi s ≡ some (pos n)) ↔ Spells s n
atoi-Spells s n short = (atoi-spelt s n short, spelt-atoi s n short)
