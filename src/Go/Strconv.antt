-- ===== src/Go/Strconv.antt =====
-- `strings.HasPrefix`, `strconv.Atoi` and the verb %d, over the bytes of a string.
pub mod RoundTrip
pub mod Numeral
use subpass.Base.{ℕ, zero, suc, ◌+◌, ◌-◌, ◌*◌, ◌/◌, ◌%◌, ◌^◌, ◌<◌, Bool, true, false, ◌&&◌}
use subpass.Base.{Option, none, some, List, [], ◌∷◌, ◌++◌, Bytes, arith, leb, ltb, ◌==◌}
use subpass.Base.{if◌then◌else◌}
use subpass.Base.Int.{ℤ, pos, negsuc}

abbrev pub has_prefix : Bytes → Bytes → Bool
has_prefix s [] = true
has_prefix [] (p ∷ ps) = false
has_prefix (c ∷ s) (p ∷ ps) = (c == p) && has_prefix s ps

abbrev pub is_digit : ℕ → Bool
is_digit c = leb b'0' c && leb c b'9'

-- The number that the digits spell behind `n`; `none` at another byte.
pub scan : Bytes → ℕ → Option ℕ
scan [] n = some n
scan (c ∷ s) n = if is_digit c then scan s (n * 10 + (c - b'0')) else none

-- At least one digit.
pub scan_number : Bytes → Option ℕ
unfolding scan
scan_number [] = none
scan_number (c ∷ s) = scan (c ∷ s) 0

-- -n
abbrev negate : ℕ → ℤ
negate zero = pos 0
negate (suc n) = negsuc n

-- The range test of `ParseInt` at 64 bits.
abbrev positive : Option ℕ → Option ℤ
positive none = none
positive (some n) = if ltb n (2 ^ 63) then some (pos n) else none

abbrev negative : Option ℕ → Option ℤ
negative none = none
negative (some n) = if leb n (2 ^ 63) then some (negate n) else none

-- `strconv.Atoi` where `int` has 64 bits. `none` is any error: a syntax error or one of range.
unfoldable pub atoi : Bytes → Option ℤ
unfolding scan_number
atoi [] = none
atoi (c ∷ s) =
    if c == b'-'
    then negative (scan_number s)
    else if c == b'+'
    then positive (scan_number s)
    else positive (scan_number (c ∷ s))

-- The digits of a number below 10 ^ fuel, in front of `out`.
pub digits : ℕ → ℕ → Bytes → Bytes
digits zero n out = out
digits (suc fuel) n out =
    let more = digits fuel (n / 10) ((b'0' + n % 10) ∷ out) in
    if n / 10 == 0 then (b'0' + n % 10) ∷ out else more

-- The verb %d at a number below 2 ^ 64, which has at most 20 digits.
unfoldable pub format : ℕ → Bytes
unfolding digits
format n = digits 20 n []

-- The verb %d at an `int`.
abbrev pub format_int : ℤ → Bytes
format_int (pos n) = format n
format_int (negsuc n) = b'-' ∷ format (n + 1)
