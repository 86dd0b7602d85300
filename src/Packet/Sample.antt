-- ===== src/Packet/Sample.antt =====
-- A lawful package tcpip for the examples: it reads the length of an IPv4 header, and nothing else.
use subpass.Base.{ℕ, zero, suc, ◌+◌, ◌-◌, ◌*◌, ◌≤◌, ◌<◌, ◌≡◌, ◌≢◌, arith, [], ◌∷◌, Bytes, length}
use subpass.Base.{refl, length-append, ◌++◌, take, take_all, length-take, ltb, if◌then◌else◌}
use subpass.Go.Error.{tcpip_short_buffer, tcpip_other}
use subpass.Go.Result.{Result, ok, err, panic}
use subpass.Packet.{Tcpip, IsLawful}
use subpass.Packet.Framing.{IsWhole, IsFramed}

abbrev total : ℕ → ℕ → Result ℕ
total n size =
    if ltb n 20 then err (tcpip_other 1) else if ltb size n then err tcpip_short_buffer else ok n

abbrev pub header_len : Bytes → Result ℕ
header_len [] = err tcpip_short_buffer
header_len (a ∷ []) = err tcpip_short_buffer
header_len (a ∷ b ∷ []) = err tcpip_short_buffer
header_len (a ∷ b ∷ c ∷ []) = err tcpip_short_buffer
header_len (a ∷ b ∷ c ∷ d ∷ r) = total (c * 256 + d) (length (a ∷ b ∷ c ∷ d ∷ r))

abbrev pub sample : Tcpip
sample = record { total_len = header_len; ipv4 = 4 }

total_bounds : (n size : ℕ) {m : ℕ} → total n size ≡ ok m → (m ≡ n) × (n ≤ size) × (20 ≤ n)
total_bounds n size h = ground arith

header_len-bounds : (b : Bytes) {n : ℕ} → header_len b ≡ ok n → (n ≤ length b) × (20 ≤ n)
header_len-bounds [] h = cc
header_len-bounds (a ∷ []) h = cc
header_len-bounds (a ∷ b ∷ []) h = cc
header_len-bounds (a ∷ b ∷ c ∷ []) h = cc
header_len-bounds (a ∷ b ∷ c ∷ d ∷ r) h =
    omega (arith, total_bounds (c * 256 + d) (length (a ∷ b ∷ c ∷ d ∷ r)) h)

header_len-returns : (b : Bytes) → header_len b ≢ panic
header_len-returns [] h = cc
header_len-returns (a ∷ []) h = cc
header_len-returns (a ∷ b ∷ []) h = cc
header_len-returns (a ∷ b ∷ c ∷ []) h = cc
header_len-returns (a ∷ b ∷ c ∷ d ∷ r) h = ground arith

take_four :
    (n a b c d : ℕ) (r : Bytes)
    → 4 ≤ n
    → take n (a ∷ b ∷ c ∷ d ∷ r) ≡ a ∷ b ∷ c ∷ d ∷ take (n - 4) r
take_four zero a b c d r h = absurd (omega arith)
take_four (suc zero) a b c d r h = absurd (omega arith)
take_four (suc (suc zero)) a b c d r h = absurd (omega arith)
take_four (suc (suc (suc zero))) a b c d r h = absurd (omega arith)
take_four (suc (suc (suc (suc n)))) a b c d r h =
    let e : suc (suc (suc (suc n))) - 4 ≡ n = omega arith in rw e

header_len-take : (b : Bytes) {n : ℕ} → header_len b ≡ ok n → header_len (take n b) ≡ ok n
header_len-take [] h = cc
header_len-take (a ∷ []) h = cc
header_len-take (a ∷ b ∷ []) h = cc
header_len-take (a ∷ b ∷ c ∷ []) h = cc
header_len-take (a ∷ b ∷ c ∷ d ∷ r) {n} h =
    let (same, fits, big) = total_bounds (c * 256 + d) (length (a ∷ b ∷ c ∷ d ∷ r)) h in
    rw (take_four n a b c d r (omega arith)) (ground (arith, length-take (n - 4) r))

pub sample-IsLawful : IsLawful sample
sample-IsLawful = record {
  returns = header_len-returns;
  within = λ b h. (header_len-bounds b h).0;
  nonempty = λ b h. omega (arith, header_len-bounds b h);
  of_take = header_len-take;
}

header_len-append : (p rest : Bytes) → IsWhole sample p → header_len (p ++ rest) ≡ ok (length p)
header_len-append [] rest h = cc
header_len-append (a ∷ []) rest h = cc
header_len-append (a ∷ b ∷ []) rest h = cc
header_len-append (a ∷ b ∷ c ∷ []) rest h = cc
header_len-append (a ∷ b ∷ c ∷ d ∷ r) rest h =
    let (same, fits, big) = total_bounds (c * 256 + d) (length (a ∷ b ∷ c ∷ d ∷ r)) h in
    ground (arith, length-append r rest)

header_len-cut :
    (b : Bytes) (x : ℕ) (c : Bytes)
    → IsWhole sample (b ++ (x ∷ c))
    → header_len b ≡ err tcpip_short_buffer
header_len-cut [] x c h = refl
header_len-cut (a ∷ []) x c h = refl
header_len-cut (a ∷ b ∷ []) x c h = refl
header_len-cut (a ∷ b ∷ d ∷ []) x c h = refl
header_len-cut (a ∷ b ∷ d ∷ e ∷ r) x c h =
    let (same, fits, big) = total_bounds (d * 256 + e) (length (a ∷ b ∷ d ∷ e ∷ r ++ (x ∷ c))) h in
    ground (arith, length-append r (x ∷ c))

pub sample-IsFramed : IsFramed sample
sample-IsFramed = record { extended = header_len-append; cut = header_len-cut }

-- A packet of 20 bytes: an IPv4 header with no data.
abbrev pub ping : Bytes
ping = 0x45 ∷ 0 ∷ 0 ∷ 20 ∷ 0 ∷ 0 ∷ 0 ∷ 0 ∷ 64 ∷ 1 ∷ 0 ∷ 0 ∷ 10 ∷ 0 ∷ 0 ∷ 1 ∷ 10 ∷ 0 ∷ 0 ∷ 2 ∷ []

-- Another, for which a slice that is not empty is one packet.
abbrev all_of : Bytes → Result ℕ
all_of [] = err tcpip_short_buffer
all_of (x ∷ b) = ok (length (x ∷ b))

abbrev pub whole : Tcpip
whole = record { total_len = all_of; ipv4 = 4 }

all_of-length : (b : Bytes) {n : ℕ} → all_of b ≡ ok n → (n ≡ length b) × (0 < n)
all_of-length [] h = cc
all_of-length (x ∷ b) h = ground arith

all_of-returns : (b : Bytes) → all_of b ≢ panic
all_of-returns [] h = cc
all_of-returns (x ∷ b) h = cc

all_of-take : (b : Bytes) {n : ℕ} → all_of b ≡ ok n → all_of (take n b) ≡ ok n
all_of-take b {n} h = rw (take_all n b (omega (arith, all_of-length b h))) h

pub whole-IsLawful : IsLawful whole
whole-IsLawful = record {
  returns = all_of-returns;
  within = λ b h. omega (arith, all_of-length b h);
  nonempty = λ b h. (all_of-length b h).1;
  of_take = all_of-take;
}
