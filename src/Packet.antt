-- ===== src/Packet.antt =====
-- `checkPacketLen` of errors.go, over the package tcpip that it calls.
pub mod Framing
pub mod Sample
use subpass.Base.{
  ℕ, ◌+◌, ◌/◌, ◌^◌, ◌≤◌, ◌<◌, ◌≡◌, ◌≢◌, refl, ap, ◌⊎◌, inl, inr, arith, List, [], ◌∷◌, ◌++◌, Bytes,
  length, take,
}
use subpass.Go.Error.{Error, err_short_buffer, tcpip_short_buffer}
use subpass.Go.Result.{Result, ok, err, panic}

-- The package github.com/sina-ghaderi/tcpip: `TotalLen` and the constant `IPv4`.
pub record Tcpip : Type 0 where
  pub total_len : Bytes → Result ℕ
  pub ipv4 : ℕ

-- What the code relies on: `TotalLen` returns, and finds a packet only if the slice holds all of
-- it; a packet is not empty; and what stands behind a packet plays no part.
pub record IsLawful (tcpip : Tcpip) : Type 0 where
  pub returns : (b : Bytes) → tcpip.total_len b ≢ panic
  pub within : (b : Bytes) {n : ℕ} → tcpip.total_len b ≡ ok n → n ≤ length b
  pub nonempty : (b : Bytes) {n : ℕ} → tcpip.total_len b ≡ ok n → 0 < n
  pub of_take : (b : Bytes) {n : ℕ} → tcpip.total_len b ≡ ok n → tcpip.total_len (take n b) ≡ ok n

-- The `switch` on the error. `b[0] >> 4` panics if `b` is empty.
abbrev checked : Bytes → Result ℕ → Result (ℕ × ℕ)
checked [] (ok n) = panic
checked (x ∷ b) (ok n) = ok (x / 2 ^ 4, n)
checked b (err tcpip_short_buffer) = err err_short_buffer
checked b (err e) = err e
checked b panic = panic

unfoldable pub check_packet_len : Tcpip → Bytes → Result (ℕ × ℕ)
check_packet_len tcpip b = checked b (tcpip.total_len b)

checked-ok : (b : Bytes) (r : Result ℕ) {v n : ℕ} → checked b r ≡ ok (v, n) → r ≡ ok n
checked-ok [] (ok m) h = cc
checked-ok (x ∷ b) (ok m) h = ground arith
checked-ok [] (err tcpip_short_buffer) h = cc
checked-ok [] (err e) h = cc
checked-ok (x ∷ b) (err tcpip_short_buffer) h = cc
checked-ok (x ∷ b) (err e) h = cc
checked-ok [] panic h = cc
checked-ok (x ∷ b) panic h = cc

-- No packet stands in an empty slice.
pub check_packet_len-nil : (tcpip : Tcpip) (v n : ℕ) → check_packet_len tcpip [] ≢ ok (v, n)
unfolding check_packet_len
check_packet_len-nil tcpip v n = no_packet (tcpip.total_len [])
  where
    no_packet : (r : Result ℕ) → checked [] r ≢ ok (v, n)
    no_packet (ok m) h = cc
    no_packet (err tcpip_short_buffer) h = cc
    no_packet (err e) h = cc
    no_packet panic h = cc

checked-panic :
    (b : Bytes) (r : Result ℕ)
    → checked b r ≡ panic
    → (r ≡ panic) ⊎ ((n : ℕ) × (r ≡ ok n) × (b ≡ []))
checked-panic [] (ok m) h = inr (m, refl, refl)
checked-panic (x ∷ b) (ok m) h = cc
checked-panic [] (err tcpip_short_buffer) h = cc
checked-panic [] (err e) h = cc
checked-panic (x ∷ b) (err tcpip_short_buffer) h = cc
checked-panic (x ∷ b) (err e) h = cc
checked-panic [] panic h = inl refl
checked-panic (x ∷ b) panic h = inl refl

pub check_packet_len-whole :
    (tcpip : Tcpip) (b : Bytes) {v n : ℕ}
    → check_packet_len tcpip b ≡ ok (v, n)
    → tcpip.total_len b ≡ ok n
unfolding check_packet_len
check_packet_len-whole tcpip b h = checked-ok b (tcpip.total_len b) h

module _ (tcpip : Tcpip) (law : IsLawful tcpip) (b : Bytes) where
  -- A length that the check lets through is that of `TotalLen`, positive and within the slice.
  pub check_packet_len-ok :
      {v n : ℕ}
      → check_packet_len tcpip b ≡ ok (v, n)
      → (tcpip.total_len b ≡ ok n) × (0 < n) × (n ≤ length b)
  unfolding check_packet_len
  check_packet_len-ok h =
      let e = checked-ok b (tcpip.total_len b) h in (e, law.nonempty b e, law.within b e)

  check_packet_len-ne-panic : check_packet_len tcpip b ≢ panic
  unfolding check_packet_len
  check_packet_len-ne-panic h = elim (checked-panic b (tcpip.total_len b) h) [
    | inl e ↦ law.returns b e
    | inr (n, e, empty) ↦ absurd (omega (arith, law.nonempty b e, law.within b e, ap length empty))
  ]
