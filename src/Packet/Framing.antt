-- ===== src/Packet/Framing.antt =====
-- What a stream of packets needs of the package tcpip, and what `checkPacketLen` makes of it.
use subpass.Base.{ℕ, ◌/◌, ◌^◌, ◌<◌, ◌≡◌, arith, [], ◌∷◌, ◌++◌, Bytes, length}
use subpass.Go.Error.{err_short_buffer, tcpip_short_buffer}
use subpass.Go.Result.{ok, err}
use subpass.Packet.{Tcpip, IsLawful, check_packet_len}

-- A slice that is one packet, by its own length field.
abbrev pub IsWhole : Tcpip → Bytes → Type 0
IsWhole tcpip p = tcpip.total_len p ≡ ok (length p)

-- `TotalLen` finds a packet whatever stands behind it, and says ErrShortBuffer of its beginning.
pub record IsFramed (tcpip : Tcpip) : Type 0 where
  pub extended : (p rest : Bytes) → IsWhole tcpip p → tcpip.total_len (p ++ rest) ≡ ok (length p)
  pub cut :
      (b : Bytes) (x : ℕ) (c : Bytes)
      → IsWhole tcpip (b ++ (x ∷ c))
      → tcpip.total_len b ≡ err tcpip_short_buffer

-- The version in the first byte.
abbrev pub version : Bytes → ℕ
version [] = 0
version (x ∷ p) = x / 2 ^ 4

module _ (tcpip : Tcpip) (law : IsLawful tcpip) (framed : IsFramed tcpip) where
  pub check_packet_len-append :
      (p rest : Bytes)
      → IsWhole tcpip p
      → check_packet_len tcpip (p ++ rest) ≡ ok (version p, length p)
  unfolding check_packet_len
  check_packet_len-append [] rest whole = absurd (omega (arith, law.nonempty [] whole))
  check_packet_len-append (x ∷ p) rest whole = rw (framed.extended (x ∷ p) rest whole)

  pub check_packet_len-cut :
      (b : Bytes) (x : ℕ) (c : Bytes)
      → IsWhole tcpip (b ++ (x ∷ c))
      → 0 < length b
      → check_packet_len tcpip b ≡ err err_short_buffer
  unfolding check_packet_len
  check_packet_len-cut [] x c whole filled = absurd (omega arith)
  check_packet_len-cut (y ∷ b) x c whole filled = rw (framed.cut (y ∷ b) x c whole)
