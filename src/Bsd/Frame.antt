-- ===== src/Bsd/Frame.antt =====
-- The frames of rw_bsd.go: the buffer that `Read` takes apart and the one that `Write` builds.
use subpass.Base.{ℕ, ◌+◌, ◌-◌, ◌≤◌, ◌≡◌, refl, ap, arith, min, not, ◌∷◌, Bytes}
use subpass.Base.{length, take, drop, take_all, length-take, take-take, length-drop, ltb, ◌==◌}
use subpass.Go.Error.{Error, err_short_buffer, tcpip_short_buffer, new, wrap}
use subpass.Go.Result.{Result, ok, fail_if, with_error, ◌>>=◌, ◌>>◌}
use subpass.Packet.{Tcpip}

abbrev pub addr_family_tag_len : ℕ
addr_family_tag_len = 4

-- math.MaxUint16 + addrFamilyTagLen
abbrev pub max_packet_len : ℕ
max_packet_len = 65535 + addr_family_tag_len

-- The error of `TotalLen` in `Read`.
abbrev pub read_error : Error → Error
read_error tcpip_short_buffer = new "read: short ip packet"
read_error e = wrap "read" e

-- `Read` from the test of the tag on: the packet behind the tag, copied into a slice of `len`
-- bytes.
unfoldable pub unpack : Tcpip → ℕ → Bytes → Result Bytes
unpack tcpip len buff = do
  fail_if (ltb (length buff) addr_family_tag_len) (new "read: short address family tag")
  fail_if (ltb max_packet_len (length buff)) (new "read: invalid ip packet length")
  let packet = drop addr_family_tag_len buff
  fail_if (ltb len (length packet)) (wrap "read" err_short_buffer)
  total_len ← with_error read_error (tcpip.total_len packet)
  fail_if (not (total_len == length packet)) (new "read: invalid ip packet length")
  ok (take len packet)

-- The zeroed buffer with the family's tag and as much of the packet as it has room for.
unfoldable pub frame : ℕ → Bytes → Bytes
frame family packet = 0 ∷ 0 ∷ 0 ∷ family ∷ take (max_packet_len - addr_family_tag_len) packet

-- What is copied behind the tag.
unfoldable pub copied : Bytes → ℕ
copied packet = min (max_packet_len - addr_family_tag_len) (length packet)

pub unpack-ok :
    (tcpip : Tcpip) (len : ℕ) (buff : Bytes) {p : Bytes}
    → unpack tcpip len buff ≡ ok p
    → (p ≡ drop addr_family_tag_len buff)
      × (tcpip.total_len p ≡ ok (length p))
      × (length p ≤ len)
      × (length buff ≡ addr_family_tag_len + length p)
unfolding unpack
unpack-ok tcpip len buff h =
    let packet = drop addr_family_tag_len buff in
    ground (arith, take_all len packet, length-drop addr_family_tag_len buff)

-- A packet that fits comes back out of its frame.
pub unpack-frame :
    (tcpip : Tcpip) (len family : ℕ) (p : Bytes)
    → tcpip.total_len p ≡ ok (length p)
    → length p ≤ 65535
    → length p ≤ len
    → unpack tcpip len (frame family p) ≡ ok p
unfolding unpack frame
unpack-frame tcpip len family p whole short fits =
    rw (take_all 65535 p short) (ground (arith, take_all len p fits))

pub length-frame :
    (family : ℕ) (p : Bytes) → length (frame family p) ≡ addr_family_tag_len + min 65535 (length p)
unfolding frame
length-frame family p = omega (arith, length-take 65535 p)

pub copied-eq : (p : Bytes) → copied p ≡ min 65535 (length p)
unfolding copied
copied-eq p = refl

-- What stands behind the first 65535 bytes plays no part.
pub frame-take :
    (family lb : ℕ) (b : Bytes) → 65535 ≤ lb → frame family (take lb b) ≡ frame family b
unfolding frame
frame-take family lb b h = ap (λ t. 0 ∷ 0 ∷ 0 ∷ family ∷ t) (take-take 65535 lb b h)
