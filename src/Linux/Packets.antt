-- ===== src/Linux/Packets.antt =====
-- What crosses `Read` and `Write` of tun_linux.go.
use subpass.Base.{
  ℕ, ◌≤◌, ◌≡◌, arith, Option-cases, Bool-cases, ◌==◌, [], inl, inr, Bytes, length, take,
}
use subpass.Base.{length-take}
use subpass.Go.Result.{ok, Result-cases}
use subpass.Go.Kernel.{Kernel, History, File, Call, made}
use subpass.Go.Kernel.Inversion.{Returns}
use subpass.Go.File.{file_read, file_write}
use subpass.Packet.{Tcpip, IsLawful, check_packet_len, check_packet_len-ok, check_packet_len-nil}
use subpass.Bsd.{TunDevice}
use subpass.Bsd.Writing.{IsOpen}
use subpass.Linux.{read, write}

module _ (tcpip : Tcpip) (kernel : Kernel) (tun : TunDevice) where
  -- A read that returns a value made one call, a read of the device's file into the whole slice;
  -- what the call gave is the result, and is one whole packet.
  pub read_whole :
      (len : ℕ) (h : History) {p : Bytes} {h' : History}
      → Returns (read tcpip kernel tun len) h p h'
      → (f : File) × (v : ℕ) × (IsOpen tun f
          × (h' ≡ made kernel (Call.read f.fd len) h)
          × (p ≡ (kernel h (Call.read f.fd len)).text)
          × (check_packet_len tcpip p ≡ ok (v, length p))
          × (length p ≤ len))
  unfolding read file_read
  read_whole len h {p} {h'} e = elim (Option-cases tun.file) [
    | inl no_file ↦ ground arith
    | inr (f, has_file) ↦ elim (Bool-cases (len == 0)) [
      | inl empty ↦ elim (Result-cases (check_packet_len tcpip [])) [
        | inl ((v, n), checks) ↦ absurd (check_packet_len-nil tcpip v n checks)
        | inr (inl (x, bad)) ↦ ground arith
        | inr (inr bad) ↦ ground arith
      ]
      | inr room ↦
          elim (Result-cases (check_packet_len tcpip (kernel h (Call.read f.fd len)).text)) [
            | inl ((v, n), checks) ↦ (
              f,
              v,
              ((ground arith, has_file), ground arith, ground arith, ground arith, ground arith),
            )
            | inr (inl (x, bad)) ↦ ground arith
            | inr (inr bad) ↦ ground arith
          ]
    ]
  ]

  -- A write that returns a value made one call, a write of the packet that stands at the start of
  -- the slice, as `checkPacketLen` measures it, and the value is the packet's length: what stands
  -- behind the packet is not sent.
  pub write_whole :
      (b : Bytes) (h : History) {n : ℕ} {h' : History}
      → IsLawful tcpip
      → Returns (write tcpip kernel tun b) h n h'
      → (f : File) × (v : ℕ) × (IsOpen tun f
          × (check_packet_len tcpip b ≡ ok (v, n))
          × (h' ≡ made kernel (Call.write f.fd (take n b)) h))
  unfolding write file_write
  write_whole b h {n} {h'} law e = elim (Option-cases tun.file) [
    | inl no_file ↦ ground arith
    | inr (f, has_file) ↦ elim (Result-cases (check_packet_len tcpip b)) [
      | inl ((v, lb), checks) ↦
          let (_, _, fits) = check_packet_len-ok tcpip law b checks in
          let size = length-take lb b in
          (f, v, ((ground arith, has_file), ground arith, ground arith))
      | inr (inl (x, bad)) ↦ ground arith
      | inr (inr bad) ↦ ground arith
    ]
  ]
