-- ===== src/Bsd/Reading.antt =====
-- What `Read` returns, and what it has done to the device.
use subpass.Base.{ℕ, ◌≤◌, ◌≡◌, arith, false, some}
use subpass.Base.{Option-cases, inl, inr, Bytes, length, drop}
use subpass.Go.Result.{ok}
use subpass.Go.Kernel.{Kernel, History, File, made, Call}
use subpass.Go.Kernel.Inversion.{Returns}
use subpass.Go.File.{file_read}
use subpass.Packet.{Tcpip}
use subpass.Bsd.{TunDevice, read}
use subpass.Bsd.Frame.{max_packet_len, addr_family_tag_len, unpack-ok}

module _ (tcpip : Tcpip) (kernel : Kernel) (tun : TunDevice) (len : ℕ) (h : History) where
  -- A read that returns a value made one call, a read of the device's file; behind the first four
  -- bytes of what it gave stands the result, which is one whole packet and fits into the slice.
  pub read-packet :
      {p : Bytes} {h' : History}
      → Returns (read tcpip kernel tun len) h p h'
      → (f : File) × (tun.closed ≡ false)
        × (tun.file ≡ some f)
        × ((h' ≡ made kernel (Call.read f.fd max_packet_len) h)
            × (p ≡ drop addr_family_tag_len (kernel h (Call.read f.fd max_packet_len)).text)
            × (tcpip.total_len p ≡ ok (length p))
            × (length p ≤ len))
  unfolding read file_read
  read-packet {p} e = elim (Option-cases tun.file) [
    | inl no_file ↦ ground arith
    | inr (f, has_file) ↦ (
      f,
      ground arith,
      has_file,
      ground (arith, unpack-ok tcpip len (kernel h (Call.read f.fd max_packet_len)).text {p = p}),
    )
  ]
