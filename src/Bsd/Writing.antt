-- ===== src/Bsd/Writing.antt =====
-- What `Write` hands to the device, and that `Read` gets the packet back.
use subpass.Base.{ℕ, ◌≤◌, ◌<◌, ◌≡◌, arith, false, none, some, []}
use subpass.Base.{
  Option-cases, inl, inr, Bytes, length, take, take_all, length-take, ◌==◌, if◌then◌else◌, min,
}
use subpass.Go.Result.{ok, Result-cases}
use subpass.Go.Kernel.{Kernel, History, File, made, Call}
use subpass.Go.Kernel.Inversion.{Returns}
use subpass.Go.File.{file_read, file_write}
use subpass.Packet.{Tcpip, IsLawful, check_packet_len, check_packet_len-ok, check_packet_len-whole}
use subpass.Bsd.{TunDevice, Families, read, write}
use subpass.Bsd.Frame.{frame-take, copied-eq}
use subpass.Bsd.Frame.{max_packet_len, frame, unpack-frame, length-frame}

-- The tag for a packet of this version.
abbrev pub family_of : Tcpip → Families → ℕ → ℕ
family_of tcpip families v = if v == tcpip.ipv4 then families.af_inet else families.af_inet6

abbrev pub IsOpen : TunDevice → File → Type 0
IsOpen tun f = (tun.closed ≡ false) × (tun.file ≡ some f)

-- The kernel takes a write of these bytes whole; it answers a read with them.
abbrev Accepts : Kernel → File → Bytes → History → Type 0
Accepts kernel f b h =
    kernel h (Call.write f.fd b) ≡ record { errno = none; value = length b; text = [] }

abbrev Delivers : Kernel → File → Bytes → History → Type 0
Delivers kernel f b h =
    kernel h (Call.read f.fd max_packet_len) ≡ record { errno = none; value = length b; text = b }

module _ (tcpip : Tcpip) (families : Families) (kernel : Kernel) (tun : TunDevice) where
  -- A write that returns a value made one call, a write of the frame of the packet that stands at
  -- the start of the slice, as `checkPacketLen` measures it, tagged by its version; what stands
  -- behind the packet is not sent. The value is the packet's length, or 65535 if that is less.
  pub write-frame :
      (b : Bytes) (h : History) {n : ℕ} {h' : History}
      → IsLawful tcpip
      → Returns (write tcpip families kernel tun b) h n h'
      → (f : File) × (v : ℕ) × (lb : ℕ) × (IsOpen tun f
          × (check_packet_len tcpip b ≡ ok (v, lb))
          × (h' ≡ made kernel (Call.write f.fd (frame (family_of tcpip families v) (take lb b))) h)
          × (n ≡ min 65535 lb))
  unfolding write file_write
  write-frame b h {n} {h'} law e = elim (Option-cases tun.file) [
    | inl no_file ↦ ground arith
    | inr (f, has_file) ↦ elim (Result-cases (check_packet_len tcpip b)) [
      | inl ((v, lb), checks) ↦
          let (_, _, fits) = check_packet_len-ok tcpip law b checks in
          let cut = copied-eq (take lb b) in
          let size = length-take lb b in
          (f, v, lb, ((ground arith, has_file), checks, ground arith, ground arith))
      | inr (inl (x, bad)) ↦ ground arith
      | inr (inr bad) ↦ ground arith
    ]
  ]

  -- A packet of more than 65535 bytes, which IPv6 allows, is cut to its first 65535 bytes, and the
  -- write reports no error.
  pub write_cuts :
      (b : Bytes) (h : History) (f : File) {v lb : ℕ}
      → IsOpen tun f
      → IsLawful tcpip
      → check_packet_len tcpip b ≡ ok (v, lb)
      → 65535 < lb
      → kernel h (Call.write f.fd (frame (family_of tcpip families v) b))
        ≡ record { errno = none; value = 65539; text = [] }
      → write tcpip families kernel tun b h
        ≡ (ok 65535, made kernel (Call.write f.fd (frame (family_of tcpip families v) b)) h)
  unfolding write file_write
  write_cuts b h f {v} {lb} is_open law checks long accepts =
      let (_, _, fits) = check_packet_len-ok tcpip law b checks in
      let same = frame-take (family_of tcpip families v) lb b (omega arith) in
      let cut = copied-eq (take lb b) in
      let size = length-take lb b in
      let sent = length-frame (family_of tcpip families v) b in ground arith

  -- When the kernel takes the frame of a whole packet of at most 65535 bytes, and then gives the
  -- same bytes to a read, a read into a slice that has room returns the packet.
  pub read-write :
      (p : Bytes) (len v : ℕ) (h : History) (f : File)
      → IsOpen tun f
      → check_packet_len tcpip p ≡ ok (v, length p)
      → length p ≤ 65535
      → length p ≤ len
      → Accepts kernel f (frame (family_of tcpip families v) p) h
      → Delivers kernel f
          (frame (family_of tcpip families v) p)
          (made kernel (Call.write f.fd (frame (family_of tcpip families v) p)) h)
      → (write tcpip families kernel tun p h
          ≡ (ok (length p), made kernel (Call.write f.fd (frame (family_of tcpip families v) p)) h))
        × ((read tcpip kernel tun len
              (made kernel (Call.write f.fd (frame (family_of tcpip families v) p)) h)).0
            ≡ ok p)
  unfolding write file_write read file_read
  read-write p len v h f is_open checks short fits takes gives =
      let whole = check_packet_len-whole tcpip p checks in
      let all = take_all (length p) p (omega arith) in
      let cut = copied-eq p in
      let sent = length-frame (family_of tcpip families v) p in
      let back = unpack-frame tcpip len (family_of tcpip families v) p whole short fits in
      (ground arith, ground arith)
