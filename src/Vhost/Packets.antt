-- ===== src/Vhost/Packets.antt =====
-- What crosses `Read` and `Write` of _vhost_linux.go.
use subpass.Base.{ℕ, ◌≤◌, ◌≡◌, refl, ap, arith, inl, inr, Bytes, length, take, Bool, true, false}
use subpass.Go.Result.{ok, ok-injective, Result-cases}
use subpass.Go.Error.{Error, err_closed, wrap}
use subpass.Go.Kernel.{History, M, pure, fail_if, wrapping, ◌>>=◌, ◌>>◌}
use subpass.Go.Kernel.Inversion.{Returns, bind-Returns, mapping-Returns}
use subpass.Packet.{Tcpip, IsLawful, check_packet_len, check_packet_len-ok}
use subpass.Vhost.{Vhost, TunDeviceVhost, deliver, send, read, write}

deliver-Returns :
    (tcpip : Tcpip) (len : ℕ) (q : Bytes) (h : History) {p : Bytes} {h' : History}
    → Returns (deliver tcpip len q) h p h'
    → (h ≡ h') × (q ≡ p) × (tcpip.total_len p ≡ ok (length p)) × (length p ≤ len)
deliver-Returns tcpip len q h e = elim (Result-cases (tcpip.total_len q)) [
  | inl (n, measured) ↦ ground arith
  | inr (inl (x, bad)) ↦ ground arith
  | inr (inr bad) ↦ ground arith
]

sent-Returns :
    (m : M (Unit {0})) (len : ℕ) (h : History) {n : ℕ} {h' : History}
    → Returns (wrapping "write" m >> pure len) h n h'
    → (len ≡ n) × Returns m h tt h'
sent-Returns m len h e =
    let (u, h2, sent, last) = bind-Returns (wrapping "write" m) (λ _. pure len) h e in
    let got = mapping-Returns (wrap "write") m h sent in
    let now : h2 ≡ _ = ap (λ r. r.1) last in (ok-injective (ap (λ r. r.0) last), rw now at got)

send-Returns :
    (tcpip : Tcpip) (vhost : Vhost) (device : ℕ) (b : Bytes) (h : History) {n : ℕ} {h' : History}
    → IsLawful tcpip
    → Returns (send tcpip vhost device b) h n h'
    → ((v : ℕ) × (check_packet_len tcpip b ≡ ok (v, n)))
      × Returns (vhost.transmit_packet device (take n b)) h tt h'
send-Returns tcpip vhost device b h {n} {h'} law e =
    elim (Result-cases (check_packet_len tcpip b)) [
      | inl ((v, lb), checks) ↦
          let (_, _, fits) = check_packet_len-ok tcpip law b checks in
          let sent : Returns
              (wrapping "write" (vhost.transmit_packet device (take lb b)) >> pure lb) h n h' =
            ground arith in
          let (same, got) = sent-Returns (vhost.transmit_packet device (take lb b)) lb h sent in
          ((v, rw (← same) checks), rw same at got)
      | inr (inl (x, bad)) ↦ absurd (ground arith)
      | inr (inr bad) ↦ absurd (ground arith)
    ]

guarded-Returns :
    {A : Type 0} (c : Bool) (x : Error) (m : M A) (h : History) {a : A} {h' : History}
    → Returns (fail_if c x >> m) h a h'
    → (c ≡ false) × Returns m h a h'
guarded-Returns true x m h e = absurd (ground arith)
guarded-Returns false x m h e = (refl, e)

module _ (tcpip : Tcpip) (vhost : Vhost) (tun : TunDeviceVhost) where
  -- A read that returns a value found the device open and received that packet from the vhost
  -- device: it is one whole packet and fits into the slice.
  pub read-receive_packet :
      (len : ℕ) (h : History) {p : Bytes} {h' : History}
      → Returns (read tcpip vhost tun len) h p h'
      → (tun.closed ≡ false)
        × Returns (vhost.receive_packet tun.vhost_device) h p h'
        × (tcpip.total_len p ≡ ok (length p))
        × (length p ≤ len)
  unfolding read
  read-receive_packet len h {p} {h'} e =
      let m : M Bytes = vhost.receive_packet tun.vhost_device in
      let (is_open, e1) =
        guarded-Returns tun.closed (wrap "read" err_closed)
          (wrapping "read" m >>= deliver tcpip len) h e in
      let (q, h2, received, last) = bind-Returns (wrapping "read" m) (deliver tcpip len) h e1 in
      let got = mapping-Returns (wrap "read") m h received in
      let (now, same, measured, fits) = deliver-Returns tcpip len q h2 last in
      (is_open, rw (now, same) at got, measured, fits)

  -- A write that returns a value found the device open and gave the vhost device the packet that
  -- stands at the start of the slice, as `checkPacketLen` measures it, which was accepted; the value
  -- is the packet's length, and what stands behind the packet is not sent.
  pub write-transmit_packet :
      (b : Bytes) (h : History) {n : ℕ} {h' : History}
      → IsLawful tcpip
      → Returns (write tcpip vhost tun b) h n h'
      → (tun.closed ≡ false)
        × ((v : ℕ) × (check_packet_len tcpip b ≡ ok (v, n)))
        × Returns (vhost.transmit_packet tun.vhost_device (take n b)) h tt h'
  unfolding write
  write-transmit_packet b h law e =
      let (is_open, e1) =
        guarded-Returns tun.closed (wrap "write" err_closed) (send tcpip vhost tun.vhost_device b) h
          e in
      let (checks, sent) = send-Returns tcpip vhost tun.vhost_device b h law e1 in
      (is_open, checks, sent)
