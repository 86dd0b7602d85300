-- ===== src/Windows/Writing.antt =====
-- `Write` of tun_windows.go: what it sends.
use subpass.Base.{ℕ, ◌≤◌, ◌≡◌, ◌⊎◌, inl, inr, refl, arith, Bool, Bytes, length, take}
use subpass.Base.{Option, none, some, length-take}
use subpass.Go.Error.{Errno, error_handle_eof, error_buffer_overflow}
use subpass.Go.Result.{ok, Result-cases}
use subpass.Go.Kernel.{Kernel, History, Call, wintun, Wintun, made}
use subpass.Go.Kernel.Inversion.{Returns}
use subpass.Packet.{Tcpip, IsLawful, check_packet_len, check_packet_len-ok}
use subpass.Windows.{TunDevice, write, on_allocate}

module _ (tcpip : Tcpip) (kernel : Kernel) (closed : History → Bool) (tun : TunDevice) where
  -- The request for a place of `lb` bytes, the reply to it, and the history after it.
  abbrev pub allocating : ℕ → Call
  allocating lb = wintun (Wintun.allocate_send_packet tun.session lb)

  -- What a write of the first `lb` bytes has done when it returned `n`: it sent them, or it found
  -- the ring full and sent nothing.
  abbrev pub Sends : Bytes → ℕ → History → ℕ → History → Type 0
  Sends b lb h n h' =
      let place = kernel h (allocating lb) in
      ((place.errno ≡ none)
        × (n ≡ lb)
        × (h'
            ≡ made kernel (wintun (Wintun.send_packet tun.session place.value (take lb b)))
                (made kernel (allocating lb) h)))
      ⊎ ((place.errno ≡ some error_buffer_overflow)
          × (n ≡ 0)
          × (h' ≡ made kernel (allocating lb) h))

  on_allocate-Sends :
      (b : Bytes) (lb : ℕ) (e : Option Errno) (h : History) {n : ℕ} {h' : History}
      → lb ≤ length b
      → (kernel h (allocating lb)).errno ≡ e
      → Returns
          (on_allocate tcpip kernel closed tun b lb (kernel h (allocating lb)) e)
          (made kernel (allocating lb) h)
          n
          h'
      → Sends b lb h n h'
  on_allocate-Sends b lb none h fits e r =
      let size = length-take lb b in inl (e, ground arith, ground arith)
  on_allocate-Sends b lb (some error_buffer_overflow) h fits e r =
      inr (e, ground arith, ground arith)
  on_allocate-Sends b lb (some error_handle_eof) h fits e r = cc
  on_allocate-Sends b lb (some _) h fits e r = cc

  -- A write that returns a count found a whole packet of at most 65535 bytes at the start of the
  -- slice. It sent exactly that packet, and the count is its length; or the ring was full, nothing
  -- was sent and the count is 0.
  pub write-Sends :
      (b : Bytes) (h : History) {n : ℕ} {h' : History}
      → IsLawful tcpip
      → Returns (write tcpip kernel closed tun b) h n h'
      → (v : ℕ) × (lb : ℕ) × ((check_packet_len tcpip b ≡ ok (v, lb))
          × (lb ≤ 65535)
          × Sends b lb h n h')
  unfolding write
  write-Sends b h law r = elim (Result-cases (check_packet_len tcpip b)) [
    | inl ((v, lb), checks) ↦
        let (_, _, fits) = check_packet_len-ok tcpip law b checks in
        (v, lb, (checks, ground arith, on_allocate-Sends b lb _ h fits refl (ground arith)))
    | inr (inl (x, bad)) ↦ ground arith
    | inr (inr bad) ↦ ground arith
  ]
