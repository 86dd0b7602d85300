-- ===== src/Windows/Ring.antt =====
-- The packets that `Read` of tun_windows.go takes from the ring of its session.
use subpass.Base.{ℕ, zero, suc, ◌+◌, ◌≡◌, ◌≢◌, inl, inr, refl, arith, Bool, true, false}
use subpass.Base.{Option, none, some, [], ◌∷◌, Bytes}
use subpass.Go.Error.{Errno, error_no_more_items, error_handle_eof, error_invalid_data}
use subpass.Go.Result.{Result, ok, err, panic, Result-cases}
use subpass.Go.Kernel.{Kernel, History, Call, wintun, Wintun, Reply, made}
use subpass.Packet.{Tcpip}
use subpass.Windows.{
  TunDevice, Pass, retry, returned, on_receive, on_load, after_pass, take_packet, read,
}
use subpass.Windows.Tally.{tally, receipt, release}

abbrev pub receiving : TunDevice → Call
receiving tun = wintun (Wintun.receive_packet tun.session)

module _ (s p : ℕ) where
  -- Every packet of the place p that came between the two histories went back between them.
  abbrev pub Returned : History → History → Type 0
  Returned h h' =
      tally (receipt s p) h' + tally (release s p) h
      ≡ tally (receipt s p) h + tally (release s p) h'

  -- The same at the end of a pass, when it did not panic.
  abbrev Even : History → Pass → Type 0
  Even h (retry h') = Returned h h'
  Even h (returned (ok b, h')) = Returned h h'
  Even h (returned (err e, h')) = Returned h h'
  Even h (returned (panic, h')) = Unit

module _ (tcpip : Tcpip) (kernel : Kernel) (tun : TunDevice) (len : ℕ) where
  -- A packet that is not empty is released by the one call that follows.
  take_packet-release :
      (packet : Reply) (h : History) {x : ℕ} {b : Bytes}
      → packet.text ≡ x ∷ b
      → (take_packet tcpip kernel tun len packet h).1
        ≡ made kernel (wintun (Wintun.release_receive_packet tun.session packet.value)) h
  unfolding take_packet
  take_packet-release packet h e =
      let place = wintun (Wintun.release_receive_packet tun.session packet.value) in
      elim (Result-cases (tcpip.total_len (kernel h place).text)) [
        | inl (n, total) ↦ ground arith
        | inr (inl (x, bad)) ↦ ground arith
        | inr (inr bad) ↦ ground arith
      ]

  take_packet-empty :
      (packet : Reply) (h : History)
      → packet.text ≡ []
      → take_packet tcpip kernel tun len packet h ≡ (panic, h)
  unfolding take_packet
  take_packet-empty packet h e = ground arith

  module _ (s p : ℕ) (h : History) where
    Even-history : (r : Result Bytes × History) → Returned s p h r.1 → Even s p h (returned r)
    Even-history (ok b, h') e = e
    Even-history (err x, h') e = e
    Even-history (panic, h') e = tt

    taken-Even :
        (b : Bytes)
        → (kernel h (receiving tun)).errno ≡ none
        → (kernel h (receiving tun)).text ≡ b
        → Even s p h (
            returned (
              take_packet tcpip kernel tun len
                (kernel h (receiving tun))
                (made kernel (receiving tun) h)))
    taken-Even [] e text =
        rw (take_packet-empty (kernel h (receiving tun)) (made kernel (receiving tun) h) text) tt
    taken-Even (x ∷ b) e text = Even-history _ (
        rw (take_packet-release (kernel h (receiving tun)) (made kernel (receiving tun) h) text)
          (ground arith))

    on_receive-Even :
        (n : Option Errno)
        → (kernel h (receiving tun)).errno ≡ n
        → Even s p h (
            on_receive tcpip kernel tun len
              (kernel h (receiving tun))
              n
              (made kernel (receiving tun) h))
    on_receive-Even none e = taken-Even (kernel h (receiving tun)).text e refl
    on_receive-Even (some error_no_more_items) e = ground arith
    on_receive-Even (some error_handle_eof) e = ground arith
    on_receive-Even (some error_invalid_data) e = ground arith
    on_receive-Even (some _) e = ground arith

    on_load-Even : (shut : Bool) → Even s p h (on_load tcpip kernel tun len shut h)
    on_load-Even true = refl
    on_load-Even false = on_receive-Even (kernel h (receiving tun)).errno refl

after_pass-Returned :
    (s p : ℕ) (again : History → Option (Result Bytes) × History) (h : History)
    → ((h' : History) → (again h').0 ≢ some panic → Returned s p h' (again h').1)
    → (pass : Pass) → Even s p h pass
    → (after_pass again pass).0 ≢ some panic
    → Returned s p h (after_pass again pass).1
after_pass-Returned s p again h rest (retry h') even calm = omega (arith, even, rest h' calm)
after_pass-Returned s p again h rest (returned (ok b, h')) even calm = even
after_pass-Returned s p again h rest (returned (err e, h')) even calm = even
after_pass-Returned s p again h rest (returned (panic, h')) even calm = absurd (calm refl)

module _ (tcpip : Tcpip) (kernel : Kernel) (closed : History → Bool) (tun : TunDevice)
    (len : ℕ) where
  -- However often `Read` waits, when it is done every packet that it took from the ring went back
  -- to it, each once, whatever `Read` returned; unless it panicked.
  pub read-Returned :
      (passes : ℕ) (s p : ℕ) (h : History)
      → (read tcpip kernel closed tun len passes h).0 ≢ some panic
      → Returned s p h (read tcpip kernel closed tun len passes h).1
  unfolding read
  read-Returned zero s p h calm = refl
  read-Returned (suc passes) s p h calm =
      after_pass-Returned s p (read tcpip kernel closed tun len passes) h (read-Returned passes s p)
        (on_load tcpip kernel tun len (closed h) h)
        (on_load-Even tcpip kernel tun len s p h (closed h)) calm
