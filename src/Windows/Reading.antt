-- ===== src/Windows/Reading.antt =====
-- `Read` of tun_windows.go: when it returns, and what it returns.
use subpass.Base.{
  ℕ, zero, suc, ◌≤◌, ◌<◌, ◌≡◌, ◌≢◌, ◌↔◌, ◌⊎◌, inl, inr, refl, arith, Bool, true, false,
}
use subpass.Base.{Option, none, some, ◌∷◌, Bytes, length}
use subpass.Base.{Bool-cases}
use subpass.Go.Error.{
  Errno, other, ebusy, eexist, enoent, error_no_more_items, error_handle_eof, error_invalid_data,
  error_buffer_overflow,
}
use subpass.Go.Result.{Result, ok, Result-cases}
use subpass.Go.Kernel.{Kernel, History, wintun, Wintun, Reply, made}
use subpass.Packet.{Tcpip}
use subpass.Windows.{TunDevice, retry, on_receive, on_load, after_pass, take_packet, read}
use subpass.Windows.Ring.{receiving}

is_empty_ring : (n : Option Errno) → (n ≡ some error_no_more_items) ⊎ (n ≢ some error_no_more_items)
is_empty_ring none = inr (λ e. cc)
is_empty_ring (some error_no_more_items) = inl refl
is_empty_ring (some ebusy) = inr (λ e. cc)
is_empty_ring (some eexist) = inr (λ e. cc)
is_empty_ring (some enoent) = inr (λ e. cc)
is_empty_ring (some error_handle_eof) = inr (λ e. cc)
is_empty_ring (some error_invalid_data) = inr (λ e. cc)
is_empty_ring (some error_buffer_overflow) = inr (λ e. cc)
is_empty_ring (some (other n)) = inr (λ e. cc)

pass_waits :
    (tcpip : Tcpip) (kernel : Kernel) (tun : TunDevice) (len : ℕ) (shut : Bool) (h : History)
    → shut ≡ false
    → (kernel h (receiving tun)).errno ≡ some error_no_more_items
    → on_load tcpip kernel tun len shut h
      ≡ retry (
          made kernel
            (wintun (Wintun.wait_for_single_object tun.read_wait))
            (made kernel (receiving tun) h))
pass_waits tcpip kernel tun len shut h is_open waits = ground arith

module _ (tcpip : Tcpip) (kernel : Kernel) (tun : TunDevice) (len : ℕ)
    (again : History → Option (Result Bytes) × History) where
  receive_returns :
      (n : Option Errno) (packet : Reply) (h : History)
      → n ≢ some error_no_more_items
      → (after_pass again (on_receive tcpip kernel tun len packet n h)).0 ≢ none
  receive_returns (some error_no_more_items) packet h goes = absurd (goes refl)
  receive_returns none packet h goes = λ e. cc
  receive_returns (some ebusy) packet h goes = λ e. cc
  receive_returns (some eexist) packet h goes = λ e. cc
  receive_returns (some enoent) packet h goes = λ e. cc
  receive_returns (some error_handle_eof) packet h goes = λ e. cc
  receive_returns (some error_invalid_data) packet h goes = λ e. cc
  receive_returns (some error_buffer_overflow) packet h goes = λ e. cc
  receive_returns (some (other n)) packet h goes = λ e. cc

  ready_returns :
      (shut : Bool) (h : History)
      → (shut ≡ true) ⊎ ((kernel h (receiving tun)).errno ≢ some error_no_more_items)
      → (after_pass again (on_load tcpip kernel tun len shut h)).0 ≢ none
  ready_returns true h ready = λ e. cc
  ready_returns false h (inl shut) = cc
  ready_returns false h (inr goes) =
      receive_returns (kernel h (receiving tun)).errno (kernel h (receiving tun)) _ goes

module _ (tcpip : Tcpip) (kernel : Kernel) (closed : History → Bool) (tun : TunDevice)
    (len : ℕ) where
  -- The history after a number of passes that end in a wait.
  abbrev pub waited : ℕ → History → History
  waited zero h = h
  waited (suc k) h = waited k (
      made kernel (wintun (Wintun.wait_for_single_object tun.read_wait))
        (made kernel (receiving tun) h))

  -- What makes a pass return: the device is closed, or the ring does not say that it is empty.
  abbrev pub IsReady : History → Type 0
  IsReady h = (closed h ≡ true) ⊎ ((kernel h (receiving tun)).errno ≢ some error_no_more_items)

  -- `Read` returns as soon as the device is closed or the ring is not empty after any of its waits.
  pub read-ne-none :
      (k passes : ℕ) (h : History)
      → k < passes
      → IsReady (waited k h)
      → (read tcpip kernel closed tun len passes h).0 ≢ none
  unfolding read
  read-ne-none k zero h enough ready = absurd (omega arith)
  read-ne-none zero (suc passes) h enough ready =
      ready_returns tcpip kernel tun len (read tcpip kernel closed tun len passes) (closed h) h
        ready
  read-ne-none (suc k) (suc passes) h enough ready = elim (Bool-cases (closed h)) [
    | inl shut ↦ rw shut (λ e. cc)
    | inr is_open ↦ elim (is_empty_ring (kernel h (receiving tun)).errno) [
      | inl waits ↦
          rw (pass_waits tcpip kernel tun len (closed h) h is_open waits)
            (read-ne-none k passes _ (omega arith) ready)
      | inr goes ↦
          ready_returns tcpip kernel tun len (read tcpip kernel closed tun len passes) (closed h) h
            (inr goes)
    ]
  ]

  -- The bytes that are found in the packet's place after its release.
  abbrev pub left_behind : History → Bytes
  left_behind h =
      (kernel (made kernel (receiving tun) h)
        (wintun (Wintun.release_receive_packet tun.session (kernel h (receiving tun)).value))).text

  -- A packet that `Read` took from the ring is returned exactly if it fits into the slice, and what
  -- stands in its place after the release begins with a packet of that length.
  pub read-packet_iff :
      (passes : ℕ) (h : History) {x : ℕ} {b : Bytes}
      → closed h ≡ false
      → (kernel h (receiving tun)).errno ≡ none
      → (kernel h (receiving tun)).text ≡ x ∷ b
      → ((read tcpip kernel closed tun len (suc passes) h).0 ≡ some (ok (x ∷ b)))
        ↔ ((tcpip.total_len (left_behind h) ≡ ok (length (x ∷ b))) × (length (x ∷ b) ≤ len))
  unfolding read take_packet
  read-packet_iff passes h is_open taken text =
      elim (Result-cases (tcpip.total_len (left_behind h))) [
        | inl (n, total) ↦ (λ e. ground arith, λ e. ground arith)
        | inr (inl (x, bad)) ↦ (λ e. ground arith, λ e. ground arith)
        | inr (inr bad) ↦ (λ e. ground arith, λ e. ground arith)
      ]
