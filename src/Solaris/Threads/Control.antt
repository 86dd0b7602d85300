-- ===== src/Solaris/Threads/Control.antt =====
-- The mutexes and the flag of tun_solaris.go: who holds them, and how often the files are closed.
use subpass.Base.{ℕ, ◌+◌, ◌≡◌, refl, arith, if◌then◌else◌, List, ◌∷◌, ◌++◌, Bytes, ◌↔◌}
use subpass.Go.Error.{tcpip_short_buffer}
use subpass.Go.Result.{Result, ok, err, panic}
use subpass.Go.Kernel.{Kernel, History}
use subpass.Go.Threads.{State, Step, step, total, total-append}
use subpass.Packet.{Tcpip}
use subpass.Solaris.Reader.{
  TunDevice, unread, take_packet, take_filled, after_fill, after_total_len,
}
use subpass.Solaris.Threads.{
  Shared, Pc, read_holding, filling, read_leaving, write_holding, write_leaving, closing,
  closing_link, Local, fill,
}
use subpass.Solaris.Threads.{
  refused, read_load, read_lock, takes, moves, file_reads, read_unlock, write_load, write_lock,
  sends, write_unlock, swap, close_data, close_link,
}

-- The goroutines between a lock and its unlock, and those of `Close` before each of its closes.
abbrev pub reads : Pc → ℕ
reads (read_holding len) = 1
reads (filling len) = 1
reads (read_leaving r) = 1
reads _ = 0

abbrev pub writes : Pc → ℕ
writes (write_holding b) = 1
writes write_leaving = 1
writes _ = 0

abbrev pub closes : Pc → ℕ
closes closing = 1
closes _ = 0

abbrev pub link_closes : Pc → ℕ
link_closes closing_link = 1
link_closes _ = 0

-- Their numbers, and the shared fields.
pub record Numbers (m : Shared) (rd wr cl ln : ℕ) : Type 0 where
  pub one_reader : rd ≡ (if m.reading then 1 else 0)
  pub one_writer : wr ≡ (if m.writing then 1 else 0)
  pub one_close : cl + m.data_closes ≡ (if m.device.closed then 1 else 0)
  pub then_link : ln + m.link_closes ≡ m.data_closes

abbrev pub Control : State Shared Pc → Type 0
Control s =
    Numbers s.shared (total reads s.threads) (total writes s.threads) (total closes s.threads)
      (total link_closes s.threads)

-- `readPacket` leaves the flag alone.
take_packet-closed :
    (tun : TunDevice) (len total : ℕ) → (take_packet tun len total).0.closed ≡ tun.closed
take_packet-closed tun len total = ground arith

take_filled-closed :
    (tun : TunDevice) (len : ℕ) (r : Result ℕ) → (take_filled tun len r).0.closed ≡ tun.closed
take_filled-closed tun len (ok n) = take_packet-closed tun len n
take_filled-closed tun len (err tcpip_short_buffer) = refl
take_filled-closed tun len (err e) = refl
take_filled-closed tun len panic = refl

after_fill-closed :
    (tcpip : Tcpip) (tun : TunDevice) (len : ℕ) (x : Result Bytes × History)
    → (after_fill tcpip tun len x).0.closed ≡ tun.closed
after_fill-closed tcpip tun len (ok b, h) = take_filled-closed _ len (tcpip.total_len _)
after_fill-closed tcpip tun len (err e, h) = refl
after_fill-closed tcpip tun len (panic, h) = refl

module _ (tcpip : Tcpip) (kernel : Kernel) where
  pub after_total_len-closed :
      (tun : TunDevice) (len : ℕ) (h : History) (r : Result ℕ)
      → (after_total_len tcpip kernel tun len h r).0.closed ≡ tun.closed
  after_total_len-closed tun len h (ok n) = take_packet-closed tun len n
  after_total_len-closed tun len h (err tcpip_short_buffer) = after_fill-closed tcpip _ len _
  after_total_len-closed tun len h (err e) = refl
  after_total_len-closed tun len h panic = refl

  module _ (m m' : Shared) (p q : Pc) (rd wr cl ln : ℕ) where
    -- The numbers of the other goroutines, with one at p.
    abbrev With : Shared → Pc → Type 0
    With m p = Numbers m (reads p + rd) (writes p + wr) (closes p + cl) (link_closes p + ln)

    Local-With : Local tcpip kernel m p m' q → With m p → With m' q
    Local-With (refused a b c d) inv = ground arith
    Local-With (read_load len a b c d) inv = ground arith
    Local-With (read_lock len a b c d) inv = ground arith
    Local-With (takes len a b c d) inv =
        ground
          (arith, after_total_len-closed m.device len m.history (tcpip.total_len (unread m.device)))
    Local-With (moves len a b c d) inv = ground arith
    Local-With (file_reads len a b c) inv =
        ground (arith, after_fill-closed tcpip m.device len (fill tcpip kernel m len))
    Local-With (read_unlock r a b c) inv = ground arith
    Local-With (write_load x a b c d) inv = ground arith
    Local-With (write_lock x a b c d) inv = ground arith
    Local-With (sends x a b c) inv = ground arith
    Local-With (write_unlock a b c) inv = ground arith
    Local-With (swap a b c d) inv = ground arith
    Local-With (close_data a b c) inv = ground arith
    Local-With (close_link a b c) inv = ground arith

-- The numbers of a list of goroutines with one of them apart.
apart-Numbers :
    (m m' : Shared) (ps before after : List Pc) (p q : Pc) (tcpip : Tcpip) (kernel : Kernel)
    → ps ≡ before ++ (p ∷ after)
    → let rest = λ (w : Pc → ℕ). total w before + total w after in
      Control (record { shared = m; threads = ps })
      ↔ With tcpip kernel m m' p q (rest reads) (rest writes) (rest closes) (rest link_closes) m p
apart-Numbers m m' ps before after p q tcpip kernel split =
    let a = total-append reads before p after in
    let b = total-append writes before p after in
    let c = total-append closes before p after in
    let d = total-append link_closes before p after in
    rw split (λ inv. ground arith, λ inv. ground arith)

module _ (tcpip : Tcpip) (kernel : Kernel) where
  pub step-Control : (s t : State Shared Pc) → Step (Local tcpip kernel) s t → Control s → Control t
  step-Control s t (step before after p q own from to) inv =
      (apart-Numbers t.shared s.shared t.threads before after q p tcpip kernel to).1 (
        Local-With tcpip kernel s.shared t.shared p q _ _ _ _ own
          ((apart-Numbers s.shared t.shared s.threads before after p q tcpip kernel from).0 inv))
