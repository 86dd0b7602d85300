-- ===== src/Solaris/Threads/Delivery.antt =====
-- What the goroutines that read make of the stream of tun_solaris.go, however they are interleaved.
use mathlib.Core.Path.{subst}
use subpass.Base.{
  ℕ, ◌+◌, ◌≤◌, ◌<◌, ◌≡◌, refl, ap, sym, ◌∙◌, arith, false, List, [], ◌∷◌, ◌++◌, Bytes, take,
  append-nil, append_assoc, ◌||◌, Bool, true,
}
use subpass.Go.Result.{Result, ok, err, panic}
use subpass.Go.Kernel.{Kernel, History}
use subpass.Packet.{Tcpip, IsLawful}
use subpass.Copy.Progress.{concat}
use subpass.Solaris.Reader.{TunDevice, unread, overwrite, after_fill}
use subpass.Solaris.Buffer.{IsSound, take-moved, length-moved}
use subpass.Solaris.Stream.{Separates, delivered, taken-Separates, filled-Separates}
use subpass.Packet.Framing.{IsWhole}
use subpass.Solaris.Threads.{Shared, Pc, filling, Local, fill, packet_of, bytes_of, is_error}
use subpass.Solaris.Threads.{
  refused, read_load, read_lock, takes, moves, file_reads, read_unlock, write_load, write_lock,
  sends, write_unlock, swap, close_data, close_link,
}
use subpass.Solaris.Threads.Control.{reads}

-- The goroutine that has moved the unread bytes and not yet read.
abbrev pub fills : Pc → ℕ
fills (filling len) = 1
fills _ = 0

abbrev pub AllWhole : Tcpip → List Bytes → Type 0
AllWhole tcpip [] = Unit
AllWhole tcpip (p ∷ ps) = IsWhole tcpip p × AllWhole tcpip ps

-- The bytes that wait in the buffer, by the number of goroutines that are filling it: those at its
-- start then, and the slice otherwise.
pub record Stream (tcpip : Tcpip) (received : Bytes) (packets : List Bytes) (failed : Bool)
    (tun : TunDevice) (fl : ℕ) : Type 0 where
  pub sound : IsSound tun
  pub settled : failed ≡ false → fl ≡ 0 → received ≡ concat packets ++ unread tun
  pub midway : failed ≡ false → 0 < fl → received ≡ concat packets ++ take tun.count tun.buff
  pub all_whole : AllWhole tcpip packets

abbrev pub StreamOf : Tcpip → Shared → ℕ → Type 0
StreamOf tcpip m fl = Stream tcpip m.received m.packets m.failed m.device fl

concat-packet_of :
    (ps : List Bytes) (r : Result Bytes) → concat (ps ++ packet_of r) ≡ concat ps ++ delivered r
concat-packet_of [] (ok p) = append-nil p
concat-packet_of [] (err e) = refl
concat-packet_of [] panic = refl
concat-packet_of (q ∷ ps) r =
    ap (λ t. q ++ t) (concat-packet_of ps r) ∙ sym (append_assoc q (concat ps) (delivered r))

AllWhole-packet_of :
    (tcpip : Tcpip) (ps : List Bytes) (all : Bytes) (len : ℕ) (tun : TunDevice) (r : Result Bytes)
    → AllWhole tcpip ps
    → Separates tcpip len all (tun, r)
    → AllWhole tcpip (ps ++ packet_of r)
AllWhole-packet_of tcpip [] all len tun (ok p) whole s = (s.2.0, tt)
AllWhole-packet_of tcpip [] all len tun (err e) whole s = tt
AllWhole-packet_of tcpip [] all len tun panic whole s = tt
AllWhole-packet_of tcpip (q ∷ ps) all len tun r whole s =
    (whole.0, AllWhole-packet_of tcpip ps all len tun r whole.1 s)

-- The packets grow by what a call returned, and the bytes that wait are what is unread then.
grows :
    (tcpip : Tcpip) (ps : List Bytes) (received all : Bytes) (len : ℕ) (tun : TunDevice)
    (r : Result Bytes)
    → received ≡ concat ps ++ all
    → Separates tcpip len all (tun, r)
    → received ≡ concat (ps ++ packet_of r) ++ unread tun
grows tcpip ps received all len tun r e s =
    e
    ∙ ap (λ t. concat ps ++ t) s.1
    ∙ sym (append_assoc (concat ps) (delivered r) (unread tun))
    ∙ ap (λ t. t ++ unread tun) (sym (concat-packet_of ps r))

-- A call has returned r and left the device so, out of the bytes `all` that waited.
returned-Stream :
    (tcpip : Tcpip) (received all : Bytes) (ps : List Bytes) (failed : Bool) (len : ℕ)
    (tun : TunDevice) (r : Result Bytes) (fl : ℕ)
    → Separates tcpip len all (tun, r)
    → (failed ≡ false → received ≡ concat ps ++ all)
    → AllWhole tcpip ps
    → fl ≡ 0
    → Stream tcpip received (ps ++ packet_of r) failed tun fl
returned-Stream tcpip received all ps failed len tun r fl s waits whole none = record {
  sound = s.0;
  settled = λ good none. grows tcpip ps received all len tun r (waits good) s;
  midway = λ good some. absurd (omega arith);
  all_whole = AllWhole-packet_of tcpip ps all len tun r whole s;
}

fill-Stream :
    (tcpip : Tcpip) (received : Bytes) (ps : List Bytes) (failed : Bool) (len : ℕ) (tun : TunDevice)
    (x : Result Bytes × History) (fl : ℕ)
    → IsLawful tcpip
    → IsSound tun
    → (failed ≡ false → received ≡ concat ps ++ take tun.count tun.buff)
    → AllWhole tcpip ps
    → fl ≡ 0
    → let (tun', r, h) = after_fill tcpip tun len x in
      Stream tcpip (received ++ bytes_of x.0) (ps ++ packet_of r) (failed || is_error x.0) tun' fl
fill-Stream tcpip received ps failed len tun (ok b, h) fl law sound waits whole none =
    let (s, same) = filled-Separates tcpip law tun len b h (omega arith) in
    returned-Stream tcpip (received ++ b) (take tun.count tun.buff ++ b) ps _ len _ _ fl s
      (λ good.
        let good' : failed ≡ false = ground arith in
        ap (λ t. t ++ b) (waits good') ∙ append_assoc (concat ps) (take tun.count tun.buff) b)
      whole none
fill-Stream tcpip received ps failed len tun (err e, h) fl law sound waits whole none =
    returned-Stream tcpip (received ++ []) (unread tun) ps (failed || true) len tun (err e) fl
      (sound, refl, tt) (λ good. absurd (ground arith)) whole none
fill-Stream tcpip received ps failed len tun (panic, h) fl law sound waits whole none = record {
  sound = sound;
  settled = λ good none. absurd (ground arith);
  midway = λ good some. absurd (omega arith);
  all_whole = rw (append-nil ps) whole;
}

move-Stream :
    (tcpip : Tcpip) (received : Bytes) (ps : List Bytes) (failed : Bool) (tun : TunDevice) (fl : ℕ)
    → Stream tcpip received ps failed tun fl
    → fl ≡ 0
    → Stream tcpip received ps failed
        (record tun { buff = overwrite tun.buff 0 (unread tun) })
        (1 + fl)
move-Stream tcpip received ps failed tun fl inv none = record {
  sound = omega (arith, inv.sound, length-moved tun inv.sound);
  settled = λ good z. absurd (omega arith);
  midway = λ good some.
      inv.settled good none ∙ ap (λ t. concat ps ++ t) (sym (take-moved tun inv.sound));
  all_whole = inv.all_whole;
}

module _ (tcpip : Tcpip) (law : IsLawful tcpip) (kernel : Kernel) (m m' : Shared) (p q : Pc)
    (rd fl : ℕ) where
  pub Local-Stream :
      Local tcpip kernel m p m' q
      → reads p + rd ≤ 1
      → fl ≤ rd
      → StreamOf tcpip m (fills p + fl)
      → StreamOf tcpip m' (fills q + fl)
  Local-Stream (refused a b c d) one few inv = rw (b, d) (rw a at inv)
  Local-Stream (read_load len a b c d) one few inv = rw (b, d) (rw a at inv)
  Local-Stream (read_lock len a b c d) one few inv = rw (b, d) (rw a at inv)
  Local-Stream (takes len a b c d) one few inv =
      let i : StreamOf tcpip m (0 + fl) = rw a at inv in
      let one' : 1 + rd ≤ 1 = rw a at one in
      let (s, same) =
        taken-Separates tcpip law kernel m.device len m.history (tcpip.total_len (unread m.device))
          i.sound c refl in
      rw (b, d)
        (returned-Stream tcpip m.received (unread m.device) m.packets m.failed len _ _ (0 + fl) s
          (λ good. i.settled good (omega arith)) i.all_whole (omega arith))
  Local-Stream (moves len a b c d) one few inv =
      let i : StreamOf tcpip m (0 + fl) = rw a at inv in
      let one' : 1 + rd ≤ 1 = rw a at one in
      rw (b, d)
        (subst (Stream tcpip m.received m.packets m.failed _) (omega arith)
          (move-Stream tcpip m.received m.packets m.failed m.device (0 + fl) i (omega arith)))
  Local-Stream (file_reads len a b c) one few inv =
      let i : StreamOf tcpip m (1 + fl) = rw a at inv in
      let one' : 1 + rd ≤ 1 = rw a at one in
      rw (b, c)
        (fill-Stream tcpip m.received m.packets m.failed len m.device (fill tcpip kernel m len)
          (0 + fl) law i.sound (λ good. i.midway good (omega arith)) i.all_whole (omega arith))
  Local-Stream (read_unlock r a b c) one few inv = rw (b, c) (rw a at inv)
  Local-Stream (write_load x a b c d) one few inv = rw (b, d) (rw a at inv)
  Local-Stream (write_lock x a b c d) one few inv = rw (b, d) (rw a at inv)
  Local-Stream (sends x a b c) one few inv = rw (b, c) (rw a at inv)
  Local-Stream (write_unlock a b c) one few inv = rw (b, c) (rw a at inv)
  Local-Stream (swap a b c d) one few inv =
      let i : StreamOf tcpip m (0 + fl) = rw a at inv in
      rw (b, d)
        (record {
          sound = i.sound;
          settled = i.settled;
          midway = i.midway;
          all_whole = i.all_whole;
        })
  Local-Stream (close_data a b c) one few inv = rw (b, c) (rw a at inv)
  Local-Stream (close_link a b c) one few inv = rw (b, c) (rw a at inv)
