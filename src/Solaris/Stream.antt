-- ===== src/Solaris/Stream.antt =====
-- That `readPacket` of tun_solaris.go separates the packets of the stream without losing a byte.
use mathlib.Core.Path.{subst}
use subpass.Base.{
  ℕ, ◌+◌, ◌-◌, ◌≤◌, ◌≡◌, ◌≢◌, refl, ap, ◌∙◌, arith, false, Option, none, some, [], ◌++◌,
}
use subpass.Base.{Bytes, length, take, drop, ltb, Bool-cases, ◌⊎◌, inl, inr, length-take}
use subpass.Go.Error.{Error, tcpip_short_buffer}
use subpass.Go.Result.{Result, ok, err, panic}
use subpass.Go.Kernel.{Kernel, History, File}
use subpass.Go.File.{file_read}
use subpass.Packet.{Tcpip, IsLawful}
use subpass.Solaris.Reader.{
  TunDevice, unread, overwrite, take_packet, take_filled, after_fill, after_total_len, read_packet,
  tun_read_buffer_len,
}
use subpass.Solaris.Buffer.{
  IsSound, length-unread, advance-unread, moved, length-moved, take-moved, take-overwrite,
  length-overwrite,
}

-- The packet that a call returns, if it returns one.
abbrev pub delivered : Result Bytes → Bytes
delivered (ok p) = p
delivered _ = []

-- A packet that is returned is whole and fits into the slice of `len` bytes; there is no panic.
abbrev pub IsPacket : Tcpip → ℕ → Result Bytes → Type 0
IsPacket tcpip len (ok p) = (tcpip.total_len p ≡ ok (length p)) × (length p ≤ len)
IsPacket tcpip len (err e) = Unit {0}
IsPacket tcpip len panic = ⊥

-- The bytes `all` are what is returned, followed by what is unread then.
abbrev pub Separates : Tcpip → ℕ → Bytes → TunDevice × Result Bytes → Type 0
Separates tcpip len all (tun, r) =
    IsSound tun × (all ≡ delivered r ++ unread tun) × IsPacket tcpip len r

-- The three ways of a call: no read; a read that gave `b`; a read that failed, whose error is
-- returned.
abbrev pub Outcome :
    Tcpip
    → TunDevice
    → ℕ
    → History
    → Result Bytes × History
    → TunDevice × Result Bytes × History
    → Type 0
Outcome tcpip tun len h file_reads (tun', r, h') =
    ((h' ≡ h) × Separates tcpip len (unread tun) (tun', r))
    ⊎ ((b : Bytes) × ((file_reads ≡ (ok b, h')) × Separates tcpip len (unread tun ++ b) (tun', r)))
    ⊎ ((e : Error) × ((file_reads ≡ (err e, h')) × (r ≡ err e) × IsSound tun'))

module _ (tcpip : Tcpip) (law : IsLawful tcpip) where
  take_packet-Separates :
      (tun : TunDevice) (len total : ℕ)
      → IsSound tun
      → tcpip.total_len (unread tun) ≡ ok total
      → Separates tcpip len (unread tun) (take_packet tun len total)
  take_packet-Separates tun len total sound found = elim (Bool-cases (ltb len total)) [
    | inl short ↦ rw short (sound, refl, tt)
    | inr fits ↦
        let size = length-unread tun sound in
        let within : total ≤ tun.count = omega (arith, law.within (unread tun) found) in
        let covered : ltb tun.count total ≡ false = ground arith in
        let whole = law.of_take (unread tun) found in
        let exact : length (take total (unread tun)) ≡ total =
          omega (arith, length-take total (unread tun)) in
        rw (fits, covered)
          (omega arith, advance-unread tun total within, (rw exact whole, ground arith))
  ]

  take_filled-Separates :
      (tun : TunDevice) (len : ℕ) (r : Result ℕ)
      → IsSound tun
      → tcpip.total_len (unread tun) ≡ r
      → Separates tcpip len (unread tun) (take_filled tun len r)
  take_filled-Separates tun len (ok total) sound e = take_packet-Separates tun len total sound e
  take_filled-Separates tun len (err tcpip_short_buffer) sound e = (sound, refl, tt)
  take_filled-Separates tun len (err x) sound e = (sound, refl, tt)
  take_filled-Separates tun len panic sound e = absurd (law.returns (unread tun) e)

  -- A call that does not read.
  pub taken-Separates :
      (kernel : Kernel) (tun : TunDevice) (len : ℕ) (h : History) (r : Result ℕ)
      → IsSound tun
      → r ≢ err tcpip_short_buffer
      → tcpip.total_len (unread tun) ≡ r
      → let (tun', x, h') = after_total_len tcpip kernel tun len h r in
        Separates tcpip len (unread tun) (tun', x) × (h' ≡ h)
  taken-Separates kernel tun len h (ok total) sound long e =
      (take_packet-Separates tun len total sound e, refl)
  taken-Separates kernel tun len h (err tcpip_short_buffer) sound long e = absurd (long refl)
  taken-Separates kernel tun len h (err x) sound long e = ((sound, refl, tt), refl)
  taken-Separates kernel tun len h panic sound long e = absurd (law.returns (unread tun) e)

  -- What the bytes b that a read gave add to those at the start of the buffer.
  pub filled-Separates :
      (tun : TunDevice) (len : ℕ) (b : Bytes) (h : History)
      → tun.count ≤ length tun.buff
      → let (tun', r, h') = after_fill tcpip tun len (ok b, h) in
        Separates tcpip len (take tun.count tun.buff ++ b) (tun', r) × (h' ≡ h)
  filled-Separates tun len b h within =
      let filled : TunDevice = record tun {
        buff = overwrite tun.buff tun.count b;
        start = 0;
        count = tun.count + length b;
      } in
      let fits : IsSound filled = omega (arith, length-overwrite tun.buff tun.count b within) in
      (
        subst
            (λ all.
              Separates tcpip len all (take_filled filled len (tcpip.total_len (unread filled))))
            (take-overwrite tun.buff tun.count b within)
            (take_filled-Separates filled len (tcpip.total_len (unread filled)) fits refl),
        refl,
      )

  after_fill-Outcome :
      (tun : TunDevice) (len : ℕ) (h : History) (x : Result Bytes × History)
      → IsSound tun
      → x.0 ≢ panic
      → Outcome tcpip tun len h x (after_fill tcpip (record tun { buff = moved tun }) len x)
  after_fill-Outcome tun len h (ok b, h') sound calm =
      let filled : TunDevice = record tun { buff = moved tun } in
      let (separates, same) =
        filled-Separates filled len b h' (omega (arith, length-moved tun sound)) in
      inr (
        inl (
          b,
          (
            refl,
            subst
                (λ t.
                  Separates tcpip len (t ++ b)
                    (let (tun', r, h) = after_fill tcpip filled len (ok b, h') in (tun', r)))
                (take-moved tun sound) separates,
          ),
        ))
  after_fill-Outcome tun len h (err e, h') sound calm =
      inr (inr (e, (refl, refl, omega (arith, length-moved tun sound))))
  after_fill-Outcome tun len h (panic, h') sound calm = absurd (calm refl)

file_read-ne-panic :
    (kernel : Kernel) (f : Option File) (n : ℕ) (h : History) → (file_read kernel f n h).0 ≢ panic
unfolding file_read
file_read-ne-panic kernel none n h e = cc
file_read-ne-panic kernel (some f) n h e = ground arith

module _ (tcpip : Tcpip) (law : IsLawful tcpip) (kernel : Kernel) (tun : TunDevice) (len : ℕ)
    (h : History) where
  after_total_len-Outcome :
      (r : Result ℕ)
      → IsSound tun
      → tcpip.total_len (unread tun) ≡ r
      → Outcome tcpip tun len h
          (file_read kernel tun.data_file (tun_read_buffer_len - tun.count) h)
          (after_total_len tcpip kernel tun len h r)
  after_total_len-Outcome (ok total) sound e =
      inl (refl, take_packet-Separates tcpip law tun len total sound e)
  after_total_len-Outcome (err tcpip_short_buffer) sound e =
      after_fill-Outcome tcpip law tun len h
        (file_read kernel tun.data_file (tun_read_buffer_len - tun.count) h) sound
        (file_read-ne-panic kernel tun.data_file (tun_read_buffer_len - tun.count) h)
  after_total_len-Outcome (err x) sound e = inl (refl, (sound, refl, tt))
  after_total_len-Outcome panic sound e = absurd (law.returns (unread tun) e)

  -- Whatever the kernel gives, a call of `readPacket` keeps the unread bytes within the buffer and
  -- does not panic. Unless it returns the error of a read of the file, the bytes that were unread,
  -- followed by those that it read, if it did, are the packet that it returns, followed by the
  -- bytes that are unread then; the packet is whole and fits into the slice, and an error, such as
  -- ErrShortBuffer, takes nothing away.
  pub read_packet-Outcome :
      IsSound tun
      → Outcome tcpip tun len h
          (file_read kernel tun.data_file (tun_read_buffer_len - tun.count) h)
          (read_packet tcpip kernel tun len h)
  unfolding read_packet
  read_packet-Outcome sound = after_total_len-Outcome (tcpip.total_len (unread tun)) sound refl

moved_short :
    (tcpip : Tcpip) (kernel : Kernel) (tun : TunDevice) (len : ℕ) (h : History)
    (x : Result Bytes × History) {e : Error}
    → x.0 ≡ err e
    → (after_fill tcpip (record tun { buff = moved tun }) len x).0 ≡ record tun { buff = moved tun }
moved_short tcpip kernel tun len h (ok b, h') bad = cc
moved_short tcpip kernel tun len h (err y, h') bad = refl
moved_short tcpip kernel tun len h (panic, h') bad = cc

-- When the unread bytes are less than a packet and the read behind them fails, they were moved in
-- the buffer and the slice was not: what is unread then are the bytes that stand `start` places
-- further on in the unread bytes followed by what was behind them in the buffer.
pub read_packet_misplaces :
    (tcpip : Tcpip) (kernel : Kernel) (tun : TunDevice) (len : ℕ) (h : History) {e : Error}
    → IsSound tun
    → tcpip.total_len (unread tun) ≡ err tcpip_short_buffer
    → (file_read kernel tun.data_file (tun_read_buffer_len - tun.count) h).0 ≡ err e
    → unread (read_packet tcpip kernel tun len h).0
      ≡ take tun.count (drop tun.start (unread tun ++ drop tun.count tun.buff))
unfolding read_packet
read_packet_misplaces tcpip kernel tun len h sound short fails =
    let size : 0 + length (unread tun) ≡ tun.count = omega (arith, length-unread tun sound) in
    rw short (
      ap unread (moved_short tcpip kernel tun len h _ fails)
      ∙ ap (λ n. take tun.count (drop tun.start (unread tun ++ drop n tun.buff))) size)
