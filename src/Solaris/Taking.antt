-- ===== src/Solaris/Taking.antt =====
-- What one call of `readPacket` of tun_solaris.go does, by what is unread.
use subpass.Base.{
  ℕ, ◌+◌, ◌-◌, ◌≤◌, ◌≡◌, refl, ap, sym, ◌∙◌, arith, false, [], ◌∷◌, ◌++◌, Bytes, length, take, drop,
  ltb, length-append, take-append_left, drop-append_left,
}
use subpass.Go.Error.{Error, tcpip_short_buffer}
use subpass.Go.Result.{Result, ok, err, wrapped}
use subpass.Go.Kernel.{Kernel, History}
use subpass.Go.File.{file_read}
use subpass.Packet.{Tcpip}
use subpass.Solaris.Reader.{
  TunDevice, unread, overwrite, take_packet, take_filled, after_fill, after_total_len, read_packet,
  read, read_by, tun_read_buffer_len,
}
use subpass.Solaris.Buffer.{
  IsSound, length-unread, advance-unread, moved, length-moved, take-moved, take-overwrite,
  length-overwrite,
}

-- The device after a packet of this length was taken, and after the read of c behind the unread
-- bytes.
abbrev pub after : TunDevice → ℕ → TunDevice
after tun n = record tun { start = tun.start + n; count = tun.count - n }

abbrev pub refilled : TunDevice → Bytes → TunDevice
refilled tun c = record tun {
  buff = overwrite (moved tun) tun.count c;
  start = 0;
  count = tun.count + length c;
}

-- The unread bytes start with a packet that fits into the slice.
module _ (tun : TunDevice) (len : ℕ) (p tail : Bytes) (sound : IsSound tun)
    (front : unread tun ≡ p ++ tail) where
  take-front : take (length p) (unread tun) ≡ p
  take-front = ap (take (length p)) front ∙ take-append_left p tail

  within : length p ≤ tun.count
  within = omega (arith, length-unread tun sound, ap length front, length-append p tail)

  pub take_packet-front :
      length p ≤ len → take_packet tun len (length p) ≡ (after tun (length p), ok p)
  take_packet-front fits =
      let fit : ltb len (length p) ≡ false = ground arith in
      let enough : ltb tun.count (length p) ≡ false = ground (arith, within) in
      rw (fit, enough, take-front) refl

  pub unread-after : unread (after tun (length p)) ≡ tail
  unread-after =
      let rest = take (tun.count - length p) (drop (tun.start + length p) tun.buff) in
      let split : unread tun ≡ p ++ rest =
        advance-unread tun (length p) within ∙ ap (λ t. t ++ rest) take-front in
      sym (drop-append_left p rest)
      ∙ ap (drop (length p)) (sym split ∙ front)
      ∙ drop-append_left p tail

  pub after-IsSound : IsSound (after tun (length p))
  after-IsSound = omega (arith, within)

module _ (tun : TunDevice) (c : Bytes) (sound : IsSound tun) where
  pub unread-refilled : unread (refilled tun c) ≡ unread tun ++ c
  unread-refilled =
      take-overwrite (moved tun) tun.count c (omega (arith, length-moved tun sound))
      ∙ ap (λ t. t ++ c) (take-moved tun sound)

  pub refilled-IsSound : IsSound (refilled tun c)
  refilled-IsSound =
      omega
        (arith, length-overwrite (moved tun) tun.count c (omega (arith, length-moved tun sound)))

module _ (tcpip : Tcpip) (kernel : Kernel) (tun : TunDevice) (len : ℕ) (h : History) where
  -- The ways through `read_packet`, by the two lengths that it asks for.
  pub read-open :
      {t : TunDevice} {r : Result Bytes} {h' : History}
      → tun.closed ≡ false
      → read_packet tcpip kernel tun len h ≡ (t, r, h')
      → read tcpip kernel tun len h ≡ (t, wrapped "read" r, h')
  unfolding read
  read-open is_open e =
      ap (λ b. read_by tcpip kernel tun b len h) is_open
      ∙ ap (λ x. (x.0, wrapped "read" x.1, x.2)) e

  pub read_packet-take :
      (total : ℕ) {t : TunDevice} {r : Result Bytes}
      → tcpip.total_len (unread tun) ≡ ok total
      → take_packet tun len total ≡ (t, r)
      → read_packet tcpip kernel tun len h ≡ (t, r, h)
  unfolding read_packet
  read_packet-take total found taken =
      ap (after_total_len tcpip kernel tun len h) found ∙ ap (λ x. (x.0, x.1, h)) taken

  pub read_packet-fill :
      (c : Bytes) (h' : History) (r' : Result ℕ) {t : TunDevice} {r : Result Bytes}
      → tcpip.total_len (unread tun) ≡ err tcpip_short_buffer
      → file_read kernel tun.data_file (tun_read_buffer_len - tun.count) h ≡ (ok c, h')
      → tcpip.total_len (unread (refilled tun c)) ≡ r'
      → take_filled (refilled tun c) len r' ≡ (t, r)
      → read_packet tcpip kernel tun len h ≡ (t, r, h')
  unfolding read_packet
  read_packet-fill c h' r' short got found taken =
      ap (after_total_len tcpip kernel tun len h) short
      ∙ ap (after_fill tcpip (record tun { buff = moved tun }) len) got
      ∙ ap (λ x. let (t, r) = take_filled (refilled tun c) len x in (t, r, h')) found
      ∙ ap (λ x. (x.0, x.1, h')) taken

  pub read_packet-fails :
      (h' : History) (x : Error)
      → tcpip.total_len (unread tun) ≡ err tcpip_short_buffer
      → file_read kernel tun.data_file (tun_read_buffer_len - tun.count) h ≡ (err x, h')
      → read_packet tcpip kernel tun len h ≡ (record tun { buff = moved tun }, err x, h')
  unfolding read_packet
  read_packet-fails h' x short got =
      ap (after_total_len tcpip kernel tun len h) short
      ∙ ap (after_fill tcpip (record tun { buff = moved tun }) len) got

  pub read_packet-stops :
      (r : Result ℕ)
      → tcpip.total_len (unread tun) ≡ r
      → read_packet tcpip kernel tun len h ≡ after_total_len tcpip kernel tun len h r
  unfolding read_packet
  read_packet-stops r e = ap (after_total_len tcpip kernel tun len h) e

pub nil_of_length : (b : Bytes) → length b ≡ 0 → b ≡ []
nil_of_length [] e = refl
nil_of_length (x ∷ b) e = absurd (omega arith)
