-- ===== src/Windows/Sending.antt =====
-- The `Write` of tun_windows.go as the end of a stream of packets.
use subpass.Base.{
  ℕ, ◌+◌, ◌*◌, ◌≤◌, ◌<◌, ◌≡◌, refl, arith, Bool, false, none, List, [], ◌∷◌, ◌++◌, Bytes, length,
}
use subpass.Base.{length-append, take-append_left}
use subpass.Go.Error.{err_short_buffer, wrap}
use subpass.Go.Result.{ok, err}
use subpass.Go.Kernel.{Kernel, History, wintun, Wintun, made}
use subpass.Packet.{Tcpip, IsLawful}
use subpass.Packet.Framing.{IsWhole, IsFramed, check_packet_len-append, check_packet_len-cut}
use subpass.Windows.{TunDevice, write}
use subpass.Windows.Writing.{allocating}
use subpass.Copy.{Trace, returned, copy}
use subpass.Copy.Progress.{concat}
use subpass.Pump.{Sink, stream, history_of, writer_of, Packets, sent_all}
use subpass.Pump.Delivery.{copy-sent_all}

-- A packet that a ring takes.
abbrev pub IsSendable : Tcpip → Bytes → Type 0
IsSendable tcpip p = IsWhole tcpip p × (length p ≤ 65535)

module _ (tcpip : Tcpip) (kernel : Kernel) (closed : History → Bool) (tun : TunDevice) where
  -- The ring always has room.
  abbrev pub HasRoom : Type 0
  HasRoom = (n : ℕ) (h : History) → (kernel h (allocating tcpip kernel closed tun n)).errno ≡ none

  -- A place in the ring is asked for, and the packet is sent there.
  abbrev pub into_ring : Bytes → History → History
  into_ring p h =
      let c = allocating tcpip kernel closed tun (length p) in
      made kernel (wintun (Wintun.send_packet tun.session (kernel h c).value p)) (made kernel c h)

  module _ (law : IsLawful tcpip) (framed : IsFramed tcpip)
      (is_open : (h : History) → closed h ≡ false) where
    write-append :
        (p rest : Bytes) (h : History)
        → HasRoom
        → IsSendable tcpip p
        → write tcpip kernel closed tun (p ++ rest) h ≡ (ok (length p), into_ring p h)
    unfolding write
    write-append p rest h room (whole, short) =
        let checks = check_packet_len-append tcpip law framed p rest whole in
        let front = take-append_left p rest in
        let size = length-append p rest in
        let there = room (length p) h in let active = is_open h in ground arith

    write-cut :
        (b : Bytes) (x : ℕ) (c : Bytes) (h : History)
        → IsWhole tcpip (b ++ (x ∷ c))
        → 0 < length b
        → write tcpip kernel closed tun b h ≡ (err (wrap "write" err_short_buffer), h)
    unfolding write
    write-cut b x c h whole filled =
        let checks = check_packet_len-cut tcpip law framed b x c whole filled in
        let active = is_open h in ground arith

    abbrev windows_sink : HasRoom → Sink (IsSendable tcpip) (write tcpip kernel closed tun)
    windows_sink room = record {
      sent = into_ring;
      whole = λ p rest h whole. write-append p rest h room whole;
      part = λ b x c h whole filled. (_, write-cut b x c h whole.0 filled, refl);
    }

    -- `Copy` moves a stream of packets of at most 65535 bytes onto an open device of Windows whose
    -- ring has room: however the stream is cut into reads, after two calls for each byte, one for
    -- each packet and one more, it has returned a nil error with nothing left in its buffer, and
    -- each packet was put into the ring, in order and whole.
    pub copy_onto_windows :
        (size : Trace → ℕ) (ps : List Bytes) (n : ℕ) (h0 : History)
        → HasRoom
        → Packets (IsSendable tcpip) ps
        → 2 * length (concat ps) + length ps + 1 ≤ n
        → let s = copy (stream (concat ps) size) (writer_of (write tcpip kernel closed tun) h0) n in
          (s.point ≡ returned [] none)
          × (history_of (write tcpip kernel closed tun) h0 s.trace ≡ sent_all into_ring ps h0)
    copy_onto_windows size ps n h0 room packets enough =
        copy-sent_all (IsSendable tcpip) (write tcpip kernel closed tun) (windows_sink room) h0
          (concat ps) size ps n packets refl enough
