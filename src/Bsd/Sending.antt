-- ===== src/Bsd/Sending.antt =====
-- The `Write` of rw_bsd.go as the end of a stream of packets.
use subpass.Base.{ℕ, ◌+◌, ◌*◌, ◌≤◌, ◌<◌, ◌≡◌, refl, arith, none, List, [], ◌∷◌, ◌++◌, Bytes, length}
use subpass.Base.{length-append, take-append_left}
use subpass.Go.Error.{err_short_buffer, wrap}
use subpass.Go.Result.{ok, err}
use subpass.Go.Kernel.{Kernel, History, File, Call, made}
use subpass.Go.File.{file_write}
use subpass.Packet.{Tcpip, IsLawful}
use subpass.Packet.Framing.{
  IsWhole, IsFramed, version, check_packet_len-append, check_packet_len-cut,
}
use subpass.Bsd.{TunDevice, Families, write}
use subpass.Bsd.Frame.{frame, copied-eq, length-frame}
use subpass.Bsd.Writing.{IsOpen, family_of}
use subpass.Copy.{Trace, returned, copy}
use subpass.Copy.Progress.{concat}
use subpass.Pump.{Sink, stream, history_of, writer_of, Packets, sent_all}
use subpass.Pump.Delivery.{copy-sent_all}

-- A packet that the buffer of `Write` has room for.
abbrev pub IsShort : Tcpip → Bytes → Type 0
IsShort tcpip p = IsWhole tcpip p × (length p ≤ 65535)

module _ (tcpip : Tcpip) (families : Families) (kernel : Kernel) (tun : TunDevice) (f : File) where
  -- The packet behind the tag of its address family.
  abbrev pub tagged : Bytes → Bytes
  tagged p = frame (family_of tcpip families (version p)) p

  -- The device's file takes a write of any packet's frame whole.
  abbrev pub TakesFrames : Type 0
  TakesFrames =
      (p : Bytes) (h : History)
      → IsShort tcpip p
      → kernel h (Call.write f.fd (tagged p))
        ≡ record { errno = none; value = 4 + length p; text = [] }

  module _ (law : IsLawful tcpip) (framed : IsFramed tcpip) (is_open : IsOpen tun f) where
    pub write-append :
        (p rest : Bytes) (h : History)
        → TakesFrames
        → IsShort tcpip p
        → write tcpip families kernel tun (p ++ rest) h
          ≡ (ok (length p), made kernel (Call.write f.fd (tagged p)) h)
    unfolding write file_write
    write-append p rest h takes (whole, short) =
        let checks = check_packet_len-append tcpip law framed p rest whole in
        let front = take-append_left p rest in
        let size = length-append p rest in
        let cut = copied-eq p in
        let sent = length-frame (family_of tcpip families (version p)) p in
        let reply = takes p h (whole, short) in ground arith

    pub write-cut :
        (b : Bytes) (x : ℕ) (c : Bytes) (h : History)
        → IsWhole tcpip (b ++ (x ∷ c))
        → 0 < length b
        → write tcpip families kernel tun b h ≡ (err (wrap "write" err_short_buffer), h)
    unfolding write
    write-cut b x c h whole filled =
        let checks = check_packet_len-cut tcpip law framed b x c whole filled in ground arith

    abbrev pub bsd_sink : TakesFrames → Sink (IsShort tcpip) (write tcpip families kernel tun)
    bsd_sink takes = record {
      sent = λ p h. made kernel (Call.write f.fd (tagged p)) h;
      whole = λ p rest h whole. write-append p rest h takes whole;
      part = λ b x c h whole filled. (_, write-cut b x c h whole.0 filled, refl);
    }

    -- `Copy` moves a stream of packets of at most 65535 bytes onto an open device of the BSDs or of
    -- Darwin whose file takes each frame whole: however the stream is cut into reads, after two
    -- calls for each byte, one for each packet and one more, it has returned a nil error with
    -- nothing left in its buffer, and the file got one frame for each packet, in order, with the
    -- tag of the packet's own version.
    pub copy_onto_bsd :
        (size : Trace → ℕ) (ps : List Bytes) (n : ℕ) (h0 : History)
        → TakesFrames
        → Packets (IsShort tcpip) ps
        → 2 * length (concat ps) + length ps + 1 ≤ n
        → let s =
            copy (stream (concat ps) size) (writer_of (write tcpip families kernel tun) h0) n in
          (s.point ≡ returned [] none)
          × (history_of (write tcpip families kernel tun) h0 s.trace
              ≡ sent_all (λ p h. made kernel (Call.write f.fd (tagged p)) h) ps h0)
    copy_onto_bsd size ps n h0 takes packets enough =
        copy-sent_all (IsShort tcpip) (write tcpip families kernel tun) (bsd_sink takes) h0
          (concat ps) size ps n packets refl enough
