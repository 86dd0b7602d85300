-- ===== src/Linux/Sending.antt =====
-- The `Write` of tun_linux.go as the end of a stream of packets.
use subpass.Base.{ℕ, ◌+◌, ◌*◌, ◌≤◌, ◌<◌, ◌≡◌, refl, arith, none, List, [], ◌∷◌, ◌++◌, Bytes, length}
use subpass.Base.{length-append, take-append_left}
use subpass.Go.Error.{err_short_buffer, wrap}
use subpass.Go.Result.{ok, err}
use subpass.Go.Kernel.{Kernel, History, File, Call, made}
use subpass.Go.File.{file_write}
use subpass.Packet.{Tcpip, IsLawful}
use subpass.Packet.Framing.{IsWhole, IsFramed, check_packet_len-append, check_packet_len-cut}
use subpass.Bsd.{TunDevice}
use subpass.Bsd.Writing.{IsOpen}
use subpass.Linux.{write}
use subpass.Copy.{Trace, returned, copy}
use subpass.Copy.Progress.{concat}
use subpass.Pump.{Sink, stream, history_of, writer_of, Packets, sent_all}
use subpass.Pump.Delivery.{copy-sent_all}

module _ (tcpip : Tcpip) (kernel : Kernel) (tun : TunDevice) (f : File) where
  -- The device's file takes a write of any packet whole.
  abbrev pub TakesPackets : Type 0
  TakesPackets =
      (p : Bytes) (h : History)
      → IsWhole tcpip p
      → kernel h (Call.write f.fd p) ≡ record { errno = none; value = length p; text = [] }

  module _ (law : IsLawful tcpip) (framed : IsFramed tcpip) (is_open : IsOpen tun f) where
    pub write-append :
        (p rest : Bytes) (h : History)
        → TakesPackets
        → IsWhole tcpip p
        → write tcpip kernel tun (p ++ rest) h ≡ (ok (length p), made kernel (Call.write f.fd p) h)
    unfolding write file_write
    write-append p rest h takes whole =
        let checks = check_packet_len-append tcpip law framed p rest whole in
        let front = take-append_left p rest in
        let size = length-append p rest in let reply = takes p h whole in ground arith

    pub write-cut :
        (b : Bytes) (x : ℕ) (c : Bytes) (h : History)
        → IsWhole tcpip (b ++ (x ∷ c))
        → 0 < length b
        → write tcpip kernel tun b h ≡ (err (wrap "write" err_short_buffer), h)
    unfolding write
    write-cut b x c h whole filled =
        let checks = check_packet_len-cut tcpip law framed b x c whole filled in ground arith

    abbrev pub linux_sink : TakesPackets → Sink (IsWhole tcpip) (write tcpip kernel tun)
    linux_sink takes = record {
      sent = λ p h. made kernel (Call.write f.fd p) h;
      whole = λ p rest h whole. write-append p rest h takes whole;
      part = λ b x c h whole filled. (_, write-cut b x c h whole filled, refl);
    }

    -- `Copy` moves a stream of packets of at most 65535 bytes onto an open device whose file takes
    -- each packet whole:
    -- however the stream is cut into reads, after two calls for each byte, one for each packet and
    -- one more, it has returned a nil error with nothing left in its buffer, and the device's file
    -- got one write for each packet, in order.
    pub copy_onto_linux :
        (size : Trace → ℕ) (ps : List Bytes) (n : ℕ) (h0 : History)
        → TakesPackets
        → Packets (IsWhole tcpip) ps
        → 2 * length (concat ps) + length ps + 1 ≤ n
        → let s = copy (stream (concat ps) size) (writer_of (write tcpip kernel tun) h0) n in
          (s.point ≡ returned [] none)
          × (history_of (write tcpip kernel tun) h0 s.trace
              ≡ sent_all (λ p h. made kernel (Call.write f.fd p) h) ps h0)
    copy_onto_linux size ps n h0 takes packets enough =
        copy-sent_all (IsWhole tcpip) (write tcpip kernel tun) (linux_sink takes) h0 (concat ps)
          size ps n packets refl enough
