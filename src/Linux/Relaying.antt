-- ===== src/Linux/Relaying.antt =====
-- `Copy` from one device of tun_linux.go to another.
use subpass.Base.{
  ℕ, ◌+◌, ◌*◌, ◌≤◌, ◌≡◌, arith, Option, none, some, List, [], ◌∷◌, Bytes, length, append-nil,
}
use subpass.Go.Error.{Errno, wrap}
use subpass.Go.Kernel.{Kernel, History, File, Call, made}
use subpass.Go.File.{file_read}
use subpass.Packet.{Tcpip, IsLawful}
use subpass.Packet.Framing.{IsWhole, IsFramed, check_packet_len-append}
use subpass.Bsd.{TunDevice}
use subpass.Bsd.Writing.{IsOpen}
use subpass.Linux.{read, write}
use subpass.Linux.Sending.{TakesPackets, linux_sink}
use subpass.Copy.{buff_len, returned, copy}
use subpass.Pump.{Packets}
use subpass.Relay.{source_of, target_of, exchange}
use subpass.Relay.Exchange.{copy-exchange}
use subpass.Relay.Feed.{Feeds, Supplies, Takes, Stops, feed, error_of}

module _ (tcpip : Tcpip) (kernel : Kernel) (tun out : TunDevice) (f g : File) where
  -- A packet is on the wire as it is.
  abbrev bare : Bytes → Bytes
  bare p = p

  module _ (law : IsLawful tcpip) (framed : IsFramed tcpip) (is_open : IsOpen tun f) where
    read-takes :
        (stop : Option Errno)
        → Takes (IsWhole tcpip) (read tcpip kernel tun) kernel f.fd buff_len bare stop
    unfolding read file_read
    read-takes stop [] h whole fits reply = absurd (omega (arith, law.nonempty [] whole))
    read-takes stop (x ∷ p) h whole fits reply =
        let checks =
          rw (append-nil (x ∷ p)) at (check_packet_len-append tcpip law framed (x ∷ p) [] whole) in
        ground arith

    read-stops :
        (stop : Option Errno)
        → Stops (IsWhole tcpip) (read tcpip kernel tun) kernel f.fd buff_len bare stop
    unfolding read file_read
    read-stops none h reply = ground arith
    read-stops (some x) h reply = ground arith

    -- `Copy` between two open devices of Linux. When the reads of the one get packets, and then an
    -- error or EOF, and the file of the other takes each packet whole, then after two calls for each
    -- packet and one `Copy` has read each packet and written it in a call of its own, in order, and
    -- nothing else. It returns the error of the last read, which is not nil even after EOF, since
    -- `Read` wraps it.
    pub copy_between_linux :
        (stop : Option Errno) (all ps : List Bytes) (n : ℕ) (h0 : History)
        → IsOpen out g
        → Feeds kernel f.fd buff_len bare stop all
        → TakesPackets tcpip kernel out g
        → Packets (IsWhole tcpip) ps
        → Supplies f.fd all ps h0
        → 2 * length ps + 1 ≤ n
        → let s =
            copy
              (source_of (read tcpip kernel tun) (write tcpip kernel out) h0)
              (target_of (read tcpip kernel tun) (write tcpip kernel out) h0)
              n in
          (s.point ≡ returned [] (some (wrap "read" (error_of stop))))
          × (s.trace ≡ exchange ps (wrap "read" (error_of stop)) [])
    copy_between_linux stop all ps n h0 out_open feeds takes packets supplies enough =
        copy-exchange (IsWhole tcpip) (read tcpip kernel tun) (write tcpip kernel out)
          (linux_sink tcpip kernel out g law framed out_open takes) (Supplies f.fd all)
          (wrap "read" (error_of stop))
          (feed (IsWhole tcpip) (read tcpip kernel tun) kernel f.fd buff_len bare stop
            (λ p h. made kernel (Call.write g.fd p) h) all feeds (read-takes stop) (read-stops stop)
            (λ p h. omega arith))
          h0 ps n packets supplies enough
