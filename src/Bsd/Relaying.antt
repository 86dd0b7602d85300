-- ===== src/Bsd/Relaying.antt =====
-- `Copy` from one device of the BSDs or of Darwin to another.
use subpass.Base.{
  ℕ, ◌+◌, ◌*◌, ◌≤◌, ◌≡◌, refl, arith, false, Option, none, some, List, [], Bytes, length,
}
use subpass.Go.Error.{Errno, wrap}
use subpass.Go.Kernel.{Kernel, History, File, Call, made}
use subpass.Go.File.{file_read, is_empty}
use subpass.Packet.{Tcpip, IsLawful}
use subpass.Packet.Framing.{IsFramed, version}
use subpass.Bsd.{TunDevice, Families, read, write}
use subpass.Bsd.Frame.{max_packet_len, frame, unpack-frame}
use subpass.Bsd.Writing.{IsOpen, family_of}
use subpass.Bsd.Sending.{IsShort, tagged, TakesFrames, bsd_sink}
use subpass.Copy.{buff_len, returned, copy}
use subpass.Pump.{Packets}
use subpass.Relay.{source_of, target_of, exchange}
use subpass.Relay.Exchange.{copy-exchange}
use subpass.Relay.Feed.{Feeds, Supplies, Takes, Stops, feed, error_of}

is_empty-frame : (family : ℕ) (p : Bytes) → is_empty (frame family p) ≡ false
unfolding frame
is_empty-frame family p = refl

module _ (tcpip : Tcpip) (families : Families) (kernel : Kernel) (tun out : TunDevice)
    (f g : File) where
  module _ (law : IsLawful tcpip) (framed : IsFramed tcpip) (is_open : IsOpen tun f) where
    read-takes :
        (stop : Option Errno)
        → Takes
            (IsShort tcpip)
            (read tcpip kernel tun)
            kernel
            f.fd
            max_packet_len
            (tagged tcpip families kernel tun f)
            stop
    unfolding read file_read
    read-takes stop p h (whole, short) fits reply =
        let family = family_of tcpip families (version p) in
        let unpacked = unpack-frame tcpip buff_len family p whole short fits in
        let filled = is_empty-frame family p in ground arith

    read-stops :
        (stop : Option Errno)
        → Stops
            (IsShort tcpip)
            (read tcpip kernel tun)
            kernel
            f.fd
            max_packet_len
            (tagged tcpip families kernel tun f)
            stop
    unfolding read file_read
    read-stops none h reply = ground arith
    read-stops (some x) h reply = ground arith

    -- `Copy` between two open devices of the BSDs or of Darwin. When the reads of the one get the
    -- frames of packets of at most 65535 bytes, and then an error or EOF, and the file of the other
    -- takes each frame whole, then after two calls for each packet and one `Copy` has read each
    -- packet and written it in a call of its own, in order, and nothing else. It returns the error
    -- of the last read, which is not nil even after EOF, since `Read` wraps it.
    pub copy_between_bsd :
        (stop : Option Errno) (all ps : List Bytes) (n : ℕ) (h0 : History)
        → IsOpen out g
        → Feeds kernel f.fd max_packet_len (tagged tcpip families kernel tun f) stop all
        → TakesFrames tcpip families kernel out g
        → Packets (IsShort tcpip) ps
        → Supplies f.fd all ps h0
        → 2 * length ps + 1 ≤ n
        → let s =
            copy
              (source_of (read tcpip kernel tun) (write tcpip families kernel out) h0)
              (target_of (read tcpip kernel tun) (write tcpip families kernel out) h0)
              n in
          (s.point ≡ returned [] (some (wrap "read" (error_of stop))))
          × (s.trace ≡ exchange ps (wrap "read" (error_of stop)) [])
    copy_between_bsd stop all ps n h0 out_open feeds takes packets supplies enough =
        copy-exchange (IsShort tcpip) (read tcpip kernel tun) (write tcpip families kernel out)
          (bsd_sink tcpip families kernel out g law framed out_open takes) (Supplies f.fd all)
          (wrap "read" (error_of stop))
          (feed (IsShort tcpip) (read tcpip kernel tun) kernel f.fd max_packet_len
            (tagged tcpip families kernel tun f) stop
            (λ p h. made kernel (Call.write g.fd (tagged tcpip families kernel out g p)) h) all
            feeds (read-takes stop) (read-stops stop) (λ p h. omega arith))
          h0 ps n packets supplies enough
