-- ===== src/Bsd/Refusals.antt =====
-- The calls of `Read` and `Write` that fail, and what they leave.
use subpass.Base.{ℕ, ◌-◌, ◌≤◌, ◌<◌, ◌≡◌, arith, true, false, none, some, Bytes, length, length-drop}
use subpass.Go.Error.{Error, err_closed, err_short_buffer, wrap}
use subpass.Go.Result.{err}
use subpass.Go.Kernel.{Kernel, History, File, made, Call}
use subpass.Go.File.{file_read}
use subpass.Packet.{Tcpip, check_packet_len}
use subpass.Bsd.{TunDevice, Families, read, write}
use subpass.Bsd.Frame.{max_packet_len, unpack}

module _ (tcpip : Tcpip) (families : Families) (kernel : Kernel) (tun : TunDevice) where
  -- `Read` and `Write` of a closed device return os.ErrClosed, and make no call.
  io_refused :
      (b : Bytes) (len : ℕ) (h : History)
      → tun.closed ≡ true
      → (read tcpip kernel tun len h ≡ (err (wrap "read" err_closed), h))
        × (write tcpip families kernel tun b h ≡ (err (wrap "write" err_closed), h))
  unfolding read write
  io_refused b len h shut = (ground arith, ground arith)

  -- `Write` of an open device, given a slice that does not start with a whole packet, returns the
  -- error of `checkPacketLen` and makes no call.
  write_refuses :
      (b : Bytes) (h : History) {e : Error}
      → tun.closed ≡ false
      → check_packet_len tcpip b ≡ err e
      → write tcpip families kernel tun b h ≡ (err (wrap "write" e), h)
  unfolding write
  write_refuses b h is_open bad = ground arith

unpack_short :
    (tcpip : Tcpip) (len : ℕ) (buff : Bytes)
    → 4 ≤ length buff
    → length buff ≤ max_packet_len
    → len < length buff - 4
    → unpack tcpip len buff ≡ err (wrap "read" err_short_buffer)
unfolding unpack
unpack_short tcpip len buff big fits short = ground (arith, length-drop 4 buff)

-- A read into a slice with no room for the packet returns ErrShortBuffer, and the packet is gone:
-- the bytes were taken from the file, and the device keeps none of them.
pub read_loses :
    (tcpip : Tcpip) (kernel : Kernel) (tun : TunDevice) (len : ℕ) (h : History) (f : File)
    (buff : Bytes) (n : ℕ)
    → tun.closed ≡ false
    → tun.file ≡ some f
    → kernel h (Call.read f.fd max_packet_len) ≡ record { errno = none; value = n; text = buff }
    → 4 ≤ length buff
    → length buff ≤ max_packet_len
    → len < length buff - 4
    → read tcpip kernel tun len h
      ≡ (err (wrap "read" err_short_buffer), made kernel (Call.read f.fd max_packet_len) h)
unfolding read file_read
read_loses tcpip kernel tun len h f buff n is_open has_file reply big fits short =
    ground (arith, unpack_short tcpip len buff big fits short)
