-- ===== src/Solaris/Reader.antt =====
-- `Read` and `readPacket` of tun_solaris.go. The device gives a stream, whose packets `readPacket`
-- separates: what was read too much stays in the buffer, as a slice of it.
use subpass.Base.{true, false, ℕ, ◌+◌, ◌-◌, ◌^◌, Bool, Option, Bytes, length, take, drop, ◌++◌, ltb}
use subpass.Base.{if◌then◌else◌}
use subpass.Go.Error.{err_closed, err_short_buffer, tcpip_short_buffer, new, wrap}
use subpass.Go.Result.{Result, ok, err, panic, wrapped}
use subpass.Go.Kernel.{Kernel, History, File}
use subpass.Go.File.{file_read}
use subpass.Packet.{Tcpip}

-- tunReadBufferLen, the capacity of `buff`
abbrev pub tun_read_buffer_len : ℕ
tun_read_buffer_len = 2 ^ 16

-- `unread` is the slice of `count` bytes of the buffer from `start` on.
pub record TunDevice : Type 0 where
  pub name : Bytes
  pub data_file : Option File
  pub link_file : Option File
  pub buff : Bytes
  pub start : ℕ
  pub count : ℕ
  pub closed : Bool

abbrev pub unread : TunDevice → Bytes
unread tun = take tun.count (drop tun.start tun.buff)

-- `copy` of the bytes to this place of the buffer.
abbrev pub overwrite : Bytes → ℕ → Bytes → Bytes
overwrite buff i b = take i buff ++ b ++ drop (i + length b) buff

-- From the test of `len(b)` on, with the length of a packet; `unread[totalLen:]` panics past its
-- end.
abbrev pub take_packet : TunDevice → ℕ → ℕ → TunDevice × Result Bytes
take_packet tun len total =
    if ltb len total
    then (tun, err err_short_buffer)
    else if ltb tun.count total
    then (tun, panic)
    else (
      record tun { start = tun.start + total; count = tun.count - total },
      ok (take total (unread tun)),
    )

-- After the second `TotalLen`.
abbrev pub take_filled : TunDevice → ℕ → Result ℕ → TunDevice × Result Bytes
take_filled tun len (ok total) = take_packet tun len total
take_filled tun len (err tcpip_short_buffer) = (tun, err (new "short ip packet"))
take_filled tun len (err e) = (tun, err e)
take_filled tun len panic = (tun, panic)

-- After the move of the unread bytes to the start of the buffer, of which the slice `unread` knows
-- nothing yet, and the read behind them.
abbrev pub after_fill :
    Tcpip → TunDevice → ℕ → Result Bytes × History → TunDevice × Result Bytes × History
after_fill tcpip tun len (ok b, h) =
    let filled = record tun {
      buff = overwrite tun.buff tun.count b;
      start = 0;
      count = tun.count + length b;
    } in
    let (tun', r) = take_filled filled len (tcpip.total_len (unread filled)) in (tun', r, h)
after_fill tcpip tun len (err e, h) = (tun, err e, h)
after_fill tcpip tun len (panic, h) = (tun, panic, h)

-- After the first `TotalLen`.
abbrev pub after_total_len :
    Tcpip → Kernel → TunDevice → ℕ → History → Result ℕ → TunDevice × Result Bytes × History
after_total_len tcpip kernel tun len h (ok total) =
    let (tun', r) = take_packet tun len total in (tun', r, h)
after_total_len tcpip kernel tun len h (err tcpip_short_buffer) =
    after_fill tcpip (record tun { buff = overwrite tun.buff 0 (unread tun) }) len
      (file_read kernel tun.data_file (tun_read_buffer_len - tun.count) h)
after_total_len tcpip kernel tun len h (err e) = (tun, err e, h)
after_total_len tcpip kernel tun len h panic = (tun, panic, h)

-- The device, what is returned, which is what was copied into a slice of `len` bytes, and the
-- history.
unfoldable pub read_packet :
    Tcpip → Kernel → TunDevice → ℕ → History → TunDevice × Result Bytes × History
unfolding file_read
read_packet tcpip kernel tun len h =
    after_total_len tcpip kernel tun len h (tcpip.total_len (unread tun))

abbrev pub read_by :
    Tcpip → Kernel → TunDevice → Bool → ℕ → History → TunDevice × Result Bytes × History
read_by tcpip kernel tun true len h = (tun, err (wrap "read" err_closed), h)
read_by tcpip kernel tun false len h =
    let (tun', r, h') = read_packet tcpip kernel tun len h in (tun', wrapped "read" r, h')

unfoldable pub read : Tcpip → Kernel → TunDevice → ℕ → History → TunDevice × Result Bytes × History
unfolding read_packet
read tcpip kernel tun len h = read_by tcpip kernel tun tun.closed len h
