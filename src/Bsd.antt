-- ===== src/Bsd.antt =====
-- rw_bsd.go: `Read` and `Write` of the four BSDs and Darwin, which put the tag of an address family
-- in front of each packet.
pub mod Frame
pub mod Reading
pub mod Writing
pub mod Sending
pub mod Relaying
pub mod Refusals
pub mod Close
pub mod Fresh
pub mod Tests
use subpass.Base.{ℕ, ◌+◌, Bool, true, false, not, Option, none, some, List, [], ◌∷◌, Bytes}
use subpass.Base.{min, length, take, drop, replicate, ltb, ◌==◌, ◌-◌, if◌then◌else◌}
use subpass.Go.Error.{Error, err_closed, err_short_buffer, tcpip_short_buffer, new, wrap}
use subpass.Go.Result.{Result, ok, err, panic, slice_to}
use subpass.Go.Kernel.{Kernel, File, M, pure, fail, lift, fail_if, mapping, wrapping, ◌>>=◌, ◌>>◌}
use subpass.Go.File.{file_read, file_write}
use subpass.Bsd.Frame.{addr_family_tag_len, max_packet_len, unpack, frame, copied}
use subpass.Packet.{Tcpip, check_packet_len}

-- `tunDevice` of these systems. A mutex serialises the reads and another the writes, so one call
-- of each runs at a time.
pub record TunDevice : Type 0 where
  pub file : Option File
  pub closed : Bool
  pub name : Bytes

-- The constants AF_INET and AF_INET6 of the system.
pub record Families : Type 0 where
  pub af_inet : ℕ
  pub af_inet6 : ℕ

-- `read` into a slice of `len` bytes returns what it copied there.
pub read : Tcpip → Kernel → TunDevice → ℕ → M Bytes
unfolding file_read
read tcpip kernel tun len = do
  fail_if tun.closed (wrap "read" err_closed)
  buff ← wrapping "read" (file_read kernel tun.file max_packet_len)
  lift (unpack tcpip len buff)

pub write : Tcpip → Families → Kernel → TunDevice → Bytes → M ℕ
unfolding file_write
write tcpip families kernel tun b = do
  fail_if tun.closed (wrap "write" err_closed)
  (v, lb) ← wrapping "write" (lift (check_packet_len tcpip b))
  packet ← lift (slice_to b lb)
  let family = if v == tcpip.ipv4 then families.af_inet else families.af_inet6
  n ← wrapping "write" (file_write kernel tun.file (frame family packet))
  fail_if (ltb n addr_family_tag_len) (new "write: short address family tag")
  pure (copied packet)
