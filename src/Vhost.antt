-- ===== src/Vhost.antt =====
-- _vhost_linux.go, which no build contains, over the package vhostnet and the functions that it
-- calls.
pub mod Closing
pub mod Packets
use subpass.Base.{ℕ, Bool, true, false, not, Bytes, length, ltb, ◌==◌}
use subpass.Go.Error.{Error, err_closed, err_short_buffer, tcpip_short_buffer, new, wrap}
use subpass.Go.Result.{Result, ok, err, panic, slice_to}
use subpass.Go.Kernel.{
  Kernel, History, M, File, pure, lift, fail_if, mapping, wrapping, on_error, ◌>>=◌, ◌>>◌,
}
use subpass.Go.File.{file_close}
use subpass.Packet.{Tcpip, check_packet_len}
use subpass.Linux.{Config, destroy}

-- The package github.com/sina-ghaderi/virtio/vhostnet: `NewDevice` and the methods of what it
-- returns, which is a number here; the header that comes with a packet is only printed, and the
-- one that goes with it is zero. What the file prints is left out. And what the file uses and no file of the repository declares:
-- createGenericTun, called with IFF_VNET_HDR, setTunNetHdrSize and the field VRingSize.
pub record Vhost : Type 0 where
  pub create_generic_tun : Config → M File
  pub set_tun_net_hdr_size : File → M (Unit {0})
  pub vring_size : Config → ℕ
  pub new_device : File → ℕ → M ℕ
  pub receive_packet : ℕ → M Bytes
  pub transmit_packet : ℕ → Bytes → M (Unit {0})
  pub close : ℕ → M (Unit {0})

-- Neither `file` nor `vhostDevice` is nil in a device that is returned.
pub record TunDeviceVhost : Type 0 where
  pub file : File
  pub vhost_device : ℕ
  pub closed : Bool
  pub name : Bytes

-- `createTunVHostNet` after `createGenericTun`.
pub create_tun_vhost_net : Vhost → Config → File → M TunDeviceVhost
create_tun_vhost_net vhost config file = do
  wrapping "set virtio nethdr size" (vhost.set_tun_net_hdr_size file)
  device ← vhost.new_device file (vhost.vring_size config)
  pure (record { file = file; vhost_device = device; closed = false; name = file.name })

-- The file of the device is nil if `createGenericTun` returned an error, and is closed else.
pub open_vhost_net_tun : Vhost → Kernel → Config → M TunDeviceVhost
unfolding create_tun_vhost_net file_close
open_vhost_net_tun vhost kernel config = do
  file ← wrapping "open device" (vhost.create_generic_tun config)
  on_error (file_close kernel file)
      (wrapping "open device" (create_tun_vhost_net vhost config file))

-- The method `Destroy`, by the function of tun_linux.go.
pub destroy_device : Kernel → TunDeviceVhost → M (Unit {0})
destroy_device kernel tun = wrapping "destroy" (destroy kernel tun.name)

-- What becomes of an error of `tcpip.TotalLen`.
abbrev total_error : Error → Error
total_error tcpip_short_buffer = new "read: short ip packet"
total_error e = wrap "read" e

-- `Read` after the packet was received.
abbrev pub deliver : Tcpip → ℕ → Bytes → M Bytes
deliver tcpip len packet = do
  total_len ← mapping total_error (lift (tcpip.total_len packet))
  fail_if (not (total_len == length packet)) (new "read: invalid ip packet length")
  fail_if (ltb len (length packet)) (wrap "read" err_short_buffer)
  pure packet

-- `read` into a slice of `len` bytes returns the bytes that it put there.
pub read : Tcpip → Vhost → TunDeviceVhost → ℕ → M Bytes
read tcpip vhost tun len = do
  fail_if tun.closed (wrap "read" err_closed)
  packet ← wrapping "read" (vhost.receive_packet tun.vhost_device)
  deliver tcpip len packet

-- `Write` after the test of `closed`.
abbrev pub send : Tcpip → Vhost → ℕ → Bytes → M ℕ
send tcpip vhost device b = do
  (v, plen) ← wrapping "write" (lift (check_packet_len tcpip b))
  packet ← lift (slice_to b plen)
  wrapping "write" (vhost.transmit_packet device packet)
  pure plen

pub write : Tcpip → Vhost → TunDeviceVhost → Bytes → M ℕ
write tcpip vhost tun b = do
  fail_if tun.closed (wrap "write" err_closed)
  send tcpip vhost tun.vhost_device b

-- The second call is made also when the first one fails; the first error is returned.
abbrev kept : Error → Result (Unit {0}) × History → Result (Unit {0}) × History
kept e (ok x, h) = (err e, h)
kept e (err x, h) = (err e, h)
kept e (panic, h) = (panic, h)

abbrev pub both_from : M (Unit {0}) → Result (Unit {0}) × History → Result (Unit {0}) × History
both_from second (ok x, h) = second h
both_from second (err e, h) = kept e (second h)
both_from second (panic, h) = (panic, h)

abbrev pub both : M (Unit {0}) → M (Unit {0}) → M (Unit {0})
both first second h = both_from second (first h)

-- `tun.closed.Swap(true)` and what follows; the device and what was returned.
abbrev close_by :
    Vhost → Kernel → TunDeviceVhost → Bool → History → TunDeviceVhost × Result (Unit {0}) × History
close_by vhost kernel tun true h = (tun, err (wrap "close" err_closed), h)
close_by vhost kernel tun false h =
    let (r, h') =
      wrapping "close" (both (file_close kernel tun.file) (vhost.close tun.vhost_device)) h in
    (record tun { closed = true }, r, h')

pub close : Vhost → Kernel → TunDeviceVhost → History → TunDeviceVhost × Result (Unit {0}) × History
close vhost kernel tun h = close_by vhost kernel tun tun.closed h
