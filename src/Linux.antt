-- ===== src/Linux.antt =====
-- tun_linux.go: the device of /dev/net/tun, and its removal through a netlink socket.
pub mod Netlink
pub mod Answer
pub mod Name
pub mod Shared
pub mod Descriptors
pub mod Fresh
pub mod Packets
pub mod Sending
pub mod Relaying
pub mod Removal
pub mod Tests
use subpass.Base.{ℕ, ◌+◌, Bool, true, false, not, Option, none, some, Bytes, codes, ◌==◌}
use subpass.Base.{if◌then◌else◌, ltb, length}
use subpass.Go.Error.{Error, Target, err_closed, err_exist, is, new, wrap}
use subpass.Go.Result.{Result, slice_to}
use subpass.Go.Kernel
use subpass.Go.Kernel.{
  Kernel, Call, Family, Ioctl, M, File, pure, lift, fail_if, sys, done, mapping, wrapping,
  wrapping_path, on_error, on_error_if, finally, ◌>>=◌, ◌>>◌,
}
use subpass.Go.File.{file_read, file_write}
use subpass.Packet.{Tcpip, check_packet_len}
use subpass.Bsd.{TunDevice}
use subpass.Linux.Netlink.{delete_request}
use subpass.Linux.Answer.{check_reply}
use subpass.Linux.Name.{validate_name}

pub record Permissions : Type 0 where
  pub owner : ℕ
  pub group : ℕ

pub record Config : Type 0 where
  pub name : Bytes
  pub permissions : Option Permissions
  pub persist : Bool
  pub multi_queue : Bool
  pub enable_offloads : Bool
  pub use_vhost_net : Bool

abbrev pub tun_module_char_path : Bytes
tun_module_char_path = codes "/dev/net/tun"

-- The function `Destroy`. The 4096 bytes of the buffer hold the reply's text.
pub destroy : Kernel → Bytes → M (Unit {0})
destroy kernel name = do
  r ← wrapping "open socket" (sys kernel (Call.socket Family.netlink))
  finally (sys kernel (Call.close r.value)) (do
    wrapping "bind socket" (done kernel (Call.bind r.value))
    wrapping "send netlink delete request" (done kernel (Call.sendto r.value (delete_request name)))
    answer ← wrapping "receive netlink reply" (sys kernel (Call.recvfrom r.value 4096))
    lift (check_reply answer.text))

-- The method `Destroy` of a device.
pub destroy_device : Kernel → TunDevice → M (Unit {0})
destroy_device kernel tun = wrapping "destroy" (destroy kernel tun.name)

-- IFF_NO_PI | IFF_TUN | addflags | IFF_TUN_EXCL | IFF_MULTI_QUEUE, which are distinct bits;
-- `vnet_hdr` says whether `addflags` is IFF_VNET_HDR or 0.
abbrev flags_of : Bool → Bool → ℕ
flags_of vnet_hdr multi_queue =
    0x1000 + 0x1 + (if vnet_hdr then 0x4000 else 0) + 0x8000 + (if multi_queue then 0x100 else 0)

pub tun_device_permissions : Kernel → ℕ → Option Permissions → M (Unit {0})
tun_device_permissions kernel fd none = pure tt
tun_device_permissions kernel fd (some p) = do
  wrapping "set tunnel owner" (done kernel (Call.ioctl fd (Ioctl.tunsetowner p.owner)))
  wrapping "set tunnel group" (done kernel (Call.ioctl fd (Ioctl.tunsetgroup p.group)))

-- An error of TUNSETIFF: EBUSY becomes os.ErrExist.
abbrev create_error : Error → Error
create_error e = wrap "create tunnel" (if is e Target.busy then err_exist else e)

-- The end of `createTunWithFlags`, from the permissions on.
pub finish : Kernel → Config → ℕ → Bytes → M File
unfolding tun_device_permissions
finish kernel config fd tun_name = do
  tun_device_permissions kernel fd config.permissions
  wrapping "set nonblock" (done kernel (Call.set_nonblock fd))
  pure (record { fd = fd; name = tun_name })

-- `createTunWithFlags` after `unix.Open`. `new_ifreq` says whether `unix.NewIfreq` takes the name;
-- the text of the reply to TUNSETIFF is the name that `ifreq.Name` reads.
pub set_up : (Bytes → Bool) → Kernel → Config → Bool → ℕ → M File
unfolding finish destroy
set_up new_ifreq kernel config vnet_hdr fd = do
  fail_if (not (new_ifreq config.name)) (new "interface name too long")
  r ← mapping create_error (
      sys kernel
        (Call.ioctl fd (Ioctl.tunsetiff config.name (flags_of vnet_hdr config.multi_queue))))
  wrapping "set persist mode"
      (done kernel (Call.ioctl fd (Ioctl.tunsetpersist (if config.persist then 1 else 0))))
  on_error_if config.persist (destroy kernel r.text) (finish kernel config fd r.text)

unfoldable pub create_tun_with_flags : (Bytes → Bool) → Kernel → Config → Bool → M File
unfolding set_up
create_tun_with_flags new_ifreq kernel config vnet_hdr = do
  lift (validate_name config.name)
  opened ←
      wrapping_path "open" tun_module_char_path (sys kernel (Call.open_file tun_module_char_path))
  on_error (sys kernel (Call.close opened.value))
      (set_up new_ifreq kernel config vnet_hdr opened.value)

unfoldable pub open_generic_tun : (Bytes → Bool) → Kernel → Config → M TunDevice
unfolding create_tun_with_flags
open_generic_tun new_ifreq kernel config = do
  file ← wrapping "open device" (create_tun_with_flags new_ifreq kernel config false)
  pure (record { file = some file; closed = false; name = file.name })

-- `read` into a slice of `len` bytes returns the bytes that it put there.
pub read : Tcpip → Kernel → TunDevice → ℕ → M Bytes
unfolding file_read
read tcpip kernel tun len = do
  fail_if tun.closed (wrap "read" err_closed)
  b ← wrapping "read" (file_read kernel tun.file len)
  fail_if (ltb len (length b)) (new "read: invalid ip packet length")
  (v, total_len) ← wrapping "read" (lift (check_packet_len tcpip b))
  fail_if (not (total_len == length b)) (new "read: invalid ip packet length")
  pure b

pub write : Tcpip → Kernel → TunDevice → Bytes → M ℕ
unfolding file_write
write tcpip kernel tun b = do
  fail_if tun.closed (wrap "write" err_closed)
  (v, plen) ← wrapping "write" (lift (check_packet_len tcpip b))
  packet ← lift (slice_to b plen)
  wrapping "write" (file_write kernel tun.file packet)
