-- ===== src/Dragonfly.antt =====
-- tun_dragonfly.go: the device that /dev/tun clones on DragonFly BSD. It has no transient mode, and a
-- device that fails is always destroyed. The requests, the change of the name, `Destroy` and `Close`
-- have the text of the FreeBSD file.
pub mod Shared
pub mod Descriptors
pub mod Fresh
use subpass.Base.{ℕ, Bool, Bytes, length, leb}
use subpass.Go.Error.{new}
use subpass.Go.Kernel
use subpass.Go.Kernel.{
  Kernel, Call, Ioctl, M, pure, fail_if, sys, wrapping, wrapping_path, on_error, ◌>>=◌, ◌>>◌,
}
use subpass.Bsd.{TunDevice}
use subpass.Dragonfly.Shared.{destroy, configure}
use subpass.Netbsd.Index.{ifnamsiz}
use subpass.Freebsd.{tun_module_char_path, refuse_existing, finish}

pub record Config : Type 0 where
  pub name : Bytes
  pub ptp_mode : Bool

-- The reply's text is the name that `unix.ByteSliceToString` reads.
pub get_tun_name : Kernel → ℕ → M Bytes
get_tun_name kernel fd = do r ← sys kernel (Call.ioctl fd Ioctl.tungifname); pure r.text

-- `createTunDevice` between `unix.Open` and the end.
pub set_up : Kernel → Config → ℕ → M TunDevice
unfolding get_tun_name
set_up kernel config fd = do
  tun_name ← wrapping "get tunnel name" (get_tun_name kernel fd)
  name ←
      on_error (destroy kernel tun_name) (configure kernel config.ptp_mode fd tun_name config.name)
  on_error (destroy kernel name) (finish kernel fd name)

pub create_tun_device : Kernel → Config → M TunDevice
unfolding set_up
create_tun_device kernel config = do
  fail_if (leb ifnamsiz (length config.name)) (new "interface name too long")
  refuse_existing kernel config.name
  opened ←
      wrapping_path "open" tun_module_char_path (sys kernel (Call.open_file tun_module_char_path))
  on_error (sys kernel (Call.close opened.value)) (set_up kernel config opened.value)

-- On an error `dev.file` is not set yet, and nothing is left to close.
pub open_tun_device : Kernel → Config → M TunDevice
unfolding create_tun_device
open_tun_device kernel config = wrapping "open device" (create_tun_device kernel config)
