-- ===== src/Freebsd.antt =====
-- tun_freebsd.go: the device that /dev/tun clones, its modes and its name.
pub mod Shared
pub mod Descriptors
pub mod Fresh
pub mod Naming
use subpass.Base.{ℕ, ◌-◌, Bool, true, false, Option, none, some, [], ◌∷◌, ◌++◌, Bytes, codes, take}
use subpass.Base.{length, replicate, leb, if◌then◌else◌}
use subpass.Go.Error.{Error, err_exist, new, wrap, wrap_path}
use subpass.Go.Result.{Result, ok, err, panic}
use subpass.Go.Kernel
use subpass.Go.Kernel.{
  Kernel, History, Reply, Family, Call, Ioctl, M, File, pure, fail, fail_if, sys, done, wrapping,
  wrapping_path, on_error, on_error_if, finally, ◌>>=◌, ◌>>◌,
}
use subpass.Bsd.{TunDevice}
use subpass.Freebsd.Shared.{destroy}
use subpass.Netbsd.Index.{ifnamsiz}

pub record Config : Type 0 where
  pub name : Bytes
  pub persist : Bool
  pub ptp_mode : Bool

-- tunModuleCharPath
abbrev pub tun_module_char_path : Bytes
tun_module_char_path = codes "/dev/tun"

-- `net.InterfaceByName`, which fails at once for the empty name.
abbrev pub interface_by_name : Kernel → Bytes → M Reply
interface_by_name kernel [] = fail (new "invalid network interface name")
interface_by_name kernel (c ∷ name) = sys kernel (Call.interface_by_name (c ∷ name))

-- `if netif != nil { return … }`: the interface is there exactly if there was no error.
abbrev pub refuse_found : Result Reply × History → Result (Unit {0}) × History
refuse_found (ok r, h) = (err (wrap "create tunnel" err_exist), h)
refuse_found (err e, h) = (ok tt, h)
refuse_found (panic, h) = (panic, h)

pub refuse_existing : Kernel → Bytes → M (Unit {0})
refuse_existing kernel name h = refuse_found (interface_by_name kernel name h)

pub set_tun_transient : Kernel → ℕ → M (Unit {0})
set_tun_transient kernel fd = done kernel (Call.ioctl fd (Ioctl.tunstransient 1))

pub set_tun_if_head_mode : Kernel → ℕ → M (Unit {0})
set_tun_if_head_mode kernel fd = done kernel (Call.ioctl fd (Ioctl.tunsifhead 1))

pub set_tun_broadcast_mode : Kernel → ℕ → M (Unit {0})
set_tun_broadcast_mode kernel fd = done kernel (Call.ioctl fd Ioctl.tunsifmode)

pub become_tun_pid : Kernel → ℕ → M (Unit {0})
become_tun_pid kernel fd = done kernel (Call.ioctl fd Ioctl.tunsifpid)

-- A name in an array of IFNAMSIZ bytes.
abbrev name_field : Bytes → Bytes
name_field name = take ifnamsiz name ++ replicate (ifnamsiz - length name) 0

pub set_tun_name : Kernel → Bytes → Bytes → M (Unit {0})
set_tun_name kernel old_name new_name = do
  r ← wrapping "open socket" (sys kernel (Call.socket Family.inet))
  finally (sys kernel (Call.close r.value)) (
      done kernel
        (Call.ioctl r.value (Ioctl.siocsifname (name_field old_name) (name_field new_name))))

-- The name that the interface has from here on, `config.Name` if there is one.
pub rename : Kernel → Bytes → Bytes → M Bytes
unfolding set_tun_name
rename kernel old_name [] = pure old_name
rename kernel old_name (c ∷ name) = do
  wrapping_path "rename" (old_name ++ codes " to " ++ (c ∷ name))
      (set_tun_name kernel old_name (c ∷ name))
  pure (c ∷ name)

-- `createTunDevice` from the modes to the name.
pub configure : Kernel → Bool → ℕ → Bytes → Bytes → M Bytes
unfolding set_tun_if_head_mode set_tun_broadcast_mode become_tun_pid rename
configure kernel ptp_mode fd tun_name name = do
  wrapping "set ifhead mode" (set_tun_if_head_mode kernel fd)
  if ptp_mode then pure tt else wrapping "set broadcast mode" (set_tun_broadcast_mode kernel fd)
  wrapping "set controlling tunnel process" (become_tun_pid kernel fd)
  rename kernel tun_name name

-- The end of it, `tun.file` being set last.
unfoldable pub finish : Kernel → ℕ → Bytes → M TunDevice
finish kernel fd name = do
  wrapping "set nonblock" (done kernel (Call.set_nonblock fd))
  pure (record { file = some (record { fd = fd; name = name }); closed = false; name = name })

-- `createTunDevice` between `unix.Open` and the end. The deferred `Destroy(tunName)` reads the
-- variable when it runs, so that after the new name was set it is this one that is destroyed. The
-- reply's text is the name that `unix.ByteSliceToString` reads.
pub set_up : Kernel → Config → ℕ → M TunDevice
unfolding set_tun_transient configure finish
set_up kernel config fd = do
  r ← wrapping "get tunnel name" (sys kernel (Call.ioctl fd Ioctl.tungifname))
  if config.persist then pure tt else wrapping "set transient mode" (set_tun_transient kernel fd)
  name ←
      on_error_if config.persist (destroy kernel r.text)
        (configure kernel config.ptp_mode fd r.text config.name)
  on_error_if config.persist (destroy kernel name) (finish kernel fd name)

pub create_tun_device : Kernel → Config → M TunDevice
unfolding refuse_existing set_up
create_tun_device kernel config = do
  fail_if (leb ifnamsiz (length config.name)) (new "interface name too long")
  refuse_existing kernel config.name
  opened ←
      wrapping_path "open" tun_module_char_path (sys kernel (Call.open_file tun_module_char_path))
  on_error (sys kernel (Call.close opened.value)) (set_up kernel config opened.value)

-- On an error `dev.file` is not set yet, and nothing is left to close.
pub open_tun_device : Kernel → Config → M TunDevice
unfolding create_tun_device
open_tun_device kernel config = wrapping "open device" (create_tun_device kernel config)
