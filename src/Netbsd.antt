-- ===== src/Netbsd.antt =====
-- tun_netbsd.go: making, closing and destroying the device on NetBSD. `Read` and `Write` are those of
-- `Bsd`.
pub mod Index
pub mod Descriptors
pub mod Fresh
pub mod Refusal
pub mod Tests
use subpass.Base.{ℕ, ◌-◌, Bool, true, false, Option, none, some, ◌++◌, Bytes, codes, take, length}
use subpass.Base.{replicate, if◌then◌else◌}
use subpass.Base.Int.{ℤ, pos}
use subpass.Go.Error.{Error, err_closed, wrap}
use subpass.Go.Result.{Result, ok, err, panic}
use subpass.Go.Strconv.{format}
use subpass.Go.Kernel
use subpass.Go.Kernel.{
  Kernel, History, Family, Call, Ioctl, M, File, pure, fail, lift, sys, wrapping, on_error, finally,
  ◌>>=◌, ◌>>◌,
}
use subpass.Go.File.{file_close}
use subpass.Mknod.{Rdev, open_tun_from_char_dev}
use subpass.Bsd.{TunDevice}
use Index.{get_tun_index}

pub record Config : Type 0 where
  pub name : Bytes
  pub ptp_mode : Bool

-- `var ifr [32]byte; copy(ifr[:], name)`
abbrev ifr_of : Bytes → Bytes
ifr_of name = take 32 name ++ replicate (32 - length name) 0

-- The function `Destroy`.
unfoldable pub destroy : Kernel → Bytes → M (Unit {0})
destroy kernel name = do
  r ← wrapping "open socket" (sys kernel (Call.socket Family.inet))
  finally (sys kernel (Call.close r.value)) (
      wrapping "interface destroy request"
        (sys kernel (Call.ioctl r.value (Ioctl.siocifdestroy (ifr_of name))))
      >> pure tt)

-- The method `Destroy` of a device, which has the same text on FreeBSD and DragonFly BSD.
pub destroy_device : Kernel → TunDevice → M (Unit {0})
destroy_device kernel tun = wrapping "destroy" (destroy kernel tun.name)

-- fmt.Sprintf("tun%d", minor)
abbrev pub tun_name : ℕ → Bytes
tun_name n = codes "tun" ++ format n

-- `createTunDevice` up to `os.NewFile`: the file, whose descriptor the first deferred function
-- closes on an error. The parameter `minor` is `unix.Minor`.
pub open_file : Rdev → (ℕ → ℕ) → Kernel → Config → M File
open_file rdev minor kernel config = do
  index ← lift (get_tun_index config.name)
  fd ← open_tun_from_char_dev rdev kernel index
  on_error (sys kernel (Call.close fd)) (do
    stat ← wrapping "get tunnel name" (sys kernel (Call.fstat fd))
    wrapping "set nonblock" (sys kernel (Call.set_nonblock fd))
    pure (record { fd = fd; name = tun_name (minor stat.value) }))

pub set_tun_if_head_mode : Kernel → ℕ → M (Unit {0})
set_tun_if_head_mode kernel fd = do sys kernel (Call.ioctl fd (Ioctl.tunsifhead 1)); pure tt

pub set_tun_broadcast_mode : Kernel → ℕ → M (Unit {0})
set_tun_broadcast_mode kernel fd = do sys kernel (Call.ioctl fd Ioctl.tunsifmode); pure tt

-- The rest of `createTunDevice`. On an error the deferred functions run in reverse order: the
-- interface is destroyed, and then the descriptor is closed.
pub configure : Kernel → Config → File → M TunDevice
unfolding set_tun_if_head_mode set_tun_broadcast_mode destroy
configure kernel config file = on_error (sys kernel (Call.close file.fd)) (
    on_error (destroy kernel file.name) (do
      wrapping "set ifhead mode" (set_tun_if_head_mode kernel file.fd)
      if config.ptp_mode
          then pure tt
          else wrapping "set broadcast mode" (set_tun_broadcast_mode kernel file.fd)
      pure (record { file = some file; closed = false; name = file.name })))

-- `openTunDevice` on the results of `createTunDevice`: on an error, `dev.file` is closed if it is
-- set, which it is from `os.NewFile` on.
abbrev pub after_configure : Kernel → File → Result TunDevice × History → Result TunDevice × History
after_configure kernel file (ok tun, h) = (ok tun, h)
after_configure kernel file (err e, h) = (err (wrap "open device" e), (file_close kernel file h).1)
after_configure kernel file (panic, h) = (panic, h)

pub open_tun_device : Rdev → (ℕ → ℕ) → Kernel → Config → M TunDevice
unfolding open_file configure
open_tun_device rdev minor kernel config = do
  file ← wrapping "open device" (open_file rdev minor kernel config)
  λ h. after_configure kernel file (configure kernel config file h)
