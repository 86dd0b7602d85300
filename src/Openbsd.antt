-- ===== src/Openbsd.antt =====
-- tun_openbsd.go: opening the device on OpenBSD.
pub mod Shared
pub mod Descriptors
pub mod Fresh
use subpass.Base.{ℕ, false, some, Bytes}
use subpass.Go.Kernel
use subpass.Go.Kernel.{Kernel, Call, M, pure, lift, sys, wrapping, on_error, ◌>>=◌, ◌>>◌}
use subpass.Mknod.{Rdev, open_tun_from_char_dev}
use subpass.Bsd.{TunDevice}
use subpass.Netbsd.{tun_name}
use subpass.Openbsd.Shared.{get_tun_index}

pub record Config : Type 0 where
  pub name : Bytes

-- `createTunDevice` from `unix.Fstat` on; `minor` is `unix.Minor`.
pub set_up : (ℕ → ℕ) → Kernel → ℕ → M TunDevice
set_up minor kernel fd = do
  stat ← wrapping "get tunnel name" (sys kernel (Call.fstat fd))
  wrapping "set nonblock" (sys kernel (Call.set_nonblock fd))
  let name = tun_name (minor stat.value)
  pure (record { file = some (record { fd = fd; name = name }); closed = false; name = name })

pub create_tun_device : Rdev → (ℕ → ℕ) → Kernel → Config → M TunDevice
unfolding set_up
create_tun_device rdev minor kernel config = do
  index ← lift (get_tun_index config.name)
  fd ← open_tun_from_char_dev rdev kernel index
  on_error (sys kernel (Call.close fd)) (set_up minor kernel fd)

-- On an error `dev.file` is not set yet, and nothing is left to close.
pub open_tun_device : Rdev → (ℕ → ℕ) → Kernel → Config → M TunDevice
unfolding create_tun_device
open_tun_device rdev minor kernel config =
    wrapping "open device" (create_tun_device rdev minor kernel config)
