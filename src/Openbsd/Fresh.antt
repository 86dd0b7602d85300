-- ===== src/Openbsd/Fresh.antt =====
-- A device that is returned by the code of tun_openbsd.go was not closed.
use subpass.Base.{ℕ, ◌≡◌, arith, false}
use subpass.Go.Kernel.{Kernel, History}
use subpass.Go.Kernel.Inversion.{Returns}
use subpass.Bsd.{TunDevice}
use subpass.Mknod.{Rdev}
use subpass.Openbsd.{Config, set_up, create_tun_device, open_tun_device}

pub open_tun_device-closed :
    (rdev : Rdev) (minor : ℕ → ℕ) (kernel : Kernel) (config : Config) (h h' : History)
    {t : TunDevice}
    → Returns (open_tun_device rdev minor kernel config) h t h'
    → t.closed ≡ false
unfolding open_tun_device create_tun_device set_up
open_tun_device-closed rdev minor kernel config h h' e = ground arith
