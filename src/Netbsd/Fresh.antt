-- ===== src/Netbsd/Fresh.antt =====
-- A device that is returned by the code of tun_netbsd.go was not closed.
use subpass.Base.{ℕ, ◌≡◌, arith, false}
use subpass.Go.Kernel.{Kernel, History}
use subpass.Go.Kernel.Inversion.{Returns}
use subpass.Bsd.{TunDevice}
use subpass.Mknod.{Rdev}
use subpass.Netbsd.{Config, open_file, configure, open_tun_device}

pub open_tun_device-closed :
    (rdev : Rdev) (minor : ℕ → ℕ) (kernel : Kernel) (config : Config) (h h' : History)
    {t : TunDevice}
    → Returns (open_tun_device rdev minor kernel config) h t h'
    → t.closed ≡ false
unfolding open_tun_device open_file configure
open_tun_device-closed rdev minor kernel config h h' e = ground arith
