-- ===== src/Freebsd/Fresh.antt =====
-- A device that is returned by the code of tun_freebsd.go was not closed.
use subpass.Base.{◌≡◌, arith, false}
use subpass.Go.Kernel.{Kernel, History}
use subpass.Go.Kernel.Inversion.{Returns}
use subpass.Bsd.{TunDevice}
use subpass.Freebsd.{Config, finish, set_up, create_tun_device, open_tun_device}

pub open_tun_device-closed :
    (kernel : Kernel) (config : Config) (h h' : History) {t : TunDevice}
    → Returns (open_tun_device kernel config) h t h'
    → t.closed ≡ false
unfolding open_tun_device create_tun_device set_up finish
open_tun_device-closed kernel config h h' e = ground arith
