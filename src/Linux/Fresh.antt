-- ===== src/Linux/Fresh.antt =====
-- A device that is returned by the code of tun_linux.go was not closed.
use subpass.Base.{◌≡◌, arith, false, Bytes, Bool}
use subpass.Go.Kernel.{Kernel, History}
use subpass.Go.Kernel.Inversion.{Returns}
use subpass.Bsd.{TunDevice}
use subpass.Linux.{Config, open_generic_tun}

pub open_tun_device-closed :
    (new_ifreq : Bytes → Bool) (kernel : Kernel) (config : Config) (h h' : History) {t : TunDevice}
    → Returns (open_generic_tun new_ifreq kernel config) h t h'
    → t.closed ≡ false
unfolding open_generic_tun
open_tun_device-closed new_ifreq kernel config h h' e = ground arith
