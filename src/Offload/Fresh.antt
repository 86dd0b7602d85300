-- ===== src/Offload/Fresh.antt =====
-- A device that is returned by `openTunDevice` of tun_linux.go was not closed.
use subpass.Base.{◌≡◌, arith, Bool, false, Bytes}
use subpass.Go.Kernel.{Kernel, History}
use subpass.Go.Kernel.Inversion.{Returns}
use subpass.Linux.{Config, open_generic_tun}
use subpass.Offload.{Offloads, Tun, generic, offloaded, open_offloaded_tun, open_tun_device}

abbrev pub is_closed : Tun → Bool
is_closed (generic t) = t.closed
is_closed (offloaded t) = t.closed

pub open_tun_device-closed :
    (virtio : Offloads) (new_ifreq : Bytes → Bool) (kernel : Kernel) (config : Config)
    (h h' : History) {t : Tun}
    → Returns (open_tun_device virtio new_ifreq kernel config) h t h'
    → is_closed t ≡ false
unfolding open_tun_device open_generic_tun open_offloaded_tun
open_tun_device-closed virtio new_ifreq kernel config h h' e = ground arith
