-- ===== src/Freebsd/Shared.antt =====
-- The functions of tun_freebsd.go that have the text of those of the NetBSD file.
use subpass.Base.{Bytes}
use subpass.Go.Result.{Result}
use subpass.Go.Kernel.{Kernel, History, M}
use subpass.Bsd.{TunDevice}
use subpass.Bsd.Close
use subpass.Netbsd

-- The function `Destroy`, and the method of a device.
abbrev pub destroy : Kernel → Bytes → M (Unit {0})
destroy = Netbsd.destroy

abbrev pub destroy_device : Kernel → TunDevice → M (Unit {0})
destroy_device = Netbsd.destroy_device

abbrev pub close : Kernel → TunDevice → History → TunDevice × Result (Unit {0}) × History
close = Close.close
