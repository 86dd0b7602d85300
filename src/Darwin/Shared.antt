-- ===== src/Darwin/Shared.antt =====
-- The `Close` of tun_darwin.go, which has the text of that of the BSDs.
use subpass.Go.Result.{Result}
use subpass.Go.Kernel.{Kernel, History}
use subpass.Bsd.{TunDevice}
use subpass.Bsd.Close

abbrev pub close : Kernel → TunDevice → History → TunDevice × Result (Unit {0}) × History
close = Close.close
