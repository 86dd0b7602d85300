-- ===== src/Openbsd/Shared.antt =====
-- The functions of tun_openbsd.go that have the text of those of the other BSDs.
use subpass.Base.{Bytes}
use subpass.Base.Int.{ℤ}
use subpass.Go.Result.{Result}
use subpass.Go.Kernel.{Kernel, History}
use subpass.Bsd.{TunDevice}
use subpass.Bsd.Close
use subpass.Netbsd.Index

abbrev pub get_tun_index : Bytes → Result ℤ
get_tun_index = Index.get_tun_index

abbrev pub close : Kernel → TunDevice → History → TunDevice × Result (Unit {0}) × History
close = Close.close
