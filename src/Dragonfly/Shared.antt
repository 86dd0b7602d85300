-- ===== src/Dragonfly/Shared.antt =====
-- The functions of tun_dragonfly.go that have the text of those of the FreeBSD file.
use subpass.Base.{ℕ, Bool, Bytes}
use subpass.Go.Result.{Result}
use subpass.Go.Kernel.{Kernel, History, M}
use subpass.Bsd.{TunDevice}
use subpass.Freebsd
use subpass.Freebsd.Shared

abbrev pub set_tun_name : Kernel → Bytes → Bytes → M (Unit {0})
set_tun_name = Freebsd.set_tun_name

abbrev pub set_tun_if_head_mode : Kernel → ℕ → M (Unit {0})
set_tun_if_head_mode = Freebsd.set_tun_if_head_mode

abbrev pub become_tun_pid : Kernel → ℕ → M (Unit {0})
become_tun_pid = Freebsd.become_tun_pid

abbrev pub set_tun_broadcast_mode : Kernel → ℕ → M (Unit {0})
set_tun_broadcast_mode = Freebsd.set_tun_broadcast_mode

-- `createTunDevice` from the modes to the name, and its end.
abbrev pub configure : Kernel → Bool → ℕ → Bytes → Bytes → M Bytes
configure = Freebsd.configure

abbrev pub destroy : Kernel → Bytes → M (Unit {0})
destroy = Shared.destroy

abbrev pub destroy_device : Kernel → TunDevice → M (Unit {0})
destroy_device = Shared.destroy_device

abbrev pub close : Kernel → TunDevice → History → TunDevice × Result (Unit {0}) × History
close = Shared.close
