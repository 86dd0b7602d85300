-- ===== src/NewTun.antt =====
-- tun.go: `NewTun`, over the `Config`, `defaltOSparms` and `openTunDevice` of each system. A build has
-- one system; here a configuration says of which system it is.
pub mod Descriptors
pub mod Closing
pub mod Tests
use subpass.Base.{
  ℕ, Bool, true, false, not, ◌&&◌, ◌==◌, Option, none, some, [], Bytes, if◌then◌else◌,
}
use subpass.Go.File.{is_empty}
use subpass.Go.Result.{Result}
use subpass.Go.Kernel.{Kernel, History, M, pure, ◌>>=◌}
use subpass.Mknod.{Rdev}
use subpass.Bsd
use subpass.Netbsd
use subpass.Openbsd
use subpass.Freebsd
use subpass.Dragonfly
use subpass.Darwin
use subpass.Linux
use subpass.Offload
use subpass.Solaris
use subpass.Solaris.Reader
use subpass.Windows
use subpass.Windows.Settings

-- What the systems take from other packages.
pub record Packages : Type 0 where
  pub rdev : Rdev
  pub minor : ℕ → ℕ
  pub new_ifreq : Bytes → Bool
  pub virtio : Offload.Offloads

pub data Config : Type 0 where
  netbsd : Netbsd.Config → Config
  openbsd : Openbsd.Config → Config
  freebsd : Freebsd.Config → Config
  dragonfly : Dragonfly.Config → Config
  darwin : Darwin.Config → Config
  linux : Linux.Config → Config
  solaris : Solaris.Config → Config
  windows : Settings.Config → Config

pub data Tun : Type 0 where
  netbsd_tun openbsd_tun freebsd_tun dragonfly_tun darwin_tun : Bsd.TunDevice → Tun
  linux_tun : Offload.Tun → Tun
  solaris_tun : Reader.TunDevice → Tun
  windows_tun : Windows.TunDevice → Tun

abbrev is_nil : {A : Type 0} → Option A → Bool
is_nil none = true
is_nil (some a) = false

-- `config == zeroConfig`; a pointer is compared with nil.
abbrev pub is_zero : Config → Bool
is_zero (netbsd c) = is_empty c.name && not c.ptp_mode
is_zero (openbsd c) = is_empty c.name
is_zero (freebsd c) = is_empty c.name && not c.persist && not c.ptp_mode
is_zero (dragonfly c) = is_empty c.name && not c.ptp_mode
is_zero (darwin c) = is_empty c.name
is_zero (linux c) =
    is_empty c.name
    && is_nil c.permissions
    && not c.persist
    && not c.multi_queue
    && not c.enable_offloads
    && not c.use_vhost_net
is_zero (solaris c) = is_empty c.name && not c.persist
is_zero (windows c) = is_empty c.name && is_empty c.kind && (c.ring_capacity == 0) && is_nil c.guid

-- `defaltOSparms`, which is `Config{}` on all systems but Windows.
abbrev pub default_os_parms : Config → Config
default_os_parms (netbsd _) = netbsd (record { name = []; ptp_mode = false })
default_os_parms (openbsd _) = openbsd (record { name = [] })
default_os_parms (freebsd _) = freebsd (record { name = []; persist = false; ptp_mode = false })
default_os_parms (dragonfly _) = dragonfly (record { name = []; ptp_mode = false })
default_os_parms (darwin _) = darwin (record { name = [] })
default_os_parms (linux _) = linux (record {
  name = [];
  permissions = none;
  persist = false;
  multi_queue = false;
  enable_offloads = false;
  use_vhost_net = false;
})
default_os_parms (solaris _) = solaris (record { name = []; persist = false })
default_os_parms (windows _) = windows Settings.default_os_parms

-- `config` after the `if`.
abbrev pub settled : Config → Config
settled config = if is_zero config then default_os_parms config else config

pub open_tun_device : Packages → Kernel → Config → M Tun
open_tun_device packages kernel (netbsd c) = do
  t ← Netbsd.open_tun_device packages.rdev packages.minor kernel c
  pure (netbsd_tun t)
open_tun_device packages kernel (openbsd c) = do
  t ← Openbsd.open_tun_device packages.rdev packages.minor kernel c
  pure (openbsd_tun t)
open_tun_device packages kernel (freebsd c) = do
  t ← Freebsd.open_tun_device kernel c
  pure (freebsd_tun t)
open_tun_device packages kernel (dragonfly c) = do
  t ← Dragonfly.open_tun_device kernel c
  pure (dragonfly_tun t)
open_tun_device packages kernel (darwin c) = do
  t ← Darwin.open_tun_device kernel c
  pure (darwin_tun t)
open_tun_device packages kernel (linux c) = do
  t ← Offload.open_tun_device packages.virtio packages.new_ifreq kernel c
  pure (linux_tun t)
open_tun_device packages kernel (solaris c) = do
  t ← Solaris.open_tun_device kernel c
  pure (solaris_tun t)
open_tun_device packages kernel (windows c) = do
  t ← Windows.open_tun_device kernel c
  pure (windows_tun t)

pub new_tun : Packages → Kernel → Config → M Tun
unfolding open_tun_device
new_tun packages kernel config = open_tun_device packages kernel (settled config)

-- The method `Close` of a device that was not closed before: its result and the history.
abbrev drop_device : {A : Type 0} → A × Result (Unit {0}) × History → Result (Unit {0}) × History
drop_device (t, r, h) = (r, h)

pub close : Packages → Kernel → Tun → M (Unit {0})
close packages kernel (netbsd_tun t) h = drop_device (Bsd.Close.close kernel t h)
close packages kernel (openbsd_tun t) h = drop_device (Openbsd.Shared.close kernel t h)
close packages kernel (freebsd_tun t) h = drop_device (Freebsd.Shared.close kernel t h)
close packages kernel (dragonfly_tun t) h = drop_device (Dragonfly.Shared.close kernel t h)
close packages kernel (darwin_tun t) h = drop_device (Darwin.Shared.close kernel t h)
close packages kernel (linux_tun (Offload.generic t)) h =
    drop_device (Linux.Shared.close kernel t h)
close packages kernel (linux_tun (Offload.offloaded t)) h =
    drop_device (Offload.close packages.virtio t h)
close packages kernel (solaris_tun t) h = drop_device (Solaris.close kernel t h)
close packages kernel (windows_tun t) h = Windows.close kernel t false h
