-- ===== src/Offload.antt =====
-- offload_linux.go, over the package offloads that it calls, and `openTunDevice` of tun_linux.go,
-- which chooses between this device and the plain one.
pub mod Descriptors
pub mod Fresh
use subpass.Base.{ℕ, Bool, true, false, Bytes}
use subpass.Go.Error.{Error, err_closed, err_short_buffer, tcpip_short_buffer, wrap}
use subpass.Go.Result.{Result, ok, err, panic}
use subpass.Go.Kernel.{
  Kernel, History, M, File, pure, fail_if, mapping, wrapping, on_error, ◌>>=◌, ◌>>◌,
}
use subpass.Go.File.{file_close}
use subpass.Bsd.{TunDevice}
use subpass.Linux.{Config, destroy, create_tun_with_flags, open_generic_tun}

-- The package github.com/sina-ghaderi/virtio/offloads: `NewOffloads` and the methods of what it
-- returns, which is a number here.
pub record Offloads : Type 0 where
  pub new_offloads : File → M ℕ
  pub read : ℕ → ℕ → M Bytes
  pub write : ℕ → Bytes → M ℕ
  pub close : ℕ → M (Unit {0})

pub record TunDeviceOffload : Type 0 where
  pub offloads : ℕ
  pub closed : Bool
  pub name : Bytes

pub open_offloaded_tun : Offloads → (Bytes → Bool) → Kernel → Config → M TunDeviceOffload
unfolding create_tun_with_flags file_close
open_offloaded_tun virtio new_ifreq kernel config = do
  file ← wrapping "open device" (create_tun_with_flags new_ifreq kernel config true)
  on_error (file_close kernel file) (do
    handle ← wrapping "open device" (virtio.new_offloads file)
    pure (record { offloads = handle; closed = false; name = file.name }))

-- The method `Destroy`, by the function of tun_linux.go.
pub destroy_device : Kernel → TunDeviceOffload → M (Unit {0})
destroy_device kernel tun = wrapping "destroy" (destroy kernel tun.name)

-- `switch err` on an error of the package.
abbrev offload_error : Error → Error
offload_error tcpip_short_buffer = err_short_buffer
offload_error e = e

pub read : Offloads → TunDeviceOffload → ℕ → M Bytes
read virtio tun len = do
  fail_if tun.closed (wrap "read" err_closed)
  mapping (λ e. wrap "read" (offload_error e)) (virtio.read tun.offloads len)

pub write : Offloads → TunDeviceOffload → Bytes → M ℕ
write virtio tun b = do
  fail_if tun.closed (wrap "write" err_closed)
  mapping (λ e. wrap "write" (offload_error e)) (virtio.write tun.offloads b)

-- `tun.closed.Swap(true)` and what follows; the device and what was returned.
abbrev pub close_by :
    Offloads → TunDeviceOffload → Bool → History → TunDeviceOffload × Result (Unit {0}) × History
close_by virtio tun true h = (tun, err (wrap "close" err_closed), h)
close_by virtio tun false h =
    let (r, h') = wrapping "close" (virtio.close tun.offloads) h in
    (record tun { closed = true }, r, h')

pub close : Offloads → TunDeviceOffload → History → TunDeviceOffload × Result (Unit {0}) × History
close virtio tun h = close_by virtio tun tun.closed h

-- The interface `Tun`.
pub data Tun : Type 0 where
  generic : TunDevice → Tun
  offloaded : TunDeviceOffload → Tun

-- The `switch`, whose first case does nothing and ends it.
abbrev pub open_as : Bool → Bool → M TunDevice → M TunDeviceOffload → M Tun
open_as true offloads plain virtual = do t ← plain; pure (generic t)
open_as false true plain virtual = do t ← virtual; pure (offloaded t)
open_as false false plain virtual = do t ← plain; pure (generic t)

pub open_tun_device : Offloads → (Bytes → Bool) → Kernel → Config → M Tun
unfolding open_generic_tun open_offloaded_tun
open_tun_device virtio new_ifreq kernel config =
    open_as config.use_vhost_net config.enable_offloads (open_generic_tun new_ifreq kernel config)
      (open_offloaded_tun virtio new_ifreq kernel config)
