-- ===== src/Darwin.antt =====
-- tun_darwin.go: opening a utun interface through its kernel control. `Read` and
-- `Write` are those of `Bsd`.
pub mod Index
pub mod Shared
pub mod Descriptors
pub mod Fresh
pub mod Tests
use subpass.Base.{ℕ, Bool, true, false, some, Bytes, codes, if◌then◌else◌}
use subpass.Base.Int.{ℤ}
use subpass.Go.Error.{Error, Target, err_exist, is, wrap}
use subpass.Go.Kernel
use subpass.Go.Kernel.{
  Kernel, Call, Family, Ioctl, M, Reply, pure, lift, sys, told, done, mapping, wrapping, on_error,
  ◌>>=◌, ◌>>◌,
}
use subpass.Bsd.{TunDevice}
use Index.{get_utun_index, unit_of}

pub record Config : Type 0 where
  pub name : Bytes

abbrev pub apple_utun_ctl : Bytes
apple_utun_ctl = codes "com.apple.net.utun_control"

-- An error of `unix.Connect`: EBUSY becomes os.ErrExist.
abbrev connect_error : Error → Error
connect_error e = wrap "create tunnel" (if is e Target.busy then err_exist else e)

-- `createTunDevice` after the socket is open. The value of the reply to CTLIOCGINFO is the ID that
-- it fills in, and the text of the reply to `getsockopt` the name.
pub set_up : Kernel → ℤ → ℕ → M TunDevice
set_up kernel index fd = do
  info ← wrapping "create tunnel" (sys kernel (Call.ioctl fd (Ioctl.ctliocginfo apple_utun_ctl)))
  mapping connect_error (done kernel (Call.connect_ctl fd info.value (unit_of index)))
  r ← wrapping "get tunnel name" (sys kernel (Call.getsockopt fd))
  wrapping "set nonblock" (done kernel (Call.set_nonblock fd))
  pure (record { file = some (record { fd = fd; name = r.text }); closed = false; name = r.text })

-- `socketCloexec`, which holds a lock against a fork between its two calls.
pub socket_cloexec : Kernel → Family → M Reply
socket_cloexec kernel family = do
  r ← sys kernel (Call.socket family)
  told kernel (Call.close_on_exec r.value)
  pure r

pub create_tun_device : Kernel → Config → M TunDevice
unfolding set_up socket_cloexec
create_tun_device kernel config = do
  index ← lift (get_utun_index config.name)
  socket ← wrapping "open socket" (socket_cloexec kernel Family.system)
  on_error (sys kernel (Call.close socket.value)) (set_up kernel index socket.value)

-- On an error there is no device yet, and nothing is left to close.
unfoldable pub open_tun_device : Kernel → Config → M TunDevice
unfolding create_tun_device
open_tun_device kernel config = wrapping "open device" (create_tun_device kernel config)
