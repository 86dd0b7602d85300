-- ===== src/Solaris.antt =====
-- tun_solaris.go: the device whose link descriptor is linked below the IP stream, its removal and its
-- `Close`. `Read` is in Solaris.Reader, `Write` has the text of that of Linux, but for the file.
pub mod Reader
pub mod Buffer
pub mod Stream
pub mod Index
pub mod Descriptors
pub mod Fresh
pub mod Feed
pub mod Taking
pub mod Calls
pub mod Delivery
pub mod Threads
pub mod Tests
use subpass.Base.{ℕ, Bool, true, false, not, Option, none, some, [], Bytes, codes, ◌==◌}
use subpass.Base.{if◌then◌else◌}
use subpass.Base.Int.{ℤ, pos, negsuc}
use subpass.Go.Error.{Error, Target, err_closed, err_exist, is, new, wrap, wrap_path}
use subpass.Go.Result.{Result, ok, err, panic, slice_to}
use subpass.Go.Kernel
use subpass.Go.Kernel.{
  Kernel, History, Call, Ioctl, M, File, pure, lift, fail_if, sys, done, mapping, wrapping,
  wrapping_path, on_error, on_error_if, finally, ◌>>=◌, ◌>>◌,
}
use subpass.Go.File.{file_close, file_write}
use subpass.Packet.{Tcpip, check_packet_len}
use subpass.Netbsd.{tun_name}
use subpass.Solaris.Reader.{TunDevice}
use subpass.Solaris.Index.{get_tun_index}

pub record Config : Type 0 where
  pub name : Bytes
  pub persist : Bool

abbrev pub tun_module_char_path : Bytes
tun_module_char_path = codes "/dev/tun"

abbrev pub ip_module_path : Bytes
ip_module_path = codes "/dev/ip"

-- The function `Destroy`; the value of the reply to SIOCGLIFMUXID is the ID that it fills in.
pub destroy : Kernel → Bytes → M (Unit {0})
destroy kernel name = do
  ip ← mapping (wrap_path "open" ip_module_path) (sys kernel (Call.open_file ip_module_path))
  finally (sys kernel (Call.close ip.value)) (do
    r ← wrapping "get link muxid" (sys kernel (Call.ioctl ip.value (Ioctl.siocglifmuxid name)))
    wrapping "unlink tunnel" (done kernel (Call.ioctl ip.value (Ioctl.i_punlink r.value))))

-- The method `Destroy` of a device.
pub destroy_device : Kernel → TunDevice → M (Unit {0})
destroy_device kernel tun = wrapping "destroy" (destroy kernel tun.name)

-- The index that is asked for; none for -1.
abbrev pub asked_ppa : ℤ → Option ℕ
asked_ppa (pos n) = some n
asked_ppa (negsuc n) = none

-- `ppa > -1 && ppa != skppa`
abbrev pub is_other : ℤ → ℕ → Bool
is_other (pos n) skppa = not (n == skppa)
is_other (negsuc n) skppa = false

-- An error of TUNNEWPPA: EEXIST becomes os.ErrExist.
abbrev ppa_error : Error → Error
ppa_error e = if is e Target.exists then err_exist else e

pub tun_new_ppa : Kernel → ℕ → ℤ → M ℕ
tun_new_ppa kernel data_fd ppa = do
  r ← mapping ppa_error (sys kernel (Call.ioctl data_fd (Ioctl.tunnewppa (asked_ppa ppa))))
  fail_if (is_other ppa r.value) (new "ppa mismatch")
  pure r.value

-- The end of `createTunDevice`, with an empty buffer.
pub finish : Kernel → ℕ → ℕ → Bytes → M TunDevice
finish kernel data_fd link_fd name = do
  wrapping "set nonblock" (done kernel (Call.set_nonblock data_fd))
  pure (record {
    name = name;
    data_file = some (record { fd = data_fd; name = name });
    link_file = some (record { fd = link_fd; name = tun_module_char_path });
    buff = [];
    start = 0;
    count = 0;
    closed = false;
  })

-- `createTunDevice` from the second open of the tun module on.
pub link_up : Kernel → Config → ℕ → ℕ → ℕ → ℕ → M TunDevice
unfolding finish destroy
link_up kernel config ip_fd data_fd link_fd skppa = do
  wrapping "push tunnel to ip" (done kernel (Call.ioctl link_fd (Ioctl.i_push (codes "ip"))))
  wrapping "set tunnel ppa" (done kernel (Call.ioctl link_fd (Ioctl.if_unitsel skppa)))
  mux ← wrapping "link tunnel" (
      sys kernel
        (Call.ioctl ip_fd (if config.persist then Ioctl.i_plink link_fd else Ioctl.i_link link_fd)))
  wrapping "set link muxid"
      (done kernel (Call.ioctl ip_fd (Ioctl.siocslifmuxid (tun_name skppa) mux.value)))
  on_error_if config.persist (destroy kernel (tun_name skppa))
      (finish kernel data_fd link_fd (tun_name skppa))

-- `createTunDevice` with the data descriptor open.
pub set_up : Kernel → Config → ℤ → ℕ → ℕ → M TunDevice
unfolding tun_new_ppa link_up
set_up kernel config ppa ip_fd data_fd = do
  skppa ← wrapping "create tunnel" (tun_new_ppa kernel data_fd ppa)
  link ←
      wrapping_path "open" tun_module_char_path (sys kernel (Call.open_file tun_module_char_path))
  on_error (sys kernel (Call.close link.value))
      (link_up kernel config ip_fd data_fd link.value skppa)

-- The descriptor of /dev/ip is closed in any case, after the others.
pub create_tun_device : Kernel → Config → M TunDevice
unfolding set_up
create_tun_device kernel config = do
  ppa ← lift (get_tun_index config.name)
  ip ← wrapping_path "open" ip_module_path (sys kernel (Call.open_file ip_module_path))
  finally (sys kernel (Call.close ip.value)) (do
    data_file ←
        wrapping_path "open" tun_module_char_path (sys kernel (Call.open_file tun_module_char_path))
    on_error (sys kernel (Call.close data_file.value))
        (set_up kernel config ppa ip.value data_file.value))

-- On an error the device has no files yet, and its `Close` makes no call.
pub open_tun_device : Kernel → Config → M TunDevice
unfolding create_tun_device
open_tun_device kernel config = wrapping "open device" (create_tun_device kernel config)

-- `if file != nil { err = file.Close() }`
abbrev pub close_one : Kernel → Option File → M (Unit {0})
close_one kernel none = pure tt
close_one kernel (some f) = file_close kernel f

-- Which of the two errors is returned.
abbrev first_error : Result (Unit {0}) → Result (Unit {0}) → Result (Unit {0})
first_error (err e) r = err (wrap "close: close data file" e)
first_error panic r = panic
first_error (ok u) (err e) = err (wrap "close: close link file" e)
first_error (ok u) panic = panic
first_error (ok u) (ok v) = ok tt

abbrev pub close_by : Kernel → TunDevice → Bool → History → TunDevice × Result (Unit {0}) × History
close_by kernel tun true h = (tun, err (wrap "close" err_closed), h)
close_by kernel tun false h =
    let (r1, h1) = close_one kernel tun.data_file h in
    let (r2, h2) = close_one kernel tun.link_file h1 in
    (record tun { closed = true }, first_error r1 r2, h2)

pub close : Kernel → TunDevice → History → TunDevice × Result (Unit {0}) × History
unfolding file_close
close kernel tun h = close_by kernel tun tun.closed h

-- `Write` after the test of `closed`.
pub send : Tcpip → Kernel → TunDevice → Bytes → M ℕ
unfolding file_write
send tcpip kernel tun b = do
  (v, plen) ← wrapping "write" (lift (check_packet_len tcpip b))
  packet ← lift (slice_to b plen)
  wrapping "write" (file_write kernel tun.data_file packet)

pub write : Tcpip → Kernel → TunDevice → Bytes → M ℕ
unfolding send
write tcpip kernel tun b = do fail_if tun.closed (wrap "write" err_closed); send tcpip kernel tun b
