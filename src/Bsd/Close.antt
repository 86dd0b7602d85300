-- ===== src/Bsd/Close.antt =====
-- `Close`, which has the same text in the files of the four BSDs and of Darwin, and the life of a
-- device under its three operations.
pub mod Descriptors
use subpass.Base.{ℕ, ◌≡◌, refl, arith, Bool, true, false, Option, none, some, List, [], ◌∷◌, Bytes}
use subpass.Go.Error.{err_closed, wrap}
use subpass.Go.Result.{Result, err}
use subpass.Go.Kernel.{Kernel, History, File, M, Call, made, wrapping, pure}
use subpass.Go.File.{file_close}
use subpass.Packet.{Tcpip}
use subpass.Bsd.{TunDevice, Families, read, write}

-- What is left when `closed` was not set before: the file is closed, if there is one.
abbrev pub close_file : Kernel → Option File → M (Unit {0})
close_file kernel none = pure tt
close_file kernel (some f) = wrapping "close" (file_close kernel f)

abbrev close_by : Kernel → TunDevice → Bool → History → TunDevice × Result (Unit {0}) × History
close_by kernel tun true h = (tun, err (wrap "close" err_closed), h)
close_by kernel tun false h =
    let (r, h') = close_file kernel tun.file h in (record tun { closed = true }, r, h')

-- `iface.closed.Swap(true)` gives the old value of the flag: the call that finds it unset closes the
-- file, and every later one returns `os.ErrClosed`. The result is the device and what was returned.
pub close : Kernel → TunDevice → History → TunDevice × Result (Unit {0}) × History
unfolding file_close
close kernel tun h = close_by kernel tun tun.closed h

-- The operations that a program calls on a device.
pub data Op : Type 0 where
  do_read : ℕ → Op
  do_write : Bytes → Op
  do_close : Op

module _ (tcpip : Tcpip) (families : Families) (kernel : Kernel) where
  -- One operation after the other, on the device and the history.
  pub run : List Op → TunDevice → History → TunDevice × History
  run [] tun h = (tun, h)
  run (do_read len ∷ ops) tun h = run ops tun (read tcpip kernel tun len h).1
  run (do_write b ∷ ops) tun h = run ops tun (write tcpip families kernel tun b h).1
  run (do_close ∷ ops) tun h = let (tun', r, h') = close kernel tun h in run ops tun' h'

  closed_device :
      (b : Bytes) (len : ℕ) (tun : TunDevice) (h : History)
      → tun.closed ≡ true
      → ((read tcpip kernel tun len h).1 ≡ h)
        × ((write tcpip families kernel tun b h).1 ≡ h)
        × (close kernel tun h ≡ (tun, err (wrap "close" err_closed), h))
  unfolding read write close
  closed_device b len tun h shut = (ground arith, ground arith, ground arith)

  run_closed :
      (ops : List Op) (tun : TunDevice) (h : History) → tun.closed ≡ true → run ops tun h ≡ (tun, h)
  unfolding run
  run_closed [] tun h shut = refl
  run_closed (do_read len ∷ ops) tun h shut =
      rw (closed_device [] len tun h shut).0 (run_closed ops tun h shut)
  run_closed (do_write b ∷ ops) tun h shut =
      rw (closed_device b 0 tun h shut).1 (run_closed ops tun h shut)
  run_closed (do_close ∷ ops) tun h shut =
      rw (closed_device [] 0 tun h shut).2 (run_closed ops tun h shut)

  close_open :
      (tun : TunDevice) (f : File) (h : History)
      → tun.closed ≡ false
      → tun.file ≡ some f
      → ((close kernel tun h).0 ≡ record tun { closed = true })
        × ((close kernel tun h).2 ≡ made kernel (Call.close f.fd) h)
  unfolding close
  close_open tun f h is_open has_file = (ground arith, ground arith)

  -- When an open device is closed, its descriptor is closed by one call; and whatever is called on
  -- the device afterwards, reads, writes and further closes, makes no call at all.
  pub run-close :
      (ops : List Op) (tun : TunDevice) (f : File) (h : History)
      → tun.closed ≡ false
      → tun.file ≡ some f
      → run (do_close ∷ ops) tun h ≡ (record tun { closed = true }, made kernel (Call.close f.fd) h)
  unfolding run
  run-close ops tun f h is_open has_file =
      let (device, history) = close_open tun f h is_open has_file in
      rw (device, history) (run_closed ops _ _ refl)
