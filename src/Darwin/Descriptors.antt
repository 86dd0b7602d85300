-- ===== src/Darwin/Descriptors.antt =====
-- Which descriptors the code of tun_darwin.go leaves open, and the error of a unit that is taken.
use subpass.Base.{ℕ, ◌≡◌, refl, arith, false, none, some, [], ◌∷◌}
use subpass.Base.Int.{ℤ}
use subpass.Go.Error.{ebusy, err_exist, wrap}
use subpass.Go.Result.{ok, err}
use subpass.Go.Kernel.{Kernel, History, Call, Reply, Family, Ioctl, made}
use subpass.Go.Kernel.Held.{
  Holds, bind-Holds, then-Holds, pure-Holds, sys-Holds, told-Holds, socket-Holds, close-Holds,
  mapping-Holds, wrapped-Holds, on_error-Holds, lift-Holds,
}
use subpass.Bsd.{TunDevice}
use subpass.Netbsd.Descriptors.{fds}
use subpass.Darwin.{
  Config, apple_utun_ctl, socket_cloexec, set_up, create_tun_device, open_tun_device,
}
use subpass.Darwin.Index.{get_utun_index, get_utun_index-ne-panic, unit_of}

module _ (kernel : Kernel) where
  socket_cloexec-Holds :
      (family : Family) → Holds [] (socket_cloexec kernel family) (λ r. r.value ∷ []) []
  unfolding socket_cloexec
  socket_cloexec-Holds family =
      bind-Holds _ _ [] (λ r. r.value ∷ []) (λ (r : Reply). r.value ∷ []) []
        (socket-Holds kernel family [])
        (λ r h. told-Holds kernel (Call.close_on_exec r.value) (r.value ∷ []) refl h)

  set_up-Holds :
      (index : ℤ) (fd : ℕ) → Holds (fd ∷ []) (set_up kernel index fd) (λ t. fds t.file) (fd ∷ [])
  unfolding set_up
  set_up-Holds index fd =
      let a = fd ∷ [] in
      then-Holds _ _ a (λ t. fds t.file) a
        (mapping-Holds _ _ a (λ _. a) a (sys-Holds kernel _ a refl))
        (λ info.
          then-Holds _ _ a (λ t. fds t.file) a (wrapped-Holds _ kernel _ a refl)
            (λ _.
              then-Holds _ _ a (λ t. fds t.file) a
                (mapping-Holds _ _ a (λ _. a) a (sys-Holds kernel _ a refl))
                (λ r.
                  then-Holds _ _ a (λ t. fds t.file) a (wrapped-Holds _ kernel _ a refl)
                    (λ _.
                      pure-Holds {A = TunDevice} (λ t. fds t.file) a
                        (record {
                          file = some (record { fd = fd; name = r.text });
                          closed = false;
                          name = r.text;
                        })))))

  -- Whatever the kernel does, `openTunDevice` of Darwin leaves exactly the descriptor of the
  -- device's file open when it returns a device, and none when it returns an error.
  pub open_utun-Holds :
      (config : Config) → Holds [] (open_tun_device kernel config) (λ t. fds t.file) []
  unfolding open_tun_device create_tun_device
  open_utun-Holds config =
      mapping-Holds _ _ [] (λ t. fds t.file) []
        (lift-Holds (get_utun_index config.name) _ [] (λ t. fds t.file)
          (get_utun_index-ne-panic config.name)
          (λ i e.
            bind-Holds _ _ [] (λ r. r.value ∷ []) (λ t. fds t.file) []
              (mapping-Holds _ _ [] (λ r. r.value ∷ []) [] (socket_cloexec-Holds Family.system))
              (λ r.
                on_error-Holds _ _ (r.value ∷ []) (r.value ∷ []) (λ t. fds t.file) []
                  (set_up-Holds i r.value) (close-Holds kernel r.value []))))

  -- When the unit of the name is in use, the result is ErrExist, and the calls made are those up to
  -- the connection to this unit and the close of the socket.
  open_utun_busy :
      (config : Config) (h h1 h2 : History) (i : ℤ) (fd id : ℕ)
      → get_utun_index config.name ≡ ok i
      → kernel h (Call.socket Family.system) ≡ record { errno = none; value = fd; text = [] }
      → h1 ≡ made kernel (Call.close_on_exec fd) (made kernel (Call.socket Family.system) h)
      → kernel h1 (Call.ioctl fd (Ioctl.ctliocginfo apple_utun_ctl))
        ≡ record { errno = none; value = id; text = [] }
      → h2 ≡ made kernel (Call.ioctl fd (Ioctl.ctliocginfo apple_utun_ctl)) h1
      → (kernel h2 (Call.connect_ctl fd id (unit_of i))).errno ≡ some ebusy
      → open_tun_device kernel config h ≡ (
        err (wrap "open device" (wrap "create tunnel" err_exist)),
        made kernel (Call.close fd) (made kernel (Call.connect_ctl fd id (unit_of i)) h2),
      )
  unfolding open_tun_device create_tun_device socket_cloexec set_up
  open_utun_busy config h h1 h2 i fd id read opens e1 info e2 busy = ground arith
