-- ===== src/Freebsd/Descriptors.antt =====
-- Which descriptors the code of tun_freebsd.go leaves open.
use subpass.Base.{ℕ, refl, false, Bool, some, List, [], ◌∷◌, Bytes, if◌then◌else◌}
use subpass.Go.Error.{new}
use subpass.Go.Result.{Result, ok, err, panic}
use subpass.Go.Kernel.{Kernel, History, Reply, pure, wrapping}
use subpass.Go.Kernel.Held.{
  Holds, Ends, bind-Holds, then-Holds, pure-Holds, fail-Holds, fail_if-Holds, sys-Holds,
  socket-Holds, open_file-Holds, close-Holds, done-Holds, wrapped-Holds, mapping-Holds,
  on_error-Holds, on_error_if-Holds, finally-Holds, if-Holds,
}
use subpass.Bsd.{TunDevice}
use subpass.Netbsd.Descriptors.{fds, destroy-Holds}
use subpass.Freebsd.{
  Config, interface_by_name, refuse_found, refuse_existing, set_tun_transient, set_tun_if_head_mode,
  set_tun_broadcast_mode, become_tun_pid, set_tun_name, rename, configure, finish, set_up,
  create_tun_device, open_tun_device,
}

module _ (kernel : Kernel) where
  interface_by_name-Holds :
      (name : Bytes) (a : List ℕ) → Holds a (interface_by_name kernel name) (λ _. a) a
  interface_by_name-Holds [] a =
      fail-Holds {A = Reply} (λ _. a) a (new "invalid network interface name")
  interface_by_name-Holds (c ∷ name) a = sys-Holds kernel _ a refl

  refuse_found-Ends :
      (h : History) (a : List ℕ) (x : Result Reply × History)
      → Ends h a (λ _. a) a x
      → Ends h a (λ _. a) a (refuse_found x)
  refuse_found-Ends h a (ok r, h') p = p
  refuse_found-Ends h a (err e, h') p = p
  refuse_found-Ends h a (panic, h') p = p

  pub refuse_existing-Holds :
      (name : Bytes) (a : List ℕ) → Holds a (refuse_existing kernel name) (λ _. a) a
  unfolding refuse_existing
  refuse_existing-Holds name a h =
      refuse_found-Ends h a (interface_by_name kernel name h) (interface_by_name-Holds name a h)

  set_tun_name-Holds :
      (old fresh : Bytes) (a : List ℕ) → Holds a (set_tun_name kernel old fresh) (λ _. a) a
  unfolding set_tun_name
  set_tun_name-Holds old fresh a =
      bind-Holds _ _ a (λ r. r.value ∷ a) (λ _. a) a
        (mapping-Holds _ _ a (λ r. r.value ∷ a) a (socket-Holds kernel _ a))
        (λ r.
          finally-Holds _ _ (r.value ∷ a) (r.value ∷ a) (λ _. r.value ∷ a) (λ _. a) a
            (done-Holds kernel _ (r.value ∷ a) refl) (λ _. close-Holds kernel r.value a)
            (close-Holds kernel r.value a))

  rename-Holds : (old fresh : Bytes) (a : List ℕ) → Holds a (rename kernel old fresh) (λ _. a) a
  unfolding rename
  rename-Holds old [] a = pure-Holds (λ _. a) a old
  rename-Holds old (c ∷ fresh) a =
      then-Holds {B = Bytes} _ _ a (λ _. a) a
        (mapping-Holds _ _ a (λ _. a) a (set_tun_name-Holds old (c ∷ fresh) a))
        (λ _. pure-Holds {A = Bytes} (λ _. a) a (c ∷ fresh))

  pub configure-Holds :
      (ptp : Bool) (fd : ℕ) (old fresh : Bytes) (a : List ℕ)
      → Holds a (configure kernel ptp fd old fresh) (λ _. a) a
  unfolding configure set_tun_if_head_mode set_tun_broadcast_mode become_tun_pid
  configure-Holds ptp fd old fresh a =
      then-Holds _ _ a (λ _. a) a (wrapped-Holds _ kernel _ a refl)
        (λ _.
          then-Holds _ _ a (λ _. a) a
            (if-Holds ptp _ _ a (λ _. a) a (pure-Holds (λ _. a) a tt)
              (wrapped-Holds _ kernel _ a refl))
            (λ _.
              then-Holds _ _ a (λ _. a) a (wrapped-Holds _ kernel _ a refl)
                (λ _. rename-Holds old fresh a)))

  pub finish-Holds :
      (fd : ℕ) (name : Bytes) → Holds (fd ∷ []) (finish kernel fd name) (λ t. fds t.file) (fd ∷ [])
  unfolding finish
  finish-Holds fd name =
      then-Holds _ _ (fd ∷ []) (λ t. fds t.file) (fd ∷ []) (wrapped-Holds _ kernel _ (fd ∷ []) refl)
        (λ _.
          pure-Holds {A = TunDevice} (λ t. fds t.file) (fd ∷ [])
            (record { file = some (record { fd = fd; name = name }); closed = false; name = name }))

  transient-Holds :
      (persist : Bool) (fd : ℕ) (a : List ℕ)
      → Holds a
          (if persist then pure tt else wrapping "set transient mode" (set_tun_transient kernel fd))
          (λ _. a)
          a
  unfolding set_tun_transient
  transient-Holds persist fd a =
      if-Holds persist _ _ a (λ _. a) a (pure-Holds (λ _. a) a tt) (wrapped-Holds _ kernel _ a refl)

  set_up-Holds :
      (config : Config) (fd : ℕ)
      → Holds (fd ∷ []) (set_up kernel config fd) (λ t. fds t.file) (fd ∷ [])
  unfolding set_up
  set_up-Holds config fd =
      let a = fd ∷ [] in
      then-Holds _ _ a (λ t. fds t.file) a
        (mapping-Holds _ _ a (λ _. a) a (sys-Holds kernel _ a refl))
        (λ r.
          then-Holds _ _ a (λ t. fds t.file) a (transient-Holds config.persist fd a)
            (λ _.
              then-Holds _ _ a (λ t. fds t.file) a
                (on_error_if-Holds config.persist _ _ a (λ _. a)
                  (configure-Holds config.ptp_mode fd r.text config.name a)
                  (destroy-Holds kernel r.text a))
                (λ name.
                  on_error_if-Holds config.persist _ _ a (λ t. fds t.file) (finish-Holds fd name)
                    (destroy-Holds kernel name a))))

  -- Whatever the kernel does, `openTunDevice` leaves exactly the descriptor of the device's file
  -- open when it returns a device, and none when it returns an error.
  pub open_tun_device-Holds :
      (config : Config) → Holds [] (open_tun_device kernel config) (λ t. fds t.file) []
  unfolding open_tun_device create_tun_device
  open_tun_device-Holds config =
      mapping-Holds _ _ [] (λ t. fds t.file) []
        (then-Holds _ _ [] (λ t. fds t.file) [] (fail_if-Holds _ _ [])
          (λ _.
            then-Holds _ _ [] (λ t. fds t.file) [] (refuse_existing-Holds config.name [])
              (λ _.
                bind-Holds _ _ [] (λ r. r.value ∷ []) (λ t. fds t.file) []
                  (mapping-Holds _ _ [] (λ r. r.value ∷ []) [] (open_file-Holds kernel _ []))
                  (λ r.
                    on_error-Holds _ _ (r.value ∷ []) (r.value ∷ []) (λ t. fds t.file) []
                      (set_up-Holds config r.value) (close-Holds kernel r.value [])))))
