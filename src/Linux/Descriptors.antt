-- ===== src/Linux/Descriptors.antt =====
-- Which descriptors the code of tun_linux.go leaves open.
use subpass.Base.{ℕ, refl, Bool, false, Option, none, some, [], ◌∷◌, List, Bytes}
use subpass.Go.Kernel.{Kernel, File}
use subpass.Go.Kernel.Held.{
  Holds, bind-Holds, then-Holds, pure-Holds, sys-Holds, socket-Holds, open_file-Holds, close-Holds,
  mapping-Holds, wrapped-Holds, on_error-Holds, on_error_if-Holds, finally-Holds, lift-Holds,
  lifted-Holds, fail_if-Holds,
}
use subpass.Bsd.{TunDevice}
use subpass.Netbsd.Descriptors.{fds}
use subpass.Linux.{
  destroy_device, Permissions, Config, destroy, tun_device_permissions, finish, set_up,
  create_tun_with_flags, open_generic_tun,
}
use subpass.Linux.Answer.{check_reply, check_reply-ne-panic}
use subpass.Linux.Name.{validate_name, validate_name-ne-panic}

module _ (kernel : Kernel) where
  -- Whatever the kernel does, `Destroy` leaves no descriptor of its socket open.
  pub destroy-Holds : (name : Bytes) (a : List ℕ) → Holds a (destroy kernel name) (λ _. a) a
  unfolding destroy
  destroy-Holds name a =
      bind-Holds _ _ a (λ r. r.value ∷ a) (λ _. a) a
        (mapping-Holds _ _ a (λ r. r.value ∷ a) a (socket-Holds kernel _ a))
        (λ r.
          let b = r.value ∷ a in
          finally-Holds _ _ b b (λ _. b) (λ _. a) a
            (then-Holds _ _ b (λ _. b) b (wrapped-Holds _ kernel _ b refl)
              (λ _.
                then-Holds _ _ b (λ _. b) b (wrapped-Holds _ kernel _ b refl)
                  (λ _.
                    then-Holds _ _ b (λ _. b) b
                      (mapping-Holds _ _ b (λ _. b) b (sys-Holds kernel _ b refl))
                      (λ answer.
                        lifted-Holds (check_reply answer.text) b
                          (check_reply-ne-panic answer.text)))))
            (λ _. close-Holds kernel r.value a) (close-Holds kernel r.value a))

  destroy_device-Holds :
      (tun : TunDevice) (a : List ℕ) → Holds a (destroy_device kernel tun) (λ _. a) a
  unfolding destroy_device
  destroy_device-Holds tun a = mapping-Holds _ _ a (λ _. a) a (destroy-Holds tun.name a)

  permissions-Holds :
      (fd : ℕ) (p : Option Permissions) (a : List ℕ)
      → Holds a (tun_device_permissions kernel fd p) (λ _. a) a
  unfolding tun_device_permissions
  permissions-Holds fd none a = pure-Holds (λ _. a) a tt
  permissions-Holds fd (some p) a =
      then-Holds _ _ a (λ _. a) a (wrapped-Holds _ kernel _ a refl)
        (λ _. wrapped-Holds _ kernel _ a refl)

  finish-Holds :
      (config : Config) (fd : ℕ) (name : Bytes)
      → Holds (fd ∷ []) (finish kernel config fd name) (λ f. f.fd ∷ []) (fd ∷ [])
  unfolding finish
  finish-Holds config fd name =
      let a = fd ∷ [] in
      then-Holds _ _ a (λ f. f.fd ∷ []) a (permissions-Holds fd config.permissions a)
        (λ _.
          then-Holds _ _ a (λ f. f.fd ∷ []) a (wrapped-Holds _ kernel _ a refl)
            (λ _. pure-Holds {A = File} (λ f. f.fd ∷ []) a (record { fd = fd; name = name })))

  module _ (new_ifreq : Bytes → Bool) (config : Config) where
    set_up-Holds :
        (vnet_hdr : Bool) (fd : ℕ)
        → Holds (fd ∷ []) (set_up new_ifreq kernel config vnet_hdr fd) (λ f. f.fd ∷ []) (fd ∷ [])
    unfolding set_up
    set_up-Holds vnet_hdr fd =
        let a = fd ∷ [] in
        then-Holds _ _ a (λ f. f.fd ∷ []) a (fail_if-Holds _ _ a)
          (λ _.
            then-Holds _ _ a (λ f. f.fd ∷ []) a
              (mapping-Holds _ _ a (λ _. a) a (sys-Holds kernel _ a refl))
              (λ r.
                then-Holds _ _ a (λ f. f.fd ∷ []) a (wrapped-Holds _ kernel _ a refl)
                  (λ _.
                    on_error_if-Holds config.persist _ _ a (λ f. f.fd ∷ [])
                      (finish-Holds config fd r.text) (destroy-Holds r.text a))))

    -- Whatever the kernel does, `createTunWithFlags` leaves exactly the descriptor of the file that
    -- it returns open, and none when it returns an error.
    pub create_tun_with_flags-Holds :
        (vnet_hdr : Bool)
        → Holds [] (create_tun_with_flags new_ifreq kernel config vnet_hdr) (λ f. f.fd ∷ []) []
    unfolding create_tun_with_flags
    create_tun_with_flags-Holds vnet_hdr =
        lift-Holds (validate_name config.name) _ [] (λ f. f.fd ∷ [])
          (validate_name-ne-panic config.name)
          (λ _ e.
            bind-Holds _ _ [] (λ r. r.value ∷ []) (λ f. f.fd ∷ []) []
              (mapping-Holds _ _ [] (λ r. r.value ∷ []) [] (open_file-Holds kernel _ []))
              (λ r.
                on_error-Holds _ _ (r.value ∷ []) (r.value ∷ []) (λ f. f.fd ∷ []) []
                  (set_up-Holds vnet_hdr r.value) (close-Holds kernel r.value [])))

    pub open_generic_tun-Holds :
        Holds [] (open_generic_tun new_ifreq kernel config) (λ t. fds t.file) []
    unfolding open_generic_tun
    open_generic_tun-Holds =
        bind-Holds _ _ [] (λ f. f.fd ∷ []) (λ t. fds t.file) []
          (mapping-Holds _ _ [] (λ f. f.fd ∷ []) [] (create_tun_with_flags-Holds false))
          (λ f.
            pure-Holds {A = TunDevice} (λ t. fds t.file) []
              (record { file = some f; closed = false; name = f.name }))
