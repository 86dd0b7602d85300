-- ===== src/Dragonfly/Descriptors.antt =====
-- Which descriptors the code of tun_dragonfly.go leaves open.
use subpass.Base.{ℕ, refl, [], ◌∷◌, Bytes}
use subpass.Go.Kernel.{Kernel}
use subpass.Go.Kernel.Held.{fail_if-Holds}
use subpass.Go.Kernel.Held.{
  Holds, bind-Holds, then-Holds, pure-Holds, sys-Holds, open_file-Holds, close-Holds, mapping-Holds,
  on_error-Holds,
}
use subpass.Netbsd.Descriptors.{fds, destroy-Holds}
use subpass.Freebsd.Descriptors.{refuse_existing-Holds, configure-Holds, finish-Holds}
use subpass.Dragonfly.{Config, get_tun_name, set_up, create_tun_device, open_tun_device}

module _ (kernel : Kernel) (config : Config) where
  set_up-Holds : (fd : ℕ) → Holds (fd ∷ []) (set_up kernel config fd) (λ t. fds t.file) (fd ∷ [])
  unfolding set_up get_tun_name
  set_up-Holds fd =
      let a = fd ∷ [] in
      then-Holds _ _ a (λ t. fds t.file) a
        (mapping-Holds _ _ a (λ _. a) a
          (then-Holds {B = Bytes} _ _ a (λ _. a) a (sys-Holds kernel _ a refl)
            (λ r. pure-Holds {A = Bytes} (λ _. a) a r.text)))
        (λ tun_name.
          then-Holds _ _ a (λ t. fds t.file) a
            (on_error-Holds _ _ a a (λ _. a) a
              (configure-Holds kernel config.ptp_mode fd tun_name config.name a)
              (destroy-Holds kernel tun_name a))
            (λ name.
              on_error-Holds _ _ a a (λ t. fds t.file) a (finish-Holds kernel fd name)
                (destroy-Holds kernel name a)))

  -- Whatever the kernel does, `openTunDevice` of DragonFly BSD leaves exactly the descriptor of the
  -- device's file open when it returns a device, and none when it returns an error.
  pub opening-Holds : Holds [] (open_tun_device kernel config) (λ t. fds t.file) []
  unfolding open_tun_device create_tun_device
  opening-Holds =
      mapping-Holds _ _ [] (λ t. fds t.file) []
        (then-Holds _ _ [] (λ t. fds t.file) [] (fail_if-Holds _ _ [])
          (λ _.
            then-Holds _ _ [] (λ t. fds t.file) [] (refuse_existing-Holds kernel config.name [])
              (λ _.
                bind-Holds _ _ [] (λ r. r.value ∷ []) (λ t. fds t.file) []
                  (mapping-Holds _ _ [] (λ r. r.value ∷ []) [] (open_file-Holds kernel _ []))
                  (λ r.
                    on_error-Holds _ _ (r.value ∷ []) (r.value ∷ []) (λ t. fds t.file) []
                      (set_up-Holds r.value) (close-Holds kernel r.value [])))))
