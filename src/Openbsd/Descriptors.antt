-- ===== src/Openbsd/Descriptors.antt =====
-- Which descriptors the code of tun_openbsd.go leaves open.
use subpass.Base.{ℕ, ◌≢◌, refl, false, some, [], ◌∷◌}
use subpass.Go.Kernel.{Kernel}
use subpass.Go.Kernel.Held.{
  Holds, bind-Holds, then-Holds, pure-Holds, sys-Holds, close-Holds, mapping-Holds, on_error-Holds,
  lift-Holds,
}
use subpass.Mknod.{Rdev}
use subpass.Bsd.{TunDevice}
use subpass.Netbsd.{tun_name}
use subpass.Netbsd.Index.{get_tun_index, get_tun_index-ne-panic}
use subpass.Netbsd.Descriptors.{fds, named_node-Holds}
use subpass.Openbsd.{Config, set_up, create_tun_device, open_tun_device}

module _ (rdev : Rdev) (minor : ℕ → ℕ) (kernel : Kernel) where
  set_up-Holds : (fd : ℕ) → Holds (fd ∷ []) (set_up minor kernel fd) (λ t. fds t.file) (fd ∷ [])
  unfolding set_up
  set_up-Holds fd =
      let a = fd ∷ [] in
      then-Holds _ _ a (λ t. fds t.file) a
        (mapping-Holds _ _ a (λ _. a) a (sys-Holds kernel _ a refl))
        (λ stat.
          then-Holds _ _ a (λ t. fds t.file) a
            (mapping-Holds _ _ a (λ _. a) a (sys-Holds kernel _ a refl))
            (λ _.
              pure-Holds {A = TunDevice} (λ t. fds t.file) a
                (record {
                  file = some (record { fd = fd; name = tun_name (minor stat.value) });
                  closed = false;
                  name = tun_name (minor stat.value);
                })))

  -- When the configuration names the device, then, whatever the kernel does, `openTunDevice` leaves
  -- exactly the descriptor of the device's file open when it returns a device, and none when it
  -- returns an error.
  pub open_named-Holds :
      (config : Config)
      → config.name ≢ []
      → Holds [] (open_tun_device rdev minor kernel config) (λ t. fds t.file) []
  unfolding open_tun_device create_tun_device
  open_named-Holds config named =
      mapping-Holds _ _ [] (λ t. fds t.file) []
        (lift-Holds (get_tun_index config.name) _ [] (λ t. fds t.file)
          (get_tun_index-ne-panic config.name)
          (λ i e.
            bind-Holds _ _ [] (λ fd. fd ∷ []) (λ t. fds t.file) []
              (named_node-Holds rdev kernel config.name named i e)
              (λ fd.
                on_error-Holds _ _ (fd ∷ []) (fd ∷ []) (λ t. fds t.file) [] (set_up-Holds fd)
                  (close-Holds kernel fd []))))
