-- ===== src/Netbsd/Descriptors.antt =====
-- Which descriptors `openTunDevice` of tun_netbsd.go leaves open.
use subpass.Base.{ℕ, ◌≡◌, ◌≢◌, refl, false, Option, none, some, List, [], ◌∷◌, Bytes}
use subpass.Base.Int.{ℤ, pos, negsuc}
use subpass.Go.Result.{Result, ok, err, panic}
use subpass.Go.Kernel.{Kernel, History, File}
use subpass.Go.Kernel.Held.{
  Balance, Balance-trans, Holds, Holds-Returns, bind-Holds, pure-Holds, sys-Holds, socket-Holds,
  close-Holds, mapping-Holds, on_error-Holds, finally-Holds, lift-Holds, if-Holds,
}
use subpass.Go.Kernel.Inversion.{Returns, bind-Returns, mapping-Returns}
use subpass.Go.Kernel.{wrapping}
use subpass.Base.{sym, ◌∙◌}
use subpass.Go.File.{file_close}
use subpass.Mknod.{Rdev, open_tun_from_char_dev}
use subpass.Mknod.Indexed.{create_indexed_tun-Holds}
use subpass.Bsd.{TunDevice}
use subpass.Netbsd.{
  destroy_device, Config, destroy, open_file, set_tun_if_head_mode, set_tun_broadcast_mode,
  configure, open_tun_device, tun_name, after_configure,
}
use subpass.Netbsd.Index.{get_tun_index, get_tun_index-ne-panic, named_index}

-- The descriptors of a device.
abbrev pub fds : Option File → List ℕ
fds none = []
fds (some f) = f.fd ∷ []

pub file_close-Holds :
    (kernel : Kernel) (f : File) (a : List ℕ) → Holds (f.fd ∷ a) (file_close kernel f) (λ _. a) a
unfolding file_close
file_close-Holds kernel f a =
    bind-Holds _ _ (f.fd ∷ a) (λ _. a) (λ _. a) a (close-Holds kernel f.fd a)
      (λ _. pure-Holds (λ _. a) a tt)

module _ (kernel : Kernel) where
  pub destroy-Holds : (name : Bytes) (a : List ℕ) → Holds a (destroy kernel name) (λ _. a) a
  unfolding destroy
  destroy-Holds name a =
      bind-Holds _ _ a (λ r. r.value ∷ a) (λ _. a) a
        (mapping-Holds _ _ a (λ r. r.value ∷ a) a (socket-Holds kernel _ a))
        (λ r.
          finally-Holds _ _ (r.value ∷ a) (r.value ∷ a) (λ _. r.value ∷ a) (λ _. a) a
            (bind-Holds _ _ (r.value ∷ a) (λ _. r.value ∷ a) (λ _. r.value ∷ a) (r.value ∷ a)
              (mapping-Holds _ _ (r.value ∷ a) (λ _. r.value ∷ a) (r.value ∷ a)
                (sys-Holds kernel _ (r.value ∷ a) refl))
              (λ _. pure-Holds (λ _. r.value ∷ a) (r.value ∷ a) tt))
            (λ _. close-Holds kernel r.value a) (close-Holds kernel r.value a))

  destroy_device-Holds :
      (tun : TunDevice) (a : List ℕ) → Holds a (destroy_device kernel tun) (λ _. a) a
  unfolding destroy_device
  destroy_device-Holds tun a = mapping-Holds _ _ a (λ _. a) a (destroy-Holds tun.name a)

  modes-Holds :
      (fd : ℕ) (a : List ℕ)
      → Holds a (set_tun_if_head_mode kernel fd) (λ _. a) a
        × Holds a (set_tun_broadcast_mode kernel fd) (λ _. a) a
  unfolding set_tun_if_head_mode set_tun_broadcast_mode
  modes-Holds fd a = (
    bind-Holds _ _ a (λ _. a) (λ _. a) a (sys-Holds kernel _ a refl)
        (λ _. pure-Holds (λ _. a) a tt),
    bind-Holds _ _ a (λ _. a) (λ _. a) a (sys-Holds kernel _ a refl)
        (λ _. pure-Holds (λ _. a) a tt),
  )

  pub configure-Holds :
      (config : Config) (f : File)
      → Holds (f.fd ∷ []) (configure kernel config f) (λ tun. fds tun.file) []
  unfolding configure
  configure-Holds config f =
      let a = f.fd ∷ [] in
      on_error-Holds _ _ a a (λ tun. fds tun.file) []
        (on_error-Holds _ _ a a (λ tun. fds tun.file) a
          (bind-Holds _ _ a (λ _. a) (λ tun. fds tun.file) a
            (mapping-Holds _ _ a (λ _. a) a (modes-Holds f.fd a).0)
            (λ _.
              bind-Holds _ _ a (λ _. a) (λ tun. fds tun.file) a
                (if-Holds config.ptp_mode _ _ a (λ _. a) a (pure-Holds (λ _. a) a tt)
                  (mapping-Holds _ _ a (λ _. a) a (modes-Holds f.fd a).1))
                (λ _.
                  pure-Holds {A = TunDevice} (λ tun. fds tun.file) a
                    (record { file = some f; closed = false; name = f.name }))))
          (destroy-Holds f.name a))
        (close-Holds kernel f.fd [])

-- The device of a name that is not empty.
pub named_node-Holds :
    (rdev : Rdev) (kernel : Kernel) (name : Bytes)
    → name ≢ []
    → (i : ℤ) → get_tun_index name ≡ ok i
    → Holds [] (open_tun_from_char_dev rdev kernel i) (λ fd. fd ∷ []) []
unfolding open_tun_from_char_dev
named_node-Holds rdev kernel name named (pos n) e = create_indexed_tun-Holds rdev kernel (pos n)
named_node-Holds rdev kernel name named (negsuc n) e = cc (named_index name (negsuc n) named e).1

module _ (rdev : Rdev) (minor : ℕ → ℕ) (kernel : Kernel) (config : Config)
    (named : config.name ≢ []) where
  open_file-Holds : Holds [] (open_file rdev minor kernel config) (λ f. f.fd ∷ []) []
  unfolding open_file
  open_file-Holds =
      lift-Holds (get_tun_index config.name) _ [] (λ f. f.fd ∷ [])
        (get_tun_index-ne-panic config.name)
        (λ i e.
          bind-Holds _ _ [] (λ fd. fd ∷ []) (λ f. f.fd ∷ []) []
            (named_node-Holds rdev kernel config.name named i e)
            (λ fd.
              on_error-Holds _ _ (fd ∷ []) (fd ∷ []) (λ f. f.fd ∷ []) []
                (bind-Holds _ _ (fd ∷ []) (λ _. fd ∷ []) (λ f. f.fd ∷ []) (fd ∷ [])
                  (mapping-Holds _ _ (fd ∷ []) (λ _. fd ∷ []) (fd ∷ [])
                    (sys-Holds kernel _ (fd ∷ []) refl))
                  (λ stat.
                    bind-Holds _ _ (fd ∷ []) (λ _. fd ∷ []) (λ f. f.fd ∷ []) (fd ∷ [])
                      (mapping-Holds _ _ (fd ∷ []) (λ _. fd ∷ []) (fd ∷ [])
                        (sys-Holds kernel _ (fd ∷ []) refl))
                      (λ _.
                        pure-Holds {A = File} (λ f. f.fd ∷ []) (fd ∷ [])
                          (record { fd = fd; name = tun_name (minor stat.value) }))))
                (close-Holds kernel fd [])))

  after_configure-ok :
      (f : File) (x : Result TunDevice × History) {tun : TunDevice}
      → (after_configure kernel f x).0 ≡ ok tun
      → after_configure kernel f x ≡ x
  after_configure-ok f (ok t, h) e = refl
  after_configure-ok f (err y, h) e = cc
  after_configure-ok f (panic, h) e = cc

  finish-Returns :
      (f : File) (h h' : History) {tun : TunDevice}
      → Returns (λ t. after_configure kernel f (configure kernel config f t)) h tun h'
      → Balance h (f.fd ∷ []) h' (fds tun.file)
  finish-Returns f h h' e =
      let same = after_configure-ok f (configure kernel config f h) (λ i. (e i).0) in
      Holds-Returns (configure kernel config f) (f.fd ∷ []) (λ t. fds t.file) [] h h'
        (configure-Holds kernel config f) (sym same ∙ e)

  -- When the configuration names the device and `openTunDevice` returns it, then, whatever the kernel
  -- does, the one descriptor more that is open is that of the device's file.
  pub open_tun_device-Balance :
      (h h' : History) {tun : TunDevice}
      → Returns (open_tun_device rdev minor kernel config) h tun h'
      → Balance h [] h' (fds tun.file)
  unfolding open_tun_device
  open_tun_device-Balance h h' {tun} e =
      let (f, h1, opened, rest) =
        bind-Returns (wrapping "open device" (open_file rdev minor kernel config))
          (λ file h. after_configure kernel file (configure kernel config file h)) h e in
      let first = mapping-Returns _ (open_file rdev minor kernel config) h opened in
      let one =
        Holds-Returns (open_file rdev minor kernel config) [] (λ f. f.fd ∷ []) [] h h1
          open_file-Holds first in
      let two = finish-Returns f h1 h' rest in
      Balance-trans h h1 h' [] (f.fd ∷ []) (fds tun.file) one two
