-- ===== src/NewTun/Closing.antt =====
-- `Close` after `NewTun`, on every system.
use mathlib.Core.Path.{subst}
use subpass.Base.{ℕ, ◌≡◌, ◌≢◌, ap, false, Bool-cases, inl, inr, [], ◌∷◌}
use subpass.Go.Result.{ok-injective}
use subpass.Go.Kernel.{Kernel, History, M, pure, ◌>>=◌}
use subpass.Go.Kernel.Held.{Balance, Balance-trans, Holds-Returns, Holds-all}
use subpass.Go.Kernel.Inversion.{Returns, bind-Returns}
use subpass.Bsd
use subpass.Bsd.{TunDevice}
use subpass.Bsd.Close.Descriptors.{close-Balance}
use subpass.Netbsd.Descriptors.{fds, open_tun_device-Balance}
use subpass.Netbsd
use subpass.Openbsd
use subpass.Freebsd
use subpass.Dragonfly
use subpass.Darwin
use subpass.Offload
use subpass.Solaris
use subpass.Windows
use subpass.Offload.{generic, offloaded}
use subpass.Offload.Descriptors.{TakesOver, GivesBack, tun_fds, open_linux-Holds}
use subpass.Openbsd.Descriptors.{open_named-Holds}
use subpass.Freebsd.Descriptors.{open_tun_device-Holds}
use subpass.Dragonfly.Descriptors.{opening-Holds}
use subpass.Darwin.Descriptors.{open_utun-Holds}
use subpass.Solaris.Descriptors.{device_fds, open_linked-Holds, close_all-Balance}
use subpass.Windows.Settings.{is_empty_iff}
use subpass.NewTun.{
  Packages, Config, netbsd, openbsd, freebsd, dragonfly, darwin, linux, solaris, windows, Tun,
  netbsd_tun, openbsd_tun, freebsd_tun, dragonfly_tun, darwin_tun, linux_tun, solaris_tun,
  windows_tun, settled, is_zero, open_tun_device, new_tun, close,
}

tagged-Returns :
    {A B : Type 0} (m : M A) (tag : A → B) (P : B → History → Type 0) (h h' : History) {b : B}
    → ((x : A) (h1 : History) → Returns m h x h1 → P (tag x) h1)
    → Returns (m >>= λ x. pure (tag x)) h b h'
    → P b h'
tagged-Returns m tag P h h' {b} each e =
    let (x, h1, first, last) = bind-Returns m (λ x. pure (tag x)) h e in
    let same : tag x ≡ b = ok-injective (ap (λ z. z.0) last) in
    let now : h1 ≡ h' = ap (λ z. z.1) last in
    subst (λ z. P z h') same (subst (P (tag x)) now (each x h1 first))

-- On NetBSD and OpenBSD, a configuration that names the device.
abbrev pub IsNamed : Config → Type 0
IsNamed (netbsd c) = c.name ≢ []
IsNamed (openbsd c) = c.name ≢ []
IsNamed _ = Unit

settled-IsNamed : (config : Config) → IsNamed config → IsNamed (settled config)
settled-IsNamed (netbsd c) named = rw ((is_empty_iff c.name).1 named) named
settled-IsNamed (openbsd c) named = rw ((is_empty_iff c.name).1 named) named
settled-IsNamed (freebsd c) named = elim (Bool-cases (is_zero (freebsd c))) [
  | inl e ↦ rw e tt
  | inr e ↦ rw e tt
]
settled-IsNamed (dragonfly c) named = elim (Bool-cases (is_zero (dragonfly c))) [
  | inl e ↦ rw e tt
  | inr e ↦ rw e tt
]
settled-IsNamed (darwin c) named = elim (Bool-cases (is_zero (darwin c))) [
  | inl e ↦ rw e tt
  | inr e ↦ rw e tt
]
settled-IsNamed (linux c) named = elim (Bool-cases (is_zero (linux c))) [
  | inl e ↦ rw e tt
  | inr e ↦ rw e tt
]
settled-IsNamed (solaris c) named = elim (Bool-cases (is_zero (solaris c))) [
  | inl e ↦ rw e tt
  | inr e ↦ rw e tt
]
settled-IsNamed (windows c) named = elim (Bool-cases (is_zero (windows c))) [
  | inl e ↦ rw e tt
  | inr e ↦ rw e tt
]

-- What was held is given back by the close of the file.
file-Balance :
    (kernel : Kernel) (h h1 : History) (t : TunDevice)
    → Balance h [] h1 (fds t.file)
    → t.closed ≡ false
    → Balance h [] (Bsd.Close.close kernel t h1).2 []
file-Balance kernel h h1 t held is_open =
    Balance-trans h h1 (Bsd.Close.close kernel t h1).2 [] (fds t.file) [] held
      (close-Balance kernel t h1 is_open)

module _ (packages : Packages) (fd_of : ℕ → ℕ) (kernel : Kernel) where
  -- Nothing more is open after the close than before.
  abbrev Restores : History → Tun → History → Type 0
  Restores h t h' = Balance h [] (close packages kernel t h').1 []

  linux-Restores :
      (h h1 : History) (t : Offload.Tun)
      → GivesBack packages.virtio fd_of
      → Balance h [] h1 (tun_fds fd_of t)
      → Offload.Fresh.is_closed t ≡ false
      → Restores h (linux_tun t) h1
  unfolding close
  linux-Restores h h1 (generic t) gives held is_open = file-Balance kernel h h1 t held is_open
  linux-Restores h h1 (offloaded t) gives held is_open =
      Balance-trans h h1 (Offload.close packages.virtio t h1).2 [] (fd_of t.offloads ∷ []) [] held
        (Offload.Descriptors.close-Balance packages.virtio fd_of t h1 gives is_open)

  opened-Restores :
      (config : Config) (h h' : History) {tun : Tun}
      → IsNamed config
      → TakesOver packages.virtio fd_of
      → GivesBack packages.virtio fd_of
      → Returns (open_tun_device packages kernel config) h tun h'
      → Restores h tun h'
  unfolding open_tun_device close
  opened-Restores (netbsd c) h h' named takes gives e =
      tagged-Returns (Netbsd.open_tun_device packages.rdev packages.minor kernel c) netbsd_tun
        (Restores h) h h'
        (λ t h1 first.
          file-Balance kernel h h1 t
            (open_tun_device-Balance packages.rdev packages.minor kernel c named h h1 first)
            (Netbsd.Fresh.open_tun_device-closed packages.rdev packages.minor kernel c h h1 first))
        e
  opened-Restores (openbsd c) h h' named takes gives e =
      let opening = Openbsd.open_tun_device packages.rdev packages.minor kernel c in
      tagged-Returns opening openbsd_tun (Restores h) h h'
        (λ t h1 first.
          file-Balance kernel h h1 t
            (Holds-Returns opening [] (λ t. fds t.file) [] h h1
              (open_named-Holds packages.rdev packages.minor kernel c named) first)
            (Openbsd.Fresh.open_tun_device-closed packages.rdev packages.minor kernel c h h1 first))
        e
  opened-Restores (freebsd c) h h' named takes gives e =
      let opening = Freebsd.open_tun_device kernel c in
      tagged-Returns opening freebsd_tun (Restores h) h h'
        (λ t h1 first.
          file-Balance kernel h h1 t
            (Holds-Returns opening [] (λ t. fds t.file) [] h h1 (open_tun_device-Holds kernel c)
              first)
            (Freebsd.Fresh.open_tun_device-closed kernel c h h1 first))
        e
  opened-Restores (dragonfly c) h h' named takes gives e =
      let opening = Dragonfly.open_tun_device kernel c in
      tagged-Returns opening dragonfly_tun (Restores h) h h'
        (λ t h1 first.
          file-Balance kernel h h1 t
            (Holds-Returns opening [] (λ t. fds t.file) [] h h1 (opening-Holds kernel c) first)
            (Dragonfly.Fresh.open_tun_device-closed kernel c h h1 first))
        e
  opened-Restores (darwin c) h h' named takes gives e =
      let opening = Darwin.open_tun_device kernel c in
      tagged-Returns opening darwin_tun (Restores h) h h'
        (λ t h1 first.
          file-Balance kernel h h1 t
            (Holds-Returns opening [] (λ t. fds t.file) [] h h1 (open_utun-Holds kernel c) first)
            (Darwin.Fresh.open_tun_device-closed kernel c h h1 first))
        e
  opened-Restores (linux c) h h' named takes gives e =
      let opening = Offload.open_tun_device packages.virtio packages.new_ifreq kernel c in
      tagged-Returns opening linux_tun (Restores h) h h'
        (λ t h1 first.
          linux-Restores h h1 t gives
            (Holds-Returns opening [] (tun_fds fd_of) [] h h1
              (open_linux-Holds packages.virtio fd_of packages.new_ifreq kernel c takes) first)
            (Offload.Fresh.open_tun_device-closed packages.virtio packages.new_ifreq kernel c h h1
              first))
        e
  opened-Restores (solaris c) h h' named takes gives e =
      let opening = Solaris.open_tun_device kernel c in
      tagged-Returns opening solaris_tun (Restores h) h h'
        (λ t h1 first.
          Balance-trans h h1 (Solaris.close kernel t h1).2 [] (device_fds t) []
            (Holds-Returns opening [] device_fds [] h h1 (open_linked-Holds kernel c) first)
            (close_all-Balance kernel t h1
              (Solaris.Fresh.open_tun_device-closed kernel c h h1 first)))
        e
  opened-Restores (windows c) h h' named takes gives e =
      let opening = Windows.open_tun_device kernel c in
      tagged-Returns opening windows_tun (Restores h) h h'
        (λ t h1 first.
          Balance-trans h h1 (Windows.close kernel t false h1).1 [] [] []
            (Holds-Returns opening [] (λ _. []) [] h h1
              (Windows.Opening.open_tun_device-Holds kernel c) first)
            (Holds-all (Windows.close kernel t false) [] [] h1
              (Windows.Opening.close-Holds kernel t)))
        e

  -- When `NewTun` has returned a device, its `Close` leaves no descriptor open that was not open
  -- before `NewTun`, whatever the kernel does and also when the close fails. On NetBSD and OpenBSD
  -- the configuration names the device; on Linux `NewOffloads` leaves the file alone when it fails,
  -- and the package's `Close` gives the descriptor back.
  pub new_tun-Restores :
      (config : Config) (h h' : History) {tun : Tun}
      → IsNamed config
      → TakesOver packages.virtio fd_of
      → GivesBack packages.virtio fd_of
      → Returns (new_tun packages kernel config) h tun h'
      → Balance h [] (close packages kernel tun h').1 []
  unfolding new_tun
  new_tun-Restores config h h' named takes gives e =
      opened-Restores (settled config) h h' (settled-IsNamed config named) takes gives e
