-- ===== src/NewTun/Descriptors.antt =====
-- What `NewTun` leaves open, on every system.
use mathlib.Core.Path.{subst}
use subpass.Base.{ℕ, ◌≡◌, ◌≢◌, refl, Bool-cases, inl, inr, List, []}
use subpass.Go.Kernel.{Kernel, M, pure, ◌>>=◌}
use subpass.Go.Kernel.Held.{Holds, bind-Holds, pure-Holds}
use subpass.Netbsd.Descriptors.{fds}
use subpass.Openbsd.Descriptors.{open_named-Holds}
use subpass.Freebsd.Descriptors.{open_tun_device-Holds}
use subpass.Dragonfly.Descriptors.{opening-Holds}
use subpass.Darwin.Descriptors.{open_utun-Holds}
use subpass.Offload.Descriptors.{TakesOver, tun_fds, open_linux-Holds}
use subpass.Solaris.Descriptors.{device_fds, open_linked-Holds}
use subpass.Windows.Opening
use subpass.Windows.Settings.{is_empty_iff}
use subpass.NewTun.{
  Packages, Config, netbsd, openbsd, freebsd, dragonfly, darwin, linux, solaris, windows, Tun,
  netbsd_tun, openbsd_tun, freebsd_tun, dragonfly_tun, darwin_tun, linux_tun, solaris_tun,
  windows_tun, settled, is_zero, open_tun_device, new_tun,
}

-- The descriptors behind a device; one of Windows has none.
abbrev pub tun_descriptors : (ℕ → ℕ) → Tun → List ℕ
tun_descriptors fd_of (netbsd_tun t) = fds t.file
tun_descriptors fd_of (openbsd_tun t) = fds t.file
tun_descriptors fd_of (freebsd_tun t) = fds t.file
tun_descriptors fd_of (dragonfly_tun t) = fds t.file
tun_descriptors fd_of (darwin_tun t) = fds t.file
tun_descriptors fd_of (linux_tun t) = tun_fds fd_of t
tun_descriptors fd_of (solaris_tun t) = device_fds t
tun_descriptors fd_of (windows_tun t) = []

-- Every configuration but those for NetBSD, and one for OpenBSD only if it names the device.
abbrev pub IsSettled : Config → Type 0
IsSettled (netbsd c) = ⊥
IsSettled (openbsd c) = c.name ≢ []
IsSettled _ = Unit

tagged-Holds :
    {A B : Type 0} (m : M A) (tag : A → B) (f : A → List ℕ) (g : B → List ℕ)
    → ((x : A) → g (tag x) ≡ f x)
    → Holds [] m f []
    → Holds [] (m >>= λ x. pure (tag x)) g []
tagged-Holds {B} m tag f g same p =
    bind-Holds m (λ x. pure (tag x)) [] f g [] p
      (λ x. subst (λ a. Holds a (pure (tag x)) g []) (same x) (pure-Holds {A = B} g [] (tag x)))

settled-IsSettled : (config : Config) → IsSettled config → IsSettled (settled config)
settled-IsSettled (netbsd c) fine = absurd fine
settled-IsSettled (openbsd c) fine = rw ((is_empty_iff c.name).1 fine) fine
settled-IsSettled (freebsd c) fine = elim (Bool-cases (is_zero (freebsd c))) [
  | inl e ↦ rw e tt
  | inr e ↦ rw e tt
]
settled-IsSettled (dragonfly c) fine = elim (Bool-cases (is_zero (dragonfly c))) [
  | inl e ↦ rw e tt
  | inr e ↦ rw e tt
]
settled-IsSettled (darwin c) fine = elim (Bool-cases (is_zero (darwin c))) [
  | inl e ↦ rw e tt
  | inr e ↦ rw e tt
]
settled-IsSettled (linux c) fine = elim (Bool-cases (is_zero (linux c))) [
  | inl e ↦ rw e tt
  | inr e ↦ rw e tt
]
settled-IsSettled (solaris c) fine = elim (Bool-cases (is_zero (solaris c))) [
  | inl e ↦ rw e tt
  | inr e ↦ rw e tt
]
settled-IsSettled (windows c) fine = elim (Bool-cases (is_zero (windows c))) [
  | inl e ↦ rw e tt
  | inr e ↦ rw e tt
]

module _ (packages : Packages) (fd_of : ℕ → ℕ) (kernel : Kernel) where
  opened-Holds :
      (config : Config)
      → IsSettled config
      → TakesOver packages.virtio fd_of
      → Holds [] (open_tun_device packages kernel config) (tun_descriptors fd_of) []
  unfolding open_tun_device
  opened-Holds (netbsd c) fine takes = absurd fine
  opened-Holds (openbsd c) fine takes =
      tagged-Holds _ openbsd_tun (λ t. fds t.file) _ (λ t. refl)
        (open_named-Holds packages.rdev packages.minor kernel c fine)
  opened-Holds (freebsd c) fine takes =
      tagged-Holds _ freebsd_tun (λ t. fds t.file) _ (λ t. refl) (open_tun_device-Holds kernel c)
  opened-Holds (dragonfly c) fine takes =
      tagged-Holds _ dragonfly_tun (λ t. fds t.file) _ (λ t. refl) (opening-Holds kernel c)
  opened-Holds (darwin c) fine takes =
      tagged-Holds _ darwin_tun (λ t. fds t.file) _ (λ t. refl) (open_utun-Holds kernel c)
  opened-Holds (linux c) fine takes =
      tagged-Holds _ linux_tun (tun_fds fd_of) _ (λ t. refl)
        (open_linux-Holds packages.virtio fd_of packages.new_ifreq kernel c takes)
  opened-Holds (solaris c) fine takes =
      tagged-Holds _ solaris_tun device_fds _ (λ t. refl) (open_linked-Holds kernel c)
  opened-Holds (windows c) fine takes =
      tagged-Holds _ windows_tun (λ _. []) _ (λ t. refl) (Opening.open_tun_device-Holds kernel c)

  -- Whatever the kernel does, `NewTun` on FreeBSD, DragonFly BSD, Darwin, Linux, Solaris and Windows,
  -- and on OpenBSD if the configuration names the device, leaves exactly the descriptors of the
  -- device open when it returns one, and none when it returns an error; on Linux provided that
  -- `NewOffloads` leaves the file alone when it fails. It does not panic.
  pub new_tun-Holds :
      (config : Config)
      → IsSettled config
      → TakesOver packages.virtio fd_of
      → Holds [] (new_tun packages kernel config) (tun_descriptors fd_of) []
  unfolding new_tun
  new_tun-Holds config fine takes =
      opened-Holds (settled config) (settled-IsSettled config fine) takes
