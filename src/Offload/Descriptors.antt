-- ===== src/Offload/Descriptors.antt =====
-- Which descriptors `openTunDevice` of tun_linux.go leaves open, and a closed device with offloads.
use subpass.Base.{Bool-cases, inl, inr, ℕ, ◌≡◌, arith, Bool, true, false, List, [], ◌∷◌, Bytes}
use subpass.Go.Error.{err_closed, wrap}
use subpass.Go.Result.{err}
use subpass.Go.Kernel.{Kernel, History, M, File, wrapping}
use subpass.Go.Kernel.Held.{
  Balance, Holds-all, Holds, bind-Holds, pure-Holds, mapping-Holds, on_error-Holds,
}
use subpass.Bsd.{TunDevice}
use subpass.Netbsd.Descriptors.{fds, file_close-Holds}
use subpass.Linux.{Config}
use subpass.Linux.Descriptors.{destroy-Holds, create_tun_with_flags-Holds, open_generic_tun-Holds}
use subpass.Offload.{
  destroy_device, Offloads, TunDeviceOffload, Tun, generic, offloaded, open_as, open_offloaded_tun,
  open_tun_device, read, write, close,
}

-- `NewOffloads` takes the file over when it succeeds, and leaves it alone when it fails; `fd_of` is
-- the descriptor behind what it returned.
abbrev pub TakesOver : Offloads → (ℕ → ℕ) → Type 0
TakesOver virtio fd_of =
    (f : File) → Holds (f.fd ∷ []) (virtio.new_offloads f) (λ x. fd_of x ∷ []) (f.fd ∷ [])

-- `Close` of the package gives the descriptor back.
abbrev pub GivesBack : Offloads → (ℕ → ℕ) → Type 0
GivesBack virtio fd_of = (x : ℕ) → Holds (fd_of x ∷ []) (virtio.close x) (λ _. []) []

-- The descriptors of a device.
abbrev pub tun_fds : (ℕ → ℕ) → Tun → List ℕ
tun_fds fd_of (generic t) = fds t.file
tun_fds fd_of (offloaded t) = fd_of t.offloads ∷ []

module _ (virtio : Offloads) (fd_of : ℕ → ℕ) (new_ifreq : Bytes → Bool) (kernel : Kernel)
    (config : Config) where
  open_offloaded_tun-Holds :
      TakesOver virtio fd_of
      → Holds [] (open_offloaded_tun virtio new_ifreq kernel config) (λ t. fd_of t.offloads ∷ []) []
  unfolding open_offloaded_tun
  open_offloaded_tun-Holds takes =
      bind-Holds _ _ [] (λ f. f.fd ∷ []) (λ t. fd_of t.offloads ∷ []) []
        (mapping-Holds _ _ [] (λ f. f.fd ∷ []) []
          (create_tun_with_flags-Holds kernel new_ifreq config true))
        (λ f.
          on_error-Holds _ _ (f.fd ∷ []) (f.fd ∷ []) (λ t. fd_of t.offloads ∷ []) []
            (bind-Holds _ _ (f.fd ∷ []) (λ x. fd_of x ∷ []) (λ t. fd_of t.offloads ∷ []) (f.fd ∷ [])
              (mapping-Holds _ _ (f.fd ∷ []) (λ x. fd_of x ∷ []) (f.fd ∷ []) (takes f))
              (λ x.
                pure-Holds {A = TunDeviceOffload} (λ t. fd_of t.offloads ∷ []) (f.fd ∷ [])
                  (record { offloads = x; closed = false; name = f.name })))
            (file_close-Holds kernel f []))

  destroy_device-Holds :
      (tun : TunDeviceOffload) (a : List ℕ) → Holds a (destroy_device kernel tun) (λ _. a) a
  unfolding destroy_device
  destroy_device-Holds tun a = mapping-Holds _ _ a (λ _. a) a (destroy-Holds kernel tun.name a)

  open_as-Holds :
      (vhost offloads : Bool) (plain : M TunDevice) (virtual : M TunDeviceOffload)
      → Holds [] plain (λ t. fds t.file) []
      → Holds [] virtual (λ t. fd_of t.offloads ∷ []) []
      → Holds [] (open_as vhost offloads plain virtual) (tun_fds fd_of) []
  open_as-Holds true offloads plain virtual p q =
      bind-Holds _ _ [] (λ t. fds t.file) (tun_fds fd_of) [] p
        (λ t. pure-Holds {A = Tun} (tun_fds fd_of) [] (generic t))
  open_as-Holds false true plain virtual p q =
      bind-Holds _ _ [] (λ t. fd_of t.offloads ∷ []) (tun_fds fd_of) [] q
        (λ t. pure-Holds {A = Tun} (tun_fds fd_of) [] (offloaded t))
  open_as-Holds false false plain virtual p q =
      bind-Holds _ _ [] (λ t. fds t.file) (tun_fds fd_of) [] p
        (λ t. pure-Holds {A = Tun} (tun_fds fd_of) [] (generic t))

  -- Whatever the kernel does, and whichever device the configuration asks for, `openTunDevice` of
  -- Linux leaves exactly the descriptor behind the device open when it returns one, and none when
  -- it returns an error, provided that `NewOffloads` leaves the file alone when it fails.
  pub open_linux-Holds :
      TakesOver virtio fd_of
      → Holds [] (open_tun_device virtio new_ifreq kernel config) (tun_fds fd_of) []
  unfolding open_tun_device
  open_linux-Holds takes =
      open_as-Holds config.use_vhost_net config.enable_offloads _ _
        (open_generic_tun-Holds kernel new_ifreq config) (open_offloaded_tun-Holds takes)

module _ (virtio : Offloads) (tun : TunDeviceOffload) where
  close_shuts : (h : History) → (close virtio tun h).0.closed ≡ true
  unfolding close
  close_shuts h = elim (Bool-cases tun.closed) [ inl e ↦ ground arith | inr e ↦ ground arith ]

  shut_refuses :
      (h : History) (len : ℕ) (b : Bytes)
      → tun.closed ≡ true
      → (read virtio tun len h ≡ (err (wrap "read" err_closed), h))
        × (write virtio tun b h ≡ (err (wrap "write" err_closed), h))
        × (close virtio tun h ≡ (tun, err (wrap "close" err_closed), h))
  unfolding read write close
  shut_refuses h len b e = (ground arith, ground arith, ground arith)

-- Once `Close` of a device with offloads was called, whatever it returned, a read, a write and a
-- further close of the device return os.ErrClosed and reach neither the package nor the kernel.
pub offload_closed :
    (virtio : Offloads) (tun : TunDeviceOffload) (h h' : History) (len : ℕ) (b : Bytes)
    → let shut = (close virtio tun h).0 in
      (read virtio shut len h' ≡ (err (wrap "read" err_closed), h'))
      × (write virtio shut b h' ≡ (err (wrap "write" err_closed), h'))
      × (close virtio shut h' ≡ (shut, err (wrap "close" err_closed), h'))
offload_closed virtio tun h h' len b =
    shut_refuses virtio (close virtio tun h).0 h' len b (close_shuts virtio tun h)

pub close-Balance :
    (virtio : Offloads) (fd_of : ℕ → ℕ) (tun : TunDeviceOffload) (h : History)
    → GivesBack virtio fd_of
    → tun.closed ≡ false
    → Balance h (fd_of tun.offloads ∷ []) (close virtio tun h).2 []
unfolding close
close-Balance virtio fd_of tun h gives is_open = rw is_open (
    Holds-all (wrapping "close" (virtio.close tun.offloads)) (fd_of tun.offloads ∷ []) [] h
      (mapping-Holds _ _ (fd_of tun.offloads ∷ []) (λ _. []) [] (gives tun.offloads)))
