-- ===== src/Vhost/Closing.antt =====
-- Which descriptors `openVHostNetTun` and `Close` of _vhost_linux.go leave open.
use subpass.Base.{ℕ, ◌≡◌, refl, arith, false, List, [], ◌∷◌}
use subpass.Go.Error.{Error}
use subpass.Go.Result.{Result, ok, err, panic}
use subpass.Go.Kernel.{Kernel, History, M, File}
use subpass.Go.Kernel.Held.{
  Balance, Balance-trans, Ends, Ends-after, Holds, Holds-all, bind-Holds, then-Holds, pure-Holds,
  mapping-Holds, on_error-Holds,
}
use subpass.Go.Kernel.Inversion.{Returns}
use subpass.Netbsd.Descriptors.{file_close-Holds}
use subpass.Linux.{Config}
use subpass.Vhost.{
  Vhost, TunDeviceVhost, create_tun_vhost_net, open_vhost_net_tun, kept, both_from, both, close,
}

-- What the code would rely on, if createGenericTun and setTunNetHdrSize were declared: a function that returns an error has given back what it acquired;
-- `NewDevice` leaves the file with its caller, and `Close` of the package gives back what it
-- acquired, which is `fds_of`.
pub record IsTidy (vhost : Vhost) (fds_of : ℕ → List ℕ) : Type 0 where
  pub creates : (c : Config) → Holds [] (vhost.create_generic_tun c) (λ f. f.fd ∷ []) []
  pub sizes :
      (f : File) → Holds (f.fd ∷ []) (vhost.set_tun_net_hdr_size f) (λ _. f.fd ∷ []) (f.fd ∷ [])
  pub attaches :
      (f : File) (n : ℕ)
      → Holds (f.fd ∷ []) (vhost.new_device f n) (λ d. f.fd ∷ fds_of d) (f.fd ∷ [])
  pub detaches : (d : ℕ) → Holds (fds_of d) (vhost.close d) (λ _. []) []

both-Holds :
    (m n : M (Unit {0})) (a b g : List ℕ)
    → Holds a m (λ _. b) b
    → Holds b n (λ _. g) g
    → Holds a (both m n) (λ _. g) g
both-Holds m n a b g p q h = by_result (m h) (p h)
  where
    kept-Ends :
        (e : Error) (h' : History) (r : Result (Unit {0}) × History)
        → Ends h' b (λ _. g) g r
        → Ends h' b (λ _. g) g (kept e r)
    kept-Ends e h' (ok x, h'') u = u
    kept-Ends e h' (err x, h'') u = u
    kept-Ends e h' (panic, h'') u = u

    by_result :
        (r : Result (Unit {0}) × History)
        → Ends h a (λ _. b) b r
        → Ends h a (λ _. g) g (both_from n r)
    by_result (ok x, h') u = Ends-after h h' a b (λ _. g) g (n h') u (q h')
    by_result (err e, h') u =
        Ends-after h h' a b (λ _. g) g (kept e (n h')) u (kept-Ends e h' (n h') (q h'))
    by_result (panic, h') u = u

module _ (vhost : Vhost) (fds_of : ℕ → List ℕ) (kernel : Kernel) where
  -- The descriptors of a device.
  abbrev held : TunDeviceVhost → List ℕ
  held tun = tun.file.fd ∷ fds_of tun.vhost_device

  open_vhost_net_tun-Holds :
      (config : Config)
      → IsTidy vhost fds_of
      → Holds [] (open_vhost_net_tun vhost kernel config) held []
  unfolding open_vhost_net_tun create_tun_vhost_net
  open_vhost_net_tun-Holds config tidy =
      bind-Holds _ _ [] (λ f. f.fd ∷ []) held []
        (mapping-Holds _ _ [] (λ f. f.fd ∷ []) [] (tidy.creates config))
        (λ f.
          on_error-Holds _ _ (f.fd ∷ []) (f.fd ∷ []) held []
            (mapping-Holds _ _ (f.fd ∷ []) held (f.fd ∷ []) (
              then-Holds _ _ (f.fd ∷ []) held (f.fd ∷ [])
                (mapping-Holds _ _ (f.fd ∷ []) (λ _. f.fd ∷ []) (f.fd ∷ []) (tidy.sizes f))
                (λ _.
                  bind-Holds _ _ (f.fd ∷ []) (λ d. f.fd ∷ fds_of d) held (f.fd ∷ [])
                    (tidy.attaches f (vhost.vring_size config))
                    (λ d.
                      pure-Holds held (f.fd ∷ [])
                        (record { file = f; vhost_device = d; closed = false; name = f.name })))))
            (file_close-Holds kernel f []))

  close-Balance :
      (tun : TunDeviceVhost) (h : History)
      → IsTidy vhost fds_of
      → tun.closed ≡ false
      → Balance h (held tun) (close vhost kernel tun h).2 []
  unfolding close
  close-Balance tun h tidy is_open = rw is_open (
      Holds-all _ (held tun) [] h (
        mapping-Holds _ _ (held tun) (λ _. []) []
          (both-Holds _ _ (held tun) (fds_of tun.vhost_device) []
            (file_close-Holds kernel tun.file (fds_of tun.vhost_device))
            (tidy.detaches tun.vhost_device))))

  open_vhost_net_tun-closed :
      (config : Config) (h h' : History) {tun : TunDeviceVhost}
      → Returns (open_vhost_net_tun vhost kernel config) h tun h'
      → tun.closed ≡ false
  unfolding open_vhost_net_tun create_tun_vhost_net
  open_vhost_net_tun-closed config h h' e = ground arith

  -- After `Close` of a device that was returned, and after an error, the descriptors are those of
  -- before.
  abbrev pub Restores : History → Result TunDeviceVhost × History → Type 0
  Restores h (ok tun, h') = Balance h [] (close vhost kernel tun h').2 []
  Restores h (err e, h') = Balance h [] h' []
  Restores h (panic, h') = ⊥

  Ends-Restores :
      (h : History) (r : Result TunDeviceVhost × History)
      → IsTidy vhost fds_of
      → ((tun : TunDeviceVhost) (h' : History) → r ≡ (ok tun, h') → tun.closed ≡ false)
      → Ends h [] held [] r
      → Restores h r
  Ends-Restores h (ok tun, h') tidy is_open held_then =
      Balance-trans h h' (close vhost kernel tun h').2 [] (held tun) [] held_then
        (close-Balance tun h' tidy (is_open tun h' refl))
  Ends-Restores h (err e, h') tidy is_open held_then = held_then
  Ends-Restores h (panic, h') tidy is_open held_then = held_then

  -- When what the code calls gives back what it acquired, as `IsTidy` says, and `openVHostNetTun`
  -- returns an error, it leaves no descriptor open that was not open before; when it returns a
  -- device, none is left after `Close`, also if the close of the file or of the vhost device fails.
  pub open_vhost_net_tun-Restores :
      (config : Config) (h : History)
      → IsTidy vhost fds_of
      → Restores h (open_vhost_net_tun vhost kernel config h)
  open_vhost_net_tun-Restores config h tidy =
      Ends-Restores h (open_vhost_net_tun vhost kernel config h) tidy
        (λ tun h' e. open_vhost_net_tun-closed config h h' e)
        (open_vhost_net_tun-Holds config tidy h)
