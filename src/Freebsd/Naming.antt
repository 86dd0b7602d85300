-- ===== src/Freebsd/Naming.antt =====
-- The name of the device that tun_freebsd.go makes: when it is refused, which one it gets, and which
-- one is destroyed when a later call fails.
use subpass.Base.{ℕ, ◌<◌, ◌≡◌, ◌≢◌, refl, ◌∙◌, ap, arith, Bool, true, false, some, none, [], ◌∷◌}
use subpass.Base.{Bytes, length, leb, ◌⊎◌, inl, inr}
use subpass.Go.Error.{Errno, errno, err_exist, new, wrap}
use subpass.Go.Result.{err}
use subpass.Go.Kernel.{Kernel, History, Call, Ioctl, made, sys, done, wrapping, wrapping_path}
use subpass.Go.Kernel.{Reply, pure}
use subpass.Base.{if◌then◌else◌, codes, ◌++◌}
use subpass.Go.Kernel.Inversion.{Returns}
use subpass.Go.Kernel.Gives.{
  Gives, IsReply, Gives-Returns, pure-Gives, bind-Gives, then-Gives, mapping-Gives, on_error-Gives,
  on_error_if-Gives, sys-Gives, fail_if-Gives, weaken-Gives,
}
use subpass.Bsd.{TunDevice}
use subpass.Netbsd.{destroy}
use subpass.Netbsd.Index.{ifnamsiz}
use subpass.Freebsd.{
  tun_module_char_path, set_tun_transient, set_tun_if_head_mode, set_tun_broadcast_mode,
  become_tun_pid, Config, refuse_existing, set_tun_name, rename, configure, finish, set_up,
  create_tun_device, open_tun_device,
}

-- A name that was asked for is the device's; without one it is the name that the kernel gave to the
-- descriptor.
abbrev pub IsNamed : Kernel → Bytes → TunDevice → Type 0
IsNamed kernel asked tun =
    (fd : ℕ) × (tun.file ≡ some (record { fd = fd; name = tun.name }))
    × (((asked ≢ []) × (tun.name ≡ asked))
        ⊎ ((asked ≡ [])
            × ((h : History) × (tun.name ≡ (kernel h (Call.ioctl fd Ioctl.tungifname)).text))))

-- The name asked for, or else the old one.
abbrev pub Renamed : Bytes → Bytes → Bytes → Type 0
Renamed old asked name = ((asked ≢ []) × (name ≡ asked)) ⊎ ((asked ≡ []) × (name ≡ old))

module _ (kernel : Kernel) where
  rename-Gives : (old asked : Bytes) → Gives (rename kernel old asked) (Renamed old asked)
  unfolding rename
  rename-Gives old [] = pure-Gives {A = Bytes} (Renamed old []) old (inr (refl, refl))
  rename-Gives old (c ∷ asked) =
      then-Gives {B = Bytes}
        (wrapping_path "rename" (old ++ codes " to " ++ (c ∷ asked))
          (set_tun_name kernel old (c ∷ asked)))
        _ (Renamed old (c ∷ asked))
        (λ _. pure-Gives {A = Bytes} (Renamed old (c ∷ asked)) (c ∷ asked) (inl ((λ q. cc), refl)))

  configure-Gives :
      (ptp : Bool) (fd : ℕ) (old asked : Bytes)
      → Gives (configure kernel ptp fd old asked) (Renamed old asked)
  unfolding configure
  configure-Gives ptp fd old asked =
      then-Gives (wrapping "set ifhead mode" (set_tun_if_head_mode kernel fd)) _ (Renamed old asked)
        (λ _.
          then-Gives
            (if ptp
              then pure tt
              else wrapping "set broadcast mode" (set_tun_broadcast_mode kernel fd))
            _ (Renamed old asked)
            (λ _.
              then-Gives (wrapping "set controlling tunnel process" (become_tun_pid kernel fd)) _
                (Renamed old asked) (λ _. rename-Gives old asked)))

  abbrev device : ℕ → Bytes → TunDevice
  device fd name = record {
    file = some (record { fd = fd; name = name });
    closed = false;
    name = name;
  }

  abbrev IsFinished : ℕ → Bytes → TunDevice → Type 0
  IsFinished fd name tun = (tun.file ≡ some (record { fd = fd; name = name })) × (tun.name ≡ name)

  finish-Gives : (fd : ℕ) (name : Bytes) → Gives (finish kernel fd name) (IsFinished fd name)
  unfolding finish
  finish-Gives fd name =
      then-Gives (wrapping "set nonblock" (done kernel (Call.set_nonblock fd))) _
        (IsFinished fd name)
        (λ _. pure-Gives {A = TunDevice} (IsFinished fd name) (device fd name) (refl, refl))

  set_up-Gives :
      (config : Config) (fd : ℕ) → Gives (set_up kernel config fd) (IsNamed kernel config.name)
  unfolding set_up
  set_up-Gives config fd =
      let Q = IsNamed kernel config.name in
      bind-Gives _ _ (IsReply kernel (Call.ioctl fd Ioctl.tungifname)) Q
        (mapping-Gives (wrap "get tunnel name") (sys kernel (Call.ioctl fd Ioctl.tungifname)) _
          (sys-Gives kernel (Call.ioctl fd Ioctl.tungifname)))
        (λ r (good, (h, same)).
          then-Gives
            (if config.persist
              then pure tt
              else wrapping "set transient mode" (set_tun_transient kernel fd))
            _ Q
            (λ _.
              bind-Gives _ _ (Renamed r.text config.name) Q
                (on_error_if-Gives config.persist (destroy kernel r.text) _
                  (Renamed r.text config.name)
                  (configure-Gives config.ptp_mode fd r.text config.name))
                (λ name renamed.
                  on_error_if-Gives config.persist (destroy kernel name) _ Q
                    (named r name h same renamed))))
    where
      named :
          (r : Reply) (name : Bytes) (h : History)
          → r ≡ kernel h (Call.ioctl fd Ioctl.tungifname)
          → Renamed r.text config.name name
          → Gives (finish kernel fd name) (IsNamed kernel config.name)
      named r name h same renamed =
          weaken-Gives _ (IsFinished fd name) (IsNamed kernel config.name) (finish-Gives fd name)
            (λ tun (file, own). (
              fd,
              rw own file,
              elim renamed [
                | inl (given, q) ↦ inl (given, own ∙ q)
                | inr (blank, q) ↦ inr (blank, (h, own ∙ q ∙ ap (λ (x : Reply). x.text) same))
              ],
            ))

  create_tun_device-Gives :
      (config : Config)
      → Gives
          (open_tun_device kernel config)
          (λ tun. (length config.name < ifnamsiz) × IsNamed kernel config.name tun)
  unfolding open_tun_device create_tun_device
  create_tun_device-Gives config =
      let Q : TunDevice → Type 0 =
        λ tun. (length config.name < ifnamsiz) × IsNamed kernel config.name tun in
      mapping-Gives (wrap "open device") _ Q (
        bind-Gives _ _ (λ _. leb ifnamsiz (length config.name) ≡ false) Q
          (fail_if-Gives (leb ifnamsiz (length config.name)) (new "interface name too long"))
          (λ _ short. then-Gives (refuse_existing kernel config.name) _ Q (λ _.
            then-Gives
              (wrapping_path "open" tun_module_char_path
                (sys kernel (Call.open_file tun_module_char_path)))
              _ Q
              (λ r. on_error-Gives (sys kernel (Call.close r.value)) _ Q (
                weaken-Gives _ (IsNamed kernel config.name) Q (set_up-Gives config r.value)
                  (λ tun q. (ground arith, q)))))))

  -- A device that is returned bears the name that was asked for, which is shorter than IFNAMSIZ, or
  -- the one that the kernel gave to its descriptor, if none was; its file bears the same name.
  pub open_tun_device-IsNamed :
      (config : Config) (h : History) {tun : TunDevice} {h' : History}
      → Returns (open_tun_device kernel config) h tun h'
      → (length config.name < ifnamsiz) × IsNamed kernel config.name tun
  open_tun_device-IsNamed config h e =
      Gives-Returns (open_tun_device kernel config) _ h (create_tun_device-Gives config) e

  -- A name that fits and is not empty is looked up, and if the kernel has an interface of that name
  -- the result is ErrExist, no other call being made.
  open_tun_device_refuses :
      (config : Config) (c : ℕ) (rest : Bytes) (h : History)
      → config.name ≡ c ∷ rest
      → length config.name < ifnamsiz
      → (kernel h (Call.interface_by_name config.name)).errno ≡ none
      → open_tun_device kernel config h ≡ (
        err (wrap "open device" (wrap "create tunnel" err_exist)),
        made kernel (Call.interface_by_name config.name) h,
      )
  unfolding open_tun_device create_tun_device refuse_existing
  open_tun_device_refuses config c rest h named = rw named (λ short found. ground arith)

  -- When a persistent interface was given its name and the descriptor then cannot be made
  -- nonblocking, the interface is destroyed under the name it has by then: the one asked for, or
  -- the kernel's if none was.
  pub set_up_destroys :
      (config : Config) (fd : ℕ) (h h1 h2 : History) {r : Reply} {name : Bytes} {x : Errno}
      → config.persist ≡ true
      → Returns (wrapping "get tunnel name" (sys kernel (Call.ioctl fd Ioctl.tungifname))) h r h1
      → Returns (configure kernel config.ptp_mode fd r.text config.name) h1 name h2
      → (kernel h2 (Call.set_nonblock fd)).errno ≡ some x
      → (set_up kernel config fd h ≡ (
        err (wrap "set nonblock" (errno x)),
        (destroy kernel name (made kernel (Call.set_nonblock fd) h2)).1,
      ))
        × Renamed r.text config.name name
  unfolding set_up finish
  set_up_destroys config fd h h1 h2 persists asks named fails = (
    rw (asks, persists) (rw named (rw fails refl)),
    Gives-Returns (configure kernel config.ptp_mode fd _ config.name) _ h1
        (configure-Gives config.ptp_mode fd _ config.name) named,
  )
