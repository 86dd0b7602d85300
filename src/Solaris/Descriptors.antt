-- ===== src/Solaris/Descriptors.antt =====
-- Which descriptors the code of tun_solaris.go leaves open.
use subpass.Base.{ℕ, ◌≡◌, refl, false, Option, none, some, List, [], ◌∷◌, ◌++◌, Bytes}
use subpass.Base.Int.{ℤ}
use subpass.Go.Error.{new}
use subpass.Go.Kernel.{Kernel, History, File}
use subpass.Go.Kernel.Held.{
  count-append, Balance, Balance-trans, Holds, Holds-all, bind-Holds, then-Holds, pure-Holds,
  sys-Holds, open_file-Holds, close-Holds, mapping-Holds, wrapped-Holds, on_error-Holds,
  on_error_if-Holds, finally-Holds, lift-Holds, fail_if-Holds, before-Holds, Same-snoc,
}
use subpass.Go.File.{file_close}
use subpass.Netbsd.{tun_name}
use subpass.Netbsd.Descriptors.{fds, file_close-Holds}
use subpass.Base.{arith, true}
use subpass.Go.Error.{err_closed, wrap}
use subpass.Go.Result.{err}
use subpass.Packet.{Tcpip}
use subpass.Solaris.{write}
use subpass.Solaris.Reader.{TunDevice, read}
use subpass.Solaris.Index.{get_tun_index, get_tun_index-ne-panic}
use subpass.Solaris.{
  destroy_device, Config, tun_module_char_path, destroy, is_other, tun_new_ppa, finish, link_up,
  set_up, create_tun_device, open_tun_device, close_one, close,
}

-- The descriptors of a device.
abbrev pub device_fds : TunDevice → List ℕ
device_fds tun = fds tun.link_file ++ fds tun.data_file

module _ (kernel : Kernel) where
  destroy-Holds : (name : Bytes) (a : List ℕ) → Holds a (destroy kernel name) (λ _. a) a
  unfolding destroy
  destroy-Holds name a =
      bind-Holds _ _ a (λ r. r.value ∷ a) (λ _. a) a
        (mapping-Holds _ _ a (λ r. r.value ∷ a) a (open_file-Holds kernel _ a))
        (λ ip.
          let b = ip.value ∷ a in
          finally-Holds _ _ b b (λ _. b) (λ _. a) a
            (then-Holds _ _ b (λ _. b) b
              (mapping-Holds _ _ b (λ _. b) b (sys-Holds kernel _ b refl))
              (λ r. wrapped-Holds _ kernel _ b refl))
            (λ _. close-Holds kernel ip.value a) (close-Holds kernel ip.value a))

  destroy_device-Holds :
      (tun : TunDevice) (a : List ℕ) → Holds a (destroy_device kernel tun) (λ _. a) a
  unfolding destroy_device
  destroy_device-Holds tun a = mapping-Holds _ _ a (λ _. a) a (destroy-Holds tun.name a)

  tun_new_ppa-Holds :
      (fd : ℕ) (ppa : ℤ) (a : List ℕ) → Holds a (tun_new_ppa kernel fd ppa) (λ _. a) a
  unfolding tun_new_ppa
  tun_new_ppa-Holds fd ppa a =
      then-Holds {B = ℕ} _ _ a (λ _. a) a
        (mapping-Holds _ _ a (λ _. a) a (sys-Holds kernel _ a refl))
        (λ r.
          then-Holds {B = ℕ} _ _ a (λ _. a) a
            (fail_if-Holds (is_other ppa r.value) (new "ppa mismatch") a)
            (λ _. pure-Holds {A = ℕ} (λ _. a) a r.value))

  finish-Holds :
      (data_fd link_fd ip_fd : ℕ) (name : Bytes)
      → Holds
          (link_fd ∷ data_fd ∷ ip_fd ∷ [])
          (finish kernel data_fd link_fd name)
          (λ t. device_fds t ++ (ip_fd ∷ []))
          (link_fd ∷ data_fd ∷ ip_fd ∷ [])
  unfolding finish
  finish-Holds data_fd link_fd ip_fd name =
      let a = link_fd ∷ data_fd ∷ ip_fd ∷ [] in
      then-Holds _ _ a (λ t. device_fds t ++ (ip_fd ∷ [])) a (wrapped-Holds _ kernel _ a refl)
        (λ _.
          pure-Holds {A = TunDevice} (λ t. device_fds t ++ (ip_fd ∷ [])) a
            (record {
              name = name;
              data_file = some (record { fd = data_fd; name = name });
              link_file = some (record { fd = link_fd; name = tun_module_char_path });
              buff = [];
              start = 0;
              count = 0;
              closed = false;
            }))

  link_up-Holds :
      (config : Config) (ip_fd data_fd link_fd skppa : ℕ)
      → Holds
          (link_fd ∷ data_fd ∷ ip_fd ∷ [])
          (link_up kernel config ip_fd data_fd link_fd skppa)
          (λ t. device_fds t ++ (ip_fd ∷ []))
          (link_fd ∷ data_fd ∷ ip_fd ∷ [])
  unfolding link_up
  link_up-Holds config ip_fd data_fd link_fd skppa =
      let a = link_fd ∷ data_fd ∷ ip_fd ∷ [] in
      let f : TunDevice → List ℕ = λ t. device_fds t ++ (ip_fd ∷ []) in
      then-Holds _ _ a f a (wrapped-Holds _ kernel _ a refl) (λ _.
        then-Holds _ _ a f a (wrapped-Holds _ kernel _ a refl) (λ _.
          then-Holds _ _ a f a (mapping-Holds _ _ a (λ _. a) a (sys-Holds kernel _ a refl)) (λ mux.
            then-Holds _ _ a f a (wrapped-Holds _ kernel _ a refl) (λ _.
              on_error_if-Holds config.persist _ _ a f
                (finish-Holds data_fd link_fd ip_fd (tun_name skppa))
                (destroy-Holds (tun_name skppa) a)))))

  set_up-Holds :
      (config : Config) (ppa : ℤ) (ip_fd data_fd : ℕ)
      → Holds
          (data_fd ∷ ip_fd ∷ [])
          (set_up kernel config ppa ip_fd data_fd)
          (λ t. device_fds t ++ (ip_fd ∷ []))
          (data_fd ∷ ip_fd ∷ [])
  unfolding set_up
  set_up-Holds config ppa ip_fd data_fd =
      let a = data_fd ∷ ip_fd ∷ [] in
      let f : TunDevice → List ℕ = λ t. device_fds t ++ (ip_fd ∷ []) in
      then-Holds _ _ a f a (mapping-Holds _ _ a (λ _. a) a (tun_new_ppa-Holds data_fd ppa a))
        (λ skppa.
          bind-Holds _ _ a (λ r. r.value ∷ a) f a
            (mapping-Holds _ _ a (λ r. r.value ∷ a) a (open_file-Holds kernel _ a))
            (λ link.
              on_error-Holds _ _ (link.value ∷ a) (link.value ∷ a) f a
                (link_up-Holds config ip_fd data_fd link.value skppa)
                (close-Holds kernel link.value a)))

  -- Whatever the kernel does, `openTunDevice` of Solaris leaves exactly the descriptors of the
  -- device's two files open when it returns a device, and none when it returns an error; that of
  -- /dev/ip is closed in both cases.
  pub open_linked-Holds : (config : Config) → Holds [] (open_tun_device kernel config) device_fds []
  unfolding open_tun_device create_tun_device
  open_linked-Holds config = mapping-Holds _ _ [] device_fds [] (
      lift-Holds (get_tun_index config.name) _ [] device_fds (get_tun_index-ne-panic config.name)
        (λ ppa e.
          bind-Holds _ _ [] (λ r. r.value ∷ []) device_fds []
            (mapping-Holds _ _ [] (λ r. r.value ∷ []) [] (open_file-Holds kernel _ []))
            (λ ip.
              let b = ip.value ∷ [] in
              let f : TunDevice → List ℕ = λ t. device_fds t ++ b in
              finally-Holds _ _ b b f device_fds []
                (bind-Holds _ _ b (λ r. r.value ∷ b) f b
                  (mapping-Holds _ _ b (λ r. r.value ∷ b) b (open_file-Holds kernel _ b))
                  (λ data_file.
                    on_error-Holds _ _ (data_file.value ∷ b) (data_file.value ∷ b) f b
                      (set_up-Holds config ppa ip.value data_file.value)
                      (close-Holds kernel data_file.value b)))
                (λ t.
                  before-Holds _ (ip.value ∷ device_fds t) (f t) (λ _. device_fds t) (device_fds t)
                    (Same-snoc (device_fds t) ip.value)
                    (close-Holds kernel ip.value (device_fds t)))
                (close-Holds kernel ip.value []))))

  close_one-Holds :
      (f : Option File) (a : List ℕ) → Holds (fds f ++ a) (close_one kernel f) (λ _. a) a
  close_one-Holds none a = pure-Holds (λ _. a) a tt
  close_one-Holds (some f) a = file_close-Holds kernel f a

  -- `Close` of an open device of Solaris gives back the descriptors of both files, also when the
  -- close of the first one fails.
  pub close-Balance :
      (tun : TunDevice) (h : History)
      → tun.closed ≡ false
      → Balance h (fds tun.data_file ++ fds tun.link_file) (close kernel tun h).2 []
  unfolding close
  close-Balance tun h is_open =
      let h1 = (close_one kernel tun.data_file h).1 in
      rw is_open (
        Balance-trans h h1 (close_one kernel tun.link_file h1).1
          (fds tun.data_file ++ fds tun.link_file) (fds tun.link_file) []
          (Holds-all (close_one kernel tun.data_file) (fds tun.data_file ++ fds tun.link_file)
            (fds tun.link_file) h (close_one-Holds tun.data_file (fds tun.link_file)))
          (second tun.link_file h1))
    where
      second : (f : Option File) (h1 : History) → Balance h1 (fds f) (close_one kernel f h1).1 []
      second none h1 = λ fd. refl
      second (some f) h1 =
          Holds-all (file_close kernel f) (f.fd ∷ []) [] h1 (file_close-Holds kernel f [])

-- `Read`, `Write` and `Close` of a closed device return os.ErrClosed, make no call and leave the
-- device as it is.
closed_refuses :
    (tcpip : Tcpip) (kernel : Kernel) (tun : TunDevice) (b : Bytes) (len : ℕ) (h : History)
    → tun.closed ≡ true
    → (read tcpip kernel tun len h ≡ (tun, err (wrap "read" err_closed), h))
      × (write tcpip kernel tun b h ≡ (err (wrap "write" err_closed), h))
      × (close kernel tun h ≡ (tun, err (wrap "close" err_closed), h))
unfolding read write close
closed_refuses tcpip kernel tun b len h shut = (ground arith, ground arith, ground arith)

-- The same for the device's descriptors as `device_fds` lists them.
pub close_all-Balance :
    (kernel : Kernel) (tun : TunDevice) (h : History)
    → tun.closed ≡ false
    → Balance h (device_fds tun) (close kernel tun h).2 []
close_all-Balance kernel tun h is_open fd = omega (
  arith,
  close-Balance kernel tun h is_open fd,
  count-append fd (fds tun.data_file) (fds tun.link_file),
  count-append fd (fds tun.link_file) (fds tun.data_file),
)
