-- ===== src/Bsd/Close/Descriptors.antt =====
-- What `Close` gives back.
use subpass.Base.{◌≡◌, refl, false, Option, none, some, [], ◌∷◌}
use subpass.Go.Kernel.{Kernel, History, File, wrapping}
use subpass.Go.Kernel.Held.{Balance, Holds-all, mapping-Holds}
use subpass.Go.File.{file_close}
use subpass.Bsd.{TunDevice}
use subpass.Bsd.Close.{close, close_file}
use subpass.Netbsd.Descriptors.{fds, file_close-Holds}

pub close-Balance :
    (kernel : Kernel) (tun : TunDevice) (h : History)
    → tun.closed ≡ false
    → Balance h (fds tun.file) (close kernel tun h).2 []
unfolding close
close-Balance kernel tun h is_open = rw is_open (by_file tun.file)
  where
    by_file : (f : Option File) → Balance h (fds f) (close_file kernel f h).1 []
    by_file none = λ fd. refl
    by_file (some f) =
        Holds-all (wrapping "close" (file_close kernel f)) (f.fd ∷ []) [] h
          (mapping-Holds _ _ (f.fd ∷ []) (λ _. []) [] (file_close-Holds kernel f []))
