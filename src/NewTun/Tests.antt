-- ===== src/NewTun/Tests.antt =====
-- `NewTun` over packages that hand their calls to the kernel.
use subpass.Base.{ℕ, ltb, ◌+◌, ◌*◌, ◌/◌, refl, true, false, none, some, [], ◌∷◌, codes, length}
use subpass.Go.Error.{eof}
use subpass.Go.File.{file_close}
use subpass.Go.Strconv.{atoi}
use subpass.Go.Kernel.{Kernel, History, Call, Family, Ioctl, fail, made}
use subpass.Go.Kernel.Inversion.{Returns}
use subpass.Go.Kernel.Held.{Holds, Balance, fail-Holds}
use subpass.Netbsd.Descriptors.{file_close-Holds}
use subpass.Darwin
use subpass.Darwin.{apple_utun_ctl}
use subpass.Darwin.Index.{get_utun_index}
use subpass.Offload.{Offloads}
use subpass.Offload.Descriptors.{TakesOver, GivesBack}
use subpass.NewTun.{
  Packages, Config, linux, darwin, Tun, darwin_tun, open_tun_device, new_tun, close,
}
use subpass.NewTun.Descriptors.{tun_descriptors, new_tun-Holds}
use subpass.NewTun.Closing.{new_tun-Restores}

abbrev willing : Kernel
willing h c = record { errno = none; value = 7; text = codes "utun7" }

-- `NewOffloads` fails, since the kernel has no offloads.
abbrev plain : Offloads
plain = record {
  new_offloads = λ f. fail eof;
  read = λ x len. fail eof;
  write = λ x b. fail eof;
  close = λ x. file_close willing (record { fd = x; name = [] });
}

abbrev packages : Packages
packages = record {
  rdev = record { major = λ d. d / 256; mkdev = λ a b. a * 256 + b };
  minor = λ d. d;
  new_ifreq = λ name. ltb (length name) 16;
  virtio = plain;
}

plain_takes : TakesOver plain (λ x. x)
plain_takes f = fail-Holds {A = ℕ} (λ x. x ∷ []) (f.fd ∷ []) eof

plain_gives : GivesBack plain (λ x. x)
plain_gives x = file_close-Holds willing (record { fd = x; name = [] }) []

abbrev on_linux : Config
on_linux = linux (record {
  name = codes "vpn0";
  permissions = none;
  persist = false;
  multi_queue = true;
  enable_offloads = true;
  use_vhost_net = false;
})

new_tun-Holds_example : Holds [] (new_tun packages willing on_linux) (tun_descriptors (λ x. x)) []
new_tun-Holds_example = new_tun-Holds packages (λ x. x) willing on_linux tt plain_takes

abbrev on_darwin : Config
on_darwin = darwin (record { name = codes "utun7" })

abbrev tun : Tun
tun = darwin_tun (record {
  file = some (record { fd = 7; name = codes "utun7" });
  closed = false;
  name = codes "utun7";
})

opened : History
opened = made willing (Call.set_nonblock 7) (
    made willing (Call.getsockopt 7) (
      made willing (Call.connect_ctl 7 7 8) (
        made willing (Call.ioctl 7 (Ioctl.ctliocginfo apple_utun_ctl))
          (made willing (Call.close_on_exec 7) (made willing (Call.socket Family.system) [])))))

returns : Returns (new_tun packages willing on_darwin) [] tun opened
unfolding new_tun open_tun_device Darwin.open_tun_device get_utun_index atoi opened
returns = refl

new_tun-Restores_example : Balance [] [] (close packages willing tun opened).1 []
new_tun-Restores_example =
    new_tun-Restores packages (λ x. x) willing on_darwin [] opened tt plain_takes plain_gives
      returns
