-- ===== src/Netbsd/Tests.antt =====
-- The theorems on tun_netbsd.go at concrete names and kernels.
use subpass.Base.{ℕ, ◌+◌, ◌*◌, ◌/◌, ◌%◌, ◌≡◌, ◌↔◌, refl, false, none, some, [], codes}
use subpass.Base.Int.{pos, negsuc}
use subpass.Go.Error.{errno, other}
use subpass.Go.Result.{ok}
use subpass.Go.Strconv.{atoi}
use subpass.Go.Kernel.{Kernel, Call, Ioctl}
use subpass.Mknod.{Rdev}
use subpass.Netbsd.{Config}
use subpass.Netbsd.Index.{Denotes, get_tun_index, get_tun_index_iff}

get_tun_index_iff_example :
    (get_tun_index (codes "tun42") ≡ ok (pos 42)) ↔ Denotes (codes "tun42") (pos 42)
get_tun_index_iff_example = get_tun_index_iff (codes "tun42") (pos 42)

names :
    (get_tun_index [] ≡ ok (negsuc 0))
    × (get_tun_index (codes "tun007") ≡ ok (pos 7))
    × (get_tun_index (codes "tun-0") ≡ ok (pos 0))
unfolding get_tun_index atoi
names = (refl, refl, refl)

abbrev rdev : Rdev
rdev = record { major = λ d. d / 256; mkdev = λ a b. a * 256 + b }

abbrev minor : ℕ → ℕ
minor d = d % 256

abbrev config : Config
config = record { name = codes "tun7"; ptp_mode = false }

-- Refuses to set the head mode.
abbrev headless : Kernel
headless h (Call.ioctl fd (Ioctl.tunsifhead on)) = record {
  errno = some (other 22);
  value = 0;
  text = [];
}
headless h c = record { errno = none; value = 7; text = [] }
