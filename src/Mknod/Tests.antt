-- ===== src/Mknod/Tests.antt =====
-- The theorems on mknod.go at concrete kernels.
use subpass.Base.{◌+◌, ◌*◌, ◌/◌, ◌≡◌, refl, arith, none, some, [], ◌∷◌}
use subpass.Base.Int.{pos, negsuc}
use subpass.Go.Error.{wrap_nil, ebusy}
use subpass.Go.Result.{ok, err}
use subpass.Go.Kernel.{Kernel, History, Call, made}
use subpass.Go.Kernel.Held.{Balance}
use subpass.Mknod.{Rdev, node_path, open_node, open_tun_from_char_dev}
use subpass.Mknod.Search.{BusyFrom, open_tun_wraps_nil}

abbrev rdev : Rdev
rdev = record { major = λ d. d / 256; mkdev = λ a b. a * 256 + b }

-- The first device is busy, and all else succeeds with descriptor 7.
abbrev kernel : Kernel
kernel [] c = record { errno = some ebusy; value = 0; text = [] }
kernel (e ∷ h) c = record { errno = none; value = 7; text = [] }

abbrev tried : History
tried = made kernel (Call.open_file (node_path (pos 0))) []

second_opens : (open_node kernel (pos 1) tried).0 ≡ ok 7
unfolding open_node
second_opens = refl

first_busy : BusyFrom kernel 1 0 [] tried
unfolding open_node
first_busy = (refl, refl)

open_tun_wraps_nil_example :
    ((open_tun_from_char_dev rdev kernel (negsuc 0) []).0
      ≡ err (wrap_nil "open" (node_path (pos 1))))
    × Balance [] [] (open_tun_from_char_dev rdev kernel (negsuc 0) []).1 (7 ∷ [])
open_tun_wraps_nil_example =
    open_tun_wraps_nil rdev kernel 1 7 [] tried (omega arith) first_busy second_opens
