-- ===== src/Darwin/Tests.antt =====
-- The theorems on tun_darwin.go at concrete names and kernels.
use subpass.Base.{refl, codes}
use subpass.Base.Int.{pos}
use subpass.Go.Strconv.{atoi}
use subpass.Darwin.Index.{UnitOf, get_utun_index, get_utun_index-UnitOf}

get_utun_index-UnitOf_example : UnitOf (codes "utun7") (pos 7)
unfolding get_utun_index atoi
get_utun_index-UnitOf_example = get_utun_index-UnitOf (codes "utun7") (pos 7) refl
