-- ===== src/Solaris/Index.antt =====
-- `getTunIndex` of tun_solaris.go.
use subpass.Base.{ℕ, zero, suc, ◌≢◌, arith, Bool, true, false, not, ◌&&◌}
use subpass.Base.{Option, none, some, [], ◌∷◌, Bytes, length, drop, leb, if◌then◌else◌}
use subpass.Base.Int.{ℤ, negsuc}
use subpass.Go.Error.{new, wrap_path}
use subpass.Go.Result.{Result, ok, err, panic}
use subpass.Go.File.{is_empty}
use subpass.Go.Strconv.{has_prefix, atoi}
use subpass.Netbsd.Index.{ifnamsiz, tun_prefix, bad_name}

abbrev pub is_digit : ℕ → Bool
is_digit c = leb b'0' c && leb c b'9'

-- `strings.IndexAny` for the digits.
abbrev first_digit : Bytes → Option ℕ
first_digit [] = none
first_digit (c ∷ s) = if is_digit c then some 0 else after (first_digit s)
  where
    after : Option ℕ → Option ℕ
    after none = none
    after (some i) = some (suc i)

-- `lastNonDigit + 1`: where the digits begin that the text ends with.
abbrev digits_from : Bytes → ℕ
digits_from [] = 0
digits_from (c ∷ s) = before (digits_from s)
  where
    before : ℕ → ℕ
    before zero = if is_digit c then 0 else 1
    before (suc i) = suc (suc i)

-- The results of `Atoi`, with its error for a text of no digits.
abbrev read_ppa : Bytes → Option ℤ → Result ℤ
read_ppa s none = err (wrap_path "strconv.Atoi: parsing" s (new "invalid syntax"))
read_ppa s (some i) = ok i

-- The two tests on the first digit.
abbrev has_digit : Option ℕ → Bool
has_digit none = false
has_digit (some zero) = false
has_digit (some (suc i)) = true

pub get_tun_index : Bytes → Result ℤ
get_tun_index name =
    if is_empty name
    then ok (negsuc 0)
    else if leb ifnamsiz (length name)
    then err (new "interface name too long")
    else if not (has_prefix name tun_prefix)
    then err bad_name
    else if not (has_digit (first_digit name))
    then err bad_name
    else read_ppa (drop (digits_from name) name) (atoi (drop (digits_from name) name))

read_ppa-ne-panic : (s : Bytes) (r : Option ℤ) → read_ppa s r ≢ panic
read_ppa-ne-panic s none h = cc
read_ppa-ne-panic s (some i) h = cc

pub get_tun_index-ne-panic : (name : Bytes) → get_tun_index name ≢ panic
unfolding get_tun_index
get_tun_index-ne-panic name h =
    ground (
      arith,
      read_ppa-ne-panic (drop (digits_from name) name) (atoi (drop (digits_from name) name)),
    )
