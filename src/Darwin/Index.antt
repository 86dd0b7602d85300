-- ===== src/Darwin/Index.antt =====
-- `getUtunIndex` of tun_darwin.go, and the unit of the kernel control that its result stands for.
use subpass.Base.{◌≢◌, ℕ, ◌+◌, ◌%◌, ◌<◌, ◌≤◌, ◌^◌, ◌≡◌, refl, ◌⊎◌, inl, inr, arith, Bool, false}
use subpass.Base.{not, Option, none, some, [], ◌∷◌, ◌++◌, Bytes, codes, length, drop, ltb}
use subpass.Base.{if◌then◌else◌, Bool-cases, ap, ◌∙◌}
use subpass.Base.Int.{ℤ, pos, negsuc}
use subpass.Go.Error.{Error, new}
use subpass.Go.Result.{Result, ok, err, panic}
use subpass.Go.File.{is_empty}
use subpass.Go.Strconv.{has_prefix, atoi, format}
use subpass.Go.Strconv.RoundTrip.{atoi-format}
use subpass.Mknod.{to_uint32}
use subpass.Netbsd.Index.{is_negative, has_prefix-eq}

abbrev utun_prefix : Bytes
utun_prefix = codes "utun"

abbrev bad_name : Error
bad_name = new "interface name must be utun[0-9]+"

-- `ifIndex > math.MaxUint32-1`
abbrev is_too_big : ℤ → Bool
is_too_big (pos n) = ltb 4294967294 n
is_too_big (negsuc n) = false

-- The tests after `Atoi`, in the source's order.
abbrev checked_utun : Option ℤ → Result ℤ
checked_utun none = err bad_name
checked_utun (some i) =
    if is_negative i
    then err bad_name
    else if is_too_big i
    then err (new "interface name too long")
    else ok i

unfoldable pub get_utun_index : Bytes → Result ℤ
get_utun_index name =
    if is_empty name
    then ok (negsuc 0)
    else if not (has_prefix name utun_prefix)
    then err bad_name
    else checked_utun (atoi (drop (length utun_prefix) name))

-- uint32(index) + 1
abbrev pub unit_of : ℤ → ℕ
unit_of i = (to_uint32 i + 1) % 2 ^ 32

-- What the unit of an accepted name is: 0, which lets the kernel choose, for the empty name; and
-- otherwise one more than the number that `Atoi` reads behind the prefix, which leaves 0 to the
-- empty name and is not reduced.
abbrev pub UnitOf : Bytes → ℤ → Type 0
UnitOf name i =
    ((name ≡ []) × (unit_of i ≡ 0))
    ⊎ ((n : ℕ) × (s : Bytes) × ((name ≡ utun_prefix ++ s)
          × (atoi s ≡ some (pos n))
          × (unit_of i ≡ n + 1)
          × (n + 1 < 2 ^ 32)))

checked_utun-ok :
    (r : Option ℤ) {i : ℤ}
    → checked_utun r ≡ ok i
    → (n : ℕ) × ((r ≡ some (pos n)) × (i ≡ pos n) × (n ≤ 4294967294))
checked_utun-ok none h = cc
checked_utun-ok (some (pos n)) h = (n, ground arith)
checked_utun-ok (some (negsuc n)) h = cc

unit_of-pos : (n : ℕ) → n ≤ 4294967294 → unit_of (pos n) ≡ n + 1
unit_of-pos n h = omega arith

-- The unit that an accepted name stands for is exact: no index wraps around to another's unit or to
-- the one by which the kernel chooses.
pub get_utun_index-UnitOf : (name : Bytes) (i : ℤ) → get_utun_index name ≡ ok i → UnitOf name i
unfolding get_utun_index
get_utun_index-UnitOf [] i h = inl (refl, ground arith)
get_utun_index-UnitOf (c ∷ r) i h = elim (Bool-cases (has_prefix (c ∷ r) utun_prefix)) [
  | inr other ↦ ground arith
  | inl utun ↦
      let (n, (read, same, small)) = checked_utun-ok (atoi (drop 4 (c ∷ r))) (rw utun at h) in
      inr (
        n,
        drop 4 (c ∷ r),
        (
          has_prefix-eq (c ∷ r) utun_prefix utun,
          read,
          ap unit_of same ∙ unit_of-pos n small,
          omega arith,
        ),
      )
]

-- The name of each interface up to utun4294967294 is accepted, and gives its number.
get_utun_index-name :
    (n : ℕ) → n ≤ 4294967294 → get_utun_index (utun_prefix ++ format n) ≡ ok (pos n)
unfolding get_utun_index
get_utun_index-name n h = ground (arith, atoi-format n (omega arith))

checked_utun-ne-panic : (r : Option ℤ) → checked_utun r ≢ panic
checked_utun-ne-panic none h = cc
checked_utun-ne-panic (some (pos n)) h = ground arith
checked_utun-ne-panic (some (negsuc n)) h = cc

pub get_utun_index-ne-panic : (name : Bytes) → get_utun_index name ≢ panic
unfolding get_utun_index
get_utun_index-ne-panic [] h = cc
get_utun_index-ne-panic (c ∷ r) h = ground (arith, checked_utun-ne-panic (atoi (drop 4 (c ∷ r))))
