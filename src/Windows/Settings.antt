-- ===== src/Windows/Settings.antt =====
-- The configuration of tun_windows.go: the default one, and `checkWintunConfig`.
pub mod Power
use Prim.Native.Nat.{bit_and}
use native.Mathlib.Nat.{pow-le-pow_right}
use subpass.Base.{
  ℕ, ◌-◌, ◌^◌, ◌≤◌, ◌≡◌, ◌≢◌, ◌↔◌, refl, arith, Bool, true, false, not, Option, none, [], ◌∷◌,
}
use subpass.Base.{Bytes, codes, ltb, ◌==◌, if◌then◌else◌}
use subpass.Go.Error.{Error, new}
use subpass.Go.Result.{Result, ok, err, panic}
use subpass.Go.File.{is_empty}
use subpass.Windows.Settings.Power.{bit_and-pow, pow-bit_and, exponent_bounds}

-- `guid` is the number that the pointer leads to.
pub record Config : Type 0 where
  pub name : Bytes
  pub kind : Bytes
  pub ring_capacity : ℕ
  pub guid : Option ℕ

-- wintun.RingCapacityMin and wintun.RingCapacityMax
abbrev pub ring_capacity_min : ℕ
ring_capacity_min = 0x20000

abbrev pub ring_capacity_max : ℕ
ring_capacity_max = 0x4000000

abbrev pub default_os_parms : Config
default_os_parms = record {
  name = codes "Client";
  kind = codes "Wintun";
  ring_capacity = 0x400000;
  guid = none;
}

-- The `switch`, case by case. The capacity is at least 2^17 where it is decreased.
unfoldable pub check_wintun_config : Config → Result (Unit {0})
check_wintun_config config =
    if ltb ring_capacity_max config.ring_capacity
    then err (new "ring capacity is too high")
    else if ltb config.ring_capacity ring_capacity_min
    then err (new "ring capacity is too low")
    else if not (bit_and config.ring_capacity (config.ring_capacity - 1) == 0)
    then err (new "ring capacity must be a power of two")
    else if is_empty config.name
    then err (new "tunnel name cannot be empty")
    else if is_empty config.kind
    then err (new "tunnel type cannot be empty")
    else ok tt

-- The capacities from 128 KiB to 64 MiB that are powers of two, and names that are not empty.
abbrev pub IsUsable : Config → Type 0
IsUsable config =
    ((k : ℕ) × ((17 ≤ k) × (k ≤ 26) × (config.ring_capacity ≡ 2 ^ k)))
    × (config.name ≢ [])
    × (config.kind ≢ [])

pub is_empty_iff : (b : Bytes) → (is_empty b ≡ false) ↔ (b ≢ [])
is_empty_iff [] = (λ h. cc, λ h. absurd (h refl))
is_empty_iff (x ∷ b) = (λ h e. cc, λ h. refl)

-- What the five tests leave of the configurations.
passes :
    (config : Config)
    → (check_wintun_config config ≡ ok tt) ↔ (
        (0x20000 ≤ config.ring_capacity)
        × (config.ring_capacity ≤ 0x4000000)
        × (bit_and config.ring_capacity (config.ring_capacity - 1) ≡ 0)
        × (is_empty config.name ≡ false)
        × (is_empty config.kind ≡ false))
unfolding check_wintun_config
passes config = (λ h. ground arith, λ h. ground arith)

-- `checkWintunConfig` returns nil exactly for the configurations that Wintun can use: a capacity
-- that is a power of two from 2^17 to 2^26, a name and a type that are not empty.
pub check_wintun_config_iff :
    (config : Config) → (check_wintun_config config ≡ ok tt) ↔ IsUsable config
check_wintun_config_iff config = (
  λ h.
      let (low, high, disjoint, named, typed) = (passes config).0 h in
      let c = config.ring_capacity in
      let (k, e) = pow-bit_and c c (omega arith) (omega arith) disjoint in
      let (least, most) = exponent_bounds k (omega arith) (omega arith) in
      ((k, (least, most, e)), (is_empty_iff _).0 named, (is_empty_iff _).0 typed),
  λ usable.
      let ((k, (least, most, e)), named, typed) = usable in
      let low = pow-le-pow_right {n = 2} (omega arith) {i = 17} {j = k} least in
      let high = pow-le-pow_right {n = 2} (omega arith) {i = k} {j = 26} most in
      (passes config).1 (
        omega arith,
        omega arith,
        rw e (bit_and-pow k),
        (is_empty_iff _).1 named,
        (is_empty_iff _).1 typed,
      ),
)

pub check_wintun_config-ne-panic : (config : Config) → check_wintun_config config ≢ panic
unfolding check_wintun_config
check_wintun_config-ne-panic config h = ground arith
