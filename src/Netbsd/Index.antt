-- ===== src/Netbsd/Index.antt =====
-- `getTunIndex` of tun_netbsd.go.
use subpass.Base.{◌≢◌, ℕ, ◌<◌, ◌^◌, ◌≡◌, refl, ap, ◌⊎◌, inl, inr, arith, Bool, true, false, not}
use subpass.Base.{Option, none, some, [], ◌∷◌, ◌++◌, Bytes, codes, length, drop, leb}
use subpass.Base.{if◌then◌else◌, Bool-cases, ◌↔◌}
use subpass.Base.Int.{ℤ, pos, negsuc}
use subpass.Go.Error.{Error, new}
use subpass.Go.Result.{Result, ok, err, panic}
use subpass.Go.File.{is_empty}
use subpass.Go.Strconv.{has_prefix, atoi, format}
use subpass.Go.Strconv.Numeral.{Spells, atoi-Spells}
use subpass.Go.Strconv.RoundTrip.{atoi-plus, length-format}

-- unix.IFNAMSIZ
abbrev pub ifnamsiz : ℕ
ifnamsiz = 16

abbrev pub tun_prefix : Bytes
tun_prefix = codes "tun"

abbrev pub bad_name : Error
bad_name = new "interface name must be tun[0-9]+"

abbrev pub is_negative : ℤ → Bool
is_negative (pos n) = false
is_negative (negsuc n) = true

-- The tests after `Atoi`, in the source's order.
abbrev checked_index : Bytes → Option ℤ → Result ℤ
checked_index name none = err bad_name
checked_index name (some i) =
    if is_negative i
    then err bad_name
    else if leb ifnamsiz (length name)
    then err (new "interface name too long")
    else ok i

unfoldable pub get_tun_index : Bytes → Result ℤ
get_tun_index name =
    if is_empty name
    then ok (negsuc 0)
    else if not (has_prefix name tun_prefix)
    then err bad_name
    else checked_index name (atoi (drop (length tun_prefix) name))

checked_index-ok :
    (name : Bytes) (r : Option ℤ) {i : ℤ}
    → checked_index name r ≡ ok i
    → (r ≡ some i) × (is_negative i ≡ false) × (length name < ifnamsiz)
checked_index-ok name none h = cc
checked_index-ok name (some (pos n)) h = ground arith
checked_index-ok name (some (negsuc n)) h = cc

pub has_prefix-eq : (s p : Bytes) → has_prefix s p ≡ true → s ≡ p ++ drop (length p) s
has_prefix-eq s [] h = refl
has_prefix-eq [] (c ∷ p) h = cc
has_prefix-eq (d ∷ s) (c ∷ p) h = ground (arith, has_prefix-eq s p)

has_prefix-append : (p s : Bytes) → has_prefix (p ++ s) p ≡ true
has_prefix-append [] s = refl
has_prefix-append (c ∷ p) s = ground (arith, has_prefix-append p s)

-- What an accepted name stands for: -1 for the empty name; and n for a name shorter than IFNAMSIZ
-- that is "tun" and the number n in decimal digits, with a plus before them or none, or "-" and
-- zeros.
abbrev pub Denotes : Bytes → ℤ → Type 0
Denotes name i =
    ((name ≡ []) × (i ≡ negsuc 0))
    ⊎ ((n : ℕ) × (s : Bytes) × ((i ≡ pos n)
          × (name ≡ tun_prefix ++ s)
          × Spells s n
          × (length name < ifnamsiz)))

accepted-Denotes : (name : Bytes) (i : ℤ) → get_tun_index name ≡ ok i → Denotes name i
unfolding get_tun_index
accepted-Denotes [] i h = inl (refl, ground arith)
accepted-Denotes (c ∷ r) i h = elim (Bool-cases (has_prefix (c ∷ r) tun_prefix)) [
  | inr other ↦ ground arith
  | inl tun ↦
      let (read, sign, short) = checked_index-ok (c ∷ r) (atoi (drop 3 (c ∷ r))) (rw tun at h) in
      denoted i read sign short (has_prefix-eq (c ∷ r) tun_prefix tun)
]
  where
    denoted :
        (i : ℤ)
        → atoi (drop 3 (c ∷ r)) ≡ some i
        → is_negative i ≡ false
        → length (c ∷ r) < ifnamsiz
        → c ∷ r ≡ tun_prefix ++ drop 3 (c ∷ r)
        → Denotes (c ∷ r) i
    denoted (pos n) read sign short same =
        let spelt = (atoi-Spells (drop 3 (c ∷ r)) n (omega (arith, ap length same))).0 read in
        inr (n, drop 3 (c ∷ r), (refl, same, spelt, short))
    denoted (negsuc n) read sign short same = cc

Denotes-accepted : (name : Bytes) (i : ℤ) → Denotes name i → get_tun_index name ≡ ok i
unfolding get_tun_index
Denotes-accepted name i (inl (e, k)) = rw (e, k)
Denotes-accepted name i (inr (n, s, (k, e, spelt, short))) =
    let read = (atoi-Spells s n (omega (arith, ap length e))).1 spelt in rw (k, e) (ground arith)

-- The empty name is accepted and gives the index -1. Any other name is accepted exactly if it is
-- shorter than IFNAMSIZ and is "tun" followed by one decimal digit or more, with a plus before them
-- or none, or by a minus and zeros; and the index is the value of the digits.
pub get_tun_index_iff : (name : Bytes) (i : ℤ) → (get_tun_index name ≡ ok i) ↔ Denotes name i
get_tun_index_iff name i = (accepted-Denotes name i, Denotes-accepted name i)

-- A sign before the digits is accepted, though the errors say tun[0-9]+.
pub get_tun_index-plus :
    (n : ℕ) → n < 10 ^ 11 → get_tun_index (tun_prefix ++ (b'+' ∷ format n)) ≡ ok (pos n)
unfolding get_tun_index
get_tun_index-plus n h = ground (arith, atoi-plus n (omega arith), length-format 10 n h)

checked_index-ne-panic : (name : Bytes) (r : Option ℤ) → checked_index name r ≢ panic
checked_index-ne-panic name none h = cc
checked_index-ne-panic name (some (pos n)) h = ground arith
checked_index-ne-panic name (some (negsuc n)) h = cc

pub get_tun_index-ne-panic : (name : Bytes) → get_tun_index name ≢ panic
unfolding get_tun_index
get_tun_index-ne-panic [] h = cc
get_tun_index-ne-panic (c ∷ r) h =
    ground (arith, checked_index-ne-panic (c ∷ r) (atoi (drop 3 (c ∷ r))))

-- A name that is not empty never stands for -1.
pub named_index :
    (name : Bytes) (i : ℤ) → name ≢ [] → get_tun_index name ≡ ok i → (n : ℕ) × (i ≡ pos n)
named_index name i named h = by_case (accepted-Denotes name i h)
  where
    by_case : Denotes name i → (n : ℕ) × (i ≡ pos n)
    by_case (inl (empty, e)) = absurd (named empty)
    by_case (inr (n, s, (e, same, read, short))) = (n, e)
