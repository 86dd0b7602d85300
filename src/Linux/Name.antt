-- ===== src/Linux/Name.antt =====
-- `validateName` of tun_linux.go.
use subpass.Base.{
  ℕ, ◌≤◌, ◌≡◌, ◌≢◌, refl, arith, Bool, true, false, not, ◌||◌, ◌&&◌, ◌⊎◌, inl, inr, ◌↔◌,
}
use subpass.Base.{[], ◌∷◌, Bytes, codes, bytes_eq, bytes_eq_iff, leb, ◌==◌, if◌then◌else◌}
use subpass.Base.{Bool-cases}
use subpass.Go.Error.{new}
use subpass.Go.Result.{Result, ok, err, panic}
use subpass.Go.File.{is_empty}

abbrev between : ℕ → ℕ → ℕ → Bool
between a b c = leb a c && leb c b

-- The class [a-zA-Z0-9_.-].
abbrev is_iface_char : ℕ → Bool
is_iface_char c =
    between b'a' b'z' c
    || between b'A' b'Z' c
    || between b'0' b'9' c
    || (c == b'_')
    || (c == b'.')
    || (c == b'-')

abbrev all_iface_chars : Bytes → Bool
all_iface_chars [] = true
all_iface_chars (c ∷ s) = is_iface_char c && all_iface_chars s

-- The name is not empty, so that the `+` of the regular expression is met.
pub validate_name : Bytes → Result (Unit {0})
validate_name name =
    if is_empty name
    then ok tt
    else if bytes_eq name (codes ".") || bytes_eq name (codes "..")
    then err (new "invalid interface name")
    else if not (all_iface_chars name)
    then err (new "invalid interface name")
    else ok tt

-- The characters of an interface's name: a letter, a digit, or one of three marks.
abbrev IsIfaceChar : ℕ → Type 0
IsIfaceChar c =
    ((b'a' ≤ c) × (c ≤ b'z'))
    ⊎ ((b'A' ≤ c) × (c ≤ b'Z'))
    ⊎ ((b'0' ≤ c) × (c ≤ b'9'))
    ⊎ (c ≡ b'_')
    ⊎ (c ≡ b'.')
    ⊎ (c ≡ b'-')

abbrev pub IsIfaceText : Bytes → Type 0
IsIfaceText [] = Unit {0}
IsIfaceText (c ∷ s) = IsIfaceChar c × IsIfaceText s

is_iface_char_iff : (c : ℕ) → (is_iface_char c ≡ true) ↔ IsIfaceChar c
is_iface_char_iff c = ground arith

all_iface_chars_iff : (s : Bytes) → (all_iface_chars s ≡ true) ↔ IsIfaceText s
all_iface_chars_iff [] = (λ _. tt, λ _. refl)
all_iface_chars_iff (c ∷ s) = (
  λ h. elim (Bool-cases (is_iface_char c)) [
    | inl good ↦ ((is_iface_char_iff c).0 good, (all_iface_chars_iff s).0 (ground arith))
    | inr bad ↦ ground arith
  ],
  λ (good, rest).
      let first = (is_iface_char_iff c).1 good in
      let others = (all_iface_chars_iff s).1 rest in ground arith,
)

-- The two tests of a name that is not empty.
abbrev tested : Bool → Bool → Bool → Result (Unit {0})
tested a b t =
    if a || b
    then err (new "invalid interface name")
    else if not t
    then err (new "invalid interface name")
    else ok tt

tested-ok : (a b t : Bool) → tested a b t ≡ ok tt → (a ≡ false) × (b ≡ false) × (t ≡ true)
tested-ok true b t h = cc
tested-ok false true t h = cc
tested-ok false false true h = (refl, refl, refl)
tested-ok false false false h = cc

tested_good : {a b t : Bool} → a ≡ false → b ≡ false → t ≡ true → tested a b t ≡ ok tt
tested_good p q r = rw (p, q, r)

bytes_ne : (x y : Bytes) → x ≢ y → bytes_eq x y ≡ false
bytes_ne x y different = elim (Bool-cases (bytes_eq x y)) [
  | inl same ↦ absurd (different ((bytes_eq_iff x y).0 same))
  | inr e ↦ e
]

ne_bytes : (x y : Bytes) → bytes_eq x y ≡ false → x ≢ y
ne_bytes x y e same = let h = (bytes_eq_iff x y).1 same in cc

-- A name is accepted exactly if it is empty, or if all its characters are letters, digits,
-- underscores, dots or dashes and it is neither "." nor "..".
pub validate_name_iff :
    (name : Bytes)
    → (validate_name name ≡ ok tt)
      ↔ ((name ≡ []) ⊎ (IsIfaceText name × (name ≢ codes ".") × (name ≢ codes "..")))
unfolding validate_name
validate_name_iff [] = (λ _. inl refl, λ _. refl)
validate_name_iff (c ∷ s) = (
  λ h.
      let (p, q, r) =
        tested-ok (bytes_eq (c ∷ s) (codes ".")) (bytes_eq (c ∷ s) (codes ".."))
          (all_iface_chars (c ∷ s)) h in
      inr ((all_iface_chars_iff (c ∷ s)).0 r, ne_bytes _ _ p, ne_bytes _ _ q),
  backwards,
)
  where
    backwards :
        (c ∷ s ≡ []) ⊎ (IsIfaceText (c ∷ s) × (c ∷ s ≢ codes ".") × (c ∷ s ≢ codes ".."))
        → tested
            (bytes_eq (c ∷ s) (codes "."))
            (bytes_eq (c ∷ s) (codes ".."))
            (all_iface_chars (c ∷ s))
          ≡ ok tt
    backwards (inl e) = cc
    backwards (inr (text, one, two)) =
        tested_good (bytes_ne (c ∷ s) (codes ".") one) (bytes_ne (c ∷ s) (codes "..") two)
          ((all_iface_chars_iff (c ∷ s)).1 text)

pub validate_name-ne-panic : (name : Bytes) → validate_name name ≢ panic
unfolding validate_name
validate_name-ne-panic [] h = cc
validate_name-ne-panic (c ∷ s) h =
    tested-ne-panic (bytes_eq (c ∷ s) (codes ".")) (bytes_eq (c ∷ s) (codes ".."))
      (all_iface_chars (c ∷ s)) h
  where
    tested-ne-panic : (a b t : Bool) → tested a b t ≢ panic
    tested-ne-panic true b t e = cc
    tested-ne-panic false true t e = cc
    tested-ne-panic false false true e = cc
    tested-ne-panic false false false e = cc
