-- ===== src/Go/Kernel/Held/Counts.antt =====
-- The descriptors that a history opens and closes, and the triple about what a piece of code holds.
use subpass.Base.{
  ℕ, ◌+◌, ◌≡◌, refl, arith, Bool, true, false, Option, none, some, List, [], ◌∷◌, ◌++◌,
}
use subpass.Base.{◌==◌, if◌then◌else◌}
use subpass.Go.Error.{Errno}
use subpass.Go.Result.{Result, ok, err, panic}
use subpass.Go.Kernel.{Call, open_file, socket, close, Reply, History, M}

abbrev pub count : ℕ → List ℕ → ℕ
count fd [] = 0
count fd (x ∷ xs) = (if fd == x then 1 else 0) + count fd xs

abbrev pub succeeded : Option Errno → Bool
succeeded none = true
succeeded (some e) = false

-- How often a call that succeeded gave this descriptor out.
abbrev pub opening : ℕ → Call → Reply → ℕ
opening fd (open_file p) r = if succeeded r.errno then (if fd == r.value then 1 else 0) else 0
opening fd (socket f) r = if succeeded r.errno then (if fd == r.value then 1 else 0) else 0
opening fd _ r = 0

-- How often it was closed.
abbrev pub closing : ℕ → Call → ℕ
closing fd (close x) = if fd == x then 1 else 0
closing fd _ = 0

abbrev pub opened : ℕ → History → ℕ
opened fd [] = 0
opened fd (e ∷ h) = opening fd e.call e.reply + opened fd h

abbrev pub closed : ℕ → History → ℕ
closed fd [] = 0
closed fd (e ∷ h) = closing fd e.call + closed fd h

-- Between two histories each descriptor was opened as often as it was closed, but for those that
-- were held at the start (`before`) and are held at the end (`after`).
abbrev pub Balance : History → List ℕ → History → List ℕ → Type 0
Balance h before h' after =
    (fd : ℕ)
    → opened fd h' + closed fd h + count fd before ≡ opened fd h + closed fd h' + count fd after

-- What is held after the code: `f a` when it returned `a`, `g` when it returned an error. It does
-- not panic.
abbrev pub Ends :
    {A : Type 0} → History → List ℕ → (A → List ℕ) → List ℕ → Result A × History → Type 0
Ends h before f g (ok a, h') = Balance h before h' (f a)
Ends h before f g (err e, h') = Balance h before h' g
Ends h before f g (panic, h') = ⊥

abbrev pub Holds : {A : Type 0} → List ℕ → M A → (A → List ℕ) → List ℕ → Type 0
Holds before m f g = (h : History) → Ends h before f g (m h)

-- The calls that neither give a descriptor out nor close one.
abbrev pub is_neutral : Call → Bool
is_neutral (open_file p) = false
is_neutral (socket f) = false
is_neutral (close x) = false
is_neutral _ = true

pub Balance-trans :
    (h h' h'' : History) (a b c : List ℕ)
    → Balance h a h' b
    → Balance h' b h'' c
    → Balance h a h'' c
Balance-trans h h' h'' a b c p q fd = omega (arith, p fd, q fd)

pub count-append : (fd : ℕ) (a b : List ℕ) → count fd (a ++ b) ≡ count fd a + count fd b
count-append fd [] b = omega arith
count-append fd (x ∷ a) b = omega (arith, count-append fd a b)

-- The order in which descriptors are listed plays no part.
abbrev pub Same : List ℕ → List ℕ → Type 0
Same a b = (fd : ℕ) → count fd a ≡ count fd b

pub Same-snoc : (a : List ℕ) (x : ℕ) → Same (x ∷ a) (a ++ (x ∷ []))
Same-snoc [] x fd = refl
Same-snoc (y ∷ a) x fd = omega (arith, Same-snoc a x fd)
