-- ===== src/Pump/Splits.antt =====
-- How the front of a stream lies to the packets in it.
use subpass.Base.{ℕ, ◌≤◌, ◌<◌, ◌≡◌, refl, ap, arith, [], ◌∷◌, ◌++◌, Bytes}
use subpass.Base.{length, drop}

-- Two ways to cut one list, where the first cut lies behind the second.
pub longer :
    (b rem p rest : Bytes)
    → b ++ rem ≡ p ++ rest
    → length p ≤ length b
    → (b ≡ p ++ drop (length p) b) × (drop (length p) b ++ rem ≡ rest)
longer b rem [] rest e h = (refl, e)
longer [] rem (x ∷ p) rest e h = absurd (omega arith)
longer (y ∷ b) rem (x ∷ p) rest e h =
    let (split, left) = longer b rem p rest (cc) (omega arith) in
    let same : y ≡ x = cc in (rw (same) (ap (λ t. x ∷ t) split), left)

pub shorter :
    (b rem p rest : Bytes)
    → b ++ rem ≡ p ++ rest
    → length b < length p
    → (x : ℕ) × (c : Bytes) × (p ≡ b ++ (x ∷ c))
shorter [] rem [] rest e h = absurd (omega arith)
shorter [] rem (x ∷ p) rest e h = (x, p, refl)
shorter (y ∷ b) rem [] rest e h = absurd (omega arith)
shorter (y ∷ b) rem (x ∷ p) rest e h =
    let (z, c, split) = shorter b rem p rest (cc) (omega arith) in
    let same : y ≡ x = cc in (z, c, rw (same) (ap (λ t. x ∷ t) split))
