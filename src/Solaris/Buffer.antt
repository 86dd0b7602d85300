-- ===== src/Solaris/Buffer.antt =====
-- The buffer of tun_solaris.go and the slice of unread bytes in it.
use subpass.Base.{
  zero, suc, ℕ, ◌+◌, ◌-◌, ◌≤◌, ◌≡◌, refl, ap, sym, ◌∙◌, arith, List, [], ◌∷◌, ◌++◌, Bytes,
}
use subpass.Base.{length, take, drop, length-take, length-drop, length-append, take-append-drop}
use subpass.Base.{take-append_left, drop_all}
use subpass.Solaris.Reader.{TunDevice, unread, overwrite}

-- The slice lies within the buffer.
abbrev pub IsSound : TunDevice → Type 0
IsSound tun = tun.start + tun.count ≤ length tun.buff

pub length-unread : (tun : TunDevice) → IsSound tun → length (unread tun) ≡ tun.count
length-unread tun sound =
    omega (arith, length-take tun.count (drop tun.start tun.buff), length-drop tun.start tun.buff)

module _ {ℓ} {A : Type ℓ} where
  pub drop-drop : (m n k : ℕ) (xs : List A) → k ≡ m + n → drop n (drop m xs) ≡ drop k xs
  drop-drop zero n k xs e = let same : n ≡ k = omega arith in ap (λ j. drop j xs) same
  drop-drop (suc m) n zero xs e = absurd (omega arith)
  drop-drop (suc m) n (suc k) [] e = drop_all n [] (omega arith)
  drop-drop (suc m) n (suc k) (x ∷ xs) e = drop-drop m n k xs (omega arith)

  drop-take : (m n k : ℕ) (xs : List A) → n ≡ m + k → drop m (take n xs) ≡ take k (drop m xs)
  drop-take zero n k xs e = let same : n ≡ k = omega arith in ap (λ j. take j xs) same
  drop-take (suc m) zero k xs e = absurd (omega arith)
  drop-take (suc m) (suc n) zero [] e = refl
  drop-take (suc m) (suc n) (suc k) [] e = refl
  drop-take (suc m) (suc n) k (x ∷ xs) e = drop-take m n k xs (omega arith)

  take-append : (n : ℕ) (xs ys : List A) → n ≡ length xs → take n (xs ++ ys) ≡ xs
  take-append n xs ys e = ap (λ k. take k (xs ++ ys)) e ∙ take-append_left xs ys

-- What the bytes that are taken off the front leave.
pub advance-unread :
    (tun : TunDevice) (total : ℕ)
    → total ≤ tun.count
    → unread tun
      ≡ take total (unread tun) ++ take (tun.count - total) (drop (tun.start + total) tun.buff)
advance-unread tun total h =
    let rest : drop total (unread tun)
        ≡ take (tun.count - total) (drop (tun.start + total) tun.buff) =
      drop-take total tun.count (tun.count - total) (drop tun.start tun.buff) (omega arith)
      ∙ ap (take (tun.count - total))
          (drop-drop tun.start total (tun.start + total) tun.buff refl) in
    sym (take-append-drop total (unread tun)) ∙ ap (λ t. take total (unread tun) ++ t) rest

-- The buffer after the unread bytes were moved to its start.
abbrev pub moved : TunDevice → Bytes
moved tun = overwrite tun.buff 0 (unread tun)

pub length-moved : (tun : TunDevice) → IsSound tun → length tun.buff ≤ length (moved tun)
length-moved tun sound = omega (
  arith,
  length-append (unread tun) (drop (0 + length (unread tun)) tun.buff),
  length-drop (0 + length (unread tun)) tun.buff,
)

pub take-moved : (tun : TunDevice) → IsSound tun → take tun.count (moved tun) ≡ unread tun
take-moved tun sound =
    take-append tun.count (unread tun) (drop (0 + length (unread tun)) tun.buff)
      (sym (length-unread tun sound))

-- The buffer after a write of b behind its first n bytes.
pub take-overwrite :
    (buff : Bytes) (n : ℕ) (b : Bytes)
    → n ≤ length buff
    → take (n + length b) (overwrite buff n b) ≡ take n buff ++ b
take-overwrite buff n b fits =
    take-append (n + length b) (take n buff ++ b) (drop (n + length b) buff)
      (omega (arith, length-append (take n buff) b, length-take n buff))

pub length-overwrite :
    (buff : Bytes) (n : ℕ) (b : Bytes)
    → n ≤ length buff
    → n + length b ≤ length (overwrite buff n b)
length-overwrite buff n b fits = omega (
  arith,
  length-take n buff,
  length-append (take n buff) b,
  length-append (take n buff ++ b) (drop (n + length b) buff),
)
