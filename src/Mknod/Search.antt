-- ===== src/Mknod/Search.antt =====
-- The search for a free device, when no index was asked for.
use native.Mathlib.Nat.{add-zero}
use subpass.Base.{ℕ, zero, suc, ◌+◌, ◌≤◌, ◌<◌, ◌≡◌, refl, arith, true, false}
use subpass.Base.{List, [], ◌∷◌, inl, inr, ◌⊎◌}
use subpass.Base.Int.{ℤ, pos, negsuc}
use subpass.Go.Error.{wrap_nil}
use subpass.Go.Result.{Result, ok, err, panic}
use subpass.Go.Kernel.{Kernel, History, made, Call, pure, sys}
use subpass.Go.Kernel.Held.{
  Balance, Balance-trans, Holds, Holds-ok, bind-Holds, pure-Holds, open_file-Holds,
}
use subpass.Base.{Option-cases}
use subpass.Mknod.{
  Rdev, node_path, tun_id_max_char, open_node, is_busy, probe, after_probe, open_tun_from_char_dev,
}

-- The kernel says EBUSY for the `k` indices from `i` on, one after the other; what is left is the
-- history after these calls.
abbrev pub BusyFrom : Kernel → ℕ → ℕ → History → History → Type 0
BusyFrom kernel zero i h h' = h' ≡ h
BusyFrom kernel (suc k) i h h' =
    (is_busy (open_node kernel (pos i) h).0 ≡ true)
    × BusyFrom kernel k (i + 1) (made kernel (Call.open_file (node_path (pos i))) h) h'

-- The attempt to open the device at this index.
abbrev pub attempt : Kernel → ℕ → History → ℕ × Result ℕ × History
attempt kernel i h = (i, (open_node kernel (pos i) h).0, (open_node kernel (pos i) h).1)

open_node-history :
    (kernel : Kernel) (i : ℤ) (h : History)
    → (open_node kernel i h).1 ≡ made kernel (Call.open_file (node_path i)) h
unfolding open_node
open_node-history kernel i h = ground arith

module _ (kernel : Kernel) where
  -- The loop from `i` on has stopped after `k` busy indices.
  abbrev StopsAfter : ℕ → ℕ → History → ℕ → History → Type 0
  StopsAfter rounds i h k h' =
      (k ≤ rounds)
      × BusyFrom kernel k i h h'
      × (probe kernel rounds i h ≡ attempt kernel (i + k) h')
      × ((is_busy (open_node kernel (pos (i + k)) h').0 ≡ false) ⊎ (k ≡ rounds))

  probe-BusyFrom :
      (k rounds i : ℕ) (h h' : History)
      → BusyFrom kernel k i h h'
      → k ≤ rounds
      → is_busy (open_node kernel (pos (i + k)) h').0 ≡ false
      → probe kernel rounds i h ≡ attempt kernel (i + k) h'
  unfolding probe
  probe-BusyFrom zero zero i h h' same small free = rw (add-zero, same)
  probe-BusyFrom zero (suc rounds) i h h' same small free =
      let free' : is_busy (open_node kernel (pos i) h).0 ≡ false = rw (add-zero, same) at free in
      rw (add-zero, same) (rw (free', probe))
  probe-BusyFrom (suc k) zero i h h' busy small free = absurd (omega arith)
  probe-BusyFrom (suc k) (suc rounds) i h h' (busy, more) small free =
      let e : i + suc k ≡ i + 1 + k = omega arith in
      rw (busy, probe)
        (rw (open_node-history kernel (pos i) h, e)
          (probe-BusyFrom k rounds (i + 1) _ h' more (omega arith) (rw e at free)))

-- A busy answer gives no descriptor out.
busy-Balance :
    (kernel : Kernel) (i : ℤ) (h : History)
    → is_busy (open_node kernel i h).0 ≡ true
    → Balance h [] (made kernel (Call.open_file (node_path i)) h) []
unfolding open_node
busy-Balance kernel i h busy fd =
    elim (Option-cases (kernel h (Call.open_file (node_path i))).errno) [
      | inl good ↦ ground arith
      | inr (x, bad) ↦ ground arith
    ]

BusyFrom-Balance :
    (kernel : Kernel) (k i : ℕ) (h h' : History) → BusyFrom kernel k i h h' → Balance h [] h' []
BusyFrom-Balance kernel zero i h h' same = rw same (λ fd. refl)
BusyFrom-Balance kernel (suc k) i h h' (busy, more) =
    Balance-trans h (made kernel (Call.open_file (node_path (pos i))) h) h' [] [] []
      (busy-Balance kernel (pos i) h busy) (BusyFrom-Balance kernel k (i + 1) _ h' more)

pub open_node-Holds :
    (kernel : Kernel) (i : ℤ) (a : List ℕ) → Holds a (open_node kernel i) (λ fd. fd ∷ a) a
unfolding open_node
open_node-Holds kernel i a =
    bind-Holds (sys kernel (Call.open_file (node_path i))) (λ r. pure r.value) a (λ r. r.value ∷ a)
      (λ fd. fd ∷ a) a (open_file-Holds kernel (node_path i) a)
      (λ r. pure-Holds (λ fd. fd ∷ a) a r.value)

after :
    (rdev : Rdev) (kernel : Kernel) (k fd : ℕ) (h : History) (p : ℕ × Result ℕ × History)
    (x : Result ℕ × History)
    → p ≡ (k, x.0, x.1)
    → x.0 ≡ ok fd
    → Balance h [] x.1 (fd ∷ [])
    → ((after_probe rdev kernel p).0 ≡ err (wrap_nil "open" (node_path (pos k))))
      × Balance h [] (after_probe rdev kernel p).1 (fd ∷ [])
after rdev kernel k fd h p (ok y, h') e good b = rw e (refl, b)
after rdev kernel k fd h p (err y, h') e good b = cc
after rdev kernel k fd h p (panic, h') e good b = cc

-- When no index was asked for and the first device that is not busy can be opened, the function
-- returns an error all the same, which wraps nil, and the descriptor stays open.
pub open_tun_wraps_nil :
    (rdev : Rdev) (kernel : Kernel) (k fd : ℕ) (h h' : History)
    → k < tun_id_max_char
    → BusyFrom kernel k 0 h h'
    → (open_node kernel (pos k) h').0 ≡ ok fd
    → let (r, end) = open_tun_from_char_dev rdev kernel (negsuc 0) h in
      (r ≡ err (wrap_nil "open" (node_path (pos k)))) × Balance h [] end (fd ∷ [])
unfolding open_tun_from_char_dev
open_tun_wraps_nil rdev kernel k fd h h' small busy opens =
    let e : 0 + k ≡ k = omega arith in
    let free : is_busy (open_node kernel (pos (0 + k)) h').0 ≡ false = rw (e, opens) in
    let found = rw e at (probe-BusyFrom kernel k 4095 0 h h' busy (omega arith) free) in
    let held =
      Holds-ok (open_node kernel (pos k)) [] (λ x. x ∷ []) [] h' (open_node-Holds kernel (pos k) [])
        opens in
    after rdev kernel k fd h _ (open_node kernel (pos k) h') found opens (
      Balance-trans h h' (open_node kernel (pos k) h').1 [] [] (fd ∷ [])
        (BusyFrom-Balance kernel k 0 h h' busy) held)
