-- ===== src/Windows/Closing/Invariant.antt =====
-- What holds of every state that a device's threads reach.
use subpass.Base.{ℕ, ◌+◌, ◌≤◌, ◌<◌, ◌≡◌, refl, arith, List, ◌∷◌, ◌++◌, ◌↔◌, if◌then◌else◌}
use subpass.Windows.Closing.{Shared, State, Pc, idle, Local, Step, unused, fresh, Reachable}
use subpass.Go.Threads.{step, total, total-append, total-replicate, total-le, reachable-all}
use subpass.Windows.Closing.{
  add, load_unset, load_set, wait, retry, return, subtract, swap_unset, swap_set, set_event,
  once_used, running_wait, session_end, adapter_close,
}
use subpass.Windows.Closing.Count.{
  in_use_le, inside, in_use, before_once, within_once, past_wait, past_end,
}

-- The numbers of threads at the places that matter, and the shared fields.
pub record Numbers (m : Shared) (ins user swp sig drn end : ℕ) : Type 0 where
  -- `running` counts the reads and writes that are under way.
  pub counted : m.running ≡ ins
  -- At most one call of `Close` found the flag unset: it is at one of these places or done.
  pub one_closer : swp + sig + drn + end + m.adapter_closes ≡ (if m.closed then 1 else 0)
  pub one_once : sig + drn + end + m.adapter_closes ≡ (if m.once then 1 else 0)
  pub one_end : m.session_ends ≡ end + m.adapter_closes
  -- Nobody uses the session after the wait for `running`.
  pub quiet : 0 < drn + m.session_ends → user ≡ 0

abbrev pub Holds : Shared → List Pc → Type 0
Holds m ps =
    Numbers m (total inside ps) (total in_use ps) (total before_once ps) (total within_once ps)
      (total past_wait ps) (total past_end ps)

abbrev pub Inv : State → Type 0
Inv s = Holds s.shared s.threads

fresh-Inv : (n : ℕ) → Inv (fresh n)
fresh-Inv n = ground (
  arith,
  total-replicate inside n idle refl,
  total-replicate in_use n idle refl,
  total-replicate before_once n idle refl,
  total-replicate within_once n idle refl,
  total-replicate past_wait n idle refl,
  total-replicate past_end n idle refl,
)

module _ (m m' : Shared) (p q : Pc) (ins user swp sig drn end : ℕ) where
  -- The numbers of the other threads, with one thread at p.
  abbrev With : Shared → Pc → Type 0
  With m p =
      Numbers m (inside p + ins) (in_use p + user) (before_once p + swp) (within_once p + sig)
        (past_wait p + drn) (past_end p + end)

  Local-With : Local m p m' q → user ≤ ins → With m p → With m' q
  Local-With (add a b c) fits inv = ground arith
  Local-With (load_unset a b c d) fits inv = ground arith
  Local-With (load_set a b c d) fits inv = ground arith
  Local-With (wait a b c) fits inv = ground arith
  Local-With (retry a b c) fits inv = ground arith
  Local-With (return a b c) fits inv = ground arith
  Local-With (subtract a b c) fits inv = ground arith
  Local-With (swap_unset a b c d) fits inv = ground arith
  Local-With (swap_set a b c d) fits inv = ground arith
  Local-With (set_event a b c d) fits inv = ground arith
  Local-With (once_used a b c d) fits inv = ground arith
  Local-With (running_wait a b c d) fits inv = ground arith
  Local-With (session_end a b c) fits inv = ground arith
  Local-With (adapter_close a b c) fits inv = ground arith

-- The numbers of a list of threads with one of them apart.
apart-Holds :
    (m m' : Shared) (ps before after : List Pc) (p q : Pc)
    → ps ≡ before ++ (p ∷ after)
    → let rest = λ (w : Pc → ℕ). total w before + total w after in
      Holds m ps
      ↔ With m m' p q
          (rest inside)
          (rest in_use)
          (rest before_once)
          (rest within_once)
          (rest past_wait)
          (rest past_end)
          m
          p
apart-Holds m m' ps before after p q split =
    let a = total-append inside before p after in
    let b = total-append in_use before p after in
    let c = total-append before_once before p after in
    let d = total-append within_once before p after in
    let e = total-append past_wait before p after in
    let f = total-append past_end before p after in
    rw split (λ inv. ground arith, λ inv. ground arith)

step-Inv : (s t : State) → Step s t → Inv s → Inv t
step-Inv s t (step before after p q move from to) inv =
    (apart-Holds t.shared s.shared t.threads before after q p to).1 (
      Local-With s.shared t.shared p q _ _ _ _ _ _ move
        (omega
          (arith, total-le in_use inside before in_use_le, total-le in_use inside after in_use_le))
        ((apart-Holds s.shared t.shared s.threads before after p q from).0 inv))

pub reachable-Inv : (s : State) → Reachable s → Inv s
reachable-Inv = reachable-all Local Inv unused idle fresh-Inv step-Inv
