-- ===== src/Mknod/Indexed.antt =====
-- Opening the device of an index that was asked for.
use subpass.Base.{ℕ, refl, Bool, true, false, List, [], ◌∷◌}
use subpass.Base.Int.{ℤ}
use subpass.Go.Error.{Error, Target, is}
use subpass.Go.Result.{Result, ok, err, panic}
use subpass.Go.Kernel.{Kernel, History}
use subpass.Go.Kernel.Held.{
  Holds, Ends, Ends-after, bind-Holds, pure-Holds, sys-Holds, mapping-Holds,
}
use subpass.Mknod.{
  Rdev, open_node, create_tun_node, create_and_open, if_missing, after_open, create_indexed_tun,
}
use subpass.Mknod.Search.{open_node-Holds}

module _ (rdev : Rdev) (kernel : Kernel) (i : ℤ) where
  create_tun_node-Holds : (a : List ℕ) → Holds a (create_tun_node rdev kernel i) (λ _. a) a
  unfolding create_tun_node
  create_tun_node-Holds a =
      bind-Holds _ _ a (λ _. a) (λ _. a) a
        (mapping-Holds _ _ a (λ _. a) a (sys-Holds kernel _ a refl))
        (λ stat.
          bind-Holds _ _ a (λ _. a) (λ _. a) a
            (mapping-Holds _ _ a (λ _. a) a (sys-Holds kernel _ a refl))
            (λ _. pure-Holds (λ _. a) a tt))

  create_and_open-Holds : (a : List ℕ) → Holds a (create_and_open rdev kernel i) (λ fd. fd ∷ a) a
  unfolding create_and_open
  create_and_open-Holds a =
      bind-Holds _ _ a (λ _. a) (λ fd. fd ∷ a) a (create_tun_node-Holds a)
        (λ _. mapping-Holds _ _ a (λ fd. fd ∷ a) a (open_node-Holds kernel i a))

  if_missing-Holds :
      (e : Error) (missing : Bool)
      → Holds [] (if_missing rdev kernel i e missing) (λ fd. fd ∷ []) []
  if_missing-Holds e true h = create_and_open-Holds [] h
  if_missing-Holds e false h = λ fd. refl

  after_open-Ends :
      (h : History) (x : Result ℕ × History)
      → Ends h [] (λ fd. fd ∷ []) [] x
      → Ends h [] (λ fd. fd ∷ []) [] (after_open rdev kernel i x)
  after_open-Ends h (ok fd, h') p = p
  after_open-Ends h (panic, h') p = p
  after_open-Ends h (err e, h') p =
      Ends-after h h' [] [] (λ fd. fd ∷ []) []
        (if_missing rdev kernel i e (is e Target.not_exist) h') p
        (if_missing-Holds e (is e Target.not_exist) h')

  -- Whatever the kernel does, opening the device of a given index leaves exactly the descriptor
  -- that it returns open, and none when it returns an error.
  pub create_indexed_tun-Holds : Holds [] (create_indexed_tun rdev kernel i) (λ fd. fd ∷ []) []
  unfolding create_indexed_tun
  create_indexed_tun-Holds h =
      after_open-Ends h (open_node kernel i h) (open_node-Holds kernel i [] h)
