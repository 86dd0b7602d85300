-- ===== src/Solaris/Feed.antt =====
-- A kernel that answers the reads of the device's file of tun_solaris.go with a stream, and calls of
-- `Read` one after the other.
use subpass.Base.{
  ℕ, zero, suc, ◌+◌, ◌≤◌, ◌<◌, ◌≡◌, refl, ap, sym, ◌∙◌, arith, true, false, none, some, List, [],
  ◌∷◌, ◌++◌, Bytes, length, take, drop, min, ◌==◌, if◌then◌else◌, take-append-drop,
  drop-append_left, length-take,
}
use subpass.Go.Error.{eof}
use subpass.Go.Result.{Result, ok, err}
use subpass.Go.Kernel.{Kernel, History, Call, Reply, File, made}
use subpass.Go.File.{file_read, is_empty}
use subpass.Packet.{Tcpip}
use subpass.Solaris.Reader.{TunDevice, read}
use subpass.Solaris.Buffer.{drop-drop}

-- How many bytes the reads of the descriptor gave.
abbrev given_by : ℕ → Call → Reply → ℕ
given_by fd (Call.read x len) r = if fd == x then length r.text else 0
given_by fd _ r = 0

abbrev pub given : ℕ → History → ℕ
given fd [] = 0
given fd (e ∷ h) = given_by fd e.call e.reply + given fd h

-- The reply to a read, by the bytes that are left, of which it takes n at most.
abbrev pub some_of : Bytes → ℕ → Reply
some_of rest n = record { errno = none; value = length (take n rest); text = take n rest }

-- A read gets as many of the bytes that are left as there is room for, but no more than `size` says,
-- and at least one.
abbrev pub Streams : Kernel → ℕ → (History → ℕ) → Bytes → Type 0
Streams kernel fd size all =
    (h : History) (n : ℕ)
    → kernel h (Call.read fd n) ≡ some_of (drop (given fd h) all) (min n (suc (size h)))

-- The packets that so many calls of `Read` into slices of this length return; a call that returns an
-- error is followed by the next one.
abbrev pub add_packet : Result Bytes → List Bytes → List Bytes
add_packet (ok p) ps = p ∷ ps
add_packet _ ps = ps

unfoldable pub reads : Tcpip → Kernel → ℕ → ℕ → TunDevice → History → List Bytes
unfolding read
reads tcpip kernel len zero tun h = []
reads tcpip kernel len (suc calls) tun h =
    let (tun', r, h') = read tcpip kernel tun len h in
    add_packet r (reads tcpip kernel len calls tun' h')

filled-is_empty : (b : Bytes) → 0 < length b → is_empty b ≡ false
filled-is_empty [] h = absurd (omega arith)
filled-is_empty (x ∷ b) h = refl

empty-is_empty : (b : Bytes) → length b ≡ 0 → is_empty b ≡ true
empty-is_empty [] h = refl
empty-is_empty (x ∷ b) h = absurd (omega arith)

-- A read takes its bytes off the front of what is left.
take-left :
    (k a b : ℕ) (all : Bytes)
    → b ≡ a + length (take k (drop a all))
    → take k (drop a all) ++ drop b all ≡ drop a all
take-left k a b all e =
    let c = take k (drop a all) in
    let cut = take-append-drop k (drop a all) in
    let behind : drop b all ≡ drop k (drop a all) =
      sym (drop-drop a (length c) b all e)
      ∙ ap (drop (length c)) (sym cut)
      ∙ drop-append_left c (drop k (drop a all)) in
    ap (λ t. c ++ t) behind ∙ cut

module _ (kernel : Kernel) (f : File) (size : History → ℕ) (all : Bytes)
    (streams : Streams kernel f.fd size all) where
  abbrev pub left : History → Bytes
  left h = drop (given f.fd h) all

  -- A read while bytes are left, with room.
  pub file_read-left :
      (n : ℕ) (h : History)
      → 0 < n
      → 0 < length (left h)
      → (c : Bytes) × (h' : History) × ((file_read kernel (some f) n h ≡ (ok c, h'))
          × (0 < length c)
          × (length c ≤ n)
          × (c ++ left h' ≡ left h))
  unfolding file_read
  file_read-left n h room more =
      let k = min n (suc (size h)) in
      let c = take k (left h) in
      let h' = made kernel (Call.read f.fd n) h in
      let size_c = length-take k (left h) in
      let reply = streams h n in
      let text : (kernel h (Call.read f.fd n)).text ≡ c = ap (λ r. r.text) reply in
      let filled : 0 < length c = omega arith in
      let some_bytes = filled-is_empty c filled in
      let grown : given f.fd h' ≡ given f.fd h + length c = ground arith in
      (
        c,
        h',
        (ground arith, filled, omega arith, take-left k (given f.fd h) (given f.fd h') all grown),
      )

  -- A read when no bytes are left.
  pub file_read-nothing :
      (n : ℕ) (h : History)
      → 0 < n
      → length (left h) ≡ 0
      → (h' : History) × ((file_read kernel (some f) n h ≡ (err eof, h')) × (length (left h') ≡ 0))
  unfolding file_read
  file_read-nothing n h room none_left =
      let k = min n (suc (size h)) in
      let h' = made kernel (Call.read f.fd n) h in
      let size_c = length-take k (left h) in
      let text : (kernel h (Call.read f.fd n)).text ≡ take k (left h) =
        ap (λ r. r.text) (streams h n) in
      let good : (kernel h (Call.read f.fd n)).errno ≡ none = ap (λ r. r.errno) (streams h n) in
      let no_bytes = empty-is_empty (take k (left h)) (omega arith) in
      let grown : given f.fd h' ≡ given f.fd h = ground arith in
      (h', (ground arith, ap (λ i. length (drop i all)) grown ∙ none_left))
