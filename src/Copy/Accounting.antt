-- ===== src/Copy/Accounting.antt =====
-- What `Copy` does with the bytes that it read, over any trace of its calls.
use subpass.Base.{ℕ, zero, suc, ◌-◌, ◌^◌, ◌%◌, ◌≤◌, ◌≡◌, refl, sym, ◌∙◌, ap, arith}
use subpass.Base.{
  Bool, true, false, leb, if◌then◌else◌, Option, none, some, [], ◌∷◌, ◌++◌, Bytes, ltb,
}
use subpass.Base.{length, take, append-nil, append_assoc, Bool-cases, inl, inr, le→ltb}
use subpass.Base.{length-append, length-take, length-drop, take-append-drop, take_all}
use subpass.Base.Int.{ℤ, pos, negsuc}
use subpass.Go.Error.{Error, Target, is}
use subpass.Copy.{
  buff_len, Event, did_read, did_write, Trace, Reader, Writer, Point, advance, reading, writing,
  returned, crashed, State, checked_count, checked_error, or_invalid, on_read, on_write, after_read,
  step, start, run, copy,
}

-- The bytes that the writer took: as many of those offered as its count says. A count that is
-- negative or more than what was offered says nothing of the bytes, and stands for none.
abbrev pub counted : ℤ → Bytes → Bytes
counted (pos nw) offered = if leb nw (length offered) then take nw offered else []
counted (negsuc k) offered = []

abbrev taken : Event → Bytes
taken (did_read room chunk er) = []
taken (did_write offered nw ew) = counted nw offered

abbrev got : Event → Bytes
got (did_read room chunk er) = chunk
got (did_write offered nw ew) = []

-- All bytes that the writer took, in order, and all that the reader gave.
abbrev pub delivered : Trace → Bytes
delivered [] = []
delivered (e ∷ t) = delivered t ++ taken e

abbrev pub consumed : Trace → Bytes
consumed [] = []
consumed (e ∷ t) = consumed t ++ got e

-- What the buffer holds.
abbrev pub held : Point → Bytes
held (reading b) = b
held (writing b er) = b
held (returned b e) = b
held (crashed b) = b

-- A reader puts no more bytes into a slice than the slice has room for.
abbrev pub Fits : Reader → Type 0
Fits reader = (t : Trace) (room : ℕ) → length (reader t room).0 ≤ room

abbrev is_short : Option Error → Bool
is_short none = false
is_short (some e) = is e Target.short_buffer

-- A writer that reports ErrShortBuffer has taken nothing.
abbrev pub IsAtomic : Writer → Type 0
IsAtomic writer =
    (t : Trace) (b : Bytes) → is_short (writer t b).1 ≡ true → counted (writer t b).0 b ≡ []

checked_count-le : (n : ℕ) (nw : ℤ) → checked_count n nw ≤ n
checked_count-le n (pos nw) = ground arith
checked_count-le n (negsuc k) = omega arith

-- The count that `Copy` uses is that of the bytes that the writer took.
counted-checked_count : (nw : ℤ) (b : Bytes) → counted nw b ≡ take (checked_count (length b) nw) b
counted-checked_count (pos nw) b = ground arith
counted-checked_count (negsuc k) b = refl

pub counted-take : (n : ℕ) (b : Bytes) → n ≤ length b → counted (pos n) b ≡ take n b
counted-take n b h = ground arith

empty-take : (n : ℕ) (b : Bytes) → n ≤ length b → take n b ≡ [] → n ≡ 0
empty-take n b le e = omega (arith, ap length e, length-take n b)

checked_count-zero : (nw : ℤ) (b : Bytes) → counted nw b ≡ [] → checked_count (length b) nw ≡ 0
checked_count-zero nw b e =
    empty-take (checked_count (length b) nw) b (checked_count-le (length b) nw)
      (sym (counted-checked_count nw b) ∙ e)

abbrev pub InBounds : Point → Type 0
InBounds (crashed b) = ⊥
InBounds p = length (held p) ≤ buff_len

after_read-InBounds :
    (b : Bytes) (er : Option Error) → length b ≤ buff_len → InBounds (after_read b er)
after_read-InBounds b none h = h
after_read-InBounds b (some e) h = h

on_write-InBounds :
    (b : Bytes) (er ew : Option Error) (n : ℕ) → length b ≤ buff_len → InBounds (on_write b er n ew)
on_write-InBounds b er (some e) n h = elim (Bool-cases (is e Target.short_buffer)) [
  | inl short ↦ rw short h
  | inr failed ↦ rw failed (omega (arith, length-drop n b))
]
on_write-InBounds b er none n h = elim (Bool-cases (ltb n (length b))) [
  | inl more ↦ rw more (omega (arith, length-drop n b))
  | inr done ↦ rw done (after_read-InBounds [] er (omega arith))
]

on_read-InBounds :
    (b chunk : Bytes) (er : Option Error)
    → length b ≤ buff_len
    → length chunk ≤ buff_len - length b
    → InBounds (on_read (buff_len - length b) b chunk er)
on_read-InBounds b [] er h fits = after_read-InBounds b er h
on_read-InBounds b (c ∷ chunk) er h fits =
    rw (le→ltb _ _ fits) (omega (arith, length-append b (c ∷ chunk)))

held-after_read : (b : Bytes) (er : Option Error) → held (after_read b er) ≡ b
held-after_read b none = refl
held-after_read b (some e) = refl

held-on_read :
    (room : ℕ) (b chunk : Bytes) (er : Option Error)
    → length chunk ≤ room
    → held (on_read room b chunk er) ≡ b ++ chunk
held-on_read room b [] er fits = held-after_read b er ∙ sym (append-nil b)
held-on_read room b (c ∷ chunk) er fits = rw (le→ltb _ _ fits)

-- What the writer took and what is kept make up what was offered.
take-held-on_write :
    (b : Bytes) (er ew : Option Error) (n : ℕ)
    → (is_short ew ≡ true → n ≡ 0)
    → take n b ++ held (on_write b er n ew) ≡ b
take-held-on_write b er (some e) n atomic = elim (Bool-cases (is e Target.short_buffer)) [
  | inl short ↦ rw (atomic short, short)
  | inr failed ↦ rw failed (take-append-drop n b)
]
take-held-on_write b er none n atomic = elim (Bool-cases (ltb n (length b))) [
  | inl more ↦ rw more (take-append-drop n b)
  | inr done ↦ rw (done, held-after_read) (rw append-nil (take_all n b (ground arith)))
]

is_short-or_invalid : (ew : Option Error) → is_short (or_invalid ew) ≡ true → is_short ew ≡ true
is_short-or_invalid none h = cc
is_short-or_invalid (some e) h = h

is_short-checked_error :
    (n : ℕ) (nw : ℤ) (ew : Option Error)
    → is_short (checked_error n nw ew) ≡ true
    → is_short ew ≡ true
is_short-checked_error n (pos k) ew h = elim (Bool-cases (ltb n k)) [
  | inl more ↦ is_short-or_invalid ew (rw more at h)
  | inr fine ↦ rw fine at h
]
is_short-checked_error n (negsuc k) ew h = is_short-or_invalid ew h

module _ (reader : Reader) (writer : Writer) where
  -- A statement about a state, and one step from it, carried along the loop.
  pub run_invariant {ℓ} :
      (P : State → Type ℓ)
      → ((p : Point) (w : ℕ) (t : Trace)
          → P (record { point = p; written = w; trace = t })
          → P (advance reader writer p w t))
      → (n : ℕ) (s : State) → P s
      → P (run reader writer n s)
  unfolding run step
  run_invariant P keep zero s h = h
  run_invariant P keep (suc n) s h =
      run_invariant P keep n (step reader writer s) (keep s.point s.written s.trace h)

  advance-InBounds :
      (p : Point) (w : ℕ) (t : Trace)
      → Fits reader
      → InBounds p
      → InBounds (advance reader writer p w t).point
  unfolding advance
  advance-InBounds (reading b) w t fits h = on_read-InBounds b _ _ h (fits t (buff_len - length b))
  advance-InBounds (writing b er) w t fits h =
      on_write-InBounds b er (checked_error (length b) (writer t b).0 (writer t b).1)
        (checked_count (length b) (writer t b).0) h
  advance-InBounds (returned b e) w t fits h = h
  advance-InBounds (crashed b) w t fits h = h

  -- With a reader that respects the room it is given, whatever the writer does, the buffer never
  -- holds more than its 65535 bytes and no slice of it is out of range.
  pub copy-InBounds : (n : ℕ) → Fits reader → InBounds (copy reader writer n).point
  unfolding copy
  copy-InBounds n fits =
      run_invariant (λ s. InBounds s.point) (λ p w t h. advance-InBounds p w t fits h) n start
        (omega arith)

  advance-written :
      (p : Point) (w : ℕ) (t : Trace)
      → w ≡ length (delivered t) % 2 ^ 64
      → (advance reader writer p w t).written
        ≡ length (delivered (advance reader writer p w t).trace) % 2 ^ 64
  unfolding advance
  advance-written (reading b) w t h = rw append-nil h
  advance-written (writing b er) w t h =
      let n = checked_count (length b) (writer t b).0 in
      rw (counted-checked_count, length-append, length-take)
        (omega (arith, checked_count-le (length b) (writer t b).0))
  advance-written (returned b e) w t h = h
  advance-written (crashed b) w t h = h

  -- The count that is returned is the number of bytes that the writer took, modulo 2^64, whatever
  -- the reader and the writer do. What a writer took is what its count says; a count that is
  -- negative or more than what was offered stands for no byte.
  pub written-copy :
      (n : ℕ)
      → (copy reader writer n).written ≡ length (delivered (copy reader writer n).trace) % 2 ^ 64
  unfolding copy
  written-copy n =
      run_invariant (λ s. s.written ≡ length (delivered s.trace) % 2 ^ 64) advance-written n start
        refl

  advance-Conserves :
      (p : Point) (w : ℕ) (t : Trace)
      → Fits reader
      → IsAtomic writer
      → delivered t ++ held p ≡ consumed t
      → let s = advance reader writer p w t in delivered s.trace ++ held s.point ≡ consumed s.trace
  unfolding advance
  advance-Conserves (reading b) w t fits atomic h =
      rw append-nil (rw (held-on_read _ b _ _ (fits t (buff_len - length b)), ← append_assoc, h))
  advance-Conserves (writing b er) w t fits atomic h =
      rw (counted-checked_count, append_assoc, append-nil)
        (ap (λ x. delivered t ++ x)
            (take-held-on_write b er (checked_error (length b) (writer t b).0 (writer t b).1)
              (checked_count (length b) (writer t b).0)
              (λ short. checked_count-zero (writer t b).0 b (
                atomic t b
                  (is_short-checked_error (length b) (writer t b).0 (writer t b).1 short))))
          ∙ h)
  advance-Conserves (returned b e) w t fits atomic h = h
  advance-Conserves (crashed b) w t fits atomic h = h

  -- When the reader respects the room it is given and the writer takes nothing of a packet that it
  -- refuses with ErrShortBuffer, every byte that was read has been taken by the writer or is in
  -- the buffer, in the order of the stream and once, after any number of calls.
  pub copy_conserves :
      (n : ℕ)
      → Fits reader
      → IsAtomic writer
      → let s = copy reader writer n in delivered s.trace ++ held s.point ≡ consumed s.trace
  unfolding copy
  copy_conserves n fits atomic =
      run_invariant (λ s. delivered s.trace ++ held s.point ≡ consumed s.trace)
        (λ p w t h. advance-Conserves p w t fits atomic h) n start refl
