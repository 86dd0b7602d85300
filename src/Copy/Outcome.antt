-- ===== src/Copy/Outcome.antt =====
-- Why `Copy` returns, and what its error is.
use subpass.Base.{ℕ, ◌<◌, arith, ◌≡◌, ◌≢◌, refl, ◌⊎◌, inl, inr, false}
use subpass.Base.{Option, none, some, [], ◌∷◌, Bytes, length, ltb, Bool-cases}
use subpass.Base.{◌-◌}
use subpass.Base.Int.{ℤ, pos, negsuc}
use subpass.Go.Error.{Error, Target, is, eof, new}
use subpass.Copy.{
  buff_len, did_read, did_write, Trace, Reader, Writer, Point, advance, reading, writing, returned,
  crashed, checked_count, checked_error, on_read, on_write, after_read, final_error, start, copy,
}
use subpass.Copy.Accounting.{run_invariant}

-- The error of the latest read.
abbrev pub read_error : Trace → Option Error
read_error [] = none
read_error (did_read room chunk er ∷ t) = er
read_error (did_write b nw ew ∷ t) = read_error t

-- A count that is negative or more than what was offered.
abbrev pub IsInvalid : ℕ → ℤ → Type 0
IsInvalid offered (pos nw) = offered < nw
IsInvalid offered (negsuc k) = Unit

-- The latest call is a write that failed: the writer gave the error, or gave none with a count that
-- is invalid.
abbrev pub IsFailed : Error → Trace → Type 0
IsFailed e (did_write b nw ew ∷ t) =
    (ew ≡ some e) ⊎ ((ew ≡ none) × IsInvalid (length b) nw × (e ≡ new "invalid write result"))
IsFailed e _ = ⊥

-- A nil error means that the reader said EOF. Any other error is the reader's, and not EOF, or that
-- of a failed write, and not ErrShortBuffer.
abbrev pub Explains : Option Error → Trace → Type 0
Explains none t = read_error t ≡ some eof
Explains (some e) t =
    ((read_error t ≡ some e) × (e ≢ eof)) ⊎ (IsFailed e t × (is e Target.short_buffer ≡ false))

checked_error-IsFailed :
    (b : Bytes) (nw : ℤ) (ew : Option Error) (t : Trace) {e : Error}
    → checked_error (length b) nw ew ≡ some e
    → IsFailed e (did_write b nw ew ∷ t)
checked_error-IsFailed b nw (some x) t h = inl (same nw h)
  where
    same : (nw : ℤ) {e : Error} → checked_error (length b) nw (some x) ≡ some e → some x ≡ some e
    same (pos k) h = ground arith
    same (negsuc k) h = h
checked_error-IsFailed b (pos nw) none t h = inr (refl, ground arith, ground arith)
checked_error-IsFailed b (negsuc k) none t h = inr (refl, tt, ground arith)

abbrev IsCaused : Point → Trace → Type 0
IsCaused (reading b) t = Unit
IsCaused (writing b er) t = read_error t ≡ er
IsCaused (returned b e) t = Explains e t
IsCaused (crashed b) t = Unit

final_error-Explains : (e : Error) (t : Trace) → read_error t ≡ some e → Explains (final_error e) t
final_error-Explains eof t h = h
final_error-Explains e t h = inl (h, cc)

after_read-IsCaused :
    (b : Bytes) (er : Option Error) (t : Trace) → read_error t ≡ er → IsCaused (after_read b er) t
after_read-IsCaused b none t h = tt
after_read-IsCaused b (some e) t h = final_error-Explains e t h

on_read-IsCaused :
    (room : ℕ) (b chunk : Bytes) (er : Option Error) (t : Trace)
    → read_error t ≡ er
    → IsCaused (on_read room b chunk er) t
on_read-IsCaused room b [] er t h = after_read-IsCaused b er t h
on_read-IsCaused room b (c ∷ chunk) er t h = elim (Bool-cases (ltb room (length (c ∷ chunk)))) [
  | inl over ↦ rw over tt
  | inr fits ↦ rw fits h
]

on_write-IsCaused :
    (b : Bytes) (er ew : Option Error) (n : ℕ) (t : Trace)
    → read_error t ≡ er
    → ((e : Error) → ew ≡ some e → IsFailed e t)
    → IsCaused (on_write b er n ew) t
on_write-IsCaused b er (some e) n t h k = elim (Bool-cases (is e Target.short_buffer)) [
  | inl short ↦ rw short tt
  | inr failed ↦ rw failed (inr (k e refl, failed))
]
on_write-IsCaused b er none n t h k = elim (Bool-cases (ltb n (length b))) [
  | inl more ↦ rw more h
  | inr done ↦ rw done (after_read-IsCaused [] er t h)
]

module _ (reader : Reader) (writer : Writer) where
  advance-IsCaused :
      (p : Point) (w : ℕ) (t : Trace)
      → IsCaused p t
      → IsCaused (advance reader writer p w t).point (advance reader writer p w t).trace
  unfolding advance
  advance-IsCaused (reading b) w t h =
      let room = buff_len - length b in
      let (chunk, er) = reader t room in
      on_read-IsCaused room b chunk er (did_read room chunk er ∷ t) refl
  advance-IsCaused (writing b er) w t h =
      on_write-IsCaused b er (checked_error (length b) (writer t b).0 (writer t b).1)
        (checked_count (length b) (writer t b).0) (did_write b (writer t b).0 (writer t b).1 ∷ t) h
        (λ e failed. checked_error-IsFailed b (writer t b).0 (writer t b).1 t failed)
  advance-IsCaused (returned b e) w t h = h
  advance-IsCaused (crashed b) w t h = tt

  -- Whatever the reader and the writer do, when `Copy` returns a nil error the latest read reported
  -- EOF. Any other error that it returns is the one of the latest read, and not EOF; or the latest
  -- call is a write, and the error is the one that the writer gave, or "invalid write result" if it
  -- gave none with a count that is negative or more than it was offered, and not ErrShortBuffer.
  pub copy-Explains :
      (n : ℕ) (b : Bytes) (e : Option Error)
      → (copy reader writer n).point ≡ returned b e
      → Explains e (copy reader writer n).trace
  unfolding copy
  copy-Explains n b e h =
      rw h at
        (run_invariant reader writer (λ s. IsCaused s.point s.trace) advance-IsCaused n start tt)
