-- ===== src/Copy/Steps.antt =====
-- One call of `Copy`'s loop, by what the reader or the writer answers.
use subpass.Base.{ℕ, zero, suc, ◌+◌, ◌-◌, ◌^◌, ◌%◌, ◌≡◌, refl, ap}
use subpass.Base.{
  Option, none, [], ◌∷◌, ◌++◌, Bytes, length, ltb, le→ltb, arith, ◌≤◌, ◌<◌, drop, if◌then◌else◌,
}
use subpass.Base.Int.{ℤ, pos}
use subpass.Go.Error.{Error}
use subpass.Copy.{
  buff_len, did_read, did_write, Trace, Reader, Writer, advance, reading, writing, returned, State,
  checked_count, checked_error, on_read, on_write, step, start, run, copy,
}

module _ (reader : Reader) (writer : Writer) where
  -- The state after the reader, or the writer, has answered thus.
  abbrev pub after_read_of : Bytes → ℕ → Trace → Bytes × Option Error → State
  after_read_of b w t (chunk, er) =
      let room = buff_len - length b in
      record { point = on_read room b chunk er; written = w; trace = did_read room chunk er ∷ t }

  abbrev pub after_write_of : Bytes → Option Error → ℕ → Trace → ℤ × Option Error → State
  after_write_of b er w t (nw, ew) =
      let count = checked_count (length b) nw in
      record {
        point = on_write b er count (checked_error (length b) nw ew);
        written = (w + count) % 2 ^ 64;
        trace = did_write b nw ew ∷ t;
      }

  pub run_read :
      (b : Bytes) (w n : ℕ) (t : Trace) {reply : Bytes × Option Error}
      → reader t (buff_len - length b) ≡ reply
      → run reader writer (suc n) (record { point = reading b; written = w; trace = t })
        ≡ run reader writer n (after_read_of b w t reply)
  unfolding run step advance
  run_read b w n t h = ap (λ r. run reader writer n (after_read_of b w t r)) h

  pub run_write :
      (b : Bytes) (er : Option Error) (w n : ℕ) (t : Trace) {reply : ℤ × Option Error}
      → writer t b ≡ reply
      → run reader writer (suc n) (record { point = writing b er; written = w; trace = t })
        ≡ run reader writer n (after_write_of b er w t reply)
  unfolding run step advance
  run_write b er w n t h = ap (λ r. run reader writer n (after_write_of b er w t r)) h

  pub run_stays :
      (n w : ℕ) (b : Bytes) (e : Option Error) (t : Trace)
      → run reader writer n (record { point = returned b e; written = w; trace = t })
        ≡ record { point = returned b e; written = w; trace = t }
  unfolding run step advance
  run_stays zero w b e t = refl
  run_stays (suc n) w b e t = run_stays n w b e t

  pub copy_lem : (n : ℕ) → copy reader writer n ≡ run reader writer n start
  unfolding copy
  copy_lem n = refl

-- A read within the room.
pub on_read-fits :
    (room : ℕ) (b c : Bytes)
    → 0 < length c
    → length c ≤ room
    → on_read room b c none ≡ writing (b ++ c) none
on_read-fits room b [] filled fits = absurd (omega arith)
on_read-fits room b (x ∷ c) filled fits = rw (le→ltb _ _ fits)

-- A write of k bytes that succeeds.
pub on_write-whole :
    (b : Bytes) (k : ℕ)
    → k ≤ length b
    → on_write b none (checked_count (length b) (pos k)) (checked_error (length b) (pos k) none)
      ≡ (if ltb k (length b) then writing (drop k b) none else reading [])
on_write-whole b k fits = rw (le→ltb _ _ fits)
