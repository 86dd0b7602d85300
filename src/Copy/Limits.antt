-- ===== src/Copy/Limits.antt =====
-- Two streams at which `Copy` does not do what was meant.
use mathlib.Core.Path.{subst}
use subpass.Base.{ℕ, zero, suc, ◌≤◌, ◌≡◌, ◌≢◌, refl, ◌∙◌, sym, ap, arith}
use subpass.Base.{none, some, [], ◌∷◌, Bytes, length, le→ltb}
use subpass.Base.Int.{pos}
use subpass.Go.Error.{eof, err_short_buffer}
use subpass.Copy.{
  buff_len, did_read, did_write, Trace, Reader, Writer, reading, returned, run, copy,
}
use subpass.Copy.Steps.{after_write_of, run_read, run_write, run_stays}

module _ (reader : Reader) (writer : Writer) where
  refusal :
      (b : Bytes) (t : Trace)
      → after_write_of reader writer b none 0 t (pos 0, some err_short_buffer) ≡ record {
        point = reading b;
        written = 0;
        trace = did_write b (pos 0) (some err_short_buffer) ∷ t;
      }
  refusal b t = rw (le→ltb (length b) 0 (omega arith))

  -- The first chunk is refused with ErrShortBuffer, and kept.
  first_refused :
      (x : ℕ) (c : Bytes) (n : ℕ)
      → length (x ∷ c) ≤ buff_len
      → reader [] buff_len ≡ (x ∷ c, none)
      → ((t : Trace) → writer t (x ∷ c) ≡ (pos 0, some err_short_buffer))
      → copy reader writer (suc (suc n))
        ≡ run reader writer n (record {
          point = reading (x ∷ c);
          written = 0;
          trace =
              did_write (x ∷ c) (pos 0) (some err_short_buffer)
              ∷ did_read buff_len (x ∷ c) none
              ∷ [];
        })
  unfolding copy
  first_refused x c n fit first refuse =
      run_read reader writer [] 0 (suc n) [] first
      ∙ (rw (le→ltb buff_len (length (x ∷ c)) fit))
      ∙ run_write reader writer (x ∷ c) none 0 n (did_read buff_len (x ∷ c) none ∷ []) (refuse _)
      ∙ ap (run reader writer n) (refusal (x ∷ c) _)

  -- When all that the reader gives is one chunk, which the writer refuses with ErrShortBuffer as
  -- less than a packet, and then no byte and EOF, `Copy` returns a nil error and the count 0; the
  -- chunk stays in its buffer.
  pub copy_drops_tail :
      (x : ℕ) (c : Bytes) (n : ℕ)
      → length (x ∷ c) ≤ buff_len
      → reader [] buff_len ≡ (x ∷ c, none)
      → ((t : Trace) → writer t (x ∷ c) ≡ (pos 0, some err_short_buffer))
      → ((t : Trace) (room : ℕ) → t ≢ [] → reader t room ≡ ([], some eof))
      → let s = copy reader writer (suc (suc (suc n))) in
        (s.point ≡ returned (x ∷ c) none) × (s.written ≡ 0)
  copy_drops_tail x c n fit first refuse last =
      subst (λ s. (s.point ≡ returned (x ∷ c) none) × (s.written ≡ 0))
        (sym (
          first_refused x c (suc n) fit first refuse
          ∙ run_read reader writer (x ∷ c) 0 n _ (last _ _ (cc))
          ∙ run_stays reader writer n 0 (x ∷ c) none _))
        (refl, refl)

  idles :
      (c : Bytes) (n w : ℕ) (t : Trace)
      → length c ≡ buff_len
      → ((t' : Trace) → reader t' 0 ≡ ([], none))
      → (run reader writer n (record { point = reading c; written = w; trace = t })).point
        ≡ reading c
  unfolding run
  idles c zero w t full idle = refl
  idles c (suc n) w t full idle =
      subst (λ s. s.point ≡ reading c)
        (sym (run_read reader writer c w n t {reply = ([], none)} (rw full (idle t))))
        (idles c n w _ full idle)

  -- When the first chunk fills the buffer and the writer refuses it with ErrShortBuffer, `Copy`
  -- asks the reader for bytes with no room to put them. If the reader then returns no byte and no
  -- error, `Copy` never returns: after any number of calls it stands before the next such read.
  pub copy_stuck :
      (x : ℕ) (c : Bytes) (n : ℕ)
      → length (x ∷ c) ≡ buff_len
      → reader [] buff_len ≡ (x ∷ c, none)
      → ((t : Trace) → writer t (x ∷ c) ≡ (pos 0, some err_short_buffer))
      → ((t : Trace) → reader t 0 ≡ ([], none))
      → (copy reader writer (suc (suc n))).point ≡ reading (x ∷ c)
  copy_stuck x c n full first refuse idle =
      rw (first_refused x c n (omega arith) first refuse) (idles (x ∷ c) n 0 _ full idle)
