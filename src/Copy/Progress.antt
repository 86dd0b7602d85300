-- ===== src/Copy/Progress.antt =====
-- `Copy` ends, and delivers a finite stream.
use mathlib.Core.Path.{subst}
use subpass.Base.{ℕ, zero, suc, ◌+◌, ◌≤◌, ◌<◌, ◌≡◌, refl, ◌∙◌, arith, false}
use subpass.Base.{Option, none, some, List, [], ◌∷◌, ◌++◌, Bytes, length, drop, ltb, Bool-cases}
use subpass.Base.{
  if◌then◌else◌, append_assoc, append-nil, take, drop_all, take-append-drop, le→ltb, ◌^◌, ◌%◌, sym,
  ap, length-drop, inl, inr,
}
use subpass.Base.Int.{pos}
use subpass.Go.Error.{Error, eof}
use subpass.Copy.Accounting.{counted, counted-take, delivered, written-copy}
use subpass.Copy.{
  buff_len, did_read, did_write, Trace, Reader, Writer, advance, reading, writing, returned, State,
  on_read, step, run, copy,
}

-- How many reads were made.
abbrev reads : Trace → ℕ
reads [] = 0
reads (did_read room chunk er ∷ t) = suc (reads t)
reads (did_write b nw ew ∷ t) = reads t

abbrev next_chunk : List Bytes → Bytes × Option Error
next_chunk [] = ([], some eof)
next_chunk (c ∷ cs) = (c, none)

-- A reader that gives these chunks, one to each call, and then EOF.
abbrev pub script : List Bytes → Reader
script chunks t room = next_chunk (drop (reads t) chunks)

-- Every chunk fits into the buffer.
abbrev AllFit : List Bytes → Type 0
AllFit [] = Unit
AllFit (c ∷ cs) = (length c ≤ buff_len) × AllFit cs

-- The calls that suffice: one for each read, and at most one for each byte.
abbrev cost : List Bytes → ℕ
cost [] = 1
cost (c ∷ cs) = suc (length c + cost cs)

-- A writer that reports no error and takes at least one of the bytes offered.
abbrev pub MakesProgress : Writer → Type 0
MakesProgress writer =
    (t : Trace) (b : Bytes)
    → 0 < length b
    → (k : ℕ) × (writer t b ≡ (pos (suc k), none)) × (suc k ≤ length b)

run_returned :
    (reader : Reader) (writer : Writer) (n : ℕ) (b : Bytes) (e : Option Error) (w : ℕ) (t : Trace)
    → (run reader writer n (record { point = returned b e; written = w; trace = t })).point
      ≡ returned b e
unfolding run step advance
run_returned reader writer zero b e w t = refl
run_returned reader writer (suc n) b e w t = run_returned reader writer n b e w t

-- The chunks in one piece.
abbrev pub concat : List Bytes → Bytes
concat [] = []
concat (c ∷ cs) = c ++ concat cs

drop-suc :
    (k : ℕ) (all : List Bytes) (c : Bytes) (cs : List Bytes)
    → drop k all ≡ c ∷ cs
    → drop (suc k) all ≡ cs
drop-suc zero [] c cs h = cc
drop-suc zero (d ∷ all) c cs h = cc
drop-suc (suc k) [] c cs h = cc
drop-suc (suc k) (d ∷ all) c cs h = drop-suc k all c cs h

-- Returned with a nil error and an empty buffer, all of `goal` having been delivered.
abbrev Finished : Bytes → State → Type 0
Finished goal s = (s.point ≡ returned [] none) × (delivered s.trace ≡ goal)

-- The bytes that a write took and those that are left are those that were offered.
take_rest :
    (n : ℕ) (d b rest : Bytes)
    → n ≤ length b
    → (d ++ counted (pos n) b) ++ (drop n b ++ rest) ≡ d ++ (b ++ rest)
take_rest n d b rest h = rw (counted-take n b h) (
    append_assoc d (take n b) (drop n b ++ rest)
    ∙ ap (λ x. d ++ x)
        (sym (append_assoc (take n b) (drop n b) rest)
          ∙ ap (λ x. x ++ rest) (take-append-drop n b)))

take_rest_all :
    (n : ℕ) (d b rest : Bytes)
    → n ≤ length b
    → ltb n (length b) ≡ false
    → (d ++ counted (pos n) b) ++ rest ≡ d ++ (b ++ rest)
take_rest_all n d b rest h all = rw (drop_all n b (ground arith)) at (take_rest n d b rest h)

module _ (reader : Reader) (writer : Writer) (goal : Bytes) where
  run-Finished :
      (n w : ℕ) (t : Trace)
      → delivered t ≡ goal
      → Finished goal
          (run reader writer n (record { point = returned [] none; written = w; trace = t }))
  unfolding run step advance
  run-Finished zero w t h = (refl, h)
  run-Finished (suc n) w t h = run-Finished n w t h

  -- What a step makes of a write in which `suc k` bytes were taken.
  after_write :
      (k w : ℕ) (b : Bytes) (t : Trace)
      → writer t b ≡ (pos (suc k), none)
      → suc k ≤ length b
      → step reader writer (record { point = writing b none; written = w; trace = t }) ≡ record {
        point = if ltb (suc k) (length b) then writing (drop (suc k) b) none else reading [];
        written = (w + suc k) % 2 ^ 64;
        trace = did_write b (pos (suc k)) none ∷ t;
      }
  unfolding step advance
  after_write k w b t e h = rw (e, advance) (rw (le→ltb _ _ h))

  -- The writes that empty the buffer, and then whatever comes after them.
  write_out :
      (m : ℕ) (b : Bytes) (r k : ℕ) (rest : Bytes)
      → MakesProgress writer
      → ((w : ℕ) (t : Trace) (n : ℕ)
          → reads t ≡ r
          → delivered t ++ rest ≡ goal
          → k ≤ n
          → Finished goal
              (run reader writer n (record { point = reading []; written = w; trace = t })))
      → (w : ℕ) (t : Trace) (n : ℕ) → length b ≤ m
      → 0 < length b
      → reads t ≡ r
      → delivered t ++ (b ++ rest) ≡ goal
      → length b + k ≤ n
      → Finished goal
          (run reader writer n (record { point = writing b none; written = w; trace = t }))
  unfolding run
  write_out zero b r k rest lively next w t n hm hb hr hd hn = absurd (omega arith)
  write_out (suc m) b r k rest lively next w t zero hm hb hr hd hn = absurd (omega arith)
  write_out (suc m) b r k rest lively next w t (suc n) hm hb hr hd hn =
      let (j, e, le) = lively t b hb in
      subst (λ s. Finished goal (run reader writer n s)) (sym (after_write j w b t e le))
        (elim (Bool-cases (ltb (suc j) (length b))) [
          | inl more ↦ rw more (
              write_out m (drop (suc j) b) r k rest lively next _ _ n
                (omega (arith, length-drop (suc j) b)) (ground (arith, length-drop (suc j) b)) hr
                (take_rest (suc j) (delivered t) b rest le ∙ hd)
                (omega (arith, length-drop (suc j) b)))
          | inr done ↦ rw done (
              next _ _ n hr (take_rest_all (suc j) (delivered t) b rest le done ∙ hd) (omega arith))
        ])

-- What a step makes of a read into the empty buffer.
abbrev after_next : List Bytes → ℕ → Trace → State
after_next rest w t =
    let (chunk, er) = next_chunk rest in
    record {
      point = on_read buff_len [] chunk er;
      written = w;
      trace = did_read buff_len chunk er ∷ t;
    }

step-script :
    (all rest : List Bytes) (writer : Writer) (w : ℕ) (t : Trace)
    → drop (reads t) all ≡ rest
    → step (script all) writer (record { point = reading []; written = w; trace = t })
      ≡ after_next rest w t
unfolding step advance
step-script all rest writer w t h = ap (λ r. after_next r w t) h

-- The whole stream, from the chunk that comes next.
module _ (all : List Bytes) (writer : Writer) (lively : MakesProgress writer) where
  drain :
      (rest : List Bytes) (w : ℕ) (t : Trace) (n : ℕ)
      → AllFit rest
      → drop (reads t) all ≡ rest
      → delivered t ++ concat rest ≡ concat all
      → cost rest ≤ n
      → Finished
          (concat all)
          (run (script all) writer n (record { point = reading []; written = w; trace = t }))
  unfolding run
  drain [] w t zero fit hr hd hn = absurd (omega arith)
  drain [] w t (suc n) fit hr hd hn =
      subst (λ s. Finished (concat all) (run (script all) writer n s))
        (sym (step-script all [] writer w t hr))
        (run-Finished (script all) writer (concat all) n w _ hd)
  drain (c ∷ cs) w t zero fit hr hd hn = absurd (omega arith)
  drain ([] ∷ cs) w t (suc n) fit hr hd hn =
      subst (λ s. Finished (concat all) (run (script all) writer n s))
        (sym (step-script all ([] ∷ cs) writer w t hr))
        (drain cs w _ n fit.1 (drop-suc (reads t) all [] cs hr) (rw append-nil hd) (omega arith))
  drain ((x ∷ c) ∷ cs) w t (suc n) fit hr hd hn =
      subst (λ s. Finished (concat all) (run (script all) writer n s))
        (sym (step-script all ((x ∷ c) ∷ cs) writer w t hr))
        (rw (le→ltb buff_len (length (x ∷ c)) fit.0) (
          write_out (script all) writer (concat all) (length (x ∷ c)) (x ∷ c) (suc (reads t))
            (cost cs) (concat cs) lively
            (λ w' t' n' hr' hd' hn'.
              drain cs w' t' n' fit.1 (rw hr' (drop-suc (reads t) all (x ∷ c) cs hr)) hd' hn')
            w _ n (omega arith) (omega arith) refl (rw append-nil hd) (omega arith)))

  -- A stream of chunks, each of which fits into the buffer, is copied to a writer that takes at
  -- least one byte in each call: after one call for each byte and each read, `Copy` has returned
  -- a nil error, the buffer is empty, the writer has all the bytes in order, and the count is
  -- their number modulo 2^64.
  pub copy-script :
      (n : ℕ)
      → AllFit all
      → cost all ≤ n
      → let s = copy (script all) writer n in
        (s.point ≡ returned [] none)
        × (delivered s.trace ≡ concat all)
        × (s.written ≡ length (concat all) % 2 ^ 64)
  unfolding copy
  copy-script n fit hn =
      let (ends, all_out) = drain all 0 [] n fit refl refl hn in
      (ends, all_out, written-copy (script all) writer n ∙ ap (λ b. length b % 2 ^ 64) all_out)
