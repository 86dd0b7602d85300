-- ===== src/Pump/Delivery.antt =====
-- `Copy` ends, and the device has sent the packets of the stream.
use mathlib.Core.Path.{subst}
use subpass.Base.{
  ℕ, zero, suc, ◌+◌, ◌*◌, ◌-◌, ◌≤◌, ◌<◌, ◌≡◌, refl, sym, ap, ◌∙◌, arith, true, append_assoc,
  append-nil,
}
use subpass.Base.{
  none, some, List, [], ◌∷◌, ◌++◌, Bytes, length, take, drop, min, ltb, leb, ◌^◌, ◌%◌,
}
use subpass.Base.{
  drop_all, Bool-cases, inl, inr, le→ltb, length-append, length-take, length-drop, take-append-drop,
  drop-append_left,
}
use subpass.Base.Int.{pos}
use subpass.Go.Error.{Error, Target, is}
use subpass.Go.Kernel.{History, M}
use subpass.Go.Result.{ok}
use subpass.Copy.{
  buff_len, did_read, did_write, Trace, Reader, Writer, reading, writing, returned, State, run,
  copy,
}
use subpass.Copy.Accounting.{consumed}
use subpass.Copy.Progress.{concat}
use subpass.Copy.Steps.{
  on_read-fits, on_write-whole, run_read, run_write, run_stays, after_write_of, copy_lem,
}
use subpass.Pump.{stream, next_bytes, history_of, writer_of, io_result, Sink, sent_all, Packets}
use subpass.Pump.Splits.{longer, shorter}

-- What the buffer holds before a read is less than the packet that comes next.
abbrev Partial : Bytes → List Bytes → Type 0
Partial b [] = b ≡ []
Partial b (p ∷ ps) = length b < length p

after_write-refused :
    (reader : Reader) (writer : Writer) (b : Bytes) (w : ℕ) (t : Trace) (e : Error)
    → is e Target.short_buffer ≡ true
    → after_write_of reader writer b none w t (pos 0, some e) ≡ record {
      point = reading b;
      written = (w + 0) % 2 ^ 64;
      trace = did_write b (pos 0) (some e) ∷ t;
    }
after_write-refused reader writer b w t e short = rw (le→ltb (length b) 0 (omega arith), short)

Partial-none : (IsPacket : Bytes → Type 0) (ps : List Bytes) → Packets IsPacket ps → Partial [] ps
Partial-none IsPacket [] packets = refl
Partial-none IsPacket (p ∷ ps) packets = packets.0.1

module _ (IsPacket : Bytes → Type 0) (write : Bytes → M ℕ) (sink : Sink IsPacket write)
    (h0 : History) (all : Bytes) (size : Trace → ℕ) where
  abbrev reader : Reader
  reader = stream all size

  abbrev writer : Writer
  writer = writer_of write h0

  -- Returned with a nil error, and the packets `rest` sent since the history h.
  abbrev Done : List Bytes → History → State → Type 0
  Done rest h s =
      (s.point ≡ returned [] none) × (history_of write h0 s.trace ≡ sent_all sink.sent rest h)

  module _ (n : ℕ) where
    -- That n calls are enough before a read, and before a write.
    abbrev Reading : Type 0
    Reading =
        (rest : List Bytes) (b rem : Bytes) (w : ℕ) (t : Trace)
        → Packets IsPacket rest
        → Partial b rest
        → consumed t ++ rem ≡ all
        → b ++ rem ≡ concat rest
        → 2 * length rem + length rest + 1 ≤ n
        → Done rest (history_of write h0 t)
            (run reader writer n (record { point = reading b; written = w; trace = t }))

    abbrev Writing : Type 0
    Writing =
        (rest : List Bytes) (b rem : Bytes) (w : ℕ) (t : Trace)
        → Packets IsPacket rest
        → 0 < length b
        → consumed t ++ rem ≡ all
        → b ++ rem ≡ concat rest
        → 2 * length rem + length rest + 2 ≤ n
        → Done rest (history_of write h0 t)
            (run reader writer n (record { point = writing b none; written = w; trace = t }))

  stream-next :
      (t : Trace) (rem : Bytes) (room : ℕ)
      → consumed t ++ rem ≡ all
      → reader t room ≡ next_bytes rem (min room (suc (size t)))
  stream-next t rem room e =
      ap (λ r. next_bytes r (min room (suc (size t))))
        (ap (drop (length (consumed t))) (sym e) ∙ drop-append_left (consumed t) rem)

  -- What the reader gives from `rem`, and what stays.
  read_step : (n : ℕ) → Writing n → Reading (suc n)
  read_step n writes [] b [] w t packets less here there enough =
      subst (Done [] (history_of write h0 t))
        (sym (
          run_read reader writer b w n t (stream-next t [] (buff_len - length b) here)
          ∙ run_stays reader writer n w b none _))
        (ap (λ x. returned x none) less, refl)
  read_step n writes [] b (x ∷ rem) w t packets less here there enough =
      absurd (omega (arith, ap length there, length-append b (x ∷ rem)))
  read_step n writes (p ∷ ps) b [] w t packets less here there enough =
      absurd (omega (arith, ap length there, length-append b [], length-append p (concat ps)))
  read_step n writes (p ∷ ps) b (x ∷ rem) w t packets less here there enough =
      let room = buff_len - length b in
      let k = min room (suc (size t)) in
      let c = take k (x ∷ rem) in
      let left = drop k (x ∷ rem) in
      let cut = take-append-drop k (x ∷ rem) in
      let taken = length-take k (x ∷ rem) in
      let kept = length-drop k (x ∷ rem) in
      subst (Done (p ∷ ps) (history_of write h0 t))
        (sym (
          run_read reader writer b w n t (stream-next t (x ∷ rem) room here)
          ∙ ap
              (λ q.
                run reader writer n
                  (record { point = q; written = w; trace = did_read room c none ∷ t }))
              (on_read-fits room b c (omega arith) (omega arith))))
        (writes (p ∷ ps) (b ++ c) left w (did_read room c none ∷ t) packets
          (omega (arith, length-append b c))
          (append_assoc (consumed t) c left ∙ ap (λ z. consumed t ++ z) cut ∙ here)
          (append_assoc b c left ∙ ap (λ z. b ++ z) cut ∙ there) (omega arith))

  -- The buffer starts with a packet, and the packet is sent.
  write_packet :
      (n : ℕ)
      → Reading n
      → Writing n
      → (p : Bytes) (ps : List Bytes) (b rem : Bytes) (w : ℕ) (t : Trace)
      → Packets IsPacket (p ∷ ps)
      → consumed t ++ rem ≡ all
      → b ++ rem ≡ p ++ concat ps
      → 2 * length rem + length (p ∷ ps) + 2 ≤ suc n
      → length p ≤ length b
      → Done
          (p ∷ ps)
          (history_of write h0 t)
          (run reader writer (suc n) (record { point = writing b none; written = w; trace = t }))
  write_packet n reads writes p ps b rem w t packets here there enough holds =
      let (split, left) = longer b rem p (concat ps) there holds in
      let h = history_of write h0 t in
      let took : write b h ≡ (ok (length p), sink.sent p h) =
        ap (λ z. write z h) split ∙ sink.whole p (drop (length p) b) h packets.0.0 in
      let w' = (after_write_of reader writer b none w t (pos (length p), none)).written in
      let t' = did_write b (pos (length p)) none ∷ t in
      let now : (write b h).1 ≡ sink.sent p h = ap (λ z. z.1) took in
      subst (Done (p ∷ ps) h)
        (sym (
          run_write reader writer b none w n t (ap (λ z. io_result z.0) took)
          ∙ ap
              (λ q.
                run reader writer n
                  (record (after_write_of reader writer b none w t (pos (length p), none)) {
                    point = q;
                  }))
              (on_write-whole b (length p) holds)))
        (elim (Bool-cases (ltb (length p) (length b))) [
          | inl more ↦ rw more (
              let r =
                writes ps (drop (length p) b) rem w' t' packets.1
                  (ground (arith, length-drop (length p) b)) (rw append-nil here) left
                  (omega arith) in
              (r.0, r.1 ∙ ap (sent_all sink.sent ps) now))
          | inr all_sent ↦ rw all_sent (
              let r =
                reads ps [] rem w' t' packets.1 (Partial-none IsPacket ps packets.1)
                  (rw append-nil here) (rw (drop_all (length p) b (ground arith)) at left)
                  (omega arith) in
              (r.0, r.1 ∙ ap (sent_all sink.sent ps) now))
        ])

  -- The buffer holds less than a packet, and is kept.
  write_part :
      (n : ℕ)
      → Reading n
      → (p : Bytes) (ps : List Bytes) (b rem : Bytes) (w : ℕ) (t : Trace)
      → Packets IsPacket (p ∷ ps)
      → 0 < length b
      → consumed t ++ rem ≡ all
      → b ++ rem ≡ p ++ concat ps
      → 2 * length rem + length (p ∷ ps) + 2 ≤ suc n
      → length b < length p
      → Done
          (p ∷ ps)
          (history_of write h0 t)
          (run reader writer (suc n) (record { point = writing b none; written = w; trace = t }))
  write_part n reads p ps b rem w t packets filled here there enough lacks =
      let (x, c, split) = shorter b rem p (concat ps) there lacks in
      let h = history_of write h0 t in
      let (e, refuses, short) = sink.part b x c h (subst IsPacket split packets.0.0) filled in
      let r =
        reads (p ∷ ps) b rem ((w + 0) % 2 ^ 64) (did_write b (pos 0) (some e) ∷ t) packets lacks
          (rw append-nil here) there (omega arith) in
      subst (Done (p ∷ ps) h)
        (sym (
          run_write reader writer b none w n t (ap (λ z. io_result z.0) refuses)
          ∙ ap (run reader writer n) (after_write-refused reader writer b w t e short)))
        (r.0, r.1 ∙ ap (λ z. sent_all sink.sent (p ∷ ps) z.1) refuses)

  write_step : (n : ℕ) → Reading n → Writing n → Writing (suc n)
  write_step n reads writes [] b rem w t packets filled here there enough =
      absurd (omega (arith, ap length there, length-append b rem))
  write_step n reads writes (p ∷ ps) b rem w t packets filled here there enough =
      elim (Bool-cases (leb (length p) (length b))) [
        | inl holds ↦
            write_packet n reads writes p ps b rem w t packets here there enough (ground arith)
        | inr lacks ↦
            write_part n reads p ps b rem w t packets filled here there enough (ground arith)
      ]

  pump : (n : ℕ) → Reading n × Writing n
  pump zero = (
    λ rest b rem w t packets less here there enough. absurd (omega arith),
    λ rest b rem w t packets filled here there enough. absurd (omega arith),
  )
  pump (suc n) = let (reads, writes) = pump n in (read_step n writes, write_step n reads writes)

  -- `Copy` moves a stream of whole packets onto a device: however the stream is cut into reads,
  -- after two calls for each byte, one for each packet and one more it has returned a nil error
  -- with nothing left in its buffer, and the device has sent every packet once, in order, each by
  -- itself.
  pub copy-sent_all :
      (ps : List Bytes) (n : ℕ)
      → Packets IsPacket ps
      → all ≡ concat ps
      → 2 * length all + length ps + 1 ≤ n
      → let s = copy reader writer n in
        (s.point ≡ returned [] none) × (history_of write h0 s.trace ≡ sent_all sink.sent ps h0)
  copy-sent_all ps n packets whole enough =
      rw (copy_lem reader writer n)
        ((pump n).0 ps [] all 0 [] packets (Partial-none IsPacket ps packets) refl whole enough)
