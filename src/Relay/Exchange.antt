-- ===== src/Relay/Exchange.antt =====
-- That `Copy` hands every packet of one device to the other.
use mathlib.Core.Path.{subst}
use subpass.Base.{
  ℕ, zero, suc, ◌+◌, ◌*◌, ◌≤◌, ◌≡◌, refl, sym, ap, ◌∙◌, arith, none, List, [], ◌∷◌, Bytes, length,
  append-nil, ltb, false,
}
use subpass.Base.Int.{pos}
use subpass.Go.Error.{Error}
use subpass.Go.Result.{ok}
use subpass.Go.Kernel.{History, M}
use subpass.Copy.{
  buff_len, did_read, did_write, Trace, Reader, Writer, reading, returned, State, final_error, run,
  copy, on_write, checked_count, checked_error,
}
use subpass.Copy.Steps.{
  run_read, run_write, run_stays, after_write_of, copy_lem, on_read-fits, on_write-whole,
}
use subpass.Pump.{io_result, Sink, Packets}
use subpass.Relay.{io_bytes, relayed, source_of, target_of, Source, exchange}

on_write-all :
    (p : Bytes)
    → on_write p none
        (checked_count (length p) (pos (length p)))
        (checked_error (length p) (pos (length p)) none)
      ≡ reading []
on_write-all p =
    let none_left : ltb (length p) (length p) ≡ false = ground arith in
    on_write-whole p (length p) (omega arith) ∙ rw none_left refl

module _ (IsPacket : Bytes → Type 0) (read : ℕ → M Bytes) (write : Bytes → M ℕ)
    (sink : Sink IsPacket write) (Supplies : List Bytes → History → Type 0) (e : Error)
    (source : Source IsPacket read sink.sent Supplies e) (h0 : History) where
  abbrev reader : Reader
  reader = source_of read write h0

  abbrev writer : Writer
  writer = target_of read write h0

  -- Returned with the error of the last read, after these calls.
  abbrev Done : List Bytes → Trace → State → Type 0
  Done ps t s = (s.point ≡ returned [] (final_error e)) × (s.trace ≡ exchange ps e t)

  relay :
      (n : ℕ) (ps : List Bytes) (w : ℕ) (t : Trace)
      → Packets IsPacket ps
      → Supplies ps (relayed read write h0 t)
      → 2 * length ps + 1 ≤ n
      → Done ps t (
          run
            (source_of read write h0)
            (target_of read write h0)
            n
            (record { point = reading []; written = w; trace = t }))
  relay zero ps w t packets supplies enough = absurd (omega arith)
  relay (suc n) [] w t packets supplies enough =
      let (h', failed) = source.last (relayed read write h0 t) supplies in
      subst (Done [] t)
        (sym (
          run_read reader writer [] w n t (ap (λ r. io_bytes r.0) failed)
          ∙ run_stays reader writer n w [] _ _))
        (refl, refl)
  relay (suc zero) (p ∷ ps) w t packets supplies enough = absurd (omega arith)
  relay (suc (suc n)) (p ∷ ps) w t packets supplies enough =
      let h = relayed read write h0 t in
      let (whole, filled, fits) = packets.0 in
      let (h1, (got, left)) = source.next p ps h whole fits supplies in
      let t1 : Trace = did_read buff_len p none ∷ t in
      let now : relayed read write h0 t1 ≡ h1 = ap (λ r. r.1) got in
      let took : write p (relayed read write h0 t1) ≡ (ok (length p), sink.sent p h1) =
        ap (λ b. write b (relayed read write h0 t1)) (sym (append-nil p))
        ∙ sink.whole p [] (relayed read write h0 t1) whole
        ∙ ap (λ z. (ok (length p), sink.sent p z)) now in
      let t2 : Trace = did_write p (pos (length p)) none ∷ t1 in
      let sent : relayed read write h0 t2 ≡ sink.sent p h1 = ap (λ r. r.1) took in
      subst (Done (p ∷ ps) t)
        (sym (
          run_read reader writer [] w (suc n) t (ap (λ r. io_bytes r.0) got)
          ∙ ap (λ q. run reader writer (suc n) (record { point = q; written = w; trace = t1 }))
              (on_read-fits buff_len [] p filled fits)
          ∙ run_write reader writer p none w n t1 (ap (λ r. io_result r.0) took)
          ∙ ap
              (λ q.
                run reader writer n
                  (record (after_write_of reader writer p none w t1 (pos (length p), none)) {
                    point = q;
                  }))
              (on_write-all p)))
        (relay n ps _ t2 packets.1 (subst (Supplies ps) (sym sent) (source.beside p ps h1 left))
          (omega arith))

  -- `Copy` between two devices: each packet is read from the one and written to the other in a
  -- call of its own, in order, and with the first error of a read `Copy` returns that error, or
  -- none if it is EOF, with nothing left in its buffer: after two calls for each packet and one.
  pub copy-exchange :
      (ps : List Bytes) (n : ℕ)
      → Packets IsPacket ps
      → Supplies ps h0
      → 2 * length ps + 1 ≤ n
      → let s = copy reader writer n in
        (s.point ≡ returned [] (final_error e)) × (s.trace ≡ exchange ps e [])
  copy-exchange ps n packets supplies enough =
      rw (copy_lem reader writer n) (relay n ps 0 [] packets supplies enough)
