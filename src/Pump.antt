-- ===== src/Pump.antt =====
-- `Copy` onto a device: io_copy.go with a stream of bytes for its reader and the `Write` of a device
-- for its writer.
pub mod Splits
pub mod Delivery
pub mod Tests
use subpass.Base.{ℕ, suc, ◌≤◌, ◌<◌, ◌≡◌, true, Option, none, some, List, [], ◌∷◌, ◌++◌, Bytes}
use subpass.Base.{length, take, drop, min}
use subpass.Base.Int.{ℤ, pos}
use subpass.Go.Error.{Error, Target, eof, is, new}
use subpass.Go.Result.{Result, ok, err, panic}
use subpass.Go.Kernel.{History, M}
use subpass.Copy.{buff_len, did_read, did_write, Trace, Reader, Writer}
use subpass.Copy.Accounting.{consumed}

-- A stream that gives its bytes in order, as many in each call as there is room for but no more
-- than `size` says and at least one, and then EOF.
abbrev pub next_bytes : Bytes → ℕ → Bytes × Option Error
next_bytes [] n = ([], some eof)
next_bytes (x ∷ rest) n = (take n (x ∷ rest), none)

abbrev pub stream : Bytes → (Trace → ℕ) → Reader
stream all size t room = next_bytes (drop (length (consumed t)) all) (min room (suc (size t)))

-- The results of a method `Write`. A panic would end `Copy` as well; `Sink` excludes it.
abbrev pub io_result : Result ℕ → ℤ × Option Error
io_result (ok n) = (pos n, none)
io_result (err e) = (pos 0, some e)
io_result panic = (pos 0, some (new "panic"))

-- The device's history after the writes of a trace, from the history h0 on.
module _ (write : Bytes → M ℕ) (h0 : History) where
  abbrev pub history_of : Trace → History
  history_of [] = h0
  history_of (did_read room chunk er ∷ t) = history_of t
  history_of (did_write b nw ew ∷ t) = (write b (history_of t)).1

  abbrev pub writer_of : Writer
  writer_of t b = io_result (write b (history_of t)).0

-- What `Copy` needs of a device for packets of a kind: a slice that starts with a packet is taken up
-- to the packet's end, with what the device makes of it in the history; and of less than a packet
-- the device takes nothing and says ErrShortBuffer.
pub record Sink (IsPacket : Bytes → Type 0) (write : Bytes → M ℕ) : Type 0 where
  pub sent : Bytes → History → History
  pub whole :
      (p rest : Bytes) (h : History) → IsPacket p → write (p ++ rest) h ≡ (ok (length p), sent p h)
  pub part :
      (b : Bytes) (x : ℕ) (c : Bytes) (h : History)
      → IsPacket (b ++ (x ∷ c))
      → 0 < length b
      → (e : Error) × (write b h ≡ (err e, h)) × (is e Target.short_buffer ≡ true)

-- The packets one after the other, on the device.
abbrev pub sent_all : (Bytes → History → History) → List Bytes → History → History
sent_all sent [] h = h
sent_all sent (p ∷ ps) h = sent_all sent ps (sent p h)

-- Packets that are not empty and fit into the buffer of `Copy`.
abbrev pub Packets : (Bytes → Type 0) → List Bytes → Type 0
Packets IsPacket [] = Unit
Packets IsPacket (p ∷ ps) =
    (IsPacket p × (0 < length p) × (length p ≤ buff_len)) × Packets IsPacket ps
