-- ===== src/Relay.antt =====
-- `Copy` between two devices: io_copy.go with the `Read` of one device for its reader and the `Write`
-- of another for its writer.
pub mod Exchange
pub mod Feed
pub mod Tests
use subpass.Base.{ℕ, ◌≤◌, ◌≡◌, Option, none, some, List, [], ◌∷◌, Bytes, length}
use subpass.Base.Int.{ℤ, pos}
use subpass.Go.Error.{Error, new}
use subpass.Go.Result.{Result, ok, err, panic}
use subpass.Go.Kernel.{History, M}
use subpass.Copy.{buff_len, did_read, did_write, Trace, Reader, Writer}
use subpass.Pump.{io_result}

-- The results of a method `Read`: the bytes that it put into the slice, and its error.
abbrev pub io_bytes : Result Bytes → Bytes × Option Error
io_bytes (ok b) = (b, none)
io_bytes (err e) = ([], some e)
io_bytes panic = ([], some (new "panic"))

-- The two devices share the kernel. Its history after the calls of a trace, from h0 on, and the
-- devices as the ends of `Copy`.
module _ (read : ℕ → M Bytes) (write : Bytes → M ℕ) (h0 : History) where
  abbrev pub relayed : Trace → History
  relayed [] = h0
  relayed (did_read room chunk er ∷ t) = (read room (relayed t)).1
  relayed (did_write b nw ew ∷ t) = (write b (relayed t)).1

  abbrev pub source_of : Reader
  source_of t room = io_bytes (read room (relayed t)).0

  abbrev pub target_of : Writer
  target_of t b = io_result (write b (relayed t)).0

-- A device that gives packets: `Supplies ps h` says that from the history h on they are ps, and then
-- the error e. A packet that is sent on the other device changes nothing of that.
pub record Source (IsPacket : Bytes → Type 0) (read : ℕ → M Bytes)
    (sent : Bytes → History → History) (Supplies : List Bytes → History → Type 0) (e : Error)
    : Type 0 where
  pub next :
      (p : Bytes) (ps : List Bytes) (h : History)
      → IsPacket p
      → length p ≤ buff_len
      → Supplies (p ∷ ps) h
      → (h' : History) × ((read buff_len h ≡ (ok p, h')) × Supplies ps h')
  pub last : (h : History) → Supplies [] h → (h' : History) × (read buff_len h ≡ (err e, h'))
  pub beside : (p : Bytes) (ps : List Bytes) (h : History) → Supplies ps h → Supplies ps (sent p h)

-- The calls that `Copy` makes of the two devices: each packet is read and then written, and the last
-- read fails.
abbrev pub exchange : List Bytes → Error → Trace → Trace
exchange [] e t = did_read buff_len [] (some e) ∷ t
exchange (p ∷ ps) e t =
    exchange ps e (did_write p (pos (length p)) none ∷ did_read buff_len p none ∷ t)
