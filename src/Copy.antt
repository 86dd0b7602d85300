-- ===== src/Copy.antt =====
-- io_copy.go: `Copy(dst, src)`, as a machine that makes one call of the reader or of the writer
-- in each step.
pub mod Accounting
pub mod Progress
pub mod Steps
pub mod Limits
pub mod Outcome
pub mod Tests
use subpass.Base.{ℕ, zero, suc, ◌+◌, ◌-◌, ◌^◌, ◌%◌, Bool, true, false, Option, none, some}
use subpass.Base.{List, [], ◌∷◌, ◌++◌, Bytes, ltb, ◌==◌, if◌then◌else◌, length, drop, take}
use subpass.Base.Int.{ℤ, pos, negsuc}
use subpass.Go.Error.{Error, Target, eof, new, is}

-- len(buff), math.MaxUint16
abbrev pub buff_len : ℕ
buff_len = 65535

-- What crossed the two interfaces: a read with the room it was given, the bytes that it put there
-- and its error; a write with the bytes offered, the count returned and its error.
pub data Event : Type 0 where
  did_read : ℕ → Bytes → Option Error → Event
  did_write : Bytes → ℤ → Option Error → Event

-- The latest event stands first.
abbrev pub Trace : Type 0
Trace = List Event

-- `io.Reader` and `io.Writer`: any behaviour, which may depend on all that happened before. The
-- length of the bytes that a read returns is its count.
abbrev pub Reader : Type 0
Reader = Trace → ℕ → Bytes × Option Error

abbrev pub Writer : Type 0
Writer = Trace → Bytes → ℤ × Option Error

-- Where the code stands: before `src.Read` with `buff[:offset]` filled, before `dst.Write` with
-- `buff[:nr]` filled and the error of the last read, returned with what the buffer still holds, or
-- stopped by a slice out of range.
pub data Point : Type 0 where
  reading : Bytes → Point
  writing : Bytes → Option Error → Point
  returned : Bytes → Option Error → Point
  crashed : Bytes → Point

-- `written` is an int64, kept modulo 2^64.
pub record State : Type 0 where
  pub point : Point
  pub written : ℕ
  pub trace : Trace

-- The test `nw < 0 || nr < nw`, and what it makes of the writer's results.
abbrev pub checked_count : ℕ → ℤ → ℕ
checked_count nr (pos nw) = if ltb nr nw then 0 else nw
checked_count nr (negsuc _) = 0

abbrev pub or_invalid : Option Error → Option Error
or_invalid none = some (new "invalid write result")
or_invalid (some e) = some e

abbrev pub checked_error : ℕ → ℤ → Option Error → Option Error
checked_error nr (pos nw) ew = if ltb nr nw then or_invalid ew else ew
checked_error nr (negsuc _) ew = or_invalid ew

-- `if er != io.EOF { err = er }`
abbrev pub final_error : Error → Option Error
final_error eof = none
final_error e = some e

-- The end of the loop's body, when all bytes of the buffer are written.
abbrev pub after_read : Bytes → Option Error → Point
after_read held none = reading held
after_read held (some e) = returned held (final_error e)

-- After the reader's return, `n` bytes of room having been given.
abbrev pub on_read : ℕ → Bytes → Bytes → Option Error → Point
on_read room held [] er = after_read held er
on_read room held (c ∷ chunk) er =
    if ltb room (length (c ∷ chunk)) then crashed held else writing (held ++ (c ∷ chunk)) er

-- After the writer's return, with the checked count and error.
abbrev pub on_write : Bytes → Option Error → ℕ → Option Error → Point
on_write held er nw (some e) =
    if is e Target.short_buffer then reading held else returned (drop nw held) (some e)
on_write held er nw none =
    if ltb nw (length held) then writing (drop nw held) er else after_read [] er

-- One call and what follows it, up to the next call.
pub advance : Reader → Writer → Point → ℕ → Trace → State
advance reader writer (reading held) written trace =
    let room = buff_len - length held in
    let (chunk, er) = reader trace room in
    record {
      point = on_read room held chunk er;
      written = written;
      trace = did_read room chunk er ∷ trace;
    }
advance reader writer (writing held er) written trace =
    let (nw, ew) = writer trace held in
    let count = checked_count (length held) nw in
    record {
      point = on_write held er count (checked_error (length held) nw ew);
      written = (written + count) % 2 ^ 64;
      trace = did_write held nw ew ∷ trace;
    }
advance reader writer (returned held e) written trace = record {
  point = returned held e;
  written = written;
  trace = trace;
}
advance reader writer (crashed held) written trace = record {
  point = crashed held;
  written = written;
  trace = trace;
}

pub step : Reader → Writer → State → State
unfolding advance
step reader writer s = advance reader writer s.point s.written s.trace

abbrev pub start : State
start = record { point = reading []; written = 0; trace = [] }

-- The loop, for a number of calls.
pub run : Reader → Writer → ℕ → State → State
run reader writer zero s = s
run reader writer (suc n) s = run reader writer n (step reader writer s)

pub copy : Reader → Writer → ℕ → State
unfolding run step
copy reader writer calls = run reader writer calls start
