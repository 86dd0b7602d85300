-- ===== src/Go/File.antt =====
-- `os.File.Read` and `os.File.Write` over the descriptor, and `os.File.Close`.
use subpass.Base.{ℕ, Bool, true, false, not, Option, none, some, [], ◌∷◌, Bytes, length}
use subpass.Base.{◌==◌, if◌then◌else◌}
use subpass.Go.Error.{Error, eof, new}
use subpass.Go.Kernel.{read, write, close, Kernel, File, M, pure, fail, fail_if, sys, ◌>>=◌, ◌>>◌}

abbrev pub is_empty : Bytes → Bool
is_empty [] = true
is_empty (x ∷ b) = false

-- The methods of a nil `*os.File` return `os.ErrInvalid`.
abbrev pub invalid : Error
invalid = new "invalid argument"

-- The bytes that a read into a slice of `len` bytes returned; none of them is `io.EOF`. A read into
-- an empty slice makes no call.
unfoldable pub file_read : Kernel → Option File → ℕ → M Bytes
file_read kernel none len = fail invalid
file_read kernel (some f) len =
    if len == 0
    then pure []
    else (do r ← sys kernel (read f.fd len); fail_if (is_empty r.text) eof; pure r.text)

-- A count other than the length is `io.ErrShortWrite`.
unfoldable pub file_write : Kernel → Option File → Bytes → M ℕ
file_write kernel none b = fail invalid
file_write kernel (some f) b = do
  r ← sys kernel (write f.fd b)
  fail_if (not (r.value == length b)) (new "short write")
  pure r.value

-- The close of a file that was not closed before.
unfoldable pub file_close : Kernel → File → M (Unit {0})
file_close kernel f = do sys kernel (close f.fd); pure tt
