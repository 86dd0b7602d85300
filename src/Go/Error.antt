-- ===== src/Go/Error.antt =====
-- Go's `error` values as this program builds and tests them, and `ErrShortBuffer` of errors.go.
use subpass.Base.{ℕ, Bool, true, false, String, Bytes}

-- `unix.Errno` and, in the second line, `windows.Errno`. The named ones are those that the code
-- tests for.
pub data Errno : Type 0 where
  ebusy eexist enoent : Errno
  error_no_more_items error_handle_eof error_invalid_data error_buffer_overflow : Errno
  other : ℕ → Errno

pub data Error : Type 0 where
  errno : Errno → Error
  -- os.ErrClosed, os.ErrExist, io.EOF
  err_closed err_exist eof : Error
  -- ErrShortBuffer of this package
  err_short_buffer : Error
  -- tcpip.ErrShortBuffer, and the other errors of that package
  tcpip_short_buffer : Error
  tcpip_other : ℕ → Error
  -- errors.New(text), and fmt.Errorf(text) where nothing is wrapped
  new : String → Error
  -- fmt.Errorf(text + ": %w", err), and the same where the text holds a path or a name
  wrap : String → Error → Error
  wrap_path : String → Bytes → Error → Error
  -- fmt.Errorf(text + " " + path + ": %w", nil): a non-nil error that wraps nothing
  wrap_nil : String → Bytes → Error

-- The targets that the code hands to `errors.Is`.
pub data Target : Type 0 where
  short_buffer busy exists not_exist : Target

-- Whether an error that wraps nothing is the target. `unix.Errno` has a method `Is` of its own,
-- by which ENOENT is `os.ErrNotExist`.
abbrev matches : Target → Error → Bool
matches short_buffer err_short_buffer = true
matches busy (errno ebusy) = true
matches exists (errno eexist) = true
matches not_exist (errno enoent) = true
matches _ _ = false

-- `errors.Is(err, target)`: the error itself or one that it wraps.
abbrev pub is : Error → Target → Bool
is (wrap s e) t = is e t
is (wrap_path s p e) t = is e t
is e t = matches t e
