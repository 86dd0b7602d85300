-- ===== src/Go/Kernel.antt =====
-- The system calls of the program and the operating system behind them, as a state monad over the
-- history of the calls; and Go's `defer`.
pub mod Held
pub mod Inversion
pub mod Gives
use subpass.Base.{ℕ, Bool, true, false, Option, none, some, List, [], ◌∷◌, Bytes, String}
use subpass.Go.Error.{Errno, Error, errno, wrap, wrap_path}
use subpass.Go.Result.{Result, ok, err, panic}

-- The requests that the code hands to `ioctl`, with what they point at.
pub data Ioctl : Type 0 where
  -- the BSDs
  -- TUNSIFMODE takes IFF_BROADCAST | IFF_MULTICAST
  tungifname tunsifpid tunsifmode : Ioctl
  tunstransient tunsifhead : ℕ → Ioctl
  siocsifname : Bytes → Bytes → Ioctl
  siocifdestroy : Bytes → Ioctl
  -- Linux
  tunsetiff : Bytes → ℕ → Ioctl
  tunsetpersist tunsetowner tunsetgroup : ℕ → Ioctl
  -- Darwin
  ctliocginfo : Bytes → Ioctl
  -- Solaris: I_STR with TUNNEWPPA, I_PUSH, IF_UNITSEL, I_LINK, I_PLINK, I_PUNLINK, SIOCSLIFMUXID,
  -- SIOCGLIFMUXID
  tunnewppa : Option ℕ → Ioctl
  i_push : Bytes → Ioctl
  if_unitsel i_link i_plink i_punlink : ℕ → Ioctl
  siocslifmuxid : Bytes → ℕ → Ioctl
  siocglifmuxid : Bytes → Ioctl

pub data Family : Type 0 where
  inet system netlink : Family

-- The functions of the package wintun that the code calls, and the two of package windows. An
-- adapter, a session and an event are numbers; a packet is the number of its place in the ring.
pub data Wintun : Type 0 where
  -- the adapter's name; with its type and its GUID
  open_adapter : Bytes → Wintun
  create_adapter : Bytes → Bytes → Option ℕ → Wintun
  close_adapter : ℕ → Wintun
  -- the adapter and the capacity of its rings; the value is the session
  start_session : ℕ → ℕ → Wintun
  end_session read_wait_event : ℕ → Wintun
  -- The text is the packet. After a release it is what is found in the packet's place then.
  receive_packet : ℕ → Wintun
  release_receive_packet : ℕ → ℕ → Wintun
  -- the session and the size; the session, the place and the bytes that stand there
  allocate_send_packet : ℕ → ℕ → Wintun
  send_packet : ℕ → ℕ → Bytes → Wintun
  wait_for_single_object set_event : ℕ → Wintun

pub data Call : Type 0 where
  wintun : Wintun → Call
  -- `unix.Open` and `os.OpenFile`, `unix.Socket`; their value is the descriptor
  open_file : Bytes → Call
  socket : Family → Call
  close : ℕ → Call
  ioctl : ℕ → Ioctl → Call
  -- `unix.CloseOnExec` returns no error.
  set_nonblock fstat close_on_exec : ℕ → Call
  stat : Bytes → Call
  -- path and device number
  mknod : Bytes → ℕ → Call
  -- `net.InterfaceByName`
  interface_by_name : Bytes → Call
  -- `unix.Connect` to a kernel control: the descriptor, its ID and its unit
  connect_ctl : ℕ → ℕ → ℕ → Call
  getsockopt bind : ℕ → Call
  sendto : ℕ → Bytes → Call
  recvfrom : ℕ → ℕ → Call
  -- `os.File.Read` into a slice of that length, and `os.File.Write`
  read : ℕ → ℕ → Call
  write : ℕ → Bytes → Call

-- What a call leaves: its error, if any, the number it returns and the bytes it fills in.
pub record Reply : Type 0 where
  pub errno : Option Errno
  pub value : ℕ
  pub text : Bytes

pub record Event : Type 0 where
  pub call : Call
  pub reply : Reply

-- The latest call stands first.
abbrev pub History : Type 0
History = List Event

-- Any operating system: a reply to each call, by all that was called before.
abbrev pub Kernel : Type 0
Kernel = History → Call → Reply

abbrev pub M : Type 0 → Type 0
M A = History → Result A × History

abbrev pub pure : {A : Type 0} → A → M A
pure a h = (ok a, h)

abbrev pub fail : {A : Type 0} → Error → M A
fail e h = (err e, h)

abbrev pub lift : {A : Type 0} → Result A → M A
lift r h = (r, h)

abbrev pub bind_result : {A B : Type 0} → (A → M B) → Result A × History → Result B × History
bind_result f (ok a, h) = f a h
bind_result f (err e, h) = (err e, h)
bind_result f (panic, h) = (panic, h)

infixl 5 ◌>>=◌ ◌>>◌
abbrev pub ◌>>=◌ : {A B : Type 0} → M A → (A → M B) → M B
◌>>=◌ m f h = bind_result f (m h)

abbrev pub ◌>>◌ : {A B : Type 0} → M A → M B → M B
m >> k = m >>= λ _. k

-- `if cond { return …, err }`
abbrev pub fail_if : Bool → Error → M (Unit {0})
fail_if true e h = (err e, h)
fail_if false e h = (ok tt, h)

abbrev pub call_result : Reply → Option Errno → Result Reply
call_result r none = ok r
call_result r (some e) = err (errno e)

-- One system call.
abbrev pub sys : Kernel → Call → M Reply
sys kernel c h = let r = kernel h c in (call_result r r.errno, record { call = c; reply = r } ∷ h)

-- A call of which only the error is used.
abbrev pub done : Kernel → Call → M (Unit {0})
done kernel c = do sys kernel c; pure tt

-- A call that returns no error.
abbrev pub told : Kernel → Call → M Reply
told kernel c h = (ok (kernel h c), record { call = c; reply = kernel h c } ∷ h)

-- The history after the call.
abbrev pub made : Kernel → Call → History → History
made kernel c h = record { call = c; reply = kernel h c } ∷ h

-- `if err != nil { return …, fmt.Errorf(text + ": %w", err) }` after a call; with a path.
abbrev pub wrap_result : {A : Type 0} → (Error → Error) → Result A × History → Result A × History
wrap_result w (ok a, h) = (ok a, h)
wrap_result w (err e, h) = (err (w e), h)
wrap_result w (panic, h) = (panic, h)

abbrev pub mapping : {A : Type 0} → (Error → Error) → M A → M A
mapping w m h = wrap_result w (m h)

abbrev pub wrapping : {A : Type 0} → String → M A → M A
wrapping text = mapping (wrap text)

abbrev pub wrapping_path : {A : Type 0} → String → Bytes → M A → M A
wrapping_path text path = mapping (wrap_path text path)

-- `defer func() { if err != nil { cleanup } }()`: the rest of the function, and then the cleanup
-- if it returns an error. The cleanup's own result is dropped.
abbrev pub clean_if : {A C : Type 0} → M C → Result A × History → Result A × History
clean_if cleanup (ok a, h) = (ok a, h)
clean_if cleanup (err e, h) = (err e, (cleanup h).1)
clean_if cleanup (panic, h) = (panic, h)

abbrev pub on_error : {A C : Type 0} → M C → M A → M A
on_error cleanup rest h = clean_if cleanup (rest h)

-- `defer cleanup()`
abbrev pub clean : {A C : Type 0} → M C → Result A × History → Result A × History
clean cleanup (r, h) = (r, (cleanup h).1)

abbrev pub finally : {A C : Type 0} → M C → M A → M A
finally cleanup rest h = clean cleanup (rest h)

-- `if err != nil { a second attempt }`
abbrev pub second_if : {A : Type 0} → M A → Result A × History → Result A × History
second_if again (ok a, h) = (ok a, h)
second_if again (err e, h) = again h
second_if again (panic, h) = (panic, h)

abbrev pub or_else : {A : Type 0} → M A → M A → M A
or_else m again h = second_if again (m h)

-- What another thread may have changed: a value that may differ from one moment to the next.
abbrev pub load : {A : Type 0} → (History → A) → M A
load value h = (ok (value h), h)

-- An `*os.File`: its descriptor and its name.
pub record File : Type 0 where
  pub fd : ℕ
  pub name : Bytes

-- A deferred cleanup that is registered under a condition.
abbrev pub on_error_if : {A C : Type 0} → Bool → M C → M A → M A
on_error_if true cleanup rest h = clean_if cleanup (rest h)
on_error_if false cleanup rest h = rest h
