-- ===== src/Mknod.antt =====
-- mknod.go: opening a tun character device on NetBSD and OpenBSD, and making its node.
pub mod Search
pub mod Indexed
pub mod Tests
use subpass.Base.{ℕ, zero, suc, ◌+◌, ◌-◌, ◌%◌, ◌^◌, Bool, true, false, ◌++◌, Bytes, codes}
use subpass.Base.Int.{ℤ, pos, negsuc}
use subpass.Go.Error.{Error, Target, is, wrap_path, wrap_nil}
use subpass.Go.Result.{Result, ok, err, panic}
use subpass.Go.Strconv.{format_int}
use subpass.Go.Kernel.{Kernel, History, M, pure, Call, sys, mapping, ◌>>=◌, ◌>>◌}
use subpass.Go.Kernel

-- unix.Major and unix.Mkdev
pub record Rdev : Type 0 where
  pub major : ℕ → ℕ
  pub mkdev : ℕ → ℕ → ℕ

-- fmt.Sprintf("/dev/tun%d", ifIndex)
unfoldable pub node_path : ℤ → Bytes
node_path i = codes "/dev/tun" ++ format_int i

abbrev pub tun_id_max_char : ℕ
tun_id_max_char = 2 ^ 12

-- uint32(ifIndex)
abbrev pub to_uint32 : ℤ → ℕ
to_uint32 (pos n) = n % 2 ^ 32
to_uint32 (negsuc n) = 2 ^ 32 - 1 - n % 2 ^ 32

-- unix.Open
pub open_node : Kernel → ℤ → M ℕ
open_node kernel i = do r ← sys kernel (Call.open_file (node_path i)); pure r.value

-- `os.Stat` of /dev/tun0, whose error names the path, and `unix.Mknod`
pub create_tun_node : Rdev → Kernel → ℤ → M (Unit {0})
create_tun_node rdev kernel i = do
  stat ← mapping (wrap_path "stat" (node_path (pos 0))) (sys kernel (Call.stat (node_path (pos 0))))
  let device = rdev.mkdev (rdev.major stat.value) (to_uint32 i)
  mapping (wrap_path "mknod" (node_path i)) (sys kernel (Call.mknod (node_path i) device))
  pure tt

-- Make the node, and open it again.
pub create_and_open : Rdev → Kernel → ℤ → M ℕ
unfolding create_tun_node open_node
create_and_open rdev kernel i = do
  create_tun_node rdev kernel i
  mapping (wrap_path "open" (node_path i)) (open_node kernel i)

-- The test `!errors.Is(err, os.ErrNotExist)` on an error, and what follows it.
abbrev pub if_missing : Rdev → Kernel → ℤ → Error → Bool → M ℕ
if_missing rdev kernel i e true h = create_and_open rdev kernel i h
if_missing rdev kernel i e false h = (err (wrap_path "open" (node_path i) e), h)

-- The results of the first `unix.Open` in `createIndexedTun`.
abbrev pub after_open : Rdev → Kernel → ℤ → Result ℕ × History → Result ℕ × History
after_open rdev kernel i (ok fd, h) = (ok fd, h)
after_open rdev kernel i (err e, h) = if_missing rdev kernel i e (is e Target.not_exist) h
after_open rdev kernel i (panic, h) = (panic, h)

pub create_indexed_tun : Rdev → Kernel → ℤ → M ℕ
unfolding create_and_open
create_indexed_tun rdev kernel i h = after_open rdev kernel i (open_node kernel i h)

-- Whether the loop goes on: the error is EBUSY.
abbrev pub is_busy : Result ℕ → Bool
is_busy (err e) = is e Target.busy
is_busy _ = false

-- The loop from index `i` on, with `rounds` more indices to try after it: the last index tried and
-- what its `unix.Open` returned.
pub probe : Kernel → ℕ → ℕ → History → ℕ × Result ℕ × History
unfolding open_node
probe kernel zero i h = let (r, h') = open_node kernel (pos i) h in (i, r, h')
probe kernel (suc rounds) i h =
    let (r, h') = open_node kernel (pos i) h in
    elim (is_busy r) [ true ↦ probe kernel rounds (i + 1) h' | false ↦ (i, r, h') ]

-- What follows the loop. `errors.Is` of a nil error is false, so a descriptor that was opened
-- meets the same test as an error that is not ENOENT.
abbrev pub after_probe : Rdev → Kernel → ℕ × Result ℕ × History → Result ℕ × History
after_probe rdev kernel (i, ok fd, h) = (err (wrap_nil "open" (node_path (pos i))), h)
after_probe rdev kernel (i, err e, h) = if_missing rdev kernel (pos i) e (is e Target.not_exist) h
after_probe rdev kernel (i, panic, h) = (panic, h)

unfoldable pub open_tun_from_char_dev : Rdev → Kernel → ℤ → M ℕ
unfolding create_indexed_tun probe
open_tun_from_char_dev rdev kernel (pos i) h = create_indexed_tun rdev kernel (pos i) h
open_tun_from_char_dev rdev kernel (negsuc zero) h =
    after_probe rdev kernel (probe kernel (tun_id_max_char - 1) 0 h)
open_tun_from_char_dev rdev kernel (negsuc (suc n)) h =
    create_indexed_tun rdev kernel (negsuc (suc n)) h
