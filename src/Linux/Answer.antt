-- ===== src/Linux/Answer.antt =====
-- What `Destroy` of tun_linux.go makes of the answer to its netlink message.
use subpass.Base.{ℕ, zero, suc, ◌-◌, ◌%◌, ◌^◌, ◌<◌, ◌≤◌, ◌≡◌, ◌≢◌, arith, inl, inr}
use subpass.Base.{Bytes, length, drop, ltb, ◌==◌, if◌then◌else◌, Bool-cases}
use subpass.Go.Error.{Errno, errno, ebusy, eexist, enoent, other, new, wrap}
use subpass.Go.Result.{Result, ok, err, panic, fail_if, ◌>>◌}
use subpass.Linux.Netlink.{get16, get32}

-- unix.Errno(n), by the numbers of Linux.
abbrev pub errno_of : ℕ → Errno
errno_of n =
    if n == 16 then ebusy else if n == 17 then eexist else if n == 2 then enoent else other n

-- unix.Errno(-nlerr.Error): the negative of an int32, which is itself for -2^31, as a 64-bit uintptr.
abbrev negated : ℕ → ℕ
negated code = if ltb (2 ^ 31) code then 2 ^ 32 - code else 2 ^ 64 - code

abbrev check_code : ℕ → Result (Unit {0})
check_code code =
    if code == 0
    then ok tt
    else err (wrap "netlink reject deletion" (errno (errno_of (negated code))))

-- unix.NLMSG_ERROR is 2. The fields are the message's type, at offset 4, and the error, at 16.
pub check_reply : Bytes → Result (Unit {0})
check_reply b = do
  fail_if (ltb (length b) 16) (new "receive netlink reply: short header")
  if get16 (drop 4 b) == 2
      then (fail_if (ltb (length b) 36) (new "receive netlink reply: short error message")
          >> check_code (get32 (drop 16 b)))
      else ok tt

-- What `Destroy` returns for the error number that the kernel reports, 0 being an acknowledgement.
abbrev pub removal : ℕ → Result (Unit {0})
removal n = if n == 0 then ok tt else err (wrap "netlink reject deletion" (errno (errno_of n)))

-- A whole error message with the code -n gives the error of number n, and none for 0.
pub check_reply-code :
    (b : Bytes) (n : ℕ)
    → 36 ≤ length b
    → get16 (drop 4 b) ≡ 2
    → n < 2 ^ 31
    → get32 (drop 16 b) ≡ (2 ^ 32 - n) % 2 ^ 32
    → check_reply b ≡ removal n
unfolding check_reply
check_reply-code b zero long kind small code = ground arith
check_reply-code b (suc n) long kind small code =
    let same : get32 (drop 16 b) ≡ 2 ^ 32 - suc n = omega arith in
    let number : negated (2 ^ 32 - suc n) ≡ suc n = ground arith in ground arith

pub check_reply-ne-panic : (b : Bytes) → check_reply b ≢ panic
unfolding check_reply
check_reply-ne-panic b h = elim (Bool-cases (get16 (drop 4 b) == 2)) [
  | inl kind ↦ ground arith
  | inr kind ↦ ground arith
]
