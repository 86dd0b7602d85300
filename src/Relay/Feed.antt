-- ===== src/Relay/Feed.antt =====
-- A kernel that answers the reads of a descriptor with one packet after the other.
use subpass.Base.{
  ℕ, zero, suc, ◌+◌, ◌≤◌, ◌≡◌, ap, ◌∙◌, arith, Option, none, some, List, [], ◌∷◌, Bytes, length,
  drop, ◌==◌, if◌then◌else◌,
}
use subpass.Go.Error.{Errno, Error, errno, eof, wrap}
use subpass.Go.Result.{ok, err}
use subpass.Go.Kernel.{Kernel, History, Call, Reply, M, made}
use subpass.Copy.{buff_len}
use subpass.Relay.{Source}

-- How many reads of the descriptor there were.
abbrev is_read : ℕ → Call → ℕ
is_read fd (Call.read x len) = if fd == x then 1 else 0
is_read fd _ = 0

abbrev pub reads_of : ℕ → History → ℕ
reads_of fd [] = 0
reads_of fd (e ∷ h) = is_read fd e.call + reads_of fd h

-- What stands in a read's reply, by the packets that are left: the next one as it is on the wire, or
-- at last an error, or no bytes, which is EOF.
abbrev pub next_reply : (Bytes → Bytes) → Option Errno → List Bytes → Reply
next_reply wire stop [] = record { errno = stop; value = 0; text = [] }
next_reply wire stop (p ∷ ps) = record { errno = none; value = length (wire p); text = wire p }

abbrev pub error_of : Option Errno → Error
error_of none = eof
error_of (some x) = errno x

-- Reads of this length get the packets `all` in order, and then the error, whatever else is called.
abbrev pub Feeds : Kernel → ℕ → ℕ → (Bytes → Bytes) → Option Errno → List Bytes → Type 0
Feeds kernel fd len wire stop all =
    (h : History) → kernel h (Call.read fd len) ≡ next_reply wire stop (drop (reads_of fd h) all)

-- The packets that are left.
abbrev pub Supplies : ℕ → List Bytes → List Bytes → History → Type 0
Supplies fd all ps h = drop (reads_of fd h) all ≡ ps

drop-suc :
    {A : Type 0} (n : ℕ) (xs : List A) {x : A} {ys : List A}
    → drop n xs ≡ x ∷ ys
    → drop (suc n) xs ≡ ys
drop-suc zero [] e = cc
drop-suc zero (x ∷ xs) e = cc
drop-suc (suc n) [] e = cc
drop-suc (suc n) (x ∷ xs) e = drop-suc n xs e

module _ (IsPacket : Bytes → Type 0) (read : ℕ → M Bytes) (kernel : Kernel) (fd len : ℕ)
    (wire : Bytes → Bytes) (stop : Option Errno) where
  -- What `Read` makes of the two replies.
  abbrev pub Takes : Type 0
  Takes =
      (p : Bytes) (h : History)
      → IsPacket p
      → length p ≤ buff_len
      → kernel h (Call.read fd len) ≡ next_reply wire stop (p ∷ [])
      → read buff_len h ≡ (ok p, made kernel (Call.read fd len) h)

  abbrev pub Stops : Type 0
  Stops =
      (h : History)
      → kernel h (Call.read fd len) ≡ next_reply wire stop []
      → read buff_len h ≡ (err (wrap "read" (error_of stop)), made kernel (Call.read fd len) h)

  reads_of-made :
      (h : History) → reads_of fd (made kernel (Call.read fd len) h) ≡ suc (reads_of fd h)
  reads_of-made h = ground arith

  pub feed :
      (sent : Bytes → History → History) (all : List Bytes)
      → Feeds kernel fd len wire stop all
      → Takes
      → Stops
      → ((p : Bytes) (h : History) → reads_of fd (sent p h) ≡ reads_of fd h)
      → Source IsPacket read sent (Supplies fd all) (wrap "read" (error_of stop))
  feed sent all feeds takes stops still = record {
    next = λ p ps h whole fits left. (
      made kernel (Call.read fd len) h,
      (
        takes p h whole fits (feeds h ∙ ap (next_reply wire stop) left),
        ap (λ n. drop n all) (reads_of-made h) ∙ drop-suc (reads_of fd h) all left,
      ),
    );
    last = λ h left.
        (made kernel (Call.read fd len) h, stops h (feeds h ∙ ap (next_reply wire stop) left));
    beside = λ p ps h left. ap (λ n. drop n all) (still p h) ∙ left;
  }
