-- ===== src/Copy/Tests.antt =====
-- Runs of `Copy`, and the theorems about it at concrete streams.
use subpass.Base.{ℕ, ◌≡◌, ◌^◌, ◌%◌, refl, arith, none, some, List, [], ◌∷◌, ◌++◌, Bytes}
use subpass.Base.{
  length, replicate, length-replicate, length-take, ◌==◌, ap, suc, ◌≢◌, take, if◌then◌else◌,
}
use subpass.Base.Int.{pos}
use subpass.Go.Error.{eof, err_short_buffer}
use subpass.Copy.{buff_len, Trace, Reader, Writer, returned, reading, did_read, did_write, copy}
use subpass.Copy.Accounting.{
  delivered, consumed, held, Fits, IsAtomic, written-copy, copy_conserves,
}
use subpass.Copy.Outcome.{Explains, copy-Explains}
use subpass.Copy.Progress.{script, MakesProgress, copy-script}
use subpass.Copy.Limits.{copy_drops_tail, copy_stuck}

-- Takes two bytes at a time, and refuses one.
abbrev pairs : Writer
pairs t [] = (pos 0, some err_short_buffer)
pairs t (a ∷ []) = (pos 0, some err_short_buffer)
pairs t (a ∷ b ∷ r) = (pos 2, none)

-- Takes one byte.
abbrev one : Writer
one t b = (pos 1, none)

-- Three bytes, one byte and EOF, whatever the room, cut to it.
abbrev source : Reader
source [] room = (take room (1 ∷ 2 ∷ 3 ∷ []), none)
source (did_read r c e ∷ []) room = (take room (4 ∷ []), none)
source (did_write b n e ∷ t) room = (take room (4 ∷ []), some eof)
source (did_read r c e ∷ t) room = ([], some eof)

copied : copy source pairs 5 ≡ record {
  point = returned [] none;
  written = 4;
  trace =
      did_write (3 ∷ 4 ∷ []) (pos 2) none
      ∷ did_read 65534 (4 ∷ []) (some eof)
      ∷ did_write (3 ∷ []) (pos 0) (some err_short_buffer)
      ∷ did_write (1 ∷ 2 ∷ 3 ∷ []) (pos 2) none
      ∷ did_read 65535 (1 ∷ 2 ∷ 3 ∷ []) none
      ∷ [];
}
unfolding copy
copied = refl

source-Fits : Fits source
source-Fits [] room = omega (arith, length-take {A = ℕ} room (1 ∷ 2 ∷ 3 ∷ []))
source-Fits (did_read r c e ∷ []) room = omega (arith, length-take {A = ℕ} room (4 ∷ []))
source-Fits (did_read r c e ∷ e' ∷ t) room = omega arith
source-Fits (did_write b n e ∷ t) room = omega (arith, length-take {A = ℕ} room (4 ∷ []))

pairs-IsAtomic : IsAtomic pairs
pairs-IsAtomic t [] h = refl
pairs-IsAtomic t (a ∷ []) h = refl
pairs-IsAtomic t (a ∷ b ∷ r) h = cc

written-copy_example :
    (copy source pairs 5).written ≡ length (delivered (copy source pairs 5).trace) % 2 ^ 64
written-copy_example = written-copy source pairs 5

copy_conserves_example :
    delivered (copy source pairs 3).trace ++ held (copy source pairs 3).point
    ≡ consumed (copy source pairs 3).trace
copy_conserves_example = copy_conserves source pairs 3 source-Fits pairs-IsAtomic

copy-Explains_example : Explains none (copy source pairs 5).trace
copy-Explains_example = copy-Explains source pairs 5 [] none (rw copied)

one-MakesProgress : MakesProgress one
one-MakesProgress t b h = (0, refl, omega arith)

abbrev chunks : List Bytes
chunks = (1 ∷ 2 ∷ []) ∷ [] ∷ (3 ∷ []) ∷ []

copy-script_example :
    ((copy (script chunks) one 9).point ≡ returned [] none)
    × (delivered (copy (script chunks) one 9).trace ≡ 1 ∷ 2 ∷ 3 ∷ [])
    × ((copy (script chunks) one 9).written ≡ 3)
copy-script_example = copy-script chunks one one-MakesProgress 9 (omega arith) (omega arith)

-- Refuses everything as less than a packet.
abbrev refuser : Writer
refuser t b = (pos 0, some err_short_buffer)

abbrev half_packet : Reader
half_packet [] room = (0x45 ∷ 0 ∷ [], none)
half_packet (e ∷ t) room = ([], some eof)

half_packet_ends : (t : Trace) (room : ℕ) → t ≢ [] → half_packet t room ≡ ([], some eof)
half_packet_ends [] room h = absurd (h refl)
half_packet_ends (e ∷ t) room h = refl

copy_drops_tail_example :
    ((copy half_packet refuser 3).point ≡ returned (0x45 ∷ 0 ∷ []) none)
    × ((copy half_packet refuser 3).written ≡ 0)
copy_drops_tail_example =
    copy_drops_tail half_packet refuser 0x45 (0 ∷ []) 0 (omega arith) refl (λ t. refl)
      half_packet_ends

chunk : Bytes
chunk = replicate 65534 0

length-chunk : length (0x60 ∷ chunk) ≡ buff_len
unfolding chunk
length-chunk = ap suc (length-replicate {A = ℕ} 65534 0)

abbrev jumbo : Reader
jumbo t room = if room == buff_len then (0x60 ∷ chunk, none) else ([], none)

copy_stuck_example : (copy jumbo refuser 12).point ≡ reading (0x60 ∷ chunk)
copy_stuck_example =
    copy_stuck jumbo refuser 0x60 chunk 10 length-chunk refl (λ t. refl) (λ t. refl)
