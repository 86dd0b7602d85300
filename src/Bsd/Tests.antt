-- ===== src/Bsd/Tests.antt =====
-- The theorems on rw_bsd.go at one packet.
use subpass.Base.{ℕ, ◌≡◌, refl, arith, true, false, none, some, [], ◌∷◌, Bytes, length, replicate}
use subpass.Base.{ap, suc, length-replicate}
use subpass.Go.Result.{ok}
use subpass.Go.Kernel.{Kernel, History, Reply, File, made, Call}
use subpass.Packet.{check_packet_len}
use subpass.Packet.Sample.{sample, ping, whole, whole-IsLawful}
use subpass.Bsd.{TunDevice, Families, read, write}
use subpass.Bsd.Frame.{max_packet_len, frame, copied, unpack}
use subpass.Bsd.Writing.{write_cuts, read-write}
use subpass.Bsd.Close.{run, run-close, do_read, do_write, do_close}

abbrev file : File
file = record { fd = 7; name = [] }

abbrev tun : TunDevice
tun = record { file = some file; closed = false; name = [] }

abbrev families : Families
families = record { af_inet = 2; af_inet6 = 28 }

abbrev answer : ℕ → Bytes → Reply
answer value text = record { errno = none; value = value; text = text }

-- Takes every write whole, and gives the bytes of the last write to a read.
abbrev last_write : History → Bytes
last_write [] = []
last_write (e ∷ h) = written e.call
  where
    written : Call → Bytes
    written (Call.write fd b) = b
    written _ = []

abbrev loopback : Kernel
loopback h (Call.write fd b) = answer (length b) []
loopback h (Call.read fd len) = answer (length (last_write h)) (last_write h)
loopback h _ = answer 0 []

abbrev ping_frame : Bytes
ping_frame = 0 ∷ 0 ∷ 0 ∷ 2 ∷ ping

abbrev sent : History
sent = made loopback (Call.write 7 ping_frame) []

written_ping : write sample families loopback tun ping [] ≡ (ok 20, sent)
unfolding write check_packet_len frame copied
written_ping = refl

read-ping : (read sample loopback tun 1500 sent).0 ≡ ok ping
unfolding read unpack
read-ping = refl

pong : History
pong = made loopback (Call.read 7 max_packet_len) sent

read-write_example :
    (write sample families loopback tun ping [] ≡ (ok 20, sent))
    × ((read sample loopback tun 1500 sent).0 ≡ ok ping)
unfolding check_packet_len frame
read-write_example =
    read-write sample families loopback tun ping 1500 4 [] file (refl, refl) refl (omega arith)
      (omega arith) refl refl

-- An IPv6 packet of 65600 bytes, and a kernel that takes 65539 bytes.
zeros : Bytes
zeros = replicate 65599 0

abbrev greedy : Kernel
greedy h c = answer 65539 []

jumbo-length : check_packet_len whole (0x60 ∷ zeros) ≡ ok (6, 65600)
unfolding zeros check_packet_len
jumbo-length = ap (λ (n : ℕ). ok (6, suc n)) (length-replicate {A = ℕ} 65599 0)

write_cuts_example :
    write whole families greedy tun (0x60 ∷ zeros) []
    ≡ (ok 65535, made greedy (Call.write 7 (frame 28 (0x60 ∷ zeros))) [])
write_cuts_example =
    write_cuts whole families greedy tun (0x60 ∷ zeros) [] file (refl, refl) whole-IsLawful
      jumbo-length (omega arith) refl

run-close_example :
    run sample families loopback (do_close ∷ do_write ping ∷ do_close ∷ do_read 9 ∷ []) tun sent
    ≡ (record tun { closed = true }, made loopback (Call.close 7) sent)
run-close_example =
    run-close sample families loopback (do_write ping ∷ do_close ∷ do_read 9 ∷ []) tun file sent
      refl refl
