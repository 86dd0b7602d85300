-- ===== src/Solaris/Tests.antt =====
-- The theorems on tun_solaris.go at small streams.
use subpass.Base.{◌-◌, ◌≡◌, refl, arith, false, none, some, [], ◌∷◌, ◌++◌, take, drop, min}
use subpass.Go.Error.{errno, other}
use subpass.Go.Result.{ok}
use subpass.Go.Kernel.{Kernel, Call}
use subpass.Go.File.{file_read}
use subpass.Packet.Sample.{sample, sample-IsLawful, sample-IsFramed, ping}
use subpass.Solaris.Reader.{TunDevice, unread, read_packet, tun_read_buffer_len}
use subpass.Solaris.Feed.{some_of, given, reads}
use subpass.Solaris.Delivery.{reads-all}
use subpass.Solaris.Stream.{Outcome, read_packet-Outcome, read_packet_misplaces}

-- The first half of a packet is unread, behind a byte that was delivered.
abbrev tun : TunDevice
tun = record {
  name = [];
  data_file = some (record { fd = 7; name = [] });
  link_file = none;
  buff = 9 ∷ take 10 ping;
  start = 1;
  count = 10;
  closed = false;
}

-- Gives the second half and the next packet's start.
abbrev stream : Kernel
stream h c = record { errno = none; value = 12; text = drop 10 ping ++ (0x45 ∷ 0 ∷ []) }

abbrev broken : Kernel
broken h c = record { errno = some (other 6); value = 0; text = [] }

second_half :
    let (tun', r, h') = read_packet sample stream tun 1500 [] in
    (r ≡ ok ping) × (unread tun' ≡ 0x45 ∷ 0 ∷ [])
unfolding read_packet file_read
second_half = (refl, refl)

read_packet-Outcome_example :
    Outcome sample tun 1500 []
      (file_read stream tun.data_file (tun_read_buffer_len - 10) [])
      (read_packet sample stream tun 1500 [])
read_packet-Outcome_example =
    read_packet-Outcome sample sample-IsLawful stream tun 1500 [] (omega arith)

misplaced :
    unread (read_packet sample broken tun 1500 []).0 ≡ drop 1 (take 10 ping) ++ take 1 (drop 9 ping)
unfolding read_packet file_read
misplaced = refl

read_packet_misplaces_example :
    unread (read_packet sample broken tun 1500 []).0
    ≡ take 10 (drop 1 (unread tun ++ drop 10 tun.buff))
unfolding file_read
read_packet_misplaces_example =
    read_packet_misplaces sample broken tun 1500 [] {e = errno (other 6)} (omega arith) refl refl

-- Five bytes of two pings in each read.
abbrev five : Kernel
five h (Call.read fd n) = some_of (drop (given 7 h) (ping ++ ping)) (min n 5)
five h c = record { errno = none; value = 0; text = [] }

abbrev empty_tun : TunDevice
empty_tun = record tun { buff = []; start = 0; count = 0 }

reads-all_example : reads sample five 1500 42 empty_tun [] ≡ ping ∷ ping ∷ []
reads-all_example =
    reads-all sample five empty_tun (record { fd = 7; name = [] }) (λ h. 4) (ping ++ ping) 1500 42
      [] (ping ∷ ping ∷ []) sample-IsLawful sample-IsFramed (omega arith) refl refl (λ h n. refl)
      ((refl, omega arith, omega arith), ((refl, omega arith, omega arith), tt)) refl (omega arith)
