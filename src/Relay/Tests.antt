-- ===== src/Relay/Tests.antt =====
-- `Copy` between two devices that relay two pings, with EOF behind them.
use subpass.Base.{ℕ, ◌≡◌, refl, ap, arith, false, none, some, List, [], ◌∷◌, Bytes, length, drop}
use subpass.Go.Error.{eof, wrap}
use subpass.Go.Kernel.{Kernel, Call, File}
use subpass.Packet.Framing.{IsWhole}
use subpass.Packet.Sample.{sample, sample-IsLawful, sample-IsFramed, ping}
use subpass.Bsd.{TunDevice, Families}
use subpass.Bsd
use subpass.Bsd.Frame.{length-frame}
use subpass.Bsd.Sending.{IsShort, TakesFrames, tagged}
use subpass.Bsd.Relaying.{copy_between_bsd}
use subpass.Linux
use subpass.Linux.Relaying.{copy_between_linux}
use subpass.Copy.{returned, copy}
use subpass.Pump.{Packets}
use subpass.Relay.{source_of, target_of, exchange}
use subpass.Relay.Feed.{next_reply, reads_of}

abbrev file : ℕ → File
file fd = record { fd = fd; name = [] }

abbrev tun : ℕ → TunDevice
tun fd = record { file = some (file fd); closed = false; name = [] }

abbrev families : Families
families = record { af_inet = 2; af_inet6 = 28 }

abbrev pings : List Bytes
pings = ping ∷ ping ∷ []

-- Gives the pings to the reads of the descriptor 7, and takes every write whole.
abbrev relaying : (Bytes → Bytes) → Kernel
relaying wire h (Call.read fd len) = next_reply wire none (drop (reads_of 7 h) pings)
relaying wire h (Call.write fd b) = record { errno = none; value = length b; text = [] }
relaying wire h c = record { errno = none; value = 9; text = [] }

abbrev bare : Kernel
bare = relaying (λ p. p)

pings_whole : Packets (IsWhole sample) pings
pings_whole = ((refl, omega arith, omega arith), ((refl, omega arith, omega arith), tt))

copy_between_linux_example :
    let s =
      copy
        (source_of (Linux.read sample bare (tun 7)) (Linux.write sample bare (tun 8)) [])
        (target_of (Linux.read sample bare (tun 7)) (Linux.write sample bare (tun 8)) [])
        5 in
    (s.point ≡ returned [] (some (wrap "read" eof)))
    × (s.trace ≡ exchange pings (wrap "read" eof) [])
copy_between_linux_example =
    copy_between_linux sample bare (tun 7) (tun 8) (file 7) (file 8) sample-IsLawful sample-IsFramed
      (refl, refl) none pings pings 5 [] (refl, refl) (λ h. refl) (λ p h whole. refl) pings_whole
      refl (omega arith)

-- The wire of the other systems does not depend on the kernel that the section names.
abbrev framed : Kernel
framed = relaying (tagged sample families bare (tun 7) (file 7))

takes_frames : TakesFrames sample families framed (tun 8) (file 8)
takes_frames p h (whole, short) =
    ap (λ n. record { errno = none; value = n; text = [] }) (omega (arith, length-frame _ p))

pings_short : Packets (IsShort sample) pings
pings_short = (
  ((refl, omega arith), omega arith, omega arith),
  (((refl, omega arith), omega arith, omega arith), tt),
)

copy_between_bsd_example :
    let s =
      copy
        (source_of (Bsd.read sample framed (tun 7)) (Bsd.write sample families framed (tun 8)) [])
        (target_of (Bsd.read sample framed (tun 7)) (Bsd.write sample families framed (tun 8)) [])
        5 in
    (s.point ≡ returned [] (some (wrap "read" eof)))
    × (s.trace ≡ exchange pings (wrap "read" eof) [])
copy_between_bsd_example =
    copy_between_bsd sample families framed (tun 7) (tun 8) (file 7) (file 8) sample-IsLawful
      sample-IsFramed (refl, refl) none pings pings 5 [] (refl, refl) (λ h. refl) takes_frames
      pings_short refl (omega arith)
