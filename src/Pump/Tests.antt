-- ===== src/Pump/Tests.antt =====
-- `Copy` onto each kind of device, with a stream of two pings.
use subpass.Base.{
  ◌++◌, ℕ, ◌≡◌, refl, ap, arith, false, none, some, List, [], ◌∷◌, Bytes, length, codes, Bool,
}
use subpass.Go.Kernel.{Kernel, History, Call, Reply, File, made}
use subpass.Packet.Framing.{IsWhole}
use subpass.Packet.Sample.{sample, sample-IsLawful, sample-IsFramed, ping}
use subpass.Bsd.{TunDevice, Families}
use subpass.Bsd
use subpass.Bsd.Frame.{length-frame}
use subpass.Bsd.Sending.{IsShort, TakesFrames, tagged, copy_onto_bsd}
use subpass.Linux
use subpass.Linux.Sending.{TakesPackets, copy_onto_linux}
use subpass.Windows
use subpass.Windows.Sending.{HasRoom, into_ring, copy_onto_windows}
use subpass.Copy.{Trace, returned, copy}
use subpass.Pump.{stream, history_of, writer_of, sent_all, Packets}

abbrev file : File
file = record { fd = 7; name = [] }

abbrev tun : TunDevice
tun = record { file = some file; closed = false; name = [] }

abbrev families : Families
families = record { af_inet = 2; af_inet6 = 28 }

abbrev answer : ℕ → Reply
answer value = record { errno = none; value = value; text = [] }

-- Takes every write whole.
abbrev taking : Kernel
taking h (Call.write fd b) = answer (length b)
taking h c = answer 9

-- Three bytes in each read.
abbrev threes : Trace → ℕ
threes t = 2

abbrev pings : List Bytes
pings = ping ∷ ping ∷ []

abbrev bytes : Bytes
bytes = ping ++ ping

taken : TakesPackets sample taking tun file
taken p h whole = refl

taken_frames : TakesFrames sample families taking tun file
taken_frames p h (whole, short) = ap answer (omega (arith, length-frame _ p))

two : Packets (IsWhole sample) pings
two = ((refl, omega arith, omega arith), ((refl, omega arith, omega arith), tt))

two_short : Packets (IsShort sample) pings
two_short = (
  ((refl, omega arith), omega arith, omega arith),
  (((refl, omega arith), omega arith, omega arith), tt),
)

copy_onto_linux_example :
    let write = Linux.write sample taking tun in
    let s = copy (stream bytes threes) (writer_of write []) 83 in
    (s.point ≡ returned [] none)
    × (history_of write [] s.trace
        ≡ made taking (Call.write 7 ping) (made taking (Call.write 7 ping) []))
copy_onto_linux_example =
    copy_onto_linux sample taking tun file sample-IsLawful sample-IsFramed (refl, refl) threes pings
      83 [] taken two (omega arith)

copy_onto_bsd_example :
    let write = Bsd.write sample families taking tun in
    let s = copy (stream bytes threes) (writer_of write []) 83 in
    (s.point ≡ returned [] none)
    × (history_of write [] s.trace
        ≡ sent_all
            (λ p h. made taking (Call.write 7 (tagged sample families taking tun file p)) h)
            pings
            [])
copy_onto_bsd_example =
    copy_onto_bsd sample families taking tun file sample-IsLawful sample-IsFramed (refl, refl)
      threes pings 83 [] taken_frames two_short (omega arith)

abbrev ring : Windows.TunDevice
ring = record { session = 3; adaptor = 4; read_wait = 5; name = codes "Client" }

abbrev never : History → Bool
never h = false

roomy : HasRoom sample taking never ring
roomy n h = refl

copy_onto_windows_example :
    let write = Windows.write sample taking never ring in
    let s = copy (stream bytes threes) (writer_of write []) 83 in
    (s.point ≡ returned [] none)
    × (history_of write [] s.trace ≡ sent_all (into_ring sample taking never ring) pings [])
copy_onto_windows_example =
    copy_onto_windows sample taking never ring sample-IsLawful sample-IsFramed (λ h. refl) threes
      pings 83 [] roomy two_short (omega arith)
