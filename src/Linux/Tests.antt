-- ===== src/Linux/Tests.antt =====
-- The theorems on tun_linux.go at concrete names, messages and kernels.
use subpass.Base.{
  replicate, ◌≤◌, ℕ, ◌≡◌, ◌≢◌, ◌⊎◌, ◌↔◌, refl, arith, false, none, some, Option, [], ◌∷◌, ◌++◌,
  codes, Bytes, ◌^◌, ◌-◌, ◌%◌,
}
use subpass.Go.Result.{ok}
use subpass.Go.Error.{errno}
use subpass.Go.Kernel.{Kernel, History, Call, File, made}
use subpass.Packet.{check_packet_len}
use subpass.Packet.Sample.{sample, ping}
use subpass.Bsd.{TunDevice}
use subpass.Bsd.Writing.{IsOpen}
use subpass.Linux.{read}
use subpass.Linux.Netlink.{
  parse_link, delete_request, parse-delete_request, put32, rtm_dellink, request_flags, ifla_ifname,
  no_info, LinkMessage,
}
use subpass.Linux.Name.{validate_name, validate_name_iff, IsIfaceText}
use subpass.Linux.Removal.{asked, number_of}
use subpass.Linux.Packets.{read_whole}

parse-delete_request_example :
    parse_link (delete_request (codes "tun0"))
    ≡ some (record {
      kind = rtm_dellink;
      flags = request_flags;
      seq = 1;
      port = 0;
      info = no_info;
      attributes = record { kind = ifla_ifname; value = codes "tun0" ++ (0 ∷ []) } ∷ [];
    })
parse-delete_request_example = parse-delete_request (codes "tun0") (omega arith)

validate_name_iff_example : (validate_name (codes "..") ≡ ok tt) ↔ (
    (codes ".." ≡ [])
    ⊎ (IsIfaceText (codes "..") × (codes ".." ≢ codes ".") × (codes ".." ≢ codes "..")))
validate_name_iff_example = validate_name_iff (codes "..")

abbrev file : File
file = record { fd = 7; name = [] }

abbrev tun : TunDevice
tun = record { file = some file; closed = false; name = [] }

-- Gives the ping to each read, and takes each write of it.
abbrev pinging : Kernel
pinging h c = record { errno = none; value = 20; text = ping }

got : History
got = made pinging (Call.read 7 1500) []

read_whole_example :
    (f : File) × (v : ℕ) × (IsOpen tun f
      × (got ≡ made pinging (Call.read f.fd 1500) [])
      × (ping ≡ (pinging [] (Call.read f.fd 1500)).text)
      × (check_packet_len sample ping ≡ ok (v, 20))
      × (20 ≤ 1500))
unfolding read check_packet_len got
read_whole_example = read_whole sample pinging tun 1500 [] refl

-- A kernel that has no link: every call works, and a deletion is answered by ENODEV.
abbrev no_links : History → Bytes → ℕ
no_links h name = 19

abbrev report : ℕ → Option Bytes → Bytes
report seq name =
    put32 36
    ++ (2 ∷ 0 ∷ 0 ∷ 0 ∷ [])
    ++ put32 seq
    ++ put32 0
    ++ put32 ((2 ^ 32 - number_of (λ n. 19) name) % 2 ^ 32)
    ++ replicate 16 0

abbrev report_on : Option LinkMessage → Bytes
report_on none = []
report_on (some m) = report m.seq (asked m)

abbrev latest : History → Bytes
latest [] = []
latest (e ∷ h) = request_of e.call
  where
    request_of : Call → Bytes
    request_of (Call.sendto fd b) = b
    request_of c = []

abbrev linkless : Kernel
linkless h c = record { errno = none; value = 7; text = report_on (parse_link (latest h)) }
