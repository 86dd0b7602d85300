-- ===== src/Linux/Netlink.antt =====
-- The netlink message of `Destroy` in tun_linux.go, on a machine that puts the low byte first.
use subpass.Base.{zero, suc, drop_all, true}
use subpass.Base.{ℕ, ◌+◌, ◌-◌, ◌*◌, ◌/◌, ◌%◌, ◌^◌, ◌<◌, ◌≤◌, ◌≡◌, refl, ap, arith, ◌&&◌}
use subpass.Base.{
  Option, none, some, List, [], ◌∷◌, ◌++◌, Bytes, length, take, drop, replicate, leb, ◌==◌,
}
use subpass.Base.{if◌then◌else◌, length-append, length-replicate}

-- A uint16 and a uint32 in memory.
abbrev put16 : ℕ → Bytes
put16 n = n % 256 ∷ n / 256 % 256 ∷ []

abbrev pub put32 : ℕ → Bytes
put32 n = n % 256 ∷ n / 256 % 256 ∷ n / 65536 % 256 ∷ n / 16777216 % 256 ∷ []

abbrev pub get16 : Bytes → ℕ
get16 (a ∷ b ∷ r) = a + 256 * b
get16 _ = 0

abbrev pub get32 : Bytes → ℕ
get32 (a ∷ b ∷ c ∷ d ∷ r) = a + 256 * b + 65536 * c + 16777216 * d
get32 _ = 0

-- unix.RTM_DELLINK, NLM_F_REQUEST | NLM_F_ACK, IFLA_IFNAME
abbrev pub rtm_dellink : ℕ
rtm_dellink = 17

abbrev pub request_flags : ℕ
request_flags = 5

abbrev pub ifla_ifname : ℕ
ifla_ifname = 3

-- `attrLen` and `attrAlignedLen` for the name with its zero byte.
abbrev attr_len : Bytes → ℕ
attr_len name = 4 + (length name + 1)

abbrev attr_aligned_len : Bytes → ℕ
attr_aligned_len name = (attr_len name + 3) / 4 * 4

-- unix.SizeofNlMsghdr + unix.SizeofIfInfomsg + attrAlignedLen
abbrev nlmsg_len : Bytes → ℕ
nlmsg_len name = 16 + 16 + attr_aligned_len name

-- The buffer that is sent: the header, with the sequence number 1 and the port 0; the zeroed
-- `IfInfomsg`; the attribute's header; the name, and zeros up to the end.
pub delete_request : Bytes → Bytes
delete_request name =
    put32 (nlmsg_len name)
    ++ put16 rtm_dellink
    ++ put16 request_flags
    ++ put32 1
    ++ put32 0
    ++ replicate 16 0
    ++ put16 (attr_len name % 2 ^ 16)
    ++ put16 ifla_ifname
    ++ name
    ++ replicate (attr_aligned_len name - 4 - length name) 0

-- What a receiver reads: an attribute; and a link message with the header (nlmsghdr), the link
-- (ifinfomsg) and the attributes.
pub record Attribute : Type 0 where
  pub kind : ℕ
  pub value : Bytes

pub record LinkInfo : Type 0 where
  pub family : ℕ
  pub device_type : ℕ
  pub index : ℕ
  pub flags : ℕ
  pub change : ℕ

pub record LinkMessage : Type 0 where
  pub kind : ℕ
  pub flags : ℕ
  pub seq : ℕ
  pub port : ℕ
  pub info : LinkInfo
  pub attributes : List Attribute

abbrev pub add_attribute : Attribute → Option (List Attribute) → Option (List Attribute)
add_attribute a none = none
add_attribute a (some l) = some (a ∷ l)

abbrev aligned : ℕ → ℕ
aligned n = (n + 3) / 4 * 4

-- The attributes up to the end of the message, each padded to a multiple of four. The fuel is the
-- number of bytes.
pub parse_attributes : ℕ → Bytes → Option (List Attribute)
parse_attributes fuel [] = some []
parse_attributes zero (x ∷ b) = none
parse_attributes (suc fuel) (x ∷ b) =
    let n = get16 (x ∷ b) in
    let rest = parse_attributes fuel (drop (aligned n) (x ∷ b)) in
    if leb 4 n && leb (aligned n) (length (x ∷ b))
    then add_attribute
        (record { kind = get16 (drop 2 (x ∷ b)); value = take (n - 4) (drop 4 (x ∷ b)) }) rest
    else none

abbrev with_attributes : Bytes → Option (List Attribute) → Option LinkMessage
with_attributes b none = none
with_attributes b (some l) = some (record {
  kind = get16 (drop 4 b);
  flags = get16 (drop 6 b);
  seq = get32 (drop 8 b);
  port = get32 (drop 12 b);
  info = record {
    family = get16 (drop 16 b) % 256;
    device_type = get16 (drop 18 b);
    index = get32 (drop 20 b);
    flags = get32 (drop 24 b);
    change = get32 (drop 28 b);
  };
  attributes = l;
})

-- The length in the header is that of the message, which has both headers.
unfoldable pub parse_link : Bytes → Option LinkMessage
parse_link b =
    if (get32 b == length b) && leb 32 (length b)
    then with_attributes b (parse_attributes (length b) (drop 32 b))
    else none

-- AF_UNSPEC, and nothing else about the link.
abbrev pub no_info : LinkInfo
no_info = record { family = 0; device_type = 0; index = 0; flags = 0; change = 0 }

length-delete_request : (name : Bytes) → length (delete_request name) ≡ nlmsg_len name
unfolding delete_request
length-delete_request name = omega (
  arith,
  length-append name (replicate (attr_aligned_len name - 4 - length name) 0),
  length-replicate {A = ℕ} (attr_aligned_len name - 4 - length name) 0,
)

pub get32-put32 : (n : ℕ) (r : Bytes) → n < 2 ^ 32 → get32 (put32 n ++ r) ≡ n
get32-put32 n r h = omega arith

get16-put16 : (n : ℕ) (r : Bytes) → n < 2 ^ 16 → get16 (put16 n ++ r) ≡ n
get16-put16 n r h = omega arith

-- The value of the attribute: the name and its zero byte.
attribute_value :
    (name : Bytes)
    → take (attr_len name - 4) (name ++ replicate (attr_aligned_len name - 4 - length name) 0)
      ≡ name ++ (0 ∷ [])
attribute_value name =
    padded name (attr_len name - 4) (attr_aligned_len name - 4 - length name) (omega arith)
      (omega arith)
  where
    padded :
        (s : Bytes) (n k : ℕ)
        → n ≡ length s + 1
        → 1 ≤ k
        → take n (s ++ replicate k 0) ≡ s ++ (0 ∷ [])
    padded s zero k e h = absurd (omega arith)
    padded s (suc n) zero e h = absurd (omega arith)
    padded [] (suc zero) (suc k) e h = refl
    padded [] (suc (suc n)) (suc k) e h = absurd (omega arith)
    padded (x ∷ s) (suc n) k e h = ap (λ t. x ∷ t) (padded s n k (omega arith) h)

-- One attribute that fills the message.
parse_attributes-one :
    (fuel n : ℕ) (c : Bytes)
    → 0 < fuel
    → n < 2 ^ 16
    → 4 ≤ n
    → length c + 4 ≡ aligned n
    → parse_attributes fuel (put16 n ++ put16 ifla_ifname ++ c)
      ≡ some (record { kind = ifla_ifname; value = take (n - 4) c } ∷ [])
unfolding parse_attributes
parse_attributes-one zero n c h small big size = absurd (omega arith)
parse_attributes-one (suc k) n c h small big size =
    let read = get16-put16 n (put16 ifla_ifname ++ c) small in
    let fits : leb (aligned n) (suc (suc (suc (suc (length c))))) ≡ true = ground arith in
    let enough : leb 4 n ≡ true = ground arith in
    let ends = drop_all (aligned n) (put16 n ++ put16 ifla_ifname ++ c) (omega arith) in
    rw (read, fits, enough, ends) refl

-- The request for a name of less than 32768 bytes is read back as RTM_DELLINK with a request for an
-- acknowledgement, the sequence number 1, the port 0 and no index or other property of a link; it
-- has one attribute and nothing behind it, IFLA_IFNAME with the name and its zero byte.
pub parse-delete_request :
    (name : Bytes)
    → length name < 2 ^ 15
    → parse_link (delete_request name)
      ≡ some (record {
        kind = rtm_dellink;
        flags = request_flags;
        seq = 1;
        port = 0;
        info = no_info;
        attributes = record { kind = ifla_ifname; value = name ++ (0 ∷ []) } ∷ [];
      })
unfolding delete_request parse_link
parse-delete_request name h =
    let size = length-delete_request name in
    let c = name ++ replicate (attr_aligned_len name - 4 - length name) 0 in
    let n = attr_len name % 2 ^ 16 in
    let same : n ≡ attr_len name = omega arith in
    let head = get32-put32 (nlmsg_len name) (drop 4 (delete_request name)) (omega arith) in
    let one =
      parse_attributes-one (length (delete_request name)) n c (omega arith) (omega arith)
        (omega arith) (omega (arith, same)) in
    let value = attribute_value name in ground (arith, head, one, value)
