-- ===== src/Linux/Removal.antt =====
-- `Destroy` of tun_linux.go against a kernel that reads the request and answers it.
use subpass.Base.{
  ℕ, ◌-◌, ◌/◌, ◌%◌, ◌^◌, ◌<◌, ◌≤◌, ◌≡◌, Option, none, some, List, [], ◌∷◌, Bytes, length, drop,
  ◌==◌, ◌&&◌, if◌then◌else◌,
}
use subpass.Go.Kernel.{Kernel, History, Call, Family, made}
use subpass.Linux.Netlink.{
  get16, get32, Attribute, LinkMessage, parse_link, rtm_dellink, ifla_ifname,
}

-- A value up to its first zero byte.
abbrev pub text_of : Bytes → Bytes
text_of [] = []
text_of (c ∷ b) = let rest = text_of b in if c == 0 then [] else c ∷ rest

-- The value of the first IFLA_IFNAME.
abbrev pub name_in : List Attribute → Option Bytes
name_in [] = none
name_in (a ∷ l) =
    let rest = name_in l in if a.kind == ifla_ifname then some (text_of a.value) else rest

-- The name of the link that a message asks to delete: an RTM_DELLINK without an index.
abbrev pub asked : LinkMessage → Option Bytes
asked m = if (m.kind == rtm_dellink) && (m.info.index == 0) then name_in m.attributes else none

-- The error number of the request: that of the deletion of the link of the name, 0 if it was
-- deleted, or EINVAL.
abbrev pub number_of : (Bytes → ℕ) → Option Bytes → ℕ
number_of deletion none = 22
number_of deletion (some name) = deletion name

-- The answer NLMSG_ERROR: the request's sequence number, and -n as an int32.
abbrev pub IsReport : ℕ → ℕ → Bytes → Type 0
IsReport seq n t =
    (36 ≤ length t)
    × (get16 (drop 4 t) ≡ 2)
    × (get32 (drop 8 t) ≡ seq)
    × (get32 (drop 16 t) ≡ (2 ^ 32 - n) % 2 ^ 32)

-- The kernel's side of rtnetlink: a socket is given, and a message that parses as a link message and
-- has the flag NLM_F_ACK is answered by the report on what it asks.
pub record IsRtnetlink (kernel : Kernel) (deletion : History → Bytes → ℕ) : Type 0 where
  pub opens : (h : History) → (kernel h (Call.socket Family.netlink)).errno ≡ none
  pub binds : (h : History) (fd : ℕ) → (kernel h (Call.bind fd)).errno ≡ none
  pub sends : (h : History) (fd : ℕ) (b : Bytes) → (kernel h (Call.sendto fd b)).errno ≡ none
  pub answers :
      (h : History) (fd len : ℕ) (b : Bytes) (m : LinkMessage)
      → 36 ≤ len
      → parse_link b ≡ some m
      → m.seq < 2 ^ 32
      → m.flags / 4 % 2 ≡ 1
      → let r = kernel (made kernel (Call.sendto fd b) h) (Call.recvfrom fd len) in
        (r.errno ≡ none) × IsReport m.seq (number_of (deletion h) (asked m)) r.text
  pub small : (h : History) (name : Bytes) → deletion h name < 2 ^ 31

-- No byte of the name is zero.
abbrev pub IsText : Bytes → Type 0
IsText [] = Unit
IsText (c ∷ b) = (0 < c) × IsText b

module _ (kernel : Kernel) (deletion : History → Bytes → ℕ) (name : Bytes) (h : History) where
  -- The history before the request is sent.
  abbrev pub before_send : History
  before_send =
      let opened = kernel h (Call.socket Family.netlink) in
      made kernel (Call.bind opened.value) (made kernel (Call.socket Family.netlink) h)
