-- ===== src/Solaris/Threads/Safety.antt =====
-- What the goroutines that share a device of tun_solaris.go can rely on.
use mathlib.Core.Path.{subst}
use subpass.Base.{
  ℕ, ◌+◌, ◌≤◌, ◌≡◌, refl, ap, sym, ◌∙◌, arith, false, Option, List, [], ◌∷◌, ◌++◌, Bytes, length,
  take, drop, ltb, Bool-cases, inl, inr, append_assoc, take-append_left, drop-append_left,
  length-append, replicate,
}
use subpass.Go.Result.{ok-injective}
use subpass.Go.Kernel.{Kernel, History, File}
use subpass.Go.Threads.{
  State, Step, step, Reachable, reachable-all, total, total-append, total-replicate, total-le,
}
use subpass.Packet.{Tcpip, IsLawful}
use subpass.Packet.Framing.{IsFramed}
use subpass.Copy.Progress.{concat}
use subpass.Solaris.Threads.{
  Shared, Pc, idle, read_waiting, read_holding, filling, read_leaving, write_waiting, write_holding,
  write_leaving, closing, closing_link, Local,
}
use subpass.Solaris.Threads.Control.{Control, step-Control, reads, writes, closes, link_closes}
use subpass.Solaris.Threads.Delivery.{fills, AllWhole, StreamOf, Local-Stream}

-- A device as `createTunDevice` leaves it, that nobody has used yet.
abbrev pub opened : Bytes → Option File → Option File → History → Shared
opened name data_file link_file h = record {
  device = record {
    name = name;
    data_file = data_file;
    link_file = link_file;
    buff = [];
    start = 0;
    count = 0;
    closed = false;
  };
  reading = false;
  writing = false;
  history = h;
  received = [];
  packets = [];
  failed = false;
  data_closes = 0;
  link_closes = 0;
}

fills_le : (p : Pc) → fills p ≤ reads p
fills_le idle = omega arith
fills_le (read_waiting len) = omega arith
fills_le (read_holding len) = omega arith
fills_le (filling len) = omega arith
fills_le (read_leaving r) = omega arith
fills_le (write_waiting b) = omega arith
fills_le (write_holding b) = omega arith
fills_le write_leaving = omega arith
fills_le closing = omega arith
fills_le closing_link = omega arith

module _ (tcpip : Tcpip) (kernel : Kernel) where
  abbrev pub Inv : State Shared Pc → Type 0
  Inv s = Control s × StreamOf tcpip s.shared (total fills s.threads)

  opened-Inv :
      (name : Bytes) (data_file link_file : Option File) (h : History) (n : ℕ)
      → Inv (record { shared = opened name data_file link_file h; threads = replicate n idle })
  opened-Inv name data_file link_file h n = (
    ground (
      arith,
      total-replicate reads n idle refl,
      total-replicate writes n idle refl,
      total-replicate closes n idle refl,
      total-replicate link_closes n idle refl,
    ),
    record {
      sound = omega arith;
      settled = λ good none. refl;
      midway = λ good some. refl;
      all_whole = tt;
    },
  )

  step-Inv :
      (s t : State Shared Pc) → IsLawful tcpip → Step (Local tcpip kernel) s t → Inv s → Inv t
  step-Inv s t law (step before after p q own from to) inv =
      let moved = step-Control tcpip kernel s t (step before after p q own from to) inv.0 in
      let few : total fills before + total fills after ≤ total reads before + total reads after =
        omega (arith, total-le fills reads before fills_le, total-le fills reads after fills_le) in
      let here : StreamOf tcpip s.shared (fills p + (total fills before + total fills after)) =
        subst (StreamOf tcpip s.shared) (ap (total fills) from ∙ total-append fills before p after)
          inv.1 in
      let one : reads p + (total reads before + total reads after) ≤ 1 =
        ground (arith, ap (total reads) from, total-append reads before p after) in
      (
        moved,
        subst (StreamOf tcpip t.shared)
            (sym (ap (total fills) to ∙ total-append fills before q after))
            (Local-Stream tcpip law kernel s.shared t.shared p q _ _ own one few here),
      )

  module _ (name : Bytes) (data_file link_file : Option File) (h : History) where
    abbrev pub Reached : State Shared Pc → Type 0
    Reached = Reachable (Local tcpip kernel) (opened name data_file link_file h) idle

    pub reached-Inv : (s : State Shared Pc) → IsLawful tcpip → Reached s → Inv s
    reached-Inv s law =
        reachable-all (Local tcpip kernel) Inv (opened name data_file link_file h) idle
          (opened-Inv name data_file link_file h) (λ s t. step-Inv s t law) s

    -- However many goroutines read, write and close, in whatever order: at most one is within
    -- `readPacket` and at most one writes, each of the two files is closed at most once, and the
    -- link file not before the data file.
    pub one_at_a_time :
        (s : State Shared Pc)
        → IsLawful tcpip
        → Reached s
        → (total reads s.threads ≤ 1)
          × (total writes s.threads ≤ 1)
          × (s.shared.data_closes ≤ 1)
          × (s.shared.link_closes ≤ s.shared.data_closes)
    one_at_a_time s law reached =
        let inv = (reached-Inv s law reached).0 in
        (ground arith, ground arith, ground arith, ground arith)

    -- What was received is what was returned, and what waits.
    received-packets :
        (s : State Shared Pc)
        → IsLawful tcpip
        → Reached s
        → s.shared.failed ≡ false
        → (waits : Bytes) × ((s.shared.received ≡ concat s.shared.packets ++ waits)
            × AllWhole tcpip s.shared.packets)
    received-packets s law reached good =
        let inv = (reached-Inv s law reached).1 in
        elim (Bool-cases (ltb 0 (total fills s.threads))) [
          | inl some ↦ (_, (inv.midway good (ground arith), inv.all_whole))
          | inr none ↦ (_, (inv.settled good (ground arith), inv.all_whole))
        ]

-- Packets are told apart in one way only.
prefix :
    (tcpip : Tcpip) (qs ps : List Bytes) (waits : Bytes)
    → IsLawful tcpip
    → IsFramed tcpip
    → AllWhole tcpip qs
    → AllWhole tcpip ps
    → concat qs ++ waits ≡ concat ps
    → (more : List Bytes) × (ps ≡ qs ++ more)
prefix tcpip [] ps waits law framed whole_qs whole_ps e = (ps, refl)
prefix tcpip (q ∷ qs) [] waits law framed whole_qs whole_ps e = absurd (
    omega (
      arith,
      law.nonempty q whole_qs.0,
      ap length e,
      length-append q (concat qs),
      length-append (q ++ concat qs) waits,
    ))
prefix tcpip (q ∷ qs) (p ∷ ps) waits law framed whole_qs whole_ps e =
    let e' : q ++ (concat qs ++ waits) ≡ p ++ concat ps =
      sym (append_assoc q (concat qs) waits) ∙ e in
    let same : length q ≡ length p = ok-injective (
      sym (framed.extended q (concat qs ++ waits) whole_qs.0)
      ∙ ap tcpip.total_len e'
      ∙ framed.extended p (concat ps) whole_ps.0) in
    let front : q ≡ p =
      sym (take-append_left q (concat qs ++ waits))
      ∙ ap (take (length q)) e'
      ∙ ap (λ n. take n (p ++ concat ps)) same
      ∙ take-append_left p (concat ps) in
    let back : concat qs ++ waits ≡ concat ps =
      sym (drop-append_left q (concat qs ++ waits))
      ∙ ap (drop (length q)) e'
      ∙ ap (λ n. drop n (p ++ concat ps)) same
      ∙ drop-append_left p (concat ps) in
    let (more, tail) = prefix tcpip qs ps waits law framed whole_qs.1 whole_ps.1 back in
    (more, ap (λ t. p ∷ t) tail ∙ ap (λ x. x ∷ (qs ++ more)) (sym front))

-- As long as no read of the file fails, and the file gives a stream of packets: however many
-- goroutines read, write and close, in whatever order, the packets that calls of `readPacket` have
-- returned are the first packets of the stream, each once and in order.
pub packets_once :
    (tcpip : Tcpip) (kernel : Kernel) (name : Bytes) (data_file link_file : Option File)
    (h : History) (s : State Shared Pc) (ps : List Bytes) (rest : Bytes)
    → IsLawful tcpip
    → IsFramed tcpip
    → Reached tcpip kernel name data_file link_file h s
    → s.shared.failed ≡ false
    → AllWhole tcpip ps
    → s.shared.received ++ rest ≡ concat ps
    → (more : List Bytes) × (ps ≡ s.shared.packets ++ more)
packets_once tcpip kernel name data_file link_file h s ps rest law framed reached good whole e =
    let (waits, (split, returned)) =
      received-packets tcpip kernel name data_file link_file h s law reached good in
    prefix tcpip s.shared.packets ps (waits ++ rest) law framed returned whole (
      sym (append_assoc (concat s.shared.packets) waits rest) ∙ ap (λ t. t ++ rest) (sym split) ∙ e)
