-- ===== src/Solaris/Calls.antt =====
-- What a call of `Read` of tun_solaris.go makes of a stream of packets of which some are still to come.
use subpass.Base.{
  ℕ, ◌-◌, ◌≤◌, ◌<◌, ◌≡◌, refl, ap, sym, ◌∙◌, arith, false, some, ◌⊎◌, inl, inr, List, [], ◌∷◌, ◌++◌,
  Bytes, length, drop, ltb, Bool-cases, append_assoc, length-append,
}
use subpass.Go.Error.{Error, tcpip_short_buffer, new, wrap}
use subpass.Go.Result.{ok, err}
use subpass.Go.Kernel.{Kernel, History, File}
use subpass.Go.File.{file_read}
use subpass.Packet.{Tcpip, IsLawful}
use subpass.Packet.Framing.{IsWhole, IsFramed}
use subpass.Copy.Progress.{concat}
use subpass.Pump.Splits.{longer, shorter}
use subpass.Solaris.Reader.{TunDevice, unread, read, tun_read_buffer_len}
use subpass.Solaris.Buffer.{IsSound, length-unread}
use subpass.Solaris.Feed.{Streams, left, file_read-left}
use subpass.Solaris.Taking.{
  after, refilled, take_packet-front, unread-after, after-IsSound, unread-refilled,
  refilled-IsSound, read-open, read_packet-take, read_packet-fill,
}

-- Packets that fit into the slices of the caller and into the device's buffer.
abbrev pub Fit : Tcpip → ℕ → List Bytes → Type 0
Fit tcpip len [] = Unit
Fit tcpip len (p ∷ ps) =
    (IsWhole tcpip p × (length p ≤ len) × (length p ≤ tun_read_buffer_len)) × Fit tcpip len ps

module _ (tcpip : Tcpip) (law : IsLawful tcpip) (framed : IsFramed tcpip) (kernel : Kernel)
    (f : File) (size : History → ℕ) (all : Bytes) (streams : Streams kernel f.fd size all)
    (len : ℕ) where
  abbrev pub rest : History → Bytes
  rest = left kernel f size all streams

  -- An open device between two calls, with the packets that are still to come.
  pub record Ready (tun : TunDevice) (h : History) (ps : List Bytes) : Type 0 where
    pub sound : IsSound tun
    pub is_open : tun.closed ≡ false
    pub has_file : tun.data_file ≡ some f
    pub waits : unread tun ++ rest h ≡ concat ps

  -- A call returns the next packet, or an error after a read of the file.
  abbrev pub Next : TunDevice → History → Bytes → List Bytes → Type 0
  Next tun h p ps =
      ((tun' : TunDevice) × (h' : History) × ((read tcpip kernel tun len h ≡ (tun', ok p, h'))
          × Ready tun' h' ps
          × (length (rest h') ≤ length (rest h))))
      ⊎ ((tun' : TunDevice) × (e : Error) × (h' : History) × ((read tcpip kernel tun len h
              ≡ (tun', err e, h'))
            × Ready tun' h' (p ∷ ps)
            × (length (rest h') < length (rest h))))

  module _ (tun : TunDevice) (h : History) (p : Bytes) (ps : List Bytes)
      (ready : Ready tun h (p ∷ ps)) (fit : Fit tcpip len (p ∷ ps)) where
    Next-unread : length p ≤ length (unread tun) → Next tun h p ps
    Next-unread enough =
        let (front, back) = longer (unread tun) (rest h) p (concat ps) ready.waits enough in
        let tail = drop (length p) (unread tun) in
        let found : tcpip.total_len (unread tun) ≡ ok (length p) =
          ap tcpip.total_len front ∙ framed.extended p tail fit.0.0 in
        inl (
          after tun (length p),
          h,
          (
            read-open tcpip kernel tun len h ready.is_open (
                read_packet-take tcpip kernel tun len h (length p) found
                  (take_packet-front tun len p tail ready.sound front fit.0.1)),
            record {
              sound = after-IsSound tun len p tail ready.sound front;
              is_open = ready.is_open;
              has_file = ready.has_file;
              waits = ap (λ t. t ++ rest h) (unread-after tun len p tail ready.sound front) ∙ back;
            },
            omega arith,
          ),
        )

    Next-filled :
        (c : Bytes) (h' : History)
        → tcpip.total_len (unread tun) ≡ err tcpip_short_buffer
        → file_read kernel tun.data_file (tun_read_buffer_len - tun.count) h ≡ (ok c, h')
        → 0 < length c
        → c ++ rest h' ≡ rest h
        → Next tun h p ps
    Next-filled c h' short got filled gave =
        let dev = refilled tun c in
        let sound = refilled-IsSound tun c ready.sound in
        let buffered : unread dev ≡ unread tun ++ c = unread-refilled tun c ready.sound in
        let fewer : length (rest h') < length (rest h) =
          omega (arith, ap length gave, length-append c (rest h')) in
        let waits : unread dev ++ rest h' ≡ p ++ concat ps =
          ap (λ t. t ++ rest h') buffered
          ∙ append_assoc (unread tun) c (rest h')
          ∙ ap (λ t. unread tun ++ t) gave
          ∙ ready.waits in
        elim (Bool-cases (ltb (length (unread dev)) (length p))) [
          | inl lacks ↦
              let (x, y, split) =
                shorter (unread dev) (rest h') p (concat ps) waits (ground arith) in
              let still : tcpip.total_len (unread dev) ≡ err tcpip_short_buffer =
                framed.cut (unread dev) x y (
                  sym (ap (λ t. tcpip.total_len t) split)
                  ∙ fit.0.0
                  ∙ ap (λ t. ok (length t)) split) in
              inr (
                dev,
                wrap "read" (new "short ip packet"),
                h',
                (
                  read-open tcpip kernel tun len h ready.is_open (
                      read_packet-fill tcpip kernel tun len h c h' (err tcpip_short_buffer) short
                        got still refl),
                  record {
                    sound = sound;
                    is_open = ready.is_open;
                    has_file = ready.has_file;
                    waits = waits;
                  },
                  fewer,
                ),
              )
          | inr holds ↦
              let (front, back) =
                longer (unread dev) (rest h') p (concat ps) waits (ground arith) in
              let tail = drop (length p) (unread dev) in
              let found : tcpip.total_len (unread dev) ≡ ok (length p) =
                ap tcpip.total_len front ∙ framed.extended p tail fit.0.0 in
              inl (
                after dev (length p),
                h',
                (
                  read-open tcpip kernel tun len h ready.is_open (
                      read_packet-fill tcpip kernel tun len h c h' (ok (length p)) short got found
                        (take_packet-front dev len p tail sound front fit.0.1)),
                  record {
                    sound = after-IsSound dev len p tail sound front;
                    is_open = ready.is_open;
                    has_file = ready.has_file;
                    waits = ap (λ t. t ++ rest h') (unread-after dev len p tail sound front) ∙ back;
                  },
                  omega arith,
                ),
              )
        ]

    Next-short : length (unread tun) < length p → Next tun h p ps
    Next-short lacks =
        let (x, y, split) = shorter (unread tun) (rest h) p (concat ps) ready.waits lacks in
        let short : tcpip.total_len (unread tun) ≡ err tcpip_short_buffer =
          framed.cut (unread tun) x y
            (sym (ap (λ t. tcpip.total_len t) split) ∙ fit.0.0 ∙ ap (λ t. ok (length t)) split) in
        let count = length-unread tun ready.sound in
        let more : 0 < length (rest h) = omega (
          arith,
          ap length ready.waits,
          length-append (unread tun) (rest h),
          length-append p (concat ps),
        ) in
        let (c, h', (got, filled, fits, gave)) =
          file_read-left kernel f size all streams (tun_read_buffer_len - tun.count) h
            (omega (arith, fit.0.2)) more in
        Next-filled c h' short
          (ap (λ d. file_read kernel d (tun_read_buffer_len - tun.count) h) ready.has_file ∙ got)
          filled gave

    pub next : Next tun h p ps
    next = elim (Bool-cases (ltb (length (unread tun)) (length p))) [
      | inl lacks ↦ Next-short (ground arith)
      | inr holds ↦ Next-unread (ground arith)
    ]
