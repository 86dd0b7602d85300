-- ===== src/Solaris/Delivery.antt =====
-- That calls of `Read` of tun_solaris.go return all packets of a stream, however it is cut into reads
-- of the file.
use subpass.Base.{
  ℕ, zero, suc, ◌+◌, ◌-◌, ◌≤◌, ◌≡◌, refl, ap, sym, ◌∙◌, arith, false, some, inl, inr, List, [], ◌∷◌,
  ◌++◌, Bytes, length, drop, length-append,
}
use subpass.Go.Error.{Error, eof, tcpip_short_buffer, wrap}
use subpass.Go.Result.{Result, ok, err, panic}
use subpass.Go.Kernel.{Kernel, History, File}
use subpass.Go.File.{file_read}
use subpass.Packet.{Tcpip, IsLawful}
use subpass.Packet.Framing.{IsFramed}
use subpass.Copy.Progress.{concat}
use subpass.Solaris.Reader.{TunDevice, unread, read, tun_read_buffer_len}
use subpass.Solaris.Buffer.{IsSound, length-unread, moved, length-moved}
use subpass.Solaris.Feed.{Streams, add_packet, reads, given, file_read-nothing}
use subpass.Solaris.Taking.{read-open, read_packet-fails, read_packet-stops, nil_of_length}
use subpass.Solaris.Calls.{Fit, Ready, rest, next}

module _ (tcpip : Tcpip) (law : IsLawful tcpip) (framed : IsFramed tcpip) (kernel : Kernel)
    (f : File) (size : History → ℕ) (all : Bytes) (streams : Streams kernel f.fd size all)
    (len : ℕ) where
  abbrev At : TunDevice → History → List Bytes → Type 0
  At = Ready tcpip law framed kernel f size all streams len

  abbrev ahead : History → Bytes
  ahead = rest tcpip law framed kernel f size all streams len

  -- At the end of the stream each call returns an error.
  module _ (tun : TunDevice) (h : History) (ready : At tun h []) where
    abbrev Over : Type 0
    Over =
        (tun' : TunDevice) × (e : Error) × (h' : History) × ((read tcpip kernel tun len h
            ≡ (tun', err e, h'))
          × At tun' h' [])

    nothing : (length (unread tun) ≡ 0) × (length (ahead h) ≡ 0)
    nothing =
        let sum : length (unread tun) + length (ahead h) ≡ 0 =
          sym (length-append (unread tun) (ahead h)) ∙ ap length ready.waits in
        (omega arith, omega arith)

    over_by : (r : Result ℕ) → tcpip.total_len (unread tun) ≡ r → Over
    over_by (ok n) e =
        absurd (omega (arith, law.within (unread tun) e, law.nonempty (unread tun) e, nothing))
    over_by (err tcpip_short_buffer) e =
        let moved_tun : TunDevice = record tun { buff = moved tun } in
        let sound : IsSound moved_tun = omega (arith, ready.sound, length-moved tun ready.sound) in
        let empty : tun.count ≡ 0 = omega (arith, length-unread tun ready.sound, nothing) in
        let (h', (got, still)) =
          file_read-nothing kernel f size all streams (tun_read_buffer_len - tun.count) h
            (omega arith) nothing.1 in
        (
          moved_tun,
          wrap "read" eof,
          h',
          (
            read-open tcpip kernel tun len h ready.is_open (
                read_packet-fails tcpip kernel tun len h h' eof e (
                  ap (λ d. file_read kernel d (tun_read_buffer_len - tun.count) h) ready.has_file
                  ∙ got)),
            record {
              sound = sound;
              is_open = ready.is_open;
              has_file = ready.has_file;
              waits = nil_of_length (unread moved_tun ++ ahead h') (
                  omega (
                    arith,
                    length-append (unread moved_tun) (ahead h'),
                    length-unread moved_tun sound,
                  ));
            },
          ),
        )
    over_by (err x) e = (
      tun,
      wrap "read" x,
      h,
      (
        read-open tcpip kernel tun len h ready.is_open
            (read_packet-stops tcpip kernel tun len h (err x) e),
        ready,
      ),
    )
    over_by panic e = absurd (law.returns (unread tun) e)

  -- Calls of `Read` one after the other.
  all_read :
      (calls : ℕ) (tun : TunDevice) (h : History) (ps : List Bytes)
      → At tun h ps
      → Fit tcpip len ps
      → length (ahead h) + length ps ≤ calls
      → reads tcpip kernel len calls tun h ≡ ps
  unfolding reads
  all_read zero tun h [] ready fit enough = refl
  all_read zero tun h (p ∷ ps) ready fit enough = absurd (omega arith)
  all_read (suc calls) tun h [] ready fit enough =
      let (tun', e, h', (got, ready')) = over_by tun h ready (tcpip.total_len (unread tun)) refl in
      ap (λ x. add_packet x.1 (reads tcpip kernel len calls x.0 x.2)) got
      ∙ all_read calls tun' h' [] ready' tt (omega (arith, nothing tun' h' ready'))
  all_read (suc calls) tun h (p ∷ ps) ready fit enough =
      elim (next tcpip law framed kernel f size all streams len tun h p ps ready fit) [
        | inl (tun', h', (got, ready', fewer)) ↦
            ap (λ x. add_packet x.1 (reads tcpip kernel len calls x.0 x.2)) got
            ∙ ap (λ t. p ∷ t) (all_read calls tun' h' ps ready' fit.1 (omega arith))
        | inr (tun', e, h', (got, ready', fewer)) ↦
            ap (λ x. add_packet x.1 (reads tcpip kernel len calls x.0 x.2)) got
            ∙ all_read calls tun' h' (p ∷ ps) ready' fit (omega arith)
      ]

-- Calls of `Read` one after the other, also when some of them return an error, on an open device
-- whose file gives a stream of packets that fit into the slices and into the buffer: however the
-- stream is cut into reads of the file, one call for each byte that the file still has and one for
-- each packet return all packets, each once and in order, and nothing else.
pub reads-all :
    (tcpip : Tcpip) (kernel : Kernel) (tun : TunDevice) (f : File) (size : History → ℕ)
    (all : Bytes) (len calls : ℕ) (h : History) (ps : List Bytes)
    → IsLawful tcpip
    → IsFramed tcpip
    → IsSound tun
    → tun.closed ≡ false
    → tun.data_file ≡ some f
    → Streams kernel f.fd size all
    → Fit tcpip len ps
    → unread tun ++ drop (given f.fd h) all ≡ concat ps
    → length (drop (given f.fd h) all) + length ps ≤ calls
    → reads tcpip kernel len calls tun h ≡ ps
reads-all tcpip kernel tun f size all len calls h ps law framed sound is_open has_file streams fit
      waits enough =
    all_read tcpip law framed kernel f size all streams len calls tun h ps
      (record { sound = sound; is_open = is_open; has_file = has_file; waits = waits }) fit enough
