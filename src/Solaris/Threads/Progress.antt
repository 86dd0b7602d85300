-- ===== src/Solaris/Threads/Progress.antt =====
-- That the goroutines that share a device of tun_solaris.go do not block each other for ever.
use subpass.Base.{
  ℕ, ◌+◌, ◌≤◌, ◌<◌, ◌≡◌, ◌≢◌, refl, arith, ◌⊎◌, inl, inr, Bool-cases, ltb, false, if◌then◌else◌,
  Option, Bytes,
}
use subpass.Go.Error.{
  errno, err_closed, err_exist, eof, err_short_buffer, tcpip_short_buffer, tcpip_other, new, wrap,
  wrap_path, wrap_nil,
}
use subpass.Go.Result.{Result, ok, err, panic}
use subpass.Go.Kernel.{Kernel, History, File}
use subpass.Go.Threads.{State, total, total-le, found}
use subpass.Go.Threads.Runs
use subpass.Go.Threads.Runs.{takes_step}
use subpass.Packet.{Tcpip, IsLawful}
use subpass.Solaris.Reader.{unread}
use subpass.Solaris.Threads.{
  Shared, Pc, idle, read_waiting, read_holding, filling, read_leaving, write_waiting, write_holding,
  write_leaving, closing, closing_link, Local,
}
use subpass.Solaris.Threads.{
  refused, read_load, read_lock, takes, moves, file_reads, read_unlock, write_load, write_lock,
  sends, write_unlock, swap, close_data, close_link,
}
use subpass.Solaris.Threads.Control.{Control, reads, writes, closes, link_closes}
use subpass.Solaris.Threads.Safety.{opened, Reached, reached-Inv}

-- How many steps of its own a goroutine is from the end of its call, at most.
abbrev pub left : Pc → ℕ
left idle = 0
left (read_waiting len) = 4
left (read_holding len) = 3
left (filling len) = 2
left (read_leaving r) = 1
left (write_waiting b) = 3
left (write_holding b) = 2
left write_leaving = 1
left closing = 2
left closing_link = 1

is_short : (r : Result ℕ) → (r ≡ err tcpip_short_buffer) ⊎ (r ≢ err tcpip_short_buffer)
is_short (ok n) = inr (λ e. cc)
is_short panic = inr (λ e. cc)
is_short (err tcpip_short_buffer) = inl refl
is_short (err (errno n)) = inr (λ e. cc)
is_short (err err_closed) = inr (λ e. cc)
is_short (err err_exist) = inr (λ e. cc)
is_short (err eof) = inr (λ e. cc)
is_short (err err_short_buffer) = inr (λ e. cc)
is_short (err (tcpip_other n)) = inr (λ e. cc)
is_short (err (new t)) = inr (λ e. cc)
is_short (err (wrap t x)) = inr (λ e. cc)
is_short (err (wrap_path t p x)) = inr (λ e. cc)
is_short (err (wrap_nil t p)) = inr (λ e. cc)

places_le : (p : Pc) → reads p + writes p + closes p + link_closes p ≤ left p
places_le idle = omega arith
places_le (read_waiting len) = omega arith
places_le (read_holding len) = omega arith
places_le (filling len) = omega arith
places_le (read_leaving r) = omega arith
places_le (write_waiting b) = omega arith
places_le (write_holding b) = omega arith
places_le write_leaving = omega arith
places_le closing = omega arith
places_le closing_link = omega arith

module _ (tcpip : Tcpip) (kernel : Kernel) where
  abbrev pub Going : State Shared Pc → State Shared Pc → Type 0
  Going = Runs.Going (Local tcpip kernel) left

  abbrev pub Run : State Shared Pc → ℕ → State Shared Pc → Type 0
  Run = Runs.Run (Local tcpip kernel) left

  abbrev Any : Shared → Type 0
  Any m = Unit

  descends : Runs.Descends (Local tcpip kernel) left Any
  descends m m' p q (refused a b c d) good busy = ground arith
  descends m m' p q (read_load len a b c d) good busy = ground arith
  descends m m' p q (read_lock len a b c d) good busy = (rw (a, b) (omega arith), tt)
  descends m m' p q (takes len a b c d) good busy = (rw (a, b) (omega arith), tt)
  descends m m' p q (moves len a b c d) good busy = (rw (a, b) (omega arith), tt)
  descends m m' p q (file_reads len a b c) good busy = (rw (a, b) (omega arith), tt)
  descends m m' p q (read_unlock r a b c) good busy = (rw (a, b) (omega arith), tt)
  descends m m' p q (write_load x a b c d) good busy = ground arith
  descends m m' p q (write_lock x a b c d) good busy = (rw (a, b) (omega arith), tt)
  descends m m' p q (sends x a b c) good busy = (rw (a, b) (omega arith), tt)
  descends m m' p q (write_unlock a b c) good busy = (rw (a, b) (omega arith), tt)
  descends m m' p q (swap a b c d) good busy = ground arith
  descends m m' p q (close_data a b c) good busy = (rw (a, b) (omega arith), tt)
  descends m m' p q (close_link a b c) good busy = (rw (a, b) (omega arith), tt)

  -- A goroutine that holds a mutex can go on, and so can every other while nobody holds one.
  reader-moves :
      (m : Shared) (p : Pc)
      → 0 < reads p
      → (m' : Shared) × (q : Pc) × (Local tcpip kernel m p m' q × (0 < left p))
  reader-moves m (read_holding len) busy = elim (is_short (tcpip.total_len (unread m.device))) [
    | inl short ↦ (_, _, (moves len refl refl short refl, omega arith))
    | inr long ↦ (_, _, (takes len refl refl long refl, omega arith))
  ]
  reader-moves m (filling len) busy = (_, _, (file_reads len refl refl refl, omega arith))
  reader-moves m (read_leaving r) busy = (_, _, (read_unlock r refl refl refl, omega arith))
  reader-moves m idle busy = absurd (omega arith)
  reader-moves m (read_waiting len) busy = absurd (omega arith)
  reader-moves m (write_waiting b) busy = absurd (omega arith)
  reader-moves m (write_holding b) busy = absurd (omega arith)
  reader-moves m write_leaving busy = absurd (omega arith)
  reader-moves m closing busy = absurd (omega arith)
  reader-moves m closing_link busy = absurd (omega arith)

  free-moves :
      (m : Shared) (p : Pc)
      → m.reading ≡ false
      → m.writing ≡ false
      → 0 < left p
      → (m' : Shared) × (q : Pc) × Local tcpip kernel m p m' q
  free-moves m idle no_reader no_writer busy = absurd (omega arith)
  free-moves m (read_waiting len) no_reader no_writer busy =
      (_, _, read_lock len refl refl no_reader refl)
  free-moves m (read_holding len) no_reader no_writer busy =
      let (m', q, (own, more)) = reader-moves m (read_holding len) (omega arith) in (m', q, own)
  free-moves m (filling len) no_reader no_writer busy = (_, _, file_reads len refl refl refl)
  free-moves m (read_leaving r) no_reader no_writer busy = (_, _, read_unlock r refl refl refl)
  free-moves m (write_waiting b) no_reader no_writer busy =
      (_, _, write_lock b refl refl no_writer refl)
  free-moves m (write_holding b) no_reader no_writer busy = (_, _, sends b refl refl refl)
  free-moves m write_leaving no_reader no_writer busy = (_, _, write_unlock refl refl refl)
  free-moves m closing no_reader no_writer busy = (_, _, close_data refl refl refl)
  free-moves m closing_link no_reader no_writer busy = (_, _, close_link refl refl refl)

  writer-moves :
      (m : Shared) (p : Pc)
      → 0 < writes p
      → (m' : Shared) × (q : Pc) × (Local tcpip kernel m p m' q × (0 < left p))
  writer-moves m (write_holding b) busy = (_, _, (sends b refl refl refl, omega arith))
  writer-moves m write_leaving busy = (_, _, (write_unlock refl refl refl, omega arith))
  writer-moves m (read_holding len) busy = absurd (omega arith)
  writer-moves m (filling len) busy = absurd (omega arith)
  writer-moves m (read_leaving r) busy = absurd (omega arith)
  writer-moves m idle busy = absurd (omega arith)
  writer-moves m (read_waiting len) busy = absurd (omega arith)
  writer-moves m (write_waiting b) busy = absurd (omega arith)
  writer-moves m closing busy = absurd (omega arith)
  writer-moves m closing_link busy = absurd (omega arith)

  -- Unless all goroutines are idle, one of them can go on.
  goes_on :
      (s : State Shared Pc)
      → Control s
      → 0 < total left s.threads
      → (t : State Shared Pc) × Going s t
  goes_on s inv busy = elim (Bool-cases (ltb 0 (total reads s.threads))) [
    | inl reader ↦
        let (before, p, after, (split, here)) = found reads s.threads (ground arith) in
        let (m, q, (own, far)) = reader-moves s.shared p here in
        takes_step (Local tcpip kernel) left s before after p q m split own far
    | inr no_reader ↦ elim (Bool-cases (ltb 0 (total writes s.threads))) [
      | inl writer ↦
          let (before, p, after, (split, here)) = found writes s.threads (ground arith) in
          let (m, q, (own, far)) = writer-moves s.shared p here in
          takes_step (Local tcpip kernel) left s before after p q m split own far
      | inr no_writer ↦
          let (before, p, after, (split, far)) = found left s.threads busy in
          let (m, q, own) = free-moves s.shared p (ground arith) (ground arith) far in
          takes_step (Local tcpip kernel) left s before after p q m split own far
    ]
  ]

  -- What holds when all calls are done: the mutexes are free, and if the device was closed, each of
  -- its two files was, once.
  abbrev pub Quiet : Shared → Type 0
  Quiet m =
      (m.reading ≡ false)
      × (m.writing ≡ false)
      × (m.data_closes ≡ (if m.device.closed then 1 else 0))
      × (m.link_closes ≡ m.data_closes)

  all_done : (s : State Shared Pc) → Control s → total left s.threads ≡ 0 → Quiet s.shared
  all_done s inv over =
      let a = total-le reads left s.threads (λ p. omega (arith, places_le p)) in
      let b = total-le writes left s.threads (λ p. omega (arith, places_le p)) in
      let c = total-le closes left s.threads (λ p. omega (arith, places_le p)) in
      let d = total-le link_closes left s.threads (λ p. omega (arith, places_le p)) in
      (ground arith, ground arith, ground arith, ground arith)

  -- The steps of the calls that are under way are bounded: each takes one from what is left, at
  -- least. At every point either some goroutine can go on, so that none waits for a mutex for ever, or
  -- all calls are done; then the mutexes are free, and if the device was closed, each of its two
  -- files was, once. The calls of the kernel are taken to return, and calls that begin
  -- later are not counted.
  pub calls_end :
      (name : Bytes) (data_file link_file : Option File) (h : History) (s t : State Shared Pc)
      (n : ℕ)
      → IsLawful tcpip
      → Reached tcpip kernel name data_file link_file h s
      → Run s n t
      → (n + total left t.threads ≤ total left s.threads)
        × (((u : State Shared Pc) × Going t u) ⊎ ((total left t.threads ≡ 0) × Quiet t.shared))
  calls_end name data_file link_file h s t n law reached run =
      let (fits, any) = Runs.Run-left (Local tcpip kernel) left Any descends s n t run tt in
      let there =
        Runs.run-Reachable (Local tcpip kernel) left (opened name data_file link_file h) idle s n t
          run reached in
      let inv = (reached-Inv tcpip kernel name data_file link_file h t law there).0 in
      (
        fits,
        elim (Bool-cases (ltb 0 (total left t.threads))) [
          | inl some_left ↦ inl (goes_on t inv (ground arith))
          | inr none_left ↦
              let over : total left t.threads ≡ 0 = ground arith in inr (over, all_done t inv over)
        ],
      )
