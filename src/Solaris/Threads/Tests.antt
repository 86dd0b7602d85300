-- ===== src/Solaris/Threads/Tests.antt =====
-- The theorems on the goroutines of tun_solaris.go at a run of two of them: while one reads a ping and
-- the start of the next packet, the other closes the device.
use subpass.Base.{
  ℕ, ◌+◌, ◌≤◌, ◌≡◌, ◌⊎◌, refl, arith, true, none, some, List, [], ◌∷◌, ◌++◌, drop, Option,
}
use subpass.Go.Result.{ok}
use subpass.Go.Kernel.{Kernel, File, Call}
use subpass.Go.File.{file_read}
use subpass.Go.Threads.{State, start, reach, total}
use subpass.Go.Threads.Runs.{go, stay, more}
use subpass.Packet.Sample.{sample, sample-IsLawful, sample-IsFramed, ping}
use subpass.Solaris.Threads.{
  Shared, Pc, idle, read_waiting, read_holding, filling, read_leaving, closing, read_load,
  read_lock, moves, file_reads, swap,
}
use subpass.Solaris.Threads.Control.{reads, writes}
use subpass.Solaris.Threads.Safety.{opened, Reached, one_at_a_time, packets_once}
use subpass.Solaris.Threads.Progress.{left, Going, Quiet, calls_end}

abbrev file : Option File
file = some (record { fd = 7; name = [] })

abbrev stream : Kernel
stream h c = record { errno = none; value = 22; text = ping ++ (0x45 ∷ 0 ∷ []) }

abbrev unused : Shared
unused = opened [] file none []

abbrev locked : Shared
locked = record unused { reading = true }

abbrev shut : Shared
shut = record locked { device = record (unused.device) { closed = true } }

abbrev got : Shared
got = record shut {
  device = record (shut.device) { buff = ping ++ (0x45 ∷ 0 ∷ []); start = 20; count = 2 };
  history =
      record {
        call = Call.read 7 65536;
        reply = record { errno = none; value = 22; text = ping ++ (0x45 ∷ 0 ∷ []) };
      }
      ∷ [];
  received = ping ++ (0x45 ∷ 0 ∷ []);
  packets = ping ∷ [];
}

abbrev state : Shared → Pc → Pc → State Shared Pc
state m p q = record { shared = m; threads = p ∷ q ∷ [] }

reading : Reached sample stream [] file none [] (state locked (filling 1500) idle)
reading =
    reach _ unused idle locked locked [] (idle ∷ []) (read_holding 1500) (filling 1500)
      (reach _ unused idle unused locked [] (idle ∷ []) (read_waiting 1500) (read_holding 1500)
        (reach _ unused idle unused unused [] (idle ∷ []) idle (read_waiting 1500) (start 2)
          (read_load 1500 refl refl refl refl))
        (read_lock 1500 refl refl refl refl))
      (moves 1500 refl refl refl refl)

shut_meanwhile : Reached sample stream [] file none [] (state shut (filling 1500) closing)
shut_meanwhile =
    reach _ unused idle locked shut (filling 1500 ∷ []) [] idle closing reading
      (swap refl refl refl refl)

ping_returned : Reached sample stream [] file none [] (state got (read_leaving (ok ping)) closing)
unfolding file_read
ping_returned =
    reach _ unused idle shut got [] (closing ∷ []) (filling 1500) (read_leaving (ok ping))
      shut_meanwhile (file_reads 1500 refl refl refl)

one_at_a_time_example :
    let s = state got (read_leaving (ok ping)) closing in
    (total reads s.threads ≤ 1)
    × (total writes s.threads ≤ 1)
    × (s.shared.data_closes ≤ 1)
    × (s.shared.link_closes ≤ s.shared.data_closes)
one_at_a_time_example =
    one_at_a_time sample stream [] file none [] (state got (read_leaving (ok ping)) closing)
      sample-IsLawful ping_returned

packets_once_example : (more : List (List ℕ)) × (ping ∷ ping ∷ [] ≡ got.packets ++ more)
packets_once_example =
    packets_once sample stream [] file none [] (state got (read_leaving (ok ping)) closing)
      (ping ∷ ping ∷ []) (drop 2 ping) sample-IsLawful sample-IsFramed ping_returned refl
      (refl, (refl, tt)) refl

calls_end_example :
    let s = state shut (filling 1500) closing in
    let t = state got (read_leaving (ok ping)) closing in
    (1 + total left t.threads ≤ total left s.threads)
    × (((u : State Shared Pc) × Going sample stream t u)
        ⊎ ((total left t.threads ≡ 0) × Quiet sample stream t.shared))
unfolding file_read
calls_end_example =
    calls_end sample stream [] file none [] (state shut (filling 1500) closing)
      (state got (read_leaving (ok ping)) closing) 1 sample-IsLawful shut_meanwhile
      (more (state shut (filling 1500) closing) 0 (state shut (filling 1500) closing)
        (state got (read_leaving (ok ping)) closing) (stay (state shut (filling 1500) closing))
        (go [] (closing ∷ []) (filling 1500) (read_leaving (ok ping))
          (file_reads 1500 refl refl refl) refl refl (omega arith)))
