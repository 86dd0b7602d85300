-- ===== src/Windows/Tests.antt =====
-- The theorems on tun_windows.go at a concrete ring and a concrete run.
use subpass.Base.{
  ◌≤◌, ◌+◌, ◌⊎◌, ◌≡◌, ◌≢◌, ◌↔◌, ℕ, inr, refl, arith, Bool, true, false, some, none, [], ◌∷◌, codes,
  length,
}
use subpass.Go.Error.{error_no_more_items, error_buffer_overflow}
use subpass.Go.Result.{ok}
use subpass.Go.Kernel.{Kernel, History, wintun, Wintun, made}
use subpass.Packet.{check_packet_len}
use subpass.Packet.Sample.{sample, sample-IsLawful, ping}
use subpass.Windows.{TunDevice, open_tun_device, read, write, close}
use subpass.Windows.Settings.{
  default_os_parms, check_wintun_config, check_wintun_config_iff, IsUsable,
}
use subpass.Windows.Opening.{Keeps, open_tun_device-close}
use subpass.Windows.Ring.{Returned, read-Returned}
use subpass.Windows.Reading.{read-ne-none, read-packet_iff, left_behind}
use subpass.Windows.Writing.{Sends, write-Sends}
use subpass.Windows.Closing.{
  Pc, idle, swapped, signalled, drained, ended, entered, State, Shared, fresh, Reachable,
  swap_unset, set_event, add, running_wait, session_end,
}
use subpass.Windows.Closing.Count.{in_use}
use subpass.Windows.Closing.Runs.{left, Going}
use subpass.Go.Threads.Runs.{go, stay, more}
use subpass.Go.Threads.{step, start, next, total}
use subpass.Windows.Closing.Ending.{close_ends}
use subpass.Windows.Closing.Safety.{session_end-alone}

check_wintun_config_iff_example :
    (check_wintun_config default_os_parms ≡ ok tt) ↔ IsUsable default_os_parms
check_wintun_config_iff_example = check_wintun_config_iff default_os_parms

-- A ring that is empty at first and holds a ping after a wait; there is no adapter of the name.
abbrev ring : Kernel
ring [] (wintun (Wintun.receive_packet s)) = record {
  errno = some error_no_more_items;
  value = 0;
  text = [];
}
ring h (wintun (Wintun.open_adapter name)) = record {
  errno = some error_no_more_items;
  value = 0;
  text = [];
}
ring h (wintun (Wintun.allocate_send_packet s size)) = record {
  errno = some error_buffer_overflow;
  value = 0;
  text = [];
}
ring h c = record { errno = none; value = 7; text = ping }

abbrev tun : TunDevice
tun = record { session = 3; adaptor = 4; read_wait = 5; name = codes "Client" }

abbrev never : History → Bool
never h = false

pinged : (read sample ring never tun 1500 2 []).0 ≡ some (ok ping)
unfolding read
pinged = refl

read-Returned_example : Returned 3 7 [] (read sample ring never tun 1500 2 []).1
read-Returned_example = read-Returned sample ring never tun 1500 2 3 7 [] (rw pinged (λ e. cc))

read-ne-none_example : (read sample ring never tun 1500 2 []).0 ≢ none
read-ne-none_example = read-ne-none sample ring never tun 1500 1 2 [] (omega arith) (inr (λ e. cc))

woken : History
woken = made ring (wintun (Wintun.wait_for_single_object 5)) []

read-packet_iff_example : ((read sample ring never tun 1500 1 woken).0 ≡ some (ok ping)) ↔ (
    (sample.total_len (left_behind sample ring never tun 1500 woken) ≡ ok (length ping))
    × (length ping ≤ 1500))
unfolding woken
read-packet_iff_example = read-packet_iff sample ring never tun 1500 0 woken refl refl refl

tried : History
tried = made ring (wintun (Wintun.allocate_send_packet 3 20)) []

write-Sends_example :
    (v : ℕ) × (lb : ℕ) × ((check_packet_len sample ping ≡ ok (v, lb))
      × (lb ≤ 65535)
      × Sends sample ring never tun ping lb [] 0 tried)
unfolding write check_packet_len tried
write-Sends_example = write-Sends sample ring never tun ping [] sample-IsLawful refl

-- One thread closes while another comes to read.
abbrev shared : Bool → Bool → ℕ → ℕ → Shared
shared closed once running ends = record {
  closed = closed;
  once = once;
  running = running;
  session_ends = ends;
  adapter_closes = 0;
}

abbrev at : Shared → Pc → Pc → State
at m p q = record { shared = m; threads = p ∷ q ∷ [] }

swapping : Reachable (at (shared true false 0 0) swapped idle)
swapping =
    next (fresh 2) (at (shared true false 0 0) swapped idle) (start 2)
      (step [] (idle ∷ []) idle swapped (swap_unset refl refl refl refl) refl refl)

draining : Reachable (at (shared true true 0 0) drained idle)
draining =
    next (at (shared true true 0 0) signalled idle) (at (shared true true 0 0) drained idle)
      (next (at (shared true false 0 0) swapped idle) (at (shared true true 0 0) signalled idle)
        swapping (step [] (idle ∷ []) swapped signalled (set_event refl refl refl refl) refl refl))
      (step [] (idle ∷ []) signalled drained (running_wait refl refl refl refl) refl refl)

ending : Reachable (at (shared true true 1 1) ended entered)
ending =
    next (at (shared true true 1 0) drained entered) (at (shared true true 1 1) ended entered)
      (next (at (shared true true 0 0) drained idle) (at (shared true true 1 0) drained entered)
        draining (step (drained ∷ []) [] idle entered (add refl refl refl) refl refl))
      (step [] (entered ∷ []) drained ended (session_end refl refl refl) refl refl)

abbrev over : State
over = at (shared true true 1 1) ended entered

session_end-alone_example :
    (in_use entered ≡ 0) × (over.shared.session_ends ≡ 1) × (over.shared.adapter_closes ≤ 1)
session_end-alone_example = session_end-alone over (ended ∷ []) [] entered ending refl (omega arith)

abbrev begun : State
begun = at (shared true false 0 0) swapped idle

abbrev signed : State
signed = at (shared true true 0 0) signalled idle

close_ends_example :
    (1 + total left signed.threads ≤ total left begun.threads)
    × (((u : State) × Going signed u)
        ⊎ ((total left signed.threads ≡ 0)
            × (signed.shared.session_ends ≡ 1)
            × (signed.shared.adapter_closes ≡ 1)))
close_ends_example = close_ends begun signed 1 swapping refl (
    more begun 0 begun signed (stay begun)
      (go [] (idle ∷ []) swapped signalled (set_event refl refl refl refl) refl refl (omega arith)))

-- Everything works; the calls that open a device return 7.
abbrev able : Kernel
able h c = record { errno = none; value = 7; text = [] }

abbrev device : TunDevice
device = record { session = 7; adaptor = 7; read_wait = 7; name = codes "Client" }

abbrev made_device : History
made_device = made able (wintun (Wintun.read_wait_event 7)) (
    made able (wintun (Wintun.start_session 7 0x400000))
      (made able (wintun (Wintun.open_adapter (codes "Client"))) []))

open_tun_device-close_example : Keeps 7 7 [] 0 0 (close able device false made_device).1
unfolding open_tun_device check_wintun_config
open_tun_device-close_example =
    open_tun_device-close able default_os_parms 7 7 [] made_device {tun = device} refl
