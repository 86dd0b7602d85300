-- ===== src/Windows.antt =====
-- tun_windows.go over the package wintun, whose functions are calls of the kernel here: the device
-- and how it is made, `Read` and `Write`.
pub mod Settings
pub mod Tally
pub mod Opening
pub mod Ring
pub mod Reading
pub mod Writing
pub mod Sending
pub mod Closing
pub mod Tests
use subpass.Base.{ℕ, zero, suc, Bool, true, false, not, Option, none, some, List, [], ◌∷◌, Bytes}
use subpass.Base.{ltb, ◌==◌, length, min}
use subpass.Go.Error.{
  Errno, Error, errno, err_closed, err_short_buffer, tcpip_short_buffer, new, wrap,
  error_no_more_items, error_handle_eof, error_invalid_data, error_buffer_overflow,
}
use subpass.Go.Result.{Result, ok, err, panic, slice_to}
use subpass.Go.Kernel.{
  Kernel, History, Call, wintun, Wintun, Reply, M, pure, fail, lift, fail_if, sys, told, done, made,
  mapping, wrapping, on_error, or_else, load, ◌>>=◌, ◌>>◌,
}
use subpass.Packet.{Tcpip, check_packet_len}
use subpass.Windows.Settings.{Config, check_wintun_config}

-- wintun.PacketSizeMax
abbrev pub packet_size_max : ℕ
packet_size_max = 0xffff

-- A device without the fields `onceClose`, `closed` and `running`, which its threads share:
-- Windows/Closing.antt has these.
pub record TunDevice : Type 0 where
  pub session : ℕ
  pub adaptor : ℕ
  pub read_wait : ℕ
  pub name : Bytes

pub create_tun_device : Kernel → Config → M TunDevice
create_tun_device kernel config = do
  lift (check_wintun_config config)
  adapter ← or_else (sys kernel (wintun (Wintun.open_adapter config.name))) (
      wrapping "create tunnel"
        (sys kernel (wintun (Wintun.create_adapter config.name config.kind config.guid))))
  ssn ← on_error (told kernel (wintun (Wintun.close_adapter adapter.value))) (
      wrapping "start tunnel session"
        (sys kernel (wintun (Wintun.start_session adapter.value config.ring_capacity))))
  event ← told kernel (wintun (Wintun.read_wait_event ssn.value))
  pure (record {
    session = ssn.value;
    adaptor = adapter.value;
    read_wait = event.value;
    name = config.name;
  })

unfoldable pub open_tun_device : Kernel → Config → M TunDevice
unfolding create_tun_device
open_tun_device kernel config = wrapping "open device" (create_tun_device kernel config)

-- `Close`, where `shut` is what `closed.Swap(true)` found; a device that was made has an adapter. What
-- other threads do meanwhile is in Windows/Closing.antt.
unfoldable pub close : Kernel → TunDevice → Bool → M (Unit {0})
close kernel tun true = fail (wrap "close" err_closed)
close kernel tun false = do
  told kernel (wintun (Wintun.set_event tun.read_wait))
  told kernel (wintun (Wintun.end_session tun.session))
  wrapping "close" (done kernel (wintun (Wintun.close_adapter tun.adaptor)))

-- `&packet[0]`
abbrev first_byte : Bytes → Result (Unit {0})
first_byte [] = panic
first_byte (x ∷ packet) = ok tt

abbrev pub total_len_error : Error → Error
total_len_error tcpip_short_buffer = new "read: short ip packet"
total_len_error e = wrap "read" e

-- The first case of the `switch`, for a slice of `len` bytes. `tcpip.TotalLen(packet)` reads the
-- packet's place after its release.
pub take_packet : Tcpip → Kernel → TunDevice → ℕ → Reply → M Bytes
take_packet tcpip kernel tun len packet = do
  let cp = min len (length packet.text)
  lift (first_byte packet.text)
  left ← told kernel (wintun (Wintun.release_receive_packet tun.session packet.value))
  total_len ← mapping total_len_error (lift (tcpip.total_len left.text))
  fail_if (not (total_len == length packet.text)) (new "read: invalid ip packet length")
  fail_if (ltb cp (length packet.text)) (wrap "read" err_short_buffer)
  pure packet.text

-- One way from the label `retry` to a `goto` or a `return`.
pub data Pass : Type 0 where
  retry : History → Pass
  returned : Result Bytes × History → Pass

-- The `switch` on the error of `ReceivePacket`, whose reply is `packet`.
abbrev pub on_receive : Tcpip → Kernel → TunDevice → ℕ → Reply → Option Errno → History → Pass
on_receive tcpip kernel tun len packet none h = returned (take_packet tcpip kernel tun len packet h)
on_receive tcpip kernel tun len packet (some error_no_more_items) h =
    retry (made kernel (wintun (Wintun.wait_for_single_object tun.read_wait)) h)
on_receive tcpip kernel tun len packet (some error_handle_eof) h =
    returned (err (wrap "read" err_closed), h)
on_receive tcpip kernel tun len packet (some error_invalid_data) h =
    returned (err (new "read: send ring corrupt"), h)
on_receive tcpip kernel tun len packet (some e) h = returned (err (wrap "read" (errno e)), h)

abbrev pub on_load : Tcpip → Kernel → TunDevice → ℕ → Bool → History → Pass
on_load tcpip kernel tun len true h = returned (err (wrap "read" err_closed), h)
on_load tcpip kernel tun len false h =
    let c = wintun (Wintun.receive_packet tun.session) in
    let packet = kernel h c in on_receive tcpip kernel tun len packet packet.errno (made kernel c h)

abbrev pub after_pass :
    (History → Option (Result Bytes) × History) → Pass → Option (Result Bytes) × History
after_pass again (retry h) = again h
after_pass again (returned (r, h)) = (some r, h)

-- `closed` is what `tun.closed.Load()` finds, which other threads may change.
module _ (tcpip : Tcpip) (kernel : Kernel) (closed : History → Bool) (tun : TunDevice) where
  -- `Read` into a slice of `len` bytes, for a number of passes: `none` if that many end in a wait.
  pub read : ℕ → ℕ → History → Option (Result Bytes) × History
  unfolding take_packet
  read len zero h = (none, h)
  read len (suc passes) h = after_pass (read len passes) (on_load tcpip kernel tun len (closed h) h)

  -- The `switch` on the error of `AllocateSendPacket`. The slice that it gives has `lb` bytes.
  abbrev on_allocate : Bytes → ℕ → Reply → Option Errno → M ℕ
  on_allocate b lb place none = do
    packet ← lift (slice_to b lb)
    told kernel (wintun (Wintun.send_packet tun.session place.value packet))
    pure (min lb (length packet))
  on_allocate b lb place (some error_handle_eof) = fail (wrap "write" err_closed)
  on_allocate b lb place (some error_buffer_overflow) = pure 0
  on_allocate b lb place (some e) = fail (wrap "write" (errno e))

  pub write : Bytes → M ℕ
  write b = do
    shut ← load closed
    fail_if shut (wrap "write" err_closed)
    (v, lb) ← wrapping "write" (lift (check_packet_len tcpip b))
    fail_if (ltb packet_size_max lb) (new "write: buffer size too large")
    place ← told kernel (wintun (Wintun.allocate_send_packet tun.session lb))
    on_allocate b lb place place.errno
