-- ===== src/Solaris/Threads.antt =====
-- `Read`, `Write` and `Close` of tun_solaris.go as goroutines share a device: the flag, the two
-- mutexes, the buffer with the slice of unread bytes, and the files.
pub mod Control
pub mod Delivery
pub mod Safety
pub mod Progress
pub mod Tests
use subpass.Base.{ℕ, ◌+◌, ◌-◌, ◌≡◌, ◌≢◌, ◌||◌, Bool, true, false, List, [], ◌∷◌, ◌++◌, Bytes}
use subpass.Go.Error.{tcpip_short_buffer}
use subpass.Go.Result.{Result, ok, err, panic}
use subpass.Go.Kernel.{Kernel, History}
use subpass.Go.File.{file_read}
use subpass.Packet.{Tcpip}
use subpass.Solaris.{send, close_one}
use subpass.Solaris.Reader.{
  TunDevice, unread, overwrite, after_fill, after_total_len, tun_read_buffer_len,
}

-- What the goroutines share. `reading` and `writing` say that the mutex is locked. The rest is a
-- record of what happened: the calls of the kernel, the bytes that reads of the file gave, the
-- packets that calls of `Read` return, in the order in which they came to them, whether a read of
-- the file failed, and the numbers of closes of the two files.
pub record Shared : Type 0 where
  pub device : TunDevice
  pub reading : Bool
  pub writing : Bool
  pub history : History
  pub received : Bytes
  pub packets : List Bytes
  pub failed : Bool
  pub data_closes : ℕ
  pub link_closes : ℕ

-- Where a goroutine stands. A `Read` of so many bytes, or a `Write`, is `waiting` for the mutex when
-- it found `closed` unset, is `holding` it, and is `leaving` when its deferred unlock is due, with
-- what `readPacket` returned. In between a `Read` that found less than a packet is `filling` the
-- buffer: it has moved the unread bytes. A `Close` that set the flag is `closing` the files.
pub data Pc : Type 0 where
  idle : Pc
  read_waiting read_holding filling : ℕ → Pc
  read_leaving : Result Bytes → Pc
  write_waiting write_holding : Bytes → Pc
  write_leaving : Pc
  closing closing_link : Pc

abbrev pub packet_of : Result Bytes → List Bytes
packet_of (ok p) = p ∷ []
packet_of _ = []

abbrev pub bytes_of : Result Bytes → Bytes
bytes_of (ok b) = b
bytes_of _ = []

abbrev pub is_error : Result Bytes → Bool
is_error (ok b) = false
is_error _ = true

module _ (tcpip : Tcpip) (kernel : Kernel) where
  -- `readPacket` with a packet in the buffer, or with an error that is not ErrShortBuffer.
  abbrev pub taken : Shared → ℕ → TunDevice × Result Bytes × History
  taken m len =
      after_total_len tcpip kernel m.device len m.history (tcpip.total_len (unread m.device))

  -- The read of the file behind the moved bytes, and what follows it.
  abbrev pub fill : Shared → ℕ → Result Bytes × History
  fill m len = file_read kernel m.device.data_file (tun_read_buffer_len - m.device.count) m.history

  abbrev pub filled : Shared → ℕ → TunDevice × Result Bytes × History
  filled m len = after_fill tcpip m.device len (fill m len)

  -- A goroutine's own steps from p to q, and what is shared before and after.
  pub data Local (m : Shared) (p : Pc) (m' : Shared) (q : Pc) : Type 0 where
    refused : p ≡ idle → q ≡ idle → m.device.closed ≡ true → m' ≡ m → Local m p m' q
    read_load :
        (len : ℕ)
        → p ≡ idle
        → q ≡ read_waiting len
        → m.device.closed ≡ false
        → m' ≡ m
        → Local m p m' q
    read_lock :
        (len : ℕ)
        → p ≡ read_waiting len
        → q ≡ read_holding len
        → m.reading ≡ false
        → m' ≡ record m { reading = true }
        → Local m p m' q
    takes :
        (len : ℕ)
        → p ≡ read_holding len
        → q ≡ read_leaving (taken m len).1
        → tcpip.total_len (unread m.device) ≢ err tcpip_short_buffer
        → m' ≡ record m {
          device = (taken m len).0;
          history = (taken m len).2;
          packets = m.packets ++ packet_of (taken m len).1;
        }
        → Local m p m' q
    moves :
        (len : ℕ)
        → p ≡ read_holding len
        → q ≡ filling len
        → tcpip.total_len (unread m.device) ≡ err tcpip_short_buffer
        → m' ≡ record m {
          device = record (m.device) { buff = overwrite m.device.buff 0 (unread m.device) };
        }
        → Local m p m' q
    file_reads :
        (len : ℕ)
        → p ≡ filling len
        → q ≡ read_leaving (filled m len).1
        → m' ≡ record m {
          device = (filled m len).0;
          history = (filled m len).2;
          received = m.received ++ bytes_of (fill m len).0;
          packets = m.packets ++ packet_of (filled m len).1;
          failed = m.failed || is_error (fill m len).0;
        }
        → Local m p m' q
    read_unlock :
        (r : Result Bytes)
        → p ≡ read_leaving r
        → q ≡ idle
        → m' ≡ record m { reading = false }
        → Local m p m' q
    write_load :
        (b : Bytes)
        → p ≡ idle
        → q ≡ write_waiting b
        → m.device.closed ≡ false
        → m' ≡ m
        → Local m p m' q
    write_lock :
        (b : Bytes)
        → p ≡ write_waiting b
        → q ≡ write_holding b
        → m.writing ≡ false
        → m' ≡ record m { writing = true }
        → Local m p m' q
    sends :
        (b : Bytes)
        → p ≡ write_holding b
        → q ≡ write_leaving
        → m' ≡ record m { history = (send tcpip kernel m.device b m.history).1 }
        → Local m p m' q
    write_unlock : p ≡ write_leaving → q ≡ idle → m' ≡ record m { writing = false } → Local m p m' q
    swap :
        p ≡ idle
        → q ≡ closing
        → m.device.closed ≡ false
        → m' ≡ record m { device = record (m.device) { closed = true } }
        → Local m p m' q
    close_data :
        p ≡ closing
        → q ≡ closing_link
        → m' ≡ record m {
          history = (close_one kernel m.device.data_file m.history).1;
          data_closes = m.data_closes + 1;
        }
        → Local m p m' q
    close_link :
        p ≡ closing_link
        → q ≡ idle
        → m' ≡ record m {
          history = (close_one kernel m.device.link_file m.history).1;
          link_closes = m.link_closes + 1;
        }
        → Local m p m' q
