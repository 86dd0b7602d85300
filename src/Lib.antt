-- ===== src/Lib.antt =====
-- subpass is a Go library that opens layer-3 tunnel devices. On each system it asks the kernel
-- for an interface and hands the program a device on which whole IP packets are read and written;
-- `Copy` (io_copy.go) moves packets between a device and a stream.
--
-- How the parts stand together. Each tun_<system>.go has `openTunDevice`, which makes the
-- interface through system calls and undoes what it did when a later call fails, and the methods
-- of the device. On NetBSD and OpenBSD mknod.go finds the character device; the four BSDs and
-- Darwin share the `Read` and `Write` of rw_bsd.go; on Linux offload_linux.go puts the package
-- virtio/offloads between the device and its file. The devices share `checkPacketLen` and
-- `ErrShortBuffer` of errors.go, and `Copy` knows the devices only by that error.
--
-- Which file models which part:
--
--   Base, with Base/*         the native numbers, byte strings and their lemmas
--   Go/Error, Go/Result       Go's errors, with errors.Is, and (value, error) results
--   Go/Strconv                strconv.Atoi and the %d of fmt
--   Go/Kernel, Go/File        system calls over any kernel, `defer`, os.File
--   Go/Threads                goroutines that share a state
--   Go/Kernel/Held, Gives, Inversion
--                             the logics for code over a kernel, see below
--   Packet                    errors.go: checkPacketLen
--   Copy                      io_copy.go: Copy
--   Pump                      Copy with the Write of a device as its writer; the devices
--                             are in Linux.Sending, Bsd.Sending and Windows.Sending
--   Relay                     Copy between two devices, with the Read of the one as its
--                             reader; in Linux.Relaying and Bsd.Relaying
--   Bsd                       rw_bsd.go: Read, Write; the Close of tun_netbsd.go,
--                             tun_openbsd.go, tun_freebsd.go, tun_dragonfly.go,
--                             tun_darwin.go and tun_linux.go, which is one text
--   Mknod                     mknod.go: openTunFromCharDev and what it calls
--   Netbsd, Openbsd, Freebsd, Dragonfly, Darwin
--                             tun_netbsd.go, tun_openbsd.go, tun_freebsd.go,
--                             tun_dragonfly.go, tun_darwin.go
--   Linux                     tun_linux.go: Linux.Name is validateName, Linux.Netlink
--                             and Linux.Answer the two messages of Destroy, and
--                             Linux.Removal has a kernel that answers the one by the other
--   Solaris                   tun_solaris.go: Solaris.Reader is Read and readPacket over
--                             the buffer, Solaris.Index getTunIndex, Solaris.Calls and
--                             Solaris.Delivery calls of Read one after the other,
--                             Solaris.Threads Read, Write and Close beside each other
--   Windows                   tun_windows.go: Windows.Settings is checkWintunConfig,
--                             Windows.Closing is Close beside other threads
--   NewTun                    tun.go: NewTun, and the Close of what it returns
--   Offload                   offload_linux.go, and openTunDevice of tun_linux.go
--   Vhost                     _vhost_linux.go, which no build contains
--
-- A function of the source keeps its name in snake_case. A long one is cut in two or three at the
-- points where a deferred function is registered: `set_up`, `configure` and `finish` are such
-- pieces of createTunDevice.
--
-- State. A piece of code that makes system calls is a function from the history of calls to a
-- result and the longer history. The kernel is a parameter: any function from the history and a
-- call to a reply, so that what is shown holds for every kernel, also one that lies. `on_error`
-- is a deferred cleanup under `err != nil`, `finally` an unconditional one; the cleanups nest in
-- the order in which they are registered. `Holds a m f g` says that `m`, started with the
-- descriptors `a` in hand, ends with those of `f v` when it returns `v` and with those of `g`
-- when it returns an error, each descriptor being counted with its multiplicity, and that it does
-- not panic.
--
-- Copy is a machine that makes one call of the reader or the writer in each step, over any reader
-- and any writer, which may depend on all that went before. The steps are counted, so that a
-- theorem on a run says how many calls are enough, or that none are.
--
-- The reader of Solaris keeps its buffer and, as a start and a count, the slice of unread bytes
-- in it, so that what an early return leaves of the two is told apart.
--
-- On Windows a read or a write is a function of the history too, in which what `closed.Load()`
-- finds may differ from one moment to the next. What goroutines share has a model of its own on
-- Windows (Windows.Closing) and on Solaris (Solaris.Threads), over Go.Threads: a relation of
-- steps in which any goroutine may be the next to move. A step is one access to a mutex or an
-- atomic flag, or one call of the kernel, with the code around it that touches nothing shared or
-- only what the mutex guards.
--
-- Integers. A length or an index is a natural number. `written` of Copy is kept modulo 2^64, the
-- unit of a utun and the fields of a netlink message modulo the width that the code gives them.
-- Go's int is taken to have 64 bits, and a machine to put the low byte first.
--
-- Bounds. The search of mknod.go runs over 2^12 indices, which is the source's own bound, and the
-- loop is structural in what is left of them. The loop of `Read` in tun_windows.go, which waits
-- for packets, is counted in passes; Windows.Reading says how many are enough. No other loop of
-- the source needs fuel.
--
-- Not in the source, and hence parameters: the package tcpip (`Tcpip`, with the laws `IsLawful`),
-- the package virtio/offloads (`Offloads`, with the law `TakesOver`), the package virtio/vhostnet
-- and what _vhost_linux.go uses and no file declares (`Vhost`, with the laws `IsTidy`),
-- unix.Major, unix.Minor and unix.Mkdev, unix.NewIfreq, and the system constants of the address
-- families. An implementation in Packet.Sample shows that the laws of tcpip can hold. The kernel
-- that Linux.Removal puts behind `Destroy` has the laws `IsRtnetlink`, which are those of
-- rtnetlink for one request; Linux.Tests has such a kernel. What `IsTidy` says of
-- createGenericTun and setTunNetHdrSize cannot be compared with any code, and no result below
-- rests on it.
--
-- Not modelled: wintun/, a copy of the Go binding of wintun.dll, whose functions are calls of the
-- kernel here; the driver under driver/, which is C code of the kernel; the mutexes of the other
-- systems than Solaris, since one read and one write run at a time by them, and share nothing but
-- the file; what `SyscallConn` does on a closed file.
pub mod Base
pub mod Go
pub mod Packet
pub mod Pump
pub mod Relay
pub mod Copy
pub mod Bsd
pub mod Mknod
pub mod Netbsd
pub mod NewTun
pub mod Freebsd
pub mod Openbsd
pub mod Dragonfly
pub mod Darwin
pub mod Linux
pub mod Offload
pub mod Solaris
pub mod Windows
pub mod Vhost
