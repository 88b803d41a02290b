-- ===== src/Lib.antt =====
-- teatime-os: an operating system for the ESP8266, in C.
--
-- The kernel (src/system) schedules up to ten processes by priority. A process is on the ready list,
-- parked on a semaphore or a condition variable, on the sleep list, or running; interrupt handlers
-- and other processes make it ready again. The allocator gives out heap and stack memory. The
-- handshake of WPA2 (wifi_wpa.c, on wifi_crypto.c) derives the keys with which the radio encrypts
-- frames. What the radio receives goes to net_recv, which answers ARP and queues IPv4 packets; the
-- process of ipv4.c hands them to ICMP, UDP and TCP, and what these send goes back through
-- send_ipv4_raw and net_send, which asks for link addresses it does not know.
--
-- Which file models what:
--   Alloc          src/system/alloc.c, src/system/initmem.c, src/include/mem.h
--   Kernel.Links   src/system/proc_queue.c, the table of linked entries
--   Kernel.Queue   the lists that those entries stand for; the rest of the kernel works on them
--   Kernel.State   the tables: src/include/proc.h and the statics of the files below
--   Kernel.Sched   src/system/sched.c, src/system/make_avail.c
--   Kernel.Sem     src/system/sem.c
--   Kernel.Sleep, Kernel.SleepList   src/system/sleep.c
--   Kernel.Cond    src/system/cond.c
--   Kernel.Process src/system/get_pid.c, src/system/create.c, src/system/start_proc.c,
--                  src/system/yield.c, src/system/handle_cputimer_intr.c, and the tables that
--                  src/system/start.c sets up; Kernel.Process.Steps is what can happen, one step
--                  after another, and Kernel.Process.Boot the start-up
--   Runtime        src/lib: Runtime.Division src/lib/stdlib.c, Runtime.Itoa src/lib/itoa.c,
--                  Runtime.Memory and Runtime.Text src/lib/string.c
--   Tcp            src/device/net/tcp.c: Tcp.Ring the receive ring, Tcp.State the control block and
--                  what it sends, Tcp.Receive the handler of segments, Tcp.Calls the device calls and
--                  the timer process; Tcp.Fifo, Tcp.Stream, Tcp.Transfers, Tcp.Invariant, Tcp.Steps
--                  and Tcp.History prove its properties
--   Net            src/device/net: Net.Checksum and Net.Slots what ipv4.c and udp.c share, Net.State
--                  the tables of net.c, Net.Arp and Net.Output net.c, Net.Input the receiving side of
--                  net.c and ipv4.c, Net.Udp udp.c, Net.Icmp icmp.c; Net.Talk two machines that talk
--   Crypto         src/device/wifi/wifi_crypto.c: Crypto.Tables and Crypto.Aes the cipher, Crypto.Ccm
--                  the authenticated encryption, Crypto.Unwrap the key unwrap, Crypto.Sha1 the hash,
--                  Crypto.Hmac HMAC, PBKDF2 and the PRF; Crypto.Wpa the keys of
--                  src/device/wifi/wifi_wpa.c
--   Telnet         src/device/net/telnet.c: Telnet.Options the option states, Telnet.Process the
--                  handler of a received byte, Telnet.Write the escaping of what is sent;
--                  Telnet.Escapes and Telnet.Negotiation prove their properties
--   Terminal       src/app/term/term_session.c: Terminal.Output its writes, Terminal.Line the arguments
--                  of a line, Terminal.Session the keys and the commands
--   Devices        src/device/dev.c; Devices.Table proves its property
--
-- State. A heap is the list of its free blocks (address and size) with the size words of the blocks
-- that are handed out. The kernel is one record with a field for each table. proctab, semtab and
-- condtab are functions of the index; NUM_PROC = 10 and NSEM = NCOND = 16 are the bounds of the
-- loops over them. A call of the kernel is one function, and what an interrupt does between two
-- calls is another step: disable() and enable() make a call atomic. Two calls do more than they
-- mask: the parts of spawn are steps of their own (Kernel.Process.Steps; get_pid is one of them, and
-- two that mark the same row are left out), and the test of the count in front of mutex_unlock's
-- masked part is taken together with it. A row that create has filled counts as unavail until
-- make_avail has put it on the ready list, though the code writes PROC_AVAIL before. `wait` of
-- src/system/cond.c is split at its context switch into `wait` and `wait_resume`. TCP works under
-- one mutex, so that a handler up to where it blocks is one function too; what it sends and signals
-- is a list of events. A segment that goes out is a record of its fields; one that comes in is a
-- list of bytes. Packets, datagrams and the buffers of the cryptography are lists of bytes, and an
-- operation that fills a buffer gives the list back. What arrives while net_send waits for a reply
-- is an argument, a list of rounds. The keys of a terminal come as the list of its reads, each key
-- with what echo_enabled says at its time.
--
-- Numbers. Sizes, addresses and ticks are 32-bit and wrap where the code's do. Priorities and keys
-- are C ints in offset binary, so that INT_MIN is 0. The count of a semaphore is an integer: it
-- stays between -10 and the number of signals.
--
-- Loops are structural recursion on the list or on the number of rounds that the code's bounds give.
-- The loops of src/lib/itoa.c and src/lib/string.c whose end depends on the data take a number of
-- rounds, and their theorems say how many are enough: 32 for a number, one more than a text's
-- length. The folding loop of the checksum gets three rounds, the loop over the bytes of sha1_update
-- one for each byte and its padding 64, those of pbkdf2_sha1 and sha1_prf one for each byte of
-- output.
--
-- Not modelled: saved registers and the sweep of the stack canaries, register access of drivers,
-- assembly, the radio, DNS, DHCP, HTTP and the applications but the session of the terminal, which
-- takes the table of commands as an argument; the messages of the handshake; the header bytes, the
-- checksum and the option of outgoing TCP segments; the sizes of the stack buffers of wifi_crypto.c,
-- which its callers keep to.
pub mod Alloc
pub mod Base
pub mod Crypto
pub mod Devices
pub mod Kernel
pub mod Net
pub mod Runtime
pub mod Tcp
pub mod Telnet
pub mod Terminal
