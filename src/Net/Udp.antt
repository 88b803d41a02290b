-- ===== src/Net/Udp.antt =====
-- src/device/net/udp.c: four binds, each with a ring of two datagrams.
pub mod Checksums
pub mod Laws
use teatime_os.Base.{
  ℕ, ◌+◌, ◌*◌, ◌-◌, ◌/◌, ◌%◌, Bool, true, false, not, ◌||◌, ◌&&◌, Option, none, some, List, [], ◌∷◌,
  ◌++◌, length, take, drop, ltb, ◌==◌, if◌then◌else◌, byte, word16, bytes16, native16, native32,
  native_word32,
}
use teatime_os.Net.Slots.{is_full, is_drained, first_slot, put_slot, drop_slot}
use teatime_os.Net.State.{Datagram, Bind, Net}
use teatime_os.Net.Checksum.{checksum_partial, checksum}
use teatime_os.Net.Output.{Round, Sending, blocks, sent, send_ipv4_raw}

unfoldable pub udp_open : Bind → Bind
udp_open b = record b {
  port = 0;
  timeout = 0;
  ring = record b.ring { head = 0; tail = 0 };
  used = true;
}

unfoldable pub udp_close : Bind → Bind
udp_close b = record b { used = false }

unfoldable pub bound : List Bind → ℕ → Bool
bound [] port = false
bound (b ∷ binds) port = (b.used && b.port == port) || bound binds port

-- `arg` is not negative; `none` is -1.
unfoldable pub udp_control : List Bind → Bind → ℕ → ℕ → Option Bind
unfolding bound
udp_control binds b op arg =
    if op == 2
    then some (record b { timeout = arg })
    else if not (op == 1) || bound binds arg
    then none
    else some (record b { port = arg % 65536 })

-- One wait of `udp_read`: the bind when it wakes, and whether it timed out.
pub record Wait : Type 0 where
  pub woken : Bind
  pub timed_out : Bool

pub data Reading : Type 0 where
  failed : Reading
  waiting : Reading
  received : Bind → ℕ → ℕ → List ℕ → Reading

abbrev pub take_datagram : Bind → ℕ → Reading
take_datagram b room =
    let slot = first_slot 2 b.ring in
    let len = if ltb room (length slot.bytes) then room else length slot.bytes in
    received (record b { ring = drop_slot b.ring }) slot.addr slot.port (take len slot.bytes)

unfoldable pub read_loop : List Wait → Bind → ℕ → Reading
unfolding is_drained first_slot drop_slot
read_loop [] b room = if is_drained b.ring then waiting else take_datagram b room
read_loop (w ∷ waits) b room =
    let later = read_loop waits w.woken room in
    if is_drained b.ring
    then (if not (b.timeout == 0) && w.timed_out then failed else later)
    else take_datagram b room

unfoldable pub udp_read : List Wait → Bind → ℕ → Reading
unfolding read_loop
udp_read waits b n = if ltb n 8 then failed else read_loop waits b (n - 8)

abbrev pub pseudo_header : ℕ → ℕ → ℕ → List ℕ
pseudo_header src dst len = native32 src ++ native32 dst ++ 0 ∷ 17 ∷ bytes16 len

abbrev pub udp_front : ℕ → ℕ → ℕ → List ℕ
udp_front sport dport len = bytes16 sport ++ bytes16 dport ++ bytes16 len

unfoldable pub udp_checksum : ℕ → ℕ → ℕ → ℕ → List ℕ → ℕ
unfolding checksum_partial checksum
udp_checksum src dst sport dport payload =
    let len = 8 + length payload in
    let sum = checksum_partial 0 (pseudo_header src dst len) in
    let c = checksum payload (checksum_partial sum (udp_front sport dport len ++ 0 ∷ 0 ∷ [])) in
    if c == 0 then 0xffff else c

-- The header and the data, as they are handed to the layer below.
unfoldable pub udp_packet : ℕ → ℕ → ℕ → ℕ → List ℕ → List ℕ
unfolding udp_checksum
udp_packet src dst sport dport payload =
    udp_front sport dport (8 + length payload)
    ++ native16 (udp_checksum src dst sport dport payload)
    ++ payload

unfoldable pub send_udp : List Round → Net → ℕ → ℕ → ℕ → ℕ → List ℕ → Sending
unfolding udp_packet send_ipv4_raw
send_udp rounds n src dst sport dport payload =
    send_ipv4_raw rounds n src dst 17 (udp_packet src dst sport dport payload)

abbrev pub native_word16 : List ℕ → ℕ → ℕ
native_word16 seg i = byte seg i + byte seg (i + 1) * 256

-- `buf` holds the `n` bytes of a struct udp_datagram.
unfoldable pub udp_write : List Round → Net → Bind → List ℕ → Sending
unfolding send_udp
udp_write rounds n b buf =
    let len = native_word16 buf 6 in
    if b.port == 0 || ltb (length buf) 8 || ltb 512 len || ltb (length buf) (8 + len)
    then sent n false
    else send_udp rounds n n.local_ip (native_word32 buf 0) b.port (native_word16 buf 4)
        (take len (drop 8 buf))

abbrev pub offer : Bind → Datagram → Bind
offer b d =
    if is_full 2 b.ring || ltb 512 (length d.bytes)
    then b
    else record b { ring = put_slot 2 b.ring d }

unfoldable pub hand_over : List Bind → ℕ → Datagram → List Bind
unfolding is_full put_slot
hand_over [] dport d = []
hand_over (b ∷ binds) dport d =
    if not b.used || not (b.port == dport) then b ∷ hand_over binds dport d else offer b d ∷ binds

unfoldable pub udp_recv : Net → ℕ → List ℕ → Net
unfolding hand_over
udp_recv n src dgram =
    let dlen = word16 dgram 4 in
    if ltb (length dgram) 8 || ltb dlen 8 || ltb (length dgram) dlen then n else record n {
      binds =
          hand_over n.binds (word16 dgram 2)
            (record { addr = src; port = word16 dgram 0; bytes = take (dlen - 8) (drop 8 dgram) });
    }
