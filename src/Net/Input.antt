-- ===== src/Net/Input.antt =====
-- What comes in: `net_recv` of src/device/net/net.c, and the packet ring and the dispatch of ipv4.c.
pub mod Parsing
use teatime_os.Base.{
  ℕ, ◌+◌, ◌-◌, ◌*◌, ◌%◌, Bool, ◌||◌, ◌&&◌, List, [], length, take, drop, ltb, leb, ◌==◌,
  if◌then◌else◌, byte, word16, native_word32,
}
use teatime_os.Tcp.State.{Tcp}
use teatime_os.Tcp.Receive.{recv}
use teatime_os.Net.Slots.{is_full, is_drained, first_slot, put_slot, drop_slot}
use teatime_os.Net.State.{Net, Packet}
use teatime_os.Net.Arp.{arp_recv}
use teatime_os.Net.Udp.{udp_recv}
use teatime_os.Net.Icmp.{icmp_recv}

unfoldable pub ipv4_enqueue : Net → List ℕ → List ℕ → Net
unfolding is_full put_slot
ipv4_enqueue n pkt sa =
    if ltb 1500 (length pkt) || is_full 4 n.ring
    then n
    else record n { ring = put_slot 4 n.ring (record { sa = sa; bytes = pkt }) }

abbrev pub take_ipv4 : Net → List ℕ → List ℕ → Net
take_ipv4 n ip sa =
    if ltb (length ip) 20 || ltb (length ip) (word16 ip 2)
    then n
    else ipv4_enqueue n (take (word16 ip 2) ip) sa

unfoldable pub net_recv : Net → List ℕ → List ℕ → Net
unfolding arp_recv ipv4_enqueue
net_recv n llc sa =
    if ltb (length llc) 8
    then n
    else if word16 llc 6 == 0x0806
    then arp_recv n (drop 8 llc)
    else if word16 llc 6 == 0x0800
    then take_ipv4 n (drop 8 llc) sa
    else n

-- The parts of the machine that a packet reaches; `iss` is what rng_read would give.
pub record Host : Type 0 where
  pub net : Net
  pub tcp : Tcp

unfoldable pub ipv4_dispatch : Host → ℕ → Packet → ℕ → Host
unfolding icmp_recv udp_recv recv
ipv4_dispatch s iss p ihl =
    let src = native_word32 p.bytes 12 in
    let to_us = native_word32 p.bytes 16 == s.net.local_ip in
    let payload = drop ihl p.bytes in
    let protocol = byte p.bytes 9 in
    if protocol == 1
    then (if to_us then record s { net = icmp_recv s.net p.bytes ihl p.sa } else s)
    else if protocol == 6
    then (if to_us && leb 20 (length payload)
        then record s { tcp = recv s.tcp iss src payload }
        else s)
    else if (protocol == 17) && leb 8 (length payload)
    then record s { net = udp_recv s.net src payload }
    else s

unfoldable pub ipv4_recv : Host → ℕ → Packet → Host
unfolding ipv4_dispatch
ipv4_recv s iss p =
    let ihl = byte p.bytes 0 % 16 * 4 in
    if ltb ihl 20 || ltb (length p.bytes) ihl then s else ipv4_dispatch s iss p ihl

abbrev pub drop_packet : Host → Host
drop_packet s = record s { net = record s.net { ring = drop_slot s.net.ring } }

-- A round of `ipv4_proc`, which waits for a packet to be there.
unfoldable pub ipv4_round : Host → ℕ → Host
unfolding ipv4_recv first_slot drop_slot is_drained
ipv4_round s iss =
    if is_drained s.net.ring then s else drop_packet (ipv4_recv s iss (first_slot 4 s.net.ring))
