-- ===== src/Net/Tests.antt =====
-- Runs of the network code, and its theorems at two machines, 192.168.1.2 and 192.168.1.3.
use teatime_os.Base.{
  ℕ, ◌+◌, ◌-◌, ◌*◌, ◌^◌, ◌≤◌, ◌<◌, ◌≡◌, ◌≢◌, refl, inl, inr, ◌⊎◌, Bool, true, false, none, some,
  List, [], ◌∷◌, ◌++◌, length, arith, byte,
}
use teatime_os.Tcp.Calls.{reset}
use teatime_os.Net.State.{Net, Frame, Entry, Bind, Packet, Datagram, bcast, snap}
use teatime_os.Net.Slots.{Slots, IsRing, put_slot, contents}
use teatime_os.Net.Checksum.{checksum}
use teatime_os.Net.Arp.{cached, arp_cache_store, arp_cache_lookup, send_arp_request}
use teatime_os.Net.Arp.Laws.{IsCache, Loses, arp_cache_store-IsCache}
use teatime_os.Net.Arp.Replies.{learned}
use teatime_os.Net.Output.{Round, sent, next_hop, net_send, ipv4_header}
use teatime_os.Net.Output.Resolve.{
  replied, asked, with_frame, timeouts, net_send_returns, net_send-answered,
}
use teatime_os.Net.Udp.{received, bound, send_udp, udp_read, udp_open, udp_control}
use teatime_os.Net.Input.{Host, net_recv, ipv4_round}
use teatime_os.Net.Talk.{
  HasAddresses, Hears, request_of, reply_of, arp_conversation, datagram_arrives,
}

-- The bytes of an address, as the word that they make in memory.
abbrev address : ℕ → ℕ
address last = 192 + 168 * 256 + 1 * 65536 + last * 16777216

abbrev mac_of : ℕ → List ℕ
mac_of k = 2 ∷ 0 ∷ 0 ∷ 0 ∷ 0 ∷ k ∷ []

abbrev no_datagram : Datagram
no_datagram = record { addr = 0; port = 0; bytes = [] }

abbrev fresh_bind : Bind
fresh_bind = record {
  used = false;
  port = 0;
  timeout = 0;
  ring = record { head = 0; tail = 0; slot = λ _. no_datagram };
}

-- A bind whose counters are about to wrap.
abbrev bind_of : ℕ → Bind
bind_of port = record {
  used = true;
  port = port;
  timeout = 0;
  ring = record { head = 2 ^ 32 - 1; tail = 2 ^ 32 - 1; slot = λ _. no_datagram };
}

abbrev machine : ℕ → Net
machine k = record {
  wpa_done = true;
  wifi_mac_addr = mac_of k;
  local_ip = address k;
  gw_ip = address 1;
  net_mask = 255 + 255 * 256 + 255 * 65536;
  arp_cache = [];
  ring = record { head = 7; tail = 7; slot = λ _. record { sa = []; bytes = [] } };
  binds = bind_of 9 ∷ bind_of 4242 ∷ fresh_bind ∷ fresh_bind ∷ [];
  handler = false;
  echoes = [];
  tx_works = true;
  frames = [];
}

abbrev host : ℕ → Host
host k = record { net = machine k; tcp = reset }

-- An example that is often used for this checksum.
abbrev known_header : List ℕ
known_header =
    0x45 ∷ 0 ∷ 0 ∷ 0x73 ∷ 0 ∷ 0 ∷ 0x40 ∷ 0 ∷ 0x40 ∷ 0x11 ∷ 0 ∷ 0 ∷ 0xc0 ∷ 0xa8 ∷ 0 ∷ 1 ∷ 0xc0 ∷ 0xa8
    ∷ 0 ∷ 0xc7 ∷ []

checksum_known : checksum known_header 0 ≡ 0xb8 + 0x61 * 256
unfolding checksum
checksum_known = refl

routes : (next_hop (machine 2) (address 3) ≡ address 3) × (next_hop (machine 2) 8 ≡ address 1)
unfolding next_hop
routes = (refl, refl)

abbrev bind_of_port : Bind
bind_of_port = bind_of 4242

-- UDP_BIND refuses a port that is taken.
binds_run :
    (udp_control (machine 2).binds fresh_bind 1 4242 ≡ none)
    × (udp_control (machine 2).binds (udp_open fresh_bind) 1 53
        ≡ some (record (udp_open fresh_bind) { port = 53 }))
unfolding udp_control udp_open
binds_run = (refl, refl)

-- A ping from the first machine to the second is answered.
ping : List ℕ
ping = 8 ∷ 0 ∷ 0 ∷ 0 ∷ 1 ∷ 2 ∷ 3 ∷ 4 ∷ 5 ∷ []

frame_bytes : List Frame → List ℕ
frame_bytes [] = []
frame_bytes (f ∷ fs) = f.bytes

pong : List ℕ
pong =
    frame_bytes
      (ipv4_round
        (record (host 3) {
          net =
              net_recv (machine 3)
                (0xaa ∷ 0xaa ∷ 3 ∷ 0 ∷ 0 ∷ 0 ∷ 8 ∷ 0 ∷ ipv4_header (address 2) (address 3) 1 29
                  ++ ping)
                (mac_of 2);
        })
        0).net.frames

pong_run :
    (length pong ≡ 37)
    × (byte pong 23 ≡ 3)
    × (byte pong 27 ≡ 2)
    × (byte pong 28 ≡ 0)
    × (byte pong 36 ≡ 5)
unfolding pong ping frame_bytes ipv4_round net_recv ipv4_header
pong_run = (refl, refl, refl, refl, refl)

abbrev four : Slots Packet
four = (machine 2).ring

abbrev no_packet : Packet
no_packet = record { sa = []; bytes = [] }

four-IsRing : IsRing 4 four
four-IsRing = record {
  sizes = inr refl;
  head_word = omega arith;
  tail_word = omega arith;
  fits = omega arith;
}

two-IsRing : IsRing 2 bind_of_port.ring
two-IsRing = record {
  sizes = inl refl;
  head_word = omega arith;
  tail_word = omega arith;
  fits = omega arith;
}

abbrev full_cache : List Entry
full_cache =
    record { ip = 1; mac = mac_of 1 }
    ∷ record { ip = 2; mac = mac_of 2 }
    ∷ record { ip = 3; mac = mac_of 3 }
    ∷ record { ip = 4; mac = mac_of 4 }
    ∷ []

full_cache-IsCache : IsCache full_cache
unfolding cached
full_cache-IsCache = record { small = omega arith; distinct = (refl, (refl, (refl, (refl, tt)))) }

arp_cache_store-IsCache_example :
    IsCache (arp_cache_store full_cache 5 (mac_of 5))
    × (cached (arp_cache_store full_cache 5 (mac_of 5)) 5 ≡ some (mac_of 5))
    × ((j : ℕ)
        → j ≢ 5
        → (cached (arp_cache_store full_cache 5 (mac_of 5)) j ≡ cached full_cache j)
          ⊎ Loses full_cache 5 j)
arp_cache_store-IsCache_example = arp_cache_store-IsCache full_cache 5 (mac_of 5) full_cache-IsCache

abbrev silence : Round
silence = record { arrived = []; timed_out = true }

abbrev six_rounds : List Round
six_rounds = silence ∷ silence ∷ silence ∷ silence ∷ silence ∷ silence ∷ []

six_timeouts : 6 ≤ timeouts six_rounds
six_timeouts = omega arith

net_send_returns_example :
    (n' : Net) × (ok : Bool) × (net_send six_rounds (machine 2) (address 3) ping ≡ sent n' ok)
net_send_returns_example = net_send_returns six_rounds (machine 2) (address 3) ping six_timeouts

to_neighbour : next_hop (machine 2) (address 3) ≡ address 3
unfolding next_hop
to_neighbour = refl

net_send-answered_example :
    net_send
      (replied (machine 2) (next_hop (machine 2) (address 3)) (mac_of 3) false ∷ [])
      (machine 2)
      (address 3)
      (1 ∷ [])
    ≡ sent
        (with_frame
          (learned
            (asked (machine 2) (next_hop (machine 2) (address 3)))
            (next_hop (machine 2) (address 3))
            (mac_of 3))
          (mac_of 3)
          (snap 0x0800 ++ 1 ∷ []))
        true
unfolding cached
net_send-answered_example =
    net_send-answered (machine 2) (address 3) (1 ∷ []) (mac_of 3) false [] refl (omega arith) refl
      refl (omega arith) (omega (arith, to_neighbour)) (omega (arith, to_neighbour))
      (record { small = omega arith; distinct = tt }) refl

machine-HasAddresses : (k : ℕ) → k < 256 → HasAddresses (machine k)
machine-HasAddresses k h = record { mac_length = refl; word = omega arith }

arp_conversation_example :
    (send_arp_request (machine 2) (address 3)
      ≡ with_frame (machine 2) bcast (request_of (machine 2) (address 3)))
    × (net_recv (machine 3) (request_of (machine 2) (address 3)) (mac_of 2)
        ≡ with_frame
            (learned (machine 3) (address 2) (mac_of 2))
            (mac_of 2)
            (reply_of (machine 3) (machine 2)))
    × (cached
          (net_recv (machine 2) (reply_of (machine 3) (machine 2)) (mac_of 3)).arp_cache
          (address 3)
        ≡ some (mac_of 3))
arp_conversation_example =
    arp_conversation (machine 2) (machine 3) (mac_of 2) (mac_of 3)
      (machine-HasAddresses 2 (omega arith)) (machine-HasAddresses 3 (omega arith))
      (record { small = omega arith; distinct = tt })

abbrev informed : Net
informed = learned (machine 2) (address 3) (mac_of 3)

host-Hears : Hears (host 3) 4242 (bind_of 9 ∷ []) bind_of_port (fresh_bind ∷ fresh_bind ∷ [])
unfolding bound
host-Hears = record {
  ring = four-IsRing;
  idle = refl;
  binds = refl;
  others = refl;
  used = refl;
  ours = refl;
  bind_ring = two-IsRing;
  empty = refl;
}

informed_finds :
    arp_cache_lookup informed.arp_cache (next_hop informed (address 3)) ≡ some (mac_of 3)
unfolding arp_cache_lookup next_hop arp_cache_store
informed_finds = refl

datagram_arrives_example :
    (frame : List ℕ) × (send_udp [] informed (address 2) (address 3) 53 4242 (1 ∷ 2 ∷ 3 ∷ [])
      ≡ sent (with_frame informed (mac_of 3) frame) true)
    × ((got : Bind) × ((ipv4_round
            (record (host 3) { net = net_recv (machine 3) frame (mac_of 2) })
            0).net.binds
          ≡ bind_of 9 ∷ got ∷ fresh_bind ∷ fresh_bind ∷ [])
        × ((left : Bind) × (udp_read [] got 520 ≡ received left (address 2) 53 (1 ∷ 2 ∷ 3 ∷ []))))
datagram_arrives_example =
    datagram_arrives informed (address 2) (address 3) 53 4242 (1 ∷ 2 ∷ 3 ∷ []) (mac_of 3) (host 3) 0
      (mac_of 2) (bind_of 9 ∷ []) bind_of_port (fresh_bind ∷ fresh_bind ∷ []) 520 refl
      informed_finds (omega arith) (omega arith) (omega arith) (omega arith) host-Hears
      (omega arith)

abbrev holding : Bind
holding = record bind_of_port {
  ring = put_slot 2 bind_of_port.ring (record { addr = 7; port = 8; bytes = 1 ∷ 2 ∷ 3 ∷ [] });
}

holding-IsRing : IsRing 2 holding.ring
unfolding put_slot
holding-IsRing = record {
  sizes = inl refl;
  head_word = omega arith;
  tail_word = omega arith;
  fits = omega arith;
}

held : contents 2 holding.ring ≡ (record { addr = 7; port = 8; bytes = 1 ∷ 2 ∷ 3 ∷ [] }) ∷ []
unfolding put_slot
held = refl
