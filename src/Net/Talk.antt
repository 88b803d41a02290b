-- ===== src/Net/Talk.antt =====
-- Two machines of this kind on one network: what one sends is what the other gets.
use teatime_os.Base.{
  ℕ, ◌+◌, ◌-◌, ◌≤◌, ◌^◌, ◌<◌, ◌≡◌, refl, ap, ◌∙◌, Bool, true, false, not, ◌||◌, some, List, [], ◌∷◌,
  ◌++◌, length, take, arith, ◌==◌, ltb, leb, if◌then◌else◌, if-true, if-false, le→ltb, ==-self,
}
use teatime_os.Net.State.{Net, Packet, Datagram, Bind, bcast, snap}
use teatime_os.Net.Slots.{is_full, is_drained, put_slot, drop_slot, contents, IsRing, slots-IsQueue}
use teatime_os.Net.Arp.{cached, arp_cache_lookup, arp_pkt, send_arp_request}
use teatime_os.Net.Arp.Laws.{IsCache, arp_cache_store-IsCache}
use teatime_os.Net.Arp.Replies.{learned, arp_recv-pkt}
use teatime_os.Net.Output.{sent, next_hop, send_resolved, resolve, net_send, send_ipv4_raw}
use teatime_os.Net.Output.Resolve.{
  with_frame, send_arp_request-asked, with_reply-frame, resolve-hit, wifi_ccmp_tx-fits,
}
use teatime_os.Net.Udp.{received, bound, offer, hand_over, udp_packet, send_udp, udp_read}
use teatime_os.Net.Udp.Laws.{hand_over-append, udp_read-contents}
use teatime_os.Net.Input.{net_recv, ipv4_enqueue, Host, drop_packet, ipv4_recv, ipv4_round}
use teatime_os.Net.Input.Parsing.{
  net_recv-arp, net_recv-ipv4, ipv4_packet, length-ipv4_packet, take_ipv4-ipv4_packet,
  ipv4_recv-ipv4_packet, ipv4_dispatch-udp, udp_recv-udp_packet, take-length,
}

-- The link address and the address of a machine have their sizes.
pub record HasAddresses (n : Net) : Type 0 where
  pub mac_length : length n.wifi_mac_addr ≡ 6
  pub word : n.local_ip < 2 ^ 32

abbrev pub request_of : Net → ℕ → List ℕ
request_of a ip =
    snap 0x0806 ++ arp_pkt 1 a.wifi_mac_addr a.local_ip (0 ∷ 0 ∷ 0 ∷ 0 ∷ 0 ∷ 0 ∷ []) ip

abbrev pub reply_of : Net → Net → List ℕ
reply_of b a = snap 0x0806 ++ arp_pkt 2 b.wifi_mac_addr b.local_ip a.wifi_mac_addr a.local_ip

-- What `a` broadcasts to ask for the address of `b` makes `b` learn `a`'s link address and reply to
-- it, and that reply makes `a` find `b`'s link address in its cache.
pub arp_conversation :
    (a b : Net) (from_a from_b : List ℕ)
    → HasAddresses a
    → HasAddresses b
    → IsCache a.arp_cache
    → (send_arp_request a b.local_ip ≡ with_frame a bcast (request_of a b.local_ip))
      × (net_recv b (request_of a b.local_ip) from_a
          ≡ with_frame (learned b a.local_ip a.wifi_mac_addr) a.wifi_mac_addr (reply_of b a))
      × (cached (net_recv a (reply_of b a) from_b).arp_cache b.local_ip ≡ some b.wifi_mac_addr)
arp_conversation a b from_a from_b ha hb v = (
  send_arp_request-asked a b.local_ip ha.mac_length,
  net_recv-arp b _ from_a
      ∙ arp_recv-pkt b 1 a.local_ip b.local_ip a.wifi_mac_addr _ ha.mac_length refl (omega arith)
          ha.word hb.word
      ∙ if-true _ _ _ (==-self b.local_ip)
      ∙ with_reply-frame (learned b a.local_ip a.wifi_mac_addr) a.wifi_mac_addr a.local_ip
          hb.mac_length ha.mac_length,
  ap (λ (n : Net). cached n.arp_cache b.local_ip)
        (net_recv-arp a _ from_b
          ∙ arp_recv-pkt a 2 b.local_ip a.local_ip b.wifi_mac_addr a.wifi_mac_addr hb.mac_length
              ha.mac_length (omega arith) hb.word ha.word)
      ∙ (arp_cache_store-IsCache a.arp_cache b.local_ip b.wifi_mac_addr v).1,
)

length-udp_packet :
    (src dst sport dport : ℕ) (payload : List ℕ)
    → length (udp_packet src dst sport dport payload) ≡ 8 + length payload
unfolding udp_packet
length-udp_packet src dst sport dport payload = omega arith

send_ipv4_raw-known :
    (n : Net) (src dst protocol : ℕ) (payload hop : List ℕ)
    → n.wpa_done ≡ true
    → arp_cache_lookup n.arp_cache (next_hop n dst) ≡ some hop
    → length payload ≤ 1490
    → send_ipv4_raw [] n src dst protocol payload
      ≡ sent (with_frame n hop (snap 0x0800 ++ ipv4_packet src dst protocol payload)) n.tx_works
unfolding send_ipv4_raw
send_ipv4_raw-known n src dst protocol payload hop up e h =
    if-false _ _ _ (le→ltb 1490 (length payload) h)
    ∙ unfold net_send in (link (ipv4_packet src dst protocol payload) small)
  where
    small : length (ipv4_packet src dst protocol payload) ≤ 1510
    small = omega (arith, length-ipv4_packet src dst protocol payload)

    link :
        (pkt : List ℕ)
        → length pkt ≤ 1510
        → (if not n.wpa_done || ltb 1510 (length pkt)
            then sent n false
            else send_resolved (snap 0x0800 ++ pkt) (resolve [] n (next_hop n dst) 0))
          ≡ sent (with_frame n hop (snap 0x0800 ++ pkt)) n.tx_works
    link pkt k =
        if-false (not n.wpa_done || ltb 1510 (length pkt)) _ _
          (rw (up, le→ltb 1510 (length pkt) k) refl)
        ∙ ap (send_resolved (snap 0x0800 ++ pkt)) (resolve-hit n (next_hop n dst) [] 0 hop e)
        ∙ ap (λ (r : Net × Bool). sent r.0 r.1)
            (wifi_ccmp_tx-fits n hop (snap 0x0800 ++ pkt) (omega arith))

-- A packet on an empty ring is what the next round takes, and the ring is empty again.
module _ (s : Host) (iss : ℕ) (p : Packet) (v : IsRing 4 s.net.ring)
    (e : contents 4 s.net.ring ≡ []) where
  abbrev queued : Host
  queued = record s { net = record s.net { ring = put_slot 4 s.net.ring p } }

  not_full : is_full 4 s.net.ring ≡ false
  not_full =
      (slots-IsQueue 4 s.net.ring v).0 ∙ ap (λ (q : List Packet). leb 4 (length q)) e ∙ ground arith

  puts : IsRing 4 (put_slot 4 s.net.ring p) × (contents 4 (put_slot 4 s.net.ring p) ≡ p ∷ [])
  puts =
      let r = (slots-IsQueue 4 s.net.ring v).2 p not_full in
      (r.0, r.1 ∙ ap (λ (q : List Packet). q ++ p ∷ []) e)

  enqueued : (h : length p.bytes ≤ 1500) → ipv4_enqueue s.net p.bytes p.sa ≡ queued.net
  unfolding ipv4_enqueue
  enqueued h =
      if-false (ltb 1500 (length p.bytes) || is_full 4 s.net.ring) _ _
        (rw (le→ltb 1500 (length p.bytes) h, not_full) refl)

  round_of_queued : ipv4_round queued iss ≡ drop_packet (ipv4_recv queued iss p)
  unfolding ipv4_round
  round_of_queued =
      if-false _ _ _ some_there
      ∙ ap (λ q. drop_packet (ipv4_recv queued iss q))
          ((slots-IsQueue 4 (put_slot 4 s.net.ring p) puts.0).3 p [] puts.1).0
    where
      some_there : is_drained (put_slot 4 s.net.ring p) ≡ false
      some_there =
          (slots-IsQueue 4 (put_slot 4 s.net.ring p) puts.0).1
          ∙ ap (λ (q : List Packet). length q == 0) puts.1
          ∙ ground arith

-- A machine that hears datagrams to a port: its bind for it, the first in use, has an empty ring,
-- and the packet ring is empty.
pub record Hears (s : Host) (port : ℕ) (front : List Bind) (b : Bind) (rest : List Bind)
    : Type 0 where
  pub ring : IsRing 4 s.net.ring
  pub idle : contents 4 s.net.ring ≡ []
  pub binds : s.net.binds ≡ front ++ b ∷ rest
  pub others : bound front port ≡ false
  pub used : b.used ≡ true
  pub ours : b.port ≡ port
  pub bind_ring : IsRing 2 b.ring
  pub empty : contents 2 b.ring ≡ []

-- The bind that hears a datagram, and what a read on it then gives.
module _ (b : Bind) (d : Datagram) (v : IsRing 2 b.ring) (e : contents 2 b.ring ≡ [])
    (h : length d.bytes ≤ 512) where
  abbrev pub filled : Bind
  filled = record b { ring = put_slot 2 b.ring d }

  room_left : is_full 2 b.ring ≡ false
  room_left =
      (slots-IsQueue 2 b.ring v).0 ∙ ap (λ (q : List Datagram). leb 2 (length q)) e ∙ ground arith

  offer-filled : offer b d ≡ filled
  offer-filled =
      if-false (is_full 2 b.ring || ltb 512 (length d.bytes)) _ _
        (rw (room_left, le→ltb 512 (length d.bytes) h) refl)

  read_filled :
      (room : ℕ)
      → 8 + length d.bytes ≤ room
      → (left : Bind) × (udp_read [] filled room ≡ received left d.addr d.port d.bytes)
  read_filled room k =
      let r = (slots-IsQueue 2 b.ring v).2 d room_left in
      let one = r.1 ∙ ap (λ (q : List Datagram). q ++ d ∷ []) e in
      (
        record filled { ring = drop_slot filled.ring },
        (udp_read-contents [] filled room d [] r.0 one (omega arith)).0
            ∙ ap (received (record filled { ring = drop_slot filled.ring }) d.addr d.port)
                (whole (length d.bytes) refl),
      )
    where
      whole :
          (len : ℕ)
          → len ≡ length d.bytes
          → take (if ltb (room - 8) len then room - 8 else len) d.bytes ≡ d.bytes
      whole len q =
          ap (λ t. take t d.bytes)
            (if-false (ltb (room - 8) len) _ _ (le→ltb (room - 8) len (omega arith)) ∙ q)
          ∙ take-length d.bytes

-- The round that takes the frame of a datagram off the ring.
round_delivers :
    (src dst sport dport : ℕ) (payload : List ℕ) (s : Host) (iss : ℕ) (sa : List ℕ)
    (front : List Bind) (b : Bind) (rest : List Bind)
    → length payload ≤ 512
    → src < 2 ^ 32
    → sport < 65536
    → dport < 65536
    → Hears s dport front b rest
    → (ipv4_round
        (record s {
          net =
              net_recv s.net
                (snap 0x0800 ++ ipv4_packet src dst 17 (udp_packet src dst sport dport payload))
                sa;
        })
        iss).net.binds
      ≡ front ++ offer b (record { addr = src; port = sport; bytes = payload }) ∷ rest
round_delivers src dst sport dport payload s iss sa front b rest h w p q l =
    ap (λ (n : Net). (ipv4_round (record s { net = n }) iss).net.binds)
      (net_recv-ipv4 s.net pkt sa
        ∙ take_ipv4-ipv4_packet src dst 17 udp s.net sa
            (omega (arith, length-udp_packet src dst sport dport payload))
        ∙ enqueued s iss packet l.ring l.idle (
            omega (
              arith,
              length-ipv4_packet src dst 17 udp,
              length-udp_packet src dst sport dport payload,
            )))
    ∙ ap (λ (t : Host). t.net.binds) (round_of_queued s iss packet l.ring l.idle)
    ∙ ap (λ (t : Host). t.net.binds)
        (ipv4_recv-ipv4_packet src dst 17 udp (queued s iss packet l.ring l.idle) iss sa
          ∙ ipv4_dispatch-udp src dst udp (queued s iss packet l.ring l.idle) iss sa
              (omega (arith, length-udp_packet src dst sport dport payload)) w)
    ∙ ap (λ (t : Net). t.binds)
        (udp_recv-udp_packet (queued s iss packet l.ring l.idle).net src dst sport dport payload
          (omega arith) p q)
    ∙ ap (λ binds. hand_over binds dport (record { addr = src; port = sport; bytes = payload }))
        l.binds
    ∙ hand_over-append front rest b (record { addr = src; port = sport; bytes = payload }) dport
        l.others l.used l.ours
  where
    udp : List ℕ
    udp = udp_packet src dst sport dport payload

    pkt : List ℕ
    pkt = ipv4_packet src dst 17 udp

    packet : Packet
    packet = record { sa = sa; bytes = pkt }

-- With the next hop in the cache, `send_udp` of at most 512 bytes sends one frame; when a machine
-- that listens on the port receives that frame and handles its packet ring, the bind of the port,
-- and nothing else, gets the datagram, and a read on it returns the sender's address and port and
-- the bytes as they were sent.
pub datagram_arrives :
    (n : Net) (src dst sport dport : ℕ) (payload hop : List ℕ) (s : Host) (iss : ℕ) (sa : List ℕ)
    (front : List Bind) (b : Bind) (rest : List Bind) (room : ℕ)
    → n.wpa_done ≡ true
    → arp_cache_lookup n.arp_cache (next_hop n dst) ≡ some hop
    → length payload ≤ 512
    → src < 2 ^ 32
    → sport < 65536
    → dport < 65536
    → Hears s dport front b rest
    → 8 + length payload ≤ room
    → (frame : List ℕ) × (send_udp [] n src dst sport dport payload
        ≡ sent (with_frame n hop frame) n.tx_works)
      × ((got : Bind) × ((ipv4_round (record s { net = net_recv s.net frame sa }) iss).net.binds
            ≡ front ++ got ∷ rest)
          × ((left : Bind) × (udp_read [] got room ≡ received left src sport payload)))
unfolding send_udp
datagram_arrives n src dst sport dport payload hop s iss sa front b rest room up e h w p q l r = (
  snap 0x0800 ++ ipv4_packet src dst 17 (udp_packet src dst sport dport payload),
  send_ipv4_raw-known n src dst 17 (udp_packet src dst sport dport payload) hop up e
      (omega (arith, length-udp_packet src dst sport dport payload)),
  (
    filled b d l.bind_ring l.empty h,
    round_delivers src dst sport dport payload s iss sa front b rest h w p q l
        ∙ ap (λ t. front ++ t ∷ rest) (offer-filled b d l.bind_ring l.empty h),
    read_filled b d l.bind_ring l.empty h room r,
  ),
)
  where
    d : Datagram
    d = record { addr = src; port = sport; bytes = payload }
