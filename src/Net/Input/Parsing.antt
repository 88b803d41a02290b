-- ===== src/Net/Input/Parsing.antt =====
-- What the packets that this program builds are for the program that receives them.
use teatime_os.Base.{
  ℕ, ◌+◌, ◌-◌, ◌*◌, ◌/◌, ◌%◌, ◌≤◌, ◌^◌, ◌<◌, ◌≡◌, refl, sym, ap, ◌∙◌, false, ◌||◌, List, [], ◌∷◌,
  ◌++◌, length, take, arith, ltb, if-true, if-false, le→ltb, le→leb, word16, native_word32,
  native32,
}
use teatime_os.Net.State.{Net, snap}
use teatime_os.Net.Arp.{arp_recv}
use teatime_os.Net.Output.{ipv4_header}
use teatime_os.Net.Udp.{udp_packet, udp_front, hand_over, udp_recv}
use teatime_os.Net.Input.{ipv4_enqueue, take_ipv4, net_recv, Host, ipv4_dispatch, ipv4_recv}

pub net_recv-arp : (n : Net) (pkt sa : List ℕ) → net_recv n (snap 0x0806 ++ pkt) sa ≡ arp_recv n pkt
unfolding net_recv
net_recv-arp n pkt sa =
    if-false _ n (arp_recv n pkt) (le→ltb (length (snap 0x0806 ++ pkt)) 8 (omega arith))

pub net_recv-ipv4 :
    (n : Net) (ip sa : List ℕ) → net_recv n (snap 0x0800 ++ ip) sa ≡ take_ipv4 n ip sa
unfolding net_recv
net_recv-ipv4 n ip sa =
    if-false _ n (take_ipv4 n ip sa) (le→ltb (length (snap 0x0800 ++ ip)) 8 (omega arith))

pub take-length : (s : List ℕ) → take (length s) s ≡ s
take-length [] = refl
take-length (c ∷ s) = ap (λ t. c ∷ t) (take-length s)

-- An IPv4 packet with the header that `send_ipv4_raw` writes.
module _ (src dst protocol : ℕ) (payload : List ℕ) where
  abbrev pub ipv4_packet : List ℕ
  ipv4_packet = ipv4_header src dst protocol (20 + length payload) ++ payload

  pub length-ipv4_packet : length ipv4_packet ≡ 20 + length payload
  unfolding ipv4_header
  length-ipv4_packet = omega arith

  total_len : 20 + length payload < 65536 → word16 ipv4_packet 2 ≡ 20 + length payload
  unfolding ipv4_header
  total_len h = omega arith

  pub take_ipv4-ipv4_packet :
      (n : Net) (sa : List ℕ)
      → 20 + length payload < 65536
      → take_ipv4 n ipv4_packet sa ≡ ipv4_enqueue n ipv4_packet sa
  take_ipv4-ipv4_packet n sa h =
      if-false _ n _ fits
      ∙ ap (λ p. ipv4_enqueue n p sa)
          (ap (λ k. take k ipv4_packet) (total_len h ∙ sym length-ipv4_packet)
            ∙ take-length ipv4_packet)
    where
      fits :
          (ltb (length ipv4_packet) 20 || ltb (length ipv4_packet) (word16 ipv4_packet 2)) ≡ false
      fits = rw (total_len h, length-ipv4_packet) (ground arith)

  pub ipv4_recv-ipv4_packet :
      (s : Host) (iss : ℕ) (sa : List ℕ)
      → ipv4_recv s iss (record { sa = sa; bytes = ipv4_packet })
        ≡ ipv4_dispatch s iss (record { sa = sa; bytes = ipv4_packet }) 20
  unfolding ipv4_recv ipv4_header
  ipv4_recv-ipv4_packet s iss sa = if-false _ s _ (ground arith)

pub native_word32-native32 : (w : ℕ) → w < 2 ^ 32 → native_word32 (native32 w) 0 ≡ w
native_word32-native32 w h = omega arith

pub ipv4_dispatch-udp :
    (src dst : ℕ) (payload : List ℕ) (s : Host) (iss : ℕ) (sa : List ℕ)
    → 8 ≤ length payload
    → src < 2 ^ 32
    → ipv4_dispatch s iss (record { sa = sa; bytes = ipv4_packet src dst 17 payload }) 20
      ≡ record s { net = udp_recv s.net src payload }
unfolding ipv4_dispatch ipv4_header
ipv4_dispatch-udp src dst payload s iss sa h w =
    if-true _ (record s { net = udp_recv s.net (native_word32 (native32 src) 0) payload }) s
      (le→leb 8 (length payload) h)
    ∙ ap (λ a. record s { net = udp_recv s.net a payload }) (native_word32-native32 src w)

abbrev pub heard : Net → ℕ → ℕ → ℕ → List ℕ → Net
heard n src sport dport payload = record n {
  binds = hand_over n.binds dport (record { addr = src; port = sport; bytes = payload });
}

ap₃ :
    {A B C D : Type 0} (f : A → B → C → D) {a a' : A} {b b' : B} {c c' : C}
    → a ≡ a'
    → b ≡ b'
    → c ≡ c'
    → f a b c ≡ f a' b' c'
ap₃ f p q r = λ i. f (p i) (q i) (r i)

-- A datagram that `send_udp` builds.
pub udp_recv-udp_packet :
    (n : Net) (src dst sport dport : ℕ) (payload : List ℕ)
    → length payload ≤ 1480
    → sport < 65536
    → dport < 65536
    → udp_recv n src (udp_packet src dst sport dport payload) ≡ heard n src sport dport payload
unfolding udp_recv udp_packet
udp_recv-udp_packet n src dst sport dport payload h p q = if-false _ n _ well_formed ∙ parts
  where
    len : (8 + length payload) / 256 % 256 * 256 + (8 + length payload) % 256 ≡ 8 + length payload
    len = omega arith

    well_formed :
        (ltb (length (udp_front 0 0 0 ++ 0 ∷ 0 ∷ payload)) 8
          || ltb ((8 + length payload) / 256 % 256 * 256 + (8 + length payload) % 256) 8
          || ltb
              (length (udp_front 0 0 0 ++ 0 ∷ 0 ∷ payload))
              ((8 + length payload) / 256 % 256 * 256 + (8 + length payload) % 256))
        ≡ false
    well_formed = rw len (ground arith)

    dlen : (8 + length payload) / 256 % 256 * 256 + (8 + length payload) % 256 - 8 ≡ length payload
    dlen = omega arith

    parts :
        heard n src
          (sport / 256 % 256 * 256 + sport % 256)
          (dport / 256 % 256 * 256 + dport % 256)
          (take ((8 + length payload) / 256 % 256 * 256 + (8 + length payload) % 256 - 8) payload)
        ≡ heard n src sport dport payload
    parts =
        ap₃ (heard n src) (omega arith) (omega arith)
          (ap (λ k. take k payload) dlen ∙ take-length payload)
