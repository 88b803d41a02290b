-- ===== src/Net/Output.antt =====
-- What goes out: `net_tx` and `net_send` of src/device/net/net.c, and `send_ipv4_raw` of ipv4.c.
pub mod Resolve
use Prim.Native.Nat.{bit_and, bit_xor}
use teatime_os.Base.{
  ℕ, suc, ◌+◌, Bool, true, false, not, ◌||◌, Option, none, some, List, [], ◌∷◌, ◌++◌, length, ltb,
  ◌==◌, if◌then◌else◌, bytes16, native16, native32,
}
use teatime_os.Net.State.{Net, ipv4_broadcast, wifi_ccmp_tx, snap}
use teatime_os.Net.Arp.{arp_cache_lookup, send_arp_request, arp_recv}
use teatime_os.Net.Checksum.{checksum}

unfoldable pub net_tx : Net → List ℕ → List ℕ → Net × Bool
unfolding wifi_ccmp_tx
net_tx n mac pkt = wifi_ccmp_tx n mac (snap 0x0800 ++ pkt)

unfoldable pub on_subnet : Net → ℕ → Bool
on_subnet n ip = bit_and (bit_xor ip n.local_ip) n.net_mask == 0

unfoldable pub next_hop : Net → ℕ → ℕ
unfolding on_subnet
next_hop n dst = if on_subnet n dst || dst == ipv4_broadcast then dst else n.gw_ip

-- One wait of `net_send`: the ARP packets that came in, and whether it timed out.
pub record Round : Type 0 where
  pub arrived : List (List ℕ)
  pub timed_out : Bool

unfoldable pub arrivals : Net → List (List ℕ) → Net
unfolding arp_recv
arrivals n [] = n
arrivals n (pkt ∷ more) = arrivals (arp_recv n pkt) more

-- `waits` is where the rounds that are known end.
pub data Resolved : Type 0 where
  found : Net → List ℕ → Resolved
  gives_up : Net → Resolved
  waits : Net → Resolved

unfoldable pub resolve : List Round → Net → ℕ → ℕ → Resolved
unfolding arp_cache_lookup send_arp_request arrivals
resolve [] n next tries = elim (arp_cache_lookup n.arp_cache next) [
  | some mac ↦ found n mac
  | none ↦ if tries == 6 then gives_up n else waits (send_arp_request n next)
]
resolve (r ∷ rounds) n next tries = elim (arp_cache_lookup n.arp_cache next) [
  | some mac ↦ found n mac
  | none ↦ elim (tries == 6) [
    | true ↦ gives_up n
    | false ↦
        resolve rounds (arrivals (send_arp_request n next) r.arrived) next
          (if r.timed_out then suc tries else tries)
  ]
]

-- `sent` has the state and what is returned, as `true` for a result that is not negative.
pub data Sending : Type 0 where
  sent : Net → Bool → Sending
  blocks : Net → Sending

abbrev pub send_resolved : List ℕ → Resolved → Sending
send_resolved frame (found n mac) = let (n', ok) = wifi_ccmp_tx n mac frame in sent n' ok
send_resolved frame (gives_up n) = sent n false
send_resolved frame (waits n) = blocks n

unfoldable pub net_send : List Round → Net → ℕ → List ℕ → Sending
unfolding resolve next_hop wifi_ccmp_tx
net_send rounds n dst pkt =
    if not n.wpa_done || ltb 1510 (length pkt)
    then sent n false
    else send_resolved (snap 0x0800 ++ pkt) (resolve rounds n (next_hop n dst) 0)

-- The header before and after its checksum.
abbrev pub ipv4_front : ℕ → ℕ → List ℕ
ipv4_front total protocol = 0x45 ∷ 0 ∷ bytes16 total ++ 0 ∷ 0 ∷ 0x40 ∷ 0 ∷ 64 ∷ protocol ∷ []

unfoldable pub ipv4_header : ℕ → ℕ → ℕ → ℕ → List ℕ
unfolding checksum
ipv4_header src dst protocol total =
    let front = ipv4_front total protocol in
    let rest = native32 src ++ native32 dst in
    front ++ native16 (checksum (front ++ 0 ∷ 0 ∷ rest) 0) ++ rest

unfoldable pub send_ipv4_raw : List Round → Net → ℕ → ℕ → ℕ → List ℕ → Sending
unfolding ipv4_header net_send
send_ipv4_raw rounds n src dst protocol payload =
    if ltb 1490 (length payload)
    then sent n false
    else net_send rounds n dst (ipv4_header src dst protocol (20 + length payload) ++ payload)
