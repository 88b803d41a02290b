-- ===== src/Net/State.antt =====
-- The globals of net.c, ipv4.c, udp.c and icmp.c, and the frames that go out.
use teatime_os.Base.{ℕ, ◌+◌, ◌/◌, ◌%◌, Bool, false, List, [], ◌∷◌, length, ltb, if◌then◌else◌}
use teatime_os.Net.Slots.{Slots}

-- An entry of `arp_cache`.
pub record Entry : Type 0 where
  pub ip : ℕ
  pub mac : List ℕ

-- A slot of the packet ring: the sender's link address and the `len` bytes.
pub record Packet : Type 0 where
  pub sa : List ℕ
  pub bytes : List ℕ

-- A slot of a bind's ring.
pub record Datagram : Type 0 where
  pub addr : ℕ
  pub port : ℕ
  pub bytes : List ℕ

pub record Bind : Type 0 where
  pub used : Bool
  pub port : ℕ
  pub timeout : ℕ
  pub ring : Slots Datagram

-- The arguments of a call of wifi_ccmp_tx.
pub record Frame : Type 0 where
  pub mac : List ℕ
  pub bytes : List ℕ

-- `arp_cache` holds the entries below `arp_cache_next`; the last frame stands first. `tx_works` is
-- what wifi_tx_frame says of a frame, and `echoes` are the calls of `echo_reply_handler`.
pub record Net : Type 0 where
  pub wpa_done : Bool
  pub wifi_mac_addr : List ℕ
  pub local_ip : ℕ
  pub gw_ip : ℕ
  pub net_mask : ℕ
  pub arp_cache : List Entry
  pub ring : Slots Packet
  pub binds : List Bind
  pub handler : Bool
  pub echoes : List ℕ
  pub tx_works : Bool
  pub frames : List Frame

abbrev pub ipv4_broadcast : ℕ
ipv4_broadcast = 0xffffffff

abbrev pub bcast : List ℕ
bcast = 255 ∷ 255 ∷ 255 ∷ 255 ∷ 255 ∷ 255 ∷ []

-- MAX_FRAME_LEN bounds the frame with its two headers and its MIC.
unfoldable pub wifi_ccmp_tx : Net → List ℕ → List ℕ → Net × Bool
wifi_ccmp_tx n mac payload =
    if ltb 1600 (32 + length payload + 8)
    then (n, false)
    else (record n { frames = (record { mac = mac; bytes = payload }) ∷ n.frames }, n.tx_works)

-- The header that put_snap writes in front of a packet.
abbrev pub snap : ℕ → List ℕ
snap ethertype = 0xaa ∷ 0xaa ∷ 0x03 ∷ 0 ∷ 0 ∷ 0 ∷ (ethertype / 256 % 256) ∷ (ethertype % 256) ∷ []
