-- ===== src/Net/Arp.antt =====
-- src/device/net/net.c: the ARP cache, and what an ARP packet does.
pub mod Laws
pub mod Replies
use teatime_os.Base.{
  ℕ, suc, ◌+◌, Bool, false, ◌&&◌, Option, none, some, List, [], ◌∷◌, ◌++◌, length, set, take, drop,
  ltb, ◌==◌, if◌then◌else◌, word16, bytes16, native32, native_word32,
}
use teatime_os.Net.State.{Entry, Net, bcast, ipv4_broadcast, wifi_ccmp_tx, snap}

-- Where the address stands, or the number of entries.
unfoldable pub index_of : ℕ → List Entry → ℕ
index_of ip [] = 0
index_of ip (e ∷ cache) = if e.ip == ip then 0 else suc (index_of ip cache)

abbrev put_entry : List Entry → ℕ → Entry → List Entry
put_entry cache i e = if i == length cache then cache ++ e ∷ [] else set cache i e

unfoldable pub arp_cache_store : List Entry → ℕ → List ℕ → List Entry
unfolding index_of
arp_cache_store cache ip mac =
    let i = index_of ip cache in
    put_entry cache (if i == 4 then 3 else i) (record { ip = ip; mac = mac })

unfoldable pub cached : List Entry → ℕ → Option (List ℕ)
cached [] ip = none
cached (e ∷ cache) ip = if e.ip == ip then some e.mac else cached cache ip

unfoldable pub arp_cache_lookup : List Entry → ℕ → Option (List ℕ)
unfolding cached
arp_cache_lookup cache ip = if ip == ipv4_broadcast then some bcast else cached cache ip

abbrev pub arp_pkt : ℕ → List ℕ → ℕ → List ℕ → ℕ → List ℕ
arp_pkt oper sender_mac sender_ip target_mac target_ip =
    bytes16 1
    ++ bytes16 0x0800
    ++ 6 ∷ 4 ∷ bytes16 oper
    ++ sender_mac
    ++ native32 sender_ip
    ++ target_mac
    ++ native32 target_ip

unfoldable pub send_arp_request : Net → ℕ → Net
unfolding wifi_ccmp_tx
send_arp_request n target_ip =
    (wifi_ccmp_tx n bcast (
      snap 0x0806 ++ arp_pkt 1 n.wifi_mac_addr n.local_ip (0 ∷ 0 ∷ 0 ∷ 0 ∷ 0 ∷ 0 ∷ []) target_ip)).0

-- The request is turned into its reply: the first six bytes stay.
unfoldable pub arp_reply : Net → List ℕ → Net
unfolding wifi_ccmp_tx
arp_reply n payload =
    let req_mac = take 6 (drop 8 payload) in
    let req_ip = native_word32 payload 14 in
    (wifi_ccmp_tx n req_mac (
      snap 0x0806
      ++ take 6 payload
      ++ bytes16 2
      ++ n.wifi_mac_addr
      ++ native32 n.local_ip
      ++ req_mac
      ++ native32 req_ip)).0

unfoldable pub arp_recv : Net → List ℕ → Net
unfolding arp_cache_store arp_reply
arp_recv n payload =
    if ltb (length payload) 28
    then n
    else (let n' = record n {
      arp_cache = arp_cache_store n.arp_cache (native_word32 payload 14) (take 6 (drop 8 payload));
    } in
        if (word16 payload 6 == 1) && (native_word32 payload 24 == n.local_ip)
        then arp_reply n' payload
        else n')
