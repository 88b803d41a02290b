-- ===== src/Net/Arp/Replies.antt =====
-- What a well-formed ARP packet does.
use teatime_os.Base.{
  ℕ, ◌+◌, ◌*◌, ◌/◌, ◌%◌, ◌^◌, ◌<◌, ◌≡◌, refl, ◌&&◌, List, [], ◌∷◌, ◌++◌, length, arith, ◌==◌,
  if◌then◌else◌, native32, native_word32,
}
use teatime_os.Net.State.{Net, wifi_ccmp_tx, snap}
use teatime_os.Net.Arp.{arp_cache_store, arp_pkt, arp_reply, arp_recv}

abbrev pub learned : Net → ℕ → List ℕ → Net
learned n ip mac = record n { arp_cache = arp_cache_store n.arp_cache ip mac }

abbrev pub with_reply : Net → List ℕ → ℕ → Net
with_reply n mac ip =
    (wifi_ccmp_tx n mac (snap 0x0806 ++ arp_pkt 2 n.wifi_mac_addr n.local_ip mac ip)).0

native_word32-native32 : (w : ℕ) (s : List ℕ) → w < 2 ^ 32 → native_word32 (native32 w ++ s) 0 ≡ w
native_word32-native32 w s h = omega arith

arp_reply-pkt :
    (n : Net) (oper sender_ip target_ip : ℕ) (sender_mac target_mac : List ℕ)
    → length sender_mac ≡ 6
    → sender_ip < 2 ^ 32
    → arp_reply n (arp_pkt oper sender_mac sender_ip target_mac target_ip)
      ≡ with_reply n sender_mac sender_ip
unfolding arp_reply
arp_reply-pkt n oper sip tip (a ∷ b ∷ c ∷ d ∷ e ∷ f ∷ []) tmac p s =
    rw (native_word32-native32 sip [] s, arp_reply) refl
arp_reply-pkt n oper sip tip _ tmac p s = absurd (omega (arith, p))

-- A packet of the right shape teaches its sender's address; if it is a request for ours, it is
-- answered to the sender with ours.
pub arp_recv-pkt :
    (n : Net) (oper sender_ip target_ip : ℕ) (sender_mac target_mac : List ℕ)
    → length sender_mac ≡ 6
    → length target_mac ≡ 6
    → oper < 65536
    → sender_ip < 2 ^ 32
    → target_ip < 2 ^ 32
    → arp_recv n (arp_pkt oper sender_mac sender_ip target_mac target_ip) ≡ (
        if (oper == 1) && (target_ip == n.local_ip)
        then with_reply (learned n sender_ip sender_mac) sender_mac sender_ip
        else learned n sender_ip sender_mac)
unfolding arp_recv
arp_recv-pkt n oper sip tip (a ∷ b ∷ c ∷ d ∷ e ∷ f ∷ []) (g ∷ h ∷ i ∷ j ∷ k ∷ l ∷ []) p q r s t =
    let op : oper / 256 % 256 * 256 + oper % 256 ≡ oper = omega arith in
    let reply =
      arp_reply-pkt (learned n sip (a ∷ b ∷ c ∷ d ∷ e ∷ f ∷ [])) oper sip tip
        (a ∷ b ∷ c ∷ d ∷ e ∷ f ∷ []) (g ∷ h ∷ i ∷ j ∷ k ∷ l ∷ []) p s in
    rw (op, native_word32-native32 sip [] s, native_word32-native32 tip [] t, reply) refl
arp_recv-pkt n oper sip tip _ _ p q r s t = absurd (omega (arith, p, q))
