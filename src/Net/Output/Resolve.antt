-- ===== src/Net/Output/Resolve.antt =====
-- `net_send` finds the next hop or gives up.

use teatime_os.Base.{
  ℕ, suc, ◌+◌, ◌≤◌, ◌^◌, ◌<◌, ◌≡◌, ◌≢◌, refl, ap, ◌∙◌, Bool, true, false, not, ◌||◌, inl, inr, none,
  some, List, [], ◌∷◌, ◌++◌, length, arith, ◌==◌, ltb, if◌then◌else◌, Bool-cases, Option-cases,
  if-false, le→ltb, ne→==, ==→eq,
}
use teatime_os.Net.State.{Net, ipv4_broadcast, bcast, wifi_ccmp_tx, snap}
use teatime_os.Net.Arp.{cached, arp_cache_lookup, arp_cache_store, arp_pkt, send_arp_request}
use teatime_os.Net.Arp.Laws.{IsCache, arp_cache_store-IsCache}
use teatime_os.Net.Arp.Replies.{learned, with_reply, arp_recv-pkt}
use teatime_os.Net.Output.{
  Round, arrivals, Resolved, found, gives_up, waits, resolve, sent, next_hop, net_send,
  send_resolved,
}

abbrev pub timeouts : List Round → ℕ
timeouts [] = 0
timeouts (r ∷ rounds) = (if r.timed_out then 1 else 0) + timeouts rounds

-- The loop has ended.
abbrev pub HasEnded : Resolved → Type 0
HasEnded (found n mac) = Unit
HasEnded (gives_up n) = Unit
HasEnded (waits n) = ⊥

module _ (n : Net) (next : ℕ) where
  pub resolve-hit :
      (rounds : List Round) (tries : ℕ) (mac : List ℕ)
      → arp_cache_lookup n.arp_cache next ≡ some mac
      → resolve rounds n next tries ≡ found n mac
  unfolding resolve
  resolve-hit [] tries mac e = rw (e, resolve) refl
  resolve-hit (r ∷ rounds) tries mac e = rw (e, resolve) refl

  resolve-tired :
      (rounds : List Round)
      → arp_cache_lookup n.arp_cache next ≡ none
      → resolve rounds n next 6 ≡ gives_up n
  unfolding resolve
  resolve-tired [] e = rw (e, resolve) refl
  resolve-tired (r ∷ rounds) e = rw (e, resolve) refl

  resolve-again :
      (r : Round) (rounds : List Round) (tries : ℕ)
      → arp_cache_lookup n.arp_cache next ≡ none
      → (tries == 6) ≡ false
      → resolve (r ∷ rounds) n next tries
        ≡ resolve rounds
            (arrivals (send_arp_request n next) r.arrived)
            next
            (if r.timed_out then suc tries else tries)
  unfolding resolve
  resolve-again r rounds tries e more = rw (e, more, resolve) refl

resolve-HasEnded :
    (rounds : List Round) (n : Net) (next tries : ℕ)
    → tries ≤ 6
    → 6 ≤ tries + timeouts rounds
    → HasEnded (resolve rounds n next tries)
resolve-HasEnded [] n next tries h k =
    let six : tries ≡ 6 = omega arith in
    elim (Option-cases (arp_cache_lookup n.arp_cache next)) [
      | inl e ↦ rw (six, resolve-tired n next [] e) tt
      | inr (mac, e) ↦ rw (resolve-hit n next [] tries mac e) tt
    ]
resolve-HasEnded (r ∷ rounds) n next tries h k =
    elim (Option-cases (arp_cache_lookup n.arp_cache next)) [
      | inl e ↦ elim (Bool-cases (tries == 6)) [
        | inl six ↦ rw (==→eq tries 6 six, resolve-tired n next (r ∷ rounds) e) tt
        | inr more ↦ rw (resolve-again n next r rounds tries e more) (
            resolve-HasEnded rounds (arrivals (send_arp_request n next) r.arrived) next
              (if r.timed_out then suc tries else tries) (ground (arith, more))
              (ground (arith, more)))
      ]
      | inr (mac, e) ↦ rw (resolve-hit n next (r ∷ rounds) tries mac e) tt
    ]

-- `net_send` returns as soon as six of its waits have timed out, whatever came in meanwhile: it
-- does not stay in its loop.
pub net_send_returns :
    (rounds : List Round) (n : Net) (dst : ℕ) (pkt : List ℕ)
    → 6 ≤ timeouts rounds
    → (n' : Net) × (ok : Bool) × (net_send rounds n dst pkt ≡ sent n' ok)
unfolding net_send
net_send_returns rounds n dst pkt h = elim (Bool-cases (not n.wpa_done || ltb 1510 (length pkt))) [
  | inl e ↦ (n, false, rw e refl)
  | inr e ↦ rw e (
      ended (resolve rounds n (next_hop n dst) 0)
        (resolve-HasEnded rounds n (next_hop n dst) 0 (omega arith) (omega arith)))
]
  where
    ended :
        (r : Resolved)
        → HasEnded r
        → (n' : Net) × (ok : Bool) × (send_resolved (snap 0x0800 ++ pkt) r ≡ sent n' ok)
    ended (found n mac) h = (_, _, refl)
    ended (gives_up n) h = (n, false, refl)
    ended (waits n) h = absurd h

pub wifi_ccmp_tx-fits :
    (n : Net) (mac payload : List ℕ)
    → length payload ≤ 1560
    → wifi_ccmp_tx n mac payload
      ≡ (record n { frames = (record { mac = mac; bytes = payload }) ∷ n.frames }, n.tx_works)
unfolding wifi_ccmp_tx
wifi_ccmp_tx-fits n mac payload h = rw (le→ltb 1600 (32 + length payload + 8) (omega arith)) refl

pub length-arp_frame :
    (oper ip target_ip : ℕ) (mac target_mac : List ℕ)
    → length mac ≡ 6
    → length target_mac ≡ 6
    → length (snap 0x0806 ++ arp_pkt oper mac ip target_mac target_ip) ≡ 36
length-arp_frame oper ip target_ip (a ∷ b ∷ c ∷ d ∷ e ∷ f ∷ []) (g ∷ h ∷ i ∷ j ∷ k ∷ l ∷ []) p q =
    refl
length-arp_frame oper ip target_ip _ _ p q = absurd (omega (arith, p, q))

abbrev pub asked : Net → ℕ → Net
asked n ip = record n {
  frames =
      (record {
        mac = bcast;
        bytes = snap 0x0806 ++ arp_pkt 1 n.wifi_mac_addr n.local_ip (0 ∷ 0 ∷ 0 ∷ 0 ∷ 0 ∷ 0 ∷ []) ip;
      })
      ∷ n.frames;
}

pub send_arp_request-asked :
    (n : Net) (ip : ℕ) → length n.wifi_mac_addr ≡ 6 → send_arp_request n ip ≡ asked n ip
unfolding send_arp_request
send_arp_request-asked n ip h =
    ap (λ (r : Net × Bool). r.0)
      (wifi_ccmp_tx-fits n bcast _ (
        omega (
          arith,
          length-arp_frame 1 n.local_ip ip n.wifi_mac_addr (0 ∷ 0 ∷ 0 ∷ 0 ∷ 0 ∷ 0 ∷ []) h refl,
        )))

pub with_reply-frame :
    (n : Net) (mac : List ℕ) (ip : ℕ)
    → length n.wifi_mac_addr ≡ 6
    → length mac ≡ 6
    → with_reply n mac ip ≡ record n {
      frames =
          (record { mac = mac; bytes = snap 0x0806 ++ arp_pkt 2 n.wifi_mac_addr n.local_ip mac ip })
          ∷ n.frames;
    }
with_reply-frame n mac ip h k =
    ap (λ (r : Net × Bool). r.0)
      (wifi_ccmp_tx-fits n mac _
        (omega (arith, length-arp_frame 2 n.local_ip ip n.wifi_mac_addr mac h k)))

abbrev pub with_frame : Net → List ℕ → List ℕ → Net
with_frame n mac bytes = record n { frames = (record { mac = mac; bytes = bytes }) ∷ n.frames }

arrival_learned :
    (n : Net) (ip : ℕ) (mac : List ℕ)
    → length n.wifi_mac_addr ≡ 6
    → length mac ≡ 6
    → ip < 2 ^ 32
    → n.local_ip < 2 ^ 32
    → arrivals n (arp_pkt 2 mac ip n.wifi_mac_addr n.local_ip ∷ []) ≡ learned n ip mac
unfolding arrivals
arrival_learned n ip mac h k p q =
    arp_recv-pkt n 2 ip n.local_ip mac n.wifi_mac_addr k h (omega arith) p q

-- A wait in which the reply of `mac` comes in.
abbrev pub replied : Net → ℕ → List ℕ → Bool → Round
replied n ip mac timed_out = record {
  arrived = arp_pkt 2 mac ip n.wifi_mac_addr n.local_ip ∷ [];
  timed_out = timed_out;
}

-- With the link up and an address that is not cached, `net_send` asks for the next hop by an ARP
-- request that everybody gets; the reply to it, whether the wait timed out or not, is what the
-- packet then goes to, behind its SNAP header, and `net_send` returns what the radio says.
pub net_send-answered :
    (n : Net) (dst : ℕ) (pkt mac : List ℕ) (timed_out : Bool) (rounds : List Round)
    → n.wpa_done ≡ true
    → length pkt ≤ 1510
    → length n.wifi_mac_addr ≡ 6
    → length mac ≡ 6
    → n.local_ip < 2 ^ 32
    → next_hop n dst < 2 ^ 32
    → next_hop n dst ≢ ipv4_broadcast
    → IsCache n.arp_cache
    → cached n.arp_cache (next_hop n dst) ≡ none
    → net_send (replied n (next_hop n dst) mac timed_out ∷ rounds) n dst pkt
      ≡ sent
          (with_frame
            (learned (asked n (next_hop n dst)) (next_hop n dst) mac)
            mac
            (snap 0x0800 ++ pkt))
          n.tx_works
unfolding net_send
net_send-answered n dst pkt mac timed_out rounds up small own other p q wide v miss =
    if-false _ _ _ goes
    ∙ ap (send_resolved (snap 0x0800 ++ pkt)) found_it
    ∙ ap (λ (r : Net × Bool). sent r.0 r.1)
        (wifi_ccmp_tx-fits _ mac (snap 0x0800 ++ pkt) (omega arith))
  where
    goes : (not n.wpa_done || ltb 1510 (length pkt)) ≡ false
    goes = rw (up, le→ltb 1510 (length pkt) small) refl

    asks : arp_cache_lookup n.arp_cache (next_hop n dst) ≡ none
    asks = unfold arp_cache_lookup in rw (ne→== (next_hop n dst) ipv4_broadcast wide) miss

    knows :
        arp_cache_lookup (arp_cache_store n.arp_cache (next_hop n dst) mac) (next_hop n dst)
        ≡ some mac
    knows =
        unfold arp_cache_lookup in
        (rw (ne→== (next_hop n dst) ipv4_broadcast wide)
          (arp_cache_store-IsCache n.arp_cache (next_hop n dst) mac v).1)

    after :
        arrivals
          (send_arp_request n (next_hop n dst))
          (replied n (next_hop n dst) mac timed_out).arrived
        ≡ learned (asked n (next_hop n dst)) (next_hop n dst) mac
    after =
        ap (λ m. arrivals m (replied n (next_hop n dst) mac timed_out).arrived)
          (send_arp_request-asked n (next_hop n dst) own)
        ∙ arrival_learned (asked n (next_hop n dst)) (next_hop n dst) mac own other q p

    found_it :
        resolve (replied n (next_hop n dst) mac timed_out ∷ rounds) n (next_hop n dst) 0
        ≡ found (learned (asked n (next_hop n dst)) (next_hop n dst) mac) mac
    found_it =
        resolve-again n (next_hop n dst) (replied n (next_hop n dst) mac timed_out) rounds 0 asks
          refl
        ∙ ap (λ m. resolve rounds m (next_hop n dst) (if timed_out then 1 else 0)) after
        ∙ resolve-hit (learned (asked n (next_hop n dst)) (next_hop n dst) mac) (next_hop n dst)
            rounds (if timed_out then 1 else 0) mac knows
