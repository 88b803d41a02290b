-- ===== src/Net/Udp/Laws.antt =====
-- The binds: who gets a datagram, and what a read returns.
use teatime_os.Base.{
  ℕ, ◌-◌, ◌≤◌, ◌≡◌, refl, ap, ◌∙◌, Bool, true, false, not, ◌||◌, ◌&&◌, List, [], ◌∷◌, ◌++◌, length,
  take, arith, ◌==◌, ltb, if◌then◌else◌, if-true, if-false, le→ltb, ==-self,
}
use teatime_os.Net.State.{Datagram, Bind}
use teatime_os.Net.Slots.{is_drained, drop_slot, contents, IsRing, slots-IsQueue}
use teatime_os.Net.Udp.{
  bound, Wait, received, failed, take_datagram, read_loop, udp_read, offer, hand_over,
}

-- A datagram is offered to the first bind in use of its port, and to no other.
pub hand_over-append :
    (front rest : List Bind) (b : Bind) (d : Datagram) (port : ℕ)
    → bound front port ≡ false
    → b.used ≡ true
    → b.port ≡ port
    → hand_over (front ++ b ∷ rest) port d ≡ front ++ offer b d ∷ rest
unfolding bound hand_over
hand_over-append [] rest b d port h u p =
    if-false (not b.used || not (b.port == port)) _ _ (here b.used b.port u p)
  where
    here : (x : Bool) (k : ℕ) → x ≡ true → k ≡ port → (not x || not (k == port)) ≡ false
    here x k e f = rw (e, f, ==-self port) refl
hand_over-append (a ∷ front) rest b d port h u p =
    if-true _ _ _ (first a.used (a.port == port) (bound front port) h)
    ∙ ap (λ t. a ∷ t)
        (hand_over-append front rest b d port (later (a.used && a.port == port) _ h) u p)
  where
    first : (x y z : Bool) → ((x && y) || z) ≡ false → (not x || not y) ≡ true
    first false y z h = refl
    first true false z h = refl
    first true true z h = cc

    later : (x z : Bool) → (x || z) ≡ false → z ≡ false
    later false z h = h
    later true z h = cc

pub hand_over_none :
    (binds : List Bind) (d : Datagram) (port : ℕ)
    → bound binds port ≡ false
    → hand_over binds port d ≡ binds
unfolding bound hand_over
hand_over_none [] d port h = refl
hand_over_none (a ∷ binds) d port h = ground (arith, hand_over_none binds d port)

-- A read that finds a datagram returns its sender and as much of it as there is room for, and
-- takes the whole of it off the queue; the waits before do not matter.
pub udp_read-contents :
    (waits : List Wait) (b : Bind) (n : ℕ) (d : Datagram) (q : List Datagram)
    → IsRing 2 b.ring
    → contents 2 b.ring ≡ d ∷ q
    → 8 ≤ n
    → (udp_read waits b n
        ≡ received
            (record b { ring = drop_slot b.ring })
            d.addr
            d.port
            (take (if ltb (n - 8) (length d.bytes) then n - 8 else length d.bytes) d.bytes))
      × (contents 2 (drop_slot b.ring) ≡ q)
unfolding udp_read
udp_read-contents waits b n d q v e h = (
  if-false _ failed _ (le→ltb n 8 h) ∙ loop waits ∙ taken,
  ((slots-IsQueue 2 b.ring v).3 d q e).2,
)
  where
    some_there : is_drained b.ring ≡ false
    some_there =
        (slots-IsQueue 2 b.ring v).1 ∙ ap (λ (q : List Datagram). length q == 0) e ∙ ground arith

    loop : (waits : List Wait) → read_loop waits b (n - 8) ≡ take_datagram b (n - 8)
    loop [] = unfold read_loop in (if-false _ _ _ some_there)
    loop (w ∷ waits) = unfold read_loop in (if-false _ _ _ some_there)

    taken :
        take_datagram b (n - 8)
        ≡ received
            (record b { ring = drop_slot b.ring })
            d.addr
            d.port
            (take (if ltb (n - 8) (length d.bytes) then n - 8 else length d.bytes) d.bytes)
    taken =
        ap
          (λ (slot : Datagram).
            received (record b { ring = drop_slot b.ring }) slot.addr slot.port
              (take (if ltb (n - 8) (length slot.bytes) then n - 8 else length slot.bytes)
                slot.bytes))
          ((slots-IsQueue 2 b.ring v).3 d q e).0
