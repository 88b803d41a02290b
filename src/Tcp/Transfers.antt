-- ===== src/Tcp/Transfers.antt =====
-- What goes out: pieces, resends, the handshake; and what is let pass.
use teatime_os.Base.{
  ℕ, zero, suc, ◌-◌, ◌*◌, ◌^◌, ◌≤◌, ◌<◌, ◌≡◌, ◌≢◌, refl, sym, ap, ◌∙◌, subst, true, false, not,
  ◌||◌, ◌&&◌, inl, inr, ◌⊎◌, none, some, List, [], ◌∷◌, ◌++◌, length, take, drop, All, arith, ltb,
  ◌==◌, if◌then◌else◌, Bool-cases, ne→==, ==→eq, add32, sub32, length-drop, take-append_drop,
}
use teatime_os.Tcp.Seq.{seq_lt, seq_leq}
use teatime_os.Tcp.State.{
  State, Header, Tcp, Flags, Event, Segment, window_of, tell, connected, flag_ack, flags_psh_ack,
  flags_syn_ack, send, send_segment, send_unacked, send_new,
}
use teatime_os.Tcp.Receive.{
  Progress, recv_listen, release_sender, advance_state, recv_ack, recv_data, recv_fin, then_data,
  from_peer, recv_connected, recv_in,
}
use teatime_os.Tcp.Calls.{send_data, chunks, timer_expired}
use teatime_os.Tcp.Stream.{after}

abbrev pub joined : List (List ℕ) → List ℕ
joined [] = []
joined (c ∷ rest) = c ++ joined rest

-- With a round for each 536 bytes, the pieces of a write are its bytes in order, and none is empty
-- or longer than TCP_MSS.
pub chunks_lem :
    (rounds : ℕ) (buf : List ℕ)
    → length buf ≤ 536 * rounds
    → (joined (chunks rounds buf) ≡ buf)
      × All (λ c. (0 < length c) × (length c ≤ 536)) (chunks rounds buf)
unfolding chunks
chunks_lem zero [] h = (refl, tt)
chunks_lem zero (c ∷ buf) h = absurd (omega arith)
chunks_lem (suc rounds) buf h = elim (Bool-cases (length buf == 0)) [
  | inl e ↦ rw e (empty buf (==→eq (length buf) 0 e), tt)
  | inr e ↦
      let rest = chunks_lem rounds (drop 536 buf) (omega (arith, h, length-drop 536 buf)) in
      rw e (
        ap (λ l. take 536 buf ++ l) rest.0 ∙ take-append_drop 536 buf,
        (sized 536 buf (omega arith) (ground (arith, e)), rest.1),
      )
]
  where
    empty : (l : List ℕ) → length l ≡ 0 → [] ≡ l
    empty [] e = refl
    empty (c ∷ l) e = absurd (omega (arith, e))

    sized :
        (n : ℕ) (l : List ℕ)
        → 0 < n
        → 0 < length l
        → (0 < length (take n l)) × (length (take n l) ≤ n)
    sized zero l p q = absurd (omega arith)
    sized (suc n) [] p q = absurd (omega arith)
    sized (suc zero) (c ∷ l) p q = (omega arith, omega arith)
    sized (suc (suc n)) (c ∷ []) p q = (omega arith, omega arith)
    sized (suc (suc n)) (c ∷ d ∷ l) p q =
        (omega arith, omega (arith, (sized (suc n) (d ∷ l) (omega arith) (omega arith)).1))

-- A segment of another peer or for another port, or a reset whose sequence number is not one of the
-- 1072 from rcv_nxt on.
pub data IsForeign (t : Tcp) (src : ℕ) (h : Header) : Type 0 where
  other_address : src ≢ t.remote_ip → IsForeign t src h
  other_port : h.src_port ≢ t.remote_port → IsForeign t src h
  for_other_port : h.dst_port ≢ t.port → IsForeign t src h
  reset_outside :
      h.flags.rst ≡ true → ((d : ℕ) → d < 1072 → h.seq ≢ add32 t.rcv_nxt d) → IsForeign t src h

not_peer :
    (t : Tcp) (src : ℕ) (h : Header)
    → (src ≢ t.remote_ip) ⊎ ((h.src_port ≢ t.remote_port) ⊎ (h.dst_port ≢ t.port))
    → from_peer t src h ≡ false
not_peer t src h (inl a) = rw (ne→== src t.remote_ip a) refl
not_peer t src h (inr (inl a)) = elim (Bool-cases (src == t.remote_ip)) [
  | inl e ↦ rw (e, ne→== h.src_port t.remote_port a) refl
  | inr e ↦ rw e refl
]
not_peer t src h (inr (inr a)) = elim (Bool-cases (from_peer t src h)) [
  | inl e ↦ absurd (a (ground (arith, e)))
  | inr e ↦ e
]

-- A sequence number that passes the test of the window is one of the window's.
in_window :
    (nxt seq : ℕ)
    → nxt < 2 ^ 32
    → seq < 2 ^ 32
    → (seq_leq nxt seq && seq_lt seq (add32 nxt 1072)) ≡ true
    → (sub32 seq nxt < 1072) × (seq ≡ add32 nxt (sub32 seq nxt))
in_window nxt seq a b h = (ground (arith, h), omega arith)

outside_window :
    (nxt seq : ℕ)
    → nxt < 2 ^ 32
    → seq < 2 ^ 32
    → ((d : ℕ) → d < 1072 → seq ≢ add32 nxt d)
    → (seq_leq nxt seq && seq_lt seq (add32 nxt 1072)) ≡ false
outside_window nxt seq a b h = elim (Bool-cases (seq_leq nxt seq && seq_lt seq (add32 nxt 1072))) [
  | inl e ↦ let w = in_window nxt seq a b e in absurd (h (sub32 seq nxt) w.0 w.1)
  | inr e ↦ e
]

peer_ignored :
    (t : Tcp) (src : ℕ) (h : Header) (payload : List ℕ)
    → from_peer t src h ≡ false
    → recv_connected t src h payload ≡ t
unfolding recv_connected
peer_ignored t src h payload c = rw c refl

recv_connected_ignores :
    (t : Tcp) (src : ℕ) (h : Header) (payload : List ℕ)
    → t.rcv_nxt < 2 ^ 32
    → h.seq < 2 ^ 32
    → IsForeign t src h
    → recv_connected t src h payload ≡ t
unfolding recv_connected
recv_connected_ignores t src h payload n q (other_address a) =
    peer_ignored t src h payload (not_peer t src h (inl a))
recv_connected_ignores t src h payload n q (other_port a) =
    peer_ignored t src h payload (not_peer t src h (inr (inl a)))
recv_connected_ignores t src h payload n q (for_other_port a) =
    peer_ignored t src h payload (not_peer t src h (inr (inr a)))
recv_connected_ignores t src h payload n q (reset_outside a b) =
    let w = outside_window t.rcv_nxt h.seq n q b in
    elim (Bool-cases (from_peer t src h)) [ inl c ↦ rw (c, a, w) refl | inr c ↦ rw c refl ]

-- Outside of LISTEN a segment changes nothing and is not answered if it comes from another address
-- than the peer's, from another port than the peer's, or for another port than the listener's, or
-- if it is a reset whose sequence number is none of the 1072 from rcv_nxt on. Sequence numbers are
-- 32-bit words.
pub recv_in_ignores :
    (t : Tcp) (st : State) (iss src : ℕ) (h : Header) (payload : List ℕ)
    → t.rcv_nxt < 2 ^ 32
    → h.seq < 2 ^ 32
    → IsForeign t src h
    → st ≢ State.listen
    → recv_in st t iss src h payload ≡ t
recv_in_ignores t State.listen iss src h payload n q c l = absurd (l refl)
recv_in_ignores t State.closed iss src h payload n q c l = refl
recv_in_ignores t State.syn_rcvd iss src h payload n q c l =
    recv_connected_ignores t src h payload n q c
recv_in_ignores t State.established iss src h payload n q c l =
    recv_connected_ignores t src h payload n q c
recv_in_ignores t State.close_wait iss src h payload n q c l =
    recv_connected_ignores t src h payload n q c
recv_in_ignores t State.fin_wait_1 iss src h payload n q c l =
    recv_connected_ignores t src h payload n q c
recv_in_ignores t State.fin_wait_2 iss src h payload n q c l =
    recv_connected_ignores t src h payload n q c
recv_in_ignores t State.last_ack iss src h payload n q c l =
    recv_connected_ignores t src h payload n q c

release_sender-numbers :
    (t : Tcp)
    → ((release_sender t).snd_una ≡ t.snd_una)
      × ((release_sender t).snd_nxt ≡ t.snd_nxt)
      × ((release_sender t).rcv_nxt ≡ t.rcv_nxt)
unfolding release_sender
release_sender-numbers t = elim (Bool-cases t.sender) [
  | inl g ↦ rw g (refl, refl, refl)
  | inr g ↦ rw g (refl, refl, refl)
]

-- The answer to a SYN.
abbrev pub syn_ack : Tcp → ℕ → ℕ → Header → Segment
syn_ack t iss src syn = record {
  dst = src;
  src_port = t.port;
  dst_port = syn.src_port;
  seq = iss;
  ack = add32 syn.seq 1;
  flags = record { fin = false; syn = true; rst = false; psh = false; ack = true };
  window = window_of t;
  payload = [];
}

-- What is sent, the last first.
abbrev pub segments : List Event → List Segment
segments [] = []
segments (Event.sent s ∷ es) = s ∷ segments es
segments (Event.rto_signal ∷ es) = segments es
segments (Event.conn_broadcast ∷ es) = segments es
segments (Event.listener_broadcast ∷ es) = segments es

drop_nil : (n : ℕ) → drop {A = ℕ} n [] ≡ []
drop_nil zero = refl
drop_nil (suc n) = refl

release_sender-segments : (t : Tcp) → segments (release_sender t).events ≡ segments t.events
unfolding release_sender
release_sender-segments t = elim (Bool-cases t.sender) [ inl g ↦ rw g refl | inr g ↦ rw g refl ]

-- The three-way handshake: in LISTEN a SYN for the port is answered by one segment, an empty SYN and
-- ACK with the own initial sequence number that acknowledges the SYN, and starts the timer; the
-- acknowledgement of that from the same peer establishes the connection, with both sides' next
-- sequence numbers one behind the initial ones, and sends nothing.
pub handshake_lem :
    (t : Tcp) (iss src : ℕ) (syn ack : Header)
    → iss < 2 ^ 32
    → syn.dst_port ≡ t.port
    → syn.flags ≡ record flag_ack { syn = true; ack = false }
    → ack.flags ≡ flag_ack
    → ack.ack ≡ add32 iss 1
    → ack.src_port ≡ syn.src_port
    → ack.dst_port ≡ t.port
    → let t1 = recv_listen t iss src syn in
      let t' = recv_connected t1 src ack [] in
      (t1.events ≡ Event.rto_signal ∷ Event.sent (syn_ack t iss src syn) ∷ t.events)
      × (t1.state ≡ State.syn_rcvd)
      × (segments t'.events ≡ segments t1.events)
      × (t'.state ≡ State.established)
      × (t'.snd_una ≡ add32 iss 1)
      × (t'.snd_nxt ≡ add32 iss 1)
      × (t'.rcv_nxt ≡ add32 syn.seq 1)
unfolding recv_listen recv_connected recv_ack recv_data recv_fin release_sender advance_state
    send_new send_unacked send send_segment
handshake_lem t iss src syn ack i a b c d e f =
    let s_rst : syn.flags.rst ≡ false = ap (λ (x : Flags). x.rst) b in
    let s_syn : syn.flags.syn ≡ true = ap (λ (x : Flags). x.syn) b in
    let s_ack : syn.flags.ack ≡ false = ap (λ (x : Flags). x.ack) b in
    let a_rst : ack.flags.rst ≡ false = ap (λ (x : Flags). x.rst) c in
    let a_syn : ack.flags.syn ≡ false = ap (λ (x : Flags). x.syn) c in
    let a_ack : ack.flags.ack ≡ true = ap (λ (x : Flags). x.ack) c in
    let a_fin : ack.flags.fin ≡ false = ap (λ (x : Flags). x.fin) c in
    let port : (syn.dst_port == t.port) ≡ true = ground (arith, a) in
    let peer : ((src == src) && (ack.src_port == syn.src_port) && (ack.dst_port == t.port)) ≡ true =
      ground (arith, e, f) in
    let valid : (seq_lt iss ack.ack && seq_leq ack.ack (add32 iss 1)) ≡ true = ground (arith, d) in
    let last : (ack.ack == add32 iss 1) ≡ true = ground (arith, d) in
    let opened : Tcp =
      send_new
        (record t {
          remote_ip = src;
          remote_port = syn.src_port;
          rcv_nxt = add32 syn.seq 1;
          snd_una = iss;
          snd_nxt = add32 iss 1;
          state = State.syn_rcvd;
        })
        flags_syn_ack [] in
    let first : recv_listen t iss src syn ≡ opened = rw (port, s_rst, s_syn, s_ack) refl in
    let u : Tcp = tell (record opened { snd_una = ack.ack }) Event.rto_signal in
    let acked : recv_ack opened ack ≡ advance_state (release_sender u) State.syn_rcvd =
      rw (a_ack, valid, last) refl in
    let established : Tcp =
      tell (record (release_sender u) { state = State.established }) Event.listener_broadcast in
    let connects : recv_connected opened src ack [] ≡ then_data ack [] (recv_ack opened ack) =
      rw (peer, a_rst, a_syn) refl in
    let ends : recv_fin established ack [] ≡ established = rw a_fin refl in
    let final : recv_connected (recv_listen t iss src syn) src ack [] ≡ established =
      ap (λ x. recv_connected x src ack []) first ∙ connects ∙ ap (then_data ack []) acked ∙ ends in
    (
      ap (λ (x : Tcp). x.events) first
          ∙ ap
              (λ p.
                Event.rto_signal
                ∷ Event.sent (record (syn_ack t iss src syn) { payload = p })
                ∷ t.events)
              (drop_nil _),
      ap (λ (x : Tcp). x.state) first,
      ap (λ (x : Tcp). segments x.events) final
          ∙ release_sender-segments u
          ∙ sym (ap (λ (x : Tcp). segments x.events) first),
      ap (λ (x : Tcp). x.state) final,
      ap (λ (x : Tcp). x.snd_una) final ∙ (release_sender-numbers u).0 ∙ d,
      ap (λ (x : Tcp). x.snd_nxt) final ∙ (release_sender-numbers u).1,
      ap (λ (x : Tcp). x.rcv_nxt) final ∙ (release_sender-numbers u).2,
    )

-- A write's bytes as they are sent.
begun : Tcp → List ℕ → Tcp
unfolding send_new
begun t buf =
    send_new (record t { sender = true; snd_nxt = add32 t.snd_nxt (length buf) }) flags_psh_ack buf

send_data-begun :
    (t t' : Tcp) (buf : List ℕ)
    → send_data t buf ≡ some t'
    → (t.snd_una ≡ t.snd_nxt) × (begun t buf ≡ t')
unfolding send_data begun
send_data-begun t t' buf e = elim (Bool-cases (not (connected t) || not (t.snd_una == t.snd_nxt))) [
  | inl a ↦ absurd (cc (e, a))
  | inr a ↦ (ground (arith, a), cc (e, a))
]

unacked_bytes :
    (nxt len k ack : ℕ)
    → nxt < 2 ^ 32
    → len ≤ 536
    → 0 < k
    → k < len
    → ack ≡ add32 nxt k
    → (if ltb (sub32 (add32 nxt len) ack) len then len - sub32 (add32 nxt len) ack else 0) ≡ k
unacked_bytes nxt len k ack a b c d e = ground arith

resends :
    (t : Tcp) (buf : List ℕ) (k : ℕ) (h : Header)
    → t.snd_una ≡ t.snd_nxt
    → t.snd_una < 2 ^ 32
    → length buf ≤ 536
    → 0 < k
    → k < length buf
    → h.flags.ack ≡ true
    → h.ack ≡ add32 t.snd_nxt k
    → let t'' = after (recv_ack (begun t buf) h) in
      timer_expired t''
      ≡ send (record t'' { retries = 1; rto = 2000 }) (add32 t.snd_nxt k) flags_psh_ack (drop k buf)
unfolding begun recv_ack timer_expired send_new send_unacked send send_segment
resends t buf k h e small len pos lt a n =
    let valid : (seq_lt t.snd_una h.ack && seq_leq h.ack (add32 t.snd_nxt (length buf))) ≡ true =
      ground (arith, e, n) in
    let behind : (h.ack == add32 t.snd_nxt (length buf)) ≡ false = ground (arith, e, n) in
    let u : Tcp = record (begun t buf) { snd_una = h.ack } in
    let p : recv_ack (begun t buf) h ≡ Progress.goes_on u = rw (a, valid, behind) refl in
    let rest = unacked_bytes t.snd_nxt (length buf) k h.ack (omega (arith, e)) len pos lt n in
    subst
      (λ (x : Progress).
        timer_expired (after x)
        ≡ send (record (after x) { retries = 1; rto = 2000 }) (add32 t.snd_nxt k) flags_psh_ack
            (drop k buf))
      (sym p)
      (ap (λ i. send (record u { retries = 1; rto = 2000 }) h.ack flags_psh_ack (drop i buf)) rest
        ∙ ap (λ q. send (record u { retries = 1; rto = 2000 }) q flags_psh_ack (drop k buf)) n)

-- While a write waits, an acknowledgement of its first k bytes, not all of them, and a timeout
-- after it resend exactly the bytes from the k-th on, at the sequence number of the k-th.
pub resend_lem :
    (t t' : Tcp) (buf : List ℕ) (k : ℕ) (h : Header)
    → t.snd_una < 2 ^ 32
    → send_data t buf ≡ some t'
    → length buf ≤ 536
    → 0 < k
    → k < length buf
    → h.flags.ack ≡ true
    → h.ack ≡ add32 t.snd_nxt k
    → let t'' = after (recv_ack t' h) in
      timer_expired t''
      ≡ send (record t'' { retries = 1; rto = 2000 }) (add32 t.snd_nxt k) flags_psh_ack (drop k buf)
resend_lem t t' buf k h small e len pos lt a n =
    let b = send_data-begun t t' buf e in
    subst
      (λ (x : Tcp).
        let t'' = after (recv_ack x h) in
        timer_expired t''
        ≡ send (record t'' { retries = 1; rto = 2000 }) (add32 t.snd_nxt k) flags_psh_ack
            (drop k buf))
      b.1 (resends t buf k h b.0 small len pos lt a n)

-- An acknowledgement exactly half the number space away, while nothing is outstanding, is taken
-- for a valid one: `snd_una` moves there, and a write is refused then.
pub recv_ack_antipodal :
    (t : Tcp) (h : Header) (buf : List ℕ)
    → t.snd_una ≡ t.snd_nxt
    → t.snd_nxt < 2 ^ 32
    → h.flags.ack ≡ true
    → h.ack ≡ add32 t.snd_nxt (2 ^ 31)
    → (recv_ack t h ≡ Progress.goes_on (record t { snd_una = h.ack }))
      × (send_data (record t { snd_una = h.ack }) buf ≡ none)
unfolding recv_ack send_data
recv_ack_antipodal t h buf e small a n = (rw (a, valid, behind) refl, rw still refl)
  where
    valid : (seq_lt t.snd_una h.ack && seq_leq h.ack t.snd_nxt) ≡ true
    valid = ground (arith, e, n)

    behind : (h.ack == t.snd_nxt) ≡ false
    behind = ground (arith, n)

    still : (not (connected t) || not (h.ack == t.snd_nxt)) ≡ true
    still = ground (arith, behind)
