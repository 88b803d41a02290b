-- ===== src/Tcp/Steps.antt =====
-- Every segment and every call keeps the control block fit.

use teatime_os.Base.{
  ℕ, ◌*◌, ◌^◌, ◌≤◌, ◌<◌, ◌≡◌, ◌≢◌, refl, subst, Bool, true, false, not, ◌||◌, ◌&&◌, inl, inr, List,
  [], length, drop, arith, ltb, ◌==◌, if◌then◌else◌, Bool-cases, add32, sub32,
}
use teatime_os.Tcp.Seq.{seq_lt, seq_leq}
use teatime_os.Tcp.Ring.{Ring, rx_room, rx_put}
use teatime_os.Tcp.State.{
  State, Header, Tcp, outstanding, is_established, is_syn_rcvd, flag_ack, send, send_rst,
  send_segment, send_unacked, send_new, parse_header, flags_syn_ack,
}
use teatime_os.Tcp.Receive.{
  Progress, recv_listen, recv_ack, accept_data, recv_data, take_fin, recv_fin, then_fin, then_data,
  from_peer, recv_connected, recv_in, recv,
}
use teatime_os.Tcp.Invariant.{Awaits, Fits, IsOk, OkProgress, disconnect-IsOk, recv_ack-IsOk}

-- A change of the numbers that the rest of the record goes along with.
with_rcv : (t : Tcp) (rcv : ℕ) → rcv < 2 ^ 32 → IsOk t → IsOk (record t { rcv_nxt = rcv })
with_rcv t rcv h v = record {
  una_word = v.una_word;
  nxt_word = v.nxt_word;
  rcv_word = h;
  awaits = v.awaits;
  span = v.span;
  segment = v.segment;
  few = v.few;
  backoff = v.backoff;
  head_word = v.head_word;
  tail_word = v.tail_word;
  buffered = v.buffered;
}

pub with_state :
    (t : Tcp) (st : State)
    → Awaits st (outstanding t) t.sender
    → IsOk t
    → IsOk (record t { state = st })
with_state t st a v = record {
  una_word = v.una_word;
  nxt_word = v.nxt_word;
  rcv_word = v.rcv_word;
  awaits = a;
  span = v.span;
  segment = v.segment;
  few = v.few;
  backoff = v.backoff;
  head_word = v.head_word;
  tail_word = v.tail_word;
  buffered = v.buffered;
}

pub with_ring :
    (t : Tcp) (r : Ring)
    → r.rx_head < 2 ^ 32
    → r.rx_tail < 2 ^ 32
    → sub32 r.rx_head r.rx_tail ≤ 2048
    → IsOk t
    → IsOk (record t { ring = r })
with_ring t r a b c v = record {
  una_word = v.una_word;
  nxt_word = v.nxt_word;
  rcv_word = v.rcv_word;
  awaits = v.awaits;
  span = v.span;
  segment = v.segment;
  few = v.few;
  backoff = v.backoff;
  head_word = a;
  tail_word = b;
  buffered = c;
}

silent : (t : Tcp) → IsOk t → t.state ≡ State.listen → t.sender ≡ false
silent t v e =
    let a : Awaits State.listen (outstanding t) t.sender =
      subst (λ s. Awaits s (outstanding t) t.sender) e v.awaits in
    a.1

recv_listen-IsOk :
    (t : Tcp) (iss src : ℕ) (h : Header)
    → IsOk t
    → t.state ≡ State.listen
    → iss < 2 ^ 32
    → IsOk (recv_listen t iss src h)
unfolding recv_listen send_new send_unacked send send_segment send_rst
recv_listen-IsOk t iss src h v e small = elim (Bool-cases (h.dst_port == t.port)) [
  | inr a ↦ rw a v
  | inl a ↦ elim (Bool-cases h.flags.rst) [
    | inl b ↦ rw (a, b) v
    | inr b ↦ elim (Bool-cases h.flags.syn) [
      | inr c ↦ elim (Bool-cases h.flags.ack) [
        | inl d ↦ rw (a, b, c, d) v
        | inr d ↦ rw (a, b, c, d) v
      ]
      | inl c ↦ elim (Bool-cases h.flags.ack) [
        | inl d ↦ rw (a, b, c, d) v
        | inr d ↦ rw (a, b, c, d) opened
      ]
    ]
  ]
]
  where
    one : (iss : ℕ) → iss < 2 ^ 32 → sub32 (add32 iss 1) iss ≡ 1
    one iss h = omega arith

    opened :
        Fits State.syn_rcvd iss
          (add32 iss 1)
          (add32 h.seq 1)
          flags_syn_ack
          0
          0
          1000
          t.sender
          t.ring.rx_head
          t.ring.rx_tail
    opened = record {
      una_word = small;
      nxt_word = omega arith;
      rcv_word = omega arith;
      awaits = (one iss small, silent t v e);
      span = omega (arith, one iss small);
      segment = omega arith;
      few = omega arith;
      backoff = omega arith;
      head_word = v.head_word;
      tail_word = v.tail_word;
      buffered = v.buffered;
    }

room_bound :
    (head tail n : ℕ)
    → head < 2 ^ 32
    → tail < 2 ^ 32
    → sub32 head tail ≤ 2048
    → n ≤ sub32 2048 (sub32 head tail)
    → sub32 (add32 head n) tail ≤ 2048
room_bound head tail n a b c h = omega arith

accept_data-IsOk :
    (t : Tcp) (payload : List ℕ)
    → IsOk t
    → length payload ≤ rx_room t.ring
    → IsOk (accept_data t payload)
unfolding accept_data rx_put rx_room
accept_data-IsOk t payload v fits =
    let v' = with_rcv t (add32 t.rcv_nxt (length payload)) (omega arith) v in
    elim (Bool-cases (is_established t.state)) [
      | inl e ↦ rw e (
          with_ring (record t { rcv_nxt = add32 t.rcv_nxt (length payload) })
            (rx_put t.ring payload) (omega arith) v.tail_word
            (room_bound t.ring.rx_head t.ring.rx_tail (length payload) v.head_word v.tail_word
              v.buffered fits)
            v')
      | inr e ↦ rw e v'
    ]

recv_data-IsOk :
    (t : Tcp) (h : Header) (payload : List ℕ) → IsOk t → OkProgress (recv_data t h payload)
unfolding recv_data send send_segment
recv_data-IsOk t h payload v = elim (Bool-cases (length payload == 0)) [
  | inl a ↦ rw a v
  | inr a ↦ elim (Bool-cases (not (h.seq == t.rcv_nxt) || ltb (rx_room t.ring) (length payload))) [
    | inl b ↦ rw (a, b) v
    | inr b ↦ rw (a, b) (accept_data-IsOk t payload v (ground (arith, b)))
  ]
]

take_fin-IsOk : (t : Tcp) (st : State) → t.state ≡ st → IsOk t → IsOk (take_fin t st)
unfolding take_fin send send_segment
take_fin-IsOk t State.established e v =
    with_state (record t { rcv_nxt = add32 t.rcv_nxt 1 }) State.close_wait
      (subst (λ s. Awaits s (outstanding t) t.sender) e v.awaits)
      (with_rcv t (add32 t.rcv_nxt 1) (omega arith) v)
take_fin-IsOk t State.fin_wait_2 e v =
    disconnect-IsOk (send (record t { rcv_nxt = add32 t.rcv_nxt 1 }) t.snd_nxt flag_ack [])
take_fin-IsOk t State.closed e v = v
take_fin-IsOk t State.listen e v = v
take_fin-IsOk t State.syn_rcvd e v = v
take_fin-IsOk t State.close_wait e v = v
take_fin-IsOk t State.fin_wait_1 e v = v
take_fin-IsOk t State.last_ack e v = v

recv_fin-IsOk : (t : Tcp) (h : Header) (payload : List ℕ) → IsOk t → IsOk (recv_fin t h payload)
unfolding recv_fin send send_segment
recv_fin-IsOk t h payload v = elim (Bool-cases h.flags.fin) [
  | inr a ↦ rw a v
  | inl a ↦ elim (Bool-cases ((length payload == 0) && not (h.seq == t.rcv_nxt))) [
    | inl b ↦ rw (a, b) v
    | inr b ↦ rw (a, b) (take_fin-IsOk t t.state refl v)
  ]
]

then_fin-IsOk :
    (h : Header) (payload : List ℕ) (p : Progress) → OkProgress p → IsOk (then_fin h payload p)
then_fin-IsOk h payload (Progress.returned t) v = v
then_fin-IsOk h payload (Progress.goes_on t) v = recv_fin-IsOk t h payload v

then_data-IsOk :
    (h : Header) (payload : List ℕ) (p : Progress) → OkProgress p → IsOk (then_data h payload p)
then_data-IsOk h payload (Progress.returned t) v = v
then_data-IsOk h payload (Progress.goes_on t) v =
    then_fin-IsOk h payload (recv_data t h payload) (recv_data-IsOk t h payload v)

pub if-IsOk :
    (x y : Tcp) (b : Bool) → (b ≡ true → IsOk x) → (b ≡ false → IsOk y) → IsOk (if b then x else y)
if-IsOk x y true f g = f refl
if-IsOk x y false f g = g refl

module _ (t : Tcp) (h : Header) (v : IsOk t) (small : h.ack < 2 ^ 32)
    (far : h.ack ≢ add32 t.snd_nxt (2 ^ 31)) where
  recv_connected-IsOk : (src : ℕ) (payload : List ℕ) → IsOk (recv_connected t src h payload)
  unfolding recv_connected send_unacked send send_segment
  recv_connected-IsOk src payload =
      if-IsOk _ _ (not (from_peer t src h)) (λ a. v)
        (λ a.
          if-IsOk _ _ h.flags.rst
            (λ b.
              if-IsOk _ _ (seq_leq t.rcv_nxt h.seq && seq_lt h.seq (add32 t.rcv_nxt 1072))
                (λ c. disconnect-IsOk t) (λ c. v))
            (λ b.
              if-IsOk _ _ (h.flags.syn && is_syn_rcvd t.state) (λ c. v)
                (λ c. then_data-IsOk h payload (recv_ack t h) (recv_ack-IsOk t h v small far))))

  recv_in-IsOk :
      (st : State) (iss src : ℕ) (payload : List ℕ)
      → t.state ≡ st
      → iss < 2 ^ 32
      → IsOk (recv_in st t iss src h payload)
  recv_in-IsOk State.closed iss src payload e i = v
  recv_in-IsOk State.listen iss src payload e i = recv_listen-IsOk t iss src h v e i
  recv_in-IsOk State.syn_rcvd iss src payload e i = recv_connected-IsOk src payload
  recv_in-IsOk State.established iss src payload e i = recv_connected-IsOk src payload
  recv_in-IsOk State.close_wait iss src payload e i = recv_connected-IsOk src payload
  recv_in-IsOk State.fin_wait_1 iss src payload e i = recv_connected-IsOk src payload
  recv_in-IsOk State.fin_wait_2 iss src payload e i = recv_connected-IsOk src payload
  recv_in-IsOk State.last_ack iss src payload e i = recv_connected-IsOk src payload

pub recv-IsOk :
    (t : Tcp) (iss src : ℕ) (seg : List ℕ)
    → IsOk t
    → iss < 2 ^ 32
    → (parse_header seg).ack < 2 ^ 32
    → (parse_header seg).ack ≢ add32 t.snd_nxt (2 ^ 31)
    → IsOk (recv t iss src seg)
unfolding recv
recv-IsOk t iss src seg v i small far =
    let off = (parse_header seg).data_offset * 4 in
    if-IsOk _ _ (ltb off 20 || ltb (length seg) off) (λ a. v)
      (λ a. recv_in-IsOk t (parse_header seg) v small far t.state iss src (drop off seg) refl i)
