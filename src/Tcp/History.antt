-- ===== src/Tcp/History.antt =====
-- Every order of segments, calls and timeouts.
use native.Mathlib.Nat.{pow-suc}
use teatime_os.Base.{
  ℕ, zero, suc, ap, ◌+◌, ◌*◌, ◌%◌, ◌^◌, ◌≤◌, ◌<◌, ◌≡◌, ◌≢◌, refl, sym, subst, Bool, true, false,
  not, ◌||◌, ◌&&◌, inl, inr, Option, none, some, List, length, arith, leb, ◌==◌, if◌then◌else◌,
  Bool-cases, add32, sub32,
}
use teatime_os.Tcp.Ring.{rx_get, smaller}
use teatime_os.Tcp.State.{
  State, Tcp, connected, outstanding, is_established, is_close_wait, is_closed, send, send_segment,
  send_unacked, send_new, disconnect, parse_header, flags_psh_ack, flags_fin_ack,
}
use teatime_os.Tcp.Receive.{recv}
use teatime_os.Tcp.Calls.{
  send_data, ReadResult, read, begin_close, listen_on, accept, stop, stop_in, timer_expired, reset,
}
use teatime_os.Tcp.Invariant.{Awaits, Fits, IsOk, disconnect-IsOk, reset-IsOk}
use teatime_os.Tcp.Steps.{with_state, with_ring, recv-IsOk}

abbrev after_send : Tcp → Option Tcp → Tcp
after_send t none = t
after_send t (some t') = t'

abbrev after_read : Tcp → ReadResult → Tcp
after_read t (ReadResult.got t' bytes) = t'
after_read t _ = t

-- What happens while the mutex is held. A peer's acknowledgement is a 32-bit word and not exactly
-- half the number space away; a piece that is sent is not empty and at most TCP_MSS bytes long.
pub data Step (t : Tcp) : Tcp → Type 0 where
  receives :
      (iss src : ℕ) (seg : List ℕ)
      → iss < 2 ^ 32
      → (parse_header seg).ack < 2 ^ 32
      → (parse_header seg).ack ≢ add32 t.snd_nxt (2 ^ 31)
      → Step t (recv t iss src seg)
  sends :
      (buf : List ℕ) → 0 < length buf → length buf ≤ 536 → Step t (after_send t (send_data t buf))
  reads : (n : ℕ) → Step t (after_read t (read t n))
  closes : Step t (begin_close t)
  close_expires : Step t (disconnect t)
  listens : (port : ℕ) → Step t (listen_on t port).0
  accepts : Step t (accept t).0
  stops : Step t (stop t).0
  times_out : Step t (timer_expired t)

pub data Reach : Tcp → Type 0 where
  starts : Reach reset
  next : {t u : Tcp} → Reach t → Step t u → Reach u

-- A connected process has something outstanding while its sender waits.
no_sender :
    (st : State) (out : ℕ) (s : Bool)
    → (is_established st || is_close_wait st) ≡ true
    → out ≡ 0
    → Awaits st out s
    → s ≡ false
no_sender State.established out false c z a = refl
no_sender State.established out true c z a = absurd (omega (arith, a refl))
no_sender State.close_wait out false c z a = refl
no_sender State.close_wait out true c z a = absurd (omega (arith, a refl))
no_sender State.syn_rcvd out s c z a = a.1
no_sender State.fin_wait_1 out s c z a = a.1
no_sender State.last_ack out s c z a = a.1
no_sender State.closed out s c z a = a.1
no_sender State.listen out s c z a = a.1
no_sender State.fin_wait_2 out s c z a = a.1

all_out : (nxt una : ℕ) → nxt ≡ una → una < 2 ^ 32 → sub32 nxt una ≡ 0
all_out nxt una e h = omega arith

newly_out : (nxt una n : ℕ) → una ≡ nxt → una < 2 ^ 32 → n < 2 ^ 32 → sub32 (add32 nxt n) una ≡ n
newly_out nxt una n e h g = omega arith

sending :
    (st : State) (out : ℕ)
    → (is_established st || is_close_wait st) ≡ true
    → 0 < out
    → Awaits st out true
sending State.established out c h = λ e. h
sending State.close_wait out c h = λ e. h
sending State.syn_rcvd out c h = absurd (cc c)
sending State.fin_wait_1 out c h = absurd (cc c)
sending State.last_ack out c h = absurd (cc c)
sending State.closed out c h = absurd (cc c)
sending State.listen out c h = absurd (cc c)
sending State.fin_wait_2 out c h = absurd (cc c)

send_data-IsOk :
    (t : Tcp) (buf : List ℕ)
    → IsOk t
    → 0 < length buf
    → length buf ≤ 536
    → IsOk (after_send t (send_data t buf))
unfolding send_data send_new send_unacked send send_segment
send_data-IsOk t buf v pos small =
    elim (Bool-cases (not (connected t) || not (t.snd_una == t.snd_nxt))) [
      | inl a ↦ rw a v
      | inr a ↦
          let e : t.snd_una ≡ t.snd_nxt = ground (arith, a) in
          let out : sub32 (add32 t.snd_nxt (length buf)) t.snd_una ≡ length buf =
            newly_out t.snd_nxt t.snd_una (length buf) e v.una_word (omega arith) in
          let fresh : Fits t.state t.snd_una (add32 t.snd_nxt (length buf)) t.rcv_nxt flags_psh_ack
              (length buf) 0 1000 true t.ring.rx_head t.ring.rx_tail =
            record {
              una_word = v.una_word;
              nxt_word = omega arith;
              rcv_word = v.rcv_word;
              awaits =
                  sending t.state (sub32 (add32 t.snd_nxt (length buf)) t.snd_una)
                    (ground (arith, a)) (omega (arith, out, pos));
              span = omega (arith, out);
              segment = small;
              few = omega arith;
              backoff = omega arith;
              head_word = v.head_word;
              tail_word = v.tail_word;
              buffered = v.buffered;
            } in
          rw a fresh
    ]

get_bound :
    (head tail n : ℕ)
    → head < 2 ^ 32
    → tail < 2 ^ 32
    → sub32 head tail ≤ 2048
    → sub32 head (add32 tail (smaller n (sub32 head tail))) ≤ 2048
get_bound head tail n a b c = ground arith

read-IsOk : (t : Tcp) (n : ℕ) → IsOk t → IsOk (after_read t (read t n))
unfolding read rx_get
read-IsOk t n v = elim (Bool-cases (t.ring.rx_head == t.ring.rx_tail)) [
  | inr a ↦ rw a (
      with_ring t (rx_get t.ring n).0 v.head_word (omega arith)
        (get_bound t.ring.rx_head t.ring.rx_tail n v.head_word v.tail_word v.buffered) v)
  | inl a ↦ elim (Bool-cases t.rx_eof) [
    | inl b ↦ rw (a, b) v
    | inr b ↦ elim (Bool-cases (is_closed t.state)) [
      | inl c ↦ rw (a, b, c) v
      | inr c ↦ rw (a, b, c) v
    ]
  ]
]

closing :
    (b : Bool) (out : ℕ) (s : Bool)
    → out ≡ 1
    → s ≡ false
    → Awaits (if b then State.fin_wait_1 else State.last_ack) out s
closing true out s e f = (e, f)
closing false out s e f = (e, f)

begin_close-IsOk : (t : Tcp) → IsOk t → IsOk (begin_close t)
unfolding begin_close send_new send_unacked send send_segment
begin_close-IsOk t v =
    let none_left : sub32 t.ring.rx_head t.ring.rx_head ≤ 2048 = omega (arith, v.head_word) in
    let v' =
      with_ring t (record t.ring { rx_tail = t.ring.rx_head }) v.head_word v.head_word none_left
        v in
    elim (Bool-cases (connected t && (t.snd_una == t.snd_nxt))) [
      | inl a ↦
          let e : t.snd_una ≡ t.snd_nxt = ground (arith, a) in
          let one : sub32 (add32 t.snd_nxt 1) t.snd_una ≡ 1 =
            newly_out t.snd_nxt t.snd_una 1 e v.una_word (omega arith) in
          let quiet : t.sender ≡ false =
            no_sender t.state (outstanding t) t.sender (ground (arith, a))
              (all_out t.snd_nxt t.snd_una (sym e) v.una_word) v.awaits in
          let fresh : Fits (if is_established t.state then State.fin_wait_1 else State.last_ack)
              t.snd_una (add32 t.snd_nxt 1) t.rcv_nxt flags_fin_ack 0 0 1000 t.sender t.ring.rx_head
              t.ring.rx_head =
            record {
              una_word = v.una_word;
              nxt_word = omega arith;
              rcv_word = v.rcv_word;
              awaits =
                  closing (is_established t.state) (sub32 (add32 t.snd_nxt 1) t.snd_una) t.sender
                    one quiet;
              span = omega (arith, one);
              segment = omega arith;
              few = omega arith;
              backoff = omega arith;
              head_word = v.head_word;
              tail_word = v.head_word;
              buffered = none_left;
            } in
          rw a fresh
      | inr a ↦ rw a v'
    ]

stop-IsOk : (t : Tcp) (st : State) → t.state ≡ st → IsOk t → IsOk (stop_in st t).0
stop-IsOk t State.closed e v =
    with_state t State.closed (subst (λ s. Awaits s (outstanding t) t.sender) e v.awaits) v
stop-IsOk t State.listen e v =
    with_state t State.closed (subst (λ s. Awaits s (outstanding t) t.sender) e v.awaits) v
stop-IsOk t State.syn_rcvd e v = v
stop-IsOk t State.established e v = v
stop-IsOk t State.close_wait e v = v
stop-IsOk t State.fin_wait_1 e v = v
stop-IsOk t State.fin_wait_2 e v = v
stop-IsOk t State.last_ack e v = v

accept-IsOk : (t : Tcp) → IsOk t → IsOk (accept t).0
unfolding accept
accept-IsOk t v = elim (Bool-cases (connected t)) [
  | inl a ↦ rw a v
  | inr a ↦ elim (Bool-cases (is_closed t.state)) [
    | inl b ↦
        rw (a, b)
          (with_state t State.listen (listening t.state (outstanding t) t.sender b v.awaits) v)
    | inr b ↦ rw (a, b) v
  ]
]
  where
    listening :
        (st : State) (out : ℕ) (s : Bool)
        → is_closed st ≡ true
        → Awaits st out s
        → Awaits State.listen out s
    listening State.closed out s e a = a
    listening State.listen out s e a = absurd (cc e)
    listening State.syn_rcvd out s e a = absurd (cc e)
    listening State.established out s e a = absurd (cc e)
    listening State.close_wait out s e a = absurd (cc e)
    listening State.fin_wait_1 out s e a = absurd (cc e)
    listening State.fin_wait_2 out s e a = absurd (cc e)
    listening State.last_ack out s e a = absurd (cc e)

listen_on-IsOk : (t : Tcp) (port : ℕ) → IsOk t → IsOk (listen_on t port).0
unfolding listen_on
listen_on-IsOk t port v = elim (Bool-cases (t.port == 0)) [ inl a ↦ rw a v | inr a ↦ rw a v ]

next_retry : (n : ℕ) → n + 1 ≡ suc n
next_retry n = omega arith

timer_expired-IsOk : (t : Tcp) → IsOk t → IsOk (timer_expired t)
unfolding timer_expired send_unacked send send_segment
timer_expired-IsOk t v = elim (Bool-cases (leb 5 t.retries)) [
  | inl a ↦ rw a (disconnect-IsOk t)
  | inr a ↦
      let again : Fits t.state t.snd_una t.snd_nxt t.rcv_nxt t.tx_flags (length t.tx_data)
          (t.retries + 1) (t.rto * 2 % 2 ^ 32) t.sender t.ring.rx_head t.ring.rx_tail =
        record {
          una_word = v.una_word;
          nxt_word = v.nxt_word;
          rcv_word = v.rcv_word;
          awaits = v.awaits;
          span = v.span;
          segment = v.segment;
          few = ground (arith, a);
          backoff =
              omega (arith, v.backoff, pow-suc 2 t.retries, ap (λ k. 2 ^ k) (next_retry t.retries));
          head_word = v.head_word;
          tail_word = v.tail_word;
          buffered = v.buffered;
        } in
      rw a again
]

pub Step-IsOk : {t u : Tcp} → Step t u → IsOk t → IsOk u
unfolding stop
Step-IsOk {t} (receives iss src seg i small far) v = recv-IsOk t iss src seg v i small far
Step-IsOk {t} (sends buf pos small) v = send_data-IsOk t buf v pos small
Step-IsOk {t} (reads n) v = read-IsOk t n v
Step-IsOk {t} closes v = begin_close-IsOk t v
Step-IsOk {t} close_expires v = disconnect-IsOk t
Step-IsOk {t} (listens port) v = listen_on-IsOk t port v
Step-IsOk {t} accepts v = accept-IsOk t v
Step-IsOk {t} stops v = stop-IsOk t t.state refl v
Step-IsOk {t} times_out v = timer_expired-IsOk t v

backoff_le : (retries : ℕ) → retries ≤ 5 → 2 ^ retries ≤ 32
backoff_le zero h = omega arith
backoff_le (suc zero) h = omega arith
backoff_le (suc (suc zero)) h = omega arith
backoff_le (suc (suc (suc zero))) h = omega arith
backoff_le (suc (suc (suc (suc zero)))) h = omega arith
backoff_le (suc (suc (suc (suc (suc zero))))) h = omega arith
backoff_le (suc (suc (suc (suc (suc (suc n)))))) h = absurd (omega arith)

-- Whatever segments, calls and timeouts come, in any order, the peer's acknowledgements never half
-- the number space away: in each state as many sequence numbers are outstanding as the state says
-- (one while a SYN or FIN waits, none in CLOSED, LISTEN and FIN_WAIT_2), they are no more than what
-- is kept for a resend, a waiting sender has something outstanding, at most 2048 bytes are
-- buffered, and the timeout stays at or below 32 seconds, far from the bound 2 ^ 31 of the sleep
-- list.
pub tcp_history-IsOk : {t : Tcp} → Reach t → IsOk t × (t.rto ≤ 32000)
tcp_history-IsOk r = let v = sound r in (v, omega (arith, v.backoff, backoff_le _ v.few))
  where
    sound : {t : Tcp} → Reach t → IsOk t
    sound starts = reset-IsOk
    sound (next r st) = Step-IsOk st (sound r)
