-- ===== src/Tcp/Invariant.antt =====
-- What the control block keeps, whatever arrives and whatever is called.

use teatime_os.Base.{
  ℕ, ◌+◌, ◌*◌, ◌^◌, ◌≤◌, ◌<◌, ◌≡◌, ◌≢◌, refl, Bool, true, false, ◌||◌, ◌&&◌, inl, inr, length,
  arith, ◌==◌, if◌then◌else◌, Bool-cases, add32, sub32, ==→eq, subst, sym,
}
use teatime_os.Tcp.Seq.{seq_lt, seq_leq}
use teatime_os.Tcp.State.{State, Header, Tcp, Flags, Event, tell, outstanding, disconnect}
use teatime_os.Tcp.Receive.{Progress, release_sender, advance_state, recv_ack}
use teatime_os.Tcp.Calls.{reset}

-- How many numbers are outstanding in a state, and when a sender may wait.
abbrev pub Awaits : State → ℕ → Bool → Type 0
Awaits State.established out sender = sender ≡ true → 0 < out
Awaits State.close_wait out sender = sender ≡ true → 0 < out
Awaits State.syn_rcvd out sender = (out ≡ 1) × (sender ≡ false)
Awaits State.fin_wait_1 out sender = (out ≡ 1) × (sender ≡ false)
Awaits State.last_ack out sender = (out ≡ 1) × (sender ≡ false)
Awaits _ out sender = (out ≡ 0) × (sender ≡ false)

-- What a segment takes up of the sequence numbers beyond its data.
abbrev pub control_span : Flags → ℕ
control_span f = if f.syn || f.fin then 1 else 0

pub record Fits (st : State) (una nxt rcv : ℕ) (f : Flags) (len retries rto : ℕ) (sender : Bool)
    (head tail : ℕ) : Type 0 where
  pub una_word : una < 2 ^ 32
  pub nxt_word : nxt < 2 ^ 32
  pub rcv_word : rcv < 2 ^ 32
  pub awaits : Awaits st (sub32 nxt una) sender
  pub span : sub32 nxt una ≤ len + control_span f
  pub segment : len ≤ 536
  pub few : retries ≤ 5
  pub backoff : rto ≤ 1000 * 2 ^ retries
  pub head_word : head < 2 ^ 32
  pub tail_word : tail < 2 ^ 32
  pub buffered : sub32 head tail ≤ 2048

abbrev pub IsOk : Tcp → Type 0
IsOk t =
    Fits t.state t.snd_una t.snd_nxt t.rcv_nxt t.tx_flags (length t.tx_data) t.retries t.rto
      t.sender t.ring.rx_head t.ring.rx_tail

pub reset-IsOk : IsOk reset
unfolding reset
reset-IsOk = record {
  una_word = omega arith;
  nxt_word = omega arith;
  rcv_word = omega arith;
  awaits = (refl, refl);
  span = omega arith;
  segment = omega arith;
  few = omega arith;
  backoff = omega arith;
  head_word = omega arith;
  tail_word = omega arith;
  buffered = omega arith;
}

pub disconnect-IsOk : (t : Tcp) → IsOk (disconnect t)
unfolding disconnect reset
disconnect-IsOk t = reset-IsOk

abbrev pub OkProgress : Progress → Type 0
OkProgress (Progress.returned t) = IsOk t
OkProgress (Progress.goes_on t) = IsOk t

-- A valid acknowledgement leaves no more outstanding than there was, unless it lies half the
-- number space away.
ack_shrinks :
    (una nxt ack : ℕ)
    → una < 2 ^ 32
    → nxt < 2 ^ 32
    → ack < 2 ^ 32
    → sub32 nxt una < 2 ^ 31
    → seq_lt una ack ≡ true
    → seq_leq ack nxt ≡ true
    → ack ≢ add32 nxt (2 ^ 31)
    → sub32 nxt ack < sub32 nxt una
ack_shrinks una nxt ack hu hn ha small l r far = ground arith

Awaits-less :
    (st : State) (old out : ℕ) (s : Bool) → out < old → 0 < out → Awaits st old s → Awaits st out s
Awaits-less State.established old out s lt pos a = λ e. pos
Awaits-less State.close_wait old out s lt pos a = λ e. pos
Awaits-less State.syn_rcvd old out s lt pos a = absurd (omega (arith, a.0))
Awaits-less State.fin_wait_1 old out s lt pos a = absurd (omega (arith, a.0))
Awaits-less State.last_ack old out s lt pos a = absurd (omega (arith, a.0))
Awaits-less State.closed old out s lt pos a = absurd (omega (arith, a.0))
Awaits-less State.listen old out s lt pos a = absurd (omega (arith, a.0))
Awaits-less State.fin_wait_2 old out s lt pos a = absurd (omega (arith, a.0))

-- Fit for any state that waits for nothing.
abbrev Ready : Tcp → Type 0
Ready t =
    (st : State)
    → Awaits st 0 false
    → Fits st t.snd_una t.snd_nxt t.rcv_nxt t.tx_flags (length t.tx_data) t.retries t.rto t.sender
        t.ring.rx_head t.ring.rx_tail

release_sender-Ready : (t : Tcp) → Ready (record t { sender = false }) → Ready (release_sender t)
unfolding release_sender
release_sender-Ready t r = choose t.sender refl
  where
    choose :
        (b : Bool)
        → t.sender ≡ b
        → Ready (
            if b
            then tell (record t { sender = false; send_failed = false }) Event.conn_broadcast
            else t)
    choose true e = r
    choose false e = subst (λ s. Ready (record t { sender = s })) (sym e) r

release_sender-state : (t : Tcp) → (release_sender t).state ≡ t.state
unfolding release_sender
release_sender-state t = ground arith

advance_state-IsOk :
    (t : Tcp) (st : State) → t.state ≡ st → Ready t → OkProgress (advance_state t st)
unfolding advance_state
advance_state-IsOk t State.syn_rcvd e r = r State.established (λ g. absurd (cc g))
advance_state-IsOk t State.fin_wait_1 e r = r State.fin_wait_2 (refl, refl)
advance_state-IsOk t State.last_ack e r = disconnect-IsOk t
advance_state-IsOk t State.established e r = rw e (r State.established (λ g. absurd (cc g)))
advance_state-IsOk t State.close_wait e r = rw e (r State.close_wait (λ g. absurd (cc g)))
advance_state-IsOk t State.closed e r = rw e (r State.closed (refl, refl))
advance_state-IsOk t State.listen e r = rw e (r State.listen (refl, refl))
advance_state-IsOk t State.fin_wait_2 e r = rw e (r State.fin_wait_2 (refl, refl))

-- Everything is acknowledged.
all_acked-Ready :
    (t : Tcp) (ack : ℕ)
    → IsOk t
    → ack ≡ t.snd_nxt
    → Ready (record t { snd_una = ack; sender = false })
all_acked-Ready t ack v e st a =
    let none_out : sub32 t.snd_nxt ack ≡ 0 = omega (arith, e, v.nxt_word) in
    record {
      una_word = omega (arith, e, v.nxt_word);
      nxt_word = v.nxt_word;
      rcv_word = v.rcv_word;
      awaits = rw none_out a;
      span = omega (arith, none_out);
      segment = v.segment;
      few = v.few;
      backoff = v.backoff;
      head_word = v.head_word;
      tail_word = v.tail_word;
      buffered = v.buffered;
    }

some_acked-IsOk :
    (t : Tcp) (ack : ℕ)
    → IsOk t
    → ack < 2 ^ 32
    → ack ≢ t.snd_nxt
    → sub32 t.snd_nxt ack < outstanding t
    → IsOk (record t { snd_una = ack })
some_acked-IsOk t ack v small ne less = record {
  una_word = small;
  nxt_word = v.nxt_word;
  rcv_word = v.rcv_word;
  awaits =
      Awaits-less t.state (outstanding t) (sub32 t.snd_nxt ack) t.sender less
        (pos_out t.snd_nxt ack v.nxt_word small ne) v.awaits;
  span = omega (arith, less, v.span);
  segment = v.segment;
  few = v.few;
  backoff = v.backoff;
  head_word = v.head_word;
  tail_word = v.tail_word;
  buffered = v.buffered;
}
  where
    pos_out : (nxt ack : ℕ) → nxt < 2 ^ 32 → ack < 2 ^ 32 → ack ≢ nxt → 0 < sub32 nxt ack
    pos_out nxt ack h g ne = grind arith

control_span_le : (f : Flags) → control_span f ≤ 1
control_span_le f = ground arith

pub recv_ack-IsOk :
    (t : Tcp) (h : Header)
    → IsOk t
    → h.ack < 2 ^ 32
    → h.ack ≢ add32 t.snd_nxt (2 ^ 31)
    → OkProgress (recv_ack t h)
unfolding recv_ack
recv_ack-IsOk t h v small far =
    elim (Bool-cases (h.flags.ack && seq_lt t.snd_una h.ack && seq_leq h.ack t.snd_nxt)) [
      | inl e ↦ elim (Bool-cases (h.ack == t.snd_nxt)) [
        | inl g ↦
            rw (e, g)
              (advance_state-IsOk
                (release_sender (tell (record t { snd_una = h.ack }) Event.rto_signal)) t.state
                (release_sender-state (tell (record t { snd_una = h.ack }) Event.rto_signal))
                (release_sender-Ready (tell (record t { snd_una = h.ack }) Event.rto_signal)
                  (all_acked-Ready t h.ack v (==→eq h.ack t.snd_nxt g))))
        | inr g ↦
            rw (e, g)
              (some_acked-IsOk t h.ack v small (ground (arith, g)) (
                ack_shrinks t.snd_una t.snd_nxt h.ack v.una_word v.nxt_word small
                  (omega (arith, v.span, v.segment, control_span_le t.tx_flags)) (ground (arith, e))
                  (ground (arith, e)) far))
      ]
      | inr e ↦ rw e v
    ]
