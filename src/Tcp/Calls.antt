-- ===== src/Tcp/Calls.antt =====
-- What the two devices and the timer process do while they hold the mutex, up to where they block.
use teatime_os.Base.{
  ℕ, zero, suc, ◌+◌, ◌*◌, ◌%◌, ◌^◌, Bool, true, false, not, ◌||◌, ◌&&◌, Option, none, some, List,
  [], ◌∷◌, length, take, drop, leb, ◌==◌, if◌then◌else◌, add32,
}
use teatime_os.Tcp.Ring.{rx_get}
use teatime_os.Tcp.State.{
  State, Tcp, is_closed, is_established, connected, flags_psh_ack, flags_fin_ack, no_flags,
  send_unacked, send_new, disconnect,
}

-- `send_data` up to its wait: none where it returns -1 at once.
unfoldable pub send_data : Tcp → List ℕ → Option Tcp
unfolding send_new
send_data t buf =
    if not (connected t) || not (t.snd_una == t.snd_nxt)
    then none
    else some (
        send_new (record t { sender = true; snd_nxt = add32 t.snd_nxt (length buf) }) flags_psh_ack
          buf)

-- The pieces that the loop of `tcp_conn_write` hands to `send_data`.
unfoldable pub chunks : ℕ → List ℕ → List (List ℕ)
chunks zero buf = []
chunks (suc rounds) buf =
    let rest = chunks rounds (drop 536 buf) in if length buf == 0 then [] else take 536 buf ∷ rest

-- `tcp_conn_read` under its mutex: it waits, or returns bytes, 0 at the end, or -1.
pub data ReadResult : Type 0 where
  waits ended gone : ReadResult
  got : Tcp → List ℕ → ReadResult

unfoldable pub read : Tcp → ℕ → ReadResult
unfolding rx_get
read t n =
    if not (t.ring.rx_head == t.ring.rx_tail)
    then (let o = rx_get t.ring n in ReadResult.got (record t { ring = o.0 }) o.1)
    else if t.rx_eof
    then ReadResult.ended
    else if is_closed t.state
    then ReadResult.gone
    else ReadResult.waits

-- `tcp_conn_close` up to its wait.
unfoldable pub begin_close : Tcp → Tcp
unfolding send_new
begin_close t =
    let t' = record t { ring = record t.ring { rx_tail = t.ring.rx_head } } in
    if connected t' && (t'.snd_una == t'.snd_nxt)
    then send_new
        (record t' {
          state = if is_established t'.state then State.fin_wait_1 else State.last_ack;
          snd_nxt = add32 t'.snd_nxt 1;
        })
        flags_fin_ack []
    else t'

-- TCP_LISTEN, with whether it succeeds.
unfoldable pub listen_on : Tcp → ℕ → Tcp × Bool
listen_on t port = if t.port == 0 then (record t { port = port % 2 ^ 16 }, true) else (t, false)

-- A round of TCP_ACCEPT's loop: whether a connection is there, or what it leaves when it waits.
unfoldable pub accept : Tcp → Tcp × Bool
accept t =
    if connected t
    then (t, true)
    else if is_closed t.state
    then (record t { state = State.listen }, false)
    else (t, false)

-- TCP_ACCEPT fails if nothing listens; else its first round follows. Later rounds do not test that again.
unfoldable pub accept_call : Tcp → Option (Tcp × Bool)
unfolding accept
accept_call t = if t.port == 0 then none else some (accept t)

abbrev pub stop_in : State → Tcp → Tcp × Bool
stop_in State.closed t = (record t { state = State.closed; port = 0 }, true)
stop_in State.listen t = (record t { state = State.closed; port = 0 }, true)
stop_in _ t = (t, false)

-- `tcp_close`, with whether it succeeds.
unfoldable pub stop : Tcp → Tcp × Bool
stop t = stop_in t.state t

-- The timer process, when its wait for the retransmission timeout has timed out.
unfoldable pub timer_expired : Tcp → Tcp
unfolding send_unacked disconnect
timer_expired t =
    if leb 5 t.retries
    then disconnect t
    else send_unacked (record t { retries = t.retries + 1; rto = t.rto * 2 % 2 ^ 32 })

-- The control block before the first call: all zero.
unfoldable pub reset : Tcp
reset = record {
  port = 0;
  state = State.closed;
  remote_port = 0;
  remote_ip = 0;
  snd_una = 0;
  snd_nxt = 0;
  rcv_nxt = 0;
  tx_flags = no_flags;
  tx_data = [];
  retries = 0;
  rto = 0;
  sender = false;
  send_failed = false;
  rx_eof = false;
  ring = record { rx_head = 0; rx_tail = 0; bytes = λ _. 0 };
  events = [];
}
