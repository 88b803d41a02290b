-- ===== src/Tcp/Receive.antt =====
-- `recv`: what a received segment does.
use teatime_os.Base.{
  ℕ, ◌*◌, Bool, true, false, not, ◌||◌, ◌&&◌, List, [], length, drop, ltb, ◌==◌, if◌then◌else◌,
  add32,
}
use teatime_os.Tcp.Seq.{seq_lt, seq_leq}
use teatime_os.Tcp.Ring.{rx_room, rx_put}
use teatime_os.Tcp.State.{
  State, Header, Tcp, Event, tell, is_syn_rcvd, is_established, flag_ack, flags_syn_ack,
  parse_header, send_rst, send, send_unacked, send_new, disconnect,
}

-- A phase of `recv` either returns from it or goes on.
pub data Progress : Type 0 where
  returned goes_on : Tcp → Progress

unfoldable pub recv_listen : Tcp → ℕ → ℕ → Header → Tcp
unfolding send_new send_rst
recv_listen t iss src h =
    if not (h.dst_port == t.port)
    then t
    else if h.flags.rst
    then t
    else if h.flags.syn && not h.flags.ack
    then (send_new
        (record t {
          remote_ip = src;
          remote_port = h.src_port;
          rcv_nxt = add32 h.seq 1;
          snd_una = iss;
          snd_nxt = add32 iss 1;
          state = State.syn_rcvd;
        })
        flags_syn_ack [])
    else if h.flags.ack
    then send_rst t src t.port h.src_port h.ack
    else t

-- All that was sent is acknowledged: the sender is told.
unfoldable pub release_sender : Tcp → Tcp
release_sender t =
    if t.sender
    then tell (record t { sender = false; send_failed = false }) Event.conn_broadcast
    else t

unfoldable pub advance_state : Tcp → State → Progress
unfolding disconnect
advance_state t State.syn_rcvd =
    Progress.goes_on (tell (record t { state = State.established }) Event.listener_broadcast)
advance_state t State.fin_wait_1 = Progress.goes_on (record t { state = State.fin_wait_2 })
advance_state t State.last_ack = Progress.returned (disconnect t)
advance_state t _ = Progress.goes_on t

unfoldable pub recv_ack : Tcp → Header → Progress
unfolding release_sender advance_state
recv_ack t h =
    if h.flags.ack && seq_lt t.snd_una h.ack && seq_leq h.ack t.snd_nxt
    then (let t' = record t { snd_una = h.ack } in
        if h.ack == t.snd_nxt
        then advance_state (release_sender (tell t' Event.rto_signal)) t.state
        else Progress.goes_on t')
    else Progress.goes_on t

-- After our FIN nobody reads, so the data is acknowledged but not buffered.
unfoldable pub accept_data : Tcp → List ℕ → Tcp
unfolding rx_put
accept_data t payload = record t {
  rcv_nxt = add32 t.rcv_nxt (length payload);
  ring = if is_established t.state then rx_put t.ring payload else t.ring;
}

unfoldable pub recv_data : Tcp → Header → List ℕ → Progress
unfolding accept_data send rx_room
recv_data t h payload =
    if length payload == 0
    then Progress.goes_on t
    else if not (h.seq == t.rcv_nxt) || ltb (rx_room t.ring) (length payload)
    then Progress.returned (send t t.snd_nxt flag_ack [])
    else (let t' = accept_data t payload in
        Progress.goes_on (tell (send t' t'.snd_nxt flag_ack []) Event.conn_broadcast))

unfoldable pub take_fin : Tcp → State → Tcp
unfolding send disconnect
take_fin t State.established =
    let t' = record t { rcv_nxt = add32 t.rcv_nxt 1 } in
    tell (record (send t' t'.snd_nxt flag_ack []) { state = State.close_wait; rx_eof = true })
      Event.conn_broadcast
take_fin t State.fin_wait_2 =
    let t' = record t { rcv_nxt = add32 t.rcv_nxt 1 } in disconnect (send t' t'.snd_nxt flag_ack [])
take_fin t _ = t

unfoldable pub recv_fin : Tcp → Header → List ℕ → Tcp
unfolding take_fin
recv_fin t h payload =
    if h.flags.fin
    then (if (length payload == 0) && not (h.seq == t.rcv_nxt)
        then send t t.snd_nxt flag_ack []
        else take_fin t t.state)
    else t

abbrev pub then_fin : Header → List ℕ → Progress → Tcp
then_fin h payload (Progress.returned t) = t
then_fin h payload (Progress.goes_on t) = recv_fin t h payload

abbrev pub then_data : Header → List ℕ → Progress → Tcp
then_data h payload (Progress.returned t) = t
then_data h payload (Progress.goes_on t) = then_fin h payload (recv_data t h payload)

abbrev pub from_peer : Tcp → ℕ → Header → Bool
from_peer t src h = (src == t.remote_ip) && (h.src_port == t.remote_port) && (h.dst_port == t.port)

unfoldable pub recv_connected : Tcp → ℕ → Header → List ℕ → Tcp
unfolding recv_ack recv_data recv_fin
recv_connected t src h payload =
    if not (from_peer t src h)
    then t
    else if h.flags.rst
    then (if seq_leq t.rcv_nxt h.seq && seq_lt h.seq (add32 t.rcv_nxt 1072)
        then disconnect t
        else t)
    else if h.flags.syn && is_syn_rcvd t.state
    then send_unacked t
    else then_data h payload (recv_ack t h)

abbrev pub recv_in : State → Tcp → ℕ → ℕ → Header → List ℕ → Tcp
recv_in State.closed t iss src h payload = t
recv_in State.listen t iss src h payload = recv_listen t iss src h
recv_in _ t iss src h payload = recv_connected t src h payload

-- `iss` is what rng_read would give.
unfoldable pub recv : Tcp → ℕ → ℕ → List ℕ → Tcp
unfolding recv_listen recv_connected parse_header
recv t iss src seg =
    let h = parse_header seg in
    let dataoff = h.data_offset * 4 in
    if ltb dataoff 20 || ltb (length seg) dataoff
    then t
    else recv_in t.state t iss src h (drop dataoff seg)
