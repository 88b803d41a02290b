-- ===== src/Tcp/State.antt =====
-- The control block, and what it sends.
use teatime_os.Base.{
  ℕ, ◌-◌, ◌/◌, Bool, true, false, ◌||◌, List, [], ◌∷◌, length, drop, word16, word32, byte, bit, ltb,
  if◌then◌else◌, sub32,
}
use teatime_os.Tcp.Ring.{Ring, rx_room}

pub data State : Type 0 where
  closed listen syn_rcvd established close_wait fin_wait_1 fin_wait_2 last_ack : State

abbrev pub is_closed : State → Bool
is_closed State.closed = true
is_closed _ = false

abbrev pub is_syn_rcvd : State → Bool
is_syn_rcvd State.syn_rcvd = true
is_syn_rcvd _ = false

abbrev pub is_established : State → Bool
is_established State.established = true
is_established _ = false

abbrev pub is_close_wait : State → Bool
is_close_wait State.close_wait = true
is_close_wait _ = false

-- The flag bits of a header.
pub record Flags : Type 0 where
  pub fin : Bool
  pub syn : Bool
  pub rst : Bool
  pub psh : Bool
  pub ack : Bool

abbrev pub no_flags : Flags
no_flags = record { fin = false; syn = false; rst = false; psh = false; ack = false }

abbrev pub flag_ack : Flags
flag_ack = record no_flags { ack = true }

abbrev pub flag_rst : Flags
flag_rst = record no_flags { rst = true }

abbrev pub flags_syn_ack : Flags
flags_syn_ack = record flag_ack { syn = true }

abbrev pub flags_fin_ack : Flags
flags_fin_ack = record flag_ack { fin = true }

abbrev pub flags_psh_ack : Flags
flags_psh_ack = record flag_ack { psh = true }

-- What the header of a received segment says.
pub record Header : Type 0 where
  pub src_port : ℕ
  pub dst_port : ℕ
  pub seq : ℕ
  pub ack : ℕ
  pub data_offset : ℕ
  pub flags : Flags

unfoldable pub parse_flags : ℕ → Flags
parse_flags b = record {
  fin = bit b 1;
  syn = bit b 2;
  rst = bit b 4;
  psh = bit b 8;
  ack = bit b 16;
}

-- The packed struct tcp_header, in network byte order.
unfoldable pub parse_header : List ℕ → Header
unfolding parse_flags
parse_header seg = record {
  src_port = word16 seg 0;
  dst_port = word16 seg 2;
  seq = word32 seg 4;
  ack = word32 seg 8;
  data_offset = byte seg 12 / 16;
  flags = parse_flags (byte seg 13);
}

-- A segment that is handed to the network layer.
pub record Segment : Type 0 where
  pub dst : ℕ
  pub src_port : ℕ
  pub dst_port : ℕ
  pub seq : ℕ
  pub ack : ℕ
  pub flags : Flags
  pub window : ℕ
  pub payload : List ℕ

-- What the outside sees.
pub data Event : Type 0 where
  sent : Segment → Event
  rto_signal conn_broadcast listener_broadcast : Event

-- `listener.port`, the fields of `tcp_ctrl` and the ring; `tx_data` with `tx_len` is a list. The
-- last event stands first.
pub record Tcp : Type 0 where
  pub port : ℕ
  pub state : State
  pub remote_port : ℕ
  pub remote_ip : ℕ
  pub snd_una : ℕ
  pub snd_nxt : ℕ
  pub rcv_nxt : ℕ
  pub tx_flags : Flags
  pub tx_data : List ℕ
  pub retries : ℕ
  pub rto : ℕ
  pub sender : Bool
  pub send_failed : Bool
  pub rx_eof : Bool
  pub ring : Ring
  pub events : List Event

abbrev pub tell : Tcp → Event → Tcp
tell t e = record t { events = e ∷ t.events }

abbrev pub connected : Tcp → Bool
connected t = is_established t.state || is_close_wait t.state

abbrev pub window_of : Tcp → ℕ
window_of t = if ltb (rx_room t.ring) 1072 then rx_room t.ring else 1072

unfoldable pub send_segment : Tcp → ℕ → ℕ → ℕ → ℕ → ℕ → Flags → List ℕ → Tcp
unfolding rx_room
send_segment t dst src_port dst_port seq ack flags payload = tell t (
    Event.sent (record {
      dst = dst;
      src_port = src_port;
      dst_port = dst_port;
      seq = seq;
      ack = ack;
      flags = flags;
      window = window_of t;
      payload = payload;
    }))

unfoldable pub send_rst : Tcp → ℕ → ℕ → ℕ → ℕ → Tcp
unfolding send_segment
send_rst t dst src_port dst_port seq = send_segment t dst src_port dst_port seq 0 flag_rst []

unfoldable pub send : Tcp → ℕ → Flags → List ℕ → Tcp
unfolding send_segment
send t seq flags payload =
    send_segment t t.remote_ip t.port t.remote_port seq t.rcv_nxt flags payload

abbrev pub outstanding : Tcp → ℕ
outstanding t = sub32 t.snd_nxt t.snd_una

unfoldable pub send_unacked : Tcp → Tcp
unfolding send
send_unacked t =
    let acked =
      if ltb (outstanding t) (length t.tx_data) then length t.tx_data - outstanding t else 0 in
    send t t.snd_una t.tx_flags (drop acked t.tx_data)

unfoldable pub send_new : Tcp → Flags → List ℕ → Tcp
unfolding send_unacked
send_new t flags payload =
    tell (send_unacked (record t { tx_flags = flags; tx_data = payload; retries = 0; rto = 1000 }))
      Event.rto_signal

-- The memset of `tcp_ctrl`: the ring's bytes lie outside of it.
unfoldable pub disconnect : Tcp → Tcp
disconnect t = record t {
  state = State.closed;
  remote_port = 0;
  remote_ip = 0;
  snd_una = 0;
  snd_nxt = 0;
  rcv_nxt = 0;
  tx_flags = no_flags;
  tx_data = [];
  retries = 0;
  rto = 0;
  sender = false;
  send_failed = t.sender;
  rx_eof = false;
  ring = record t.ring { rx_head = 0; rx_tail = 0 };
  events = Event.listener_broadcast ∷ Event.conn_broadcast ∷ t.events;
}
