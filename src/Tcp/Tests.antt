-- ===== src/Tcp/Tests.antt =====
-- Runs of a connection, and the theorems at concrete ones.
use teatime_os.Base.{
  ℕ, zero, suc, ◌+◌, ◌-◌, ◌^◌, ◌≤◌, ◌<◌, ◌≡◌, ◌≢◌, refl, true, false, none, some, List, [], ◌∷◌,
  ◌++◌, length, drop, arith, add32, get_or,
}
use teatime_os.Tcp.Ring.{Ring, rx_room, rx_put}
use teatime_os.Tcp.Fifo.{Holds, rx_put-Holds}
use teatime_os.Tcp.State.{
  State, Header, Tcp, Event, is_established, flag_ack, flag_rst, flags_psh_ack, parse_header, send,
  send_new,
}
use teatime_os.Tcp.Receive.{
  Progress, recv, recv_in, recv_listen, recv_connected, recv_ack, recv_data,
}
use teatime_os.Tcp.Calls.{send_data, read, listen_on, accept, accept_call, timer_expired, reset}
use teatime_os.Tcp.Invariant.{IsOk}
use teatime_os.Tcp.History.{Reach, starts, next, receives, listens, accepts, tcp_history-IsOk}
use teatime_os.Tcp.Stream.{InStream, Carries, InRead, after, recv_data-InStream, read-InStream}
use teatime_os.Tcp.Transfers.{
  IsForeign, segments, syn_ack, recv_in_ignores, handshake_lem, resend_lem, recv_ack_antipodal,
}

-- From port 1000 to port 23: SYN with sequence number 500, then the ACK of 78.
abbrev syn_bytes : List ℕ
syn_bytes = 3 ∷ 232 ∷ 0 ∷ 23 ∷ 0 ∷ 0 ∷ 1 ∷ 244 ∷ 0 ∷ 0 ∷ 0 ∷ 0 ∷ 80 ∷ 2 ∷ 4 ∷ 0 ∷ 0 ∷ 0 ∷ 0 ∷ 0 ∷ []

abbrev ack_bytes : List ℕ
ack_bytes =
    3 ∷ 232 ∷ 0 ∷ 23 ∷ 0 ∷ 0 ∷ 1 ∷ 245 ∷ 0 ∷ 0 ∷ 0 ∷ 78 ∷ 80 ∷ 16 ∷ 4 ∷ 0 ∷ 0 ∷ 0 ∷ 0 ∷ 0 ∷ []

abbrev listening : Tcp
listening = (accept (listen_on reset 23).0).0

abbrev opening : Tcp
opening = recv listening 77 9 syn_bytes

abbrev open_now : Tcp
open_now = recv opening 0 9 ack_bytes

open_run : (open_now.state ≡ State.established) × (open_now.snd_una ≡ 78) × (open_now.rcv_nxt ≡ 501)
unfolding recv accept listen_on reset send_new
open_run = (refl, refl, refl)

opening-Reach : Reach opening
unfolding accept listen_on reset parse_header
opening-Reach =
    next (next (next starts (listens 23)) accepts)
      (receives 77 9 syn_bytes (omega arith) (omega arith) (omega arith))

tcp_history-IsOk_example : IsOk opening × (opening.rto ≤ 32000)
tcp_history-IsOk_example = tcp_history-IsOk opening-Reach

-- An empty ring, two bytes before its counters wrap.
abbrev late_ring : Ring
late_ring = record { rx_head = 2 ^ 32 - 2; rx_tail = 2 ^ 32 - 2; bytes = λ _. 0 }

abbrev five : List ℕ
five = 1 ∷ 2 ∷ 3 ∷ 4 ∷ 5 ∷ []

late_ring-Holds : Holds late_ring []
late_ring-Holds = record {
  size = refl;
  at = λ i h. absurd (omega arith);
  head_word = omega arith;
  tail_word = omega arith;
  small = omega arith;
}

room_for_five : length five ≤ rx_room late_ring
unfolding rx_room
room_for_five = omega arith

rx_put-Holds_example : Holds (rx_put late_ring five) ([] ++ five)
rx_put-Holds_example = rx_put-Holds late_ring [] five late_ring-Holds room_for_five

-- The connection with that ring, whose peer's stream is 1, 2, 3, … from sequence number 501 on.
abbrev streaming : Tcp
streaming = record reset { state = State.established; rcv_nxt = 501; ring = late_ring }

abbrev pushed : Header
pushed = record {
  src_port = 0;
  dst_port = 0;
  seq = 501;
  ack = 0;
  data_offset = 5;
  flags = flags_psh_ack;
}

nothing_read : InStream (λ i. i + 1) 501 [] streaming
unfolding reset
nothing_read = record {
  waiting = [];
  holds = late_ring-Holds;
  next = refl;
  begins = λ i h. absurd (omega arith);
}

established : is_established streaming.state ≡ true
unfolding reset
established = refl

counts : (i : ℕ) → i < 5 → get_or five i 0 ≡ 0 + i + 1
counts zero h = refl
counts (suc zero) h = refl
counts (suc (suc zero)) h = refl
counts (suc (suc (suc zero))) h = refl
counts (suc (suc (suc (suc zero)))) h = refl
counts (suc (suc (suc (suc (suc i))))) h = absurd (omega arith)

carries : Carries (λ i. i + 1) 501 (length nothing_read.waiting) pushed five
unfolding nothing_read
carries = record {
  pos = 0;
  numbered = refl;
  not_ahead = omega arith;
  not_behind = omega arith;
  carried = counts;
}

recv_data-InStream_example : InStream (λ i. i + 1) 501 [] (after (recv_data streaming pushed five))
recv_data-InStream_example =
    recv_data-InStream (λ i. i + 1) 501 [] streaming pushed five established nothing_read carries

read-InStream_example : InRead (λ i. i + 1) 501 [] [] streaming 3 (read streaming 3)
unfolding nothing_read
read-InStream_example = read-InStream (λ i. i + 1) 501 [] streaming 3 nothing_read

abbrev foreign_reset : Header
foreign_reset = record pushed { flags = flag_rst; seq = 9000 }

small : streaming.rcv_nxt < 2 ^ 32
unfolding reset
small = omega arith

outside : (d : ℕ) → d < 1072 → foreign_reset.seq ≢ add32 streaming.rcv_nxt d
unfolding reset
outside d h = λ e. omega (arith, e, h)

recv_in_ignores_example : recv_in State.established streaming 0 0 foreign_reset [] ≡ streaming
recv_in_ignores_example =
    recv_in_ignores streaming State.established 0 0 foreign_reset [] small (omega arith)
      (IsForeign.reset_outside refl outside) (λ e. cc e)

accept_fails : accept_call reset ≡ none
unfolding accept_call reset
accept_fails = refl

abbrev syn_header : Header
syn_header = record {
  src_port = 1000;
  dst_port = 23;
  seq = 500;
  ack = 0;
  data_offset = 5;
  flags = record flag_ack { syn = true; ack = false };
}

abbrev ack_header : Header
ack_header = record syn_header { seq = 501; ack = 78; flags = flag_ack }

listening_port : 23 ≡ listening.port
unfolding accept listen_on reset
listening_port = refl

handshake_example :
    let t1 = recv_listen listening 77 9 syn_header in
    let t' = recv_connected t1 9 ack_header [] in
    (t1.events
      ≡ Event.rto_signal ∷ Event.sent (syn_ack listening 77 9 syn_header) ∷ listening.events)
    × (t1.state ≡ State.syn_rcvd)
    × (segments t'.events ≡ segments t1.events)
    × (t'.state ≡ State.established)
    × (t'.snd_una ≡ 78)
    × (t'.snd_nxt ≡ 78)
    × (t'.rcv_nxt ≡ 501)
handshake_example =
    handshake_lem listening 77 9 syn_header ack_header (omega arith) listening_port refl refl refl
      refl listening_port

abbrev writing : Tcp
writing = send_new (record streaming { sender = true; snd_nxt = 5 }) flags_psh_ack five

five_sent : send_data streaming five ≡ some writing
unfolding send_data reset
five_sent = refl

una_small : streaming.snd_una < 2 ^ 32
unfolding reset
una_small = omega arith

two_acked : (record ack_header { ack = 2 }).ack ≡ add32 streaming.snd_nxt 2
unfolding reset
two_acked = refl

resend_example :
    let t'' = after (recv_ack writing (record ack_header { ack = 2 })) in
    timer_expired t''
    ≡ send
        (record t'' { retries = 1; rto = 2000 })
        (add32 streaming.snd_nxt 2)
        flags_psh_ack
        (drop 2 five)
resend_example =
    resend_lem streaming writing five 2 (record ack_header { ack = 2 }) una_small five_sent
      (omega arith) (omega arith) (omega arith) refl two_acked

abbrev far_header : Header
far_header = record ack_header { ack = 2 ^ 31 }

idle : streaming.snd_una ≡ streaming.snd_nxt
unfolding reset
idle = refl

nxt_small : streaming.snd_nxt < 2 ^ 32
unfolding reset
nxt_small = omega arith

far_away : 2 ^ 31 ≡ add32 streaming.snd_nxt (2 ^ 31)
unfolding reset
far_away = refl

recv_ack_antipodal_example :
    (recv_ack streaming far_header ≡ Progress.goes_on (record streaming { snd_una = 2 ^ 31 }))
    × (send_data (record streaming { snd_una = 2 ^ 31 }) five ≡ none)
recv_ack_antipodal_example =
    recv_ack_antipodal streaming far_header five idle nxt_small refl far_away
