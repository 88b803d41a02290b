-- ===== src/Telnet/Process.antt =====
-- What a received byte does, and what of it is data.
use teatime_os.Base.{ℕ, Bool, Option, none, some, List, [], ◌∷◌, ◌++◌, leb, ◌==◌, if◌then◌else◌}
use teatime_os.Telnet.Options.{
  State, OptionState, Side, Telnet, offered, accepted, get_option_side, get_option_state,
  set_option_state,
}

-- A byte is handed on, or none is.
unfoldable pub process_data : Telnet → ℕ → Telnet × Option ℕ
process_data t c = if c == 255 then (record t { state = State.at_command }, none) else (t, some c)

unfoldable pub process_command : Telnet → ℕ → Telnet × Option ℕ
process_command t c =
    if c == 255
    then (record t { state = State.at_data }, some c)
    else if leb 251 c
    then (record t { command = c; state = State.at_option }, none)
    else if c == 250
    then (record t { state = State.at_subnegotiation }, none)
    else (record t { state = State.at_data }, none)

-- DONT and WONT: answered only where the option was on.
unfoldable pub turn_off : Telnet → Side → ℕ → ℕ → OptionState → Telnet × List ℕ
turn_off t side option reply OptionState.on =
    (set_option_state t side option OptionState.off, 255 ∷ reply ∷ option ∷ [])
turn_off t side option reply _ = (set_option_state t side option OptionState.off, [])

-- DO and WILL: not answered where they answer a request or the option is on already.
unfoldable pub turn_on : Telnet → Side → ℕ → Bool → ℕ → ℕ → OptionState → Telnet × List ℕ
turn_on t side option agreed accept refuse OptionState.want_off =
    (set_option_state t side option OptionState.off, [])
turn_on t side option agreed accept refuse OptionState.want_on =
    (set_option_state t side option OptionState.on, [])
turn_on t side option agreed accept refuse OptionState.on =
    (set_option_state t side option OptionState.on, [])
turn_on t side option agreed accept refuse _ =
    if agreed
    then (set_option_state t side option OptionState.on, 255 ∷ accept ∷ option ∷ [])
    else (t, 255 ∷ refuse ∷ option ∷ [])

-- The new state and the response.
unfoldable pub process_option : Telnet → ℕ → Telnet × List ℕ
unfolding turn_off turn_on get_option_side get_option_state set_option_state
process_option t option =
    let t' = record t { state = State.at_data } in
    let side = get_option_side Side.remote t.command in
    let old = get_option_state t' side option in
    if t.command == 254
    then turn_off t' side option 252 old
    else if t.command == 252
    then turn_off t' side option 254 old
    else if t.command == 253
    then turn_on t' side option (offered option) 251 252 old
    else if t.command == 251
    then turn_on t' side option (accepted option) 253 254 old
    else (t', [])

unfoldable pub process_subnegotiation : Telnet → ℕ → Telnet
process_subnegotiation t c =
    if c == 255 then record t { state = State.at_subnegotiation_command } else t

unfoldable pub process_subnegotiation_command : Telnet → ℕ → Telnet
process_subnegotiation_command t c = record t {
  state = if c == 240 then State.at_data else State.at_subnegotiation;
}

abbrev pub answered : Telnet × List ℕ → Telnet
answered (t, response) = record t { sent = t.sent ++ response }

unfoldable pub process_in : State → Telnet → ℕ → Telnet × Option ℕ
unfolding process_data process_command process_option process_subnegotiation
    process_subnegotiation_command
process_in State.at_data t c = process_data t c
process_in State.at_command t c = process_command t c
process_in State.at_option t c = (answered (process_option t c), none)
process_in State.at_subnegotiation t c = (process_subnegotiation t c, none)
process_in State.at_subnegotiation_command t c = (process_subnegotiation_command t c, none)

unfoldable pub process : Telnet → ℕ → Telnet × Option ℕ
unfolding process_in
process t c = process_in t.state t c

abbrev pub keep : Option ℕ → List ℕ → List ℕ
keep none out = out
keep (some c) out = c ∷ out

-- The inner loop of `telnet_read`: the data among the bytes that came in.
unfoldable pub process_all : Telnet → List ℕ → Telnet × List ℕ
unfolding process
process_all t [] = (t, [])
process_all t (c ∷ bytes) =
    let o = process t c in let rest = process_all o.0 bytes in (rest.0, keep o.1 rest.1)
