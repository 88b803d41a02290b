-- ===== src/Telnet/Options.antt =====
-- The option states of both sides.
use teatime_os.Base.{ℕ, Bool, true, false, ◌||◌, List, [], ◌∷◌, ◌++◌, ◌==◌, if◌then◌else◌}

pub data State : Type 0 where
  at_data at_command at_option at_subnegotiation at_subnegotiation_command : State

pub data OptionState : Type 0 where
  off on want_on want_off unknown : OptionState

pub data Side : Type 0 where
  remote local : Side

pub record Options : Type 0 where
  pub echo : OptionState
  pub suppress_go_ahead : OptionState

-- `sent` is what has been written to the connection.
pub record Telnet : Type 0 where
  pub state : State
  pub command : ℕ
  pub local_options : Options
  pub remote_options : Options
  pub sent : List ℕ

abbrev pub offered : ℕ → Bool
offered option = (option == 1) || (option == 3)

abbrev pub accepted : ℕ → Bool
accepted option = option == 3

-- WILL 251, WONT 252, DO 253, DONT 254.
unfoldable pub get_option_side : Side → ℕ → Side
get_option_side Side.remote command =
    if (command == 251) || (command == 252) then Side.remote else Side.local
get_option_side Side.local command =
    if (command == 253) || (command == 254) then Side.remote else Side.local

abbrev pub get_option_table : Telnet → Side → Options
get_option_table t Side.local = t.local_options
get_option_table t Side.remote = t.remote_options

abbrev pub set_option_table : Telnet → Side → Options → Telnet
set_option_table t Side.local o = record t { local_options = o }
set_option_table t Side.remote o = record t { remote_options = o }

unfoldable pub get_option_state : Telnet → Side → ℕ → OptionState
get_option_state t side option =
    if option == 1
    then (get_option_table t side).echo
    else if option == 3
    then (get_option_table t side).suppress_go_ahead
    else OptionState.unknown

unfoldable pub set_option_state : Telnet → Side → ℕ → OptionState → Telnet
set_option_state t side option s =
    if option == 1
    then set_option_table t side (record (get_option_table t side) { echo = s })
    else if option == 3
    then set_option_table t side (record (get_option_table t side) { suppress_go_ahead = s })
    else t

abbrev pub is_enabled : OptionState → Bool
is_enabled OptionState.on = true
is_enabled OptionState.want_off = true
is_enabled _ = false

unfoldable pub option_enabled : Telnet → Side → ℕ → Bool
unfolding get_option_state
option_enabled t side option = is_enabled (get_option_state t side option)

abbrev pub opening_command : Side → ℕ
opening_command Side.local = 251
opening_command Side.remote = 253

abbrev pub enable_from : Telnet → Side → ℕ → OptionState → Telnet
enable_from t side option OptionState.off =
    let t' = set_option_state t side option OptionState.want_on in
    record t' { sent = t'.sent ++ (255 ∷ opening_command side ∷ option ∷ []) }
enable_from t side option _ = t

unfoldable pub enable_option : Telnet → Side → ℕ → Telnet
unfolding get_option_state set_option_state
enable_option t side option = enable_from t side option (get_option_state t side option)

-- `telnet_open`, after the memset.
unfoldable pub telnet_open : Telnet
unfolding enable_option
telnet_open =
    enable_option
      (enable_option
        (record {
          state = State.at_data;
          command = 0;
          local_options = record { echo = OptionState.off; suppress_go_ahead = OptionState.off };
          remote_options = record { echo = OptionState.off; suppress_go_ahead = OptionState.off };
          sent = [];
        })
        Side.local 1)
      Side.local 3
