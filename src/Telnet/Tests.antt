-- ===== src/Telnet/Tests.antt =====
-- Runs of telnet, and its theorems at concrete inputs.
use teatime_os.Base.{◌≡◌, ◌≢◌, refl, true, [], ◌∷◌}
use teatime_os.Tcp.Transfers.{joined}
use teatime_os.Telnet.Options.{
  State, OptionState, Side, Telnet, get_option_state, telnet_open, enable_option,
}
use teatime_os.Telnet.Process.{process_option, process_all}
use teatime_os.Telnet.Write.{telnet_write}
use teatime_os.Telnet.Negotiation.{asked, process_option_settles}
use teatime_os.Telnet.Escapes.{telnet_write_roundtrip}

-- IAC DO ECHO answers our WILL ECHO, and "a" is data.
echo_run : (process_all telnet_open (255 ∷ 253 ∷ 1 ∷ 97 ∷ [])).1 ≡ 97 ∷ []
unfolding process_all telnet_open enable_option
echo_run = refl

-- Telnet as it is opened, with what it has sent.
abbrev opened : Telnet
opened = telnet_open

opened_data : opened.state ≡ State.at_data
unfolding telnet_open enable_option
opened_data = refl

telnet_write_roundtrip_example :
    process_all opened (joined (telnet_write (λ _. true) (97 ∷ 255 ∷ 98 ∷ [])).0)
    ≡ (opened, 97 ∷ 255 ∷ 98 ∷ [])
telnet_write_roundtrip_example = telnet_write_roundtrip opened (97 ∷ 255 ∷ 98 ∷ []) opened_data

closed_echo : get_option_state (asked opened) Side.local 1 ≢ OptionState.want_off
unfolding get_option_state telnet_open enable_option
closed_echo h = cc h

process_option_settles_example :
    let u = (process_option (asked opened) 1).0 in
    (get_option_state u Side.local 1 ≡ OptionState.on) × (process_option u 1 ≡ (u, []))
process_option_settles_example = process_option_settles opened 1 refl closed_echo
