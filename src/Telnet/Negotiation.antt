-- ===== src/Telnet/Negotiation.antt =====
-- Negotiation comes to rest.
use teatime_os.Base.{
  ℕ, ◌≡◌, ◌≢◌, refl, sym, ap, ◌∙◌, subst, true, inl, inr, List, [], ◌==◌, Bool-cases, arith,
}
use teatime_os.Telnet.Options.{
  State, OptionState, Side, Telnet, offered, get_option_side, get_option_state, set_option_state,
}
use teatime_os.Telnet.Process.{process_option, turn_on}

-- A table whose entry is written, and read back.
get-set :
    (t : Telnet) (side : Side) (option : ℕ) (s : OptionState)
    → offered option ≡ true
    → get_option_state (set_option_state t side option s) side option ≡ s
unfolding get_option_state set_option_state
get-set t Side.local option s h = elim (Bool-cases (option == 1)) [
  | inl e ↦ rw e refl
  | inr e ↦ elim (Bool-cases (option == 3)) [
    | inl f ↦ rw (e, f) refl
    | inr f ↦ absurd (ground (arith, e, f, h))
  ]
]
get-set t Side.remote option s h = elim (Bool-cases (option == 1)) [
  | inl e ↦ rw e refl
  | inr e ↦ elim (Bool-cases (option == 3)) [
    | inl f ↦ rw (e, f) refl
    | inr f ↦ absurd (ground (arith, e, f, h))
  ]
]

set_twice :
    (t : Telnet) (option : ℕ) (s : OptionState)
    → set_option_state (set_option_state t Side.local option s) Side.local option s
      ≡ set_option_state t Side.local option s
unfolding set_option_state
set_twice t option s = elim (Bool-cases (option == 1)) [
  | inl e ↦ rw e refl
  | inr e ↦ elim (Bool-cases (option == 3)) [ inl f ↦ rw (e, f) refl | inr f ↦ rw (e, f) refl ]
]

-- Telnet after IAC DO.
abbrev pub asked : Telnet → Telnet
asked t = record t { command = 253; state = State.at_data }

turned_on :
    (t : Telnet) (option : ℕ) (old : OptionState)
    → offered option ≡ true
    → old ≢ OptionState.want_off
    → (turn_on (asked t) Side.local option (offered option) 251 252 old).0
      ≡ set_option_state (asked t) Side.local option OptionState.on
unfolding turn_on
turned_on t option OptionState.want_off h ne = absurd (ne refl)
turned_on t option OptionState.want_on h ne = refl
turned_on t option OptionState.on h ne = refl
turned_on t option OptionState.off h ne = rw h refl
turned_on t option OptionState.unknown h ne = rw h refl

asked-set :
    (t : Telnet) (option : ℕ)
    → let u = set_option_state (asked t) Side.local option OptionState.on in asked u ≡ u
unfolding set_option_state
asked-set t option = elim (Bool-cases (option == 1)) [
  | inl e ↦ rw e refl
  | inr e ↦ elim (Bool-cases (option == 3)) [ inl f ↦ rw (e, f) refl | inr f ↦ rw (e, f) refl ]
]

asked_option :
    (t : Telnet) (option : ℕ)
    → process_option (asked t) option
      ≡ turn_on
          (asked t)
          Side.local
          option
          (offered option)
          251
          252
          (get_option_state (asked t) Side.local option)
unfolding process_option get_option_side
asked_option t option = refl

repeated :
    (t : Telnet) (option : ℕ)
    → offered option ≡ true
    → let u = set_option_state (asked t) Side.local option OptionState.on in
      process_option u option ≡ (u, [])
unfolding turn_on
repeated t option h =
    let u = set_option_state (asked t) Side.local option OptionState.on in
    ap (λ x. process_option x option) (sym (asked-set t option))
    ∙ asked_option u option
    ∙ ap
        (λ x.
          turn_on x Side.local option (offered option) 251 252
            (get_option_state x Side.local option))
        (asked-set t option)
    ∙ ap (turn_on u Side.local option (offered option) 251 252)
        (get-set (asked t) Side.local option OptionState.on h)
    ∙ ap (λ (x : Telnet). (x, [])) (set_twice (asked t) option OptionState.on)

-- A DO for an option that we offer, unless we have just asked to turn it off, turns it on, and the
-- same DO once more changes nothing and is not answered, so that two sides do not answer each
-- other for ever.
pub process_option_settles :
    (t : Telnet) (option : ℕ)
    → offered option ≡ true
    → get_option_state (asked t) Side.local option ≢ OptionState.want_off
    → let u = (process_option (asked t) option).0 in
      (get_option_state u Side.local option ≡ OptionState.on) × (process_option u option ≡ (u, []))
process_option_settles t option h ne =
    let e : (process_option (asked t) option).0
        ≡ set_option_state (asked t) Side.local option OptionState.on =
      ap (λ (o : Telnet × List ℕ). o.0) (asked_option t option)
      ∙ turned_on t option (get_option_state (asked t) Side.local option) h ne in
    subst
      (λ u.
        (get_option_state u Side.local option ≡ OptionState.on)
        × (process_option u option ≡ (u, [])))
      (sym e) (get-set (asked t) Side.local option OptionState.on h, repeated t option h)
