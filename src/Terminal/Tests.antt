-- ===== src/Terminal/Tests.antt =====
-- Tests of the terminal, and inputs at which its theorems apply.
use teatime_os.Base.{List, [], ◌∷◌, ◌++◌, ◌≡◌, refl, true, false, All, arith, take, map}
use teatime_os.Crypto.Ccm.{same_bytes}
use teatime_os.Terminal.Line.Spread.{Arg, word, spread}
use teatime_os.Terminal.Output.{State, normal, Term, term_put, term_mark_done}
use teatime_os.Terminal.Output.Shown.{Wrote, term_put-Wrote}
use teatime_os.Terminal.Session.{Command, prompt, parse_loop, term_session}
use teatime_os.Terminal.Session.Bounds.{
  Behaves, IsTerm, term_session-IsTerm, term_put-IsTerm, with_state-IsTerm,
}
use teatime_os.Terminal.Session.Commands.{GoesOn, typed_command_runs, returned, return_key}
use teatime_os.Terminal.Session.Keys.{typed, Typed, escape_sequence_swallowed}

-- "mem" puts "m", and "exit" ends the session.
abbrev mem : Command
mem = record { name = 109 ∷ 101 ∷ 109 ∷ []; help = []; run = λ t args. term_put t (109 ∷ []) }

abbrev exit_command : Command
exit_command = record {
  name = 101 ∷ 120 ∷ 105 ∷ 116 ∷ [];
  help = [];
  run = λ t args. term_mark_done t;
}

abbrev table : List Command
table = mem ∷ exit_command ∷ []

table-Behaves : All Behaves table
table-Behaves =
    (λ t args v. term_put-IsTerm t (109 ∷ []) v, (λ t args v. with_state-IsTerm t State.done v, tt))

abbrev fresh : Term
fresh = record { line = []; state = normal; out = []; sent = [] }

-- " exit  1"
abbrev words : List Arg
words =
    record { spaces = 1; first = 101; rest = 120 ∷ 105 ∷ 116 ∷ [] }
    ∷ record { spaces = 1; first = 49; rest = [] }
    ∷ []

spread-words : spread words ≡ 32 ∷ 101 ∷ 120 ∷ 105 ∷ 116 ∷ 32 ∷ 32 ∷ 49 ∷ []
spread-words = refl

-- "mem", a return and a newline, then "exi", a deletion, "it" and a return: what is written.
session_runs :
    (term_session table (
      typed false (109 ∷ 101 ∷ 109 ∷ 13 ∷ 10 ∷ [])
      ∷ typed true (101 ∷ 120 ∷ 120 ∷ 127 ∷ 105 ∷ 116 ∷ 13 ∷ [])
      ∷ [])).sent
    ≡ (62 ∷ 32 ∷ [])
      ∷ (109 ∷ 62 ∷ 32 ∷ [])
      ∷ (101 ∷ 120 ∷ 120 ∷ 8 ∷ 32 ∷ 8 ∷ 105 ∷ 116 ∷ 13 ∷ 10 ∷ [])
      ∷ []
unfolding term_session
session_runs = refl

term_put-Wrote_example : Wrote prompt fresh (term_put fresh prompt)
term_put-Wrote_example = term_put-Wrote fresh prompt

escape_sequence_swallowed_example :
    parse_loop table (typed true (27 ∷ 91 ∷ 49 ∷ 65 ∷ [])) fresh ≡ fresh
escape_sequence_swallowed_example =
    escape_sequence_swallowed table (record { char = 27; echo = true })
      (record { char = 91; echo = true }) (record { char = 49; echo = true } ∷ [])
      (record { char = 65; echo = true }) fresh refl refl (refl, tt) refl refl

typed_command_runs_example :
    (u : Term) × Typed true (spread words) fresh u
    × GoesOn
        (exit_command.run (returned true u) (take 8 (map word words)))
        (parse_loop table (typed true (spread words) ++ return_key true ∷ []) fresh)
unfolding same_bytes
typed_command_runs_example =
    typed_command_runs (mem ∷ []) [] exit_command
      (record { spaces = 1; first = 101; rest = 120 ∷ 105 ∷ 116 ∷ [] })
      (record { spaces = 1; first = 49; rest = [] } ∷ []) true fresh (refl, tt) refl refl
      ((refl, (refl, (refl, (refl, tt)))), ((refl, tt), tt))
      (refl, (refl, (refl, (refl, (refl, (refl, (refl, (refl, tt)))))))) (omega arith) refl refl

term_session-IsTerm_example : IsTerm (term_session table (typed true (109 ∷ 13 ∷ []) ∷ []))
term_session-IsTerm_example =
    term_session-IsTerm table (typed true (109 ∷ 13 ∷ []) ∷ []) table-Behaves
