-- ===== src/Terminal/Session/Commands.antt =====
-- From the keys of a line to the command that it names.
use teatime_os.Base.{
  ℕ, ◌≤◌, List, [], ◌∷◌, ◌++◌, ◌≡◌, refl, ap, sym, ◌∙◌, Bool, true, false, All, length, take, map,
  if◌then◌else◌, if-true, if-false, Bool-cases, inl, inr, subst, append_nil, arith,
}
use teatime_os.Crypto.Ccm.{same_bytes}
use teatime_os.Crypto.Ccm.Laws.{same_bytes_self}
use teatime_os.Terminal.Line.{build_args}
use teatime_os.Terminal.Line.Spread.{Arg, AreLetters, word, spread, build_args-spread}
use teatime_os.Terminal.Output.{normal, line_end, Term, newline, term_put}
use teatime_os.Terminal.Output.Shown.{shown, term_put-Wrote}
use teatime_os.Terminal.Session.{
  Command, Key, is_done, prompt, help_name, is_printable, parse_loop, term_handle_key,
  term_handle_normal, run_command, run_args, run_line, end_run, end_line,
}
use teatime_os.Terminal.Session.Keys.{typed, Typed, parse_loop-Typed}

parse_loop-append :
    (cs : List Command) (ks ls : List Key) (t : Term)
    → parse_loop cs (ks ++ ls) t ≡ parse_loop cs ls (parse_loop cs ks t)
unfolding parse_loop
parse_loop-append cs [] ls t = refl
parse_loop-append cs (k ∷ ks) ls t = parse_loop-append cs ks ls (term_handle_key cs k t)

-- The commands in front have other names.
run_command_found :
    (before after : List Command) (c : Command) (args : List (List ℕ)) (t : Term)
    → All (λ d. same_bytes c.name d.name ≡ false) before
    → run_command (before ++ c ∷ after) c.name args t ≡ c.run t args
unfolding run_command
run_command_found [] after c args t h = rw (same_bytes_self c.name, run_command) refl
run_command_found (d ∷ before) after c args t h =
    rw (h.0, run_command) (run_command_found before after c args t h.1)

abbrev pub return_key : Bool → Key
return_key echo = record { char = 13; echo = echo }

return_handled :
    (cs : List Command) (echo : Bool) (t : Term)
    → t.state ≡ normal
    → term_handle_key cs (return_key echo) t ≡ end_line cs echo (record t { state = line_end })
return_handled cs echo t e = unfold term_handle_key term_handle_normal in (rw e refl)

run_line_found :
    (before after : List Command) (c : Command) (a : Arg) (args : List Arg) (t : Term)
    → All (λ d. same_bytes c.name d.name ≡ false) before
    → same_bytes c.name help_name ≡ false
    → c.name ≡ word a
    → All (λ b. AreLetters (word b)) (a ∷ args)
    → t.line ≡ spread (a ∷ args)
    → run_line (before ++ c ∷ after) t ≡ c.run t (take 8 (map word (a ∷ args)))
run_line_found before after c a args t h n same l e =
    let rest : List (List ℕ) = take 7 (map word args) in
    let cut : build_args 8 t.line ≡ c.name ∷ rest =
      ap (build_args 8) e ∙ build_args-spread 8 (a ∷ args) l ∙ ap (λ w. w ∷ rest) (sym same) in
    unfold run_line in
    (ap (run_args (before ++ c ∷ after) t) cut)
    ∙ unfold run_args in
      (rw n
        (run_command_found before after c (c.name ∷ rest) t h ∙ ap (λ w. c.run t (w ∷ rest)) same))

-- The terminal in which a command runs: the line of `u`, and the echo of the return.
abbrev pub returned : Bool → Term → Term
returned echo u =
    let v : Term = record u { state = line_end } in if echo then term_put v newline else v

returned_line : (echo : Bool) (u : Term) → (returned echo u).line ≡ u.line
returned_line true u = (term_put-Wrote (record u { state = line_end }) newline).same_line
returned_line false u = refl

-- How the session goes on behind a command that left the terminal `r`: the line is empty, and the
-- prompt "> ", and nothing else, has come to what is shown, or nothing if the session is done.
pub record GoesOn (r z : Term) : Type 0 where
  pub emptied : z.line ≡ []
  pub same_state : z.state ≡ r.state
  pub prompted : shown z ≡ shown r ++ (if is_done r.state then [] else 62 ∷ 32 ∷ [])

end_run-GoesOn : (r : Term) → GoesOn r (end_run r)
end_run-GoesOn r = elim (Bool-cases (is_done r.state)) [
  | inl e ↦ record {
    emptied = ap (λ (t : Term). t.line) (ends e);
    same_state = ap (λ (t : Term). t.state) (ends e);
    prompted =
        ap shown (ends e)
        ∙ sym (append_nil (shown r))
        ∙ ap (λ l. shown r ++ l) (sym (if-true (is_done r.state) [] (62 ∷ 32 ∷ []) e));
  }
  | inr e ↦
      let wrote = term_put-Wrote (record r { line = [] }) prompt in
      record {
        emptied = ap (λ (t : Term). t.line) (prompts e) ∙ wrote.same_line;
        same_state = ap (λ (t : Term). t.state) (prompts e) ∙ wrote.same_state;
        prompted =
            ap shown (prompts e)
            ∙ wrote.bytes
            ∙ ap (λ l. shown r ++ l) (sym (if-false (is_done r.state) [] (62 ∷ 32 ∷ []) e));
      }
]
  where
    ends : is_done r.state ≡ true → end_run r ≡ record r { line = [] }
    ends e = unfold end_run in (if-true (is_done r.state) _ _ e)

    prompts : is_done r.state ≡ false → end_run r ≡ term_put (record r { line = [] }) prompt
    prompts e = unfold end_run in (if-false (is_done r.state) _ _ e)

-- A line that names a command, typed from an empty line with any spacing of the arguments and closed by
-- a return, runs the first command of that name once, with the first eight words as its arguments;
-- then the line is empty, and the prompt stands behind what the command wrote unless it has ended the
-- session. While it runs, the line and the echo are those of the text that was typed. The line
-- is printable and of at most 79 characters, and the command is not called help.
pub typed_command_runs :
    (before after : List Command) (c : Command) (a : Arg) (args : List Arg) (echo : Bool) (t : Term)
    → All (λ d. same_bytes c.name d.name ≡ false) before
    → same_bytes c.name help_name ≡ false
    → c.name ≡ word a
    → All (λ b. AreLetters (word b)) (a ∷ args)
    → All (λ x. is_printable x ≡ true) (spread (a ∷ args))
    → length (spread (a ∷ args)) ≤ 79
    → t.line ≡ []
    → t.state ≡ normal
    → (u : Term) × Typed echo (spread (a ∷ args)) t u
      × GoesOn (c.run (returned echo u) (take 8 (map word (a ∷ args)))) (
          parse_loop
            (before ++ c ∷ after)
            (typed echo (spread (a ∷ args)) ++ return_key echo ∷ [])
            t)
typed_command_runs before after c a args echo t h n same l p room empty e =
    (u, typing, subst (GoesOn r) (sym ran) (end_run-GoesOn r))
  where
    cs : List Command
    cs = before ++ c ∷ after

    line : List ℕ
    line = spread (a ∷ args)

    u : Term
    u = parse_loop cs (typed echo line) t

    typing : Typed echo line t u
    typing = parse_loop-Typed cs echo line t p (omega (arith, room, ap length empty)) e

    text : (returned echo u).line ≡ line
    text = returned_line echo u ∙ typing.text ∙ ap (λ b. b ++ line) empty

    r : Term
    r = c.run (returned echo u) (take 8 (map word (a ∷ args)))

    ran : parse_loop cs (typed echo line ++ return_key echo ∷ []) t ≡ end_run r
    ran =
        parse_loop-append cs (typed echo line) (return_key echo ∷ []) t
        ∙ unfold parse_loop in
          (return_handled cs echo u typing.still_normal)
          ∙ unfold end_line in
            (ap end_run (run_line_found before after c a args (returned echo u) h n same l text))
