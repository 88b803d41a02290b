-- ===== src/Terminal/Session/Bounds.antt =====
-- The bounds of the buffers of a session.
use teatime_os.Base.{
  ℕ, zero, suc, ◌-◌, ◌≤◌, ◌<◌, List, [], ◌∷◌, ◌++◌, ◌≡◌, refl, sym, subst, Bool, true, false, All,
  All-append, All-take, length, take, length-append, length-take, ltb, ◌==◌, if◌then◌else◌,
  Bool-cases, inl, inr, arith,
}
use teatime_os.Crypto.Ccm.{same_bytes}
use teatime_os.Terminal.Line.{build_args}
use teatime_os.Terminal.Output.{
  State, normal, line_end, escape, csi, ss3, done, Term, newline, term_put, term_put_char,
  term_flush,
}
use teatime_os.Terminal.Output.Shown.{
  IsBuffered, term_put-Wrote, term_put_char-Wrote, term_flush-Wrote, term_put-IsBuffered,
  term_put_char-IsBuffered, term_flush-IsBuffered,
}
use teatime_os.Terminal.Session.{
  Command, Key, help_name, help_line, dash, unknown, prompt, erase, is_printable, is_final, is_done,
  list_loop, list_commands, run_command, run_args, run_line, erase_loop, shorten, end_run, end_line,
  add_char, term_handle_normal, term_handle_line_end, term_handle_escape, term_handle_csi,
  term_handle_ss3, term_handle_key, parse_loop, term_parse_buf, session_loop, term_session,
}

-- The line has room for its end, and all of it is printable; the buffer of the output is bounded, and
-- so is each write.
pub record IsTerm (t : Term) : Type 0 where
  pub line_room : length t.line ≤ 79
  pub printable : All (λ c. is_printable c ≡ true) t.line
  pub buffered : IsBuffered t

-- A command keeps the bounds.
abbrev pub Behaves : Command → Type 0
Behaves c = (t : Term) (args : List (List ℕ)) → IsTerm t → IsTerm (c.run t args)

same_line-IsTerm : {t u : Term} → u.line ≡ t.line → IsBuffered u → IsTerm t → IsTerm u
same_line-IsTerm {t} {u} e b v = record {
  line_room = subst (λ l. length l ≤ 79) (sym e) v.line_room;
  printable = subst (All (λ c. is_printable c ≡ true)) (sym e) v.printable;
  buffered = b;
}

-- Another line and another state, and the same output.
with_line-IsTerm :
    (t u : Term)
    → u.out ≡ t.out
    → u.sent ≡ t.sent
    → length u.line ≤ 79
    → All (λ c. is_printable c ≡ true) u.line
    → IsTerm t
    → IsTerm u
with_line-IsTerm t u e f l p v = record {
  line_room = l;
  printable = p;
  buffered = record {
    room = subst (λ o. length o ≤ 256) (sym e) v.buffered.room;
    writes = subst (All (λ w. (0 < length w) × (length w ≤ 256))) (sym f) v.buffered.writes;
  };
}

pub with_state-IsTerm : (t : Term) (s : State) → IsTerm t → IsTerm (record t { state = s })
with_state-IsTerm t s v =
    with_line-IsTerm t (record t { state = s }) refl refl v.line_room v.printable v

pub term_put-IsTerm : (t : Term) (s : List ℕ) → IsTerm t → IsTerm (term_put t s)
term_put-IsTerm t s v =
    same_line-IsTerm ((term_put-Wrote t s).same_line) (term_put-IsBuffered t s v.buffered) v

term_put_char-IsTerm : (t : Term) (c : ℕ) → IsTerm t → IsTerm (term_put_char t c)
term_put_char-IsTerm t c v =
    same_line-IsTerm ((term_put_char-Wrote t c).same_line) (term_put_char-IsBuffered t c v.buffered)
      v

term_flush-IsTerm : (t : Term) → IsTerm t → IsTerm (term_flush t)
term_flush-IsTerm t v =
    same_line-IsTerm ((term_flush-Wrote t).same_line) (term_flush-IsBuffered t v.buffered) v

list_loop-IsTerm : (cs : List Command) (t : Term) → IsTerm t → IsTerm (list_loop cs t)
unfolding list_loop
list_loop-IsTerm [] t v = v
list_loop-IsTerm (c ∷ cs) t v = list_loop-IsTerm cs _ (
    term_put-IsTerm _ newline
      (term_put-IsTerm _ c.help (term_put-IsTerm _ dash (term_put-IsTerm t c.name v))))

run_command-IsTerm :
    (cs : List Command) (name : List ℕ) (args : List (List ℕ)) (t : Term)
    → All Behaves cs
    → IsTerm t
    → IsTerm (run_command cs name args t)
unfolding run_command
run_command-IsTerm [] name args t h v =
    unfold run_command in
    (term_put-IsTerm _ newline (term_put-IsTerm _ name (term_put-IsTerm t unknown v)))
run_command-IsTerm (c ∷ cs) name args t h v = elim (Bool-cases (same_bytes name c.name)) [
  | inl e ↦ rw (e, run_command) (h.0 t args v)
  | inr e ↦ rw (e, run_command) (run_command-IsTerm cs name args t h.1 v)
]

run_args-IsTerm :
    (cs : List Command) (t : Term) (args : List (List ℕ))
    → All Behaves cs
    → IsTerm t
    → IsTerm (run_args cs t args)
unfolding run_args
run_args-IsTerm cs t [] h v = unfold run_args in v
run_args-IsTerm cs t (name ∷ args) h v = elim (Bool-cases (same_bytes name help_name)) [
  | inl e ↦
      rw (e, run_args)
        (unfold list_commands in
          (list_loop-IsTerm cs _ (term_put-IsTerm _ newline (term_put-IsTerm t help_line v))))
  | inr e ↦ rw (e, run_args) (run_command-IsTerm cs name (name ∷ args) t h v)
]

erase_loop-IsTerm : (n : ℕ) (t : Term) → IsTerm t → IsTerm (erase_loop n t)
unfolding erase_loop
erase_loop-IsTerm zero t v = v
erase_loop-IsTerm (suc n) t v = erase_loop-IsTerm n _ (term_put-IsTerm t erase v)

shorten-IsTerm :
    (echo : Bool) (rest : List ℕ) (t : Term)
    → length rest ≤ 79
    → All (λ c. is_printable c ≡ true) rest
    → IsTerm t
    → IsTerm (shorten echo rest t)
shorten-IsTerm true rest t l p v =
    unfold shorten in
    (erase_loop-IsTerm (length t.line - length rest) _
      (with_line-IsTerm t (record t { line = rest }) refl refl l p v))
shorten-IsTerm false rest t l p v =
    unfold shorten in (with_line-IsTerm t (record t { line = rest }) refl refl l p v)

end_run-IsTerm : (t : Term) → IsTerm t → IsTerm (end_run t)
unfolding end_run
end_run-IsTerm t v = elim (Bool-cases (is_done t.state)) [
  | inl e ↦ rw (e, end_run) emptied
  | inr e ↦ rw (e, end_run) (term_put-IsTerm _ prompt emptied)
]
  where
    emptied : IsTerm (record t { line = [] })
    emptied = with_line-IsTerm t (record t { line = [] }) refl refl (omega arith) tt v

end_line-IsTerm :
    (cs : List Command) (echo : Bool) (t : Term)
    → All Behaves cs
    → IsTerm t
    → IsTerm (end_line cs echo t)
end_line-IsTerm cs true t h v =
    unfold end_line run_line in
    (end_run-IsTerm _ (
      run_args-IsTerm cs _ (build_args 8 (term_put t newline).line) h
        (term_put-IsTerm t newline v)))
end_line-IsTerm cs false t h v =
    unfold end_line run_line in (end_run-IsTerm _ (run_args-IsTerm cs t (build_args 8 t.line) h v))

add_char-IsTerm : (k : Key) (t : Term) → IsTerm t → IsTerm (add_char k t)
add_char-IsTerm k t v = elim (Bool-cases (is_printable k.char)) [
  | inr e ↦ unfold add_char in (rw e v)
  | inl e ↦ elim (Bool-cases (ltb (length t.line) 79)) [
    | inr f ↦ unfold add_char in (rw (e, f) v)
    | inl f ↦ unfold add_char in (rw (e, f) (echoed k.echo (grown e f)))
  ]
]
  where
    u : Term
    u = record t { line = t.line ++ k.char ∷ [] }

    grown : is_printable k.char ≡ true → ltb (length t.line) 79 ≡ true → IsTerm u
    grown e f =
        with_line-IsTerm t u refl refl (ground (arith, f, length-append t.line (k.char ∷ [])))
          (All-append _ t.line (k.char ∷ []) v.printable (e, tt)) v

    echoed : (echo : Bool) → IsTerm u → IsTerm (if echo then term_put_char u k.char else u)
    echoed true w = term_put_char-IsTerm u k.char w
    echoed false w = w

if-IsTerm : (b : Bool) (t u : Term) → IsTerm t → IsTerm u → IsTerm (if b then t else u)
if-IsTerm true t u v w = v
if-IsTerm false t u v w = w

module _ (cs : List Command) (h : All Behaves cs) where
  term_handle_normal-IsTerm : (k : Key) (t : Term) → IsTerm t → IsTerm (term_handle_normal cs k t)
  unfolding term_handle_normal
  term_handle_normal-IsTerm k t v =
      if-IsTerm (k.char == 0x15) _ _ (shorten-IsTerm k.echo [] t (omega arith) tt v) (
        if-IsTerm (k.char == 0x08) _ _ shorter (
          if-IsTerm (k.char == 0x7f) _ _ shorter (
            if-IsTerm (k.char == 13) _ _
              (end_line-IsTerm cs k.echo (record t { state = line_end }) h
                (with_state-IsTerm t line_end v))
              (if-IsTerm (k.char == 10) _ _ (end_line-IsTerm cs k.echo t h v) (
                if-IsTerm (k.char == 0x1b) _ _ (with_state-IsTerm t escape v)
                  (add_char-IsTerm k t v))))))
    where
      shorter : IsTerm (shorten k.echo (take (length t.line - 1) t.line) t)
      shorter =
          shorten-IsTerm k.echo (take (length t.line - 1) t.line) t
            (omega (arith, length-take (length t.line - 1) t.line (omega arith), v.line_room))
            (All-take _ (length t.line - 1) t.line v.printable) v

  term_handle_line_end-IsTerm :
      (k : Key) (t : Term) → IsTerm t → IsTerm (term_handle_line_end cs k t)
  unfolding term_handle_line_end
  term_handle_line_end-IsTerm k t v =
      if-IsTerm (k.char == 10) _ _ (with_state-IsTerm t normal v)
        (term_handle_normal-IsTerm k (record t { state = normal }) (with_state-IsTerm t normal v))

  term_handle_key-IsTerm : (k : Key) (t : Term) → IsTerm t → IsTerm (term_handle_key cs k t)
  term_handle_key-IsTerm k t v = by_state t.state refl
    where
      csi_end : (u : Term) → IsTerm u → IsTerm (term_handle_csi k u)
      csi_end u w =
          unfold term_handle_csi in
          (if-IsTerm (is_final k.char) _ _ (with_state-IsTerm u normal w) w)

      ss3_end : (u : Term) → IsTerm u → IsTerm (term_handle_ss3 k u)
      ss3_end u w =
          unfold term_handle_ss3 in
          (if-IsTerm (is_final k.char) _ _ (with_state-IsTerm u normal w) w)

      by_state : (s : State) → t.state ≡ s → IsTerm (term_handle_key cs k t)
      by_state normal e =
          unfold term_handle_key in
          (rw e (
            term_handle_normal-IsTerm k (record t { state = normal })
              (with_state-IsTerm t normal v)))
      by_state line_end e =
          unfold term_handle_key in
          (rw e (
            term_handle_line_end-IsTerm k (record t { state = line_end })
              (with_state-IsTerm t line_end v)))
      by_state escape e =
          unfold term_handle_key term_handle_escape in (rw e (with_state-IsTerm t _ v))
      by_state csi e =
          unfold term_handle_key in
          (rw e (csi_end (record t { state = csi }) (with_state-IsTerm t csi v)))
      by_state ss3 e =
          unfold term_handle_key in
          (rw e (ss3_end (record t { state = ss3 }) (with_state-IsTerm t ss3 v)))
      by_state done e = unfold term_handle_key in (rw e (with_state-IsTerm t done v))

  parse_loop-IsTerm : (ks : List Key) (t : Term) → IsTerm t → IsTerm (parse_loop cs ks t)
  unfolding parse_loop
  parse_loop-IsTerm [] t v = v
  parse_loop-IsTerm (k ∷ ks) t v = parse_loop-IsTerm ks _ (term_handle_key-IsTerm k t v)

  session_loop-IsTerm :
      (reads : List (List Key)) (t : Term) → IsTerm t → IsTerm (session_loop cs reads t)
  unfolding session_loop
  session_loop-IsTerm [] t v = v
  session_loop-IsTerm ([] ∷ reads) t v = v
  session_loop-IsTerm ((k ∷ ks) ∷ reads) t v =
      let next = term_flush-IsTerm _ (parse_loop-IsTerm (k ∷ ks) t v) in
      let rest = session_loop-IsTerm reads (term_parse_buf cs (k ∷ ks) t) next in
      elim (Bool-cases (is_done t.state)) [
        | inl e ↦ rw (e, session_loop) v
        | inr e ↦ rw (e, session_loop) rest
      ]

-- Whatever keys come in whatever pieces, the line has at most 79 characters, all printable, the buffer
-- of the output at most 256, and each write is of 1 to 256 bytes, if the commands keep that too.
pub term_session-IsTerm :
    (cs : List Command) (reads : List (List Key)) → All Behaves cs → IsTerm (term_session cs reads)
unfolding term_session
term_session-IsTerm cs reads h = session_loop-IsTerm cs h reads _ (
    term_flush-IsTerm _ (
      term_put-IsTerm (record { line = []; state = normal; out = []; sent = [] }) prompt
        (record {
          line_room = omega arith;
          printable = tt;
          buffered = record { room = omega arith; writes = tt };
        })))
