-- ===== src/Terminal/Session/Keys.antt =====
-- What sequences of keys do to the terminal.
use teatime_os.Base.{
  ℕ, ◌+◌, ◌≤◌, List, [], ◌∷◌, ◌++◌, ◌≡◌, refl, ap, sym, ◌∙◌, Bool, true, false, All, length, ◌==◌,
  if◌then◌else◌, append_assoc, append_nil, length-append, arith, Bool-cases, inl, inr, ==→eq,
  lt→ltb, ◌<◌, subst,
}
use teatime_os.Terminal.Output.{normal, escape, csi, Term}
use teatime_os.Terminal.Output.Shown.{shown, term_put_char-Wrote}
use teatime_os.Terminal.Session.{
  Command, Key, is_printable, is_final, parse_loop, term_handle_key, term_handle_normal,
  term_handle_escape, term_handle_csi, add_char,
}

module _ (cs : List Command) where
  csi_swallowed :
      (params : List Key) (final : Key) (t : Term)
      → All (λ k. is_final k.char ≡ false) params
      → is_final final.char ≡ true
      → t.state ≡ csi
      → parse_loop cs (params ++ final ∷ []) t ≡ record t { state = normal }
  unfolding parse_loop
  csi_swallowed [] final t h f e = unfold term_handle_key term_handle_csi in (rw (e, f) refl)
  csi_swallowed (k ∷ ks) final t h f e =
      ap (parse_loop cs (ks ++ final ∷ [])) (kept k h.0) ∙ csi_swallowed ks final t h.1 f e
    where
      kept : (k : Key) → is_final k.char ≡ false → term_handle_key cs k t ≡ t
      kept k n = unfold term_handle_key term_handle_csi in (rw (e, n) refl)

  -- An escape sequence in the middle of a line, ESC [ with any parameters and a final character,
  -- leaves the terminal as it was: nothing of it comes to the line or is echoed.
  pub escape_sequence_swallowed :
      (esc bracket : Key) (params : List Key) (final : Key) (t : Term)
      → esc.char ≡ 0x1b
      → bracket.char ≡ 91
      → All (λ k. is_final k.char ≡ false) params
      → is_final final.char ≡ true
      → t.state ≡ normal
      → parse_loop cs (esc ∷ bracket ∷ params ++ final ∷ []) t ≡ t
  unfolding parse_loop
  escape_sequence_swallowed esc bracket params final t a b h f e =
      ap (λ u. parse_loop cs (params ++ final ∷ []) (term_handle_key cs bracket u)) escaped
      ∙ ap (parse_loop cs (params ++ final ∷ [])) (opened (record t { state = escape }) refl)
      ∙ csi_swallowed params final (record t { state = csi }) h f refl
      ∙ ap (λ s. record t { state = s }) (sym e)
    where
      escaped : term_handle_key cs esc t ≡ record t { state = escape }
      escaped = unfold term_handle_key term_handle_normal in (rw (e, a) refl)

      opened :
          (u : Term) → u.state ≡ escape → term_handle_key cs bracket u ≡ record u { state = csi }
      opened u v = unfold term_handle_key term_handle_escape in (rw (v, b) refl)

abbrev pub typed : Bool → List ℕ → List Key
typed echo [] = []
typed echo (c ∷ s) = record { char = c; echo = echo } ∷ typed echo s

no_control : (c d : ℕ) → is_printable c ≡ true → is_printable d ≡ false → (c == d) ≡ false
no_control c d h k = elim (Bool-cases (c == d)) [
  | inl e ↦ differ (sym h ∙ ap is_printable (==→eq c d e) ∙ k)
  | inr e ↦ e
]
  where
    differ : true ≡ false → (c == d) ≡ false
    differ e = cc

-- A printable character is handled by the default case.
printable_key :
    (cs : List Command) (k : Key) (t : Term)
    → is_printable k.char ≡ true
    → t.state ≡ normal
    → term_handle_key cs k t ≡ add_char k t
printable_key cs k t h e =
    unfold term_handle_key term_handle_normal in
    (rw
      (
        e,
        no_control k.char 0x15 h refl,
        no_control k.char 0x08 h refl,
        no_control k.char 0x7f h refl,
        no_control k.char 13 h refl,
        no_control k.char 10 h refl,
        no_control k.char 0x1b h refl,
      )
      refl)

abbrev echoed : Bool → List ℕ → List ℕ
echoed echo s = if echo then s else []

-- From one terminal to another, this text has come to the line, and its echo to what is shown.
pub record Typed (echo : Bool) (s : List ℕ) (t u : Term) : Type 0 where
  pub text : u.line ≡ t.line ++ s
  pub echo_shown : shown u ≡ shown t ++ echoed echo s
  pub still_normal : u.state ≡ normal

add_char-Typed :
    (echo : Bool) (c : ℕ) (t : Term)
    → is_printable c ≡ true
    → length t.line < 79
    → t.state ≡ normal
    → Typed echo (c ∷ []) t (add_char (record { char = c; echo = echo }) t)
add_char-Typed true c t h k e =
    let v = term_put_char-Wrote (record t { line = t.line ++ c ∷ [] }) c in
    unfold add_char in
    (rw (h, lt→ltb (length t.line) 79 k)
      (record { text = v.same_line; echo_shown = v.bytes; still_normal = v.same_state ∙ e }))
add_char-Typed false c t h k e =
    unfold add_char in
    (rw (h, lt→ltb (length t.line) 79 k)
      (record { text = refl; echo_shown = sym (append_nil (shown t)); still_normal = e }))

both-Typed :
    (echo : Bool) (c : ℕ) (s : List ℕ) (t u v : Term)
    → Typed echo (c ∷ []) t u
    → Typed echo s u v
    → Typed echo (c ∷ s) t v
both-Typed echo c s t u v h k = record {
  text = k.text ∙ ap (λ l. l ++ s) h.text ∙ append_assoc t.line (c ∷ []) s;
  echo_shown =
      k.echo_shown
      ∙ ap (λ b. b ++ echoed echo s) h.echo_shown
      ∙ append_assoc (shown t) (echoed echo (c ∷ [])) (echoed echo s)
      ∙ ap (λ b. shown t ++ b) (both echo);
  still_normal = k.still_normal;
}
  where
    both : (echo : Bool) → echoed echo (c ∷ []) ++ echoed echo s ≡ echoed echo (c ∷ s)
    both true = refl
    both false = refl

-- Printable characters that the line has room for come to it in order, and with echo, and only then,
-- to what the terminal shows; the session goes on as before.
pub parse_loop-Typed :
    (cs : List Command) (echo : Bool) (s : List ℕ) (t : Term)
    → All (λ c. is_printable c ≡ true) s
    → length t.line + length s ≤ 79
    → t.state ≡ normal
    → Typed echo s t (parse_loop cs (typed echo s) t)
unfolding parse_loop
parse_loop-Typed cs echo [] t h k e = record {
  text = sym (append_nil t.line);
  echo_shown = sym (ap (λ b. shown t ++ b) (nothing echo) ∙ append_nil (shown t));
  still_normal = e;
}
  where
    nothing : (echo : Bool) → echoed echo [] ≡ []
    nothing true = refl
    nothing false = refl
parse_loop-Typed cs echo (c ∷ s) t h k e =
    let k' : Key = record { char = c; echo = echo } in
    let one = add_char-Typed echo c t h.0 (omega (arith, k)) e in
    let rest =
      parse_loop-Typed cs echo s (add_char k' t) h.1 (has_room one.text) one.still_normal in
    subst (λ u. Typed echo (c ∷ s) t (parse_loop cs (typed echo s) u))
      (sym (printable_key cs k' t h.0 e)) (both-Typed echo c s t (add_char k' t) _ one rest)
  where
    has_room : {l : List ℕ} → l ≡ t.line ++ c ∷ [] → length l + length s ≤ 79
    has_room {l} p = omega (arith, k, ap length p, length-append t.line (c ∷ []))
