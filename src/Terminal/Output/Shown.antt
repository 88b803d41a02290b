-- ===== src/Terminal/Output/Shown.antt =====
-- What a terminal shows: the bytes of all its writes and of its buffer.
use teatime_os.Base.{
  ℕ, List, [], ◌∷◌, ◌++◌, ◌≡◌, refl, ap, sym, ◌∙◌, false, inl, inr, length, ◌≤◌, ◌<◌, arith, All,
  Bool-cases, ==→eq, length-append, ◌==◌, append_assoc, append_nil, All-append,
}
use teatime_os.Terminal.Output.{Term, term_put, term_put_char, term_flush}

abbrev pub written : List (List ℕ) → List ℕ
written [] = []
written (w ∷ ws) = w ++ written ws

abbrev pub shown : Term → List ℕ
shown t = written t.sent ++ t.out

written-append : (ws vs : List (List ℕ)) → written (ws ++ vs) ≡ written ws ++ written vs
written-append [] vs = refl
written-append (w ∷ ws) vs =
    ap (λ s. w ++ s) (written-append ws vs) ∙ sym (append_assoc w (written ws) (written vs))

-- From one terminal to another, these bytes have come to what it shows, and nothing else changed.
pub record Wrote (s : List ℕ) (t u : Term) : Type 0 where
  pub bytes : shown u ≡ shown t ++ s
  pub same_line : u.line ≡ t.line
  pub same_state : u.state ≡ t.state

pub nothing-Wrote : (t : Term) → Wrote [] t t
nothing-Wrote t = record { bytes = sym (append_nil (shown t)); same_line = refl; same_state = refl }

pub both-Wrote : (s r : List ℕ) (t u v : Term) → Wrote s t u → Wrote r u v → Wrote (s ++ r) t v
both-Wrote s r t u v h k = record {
  bytes = k.bytes ∙ ap (λ b. b ++ r) h.bytes ∙ append_assoc (shown t) s r;
  same_line = k.same_line ∙ h.same_line;
  same_state = k.same_state ∙ h.same_state;
}

-- The buffer has room, and each write is of some bytes, no more than the buffer has.
pub record IsBuffered (t : Term) : Type 0 where
  pub room : length t.out ≤ 256
  pub writes : All (λ w. (0 < length w) × (length w ≤ 256)) t.sent

flushed_shown : (t : Term) → shown (term_flush t) ≡ shown t
flushed_shown t = elim (Bool-cases (length t.out == 0)) [
  | inl e ↦
      unfold term_flush in
      (rw e (ap (λ b. written t.sent ++ b) (sym (empty t.out (==→eq (length t.out) 0 e)))))
  | inr e ↦
      unfold term_flush in
      (rw e (
        append_nil (written (t.sent ++ t.out ∷ []))
        ∙ written-append t.sent (t.out ∷ [])
        ∙ ap (λ b. written t.sent ++ b) (append_nil t.out)))
]
  where
    empty : (s : List ℕ) → length s ≡ 0 → s ≡ []
    empty [] h = refl
    empty (c ∷ s) h = absurd (omega (arith, h))

pub term_flush-Wrote : (t : Term) → Wrote [] t (term_flush t)
term_flush-Wrote t = record {
  bytes = flushed_shown t ∙ sym (append_nil (shown t));
  same_line = unfold term_flush in refl;
  same_state = unfold term_flush in refl;
}

some_bytes : (s : List ℕ) → (length s == 0) ≡ false → 0 < length s
some_bytes [] h = cc
some_bytes (c ∷ s) h = omega arith

pub term_flush-IsBuffered : (t : Term) → IsBuffered t → IsBuffered (term_flush t)
term_flush-IsBuffered t v = record { room = unfold term_flush in (omega arith); writes = writes }
  where
    writes : All (λ w. (0 < length w) × (length w ≤ 256)) (term_flush t).sent
    writes = elim (Bool-cases (length t.out == 0)) [
      | inl e ↦ unfold term_flush in (rw e v.writes)
      | inr e ↦
          unfold term_flush in
          (rw e (All-append _ t.sent (t.out ∷ []) v.writes ((some_bytes t.out e, v.room), tt)))
    ]

pub term_put_char-Wrote : (t : Term) (c : ℕ) → Wrote (c ∷ []) t (term_put_char t c)
term_put_char-Wrote t c = elim (Bool-cases (length t.out == 256)) [
  | inl e ↦
      unfold term_put_char in
      (rw e (both-Wrote [] (c ∷ []) t (term_flush t) _ (term_flush-Wrote t) (put (term_flush t))))
  | inr e ↦ unfold term_put_char in (rw e (put t))
]
  where
    put : (u : Term) → Wrote (c ∷ []) u (record u { out = u.out ++ c ∷ [] })
    put u = record {
      bytes = sym (append_assoc (written u.sent) u.out (c ∷ []));
      same_line = refl;
      same_state = refl;
    }

pub term_put_char-IsBuffered : (t : Term) (c : ℕ) → IsBuffered t → IsBuffered (term_put_char t c)
term_put_char-IsBuffered t c v = elim (Bool-cases (length t.out == 256)) [
  | inl e ↦
      unfold term_put_char in
      (rw e (record {
        room = unfold term_flush in (omega arith);
        writes = (term_flush-IsBuffered t v).writes;
      }))
  | inr e ↦
      unfold term_put_char in
      (rw e (record {
        room = ground (arith, e, v.room, length-append t.out (c ∷ []));
        writes = v.writes;
      }))
]

-- However full the buffer is, the bytes of a text come to what is shown, in order and once, and
-- the line and the state stay as they are.
pub term_put-Wrote : (t : Term) (s : List ℕ) → Wrote s t (term_put t s)
unfolding term_put
term_put-Wrote t [] = nothing-Wrote t
term_put-Wrote t (c ∷ s) =
    both-Wrote (c ∷ []) s t (term_put_char t c) _ (term_put_char-Wrote t c)
      (term_put-Wrote (term_put_char t c) s)

pub term_put-IsBuffered : (t : Term) (s : List ℕ) → IsBuffered t → IsBuffered (term_put t s)
unfolding term_put
term_put-IsBuffered t [] v = v
term_put-IsBuffered t (c ∷ s) v =
    term_put-IsBuffered (term_put_char t c) s (term_put_char-IsBuffered t c v)
