-- ===== src/Terminal/Output.antt =====
-- src/app/term/term_session.c, include/term.h: the terminal and what it writes. `line` is the list of
-- its `line_len` characters, `out` that of its `out_len`, and `sent` the texts of the calls of write.
pub mod Shown
use teatime_os.Base.{ℕ, List, [], ◌∷◌, ◌++◌, Bool, length, if◌then◌else◌, ◌==◌}

pub data State : Type 0 where
  normal : State
  line_end : State
  escape : State
  csi : State
  ss3 : State
  done : State

pub record Term : Type 0 where
  pub line : List ℕ
  pub state : State
  pub out : List ℕ
  pub sent : List (List ℕ)

abbrev pub out_max : ℕ
out_max = 256

abbrev pub line_max : ℕ
line_max = 80

abbrev pub newline : List ℕ
newline = 13 ∷ 10 ∷ []

unfoldable pub term_flush : Term → Term
term_flush t = record t {
  out = [];
  sent = if length t.out == 0 then t.sent else t.sent ++ t.out ∷ [];
}

unfoldable pub term_put_char : Term → ℕ → Term
unfolding term_flush
term_put_char t c =
    let u = if length t.out == out_max then term_flush t else t in
    record u { out = u.out ++ c ∷ [] }

unfoldable pub term_put : Term → List ℕ → Term
unfolding term_put_char
term_put t [] = t
term_put t (c ∷ s) = term_put (term_put_char t c) s

abbrev pub term_mark_done : Term → Term
term_mark_done t = record t { state = State.done }
