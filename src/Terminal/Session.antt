-- ===== src/Terminal/Session.antt =====
-- src/app/term/term_session.c, include/term_command.h: the handling of keys and of a line. The table
-- of commands is an argument; a key carries what echo_enabled says when it is handled.
pub mod Keys
pub mod Bounds
pub mod Commands
use teatime_os.Base.{
  ℕ, zero, suc, ◌-◌, ◌<◌, ◌≤◌, Bool, true, false, ◌&&◌, List, [], ◌∷◌, ◌++◌, length, take, ltb, leb,
  ◌==◌, if◌then◌else◌,
}
use teatime_os.Crypto.Ccm.{same_bytes}
use teatime_os.Terminal.Line.{build_args}
use teatime_os.Terminal.Output.{
  State, normal, line_end, escape, csi, ss3, done, Term, line_max, newline, term_flush, term_put,
  term_put_char,
}

pub record Command : Type 0 where
  pub name : List ℕ
  pub help : List ℕ
  pub run : Term → List (List ℕ) → Term

pub record Key : Type 0 where
  pub char : ℕ
  pub echo : Bool

-- The texts of the source: "> ", "\b \b", "help", "help - this list", " - ", "unknown command: ".
abbrev pub prompt : List ℕ
prompt = 62 ∷ 32 ∷ []

abbrev pub erase : List ℕ
erase = 8 ∷ 32 ∷ 8 ∷ []

abbrev pub help_name : List ℕ
help_name = 104 ∷ 101 ∷ 108 ∷ 112 ∷ []

abbrev pub dash : List ℕ
dash = 32 ∷ 45 ∷ 32 ∷ []

abbrev pub help_line : List ℕ
help_line = help_name ++ dash ++ (116 ∷ 104 ∷ 105 ∷ 115 ∷ 32 ∷ 108 ∷ 105 ∷ 115 ∷ 116 ∷ [])

abbrev pub unknown : List ℕ
unknown =
    117 ∷ 110 ∷ 107 ∷ 110 ∷ 111 ∷ 119 ∷ 110 ∷ 32 ∷ 99 ∷ 111 ∷ 109 ∷ 109 ∷ 97 ∷ 110 ∷ 100 ∷ 58 ∷ 32
    ∷ []

unfoldable pub list_loop : List Command → Term → Term
unfolding term_put
list_loop [] t = t
list_loop (c ∷ cs) t =
    list_loop cs (term_put (term_put (term_put (term_put t c.name) dash) c.help) newline)

unfoldable pub list_commands : List Command → Term → Term
unfolding list_loop term_put
list_commands cs t = list_loop cs (term_put (term_put t help_line) newline)

-- The first command of that name runs.
unfoldable pub run_command : List Command → List ℕ → List (List ℕ) → Term → Term
unfolding term_put same_bytes
run_command [] name args t = term_put (term_put (term_put t unknown) name) newline
run_command (c ∷ cs) name args t = elim (same_bytes name c.name) [
  | true ↦ c.run t args
  | false ↦ run_command cs name args t
]

unfoldable pub run_args : List Command → Term → List (List ℕ) → Term
unfolding list_commands run_command same_bytes
run_args cs t [] = t
run_args cs t (name ∷ args) =
    if same_bytes name help_name then list_commands cs t else run_command cs name (name ∷ args) t

unfoldable pub run_line : List Command → Term → Term
unfolding build_args run_args
run_line cs t = run_args cs t (build_args 8 t.line)

unfoldable pub erase_loop : ℕ → Term → Term
unfolding term_put
erase_loop zero t = t
erase_loop (suc n) t = erase_loop n (term_put t erase)

-- KEY_KILL_LINE and KEY_BACKSPACE: what is left of the line, and an erase for each character less.
unfoldable pub shorten : Bool → List ℕ → Term → Term
unfolding erase_loop
shorten echo rest t =
    let gone = length t.line - length rest in
    let u = record t { line = rest } in if echo then erase_loop gone u else u

abbrev pub is_done : State → Bool
is_done s = elim s [
  | done ↦ true
  | normal ↦ false
  | line_end ↦ false
  | escape ↦ false
  | csi ↦ false
  | ss3 ↦ false
]

-- A line that has run is emptied, and the prompt follows unless the session is done.
unfoldable pub end_run : Term → Term
unfolding term_put
end_run t = let v = record t { line = [] } in if is_done v.state then v else term_put v prompt

-- The last case of KEY_RETURN and KEY_NEWLINE.
unfoldable pub end_line : List Command → Bool → Term → Term
unfolding run_line end_run term_put
end_line cs echo t = end_run (run_line cs (if echo then term_put t newline else t))

abbrev pub is_printable : ℕ → Bool
is_printable c = leb 32 c && leb c 126

-- The default case.
unfoldable pub add_char : Key → Term → Term
unfolding term_put_char
add_char k t =
    let u = record t { line = t.line ++ k.char ∷ [] } in
    if is_printable k.char && ltb (length t.line) (line_max - 1)
    then (if k.echo then term_put_char u k.char else u)
    else t

unfoldable pub term_handle_normal : List Command → Key → Term → Term
unfolding shorten end_line add_char
term_handle_normal cs k t =
    if k.char == 0x15
    then shorten k.echo [] t
    else if k.char == 0x08
    then shorten k.echo (take (length t.line - 1) t.line) t
    else if k.char == 0x7f
    then shorten k.echo (take (length t.line - 1) t.line) t
    else if k.char == 13
    then end_line cs k.echo (record t { state = line_end })
    else if k.char == 10
    then end_line cs k.echo t
    else if k.char == 0x1b
    then record t { state = escape }
    else add_char k t

unfoldable pub term_handle_line_end : List Command → Key → Term → Term
unfolding term_handle_normal
term_handle_line_end cs k t =
    let u = record t { state = normal } in if k.char == 10 then u else term_handle_normal cs k u

unfoldable pub term_handle_escape : Key → Term → Term
term_handle_escape k t = record t {
  state = if k.char == 91 then csi else if k.char == 79 then ss3 else normal;
}

abbrev pub is_final : ℕ → Bool
is_final c = leb 0x40 c && leb c 0x7e

unfoldable pub term_handle_csi : Key → Term → Term
term_handle_csi k t = if is_final k.char then record t { state = normal } else t

unfoldable pub term_handle_ss3 : Key → Term → Term
term_handle_ss3 k t = if is_final k.char then record t { state = normal } else t

unfoldable pub term_handle_key : List Command → Key → Term → Term
unfolding term_handle_normal term_handle_line_end term_handle_escape term_handle_csi term_handle_ss3
term_handle_key cs k t = elim t.state [
  | normal ↦ term_handle_normal cs k t
  | line_end ↦ term_handle_line_end cs k t
  | escape ↦ term_handle_escape k t
  | csi ↦ term_handle_csi k t
  | ss3 ↦ term_handle_ss3 k t
  | done ↦ t
]

unfoldable pub parse_loop : List Command → List Key → Term → Term
unfolding term_handle_key
parse_loop cs [] t = t
parse_loop cs (k ∷ ks) t = parse_loop cs ks (term_handle_key cs k t)

abbrev pub term_parse_buf : List Command → List Key → Term → Term
term_parse_buf cs ks t = term_flush (parse_loop cs ks t)

-- `while (t.state != TERM_DONE)`: the keys of each read, and the end of the file after them.
unfoldable pub session_loop : List Command → List (List Key) → Term → Term
unfolding parse_loop term_flush
session_loop cs [] t = t
session_loop cs ([] ∷ reads) t = t
session_loop cs ((k ∷ ks) ∷ reads) t = elim (is_done t.state) [
  | true ↦ t
  | false ↦ session_loop cs reads (term_parse_buf cs (k ∷ ks) t)
]

unfoldable pub term_session : List Command → List (List Key) → Term
unfolding session_loop term_put term_flush
term_session cs reads =
    session_loop cs reads
      (term_flush (term_put (record { line = []; state = normal; out = []; sent = [] }) prompt))
