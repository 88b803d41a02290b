-- ===== src/Terminal/Line.antt =====
-- src/app/term/term_session.c: how a line is cut into arguments. A line ends where its list does.
pub mod Spread
use teatime_os.Base.{ℕ, zero, suc, Bool, true, false, not, List, [], ◌∷◌, ◌==◌, if◌then◌else◌}

abbrev pub space : ℕ
space = 32

unfoldable pub skip_spaces : List ℕ → List ℕ
skip_spaces [] = []
skip_spaces (c ∷ s) = elim (c == space) [ true ↦ skip_spaces s | false ↦ c ∷ s ]

-- The characters in front of `arg_end`, and what follows the space that stands there.
unfoldable pub arg_of : List ℕ → List ℕ
arg_of [] = []
arg_of (c ∷ s) = elim (c == space) [ true ↦ [] | false ↦ c ∷ arg_of s ]

unfoldable pub after_arg : List ℕ → List ℕ
after_arg [] = []
after_arg (c ∷ s) = elim (c == space) [ true ↦ s | false ↦ after_arg s ]

-- At most so many arguments.
unfoldable pub build_args : ℕ → List ℕ → List (List ℕ)
unfolding skip_spaces arg_of after_arg
build_args zero line = []
build_args (suc left) line = elim (skip_spaces line) [
  | [] ↦ []
  | c ∷ s ↦ arg_of (c ∷ s) ∷ build_args left (after_arg (c ∷ s))
]
