-- ===== src/Terminal/Line/Spread.antt =====
-- Arguments that are spread over a line.
use mathlib.Core.Path.{ap₂}
use teatime_os.Base.{
  ℕ, zero, suc, List, [], ◌∷◌, ◌++◌, ◌≡◌, refl, ap, ◌∙◌, false, map, take, All, ◌==◌,
}
use teatime_os.Terminal.Line.{space, skip_spaces, arg_of, after_arg, build_args}

abbrev pub AreLetters : List ℕ → Type 0
AreLetters w = All (λ c. (c == space) ≡ false) w

-- A word behind any number of spaces.
pub record Arg : Type 0 where
  pub spaces : ℕ
  pub first : ℕ
  pub rest : List ℕ

abbrev pub word : Arg → List ℕ
word a = a.first ∷ a.rest

abbrev blank : ℕ → List ℕ → List ℕ
blank zero s = s
blank (suc n) s = space ∷ blank n s

abbrev pub spread : List Arg → List ℕ
spread [] = []
spread (a ∷ []) = blank a.spaces (word a)
spread (a ∷ b ∷ args) = blank a.spaces (word a ++ space ∷ spread (b ∷ args))

skip_spaces-blank :
    (n c : ℕ) (s : List ℕ) → (c == space) ≡ false → skip_spaces (blank n (c ∷ s)) ≡ c ∷ s
unfolding skip_spaces
skip_spaces-blank zero c s h = rw (h, skip_spaces) refl
skip_spaces-blank (suc n) c s h = skip_spaces-blank n c s h

arg_of-word : (w s : List ℕ) → AreLetters w → arg_of (w ++ space ∷ s) ≡ w
unfolding arg_of
arg_of-word [] s h = refl
arg_of-word (c ∷ w) s h = rw (h.0, arg_of) (ap (λ l. c ∷ l) (arg_of-word w s h.1))

arg_of_last : (w : List ℕ) → AreLetters w → arg_of w ≡ w
unfolding arg_of
arg_of_last [] h = refl
arg_of_last (c ∷ w) h = rw (h.0, arg_of) (ap (λ l. c ∷ l) (arg_of_last w h.1))

after_arg-word : (w s : List ℕ) → AreLetters w → after_arg (w ++ space ∷ s) ≡ s
unfolding after_arg
after_arg-word [] s h = refl
after_arg-word (c ∷ w) s h = rw (h.0, after_arg) (after_arg-word w s h.1)

after_arg_last : (w : List ℕ) → AreLetters w → after_arg w ≡ []
unfolding after_arg
after_arg_last [] h = refl
after_arg_last (c ∷ w) h = rw (h.0, after_arg) (after_arg_last w h.1)

build_args_step :
    (n left c : ℕ) (s : List ℕ)
    → (c == space) ≡ false
    → build_args (suc left) (blank n (c ∷ s)) ≡ arg_of (c ∷ s) ∷ build_args left (after_arg (c ∷ s))
unfolding build_args
build_args_step n left c s h = rw (build_args, skip_spaces-blank n c s h) refl

build_args_end : (left : ℕ) → build_args left [] ≡ []
build_args_end zero = unfold build_args in refl
build_args_end (suc left) = unfold build_args skip_spaces in refl

-- Words that are spread over a line with any number of spaces in front of each, and at least one
-- between two, are the arguments in their order, up to the number that there is room for.
pub build_args-spread :
    (left : ℕ) (args : List Arg)
    → All (λ a. AreLetters (word a)) args
    → build_args left (spread args) ≡ take left (map word args)
build_args-spread zero [] h = build_args_end zero
build_args-spread (suc left) [] h = build_args_end (suc left)
build_args-spread zero (a ∷ args) h = unfold build_args in refl
build_args-spread (suc left) (a ∷ []) h =
    build_args_step a.spaces left a.first a.rest h.0.0
    ∙ ap₂ ◌∷◌ (arg_of_last (word a) h.0)
        (ap (build_args left) (after_arg_last (word a) h.0) ∙ build_args-spread left [] tt)
build_args-spread (suc left) (a ∷ b ∷ args) h =
    build_args_step a.spaces left a.first (a.rest ++ space ∷ spread (b ∷ args)) h.0.0
    ∙ ap₂ ◌∷◌ (arg_of-word (word a) (spread (b ∷ args)) h.0) (
        ap (build_args left) (after_arg-word (word a) (spread (b ∷ args)) h.0)
        ∙ build_args-spread left (b ∷ args) h.1)
