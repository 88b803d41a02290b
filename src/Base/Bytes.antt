-- ===== src/Base/Bytes.antt =====
-- Numbers in a list of bytes: in network order, and in the order of this little-endian machine.
use Prim.Native.Nat.{ℕ, ◌+◌, ◌*◌, ◌/◌, ◌%◌, ◌<◌}
use mathlib.Core.Bool.{Bool}
use mathlib.Core.List.{List, [], ◌∷◌}
use teatime_os.Base.Tests.{◌==◌}
use teatime_os.Base.Lists.{get_or, All}

abbrev pub byte : List ℕ → ℕ → ℕ
byte seg i = get_or seg i 0

abbrev pub word16 : List ℕ → ℕ → ℕ
word16 seg i = byte seg i * 256 + byte seg (i + 1)

abbrev pub word32 : List ℕ → ℕ → ℕ
word32 seg i = word16 seg i * 65536 + word16 seg (i + 2)

abbrev pub bit : ℕ → ℕ → Bool
bit b weight = (b / weight % 2) == 1

-- `htons(v)` as it lies in memory.
abbrev pub bytes16 : ℕ → List ℕ
bytes16 v = (v / 256 % 256) ∷ (v % 256) ∷ []

-- A word that is stored as it is, and read as it is.
abbrev pub native16 : ℕ → List ℕ
native16 v = (v % 256) ∷ (v / 256 % 256) ∷ []

abbrev pub native32 : ℕ → List ℕ
native32 v = (v % 256) ∷ (v / 256 % 256) ∷ (v / 65536 % 256) ∷ (v / 16777216 % 256) ∷ []

abbrev pub native_word32 : List ℕ → ℕ → ℕ
native_word32 seg i =
    byte seg i + byte seg (i + 1) * 256 + byte seg (i + 2) * 65536 + byte seg (i + 3) * 16777216

abbrev pub AreBytes : List ℕ → Type 0
AreBytes s = All (λ (c : ℕ). c < 256) s
