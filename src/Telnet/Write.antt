-- ===== src/Telnet/Write.antt =====
-- `telnet_write`: data with every IAC doubled.
use teatime_os.Base.{ℕ, Bool, true, false, List, [], ◌∷◌, ◌++◌, ◌==◌, if◌then◌else◌}

-- What is left when the loop has ended, if anything.
abbrev pub last_piece : List ℕ → List (List ℕ)
last_piece [] = []
last_piece (c ∷ s) = (c ∷ s) ∷ []

-- The writes to the connection, in order: `since` are the bytes from `write_start` to the current.
unfoldable pub pieces : List ℕ → List ℕ → List (List ℕ)
pieces since [] = last_piece since
pieces since (c ∷ buf) =
    let escaped = pieces [] buf in
    let further = pieces (since ++ (c ∷ [])) buf in
    if c == 255 then (since ++ (c ∷ [])) ∷ (255 ∷ []) ∷ escaped else further

-- The writes that are made when `ok` says which succeed, and whether all did.
unfoldable pub write_pieces : (List ℕ → Bool) → List (List ℕ) → List (List ℕ) × Bool
write_pieces ok [] = ([], true)
write_pieces ok (p ∷ rest) =
    let o = write_pieces ok rest in if ok p then (p ∷ o.0, o.1) else (p ∷ [], false)

unfoldable pub telnet_write : (List ℕ → Bool) → List ℕ → List (List ℕ) × Bool
unfolding pieces write_pieces
telnet_write ok buf = write_pieces ok (pieces [] buf)
