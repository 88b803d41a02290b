-- ===== src/Telnet/Escapes.antt =====
-- What telnet_write sends reads back as the data.
use teatime_os.Base.{
  append_nil, append_assoc, ℕ, ◌≡◌, refl, sym, ap, ◌∙◌, subst, Bool, true, inl, inr, List, [], ◌∷◌,
  ◌++◌, ◌==◌, if◌then◌else◌, Bool-cases, ==→eq,
}
use teatime_os.Tcp.Transfers.{joined}
use teatime_os.Telnet.Options.{State, Telnet}
use teatime_os.Telnet.Process.{process, process_in, process_data, process_command, process_all}
use teatime_os.Telnet.Write.{last_piece, pieces, write_pieces, telnet_write}

abbrev pub escaped : List ℕ → List ℕ
escaped [] = []
escaped (c ∷ buf) = if c == 255 then 255 ∷ 255 ∷ escaped buf else c ∷ escaped buf

joined-last_piece : (s : List ℕ) → joined (last_piece s) ≡ s
joined-last_piece [] = refl
joined-last_piece (c ∷ s) = append_nil (c ∷ s)

joined-pieces : (since buf : List ℕ) → joined (pieces since buf) ≡ since ++ escaped buf
unfolding pieces
joined-pieces since [] = joined-last_piece since ∙ sym (append_nil since)
joined-pieces since (c ∷ buf) = elim (Bool-cases (c == 255)) [
  | inl e ↦
      let c255 = ==→eq c 255 e in
      rw e (
        ap (λ l. (since ++ (c ∷ [])) ++ (255 ∷ l)) (joined-pieces [] buf)
        ∙ append_assoc since (c ∷ []) (255 ∷ escaped buf)
        ∙ ap (λ x. since ++ (x ∷ 255 ∷ escaped buf)) c255)
  | inr e ↦ rw e (joined-pieces (since ++ (c ∷ [])) buf ∙ append_assoc since (c ∷ []) (escaped buf))
]

abbrev data_first : Telnet → Telnet
data_first t = record t { state = State.at_data }

process_all-data :
    (t : Telnet) (buf : List ℕ) → process_all (data_first t) (escaped buf) ≡ (data_first t, buf)
unfolding process_all process process_in process_data process_command
process_all-data t [] = refl
process_all-data t (c ∷ buf) = elim (Bool-cases (c == 255)) [
  | inl e ↦ rw e (
      ap (λ (o : Telnet × List ℕ). (o.0, 255 ∷ o.1)) (process_all-data t buf)
      ∙ ap (λ x. (data_first t, x ∷ buf)) (sym (==→eq c 255 e)))
  | inr e ↦ rw (e, e) (ap (λ (o : Telnet × List ℕ). (o.0, c ∷ o.1)) (process_all-data t buf))
]

process_all-escaped :
    (t : Telnet) (buf : List ℕ) → t.state ≡ State.at_data → process_all t (escaped buf) ≡ (t, buf)
process_all-escaped t buf e =
    let same : data_first t ≡ t = ap (λ s. record t { state = s }) (sym e) in
    subst (λ u. process_all u (escaped buf) ≡ (u, buf)) same (process_all-data t buf)

write_all : (ps : List (List ℕ)) → write_pieces (λ _. true) ps ≡ (ps, true)
unfolding write_pieces
write_all [] = refl
write_all (p ∷ ps) = ap (λ (o : List (List ℕ) × Bool). (p ∷ o.0, o.1)) (write_all ps)

-- On a connection whose writes succeed, the bytes that `telnet_write` sends, read by a telnet that
-- expects data, are exactly the bytes that were written, IACs included, and start no command.
pub telnet_write_roundtrip :
    (t : Telnet) (buf : List ℕ)
    → t.state ≡ State.at_data
    → process_all t (joined (telnet_write (λ _. true) buf).0) ≡ (t, buf)
unfolding telnet_write
telnet_write_roundtrip t buf e =
    ap (λ (o : List (List ℕ) × Bool). process_all t (joined o.0)) (write_all (pieces [] buf))
    ∙ ap (process_all t) (joined-pieces [] buf)
    ∙ process_all-escaped t buf e
