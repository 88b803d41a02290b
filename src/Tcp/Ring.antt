-- ===== src/Tcp/Ring.antt =====
-- The receive ring of RX_RING_SIZE = 2048 bytes.
use teatime_os.Base.{
  ℕ, zero, suc, ◌+◌, ◌-◌, ◌%◌, List, [], ◌∷◌, ◌++◌, length, take, drop, ltb, if◌then◌else◌, add32,
  sub32,
}
use teatime_os.Runtime.Memory.{Memory, store}

pub record Ring : Type 0 where
  pub rx_head : ℕ
  pub rx_tail : ℕ
  pub bytes : Memory

unfoldable pub rx_room : Ring → ℕ
rx_room r = sub32 2048 (sub32 r.rx_head r.rx_tail)

-- memcpy of a list to the ring, and from the ring to a list.
unfoldable pub copy_in : Memory → ℕ → List ℕ → Memory
copy_in m at [] = m
copy_in m at (c ∷ s) = copy_in (store m at c) (at + 1) s

unfoldable pub copy_out : Memory → ℕ → ℕ → List ℕ
copy_out m at zero = []
copy_out m at (suc n) = m at ∷ copy_out m (at + 1) n

abbrev pub smaller : ℕ → ℕ → ℕ
smaller a b = if ltb b a then b else a

unfoldable pub rx_put : Ring → List ℕ → Ring
unfolding copy_in
rx_put r payload =
    let at = r.rx_head % 2048 in
    let first = smaller (2048 - at) (length payload) in
    record r {
      bytes = copy_in (copy_in r.bytes at (take first payload)) 0 (drop first payload);
      rx_head = add32 r.rx_head (length payload);
    }

unfoldable pub rx_get : Ring → ℕ → Ring × List ℕ
unfolding copy_out
rx_get r wanted =
    let avail = sub32 r.rx_head r.rx_tail in
    let n = smaller wanted avail in
    let at = r.rx_tail % 2048 in
    let first = smaller (2048 - at) n in
    (
      record r { rx_tail = add32 r.rx_tail n },
      copy_out r.bytes at first ++ copy_out r.bytes 0 (n - first),
    )
