-- ===== src/Tcp/Stream.antt =====
-- The reader gets the peer's bytes in order, each once.
use teatime_os.Base.{
  append_assoc, zero, suc, [], ◌∷◌, dec_lt, false, ℕ, ◌+◌, ◌-◌, ◌^◌, ◌≤◌, ◌<◌, ◌≡◌, sym, ap, refl,
  ◌∙◌, subst, true, not, ◌||◌, inl, inr, List, ◌++◌, length, get_or, take, drop, arith, ltb, ◌==◌,
  Bool-cases, ==→eq, ltb→lt, add32, sub32, length-append, get_or-append_left, get_or-append_right,
  take-append_drop,
}
use teatime_os.Tcp.Ring.{Ring, rx_room, smaller, rx_put, rx_get}
use teatime_os.Tcp.Fifo.{Holds, rx_put-Holds, rx_get-Holds}
use teatime_os.Tcp.State.{Header, Tcp, is_established, is_closed, send, send_segment}
use teatime_os.Tcp.Receive.{Progress, accept_data, recv_data}
use teatime_os.Tcp.Calls.{ReadResult, read}

-- `bytes` are the first bytes of the stream `s`.
abbrev pub Begins : (ℕ → ℕ) → List ℕ → Type 0
Begins s bytes = (i : ℕ) → i < length bytes → get_or bytes i 0 ≡ s i

-- Of the peer's stream `s`, whose first byte has the sequence number `base`, the bytes `delivered`
-- have been read, those of the ring come next, and rcv_nxt is the number of the byte after them.
pub record InOrder (s : ℕ → ℕ) (base : ℕ) (delivered : List ℕ) (ring : Ring) (rcv_nxt : ℕ)
    : Type 0 where
  pub waiting : List ℕ
  pub holds : Holds ring waiting
  pub next : rcv_nxt ≡ add32 base (length (delivered ++ waiting))
  pub begins : Begins s (delivered ++ waiting)

abbrev pub InStream : (ℕ → ℕ) → ℕ → List ℕ → Tcp → Type 0
InStream s base delivered t = InOrder s base delivered t.ring t.rcv_nxt

Begins-append :
    (s : ℕ → ℕ) (xs ys : List ℕ)
    → Begins s xs
    → ((i : ℕ) → i < length ys → get_or ys i 0 ≡ s (length xs + i))
    → Begins s (xs ++ ys)
Begins-append s xs ys a b i h = elim (Bool-cases (ltb i (length xs))) [
  | inl e ↦ get_or-append_left xs ys i 0 (ltb→lt i (length xs) e) ∙ a i (ltb→lt i (length xs) e)
  | inr e ↦
      let behind : length xs ≤ i = ground (arith, e) in
      get_or-append_right xs ys i 0 behind
      ∙ b (i - length xs) (omega (arith, h, length-append xs ys, behind))
      ∙ ap s (omega (arith, behind))
]

abbrev pub after : Progress → Tcp
after (Progress.returned t) = t
after (Progress.goes_on t) = t

-- A segment carries the bytes of the stream from position `pos` on, a position less than 2 ^ 32
-- away from what was received last.
pub record Carries (s : ℕ → ℕ) (base received : ℕ) (h : Header) (payload : List ℕ) : Type 0 where
  pub pos : ℕ
  pub numbered : h.seq ≡ add32 base pos
  pub not_ahead : pos < received + 2 ^ 32
  pub not_behind : received < pos + 2 ^ 32
  pub carried : (i : ℕ) → i < length payload → get_or payload i 0 ≡ s (pos + i)

same_position :
    (base pos n : ℕ) → add32 base pos ≡ add32 base n → pos < n + 2 ^ 32 → n < pos + 2 ^ 32 → pos ≡ n
same_position base pos n e a b = omega arith

-- What is accepted comes next in the stream.
appended :
    (s : ℕ → ℕ) (base : ℕ) (delivered : List ℕ) (t : Tcp) (h : Header) (payload : List ℕ)
    → (v : InStream s base delivered t) → Carries s base (length (delivered ++ v.waiting)) h payload
    → h.seq ≡ t.rcv_nxt
    → length payload ≤ rx_room t.ring
    → InStream s base delivered
        (record t { rcv_nxt = add32 t.rcv_nxt (length payload); ring = rx_put t.ring payload })
appended s base delivered t h payload v c e fits =
    let here : c.pos ≡ length (delivered ++ v.waiting) =
      same_position base c.pos (length (delivered ++ v.waiting)) (sym c.numbered ∙ e ∙ v.next)
        c.not_ahead c.not_behind in
    let assoc = append_assoc delivered v.waiting payload in
    record {
      waiting = v.waiting ++ payload;
      holds = rx_put-Holds t.ring v.waiting payload v.holds fits;
      next = omega (arith, v.next, ap length assoc, length-append (delivered ++ v.waiting) payload);
      begins = subst (Begins s) assoc (
          Begins-append s (delivered ++ v.waiting) payload v.begins
            (λ i g. c.carried i g ∙ ap (λ p. s (p + i)) here));
    }

-- On an established connection a segment's data, which may come late, twice or out of order, leaves
-- the bytes that were read and those in the ring the beginning of the peer's stream.
pub recv_data-InStream :
    (s : ℕ → ℕ) (base : ℕ) (delivered : List ℕ) (t : Tcp) (h : Header) (payload : List ℕ)
    → is_established t.state ≡ true
    → (v : InStream s base delivered t) → Carries s base (length (delivered ++ v.waiting)) h payload
    → InStream s base delivered (after (recv_data t h payload))
unfolding recv_data send send_segment accept_data
recv_data-InStream s base delivered t h payload est v c = elim (Bool-cases (length payload == 0)) [
  | inl a ↦ rw a v
  | inr a ↦ elim (Bool-cases (not (h.seq == t.rcv_nxt) || ltb (rx_room t.ring) (length payload))) [
    | inl b ↦ rw (a, b) v
    | inr b ↦
        rw (a, b, est)
          (appended s base delivered t h payload v c (ground (arith, b)) (ground (arith, b)))
  ]
]

-- With the bytes `waiting` in the ring, the outcome of a read of at most `n` bytes.
abbrev pub InRead : (ℕ → ℕ) → ℕ → List ℕ → List ℕ → Tcp → ℕ → ReadResult → Type 0
InRead s base delivered waiting t n (ReadResult.got t' bytes) =
    InStream s base (delivered ++ bytes) t' × (bytes ≡ take n waiting) × (0 < length waiting)
InRead s base delivered waiting t n ReadResult.ended =
    (length waiting ≡ 0) × (t.rx_eof ≡ true) × (t.rcv_nxt ≡ add32 base (length delivered))
InRead s base delivered waiting t n ReadResult.gone =
    (length waiting ≡ 0)
    × (t.rx_eof ≡ false)
    × (is_closed t.state ≡ true)
    × (t.rcv_nxt ≡ add32 base (length delivered))
InRead s base delivered waiting t n ReadResult.waits =
    (length waiting ≡ 0)
    × (t.rx_eof ≡ false)
    × (is_closed t.state ≡ false)
    × (t.rcv_nxt ≡ add32 base (length delivered))

take-smaller : (n : ℕ) (q : List ℕ) → take (smaller n (length q)) q ≡ take n q
take-smaller n q = elim (dec_lt (length q) n) [
  | yes h ↦
      let e : smaller n (length q) ≡ length q = ground (arith, h) in
      ap (λ k. take k q) e ∙ all (length q) q (omega arith) ∙ sym (all n q (omega arith))
  | no h ↦ let e : smaller n (length q) ≡ n = ground (arith, h) in ap (λ k. take k q) e
]
  where
    all : (k : ℕ) (q : List ℕ) → length q ≤ k → take k q ≡ q
    all zero [] h = refl
    all zero (x ∷ q) h = absurd (omega arith)
    all (suc k) [] h = refl
    all (suc k) (x ∷ q) h = ap (λ r. x ∷ r) (all k q (omega arith))

some_waiting :
    (head tail n : ℕ)
    → n ≡ sub32 head tail
    → head < 2 ^ 32
    → tail < 2 ^ 32
    → (head == tail) ≡ false
    → 0 < n
some_waiting head tail n e h k g = ground (arith, e, g)

empty_ring : (head tail n : ℕ) → n ≡ sub32 head tail → head < 2 ^ 32 → head ≡ tail → n ≡ 0
empty_ring head tail n e h g = omega arith

-- A read gives the bytes of the peer's stream that come next: all that is in the ring, or the first
-- `n` of it. Where it does not return bytes, nothing is in the ring, so that all that was received
-- has been read: it returns the end of the file once the peer has finished, or an error on a closed
-- connection, and else it waits.
pub read-InStream :
    (s : ℕ → ℕ) (base : ℕ) (delivered : List ℕ) (t : Tcp) (n : ℕ) (v : InStream s base delivered t)
    → InRead s base delivered v.waiting t n (read t n)
unfolding read
read-InStream s base delivered t n v = elim (Bool-cases (t.ring.rx_head == t.ring.rx_tail)) [
  | inr a ↦
      let k = smaller n (length v.waiting) in
      let o = rx_get-Holds t.ring v.waiting n v.holds in
      let whole : (delivered ++ take k v.waiting) ++ drop k v.waiting ≡ delivered ++ v.waiting =
        append_assoc delivered (take k v.waiting) (drop k v.waiting)
        ∙ ap (λ t. delivered ++ t) (take-append_drop k v.waiting) in
      let taken : InStream s base (delivered ++ take k v.waiting)
          (record t { ring = (rx_get t.ring n).0 }) =
        record {
          waiting = drop k v.waiting;
          holds = o.0;
          next = v.next ∙ ap (λ l. add32 base (length l)) (sym whole);
          begins = subst (Begins s) (sym whole) v.begins;
        } in
      rw a (
        subst (λ l. InStream s base (delivered ++ l) (record t { ring = (rx_get t.ring n).0 }))
            (sym o.1) taken,
        o.1 ∙ take-smaller n v.waiting,
        some_waiting t.ring.rx_head t.ring.rx_tail (length v.waiting) v.holds.size v.holds.head_word
            v.holds.tail_word a,
      )
  | inl a ↦
      let none_there : length v.waiting ≡ 0 =
        empty_ring t.ring.rx_head t.ring.rx_tail (length v.waiting) v.holds.size v.holds.head_word
          (==→eq t.ring.rx_head t.ring.rx_tail a) in
      let all : t.rcv_nxt ≡ add32 base (length delivered) =
        omega (arith, v.next, none_there, length-append delivered v.waiting) in
      elim (Bool-cases t.rx_eof) [
        | inl b ↦ rw (a, b) (none_there, refl, all)
        | inr b ↦ elim (Bool-cases (is_closed t.state)) [
          | inl c ↦ rw (a, b, c) (none_there, refl, c, all)
          | inr c ↦ rw (a, b, c) (none_there, refl, c, all)
        ]
      ]
]
