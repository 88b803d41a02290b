-- ===== src/Tcp/Fifo.antt =====
-- The receive ring is a queue of bytes.
use mathlib.Core.Path.{ap₂}
use teatime_os.Base.{
  ℕ, suc, ◌+◌, ◌-◌, ◌%◌, ◌^◌, ◌≤◌, ◌<◌, ◌≡◌, refl, sym, ap, ◌∙◌, subst, inl, inr, ◌&&◌, List, [],
  ◌∷◌, ◌++◌, length, get_or, take, drop, arith, ltb, leb, ◌==◌, if◌then◌else◌, Bool-cases, ==→eq,
  leb→le, ltb→lt, lt→ltb, le→ltb, add32, sub32, length-take, length-drop, length-append,
  get_or-take, get_or-drop, get_or-append_left, get_or-append_right, take-append_drop,
}
use teatime_os.Runtime.Memory.{Memory, store}
use teatime_os.Tcp.Ring.{Ring, rx_room, copy_in, copy_out, smaller, rx_put, rx_get}

-- The bytes between the tail and the head, in order.
pub record Holds (r : Ring) (q : List ℕ) : Type 0 where
  pub size : length q ≡ sub32 r.rx_head r.rx_tail
  pub at : (i : ℕ) → i < length q → get_or q i 0 ≡ r.bytes ((r.rx_tail + i) % 2048)
  pub head_word : r.rx_head < 2 ^ 32
  pub tail_word : r.rx_tail < 2 ^ 32
  pub small : length q ≤ 2048

copy_in_lem :
    (m : Memory) (at : ℕ) (s : List ℕ) (k : ℕ)
    → copy_in m at s k ≡ (if leb at k && ltb k (at + length s) then get_or s (k - at) 0 else m k)
unfolding copy_in
copy_in_lem m at [] k = ground arith
copy_in_lem m at (c ∷ s) k = copy_in_lem (store m at c) (at + 1) s k ∙ first at s m k
  where
    first :
        (at : ℕ) (s : List ℕ) (m : Memory) (k : ℕ)
        → (if leb (at + 1) k && ltb k (at + 1 + length s)
            then get_or s (k - (at + 1)) 0
            else store m at c k)
          ≡ (if leb at k && ltb k (at + suc (length s)) then get_or (c ∷ s) (k - at) 0 else m k)
    first at s m k = elim (Bool-cases (ltb at k)) [
      | inl e ↦
          let next : get_or (c ∷ s) (k - at) 0 ≡ get_or s (k - (at + 1)) 0 =
            ap (λ i. get_or (c ∷ s) i 0) (later at k (ground (arith, e))) in
          ground (arith, next)
      | inr e ↦ elim (Bool-cases (at == k)) [
        | inl g ↦
            let here : get_or (c ∷ s) (k - at) 0 ≡ c =
              ap (λ i. get_or (c ∷ s) i 0) (now at k (==→eq at k g)) in
            ground (arith, here)
        | inr g ↦ ground arith
      ]
    ]
      where
        later : (at k : ℕ) → at < k → k - at ≡ suc (k - (at + 1))
        later at k h = omega arith

        now : (at k : ℕ) → at ≡ k → k - at ≡ 0
        now at k h = omega arith

slot_ahead : (at k : ℕ) → at < 2048 → k < 2048 → at ≤ k → (k + 2048 - at) % 2048 ≡ k - at
slot_ahead at k h g e = omega arith

slot_behind : (at k : ℕ) → k < at → at < 2048 → (k + 2048 - at) % 2048 ≡ k + 2048 - at
slot_behind at k e h = omega arith

-- Slot `k` of the ring after a put of `payload` at slot `at`.
written_lem :
    (m : Memory) (at : ℕ) (payload : List ℕ) (k : ℕ)
    → at < 2048
    → length payload ≤ 2048
    → k < 2048
    → let first = smaller (2048 - at) (length payload) in
      copy_in (copy_in m at (take first payload)) 0 (drop first payload) k ≡ (
        if ltb ((k + 2048 - at) % 2048) (length payload)
        then get_or payload ((k + 2048 - at) % 2048) 0
        else m k)
written_lem m at payload k ha hp hk =
    let first = smaller (2048 - at) (length payload) in
    let front : first ≤ length payload = ground arith in
    let front' : first ≤ 2048 - at = ground arith in
    let a = copy_in_lem m at (take first payload) k in
    let b = copy_in_lem (copy_in m at (take first payload)) 0 (drop first payload) k in
    let la = length-take first payload front in
    let lb = length-drop first payload in
    elim (Bool-cases (leb at k)) [
      | inl e ↦
          let j : (k + 2048 - at) % 2048 ≡ k - at = slot_ahead at k ha hk (leb→le at k e) in
          let same : get_or payload ((k + 2048 - at) % 2048) 0 ≡ get_or payload (k - at) 0 =
            ap (λ i. get_or payload i 0) j in
          let value = get_or-take first payload (k - at) 0 in
          ground (arith, a, b, la, lb, same, value, j)
      | inr e ↦
          let j : (k + 2048 - at) % 2048 ≡ k + 2048 - at =
            slot_behind at k (ground (arith, e)) ha in
          let value : get_or (drop first payload) (k - 0) 0 ≡ get_or payload (first + (k - 0)) 0 =
            get_or-drop first payload (k - 0) 0 in
          elim (Bool-cases (ltb (length payload) (2048 - at))) [
            | inl f ↦ ground (arith, a, b, la, lb, j)
            | inr f ↦
                let i : first + (k - 0) ≡ (k + 2048 - at) % 2048 = ground (arith, e, j) in
                let same = ap (λ t. get_or payload t 0) i in
                ground (arith, a, b, la, lb, same, value, j)
          ]
    ]

-- The slot of a byte that was there, and of a byte that is put.
old_slot :
    (head tail q n i : ℕ)
    → head < 2 ^ 32
    → tail < 2 ^ 32
    → q ≡ sub32 head tail
    → q + n ≤ 2048
    → i < q
    → n ≤ ((tail + i) % 2048 + 2048 - head % 2048) % 2048
old_slot head tail q n i a b e h lt = omega arith

new_slot :
    (head tail q n i : ℕ)
    → head < 2 ^ 32
    → tail < 2 ^ 32
    → q ≡ sub32 head tail
    → q + n ≤ 2048
    → q ≤ i
    → i < q + n
    → ((tail + i) % 2048 + 2048 - head % 2048) % 2048 ≡ i - q
new_slot head tail q n i a b e h le lt = omega arith

-- On a ring that holds a queue of bytes, a put of bytes that there is room for appends them, also
-- where the counters or the ring wrap.
pub rx_put-Holds :
    (r : Ring) (q payload : List ℕ)
    → Holds r q
    → length payload ≤ rx_room r
    → Holds (rx_put r payload) (q ++ payload)
unfolding rx_put rx_room
rx_put-Holds r q payload v fits = record {
  size = omega (arith, length-append q payload, v.size, room);
  at = at;
  head_word = omega arith;
  tail_word = v.tail_word;
  small = omega (arith, length-append q payload, room);
}
  where
    room : length q + length payload ≤ 2048
    room = omega (arith, v.size, v.small, fits, v.head_word, v.tail_word)

    at :
        (i : ℕ)
        → i < length (q ++ payload)
        → get_or (q ++ payload) i 0 ≡ (rx_put r payload).bytes ((r.rx_tail + i) % 2048)
    at i h =
        let k = (r.rx_tail + i) % 2048 in
        let w =
          written_lem r.bytes (r.rx_head % 2048) payload k (omega arith) (omega (arith, room))
            (omega arith) in
        let j = (k + 2048 - r.rx_head % 2048) % 2048 in
        elim (Bool-cases (ltb i (length q))) [
          | inl e ↦
              let slot : length payload ≤ j =
                old_slot r.rx_head r.rx_tail (length q) (length payload) i v.head_word v.tail_word
                  v.size room (ltb→lt i (length q) e) in
              get_or-append_left q payload i 0 (ltb→lt i (length q) e)
              ∙ v.at i (ltb→lt i (length q) e)
              ∙ sym (
                  w
                  ∙ ap (λ b. if b then get_or payload j 0 else r.bytes k)
                      (le→ltb j (length payload) slot))
          | inr e ↦
              let behind : length q ≤ i = ground (arith, e) in
              let slot : j ≡ i - length q =
                new_slot r.rx_head r.rx_tail (length q) (length payload) i v.head_word v.tail_word
                  v.size room behind (omega (arith, h, length-append q payload)) in
              get_or-append_right q payload i 0 behind
              ∙ sym (
                  w
                  ∙ ap (λ b. if b then get_or payload j 0 else r.bytes k)
                      (lt→ltb j (length payload)
                        (omega (arith, slot, h, length-append q payload, behind)))
                  ∙ ap (λ t. get_or payload t 0) slot)
        ]

copy_out_lem :
    (m : Memory) (at : ℕ) (s : List ℕ)
    → ((i : ℕ) → i < length s → get_or s i 0 ≡ m (at + i))
    → copy_out m at (length s) ≡ s
unfolding copy_out
copy_out_lem m at [] h = refl
copy_out_lem m at (c ∷ s) h =
    ap₂ ◌∷◌ (sym (h 0 (omega arith) ∙ ap m (omega arith)))
      (copy_out_lem m (at + 1) s (λ i g. h (suc i) (omega arith) ∙ ap m (omega arith)))

ahead_slot : (tail i : ℕ) → i < 2048 - tail % 2048 → (tail + i) % 2048 ≡ tail % 2048 + i
ahead_slot tail i h = omega arith

wrapped_slot : (tail i : ℕ) → i < 2048 → (tail + (2048 - tail % 2048 + i)) % 2048 ≡ 0 + i
wrapped_slot tail i h = omega arith

left_size :
    (head tail n q : ℕ)
    → head < 2 ^ 32
    → tail < 2 ^ 32
    → q ≡ sub32 head tail
    → n ≤ q
    → q - n ≡ sub32 head (add32 tail n)
left_size head tail n q a b e h = omega arith

module _ (r : Ring) (q : List ℕ) (v : Holds r q) (n : ℕ) (le : n ≤ length q) where
  first : ℕ
  first = smaller (2048 - r.rx_tail % 2048) n

  left-Holds : Holds (record r { rx_tail = add32 r.rx_tail n }) (drop n q)
  left-Holds = record {
    size =
        length-drop n q
        ∙ left_size r.rx_head r.rx_tail n (length q) v.head_word v.tail_word v.size le;
    at = λ i h.
        get_or-drop n q i 0
        ∙ v.at (n + i) (omega (arith, h, length-drop n q))
        ∙ ap r.bytes (omega arith);
    head_word = v.head_word;
    tail_word = omega arith;
    small = omega (arith, length-drop n q, v.small);
  }

  taken_front : (i : ℕ) → i < first → get_or (take n q) i 0 ≡ r.bytes (r.rx_tail % 2048 + i)
  unfolding first
  taken_front i h =
      get_or-take n q i 0 (ground arith)
      ∙ v.at i (ground arith)
      ∙ ap r.bytes (ahead_slot r.rx_tail i (ground arith))

  taken_back : (i : ℕ) → first + i < n → get_or (take n q) (first + i) 0 ≡ r.bytes (0 + i)
  unfolding first
  taken_back i h =
      let full : first ≡ 2048 - r.rx_tail % 2048 = ground arith in
      get_or-take n q (first + i) 0 h
      ∙ v.at (first + i) (omega (arith, h, le))
      ∙ ap r.bytes (
          ap (λ f. (r.rx_tail + (f + i)) % 2048) full
          ∙ wrapped_slot r.rx_tail i (omega (arith, h, le, v.small)))

  taken : copy_out r.bytes (r.rx_tail % 2048) first ++ copy_out r.bytes 0 (n - first) ≡ take n q
  unfolding first
  taken =
      let whole = length-take n q le in
      let small : first ≤ n = ground arith in
      let front : length (take first (take n q)) ≡ first =
        length-take first (take n q) (omega (arith, whole, small)) in
      let back : length (drop first (take n q)) ≡ n - first =
        length-drop first (take n q) ∙ ap (λ t. t - first) whole in
      ap₂ ◌++◌
        (sym (ap (copy_out r.bytes (r.rx_tail % 2048)) front)
          ∙ copy_out_lem r.bytes (r.rx_tail % 2048) (take first (take n q)) (λ i h.
            get_or-take first (take n q) i 0 (omega (arith, h, front))
            ∙ taken_front i (omega (arith, h, front))))
        (sym (ap (copy_out r.bytes 0) back)
          ∙ copy_out_lem r.bytes 0 (drop first (take n q))
              (λ i h. get_or-drop first (take n q) i 0 ∙ taken_back i (omega (arith, h, back))))
      ∙ take-append_drop first (take n q)

-- On a ring that holds a queue of bytes, a get returns as many of its first bytes as are asked for
-- and there, and leaves the others, in order, also where the counters or the ring wrap.
pub rx_get-Holds :
    (r : Ring) (q : List ℕ) (wanted : ℕ)
    → Holds r q
    → let n = smaller wanted (length q) in
      Holds (rx_get r wanted).0 (drop n q) × ((rx_get r wanted).1 ≡ take n q)
unfolding rx_get first
rx_get-Holds r q wanted v =
    let n = smaller wanted (length q) in
    let le : n ≤ length q = ground arith in
    subst
      (λ avail.
        let k = smaller wanted avail in
        let f = smaller (2048 - r.rx_tail % 2048) k in
        Holds (record r { rx_tail = add32 r.rx_tail k }) (drop n q)
        × (copy_out r.bytes (r.rx_tail % 2048) f ++ copy_out r.bytes 0 (k - f) ≡ take n q))
      v.size (left-Holds r q v n le, taken r q v n le)
