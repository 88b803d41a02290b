-- ===== src/Net/Slots.antt =====
-- The rings of ipv4.c and udp.c: free-running counters over a power of two of slots.
use teatime_os.Base.{
  ℕ, zero, suc, ◌+◌, ◌%◌, ◌^◌, ◌≤◌, ◌<◌, ◌≡◌, refl, sym, ap, ◌∙◌, ◌≢◌, ◌⊎◌, inl, inr, Bool, List,
  [], ◌∷◌, ◌++◌, length, arith, leb, ◌==◌, ne→==, ==-self, false, if◌then◌else◌, add32, sub32,
}

pub record Slots (A : Type 0) : Type 0 where
  pub head : ℕ
  pub tail : ℕ
  pub slot : ℕ → A

module _ {A : Type 0} where
  unfoldable pub is_full : ℕ → Slots A → Bool
  is_full size r = leb size (sub32 r.head r.tail)

  abbrev pub written : (ℕ → A) → ℕ → A → ℕ → A
  written slot i a = λ k. if k == i then a else slot k

  unfoldable pub put_slot : ℕ → Slots A → A → Slots A
  put_slot size r a = record r { slot = written r.slot (r.head % size) a; head = add32 r.head 1 }

  unfoldable pub is_drained : Slots A → Bool
  is_drained r = r.head == r.tail

  unfoldable pub first_slot : ℕ → Slots A → A
  first_slot size r = r.slot (r.tail % size)

  unfoldable pub drop_slot : Slots A → Slots A
  drop_slot r = record r { tail = add32 r.tail 1 }

  -- The `n` slots from counter `t` on.
  abbrev window : ℕ → (ℕ → A) → ℕ → ℕ → List A
  window size slot t zero = []
  window size slot t (suc n) = slot (t % size) ∷ window size slot (add32 t 1) n

  -- The queue that a ring stands for.
  abbrev pub contents : ℕ → Slots A → List A
  contents size r = window size r.slot r.tail (sub32 r.head r.tail)

-- Two or four slots, and counters in range.
pub record IsRing {A : Type 0} (size : ℕ) (r : Slots A) : Type 0 where
  pub sizes : (size ≡ 2) ⊎ (size ≡ 4)
  pub head_word : r.head < 2 ^ 32
  pub tail_word : r.tail < 2 ^ 32
  pub fits : sub32 r.head r.tail ≤ size

length-window : {A : Type 0} (size : ℕ) (slot : ℕ → A) (t n : ℕ) → length (window size slot t n) ≡ n
length-window size slot t zero = refl
length-window size slot t (suc n) = ap suc (length-window size slot (add32 t 1) n)

pub length-contents :
    {A : Type 0} (size : ℕ) (r : Slots A) → length (contents size r) ≡ sub32 r.head r.tail
length-contents size r = length-window size r.slot r.tail (sub32 r.head r.tail)

-- Fewer than `size` steps from a counter do not come back to its slot.
other_slot :
    (size t n : ℕ)
    → (size ≡ 2) ⊎ (size ≡ 4)
    → t < 2 ^ 32
    → suc n < size
    → t % size ≢ (t + suc n) % 2 ^ 32 % size
other_slot size t n (inl e) h k = rw e (λ q. absurd (omega (arith, e)))
other_slot size t n (inr e) h k = rw e (λ q. absurd (omega (arith, e)))

window-written :
    {A : Type 0} (size : ℕ) (slot : ℕ → A) (t n h : ℕ) (a : A)
    → (size ≡ 2) ⊎ (size ≡ 4)
    → t < 2 ^ 32
    → n < size
    → h ≡ (t + n) % 2 ^ 32
    → window size (written slot (h % size) a) t (suc n) ≡ window size slot t n ++ a ∷ []
window-written size slot t zero h a s w k e =
    let here : h ≡ t = omega arith in rw (here, ==-self (t % size)) refl
window-written size slot t (suc n) h a s w k e =
    let ih =
      window-written size slot (add32 t 1) n h a s (omega arith) (omega arith) (omega arith) in
    let apart = ne→== (t % size) (h % size) (rw e (other_slot size t n s w k)) in
    rw (apart, ih) refl

module _ {A : Type 0} (size : ℕ) (r : Slots A) (v : IsRing size r) where
  small : size ≤ 4
  small = elim v.sizes [ inl e ↦ omega (arith, e) | inr e ↦ omega (arith, e) ]

  pub put_slot-contents :
      (a : A)
      → sub32 r.head r.tail < size
      → IsRing size (put_slot size r a)
        × (contents size (put_slot size r a) ≡ contents size r ++ a ∷ [])
  unfolding put_slot
  put_slot-contents a room =
      let n = sub32 r.head r.tail in
      let more : sub32 (add32 r.head 1) r.tail ≡ suc n =
        omega (arith, small, v.head_word, v.tail_word) in
      (
        record {
          sizes = v.sizes;
          head_word = omega arith;
          tail_word = v.tail_word;
          fits = omega (arith, more);
        },
        ap (λ k. window size (written r.slot (r.head % size) a) r.tail k) more
            ∙ window-written size r.slot r.tail n r.head a v.sizes v.tail_word room
                (omega (arith, v.head_word, v.tail_word)),
      )

  pub drop_slot-contents :
      (a : A) (q : List A)
      → contents size r ≡ a ∷ q
      → (first_slot size r ≡ a) × IsRing size (drop_slot r) × (contents size (drop_slot r) ≡ q)
  unfolding first_slot drop_slot
  drop_slot-contents a q e =
      let n = sub32 r.head r.tail in
      let some_left : suc (length q) ≡ n = sym (ap length e) ∙ length-contents size r in
      let fewer : n ≡ suc (sub32 r.head (add32 r.tail 1)) =
        omega (arith, some_left, v.head_word, v.tail_word) in
      let split : window size r.slot r.tail (suc (sub32 r.head (add32 r.tail 1))) ≡ a ∷ q =
        ap (window size r.slot r.tail) (sym fewer) ∙ e in
      (
        cc (split),
        record {
          sizes = v.sizes;
          head_word = v.head_word;
          tail_word = omega arith;
          fits = omega (arith, fewer, v.fits);
        },
        cc (split),
      )

-- Puts and takes on a ring are those on its queue, also where the counters wrap: a put is refused
-- if `size` are held and appends otherwise; a ring that is not empty gives the first of its queue,
-- and dropping that slot leaves the rest.
pub slots-IsQueue :
    {A : Type 0} (size : ℕ) (r : Slots A)
    → IsRing size r
    → (is_full size r ≡ leb size (length (contents size r)))
      × (is_drained r ≡ (length (contents size r) == 0))
      × ((a : A)
          → is_full size r ≡ false
          → IsRing size (put_slot size r a)
            × (contents size (put_slot size r a) ≡ contents size r ++ a ∷ []))
      × ((a : A) (q : List A)
          → contents size r ≡ a ∷ q
          → (first_slot size r ≡ a) × IsRing size (drop_slot r) × (contents size (drop_slot r) ≡ q))
slots-IsQueue size r v = (
  unfold is_full in ap (leb size) (sym (length-contents size r)),
  unfold is_drained in empty,
  λ a h. put_slot-contents size r v a (room h),
  drop_slot-contents size r v,
)
  where
    empty : (r.head == r.tail) ≡ (length (contents size r) == 0)
    empty = rw (length-contents size r) (ground (arith, v.head_word, v.tail_word))

    room : is_full size r ≡ false → sub32 r.head r.tail < size
    room h = unfold is_full in (ground arith)
