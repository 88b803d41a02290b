-- ===== src/Crypto/Sha1/Streaming.antt =====
-- How the data is cut into calls of `sha1_update` does not matter, and the padding ends.
use mathlib.Core.List.{append_assoc}
use teatime_os.Base.{
  ℕ, zero, suc, ◌+◌, ◌-◌, ◌%◌, ◌≤◌, ◌<◌, ◌≡◌, refl, sym, ap, subst, ◌∙◌, inl, inr, false, List, [],
  ◌∷◌, ◌++◌, length, take, drop, arith, ◌==◌, ==→eq, ne→==, if◌then◌else◌, if-false, Bool-cases,
  add32, length-append, length-take, length-drop, take-append_drop,
}
use teatime_os.Crypto.Sha1.{Sha1Ctx, clipped, flushed, update_loop, sha1_update, pad_loop}

-- One byte at a time.
feed : Sha1Ctx → List ℕ → Sha1Ctx
feed c [] = c
feed c (x ∷ s) = feed (flushed (record c { buf = c.buf ++ x ∷ [] })) s

feed-append : (c : Sha1Ctx) (s t : List ℕ) → feed c (s ++ t) ≡ feed (feed c s) t
unfolding feed
feed-append c [] t = refl
feed-append c (x ∷ s) t = feed-append (flushed (record c { buf = c.buf ++ x ∷ [] })) s t

-- The buffer has room.
pub record HasRoom (c : Sha1Ctx) : Type 0 where
  pub room : length c.buf < 64

flushed-HasRoom : (c : Sha1Ctx) → length c.buf ≤ 64 → HasRoom (flushed c)
unfolding flushed
flushed-HasRoom c h = elim (Bool-cases (length c.buf == 64)) [
  | inl e ↦ rw e (record { room = omega arith })
  | inr e ↦ rw e (record { room = ground (arith, e) })
]

flushed_short : (c : Sha1Ctx) → length c.buf < 64 → flushed c ≡ c
unfolding flushed
flushed_short c h = if-false _ _ _ (ne→== (length c.buf) 64 (λ e. omega (arith, e)))

-- Bytes that fill the buffer at most.
feed_fill :
    (c : Sha1Ctx) (x : ℕ) (s : List ℕ)
    → length c.buf + suc (length s) ≤ 64
    → feed c (x ∷ s) ≡ flushed (record c { buf = c.buf ++ x ∷ s })
unfolding feed
feed_fill c x [] h = refl
feed_fill c x (y ∷ s) h =
    let size = length-append c.buf (x ∷ []) in
    ap (λ t. feed t (y ∷ s))
      (flushed_short (record c { buf = c.buf ++ x ∷ [] }) (omega (arith, size)))
    ∙ feed_fill (record c { buf = c.buf ++ x ∷ [] }) y s (omega (arith, size))
    ∙ ap (λ (b : List ℕ). flushed (record c { buf = b })) (append_assoc c.buf (x ∷ []) (y ∷ s))

feed_chunk :
    (c : Sha1Ctx) (t : List ℕ)
    → 0 < length t
    → length c.buf + length t ≤ 64
    → feed c t ≡ flushed (record c { buf = c.buf ++ t })
feed_chunk c [] p h = absurd (omega (arith, p))
feed_chunk c (x ∷ s) p h = feed_fill c x s h

update_loop-feed :
    (rounds : ℕ) (c : Sha1Ctx) (bytes : List ℕ)
    → HasRoom c
    → length bytes ≤ rounds
    → update_loop rounds c bytes ≡ feed c bytes
unfolding update_loop
update_loop-feed zero c [] v h = unfold feed in refl
update_loop-feed zero c (x ∷ bytes) v h = absurd (omega (arith, h))
update_loop-feed (suc rounds) c [] v h = unfold feed in refl
update_loop-feed (suc rounds) c (x ∷ bytes) v h =
    let n = clipped (64 - length c.buf) (length (x ∷ bytes)) in
    let some_byte : 0 < n = ground (arith, v.room) in
    let fits : n ≤ 64 - length c.buf = ground arith in
    let within : n ≤ length (x ∷ bytes) = ground arith in
    let taken = length-take n (x ∷ bytes) within in
    let size = length-append c.buf (take n (x ∷ bytes)) in
    update_loop-feed rounds (flushed (record c { buf = c.buf ++ take n (x ∷ bytes) }))
      (drop n (x ∷ bytes))
      (flushed-HasRoom (record c { buf = c.buf ++ take n (x ∷ bytes) })
        (omega (arith, size, taken, fits, v.room)))
      (omega (arith, length-drop n (x ∷ bytes), some_byte, h))
    ∙ ap (λ t. feed t (drop n (x ∷ bytes)))
        (sym (
          feed_chunk c (take n (x ∷ bytes)) (omega (arith, taken, some_byte))
            (omega (arith, taken, fits, v.room))))
    ∙ sym (feed-append c (take n (x ∷ bytes)) (drop n (x ∷ bytes)))
    ∙ ap (feed c) (take-append_drop n (x ∷ bytes))

abbrev at_len : Sha1Ctx → ℕ → Sha1Ctx
at_len c len = record c { len = len }

flushed-at_len : (c : Sha1Ctx) (len : ℕ) → flushed (at_len c len) ≡ at_len (flushed c) len
unfolding flushed
flushed-at_len c len = elim (Bool-cases (length c.buf == 64)) [
  | inl e ↦ rw e refl
  | inr e ↦ rw e refl
]

feed-at_len : (c : Sha1Ctx) (len : ℕ) (s : List ℕ) → feed (at_len c len) s ≡ at_len (feed c s) len
unfolding feed
feed-at_len c len [] = refl
feed-at_len c len (x ∷ s) =
    ap (λ t. feed t s) (flushed-at_len (record c { buf = c.buf ++ x ∷ [] }) len)
    ∙ feed-at_len (flushed (record c { buf = c.buf ++ x ∷ [] })) len s

feed-HasRoom : (c : Sha1Ctx) (s : List ℕ) → HasRoom c → HasRoom (feed c s)
unfolding feed
feed-HasRoom c [] v = v
feed-HasRoom c (x ∷ s) v = feed-HasRoom (flushed (record c { buf = c.buf ++ x ∷ [] })) s (
    flushed-HasRoom (record c { buf = c.buf ++ x ∷ [] })
      (omega (arith, length-append c.buf (x ∷ []), v.room)))

sha1_update-feed :
    (c : Sha1Ctx) (s : List ℕ)
    → HasRoom c
    → sha1_update c s ≡ at_len (feed c s) (add32 c.len (length s))
unfolding sha1_update
sha1_update-feed c s v =
    update_loop-feed (length s) (at_len c (add32 c.len (length s))) s (record { room = v.room })
      (omega arith)
    ∙ feed-at_len c (add32 c.len (length s)) s

pub sha1_update-HasRoom : (c : Sha1Ctx) (s : List ℕ) → HasRoom c → HasRoom (sha1_update c s)
sha1_update-HasRoom c s v =
    subst HasRoom (sym (sha1_update-feed c s v)) (record { room = (feed-HasRoom c s v).room })

-- Two calls of `sha1_update` one after the other are one call with all the bytes.
pub sha1_update-append :
    (c : Sha1Ctx) (s t : List ℕ)
    → HasRoom c
    → sha1_update (sha1_update c s) t ≡ sha1_update c (s ++ t)
sha1_update-append c s t v =
    ap (λ d. sha1_update d t) (sha1_update-feed c s v)
    ∙ sha1_update-feed (at_len (feed c s) (add32 c.len (length s))) t
        (record { room = (feed-HasRoom c s v).room })
    ∙ ap (λ d. at_len d (add32 (add32 c.len (length s)) (length t)))
        (feed-at_len (feed c s) (add32 c.len (length s)) t
          ∙ ap (λ d. at_len d (add32 c.len (length s))) (sym (feed-append c s t)))
    ∙ ap (at_len (feed c (s ++ t))) sizes
    ∙ sym (sha1_update-feed c (s ++ t) v)
  where
    sizes : add32 (add32 c.len (length s)) (length t) ≡ add32 c.len (length (s ++ t))
    sizes = omega (arith, length-append s t)

-- The bytes in the buffer after one more.
buf_of_one :
    (c : Sha1Ctx)
    → HasRoom c
    → length (sha1_update c (0 ∷ [])).buf ≡ (if length c.buf == 63 then 0 else length c.buf + 1)
buf_of_one c v = ap (λ (d : Sha1Ctx). length d.buf) (sha1_update-feed c (0 ∷ []) v) ∙ after
  where
    size : length (c.buf ++ 0 ∷ []) ≡ length c.buf + 1
    size = length-append c.buf (0 ∷ [])

    after : length (feed c (0 ∷ [])).buf ≡ (if length c.buf == 63 then 0 else length c.buf + 1)
    after =
        unfold feed flushed in
        (elim (Bool-cases (length (c.buf ++ 0 ∷ []) == 64)) [
          | inl e ↦ rw e (ground (arith, size, e))
          | inr e ↦ rw e (ground (arith, size, e, v.room))
        ])

-- The padding of `sha1_final` ends, in less than 64 rounds, with room for the eight bytes of the
-- length and no more, whatever the buffer holds.
pub pad_loop_ends :
    (rounds : ℕ) (c : Sha1Ctx)
    → HasRoom c
    → (120 - length c.buf) % 64 ≤ rounds
    → length (pad_loop rounds c).buf ≡ 56
unfolding pad_loop
pad_loop_ends zero c v h = omega (arith, v.room)
pad_loop_ends (suc rounds) c v h = elim (Bool-cases (length c.buf == 56)) [
  | inl e ↦ rw (e, pad_loop) (==→eq (length c.buf) 56 e)
  | inr e ↦
      rw (e, pad_loop)
        (pad_loop_ends rounds (sha1_update c (0 ∷ [])) (sha1_update-HasRoom c (0 ∷ []) v)
          (nearer (length c.buf) _ v.room e (buf_of_one c v) h))
]
  where
    nearer :
        (k m : ℕ)
        → k < 64
        → (k == 56) ≡ false
        → m ≡ (if k == 63 then 0 else k + 1)
        → (120 - k) % 64 ≤ suc rounds
        → (120 - m) % 64 ≤ rounds
    nearer k m p q e h = ground (arith, p, q, e, h)
