-- ===== src/Crypto/Wpa/GroupKey.antt =====
-- The group key is found among the elements of the key data.
use teatime_os.Base.{
  ℕ, zero, suc, ◌+◌, ◌-◌, ◌%◌, ◌≤◌, ◌<◌, false, some, List, [], ◌∷◌, ◌++◌, ◌≡◌, refl, ap, ◌∙◌, All,
  length, take, drop, if-false, if-true, ltb, le→leb, if◌then◌else◌, le→ltb, length-append, arith,
}
use teatime_os.Crypto.Wpa.{is_gtk, gtk_loop, extract_gtk}

pub record Element : Type 0 where
  pub tag : ℕ
  pub body : List ℕ

-- Elements, and what follows them.
abbrev pub elements : List Element → List ℕ → List ℕ
elements [] s = s
elements (e ∷ es) s = e.tag ∷ length e.body ∷ (e.body ++ elements es s)

abbrev pub gtk_element : ℕ → ℕ → List ℕ → Element
gtk_element info reserved key = record {
  tag = 0xdd;
  body = 0x00 ∷ 0x0f ∷ 0xac ∷ 0x01 ∷ info ∷ reserved ∷ key;
}

-- An element that is not the group key, whatever follows it.
abbrev pub IsOther : Element → Type 0
IsOther e = (s : List ℕ) → is_gtk (e.tag ∷ length e.body ∷ (e.body ++ s)) (length e.body) ≡ false

drop-front : (a s : List ℕ) → drop (length a) (a ++ s) ≡ s
drop-front [] s = refl
drop-front (x ∷ a) s = drop-front a s

take-front : (a s : List ℕ) → take (length a) (a ++ s) ≡ a
take-front [] s = refl
take-front (x ∷ a) s = ap (λ t. x ∷ t) (take-front a s)

gtk_loop-other :
    (rounds : ℕ) (e : Element) (s : List ℕ)
    → IsOther e
    → gtk_loop (suc rounds) (e.tag ∷ length e.body ∷ (e.body ++ s)) ≡ gtk_loop rounds s
unfolding gtk_loop
gtk_loop-other rounds e s h =
    if-false (ltb (suc (suc (length (e.body ++ s)))) 2) _ _ (le→ltb _ 2 (omega arith))
    ∙ if-false (ltb (suc (suc (length (e.body ++ s)))) (2 + length e.body)) _ _
        (le→ltb _ _ (omega (arith, length-append e.body s)))
    ∙ if-false (is_gtk (e.tag ∷ length e.body ∷ (e.body ++ s)) (length e.body)) _ _ (h s)
    ∙ ap (gtk_loop rounds) (drop-front e.body s)

gtk_loop-key :
    (rounds info reserved : ℕ) (key s : List ℕ)
    → length key ≤ 32
    → gtk_loop (suc rounds) (elements (gtk_element info reserved key ∷ []) s)
      ≡ some (record { id = info % 4; key = key })
unfolding gtk_loop
gtk_loop-key rounds info reserved key s h =
    if-false (ltb (length kd) 2) _ _ (le→ltb _ 2 (omega arith))
    ∙ if-false (ltb (length kd) (2 + len)) _ _ (le→ltb _ _ (omega (arith, length-append key s)))
    ∙ if-true (is_gtk kd len) _ _ (rw (le→leb 6 len (omega arith)) refl)
    ∙ ap (λ k. some (record { id = info % 4; key = k })) cut
  where
    len : ℕ
    len = length (gtk_element info reserved key).body

    kd : List ℕ
    kd = elements (gtk_element info reserved key ∷ []) s

    cut : take (if ltb 32 (len - 6) then 32 else len - 6) (key ++ s) ≡ key
    cut =
        ap (λ n. take n (key ++ s))
          (if-false (ltb 32 (len - 6)) 32 (len - 6) (le→ltb 32 (len - 6) (omega (arith, h)))
            ∙ omega arith)
        ∙ take-front key s

gtk_loop-found :
    (rounds : ℕ) (others : List Element) (info reserved : ℕ) (key s : List ℕ)
    → length others < rounds
    → All IsOther others
    → length key ≤ 32
    → gtk_loop rounds (elements others (elements (gtk_element info reserved key ∷ []) s))
      ≡ some (record { id = info % 4; key = key })
gtk_loop-found zero others info reserved key s r h k = absurd (omega (arith, r))
gtk_loop-found (suc rounds) [] info reserved key s r h k = gtk_loop-key rounds info reserved key s k
gtk_loop-found (suc rounds) (e ∷ others) info reserved key s r h k =
    gtk_loop-other rounds e (elements others (elements (gtk_element info reserved key ∷ []) s)) h.0
    ∙ gtk_loop-found rounds others info reserved key s (omega (arith, r)) h.1 k

enough_rounds :
    (others : List Element) (s : List ℕ) → length others + length s ≤ length (elements others s)
enough_rounds [] s = omega arith
enough_rounds (e ∷ others) s =
    omega (arith, length-append e.body (elements others s), enough_rounds others s)

-- Behind any elements that are not taken for it, and in front of anything, a group key of at most
-- 32 bytes is found, with the two bits of its id.
pub extract_gtk-found :
    (others : List Element) (info reserved : ℕ) (key s : List ℕ)
    → All IsOther others
    → length key ≤ 32
    → extract_gtk (elements others (elements (gtk_element info reserved key ∷ []) s))
      ≡ some (record { id = info % 4; key = key })
unfolding extract_gtk
extract_gtk-found others info reserved key s h k =
    gtk_loop-found _ others info reserved key s
      (omega (arith, enough_rounds others (elements (gtk_element info reserved key ∷ []) s))) h k
