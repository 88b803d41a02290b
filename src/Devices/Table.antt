-- ===== src/Devices/Table.antt =====
-- Descriptors are exclusive, and a close gives them back.
use teatime_os.Base.{
  ℕ, zero, suc, ◌+◌, ◌≤◌, ◌<◌, ◌≡◌, refl, sym, ap, ◌∙◌, Bool, true, false, Option, none, some, List,
  leb, ◌==◌, inl, inr, Bool-cases, ==→eq, Option-cases, arith,
}
use teatime_os.Devices.{Dev, Devtab, find_row, is_available, dev_alloc, set_used, lookup}

-- The search gives the first row that passes, or none passes.
abbrev pub Found : (Dev → Bool) → ℕ → ℕ → Devtab → Option ℕ → Type 0
Found test i n tab none = (j : ℕ) → i ≤ j → j < i + n → test (tab j) ≡ false
Found test i n tab (some k) =
    (i ≤ k) × (k < i + n) × (test (tab k) ≡ true) × ((j : ℕ) → i ≤ j → j < k → test (tab j) ≡ false)

Found-later :
    (test : Dev → Bool) (i n : ℕ) (tab : Devtab) (o : Option ℕ)
    → test (tab i) ≡ false
    → Found test (i + 1) n tab o
    → Found test i (suc n) tab o
Found-later test i n tab none h f = skips
  where
    skips : (j : ℕ) → i ≤ j → j < i + suc n → test (tab j) ≡ false
    skips j a b = elim (Bool-cases (i == j)) [
      | inl e ↦ ap (λ k. test (tab k)) (sym (==→eq i j e)) ∙ h
      | inr e ↦ f j (ground (arith, e)) (omega arith)
    ]
Found-later test i n tab (some k) h f = (omega (arith, f.0), omega (arith, f.1), f.2, skips)
  where
    skips : (j : ℕ) → i ≤ j → j < k → test (tab j) ≡ false
    skips j a b = elim (Bool-cases (i == j)) [
      | inl e ↦ ap (λ k. test (tab k)) (sym (==→eq i j e)) ∙ h
      | inr e ↦ f.3 j (ground (arith, e)) b
    ]

find_row-Found :
    (test : Dev → Bool) (n i : ℕ) (tab : Devtab) → Found test i n tab (find_row test n i tab)
unfolding find_row
find_row-Found test zero i tab = λ j a b. absurd (omega arith)
find_row-Found test (suc n) i tab = elim (Bool-cases (test (tab i))) [
  | inl e ↦ rw e (omega arith, omega arith, e, λ j a b. absurd (omega arith))
  | inr e ↦
      rw e (
        Found-later test i n tab (find_row test n (i + 1) tab) e
          (find_row-Found test n (i + 1) tab))
]

-- What a claim of a row gives.
abbrev pub Claimed : List ℕ → Devtab → Devtab × Option ℕ → Type 0
Claimed name tab (tab', none) =
    (tab' ≡ tab) × ((j : ℕ) → j < 16 → is_available name (tab j) ≡ false)
Claimed name tab (tab', some fd) =
    (fd < 16)
    × (is_available name (tab fd) ≡ true)
    × (lookup tab' fd ≡ some (tab' fd))
    × ((other : List ℕ) → is_available other (tab' fd) ≡ false)
    × ((j : ℕ) → (fd == j) ≡ false → tab' j ≡ tab j)

used_up : (other : List ℕ) (d : Dev) → d.used ≡ true → is_available other d ≡ false
used_up other d h = elim (Option-cases d.name) [
  | inl e ↦ rw (e, is_available) refl
  | inr (n, e) ↦ rw (e, h, is_available) refl
]

claimed :
    (name : List ℕ) (tab : Devtab) (o : Option ℕ)
    → Found (is_available name) 0 16 tab o
    → Claimed name tab (elim o [ none ↦ (tab, none) | some i ↦ (set_used tab i true, some i) ])
unfolding lookup
claimed name tab none f = (refl, λ j h. f j (omega arith) (omega arith))
claimed name tab (some i) f =
    let small : leb 16 i ≡ false = ground (arith, f.1) in
    let here : (i == i) ≡ true = ground arith in
    let now : (set_used tab i true i).used ≡ true = rw here refl in
    (
      omega (arith, f.1),
      f.2,
      rw (small, now) refl,
      λ other. used_up other (set_used tab i true i) now,
      λ j h. rw h refl,
    )

-- `dev_alloc` either finds every row of the name taken and changes nothing, or claims a row below
-- NDEV that was free for the name: the descriptor is valid from then on, no further claim can get
-- it, and no other row changes.
pub dev_alloc-Claimed : (name : List ℕ) (tab : Devtab) → Claimed name tab (dev_alloc name tab)
unfolding dev_alloc
dev_alloc-Claimed name tab =
    claimed name tab (find_row (is_available name) 16 0 tab)
      (find_row-Found (is_available name) 16 0 tab)
