-- ===== src/Net/Arp/Laws.antt =====
-- The ARP cache is a map of four addresses at most.
use teatime_os.Base.{
  ℕ, ◌≤◌, ◌<◌, ◌≡◌, ◌≢◌, refl, ◌∙◌, ◌⊎◌, inl, inr, true, false, Option, none, some, List, [], ◌∷◌,
  ◌++◌, length, set, arith, ◌==◌, ==→eq, ne→==, ==-self, if◌then◌else◌, Bool-cases, length-append,
  length-set, get_elem?,
}
use teatime_os.Net.State.{Entry}
use teatime_os.Net.Arp.{index_of, arp_cache_store, cached}

-- No address stands twice.
abbrev pub AreDistinct : List Entry → Type 0
AreDistinct [] = Unit
AreDistinct (e ∷ cache) = (cached cache e.ip ≡ none) × AreDistinct cache

pub record IsCache (cache : List Entry) : Type 0 where
  pub small : length cache ≤ 4
  pub distinct : AreDistinct cache

-- What a store is to do to the lookups.
abbrev updated : List Entry → ℕ → List ℕ → ℕ → Option (List ℕ)
updated cache ip mac j = if ip == j then some mac else cached cache j

module _ (ip : ℕ) (mac : List ℕ) where
  index_of-le : (cache : List Entry) → index_of ip cache ≤ length cache
  unfolding index_of
  index_of-le [] = omega arith
  index_of-le (e ∷ cache) = ground (arith, index_of-le cache)

  index_of-cached :
      (cache : List Entry) → (index_of ip cache == length cache) ≡ true → cached cache ip ≡ none
  unfolding index_of cached
  index_of-cached [] h = refl
  index_of-cached (e ∷ cache) h = ground (arith, index_of-cached cache)

  cached-set :
      (cache : List Entry) (j : ℕ)
      → index_of ip cache < length cache
      → cached (set cache (index_of ip cache) (record { ip = ip; mac = mac })) j
        ≡ updated cache ip mac j
  unfolding index_of cached
  cached-set [] j h = absurd (omega arith)
  cached-set (e ∷ cache) j h = elim (Bool-cases (e.ip == ip)) [
    | inl same ↦ rw same (ground (arith, same))
    | inr other ↦ rw other (ground (arith, cached-set cache j, other))
  ]

  cached-append :
      (cache : List Entry) (j : ℕ)
      → cached cache ip ≡ none
      → cached (cache ++ (record { ip = ip; mac = mac }) ∷ []) j ≡ updated cache ip mac j
  unfolding cached
  cached-append [] j h = refl
  cached-append (e ∷ cache) j h = ground (arith, cached-append cache j)

  set-AreDistinct :
      (cache : List Entry)
      → AreDistinct cache
      → index_of ip cache < length cache
      → AreDistinct (set cache (index_of ip cache) (record { ip = ip; mac = mac }))
  unfolding index_of
  set-AreDistinct [] d h = absurd (omega arith)
  set-AreDistinct (e ∷ cache) d h = elim (Bool-cases (e.ip == ip)) [
    | inl same ↦ rw same (rw (← ==→eq e.ip ip same) d.0, d.1)
    | inr other ↦ rw other (
      cached-set cache e.ip (ground (arith, other)) ∙ ground (arith, other, d.0),
      set-AreDistinct cache d.1 (ground (arith, other)),
    )
  ]

  append-AreDistinct :
      (cache : List Entry)
      → AreDistinct cache
      → cached cache ip ≡ none
      → AreDistinct (cache ++ (record { ip = ip; mac = mac }) ∷ [])
  unfolding cached
  append-AreDistinct [] d h = (refl, tt)
  append-AreDistinct (e ∷ cache) d h = elim (Bool-cases (e.ip == ip)) [
    | inl same ↦ absurd (ground (arith, same, h))
    | inr other ↦ (
      cached-append cache e.ip (ground (arith, other, h)) ∙ ground (arith, other, d.0),
      append-AreDistinct cache d.1 (ground (arith, other, h)),
    )
  ]

  -- The last of four entries is given up.
  cached-evict :
      (a b c d : Entry) (j : ℕ)
      → cached (a ∷ b ∷ c ∷ d ∷ []) ip ≡ none
      → (d.ip ≢ j) ⊎ (ip ≡ j)
      → cached (a ∷ b ∷ c ∷ (record { ip = ip; mac = mac }) ∷ []) j
        ≡ updated (a ∷ b ∷ c ∷ d ∷ []) ip mac j
  unfolding cached
  cached-evict a b c d j h k = ground arith

  evict-AreDistinct :
      (a b c d : Entry)
      → AreDistinct (a ∷ b ∷ c ∷ d ∷ [])
      → cached (a ∷ b ∷ c ∷ d ∷ []) ip ≡ none
      → AreDistinct (a ∷ b ∷ c ∷ (record { ip = ip; mac = mac }) ∷ [])
  unfolding cached
  evict-AreDistinct a b c d k h = ground arith

-- What is lost by a store: the last entry of a full cache that has not the address.
abbrev pub Loses : List Entry → ℕ → ℕ → Type 0
Loses cache ip j =
    (length cache ≡ 4)
    × (cached cache ip ≡ none)
    × ((e : Entry) × (get_elem? cache 3 ≡ some e) × (e.ip ≡ j))

abbrev IsStored : List Entry → ℕ → List ℕ → List Entry → Type 0
IsStored cache ip mac cache' =
    IsCache cache'
    × (cached cache' ip ≡ some mac)
    × ((j : ℕ) → j ≢ ip → (cached cache' j ≡ cached cache j) ⊎ Loses cache ip j)

-- A cache whose lookups are updated at every address.
updated-IsStored :
    (cache cache' : List Entry) (ip : ℕ) (mac : List ℕ)
    → IsCache cache'
    → ((j : ℕ) → cached cache' j ≡ updated cache ip mac j)
    → IsStored cache ip mac cache'
updated-IsStored cache cache' ip mac v h =
    (v, h ip ∙ ground arith, λ j apart. inl (h j ∙ ground arith))

full-IsStored :
    (cache : List Entry) (ip : ℕ) (mac : List ℕ)
    → length cache ≡ 4
    → AreDistinct cache
    → cached cache ip ≡ none
    → IsStored cache ip mac (set cache 3 (record { ip = ip; mac = mac }))
full-IsStored [] ip mac l d h = absurd (omega (arith, l))
full-IsStored (a ∷ []) ip mac l d h = absurd (omega (arith, l))
full-IsStored (a ∷ b ∷ []) ip mac l d h = absurd (omega (arith, l))
full-IsStored (a ∷ b ∷ c ∷ []) ip mac l d h = absurd (omega (arith, l))
full-IsStored (a ∷ b ∷ c ∷ d ∷ []) ip mac l k h = (
  record { small = omega arith; distinct = evict-AreDistinct ip mac a b c d k h },
  cached-evict ip mac a b c d ip h (inr refl) ∙ ground arith,
  λ j apart. elim (Bool-cases (d.ip == j)) [
    | inl last ↦ inr (refl, h, (d, refl, ==→eq d.ip j last))
    | inr other ↦ inl (
        cached-evict ip mac a b c d j h (inl (λ e. ground (arith, other, e)))
        ∙ ground (arith, apart))
  ],
)
full-IsStored (a ∷ b ∷ c ∷ d ∷ e ∷ cache) ip mac l k h = absurd (omega (arith, l))

absent-IsStored :
    (cache : List Entry) (ip : ℕ) (mac : List ℕ)
    → IsCache cache
    → (index_of ip cache == length cache) ≡ true
    → IsStored cache ip mac (arp_cache_store cache ip mac)
unfolding arp_cache_store
absent-IsStored cache ip mac v absent =
    let h = index_of-cached ip mac cache absent in
    let same = ==→eq (index_of ip cache) (length cache) absent in
    elim (Bool-cases (length cache == 4)) [
      | inl full ↦
          let four = ==→eq (length cache) 4 full in
          let not_three = ne→== 3 (length cache) (λ e. omega (arith, e, four)) in
          rw (same, full, not_three) (full-IsStored cache ip mac four v.distinct h)
      | inr room ↦
          rw (same, room, ==-self (length cache))
            (updated-IsStored cache _ ip mac
              (record {
                small = omega (
                  arith,
                  length-append cache ((record { ip = ip; mac = mac }) ∷ []),
                  v.small,
                  ne (length cache) room,
                );
                distinct = append-AreDistinct ip mac cache v.distinct h;
              })
              (λ j. cached-append ip mac cache j h))
    ]
  where
    ne : (k : ℕ) → (k == 4) ≡ false → k ≢ 4
    ne k e q = ground (arith, e, q)

present-IsStored :
    (cache : List Entry) (ip : ℕ) (mac : List ℕ)
    → IsCache cache
    → (index_of ip cache == length cache) ≡ false
    → IsStored cache ip mac (arp_cache_store cache ip mac)
unfolding arp_cache_store
present-IsStored cache ip mac v present =
    let i = index_of ip cache in
    let inside : i < length cache = ground (arith, index_of-le ip mac cache, present) in
    let low = ne→== i 4 (λ e. omega (arith, e, inside, v.small)) in
    rw (low, present)
      (updated-IsStored cache _ ip mac
        (record {
          small = omega (arith, length-set cache i (record { ip = ip; mac = mac }), v.small);
          distinct = set-AreDistinct ip mac cache v.distinct inside;
        })
        (λ j. cached-set ip mac cache j inside))

-- On a cache of at most four entries without repeated addresses, a store leaves such a cache; the
-- stored address is found with its link address, and every other address as before, unless it is
-- the last entry of a full cache that did not have the stored address.
pub arp_cache_store-IsCache :
    (cache : List Entry) (ip : ℕ) (mac : List ℕ)
    → IsCache cache
    → IsCache (arp_cache_store cache ip mac)
      × (cached (arp_cache_store cache ip mac) ip ≡ some mac)
      × ((j : ℕ)
          → j ≢ ip
          → (cached (arp_cache_store cache ip mac) j ≡ cached cache j) ⊎ Loses cache ip j)
arp_cache_store-IsCache cache ip mac v = elim (Bool-cases (index_of ip cache == length cache)) [
  | inl absent ↦ absent-IsStored cache ip mac v absent
  | inr present ↦ present-IsStored cache ip mac v present
]
