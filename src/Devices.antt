-- ===== src/Devices.antt =====
-- src/device/dev.c: the device table, up to where a call enters a driver.
pub mod Table
mod Tests
use teatime_os.Base.{
  ℕ, zero, suc, ◌+◌, Bool, true, false, not, ◌&&◌, ◌||◌, Option, none, some, List, leb, ◌==◌,
  if◌then◌else◌,
}

-- A row. A name is a list of bytes; none is a free row. The driver's operations are named by a
-- number, and which of them it has is a parameter of the calls.
pub record Dev : Type 0 where
  pub name : Option (List ℕ)
  pub ops : ℕ
  pub state : ℕ
  pub used : Bool
  pub cond : Option ℕ

-- NDEV is 16.
abbrev pub Devtab : Type 0
Devtab = ℕ → Dev

abbrev pub put_row : Devtab → ℕ → Dev → Devtab
put_row tab fd d i = if fd == i then d else tab i

abbrev pub is_free : Dev → Bool
is_free d = elim d.name [ none ↦ true | some _ ↦ false ]

-- The first of the rows from `i` on that passes the test.
unfoldable pub find_row : (Dev → Bool) → ℕ → ℕ → Devtab → Option ℕ
find_row test zero i tab = none
find_row test (suc rounds) i tab =
    let later = find_row test rounds (i + 1) tab in if test (tab i) then some i else later

-- `cond` is what cond_create gives.
unfoldable pub dev_register : List ℕ → ℕ → ℕ → Option ℕ → Devtab → Devtab × Option ℕ
unfolding find_row
dev_register name ops state cond tab = elim (find_row is_free 16 0 tab) [
  | none ↦ (tab, none)
  | some i ↦ (
    put_row tab i (record (tab i) { name = some name; ops = ops; state = state; cond = cond }),
    some i,
  )
]

abbrev pub same_name : List ℕ → List ℕ → Bool
same_name List.[] List.[] = true
same_name List.[] (List.◌∷◌ d t) = false
same_name (List.◌∷◌ c s) List.[] = false
same_name (List.◌∷◌ c s) (List.◌∷◌ d t) = (c == d) && same_name s t

abbrev pub is_available : List ℕ → Dev → Bool
is_available name d = elim d.name [ none ↦ false | some n ↦ not d.used && same_name n name ]

abbrev pub set_used : Devtab → ℕ → Bool → Devtab
set_used tab fd b = put_row tab fd (record (tab fd) { used = b })

unfoldable pub dev_alloc : List ℕ → Devtab → Devtab × Option ℕ
unfolding find_row
dev_alloc name tab = elim (find_row (is_available name) 16 0 tab) [
  | none ↦ (tab, none)
  | some i ↦ (set_used tab i true, some i)
]

unfoldable pub release : Devtab → ℕ → Devtab
release tab fd = set_used tab fd false

-- A descriptor below 0 is a word from 2 ^ 31 on.
unfoldable pub lookup : Devtab → ℕ → Option Dev
lookup tab fd = if leb 16 fd || not (tab fd).used then none else some (tab fd)

-- `accepts` says whether the driver's open succeeds, or that it has none.
unfoldable pub dev_open : (Dev → Bool) → List ℕ → Devtab → Devtab × Option ℕ
unfolding dev_alloc release
dev_open accepts name tab =
    let (tab', got) = dev_alloc name tab in
    elim got [
      | none ↦ (tab', none)
      | some fd ↦ if accepts (tab' fd) then (tab', some fd) else (release tab' fd, none)
    ]

-- Whether it succeeds.
unfoldable pub dev_close : (Dev → Bool) → ℕ → Devtab → Devtab × Bool
unfolding lookup release
dev_close closes fd tab = elim (lookup tab fd) [
  | none ↦ (tab, false)
  | some d ↦ if closes d then (release tab fd, true) else (tab, false)
]

-- read, write and control: -1 without the device or the operation.
unfoldable pub enter : (Dev → Option ℕ) → ℕ → Devtab → Option ℕ
unfolding lookup
enter op fd tab = elim (lookup tab fd) [ none ↦ none | some d ↦ op d ]
