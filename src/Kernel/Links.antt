-- ===== src/Kernel/Links.antt =====
-- src/system/proc_queue.c: the table of entries, linked both ways. An entry is named by its index:
-- a process's by its pid, the head and the tail of a queue by numbers from NUM_PROC on.
pub mod Chain
pub mod Refine
pub mod Operations
use teatime_os.Base.{
  ℕ, zero, suc, ◌+◌, ◌-◌, ◌^◌, Bool, true, false, ◌&&◌, ◌||◌, Option, none, some, leb, ltb, ◌==◌,
  if◌then◌else◌,
}
use teatime_os.Kernel.State.{update}

-- A link is none for NULL. Keys are in offset binary: MIN_KEY is 0, MAX_KEY is 2 ^ 32 - 1.
pub record Links : Type 0 where
  pub key : ℕ → ℕ
  pub pid : ℕ → ℕ
  pub prev : ℕ → Option ℕ
  pub next : ℕ → Option ℕ
  pub curr_queue_id : ℕ

-- The two ends of a new queue.
abbrev pub grown : Links → Links
grown l =
    let head = l.curr_queue_id in
    let tail = head + 1 in
    record l {
      curr_queue_id = head + 2;
      key = update (update l.key head (2 ^ 32 - 1)) tail 0;
      prev = update (update l.prev head none) tail (some head);
      next = update (update l.next head (some tail)) tail none;
    }

-- NUM_QENT is 10 + 2 * (1 + 16 + 16). The head of the new queue, unless the table is full.
unfoldable pub new_queue : Links → Links × Option ℕ
new_queue l = if leb 76 (l.curr_queue_id + 1) then (l, none) else (grown l, some l.curr_queue_id)

-- The entry `pid` between `at` and the one before it. None where the code would follow NULL.
unfoldable pub link_before : Links → ℕ → ℕ → Option Links
link_before l pid at = elim (l.prev at) [
  | none ↦ none
  | some p ↦ some (record l {
    next = update (update l.next pid (l.next p)) p (some pid);
    prev = update (update l.prev pid (some p)) at (some pid);
  })
]

-- The loop of `proc_enqueue` from `at` on, with the rounds that are left.
unfoldable pub place : ℕ → Links → ℕ → ℕ → ℕ → Option Links
unfolding link_before
place zero l pid key at = none
place (suc rounds) l pid key at =
    let further : Option Links = elim (l.next at) [
      | none ↦ none
      | some n ↦ place rounds l pid key n
    ] in
    if leb key (l.key at) then (if at == pid then some l else further) else link_before l pid at

unfoldable pub proc_enqueue : ℕ → Links → ℕ → ℕ → ℕ → Option Links
unfolding place
proc_enqueue rounds l queue pid key =
    place rounds (record l { pid = update l.pid pid pid; key = update l.key pid key }) pid key queue

abbrev pub unlink : Links → ℕ → ℕ → ℕ → Links
unlink l x p n = record l {
  next = update (update l.next p (some n)) x none;
  prev = update (update l.prev n (some p)) x none;
}

unfoldable pub proc_remove : Links → ℕ → Links
proc_remove l pid = elim (l.next pid) [
  | none ↦ l
  | some n ↦ elim (l.prev pid) [ none ↦ l | some p ↦ unlink l pid p n ]
]

unfoldable pub proc_queue_empty : Links → ℕ → Option Bool
proc_queue_empty l queue = elim (l.next queue) [
  | none ↦ none
  | some n ↦ some (elim (l.next n) [ none ↦ true | some _ ↦ false ])
]

-- An empty queue yields the null process.
unfoldable pub proc_dequeue : Links → ℕ → Option (Links × ℕ)
proc_dequeue l queue = elim (l.next queue) [
  | none ↦ none
  | some x ↦ elim (l.next x) [
    | none ↦ some (l, 0)
    | some n ↦ elim (l.prev x) [ none ↦ none | some p ↦ some (unlink l x p n, l.pid x) ]
  ]
]
