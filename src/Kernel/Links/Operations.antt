-- ===== src/Kernel/Links/Operations.antt =====
-- The operations on a whole queue, and the other queues.
use teatime_os.Base.{
  ℕ, zero, suc, ◌+◌, ◌^◌, ◌<◌, ◌≡◌, refl, sym, ◌∙◌, subst, true, false, ◌||◌, some, List, [], ◌∷◌,
  length, arith, leb, ◌==◌,
}
use teatime_os.Kernel.Queue.{Entry, has, Once, enqueue, remove, has-enqueue, has-remove}
use teatime_os.Kernel.State.{update}
use teatime_os.Kernel.Sched.{dequeue}
use teatime_os.Kernel.Links.{
  Links, grown, new_queue, place, proc_enqueue, unlink, proc_remove, proc_dequeue,
}
use teatime_os.Kernel.Links.Chain.{Chain, IsQueue, Chain-frame}
use teatime_os.Kernel.Links.Refine.{member_ne, next-front, place-Chain, unlink-Chain}

-- Two queues, the first with a process that joins or leaves it, have no entry in common.
abbrev pub Separate : ℕ → ℕ → List Entry → ℕ → ℕ → List Entry → ℕ → Type 0
Separate pid h q t h' q' t' =
    (x : ℕ)
    → ((x == h') || (x == t') || has x q') ≡ true
    → ((x == pid) || (x == h) || (x == t) || has x q) ≡ false

-- What is written to the linked entries leaves the other queues alone.
abbrev pub OthersStay : Links → Links → ℕ → ℕ → List Entry → ℕ → Type 0
OthersStay l l' pid h q t =
    (h' : ℕ) (q' : List Entry) (t' : ℕ)
    → Separate pid h q t h' q' t'
    → IsQueue l h' q' t'
    → IsQueue l' h' q' t'

others_stay :
    (l l' : Links) (pid h : ℕ) (q : List Entry) (t : ℕ)
    → ((x : ℕ) → ((x == pid) || (x == h) || has x q) ≡ false → l'.next x ≡ l.next x)
    → ((x : ℕ) → ((x == pid) || (x == t) || has x q) ≡ false → l'.prev x ≡ l.prev x)
    → ((x : ℕ) → (x == pid) ≡ false → l'.key x ≡ l.key x)
    → ((x : ℕ) → (x == pid) ≡ false → l'.pid x ≡ l.pid x)
    → OthersStay l l' pid h q t
others_stay l l' pid h q t fn fp fk fi h' q' t' s v =
    let at_h = s h' (ground arith) in
    let at_t = s t' (ground arith) in
    record {
      chain =
          Chain-frame l l' h' q' t'
            (record {
              next_a = fn h' (ground (arith, at_h));
              prev_t = fp t' (ground (arith, at_t));
              next_q = λ x g. fn x (ground (arith, s x (ground (arith, g))));
              prev_q = λ x g. fp x (ground (arith, s x (ground (arith, g))));
              key_q = λ x g. fk x (ground (arith, s x (ground (arith, g))));
              pid_q = λ x g. fi x (ground (arith, s x (ground (arith, g))));
            })
            v.chain;
      head_key = fk h' (ground (arith, at_h)) ∙ v.head_key;
      tail_key = fk t' (ground (arith, at_t)) ∙ v.tail_key;
      last = fn t' (ground (arith, at_t)) ∙ v.last;
      no_head = v.no_head;
      no_tail = v.no_tail;
      ends = v.ends;
    }

abbrev written : Links → ℕ → ℕ → Links
written l pid key = record l { pid = update l.pid pid pid; key = update l.key pid key }

written-Chain :
    (l : Links) (pid key a : ℕ) (q : List Entry) (t : ℕ)
    → has pid q ≡ false
    → Chain l a q t
    → Chain (written l pid key) a q t
written-Chain l pid key a q t hp c =
    Chain-frame l (written l pid key) a q t
      (record {
        next_a = refl;
        prev_t = refl;
        next_q = λ x h. refl;
        prev_q = λ x h. refl;
        key_q = λ x h. ground (arith, member_ne pid x q hp h);
        pid_q = λ x h. ground (arith, member_ne pid x q hp h);
      })
      c

-- The linked insertion refines the list's: on a queue without the process, for a key above
-- INT_MIN, `proc_enqueue` ends within two rounds more than the queue is long, the links stand for
-- the list with the process where `enqueue` puts it, and no other queue changes.
pub proc_enqueue-IsQueue :
    (rounds : ℕ) (l : Links) (head tail pid key : ℕ) (q : List Entry)
    → IsQueue l head q tail
    → Once q
    → has pid q ≡ false
    → (pid == head) ≡ false
    → (pid == tail) ≡ false
    → 0 < key
    → key < 2 ^ 32
    → length q + 1 < rounds
    → (l' : Links) × (proc_enqueue rounds l head pid key ≡ some l')
      × IsQueue l' head (enqueue pid key q) tail
      × OthersStay l l' pid head q tail
unfolding proc_enqueue place
proc_enqueue-IsQueue zero l head tail pid key q v o hp ph pt low high n = absurd (omega arith)
proc_enqueue-IsQueue (suc rounds) l head tail pid key q v o hp ph pt low high n =
    let l1 : Links = written l pid key in
    let c = written-Chain l pid key head q tail hp v.chain in
    let tail_below : l1.key tail < key = ground (arith, v.tail_key, pt) in
    let (l', eq, chain, touched) =
      place-Chain rounds l1 pid key head q tail c (ground arith) (ground arith) tail_below ph pt hp
        v.no_head v.no_tail (ground (arith, v.ends)) o (omega arith) in
    let above : leb key (l1.key head) ≡ true = ground (arith, v.head_key, ph) in
    let self : (head == pid) ≡ false = ground (arith, ph) in
    (
      l',
      rw (above, self, next-front l head q tail v.chain) eq,
      record {
        chain = chain;
        head_key = touched.key_same head ∙ ground (arith, v.head_key, ph);
        tail_key = touched.key_same tail ∙ ground (arith, v.tail_key, pt);
        last = touched.next_else tail (ground (arith, pt, v.ends, v.no_tail)) ∙ v.last;
        no_head = ground (arith, has-enqueue head pid key q, ph, v.no_head);
        no_tail = ground (arith, has-enqueue tail pid key q, pt, v.no_tail);
        ends = v.ends;
      },
      others_stay l l' pid head q tail (λ x g. touched.next_else x g) (λ x g. touched.prev_else x g)
          (λ x g. touched.key_same x ∙ ground (arith, g))
          (λ x g. touched.pid_same x ∙ ground (arith, g)),
    )

without :
    (l : Links) (x head tail : ℕ) (q : List Entry)
    → IsQueue l head q tail
    → Once q
    → has x q ≡ true
    → (p : ℕ) × (n : ℕ) × (l.next x ≡ some n)
      × (l.prev x ≡ some p)
      × IsQueue (unlink l x p n) head (remove x q) tail
      × OthersStay l (unlink l x p n) x head q tail
without l x head tail q v o h =
    let xh : (x == head) ≡ false = ground (arith, member_ne head x q v.no_head h) in
    let xt : (x == tail) ≡ false = ground (arith, member_ne tail x q v.no_tail h) in
    let (p, n, next, prev, chain, touched) =
      unlink-Chain l x head q tail v.chain h xh xt v.no_head v.no_tail (ground (arith, v.ends)) o in
    (
      p,
      n,
      next,
      prev,
      record {
        chain = chain;
        head_key = v.head_key;
        tail_key = v.tail_key;
        last = touched.next_else tail (ground (arith, xt, v.ends, v.no_tail)) ∙ v.last;
        no_head = ground (arith, has-remove head x q o, v.no_head);
        no_tail = ground (arith, has-remove tail x q o, v.no_tail);
        ends = v.ends;
      },
      others_stay l (unlink l x p n) x head q tail (λ y g. touched.next_else y g)
          (λ y g. touched.prev_else y g) (λ y g. refl) (λ y g. refl),
    )

-- The linked removal refines the list's: for a process on a queue the links then stand for the list
-- without it, and no other queue changes.
pub proc_remove-IsQueue :
    (l : Links) (head tail pid : ℕ) (q : List Entry)
    → IsQueue l head q tail
    → Once q
    → has pid q ≡ true
    → IsQueue (proc_remove l pid) head (remove pid q) tail
      × OthersStay l (proc_remove l pid) pid head q tail
unfolding proc_remove
proc_remove-IsQueue l head tail pid q v o h =
    let (p, n, next, prev, queue, others) = without l pid head tail q v o h in
    let e : proc_remove l pid ≡ unlink l pid p n = rw (next, prev, proc_remove) refl in
    (
      subst (λ k. IsQueue k head (remove pid q) tail) (sym e) queue,
      subst (λ k. OthersStay l k pid head q tail) (sym e) others,
    )

-- `proc_dequeue` refines the list's: it gives the process of the first entry and leaves a queue
-- that stands for the rest, or gives the null process and leaves an empty queue empty.
pub proc_dequeue-IsQueue :
    (l : Links) (head tail : ℕ) (q : List Entry)
    → IsQueue l head q tail
    → Once q
    → (l' : Links) × (proc_dequeue l head ≡ some (l', (dequeue q).0))
      × IsQueue l' head (dequeue q).1 tail
unfolding proc_dequeue dequeue remove
proc_dequeue-IsQueue l head tail [] v o = (l, rw (v.chain.0, v.last, proc_dequeue) refl, v)
proc_dequeue-IsQueue l head tail (e ∷ q) v o =
    let here : has e.pid (e ∷ q) ≡ true = ground arith in
    let (p, n, next, prev, queue, others) = without l e.pid head tail (e ∷ q) v o here in
    let self : remove e.pid (e ∷ q) ≡ q = ground arith in
    (
      unlink l e.pid p n,
      rw (v.chain.0, next, prev, v.chain.3, proc_dequeue) refl,
      subst (λ r. IsQueue (unlink l e.pid p n) head r tail) self queue,
    )

-- While the table has room, `new_queue` gives an empty queue, and no queue whose entries stand in
-- front of the new ones changes.
pub new_queue-IsQueue :
    (l : Links)
    → l.curr_queue_id + 1 < 76
    → let head = l.curr_queue_id in
      ((new_queue l).1 ≡ some head)
      × IsQueue (new_queue l).0 head [] (head + 1)
      × ((h' : ℕ) (q' : List Entry) (t' : ℕ)
          → ((x : ℕ) → ((x == h') || (x == t') || has x q') ≡ true → x < head)
          → IsQueue l h' q' t'
          → IsQueue (new_queue l).0 h' q' t')
unfolding new_queue
new_queue-IsQueue l room =
    let head = l.curr_queue_id in
    let free : leb 76 (head + 1) ≡ false = ground arith in
    rw free (
      refl,
      record {
        chain = (ground arith, ground arith);
        head_key = ground arith;
        tail_key = ground arith;
        last = ground arith;
        no_head = refl;
        no_tail = refl;
        ends = ground arith;
      },
      λ h' q' t' s v.
          let at_h = s h' (ground arith) in
          let at_t = s t' (ground arith) in
          record {
            chain =
                Chain-frame l (grown l) h' q' t'
                  (record {
                    next_a = ground (arith, at_h);
                    prev_t = ground (arith, at_t);
                    next_q = λ x g. ground (arith, s x (ground (arith, g)));
                    prev_q = λ x g. ground (arith, s x (ground (arith, g)));
                    key_q = λ x g. ground (arith, s x (ground (arith, g)));
                    pid_q = λ x g. refl;
                  })
                  v.chain;
            head_key = ground (arith, at_h, v.head_key);
            tail_key = ground (arith, at_t, v.tail_key);
            last = ground (arith, at_t, v.last);
            no_head = v.no_head;
            no_tail = v.no_tail;
            ends = v.ends;
          },
    )
