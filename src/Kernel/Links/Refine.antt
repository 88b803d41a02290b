-- ===== src/Kernel/Links/Refine.antt =====
-- The linked queues do what the lists of Kernel.Queue do.
use teatime_os.Base.{
  ℕ, zero, suc, ◌<◌, ◌≡◌, refl, sym, ap, ◌∙◌, subst, true, false, ◌||◌, Option, some, List, [], ◌∷◌,
  length, inl, inr, arith, leb, ◌==◌, Bool-cases, ==→eq,
}
use teatime_os.Kernel.Queue.{Entry, entry, has, Once, enqueue, remove}
use teatime_os.Kernel.State.{update}
use teatime_os.Kernel.Links.{Links, link_before, place, unlink}
use teatime_os.Kernel.Links.Chain.{Chain, Chain-frame}

-- Only the new entry, those of the queue and its two ends are written.
pub record Touched (l l' : Links) (pid a : ℕ) (q : List Entry) (t : ℕ) : Type 0 where
  pub next_else : (x : ℕ) → ((x == pid) || (x == a) || has x q) ≡ false → l'.next x ≡ l.next x
  pub prev_else : (x : ℕ) → ((x == pid) || (x == t) || has x q) ≡ false → l'.prev x ≡ l.prev x
  pub key_same : (x : ℕ) → l'.key x ≡ l.key x
  pub pid_same : (x : ℕ) → l'.pid x ≡ l.pid x

abbrev linked : Links → ℕ → ℕ → ℕ → Option ℕ → Links
linked l pid at p n = record l {
  next = update (update l.next pid n) p (some pid);
  prev = update (update l.prev pid (some p)) at (some pid);
}

pub member_ne : (a x : ℕ) (q : List Entry) → has a q ≡ false → has x q ≡ true → (a == x) ≡ false
member_ne a x q ha hx = elim (Bool-cases (a == x)) [
  | inl g ↦
      let clash : true ≡ false = sym hx ∙ ap (λ y. has y q) (sym (==→eq a x g)) ∙ ha in
      absurd (cc clash)
  | inr g ↦ g
]

-- An entry goes between `a` and the front of the chain behind it.
link_front :
    (l : Links) (pid key a : ℕ) (q : List Entry) (t : ℕ)
    → Chain l a q t
    → l.key pid ≡ key
    → l.pid pid ≡ pid
    → (pid == a) ≡ false
    → (pid == t) ≡ false
    → has pid q ≡ false
    → has a q ≡ false
    → has t q ≡ false
    → Once q
    → let at = elim q as (λ _. ℕ) [ [] ↦ t | e ∷ _ ↦ e.pid ] in
      Chain (linked l pid at a (some at)) a (entry pid key ∷ q) t
link_front l pid key a [] t c k p pa pt hp ha ht o =
    (ground arith, ground arith, k, p, (ground (arith, pa), ground arith))
link_front l pid key a (e ∷ q) t c k p pa pt hp ha ht o = (
  ground arith,
  ground (arith, hp),
  k,
  p,
  (
    ground (arith, pa, c.0),
    ground arith,
    c.2,
    c.3,
    Chain-frame l (linked l pid e.pid a (some e.pid)) e.pid q t
        (record {
          next_a = ground (arith, ha, hp);
          prev_t = ground (arith, ht, pt);
          next_q = λ x h. ground (
            arith,
            member_ne a x q (ground (arith, ha)) h,
            member_ne pid x q (ground (arith, hp)) h,
          );
          prev_q = λ x h.
              ground (arith, member_ne e.pid x q o.0 h, member_ne pid x q (ground (arith, hp)) h);
          key_q = λ x h. refl;
          pid_q = λ x h. refl;
        })
        c.4,
  ),
)

-- The entry at which a chain's walk starts.
abbrev pub front : List Entry → ℕ → ℕ
front [] t = t
front (e ∷ _) t = e.pid

link_front-Touched :
    (l : Links) (pid a at : ℕ) (q : List Entry) (t : ℕ)
    → at ≡ front q t
    → Touched l (linked l pid at a (some at)) pid a q t
link_front-Touched l pid a at [] t e = record {
  next_else = λ x h. ground (arith, h);
  prev_else = λ x h. ground (arith, h, e);
  key_same = λ x. refl;
  pid_same = λ x. refl;
}
link_front-Touched l pid a at (b ∷ q) t e = record {
  next_else = λ x h. ground (arith, h);
  prev_else = λ x h. ground (arith, h, e);
  key_same = λ x. refl;
  pid_same = λ x. refl;
}

link_before-linked :
    (l : Links) (pid at p n : ℕ)
    → l.prev at ≡ some p
    → l.next p ≡ some n
    → link_before l pid at ≡ some (linked l pid at p (some n))
unfolding link_before
link_before-linked l pid at p n e f = rw (e, f, link_before) refl

pub next-front :
    (l : Links) (a : ℕ) (q : List Entry) (t : ℕ) → Chain l a q t → l.next a ≡ some (front q t)
next-front l a [] t c = c.0
next-front l a (e ∷ q) t c = c.0

-- The walk from the front of the chain behind `a` links the entry where `enqueue` puts it.
pub place-Chain :
    (rounds : ℕ) (l : Links) (pid key a : ℕ) (q : List Entry) (t : ℕ)
    → Chain l a q t
    → l.key pid ≡ key
    → l.pid pid ≡ pid
    → l.key t < key
    → (pid == a) ≡ false
    → (pid == t) ≡ false
    → has pid q ≡ false
    → has a q ≡ false
    → has t q ≡ false
    → (t == a) ≡ false
    → Once q
    → length q < rounds
    → (l' : Links) × (place rounds l pid key (front q t) ≡ some l')
      × Chain l' a (enqueue pid key q) t
      × Touched l l' pid a q t
unfolding place link_before enqueue
place-Chain zero l pid key a q t c k p low pa pt hp ha ht ta o n = absurd (omega arith)
place-Chain (suc rounds) l pid key a [] t c k p low pa pt hp ha ht ta o n =
    let stop : leb key (l.key t) ≡ false = ground (arith, low) in
    (
      linked l pid t a (some t),
      rw stop (link_before-linked l pid t a t c.1 c.0),
      link_front l pid key a [] t c k p pa pt hp ha ht o,
      link_front-Touched l pid a t [] t refl,
    )
place-Chain (suc rounds) l pid key a (e ∷ q) t c k p low pa pt hp ha ht ta o n =
    elim (Bool-cases (leb key e.key)) [
      | inr stop ↦ (
        linked l pid e.pid a (some e.pid),
        rw (c.2, stop) (link_before-linked l pid e.pid a e.pid c.1 c.0),
        rw stop (link_front l pid key a (e ∷ q) t c k p pa pt hp ha ht o),
        link_front-Touched l pid a e.pid (e ∷ q) t refl,
      )
      | inl go ↦
          let (l', eq, chain, touched) =
            place-Chain rounds l pid key e.pid q t c.4 k p low (ground (arith, hp)) pt
              (ground (arith, hp)) o.0 (ground (arith, ht)) (ground (arith, ht)) o.1
              (omega arith) in
          let self : (e.pid == pid) ≡ false = ground (arith, hp) in
          (
            l',
            rw (c.2, go, self, next-front l e.pid q t c.4) eq,
            rw (go, self)
                (
                  touched.next_else a (ground (arith, pa, ha)) ∙ c.0,
                  touched.prev_else e.pid (ground (arith, self, ht, o.0)) ∙ c.1,
                  touched.key_same e.pid ∙ c.2,
                  touched.pid_same e.pid ∙ c.3,
                  chain,
                ),
            record {
              next_else = λ x h. touched.next_else x (ground (arith, h));
              prev_else = λ x h. touched.prev_else x (ground (arith, h));
              key_same = touched.key_same;
              pid_same = touched.pid_same;
            },
          )
    ]

-- A chain without its first entry.
unlink-front :
    (l : Links) (x a : ℕ) (q : List Entry) (t : ℕ)
    → Chain l x q t
    → (x == a) ≡ false
    → (x == t) ≡ false
    → has x q ≡ false
    → has a q ≡ false
    → has t q ≡ false
    → Once q
    → Chain (unlink l x a (front q t)) a q t
unlink-front l x a [] t c xa xt hx ha ht o = (ground (arith, xa), ground (arith, xt))
unlink-front l x a (e ∷ q) t c xa xt hx ha ht o = (
  ground (arith, xa),
  ground (arith, hx),
  c.2,
  c.3,
  Chain-frame l (unlink l x a e.pid) e.pid q t
      (record {
        next_a = ground (arith, ha, hx);
        prev_t = ground (arith, ht, xt);
        next_q = λ y h.
            ground (
              arith,
              member_ne a y q (ground (arith, ha)) h,
              member_ne x y q (ground (arith, hx)) h,
            );
        prev_q = λ y h.
            ground (arith, member_ne e.pid y q o.0 h, member_ne x y q (ground (arith, hx)) h);
        key_q = λ y h. refl;
        pid_q = λ y h. refl;
      })
      c.4,
)

unlink-front-Touched :
    (l : Links) (x a : ℕ) (e : Entry) (q : List Entry) (t : ℕ)
    → e.pid ≡ x
    → Touched l (unlink l x a (front q t)) x a (e ∷ q) t
unlink-front-Touched l x a e [] t h = record {
  next_else = λ y g. ground (arith, g);
  prev_else = λ y g. ground (arith, g);
  key_same = λ y. refl;
  pid_same = λ y. refl;
}
unlink-front-Touched l x a e (b ∷ q) t h = record {
  next_else = λ y g. ground (arith, g);
  prev_else = λ y g. ground (arith, g);
  key_same = λ y. refl;
  pid_same = λ y. refl;
}

-- The neighbours of an entry of a chain, and the chain without it.
pub unlink-Chain :
    (l : Links) (x a : ℕ) (q : List Entry) (t : ℕ)
    → Chain l a q t
    → has x q ≡ true
    → (x == a) ≡ false
    → (x == t) ≡ false
    → has a q ≡ false
    → has t q ≡ false
    → (t == a) ≡ false
    → Once q
    → (p : ℕ) × (n : ℕ) × (l.next x ≡ some n)
      × (l.prev x ≡ some p)
      × Chain (unlink l x p n) a (remove x q) t
      × Touched l (unlink l x p n) x a q t
unfolding remove
unlink-Chain l x a [] t c h xa xt ha ht ta o = absurd (cc h)
unlink-Chain l x a (e ∷ q) t c h xa xt ha ht ta o = elim (Bool-cases (e.pid == x)) [
  | inl g ↦
      let same : e.pid ≡ x = ==→eq e.pid x g in
      let gone : has x q ≡ false = ap (λ y. has y q) (sym same) ∙ o.0 in
      (
        a,
        front q t,
        ap l.next (sym same) ∙ next-front l e.pid q t c.4,
        ap l.prev (sym same) ∙ c.1,
        rw g (
            unlink-front l x a q t (subst (λ y. Chain l y q t) same c.4) xa xt gone
              (ground (arith, ha)) (ground (arith, ht)) o.1),
        unlink-front-Touched l x a e q t same,
      )
  | inr g ↦
      let (p, n, next, prev, chain, touched) =
        unlink-Chain l x e.pid q t c.4 (ground (arith, h, g)) (ground (arith, g)) xt o.0
          (ground (arith, ht)) (ground (arith, ht)) o.1 in
      (
        p,
        n,
        next,
        prev,
        rw g (
          touched.next_else a (ground (arith, xa, ha)) ∙ c.0,
          touched.prev_else e.pid (ground (arith, g, ht, o.0)) ∙ c.1,
          c.2,
          c.3,
          chain,
        ),
        record {
          next_else = λ y i. touched.next_else y (ground (arith, i));
          prev_else = λ y i. touched.prev_else y (ground (arith, i));
          key_same = touched.key_same;
          pid_same = touched.pid_same;
        },
      )
]
