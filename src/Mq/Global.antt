-- ===== src/Mq/Global.antt =====
-- skynet/skynet-src/skynet_mq.c: the global list of the queues that wait for a worker thread, linked
-- through the `next` field of each queue. A queue is named by its address, a number.
use skynet_athena.Base.{
  Bool, List, Option, [], arith, false, if◌then◌else◌, none, refl, some, sym, update, update_ne,
  update_self, ℕ, ℕ_discrete, ◌++◌, ◌==◌, ◌∙◌, ◌∷◌, ◌≡◌, ◌≢◌,
}

-- `struct global_queue`, with the `next` field of every `struct message_queue`.
pub record GlobalQueue : Type 0 where
  pub head : Option ℕ
  pub tail : Option ℕ
  pub next : ℕ → Option ℕ

-- `skynet_mq_init`, before any queue exists.
pub mq_init : GlobalQueue
mq_init = record { head = none; tail = none; next = λ _. none }

-- `none` is a failed assertion.
unfoldable pub globalmq_push : GlobalQueue → ℕ → Option GlobalQueue
globalmq_push g x = elim (g.next x) [
  | some _ ↦ none
  | none ↦ elim g.tail [
    | some t ↦ some (record g { next = update g.next t (some x); tail = some x })
    | none ↦ some (record g { head = some x; tail = some x })
  ]
]

-- The assertion that the last queue of the list is its tail.
assert_tail : Option ℕ → ℕ → Bool
assert_tail none x = false
assert_tail (some t) x = t == x

-- The queue taken, NULL (`none`) from an empty list.
unfoldable pub globalmq_pop : GlobalQueue → Option (Option ℕ × GlobalQueue)
unfolding assert_tail
globalmq_pop g = elim g.head [
  | none ↦ some (none, g)
  | some x ↦ elim (g.next x) [
    | some n ↦ some (some x, record g { head = some n; next = update g.next x none })
    | none ↦
        if assert_tail g.tail x
        then some (some x, record { head = none; tail = none; next = update g.next x none })
        else none
  ]
]

abbrev pub NotIn : ℕ → List ℕ → Type 0
NotIn x [] = Unit
NotIn x (y ∷ ys) = (x ≢ y) × NotIn x ys

abbrev Distinct : List ℕ → Type 0
Distinct [] = Unit
Distinct (x ∷ xs) = NotIn x xs × Distinct xs

abbrev first : List ℕ → Option ℕ
first [] = none
first (x ∷ xs) = some x

abbrev last : List ℕ → Option ℕ
last [] = none
last (x ∷ []) = some x
last (x ∷ y ∷ xs) = last (y ∷ xs)

-- Each queue of the list leads to the one behind it, the last to NULL.
abbrev Linked : (ℕ → Option ℕ) → List ℕ → Type 0
Linked next [] = Unit
Linked next (x ∷ xs) = (next x ≡ first xs) × Linked next xs

-- The pointers hold this list of queues, and no other queue has a link.
pub record Lists (g : GlobalQueue) (xs : List ℕ) : Type 0 where
  pub from_head : g.head ≡ first xs
  pub to_tail : g.tail ≡ last xs
  pub linked : Linked g.next xs
  pub distinct : Distinct xs
  pub alone : (i : ℕ) → NotIn i xs → g.next i ≡ none

pub mq_init-Lists : Lists mq_init []
unfolding mq_init
mq_init-Lists = record {
  from_head = refl;
  to_tail = refl;
  linked = tt;
  distinct = tt;
  alone = λ i h. refl;
}

last-append : (x : ℕ) (xs : List ℕ) → last (xs ++ (x ∷ [])) ≡ some x
last-append x [] = refl
last-append x (y ∷ []) = refl
last-append x (y ∷ z ∷ xs) = last-append x (z ∷ xs)

Linked-update_other :
    (f : ℕ → Option ℕ) (k : ℕ) (v : Option ℕ) (xs : List ℕ)
    → NotIn k xs
    → Linked f xs
    → Linked (update f k v) xs
Linked-update_other f k v [] n l = tt
Linked-update_other f k v (x ∷ xs) n l =
    (update_ne f k x v (λ e. n.0 (sym e)) ∙ l.0, Linked-update_other f k v xs n.1 l.1)

last-ne : (y t : ℕ) (xs : List ℕ) → last xs ≡ some t → NotIn y xs → y ≢ t
last-ne y t [] e n h = cc
last-ne y t (x ∷ []) e n h = n.0 (h ∙ cc)
last-ne y t (x ∷ z ∷ xs) e n h = last-ne y t (z ∷ xs) e n.1 h

-- Linking a new queue behind the last one.
Linked-append :
    (f : ℕ → Option ℕ) (x t : ℕ) (xs : List ℕ)
    → last xs ≡ some t
    → NotIn x xs
    → Distinct xs
    → f x ≡ none
    → Linked f xs
    → Linked (update f t (some x)) (xs ++ (x ∷ []))
Linked-append f x t [] e n d fx l = cc
Linked-append f x t (y ∷ []) e n d fx l =
    let e' : y ≡ t = cc in
    ((rw (← e') (update_self f y (some x)), ((rw (← e') (update_ne f y x (some x) n.0)) ∙ fx, tt)))
Linked-append f x t (y ∷ z ∷ xs) e n d fx l = (
  update_ne f t y (some x) (last-ne y t (z ∷ xs) e d.0) ∙ l.0,
  Linked-append f x t (z ∷ xs) e n.1 d.1 fx l.1,
)

NotIn-append : (i x : ℕ) (xs : List ℕ) → NotIn i (xs ++ (x ∷ [])) → NotIn i xs × (i ≢ x)
NotIn-append i x [] h = (tt, h.0)
NotIn-append i x (y ∷ xs) h = ((h.0, (NotIn-append i x xs h.1).0), (NotIn-append i x xs h.1).1)

pub NotIn-append_intro : (i x : ℕ) (xs : List ℕ) → NotIn i xs → i ≢ x → NotIn i (xs ++ (x ∷ []))
NotIn-append_intro i x [] h ne = (ne, tt)
NotIn-append_intro i x (y ∷ xs) h ne = (h.0, NotIn-append_intro i x xs h.1 ne)

Distinct-append : (x : ℕ) (xs : List ℕ) → NotIn x xs → Distinct xs → Distinct (xs ++ (x ∷ []))
Distinct-append x [] n d = (tt, tt)
Distinct-append x (y ∷ xs) n d = (apart xs n.1 d.0, Distinct-append x xs n.1 d.1)
  where
    apart : (zs : List ℕ) → NotIn x zs → NotIn y zs → NotIn y (zs ++ (x ∷ []))
    apart [] p q = ((λ e. n.0 (sym e)), tt)
    apart (z ∷ zs) p q = (q.0, apart zs p.1 q.1)

-- Pushing a queue that is not on the list puts it at the end, and no assertion fails.
pub globalmq_push-Lists :
    (g : GlobalQueue) (xs : List ℕ) (x : ℕ)
    → Lists g xs
    → NotIn x xs
    → (g' : GlobalQueue) × (globalmq_push g x ≡ some g') × Lists g' (xs ++ (x ∷ []))
unfolding globalmq_push
globalmq_push-Lists g [] x l n = (
  record g { head = some x; tail = some x },
  rw (l.alone x tt, l.to_tail, globalmq_push),
  record {
    from_head = refl;
    to_tail = refl;
    linked = (l.alone x tt, tt);
    distinct = (tt, tt);
    alone = λ i h. l.alone i tt;
  },
)
globalmq_push-Lists g (y ∷ ys) x l n = push_behind (last-some y ys)
  where
    last-some : (z : ℕ) (zs : List ℕ) → (t : ℕ) × (last (z ∷ zs) ≡ some t)
    last-some z [] = (z, refl)
    last-some z (w ∷ zs) = last-some w zs

    push_behind :
        (t : ℕ) × (last (y ∷ ys) ≡ some t)
        → (g' : GlobalQueue) × (globalmq_push g x ≡ some g') × Lists g' (y ∷ ys ++ (x ∷ []))
    push_behind (t, e) = (
      record g { next = update g.next t (some x); tail = some x },
      rw (l.alone x n, l.to_tail, e, globalmq_push),
      record {
        from_head = l.from_head;
        to_tail = sym (last-append x (y ∷ ys));
        linked = Linked-append g.next x t (y ∷ ys) e n l.distinct (l.alone x n) l.linked;
        distinct = Distinct-append x (y ∷ ys) n l.distinct;
        alone = λ i h.
            update_ne g.next t i (some x) (last-ne i t (y ∷ ys) e (NotIn-append i x (y ∷ ys) h).0)
            ∙ l.alone i (NotIn-append i x (y ∷ ys) h).0;
      },
    )

-- Popping a list that is not empty takes the queue at the head, clears its link, and leaves the others
-- in order.
pub globalmq_pop-Lists :
    (g : GlobalQueue) (xs : List ℕ) (x : ℕ)
    → Lists g (x ∷ xs)
    → (g' : GlobalQueue) × (globalmq_pop g ≡ some (some x, g')) × Lists g' xs × (g'.next x ≡ none)
unfolding globalmq_pop
globalmq_pop-Lists g [] x l = (
  record { head = none; tail = none; next = update g.next x none },
  rw (l.from_head, globalmq_pop) (rw (l.linked.0, globalmq_pop) (rw (l.to_tail) (ground arith))),
  record { from_head = refl; to_tail = refl; linked = tt; distinct = tt; alone = λ i h. forget i },
  update_self g.next x none,
)
  where
    forget : (i : ℕ) → update g.next x none i ≡ none
    forget i = elim (ℕ_discrete i x) [
      | yes e ↦ rw e (update_self g.next x none)
      | no ne ↦ update_ne g.next x i none ne ∙ l.alone i (ne, tt)
    ]
globalmq_pop-Lists g (y ∷ ys) x l = (
  record g { head = some y; next = update g.next x none },
  rw (l.from_head, globalmq_pop) (rw (l.linked.0, globalmq_pop) refl),
  record {
    from_head = refl;
    to_tail = l.to_tail;
    linked = Linked-update_other g.next x none (y ∷ ys) l.distinct.0 l.linked.1;
    distinct = l.distinct.1;
    alone = λ i h. forget i h;
  },
  update_self g.next x none,
)
  where
    forget : (i : ℕ) → NotIn i (y ∷ ys) → update g.next x none i ≡ none
    forget i h = elim (ℕ_discrete i x) [
      | yes e ↦ rw e (update_self g.next x none)
      | no ne ↦ update_ne g.next x i none ne ∙ l.alone i (ne, h)
    ]

-- An empty list answers NULL.
pub globalmq_pop_empty : (g : GlobalQueue) → Lists g [] → globalmq_pop g ≡ some (none, g)
unfolding globalmq_pop
globalmq_pop_empty g l = ground (arith, l.from_head)
