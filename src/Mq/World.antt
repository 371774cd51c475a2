-- ===== src/Mq/World.antt =====
-- skynet/skynet-src/skynet_mq.c: all message queues together with the global list, and the protocol
-- of `in_global` that says which queues are on it.
use skynet_athena.Base.{
  Bool-cases, List, Option, [], ap₂, arith, false, if◌then◌else◌, inl, inr, length, map, none, not,
  refl, some, suc, sym, true, update, update_all, update_self, zero, ℕ, ◌++◌, ◌<◌, ◌==◌, ◌^◌, ◌∙◌,
  ◌∷◌, ◌≡◌, ◌≢◌,
}
use mathlib.Core.Option
use skynet_athena.Mq.{
  Message, MessageQueue, expand_queue, mq_in_global, mq_length, pop, push, store, write,
}
use skynet_athena.Mq.Global.{
  GlobalQueue, Lists, NotIn, NotIn-append_intro, globalmq_push, globalmq_push-Lists,
}
use skynet_athena.Mq.Ring.Push.{push-IsValid}
use skynet_athena.Mq.Ring.Pop.{empty_iff, pop-IsValid, pop_oldest}
use skynet_athena.Mq.Ring.{IsValid, contents}
use skynet_athena.Mq.Refine.{Holds, pop_empty, pop_first}

-- The queues by address, and the list through them.
pub record World : Type 0 where
  pub queues : ℕ → MessageQueue
  pub global : GlobalQueue

-- `skynet_mq_push` with its call of `skynet_globalmq_push`.
pub mq_push : World → ℕ → Message → Option World
mq_push w i m =
    let (q, wake) = push (w.queues i) m in
    if wake
    then Option.map (λ g. record { queues = update w.queues i q; global = g })
        (globalmq_push w.global i)
    else some (record w { queues = update w.queues i q })

-- `skynet_mq_mark_release`.
pub mark_release : World → ℕ → Option World
mark_release w i =
    let q = w.queues i in
    let w' = record w { queues = update w.queues i (record q { release = 1 }) } in
    if not (q.release == 0)
    then none
    else if not (q.in_global == mq_in_global)
    then Option.map (λ g. record w' { global = g }) (globalmq_push w.global i)
    else some w'

-- The loop of `_drop_queue` on fuel: the messages handed to `drop_func`, in order. The call of
-- `_release` behind it is in `mq_release`.
pub drop_queue : ℕ → MessageQueue → List (Option Message)
drop_queue zero q = []
drop_queue (suc fuel) q =
    let (ret, m, q') = pop q in let rest = drop_queue fuel q' in if ret == 0 then m ∷ rest else []

-- `skynet_mq_release`: what is dropped where the queue was marked, with the assertion of `_release`
-- that it has no link, and else the queue goes back on the list. The ring is empty once `mq_length + 1` rounds are through.
pub mq_release : World → ℕ → Option (List (Option Message) × World)
mq_release w i =
    let q = w.queues i in
    if not (q.release == 0)
    then elim (w.global.next i) [
      | none ↦ some (drop_queue (suc (mq_length q)) q, w)
      | some _ ↦ none
    ]
    else Option.map (λ g. ([], record w { global = g })) (globalmq_push w.global i)

-- With more rounds than messages, `_drop_queue` on a valid queue hands every message that the queue
-- holds to `drop_func` once, oldest first.
pub drop_queue-Holds :
    (ms : List Message) {q : MessageQueue} (fuel : ℕ)
    → Holds q ms
    → length ms < fuel
    → drop_queue fuel q ≡ map some ms
unfolding drop_queue
drop_queue-Holds ms zero h lt = absurd (omega arith)
drop_queue-Holds [] {q} (suc fuel) h lt =
    let (ret, out, rest) = pop_empty h in rw (ret, drop_queue) refl
drop_queue-Holds (m ∷ ms) {q} (suc fuel) h lt =
    let (ret, out, rest) = pop_first m ms h in
    rw (ret, drop_queue) (ap₂ ◌∷◌ out (drop_queue-Holds ms fuel rest (omega arith)))

-- The scheduling invariant: the list is as it should be; a queue on it is marked so; a queue that
-- is not marked is empty.
pub record IsScheduled (w : World) (xs : List ℕ) : Type 0 where
  pub lists : Lists w.global xs
  pub valid : (i : ℕ) → IsValid (w.queues i)
  pub marked : (i : ℕ) → (w.queues i).in_global ≡ 0 → NotIn i xs × (contents (w.queues i) ≡ [])

in_global-store : (q : MessageQueue) (m : Message) → (store q m).in_global ≡ q.in_global
unfolding store write expand_queue
in_global-store q m = ground arith

in_global-push :
    (q : MessageQueue) (m : Message)
    → ((push q m).0.in_global ≢ 0)
      × ((push q m).1 ≡ true → q.in_global ≡ 0)
      × ((push q m).1 ≡ false → q.in_global ≢ 0)
unfolding push
in_global-push q m = (
  λ h. ground (arith, in_global-store q m),
  λ h. ground (arith, in_global-store q m),
  λ h k. ground (arith, in_global-store q m),
)

-- Sending to any queue of a scheduled world that holds less than 2^30 - 1 messages fails no
-- assertion. A queue that was not marked goes to the end of the global list, once; for a marked one
-- the list stays as it is. Afterwards the queue is marked, no other queue has changed, and the world
-- is scheduled with that list.
pub mq_push-IsScheduled :
    (w : World) (xs : List ℕ) (i : ℕ) (m : Message)
    → IsScheduled w xs
    → suc (mq_length (w.queues i)) < 2 ^ 30
    → (w' : World) × (ys : List ℕ) × (mq_push w i m ≡ some w')
      × IsScheduled w' ys
      × ((w.queues i).in_global ≡ 0 → ys ≡ xs ++ (i ∷ []))
      × ((w.queues i).in_global ≢ 0 → ys ≡ xs)
      × ((w'.queues i).in_global ≢ 0)
      × (w'.queues ≡ update w.queues i (push (w.queues i) m).0)
unfolding mq_push
mq_push-IsScheduled w xs i m s fits = elim (Bool-cases (push (w.queues i) m).1) [
  | inl wake ↦
      let (g, e, l) =
        globalmq_push-Lists w.global xs i s.lists
          (s.marked i ((in_global-push (w.queues i) m).1 wake)).0 in
      (
        record { queues = update w.queues i (push (w.queues i) m).0; global = g },
        xs ++ (i ∷ []),
        rw (wake, mq_push) (rw e refl),
        record {
          lists = l;
          valid = valid_after;
          marked = marked_after (xs ++ (i ∷ [])) λ j ne h. NotIn-append_intro j i xs h ne;
        },
        (λ e. refl),
        (λ ne. absurd (ne ((in_global-push (w.queues i) m).1 wake))),
        here_marked,
        refl,
      )
  | inr busy ↦ (
    record w { queues = update w.queues i (push (w.queues i) m).0 },
    xs,
    rw (busy, mq_push) refl,
    record { lists = s.lists; valid = valid_after; marked = marked_after xs λ j ne h. h },
    (λ e. absurd ((in_global-push (w.queues i) m).2 busy e)),
    (λ ne. refl),
    here_marked,
    refl,
  )
]
  where
    q' : MessageQueue
    q' = (push (w.queues i) m).0

    valid_after : (j : ℕ) → IsValid (update w.queues i q' j)
    valid_after =
        update_all (λ j q. IsValid q) w.queues i q' (push-IsValid m (s.valid i) fits)
          λ j ne. s.valid j

    marked_after :
        (ys : List ℕ)
        → ((j : ℕ) → j ≢ i → NotIn j xs → NotIn j ys)
        → (j : ℕ) → (update w.queues i q' j).in_global ≡ 0
        → NotIn j ys × (contents (update w.queues i q' j) ≡ [])
    marked_after ys keep =
        update_all (λ j q. q.in_global ≡ 0 → NotIn j ys × (contents q ≡ [])) w.queues i q'
          (λ h. absurd ((in_global-push (w.queues i) m).0 h))
          λ j ne h. (keep j ne (s.marked j h).0, (s.marked j h).1)

    here_marked : (update w.queues i q' i).in_global ≢ 0
    here_marked = rw (update_self w.queues i q') ((in_global-push (w.queues i) m).0)

-- `skynet_mq_pop` on one queue of the world.
pub mq_pop : World → ℕ → ℕ × Option Message × World
mq_pop w i =
    let (ret, out, q) = pop (w.queues i) in (ret, out, record w { queues = update w.queues i q })

in_global-pop :
    {q : MessageQueue}
    → IsValid q
    → (q.in_global ≡ 0 → contents q ≡ [])
    → (pop q).2.in_global ≡ 0
    → contents (pop q).2 ≡ []
in_global-pop {q} v unmarked h = elim (Bool-cases (q.head == q.tail)) [
  | inl e ↦ (pop_empty (record { valid = v; exact = (empty_iff v).0 e })).2.exact
  | inr f ↦
      let same : (pop q).2.in_global ≡ q.in_global = unfold pop in rw (f, pop) refl in
      let gone : contents q ≡ [] = unmarked (sym same ∙ h) in cc ((pop_oldest v f).1, gone)
]

-- A world that is scheduled stays so, with the same list, when a worker pops a message from a queue
-- that is not on the list.
pub mq_pop-IsScheduled :
    (w : World) (xs : List ℕ) (i : ℕ)
    → IsScheduled w xs
    → NotIn i xs
    → IsScheduled (mq_pop w i).2 xs
unfolding mq_pop
mq_pop-IsScheduled w xs i s off = record {
  lists = s.lists;
  valid = update_all (λ j q. IsValid q) w.queues i _ (pop-IsValid (s.valid i)) λ j ne. s.valid j;
  marked =
      update_all (λ j q. q.in_global ≡ 0 → NotIn j xs × (contents q ≡ [])) w.queues i _
        (λ h. (off, in_global-pop (s.valid i) (λ k. (s.marked i k).1) h)) λ j ne. s.marked j;
}
