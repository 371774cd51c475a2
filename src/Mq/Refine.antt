-- ===== src/Mq/Refine.antt =====
-- skynet/skynet-src/skynet_mq.c against the queue that it promises: a FIFO of messages.
use skynet_athena.Base.{
  Bool-cases, List, Option, [], ap, ap₂, arith, inl, inr, length, length-append, length-map,
  length-replicate, map, none, refl, some, suc, sym, true, ℕ, ◌++◌, ◌+◌, ◌<◌, ◌==◌, ◌^◌, ◌∙◌, ◌∷◌,
  ◌≡◌,
}
use skynet_athena.Mq.{Message, MessageQueue, create, mq_length, pop, push}
use skynet_athena.Mq.Ring.Push.{contents-push, push-IsValid}
use skynet_athena.Mq.Ring.Pop.{empty_iff, pop-IsValid, pop_oldest}
use skynet_athena.Mq.Ring.{IsValid, contents, length-window}

-- A valid ring that holds exactly these messages; every cell it holds was written.
pub record Holds (q : MessageQueue) (ms : List Message) : Type 0 where
  pub valid : IsValid q
  pub exact : contents q ≡ map some ms

pub data Op : Type 0 where
  put : Message → Op
  get : Op

abbrev pub Reply : Type 0
Reply = ℕ × Option Message

-- The replies of a ring to calls of `skynet_mq_push` and `skynet_mq_pop`.
pub run : MessageQueue → List Op → List Reply
run q [] = []
run q (put m ∷ ops) = run (push q m).0 ops
run q (get ∷ ops) = let (ret, out, q') = pop q in (ret, out) ∷ run q' ops

-- The replies of a FIFO.
abbrev pub fifo : List Message → List Op → List Reply
fifo ms [] = []
fifo ms (put m ∷ ops) = fifo (ms ++ (m ∷ [])) ops
fifo [] (get ∷ ops) = (1, none) ∷ fifo [] ops
fifo (m ∷ ms) (get ∷ ops) = (0, some m) ∷ fifo ms ops

map-some_append :
    (ms : List Message) (m : Message) → map some (ms ++ (m ∷ [])) ≡ map some ms ++ (some m ∷ [])
map-some_append [] m = refl
map-some_append (x ∷ ms) m = ap (◌∷◌ (some x)) (map-some_append ms m)

pub create-Holds : (handle : ℕ) → Holds (create handle) []
unfolding create mq_length
create-Holds handle = record {
  valid = ground (arith, length-replicate {0} {A = Option Message} 64 none);
  exact = refl;
}

pub length-Holds : {q : MessageQueue} (ms : List Message) → Holds q ms → mq_length q ≡ length ms
length-Holds {q} ms h =
    sym (length-window q.queue q.cap q.head (mq_length q)) ∙ ap length h.exact ∙ length-map ms some

pub push-Holds :
    {q : MessageQueue} (ms : List Message) (m : Message)
    → Holds q ms
    → suc (length ms) < 2 ^ 30
    → Holds (push q m).0 (ms ++ (m ∷ []))
push-Holds {q} ms m h fits = record {
  valid = push-IsValid m h.valid (omega (arith, length-Holds ms h));
  exact =
      contents-push m h.valid (omega (arith, length-Holds ms h))
      ∙ ap (λ l. l ++ (some m ∷ [])) h.exact
      ∙ sym (map-some_append ms m);
}

pub pop_empty :
    {q : MessageQueue} → Holds q [] → ((pop q).0 ≡ 1) × ((pop q).1 ≡ none) × Holds (pop q).2 []
pop_empty {q} h =
    let e : (q.head == q.tail) ≡ true = (empty_iff h.valid).1 h.exact in
    (
      unfold pop in rw (e, pop) refl,
      unfold pop in rw (e, pop) refl,
      record { valid = pop-IsValid h.valid; exact = unfold pop mq_length in rw (e, pop) (h.exact) },
    )

pub pop_first :
    {q : MessageQueue} (m : Message) (ms : List Message)
    → Holds q (m ∷ ms)
    → ((pop q).0 ≡ 0) × ((pop q).1 ≡ some m) × Holds (pop q).2 ms
pop_first {q} m ms h = elim (Bool-cases (q.head == q.tail)) [
  | inl t ↦ cc ((empty_iff h.valid).0 t, h.exact)
  | inr f ↦ (
    (pop_oldest h.valid f).0,
    cc ((pop_oldest h.valid f).1, h.exact),
    record { valid = pop-IsValid h.valid; exact = cc ((pop_oldest h.valid f).1, h.exact) },
  )
]

-- Whatever the calls of push and pop, in any order, a valid ring answers as the FIFO of the messages
-- that it holds, as long as those messages and the calls are fewer than 2^30 together: each `pop`
-- returns the oldest message, 1 and no message exactly when there is none, and no `push` loses one.
pub run_refines :
    (ms : List Message) (ops : List Op) {q : MessageQueue}
    → Holds q ms
    → length ms + length ops < 2 ^ 30
    → run q ops ≡ fifo ms ops
unfolding run
run_refines ms [] h few = refl
run_refines ms (put m ∷ ops) h few =
    run_refines (ms ++ (m ∷ [])) ops (push-Holds ms m h (omega arith))
      (omega (arith, length-append ms (m ∷ [])))
run_refines [] (get ∷ ops) h few =
    let (ret, out, rest) = pop_empty h in
    ap₂ ◌∷◌ (ap₂ (λ (r : ℕ) (o : Option Message). (r, o)) ret out)
      (run_refines [] ops rest (omega arith))
run_refines (m ∷ ms) (get ∷ ops) h few =
    let (ret, out, rest) = pop_first m ms h in
    ap₂ ◌∷◌ (ap₂ (λ (r : ℕ) (o : Option Message). (r, o)) ret out)
      (run_refines ms ops rest (omega arith))
