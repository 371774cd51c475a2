-- ===== src/Mq/Tests.antt =====
-- Runs of the message queue, and its theorems at concrete queues.
use skynet_athena.Base.{List, [], arith, none, refl, some, update, update_ne, ℕ, ◌∷◌, ◌≡◌, ◌≢◌}
use skynet_athena.Mq.{Message, MessageQueue, expand_queue, mq_length, push, store, write}
use skynet_athena.Mq.Refine.{Holds, get, put, run, run_refines}
use skynet_athena.Mq.Global.{GlobalQueue, Lists}
use skynet_athena.Mq.World.{
  IsScheduled, World, drop_queue, drop_queue-Holds, mq_pop, mq_pop-IsScheduled, mq_push,
  mq_push-IsScheduled,
}

abbrev msg : ℕ → Message
msg n = record { source = 1; session = n; data_ptr = 0; sz = 0 }

-- Two messages in a ring of three cells, from index 2 round to 0.
abbrev wrapped : MessageQueue
wrapped = record {
  handle = 9;
  cap = 3;
  head = 2;
  tail = 1;
  release = 0;
  in_global = 1;
  overload = 0;
  overload_threshold = 1024;
  queue = some (msg 2) ∷ none ∷ some (msg 1) ∷ [];
}

-- The next push fills the array, so it doubles.
push_grows : (push wrapped (msg 3)).0.cap ≡ 6
unfolding push store write expand_queue
push_grows = refl

wrapped-Holds : Holds wrapped (msg 1 ∷ msg 2 ∷ [])
unfolding mq_length
wrapped-Holds = record { valid = omega arith; exact = refl }

run_refines_example :
    run wrapped (get ∷ put (msg 3) ∷ put (msg 4) ∷ get ∷ [])
    ≡ (0, some (msg 1)) ∷ (0, some (msg 2)) ∷ []
run_refines_example =
    run_refines (msg 1 ∷ msg 2 ∷ []) (get ∷ put (msg 3) ∷ put (msg 4) ∷ get ∷ []) wrapped-Holds
      (omega arith)

drop_queue-Holds_example : drop_queue 3 wrapped ≡ some (msg 1) ∷ some (msg 2) ∷ []
drop_queue-Holds_example = drop_queue-Holds (msg 1 ∷ msg 2 ∷ []) 3 wrapped-Holds (omega arith)

-- Queues 5 and 7 wait for a worker.
abbrev two_waiting : GlobalQueue
two_waiting = record { head = some 5; tail = some 7; next = update (λ _. none) 5 (some 7) }

two_waiting-Lists : Lists two_waiting (5 ∷ 7 ∷ [])
two_waiting-Lists = record {
  from_head = refl;
  to_tail = refl;
  linked = (refl, (refl, tt));
  distinct = ((λ e. absurd (omega arith), tt), (tt, tt));
  alone = λ i h. update_ne (λ _. none) 5 i (some 7) h.0;
}

-- Every queue is marked and holds two messages; queue 9 is being dispatched.
abbrev busy_world : World
busy_world = record { queues = λ i. wrapped; global = two_waiting }

busy_world-IsScheduled : IsScheduled busy_world (5 ∷ 7 ∷ [])
busy_world-IsScheduled = record {
  lists = two_waiting-Lists;
  valid = λ i. wrapped-Holds.valid;
  marked = λ i h. absurd (omega arith);
}

mq_push-IsScheduled_example :
    (w' : World) × (ys : List ℕ) × (mq_push busy_world 9 (msg 3) ≡ some w')
    × IsScheduled w' ys
    × (wrapped.in_global ≡ 0 → ys ≡ 5 ∷ 7 ∷ 9 ∷ [])
    × (wrapped.in_global ≢ 0 → ys ≡ 5 ∷ 7 ∷ [])
    × ((w'.queues 9).in_global ≢ 0)
    × (w'.queues ≡ update busy_world.queues 9 (push wrapped (msg 3)).0)
unfolding mq_length
mq_push-IsScheduled_example =
    mq_push-IsScheduled busy_world (5 ∷ 7 ∷ []) 9 (msg 3) busy_world-IsScheduled (omega arith)

mq_pop-IsScheduled_example : IsScheduled (mq_pop busy_world 9).2 (5 ∷ 7 ∷ [])
mq_pop-IsScheduled_example =
    mq_pop-IsScheduled busy_world (5 ∷ 7 ∷ []) 9 busy_world-IsScheduled (omega arith)
