-- ===== src/Mq/Ring/Push.antt =====
-- skynet/skynet-src/skynet_mq.c: how a push, with the array grown or not, changes the messages in the ring.
use native.Mathlib.Nat.{mod-eq_of_lt}
use skynet_athena.Base.{
  Bool-cases, Option, [], ap, arith, false, inl, inr, length-append, length-replicate, length-set,
  none, refl, replicate, set, some, suc, true, ◌%◌, ◌*◌, ◌++◌, ◌<◌, ◌==◌, ◌^◌, ◌∙◌, ◌∷◌, ◌≡◌,
}
use skynet_athena.Mq.{Message, MessageQueue, expand_queue, mq_length, push, store, unroll, write}
use skynet_athena.Mq.Ring.{
  IsValid, contents, length-unroll, unroll-window, window, window-middle, window-set,
}

-- Expanding a ring whose array is wholly used keeps the order of its cells.
expand-window :
    (q : MessageQueue)
    → 0 < q.cap
    → q.head < q.cap
    → q.cap < 2 ^ 30
    → contents (expand_queue q) ≡ window q.queue q.cap q.head q.cap
unfolding expand_queue mq_length
expand-window q room hh fits =
    window-middle _ [] (unroll q.queue q.head q.cap 0 q.cap) (replicate q.cap none)
      (q.cap * 2 % 2 ^ 32) 0 _ refl refl
      (ground (arith, length-unroll q.queue q.head q.cap 0 q.cap)) (ground arith)
    ∙ unroll-window q.queue q.head q.cap 0 q.cap q.head hh (ground (arith, mod-eq_of_lt hh))

write-window :
    {q : MessageQueue} (m : Message)
    → IsValid q
    → window (write q m).queue q.cap q.head (suc (mq_length q)) ≡ contents q ++ (some m ∷ [])
unfolding write mq_length
write-window {q} m v =
    window-set q.queue q.cap (some m) (mq_length q) q.head q.tail (omega arith) v.head_in
      (ground arith) (ground arith)

cap-write_full :
    {q : MessageQueue} (m : Message)
    → IsValid q
    → ((write q m).head == (write q m).tail) ≡ true
    → q.cap ≡ suc (mq_length q)
unfolding write mq_length
cap-write_full m v e = ground arith

length-write :
    {q : MessageQueue} (m : Message)
    → IsValid q
    → ((write q m).head == (write q m).tail) ≡ false
    → mq_length (write q m) ≡ suc (mq_length q)
unfolding write mq_length
length-write m v e = ground arith

contents-store :
    {q : MessageQueue} (m : Message)
    → IsValid q
    → suc (mq_length q) < 2 ^ 30
    → contents (store q m) ≡ contents q ++ (some m ∷ [])
unfolding store write
contents-store {q} m v fits = elim (Bool-cases ((write q m).head == (write q m).tail)) [
  | inl full ↦
      ap contents (rw full)
      ∙ expand-window (write q m) v.room v.head_in (omega (arith, cap-write_full m v full))
      ∙ ap (window (write q m).queue q.cap q.head) (cap-write_full m v full)
      ∙ write-window m v
  | inr more ↦
      ap contents (rw more)
      ∙ ap (window (write q m).queue q.cap q.head) (length-write m v more)
      ∙ write-window m v
]

contents-push-store :
    (q : MessageQueue) (m : Message) → contents (push q m).0 ≡ contents (store q m)
unfolding push mq_length
contents-push-store q m = elim (Bool-cases ((store q m).in_global == 0)) [
  | inl e ↦ rw e
  | inr e ↦ rw e
]

-- On a valid ring with less than 2^30 - 1 messages `skynet_mq_push` appends the message to those that wait, whether or not the array
-- grows.
pub contents-push :
    {q : MessageQueue} (m : Message)
    → IsValid q
    → suc (mq_length q) < 2 ^ 30
    → contents (push q m).0 ≡ contents q ++ (some m ∷ [])
contents-push {q} m v fits = contents-push-store q m ∙ contents-store m v fits

pub push-IsValid :
    {q : MessageQueue} (m : Message) → IsValid q → suc (mq_length q) < 2 ^ 30 → IsValid (push q m).0
unfolding push store write expand_queue
push-IsValid {q} m v fits = ground (
  arith,
  cap-write_full m v,
  length-set q.queue q.tail (some m),
  length-append (unroll (set q.queue q.tail (some m)) q.head q.cap 0 q.cap) (replicate q.cap none),
  length-unroll (set q.queue q.tail (some m)) q.head q.cap 0 q.cap,
  length-replicate {0} {A = Option Message} q.cap none,
)
