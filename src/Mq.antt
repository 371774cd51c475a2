-- ===== src/Mq.antt =====
-- skynet/skynet-src/skynet_mq.c and skynet_mq.h: the message queue of one service, a ring that
-- doubles when it is full. The spin lock makes each function one step; `Global` has the list of the
-- queues that wait for a worker.
pub mod Ring
pub mod Refine
pub mod Global
pub mod World
mod Tests
use skynet_athena.Base.{
  Bool, List, Option, [], false, get_or, if◌then◌else◌, leb, length, ltb, none, replicate, set,
  some, suc, true, zero, ℕ, ◌%◌, ◌*◌, ◌++◌, ◌+◌, ◌-◌, ◌==◌, ◌^◌, ◌∷◌,
}

-- `struct skynet_message`; `data` is an address, 0 for NULL.
pub record Message : Type 0 where
  pub source : ℕ
  pub session : ℕ
  pub data_ptr : ℕ
  pub sz : ℕ

abbrev pub default_queue_size : ℕ
default_queue_size = 64

abbrev pub mq_in_global : ℕ
mq_in_global = 1

abbrev pub mq_overload : ℕ
mq_overload = 1024

-- `struct message_queue` without the `next` link, which `Global` keeps. A cell that was never
-- written since `skynet_malloc` holds `none`.
pub record MessageQueue : Type 0 where
  pub handle : ℕ
  pub cap : ℕ
  pub head : ℕ
  pub tail : ℕ
  pub release : ℕ
  pub in_global : ℕ
  pub overload : ℕ
  pub overload_threshold : ℕ
  pub queue : List (Option Message)

pub create : ℕ → MessageQueue
create handle = record {
  handle = handle;
  cap = default_queue_size;
  head = 0;
  tail = 0;
  release = 0;
  in_global = mq_in_global;
  overload = 0;
  overload_threshold = mq_overload;
  queue = replicate default_queue_size none;
}

unfoldable pub mq_length : MessageQueue → ℕ
mq_length q = if leb q.head q.tail then q.tail - q.head else q.tail + q.cap - q.head

-- `skynet_mq_overload` returns the mark and clears it.
pub take_overload : MessageQueue → ℕ × MessageQueue
take_overload q = if q.overload == 0 then (0, q) else (q.overload, record q { overload = 0 })

-- `while (length > q->overload_threshold)` on fuel: the mark and the threshold.
pub raise : ℕ → ℕ → ℕ → ℕ → ℕ × ℕ
raise zero length mark threshold = (mark, threshold)
raise (suc fuel) length mark threshold =
    let rest = raise fuel length length (threshold * 2) in
    if ltb threshold length then rest else (mark, threshold)

-- The read index after one pop, and the signed `tail - head` brought back into the ring.
pub next_head : MessageQueue → ℕ
next_head q = if leb q.cap (q.head + 1) then 0 else q.head + 1

pub left_over : MessageQueue → ℕ
unfolding next_head
left_over q =
    if ltb q.tail (next_head q) then q.tail + q.cap - next_head q else q.tail - next_head q

-- The result is 1 for an empty queue, with nothing written to `*message`.
pub pop : MessageQueue → ℕ × Option Message × MessageQueue
unfolding next_head left_over
pop q =
    if q.head == q.tail
    then (1, none, record q { overload_threshold = mq_overload; in_global = 0 })
    else let (mark, threshold) =
        raise (left_over q) (left_over q) q.overload q.overload_threshold in
      (
        0,
        get_or q.queue q.head none,
        record q { head = next_head q; overload = mark; overload_threshold = threshold },
      )

-- The copying loop of `expand_queue`, for `n` cells from `head + i` on.
pub unroll : List (Option Message) → ℕ → ℕ → ℕ → ℕ → List (Option Message)
unroll buf head cap i zero = []
unroll buf head cap i (suc n) = get_or buf ((head + i) % cap) none ∷ unroll buf head cap (i + 1) n

-- The new `cap` is the bit pattern of the doubled `int`.
pub expand_queue : MessageQueue → MessageQueue
unfolding unroll
expand_queue q = record q {
  head = 0;
  tail = q.cap;
  cap = q.cap * 2 % 2 ^ 32;
  queue = unroll q.queue q.head q.cap 0 q.cap ++ replicate q.cap none;
}

-- The write and the advance of the tail in `skynet_mq_push`.
pub write : MessageQueue → Message → MessageQueue
write q m = record q {
  queue = set q.queue q.tail (some m);
  tail = if leb q.cap (q.tail + 1) then 0 else q.tail + 1;
}

pub store : MessageQueue → Message → MessageQueue
store q m = let q' = write q m in if q'.head == q'.tail then expand_queue q' else q'

-- `skynet_mq_push`; the flag says that it puts the queue on the global list.
pub push : MessageQueue → Message → MessageQueue × Bool
push q m =
    let q' = store q m in
    if q'.in_global == 0 then (record q' { in_global = mq_in_global }, true) else (q', false)
