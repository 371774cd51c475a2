-- ===== src/Mq/Ring/Pop.antt =====
-- skynet/skynet-src/skynet_mq.c: how a pop changes the messages in the ring, and its overload mark.
use skynet_athena.Base.{
  Bool-cases, [], ap, arith, false, get_or, if◌then◌else◌, inl, inr, leb, length, ltb, none, refl,
  suc, true, zero, ℕ, ◌*◌, ◌+◌, ◌-◌, ◌<◌, ◌==◌, ◌↔◌, ◌∙◌, ◌∷◌, ◌≡◌, ◌≤◌,
}
use skynet_athena.Mq.{MessageQueue, left_over, mq_length, next_head, pop, raise}
use skynet_athena.Mq.Ring.{IsValid, contents, next, window, window_of_pos}

-- The fuel that `pop` gives to `raise` is enough: the loop ends by its test.
raise_bound :
    (fuel length mark threshold : ℕ)
    → 0 < threshold
    → length ≤ threshold + fuel
    → (length ≤ (raise fuel length mark threshold).1)
      × (threshold ≤ (raise fuel length mark threshold).1)
unfolding raise
raise_bound zero length mark threshold pos h = ground arith
raise_bound (suc fuel) length mark threshold pos h =
    ground (arith, raise_bound fuel length length (threshold * 2))

raise_mark :
    (fuel length mark threshold : ℕ)
    → threshold < length
    → (raise (suc fuel) length mark threshold).0 ≡ length
unfolding raise
raise_mark zero length mark threshold h = ground arith
raise_mark (suc fuel) length mark threshold h = elim (Bool-cases (ltb (threshold * 2) length)) [
  | inl e ↦ ground (arith, raise_mark fuel length length (threshold * 2))
  | inr e ↦ ground arith
]

raise_stays :
    (fuel length mark threshold : ℕ)
    → length ≤ threshold
    → ((raise fuel length mark threshold).0 ≡ mark)
      × ((raise fuel length mark threshold).1 ≡ threshold)
unfolding raise
raise_stays zero length mark threshold h = (refl, refl)
raise_stays (suc fuel) length mark threshold h = ground arith

abbrev Raised : ℕ → ℕ → ℕ → ℕ × ℕ → Type 0
Raised length mark threshold r =
    (length ≤ r.1)
    × (threshold < length → r.0 ≡ length)
    × (length ≤ threshold → (r.0 ≡ mark) × (r.1 ≡ threshold))

raise-Raised :
    (length mark threshold : ℕ)
    → 0 < threshold
    → Raised length mark threshold (raise length length mark threshold)
raise-Raised zero mark threshold pos =
    (omega arith, λ h. absurd (omega arith), raise_stays 0 0 mark threshold)
raise-Raised (suc n) mark threshold pos = (
  (raise_bound (suc n) (suc n) mark threshold pos (omega arith)).0,
  raise_mark n (suc n) mark threshold,
  raise_stays (suc n) (suc n) mark threshold,
)

left_over-length :
    {q : MessageQueue}
    → IsValid q
    → (q.head == q.tail) ≡ false
    → (0 < mq_length q) × (left_over q ≡ mq_length q - 1)
unfolding left_over next_head mq_length
left_over-length v e = ground arith

window_after_pop :
    {q : MessageQueue}
    → IsValid q
    → (q.head == q.tail) ≡ false
    → contents q
      ≡ get_or q.queue q.head none
        ∷ window q.queue q.cap (next_head q) (
            if leb (next_head q) q.tail then q.tail - next_head q else q.tail + q.cap - next_head q)
unfolding next_head
window_after_pop {q} v e =
    window_of_pos q.queue q.cap q.head (mq_length q) (left_over-length v e).0
    ∙ ap (λ k. get_or q.queue q.head none ∷ window q.queue q.cap (next q.cap q.head) k)
        (unfold mq_length in ground arith)

-- On a queue that holds something, `skynet_mq_pop` takes the oldest message and leaves the others.
pub pop_oldest :
    {q : MessageQueue}
    → IsValid q
    → (q.head == q.tail) ≡ false
    → ((pop q).0 ≡ 0) × (contents q ≡ (pop q).1 ∷ contents (pop q).2)
unfolding pop mq_length
pop_oldest {q} v e = rw (e, pop) (refl, window_after_pop v e)

pub pop-IsValid : {q : MessageQueue} → IsValid q → IsValid (pop q).2
unfolding pop next_head
pop-IsValid {q} v =
    ground
      (arith, raise_bound (left_over q) (left_over q) q.overload q.overload_threshold v.threshold)

-- An empty ring has equal indices, and only an empty one.
pub empty_iff : {q : MessageQueue} → IsValid q → ((q.head == q.tail) ≡ true) ↔ (contents q ≡ [])
empty_iff {q} v = (
  λ e. unfold mq_length in (let z : mq_length q ≡ 0 = ground arith in rw z),
  λ e. elim (Bool-cases (q.head == q.tail)) [ inl t ↦ t | inr f ↦ cc ((pop_oldest v f).1, e) ],
)

length-pop : (q : MessageQueue) → (q.head == q.tail) ≡ false → mq_length (pop q).2 ≡ left_over q
unfolding pop mq_length left_over next_head
length-pop q e = rw (e, pop) (ground arith)

-- After a successful `skynet_mq_pop` the queue is within its threshold; where what is left exceeds
-- the old one, the overload mark is the length left, and else mark and threshold stay.
pub pop_overload :
    {q : MessageQueue}
    → IsValid q
    → (q.head == q.tail) ≡ false
    → (mq_length (pop q).2 ≤ (pop q).2.overload_threshold)
      × (q.overload_threshold < mq_length (pop q).2 → (pop q).2.overload ≡ mq_length (pop q).2)
      × (mq_length (pop q).2 ≤ q.overload_threshold
          → ((pop q).2.overload ≡ q.overload)
            × ((pop q).2.overload_threshold ≡ q.overload_threshold))
pop_overload {q} v e =
    rw (length-pop q e)
      unfold pop in
        rw (e, pop) (raise-Raised (left_over q) q.overload q.overload_threshold v.threshold)
