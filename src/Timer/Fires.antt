-- ===== src/Timer/Fires.antt =====
-- skynet/skynet-src/skynet_timer.c: a tick of `timer_update`, many of them, and `timer_add`.
use skynet_athena.Base.{
  In, [], ap, arith, get_or, inl, inr, refl, subst, suc, sym, zero, ℕ, ◌%◌, ◌+◌, ◌<◌, ◌^◌, ◌↔◌, ◌∙◌,
  ◌≡◌, ◌≢◌,
}
use skynet_athena.Timer.{
  Timer, TimerNode, add_node, timer_add, timer_create, timer_execute, timer_shift, timer_update,
  update_times,
}
use skynet_athena.Timer.Place.{IsAhead, Place, at, level_at, near_at, place, tick}
use skynet_athena.Timer.Wheel.{add_node-In, time-add_node}
use skynet_athena.Timer.Tick.{
  IsWheel, Waits, execute-IsWheel, execute-at, execute_nothing, second-IsWheel, second_out,
  second-Waits, shift-In, time-execute, time-shift, time_left,
}

-- One tick of a wheel in order: exactly the waiting nodes that expire at the new time are dispatched, exactly the others
-- go on waiting, and the wheel is in order again.
pub timer_update_lem :
    (w : Timer)
    → IsWheel w
    → ((timer_update w).1.time ≡ tick w.time)
      × IsWheel (timer_update w).1
      × ((n : TimerNode) → In n (timer_update w).0 ↔ (Waits w n × (n.expire ≡ tick w.time)))
      × ((n : TimerNode) → Waits (timer_update w).1 n ↔ (Waits w n × (n.expire ≢ tick w.time)))
unfolding timer_update
timer_update_lem w v = (
  time_left u s uv (tick w.time) ct st hung,
  second-IsWheel u s uv (tick w.time) ct st hung,
  λ n. rw (execute_nothing w v) (
      subst (λ T. In n (timer_execute s).0 ↔ (T × (n.expire ≡ tick w.time))) (same n)
        (second_out u s uv (tick w.time) ct st hung n)),
  λ n.
      subst (λ T. Waits (timer_execute s).1 n ↔ (T × (n.expire ≢ tick w.time))) (same n)
        (second-Waits u s uv (tick w.time) ct st hung n),
)
  where
    u : Timer
    u = (timer_execute w).1

    s : Timer
    s = timer_shift u

    uv : IsWheel u
    uv = execute-IsWheel w v

    ct : tick w.time ≡ tick u.time
    ct = ap tick (sym (time-execute w))

    st : s.time ≡ tick w.time
    st = time-shift u ∙ ap tick (time-execute w)

    hung :
        (n : TimerNode) (q : Place)
        → In n (at s q) ↔ (Waits u n × (place (tick w.time) n.expire ≡ q))
    hung n q =
        subst (λ c. In n (at s q) ↔ (Waits u n × (place c n.expire ≡ q))) (sym ct)
          (shift-In u uv n q)

    same : (n : TimerNode) → Waits u n ≡ Waits w n
    same n =
        ap (λ t. In n (at u (place t n.expire))) (time-execute w)
        ∙ ap (In n) (execute-at w v (place w.time n.expire))

-- A node that waits in a wheel in order and expires `k + 1` ticks ahead, less than 2^32, is dispatched
-- in round `k` of the update loop, and in no round before it.
pub fires_at_expiry :
    (k : ℕ) (w : Timer) (n : TimerNode)
    → IsWheel w
    → Waits w n
    → n.expire ≡ (w.time + suc k) % 2 ^ 32
    → suc k < 2 ^ 32
    → In n (get_or (update_times (suc k) w).0 k [])
      × ((j : ℕ) → j < k → In n (get_or (update_times (suc k) w).0 j []) → ⊥)
unfolding update_times
fires_at_expiry zero w n v h e lt =
    (((timer_update_lem w v).2 n).1 (h, e), λ j less. absurd (omega arith))
fires_at_expiry (suc k) w n v h e lt =
    let (out, earlier) =
      fires_at_expiry k (timer_update w).1 n (timer_update_lem w v).1
        (((timer_update_lem w v).3 n).1 (h, not_yet))
        (omega (arith, (timer_update_lem w v).0, v.time_in)) (omega arith) in
    (out, before earlier)
  where
    not_yet : n.expire ≢ tick w.time
    not_yet f = absurd (omega (arith, v.time_in))

    before :
        ((j : ℕ) → j < k → In n (get_or (update_times (suc k) (timer_update w).1).0 j []) → ⊥)
        → (j : ℕ) → j < suc k
        → In n (get_or (update_times (suc (suc k)) w).0 j [])
        → ⊥
    before earlier zero less i = not_yet (((timer_update_lem w v).2 n).0 i).1
    before earlier (suc j) less i = earlier j (omega arith) i

-- `timer_add` keeps the wheel in order for every positive time that fits a signed `int`, and the new
-- node waits in it beside the others.
pub timer_add-IsWheel :
    (w : Timer) (handle session time : ℕ)
    → IsWheel w
    → 0 < time
    → time < 2 ^ 31
    → IsWheel (timer_add w handle session time)
      × Waits
          (timer_add w handle session time)
          (record { expire = (time + w.time) % 2 ^ 32; handle = handle; session = session })
      × ((n : TimerNode) → Waits w n → Waits (timer_add w handle session time) n)
unfolding timer_add
timer_add-IsWheel w handle session time v pos lt = (
  record {
    time_in = rw (time-add_node w node) v.time_in;
    placed = λ q n h. rw (time-add_node w node) (placed' q n h);
    ahead = λ q n h. rw (time-add_node w node) (ahead' q n h);
    later = λ q n h. rw (time-add_node w node) (later' q n h);
  },
  rw (time-add_node w node)
      ((add_node-In w node node (place w.time node.expire)).1 (inr (refl, refl))),
  λ n h. rw (time-add_node w node) ((add_node-In w node n (place w.time n.expire)).1 (inl h)),
)
  where
    node : TimerNode
    node = record { expire = (time + w.time) % 2 ^ 32; handle = handle; session = session }

    placed' :
        (q : Place) (n : TimerNode) → In n (at (add_node w node) q) → place w.time n.expire ≡ q
    placed' q n h = elim ((add_node-In w node n q).0 h) [
      | inl old ↦ v.placed q n old
      | inr new ↦ new.1
    ]

    ahead' : (q : Place) (n : TimerNode) → In n (at (add_node w node) q) → IsAhead w.time n.expire
    ahead' q n h = elim ((add_node-In w node n q).0 h) [
      | inl old ↦ v.ahead q n old
      | inr new ↦
          subst (λ (m : TimerNode). IsAhead w.time m.expire) (sym new.0)
            (omega arith, λ g. omega (arith, v.time_in))
    ]

    later' : (q : Place) (n : TimerNode) → In n (at (add_node w node) q) → n.expire ≢ w.time
    later' q n h = elim ((add_node-In w node n q).0 h) [
      | inl old ↦ v.later q n old
      | inr new ↦
          subst (λ (m : TimerNode). m.expire ≢ w.time) (sym new.0) (λ g. omega (arith, v.time_in))
    ]

pub timer_create-IsWheel : IsWheel timer_create
unfolding timer_create
timer_create-IsWheel = record {
  time_in = omega arith;
  placed = λ q n h. absurd (nothing q n h);
  ahead = λ q n h. absurd (nothing q n h);
  later = λ q n h. absurd (nothing q n h);
}
  where
    nothing : (q : Place) (n : TimerNode) → In n (at timer_create q) → ⊥
    nothing (near_at i) n h = h
    nothing (level_at l i) n h = h
