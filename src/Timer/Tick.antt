-- ===== src/Timer/Tick.antt =====
-- skynet/skynet-src/skynet_timer.c: the wheel between two ticks, and the two halves of a tick.
use skynet_athena.Base.Bits.{bit_and_low}
use skynet_athena.Base.{
  In, Option, [], ap, arith, inl, inr, none, not-In_nil, refl, some, subst, sym, ℕ, ◌%◌, ◌<◌, ◌^◌,
  ◌↔◌, ◌∙◌, ◌≡◌, ◌≢◌, ◌⊎◌,
}
use skynet_athena.Timer.{Timer, TimerNode, timer_execute, timer_shift}
use skynet_athena.Timer.Place.{
  IsAhead, IsAhead-tick, Place, at, level_at, moved, near_at, place, place-tick, place_due, tick,
}
use skynet_athena.Timer.Wheel.{
  Place-discrete, at-clear_ne, at-clear_self, clear_at, rehang-In, shifted, time-add_all,
  timer_shift-moved,
}

-- The wheel between two ticks: every node lies where it belongs, and none is due or overdue.
pub record IsWheel (w : Timer) : Type 0 where
  pub time_in : w.time < 2 ^ 32
  pub placed : (q : Place) (n : TimerNode) → In n (at w q) → place w.time n.expire ≡ q
  pub ahead : (q : Place) (n : TimerNode) → In n (at w q) → IsAhead w.time n.expire
  pub later : (q : Place) (n : TimerNode) → In n (at w q) → n.expire ≢ w.time

-- A node waits in the wheel.
abbrev pub Waits : Timer → TimerNode → Type 0
Waits w n = In n (at w (place w.time n.expire))

at-time : (w : Timer) (c : ℕ) (q : Place) → at (record w { time = c }) q ≡ at w q
at-time w c (near_at i) = refl
at-time w c (level_at l i) = refl

shifted-time : (w : Timer) (o : Option Place) → (shifted w o).time ≡ w.time
shifted-time w none = refl
shifted-time w (some (near_at i)) = time-add_all (clear_at w (near_at i)) (w.near i)
shifted-time w (some (level_at l i)) = time-add_all (clear_at w (level_at l i)) (w.t l i)

pub time-shift : (w : Timer) → (timer_shift w).time ≡ tick w.time
time-shift w =
    ap (λ (v : Timer). v.time) (timer_shift-moved w)
    ∙ shifted-time (record w { time = tick w.time }) (moved (tick w.time))

abbrev ticked : Timer → Timer
ticked w = record w { time = tick w.time }

module _ (w : Timer) (v : IsWheel w) (n : TimerNode) (q : Place) where
  -- A node of the wheel belongs to the list that is taken apart, or keeps its place.
  tick_cases :
      (r : Place)
      → In n (at w r)
      → (moved (tick w.time) ≡ some r) ⊎ (place (tick w.time) n.expire ≡ r)
  tick_cases r h =
      let here : place w.time n.expire ≡ r = v.placed r n h in
      elim (place-tick w.time n.expire v.time_in (v.later r n h) (v.ahead r n h)) [
        | inl m ↦ inl (m ∙ ap some here)
        | inr s ↦ inr (s ∙ here)
      ]

  Waits-at : (r : Place) → In n (at w r) → Waits w n
  Waits-at r h = subst (λ r. In n (at w r)) (sym (v.placed r n h)) h

  -- After the shift each waiting node lies where the new time wants it, and nothing else does.
  shifted-In :
      (o : Option Place)
      → moved (tick w.time) ≡ o
      → In n (at (shifted (ticked w) o) q) ↔ (Waits w n × (place (tick w.time) n.expire ≡ q))
  shifted-In none e = (
    λ h.
        let old : In n (at w q) = subst (In n) (at-time w (tick w.time) q) h in
        elim (tick_cases q old) [ inl m ↦ cc (m, e) | inr s ↦ (Waits-at q old, s) ],
    λ h. elim (tick_cases (place w.time n.expire) h.0) [
      | inl m ↦ cc (m, e)
      | inr s ↦
          subst (In n) (sym (at-time w (tick w.time) q))
            (subst (λ r. In n (at w r)) (sym s ∙ h.1) h.0)
    ],
  )
  shifted-In (some p) e = (
    λ h. elim ((rehang-In (ticked w) p n q).0 h) [
      | inl (stays, ne) ↦
          let old : In n (at w q) = subst (In n) (at-time w (tick w.time) q) stays in
          elim (tick_cases q old) [ inl m ↦ absurd (ne (cc (e, m))) | inr s ↦ (Waits-at q old, s) ]
      | inr (from, f) ↦ (Waits-at p (subst (In n) (at-time w (tick w.time) p) from), f)
    ],
    λ h. elim (Place-discrete p (place w.time n.expire)) [
      | yes same ↦ (rehang-In (ticked w) p n q).1 (
          inr (
            subst (In n) (sym (at-time w (tick w.time) p))
                (subst (λ r. In n (at w r)) (sym same) h.0),
            h.1,
          ))
      | no ne ↦ elim (tick_cases (place w.time n.expire) h.0) [
        | inl m ↦ absurd (ne (cc (e, m)))
        | inr s ↦
            let to : place w.time n.expire ≡ q = sym s ∙ h.1 in
            (rehang-In (ticked w) p n q).1 (
              inl (
                subst (In n) (sym (at-time w (tick w.time) q)) (subst (λ r. In n (at w r)) to h.0),
                λ pq. ne (pq ∙ sym to),
              ))
      ]
    ],
  )

  pub shift-In : In n (at (timer_shift w) q) ↔ (Waits w n × (place (tick w.time) n.expire ≡ q))
  shift-In =
      subst (λ u. In n (at u q) ↔ (Waits w n × (place (tick w.time) n.expire ≡ q)))
        (sym (timer_shift-moved w)) (shifted-In (moved (tick w.time)) refl)

-- `timer_execute` hands over the near list of the current time and leaves the others.
execute-clear : (w : Timer) → (timer_execute w).0 ≡ at w (near_at (w.time % 2 ^ 8))
unfolding timer_execute
execute-clear w = ap w.near (bit_and_low 8 w.time)

execute-state : (w : Timer) → (timer_execute w).1 ≡ clear_at w (near_at (w.time % 2 ^ 8))
unfolding timer_execute
execute-state w = ap (λ i. clear_at w (near_at i)) (bit_and_low 8 w.time)

-- A wheel has nothing to hand over before the shift.
pub execute_nothing : (w : Timer) → IsWheel w → (timer_execute w).0 ≡ []
execute_nothing w v =
    execute-clear w
    ∙ not-In_nil (at w (near_at (w.time % 2 ^ 8))) λ n h.
      v.later (near_at (w.time % 2 ^ 8)) n h
        ((place_due w.time n.expire).0 (v.placed (near_at (w.time % 2 ^ 8)) n h))

-- With its near list empty anyway, the first execution changes no list.
pub execute-at : (w : Timer) → IsWheel w → (q : Place) → at (timer_execute w).1 q ≡ at w q
execute-at w v q =
    ap (λ (u : Timer). at u q) (execute-state w)
    ∙ elim (Place-discrete (near_at (w.time % 2 ^ 8)) q) [
      | yes e ↦
          ap (at (clear_at w (near_at (w.time % 2 ^ 8)))) (sym e)
          ∙ at-clear_self w (near_at (w.time % 2 ^ 8))
          ∙ sym (sym (execute-clear w) ∙ execute_nothing w v)
          ∙ ap (at w) e
      | no ne ↦ at-clear_ne w (near_at (w.time % 2 ^ 8)) q ne
    ]

pub time-execute : (w : Timer) → (timer_execute w).1.time ≡ w.time
unfolding timer_execute
time-execute w = refl

pub execute-IsWheel : (w : Timer) → IsWheel w → IsWheel (timer_execute w).1
execute-IsWheel w v = record {
  time_in = rw (time-execute w) v.time_in;
  placed = λ q n h. rw (time-execute w) (v.placed q n (before q n h));
  ahead = λ q n h. rw (time-execute w) (v.ahead q n (before q n h));
  later = λ q n h. rw (time-execute w) (v.later q n (before q n h));
}
  where
    before : (q : Place) (n : TimerNode) → In n (at (timer_execute w).1 q) → In n (at w q)
    before q n h = subst (In n) (execute-at w v q) h

clear-In :
    (w : Timer) (p q : Place) (n : TimerNode)
    → In n (at (clear_at w p) q) ↔ (In n (at w q) × (p ≢ q))
clear-In w p q n = elim (Place-discrete p q) [
  | yes e ↦ (
    λ h. absurd (subst (In n) (ap (at (clear_at w p)) (sym e) ∙ at-clear_self w p) h),
    λ h. absurd (h.1 e),
  )
  | no ne ↦ (
    λ h. (subst (In n) (at-clear_ne w p q ne) h, ne),
    λ h. subst (In n) (sym (at-clear_ne w p q ne)) h.0,
  )
]

-- The second execution, after the shift of a wheel `u` to the time `c`.
module _ (u s : Timer) (v : IsWheel u) (c : ℕ) (ct : c ≡ tick u.time) (st : s.time ≡ c)
    (hung : (n : TimerNode) (q : Place)
      → In n (at s q) ↔ (Waits u n × (place c n.expire ≡ q))) where
  abbrev due_at : Place
  due_at = near_at (s.time % 2 ^ 8)

  due_iff : (n : TimerNode) → (place c n.expire ≡ due_at) ↔ (n.expire ≡ c)
  due_iff n = rw st (place_due c n.expire)

  pub second_out : (n : TimerNode) → In n (timer_execute s).0 ↔ (Waits u n × (n.expire ≡ c))
  second_out n = rw (execute-clear s) (
    λ h. (((hung n due_at).0 h).0, (due_iff n).0 ((hung n due_at).0 h).1),
    λ h. (hung n due_at).1 (h.0, (due_iff n).1 h.1),
  )

  pub left_In :
      (n : TimerNode) (q : Place)
      → In n (at (timer_execute s).1 q) ↔ (Waits u n × (place c n.expire ≡ q) × (n.expire ≢ c))
  left_In n q = rw (execute-state s) (
    λ h.
        let (stays, ne) = (clear-In s due_at q n).0 h in
        let (waits, here) = (hung n q).0 stays in
        (waits, here, λ e. ne (sym ((due_iff n).1 e) ∙ here)),
    λ h.
        (clear-In s due_at q n).1 ((hung n q).1 (h.0, h.1), λ e. h.2 ((due_iff n).0 (h.1 ∙ sym e))),
  )

  pub time_left : (timer_execute s).1.time ≡ c
  time_left = time-execute s ∙ st

  pub second-IsWheel : IsWheel (timer_execute s).1
  second-IsWheel = record {
    time_in = rw (time_left, ct) (omega arith);
    placed = λ q n h. rw time_left (((left_In n q).0 h).1);
    ahead = λ q n h.
        rw (time_left, ct)
          (IsAhead-tick u.time n.expire v.time_in (v.later _ n ((left_In n q).0 h).0)
            (v.ahead (place u.time n.expire) n ((left_In n q).0 h).0));
    later = λ q n h. rw time_left (((left_In n q).0 h).2);
  }

  pub second-Waits : (n : TimerNode) → Waits (timer_execute s).1 n ↔ (Waits u n × (n.expire ≢ c))
  second-Waits n = rw time_left (
    λ h. (((left_In n (place c n.expire)).0 h).0, ((left_In n (place c n.expire)).0 h).2),
    λ h. (left_In n (place c n.expire)).1 (h.0, refl, h.1),
  )
