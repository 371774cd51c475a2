-- ===== src/Timer/Tests.antt =====
-- Runs of the timing wheel, and its theorems at concrete wheels.
use skynet_athena.Base.{In, [], arith, get_or, refl, ℕ, ◌%◌, ◌+◌, ◌<◌, ◌^◌, ◌↔◌, ◌≡◌, ◌≢◌}
use skynet_athena.Timer.{
  Timer, TimerNode, add_node, timer_add, timer_create, timer_update, update_times,
}
use skynet_athena.Timer.Place.{tick}
use skynet_athena.Timer.Tick.{IsWheel, Waits}
use skynet_athena.Timer.Fires.{
  fires_at_expiry, timer_add-IsWheel, timer_create-IsWheel, timer_update_lem,
}

-- A timeout of service 7 in three ticks from the start.
abbrev in_three : TimerNode
in_three = record { expire = 3; handle = 7; session = 1 }

armed : Timer
armed = timer_add timer_create 7 1 3

armed_lem :
    IsWheel (timer_add timer_create 7 1 3)
    × Waits
        (timer_add timer_create 7 1 3)
        (record { expire = (3 + timer_create.time) % 2 ^ 32; handle = 7; session = 1 })
    × ((n : TimerNode) → Waits timer_create n → Waits (timer_add timer_create 7 1 3) n)
armed_lem = timer_add-IsWheel timer_create 7 1 3 timer_create-IsWheel (omega arith) (omega arith)

armed-IsWheel : IsWheel armed
unfolding armed
armed-IsWheel = armed_lem.0

armed-Waits : Waits armed in_three
unfolding armed timer_create
armed-Waits = armed_lem.1

time-armed : armed.time ≡ 0
unfolding armed timer_add timer_create add_node
time-armed = refl

timer_update_lem_example :
    ((timer_update armed).1.time ≡ tick armed.time)
    × IsWheel (timer_update armed).1
    × ((n : TimerNode)
        → In n (timer_update armed).0 ↔ (Waits armed n × (n.expire ≡ tick armed.time)))
    × ((n : TimerNode)
        → Waits (timer_update armed).1 n ↔ (Waits armed n × (n.expire ≢ tick armed.time)))
timer_update_lem_example = timer_update_lem armed armed-IsWheel

fires_at_expiry_example :
    In in_three (get_or (update_times 3 armed).0 2 [])
    × ((j : ℕ) → j < 2 → In in_three (get_or (update_times 3 armed).0 j []) → ⊥)
fires_at_expiry_example =
    fires_at_expiry 2 armed in_three armed-IsWheel armed-Waits (rw time-armed refl) (omega arith)
