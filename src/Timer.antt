-- ===== src/Timer.antt =====
-- skynet/skynet-src/skynet_timer.c: the timing wheel. One near array of 256 lists and four levels of
-- 64 lists hold the pending timeouts; each tick empties one list, and cascades a list of a level when
-- the tick count carries into it.
pub mod Place
pub mod Wheel
pub mod Tick
pub mod Fires
mod Tests
use skynet_athena.Base.{
  Bool, List, Option, [], bit_and, bit_or, if◌then◌else◌, ltb, none, some, suc, update, zero, ℕ,
  ◌%◌, ◌*◌, ◌++◌, ◌+◌, ◌-◌, ◌/◌, ◌==◌, ◌^◌, ◌∷◌,
}

abbrev pub u32 : ℕ
u32 = 2 ^ 32

abbrev pub u64 : ℕ
u64 = 2 ^ 64

-- `TIME_NEAR_MASK` and `TIME_LEVEL_MASK`.
abbrev pub time_near_mask : ℕ
time_near_mask = 2 ^ 8 - 1

abbrev pub time_level_mask : ℕ
time_level_mask = 2 ^ 6 - 1

-- `struct timer_node` with the `struct timer_event` that follows it in memory.
pub record TimerNode : Type 0 where
  pub expire : ℕ
  pub handle : ℕ
  pub session : ℕ

-- `struct timer`. A `struct link_list` with its tail pointer is a list; the two arrays are indexed by
-- masked values only. `current_point` and `current` are the clock's.
pub record Timer : Type 0 where
  pub near : ℕ → List TimerNode
  pub t : ℕ → ℕ → List TimerNode
  pub time : ℕ
  pub starttime : ℕ
  pub current : ℕ
  pub current_point : ℕ

-- `timer_create_timer`.
pub timer_create : Timer
timer_create = record {
  near = λ _. [];
  t = λ _ _. [];
  time = 0;
  starttime = 0;
  current = 0;
  current_point = 0;
}

-- `link`: a node goes to the end of its list.
abbrev pub link_near : Timer → ℕ → TimerNode → Timer
link_near w i n = record w { near = update w.near i (w.near i ++ (n ∷ [])) }

abbrev pub link_level : Timer → ℕ → ℕ → TimerNode → Timer
link_level w l i n = record w { t = update w.t l (update (w.t l) i (w.t l i ++ (n ∷ []))) }

-- The loop of `add_node` over the levels: `mask` is `TIME_NEAR << TIME_LEVEL_SHIFT` shifted once more
-- in each round, `k` the rounds left of three.
pub find_level : ℕ → ℕ → ℕ → ℕ → ℕ → ℕ
find_level zero i mask time current = i
find_level (suc k) i mask time current =
    let further = find_level k (i + 1) (mask * 2 ^ 6) time current in
    if bit_or time (mask - 1) == bit_or current (mask - 1) then i else further

pub add_node : Timer → TimerNode → Timer
add_node w n =
    if bit_or n.expire time_near_mask == bit_or w.time time_near_mask
    then link_near w (bit_and n.expire time_near_mask) n
    else let i = find_level 3 0 (2 ^ 14) n.expire w.time in
      link_level w i (bit_and (n.expire / 2 ^ (8 + i * 6)) time_level_mask) n

-- `timer_add`: the 32-bit sum wraps.
pub timer_add : Timer → ℕ → ℕ → ℕ → Timer
timer_add w handle session time =
    add_node w (record { expire = (time + w.time) % u32; handle = handle; session = session })

abbrev pub add_all : Timer → List TimerNode → Timer
add_all w [] = w
add_all w (n ∷ ns) = add_all (add_node w n) ns

-- `move_list`: the list is detached first, then each node is added anew.
pub move_list : Timer → ℕ → ℕ → Timer
move_list w level idx =
    add_all (record w { t = update w.t level (update (w.t level) idx []) }) (w.t level idx)

-- The loop of `timer_shift`, for `k` rounds at most: the level and index of the list to move.
pub carry : ℕ → ℕ → ℕ → ℕ → ℕ → Option (ℕ × ℕ)
carry zero i mask time ct = none
carry (suc k) i mask time ct =
    let idx = bit_and time time_level_mask in
    let further = carry k (i + 1) (mask * 2 ^ 6) (time / 2 ^ 6) ct in
    if bit_and ct (mask - 1) == 0 then (if idx == 0 then further else some (i, idx)) else none

pub timer_shift : Timer → Timer
timer_shift w =
    let ct = (w.time + 1) % u32 in
    let w' = record w { time = ct } in
    if ct == 0 then move_list w' 3 0 else elim (carry 4 0 (2 ^ 8) (ct / 2 ^ 8) ct) [
      | none ↦ w'
      | some (level, idx) ↦ move_list w' level idx
    ]

-- `timer_execute`: the nodes handed to `dispatch_list`, in order. The loop's second test finds the
-- list empty, since the calls here are atomic.
pub timer_execute : Timer → List TimerNode × Timer
timer_execute w =
    let idx = bit_and w.time time_near_mask in
    (w.near idx, record w { near = update w.near idx [] })

pub timer_update : Timer → List TimerNode × Timer
timer_update w =
    let (early, w1) = timer_execute w in
    let (due, w2) = timer_execute (timer_shift w1) in (early ++ due, w2)

-- `for (i=0;i<diff;i++) timer_update(TI);`: what is dispatched in each round.
pub update_times : ℕ → Timer → List (List TimerNode) × Timer
update_times zero w = ([], w)
update_times (suc k) w =
    let (out, w1) = timer_update w in let (outs, w2) = update_times k w1 in (out ∷ outs, w2)

-- `skynet_updatetime`; `cp` is what `gettime` returns.
pub updatetime : ℕ → Timer → List (List TimerNode) × Timer
updatetime cp w =
    if ltb cp w.current_point
    then ([], record w { current_point = cp })
    else if cp == w.current_point
    then ([], w)
    else let diff = (cp - w.current_point) % u32 in
      update_times diff (record w { current_point = cp; current = (w.current + diff) % u64 })

-- `skynet_timer_init`; the arguments are what `systime` and `gettime` give.
pub timer_init : ℕ → ℕ → ℕ → Timer
timer_init sec cs cp = record timer_create { starttime = sec; current = cs; current_point = cp }

-- `skynet_timeout`: the result (`none` is -1), what goes to `skynet_context_push` at once, and the
-- wheel. The time 0 stands for every time that is not positive; `failed` is what
-- `skynet_context_push` answers.
pub timeout : Timer → ℕ → ℕ → ℕ → Bool → Option ℕ × Option (ℕ × ℕ) × Timer
timeout w handle time session failed =
    if time == 0
    then (if failed then none else some session, some (handle, session), w)
    else (some session, none, timer_add w handle session time)
