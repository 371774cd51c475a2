-- ===== src/Timer/Wheel.antt =====
-- skynet/skynet-src/skynet_timer.c: where the nodes lie after each operation on the wheel.
use skynet_athena.Base.Bits.{bit_and_low}
use skynet_athena.Base.{
  In, In-append, In-append_left, In-append_right, List, Option, [], ap, arith, false, inl, inr,
  none, refl, some, subst, sym, true, update, update_ne, update_self, ℕ, ℕ_discrete, ◌%◌, ◌&&◌,
  ◌++◌, ◌/◌, ◌<◌, ◌==◌, ◌^◌, ◌↔◌, ◌∙◌, ◌∷◌, ◌≡◌, ◌≢◌, ◌⊎◌,
}
use skynet_athena.Timer.{Timer, TimerNode, add_all, add_node, carry, move_list, timer_shift}
use skynet_athena.Timer.Place.{
  Place, add_node-place, at, level_at, link_at, moved, near_at, place, tick,
}

pub Place-discrete : Discrete Place
Place-discrete = hlevel ℕ_discrete

-- `link_clear` on the list of a place.
abbrev pub clear_at : Timer → Place → Timer
clear_at w (near_at i) = record w { near = update w.near i [] }
clear_at w (level_at l i) = record w { t = update w.t l (update (w.t l) i []) }

at-update_level :
    (w : Timer) (l i k j : ℕ) (xs : List TimerNode)
    → level_at l i ≢ level_at k j
    → update w.t l (update (w.t l) i xs) k j ≡ w.t k j
at-update_level w l i k j xs ne = elim (ℕ_discrete k l) [
  | no a ↦ ap (λ (f : ℕ → List TimerNode). f j) (update_ne w.t l k (update (w.t l) i xs) a)
  | yes a ↦ elim (ℕ_discrete j i) [
    | yes b ↦ absurd (ne (cc (a, b)))
    | no b ↦ rw a (
        ap (λ (f : ℕ → List TimerNode). f j) (update_self w.t l (update (w.t l) i xs))
        ∙ update_ne (w.t l) i j xs b)
  ]
]

at-update_self :
    (w : Timer) (l i : ℕ) (xs : List TimerNode) → update w.t l (update (w.t l) i xs) l i ≡ xs
at-update_self w l i xs =
    ap (λ (f : ℕ → List TimerNode). f i) (update_self w.t l (update (w.t l) i xs))
    ∙ update_self (w.t l) i xs

at-link_self : (w : Timer) (p : Place) (n : TimerNode) → at (link_at w p n) p ≡ at w p ++ (n ∷ [])
at-link_self w (near_at i) n = update_self w.near i (w.near i ++ (n ∷ []))
at-link_self w (level_at l i) n = at-update_self w l i (w.t l i ++ (n ∷ []))

at-link_ne : (w : Timer) (p q : Place) (n : TimerNode) → p ≢ q → at (link_at w p n) q ≡ at w q
at-link_ne w (near_at i) (near_at j) n ne =
    update_ne w.near i j (w.near i ++ (n ∷ [])) (λ e. ne (cc e))
at-link_ne w (near_at i) (level_at k j) n ne = refl
at-link_ne w (level_at l i) (near_at j) n ne = refl
at-link_ne w (level_at l i) (level_at k j) n ne = at-update_level w l i k j (w.t l i ++ (n ∷ [])) ne

pub at-clear_self : (w : Timer) (p : Place) → at (clear_at w p) p ≡ []
at-clear_self w (near_at i) = update_self w.near i []
at-clear_self w (level_at l i) = at-update_self w l i []

pub at-clear_ne : (w : Timer) (p q : Place) → p ≢ q → at (clear_at w p) q ≡ at w q
at-clear_ne w (near_at i) (near_at j) ne = update_ne w.near i j [] (λ e. ne (cc e))
at-clear_ne w (near_at i) (level_at k j) ne = refl
at-clear_ne w (level_at l i) (near_at j) ne = refl
at-clear_ne w (level_at l i) (level_at k j) ne = at-update_level w l i k j [] ne

-- `add_node` puts the node where it belongs and leaves every other list alone.
pub add_node-In :
    (w : Timer) (n m : TimerNode) (q : Place)
    → In m (at (add_node w n) q) ↔ (In m (at w q) ⊎ ((m ≡ n) × (place w.time m.expire ≡ q)))
add_node-In w n m q = elim (Place-discrete (place w.time n.expire) q) [
  | yes e ↦
      rw (add_node-place w n, e, at-link_self w q n)
        (
          λ h. elim (In-append m (at w q) (n ∷ []) h) [
            | inl old ↦ inl old
            | inr new ↦ elim new [ inl f ↦ inr (f, rw f e) | inr none_left ↦ absurd none_left ]
          ],
          λ h. elim h [
            | inl old ↦ In-append_left m (at w q) (n ∷ []) old
            | inr (e', _) ↦ In-append_right m (at w q) (n ∷ []) (inl e')
          ],
        )
  | no ne ↦
      rw (add_node-place w n, at-link_ne w (place w.time n.expire) q n ne)
        (λ h. inl h, λ h. elim h [ inl old ↦ old | inr (e', f) ↦ absurd (ne (rw (← e') f)) ])
]

pub time-add_node : (w : Timer) (n : TimerNode) → (add_node w n).time ≡ w.time
unfolding add_node
time-add_node w n = ground arith

pub time-add_all : (w : Timer) (ns : List TimerNode) → (add_all w ns).time ≡ w.time
time-add_all w [] = refl
time-add_all w (n ∷ ns) = time-add_all (add_node w n) ns ∙ time-add_node w n

add_all-In :
    (w : Timer) (ns : List TimerNode) (m : TimerNode) (q : Place)
    → In m (at (add_all w ns) q) ↔ (In m (at w q) ⊎ (In m ns × (place w.time m.expire ≡ q)))
add_all-In w [] m q = (λ h. inl h, λ h. elim h [ inl old ↦ old | inr (x, _) ↦ absurd x ])
add_all-In w (n ∷ ns) m q = (
  λ h. elim ((add_all-In (add_node w n) ns m q).0 h) [
    | inl here ↦ elim ((add_node-In w n m q).0 here) [
      | inl old ↦ inl old
      | inr (e, f) ↦ inr (inl e, f)
    ]
    | inr (later, f) ↦ inr (inr later, rw (time-add_node w n) at f)
  ],
  λ h. elim h [
    | inl old ↦ (add_all-In (add_node w n) ns m q).1 (inl ((add_node-In w n m q).1 (inl old)))
    | inr (inl e, f) ↦
        (add_all-In (add_node w n) ns m q).1 (inl ((add_node-In w n m q).1 (inr (e, f))))
    | inr (inr later, f) ↦
        (add_all-In (add_node w n) ns m q).1 (inr (later, rw (time-add_node w n) f))
  ],
)

-- Taking the list of a place apart and adding its nodes anew.
abbrev pub rehang : Timer → Place → Timer
rehang w p = add_all (clear_at w p) (at w p)

time-clear : (w : Timer) (p : Place) → (clear_at w p).time ≡ w.time
time-clear w (near_at i) = refl
time-clear w (level_at l i) = refl

pub rehang-In :
    (w : Timer) (p : Place) (m : TimerNode) (q : Place)
    → In m (at (rehang w p) q)
      ↔ ((In m (at w q) × (p ≢ q)) ⊎ (In m (at w p) × (place w.time m.expire ≡ q)))
rehang-In w p m q = (
  λ h. elim ((add_all-In (clear_at w p) (at w p) m q).0 h) [
    | inl stays ↦ elim (Place-discrete p q) [
      | yes e ↦ absurd (subst (In m) (ap (at (clear_at w p)) (sym e) ∙ at-clear_self w p) stays)
      | no ne ↦ inl (subst (In m) (at-clear_ne w p q ne) stays, ne)
    ]
    | inr (from, f) ↦ inr (from, rw (time-clear w p) at f)
  ],
  λ h. elim h [
    | inl (stays, ne) ↦
        (add_all-In (clear_at w p) (at w p) m q).1
          (inl (subst (In m) (sym (at-clear_ne w p q ne)) stays))
    | inr (from, f) ↦ (add_all-In (clear_at w p) (at w p) m q).1 (inr (from, rw (time-clear w p) f))
  ],
)

-- What a tick moves, as `timer_shift` finds it.
abbrev pub shifted : Timer → Option Place → Timer
shifted w none = w
shifted w (some p) = rehang w p

to_place : Option (ℕ × ℕ) → Option Place
to_place none = none
to_place (some (l, i)) = some (level_at l i)

-- Four rounds are enough for the loop of `timer_shift`: it stops where the tick carries no further.
carry-moved :
    (ct : ℕ) → ct ≢ 0 → ct < 2 ^ 32 → to_place (carry 4 0 (2 ^ 8) (ct / 2 ^ 8) ct) ≡ moved ct
unfolding carry to_place moved
carry-moved ct ne lt =
    rw
      (
        bit_and_low 8 ct,
        bit_and_low 14 ct,
        bit_and_low 20 ct,
        bit_and_low 26 ct,
        bit_and_low 6 (ct / 2 ^ 8),
        bit_and_low 6 (ct / 2 ^ 8 / 2 ^ 6),
        bit_and_low 6 (ct / 2 ^ 8 / 2 ^ 6 / 2 ^ 6),
        bit_and_low 6 (ct / 2 ^ 8 / 2 ^ 6 / 2 ^ 6 / 2 ^ 6),
      )
      (let d14 : ct / 2 ^ 8 / 2 ^ 6 ≡ ct / 2 ^ 14 = omega arith in
        let d20 : ct / 2 ^ 14 / 2 ^ 6 ≡ ct / 2 ^ 20 = omega arith in
        let d26 : ct / 2 ^ 20 / 2 ^ 6 ≡ ct / 2 ^ 26 = omega arith in
        let c14 : (ct % 2 ^ 14 == 0) ≡ ((ct % 2 ^ 8 == 0) && (ct / 2 ^ 8 % 2 ^ 6 == 0)) =
          ground arith in
        let c20 : (ct % 2 ^ 20 == 0) ≡ ((ct % 2 ^ 14 == 0) && (ct / 2 ^ 14 % 2 ^ 6 == 0)) =
          ground arith in
        let c26 : (ct % 2 ^ 26 == 0) ≡ ((ct % 2 ^ 20 == 0) && (ct / 2 ^ 20 % 2 ^ 6 == 0)) =
          ground arith in
        let top : (ct % 2 ^ 26 == 0) ≡ true → (ct / 2 ^ 26 % 2 ^ 6 == 0) ≡ false =
          λ h. ground arith in
        let low : (ct == 0) ≡ false = ground arith in
        rw (d14, d20, d26, c26, c20, c14, low) (ground arith))

shift_by :
    (w : Timer) (o : Option (ℕ × ℕ))
    → (elim o [ none ↦ w | some (level, idx) ↦ move_list w level idx ]) ≡ shifted w (to_place o)
unfolding to_place move_list
shift_by w none = refl
shift_by w (some (l, i)) = refl

moved-zero : (c : ℕ) → c ≡ 0 → moved c ≡ some (level_at 3 0)
unfolding moved
moved-zero c z = ground arith

pub timer_shift-moved :
    (w : Timer) → timer_shift w ≡ shifted (record w { time = tick w.time }) (moved (tick w.time))
unfolding timer_shift
timer_shift-moved w = elim (ℕ_discrete (tick w.time) 0) [
  | yes z ↦
      (let z' : (tick w.time == 0) ≡ true = ground arith in
        rw (z', moved-zero (tick w.time) z) (unfold move_list in refl))
  | no nz ↦
      (let nz' : (tick w.time == 0) ≡ false = ground arith in
        rw nz' (
          shift_by (record w { time = tick w.time })
            (carry 4 0 (2 ^ 8) (tick w.time / 2 ^ 8) (tick w.time))
          ∙ ap (shifted (record w { time = tick w.time }))
              (carry-moved (tick w.time) nz (omega arith))))
]
