-- ===== src/Timer/Place.antt =====
-- skynet/skynet-src/skynet_timer.c: the list in which a node belongs, as arithmetic on its expiry and
-- the time, and how it changes when the time goes on by one tick.
use skynet_athena.Base.{
  List, Option, arith, bit_or, dec_lt, if◌then◌else◌, inr, none, not, refl, some, ℕ, ℕ_discrete,
  ◌%◌, ◌+◌, ◌-◌, ◌/◌, ◌<◌, ◌==◌, ◌^◌, ◌↔◌, ◌≡◌, ◌≢◌, ◌≤◌, ◌⊎◌,
}
use skynet_athena.Base.Bits.{bit_and_low, bit_or_low}
use skynet_athena.Timer.{Timer, TimerNode, add_node, find_level, link_level, link_near}

pub data Place : Type 0 where
  near_at : ℕ → Place
  level_at : ℕ → ℕ → Place

abbrev pub at : Timer → Place → List TimerNode
at w (near_at i) = w.near i
at w (level_at l i) = w.t l i

abbrev pub link_at : Timer → Place → TimerNode → Timer
link_at w (near_at i) n = link_near w i n
link_at w (level_at l i) n = link_level w l i n

-- The nearest block of 2^8, 2^14, 2^20, 2^26 ticks that holds both the time and the expiry.
pub place : ℕ → ℕ → Place
place now e =
    if e / 2 ^ 8 == now / 2 ^ 8
    then near_at (e % 2 ^ 8)
    else if e / 2 ^ 14 == now / 2 ^ 14
    then level_at 0 (e / 2 ^ 8 % 2 ^ 6)
    else if e / 2 ^ 20 == now / 2 ^ 20
    then level_at 1 (e / 2 ^ 14 % 2 ^ 6)
    else if e / 2 ^ 26 == now / 2 ^ 26
    then level_at 2 (e / 2 ^ 20 % 2 ^ 6)
    else level_at 3 (e / 2 ^ 26 % 2 ^ 6)

-- Where the masked words agree the blocks agree.
masked_8 : (a b : ℕ) → (bit_or a (2 ^ 8 - 1) == bit_or b (2 ^ 8 - 1)) ≡ (a / 2 ^ 8 == b / 2 ^ 8)
masked_8 a b = rw (bit_or_low 8 a, bit_or_low 8 b) (ground arith)

masked_14 :
    (a b : ℕ) → (bit_or a (2 ^ 14 - 1) == bit_or b (2 ^ 14 - 1)) ≡ (a / 2 ^ 14 == b / 2 ^ 14)
masked_14 a b = rw (bit_or_low 14 a, bit_or_low 14 b) (ground arith)

masked_20 :
    (a b : ℕ) → (bit_or a (2 ^ 20 - 1) == bit_or b (2 ^ 20 - 1)) ≡ (a / 2 ^ 20 == b / 2 ^ 20)
masked_20 a b = rw (bit_or_low 20 a, bit_or_low 20 b) (ground arith)

masked_26 :
    (a b : ℕ) → (bit_or a (2 ^ 26 - 1) == bit_or b (2 ^ 26 - 1)) ≡ (a / 2 ^ 26 == b / 2 ^ 26)
masked_26 a b = rw (bit_or_low 26 a, bit_or_low 26 b) (ground arith)

-- `add_node` links a node in the list that `place` computes from its expiry and the time by division
-- in place of masks.
pub add_node-place :
    (w : Timer) (n : TimerNode) → add_node w n ≡ link_at w (place w.time n.expire) n
unfolding add_node place find_level
add_node-place w n =
    rw
      (
        masked_8 n.expire w.time,
        masked_14 n.expire w.time,
        masked_20 n.expire w.time,
        masked_26 n.expire w.time,
        bit_and_low 8 n.expire,
      )
      (ground (
        arith,
        bit_and_low 6 (n.expire / 2 ^ 8),
        bit_and_low 6 (n.expire / 2 ^ 14),
        bit_and_low 6 (n.expire / 2 ^ 20),
        bit_and_low 6 (n.expire / 2 ^ 26),
      ))

-- The list that a tick to the time `ct` takes apart.
unfoldable pub moved : ℕ → Option Place
moved ct =
    if ct == 0
    then some (level_at 3 0)
    else if not (ct % 2 ^ 8 == 0)
    then none
    else if not (ct / 2 ^ 8 % 2 ^ 6 == 0)
    then some (level_at 0 (ct / 2 ^ 8 % 2 ^ 6))
    else if not (ct / 2 ^ 14 % 2 ^ 6 == 0)
    then some (level_at 1 (ct / 2 ^ 14 % 2 ^ 6))
    else if not (ct / 2 ^ 20 % 2 ^ 6 == 0)
    then some (level_at 2 (ct / 2 ^ 20 % 2 ^ 6))
    else some (level_at 3 (ct / 2 ^ 26 % 2 ^ 6))

-- No expiry of the current block of 2^26 ticks has passed.
abbrev pub IsAhead : ℕ → ℕ → Type 0
IsAhead now e = (e < 2 ^ 32) × (e / 2 ^ 26 ≡ now / 2 ^ 26 → now ≤ e)

abbrev Kept : ℕ → ℕ → ℕ → Type 0
Kept now c e = (moved c ≡ some (place now e)) ⊎ (place c e ≡ place now e)

module _ (now e : ℕ) (c : ℕ) (step : c ≡ now + 1) (ne : e ≢ now) (ahead : IsAhead now e) where
  Kept-inside : c % 2 ^ 8 ≢ 0 → Kept now c e
  unfolding place moved
  Kept-inside h =
      let e8 : c / 2 ^ 8 ≡ now / 2 ^ 8 = omega arith in
      let e14 : c / 2 ^ 14 ≡ now / 2 ^ 14 = omega arith in
      let e20 : c / 2 ^ 20 ≡ now / 2 ^ 20 = omega arith in
      let e26 : c / 2 ^ 26 ≡ now / 2 ^ 26 = omega arith in inr (rw (e8, e14, e20, e26) refl)

  Kept-level0 : c % 2 ^ 8 ≡ 0 → c / 2 ^ 8 % 2 ^ 6 ≢ 0 → Kept now c e
  unfolding place moved
  Kept-level0 z h =
      let e14 : c / 2 ^ 14 ≡ now / 2 ^ 14 = omega arith in
      let e20 : c / 2 ^ 20 ≡ now / 2 ^ 20 = omega arith in
      let e26 : c / 2 ^ 26 ≡ now / 2 ^ 26 = omega arith in
      let far : e / 2 ^ 8 ≢ now / 2 ^ 8 = grind arith in rw (e14, e20, e26) (ground arith)

  Kept-level1 : c % 2 ^ 14 ≡ 0 → c / 2 ^ 14 % 2 ^ 6 ≢ 0 → Kept now c e
  unfolding place moved
  Kept-level1 z h =
      let e20 : c / 2 ^ 20 ≡ now / 2 ^ 20 = omega arith in
      let e26 : c / 2 ^ 26 ≡ now / 2 ^ 26 = omega arith in
      let far : e / 2 ^ 14 ≢ now / 2 ^ 14 = grind arith in
      let far8 : e / 2 ^ 8 ≢ now / 2 ^ 8 = omega arith in
      let apart : e / 2 ^ 14 ≢ c / 2 ^ 14 → e / 2 ^ 8 ≢ c / 2 ^ 8 = λ p. omega arith in
      let z8 : c % 2 ^ 8 ≡ 0 = omega arith in
      let z6 : c / 2 ^ 8 % 2 ^ 6 ≡ 0 = omega arith in rw (e20, e26) (ground arith)

  Kept-level2 : c % 2 ^ 20 ≡ 0 → c / 2 ^ 20 % 2 ^ 6 ≢ 0 → Kept now c e
  unfolding place moved
  Kept-level2 z h =
      let e26 : c / 2 ^ 26 ≡ now / 2 ^ 26 = omega arith in
      let far : e / 2 ^ 20 ≢ now / 2 ^ 20 = grind arith in
      let far8 : e / 2 ^ 8 ≢ now / 2 ^ 8 = omega arith in
      let far14 : e / 2 ^ 14 ≢ now / 2 ^ 14 = omega arith in
      let apart8 : e / 2 ^ 20 ≢ c / 2 ^ 20 → e / 2 ^ 8 ≢ c / 2 ^ 8 = λ p. omega arith in
      let apart14 : e / 2 ^ 20 ≢ c / 2 ^ 20 → e / 2 ^ 14 ≢ c / 2 ^ 14 = λ p. omega arith in
      let z8 : c % 2 ^ 8 ≡ 0 = omega arith in
      let z6 : c / 2 ^ 8 % 2 ^ 6 ≡ 0 = omega arith in
      let z14 : c / 2 ^ 14 % 2 ^ 6 ≡ 0 = omega arith in rw (e26) (ground arith)

  Kept-level3 : 0 < c → c < 2 ^ 32 → c % 2 ^ 26 ≡ 0 → Kept now c e
  unfolding place moved
  Kept-level3 pos lt z =
      let far : e / 2 ^ 26 ≢ now / 2 ^ 26 = grind arith in
      let far8 : e / 2 ^ 8 ≢ now / 2 ^ 8 = omega arith in
      let far14 : e / 2 ^ 14 ≢ now / 2 ^ 14 = omega arith in
      let far20 : e / 2 ^ 20 ≢ now / 2 ^ 20 = omega arith in
      let apart8 : e / 2 ^ 26 ≢ c / 2 ^ 26 → e / 2 ^ 8 ≢ c / 2 ^ 8 = λ p. omega arith in
      let apart14 : e / 2 ^ 26 ≢ c / 2 ^ 26 → e / 2 ^ 14 ≢ c / 2 ^ 14 = λ p. omega arith in
      let apart20 : e / 2 ^ 26 ≢ c / 2 ^ 26 → e / 2 ^ 20 ≢ c / 2 ^ 20 = λ p. omega arith in
      let z8 : c % 2 ^ 8 ≡ 0 = omega arith in
      let z6 : c / 2 ^ 8 % 2 ^ 6 ≡ 0 = omega arith in
      let z14 : c / 2 ^ 14 % 2 ^ 6 ≡ 0 = omega arith in
      let z20 : c / 2 ^ 20 % 2 ^ 6 ≡ 0 = omega arith in ground arith

-- The tick count wraps to 0.
Kept-wrap : (now e : ℕ) → now ≡ 2 ^ 32 - 1 → e ≢ now → IsAhead now e → Kept now 0 e
unfolding place moved
Kept-wrap now e w ne ahead =
    let far : e / 2 ^ 26 ≢ now / 2 ^ 26 = grind arith in
    let far8 : e / 2 ^ 8 ≢ now / 2 ^ 8 = omega arith in
    let far14 : e / 2 ^ 14 ≢ now / 2 ^ 14 = omega arith in
    let far20 : e / 2 ^ 20 ≢ now / 2 ^ 20 = omega arith in
    let apart8 : e / 2 ^ 26 ≢ 0 → e / 2 ^ 8 ≢ 0 = λ p. omega arith in
    let apart14 : e / 2 ^ 26 ≢ 0 → e / 2 ^ 14 ≢ 0 = λ p. omega arith in
    let apart20 : e / 2 ^ 26 ≢ 0 → e / 2 ^ 20 ≢ 0 = λ p. omega arith in ground arith

abbrev pub tick : ℕ → ℕ
tick now = (now + 1) % 2 ^ 32

-- A tick leaves a pending node in its place, unless its list is the one that is taken apart.
pub place-tick :
    (now e : ℕ)
    → now < 2 ^ 32
    → e ≢ now
    → IsAhead now e
    → (moved (tick now) ≡ some (place now e)) ⊎ (place (tick now) e ≡ place now e)
place-tick now e hn ne ahead = elim (dec_lt (now + 1) (2 ^ 32)) [
  | no last ↦ let z : tick now ≡ 0 = omega arith in rw z (Kept-wrap now e (omega arith) ne ahead)
  | yes more ↦ below (tick now) (omega arith) (omega arith)
]
  where
    below : (c : ℕ) → c ≡ now + 1 → c < 2 ^ 32 → Kept now c e
    below c step lt = elim (ℕ_discrete (c % 2 ^ 8) 0) [
      | no a ↦ Kept-inside now e c step ne ahead a
      | yes a ↦ elim (ℕ_discrete (c / 2 ^ 8 % 2 ^ 6) 0) [
        | no b ↦ Kept-level0 now e c step ne ahead a b
        | yes b ↦ elim (ℕ_discrete (c / 2 ^ 14 % 2 ^ 6) 0) [
          | no d ↦ Kept-level1 now e c step ne ahead (omega arith) d
          | yes d ↦ elim (ℕ_discrete (c / 2 ^ 20 % 2 ^ 6) 0) [
            | no f ↦ Kept-level2 now e c step ne ahead (omega arith) f
            | yes f ↦ Kept-level3 now e c step ne ahead (omega arith) lt (omega arith)
          ]
        ]
      ]
    ]

pub IsAhead-tick : (now e : ℕ) → now < 2 ^ 32 → e ≢ now → IsAhead now e → IsAhead (tick now) e
IsAhead-tick now e hn ne (he, ahead) =
    (he, λ h. elim (dec_lt (now + 1) (2 ^ 32)) [ yes p ↦ grind arith | no p ↦ omega arith ])

-- The node whose turn it is lies in the near list of the current time, and it alone.
pub place_due : (now e : ℕ) → (place now e ≡ near_at (now % 2 ^ 8)) ↔ (e ≡ now)
unfolding place
place_due now e = (λ h. ground arith, λ h. ground arith)
