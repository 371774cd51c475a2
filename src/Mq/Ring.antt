-- ===== src/Mq/Ring.antt =====
-- skynet/skynet-src/skynet_mq.c: the messages in the ring of a queue, as a window of its array.
pub mod Push
pub mod Pop
use native.Mathlib.Nat.{mod-eq_of_lt, mod-add-mod, mod-eq-sub-mod}
use skynet_athena.Base.{
  List, Option, [], ap, ap₂, arith, dec_lt, get_or, get_or-set_ne, get_or-set_self, if◌then◌else◌,
  leb, length, length-append, none, refl, set, suc, zero, ℕ, ◌%◌, ◌++◌, ◌+◌, ◌-◌, ◌<◌, ◌∙◌, ◌∷◌,
  ◌≡◌, ◌≤◌,
}
use skynet_athena.Mq.{Message, MessageQueue, mq_length, unroll}

-- What every reachable queue satisfies: indices inside the array, and a positive threshold.
pub record IsValid (q : MessageQueue) : Type 0 where
  pub room : 0 < q.cap
  pub array : length q.queue ≡ q.cap
  pub head_in : q.head < q.cap
  pub tail_in : q.tail < q.cap
  pub threshold : 0 < q.overload_threshold

abbrev pub next : ℕ → ℕ → ℕ
next cap h = if leb cap (h + 1) then 0 else h + 1

-- The `n` cells from index `h` on, going round at `cap`.
abbrev pub window : List (Option Message) → ℕ → ℕ → ℕ → List (Option Message)
window buf cap h zero = []
window buf cap h (suc n) = get_or buf h none ∷ window buf cap (next cap h) n

-- The messages that wait, oldest first.
abbrev pub contents : MessageQueue → List (Option Message)
contents q = window q.queue q.cap q.head (mq_length q)

pub length-window : (buf : List (Option Message)) (cap h n : ℕ) → length (window buf cap h n) ≡ n
length-window buf cap h zero = refl
length-window buf cap h (suc n) = ap suc (length-window buf cap (next cap h) n)

pub window_of_pos :
    (buf : List (Option Message)) (cap h n : ℕ)
    → 0 < n
    → window buf cap h n ≡ get_or buf h none ∷ window buf cap (next cap h) (n - 1)
window_of_pos buf cap h zero p = absurd (omega arith)
window_of_pos buf cap h (suc n) p =
    ap (λ k. get_or buf h none ∷ window buf cap (next cap h) k) (omega arith)

-- The index `n` cells after `h`.
abbrev around : ℕ → ℕ → ℕ → ℕ
around cap h n = if leb cap (h + n) then h + n - cap else h + n

-- Writing just past a window extends it.
pub window-set :
    (buf : List (Option Message)) (cap : ℕ) (x : Option Message) (n h i : ℕ)
    → cap ≤ length buf
    → h < cap
    → n < cap
    → i ≡ around cap h n
    → window (set buf i x) cap h (suc n) ≡ window buf cap h n ++ (x ∷ [])
window-set buf cap x zero h i len hh hn e =
    let e' : i ≡ h = ground arith in rw (e', get_or-set_self buf h x none (omega arith))
window-set buf cap x (suc n) h i len hh hn e =
    ap₂ ◌∷◌ (get_or-set_ne buf i h x none (ground arith))
      (window-set buf cap x n (next cap h) i len (ground arith) (omega arith) (ground arith))

pub next-mod : (x cap k : ℕ) → k < cap → k ≡ x % cap → next cap k ≡ (x + 1) % cap
next-mod x cap k h e = elim (dec_lt (k + 1) cap) [
  | yes p ↦ ground (arith, mod-add-mod x cap 1, mod-eq_of_lt p)
  | no p ↦ ground (
    arith,
    mod-add-mod x cap 1,
    mod-eq-sub-mod {n = k + 1} {m = cap},
    mod-eq_of_lt {n = k + 1 - cap} {m = cap},
  )
]

-- The copying loop reads the same cells.
pub unroll-window :
    (buf : List (Option Message)) (h cap i n k : ℕ)
    → k < cap
    → k ≡ (h + i) % cap
    → unroll buf h cap i n ≡ window buf cap k n
unfolding unroll
unroll-window buf h cap i zero k hk e = refl
unroll-window buf h cap i (suc n) k hk e = ap₂ ◌∷◌ (ap (λ j. get_or buf j none) (omega arith)) (
    unroll-window buf h cap (i + 1) n (next cap k) (ground arith)
      (next-mod (h + i) cap k hk e ∙ ap (λ t. t % cap) (omega arith)))

pub length-unroll :
    (buf : List (Option Message)) (h cap i n : ℕ) → length (unroll buf h cap i n) ≡ n
unfolding unroll
length-unroll buf h cap i zero = refl
length-unroll buf h cap i (suc n) = ap suc (length-unroll buf h cap (i + 1) n)

get_or-middle :
    (pre post : List (Option Message)) (x : Option Message)
    → get_or (pre ++ (x ∷ post)) (length pre) none ≡ x
get_or-middle [] post x = refl
get_or-middle (y ∷ pre) post x = get_or-middle pre post x

append-middle :
    (pre xs : List (Option Message)) (x : Option Message)
    → pre ++ (x ∷ xs) ≡ (pre ++ (x ∷ [])) ++ xs
append-middle [] xs x = refl
append-middle (y ∷ pre) xs x = ap (◌∷◌ y) (append-middle pre xs x)

-- A stretch that does not reach the end of the array is read as it stands.
pub window-middle :
    (buf pre xs post : List (Option Message)) (c k n : ℕ)
    → buf ≡ pre ++ (xs ++ post)
    → k ≡ length pre
    → n ≡ length xs
    → k + n < c
    → window buf c k n ≡ xs
window-middle buf pre [] post c k n b e f h = rw f
window-middle buf pre (x ∷ xs) post c k n b e f h =
    let step : next c k ≡ k + 1 = ground arith in
    rw f (
      ap₂ ◌∷◌ (rw (b, e) (get_or-middle pre (xs ++ post) x)) (
        rw step (
          window-middle buf (pre ++ (x ∷ [])) xs post c (k + 1) (length xs)
            (b ∙ append-middle pre (xs ++ post) x) (omega (arith, length-append pre (x ∷ []))) refl
            (omega arith))))
