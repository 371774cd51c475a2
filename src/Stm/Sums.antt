-- ===== src/Stm/Sums.antt =====
-- skynet/lualib-src/lua-stm.c: the number of references to a copy, as one of them moves.
use skynet_athena.Base.{Option, arith, some, subst, suc, update, ℕ, ℕ_discrete, ◌+◌, ◌-◌, ◌<◌, ◌≡◌}
use skynet_athena.Stm.{StmCopy}
use skynet_athena.Stm.Counts.{CopyIs, points}

pub held_sum :
    (held p : ℕ → ℕ) (k j : ℕ)
    → update (λ i. held i + p i) k (suc (held k + p k)) j ≡ update held k (suc (held k)) j + p j
held_sum held p k j = elim (ℕ_discrete j k) [ yes e ↦ rw e (ground arith) | no ne ↦ ground arith ]

pub give_sum :
    (held p : ℕ → ℕ) (k : ℕ)
    → 0 < held k
    → (j : ℕ)
    → update (λ i. held i + p i) k (held k + p k - 1) j ≡ update held k (held k - 1) j + p j
give_sum held p k lt j = elim (ℕ_discrete j k) [
  | yes e ↦ rw e (ground arith)
  | no ne ↦ ground arith
]

-- The object gives back the copy at `k`, the only one that it leads to.
pub drop_sum :
    (held : ℕ → ℕ) (k j : ℕ)
    → update (λ i. held i + points (some k) i) k (held k + points (some k) k - 1) j ≡ held j
drop_sum held k j = elim (ℕ_discrete j k) [ yes e ↦ rw e (ground arith) | no ne ↦ ground arith ]

-- The object leads to a new copy at `m`, and the one at `k` is held instead.
pub swap_sum :
    (held : ℕ → ℕ) (k m : ℕ)
    → held m + points (some k) m ≡ 0
    → (j : ℕ)
    → update (λ i. held i + points (some k) i) m 1 j
      ≡ update held k (suc (held k)) j + points (some m) j
swap_sum held k m z j = elim (ℕ_discrete j m) [
  | yes e ↦ rw e (ground arith)
  | no ne ↦ elim (ℕ_discrete j k) [ yes e ↦ rw e (ground arith) | no ne' ↦ ground arith ]
]

pub points_self : (o : Option ℕ) (k : ℕ) → o ≡ some k → points o k ≡ 1
points_self o k e = rw e (ground arith)

pub count_ext :
    (f : ℕ → Option StmCopy) (m n : ℕ → ℕ)
    → ((j : ℕ) → CopyIs (f j) (m j))
    → ((j : ℕ) → m j ≡ n j)
    → (j : ℕ) → CopyIs (f j) (n j)
count_ext f m n is e j = subst (CopyIs (f j)) (e j) (is j)
