-- ===== src/Base/Bits.antt =====
-- `&` and `|` with a mask of low bits, for every width. The native operations stand for a recursion
-- on binary digits; `and_step` and `or_step` are that recursion without its fuel.
use Prim.Native.Nat.{ℕ, zero, suc, ◌+◌, ◌-◌, ◌*◌, ◌/◌, ◌%◌, ◌^◌, ◌≤◌, ◌<◌, min, max}
use Prim.Native.Nat.{bit_and, bit_or, digits, bit_and-bitwise, bit_or-bitwise}
use mathlib.Core.Path.{◌≡◌, refl, ap}
use native.Mathlib.Nat.{pow-suc, one-le-pow}
use native.Mathlib.Omega.{arith}

-- More fuel than the number has digits changes nothing.
module _ (z : ℕ → ℕ) (f : ℕ → ℕ → ℕ) where
  enough : (m n a b : ℕ) → a ≤ m → a ≤ n → digits z f m a b ≡ digits z f n a b
  enough zero zero zero b p q = refl
  enough zero zero (suc a) b p q = absurd (omega arith)
  enough zero (suc n) zero b p q = refl
  enough zero (suc n) (suc a) b p q = absurd (omega arith)
  enough (suc m) zero zero b p q = refl
  enough (suc m) zero (suc a) b p q = absurd (omega arith)
  enough (suc m) (suc n) zero b p q = refl
  enough (suc m) (suc n) (suc a) b p q =
      rw (enough m n (suc a / 2) (b / 2) (omega arith) (omega arith))

and_step : (a b : ℕ) → bit_and a b ≡ bit_and (a / 2) (b / 2) * 2 + min (a % 2) (b % 2)
and_step zero b = omega (arith, bit_and-bitwise 0 b, bit_and-bitwise 0 (b / 2))
and_step (suc a) b = omega (
  arith,
  bit_and-bitwise (suc a) b,
  bit_and-bitwise (suc a / 2) (b / 2),
  enough (λ _. 0) min a (suc a / 2) (suc a / 2) (b / 2) (omega arith) (omega arith),
)

or_step : (a b : ℕ) → bit_or a b ≡ bit_or (a / 2) (b / 2) * 2 + max (a % 2) (b % 2)
or_step zero b = omega (arith, bit_or-bitwise 0 b, bit_or-bitwise 0 (b / 2))
or_step (suc a) b = omega (
  arith,
  bit_or-bitwise (suc a) b,
  bit_or-bitwise (suc a / 2) (b / 2),
  enough (λ b. b) max a (suc a / 2) (suc a / 2) (b / 2) (omega arith) (omega arith),
)

and_zero_below : (n a : ℕ) → a ≤ n → bit_and a 0 ≡ 0
and_zero_below n zero h = refl
and_zero_below zero (suc a) h = absurd (omega arith)
and_zero_below (suc n) (suc a) h =
    omega (arith, and_step (suc a) 0, and_zero_below n (suc a / 2) (omega arith))

or_zero_below : (n a : ℕ) → a ≤ n → bit_or a 0 ≡ a
or_zero_below n zero h = refl
or_zero_below zero (suc a) h = absurd (omega arith)
or_zero_below (suc n) (suc a) h =
    omega (arith, or_step (suc a) 0, or_zero_below n (suc a / 2) (omega arith))

double : (q k : ℕ) → q * 2 ^ suc k ≡ 2 * (q * 2 ^ k)
double q k = omega (arith, ap (λ (t : ℕ). q * t) (pow-suc 2 k))

-- `a & (2^k - 1)`, for a number given by its quotient and remainder.
and_parts : (k q r : ℕ) → r < 2 ^ k → bit_and (q * 2 ^ k + r) (2 ^ k - 1) ≡ r
and_parts zero q r h = ground (arith, and_zero_below (q * 1 + r) (q * 1 + r))
and_parts (suc k) q r h = ground (
  arith,
  and_step (q * 2 ^ suc k + r) (2 ^ suc k - 1),
  double q k,
  pow-suc 2 k,
  one-le-pow k 2,
  and_parts k q (r / 2),
)

-- `a | (2^k - 1)`, likewise.
or_parts : (k q r : ℕ) → r < 2 ^ k → bit_or (q * 2 ^ k + r) (2 ^ k - 1) ≡ q * 2 ^ k + (2 ^ k - 1)
or_parts zero q r h = ground (arith, or_zero_below (q * 1 + r) (q * 1 + r))
or_parts (suc k) q r h = ground (
  arith,
  or_step (q * 2 ^ suc k + r) (2 ^ suc k - 1),
  double q k,
  pow-suc 2 k,
  one-le-pow k 2,
  or_parts k q (r / 2),
)

pub bit_and_low : (k a : ℕ) → bit_and a (2 ^ k - 1) ≡ a % 2 ^ k
bit_and_low k a = ground (arith, one-le-pow k 2, and_parts k (a / 2 ^ k) (a % 2 ^ k))

pub bit_or_low : (k a : ℕ) → bit_or a (2 ^ k - 1) ≡ a / 2 ^ k * 2 ^ k + (2 ^ k - 1)
bit_or_low k a = ground (arith, one-le-pow k 2, or_parts k (a / 2 ^ k) (a % 2 ^ k))

-- `(q << k) | r`, where `r` fits `k` bits.
pub bit_or_shifted : (k q r : ℕ) → r < 2 ^ k → bit_or (q * 2 ^ k) r ≡ q * 2 ^ k + r
bit_or_shifted zero q r h = ground (arith, or_zero_below (q * 1) (q * 1))
bit_or_shifted (suc k) q r h =
    ground (arith, or_step (q * 2 ^ suc k) r, double q k, pow-suc 2 k, bit_or_shifted k q (r / 2))

zero_or : (r x : ℕ) → r ≡ 0 → bit_or r x ≡ x
zero_or zero x h = omega (arith, bit_or-bitwise 0 x)
zero_or (suc r) x h = absurd (omega arith)

-- `r | (q << k)`, where `r` fits `k` bits.
pub bit_or_low_shifted : (k q r : ℕ) → r < 2 ^ k → bit_or r (q * 2 ^ k) ≡ q * 2 ^ k + r
bit_or_low_shifted zero q r h = omega (arith, zero_or r (q * 1) (omega arith))
bit_or_low_shifted (suc k) q r h =
    ground
      (arith, or_step r (q * 2 ^ suc k), double q k, pow-suc 2 k, bit_or_low_shifted k q (r / 2))
