-- ===== src/Crypt/Dh.antt =====
-- skynet/lualib-src/lua-crypt.c: Diffie-Hellman exchange over 64-bit words. Additions, subtractions
-- and the shift of `uint64_t` wrap.
pub mod Power
use mathlib.Core.Option
use skynet_athena.Base.{
  Option, if◌then◌else◌, leb, ltb, none, some, suc, zero, ℕ, ◌%◌, ◌*◌, ◌+◌, ◌-◌, ◌/◌, ◌==◌, ◌^◌,
  ◌||◌,
}

-- `P`.
abbrev pub prime : ℕ
prime = 0xffffffffffffffc5

-- `G`.
abbrev pub generator : ℕ
generator = 5

abbrev pub add64 : ℕ → ℕ → ℕ
add64 a b = (a + b) % 2 ^ 64

abbrev pub sub64 : ℕ → ℕ → ℕ
sub64 a b = (a + 2 ^ 64 - b) % 2 ^ 64

-- The sum in `m` and the doubling of `a` in `mul_mod_p`.
unfoldable pub add_step : ℕ → ℕ → ℕ
add_step m a = if leb (sub64 prime a) m then sub64 m (sub64 prime a) else add64 m a

unfoldable pub double_step : ℕ → ℕ
double_step a = if leb (sub64 prime a) a then sub64 (a * 2 % 2 ^ 64) prime else a * 2 % 2 ^ 64

-- The loop of `mul_mod_p`, at most `fuel` times.
unfoldable pub mul_loop : ℕ → ℕ → ℕ → ℕ → ℕ
mul_loop zero a b m = m
mul_loop (suc fuel) a b m =
    let rest = mul_loop fuel (double_step a) (b / 2) (if b % 2 == 1 then add_step m a else m) in
    if b == 0 then m else rest

-- A word has 64 bits, so 64 rounds end the loop.
unfoldable pub mul_mod_p : ℕ → ℕ → ℕ
mul_mod_p a b = mul_loop 64 a b 0

-- `pow_mod_p`, at most `fuel` deep; `none` is a recursion that goes on, as it does for ever at 0.
unfoldable pub pow_mod_p : ℕ → ℕ → ℕ → Option ℕ
pow_mod_p zero a b = none
pow_mod_p (suc fuel) a b =
    let rest =
      Option.map (λ (t : ℕ). if b % 2 == 0 then mul_mod_p t t else mul_mod_p (mul_mod_p t t) a)
        (pow_mod_p fuel a (b / 2)) in
    if b == 1 then some a else rest

unfoldable pub powmodp : ℕ → ℕ → Option ℕ
powmodp a b = pow_mod_p 64 (if ltb prime a then a % prime else a) b

-- `ldhsecret` and `ldhexchange` on the numbers that `read64` takes from their strings and that
-- `push64` writes; `none` is the error for 0.
unfoldable pub dhsecret : ℕ → ℕ → Option ℕ
dhsecret x y = if (x == 0) || (y == 0) then none else powmodp x y

unfoldable pub dhexchange : ℕ → Option ℕ
dhexchange x = if x == 0 then none else powmodp generator x
