-- ===== src/Crypt/Dh/Power.antt =====
-- skynet/lualib-src/lua-crypt.c: what the loops over 64-bit words compute modulo the prime.
use skynet_athena.Base.Modular.{
  add-mul-mod, mod-mul-mod, mul-mod-mod, mul-pow, pow-add, pow-mod, pow-mul,
}
use skynet_athena.Crypt.Dh.{
  add_step, dhexchange, dhsecret, double_step, generator, mul_loop, mul_mod_p, pow_mod_p, powmodp,
  prime,
}
use skynet_athena.Base.{
  ap, ap₂, arith, false, if◌then◌else◌, ltb, refl, some, suc, sym, true, zero, ℕ, ℕ_discrete, ◌%◌,
  ◌*◌, ◌+◌, ◌/◌, ◌<◌, ◌==◌, ◌^◌, ◌∙◌, ◌≡◌, ◌≢◌,
}
use native.Mathlib.Nat.{div-add-mod', mod-eq_of_lt, pow-suc, pow-zero, zero-mul}

add_step_lem : (m a : ℕ) → m < prime → a < prime → add_step m a ≡ (m + a) % prime
unfolding add_step
add_step_lem m a hm ha = ground arith

double_step_lem : (a : ℕ) → a < prime → double_step a ≡ (a * 2) % prime
unfolding double_step
double_step_lem a ha = ground arith

-- One round: the low digit of `b` is added, and the rest counts twice.
digit : (m a b : ℕ) → m + (b % 2) * a + (a * 2) * (b / 2) ≡ m + a * b
digit m a b =
    let e : a * b ≡ (b % 2) * a + (a * 2) * (b / 2) =
      grind (arith, ap (λ (t : ℕ). a * t) (div-add-mod' b 2)) in
    omega (arith, e)

odd_step : ℕ → ℕ → ℕ → ℕ
odd_step b m a = if b % 2 == 1 then add_step m a else m

odd_step_lem : (b m a : ℕ) → m < prime → a < prime → odd_step b m a ≡ (m + (b % 2) * a) % prime
unfolding odd_step
odd_step_lem b m a hm ha = elim (ℕ_discrete (b % 2) 1) [
  | yes e ↦
      let t : (b % 2 == 1) ≡ true = ground arith in
      let one : (b % 2) * a ≡ a = rw e (omega arith) in
      rw t (add_step_lem m a hm ha ∙ ap (λ (t : ℕ). (m + t) % prime) (sym one))
  | no ne ↦
      let t : (b % 2 == 1) ≡ false = ground arith in
      let e : b % 2 ≡ 0 = omega arith in
      let nothing : (b % 2) * a ≡ 0 = rw e (omega arith) in rw t (omega (arith, nothing))
]

mul_loop_lem :
    (k a b m : ℕ) → a < prime → m < prime → b < 2 ^ k → mul_loop k a b m ≡ (m + a * b) % prime
unfolding mul_loop odd_step
mul_loop_lem zero a b m ha hm hb = let e : b ≡ 0 = omega arith in rw e (omega arith)
mul_loop_lem (suc k) a b m ha hm hb = elim (ℕ_discrete b 0) [
  | yes e ↦ rw e (omega arith)
  | no ne ↦
      let t : (b == 0) ≡ false = ground arith in
      let half : b / 2 < 2 ^ k = omega (arith, pow-suc 2 k) in
      let below : double_step a < prime = rw (double_step_lem a ha) (omega arith) in
      let below' : odd_step b m a < prime = rw (odd_step_lem b m a hm ha) (omega arith) in
      rw t (
        mul_loop_lem k (double_step a) (b / 2) (odd_step b m a) below below' half
        ∙ ap₂ (λ (s u : ℕ). (s + u * (b / 2)) % prime) (odd_step_lem b m a hm ha)
            (double_step_lem a ha)
        ∙ add-mul-mod (m + (b % 2) * a) (a * 2) (b / 2) prime
        ∙ ap (λ (t : ℕ). t % prime) (digit m a b))
]

-- For operands of 64 bits, the first below the prime, `mul_mod_p` is the product modulo the prime,
-- although its sums and doublings may wrap at 64 bits.
pub mul_mod_p_lem : (a b : ℕ) → a < prime → b < 2 ^ 64 → mul_mod_p a b ≡ (a * b) % prime
unfolding mul_mod_p
mul_mod_p_lem a b ha hb =
    mul_loop_lem 64 a b 0 ha (omega arith) hb ∙ ap (λ (t : ℕ). t % prime) (omega arith)

square : (a b : ℕ) → a ^ (b / 2) * a ^ (b / 2) ≡ a ^ (b / 2 + b / 2)
square a b = sym (pow-add a (b / 2) (b / 2))

squared : (a t b : ℕ) → t ≡ (a ^ b) % prime → mul_mod_p t t ≡ (a ^ (b + b)) % prime
squared a t b e =
    let lt : t < prime = rw e (omega arith) in
    mul_mod_p_lem t t lt (omega arith)
    ∙ ap₂ (λ (x y : ℕ). (x * y) % prime) e e
    ∙ mod-mul-mod (a ^ b) ((a ^ b) % prime) prime
    ∙ mul-mod-mod (a ^ b) (a ^ b) prime
    ∙ ap (λ (t : ℕ). t % prime) (sym (pow-add a b b))

-- For a base below the prime and a positive exponent of at most `k` bits, `pow_mod_p` ends within `k`
-- calls, with the power modulo the prime.
pub pow_mod_p_lem :
    (k a b : ℕ) → a < prime → 0 < b → b < 2 ^ k → pow_mod_p k a b ≡ some ((a ^ b) % prime)
unfolding pow_mod_p
pow_mod_p_lem zero a b ha pos hb = absurd (omega arith)
pow_mod_p_lem (suc k) a b ha pos hb = elim (ℕ_discrete b 1) [
  | yes e ↦
      let one : a ^ 1 ≡ a = pow-suc a 0 ∙ ap (λ (t : ℕ). t * a) (pow-zero a) ∙ omega arith in
      rw e (ap some (sym (mod-eq_of_lt ha) ∙ ap (λ (t : ℕ). t % prime) (sym one)))
  | no ne ↦
      let t : (b == 1) ≡ false = ground arith in
      let half : b / 2 < 2 ^ k = omega (arith, pow-suc 2 k) in
      let root = (a ^ (b / 2)) % prime in
      let sq : mul_mod_p root root ≡ (a ^ (b / 2 + b / 2)) % prime = squared a root (b / 2) refl in
      rw (t, pow_mod_p_lem k a (b / 2) ha (omega arith) half)
        (elim (ℕ_discrete (b % 2) 0) [
          | yes e ↦
              let u : (b % 2 == 0) ≡ true = ground arith in
              let whole : b / 2 + b / 2 ≡ b = omega arith in
              rw u (ap some (sq ∙ ap (λ (t : ℕ). (a ^ t) % prime) whole))
          | no odd ↦
              let u : (b % 2 == 0) ≡ false = ground arith in
              let whole : suc (b / 2 + b / 2) ≡ b = omega arith in
              let lt : mul_mod_p root root < prime = rw sq (omega arith) in
              rw u (
                ap some (
                  mul_mod_p_lem (mul_mod_p root root) a lt (omega arith)
                  ∙ ap (λ (t : ℕ). (t * a) % prime) sq
                  ∙ mod-mul-mod (a ^ (b / 2 + b / 2)) a prime
                  ∙ ap (λ (t : ℕ). t % prime) (sym (pow-suc a (b / 2 + b / 2)))
                  ∙ ap (λ (t : ℕ). (a ^ t) % prime) whole))
        ])
]

-- The inverse of the generator shows that no power of it is 0.
abbrev inverse : ℕ
inverse = 7378697629483820623

one_pow : (x : ℕ) → 1 ^ x ≡ 1
one_pow zero = pow-zero 1
one_pow (suc x) = pow-suc 1 x ∙ ap (λ (t : ℕ). t * 1) (one_pow x)

power_pos : (x : ℕ) → (generator ^ x) % prime ≢ 0
power_pos x e =
    let one : ((generator * inverse) ^ x) % prime ≡ 1 =
      sym (pow-mod (generator * inverse) x prime) ∙ ap (λ (t : ℕ). t % prime) (one_pow x) in
    let nothing : ((generator * inverse) ^ x) % prime ≡ 0 =
      ap (λ (t : ℕ). t % prime) (mul-pow generator inverse x)
      ∙ sym (mod-mul-mod (generator ^ x) (inverse ^ x) prime)
      ∙ ap (λ (t : ℕ). (t * inverse ^ x) % prime) e
      ∙ ap (λ (t : ℕ). t % prime) (zero-mul (inverse ^ x)) in
    omega (arith, sym one ∙ nothing)

both_ways : (x y : ℕ) → (((generator ^ x) % prime) ^ y) % prime ≡ (generator ^ (x * y)) % prime
both_ways x y = pow-mod (generator ^ x) y prime ∙ ap (λ (t : ℕ). t % prime) (pow-mul generator x y)

-- `ldhexchange` of a key of 64 bits other than 0 gives the power of the generator, a number below the
-- prime that is not 0.
pub dhexchange_lem :
    (x : ℕ)
    → 0 < x
    → x < 2 ^ 64
    → (dhexchange x ≡ some ((generator ^ x) % prime))
      × (0 < (generator ^ x) % prime)
      × ((generator ^ x) % prime < prime)
unfolding dhexchange powmodp
dhexchange_lem x pos lt =
    let t : (x == 0) ≡ false = ground arith in
    let nz : (generator ^ x) % prime ≢ 0 = power_pos x in
    (rw t (pow_mod_p_lem 64 generator x (omega arith) pos lt), omega (arith, nz), omega arith)

secret :
    (x y : ℕ)
    → 0 < y
    → y < 2 ^ 64
    → dhsecret ((generator ^ x) % prime) y ≡ some ((generator ^ (x * y)) % prime)
unfolding dhsecret powmodp
secret x y pos lt =
    let big = (generator ^ x) % prime in
    let nz : big ≢ 0 = power_pos x in
    let t : (big == 0) ≡ false = ground arith in
    let u : (y == 0) ≡ false = ground arith in
    let inside : ltb prime big ≡ false = ground arith in
    rw (t, u, inside) (pow_mod_p_lem 64 big y (omega arith) pos lt ∙ ap some (both_ways x y))

-- Two peers with keys of 64 bits other than 0 that swap what `ldhexchange` gives them compute the same
-- secret, and neither call fails.
pub dh_agreement :
    (x y : ℕ)
    → 0 < x
    → x < 2 ^ 64
    → 0 < y
    → y < 2 ^ 64
    → (a : ℕ) × (b : ℕ) × (s : ℕ) × (dhexchange x ≡ some a)
      × (dhexchange y ≡ some b)
      × (dhsecret a y ≡ some s)
      × (dhsecret b x ≡ some s)
dh_agreement x y px lx py ly =
    let swap : y * x ≡ x * y = grind arith in
    (
      (generator ^ x) % prime,
      (generator ^ y) % prime,
      (generator ^ (x * y)) % prime,
      (dhexchange_lem x px lx).0,
      (dhexchange_lem y py ly).0,
      secret x y py ly,
      secret y x px lx ∙ ap (λ (t : ℕ). some ((generator ^ t) % prime)) swap,
    )
