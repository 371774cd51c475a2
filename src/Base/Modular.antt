-- ===== src/Base/Modular.antt =====
-- Products and powers modulo a number.
use Prim.Native.Nat.{ℕ, zero, suc, ◌+◌, ◌*◌, ◌/◌, ◌%◌, ◌^◌}
use mathlib.Core.Path.{◌≡◌, refl, sym, ap, ap₂, ◌∙◌}
use native.Mathlib.Omega.{arith}
use native.Mathlib.Nat.{
  add-mul-mod_self_right, div-add-mod', mod-add-mod, add-mod-mod, pow-suc, pow-zero, zero-add,
}

pub mod-mul-mod : (a b n : ℕ) → (a % n * b) % n ≡ (a * b) % n
mod-mul-mod a b n =
    let e : a * b ≡ a % n * b + (a / n * b) * n =
      grind (arith, ap (λ (t : ℕ). t * b) (div-add-mod' a n)) in
    sym (ap (λ (t : ℕ). t % n) e ∙ add-mul-mod_self_right (a % n * b) (a / n * b) n)

pub mul-mod-mod : (a b n : ℕ) → (a * (b % n)) % n ≡ (a * b) % n
mul-mod-mod a b n =
    let c : a * (b % n) ≡ b % n * a = grind arith in
    let d : b * a ≡ a * b = grind arith in
    ap (λ (t : ℕ). t % n) c ∙ mod-mul-mod b a n ∙ ap (λ (t : ℕ). t % n) d

-- What an addition of products is modulo `n` depends on the residues only.
pub add-mul-mod : (x y c n : ℕ) → (x % n + y % n * c) % n ≡ (x + y * c) % n
add-mul-mod x y c n =
    mod-add-mod x n (y % n * c)
    ∙ sym (add-mod-mod x (y % n * c) n)
    ∙ ap (λ (t : ℕ). (x + t) % n) (mod-mul-mod y c n)
    ∙ add-mod-mod x (y * c) n

pub pow-mod : (a k n : ℕ) → ((a % n) ^ k) % n ≡ (a ^ k) % n
pow-mod a zero n = ap (λ (t : ℕ). t % n) (pow-zero (a % n) ∙ sym (pow-zero a))
pow-mod a (suc k) n =
    ap (λ (t : ℕ). t % n) (pow-suc (a % n) k)
    ∙ mul-mod-mod ((a % n) ^ k) a n
    ∙ sym (mod-mul-mod ((a % n) ^ k) a n)
    ∙ ap (λ (t : ℕ). (t * a) % n) (pow-mod a k n)
    ∙ mod-mul-mod (a ^ k) a n
    ∙ ap (λ (t : ℕ). t % n) (sym (pow-suc a k))

swap_right : (x y z : ℕ) → x * y * z ≡ x * z * y
swap_right x y z = grind arith

regroup : (x y z w : ℕ) → x * y * (z * w) ≡ x * z * (y * w)
regroup x y z w = grind arith

pub pow-add : (a m n : ℕ) → a ^ (n + m) ≡ a ^ n * a ^ m
pow-add a m zero = rw (pow-zero a, zero-add m) (grind arith)
pow-add a m (suc n) =
    let e : suc n + m ≡ suc (n + m) = omega arith in
    ap (λ (t : ℕ). a ^ t) e
    ∙ pow-suc a (n + m)
    ∙ ap (λ (t : ℕ). t * a) (pow-add a m n)
    ∙ swap_right (a ^ n) (a ^ m) a
    ∙ ap (λ (t : ℕ). t * a ^ m) (sym (pow-suc a n))

pub pow-mul : (a m n : ℕ) → (a ^ m) ^ n ≡ a ^ (m * n)
pow-mul a m zero = pow-zero (a ^ m) ∙ sym (pow-zero a) ∙ ap (λ (t : ℕ). a ^ t) (omega arith)
pow-mul a m (suc n) =
    let e : m * n + m ≡ m * suc n = grind arith in
    pow-suc (a ^ m) n
    ∙ ap (λ (t : ℕ). t * a ^ m) (pow-mul a m n)
    ∙ sym (pow-add a m (m * n))
    ∙ ap (λ (t : ℕ). a ^ t) e

pub mul-pow : (a b n : ℕ) → (a * b) ^ n ≡ a ^ n * b ^ n
mul-pow a b zero = rw (pow-zero (a * b), pow-zero a, pow-zero b) refl
mul-pow a b (suc n) =
    pow-suc (a * b) n
    ∙ ap (λ (t : ℕ). t * (a * b)) (mul-pow a b n)
    ∙ regroup (a ^ n) (b ^ n) a b
    ∙ ap₂ (λ (s t : ℕ). s * t) (sym (pow-suc a n)) (sym (pow-suc b n))
