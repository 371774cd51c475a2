-- ===== src/Crypt/Hex.antt =====
-- skynet/lualib-src/lua-crypt.c: `ltohex` and `lfromhex`, on the bytes of a string.
use mathlib.Core.Option
use skynet_athena.Base.Bits.{bit_and_low, bit_or_shifted}
use skynet_athena.Base.{
  ==_iff, List, Option, [], arith, bit_and, bit_or, false, get_or, if◌then◌else◌, leb, length, ltb,
  none, passes, passes-at, refl, some, true, ℕ, ◌%◌, ◌&&◌, ◌*◌, ◌+◌, ◌-◌, ◌/◌, ◌<◌, ◌==◌, ◌^◌, ◌||◌,
  ◌∷◌, ◌≡◌,
}

-- The text "0123456789abcdef".
abbrev hex_digits : List ℕ
hex_digits = 48 ∷ 49 ∷ 50 ∷ 51 ∷ 52 ∷ 53 ∷ 54 ∷ 55 ∷ 56 ∷ 57 ∷ 97 ∷ 98 ∷ 99 ∷ 100 ∷ 101 ∷ 102 ∷ []

abbrev pub hex : ℕ → ℕ
hex v = get_or hex_digits v 0

unfoldable pub to_hex : List ℕ → List ℕ
to_hex [] = []
to_hex (b ∷ bs) = hex (b / 2 ^ 4) ∷ hex (bit_and b 0xf) ∷ to_hex bs

-- `HEX`, whose result is kept in a `uint8_t`.
unfoldable pub digit_value : ℕ → ℕ
digit_value c = if leb 48 c && leb c 57 then c - 48 else (c + 2 ^ 8 - 97 + 10) % 2 ^ 8

-- The loop of `lfromhex`; `none` is the error.
unfoldable pub from_digits : List ℕ → Option (List ℕ)
from_digits [] = some []
from_digits (c ∷ []) = none
from_digits (c ∷ d ∷ cs) =
    let hi = digit_value c in
    let low = digit_value d in
    let rest = Option.map (◌∷◌ (bit_or (hi * 2 ^ 4) low % 2 ^ 8)) (from_digits cs) in
    if ltb 16 hi || ltb 16 low then none else rest

unfoldable pub from_hex : List ℕ → Option (List ℕ)
from_hex cs = if length cs % 2 == 1 then none else from_digits cs

abbrev pub AllBytes : List ℕ → Type 0
AllBytes [] = Unit {0}
AllBytes (b ∷ bs) = (b < 2 ^ 8) × AllBytes bs

-- Every digit, checked by evaluation.
digit_table : passes (λ v. digit_value (hex v) == v) 16 ≡ true
unfolding digit_value passes
digit_table = refl

digit_value-hex : (v : ℕ) → v < 16 → digit_value (hex v) ≡ v
digit_value-hex v h = (==_iff (digit_value (hex v)) v).0 (passes-at _ v 16 h digit_table)

even_digits : (bs : List ℕ) → length (to_hex bs) % 2 ≡ 0
unfolding to_hex
even_digits [] = refl
even_digits (b ∷ bs) = omega (arith, even_digits bs)

from_digits-to_hex : (bs : List ℕ) → AllBytes bs → from_digits (to_hex bs) ≡ some bs
unfolding to_hex from_digits
from_digits-to_hex [] h = refl
from_digits-to_hex (b ∷ bs) (lt, h) =
    let high : digit_value (hex (b / 2 ^ 4)) ≡ b / 2 ^ 4 =
      digit_value-hex (b / 2 ^ 4) (omega arith) in
    let low : digit_value (hex (bit_and b 0xf)) ≡ b % 2 ^ 4 =
      rw (bit_and_low 4 b) (digit_value-hex (b % 2 ^ 4) (omega arith)) in
    let fits : ltb 16 (b / 2 ^ 4) ≡ false = ground arith in
    let fits' : ltb 16 (b % 2 ^ 4) ≡ false = ground arith in
    let byte : bit_or (b / 2 ^ 4 * 2 ^ 4) (b % 2 ^ 4) % 2 ^ 8 ≡ b =
      rw (bit_or_shifted 4 (b / 2 ^ 4) (b % 2 ^ 4) (omega arith)) (omega arith) in
    rw (high, low, fits, fits', byte, from_digits-to_hex bs h) refl

-- `lfromhex` gives back the bytes that `ltohex` wrote.
from_hex-to_hex : (bs : List ℕ) → AllBytes bs → from_hex (to_hex bs) ≡ some bs
unfolding from_hex
from_hex-to_hex bs h =
    let t : (length (to_hex bs) % 2 == 1) ≡ false = ground (arith, even_digits bs) in
    rw t (from_digits-to_hex bs h)
