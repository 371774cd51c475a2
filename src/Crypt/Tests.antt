-- ===== src/Crypt/Tests.antt =====
-- Runs of the encodings, and the theorems at concrete values.
use skynet_athena.Crypt.Dh.{
  add_step, dhexchange, dhsecret, double_step, mul_loop, mul_mod_p, pow_mod_p, prime,
}
use skynet_athena.Crypt.Dh.Power.{dh_agreement, mul_mod_p_lem, pow_mod_p_lem}
use skynet_athena.Crypt.Hex.{digit_value, from_digits, from_hex}
use skynet_athena.Crypt.Base64.{b64decode, b64encode, encode_loop, four, word24}
use skynet_athena.Crypt.Base64.RoundTrip.{b64decode-b64encode}
use skynet_athena.Base.{List, [], arith, refl, some, ℕ, ◌%◌, ◌*◌, ◌^◌, ◌∷◌, ◌≡◌}

mul_mod_p_run : mul_mod_p (2 ^ 63) 6 ≡ 2 ^ 63 * 6 % prime
unfolding mul_mod_p mul_loop double_step add_step
mul_mod_p_run = refl

mul_mod_p_lem_example : mul_mod_p (2 ^ 63) 6 ≡ (2 ^ 63 * 6) % prime
mul_mod_p_lem_example = mul_mod_p_lem (2 ^ 63) 6 (omega arith) (omega arith)

pow_mod_p_lem_example : pow_mod_p 64 7 100 ≡ some ((7 ^ 100) % prime)
pow_mod_p_lem_example = pow_mod_p_lem 64 7 100 (omega arith) (omega arith) (omega arith)

dh_agreement_example :
    (a : ℕ) × (b : ℕ) × (s : ℕ) × (dhexchange 12345678901 ≡ some a)
    × (dhexchange 98765432109 ≡ some b)
    × (dhsecret a 98765432109 ≡ some s)
    × (dhsecret b 12345678901 ≡ some s)
dh_agreement_example =
    dh_agreement 12345678901 98765432109 (omega arith) (omega arith) (omega arith) (omega arith)

abbrev bytes : List ℕ
bytes = 0 ∷ 255 ∷ 16 ∷ 77 ∷ []

encode_run : b64encode bytes ≡ some (65 ∷ 80 ∷ 56 ∷ 81 ∷ 84 ∷ 81 ∷ 61 ∷ 61 ∷ [])
unfolding b64encode encode_loop four word24
encode_run = refl

-- The letter g counts as 16, and the high digit 16 leaves the byte.
from_hex_g : from_hex (103 ∷ 48 ∷ []) ≡ some (0 ∷ [])
unfolding from_hex from_digits digit_value
from_hex_g = refl

b64decode-b64encode_example :
    (text : List ℕ) × (b64encode bytes ≡ some text) × (b64decode text ≡ some bytes)
b64decode-b64encode_example = b64decode-b64encode bytes (omega arith) (omega arith)
