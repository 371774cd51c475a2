-- ===== src/Server/Text.antt =====
-- skynet/skynet-src/skynet_server.c: handles as text.
use skynet_athena.Base.Bits.{bit_and_low}
use skynet_athena.Base.{
  ==_iff, Bool, List, [], ap, arith, bit_and, dec_le, get_or, if◌then◌else◌, inl, inr, leb, length,
  ltb, passes, passes-at, refl, suc, true, zero, ℕ, ◌%◌, ◌&&◌, ◌*◌, ◌+◌, ◌-◌, ◌/◌, ◌<◌, ◌==◌, ◌^◌,
  ◌||◌, ◌∙◌, ◌∷◌, ◌≡◌, ◌≤◌, ◌⊎◌,
}

-- The table "0123456789ABCDEF".
abbrev hex : ℕ → ℕ
hex v =
    get_or (48 ∷ 49 ∷ 50 ∷ 51 ∷ 52 ∷ 53 ∷ 54 ∷ 55 ∷ 56 ∷ 57 ∷ 65 ∷ 66 ∷ 67 ∷ 68 ∷ 69 ∷ 70 ∷ []) v 0

-- The loop of `id_to_hex`, for the last `k` digits.
unfoldable pub hex_from : ℕ → ℕ → List ℕ
hex_from zero id = []
hex_from (suc k) id = hex (bit_and (id / 2 ^ (k * 4)) 0xf) ∷ hex_from k id

-- `id_to_hex`, without the 0 byte at the end.
unfoldable pub id_to_hex : ℕ → List ℕ
id_to_hex id = 58 ∷ hex_from 8 id

-- `skynet_queryname`, with `strtoul` for the base 16 and the table of names; 0 where the name has
-- neither prefix.
unfoldable pub queryname : (List ℕ → ℕ) → (List ℕ → ℕ) → List ℕ → ℕ
queryname strtoul findname [] = 0
queryname strtoul findname (c ∷ text) =
    if c == 58 then strtoul text % 2 ^ 32 else if c == 46 then findname text else 0

-- The value of a hexadecimal digit, in either case.
abbrev pub hex_value : ℕ → ℕ
hex_value c = if ltb c 65 then c - 48 else if ltb c 97 then c - 55 else c - 87

abbrev pub IsHex : ℕ → Type 0
IsHex c = ((48 ≤ c) × (c ≤ 57)) ⊎ (((65 ≤ c) × (c ≤ 70)) ⊎ ((97 ≤ c) × (c ≤ 102)))

abbrev pub AllHex : List ℕ → Type 0
AllHex [] = Unit {0}
AllHex (c ∷ cs) = IsHex c × AllHex cs

unfoldable pub positional : ℕ → List ℕ → ℕ
positional acc [] = acc
positional acc (c ∷ cs) = positional (acc * 16 + hex_value c) cs

-- What `strtoul` does in the base 16 on at most sixteen digits with nothing else around them.
abbrev pub ReadsHex : (List ℕ → ℕ) → Type 0
ReadsHex strtoul =
    (cs : List ℕ) → AllHex cs → 0 < length cs → length cs ≤ 16 → strtoul cs ≡ positional 0 cs

is_hex : ℕ → Bool
is_hex c = (leb 48 c && leb c 57) || (leb 65 c && leb c 70)

digit_table : passes (λ v. (hex_value (hex v) == v) && is_hex (hex v)) 16 ≡ true
unfolding passes is_hex
digit_table = refl

is_hex-IsHex : (c : ℕ) → is_hex c ≡ true → IsHex c
unfolding is_hex
is_hex-IsHex c h = elim (dec_le c 57) [
  | yes low ↦ inl (ground arith)
  | no high ↦ inr (inl (ground arith))
]

hex_lem : (v : ℕ) → v < 16 → (hex_value (hex v) ≡ v) × IsHex (hex v)
hex_lem v h =
    let both = passes-at _ v 16 h digit_table in
    let a : (hex_value (hex v) == v) ≡ true = ground (arith, both) in
    let b : is_hex (hex v) ≡ true = ground (arith, both) in
    ((==_iff (hex_value (hex v)) v).0 a, is_hex-IsHex (hex v) b)

nibble : ℕ → ℕ → ℕ
nibble k id = bit_and (id / 2 ^ (k * 4)) 0xf

nibble_lem : (k id : ℕ) → nibble k id ≡ id / 2 ^ (k * 4) % 16
unfolding nibble
nibble_lem k id = bit_and_low 4 (id / 2 ^ (k * 4))

nibble-lt : (k id : ℕ) → nibble k id < 16
nibble-lt k id = omega (arith, nibble_lem k id)

hex_from-AllHex : (k id : ℕ) → AllHex (hex_from k id)
unfolding hex_from nibble
hex_from-AllHex zero id = tt
hex_from-AllHex (suc k) id = ((hex_lem (nibble k id) (nibble-lt k id)).1, hex_from-AllHex k id)

length-hex_from : (k id : ℕ) → length (hex_from k id) ≡ k
unfolding hex_from
length-hex_from zero id = refl
length-hex_from (suc k) id = ap suc (length-hex_from k id)

next_digit :
    (k id acc : ℕ)
    → positional acc (hex_from (suc k) id)
      ≡ positional (acc * 16 + id / 2 ^ (k * 4) % 16) (hex_from k id)
unfolding hex_from positional nibble
next_digit k id acc =
    let v : hex_value (hex (nibble k id)) ≡ nibble k id =
      (hex_lem (nibble k id) (nibble-lt k id)).0 in
    ap (λ (t : ℕ). positional (acc * 16 + t) (hex_from k id)) (v ∙ nibble_lem k id)

positional-hex_from : (id : ℕ) → id < 2 ^ 32 → positional 0 (hex_from 8 id) ≡ id
positional-hex_from id h =
    onward 7 0 (id / 2 ^ 28) (omega arith)
    ∙ onward 6 (id / 2 ^ 28) (id / 2 ^ 24) (omega arith)
    ∙ onward 5 (id / 2 ^ 24) (id / 2 ^ 20) (omega arith)
    ∙ onward 4 (id / 2 ^ 20) (id / 2 ^ 16) (omega arith)
    ∙ onward 3 (id / 2 ^ 16) (id / 2 ^ 12) (omega arith)
    ∙ onward 2 (id / 2 ^ 12) (id / 2 ^ 8) (omega arith)
    ∙ onward 1 (id / 2 ^ 8) (id / 2 ^ 4) (omega arith)
    ∙ onward 0 (id / 2 ^ 4) id (omega arith)
    ∙ (unfold hex_from positional in refl)
  where
    onward :
        (k high higher : ℕ)
        → high * 16 + id / 2 ^ (k * 4) % 16 ≡ higher
        → positional high (hex_from (suc k) id) ≡ positional higher (hex_from k id)
    onward k high higher e = next_digit k id high ∙ ap (λ (t : ℕ). positional t (hex_from k id)) e

-- `skynet_queryname` reads back the handle that `id_to_hex` wrote, whatever names there are.
pub queryname-id_to_hex :
    (strtoul findname : List ℕ → ℕ) (id : ℕ)
    → ReadsHex strtoul
    → id < 2 ^ 32
    → queryname strtoul findname (id_to_hex id) ≡ id
unfolding queryname id_to_hex
queryname-id_to_hex strtoul findname id reads h =
    let e : strtoul (hex_from 8 id) ≡ id =
      reads (hex_from 8 id) (hex_from-AllHex 8 id) (omega (arith, length-hex_from 8 id))
        (omega (arith, length-hex_from 8 id))
      ∙ positional-hex_from id h in
    rw e (omega arith)
