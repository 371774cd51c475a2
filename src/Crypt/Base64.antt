-- ===== src/Crypt/Base64.antt =====
-- skynet/lualib-src/lua-crypt.c: `lb64encode` and `lb64decode`, on the bytes of a string.
pub mod RoundTrip
use Prim.Native.Char.{code}
use Prim.Native.String.{String}
use mathlib.Core.Option
use skynet_athena.Base.{
  List, Option, [], bit_and, bit_or, get_or, if◌then◌else◌, leb, length, ltb, none, replicate, some,
  suc, zero, ℕ, ◌%◌, ◌*◌, ◌++◌, ◌+◌, ◌-◌, ◌/◌, ◌==◌, ◌^◌, ◌∷◌,
}

-- The bytes of an ASCII text.
abbrev codes : String → List ℕ
codes String.[] = []
codes (String.◌∷◌ c s) = code c ∷ codes s

abbrev pub encoding : ℕ → ℕ
encoding i = get_or (codes "ABCDEFGHIJKLMNOPQRSTUVWXYZabcdefghijklmnopqrstuvwxyz0123456789+/") i 0

-- The character `=`.
abbrev pub equals_sign : ℕ
equals_sign = 61

-- `a << 16 | b << 8 | c`.
unfoldable pub word24 : ℕ → ℕ → ℕ → ℕ
word24 a b c = bit_or (bit_or (a * 2 ^ 16) (b * 2 ^ 8)) c

-- The characters for the 24 bits of `v`.
unfoldable pub four : ℕ → List ℕ
four v =
    encoding (v / 2 ^ 18)
    ∷ encoding (bit_and (v / 2 ^ 12) 0x3f)
    ∷ encoding (bit_and (v / 2 ^ 6) 0x3f)
    ∷ encoding (bit_and v 0x3f)
    ∷ []

-- The loop of `lb64encode`, three bytes a round, then the padding.
unfoldable pub encode_loop : List ℕ → List ℕ
encode_loop [] = []
encode_loop (a ∷ []) =
    encoding (a / 2 ^ 2) ∷ encoding (bit_and a 3 * 2 ^ 4) ∷ equals_sign ∷ equals_sign ∷ []
encode_loop (a ∷ b ∷ []) =
    let v = bit_or (a * 2 ^ 8) b in
    encoding (v / 2 ^ 10)
    ∷ encoding (bit_and (v / 2 ^ 4) 0x3f)
    ∷ encoding (bit_and v 0xf * 2 ^ 2)
    ∷ equals_sign
    ∷ []
encode_loop (a ∷ b ∷ c ∷ bs) = four (word24 a b c) ++ encode_loop bs

-- `lb64encode`; `none` is an `encode_sz` that an `int` cannot hold.
unfoldable pub b64encode : List ℕ → Option (List ℕ)
b64encode text = if leb (2 ^ 31) ((length text + 2) / 3 * 4) then none else some (encode_loop text)

-- What `b64index` answers: -1, -2, or the value of a character.
pub data Index : Type 0 where
  skip : Index
  pad : Index
  value : ℕ → Index

-- The entries `i`, `i + 1`, ..., `n` of them.
abbrev values : ℕ → ℕ → List Index
values i zero = []
values i (suc n) = value i ∷ values (i + 1) n

-- `decoding`, from the character 43 on.
abbrev decoding : List Index
decoding =
    value 62
    ∷ skip
    ∷ skip
    ∷ skip
    ∷ value 63
    ∷ (values 52 10
        ++ (skip ∷ skip ∷ skip ∷ pad ∷ skip ∷ skip ∷ skip ∷ [])
        ++ values 0 26
        ++ replicate 6 skip
        ++ values 26 26)

unfoldable pub b64index : ℕ → Index
b64index c = if ltb c 43 then skip else get_or decoding (c - 43) skip

-- The inner loop of `lb64decode`: the next `n` characters that are not skipped, and the text behind
-- them; `none` where the text ends before.
unfoldable pub next_indices : ℕ → List ℕ → Option (List Index × List ℕ)
next_indices zero cs = some ([], cs)
next_indices (suc n) [] = none
next_indices (suc n) (c ∷ cs) =
    let on : Index → Option (List Index × List ℕ) =
      λ i. Option.map (λ (r : List Index × List ℕ). (i ∷ r.0, r.1)) (next_indices n cs) in
    elim (b64index c) [ skip ↦ next_indices (suc n) cs | pad ↦ on pad | value v ↦ on (value v) ]

-- The bytes of four characters, by where the padding is; `none` is the error.
unfoldable pub three : List Index → Option (List ℕ)
three (value a ∷ value b ∷ value c ∷ value d ∷ []) =
    let v = bit_or (bit_or (bit_or (a * 2 ^ 18) (b * 2 ^ 12)) (c * 2 ^ 6)) d in
    some ((v / 2 ^ 16) % 2 ^ 8 ∷ bit_and (v / 2 ^ 8) 0xff ∷ bit_and v 0xff ∷ [])
three (value a ∷ value b ∷ value c ∷ pad ∷ []) =
    let v = bit_or (bit_or (a * 2 ^ 10) (b * 2 ^ 4)) (c / 2 ^ 2) in
    if bit_and c 3 == 0 then some ((v / 2 ^ 8) % 2 ^ 8 ∷ bit_and v 0xff ∷ []) else none
three (value a ∷ value b ∷ pad ∷ pad ∷ []) =
    let v = bit_or (a * 2 ^ 2) (b / 2 ^ 4) in
    if bit_and b 0xf == 0 then some (v % 2 ^ 8 ∷ []) else none
three is = none

-- `lb64decode`, at most `rounds` times round the outer loop.
unfoldable pub decode_loop : ℕ → List ℕ → Option (List ℕ)
decode_loop rounds [] = some []
decode_loop zero (c ∷ cs) = none
decode_loop (suc rounds) (c ∷ cs) = elim (next_indices 4 (c ∷ cs)) [
  | none ↦ none
  | some (is, rest) ↦ elim (three is) [
    | none ↦ none
    | some bytes ↦ Option.map (λ (out : List ℕ). bytes ++ out) (decode_loop rounds rest)
  ]
]

-- A round takes four characters at least.
unfoldable pub b64decode : List ℕ → Option (List ℕ)
b64decode cs = decode_loop (length cs) cs
