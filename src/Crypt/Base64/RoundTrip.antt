-- ===== src/Crypt/Base64/RoundTrip.antt =====
-- skynet/lualib-src/lua-crypt.c: reading back what `lencode_loop` wrote.
use skynet_athena.Crypt.Hex.{AllBytes}
use skynet_athena.Base.Bits.{bit_and_low, bit_or_shifted}
use mathlib.Core.Option
use skynet_athena.Crypt.Base64.{
  Index, b64decode, b64encode, b64index, decode_loop, encode_loop, encoding, equals_sign, four,
  next_indices, pad, skip, three, value, word24,
}
use skynet_athena.Base.{
  ==_iff, Bool, List, [], ap, arith, bit_and, bit_or, false, length, passes, passes-at, refl, some,
  suc, sym, true, zero, ℕ, ◌%◌, ◌*◌, ◌++◌, ◌+◌, ◌-◌, ◌/◌, ◌<◌, ◌==◌, ◌^◌, ◌∙◌, ◌∷◌, ◌≡◌, ◌≢◌, ◌≤◌,
}

abbrev is_value : ℕ → Index → Bool
is_value v (value w) = v == w
is_value v skip = false
is_value v pad = false

-- Every character of the table, by evaluation.
character_table : passes (λ v. is_value v (b64index (encoding v))) 64 ≡ true
unfolding b64index passes
character_table = refl

value_of : (v : ℕ) (i : Index) → is_value v i ≡ true → i ≡ value v
value_of v skip h = cc h
value_of v pad h = cc h
value_of v (value w) h = ap value (sym ((==_iff v w).0 h))

b64index-encoding : (v : ℕ) → v < 64 → b64index (encoding v) ≡ value v
b64index-encoding v h = value_of v (b64index (encoding v)) (passes-at _ v 64 h character_table)

b64index_pad : b64index equals_sign ≡ pad
unfolding b64index
b64index_pad = refl

-- A character that is not skipped is taken.
next_kept :
    (n c : ℕ) (cs : List ℕ) (i : Index)
    → b64index c ≡ i
    → i ≢ skip
    → next_indices (suc n) (c ∷ cs)
      ≡ Option.map (λ (r : List Index × List ℕ). (i ∷ r.0, r.1)) (next_indices n cs)
unfolding next_indices
next_kept n c cs skip e kept = absurd (kept refl)
next_kept n c cs pad e kept = rw (e, next_indices) refl
next_kept n c cs (value v) e kept = rw (e, next_indices) refl

module _ (w x y z : ℕ) (cs : List ℕ) (a b : ℕ) (k l : Index) (wa : b64index w ≡ value a)
    (xb : b64index x ≡ value b) (yk : b64index y ≡ k) (zl : b64index z ≡ l) (k_kept : k ≢ skip)
    (l_kept : l ≢ skip) where
  next_four : next_indices 4 (w ∷ x ∷ y ∷ z ∷ cs) ≡ some (value a ∷ value b ∷ k ∷ l ∷ [], cs)
  next_four =
      rw
        (
          next_kept 3 w (x ∷ y ∷ z ∷ cs) (value a) wa (λ e. cc e),
          next_kept 2 x (y ∷ z ∷ cs) (value b) xb (λ e. cc e),
          next_kept 1 y (z ∷ cs) k yk k_kept,
          next_kept 0 z cs l zl l_kept,
        )
        (unfold next_indices in refl)

  -- A round of the outer loop.
  round_four :
      (rounds : ℕ) (bytes out : List ℕ)
      → three (value a ∷ value b ∷ k ∷ l ∷ []) ≡ some bytes
      → decode_loop rounds cs ≡ some out
      → decode_loop (suc rounds) (w ∷ x ∷ y ∷ z ∷ cs) ≡ some (bytes ++ out)
  unfolding decode_loop
  round_four rounds bytes out e more =
      rw (next_four, decode_loop) (rw (e, decode_loop) (rw more refl))

word24_lem : (a b c : ℕ) → b < 2 ^ 8 → c < 2 ^ 8 → word24 a b c ≡ a * 2 ^ 16 + b * 2 ^ 8 + c
unfolding word24
word24_lem a b c hb hc =
    let high : bit_or (a * 2 ^ 16) (b * 2 ^ 8) ≡ (a * 2 ^ 8 + b) * 2 ^ 8 =
      bit_or_shifted 16 a (b * 2 ^ 8) (omega arith) ∙ omega arith in
    rw high (bit_or_shifted 8 (a * 2 ^ 8 + b) c (omega arith) ∙ omega arith)

sextets :
    (a b c d : ℕ)
    → b < 2 ^ 6
    → c < 2 ^ 6
    → d < 2 ^ 6
    → bit_or (bit_or (bit_or (a * 2 ^ 18) (b * 2 ^ 12)) (c * 2 ^ 6)) d
      ≡ a * 2 ^ 18 + b * 2 ^ 12 + c * 2 ^ 6 + d
sextets a b c d hb hc hd =
    let one : bit_or (a * 2 ^ 18) (b * 2 ^ 12) ≡ (a * 2 ^ 6 + b) * 2 ^ 12 =
      bit_or_shifted 18 a (b * 2 ^ 12) (omega arith) ∙ omega arith in
    let two : bit_or ((a * 2 ^ 6 + b) * 2 ^ 12) (c * 2 ^ 6)
        ≡ ((a * 2 ^ 6 + b) * 2 ^ 6 + c) * 2 ^ 6 =
      bit_or_shifted 12 (a * 2 ^ 6 + b) (c * 2 ^ 6) (omega arith) ∙ omega arith in
    rw (one, two) (bit_or_shifted 6 ((a * 2 ^ 6 + b) * 2 ^ 6 + c) d (omega arith) ∙ omega arith)

three_whole :
    (v : ℕ)
    → v < 2 ^ 24
    → three (
        value (v / 2 ^ 18)
        ∷ value (v / 2 ^ 12 % 2 ^ 6)
        ∷ value (v / 2 ^ 6 % 2 ^ 6)
        ∷ value (v % 2 ^ 6)
        ∷ [])
      ≡ some (v / 2 ^ 16 ∷ v / 2 ^ 8 % 2 ^ 8 ∷ v % 2 ^ 8 ∷ [])
unfolding three
three_whole v h =
    let whole : bit_or
          (bit_or (bit_or (v / 2 ^ 18 * 2 ^ 18) (v / 2 ^ 12 % 2 ^ 6 * 2 ^ 12))
            (v / 2 ^ 6 % 2 ^ 6 * 2 ^ 6))
          (v % 2 ^ 6)
        ≡ v =
      sextets (v / 2 ^ 18) (v / 2 ^ 12 % 2 ^ 6) (v / 2 ^ 6 % 2 ^ 6) (v % 2 ^ 6) (omega arith)
        (omega arith) (omega arith)
      ∙ omega arith in
    let top : v / 2 ^ 16 % 2 ^ 8 ≡ v / 2 ^ 16 = omega arith in
    rw (whole, bit_and_low 8 (v / 2 ^ 8), bit_and_low 8 v, top) refl

-- Two characters and a padding of two for one byte.
one_byte :
    (a rounds : ℕ) → a < 2 ^ 8 → decode_loop (suc rounds) (encode_loop (a ∷ [])) ≡ some (a ∷ [])
unfolding encode_loop
one_byte a rounds h =
    let low : bit_and a 3 ≡ a % 2 ^ 2 = bit_and_low 2 a in
    round_four (encoding (a / 2 ^ 2)) (encoding (bit_and a 3 * 2 ^ 4)) equals_sign equals_sign []
      (a / 2 ^ 2) (bit_and a 3 * 2 ^ 4) pad pad (b64index-encoding (a / 2 ^ 2) (omega arith))
      (b64index-encoding (bit_and a 3 * 2 ^ 4) (omega (arith, low))) b64index_pad b64index_pad
      (λ e. cc e) (λ e. cc e) rounds (a ∷ []) []
      (unfold three in
        let clean : bit_and (bit_and a 3 * 2 ^ 4) 0xf ≡ 0 =
          bit_and_low 4 (bit_and a 3 * 2 ^ 4) ∙ omega (arith, low) in
        let shifted : bit_and a 3 * 2 ^ 4 / 2 ^ 4 ≡ a % 2 ^ 2 = omega (arith, low) in
        let byte : bit_or (a / 2 ^ 2 * 2 ^ 2) (a % 2 ^ 2) % 2 ^ 8 ≡ a =
          rw (bit_or_shifted 2 (a / 2 ^ 2) (a % 2 ^ 2) (omega arith)) (omega arith) in
        rw (clean, shifted, byte) refl)
      (unfold decode_loop in refl)

two_bytes :
    (a b rounds : ℕ)
    → a < 2 ^ 8
    → b < 2 ^ 8
    → decode_loop (suc rounds) (encode_loop (a ∷ b ∷ [])) ≡ some (a ∷ b ∷ [])
unfolding encode_loop
two_bytes a b rounds ha hb =
    let v = bit_or (a * 2 ^ 8) b in
    let sum : bit_or (a * 2 ^ 8) b ≡ a * 2 ^ 8 + b = bit_or_shifted 8 a b hb in
    let mid : bit_and (v / 2 ^ 4) 0x3f ≡ v / 2 ^ 4 % 2 ^ 6 = bit_and_low 6 (v / 2 ^ 4) in
    let low : bit_and v 0xf ≡ v % 2 ^ 4 = bit_and_low 4 v in
    round_four (encoding (v / 2 ^ 10)) (encoding (bit_and (v / 2 ^ 4) 0x3f))
      (encoding (bit_and v 0xf * 2 ^ 2)) equals_sign [] (v / 2 ^ 10) (bit_and (v / 2 ^ 4) 0x3f)
      (value (bit_and v 0xf * 2 ^ 2)) pad (b64index-encoding (v / 2 ^ 10) (omega (arith, sum)))
      (b64index-encoding (bit_and (v / 2 ^ 4) 0x3f) (omega (arith, mid)))
      (b64index-encoding (bit_and v 0xf * 2 ^ 2) (omega (arith, low))) b64index_pad (λ e. cc e)
      (λ e. cc e) rounds (a ∷ b ∷ []) []
      (unfold three in
        let clean : bit_and (bit_and v 0xf * 2 ^ 2) 3 ≡ 0 =
          bit_and_low 2 (bit_and v 0xf * 2 ^ 2) ∙ omega (arith, low) in
        let shifted : bit_and v 0xf * 2 ^ 2 / 2 ^ 2 ≡ v % 2 ^ 4 = omega (arith, low) in
        let back : bit_or (bit_or (v / 2 ^ 10 * 2 ^ 10) (v / 2 ^ 4 % 2 ^ 6 * 2 ^ 4)) (v % 2 ^ 4)
            ≡ v =
          ap (λ t. bit_or t (v % 2 ^ 4))
            (bit_or_shifted 10 (v / 2 ^ 10) (v / 2 ^ 4 % 2 ^ 6 * 2 ^ 4) (omega arith)
              ∙ (let e : v / 2 ^ 10 * 2 ^ 10 + v / 2 ^ 4 % 2 ^ 6 * 2 ^ 4 ≡ v / 2 ^ 4 * 2 ^ 4 =
                    omega arith in
                  e))
          ∙ bit_or_shifted 4 (v / 2 ^ 4) (v % 2 ^ 4) (omega arith)
          ∙ omega arith in
        let first : v / 2 ^ 8 % 2 ^ 8 ≡ a = omega (arith, sum) in
        let second : v % 2 ^ 8 ≡ b = omega (arith, sum) in
        rw (clean, shifted, mid, back, bit_and_low 8 v, first, second) refl)
      (unfold decode_loop in refl)

three_bytes :
    (a b c : ℕ) (bs : List ℕ) (rounds : ℕ)
    → a < 2 ^ 8
    → b < 2 ^ 8
    → c < 2 ^ 8
    → decode_loop rounds (encode_loop bs) ≡ some bs
    → decode_loop (suc rounds) (encode_loop (a ∷ b ∷ c ∷ bs)) ≡ some (a ∷ b ∷ c ∷ bs)
unfolding encode_loop four
three_bytes a b c bs rounds ha hb hc more =
    let v = word24 a b c in
    let sum : word24 a b c ≡ a * 2 ^ 16 + b * 2 ^ 8 + c = word24_lem a b c hb hc in
    let first : v / 2 ^ 16 ≡ a = omega (arith, sum) in
    let second : v / 2 ^ 8 % 2 ^ 8 ≡ b = omega (arith, sum) in
    let third : v % 2 ^ 8 ≡ c = omega (arith, sum) in
    rw (bit_and_low 6 (v / 2 ^ 12), bit_and_low 6 (v / 2 ^ 6), bit_and_low 6 v)
      (round_four (encoding (v / 2 ^ 18)) (encoding (v / 2 ^ 12 % 2 ^ 6))
        (encoding (v / 2 ^ 6 % 2 ^ 6)) (encoding (v % 2 ^ 6)) (encode_loop bs) (v / 2 ^ 18)
        (v / 2 ^ 12 % 2 ^ 6) (value (v / 2 ^ 6 % 2 ^ 6)) (value (v % 2 ^ 6))
        (b64index-encoding (v / 2 ^ 18) (omega (arith, sum)))
        (b64index-encoding (v / 2 ^ 12 % 2 ^ 6) (omega arith))
        (b64index-encoding (v / 2 ^ 6 % 2 ^ 6) (omega arith))
        (b64index-encoding (v % 2 ^ 6) (omega arith)) (λ e. cc e) (λ e. cc e) rounds
        (a ∷ b ∷ c ∷ []) bs (three_whole v (omega (arith, sum)) ∙ rw (first, second, third) refl)
        more)

decode_loop-encode_loop :
    (rounds : ℕ) (bs : List ℕ)
    → AllBytes bs
    → length (encode_loop bs) ≤ rounds
    → decode_loop rounds (encode_loop bs) ≡ some bs
decode_loop-encode_loop rounds [] h le = unfold encode_loop decode_loop in refl
decode_loop-encode_loop zero (a ∷ []) h le = absurd (unfold encode_loop in omega arith)
decode_loop-encode_loop zero (a ∷ b ∷ []) h le = absurd (unfold encode_loop in omega arith)
decode_loop-encode_loop zero (a ∷ b ∷ c ∷ bs) h le = absurd (unfold encode_loop four in omega arith)
decode_loop-encode_loop (suc rounds) (a ∷ []) h le = one_byte a rounds h.0
decode_loop-encode_loop (suc rounds) (a ∷ b ∷ []) h le = two_bytes a b rounds h.0 h.1.0
decode_loop-encode_loop (suc rounds) (a ∷ b ∷ c ∷ bs) h le =
    three_bytes a b c bs rounds h.0 h.1.0 h.1.1.0
      (decode_loop-encode_loop rounds bs h.1.1.1 (unfold encode_loop four in omega arith))

-- From up to 1,610,612,733 bytes `lb64encode` makes a text, and `lb64decode` of it gives back the bytes.
pub b64decode-b64encode :
    (bs : List ℕ)
    → AllBytes bs
    → length bs < 3 * 2 ^ 29 - 2
    → (text : List ℕ) × (b64encode bs ≡ some text) × (b64decode text ≡ some bs)
unfolding b64decode b64encode
b64decode-b64encode bs h few = (
  encode_loop bs,
  ground arith,
  decode_loop-encode_loop (length (encode_loop bs)) bs h (omega arith),
)
