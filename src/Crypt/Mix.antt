-- ===== src/Crypt/Mix.antt =====
-- skynet/lualib-src/lua-crypt.c: `lxor_str` and `lhashkey`, on the bytes of a string.
use skynet_athena.Base.{
  ==_iff, List, Option, [], ap, ap₂, arith, bit_and, bit_xor, false, get_or, if◌then◌else◌, length,
  none, passes, passes-at, refl, some, suc, true, zero, ℕ, ◌%◌, ◌*◌, ◌++◌, ◌+◌, ◌/◌, ◌<◌, ◌==◌, ◌^◌,
  ◌∷◌, ◌≡◌,
}
use skynet_athena.Crypt.Hex.{AllBytes}

-- The loop of `lxor_str`, from the index `i` on.
unfoldable pub xor_from : List ℕ → ℕ → List ℕ → List ℕ
xor_from key i [] = []
xor_from key i (b ∷ bs) = bit_xor b (get_or key (i % length key) 0) ∷ xor_from key (i + 1) bs

-- `none` is the error for an empty key.
unfoldable pub xor_str : List ℕ → List ℕ → Option (List ℕ)
xor_str s key = if length key == 0 then none else some (xor_from key 0 s)

-- The loop of `Hash` over both 32-bit words.
unfoldable pub hash_loop : List ℕ → ℕ → ℕ → ℕ × ℕ
hash_loop [] djb js = (djb, js)
hash_loop (c ∷ cs) djb js =
    hash_loop cs ((djb + (djb * 2 ^ 5 + c)) % 2 ^ 32)
      (bit_xor js ((js * 2 ^ 5 % 2 ^ 32 + c + js / 2 ^ 2) % 2 ^ 32))

unfoldable pub four_bytes : ℕ → List ℕ
four_bytes w =
    bit_and w 0xff
    ∷ bit_and (w / 2 ^ 8) 0xff
    ∷ bit_and (w / 2 ^ 16) 0xff
    ∷ bit_and (w / 2 ^ 24) 0xff
    ∷ []

-- `lhashkey` with `Hash`.
unfoldable pub hash_key : List ℕ → List ℕ
hash_key cs = let (djb, js) = hash_loop cs 5381 1315423911 in four_bytes djb ++ four_bytes js

-- Every pair of bytes, by evaluation.
xor_table : passes (λ a. passes (λ b. bit_xor (bit_xor a b) b == a) 256) 256 ≡ true
unfolding passes
xor_table = refl

xor_twice : (a b : ℕ) → a < 2 ^ 8 → b < 2 ^ 8 → bit_xor (bit_xor a b) b ≡ a
xor_twice a b ha hb =
    (==_iff (bit_xor (bit_xor a b) b) a).0 (passes-at _ b 256 hb (passes-at _ a 256 ha xor_table))

get_or-AllBytes : (bs : List ℕ) (i : ℕ) → AllBytes bs → get_or bs i 0 < 2 ^ 8
get_or-AllBytes [] i h = omega arith
get_or-AllBytes (b ∷ bs) zero h = h.0
get_or-AllBytes (b ∷ bs) (suc i) h = get_or-AllBytes bs i h.1

xor_from-twice :
    (key bs : List ℕ) (i : ℕ) → AllBytes key → AllBytes bs → xor_from key i (xor_from key i bs) ≡ bs
unfolding xor_from
xor_from-twice key [] i hk h = refl
xor_from-twice key (b ∷ bs) i hk h =
    ap₂ ◌∷◌
      (xor_twice b (get_or key (i % length key) 0) h.0 (get_or-AllBytes key (i % length key) hk))
      (xor_from-twice key bs (i + 1) hk h.1)

-- With a key that is not empty, `lxor_str` twice gives back the string.
pub xor_str-twice :
    (s key : List ℕ)
    → AllBytes s
    → AllBytes key
    → 0 < length key
    → (t : List ℕ) × (xor_str s key ≡ some t) × (xor_str t key ≡ some s)
unfolding xor_str
xor_str-twice s key hs hk pos =
    let e : (length key == 0) ≡ false = ground arith in
    (xor_from key 0 s, rw e refl, rw e (ap some (xor_from-twice key s 0 hk hs)))
