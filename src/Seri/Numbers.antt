-- ===== src/Seri/Numbers.antt =====
-- skynet/lualib-src/lua-seri.c: tags, integers and strings read back.
use skynet_athena.Base.{
  Bool-cases, List, [], ap, arith, bit_and, dec_le, dec_lt, drop, drop-append_long, false, inl, inr,
  leb, length, length-append, ltb, lt→ltb, refl, suc, sym, take, take-append_short, take_all, true,
  zero, ℕ, ℕ_discrete, ◌%◌, ◌*◌, ◌++◌, ◌+◌, ◌/◌, ◌<◌, ◌==◌, ◌^◌, ◌∙◌, ◌∷◌, ◌≡◌, ◌≤◌,
}
use skynet_athena.Base.Bits.{bit_and_low, bit_or_low_shifted}
use skynet_athena.Seri.Value.{
  combine_type, le_bytes, number_byte, number_dword, number_qword, number_word, number_zero, of_le,
  sign_extend, type_number,
}
use skynet_athena.Seri.Blocks.{flatten}
use skynet_athena.Seri.Pack.{fits_int32, wb_integer}
use skynet_athena.Seri.Unpack.{get_integer, ok, rb_read, read_le}

pub combine_type_lem : (t v : ℕ) → t < 8 → v < 32 → combine_type t v ≡ v * 8 + t
unfolding combine_type
combine_type_lem t v ht hv = omega (arith, bit_or_low_shifted 3 v t ht)

-- The type and the cookie of a tag.
pub tag_fields :
    (t v : ℕ) → t < 8 → v < 32 → (bit_and (combine_type t v) 7 ≡ t) × (combine_type t v / 2 ^ 3 ≡ v)
tag_fields t v ht hv =
    rw (combine_type_lem t v ht hv) (omega (arith, bit_and_low 3 (v * 8 + t)), omega arith)

pub rb_read-append :
    (n : ℕ) (raw rest : List ℕ) → n ≡ length raw → rb_read n (raw ++ rest) ≡ ok (raw, rest)
unfolding rb_read
rb_read-append n raw rest e =
    let enough : ltb (length (raw ++ rest)) n ≡ false = ground (arith, length-append raw rest) in
    let short : n ≤ length raw = omega arith in
    let taken : take n (raw ++ rest) ≡ raw =
      take-append_short n raw rest short ∙ take_all n raw (omega arith) in
    let dropped : drop n (raw ++ rest) ≡ rest = drop-append_long n 0 raw rest (omega arith) in
    rw (enough, taken, dropped) refl

pub length-le_bytes : (k n : ℕ) → length (le_bytes k n) ≡ k
length-le_bytes zero n = refl
length-le_bytes (suc k) n = ap suc (length-le_bytes k (n / 256))

read_le-le_bytes :
    (k n : ℕ) (rest : List ℕ)
    → of_le (le_bytes k n) ≡ n
    → read_le k (le_bytes k n ++ rest) ≡ ok (n, rest)
unfolding read_le
read_le-le_bytes k n rest e =
    rw (rb_read-append k (le_bytes k n) rest (sym (length-le_bytes k n))) (ap (λ m. ok (m, rest)) e)

pub read_byte :
    (n : ℕ) (rest : List ℕ) → n < 2 ^ 8 → read_le 1 (le_bytes 1 n ++ rest) ≡ ok (n, rest)
read_byte n rest h = read_le-le_bytes 1 n rest (omega arith)

pub read_word :
    (n : ℕ) (rest : List ℕ) → n < 2 ^ 16 → read_le 2 (le_bytes 2 n ++ rest) ≡ ok (n, rest)
read_word n rest h = read_le-le_bytes 2 n rest (omega arith)

pub read_dword :
    (n : ℕ) (rest : List ℕ) → n < 2 ^ 32 → read_le 4 (le_bytes 4 n ++ rest) ≡ ok (n, rest)
read_dword n rest h = read_le-le_bytes 4 n rest (omega arith)

pub read_qword :
    (n : ℕ) (rest : List ℕ) → n < 2 ^ 64 → read_le 8 (le_bytes 8 n ++ rest) ≡ ok (n, rest)
read_qword n rest h = read_le-le_bytes 8 n rest (omega arith)

-- An integer is written as a tag with some cookie and bytes that this cookie reads back.
abbrev pub Reads : ℕ → List ℕ → ℕ → Type 0
Reads cookie raw p = (rest : List ℕ) → get_integer cookie (raw ++ rest) ≡ ok (p, rest)

pub wb_integer-Reads :
    (p : ℕ)
    → p < 2 ^ 64
    → (cookie : ℕ) × (raw : List ℕ) × (flatten (wb_integer p)
        ≡ combine_type type_number cookie ∷ raw)
      × (cookie < 8)
      × Reads cookie raw p
unfolding wb_integer get_integer
wb_integer-Reads p h = elim (ℕ_discrete p 0) [
  | yes z ↦ (number_zero, [], ground arith, omega arith, λ rest. ap (λ n. ok (n, rest)) (sym z))
  | no nz ↦ elim (Bool-cases (fits_int32 p)) [
    | inr wide ↦ (
      number_qword,
      le_bytes 8 p,
      (let nz' : (p == 0) ≡ false = ground arith in rw (nz', wide) refl),
      omega arith,
      λ rest. read_qword p rest h,
    )
    | inl narrow ↦
        let nz' : (p == 0) ≡ false = ground arith in
        elim (dec_le (2 ^ 63) p) [
          | yes negative ↦
              let neg : leb (2 ^ 63) p ≡ true = ground arith in
              (
                number_dword,
                le_bytes 4 (p % 2 ^ 32),
                rw (nz', narrow, neg) refl,
                omega arith,
                λ rest.
                    let back : sign_extend (p % 2 ^ 32) ≡ p = ground arith in
                    rw (read_dword (p % 2 ^ 32) rest (omega arith)) (ap (λ n. ok (n, rest)) back),
              )
          | no positive ↦
              let pos : leb (2 ^ 63) p ≡ false = ground arith in
              elim (dec_lt p 0x100) [
                | yes small ↦ (
                  number_byte,
                  le_bytes 1 p,
                  rw (nz', narrow, pos, lt→ltb _ _ small) refl,
                  omega arith,
                  λ rest. read_byte p rest small,
                )
                | no big ↦
                    let big' : ltb p 0x100 ≡ false = ground arith in
                    elim (dec_lt p 0x10000) [
                      | yes word ↦ (
                        number_word,
                        le_bytes 2 p,
                        rw (nz', narrow, pos, big', lt→ltb _ _ word) refl,
                        omega arith,
                        λ rest. read_word p rest word,
                      )
                      | no large ↦
                          let large' : ltb p 0x10000 ≡ false = ground arith in
                          (
                            number_dword,
                            le_bytes 4 p,
                            rw (nz', narrow, pos, big', large') refl,
                            omega arith,
                            λ rest.
                                let back : sign_extend p ≡ p = ground arith in
                                rw (read_dword p rest (ground arith)) (ap (λ n. ok (n, rest)) back),
                          )
                    ]
              ]
        ]
  ]
]
