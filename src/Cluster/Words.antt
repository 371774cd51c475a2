-- ===== src/Cluster/Words.antt =====
-- skynet/lualib-src/lua-cluster.c: 32-bit integers and headers, written and read.
use skynet_athena.Cluster.{fill_header, fill_uint32, framed, unpack_uint32}
use skynet_athena.Netpack
use skynet_athena.Netpack.{write_size}
use skynet_athena.Base.Bits.{bit_and_low, bit_or_low_shifted}
use skynet_athena.Base.{
  List, [], arith, bit_or, drop, false, leb, length, refl, some, suc, ℕ, ◌%◌, ◌*◌, ◌++◌, ◌+◌, ◌/◌,
  ◌<◌, ◌^◌, ◌∙◌, ◌∷◌, ◌≡◌,
}

pub length-fill_uint32 : (n : ℕ) → length (fill_uint32 n) ≡ 4
unfolding fill_uint32
length-fill_uint32 n = refl

four_or :
    (a b c d : ℕ)
    → a < 2 ^ 8
    → b < 2 ^ 8
    → c < 2 ^ 8
    → bit_or (bit_or (bit_or a (b * 2 ^ 8)) (c * 2 ^ 16)) (d * 2 ^ 24)
      ≡ a + b * 2 ^ 8 + c * 2 ^ 16 + d * 2 ^ 24
four_or a b c d ha hb hc =
    let one : bit_or a (b * 2 ^ 8) ≡ b * 2 ^ 8 + a = bit_or_low_shifted 8 b a ha in
    let two : bit_or (b * 2 ^ 8 + a) (c * 2 ^ 16) ≡ c * 2 ^ 16 + (b * 2 ^ 8 + a) =
      bit_or_low_shifted 16 c (b * 2 ^ 8 + a) (omega arith) in
    rw (one, two)
      (bit_or_low_shifted 24 d (c * 2 ^ 16 + (b * 2 ^ 8 + a)) (omega arith) ∙ omega arith)

unpack-cons : (b : ℕ) (buf : List ℕ) (i : ℕ) → unpack_uint32 (b ∷ buf) (suc i) ≡ unpack_uint32 buf i
unfolding unpack_uint32
unpack-cons b buf i =
    let one : suc i + 1 ≡ suc (i + 1) = omega arith in
    let two : suc i + 2 ≡ suc (i + 2) = omega arith in
    let three : suc i + 3 ≡ suc (i + 3) = omega arith in rw (one, two, three) refl

unpack-fill_here :
    (after : List ℕ) (n : ℕ) → n < 2 ^ 32 → unpack_uint32 (fill_uint32 n ++ after) 0 ≡ n
unfolding unpack_uint32 fill_uint32
unpack-fill_here after n h =
    rw
      (
        bit_and_low 8 n,
        bit_and_low 8 (n / 2 ^ 8),
        bit_and_low 8 (n / 2 ^ 16),
        bit_and_low 8 (n / 2 ^ 24),
      )
      (four_or (n % 2 ^ 8) (n / 2 ^ 8 % 2 ^ 8) (n / 2 ^ 16 % 2 ^ 8) (n / 2 ^ 24 % 2 ^ 8)
          (omega arith) (omega arith) (omega arith)
        ∙ omega arith)

-- A 32-bit integer at an index, whatever stands around it.
pub unpack-fill :
    (before after : List ℕ) (n i : ℕ)
    → n < 2 ^ 32
    → i ≡ length before
    → unpack_uint32 (before ++ (fill_uint32 n ++ after)) i ≡ n
unpack-fill [] after n i h e = rw e (unpack-fill_here after n h)
unpack-fill (b ∷ before) after n i h e = rw e (
    unpack-cons b (before ++ (fill_uint32 n ++ after)) (length before)
    ∙ unpack-fill before after n (length before) h refl)

pub fill_header_lem : (sz : ℕ) → sz < 0x10000 → fill_header sz ≡ some (write_size sz)
unfolding fill_header write_size
fill_header_lem sz h = ground arith

-- A package that fits its header is what `netpack` packs, and so what it delivers.
pub framed-pack :
    (sz : ℕ) (body : List ℕ)
    → sz ≡ length body
    → sz < 0x10000
    → (wire : List ℕ) × (framed sz body ≡ some wire) × (Netpack.pack body ≡ some wire)
unfolding framed Netpack.pack
framed-pack sz body e h =
    let t : leb 0x10000 (length body) ≡ false = ground arith in
    (write_size sz ++ body, rw (fill_header_lem sz h) refl, rw (t, e) refl)

pub framed_lem :
    (sz : ℕ) (body : List ℕ) → sz < 0x10000 → framed sz body ≡ some (write_size sz ++ body)
unfolding framed
framed_lem sz body h = rw (fill_header_lem sz h) refl

pub drop-write_size : (sz : ℕ) (body : List ℕ) → drop 2 (write_size sz ++ body) ≡ body
unfolding write_size
drop-write_size sz body = refl
