-- ===== src/DataBuffer/Header.antt =====
-- skynet/service-src/databuffer.h: the two-byte length prefix of a package.
use skynet_athena.Base.{
  List, [], ap, arith, drop, if◌then◌else◌, leb, length, refl, some, take, ℕ, ◌*◌, ◌+◌, ◌<◌, ◌^◌,
  ◌∙◌, ◌∷◌, ◌≡◌, ◌≢◌, ◌≤◌,
}
use skynet_athena.Base.Bits.{bit_or_shifted}
use skynet_athena.DataBuffer.{
  DataBuffer, MessagePool, big_endian, minus_one, read, readheader, short_of,
}
use skynet_athena.DataBuffer.Read.{IsValid, pending, read_lem}

big_endian_two : (hi lo : ℕ) → lo < 2 ^ 8 → big_endian 2 (hi ∷ lo ∷ []) ≡ hi * 2 ^ 8 + lo
unfolding big_endian
big_endian_two hi lo h = bit_or_shifted 8 hi lo h

-- Before a header is read, `databuffer_readheader` takes the two bytes that come first as a
-- big-endian length, remembers it, leaves the bytes behind it, and answers the length once that many
-- bytes have arrived, -1 before.
pub readheader_lem :
    (db : DataBuffer) (mp : MessagePool) (hi lo : ℕ) (rest : List ℕ)
    → IsValid db
    → db.header ≡ 0
    → pending db.chunks db.offset ≡ hi ∷ lo ∷ rest
    → hi < 2 ^ 8
    → lo < 2 ^ 8
    → (db' : DataBuffer) × (mp' : MessagePool) × (readheader db mp 2
        ≡ some
            (if leb (hi * 2 ^ 8 + lo) (length rest) then hi * 2 ^ 8 + lo else minus_one, db', mp'))
      × IsValid db'
      × (pending db'.chunks db'.offset ≡ rest)
      × (db'.header ≡ hi * 2 ^ 8 + lo)
unfolding readheader
readheader_lem db mp hi lo rest v zero_header stream hh hl =
    let enough : 2 ≤ db.size = omega (arith, v.counted, ap length stream) in
    let (db', mp', e, v', left, _, _) = read_lem db mp 2 v (omega arith) enough in
    let left' : pending db'.chunks db'.offset ≡ rest = left ∙ ap (drop 2) stream in
    let took : read db mp 2 ≡ some (hi ∷ lo ∷ [], db', mp') =
      e ∙ ap (λ s. some (take 2 s, db', mp')) stream in
    (
      record db' { header = hi * 2 ^ 8 + lo },
      mp',
      ground (arith, took, big_endian_two hi lo hl, v'.counted, ap length left'),
      record { inside = v'.inside; counted = v'.counted },
      left',
      refl,
    )

-- With one byte at most it answers -1 and changes nothing; with a header read before, it only
-- compares again.
pub readheader_waits :
    (db : DataBuffer) (mp : MessagePool) (header_size : ℕ)
    → (db.header ≡ 0
        → db.size < header_size
        → readheader db mp header_size ≡ some (minus_one, db, mp))
      × (db.header ≢ 0
          → readheader db mp header_size
            ≡ some (if short_of db.size db.header then minus_one else db.header, db, mp))
unfolding readheader
readheader_waits db mp header_size = (λ e less. ground arith, λ ne. ground arith)
