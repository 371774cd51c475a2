-- ===== src/DataBuffer.antt =====
-- skynet/service-src/databuffer.h: the bytes that a connection has received, as a list of the chunks
-- in which they came, and the pool of list nodes. The gate reads length-prefixed packages from it.
pub mod Read
pub mod Header
mod Tests
use mathlib.Core.Option
use skynet_athena.Base.{
  Bool, List, Option, [], bit_or, drop, get_or, if◌then◌else◌, length, ltb, none, some, take, ℕ,
  ◌&&◌, ◌*◌, ◌++◌, ◌+◌, ◌-◌, ◌==◌, ◌^◌, ◌∷◌,
}

-- `struct databuffer`. A `struct message` of the list is its buffer, whose length is its `size`.
-- `header` is the 32-bit pattern of the `int`.
pub record DataBuffer : Type 0 where
  pub header : ℕ
  pub offset : ℕ
  pub size : ℕ
  pub chunks : List (List ℕ)

-- `struct messagepool`: how many blocks of 1023 nodes it owns and how many nodes are free.
pub record MessagePool : Type 0 where
  pub blocks : ℕ
  pub free : ℕ

abbrev pub message_pool : ℕ
message_pool = 1023

-- `databuffer_push`.
pub push : DataBuffer → MessagePool → List ℕ → DataBuffer × MessagePool
push db mp bytes = (
  record db { chunks = db.chunks ++ (bytes ∷ []); size = db.size + length bytes },
  if mp.free == 0
      then record { blocks = mp.blocks + 1; free = message_pool - 1 }
      else record mp { free = mp.free - 1 },
)

-- What the loop of `databuffer_read` leaves: the bytes copied, the chunks, the offset into the first
-- and the nodes returned to the pool.
pub record Loop : Type 0 where
  pub copied : List ℕ
  pub chunks : List (List ℕ)
  pub offset : ℕ
  pub freed : ℕ

-- `none` is the read through a NULL head.
pub read_loop : List (List ℕ) → ℕ → ℕ → Option Loop
read_loop [] offset sz = none
read_loop (c ∷ cs) offset sz =
    let bsz = length c - offset in
    let rest = read_loop cs 0 (sz - bsz) in
    if ltb sz bsz
    then some (record {
      copied = take sz (drop offset c);
      chunks = c ∷ cs;
      offset = offset + sz;
      freed = 0;
    })
    else if bsz == sz
    then some (record { copied = take sz (drop offset c); chunks = cs; offset = 0; freed = 1 })
    else Option.map
        (λ (l : Loop). record l {
          copied = take bsz (drop offset c) ++ l.copied;
          freed = l.freed + 1;
        })
        rest

-- `databuffer_read`; `none` is also the failed assertion on the size.
pub read : DataBuffer → MessagePool → ℕ → Option (List ℕ × DataBuffer × MessagePool)
read db mp sz =
    if ltb db.size sz
    then none
    else Option.map
        (λ (l : Loop). (
          l.copied,
          record db { chunks = l.chunks; offset = l.offset; size = db.size - sz },
          record mp { free = mp.free + l.freed },
        ))
        (read_loop db.chunks db.offset sz)

-- The big-endian number in `plen`.
pub big_endian : ℕ → List ℕ → ℕ
big_endian header_size plen =
    if header_size == 2
    then bit_or (get_or plen 0 0 * 2 ^ 8) (get_or plen 1 0)
    else bit_or
        (bit_or (bit_or (get_or plen 0 0 * 2 ^ 24) (get_or plen 1 0 * 2 ^ 16))
          (get_or plen 2 0 * 2 ^ 8))
        (get_or plen 3 0)

-- The pattern of the `int` -1.
abbrev pub minus_one : ℕ
minus_one = 2 ^ 32 - 1

-- `db->size < db->header` on signed numbers: a pattern with the top bit set is negative.
abbrev pub short_of : ℕ → ℕ → Bool
short_of size header = ltb header (2 ^ 31) && ltb size header

abbrev pub answer : DataBuffer → MessagePool → ℕ × DataBuffer × MessagePool
answer db mp = (if short_of db.size db.header then minus_one else db.header, db, mp)

-- `databuffer_readheader`; the number returned is the pattern of an `int`.
pub readheader : DataBuffer → MessagePool → ℕ → Option (ℕ × DataBuffer × MessagePool)
readheader db mp header_size =
    if db.header == 0
    then (if ltb db.size header_size
        then some (minus_one, db, mp)
        else Option.map
            (λ ((plen, db', mp') : List ℕ × DataBuffer × MessagePool).
              answer (record db' { header = big_endian header_size plen }) mp')
            (read db mp header_size))
    else some (answer db mp)

-- `databuffer_reset`.
unfoldable pub reset : DataBuffer → DataBuffer
reset db = record db { header = 0 }

-- `databuffer_clear`: every node goes back to the pool.
pub clear : DataBuffer → MessagePool → DataBuffer × MessagePool
clear db mp = (
  record { header = 0; offset = 0; size = 0; chunks = [] },
  record mp { free = mp.free + length db.chunks },
)

-- `messagepool_free`.
pub messagepool_free : MessagePool → MessagePool
messagepool_free mp = record { blocks = 0; free = 0 }
