-- ===== src/DataBuffer/Tests.antt =====
-- Runs of the data buffer, and its theorems at concrete buffers.
use skynet_athena.Base.{[], arith, length, some, ◌+◌, ◌∷◌, ◌≡◌}
use skynet_athena.DataBuffer.{DataBuffer, MessagePool, read}
use skynet_athena.DataBuffer.Read.{IsValid, pending, read_lem}

-- The stream 0 3 7 8 9 in chunks of two, one and three bytes, the first byte of all already read.
abbrev split : DataBuffer
split = record {
  header = 0;
  offset = 1;
  size = 5;
  chunks = (6 ∷ 0 ∷ []) ∷ (3 ∷ []) ∷ (7 ∷ 8 ∷ 9 ∷ []) ∷ [];
}

abbrev pool : MessagePool
pool = record { blocks = 1; free = 1020 }

split-IsValid : IsValid split
split-IsValid = omega arith

read_lem_example :
    (db' : DataBuffer) × (mp' : MessagePool) × (read split pool 4
      ≡ some (0 ∷ 3 ∷ 7 ∷ 8 ∷ [], db', mp'))
    × IsValid db'
    × (pending db'.chunks db'.offset ≡ 9 ∷ [])
    × (3 + 1020 ≡ length db'.chunks + mp'.free)
    × (db'.header ≡ 0)
read_lem_example = read_lem split pool 4 split-IsValid (omega arith) (omega arith)
