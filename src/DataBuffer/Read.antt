-- ===== src/DataBuffer/Read.antt =====
-- skynet/service-src/databuffer.h: the byte stream in the chunks, and reading from it.
use skynet_athena.Base.{
  List, [], ap, append-nil, append_assoc, arith, dec_lt, drop, drop-append_long, drop-append_short,
  drop-drop, length, length-append, length-drop, lt→ltb, refl, some, sym, take, take-append_long,
  take-append_short, take_all, ℕ, ℕ_discrete, ◌*◌, ◌++◌, ◌+◌, ◌-◌, ◌<◌, ◌∙◌, ◌∷◌, ◌≡◌, ◌≤◌,
}
use skynet_athena.DataBuffer.{DataBuffer, Loop, MessagePool, message_pool, push, read, read_loop}

abbrev pub flatten : List (List ℕ) → List ℕ
flatten [] = []
flatten (c ∷ cs) = c ++ flatten cs

-- The bytes that wait, from the offset into the first chunk on.
abbrev pub pending : List (List ℕ) → ℕ → List ℕ
pending [] offset = []
pending (c ∷ cs) offset = drop offset c ++ flatten cs

abbrev pub IsAt : List (List ℕ) → ℕ → Type 0
IsAt [] offset = offset ≡ 0
IsAt (c ∷ cs) offset = offset ≤ length c

pub record IsValid (db : DataBuffer) : Type 0 where
  pub inside : IsAt db.chunks db.offset
  pub counted : db.size ≡ length (pending db.chunks db.offset)

-- What the loop has done, asked for `sz` bytes.
pub record Took (cs : List (List ℕ)) (offset sz : ℕ) (l : Loop) : Type 0 where
  pub bytes : l.copied ≡ take sz (pending cs offset)
  pub rest : pending l.chunks l.offset ≡ drop sz (pending cs offset)
  pub at : IsAt l.chunks l.offset
  pub nodes : length cs ≡ length l.chunks + l.freed

pending-zero : (cs : List (List ℕ)) → pending cs 0 ≡ flatten cs
pending-zero [] = refl
pending-zero (c ∷ cs) = refl

IsAt-zero : (cs : List (List ℕ)) → IsAt cs 0
IsAt-zero [] = refl
IsAt-zero (c ∷ cs) = omega arith

module _ (c : List ℕ) (cs : List (List ℕ)) (offset sz : ℕ) (a : offset ≤ length c) where
  abbrev bsz : ℕ
  bsz = length c - offset

  part : length (drop offset c) ≡ bsz
  part = length-drop offset c

  less-Took :
      sz < bsz → (l : Loop) × (read_loop (c ∷ cs) offset sz ≡ some l) × Took (c ∷ cs) offset sz l
  unfolding read_loop
  less-Took less = (
    record { copied = take sz (drop offset c); chunks = c ∷ cs; offset = offset + sz; freed = 0 },
    rw (lt→ltb _ _ less),
    record {
      bytes = sym (take-append_short sz (drop offset c) (flatten cs) (omega (arith, part)));
      rest = sym (
          drop-append_short sz (drop offset c) (flatten cs) (omega (arith, part))
          ∙ ap (λ l. l ++ flatten cs) (drop-drop sz offset c));
      at = omega arith;
      nodes = omega arith;
    },
  )

  same-Took :
      sz ≡ bsz → (l : Loop) × (read_loop (c ∷ cs) offset sz ≡ some l) × Took (c ∷ cs) offset sz l
  unfolding read_loop
  same-Took same = (
    record { copied = take sz (drop offset c); chunks = cs; offset = 0; freed = 1 },
    ground arith,
    record {
      bytes = sym (take-append_short sz (drop offset c) (flatten cs) (omega (arith, part)));
      rest =
          pending-zero cs
          ∙ sym (drop-append_long sz 0 (drop offset c) (flatten cs) (omega (arith, part)));
      at = IsAt-zero cs;
      nodes = omega arith;
    },
  )

  more-Took :
      bsz < sz
      → (l : Loop) × (read_loop cs 0 (sz - bsz) ≡ some l) × Took cs 0 (sz - bsz) l
      → (l : Loop) × (read_loop (c ∷ cs) offset sz ≡ some l) × Took (c ∷ cs) offset sz l
  unfolding read_loop
  more-Took more (l, e, t) = (
    record l { copied = take bsz (drop offset c) ++ l.copied; freed = l.freed + 1 },
    ground (arith, e),
    record {
      bytes =
          ap (λ d. d ++ l.copied) (take_all bsz (drop offset c) (omega (arith, part)))
          ∙ ap (◌++◌ (drop offset c)) (t.bytes ∙ ap (take (sz - bsz)) (pending-zero cs))
          ∙ sym (take-append_long sz (sz - bsz) (drop offset c) (flatten cs) (omega (arith, part)));
      rest =
          t.rest
          ∙ ap (drop (sz - bsz)) (pending-zero cs)
          ∙ sym (drop-append_long sz (sz - bsz) (drop offset c) (flatten cs) (omega (arith, part)));
      at = t.at;
      nodes = omega (arith, t.nodes);
    },
  )

read_loop-Took :
    (cs : List (List ℕ)) (offset sz : ℕ)
    → IsAt cs offset
    → 0 < sz
    → sz ≤ length (pending cs offset)
    → (l : Loop) × (read_loop cs offset sz ≡ some l) × Took cs offset sz l
read_loop-Took [] offset sz a pos h = absurd (omega arith)
read_loop-Took (c ∷ cs) offset sz a pos h = elim (dec_lt sz (length c - offset)) [
  | yes less ↦ less-Took c cs offset sz a less
  | no more ↦ elim (ℕ_discrete sz (length c - offset)) [
    | yes same ↦ same-Took c cs offset sz a same
    | no ne ↦ more-Took c cs offset sz a (omega arith) (
        read_loop-Took cs 0 (sz - (length c - offset)) (IsAt-zero cs) (omega arith) (
          omega (
            arith,
            length-append (drop offset c) (flatten cs),
            length-drop offset c,
            ap length (pending-zero cs),
          )))
  ]
]

-- On a valid buffer, `databuffer_read` of one byte at least and at most what has arrived copies that many bytes of the stream, leaves the
-- rest, and returns the nodes of the chunks used up to the pool.
pub read_lem :
    (db : DataBuffer) (mp : MessagePool) (sz : ℕ)
    → IsValid db
    → 0 < sz
    → sz ≤ db.size
    → (db' : DataBuffer) × (mp' : MessagePool) × (read db mp sz
        ≡ some (take sz (pending db.chunks db.offset), db', mp'))
      × IsValid db'
      × (pending db'.chunks db'.offset ≡ drop sz (pending db.chunks db.offset))
      × (length db.chunks + mp.free ≡ length db'.chunks + mp'.free)
      × (db'.header ≡ db.header)
unfolding read
read_lem db mp sz v pos h =
    let (l, e, t) = read_loop-Took db.chunks db.offset sz v.inside pos (omega (arith, v.counted)) in
    (
      record db { chunks = l.chunks; offset = l.offset; size = db.size - sz },
      record mp { free = mp.free + l.freed },
      ground (arith, e, t.bytes),
      record {
        inside = t.at;
        counted =
            omega
              (arith, v.counted, ap length t.rest, length-drop sz (pending db.chunks db.offset));
      },
      t.rest,
      omega (arith, t.nodes),
      refl,
    )

flatten-append :
    (cs : List (List ℕ)) (bytes : List ℕ) → flatten (cs ++ (bytes ∷ [])) ≡ flatten cs ++ bytes
flatten-append [] bytes = append-nil bytes
flatten-append (c ∷ cs) bytes =
    ap (◌++◌ c) (flatten-append cs bytes) ∙ sym (append_assoc c (flatten cs) bytes)

pending-append :
    (cs : List (List ℕ)) (offset : ℕ) (bytes : List ℕ)
    → IsAt cs offset
    → pending (cs ++ (bytes ∷ [])) offset ≡ pending cs offset ++ bytes
pending-append [] offset bytes a = rw a (append-nil bytes)
pending-append (c ∷ cs) offset bytes a =
    ap (◌++◌ (drop offset c)) (flatten-append cs bytes)
    ∙ sym (append_assoc (drop offset c) (flatten cs) bytes)

IsAt-append :
    (cs : List (List ℕ)) (offset : ℕ) (bytes : List ℕ)
    → IsAt cs offset
    → IsAt (cs ++ (bytes ∷ [])) offset
IsAt-append [] offset bytes a = rw a (omega arith)
IsAt-append (c ∷ cs) offset bytes a = a

-- On a valid buffer, `databuffer_push` appends the bytes to the stream and takes one node, from the pool or from a new
-- block of 1023; no node is lost or made up.
pub push_lem :
    (db : DataBuffer) (mp : MessagePool) (bytes : List ℕ)
    → IsValid db
    → let (db', mp') = push db mp bytes in
      IsValid db'
      × (pending db'.chunks db'.offset ≡ pending db.chunks db.offset ++ bytes)
      × (length db'.chunks + mp'.free + message_pool * mp.blocks
          ≡ length db.chunks + mp.free + message_pool * mp'.blocks)
unfolding push
push_lem db mp bytes v = (
  record {
    inside = IsAt-append db.chunks db.offset bytes v.inside;
    counted = omega (
      arith,
      v.counted,
      ap length (pending-append db.chunks db.offset bytes v.inside),
      length-append (pending db.chunks db.offset) bytes,
    );
  },
  pending-append db.chunks db.offset bytes v.inside,
  ground (arith, length-append db.chunks (bytes ∷ [])),
)

pub header-push :
    (db : DataBuffer) (mp : MessagePool) (bytes : List ℕ) → (push db mp bytes).0.header ≡ db.header
unfolding push
header-push db mp bytes = refl
