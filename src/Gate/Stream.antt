-- ===== src/Gate/Stream.antt =====
-- skynet/service-src/service_gate.c: the stream of one connection, between the calls of
-- `dispatch_message`.
use skynet_athena.Base.{
  List, [], ap, arith, drop, drop-append_short, get_or, if◌then◌else◌, inl, inr, leb, length,
  length-append, length-drop, refl, some, suc, sym, zero, ℕ, ◌*◌, ◌++◌, ◌+◌, ◌<◌, ◌^◌, ◌∙◌, ◌∷◌,
  ◌≡◌, ◌≢◌, ◌≤◌, ◌⊎◌,
}
use skynet_athena.DataBuffer.{DataBuffer, MessagePool, minus_one, push, readheader}
use skynet_athena.DataBuffer.Read.{IsValid, header-push, pending, push_lem}
use skynet_athena.DataBuffer.Header.{readheader_lem, readheader_waits}

abbrev pub IsBytes : List ℕ → Type 0
IsBytes [] = Unit
IsBytes (b ∷ bs) = (b < 2 ^ 8) × IsBytes bs

pub IsBytes-drop : (n : ℕ) (s : List ℕ) → IsBytes s → IsBytes (drop n s)
IsBytes-drop zero s b = b
IsBytes-drop (suc n) [] b = tt
IsBytes-drop (suc n) (x ∷ s) (h, b) = IsBytes-drop n s b

pub IsBytes-append : (s t : List ℕ) → IsBytes s → IsBytes t → IsBytes (s ++ t)
IsBytes-append [] t b b' = b'
IsBytes-append (x ∷ s) t (h, b) b' = (h, IsBytes-append s t b b')

-- The buffer holds `s`, or has read the two bytes of its first length and holds the rest.
abbrev pub IsStream : DataBuffer → List ℕ → Type 0
IsStream db s =
    IsValid db
    × IsBytes s
    × (((db.header ≡ 0) × (pending db.chunks db.offset ≡ s))
        ⊎ ((2 ≤ length s)
            × (db.header ≢ 0)
            × (db.header ≡ get_or s 0 0 * 2 ^ 8 + get_or s 1 0)
            × (pending db.chunks db.offset ≡ drop 2 s)))

-- With less than two bytes the header waits.
pub readheader-IsStream_short :
    (db : DataBuffer) (mp : MessagePool) (s : List ℕ)
    → IsStream db s
    → length s < 2
    → readheader db mp 2 ≡ some (minus_one, db, mp)
readheader-IsStream_short db mp s (v, b, inl (z, p)) less =
    (readheader_waits db mp 2).0 z (omega (arith, v.counted, ap length p))
readheader-IsStream_short db mp s (v, b, inr (two, _, _, _)) less = absurd (omega arith)

-- Otherwise it answers the first length once the package is there, and -1 before.
pub readheader-IsStream :
    (db : DataBuffer) (mp : MessagePool) (hi lo : ℕ) (rest : List ℕ)
    → IsStream db (hi ∷ lo ∷ rest)
    → (db' : DataBuffer) × (mp' : MessagePool) × (readheader db mp 2
        ≡ some
            (if leb (hi * 2 ^ 8 + lo) (length rest) then hi * 2 ^ 8 + lo else minus_one, db', mp'))
      × IsValid db'
      × (pending db'.chunks db'.offset ≡ rest)
      × (db'.header ≡ hi * 2 ^ 8 + lo)
readheader-IsStream db mp hi lo rest (v, (h, (l, b)), inl (z, p)) =
    readheader_lem db mp hi lo rest v z p h l
readheader-IsStream db mp hi lo rest (v, (h, (l, b)), inr (two, ne, e, p)) =
    (db, mp, (readheader_waits db mp 2).1 ne ∙ ground (arith, e, v.counted, ap length p), v, p, e)

-- The length that comes first.
first_length : List ℕ → ℕ
first_length s = get_or s 0 0 * 2 ^ 8 + get_or s 1 0

first_length-append : (s t : List ℕ) → 2 ≤ length s → first_length (s ++ t) ≡ first_length s
unfolding first_length
first_length-append [] t h = absurd (omega arith)
first_length-append (x ∷ []) t h = absurd (omega arith)
first_length-append (x ∷ y ∷ s) t h = refl

pub push-IsStream :
    (db : DataBuffer) (mp : MessagePool) (s bytes : List ℕ)
    → IsStream db s
    → IsBytes bytes
    → IsStream (push db mp bytes).0 (s ++ bytes)
unfolding first_length
push-IsStream db mp s bytes (v, b, shape) b' =
    let (v', left, _) = push_lem db mp bytes v in
    let hd = header-push db mp bytes in
    (
      v',
      IsBytes-append s bytes b b',
      elim shape [
        | inl (z, p) ↦ inl (hd ∙ z, left ∙ ap (λ l. l ++ bytes) p)
        | inr (two, ne, e, p) ↦ inr (
          omega (arith, length-append s bytes),
          (λ q. ne (sym hd ∙ q)),
          hd ∙ e ∙ sym (first_length-append s bytes two),
          left ∙ ap (λ l. l ++ bytes) p ∙ sym (drop-append_short 2 s bytes two),
        )
      ],
    )

pub IsStream-bound : (db : DataBuffer) (s : List ℕ) → IsStream db s → length s ≤ db.size + 2
IsStream-bound db s (v, b, inl (z, p)) = omega (arith, v.counted, ap length p)
IsStream-bound db s (v, b, inr (two, ne, e, p)) =
    omega (arith, v.counted, ap length p, length-drop 2 s)
