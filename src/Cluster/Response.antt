-- ===== src/Cluster/Response.antt =====
-- skynet/lualib-src/lua-cluster.c: a response read back by the node that asked.
use skynet_athena.Cluster.{
  Answer, begin, concat, error, fill_uint32, final, framed, middle, multi_part, packresponse,
  part_count, response_parts, response_whole, unpack_uint32, unpackresponse,
}
use skynet_athena.Cluster.Words.{drop-write_size, framed_lem, length-fill_uint32, unpack-fill}
use skynet_athena.Cluster.Parts.{concat-pieces, piece_size, piece_size-le, pieces, texts}
use skynet_athena.Netpack.{write_size}
use skynet_athena.Base.{
  Bool, List, Option, [], ap, append-nil, append_assoc, ap₂, arith, dec_lt, drop, false, get_or,
  if◌then◌else◌, inl, inr, length, length-append, length-take, ltb, map, refl, some, suc, sym, take,
  take_all, true, zero, ℕ, ◌++◌, ◌+◌, ◌<◌, ◌==◌, ◌^◌, ◌∙◌, ◌∷◌, ◌≡◌, ◌≤◌, ◌⊎◌,
}

-- What the peer reads from packages, each without its header.
abbrev pub answers : List (List ℕ) → List (Option (ℕ × Answer))
answers ps = map (λ (w : List ℕ). unpackresponse (drop 2 w)) ps

-- A package with its session and type.
abbrev typed : ℕ → ℕ → List ℕ → List ℕ
typed session type c = fill_uint32 session ++ (type ∷ c)

length-typed : (session type : ℕ) (c : List ℕ) → length (typed session type c) ≡ length c + 5
length-typed session type c =
    omega (arith, length-append (fill_uint32 session) (type ∷ c), length-fill_uint32 session)

typed_fields :
    (session type : ℕ) (c : List ℕ)
    → session < 2 ^ 32
    → (unpack_uint32 (typed session type c) 0 ≡ session)
      × (get_or (typed session type c) 4 0 ≡ type)
      × (drop 5 (typed session type c) ≡ c)
      × (ltb (length (typed session type c)) 5 ≡ false)
typed_fields session type c h = (
  unpack-fill [] (type ∷ c) session 0 h refl,
  (unfold fill_uint32 in refl),
  (unfold fill_uint32 in refl),
  ground (arith, length-typed session type c),
)

read_error :
    (session : ℕ) (c : List ℕ)
    → session < 2 ^ 32
    → unpackresponse (typed session 0 c) ≡ some (session, error c)
unfolding unpackresponse
read_error session c h = let (a, b, d, e) = typed_fields session 0 c h in rw (a, b, d, e) refl

read_final :
    (session type : ℕ) (c : List ℕ)
    → session < 2 ^ 32
    → (type ≡ 1) ⊎ (type ≡ 4)
    → unpackresponse (typed session type c) ≡ some (session, final c)
unfolding unpackresponse
read_final session type c h (inl t) =
    let (a, b, d, e) = typed_fields session type c h in rw (a, b, d, e, t) refl
read_final session type c h (inr t) =
    let (a, b, d, e) = typed_fields session type c h in rw (a, b, d, e, t) refl

read_middle :
    (session : ℕ) (c : List ℕ)
    → session < 2 ^ 32
    → unpackresponse (typed session 3 c) ≡ some (session, middle c)
unfolding unpackresponse
read_middle session c h = let (a, b, d, e) = typed_fields session 3 c h in rw (a, b, d, e) refl

read_begin :
    (session sz : ℕ)
    → session < 2 ^ 32
    → sz < 2 ^ 32
    → unpackresponse (typed session 2 (fill_uint32 sz)) ≡ some (session, begin sz)
unfolding unpackresponse
read_begin session sz h hz =
    let (a, b, d, e) = typed_fields session 2 (fill_uint32 sz) h in
    let size : (length (typed session 2 (fill_uint32 sz)) == 9) ≡ true =
      ground (arith, length-typed session 2 (fill_uint32 sz), length-fill_uint32 sz) in
    let its : unpack_uint32 (typed session 2 (fill_uint32 sz)) 5 ≡ sz =
      ap (λ t. unpack_uint32 (fill_uint32 session ++ (2 ∷ t)) 5) (sym (append-nil (fill_uint32 sz)))
      ∙ ap (λ t. unpack_uint32 t 5)
          (sym (append_assoc (fill_uint32 session) (2 ∷ []) (fill_uint32 sz ++ [])))
      ∙ unpack-fill (fill_uint32 session ++ (2 ∷ [])) [] sz 5 hz (
          omega
            (arith, length-append (fill_uint32 session) (2 ∷ []), length-fill_uint32 session)) in
    rw (a, b, e, size, its) refl

-- The answer that one piece of a long message is read as.
abbrev piece_answer : List ℕ × Bool → Answer
piece_answer c = if c.1 then middle c.0 else final c.0

read_piece :
    (session : ℕ) (c : List ℕ) (long : Bool)
    → session < 2 ^ 32
    → unpackresponse (typed session (if long then 3 else 4) c)
      ≡ some (session, piece_answer (c, long))
read_piece session c true h = read_middle session c h
read_piece session c false h = read_final session 4 c h (inr refl)

response_parts-pieces :
    (n session : ℕ) (msg : List ℕ)
    → session < 2 ^ 32
    → (ps : List (List ℕ)) × (response_parts n session msg ≡ some ps)
      × (answers ps ≡ map (λ (c : List ℕ × Bool). some (session, piece_answer c)) (pieces n msg))
unfolding response_parts pieces
response_parts-pieces zero session msg h = ([], refl, refl)
response_parts-pieces (suc n) session msg h =
    let s = piece_size msg in
    let long = ltb multi_part (length msg) in
    let body = typed session (if long then 3 else 4) (take s msg) in
    let small : s + 5 < 0x10000 = omega (arith, piece_size-le msg) in
    let (ps, e, r) = response_parts-pieces n session (drop s msg) h in
    (
      (write_size (s + 5) ++ body) ∷ ps,
      rw (framed_lem (s + 5) body small, response_parts) (rw e refl),
      ap₂ ◌∷◌
          (ap unpackresponse (drop-write_size (s + 5) body)
            ∙ read_piece session (take s msg) long h)
          r,
    )

response_whole_lem :
    (session : ℕ) (good : Bool) (msg : List ℕ)
    → session < 2 ^ 32
    → length msg ≤ multi_part
    → (p : List ℕ) × (response_whole session good msg ≡ some (p ∷ []))
      × (unpackresponse (drop 2 p) ≡ some (session, if good then final msg else error msg))
unfolding response_whole
response_whole_lem session true msg h le =
    let made = framed_lem (length msg + 5) (typed session 1 msg) (omega arith) in
    (
      write_size (length msg + 5) ++ typed session 1 msg,
      rw made refl,
      ap unpackresponse (drop-write_size (length msg + 5) (typed session 1 msg))
          ∙ read_final session 1 msg h (inl refl),
    )
response_whole_lem session false msg h le =
    let made = framed_lem (length msg + 5) (typed session 0 msg) (omega arith) in
    (
      write_size (length msg + 5) ++ typed session 0 msg,
      rw made refl,
      ap unpackresponse (drop-write_size (length msg + 5) (typed session 0 msg))
          ∙ read_error session msg h,
    )

-- An error response of any length is one package, from which the peer reads the session and the first
-- 32K of the error message.
pub unpackresponse-error :
    (session : ℕ) (msg : List ℕ)
    → session < 2 ^ 32
    → (p : List ℕ) × (packresponse session false msg ≡ some (p ∷ []))
      × (unpackresponse (drop 2 p) ≡ some (session, error (take multi_part msg)))
unpackresponse-error session msg h =
    let cut : (if ltb multi_part (length msg) then take multi_part msg else msg)
        ≡ take multi_part msg =
      elim (dec_lt multi_part (length msg)) [
        | yes long ↦ let t : ltb multi_part (length msg) ≡ true = ground arith in rw t refl
        | no short ↦
            let t : ltb multi_part (length msg) ≡ false = ground arith in
            rw t (sym (take_all multi_part msg (omega arith)))
      ] in
    let (p, e, r) =
      response_whole_lem session false (take multi_part msg) h
        (omega (arith, length-take multi_part msg)) in
    (p, unfold packresponse in rw cut e, r)

-- A response of more than 32K and less than 2^31 bytes is a first package with its size and parts; the
-- peer reads the session and the size, then the session with each piece in order, all but the last as
-- padding, and `lconcat` of the pieces is the message.
pub unpackresponse-parts :
    (session : ℕ) (msg : List ℕ)
    → session < 2 ^ 32
    → multi_part < length msg
    → length msg < 2 ^ 31
    → (first : List ℕ) × (ps : List (List ℕ)) × (packresponse session true msg ≡ some (first ∷ ps))
      × (unpackresponse (drop 2 first) ≡ some (session, begin (length msg)))
      × (answers ps
          ≡ map
              (λ (c : List ℕ × Bool). some (session, if c.1 then middle c.0 else final c.0))
              (pieces (part_count (length msg)) msg))
      × (concat (length msg) (texts (pieces (part_count (length msg)) msg)) ≡ some msg)
unpackresponse-parts session msg h long small =
    let sz = length msg in
    let t : ltb multi_part sz ≡ true = ground arith in
    let body = typed session 2 (fill_uint32 sz) in
    let made : framed 9 body ≡ some (write_size 9 ++ body) = framed_lem 9 body (omega arith) in
    let (ps, e, r) = response_parts-pieces (part_count sz) session msg h in
    (
      write_size 9 ++ body,
      ps,
      (unfold packresponse in rw (t, made, packresponse) (rw e refl)),
      ap unpackresponse (drop-write_size 9 body) ∙ read_begin session sz h (omega arith),
      r,
      concat-pieces msg small,
    )
