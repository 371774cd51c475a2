-- ===== src/Cluster/Parts.antt =====
-- skynet/lualib-src/lua-cluster.c: a request that is sent in parts, put together again.
use skynet_athena.Cluster.{
  Unpacked, concat, concat_loop, fill_uint32, multi_part, part_count, unpackrequest,
}
use skynet_athena.Base.{
  Bool, List, Option, [], ap, append-nil, append_assoc, arith, drop, false, if◌then◌else◌, leb,
  length, length-append, length-drop, length-take, ltb, map, min, some, suc, sym, take,
  take-append-drop, true, zero, ℕ, ◌%◌, ◌*◌, ◌++◌, ◌+◌, ◌-◌, ◌<◌, ◌==◌, ◌^◌, ◌∙◌, ◌∷◌, ◌≡◌, ◌≤◌,
}

-- The pieces of a message, `n` of them, each with the mark that more follow.
unfoldable pub pieces : ℕ → List ℕ → List (List ℕ × Bool)
pieces zero msg = []
pieces (suc n) msg =
    let long = ltb multi_part (length msg) in
    let s = if long then multi_part else length msg in (take s msg, long) ∷ pieces n (drop s msg)

abbrev pub texts : List (List ℕ × Bool) → List (List ℕ)
texts cs = map (λ (c : List ℕ × Bool). c.0) cs

-- What the peer reads from packages, each without its header.
abbrev pub received : List (List ℕ) → List (Option Unpacked)
received ps = map (λ (w : List ℕ). unpackrequest (drop 2 w)) ps

part_body : ℕ → List ℕ → Bool → List ℕ
part_body session c long = (if long then 2 else 3) ∷ (fill_uint32 session ++ c)

-- How much of a message goes into one part.
abbrev pub piece_size : List ℕ → ℕ
piece_size msg = if ltb multi_part (length msg) then multi_part else length msg

pub piece_size-le : (msg : List ℕ) → piece_size msg ≤ multi_part
piece_size-le msg = ground arith

piece_left :
    (n : ℕ) (msg : List ℕ)
    → length msg ≤ suc n * multi_part
    → length msg - piece_size msg ≤ n * multi_part
piece_left n msg h = ground arith

concat_loop-pieces :
    (n sz : ℕ) (msg buff : List ℕ)
    → length msg ≤ n * multi_part
    → sz ≡ length buff + length msg
    → concat_loop sz buff (texts (pieces n msg)) ≡ some (buff ++ msg)
unfolding concat_loop pieces
concat_loop-pieces zero sz [] buff h e =
    let t : (length buff == sz) ≡ true = ground arith in rw t (ap some (sym (append-nil buff)))
concat_loop-pieces zero sz (b ∷ msg) buff h e = absurd (omega arith)
concat_loop-pieces (suc n) sz msg buff h e =
    let s = piece_size msg in
    let len : length (take s msg) ≡ min s (length msg) = length-take s msg in
    let t : ltb sz (length (take s msg) + length buff) ≡ false = ground (arith, len) in
    let less : length (drop s msg) ≤ n * multi_part =
      omega (arith, length-drop s msg, piece_left n msg h) in
    rw t (
      concat_loop-pieces n sz (drop s msg) (buff ++ take s msg) less
        (omega (arith, len, length-drop s msg, length-append buff (take s msg)))
      ∙ ap some (
          append_assoc buff (take s msg) (drop s msg)
          ∙ ap (λ t. buff ++ t) (take-append-drop s msg)))

part_count_enough : (sz : ℕ) → sz ≤ part_count sz * multi_part
part_count_enough sz = omega arith

-- The pieces of a message, as many as it has parts, are the message again.
pub concat-pieces :
    (msg : List ℕ)
    → length msg < 2 ^ 31
    → concat (length msg) (texts (pieces (part_count (length msg)) msg)) ≡ some msg
unfolding concat
concat-pieces msg small =
    let whole : length msg % 2 ^ 32 ≡ length msg = omega arith in
    let positive : leb (2 ^ 31) (length msg) ≡ false = ground arith in
    rw (whole, positive)
      (concat_loop-pieces (part_count (length msg)) (length msg) msg []
        (part_count_enough (length msg)) (omega arith))

multi_body : ℕ → ℕ → ℕ → Bool → List ℕ
multi_body n session sz is_push =
    (if is_push then 0x41 else 1) ∷ (fill_uint32 n ++ (fill_uint32 session ++ fill_uint32 sz))
