-- ===== src/Cluster.antt =====
-- skynet/lualib-src/lua-cluster.c: requests and responses between nodes as length-prefixed packages. A
-- package longer than 32K goes in parts. A string is the list of its bytes; a 32-bit integer is its
-- pattern, so an `int` is negative from 2^31 on.
pub mod Words
pub mod Request
pub mod Parts
pub mod Response
mod Tests
use mathlib.Core.Option
use skynet_athena.Base.{
  Bool, List, Option, [], bit_and, bit_or, drop, false, get_or, if◌then◌else◌, leb, length, ltb,
  none, not, some, suc, take, true, zero, ℕ, ◌%◌, ◌*◌, ◌++◌, ◌+◌, ◌-◌, ◌/◌, ◌==◌, ◌^◌, ◌||◌, ◌∷◌,
}

abbrev pub multi_part : ℕ
multi_part = 0x8000

unfoldable pub fill_uint32 : ℕ → List ℕ
fill_uint32 n =
    bit_and n 0xff
    ∷ bit_and (n / 2 ^ 8) 0xff
    ∷ bit_and (n / 2 ^ 16) 0xff
    ∷ bit_and (n / 2 ^ 24) 0xff
    ∷ []

-- `none` is the failed assertion on the size.
unfoldable pub fill_header : ℕ → Option (List ℕ)
fill_header sz =
    if ltb sz 0x10000 then some (bit_and (sz / 2 ^ 8) 0xff ∷ bit_and sz 0xff ∷ []) else none

-- A package: the header for a size, and what is written behind it.
unfoldable pub framed : ℕ → List ℕ → Option (List ℕ)
framed sz body = Option.map (λ (h : List ℕ). h ++ body) (fill_header sz)

-- The number of parts of a message.
abbrev pub part_count : ℕ → ℕ
part_count sz = (sz - 1) / multi_part + 1

pub data Address : Type 0 where
  number : ℕ → Address
  name : List ℕ → Address

-- The package for a request, with the number of parts that follow.
unfoldable pub packreq_number : ℕ → ℕ → List ℕ → Bool → Option (List ℕ × ℕ)
packreq_number addr session msg is_push =
    let sz = length msg in
    if ltb sz multi_part
    then Option.map (λ (p : List ℕ). (p, 0))
        (framed (sz + 9)
          (0 ∷ (fill_uint32 addr ++ (fill_uint32 (if is_push then 0 else session) ++ msg))))
    else Option.map (λ (p : List ℕ). (p, part_count sz))
        (framed 13 (
          (if is_push then 0x41 else 1)
          ∷ (fill_uint32 addr ++ (fill_uint32 session ++ fill_uint32 sz))))

-- `none` is also the error for a name that is empty or longer than 255.
unfoldable pub packreq_string : List ℕ → ℕ → List ℕ → Bool → Option (List ℕ × ℕ)
packreq_string name' session msg is_push =
    let sz = length msg in
    let namelen = length name' in
    if ltb namelen 1 || ltb 255 namelen
    then none
    else if ltb sz multi_part
    then Option.map (λ (p : List ℕ). (p, 0))
        (framed (sz + 6 + namelen)
          (0x80 ∷ namelen ∷ (name' ++ (fill_uint32 (if is_push then 0 else session) ++ msg))))
    else Option.map (λ (p : List ℕ). (p, part_count sz))
        (framed (10 + namelen) (
          (if is_push then 0xc1 else 0x81)
          ∷ namelen
          ∷ (name' ++ (fill_uint32 session ++ fill_uint32 sz))))

-- The loop of `packreq_multi`, for `n` parts of what is left of the message.
unfoldable pub packreq_multi : ℕ → ℕ → List ℕ → Option (List (List ℕ))
packreq_multi zero session msg = some []
packreq_multi (suc n) session msg =
    let long = ltb multi_part (length msg) in
    let s = if long then multi_part else length msg in
    let rest = packreq_multi n session (drop s msg) in
    elim (framed (s + 5) ((if long then 2 else 3) ∷ (fill_uint32 session ++ take s msg))) [
      | none ↦ none
      | some p ↦ Option.map (λ (ps : List (List ℕ)). p ∷ ps) rest
    ]

-- The session for the next request.
unfoldable pub next_session : ℕ → ℕ
next_session session =
    let new_session = (session + 1) % 2 ^ 32 in
    if ltb (2 ^ 31 - 1) new_session then 1 else new_session

unfoldable pub packreq : Address → ℕ → List ℕ → Bool → Option (List ℕ × ℕ)
packreq (number n) session msg is_push = packreq_number (n % 2 ^ 32) session msg is_push
packreq (name s) session msg is_push = packreq_string s session msg is_push

-- `packrequest`: the package, the next session and the parts; `none` is an error. A message that is
-- `none` is NULL.
unfoldable pub packrequest :
    Address → ℕ → Option (List ℕ) → Bool → Option (List ℕ × ℕ × List (List ℕ))
packrequest addr session none is_push = none
packrequest addr session (some msg) is_push =
    if (session == 0) || leb (2 ^ 31) session
    then none
    else elim (packreq addr session msg is_push) [
      | none ↦ none
      | some (p, parts) ↦
          Option.map (λ (ps : List (List ℕ)). (p, next_session session, ps))
            (packreq_multi parts session msg)
    ]

-- `lpacktrace`.
unfoldable pub packtrace : List ℕ → Option (List ℕ)
packtrace tag = if ltb 0x8000 (length tag) then none else framed (length tag + 1) (4 ∷ tag)

-- The four bytes from an index on, as a little-endian number.
unfoldable pub unpack_uint32 : List ℕ → ℕ → ℕ
unpack_uint32 buf i =
    bit_or
      (bit_or (bit_or (get_or buf i 0) (get_or buf (i + 1) 0 * 2 ^ 8))
        (get_or buf (i + 2) 0 * 2 ^ 16))
      (get_or buf (i + 3) 0 * 2 ^ 24)

-- What `lunpackrequest` hands to Lua; an address, a session, a message, and the marks `padding` and
-- `is_push` where they are given.
pub data Unpacked : Type 0 where
  request : Address → ℕ → List ℕ → Bool → Unpacked
  multi : Address → ℕ → ℕ → Bool → Unpacked
  part : ℕ → List ℕ → Bool → Unpacked
  trace : List ℕ → Unpacked

unfoldable pub unpackreq_number : List ℕ → Option Unpacked
unpackreq_number buf =
    let session = unpack_uint32 buf 5 in
    if ltb (length buf) 9
    then none
    else some (request (number (unpack_uint32 buf 1)) session (drop 9 buf) (session == 0))

unfoldable pub unpackmreq_number : List ℕ → Bool → Option Unpacked
unpackmreq_number buf is_push =
    if not (length buf == 13)
    then none
    else some
        (multi (number (unpack_uint32 buf 1)) (unpack_uint32 buf 5) (unpack_uint32 buf 9) is_push)

unfoldable pub unpackmreq_part : List ℕ → Option Unpacked
unpackmreq_part buf =
    if ltb (length buf) 5
    then none
    else some (part (unpack_uint32 buf 1) (drop 5 buf) (get_or buf 0 0 == 2))

unfoldable pub unpackreq_string : List ℕ → Option Unpacked
unpackreq_string buf =
    let namesz = get_or buf 1 0 in
    let session = unpack_uint32 buf (namesz + 2) in
    if ltb (length buf) 2
    then none
    else if ltb (length buf) (namesz + 6)
    then none
    else some
        (request (name (take namesz (drop 2 buf))) session (drop (namesz + 6) buf) (session == 0))

unfoldable pub unpackmreq_string : List ℕ → Bool → Option Unpacked
unpackmreq_string buf is_push =
    let namesz = get_or buf 1 0 in
    if ltb (length buf) 2
    then none
    else if ltb (length buf) (namesz + 10)
    then none
    else some (
        multi (name (take namesz (drop 2 buf))) (unpack_uint32 buf (namesz + 2))
          (unpack_uint32 buf (namesz + 6)) is_push)

-- `lunpackrequest` on a package without its header; `none` is the error. The text that Lua passes ends
-- in a 0 byte, so an empty package has the type 0.
unfoldable pub unpackrequest : List ℕ → Option Unpacked
unpackrequest buf =
    let type = get_or buf 0 0 in
    if type == 0
    then unpackreq_number buf
    else if type == 1
    then unpackmreq_number buf false
    else if type == 0x41
    then unpackmreq_number buf true
    else if (type == 2) || (type == 3)
    then unpackmreq_part buf
    else if type == 4
    then some (trace (drop 1 buf))
    else if type == 0x80
    then unpackreq_string buf
    else if type == 0x81
    then unpackmreq_string buf false
    else if type == 0xc1
    then unpackmreq_string buf true
    else none

-- The loop of `lpackresponse` over the parts of a long message.
unfoldable pub response_parts : ℕ → ℕ → List ℕ → Option (List (List ℕ))
response_parts zero session msg = some []
response_parts (suc n) session msg =
    let long = ltb multi_part (length msg) in
    let s = if long then multi_part else length msg in
    let rest = response_parts n session (drop s msg) in
    elim (framed (s + 5) (fill_uint32 session ++ ((if long then 3 else 4) ∷ take s msg))) [
      | none ↦ none
      | some p ↦ Option.map (λ (ps : List (List ℕ)). p ∷ ps) rest
    ]

-- The end of `lpackresponse`, for a message in one package.
unfoldable pub response_whole : ℕ → Bool → List ℕ → Option (List (List ℕ))
response_whole session good msg =
    Option.map (λ (p : List ℕ). p ∷ [])
      (framed (length msg + 5) (fill_uint32 session ++ ((if good then 1 else 0) ∷ msg)))

-- `lpackresponse`; the message of an error is cut off.
unfoldable pub packresponse : ℕ → Bool → List ℕ → Option (List (List ℕ))
packresponse session good msg =
    let sz = length msg in
    if not good
    then response_whole session false (if ltb multi_part sz then take multi_part msg else msg)
    else if ltb multi_part sz
    then elim (framed 9 (fill_uint32 session ++ (2 ∷ fill_uint32 sz))) [
      | none ↦ none
      | some p ↦
          Option.map (λ (ps : List (List ℕ)). p ∷ ps) (response_parts (part_count sz) session msg)
    ]
    else response_whole session true msg

-- What `lunpackresponse` hands to Lua behind the session.
pub data Answer : Type 0 where
  error : List ℕ → Answer
  final : List ℕ → Answer
  begin : ℕ → Answer
  middle : List ℕ → Answer

unfoldable pub unpackresponse : List ℕ → Option (ℕ × Answer)
unpackresponse buf =
    let type = get_or buf 4 0 in
    let session = unpack_uint32 buf 0 in
    if ltb (length buf) 5
    then none
    else if type == 0
    then some (session, error (drop 5 buf))
    else if (type == 1) || (type == 4)
    then some (session, final (drop 5 buf))
    else if type == 2
    then (if not (length buf == 9) then none else some (session, begin (unpack_uint32 buf 5)))
    else if type == 3
    then some (session, middle (drop 5 buf))
    else none

-- The loop of `lconcat` over the strings of the table, with what is copied so far.
unfoldable pub concat_loop : ℕ → List ℕ → List (List ℕ) → Option (List ℕ)
concat_loop sz buff [] = if length buff == sz then some buff else none
concat_loop sz buff (s ∷ ss) =
    let rest = concat_loop sz (buff ++ s) ss in
    if ltb sz (length s + length buff) then none else rest

-- `lconcat`; the size is cut to an `int`, and a negative one is more than can be allocated.
unfoldable pub concat : ℕ → List (List ℕ) → Option (List ℕ)
concat sz ss =
    let sz' = sz % 2 ^ 32 in
    let joined = concat_loop sz' [] ss in if leb (2 ^ 31) sz' then none else joined
