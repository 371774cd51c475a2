-- ===== src/Seri/Pack.antt =====
-- skynet/lualib-src/lua-seri.c: packing. A function gives the buffers that it hands to `wb_push`, in
-- order; `none` is the error that Lua raises. A table with a `__pairs` metamethod is not modelled: the
-- C code then walks what that Lua function returns.
use mathlib.Core.Option
use skynet_athena.Base.{
  Bool, List, Option, [], if◌then◌else◌, leb, length, ltb, none, not, some, ℕ, ◌%◌, ◌++◌, ◌+◌, ◌-◌,
  ◌==◌, ◌^◌, ◌||◌, ◌∷◌,
}
use skynet_athena.Seri.Value.{
  Items, Pairs, Value, boolean, combine_type, integer, item, le_bytes, max_cookie, max_depth, nil,
  no_items, no_pairs, number_byte, number_dword, number_qword, number_real, number_word,
  number_zero, other, pair, rawlen, real, str, table, type_boolean, type_long_string, type_nil,
  type_number, type_short_string, type_table, type_userdata, userdata,
}
use skynet_athena.Seri.Blocks.{push_all, seri, wb_init}

unfoldable pub wb_nil : List (List ℕ)
wb_nil = (type_nil ∷ []) ∷ []

unfoldable pub wb_boolean : Bool → List (List ℕ)
wb_boolean b = (combine_type type_boolean (if b then 1 else 0) ∷ []) ∷ []

-- `v == (int32_t)v` on the 64-bit pattern.
abbrev pub fits_int32 : ℕ → Bool
fits_int32 p = ltb p (2 ^ 31) || leb (2 ^ 64 - 2 ^ 31) p

unfoldable pub wb_integer : ℕ → List (List ℕ)
wb_integer p =
    if p == 0
    then (combine_type type_number number_zero ∷ []) ∷ []
    else if not (fits_int32 p)
    then (combine_type type_number number_qword ∷ []) ∷ le_bytes 8 p ∷ []
    else if leb (2 ^ 63) p
    then (combine_type type_number number_dword ∷ []) ∷ le_bytes 4 (p % 2 ^ 32) ∷ []
    else if ltb p 0x100
    then (combine_type type_number number_byte ∷ []) ∷ le_bytes 1 p ∷ []
    else if ltb p 0x10000
    then (combine_type type_number number_word ∷ []) ∷ le_bytes 2 p ∷ []
    else (combine_type type_number number_dword ∷ []) ∷ le_bytes 4 p ∷ []

unfoldable pub wb_real : ℕ → List (List ℕ)
wb_real p = (combine_type type_number number_real ∷ []) ∷ le_bytes 8 p ∷ []

unfoldable pub wb_pointer : ℕ → List (List ℕ)
wb_pointer p = (type_userdata ∷ []) ∷ le_bytes 8 p ∷ []

unfoldable pub wb_string : List ℕ → List (List ℕ)
wb_string s =
    let len = length s in
    if ltb len max_cookie
    then (combine_type type_short_string len ∷ []) ∷ (if ltb 0 len then s ∷ [] else [])
    else if ltb len 0x10000
    then (combine_type type_long_string 2 ∷ []) ∷ le_bytes 2 len ∷ s ∷ []
    else (combine_type type_long_string 4 ∷ []) ∷ le_bytes 4 len ∷ s ∷ []

-- The head of a table in `wb_table_array`.
unfoldable pub wb_array_size : ℕ → List (List ℕ)
wb_array_size array_size =
    if leb (max_cookie - 1) array_size
    then (combine_type type_table (max_cookie - 1) ∷ []) ∷ wb_integer array_size
    else (combine_type type_table array_size ∷ []) ∷ []

abbrev pub both : Option (List (List ℕ)) → Option (List (List ℕ)) → Option (List (List ℕ))
both none y = none
both (some x) none = none
both (some x) (some y) = some (x ++ y)

-- `pack_one` with `wb_table`, its array loop and its hash loop. `wb_table` packs the parts of a table
-- one level deeper.
unfoldable mutual
  pub pack_one : Value → ℕ → Option (List (List ℕ))
  pack_one nil depth = if ltb max_depth depth then none else some wb_nil
  pack_one (boolean b) depth = if ltb max_depth depth then none else some (wb_boolean b)
  pack_one (integer p) depth = if ltb max_depth depth then none else some (wb_integer p)
  pack_one (real p) depth = if ltb max_depth depth then none else some (wb_real p)
  pack_one (str s) depth = if ltb max_depth depth then none else some (wb_string s)
  pack_one (userdata p) depth = if ltb max_depth depth then none else some (wb_pointer p)
  pack_one (table xs ps) depth =
      if ltb max_depth depth
      then none
      else both (some (wb_array_size (rawlen xs)))
          (both (pack_items xs (depth + 1)) (pack_pairs ps (depth + 1)))
  pack_one other depth = none

  pub pack_items : Items → ℕ → Option (List (List ℕ))
  pack_items no_items depth = some []
  pack_items (item v xs) depth = both (pack_one v depth) (pack_items xs depth)

  pub pack_pairs : Pairs → ℕ → Option (List (List ℕ))
  pack_pairs no_pairs depth = some wb_nil
  pack_pairs (pair k v ps) depth =
      both (both (pack_one k depth) (pack_one v depth)) (pack_pairs ps depth)

-- `pack_from`: the arguments one behind the other.
unfoldable pub pack_from : List Value → Option (List (List ℕ))
pack_from [] = some []
pack_from (v ∷ vs) = both (pack_one v 0) (pack_from vs)

-- `luaseri_pack`: the bytes of the message.
unfoldable pub luaseri_pack : List Value → Option (List ℕ)
luaseri_pack vs = Option.map (λ ws. seri (push_all wb_init ws)) (pack_from vs)
