-- ===== src/Seri/Unpack.antt =====
-- skynet/lualib-src/lua-seri.c: unpacking.
use skynet_athena.Base.{
  List, [], bit_and, drop, get_or, if◌then◌else◌, leb, length, ltb, not, suc, take, zero, ℕ, ◌%◌,
  ◌-◌, ◌/◌, ◌==◌, ◌^◌, ◌||◌, ◌∷◌,
}
use skynet_athena.Seri.Value.{
  Items, Pairs, Value, boolean, integer, item, max_cookie, nil, no_items, no_pairs, number_byte,
  number_dword, number_qword, number_real, number_word, number_zero, of_le, pair, real, sign_extend,
  str, table, type_boolean, type_long_string, type_nil, type_number, type_short_string, type_table,
  type_userdata, userdata,
}

-- `invalid` is the error `Invalid serialize stream`; `fault` is a string whose
-- length is negative as an `int`: the read position goes back, and `lua_pushlstring` gets a `size_t`
-- near 2^64.
pub data Result (A : Type 0) : Type 0 where
  ok : A → Result A
  invalid : Result A
  fault : Result A

infixl 5 ◌>>=◌
abbrev pub ◌>>=◌ : {A B : Type 0} → Result A → (A → Result B) → Result B
ok a >>= f = f a
invalid >>= f = invalid
fault >>= f = fault

-- `rb_read` and the test for NULL; the bytes read and those left.
unfoldable pub rb_read : ℕ → List ℕ → Result (List ℕ × List ℕ)
rb_read sz bs = if ltb (length bs) sz then invalid else ok (take sz bs, drop sz bs)

-- An integer of `k` bytes.
unfoldable pub read_le : ℕ → List ℕ → Result (ℕ × List ℕ)
unfolding rb_read
read_le k bs = do (raw, rest) ← rb_read k bs; ok (of_le raw, rest)

unfoldable pub get_integer : ℕ → List ℕ → Result (ℕ × List ℕ)
get_integer cookie bs =
    if cookie == number_zero
    then ok (0, bs)
    else if cookie == number_byte
    then read_le 1 bs
    else if cookie == number_word
    then read_le 2 bs
    else if cookie == number_dword
    then (read_le 4 bs >>= λ ((n, rest) : ℕ × List ℕ). ok (sign_extend n, rest))
    else if cookie == number_qword
    then read_le 8 bs
    else invalid

-- `get_buffer`; the length arrives as an `int`.
unfoldable pub get_buffer : ℕ → List ℕ → Result (Value × List ℕ)
get_buffer len bs =
    if leb (2 ^ 31) len
    then fault
    else (rb_read len bs >>= λ ((raw, rest) : List ℕ × List ℕ). ok (str raw, rest))

unfoldable pub get_long_string : ℕ → List ℕ → Result (Value × List ℕ)
get_long_string cookie bs =
    if cookie == 2
    then (read_le 2 bs >>= λ ((n, rest) : ℕ × List ℕ). get_buffer n rest)
    else if not (cookie == 4)
    then invalid
    else (read_le 4 bs >>= λ ((n, rest) : ℕ × List ℕ). get_buffer n rest)

-- The number of array entries, an `int`; a negative one makes no round.
abbrev pub to_count : ℕ → ℕ
to_count p = if ltb (p % 2 ^ 32) (2 ^ 31) then p % 2 ^ 32 else 0

unfoldable pub get_array_size : ℕ → List ℕ → Result (ℕ × List ℕ)
get_array_size cookie bs =
    if cookie == max_cookie - 1
    then (rb_read 1 bs >>= λ ((raw, rest) : List ℕ × List ℕ).
        let type = get_or raw 0 0 in
        let inner = type / 2 ^ 3 in
        if not (bit_and type 7 == type_number) || (inner == number_real)
        then invalid
        else (get_integer inner rest >>= λ ((p, rest') : ℕ × List ℕ). ok (to_count p, rest')))
    else ok (cookie, bs)

-- The loops of `unpack_table`, over a reader for one value.
module _ (one : List ℕ → Result (Value × List ℕ)) where
  unfoldable pub unpack_items : ℕ → List ℕ → Result (Items × List ℕ)
  unpack_items zero bs = ok (no_items, bs)
  unpack_items (suc k) bs = one bs >>= λ ((v, rest) : Value × List ℕ).
      (unpack_items k rest >>= λ ((xs, rest') : Items × List ℕ). ok (item v xs, rest'))

  -- `for (;;)` on fuel: a round reads two bytes at least.
  unfoldable pub unpack_pairs : ℕ → List ℕ → Result (Pairs × List ℕ)
  unpack_pairs zero bs = invalid
  unpack_pairs (suc fuel) bs = one bs >>= λ ((k, rest) : Value × List ℕ). elim k [
    | nil ↦ ok (no_pairs, rest)
    | key ↦
        (one rest >>= λ ((v, rest') : Value × List ℕ).
        (unpack_pairs fuel rest' >>= λ ((ps, rest'') : Pairs × List ℕ). ok (pair key v ps, rest'')))
  ]

  unfoldable pub unpack_table : ℕ → List ℕ → Result (Value × List ℕ)
  unpack_table cookie bs = get_array_size cookie bs >>= λ ((n, rest) : ℕ × List ℕ).
      (unpack_items n rest >>= λ ((xs, rest') : Items × List ℕ).
      (unpack_pairs (suc (length rest')) rest' >>= λ ((ps, rest'') : Pairs × List ℕ).
      ok (table xs ps, rest'')))

  unfoldable pub push_value : ℕ → ℕ → List ℕ → Result (Value × List ℕ)
  push_value type cookie bs =
      if type == type_nil
      then ok (nil, bs)
      else if type == type_boolean
      then ok (boolean (not (cookie == 0)), bs)
      else if type == type_number
      then (if cookie == number_real
          then (read_le 8 bs >>= λ ((p, rest) : ℕ × List ℕ). ok (real p, rest))
          else (get_integer cookie bs >>= λ ((p, rest) : ℕ × List ℕ). ok (integer p, rest)))
      else if type == type_userdata
      then (read_le 8 bs >>= λ ((p, rest) : ℕ × List ℕ). ok (userdata p, rest))
      else if type == type_short_string
      then get_buffer cookie bs
      else if type == type_long_string
      then get_long_string cookie bs
      else if type == type_table
      then unpack_table cookie bs
      else invalid

-- `unpack_one`; the fuel bounds the nesting of tables, and each level reads one byte at least.
unfoldable pub unpack_one : ℕ → List ℕ → Result (Value × List ℕ)
unpack_one zero bs = invalid
unpack_one (suc fuel) bs = rb_read 1 bs >>= λ ((raw, rest) : List ℕ × List ℕ).
    push_value (unpack_one fuel) (bit_and (get_or raw 0 0) 7) (get_or raw 0 0 / 2 ^ 3) rest

-- The loop of `luaseri_unpack`: it ends where no byte is left.
unfoldable pub unpack_all : ℕ → List ℕ → Result (List Value)
unpack_all zero bs = invalid
unpack_all (suc fuel) [] = ok []
unpack_all (suc fuel) (b ∷ bs) =
    unpack_one (suc (length bs)) (b ∷ bs) >>= λ ((v, rest) : Value × List ℕ).
    (unpack_all fuel rest >>= λ vs. ok (v ∷ vs))

-- `luaseri_unpack` of a buffer that is not NULL. The size is cut to an `int`; `rb_read` finds nothing
-- where it is negative.
unfoldable pub luaseri_unpack : List ℕ → Result (List Value)
luaseri_unpack bs =
    let len = length bs % 2 ^ 32 in
    let values = unpack_all (suc len) (take len bs) in if leb (2 ^ 31) len then ok [] else values
