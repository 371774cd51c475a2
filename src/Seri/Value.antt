-- ===== src/Seri/Value.antt =====
-- skynet/lualib-src/lua-seri.c: the values that it walks, its tags, and numbers as bytes.
use skynet_athena.Base.{
  Bool, List, [], bit_or, if◌then◌else◌, ltb, suc, zero, ℕ, ◌%◌, ◌*◌, ◌+◌, ◌-◌, ◌/◌, ◌^◌, ◌∷◌,
}

-- A Lua value as `lua_type` tells it apart. An integer, a pointer and a double are their 64-bit
-- patterns, a string its bytes. A table is its array part, in order, and its other pairs in the order
-- of `lua_next`; `other` is a value of a type that cannot be packed.
mutual
  pub data Value : Type 0 where
    nil : Value
    boolean : Bool → Value
    integer : ℕ → Value
    real : ℕ → Value
    str : List ℕ → Value
    userdata : ℕ → Value
    table : Items → Pairs → Value
    other : Value

  pub data Items : Type 0 where
    no_items : Items
    item : Value → Items → Items

  pub data Pairs : Type 0 where
    no_pairs : Pairs
    pair : Value → Value → Pairs → Pairs

-- `lua_rawlen`.
abbrev pub rawlen : Items → ℕ
rawlen no_items = 0
rawlen (item v xs) = suc (rawlen xs)

abbrev pub type_nil : ℕ
type_nil = 0

abbrev pub type_boolean : ℕ
type_boolean = 1

abbrev pub type_number : ℕ
type_number = 2

abbrev pub type_userdata : ℕ
type_userdata = 3

abbrev pub type_short_string : ℕ
type_short_string = 4

abbrev pub type_long_string : ℕ
type_long_string = 5

abbrev pub type_table : ℕ
type_table = 6

abbrev pub number_zero : ℕ
number_zero = 0

abbrev pub number_byte : ℕ
number_byte = 1

abbrev pub number_word : ℕ
number_word = 2

abbrev pub number_dword : ℕ
number_dword = 4

abbrev pub number_qword : ℕ
number_qword = 6

abbrev pub number_real : ℕ
number_real = 8

abbrev pub max_cookie : ℕ
max_cookie = 32

abbrev pub max_depth : ℕ
max_depth = 32

-- `COMBINE_TYPE`, stored in a `uint8_t`.
unfoldable pub combine_type : ℕ → ℕ → ℕ
combine_type t v = bit_or t (v * 2 ^ 3) % 2 ^ 8

-- `memcpy` of an integer of `k` bytes: the host is little-endian.
abbrev pub le_bytes : ℕ → ℕ → List ℕ
le_bytes zero n = []
le_bytes (suc k) n = (n % 256) ∷ le_bytes k (n / 256)

abbrev pub of_le : List ℕ → ℕ
of_le [] = 0
of_le (b ∷ bs) = b + 256 * of_le bs

-- The sign extension of a 32-bit pattern to 64 bits.
abbrev pub sign_extend : ℕ → ℕ
sign_extend n = if ltb n (2 ^ 31) then n else n + (2 ^ 64 - 2 ^ 32)
