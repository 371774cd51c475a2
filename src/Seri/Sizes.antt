-- ===== src/Seri/Sizes.antt =====
-- skynet/lualib-src/lua-seri.c: the values of Lua, and what a packing of one consists of.
use skynet_athena.Seri.Pack.{
  both, pack_one, wb_array_size, wb_boolean, wb_integer, wb_nil, wb_pointer, wb_real, wb_string,
}
use skynet_athena.Seri.Blocks.{flatten, flatten-append}
use skynet_athena.Base.{
  List, Option, ap, append_assoc, arith, if◌then◌else◌, length, length-append, ltb, none, refl,
  some, ℕ, ◌++◌, ◌+◌, ◌<◌, ◌^◌, ◌∙◌, ◌≡◌, ◌≢◌,
}
use skynet_athena.Seri.Value.{
  Items, Pairs, Value, boolean, integer, item, max_depth, nil, no_items, no_pairs, other, pair,
  rawlen, real, str, table, userdata,
}

-- Values whose numbers and pointers are patterns of 64 bits, with strings and array parts of less
-- than 2^31, so that an `int` holds their lengths, and no key nil.
abbrev mutual
  pub IsLua : Value → Type 0
  IsLua nil = Unit
  IsLua (boolean b) = Unit
  IsLua (integer p) = p < 2 ^ 64
  IsLua (real p) = p < 2 ^ 64
  IsLua (str s) = length s < 2 ^ 31
  IsLua (userdata p) = p < 2 ^ 64
  IsLua (table xs ps) = (rawlen xs < 2 ^ 31) × AreLua xs × AreKeyed ps
  IsLua other = Unit

  pub AreLua : Items → Type 0
  AreLua no_items = Unit
  AreLua (item v xs) = IsLua v × AreLua xs

  pub AreKeyed : Pairs → Type 0
  AreKeyed no_pairs = Unit
  AreKeyed (pair k v ps) = (k ≢ nil) × IsLua k × IsLua v × AreKeyed ps

-- Both halves of a packing succeeded.
pub both-some :
    (x y : Option (List (List ℕ))) {ws : List (List ℕ)}
    → both x y ≡ some ws
    → (a : List (List ℕ)) × (b : List (List ℕ)) × (x ≡ some a) × (y ≡ some b) × (ws ≡ a ++ b)
both-some none y e = cc
both-some (some a) none e = cc
both-some (some a) (some b) e = (a, b, refl, refl, cc)

-- Every value takes a byte at least.
wb_integer_pos : (p : ℕ) → 0 < length (flatten (wb_integer p))
unfolding wb_integer
wb_integer_pos p = ground arith

pub wb_array_size_pos : (n : ℕ) → 0 < length (flatten (wb_array_size n))
unfolding wb_array_size
wb_array_size_pos n = ground arith

pub some-eq : {x y : List (List ℕ)} → some x ≡ some y → x ≡ y
some-eq e = cc

-- Below the depth limit a value is packed, above it nothing is.
pub within_depth :
    (depth : ℕ) (x : Option (List (List ℕ))) {ws : List (List ℕ)}
    → (if ltb max_depth depth then none else x) ≡ some ws
    → x ≡ some ws
within_depth depth x e = ground arith

-- `pack_one` begins with a tag, so it writes one byte at least.
pub pack_one_pos :
    (v : Value) (depth : ℕ) (ws : List (List ℕ))
    → pack_one v depth ≡ some ws
    → 0 < length (flatten ws)
unfolding pack_one
pack_one_pos nil depth ws e =
    rw (← some-eq (within_depth depth (some wb_nil) e)) (unfold wb_nil in omega arith)
pack_one_pos (boolean b) depth ws e =
    rw (← some-eq (within_depth depth (some (wb_boolean b)) e)) (unfold wb_boolean in omega arith)
pack_one_pos (integer p) depth ws e =
    rw (← some-eq (within_depth depth (some (wb_integer p)) e)) (wb_integer_pos p)
pack_one_pos (real p) depth ws e =
    rw (← some-eq (within_depth depth (some (wb_real p)) e)) (unfold wb_real in omega arith)
pack_one_pos (str s) depth ws e =
    rw (← some-eq (within_depth depth (some (wb_string s)) e)) (unfold wb_string in ground arith)
pack_one_pos (userdata p) depth ws e =
    rw (← some-eq (within_depth depth (some (wb_pointer p)) e)) (unfold wb_pointer in omega arith)
pack_one_pos (table xs ps) depth ws e =
    let (a, b, ea, eb, f) = both-some _ _ (within_depth depth _ e) in
    rw (f, ← some-eq ea)
      (omega (
        arith,
        wb_array_size_pos (rawlen xs),
        ap length (flatten-append (wb_array_size (rawlen xs)) b),
        length-append (flatten (wb_array_size (rawlen xs))) (flatten b),
      ))
pack_one_pos other depth ws e = cc

-- The bytes of two packings, one behind the other.
pub flatten-both :
    (a b : List (List ℕ)) (rest : List ℕ)
    → flatten (a ++ b) ++ rest ≡ flatten a ++ (flatten b ++ rest)
flatten-both a b rest =
    ap (λ l. l ++ rest) (flatten-append a b) ∙ append_assoc (flatten a) (flatten b) rest

pub length-both :
    (a b : List (List ℕ)) → length (flatten (a ++ b)) ≡ length (flatten a) + length (flatten b)
length-both a b = ap length (flatten-append a b) ∙ length-append (flatten a) (flatten b)
