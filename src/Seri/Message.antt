-- ===== src/Seri/Message.antt =====
-- skynet/lualib-src/lua-seri.c: whole messages, and a length that the reader trusts.
use skynet_athena.Seri.Sizes.{IsLua, both-some, length-both, pack_one_pos, some-eq}
use skynet_athena.Seri.RoundTrip.{one-round}
use skynet_athena.Seri.Scalars.{unpack_tag}
use skynet_athena.Seri.Numbers.{read_dword}
use skynet_athena.Seri.Unpack.{
  fault, get_buffer, get_long_string, luaseri_unpack, ok, push_value, unpack_all, unpack_one, ◌>>=◌,
}
use skynet_athena.Seri.Pack.{luaseri_pack, pack_from, pack_one}
use skynet_athena.Seri.Blocks.{flatten, flatten-append, seri-push_all}
use skynet_athena.Seri.Value.{Value, combine_type, le_bytes, type_long_string}
use skynet_athena.Base.{
  List, [], ap, arith, false, leb, length, refl, some, suc, sym, take_all, true, zero, ℕ, ◌%◌, ◌++◌,
  ◌+◌, ◌-◌, ◌<◌, ◌^◌, ◌∙◌, ◌∷◌, ◌≡◌, ◌≤◌,
}

abbrev pub AllLua : List Value → Type 0
AllLua [] = Unit
AllLua (v ∷ vs) = IsLua v × AllLua vs

unpack_all-step :
    (fuel : ℕ) (bs : List ℕ) (v : Value) (rest : List ℕ)
    → 0 < length bs
    → unpack_one (length bs) bs ≡ ok (v, rest)
    → unpack_all (suc fuel) bs ≡ (unpack_all fuel rest >>= λ vs. ok (v ∷ vs))
unfolding unpack_all
unpack_all-step fuel [] v rest h e = absurd (omega arith)
unpack_all-step fuel (b ∷ bs) v rest h e = rw e refl

message-round :
    (vs : List Value) (ws : List (List ℕ)) (fuel : ℕ)
    → AllLua vs
    → pack_from vs ≡ some ws
    → length (flatten ws) < fuel
    → unpack_all fuel (flatten ws) ≡ ok vs
unfolding pack_from
message-round vs ws zero g e h = absurd (omega arith)
message-round [] ws (suc fuel) g e h =
    ap (λ w. unpack_all (suc fuel) (flatten w)) (sym (some-eq e)) ∙ unfold unpack_all in refl
message-round (v ∷ vs) ws (suc fuel) g e h =
    let (a, b, ea, eb, f) = both-some (pack_one v 0) (pack_from vs) e in
    let pos = pack_one_pos v 0 a ea in
    let total : length (flatten ws) ≡ length (flatten a) + length (flatten b) =
      ap (λ w. length (flatten w)) f ∙ length-both a b in
    let bytes = flatten a ++ flatten b in
    let same : flatten ws ≡ bytes = ap flatten f ∙ flatten-append a b in
    let count : length bytes ≡ suc (length bytes - 1) = omega (arith, ap length same) in
    let one : unpack_one (length bytes) bytes ≡ ok (v, flatten b) =
      ap (λ n. unpack_one n bytes) count
      ∙ one-round v 0 a (length bytes - 1) g.0 ea (omega (arith, ap length same)) (flatten b) in
    ap (unpack_all (suc fuel)) same
    ∙ unpack_all-step fuel bytes v (flatten b) (omega (arith, ap length same)) one
    ∙ rw (message-round vs b fuel g.1 eb (omega arith)) refl

-- Lua values whose strings and array parts are shorter than 2^31, which pack without an error into less
-- than 2^31 bytes: `luaseri_pack` makes these bytes, and `luaseri_unpack` of them gives back the values.
pub luaseri_round_trip :
    (vs : List Value) (ws : List (List ℕ))
    → AllLua vs
    → pack_from vs ≡ some ws
    → length (flatten ws) < 2 ^ 31
    → (luaseri_pack vs ≡ some (flatten ws)) × (luaseri_unpack (flatten ws) ≡ ok vs)
unfolding luaseri_pack luaseri_unpack
luaseri_round_trip vs ws g f few =
    let bs = flatten ws in
    let len : length bs % 2 ^ 32 ≡ length bs = omega arith in
    let positive : leb (2 ^ 31) (length bs) ≡ false = ground arith in
    (
      rw f (ap some (seri-push_all ws few)),
      rw (len, positive)
          (ap (unpack_all (suc (length bs))) (take_all (length bs) bs (omega arith))
            ∙ message-round vs ws (suc (length bs)) g f (omega arith)),
    )

-- A stream whose long string claims 2^31 bytes or more makes `get_buffer` go on with a negative
-- `int`: the check on the bytes that are left does not stop it.
pub long_string_fault :
    (fuel len : ℕ) (rest : List ℕ)
    → 2 ^ 31 ≤ len
    → len < 2 ^ 32
    → unpack_one (suc fuel) (combine_type type_long_string 4 ∷ (le_bytes 4 len ++ rest)) ≡ fault
unfolding push_value get_long_string get_buffer
long_string_fault fuel len rest lo hi =
    let negative : leb (2 ^ 31) len ≡ true = ground arith in
    unpack_tag fuel type_long_string 4 (le_bytes 4 len ++ rest) (omega arith) (omega arith)
    ∙ rw (read_dword len rest hi) (rw negative refl)
