-- ===== src/Seri/Tests.antt =====
-- Runs of the serialiser, and its theorems at concrete values.
use skynet_athena.Seri.Sizes.{IsLua}
use skynet_athena.Seri.Message.{luaseri_round_trip}
use skynet_athena.Seri.Unpack.{luaseri_unpack, ok}
use skynet_athena.Seri.Pack.{
  luaseri_pack, pack_from, pack_one, wb_array_size, wb_boolean, wb_integer, wb_nil, wb_string,
}
use skynet_athena.Seri.Blocks.{fill, gather, push_all, seri, seri-push_all, wb_init, wb_push}
use skynet_athena.Seri.Value.{
  Value, boolean, combine_type, integer, item, no_items, no_pairs, pair, str, table,
}
use skynet_athena.Base.{List, [], arith, refl, replicate, some, true, ℕ, ◌++◌, ◌-◌, ◌^◌, ◌∷◌, ◌≡◌}

-- { 1, "hi", k = -2 } with a nested empty table.
abbrev sample : Value
sample =
    table (item (integer 1) (item (str (104 ∷ 105 ∷ [])) (item (table no_items no_pairs) no_items)))
      (pair (str (107 ∷ [])) (integer (2 ^ 64 - 2)) no_pairs)

abbrev sample_bytes : List ℕ
sample_bytes = 30 ∷ 10 ∷ 1 ∷ 20 ∷ 104 ∷ 105 ∷ 6 ∷ 0 ∷ 12 ∷ 107 ∷ 34 ∷ 254 ∷ 255 ∷ 255 ∷ 255 ∷ 0 ∷ []

sample_packs : luaseri_pack (sample ∷ boolean true ∷ []) ≡ some (sample_bytes ++ (9 ∷ []))
unfolding luaseri_pack pack_from pack_one wb_array_size wb_integer wb_string wb_nil wb_boolean
    combine_type seri wb_init wb_push fill gather
sample_packs = refl

sample-IsLua : IsLua sample
sample-IsLua = (
  omega arith,
  (omega arith, (omega arith, ((omega arith, tt, tt), tt))),
  (λ e. cc e, omega arith, omega arith, tt),
)

-- The pieces that the writers push for the sample and a Boolean.
abbrev sample_pieces : List (List ℕ)
sample_pieces =
    (30 ∷ [])
    ∷ (10 ∷ [])
    ∷ (1 ∷ [])
    ∷ (20 ∷ [])
    ∷ (104 ∷ 105 ∷ [])
    ∷ (6 ∷ [])
    ∷ (0 ∷ [])
    ∷ (12 ∷ [])
    ∷ (107 ∷ [])
    ∷ (34 ∷ [])
    ∷ (254 ∷ 255 ∷ 255 ∷ 255 ∷ [])
    ∷ (0 ∷ [])
    ∷ (9 ∷ [])
    ∷ []

sample_from : pack_from (sample ∷ boolean true ∷ []) ≡ some sample_pieces
unfolding pack_from pack_one wb_array_size wb_integer wb_string wb_nil wb_boolean combine_type
sample_from = refl

luaseri_round_trip_example :
    (luaseri_pack (sample ∷ boolean true ∷ []) ≡ some (sample_bytes ++ (9 ∷ [])))
    × (luaseri_unpack (sample_bytes ++ (9 ∷ [])) ≡ ok (sample ∷ boolean true ∷ []))
luaseri_round_trip_example =
    luaseri_round_trip (sample ∷ boolean true ∷ []) sample_pieces (sample-IsLua, (tt, tt))
      sample_from (omega arith)

seri-push_all_example :
    seri (push_all wb_init (replicate 200 7 ∷ (1 ∷ 2 ∷ []) ∷ [])) ≡ replicate 200 7 ++ (1 ∷ 2 ∷ [])
seri-push_all_example = seri-push_all (replicate 200 7 ∷ (1 ∷ 2 ∷ []) ∷ []) (omega arith)
