-- ===== src/Seri/RoundTrip.antt =====
-- skynet/lualib-src/lua-seri.c: reading back what is written for values and tables.
use skynet_athena.Seri.Sizes.{
  AreKeyed, AreLua, IsLua, both-some, flatten-both, length-both, pack_one_pos, some-eq,
  wb_array_size_pos, within_depth,
}
use skynet_athena.Seri.Scalars.{
  ReadsBack, boolean-ReadsBack, integer-ReadsBack, nil-ReadsBack, real-ReadsBack, str-ReadsBack,
  unpack_tag, userdata-ReadsBack,
}
use skynet_athena.Seri.Numbers.{rb_read-append, tag_fields, wb_integer-Reads}
use skynet_athena.Seri.Unpack.{
  Result, get_array_size, ok, push_value, to_count, unpack_items, unpack_one, unpack_pairs,
  unpack_table, ◌>>=◌,
}
use skynet_athena.Seri.Pack.{both, pack_items, pack_one, pack_pairs, wb_array_size, wb_nil}
use skynet_athena.Seri.Blocks.{flatten}
use skynet_athena.Base.{
  List, [], ap, arith, dec_le, false, leb, length, length-append, refl, some, subst, suc, sym, true,
  zero, ℕ, ◌++◌, ◌+◌, ◌-◌, ◌<◌, ◌==◌, ◌^◌, ◌∙◌, ◌∷◌, ◌≡◌, ◌≢◌, ◌≤◌,
}
use skynet_athena.Seri.Value.{
  Items, Pairs, Value, boolean, combine_type, integer, item, max_cookie, nil, no_items, no_pairs,
  number_real, other, pair, rawlen, real, str, table, type_number, type_table, userdata,
}

-- The head of a table reads back as the number of its array entries.
array_size-Reads :
    (n : ℕ)
    → n < 2 ^ 31
    → (cookie : ℕ) × (raw : List ℕ) × (flatten (wb_array_size n)
        ≡ combine_type type_table cookie ∷ raw)
      × (cookie < 32)
      × ((rest : List ℕ) → get_array_size cookie (raw ++ rest) ≡ ok (n, rest))
unfolding wb_array_size get_array_size
array_size-Reads n h = elim (dec_le (max_cookie - 1) n) [
  | no few ↦
      let few' : leb (max_cookie - 1) n ≡ false = ground arith in
      (n, [], rw few' refl, omega arith, λ rest. ground arith)
  | yes many ↦
      let many' : leb (max_cookie - 1) n ≡ true = ground arith in
      let (cookie, raw, e, small, reads) = wb_integer-Reads n (omega arith) in
      (
        max_cookie - 1,
        combine_type type_number cookie ∷ raw,
        rw many' (ap (◌∷◌ (combine_type type_table (max_cookie - 1))) e),
        omega arith,
        λ rest.
            let (type, inner) = tag_fields type_number cookie (omega arith) (omega arith) in
            let not_real : (cookie == number_real) ≡ false = ground arith in
            let count : to_count n ≡ n = ground arith in
            rw (rb_read-append 1 (combine_type type_number cookie ∷ []) (raw ++ rest) refl)
              (rw (type, inner, not_real, reads rest) (ap (λ k. ok (k, rest)) count)),
      )
]

not_nil :
    (one : List ℕ → Result (Value × List ℕ)) (k : Value) (fuel : ℕ) (bs rest : List ℕ)
    → k ≢ nil
    → one bs ≡ ok (k, rest)
    → unpack_pairs one (suc fuel) bs ≡ (
        one rest >>= λ ((v, rest') : Value × List ℕ).
        (unpack_pairs one fuel rest' >>= λ ((ps, rest'') : Pairs × List ℕ).
        ok (pair k v ps, rest'')))
unfolding unpack_pairs
not_nil one nil fuel bs rest ne e = absurd (ne refl)
not_nil one (boolean b) fuel bs rest ne e = rw e refl
not_nil one (integer p) fuel bs rest ne e = rw e refl
not_nil one (real p) fuel bs rest ne e = rw e refl
not_nil one (str s) fuel bs rest ne e = rw e refl
not_nil one (userdata p) fuel bs rest ne e = rw e refl
not_nil one (table xs ps) fuel bs rest ne e = rw e refl
not_nil one other fuel bs rest ne e = rw e refl

-- A table from its three parts.
table-ReadsBack :
    (fuel : ℕ) (xs : Items) (ps : Pairs) (wx wp : List (List ℕ))
    → rawlen xs < 2 ^ 31
    → ((rest : List ℕ)
        → unpack_items (unpack_one fuel) (rawlen xs) (flatten wx ++ rest) ≡ ok (xs, rest))
    → ((k : ℕ) (rest : List ℕ)
        → length (flatten wp) ≤ k
        → unpack_pairs (unpack_one fuel) k (flatten wp ++ rest) ≡ ok (ps, rest))
    → ReadsBack fuel (wb_array_size (rawlen xs) ++ (wx ++ wp)) (table xs ps)
unfolding push_value unpack_table
table-ReadsBack fuel xs ps wx wp h items pairs rest =
    let (cookie, raw, e, small, reads) = array_size-Reads (rawlen xs) h in
    let body = flatten wx ++ (flatten wp ++ rest) in
    ap (unpack_one (suc fuel)) (
      flatten-both (wb_array_size (rawlen xs)) (wx ++ wp) rest
      ∙ ap (λ l. l ++ (flatten (wx ++ wp) ++ rest)) e
      ∙ ap (λ l. (combine_type type_table cookie ∷ raw) ++ l) (flatten-both wx wp rest))
    ∙ unpack_tag fuel type_table cookie (raw ++ body) (omega arith) small
    ∙ rw (reads body) (
        rw (items (flatten wp ++ rest)) (
          rw
            (pairs (suc (length (flatten wp ++ rest))) rest
              (omega (arith, length-append (flatten wp) rest)))
            refl))

ends :
    (one : List ℕ → Result (Value × List ℕ)) (fuel : ℕ) (bs rest : List ℕ)
    → one bs ≡ ok (nil, rest)
    → unpack_pairs one (suc fuel) bs ≡ ok (no_pairs, rest)
unfolding unpack_pairs
ends one fuel bs rest e = rw e refl

length-wb_nil : length (flatten wb_nil) ≡ 1
unfolding wb_nil
length-wb_nil = refl

mutual
  unfolding pack_one unpack_items

  pub one-round :
      (v : Value) (depth : ℕ) (ws : List (List ℕ)) (fuel : ℕ)
      → IsLua v
      → pack_one v depth ≡ some ws
      → length (flatten ws) ≤ suc fuel
      → ReadsBack fuel ws v
  one-round nil depth ws fuel g e h =
      subst (λ w. ReadsBack fuel w nil) (some-eq (within_depth depth _ e)) (nil-ReadsBack fuel)
  one-round (boolean b) depth ws fuel g e h =
      subst (λ w. ReadsBack fuel w (boolean b)) (some-eq (within_depth depth _ e))
        (boolean-ReadsBack fuel b)
  one-round (integer p) depth ws fuel g e h =
      subst (λ w. ReadsBack fuel w (integer p)) (some-eq (within_depth depth _ e))
        (integer-ReadsBack fuel p g)
  one-round (real p) depth ws fuel g e h =
      subst (λ w. ReadsBack fuel w (real p)) (some-eq (within_depth depth _ e))
        (real-ReadsBack fuel p g)
  one-round (str s) depth ws fuel g e h =
      subst (λ w. ReadsBack fuel w (str s)) (some-eq (within_depth depth _ e))
        (str-ReadsBack fuel s g)
  one-round (userdata p) depth ws fuel g e h =
      subst (λ w. ReadsBack fuel w (userdata p)) (some-eq (within_depth depth _ e))
        (userdata-ReadsBack fuel p g)
  one-round (table xs ps) depth ws fuel g e h =
      let (a, b, ea, eb, f) =
        both-some (some (wb_array_size (rawlen xs)))
          (both (pack_items xs (depth + 1)) (pack_pairs ps (depth + 1)))
          (within_depth depth
            (both (some (wb_array_size (rawlen xs)))
              (both (pack_items xs (depth + 1)) (pack_pairs ps (depth + 1))))
            e) in
      let (wx, wp, ex, ep, f') =
        both-some (pack_items xs (depth + 1)) (pack_pairs ps (depth + 1)) eb in
      let whole : wb_array_size (rawlen xs) ++ (wx ++ wp) ≡ ws = cc (f, f', some-eq ea) in
      let total : length (flatten wx) + length (flatten wp) ≤ fuel = omega (
        arith,
        ap (λ w. length (flatten w)) whole,
        length-both (wb_array_size (rawlen xs)) (wx ++ wp),
        length-both wx wp,
        wb_array_size_pos (rawlen xs),
      ) in
      subst (λ w. ReadsBack fuel w (table xs ps)) whole
        (table-ReadsBack fuel xs ps wx wp g.0
          (items-round xs (depth + 1) wx fuel g.1 ex (omega arith))
          (pairs-round ps (depth + 1) wp fuel g.2 ep (omega arith)))
  one-round other depth ws fuel g e h = cc

  items-round :
      (xs : Items) (depth : ℕ) (ws : List (List ℕ)) (fuel : ℕ)
      → AreLua xs
      → pack_items xs depth ≡ some ws
      → length (flatten ws) ≤ fuel
      → (rest : List ℕ)
      → unpack_items (unpack_one fuel) (rawlen xs) (flatten ws ++ rest) ≡ ok (xs, rest)
  items-round no_items depth ws fuel g e h rest =
      ap (λ w. ok (no_items, flatten w ++ rest)) (sym (some-eq e))
  items-round (item v xs) depth ws zero g e h rest =
      let (a, b, ea, eb, f) = both-some (pack_one v depth) (pack_items xs depth) e in
      absurd
        (omega (arith, pack_one_pos v depth a ea, ap (λ w. length (flatten w)) f, length-both a b))
  items-round (item v xs) depth ws (suc fuel) g e h rest =
      let (a, b, ea, eb, f) = both-some (pack_one v depth) (pack_items xs depth) e in
      let total : length (flatten a) + length (flatten b) ≤ suc fuel =
        omega (arith, ap (λ w. length (flatten w)) f, length-both a b) in
      ap (unpack_items (unpack_one (suc fuel)) (suc (rawlen xs)))
        (ap (λ w. flatten w ++ rest) f ∙ flatten-both a b rest)
      ∙ rw (one-round v depth a fuel g.0 ea (omega arith) (flatten b ++ rest))
          (rw (items-round xs depth b (suc fuel) g.1 eb (omega arith) rest) refl)

  pairs-round :
      (ps : Pairs) (depth : ℕ) (ws : List (List ℕ)) (fuel : ℕ)
      → AreKeyed ps
      → pack_pairs ps depth ≡ some ws
      → length (flatten ws) ≤ fuel
      → (k : ℕ) (rest : List ℕ) → length (flatten ws) ≤ k
      → unpack_pairs (unpack_one fuel) k (flatten ws ++ rest) ≡ ok (ps, rest)
  pairs-round no_pairs depth ws zero g e h k rest hk =
      absurd (omega (arith, ap (λ w. length (flatten w)) (some-eq e), length-wb_nil))
  pairs-round no_pairs depth ws (suc fuel) g e h zero rest hk =
      absurd (omega (arith, ap (λ w. length (flatten w)) (some-eq e), length-wb_nil))
  pairs-round no_pairs depth ws (suc fuel) g e h (suc k) rest hk =
      ap (λ w. unpack_pairs (unpack_one (suc fuel)) (suc k) (flatten w ++ rest)) (sym (some-eq e))
      ∙ ends (unpack_one (suc fuel)) k (flatten wb_nil ++ rest) rest (nil-ReadsBack fuel rest)
  pairs-round (pair key v ps) depth ws fuel g e h zero rest hk =
      let (kv, b, ekv, eb, f) =
        both-some (both (pack_one key depth) (pack_one v depth)) (pack_pairs ps depth) e in
      let (a, c, ea, ec, f') = both-some (pack_one key depth) (pack_one v depth) ekv in
      absurd (
        omega (
          arith,
          pack_one_pos key depth a ea,
          ap (λ w. length (flatten w)) f,
          ap (λ w. length (flatten w)) f',
          length-both kv b,
          length-both a c,
        ))
  pairs-round (pair key v ps) depth ws zero g e h (suc k) rest hk =
      let (kv, b, ekv, eb, f) =
        both-some (both (pack_one key depth) (pack_one v depth)) (pack_pairs ps depth) e in
      let (a, c, ea, ec, f') = both-some (pack_one key depth) (pack_one v depth) ekv in
      absurd (
        omega (
          arith,
          pack_one_pos key depth a ea,
          ap (λ w. length (flatten w)) f,
          ap (λ w. length (flatten w)) f',
          length-both kv b,
          length-both a c,
        ))
  pairs-round (pair key v ps) depth ws (suc fuel) g e h (suc k) rest hk =
      let (kv, b, ekv, eb, f) =
        both-some (both (pack_one key depth) (pack_one v depth)) (pack_pairs ps depth) e in
      let (a, c, ea, ec, f') = both-some (pack_one key depth) (pack_one v depth) ekv in
      let total : suc (length (flatten c) + length (flatten b)) ≤ length (flatten ws) = omega (
        arith,
        pack_one_pos key depth a ea,
        ap (λ w. length (flatten w)) f,
        ap (λ w. length (flatten w)) f',
        length-both kv b,
        length-both a c,
      ) in
      let first : length (flatten a) ≤ length (flatten ws) = omega (
        arith,
        ap (λ w. length (flatten w)) f,
        ap (λ w. length (flatten w)) f',
        length-both kv b,
        length-both a c,
      ) in
      let body = flatten c ++ (flatten b ++ rest) in
      ap (unpack_pairs (unpack_one (suc fuel)) (suc k)) (
        ap (λ w. flatten w ++ rest) f
        ∙ flatten-both kv b rest
        ∙ ap (λ w. flatten w ++ (flatten b ++ rest)) f'
        ∙ flatten-both a c (flatten b ++ rest))
      ∙ not_nil (unpack_one (suc fuel)) key k (flatten a ++ body) body g.0
          (one-round key depth a fuel g.1 ea (omega arith) body)
      ∙ rw (one-round v depth c fuel g.2 ec (omega arith) (flatten b ++ rest))
          (rw (pairs-round ps depth b (suc fuel) g.3 eb (omega arith) k rest (omega arith)) refl)
