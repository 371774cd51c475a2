-- ===== src/HashId/Insert.antt =====
-- skynet/service-src/hashid.h: an insertion into a table that is not full.
use native.Mathlib.Nat.{add-mul-mod_self_right, div-add-mod', mod-add-mod, mod-eq_of_lt, mod-lt}
use skynet_athena.Base.{
  In, Option, Option-cases, ap, arith, bit_and, false, inl, inr, leb, none, refl, some, subst, suc,
  sym, true, update, update_ne, update_self, zero, ℕ, ℕ_discrete, ◌%◌, ◌*◌, ◌+◌, ◌-◌, ◌/◌, ◌<◌, ◌^◌,
  ◌∙◌, ◌∷◌, ◌≡◌, ◌≢◌, ◌≤◌, ◌⊎◌,
}
use skynet_athena.HashId.{HashId, free_node, hashid_insert}
use skynet_athena.HashId.Lookup.{free_node-none, hung, insert_found}
use skynet_athena.HashId.Table.{Distinct, IsTable, at_place, none-some, taken, taken-update, weight}

-- Where fewer nodes have an id than there are, one is free.
free_exists : (ids : ℕ → Option ℕ) (n : ℕ) → taken ids n < n → (c : ℕ) × (c < n) × (ids c ≡ none)
free_exists ids zero h = absurd (omega arith)
free_exists ids (suc n) h = elim (Option-cases (ids n)) [
  | inl e ↦ (n, omega arith, e)
  | inr (i, e) ↦
      let w = ap weight e in
      let (c, lt, free) = free_exists ids n (omega (arith, w)) in (c, omega arith, free)
]

-- The search passes every node.
passed : (cap id c : ℕ) → c < cap → (j : ℕ) × (j < cap) × ((j + id) % cap ≡ c)
passed cap id c h =
    let r = id % cap in
    let q = id / cap * cap in
    let small : r < cap = mod-lt id (omega arith) in
    let whole : c + (cap - r) + id ≡ c + 1 * cap + q = omega (arith, div-add-mod' id cap) in
    (
      (c + (cap - r)) % cap,
      mod-lt (c + (cap - r)) (omega arith),
      mod-add-mod (c + (cap - r)) cap id
          ∙ ap (λ x. x % cap) whole
          ∙ add-mul-mod_self_right (c + 1 * cap) (id / cap) cap
          ∙ add-mul-mod_self_right c 1 cap
          ∙ mod-eq_of_lt h,
    )

found_node :
    (hi : HashId) (id n i j : ℕ)
    → i ≤ j
    → j < i + n
    → hi.ids ((j + id) % hi.cap) ≡ none
    → i + n + id ≤ 2 ^ 31
    → (c : ℕ) × (free_node hi id n i ≡ some ((c + id) % hi.cap))
unfolding free_node
found_node hi id zero i j l h free fits = absurd (omega arith)
found_node hi id (suc n) i j l h free fits =
    let small : leb (2 ^ 31) (i + id) ≡ false = ground arith in
    elim (Option-cases (hi.ids ((i + id) % hi.cap))) [
      | inl e ↦ (i, rw (small, e, free_node) refl)
      | inr (d, e) ↦
          let later : i ≢ j =
            λ q. none-some (sym free ∙ ap (λ x. hi.ids ((x + id) % hi.cap)) (sym q) ∙ e) in
          let (c, r) =
            found_node hi id n (i + 1) j (omega (arith, later)) (omega arith) free (omega arith) in
          (c, rw (small, e, free_node) r)
    ]

module _ (hi : HashId) (t : IsTable hi) (id : ℕ) (absent : (c : ℕ) → hi.ids c ≢ some id) where
  pub hung-IsTable : (c : ℕ) → c < hi.cap → hi.ids c ≡ none → IsTable (hung hi id c)
  hung-IsTable c lt free =
      let k = bit_and id hi.hashmod in
      let ids = update hi.ids c (some id) in
      let l = c ∷ hi.hash k in
      let off : (h : ℕ) → In c (hi.hash h) → ⊥ =
        λ h j. let (i, q, m) = t.chained h c j in none-some (sym free ∙ q) in
      let other : (h d : ℕ)
          → In d (hi.hash h)
          → (i : ℕ) × (ids d ≡ some i) × (bit_and i hi.hashmod ≡ h) =
        λ h d j.
          let (i, q, m) = t.chained h d j in
          let ne : d ≢ c = λ s. none-some (sym free ∙ ap hi.ids (sym s) ∙ q) in
          (i, update_ne hi.ids c d (some id) ne ∙ q, m) in
      let was : (d i : ℕ)
          → ids d ≡ some i
          → ((d ≡ c) × (i ≡ id)) ⊎ ((d ≢ c) × (hi.ids d ≡ some i)) =
        λ d i q. elim (ℕ_discrete d c) [
          | yes s ↦ inl (s, cc (sym q ∙ ap ids s ∙ update_self hi.ids c (some id)))
          | no o ↦ inr (o, sym (update_ne hi.ids c d (some id) o) ∙ q)
        ] in
      record {
        chained = λ h d.
            at_place (λ l. In d l → (i : ℕ) × (ids d ≡ some i) × (bit_and i hi.hashmod ≡ h)) hi.hash
              k h l
              (λ at j. elim j [
                | inl s ↦ (id, ap ids s ∙ update_self hi.ids c (some id), sym at)
                | inr j' ↦ let (i, q, m) = other k d j' in (i, q, m ∙ sym at)
              ])
              (λ _ j. other h d j);
        hung = λ d i q.
            at_place (In d) hi.hash k (bit_and i hi.hashmod) l
              (λ at. elim (was d i q) [
                | inl (s, _) ↦ inl s
                | inr (_, q') ↦ inr (subst (λ h. In d (hi.hash h)) at (t.hung d i q'))
              ])
              (λ apart. elim (was d i q) [
                | inl (_, s) ↦ absurd (apart (ap (λ x. bit_and x hi.hashmod) s))
                | inr (_, q') ↦ t.hung d i q'
              ]);
        once = λ h. at_place Distinct hi.hash k h l (λ _. (off k, t.once k)) (λ _. t.once h);
        single = λ a b i p q. elim (was a i p) [
          | inl (s, e) ↦ elim (was b i q) [
            | inl (s', _) ↦ s ∙ sym s'
            | inr (_, q') ↦ absurd (absent b (q' ∙ ap some e))
          ]
          | inr (_, p') ↦ elim (was b i q) [
            | inl (_, e) ↦ absurd (absent a (p' ∙ ap some e))
            | inr (_, q') ↦ t.single a b i p' q'
          ]
        ];
        inside = λ a i p. elim (was a i p) [
          | inl (s, _) ↦ omega (arith, s, lt)
          | inr (_, p') ↦ t.inside a i p'
        ];
        counted =
            let w = ap weight free in
            omega (arith, w, taken-update hi.ids c hi.cap (some id) lt, t.counted);
        clear = λ d q. elim (ℕ_discrete d c) [
          | yes s ↦ absurd (none-some (sym q ∙ ap ids s ∙ update_self hi.ids c (some id)))
          | no o ↦
              update_ne hi.linked c d true o
              ∙ t.clear d (sym (update_ne hi.ids c d (some id) o) ∙ q)
        ];
      }

  -- In a table in order that is not full, `hashid_insert` of an id that no node has, with `id + cap` at
  -- most 2^31, fails no assertion: there is a free node, and its `next` is NULL. It gives a free node
  -- below the capacity to the id, no other node changes, and the table stays in order.
  pub insert_lem :
      hi.count < hi.cap
      → id + hi.cap ≤ 2 ^ 31
      → (c : ℕ) × (hi' : HashId) × (hashid_insert hi id ≡ some (c, hi'))
        × (c < hi.cap)
        × (hi.ids c ≡ none)
        × (hi'.ids ≡ update hi.ids c (some id))
        × IsTable hi'
  insert_lem room fits =
      let (d, lt, free) = free_exists hi.ids hi.cap (omega (arith, t.counted)) in
      let (j, small, at) = passed hi.cap id d lt in
      let (i, found) =
        found_node hi id hi.cap 0 j (omega arith) (omega arith) (ap hi.ids at ∙ free)
          (omega arith) in
      let c = (i + id) % hi.cap in
      let below : c < hi.cap = mod-lt (i + id) (omega arith) in
      let empty = free_node-none hi id hi.cap 0 c found in
      let e = insert_found hi id c found (t.clear c empty) in
      (c, hung hi id c, e, below, empty, refl, hung-IsTable c below empty)
