-- ===== src/HashId/Lookup.antt =====
-- skynet/service-src/hashid.h: what `hashid_lookup` finds after `hashid_insert`.
use skynet_athena.HashId.{HashId, find_id, free_node, hashid_insert, hashid_lookup, holds, link}
use skynet_athena.Base.{
  Bool-cases, In, List, Option, Option-cases, [], ap, arith, bit_and, dec_lt, false, inl, inr, leb,
  none, refl, some, suc, sym, true, update, update_ne, update_self, zero, ℕ, ℕ_discrete, ◌%◌, ◌+◌,
  ◌^◌, ◌∙◌, ◌∷◌, ◌≡◌, ◌≢◌,
}

-- No free node is on a chain.
abbrev pub IsChained : HashId → Type 0
IsChained hi = (h c : ℕ) → In c (hi.hash h) → hi.ids c ≢ none

pub free_node-none : (hi : HashId) (id n i c : ℕ) → free_node hi id n i ≡ some c → hi.ids c ≡ none
free_node-none hi id zero i c e = unfold free_node in cc e
free_node-none hi id (suc n) i c e = elim (dec_lt (i + id) (2 ^ 31)) [
  | no over ↦
      let big : leb (2 ^ 31) (i + id) ≡ true = ground arith in
      let e' : free_node hi id (suc n) i ≡ none = unfold free_node in rw (big, free_node) refl in
      cc (sym e' ∙ e)
  | yes fits ↦
      let small : leb (2 ^ 31) (i + id) ≡ false = ground arith in
      elim (Option-cases (hi.ids ((i + id) % hi.cap))) [
        | inl free ↦
            let e' : free_node hi id (suc n) i ≡ some ((i + id) % hi.cap) =
              unfold free_node in rw (small, free, free_node) refl in
            let same : (i + id) % hi.cap ≡ c = cc (sym e' ∙ e) in ap hi.ids (sym same) ∙ free
        | inr (d, taken) ↦
            let e' : free_node hi id (suc n) i ≡ free_node hi id n (i + 1) =
              unfold free_node in rw (small, taken, free_node) refl in
            free_node-none hi id n (i + 1) c (sym e' ∙ e)
      ]
]

-- A new id in a node that is not on the chain does not change a walk.
find_id-update :
    (ids : ℕ → Option ℕ) (c id id' : ℕ) (cs : List ℕ)
    → (In c cs → ⊥)
    → find_id (update ids c (some id)) id' cs ≡ find_id ids id' cs
unfolding find_id
find_id-update ids c id id' [] off = refl
find_id-update ids c id id' (d ∷ cs) off =
    let same : holds (update ids c (some id)) d id' ≡ holds ids d id' =
      unfold holds in rw (update_ne ids c d (some id) (λ e. off (inl (sym e))), holds) refl in
    rw (same, find_id-update ids c id id' cs (λ i. off (inr i)), find_id) refl

-- The table with `id` in the node `c`, at the head of its chain.
abbrev pub hung : HashId → ℕ → ℕ → HashId
hung hi id c = record hi {
  ids = update hi.ids c (some id);
  hash = update hi.hash (bit_and id hi.hashmod) (c ∷ hi.hash (bit_and id hi.hashmod));
  count = hi.count + 1;
  linked = update hi.linked c true;
}

pub insert-hung :
    (hi : HashId) (id c : ℕ) (hi' : HashId)
    → hashid_insert hi id ≡ some (c, hi')
    → (hi.ids c ≡ none) × (hi' ≡ hung hi id c)
insert-hung hi id c hi' e = elim (Option-cases (free_node hi id hi.cap 0)) [
  | inl f ↦
      let e' : hashid_insert hi id ≡ none = unfold hashid_insert in rw (f, hashid_insert) refl in
      cc (sym e' ∙ e)
  | inr (d, f) ↦ elim (Bool-cases (hi.linked d)) [
    | inl l ↦
        let e' : hashid_insert hi id ≡ none =
          unfold hashid_insert link in rw (f, hashid_insert) (rw (l, link) refl) in
        cc (sym e' ∙ e)
    | inr l ↦
        let e' : hashid_insert hi id ≡ some (d, hung hi id d) =
          unfold hashid_insert link in rw (f, hashid_insert) (rw (l, link) refl) in
        let g = sym e' ∙ e in
        let at : d ≡ c = cc g in
        let to : hung hi id d ≡ hi' = cc g in
        (ap hi.ids (sym at) ∙ free_node-none hi id hi.cap 0 d f, sym to ∙ ap (hung hi id) at)
  ]
]

pub insert_found :
    (hi : HashId) (id c : ℕ)
    → free_node hi id hi.cap 0 ≡ some c
    → hi.linked c ≡ false
    → hashid_insert hi id ≡ some (c, hung hi id c)
unfolding hashid_insert link
insert_found hi id c f l = rw (f, hashid_insert) (rw (l, link) refl)

lookup-hung : (hi : HashId) (id c : ℕ) → hashid_lookup (hung hi id c) id ≡ some c
unfolding hashid_lookup
lookup-hung hi id c =
    let hit : holds (update hi.ids c (some id)) c id ≡ true =
      unfold holds in rw (update_self hi.ids c (some id), holds) (ground arith) in
    let first : find_id (update hi.ids c (some id)) id (c ∷ hi.hash (bit_and id hi.hashmod))
        ≡ some c =
      unfold find_id in rw (hit, find_id) refl in
    rw (update_self hi.hash (bit_and id hi.hashmod) (c ∷ hi.hash (bit_and id hi.hashmod))) first

lookup-hung_other :
    (hi : HashId) (id c id' : ℕ)
    → IsChained hi
    → hi.ids c ≡ none
    → id' ≢ id
    → hashid_lookup (hung hi id c) id' ≡ hashid_lookup hi id'
unfolding hashid_lookup
lookup-hung_other hi id c id' v free ne =
    let off : (h : ℕ) → In c (hi.hash h) → ⊥ = λ h i. v h c i free in
    elim (ℕ_discrete (bit_and id' hi.hashmod) (bit_and id hi.hashmod)) [
      | yes e ↦
          let miss : holds (update hi.ids c (some id)) c id' ≡ false =
            unfold holds in rw (update_self hi.ids c (some id), holds) (ground arith) in
          let past : find_id (update hi.ids c (some id)) id' (c ∷ hi.hash (bit_and id hi.hashmod))
              ≡ find_id (update hi.ids c (some id)) id' (hi.hash (bit_and id hi.hashmod)) =
            unfold find_id in rw (miss, find_id) refl in
          rw (e, update_self hi.hash (bit_and id hi.hashmod) (c ∷ hi.hash (bit_and id hi.hashmod)))
            (past
              ∙ find_id-update hi.ids c id id' (hi.hash (bit_and id hi.hashmod))
                  (off (bit_and id hi.hashmod)))
      | no apart ↦
          rw
            (update_ne hi.hash (bit_and id hi.hashmod) (bit_and id' hi.hashmod)
              (c ∷ hi.hash (bit_and id hi.hashmod)) apart)
            (find_id-update hi.ids c id id' (hi.hash (bit_and id' hi.hashmod))
              (off (bit_and id' hi.hashmod)))
    ]

-- In a table whose chains hold no free node, an id that was inserted is looked up at the node that
-- `hashid_insert` answered, and every other id is looked up as before.
pub lookup-insert :
    (hi : HashId) (id c : ℕ) (hi' : HashId)
    → IsChained hi
    → hashid_insert hi id ≡ some (c, hi')
    → (hashid_lookup hi' id ≡ some c)
      × ((id' : ℕ) → id' ≢ id → hashid_lookup hi' id' ≡ hashid_lookup hi id')
lookup-insert hi id c hi' v e =
    let (free, at) = insert-hung hi id c hi' e in
    (
      ap (λ t. hashid_lookup t id) at ∙ lookup-hung hi id c,
      λ id' ne. ap (λ t. hashid_lookup t id') at ∙ lookup-hung_other hi id c id' v free ne,
    )
