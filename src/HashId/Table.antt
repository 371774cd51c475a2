-- ===== src/HashId/Table.antt =====
-- skynet/service-src/hashid.h: the table as a map from ids to nodes.
use skynet_athena.Base.{
  In, List, Option, Option-cases, [], ap, ap₂, arith, bit_and, false, inl, inr, none, refl, some,
  subst, suc, sym, true, update, update_ne, update_self, zero, ℕ, ℕ_discrete, ◌+◌, ◌-◌, ◌<◌, ◌∙◌,
  ◌∷◌, ◌≡◌, ◌≢◌, ◌≤◌, ◌⊎◌,
}
use skynet_athena.HashId.{HashId, find_id, hashid_lookup, hashid_remove, holds, unchain}

abbrev pub Distinct : List ℕ → Type 0
Distinct [] = Unit
Distinct (c ∷ cs) = (In c cs → ⊥) × Distinct cs

-- How many of the first nodes have an id.
abbrev pub weight : Option ℕ → ℕ
weight none = 0
weight (some _) = 1

abbrev pub taken : (ℕ → Option ℕ) → ℕ → ℕ
taken ids zero = 0
taken ids (suc n) = weight (ids n) + taken ids n

-- A node is on the chain of its id and on no other, once; no two nodes have the same id; the count
-- is right, and a free node has no `next`.
pub record IsTable (hi : HashId) : Type 0 where
  pub chained :
      (h c : ℕ) → In c (hi.hash h) → (id : ℕ) × (hi.ids c ≡ some id) × (bit_and id hi.hashmod ≡ h)
  pub hung : (c id : ℕ) → hi.ids c ≡ some id → In c (hi.hash (bit_and id hi.hashmod))
  pub once : (h : ℕ) → Distinct (hi.hash h)
  pub single : (c d id : ℕ) → hi.ids c ≡ some id → hi.ids d ≡ some id → c ≡ d
  pub inside : (c id : ℕ) → hi.ids c ≡ some id → c < hi.cap
  pub counted : taken hi.ids hi.cap ≡ hi.count
  pub clear : (c : ℕ) → hi.ids c ≡ none → hi.linked c ≡ false

module _ (ids : ℕ → Option ℕ) where
  holds_yes : (c id : ℕ) → ids c ≡ some id → holds ids c id ≡ true
  unfolding holds
  holds_yes c id e = rw (e, holds) (ground arith)

  holds_no : (c id : ℕ) → ids c ≢ some id → holds ids c id ≡ false
  unfolding holds
  holds_no c id ne = elim (Option-cases (ids c)) [
    | inl e ↦ rw (e, holds) refl
    | inr (d, e) ↦ elim (ℕ_discrete d id) [
      | yes s ↦ absurd (ne (e ∙ ap some s))
      | no o ↦ rw (e, holds) (ground arith)
    ]
  ]

  pub ids-cases : (c id : ℕ) → (ids c ≡ some id) ⊎ (ids c ≢ some id)
  ids-cases c id = elim (Option-cases (ids c)) [
    | inl e ↦ inr (λ s. cc (sym e ∙ s))
    | inr (d, e) ↦ elim (ℕ_discrete d id) [
      | yes s ↦ inl (e ∙ ap some s)
      | no o ↦ inr (λ s. o (cc (sym e ∙ s)))
    ]
  ]

  find_id-none : (id : ℕ) (cs : List ℕ) → ((c : ℕ) → ids c ≢ some id) → find_id ids id cs ≡ none
  unfolding find_id
  find_id-none id [] h = refl
  find_id-none id (c ∷ cs) h = rw (holds_no c id (h c)) (find_id-none id cs h)

  find_id-some :
      (c id : ℕ) (cs : List ℕ)
      → ids c ≡ some id
      → ((d : ℕ) → ids d ≡ some id → c ≡ d)
      → In c cs
      → find_id ids id cs ≡ some c
  unfolding find_id
  find_id-some c id [] e one i = absurd i
  find_id-some c id (d ∷ cs) e one i = elim (ids-cases d id) [
    | inl h ↦ rw (holds_yes d id h) (ap some (sym (one d h)))
    | inr h ↦ rw (holds_no d id h) (
        find_id-some c id cs e one (elim i [ inl s ↦ absurd (h (ap ids (sym s) ∙ e)) | inr j ↦ j ]))
  ]

  unchain-none : (id : ℕ) (cs : List ℕ) → ((c : ℕ) → ids c ≢ some id) → unchain ids id cs ≡ none
  unfolding unchain
  unchain-none id [] h = refl
  unchain-none id (c ∷ cs) h = rw (holds_no c id (h c), unchain-none id cs h) refl

  -- A chain without the node of an id.
  record Without (c id : ℕ) (cs : List ℕ) : Type 0 where
    rest : List ℕ
    found : unchain ids id cs ≡ some (c, rest)
    sub : (d : ℕ) → In d rest → In d cs × (d ≢ c)
    keep : (d : ℕ) → In d cs → d ≢ c → In d rest
    distinct : Distinct rest

  unchain-some :
      (c id : ℕ) (cs : List ℕ)
      → ids c ≡ some id
      → ((d : ℕ) → ids d ≡ some id → c ≡ d)
      → Distinct cs
      → In c cs
      → Without c id cs
  unfolding unchain
  unchain-some c id [] e one u i = absurd i
  unchain-some c id (d ∷ cs) e one (off, u) i = elim (ids-cases d id) [
    | inl h ↦
        let s = one d h in
        record {
          rest = cs;
          found = rw (holds_yes d id h) (ap (λ x. some (x, cs)) (sym s));
          sub = λ x j. (inr j, λ q. off (subst (λ y. In y cs) (q ∙ s) j));
          keep = λ x j ne. elim j [ inl q ↦ absurd (ne (q ∙ sym s)) | inr k ↦ k ];
          distinct = u;
        }
    | inr h ↦
        let away : d ≢ c = λ q. h (ap ids q ∙ e) in
        let w =
          unchain-some c id cs e one u (elim i [ inl q ↦ absurd (away (sym q)) | inr j ↦ j ]) in
        record {
          rest = d ∷ w.rest;
          found = rw (holds_no d id h, w.found) refl;
          sub = λ x j. elim j [
            | inl q ↦ (inl q, λ p. away (sym q ∙ p))
            | inr k ↦ (inr (w.sub x k).0, (w.sub x k).1)
          ];
          keep = λ x j ne. elim j [ inl q ↦ inl q | inr k ↦ inr (w.keep x k ne) ];
          distinct = (λ j. off (w.sub d j).0, w.distinct);
        }
  ]

  taken-update_outside : (c n : ℕ) (o : Option ℕ) → n ≤ c → taken (update ids c o) n ≡ taken ids n
  taken-update_outside c zero o h = refl
  taken-update_outside c (suc n) o h =
      ap₂ ◌+◌ (ap weight (update_ne ids c n o (omega arith)))
        (taken-update_outside c n o (omega arith))

  pub taken-update :
      (c n : ℕ) (o : Option ℕ)
      → c < n
      → taken (update ids c o) n + weight (ids c) ≡ taken ids n + weight o
  taken-update c zero o h = absurd (omega arith)
  taken-update c (suc n) o h = elim (ℕ_discrete n c) [
    | yes e ↦
        let out = taken-update_outside c n o (omega arith) in
        let at : update ids c o n ≡ o = ap (update ids c o) e ∙ update_self ids c o in
        let w = ap weight at in let old = ap weight (ap ids e) in omega (arith, out, w, old)
    | no ne ↦
        let w = ap weight (update_ne ids c n o ne) in
        omega (arith, w, taken-update c n o (omega arith))
  ]

pub none-some : {A : Type 0} {a : A} → none ≡ some a → ⊥
none-some e = cc e

-- A chain is looked up in a function that was changed at one place.
pub at_place :
    (P : List ℕ → Type 0) (f : ℕ → List ℕ) (k h : ℕ) (l : List ℕ)
    → (h ≡ k → P l)
    → (h ≢ k → P (f h))
    → P (update f k l h)
at_place P f k h l here there = elim (ℕ_discrete h k) [
  | yes e ↦ subst P (sym (ap (update f k l) e ∙ update_self f k l)) (here e)
  | no ne ↦ subst P (sym (update_ne f k h l ne)) (there ne)
]

module _ (hi : HashId) (t : IsTable hi) (id : ℕ) where
  -- `hashid_lookup` answers the node that has the id, and -1 if no node has it.
  pub lookup_lem :
      ((c : ℕ) → hi.ids c ≡ some id → hashid_lookup hi id ≡ some c)
      × (((c : ℕ) → hi.ids c ≢ some id) → hashid_lookup hi id ≡ none)
  unfolding hashid_lookup
  lookup_lem = (
    λ c e.
        find_id-some hi.ids c id (hi.hash (bit_and id hi.hashmod)) e (λ d. t.single c d id e)
          (t.hung c id e),
    find_id-none hi.ids id (hi.hash (bit_and id hi.hashmod)),
  )

  -- `hashid_remove` of an id that a node has answers the node and frees it, the table stays in order.
  pub remove_lem :
      (c : ℕ)
      → hi.ids c ≡ some id
      → (hi' : HashId) × (hashid_remove hi id ≡ (some c, hi'))
        × (hi'.ids ≡ update hi.ids c none)
        × IsTable hi'
  unfolding hashid_remove
  remove_lem c e =
      let k = bit_and id hi.hashmod in
      let w =
        unchain-some hi.ids c id (hi.hash k) e (λ d. t.single c d id e) (t.once k)
          (t.hung c id e) in
      let ids = update hi.ids c none in
      let was : (d i : ℕ) → ids d ≡ some i → (hi.ids d ≡ some i) × (d ≢ c) = λ d i q.
        elim (ℕ_discrete d c) [
          | yes s ↦ absurd (none-some (sym (ap ids s ∙ update_self hi.ids c none) ∙ q))
          | no o ↦ (sym (update_ne hi.ids c d none o) ∙ q, o)
        ] in
      (
        record hi {
          ids = ids;
          hash = update hi.hash k w.rest;
          count = hi.count - 1;
          linked = update hi.linked c false;
        },
        rw (w.found, hashid_remove) refl,
        refl,
        record {
          chained = λ h d.
              at_place (λ l. In d l → (i : ℕ) × (ids d ≡ some i) × (bit_and i hi.hashmod ≡ h))
                hi.hash k h w.rest
                (λ at j.
                  let (i, q, m) = t.chained k d (w.sub d j).0 in
                  (i, update_ne hi.ids c d none (w.sub d j).1 ∙ q, m ∙ sym at))
                (λ off j.
                  let (i, q, m) = t.chained h d j in
                  let other : d ≢ c = λ s.
                    off (sym m ∙ ap (λ x. bit_and x hi.hashmod) (cc (sym q ∙ ap hi.ids s ∙ e))) in
                  (i, update_ne hi.ids c d none other ∙ q, m));
          hung = λ d i q.
              at_place (In d) hi.hash k (bit_and i hi.hashmod) w.rest
                (λ at.
                  w.keep d (subst (λ h. In d (hi.hash h)) at (t.hung d i (was d i q).0))
                    (was d i q).1)
                (λ _. t.hung d i (was d i q).0);
          once = λ h. at_place Distinct hi.hash k h w.rest (λ _. w.distinct) (λ _. t.once h);
          single = λ a b i p q. t.single a b i (was a i p).0 (was b i q).0;
          inside = λ a i p. t.inside a i (was a i p).0;
          counted =
              let full = ap weight e in
              omega (arith, full, taken-update hi.ids c hi.cap none (t.inside c id e), t.counted);
          clear = λ d q. elim (ℕ_discrete d c) [
            | yes s ↦ ap (update hi.linked c false) s ∙ update_self hi.linked c false
            | no o ↦
                update_ne hi.linked c d false o ∙ t.clear d (sym (update_ne hi.ids c d none o) ∙ q)
          ];
        },
      )

  -- `hashid_remove` of an id that no node has answers -1 and changes nothing.
  pub remove_none : ((c : ℕ) → hi.ids c ≢ some id) → hashid_remove hi id ≡ (none, hi)
  unfolding hashid_remove
  remove_none h =
      rw (unchain-none hi.ids id (hi.hash (bit_and id hi.hashmod)) h, hashid_remove) refl
