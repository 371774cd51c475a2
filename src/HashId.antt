-- ===== src/HashId.antt =====
-- skynet/service-src/hashid.h: the table that gives a slot to the socket id of a connection. A node is
-- named by its index; a chain is the list of the nodes that `next` leads to. An id of -1, a free node,
-- is `none`; the ids of sockets are not negative.
pub mod Lookup
pub mod Table
pub mod Insert
mod Tests
use mathlib.Core.Option
use skynet_athena.Base.{
  Bool, List, Option, [], bit_and, false, if◌then◌else◌, leb, ltb, none, some, suc, true, update,
  zero, ℕ, ◌%◌, ◌*◌, ◌+◌, ◌-◌, ◌==◌, ◌^◌, ◌∷◌,
}

-- `struct hashid`. A node is `linked` from its insertion until its `next` is set to NULL; no other
-- node has a `next`.
pub record HashId : Type 0 where
  pub hashmod : ℕ
  pub cap : ℕ
  pub count : ℕ
  pub ids : ℕ → Option ℕ
  pub hash : ℕ → List ℕ
  pub linked : ℕ → Bool

-- The doubling loop of `hashid_init`, on fuel.
unfoldable pub hash_cap : ℕ → ℕ → ℕ → ℕ
hash_cap zero hashcap max' = hashcap
hash_cap (suc fuel) hashcap max' =
    let more = hash_cap fuel (hashcap * 2) max' in if ltb hashcap max' then more else hashcap

unfoldable pub hashid_init : ℕ → HashId
hashid_init max' = record {
  hashmod = hash_cap max' 16 max' - 1;
  cap = max';
  count = 0;
  ids = λ _. none;
  hash = λ _. [];
  linked = λ _. false;
}

unfoldable pub holds : (ℕ → Option ℕ) → ℕ → ℕ → Bool
holds ids c id = elim (ids c) [ none ↦ false | some i ↦ i == id ]

-- The walk of `hashid_lookup`; `none` is -1.
unfoldable pub find_id : (ℕ → Option ℕ) → ℕ → List ℕ → Option ℕ
find_id ids id [] = none
find_id ids id (c ∷ cs) = let rest = find_id ids id cs in if holds ids c id then some c else rest

unfoldable pub hashid_lookup : HashId → ℕ → Option ℕ
hashid_lookup hi id = find_id hi.ids id (hi.hash (bit_and id hi.hashmod))

-- The walk of `hashid_remove`: the node found and the chain without it.
unfoldable pub unchain : (ℕ → Option ℕ) → ℕ → List ℕ → Option (ℕ × List ℕ)
unchain ids id [] = none
unchain ids id (c ∷ cs) =
    let further = unchain ids id cs in
    if holds ids c id then some (c, cs) else Option.map (λ (r : ℕ × List ℕ). (r.0, c ∷ r.1)) further

unfoldable pub hashid_remove : HashId → ℕ → Option ℕ × HashId
hashid_remove hi id = elim (unchain hi.ids id (hi.hash (bit_and id hi.hashmod))) [
  | none ↦ (none, hi)
  | some (c, cs) ↦ (
    some c,
    record hi {
      ids = update hi.ids c none;
      hash = update hi.hash (bit_and id hi.hashmod) cs;
      count = hi.count - 1;
      linked = update hi.linked c false;
    },
  )
]

-- The search of `hashid_insert` for a free node, for `n` nodes from the `i`-th on; `none` is also a
-- sum `i+id` that an `int` cannot hold.
unfoldable pub free_node : HashId → ℕ → ℕ → ℕ → Option ℕ
free_node hi id zero i = none
free_node hi id (suc n) i =
    let rest = free_node hi id n (i + 1) in
    if leb (2 ^ 31) (i + id)
    then none
    else elim (hi.ids ((i + id) % hi.cap)) [ none ↦ some ((i + id) % hi.cap) | some _ ↦ rest ]

-- `hashid_insert` with the node found; `none` is the failed assertion that its `next` is NULL.
unfoldable pub link : HashId → ℕ → ℕ → Option (ℕ × HashId)
link hi id c =
    if hi.linked c
    then none
    else some (
      c,
      record hi {
        ids = update hi.ids c (some id);
        hash = update hi.hash (bit_and id hi.hashmod) (c ∷ hi.hash (bit_and id hi.hashmod));
        count = hi.count + 1;
        linked = update hi.linked c true;
      },
    )

-- `hashid_insert`; `none` is also the failed assertion that a node is free, or the overflow.
unfoldable pub hashid_insert : HashId → ℕ → Option (ℕ × HashId)
hashid_insert hi id = elim (free_node hi id hi.cap 0) [ none ↦ none | some c ↦ link hi id c ]

unfoldable pub hashid_full : HashId → Bool
hashid_full hi = hi.count == hi.cap
