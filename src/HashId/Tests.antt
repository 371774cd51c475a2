-- ===== src/HashId/Tests.antt =====
-- Runs of the table of connections, and its theorem at a concrete table.
use skynet_athena.HashId.{
  HashId, free_node, hash_cap, hashid_init, hashid_insert, hashid_lookup, hashid_remove, holds,
  link, unchain,
}
use skynet_athena.HashId.Table.{IsTable, lookup_lem, none-some, remove_lem}
use skynet_athena.HashId.Insert.{hung-IsTable, insert_lem}
use skynet_athena.Base.{
  [], ap, arith, false, none, refl, some, sym, true, update, update_ne, ℕ, ℕ_discrete, ◌<◌, ◌∙◌,
  ◌∷◌, ◌≡◌, ◌≢◌,
}

-- Two slots and sixteen chains.
abbrev two_slots : HashId
two_slots = record {
  hashmod = 15;
  cap = 2;
  count = 0;
  ids = λ _. none;
  hash = λ _. [];
  linked = λ _. false;
}

init-two : hashid_init 2 ≡ two_slots
unfolding hashid_init hash_cap
init-two = refl

abbrev one_taken : HashId
one_taken = record two_slots {
  ids = update two_slots.ids 1 (some 21);
  hash = update two_slots.hash 5 (1 ∷ []);
  count = 1;
  linked = update two_slots.linked 1 true;
}

insert-21 : hashid_insert two_slots 21 ≡ some (1, one_taken)
unfolding hashid_insert free_node link
insert-21 = refl

removed : (hashid_remove one_taken 21).0 ≡ some 1
unfolding hashid_remove unchain holds
removed = refl

two_slots-IsTable : IsTable two_slots
two_slots-IsTable = record {
  chained = λ h c i. absurd i;
  hung = λ c id e. absurd (none-some e);
  once = λ _. tt;
  single = λ c d id e. absurd (none-some e);
  inside = λ c id e. absurd (none-some e);
  counted = refl;
  clear = λ c e. refl;
}

one_taken-IsTable : IsTable one_taken
one_taken-IsTable =
    hung-IsTable two_slots two_slots-IsTable 21 (λ c. none-some) 1 (omega arith) refl

no_37 : (c : ℕ) → one_taken.ids c ≢ some 37
no_37 c e = elim (ℕ_discrete c 1) [
  | yes s ↦ cc (sym (ap one_taken.ids s) ∙ e)
  | no o ↦ absurd (none-some (sym (update_ne two_slots.ids 1 c (some 21) o) ∙ e))
]

insert_lem_example :
    (c : ℕ) × (hi' : HashId) × (hashid_insert one_taken 37 ≡ some (c, hi'))
    × (c < 2)
    × (one_taken.ids c ≡ none)
    × (hi'.ids ≡ update one_taken.ids c (some 37))
    × IsTable hi'
insert_lem_example = insert_lem one_taken one_taken-IsTable 37 no_37 (omega arith) (omega arith)

lookup_lem_example :
    ((c : ℕ) → one_taken.ids c ≡ some 21 → hashid_lookup one_taken 21 ≡ some c)
    × (((c : ℕ) → one_taken.ids c ≢ some 21) → hashid_lookup one_taken 21 ≡ none)
lookup_lem_example = lookup_lem one_taken one_taken-IsTable 21

remove_lem_example :
    (hi' : HashId) × (hashid_remove one_taken 21 ≡ (some 1, hi'))
    × (hi'.ids ≡ update one_taken.ids 1 none)
    × IsTable hi'
remove_lem_example = remove_lem one_taken one_taken-IsTable 21 1 refl
