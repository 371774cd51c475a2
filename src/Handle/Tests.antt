-- ===== src/Handle/Tests.antt =====
-- Runs of the handle storage, and its theorems at concrete storages.
use skynet_athena.Handle.Names.{findname-In, namehandle_new, namehandle_taken}
use skynet_athena.Handle.Order.{IsSorted}
use skynet_athena.Handle.{
  HandleName, HandleStorage, find_free, findname, grab, handle_init, handle_mask, namehandle,
  register, rehash, retire, strcmp,
}
use skynet_athena.Handle.Register.{register_fault, register_lem, retire_lem}
use skynet_athena.Base.{
  In, List, [], ap, arith, bit_and, bit_or, false, get_or, if◌then◌else◌, inl, inr, length, none,
  refl, some, sym, true, update, ℕ, ◌*◌, ◌+◌, ◌-◌, ◌<◌, ◌==◌, ◌^◌, ◌↔◌, ◌∙◌, ◌∷◌, ◌≡◌, ◌≢◌, ◌≤◌,
  ◌⊎◌,
}

-- Handle 1 of harbor 1 is live, with the context 50.
abbrev one_live : HandleStorage
one_live = record {
  harbor = 1 * 2 ^ 24;
  handle_index = 2;
  slot_size = 4;
  slot = update (λ _. none) 1 (some 50);
  name_cap = 2;
  names = record { text = 97 ∷ []; handle = 16777217 } ∷ [];
}

abbrev handle_of_50 : ℕ → ℕ
handle_of_50 c = if c == 50 then 16777217 else 0

-- The first handle of a new storage of harbor 1.
register-init :
    register 1 (λ _. 0) (handle_init 1) 50 ≡ some (16777217, record one_live { names = [] })
unfolding register handle_init find_free
register-init = refl

find_free-one_live : find_free one_live.slot 4 4 2 ≡ some (2, 2)
unfolding find_free
find_free-one_live = refl

register_lem_example :
    (s' : HandleStorage) × (register 1 handle_of_50 one_live 60
      ≡ some (bit_or 2 one_live.harbor, s'))
    × (0 < 2)
    × (2 ≤ handle_mask)
    × (s'.slot (bit_and 2 3) ≡ some 60)
    × (s'.handle_index ≡ 2 + 1)
    × ((g c : ℕ) → grab handle_of_50 one_live g ≡ some c → grab handle_of_50 s' g ≡ some c)
register_lem_example = register_lem 0 handle_of_50 one_live 60 2 2 (omega arith) find_free-one_live

grab-one_live : grab handle_of_50 one_live 16777217 ≡ some 50
unfolding grab
grab-one_live = refl

retire_lem_example :
    ((retire handle_of_50 one_live 16777217).0 ≡ some 50)
    × (grab handle_of_50 (retire handle_of_50 one_live 16777217).1 16777217 ≡ none)
    × ((g : ℕ)
        → g ≢ 16777217
        → grab handle_of_50 (retire handle_of_50 one_live 16777217).1 g
          ≡ grab handle_of_50 one_live g)
    × ((n : HandleName)
        → In n (retire handle_of_50 one_live 16777217).1.names
          ↔ (In n one_live.names × (n.handle ≢ 16777217)))
retire_lem_example = retire_lem handle_of_50 one_live 16777217 50 grab-one_live

-- Three slots taken, slot 0 free, and the handles near the mask.
abbrev wrapping : HandleStorage
wrapping = record {
  harbor = 0;
  handle_index = handle_mask - 1;
  slot_size = 4;
  slot = update (update (update (λ _. none) 1 (some 51)) 2 (some 52)) 3 (some 53);
  name_cap = 2;
  names = [];
}

register_fault_example :
    (find_free wrapping.slot 4 4 (handle_mask - 1) ≡ none)
    × (rehash (λ _. 0) wrapping.slot 4 4 0 (λ _. none) ≡ none)
    × (register 2 (λ _. 0) wrapping 60 ≡ none)
register_fault_example =
    register_fault 1 (λ _. 0) wrapping 60 51 52 53 refl refl refl refl refl refl

-- Two names in order.
abbrev named : HandleStorage
named = record one_live {
  names =
      record { text = 97 ∷ []; handle = 16777217 }
      ∷ record { text = 98 ∷ 99 ∷ []; handle = 5 }
      ∷ [];
}

named-IsSorted : IsSorted named.names
named-IsSorted = unfold strcmp in ((refl, tt), (tt, tt))

findname-In_example : findname named (98 ∷ 99 ∷ []) ≡ 5
findname-In_example =
    findname-In named (record { text = 98 ∷ 99 ∷ []; handle = 5 }) named-IsSorted (inr (inl refl))

not_there : (n : HandleName) → In n named.names → n.text ≢ 98 ∷ []
not_there n (inl e) f =
    let g = sym (ap (λ (m : HandleName). m.text) e) ∙ f in
    omega (arith, ap (λ (l : List ℕ). get_or l 0 0) g)
not_there n (inr (inl e)) f =
    let g = sym (ap (λ (m : HandleName). m.text) e) ∙ f in
    omega (arith, ap (λ (l : List ℕ). length l) g)
not_there n (inr (inr h)) f = elim h [ ]

namehandle_taken_example : namehandle named 6 (97 ∷ []) ≡ some (true, named)
namehandle_taken_example =
    namehandle_taken named 6 (record { text = 97 ∷ []; handle = 16777217 }) named-IsSorted
      (inl refl)

namehandle_new_example :
    (s' : HandleStorage) × (namehandle named 6 (98 ∷ []) ≡ some (false, s'))
    × IsSorted s'.names
    × ((n : HandleName)
        → In n s'.names ↔ ((n ≡ record { text = 98 ∷ []; handle = 6 }) ⊎ In n named.names))
namehandle_new_example = namehandle_new named 6 (98 ∷ []) named-IsSorted (omega arith) not_there
