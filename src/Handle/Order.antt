-- ===== src/Handle/Order.antt =====
-- skynet/skynet-src/skynet_handle.c: the order that `strcmp` puts on names, and lists of names in it.
use skynet_athena.Handle.{HandleName, Ordering, after, before, drop_names, same, strcmp}
use skynet_athena.Base.{
  Bool-cases, In, List, [], arith, drop, get_or, inl, inr, length, refl, suc, sym, take, zero, ℕ,
  ◌++◌, ◌<◌, ◌==◌, ◌↔◌, ◌∷◌, ◌≡◌, ◌≤◌, ◌⊎◌,
}

pub strcmp_refl : (a : List ℕ) → strcmp a a ≡ same
unfolding strcmp
strcmp_refl [] = refl
strcmp_refl (x ∷ a) = ground (arith, strcmp_refl a)

pub eq_of_same : (a b : List ℕ) → strcmp a b ≡ same → a ≡ b
unfolding strcmp
eq_of_same [] [] h = refl
eq_of_same [] (y ∷ b) h = cc h
eq_of_same (x ∷ a) [] h = cc h
eq_of_same (x ∷ a) (y ∷ b) h = ground (arith, eq_of_same a b)

pub strcmp_trans :
    (a b c : List ℕ) → strcmp a b ≡ before → strcmp b c ≡ before → strcmp a c ≡ before
unfolding strcmp
strcmp_trans [] [] [] h k = h
strcmp_trans [] [] (z ∷ c) h k = k
strcmp_trans [] (y ∷ b) [] h k = cc k
strcmp_trans [] (y ∷ b) (z ∷ c) h k = refl
strcmp_trans (x ∷ a) [] c h k = cc h
strcmp_trans (x ∷ a) (y ∷ b) [] h k = cc k
strcmp_trans (x ∷ a) (y ∷ b) (z ∷ c) h k = ground (arith, strcmp_trans a b c)

pub strcmp_flip : (a b : List ℕ) → strcmp a b ≡ before → strcmp b a ≡ after
unfolding strcmp
strcmp_flip [] [] h = cc h
strcmp_flip [] (y ∷ b) h = refl
strcmp_flip (x ∷ a) [] h = cc h
strcmp_flip (x ∷ a) (y ∷ b) h = ground (arith, strcmp_flip a b)

pub strcmp_unflip : (a b : List ℕ) → strcmp a b ≡ after → strcmp b a ≡ before
unfolding strcmp
strcmp_unflip [] [] h = cc h
strcmp_unflip [] (y ∷ b) h = cc h
strcmp_unflip (x ∷ a) [] h = refl
strcmp_unflip (x ∷ a) (y ∷ b) h = ground (arith, strcmp_unflip a b)

-- All names of the list compare with the text in this way.
abbrev pub AllCompare : List HandleName → List ℕ → Ordering → Type 0
AllCompare [] text o = Unit {0}
AllCompare (n ∷ ns) text o = (strcmp n.text text ≡ o) × AllCompare ns text o

-- Strictly increasing, so without repetition.
abbrev pub IsSorted : List HandleName → Type 0
IsSorted [] = Unit {0}
IsSorted (n ∷ ns) = AllCompare ns n.text after × IsSorted ns

abbrev pub nobody : HandleName
nobody = record { text = []; handle = 0 }

abbrev pub name_at : List HandleName → ℕ → HandleName
name_at ns i = get_or ns i nobody

AllCompare-at :
    (ns : List HandleName) (text : List ℕ) (o : Ordering) (i : ℕ)
    → AllCompare ns text o
    → i < length ns
    → strcmp (name_at ns i).text text ≡ o
AllCompare-at [] text o i h lt = absurd (omega arith)
AllCompare-at (n ∷ ns) text o zero h lt = h.0
AllCompare-at (n ∷ ns) text o (suc i) h lt = AllCompare-at ns text o i h.1 (omega arith)

-- An earlier name of a sorted list comes before a later one.
pub IsSorted-at :
    (ns : List HandleName) (i j : ℕ)
    → IsSorted ns
    → i < j
    → j < length ns
    → strcmp (name_at ns i).text (name_at ns j).text ≡ before
IsSorted-at [] i j h ij lt = absurd (omega arith)
IsSorted-at (n ∷ ns) zero zero h ij lt = absurd (omega arith)
IsSorted-at (n ∷ ns) (suc i) zero h ij lt = absurd (omega arith)
IsSorted-at (n ∷ ns) zero (suc j) h ij lt =
    strcmp_unflip (name_at ns j).text n.text (AllCompare-at ns n.text after j h.0 (omega arith))
IsSorted-at (n ∷ ns) (suc i) (suc j) h ij lt = IsSorted-at ns i j h.1 (omega arith) (omega arith)

-- A text splits a list at a place: the names before it are smaller, those from it on larger.
pub record Splits (ns : List HandleName) (text : List ℕ) (k : ℕ) : Type 0 where
  pub low : (i : ℕ) → i < k → i < length ns → strcmp (name_at ns i).text text ≡ before
  pub high : (i : ℕ) → k ≤ i → i < length ns → strcmp (name_at ns i).text text ≡ after

Splits-tail :
    (n : HandleName) (ns : List HandleName) (text : List ℕ) (k : ℕ)
    → Splits (n ∷ ns) text (suc k)
    → Splits ns text k
Splits-tail n ns text k s = record {
  low = λ i h lt. s.low (suc i) (omega arith) (omega arith);
  high = λ i h lt. s.high (suc i) (omega arith) (omega arith);
}

Splits-zero : (ns : List HandleName) (text : List ℕ) → Splits ns text 0 → AllCompare ns text after
Splits-zero [] text s = tt
Splits-zero (n ∷ ns) text s = (
  s.high 0 (omega arith) (omega arith),
  Splits-zero ns text (record {
    low = λ i h lt. absurd (omega arith);
    high = λ i h lt. s.high (suc i) (omega arith) (omega arith);
  }),
)

AllCompare-insert :
    (ns : List HandleName) (m : HandleName) (text : List ℕ) (k : ℕ)
    → strcmp m.text text ≡ after
    → AllCompare ns text after
    → AllCompare (take k ns ++ (m ∷ drop k ns)) text after
AllCompare-insert [] m text zero e h = (e, tt)
AllCompare-insert [] m text (suc k) e h = (e, tt)
AllCompare-insert (n ∷ ns) m text zero e h = (e, h)
AllCompare-insert (n ∷ ns) m text (suc k) e h = (h.0, AllCompare-insert ns m text k e h.1)

-- A name put where its text splits a sorted list leaves the list sorted.
pub insert-IsSorted :
    (ns : List HandleName) (m : HandleName) (k : ℕ)
    → IsSorted ns
    → Splits ns m.text k
    → IsSorted (take k ns ++ (m ∷ drop k ns))
insert-IsSorted [] m zero h s = (tt, tt)
insert-IsSorted [] m (suc k) h s = (tt, tt)
insert-IsSorted (n ∷ ns) m zero h s = (Splits-zero (n ∷ ns) m.text s, h)
insert-IsSorted (n ∷ ns) m (suc k) h s = (
  AllCompare-insert ns m n.text k (strcmp_flip n.text m.text (s.low 0 (omega arith) (omega arith)))
      h.0,
  insert-IsSorted ns m k h.1 (Splits-tail n ns m.text k s),
)

AllCompare-drop_names :
    (handle : ℕ) (ns : List HandleName) (text : List ℕ) (o : Ordering)
    → AllCompare ns text o
    → AllCompare (drop_names handle ns) text o
unfolding drop_names
AllCompare-drop_names handle [] text o h = tt
AllCompare-drop_names handle (n ∷ ns) text o h = elim (Bool-cases (n.handle == handle)) [
  | inl e ↦ rw e (AllCompare-drop_names handle ns text o h.1)
  | inr e ↦ rw e (h.0, AllCompare-drop_names handle ns text o h.1)
]

-- The names that stay when a handle is retired are sorted.
pub drop_names-IsSorted :
    (handle : ℕ) (ns : List HandleName) → IsSorted ns → IsSorted (drop_names handle ns)
unfolding drop_names
drop_names-IsSorted handle [] h = tt
drop_names-IsSorted handle (n ∷ ns) h = elim (Bool-cases (n.handle == handle)) [
  | inl e ↦ rw e (drop_names-IsSorted handle ns h.1)
  | inr e ↦
      rw e (AllCompare-drop_names handle ns n.text after h.0, drop_names-IsSorted handle ns h.1)
]

pub at-In : (ns : List HandleName) (i : ℕ) → i < length ns → In (name_at ns i) ns
at-In [] i lt = absurd (omega arith)
at-In (n ∷ ns) zero lt = inl refl
at-In (n ∷ ns) (suc i) lt = inr (at-In ns i (omega arith))

pub In-at :
    (ns : List HandleName) (n : HandleName)
    → In n ns
    → (i : ℕ) × (i < length ns) × (name_at ns i ≡ n)
In-at [] n h = elim h [ ]
In-at (m ∷ ns) n (inl e) = (0, omega arith, sym e)
In-at (m ∷ ns) n (inr h) = let (i, lt, e) = In-at ns n h in (suc i, omega arith, e)

pub In-insert :
    (k : ℕ) (ns : List HandleName) (m n : HandleName)
    → In n (take k ns ++ (m ∷ drop k ns)) ↔ ((n ≡ m) ⊎ In n ns)
In-insert zero ns m n = (λ h. h, λ h. h)
In-insert (suc k) [] m n = (λ h. h, λ h. h)
In-insert (suc k) (x ∷ ns) m n = (
  λ h. elim h [
    | inl e ↦ inr (inl e)
    | inr i ↦ elim ((In-insert k ns m n).0 i) [ inl e ↦ inl e | inr j ↦ inr (inr j) ]
  ],
  λ h. elim h [
    | inl e ↦ inr ((In-insert k ns m n).1 (inl e))
    | inr i ↦ elim i [ inl e ↦ inl e | inr j ↦ inr ((In-insert k ns m n).1 (inr j)) ]
  ],
)
