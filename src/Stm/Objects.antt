-- ===== src/Stm/Objects.antt =====
-- skynet/lualib-src/lua-stm.c: the count of the object, as its writer or a reader leaves.
use skynet_athena.Base.{
  Bool, Option, Option-cases, arith, false, inl, inr, none, refl, some, subst, suc, sym, true, zero,
  ℕ, ◌+◌, ◌-◌, ◌<◌, ◌∙◌, ◌≡◌, ◌≢◌,
}
use skynet_athena.Stm.{StmObject, dec_object, is_left}
use skynet_athena.Stm.Counts.{HasCopy, ObjectIs, current, points, weight}

pub true_ne_false : true ≢ false
true_ne_false e = subst (λ b. elim b [ true ↦ Unit | false ↦ ⊥ ]) e tt

pub has_writer :
    (o : Option StmObject) {r : ℕ} (w : Bool)
    → ObjectIs o w r
    → w ≡ true
    → (b : StmObject) × (k : ℕ) × (o ≡ some b) × (b.copy ≡ some k) × (b.reference ≡ suc r)
has_writer none w is e = absurd (true_ne_false (sym e ∙ is.0))
has_writer (some b) {r} w is e = elim (Option-cases b.copy) [
  | inl c ↦ absurd (true_ne_false (sym e ∙ subst (λ o. HasCopy o w) c is.2))
  | inr (k, c) ↦ (b, k, refl, c, subst (λ v. b.reference ≡ weight v + r) e is.0 ∙ omega arith)
]

pub has_reader :
    (o : Option StmObject) {r : ℕ} (w : Bool)
    → ObjectIs o w r
    → 0 < r
    → (b : StmObject) × (o ≡ some b) × (b.reference ≡ weight w + r) × HasCopy b.copy w
has_reader none w is lt = absurd (omega (arith, is.1))
has_reader (some b) w is lt = (b, refl, is.0, is.2)

-- Without its copy, an object that loses one reference of several has readers, and else is freed.
pub dec_object-ObjectIs :
    (b : StmObject) (r : ℕ)
    → b.copy ≡ none
    → b.reference ≡ suc r
    → (o : Option StmObject) × (dec_object b ≡ some o)
      × ObjectIs o false r
      × ((j : ℕ) → current o j ≡ 0)
unfolding dec_object
dec_object-ObjectIs b zero c e = (none, ground arith, (refl, refl), λ j. refl)
dec_object-ObjectIs b (suc r) c e = (
  some (record b { reference = b.reference - 1 }),
  ground arith,
  (omega arith, omega arith, rw c refl),
  λ j. rw c refl,
)

pub without_writer : (c : Option ℕ) → HasCopy c false → c ≡ none
without_writer none h = refl
without_writer (some k) h = absurd (true_ne_false (sym h))

-- A reader that is not the last reference leaves the object and its copy; the last one leaves an
-- object without a copy, which is freed.
pub drop_reader :
    (b : StmObject) (w : Bool) (r : ℕ)
    → ObjectIs (some b) w (suc r)
    → (o : Option StmObject) × (dec_object b ≡ some o)
      × (is_left o b.copy ≡ true)
      × ObjectIs o w r
      × ((j : ℕ) → current o j ≡ points b.copy j)
unfolding dec_object is_left
drop_reader b true r is = (
  some (record b { reference = b.reference - 1 }),
  ground (arith, is.0),
  refl,
  (omega (arith, is.0), omega (arith, is.0), is.2),
  λ j. refl,
)
drop_reader b false zero is =
    let c = without_writer b.copy is.2 in
    (none, ground (arith, is.0), rw (c, is_left) refl, (refl, refl), λ j. rw c refl)
drop_reader b false (suc r) is = (
  some (record b { reference = b.reference - 1 }),
  ground (arith, is.0),
  refl,
  (omega (arith, is.0), omega (arith, is.0), is.2),
  λ j. refl,
)

pub object_gone :
    (o : Option StmObject) {r : ℕ} (w : Bool) → ObjectIs o w r → w ≡ false → r ≡ 0 → o ≡ none
object_gone none w is e z = refl
object_gone (some b) true is e z = absurd (true_ne_false e)
object_gone (some b) false is e z = absurd (omega (arith, is.0, is.1))
