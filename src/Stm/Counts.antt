-- ===== src/Stm/Counts.antt =====
-- skynet/lualib-src/lua-stm.c: every count of references is the number of those who hold one.
use skynet_athena.Stm.Holders.{Shared}
use mathlib.Core.Option
use skynet_athena.Base.{
  Bool, Bool-cases, Option, ap, arith, false, if◌then◌else◌, inl, inr, none, refl, some, subst, suc,
  sym, true, update, update_all, update_ne, ℕ, ◌+◌, ◌-◌, ◌<◌, ◌==◌, ◌∙◌, ◌≡◌, ◌≢◌, ◌≤◌,
}
use skynet_athena.Stm.{StmCopy, StmObject, Store, dec_copy, grab_at, releasecopy_at}

-- The references to the object that its writer holds.
abbrev pub weight : Bool → ℕ
weight true = 1
weight false = 0

-- The references to the copy at an address that the object holds.
abbrev pub points : Option ℕ → ℕ → ℕ
points none k = 0
points (some j) k = if k == j then 1 else 0

abbrev pub current : Option StmObject → ℕ → ℕ
current none k = 0
current (some o) k = points o.copy k

-- A copy that `n` references lead to: it is freed where there is none.
abbrev pub CopyIs : Option StmCopy → ℕ → Type 0
CopyIs none n = n ≡ 0
CopyIs (some c) n = (c.reference ≡ n) × (0 < n)

-- The object has a copy as long as its writer is there.
abbrev pub HasCopy : Option ℕ → Bool → Type 0
HasCopy none w = w ≡ false
HasCopy (some k) w = w ≡ true

abbrev pub ObjectIs : Option StmObject → Bool → ℕ → Type 0
ObjectIs none w r = (w ≡ false) × (r ≡ 0)
ObjectIs (some o) w r = (o.reference ≡ weight w + r) × (0 < o.reference) × HasCopy o.copy w

-- The counts are right, no copy lives at an address not used yet, and the object that a reader has yet
-- to unlock is there.
pub record IsCounted (w : Shared) : Type 0 where
  pub object : ObjectIs w.store.object w.holders.writer w.holders.readers
  pub copies : (k : ℕ) → CopyIs (w.store.copies k) (w.holders.held k + current w.store.object k)
  pub unused : (k : ℕ) → w.store.fresh ≤ k → w.store.copies k ≡ none
  pub there : 0 < w.holders.leaving → (o : StmObject) × (w.store.object ≡ some o)

-- A copy that some reference leads to is not freed.
pub live :
    (o : Option StmCopy) {n : ℕ}
    → CopyIs o n
    → 0 < n
    → (c : StmCopy) × (o ≡ some c) × (c.reference ≡ n)
live none is lt = absurd (omega arith)
live (some c) is lt = (c, refl, is.0)

dec_copy-CopyIs :
    (c : StmCopy)
    → 0 < c.reference
    → (o : Option StmCopy) × (dec_copy c ≡ some o) × CopyIs o (c.reference - 1)
unfolding dec_copy
dec_copy-CopyIs c lt = elim (Bool-cases (c.reference - 1 == 0)) [
  | inl e ↦ (none, ground arith, ground arith)
  | inr e ↦ (some (record c { reference = c.reference - 1 }), ground arith, (refl, ground arith))
]

-- A copy changed at one address, and the number of references to it with it.
pub update-CopyIs :
    (f : ℕ → Option StmCopy) (n : ℕ → ℕ) (k : ℕ) (o : Option StmCopy) (m : ℕ)
    → ((j : ℕ) → CopyIs (f j) (n j))
    → CopyIs o m
    → (j : ℕ) → CopyIs (update f k o j) (update n k m j)
update-CopyIs f n k o m is h j = elim (Bool-cases (j == k)) [ inl e ↦ rw e h | inr e ↦ rw e (is j) ]

keeps_freed :
    (f : ℕ → Option StmCopy) (k : ℕ) (c : StmCopy) (o : Option StmCopy)
    → f k ≡ some c
    → (j : ℕ) → f j ≡ none
    → update f k o j ≡ none
keeps_freed f k c o e =
    update_all (λ j p. f j ≡ none → p ≡ none) f k o
      (λ h. absurd (Option.some-ne-none c (sym e ∙ h))) λ j ne h. h

-- Releasing a copy that a reference leads to succeeds, one reference less leads to it, and no other
-- copy changes.
pub releasecopy_at-CopyIs :
    (s : Store) (k : ℕ) (n : ℕ → ℕ)
    → ((j : ℕ) → CopyIs (s.copies j) (n j))
    → 0 < n k
    → (f : ℕ → Option StmCopy) × (releasecopy_at s k ≡ some (record s { copies = f }))
      × ((j : ℕ) → CopyIs (f j) (update n k (n k - 1) j))
      × ((j : ℕ) → s.copies j ≡ none → f j ≡ none)
      × ((j : ℕ) → j ≢ k → f j ≡ s.copies j)
unfolding releasecopy_at
releasecopy_at-CopyIs s k n is lt =
    let (c, e, r) = live (s.copies k) (is k) lt in
    let (o, d, is') = dec_copy-CopyIs c (rw r lt) in
    (
      update s.copies k o,
      rw (e, releasecopy_at) (rw d refl),
      update-CopyIs s.copies n k o (n k - 1) is (subst (λ m. CopyIs o (m - 1)) r is'),
      keeps_freed s.copies k c o e,
      λ j ne. update_ne s.copies k j o ne,
    )

-- Taking a copy that a reference leads to succeeds, and one reference more leads to it.
pub grab_at-CopyIs :
    (s : Store) (k : ℕ) (n : ℕ → ℕ)
    → ((j : ℕ) → CopyIs (s.copies j) (n j))
    → 0 < n k
    → (f : ℕ → Option StmCopy) × (grab_at s k ≡ some (record s { copies = f }))
      × ((j : ℕ) → CopyIs (f j) (update n k (suc (n k)) j))
      × ((j : ℕ) → s.copies j ≡ none → f j ≡ none)
unfolding grab_at
grab_at-CopyIs s k n is lt =
    let (c, e, r) = live (s.copies k) (is k) lt in
    let o : Option StmCopy = some (record c { reference = suc c.reference }) in
    (
      update s.copies k o,
      rw (e, grab_at) (ground arith),
      update-CopyIs s.copies n k o (suc (n k)) is (ap suc r, omega arith),
      keeps_freed s.copies k c o e,
    )
