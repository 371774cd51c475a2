-- ===== src/Stm/Swap.antt =====
-- skynet/lualib-src/lua-stm.c: the locked part of an update, which puts a new copy in place.
use skynet_athena.Base.{
  Option, ap, arith, none, refl, some, subst, suc, sym, true, update, update_ne, ℕ, ◌+◌, ◌∙◌, ◌≡◌,
}
use skynet_athena.Stm.{StmCopy, StmObject, Store, stm_newcopy, swap_copy, ◌>>=◌}
use skynet_athena.Stm.Holders.{Shared, hold}
use skynet_athena.Stm.Counts.{CopyIs, IsCounted, current, points, update-CopyIs}
use skynet_athena.Stm.Sums.{count_ext, swap_sum}

-- The counts of the copies, for the object that the store is known to have.
pub copies_of :
    (w : Shared) (b : StmObject)
    → IsCounted w
    → w.store.object ≡ some b
    → (j : ℕ) → CopyIs (w.store.copies j) (w.holders.held j + points b.copy j)
copies_of w b is e j =
    subst (λ o. CopyIs (w.store.copies j) (w.holders.held j + current o j)) e (is.copies j)

unreferenced : (o : Option StmCopy) (v : ℕ) → o ≡ none → CopyIs o v → v ≡ 0
unreferenced o v e is = subst (λ o. CopyIs o v) e is

-- The new copy leads to the address that was not used, where nothing led before.
pub fresh_unheld :
    (w : Shared) (b : StmObject) (k : ℕ)
    → IsCounted w
    → w.store.object ≡ some b
    → b.copy ≡ some k
    → w.holders.held w.store.fresh + points (some k) w.store.fresh ≡ 0
fresh_unheld w b k is eo ek =
    subst (λ o. w.holders.held w.store.fresh + points o w.store.fresh ≡ 0) ek
      (unreferenced _ _ (is.unused w.store.fresh (omega arith)) (copies_of w b is eo w.store.fresh))

-- After the locked part of `stm_update`, for the object `b` and its copy at `k`.
abbrev pub swapped : Shared → ℕ → ℕ → StmObject → ℕ → Shared
swapped w msg sz b k = record {
  store = record {
    object = some (record b { copy = some w.store.fresh });
    copies =
        update w.store.copies w.store.fresh (some (record { reference = 1; sz = sz; msg = msg }));
    fresh = suc w.store.fresh;
  };
  holders = record w.holders { held = hold (some k) w.holders.held };
}

pub swap_eq :
    (w : Shared) (msg sz : ℕ) (b : StmObject) (k : ℕ)
    → w.store.object ≡ some b
    → b.copy ≡ some k
    → swap_copy w.store msg sz ≡ some (some k, (swapped w msg sz b k).store)
unfolding swap_copy stm_newcopy
swap_eq w msg sz b k eo ek =
    ap (λ o. o >>= after) eo ∙ ap (λ c. some (c, (swapped w msg sz b k).store)) ek
  where
    after : StmObject → Option (Option ℕ × Store)
    after o = some (o.copy, (swapped w msg sz o k).store)

pub swapped-IsCounted :
    (w : Shared) (msg sz : ℕ) (b : StmObject) (k : ℕ)
    → IsCounted w
    → w.holders.writer ≡ true
    → w.store.object ≡ some b
    → b.copy ≡ some k
    → b.reference ≡ suc w.holders.readers
    → IsCounted (swapped w msg sz b k)
swapped-IsCounted w msg sz b k is e eo ek er =
    let c : StmCopy = record { reference = 1; sz = sz; msg = msg } in
    let n : ℕ → ℕ = λ j. w.holders.held j + points b.copy j in
    record {
      object = (rw e (omega (arith, er)), omega (arith, er), e);
      copies =
          count_ext _ (update n w.store.fresh 1) _
            (update-CopyIs w.store.copies n w.store.fresh (some c) 1 (copies_of w b is eo)
              (refl, omega arith))
            (subst
              (λ o.
                (j : ℕ)
                → update (λ i. w.holders.held i + points o i) w.store.fresh 1 j
                  ≡ update w.holders.held k (suc (w.holders.held k)) j
                    + points (some w.store.fresh) j)
              (sym ek) (swap_sum w.holders.held k w.store.fresh (fresh_unheld w b k is eo ek)));
      unused = λ j le.
          update_ne w.store.copies w.store.fresh j (some c) (omega arith)
          ∙ is.unused j (omega arith);
      there = λ lt. (record b { copy = some w.store.fresh }, refl);
    }
