-- ===== src/Stm/Safety.antt =====
-- skynet/lualib-src/lua-stm.c: whatever the holders do, no call fails, and nothing is left over.
use skynet_athena.Stm.Holders.{
  Action, IsAllowed, Reach, Shared, copy_out, grab, leave, new, next, perform, release,
  release_copy, shared_new, swap, unlock,
}
use skynet_athena.Stm.Swap.{copies_of, fresh_unheld, swap_eq, swapped, swapped-IsCounted}
use skynet_athena.Stm.Calls.{copy_eq, grab_eq}
use mathlib.Core.Option
use skynet_athena.Base.{
  Option, ap, ap₂, arith, false, none, refl, some, subst, suc, sym, true, update, update_self, ℕ,
  ◌+◌, ◌∙◌, ◌≡◌, ◌≢◌,
}
use skynet_athena.Stm.{
  StmCopy, StmObject, Store, stm_copy, stm_new, stm_newcopy, stm_releasecopy, stm_update, ◌>>=◌,
}
use skynet_athena.Stm.Counts.{
  CopyIs, IsCounted, current, live, points, releasecopy_at-CopyIs, update-CopyIs,
}
use skynet_athena.Stm.Sums.{count_ext, points_self}
use skynet_athena.Stm.Objects.{has_writer, object_gone}
use skynet_athena.Stm.Progress.{
  Progress, copy_out-Progress, grab-Progress, leave-Progress, release-Progress,
  release_copy-Progress, swap-Progress, unlock-Progress,
}

-- An allowed action on counted references does not fail, and leaves them counted.
perform-IsCounted : (a : Action) (w : Shared) → IsCounted w → IsAllowed a w.holders → Progress a w
perform-IsCounted grab w is ok = grab-Progress w is ok
perform-IsCounted copy_out w is ok = copy_out-Progress w is ok
perform-IsCounted (swap msg sz) w is ok = swap-Progress w msg sz is ok.0
perform-IsCounted (release_copy k) w is ok = release_copy-Progress w k is ok
perform-IsCounted leave w is ok = leave-Progress w is ok.0 ok.1
perform-IsCounted unlock w is ok = unlock-Progress w is ok
perform-IsCounted release w is ok = release-Progress w is ok.0 ok.1

first_copy :
    (c : StmCopy)
    → c.reference ≡ 1
    → (k : ℕ) → CopyIs (update (λ j. none) 0 (some c) k) (0 + points (some 0) k)
first_copy c e =
    count_ext _ (update (λ j. 0) 0 1) _
      (update-CopyIs (λ j. none) (λ j. 0) 0 (some c) 1 (λ j. refl) (e, omega arith))
      λ j. omega arith

shared_new-IsCounted : (msg sz : ℕ) → IsCounted (shared_new msg sz)
unfolding shared_new stm_new stm_newcopy
shared_new-IsCounted msg sz = record {
  object = (refl, omega arith, refl);
  copies = first_copy _ refl;
  unused = λ j le. ground arith;
  there = λ lt. (_, refl);
}

pub Reach-IsCounted : {w : Shared} → Reach w → IsCounted w
Reach-IsCounted (new msg sz) = shared_new-IsCounted msg sz
Reach-IsCounted (next {w} {w'} a r ok e) =
    let (v, f, is) = perform-IsCounted a w (Reach-IsCounted r) ok in
    subst IsCounted (Option.some-injective _ _ (sym f ∙ e)) is

-- However the holders of a new object interleave their calls, with the two steps of a leaving reader
-- apart, as long as the last reference is not given up while another reader has yet to unlock: the
-- next step of one of them does not fail, so no assertion is violated, and no freed memory is used.
pub no_fault :
    {w : Shared} (a : Action)
    → Reach w
    → IsAllowed a w.holders
    → (w' : Shared) × (perform a w ≡ some w')
no_fault {w} a r ok = let (w', e, is) = perform-IsCounted a w (Reach-IsCounted r) ok in (w', e)

-- However the holders of a new object interleave their calls: as long as the writer is there, the
-- object lives, and it has a copy that lives.
writer_lives :
    {w : Shared}
    → Reach w
    → w.holders.writer ≡ true
    → (o : StmObject) × (k : ℕ) × (c : StmCopy) × (w.store.object ≡ some o)
      × (o.copy ≡ some k)
      × (w.store.copies k ≡ some c)
writer_lives {w} r e =
    let is = Reach-IsCounted r in
    let (b, k, eo, ek, er) = has_writer w.store.object w.holders.writer is.object e in
    let (c, ec, n) =
      live (w.store.copies k) (copies_of w b is eo k) (omega (arith, points_self b.copy k ek)) in
    (b, k, c, eo, ek, ec)

copy_gone : (o : Option StmCopy) {n : ℕ} → CopyIs o n → n ≡ 0 → o ≡ none
copy_gone none is z = refl
copy_gone (some c) is z = absurd (omega (arith, is.1))

-- However the holders of a new object interleave their calls, with the two steps of a leaving reader
-- apart, as long as the last reference is not given up while another reader has yet to unlock: once
-- the writer and all readers have left and no copy is held, the object and every copy are freed.
pub all_freed :
    {w : Shared}
    → Reach w
    → w.holders.writer ≡ false
    → w.holders.readers ≡ 0
    → ((k : ℕ) → w.holders.held k ≡ 0)
    → (w.store.object ≡ none) × ((k : ℕ) → w.store.copies k ≡ none)
all_freed {w} r nw nr nh =
    let is = Reach-IsCounted r in
    let no_object = object_gone w.store.object w.holders.writer is.object nw nr in
    (
      no_object,
      λ k.
          copy_gone (w.store.copies k) (is.copies k)
            (ap₂ ◌+◌ (nh k) (ap (λ o. current o k) no_object) ∙ omega arith),
    )

-- However the holders of a new object interleave their calls: as long as the writer is there, its
-- `stm_update` does not fail, and the next `stm_copy` returns the new message and its size.
pub stm_copy-stm_update :
    {w : Shared} (msg sz : ℕ)
    → Reach w
    → w.holders.writer ≡ true
    → (s s' : Store) × (k : ℕ) × (c : StmCopy) × (stm_update w.store msg sz ≡ some s)
      × (stm_copy s ≡ some (some k, s'))
      × (s'.copies k ≡ some c)
      × (c.msg ≡ msg)
      × (c.sz ≡ sz)
unfolding stm_update stm_releasecopy
stm_copy-stm_update {w} msg sz r e =
    let is = Reach-IsCounted r in
    let (b, k, eo, ek, er) = has_writer w.store.object w.holders.writer is.object e in
    let new_copy : StmCopy = record { reference = 1; sz = sz; msg = msg } in
    let read_copy : StmCopy = record { reference = 2; sz = sz; msg = msg } in
    let m = w.store.fresh in
    let w1 = swapped w msg sz b k in
    let is1 = swapped-IsCounted w msg sz b k is e eo ek er in
    let (f, ef, cf, un, same) =
      releasecopy_at-CopyIs w1.store k (λ j. w1.holders.held j + current w1.store.object j)
        is1.copies (omega (arith, update_self w.holders.held k (suc (w.holders.held k)))) in
    let ne : m ≢ k =
      λ q. omega (arith, fresh_unheld w b k is eo ek, points_self (some k) m (ap some (sym q))) in
    let at_m : f m ≡ some new_copy = same m ne ∙ update_self w.store.copies m (some new_copy) in
    (
      record w1.store { copies = f },
      record w1.store { copies = update f m (some read_copy) },
      m,
      read_copy,
      ap (λ p. p >>= λ ((o, s) : Option ℕ × Store). stm_releasecopy s o)
            (swap_eq w msg sz b k eo ek)
          ∙ ef,
      copy_eq _ _ (record b { copy = some m }) m refl refl
          (grab_eq _ m new_copy at_m (omega arith)),
      update_self f m (some read_copy),
      refl,
      refl,
    )
