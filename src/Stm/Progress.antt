-- ===== src/Stm/Progress.antt =====
-- skynet/lualib-src/lua-stm.c: each action of a holder, on references that are counted.
use skynet_athena.Stm.Swap.{copies_of, swap_eq, swapped, swapped-IsCounted}
use skynet_athena.Stm.Holders.{
  Action, Shared, copy_out, grab, hold, leave, perform, release, release_copy, swap, unlock,
}
use mathlib.Core.Option
use skynet_athena.Base.{
  Bool, Option, Option-cases, ap, arith, false, if◌then◌else◌, inl, inr, lt→ltb, none, refl, some,
  subst, suc, sym, true, update, ℕ, ◌+◌, ◌-◌, ◌<◌, ◌∙◌, ◌≡◌, ◌≤◌, ◌⊎◌,
}
use skynet_athena.Stm.{
  StmCopy, StmObject, copy_at, is_gone, rwlock_runlock, stm_copy, stm_grab, stm_release,
  stm_releasecopy,
}
use skynet_athena.Stm.Counts.{
  CopyIs, IsCounted, ObjectIs, current, grab_at-CopyIs, points, releasecopy_at-CopyIs,
}
use skynet_athena.Stm.Sums.{count_ext, drop_sum, give_sum, held_sum, points_self}
use skynet_athena.Stm.Objects.{
  dec_object-ObjectIs, drop_reader, has_reader, has_writer, true_ne_false,
}
use skynet_athena.Stm.Calls.{copy_eq, dec_reader_eq, release_eq}

-- And back, once the counts are taken for the copy that the object has then.
copies_back :
    (f : ℕ → Option StmCopy) (held : ℕ → ℕ) {o : Option StmObject} (b : StmObject)
    → o ≡ some b
    → ((j : ℕ) → CopyIs (f j) (held j + points b.copy j))
    → (j : ℕ) → CopyIs (f j) (held j + current o j)
copies_back f held b e h = subst (λ o. (j : ℕ) → CopyIs (f j) (held j + current o j)) (sym e) h

-- What an action needs: it does not fail, and the counts are right afterwards.
abbrev pub Progress : Action → Shared → Type 0
Progress a w = (w' : Shared) × (perform a w ≡ some w') × IsCounted w'

pub grab-Progress : (w : Shared) → IsCounted w → w.holders.writer ≡ true → Progress grab w
unfolding perform stm_grab
grab-Progress w is e =
    let (b, k, eo, ek, er) = has_writer w.store.object w.holders.writer is.object e in
    (
      record {
        store = record w.store { object = some (record b { reference = suc b.reference }) };
        holders = record w.holders { readers = suc w.holders.readers };
      },
      rw (eo, perform, stm_grab) (rw (lt→ltb 0 b.reference (omega (arith, er))) refl),
      record {
        object = (rw e (omega (arith, er)), omega arith, rw ek e);
        copies = copies_of w b is eo;
        unused = is.unused;
        there = λ lt. (record b { reference = suc b.reference }, refl);
      },
    )

pub copy_out-Progress : (w : Shared) → IsCounted w → 0 < w.holders.readers → Progress copy_out w
unfolding perform stm_copy copy_at
copy_out-Progress w is lt =
    let (b, eo, er, hc) = has_reader w.store.object w.holders.writer is.object lt in
    elim (Option-cases b.copy) [
      | inl ek ↦ (w, rw (eo, perform, stm_copy) (rw (ek, copy_at) refl), is)
      | inr (k, ek) ↦
          let (f, ef, cf, un) =
            grab_at-CopyIs w.store k (λ j. w.holders.held j + points b.copy j) (copies_of w b is eo)
              (omega (arith, points_self b.copy k ek)) in
          (
            record {
              store = record w.store { copies = f };
              holders = record w.holders { held = hold (some k) w.holders.held };
            },
            ap (Option.map _) (copy_eq w.store _ b k eo ek ef),
            record {
              object = is.object;
              copies =
                  copies_back f (hold (some k) w.holders.held) b eo
                    (count_ext f _ _ cf (held_sum w.holders.held (points b.copy) k));
              unused = λ j le. un j (is.unused j le);
              there = is.there;
            },
          )
    ]

pub swap-Progress :
    (w : Shared) (msg sz : ℕ) → IsCounted w → w.holders.writer ≡ true → Progress (swap msg sz) w
unfolding perform
swap-Progress w msg sz is e =
    let (b, k, eo, ek, er) = has_writer w.store.object w.holders.writer is.object e in
    (
      swapped w msg sz b k,
      ap (Option.map _) (swap_eq w msg sz b k eo ek),
      swapped-IsCounted w msg sz b k is e eo ek er,
    )

pub release_copy-Progress :
    (w : Shared) (k : ℕ) → IsCounted w → 0 < w.holders.held k → Progress (release_copy k) w
unfolding perform stm_releasecopy
release_copy-Progress w k is lt =
    let n : ℕ → ℕ = λ j. w.holders.held j + current w.store.object j in
    let (f, ef, cf, un, same) = releasecopy_at-CopyIs w.store k n is.copies (omega arith) in
    (
      record {
        store = record w.store { copies = f };
        holders = record w.holders { held = update w.holders.held k (w.holders.held k - 1) };
      },
      rw ef refl,
      record {
        object = is.object;
        copies = count_ext f _ _ cf (give_sum w.holders.held (current w.store.object) k lt);
        unused = λ j le. un j (is.unused j le);
        there = is.there;
      },
    )

pub release-Progress :
    (w : Shared)
    → IsCounted w
    → w.holders.writer ≡ true
    → w.holders.leaving ≡ 0
    → Progress release w
unfolding perform stm_release
release-Progress w is e free =
    let (b, k, eo, ek, er) = has_writer w.store.object w.holders.writer is.object e in
    let n : ℕ → ℕ = λ j. w.holders.held j + points b.copy j in
    let (f, ef, cf, un, same) =
      releasecopy_at-CopyIs w.store k n (copies_of w b is eo)
        (omega (arith, points_self b.copy k ek)) in
    let (o, eo', io, gone) =
      dec_object-ObjectIs (record b { copy = none }) w.holders.readers refl er in
    (
      record {
        store = record w.store { object = o; copies = f };
        holders = record w.holders { writer = false };
      },
      ap (Option.map _) (release_eq w.store _ b k o eo ek ef eo'),
      record {
        object = io;
        copies = count_ext f _ _ cf λ j.
            subst
              (λ o.
                update (λ i. w.holders.held i + points o i) k (w.holders.held k + points o k - 1) j
                ≡ w.holders.held j)
              (sym ek) (drop_sum w.holders.held k j)
            ∙ omega (arith, gone j);
        unused = λ j le. un j (is.unused j le);
        there = λ lt. absurd (omega (arith, free));
      },
    )

-- A reader that has yet to unlock finds the object there: either the one that leaves leaves it, or
-- it is the last one and alone.
still_there :
    (o : Option StmObject) (w : Bool) (r l : ℕ)
    → ObjectIs o w (r - 1)
    → (l ≡ 0) ⊎ ((w ≡ true) ⊎ (2 ≤ r))
    → 0 < (if is_gone o then l else suc l)
    → (b : StmObject) × (o ≡ some b)
unfolding is_gone
still_there none w r l is (inl z) lt = absurd (omega arith)
still_there none w r l is (inr (inl t)) lt = absurd (true_ne_false (sym t ∙ is.0))
still_there none w r l is (inr (inr two)) lt = absurd (omega (arith, is.1))
still_there (some b) w r l is _ lt = (b, refl)

pub leave-Progress :
    (w : Shared)
    → IsCounted w
    → 0 < w.holders.readers
    → (w.holders.leaving ≡ 0) ⊎ ((w.holders.writer ≡ true) ⊎ (2 ≤ w.holders.readers))
    → Progress leave w
unfolding perform
leave-Progress w is lt alone =
    let r = w.holders.readers - 1 in
    let (b, eo, er, hc) = has_reader w.store.object w.holders.writer is.object lt in
    let (o, ed, el, io, same) =
      drop_reader b w.holders.writer r (omega (arith, er), omega (arith, er), hc) in
    (
      record {
        store = record w.store { object = o };
        holders = record w.holders {
          readers = r;
          leaving = if is_gone o then w.holders.leaving else suc w.holders.leaving;
        };
      },
      ap (Option.map _) (dec_reader_eq w.store b o eo ed el),
      record {
        object = io;
        copies =
            count_ext w.store.copies _ _ (copies_of w b is eo)
              λ j. ap (λ v. w.holders.held j + v) (sym (same j));
        unused = is.unused;
        there = still_there o w.holders.writer w.holders.readers w.holders.leaving io alone;
      },
    )

pub unlock-Progress : (w : Shared) → IsCounted w → 0 < w.holders.leaving → Progress unlock w
unfolding perform rwlock_runlock
unlock-Progress w is lt =
    let (b, eo) = is.there lt in
    (
      record w { holders = record w.holders { leaving = w.holders.leaving - 1 } },
      rw eo refl,
      record {
        object = is.object;
        copies = is.copies;
        unused = is.unused;
        there = λ more. (b, eo);
      },
    )
