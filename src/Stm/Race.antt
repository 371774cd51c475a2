-- ===== src/Stm/Race.antt =====
-- skynet/lualib-src/lua-stm.c: two readers that leave at the same time. The read lock does not keep
-- them apart.
use skynet_athena.Base.{
  Bool, Option, ap, arith, false, none, refl, some, subst, true, ◌+◌, ◌-◌, ◌∙◌, ◌≡◌,
}
use skynet_athena.Stm.{
  StmObject, Store, dec_object, dec_reader, is_gone, is_left, rwlock_runlock, stm_releasereader,
  unlock_reader, ◌>>=◌,
}
use skynet_athena.Stm.Calls.{dec_reader_eq, releasereader_eq}
use skynet_athena.Stm.Counts.{HasCopy, weight}
use skynet_athena.Stm.Holders.{Reach, Shared}
use skynet_athena.Stm.Objects.{has_reader, without_writer}
use skynet_athena.Stm.Safety.{Reach-IsCounted}

-- Both readers give up their references under the read lock; then the one that came second leaves,
-- and the first one unlocks.
pub leave_together : Store → Option Store
leave_together s = do
  (first, s1) ← dec_reader s
  (second, s2) ← dec_reader s1
  s3 ← unlock_reader second s2
  unlock_reader first s3

-- From every state that the holders of a new object reach, with the writer gone and two readers left: if the
-- readers leave one behind the other, the object is freed; but if both give up their references
-- before the first one unlocks, it unlocks an object that is freed already.
pub leave_together_fault :
    {w : Shared}
    → Reach w
    → w.holders.writer ≡ false
    → w.holders.readers ≡ 2
    → (leave_together w.store ≡ none)
      × ((stm_releasereader w.store >>= stm_releasereader)
          ≡ some (record w.store { object = none }))
unfolding leave_together
leave_together_fault {w} r nw nr =
    let is = Reach-IsCounted r in
    let (b, eo, er, hc) =
      has_reader w.store.object w.holders.writer is.object (omega (arith, nr)) in
    let two : b.reference ≡ 2 =
      er ∙ ap (λ v. weight v + w.holders.readers) nw ∙ omega (arith, nr) in
    let bare : b.copy ≡ none = without_writer b.copy (subst (λ v. HasCopy b.copy v) nw hc) in
    let one : StmObject = record b { reference = b.reference - 1 } in
    let d1 : dec_object b ≡ some (some one) = unfold dec_object in ground (arith, two) in
    let d2 : dec_object one ≡ some none = unfold dec_object in ground (arith, two) in
    let l2 : is_left none one.copy ≡ true = unfold is_left in rw (bare, is_left) refl in
    let s1 : Store = record w.store { object = some one } in
    let e1 = dec_reader_eq w.store b (some one) eo d1 (unfold is_left in refl) in
    let e2 = dec_reader_eq s1 one none refl d2 l2 in
    (
      ap
            (λ p. p >>= λ ((first, s1) : Bool × Store).
              dec_reader s1 >>= λ ((second, s2) : Bool × Store).
              unlock_reader second s2 >>= λ (s3 : Store). unlock_reader first s3)
            e1
          ∙ ap
              (λ p. p >>= λ ((second, s2) : Bool × Store).
                unlock_reader second s2 >>= λ (s3 : Store). unlock_reader (is_gone (some one)) s3)
              e2
          ∙ unfold unlock_reader rwlock_runlock is_gone in refl,
      ap (λ o. o >>= stm_releasereader)
            (releasereader_eq w.store b (some one) eo d1 (unfold is_left in refl))
          ∙ releasereader_eq s1 one none refl d2 l2,
    )
