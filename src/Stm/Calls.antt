-- ===== src/Stm/Calls.antt =====
-- skynet/lualib-src/lua-stm.c: the calls on an object and a copy that are known.
use skynet_athena.Base.{
  Bool, Option, ap, if◌then◌else◌, ltb, lt→ltb, none, refl, some, suc, true, update, ℕ, ◌<◌, ◌∙◌,
  ◌≡◌,
}
use skynet_athena.Stm.{
  StmCopy, StmObject, Store, copy_at, dec_object, dec_reader, grab_at, is_gone, is_left,
  releasecopy_at, rwlock_runlock, stm_copy, stm_release, stm_releasereader, unlock_reader, ◌>>=◌,
}

-- The calls, for an object and a copy that are known.
pub copy_eq :
    (s s' : Store) (b : StmObject) (k : ℕ)
    → s.object ≡ some b
    → b.copy ≡ some k
    → grab_at s k ≡ some s'
    → stm_copy s ≡ some (some k, s')
unfolding stm_copy copy_at
copy_eq s s' b k eo ek ef =
    ap (λ o. o >>= λ (o : StmObject). copy_at s o.copy) eo
    ∙ ap (copy_at s) ek
    ∙ ap (λ o. o >>= λ (t : Store). some (some k, t)) ef

pub release_eq :
    (s s' : Store) (b : StmObject) (k : ℕ) (o' : Option StmObject)
    → s.object ≡ some b
    → b.copy ≡ some k
    → releasecopy_at s k ≡ some s'
    → dec_object (record b { copy = none }) ≡ some o'
    → stm_release s ≡ some (record s' { object = o' })
unfolding stm_release
release_eq s s' b k o' eo ek ef ed =
    ap (λ o. o >>= after) eo
    ∙ ap (λ k. k >>= λ (k : ℕ). releasecopy_at s k >>= put b) ek
    ∙ ap (λ t. t >>= put b) ef
    ∙ ap (λ o. o >>= λ (o : Option StmObject). some (record s' { object = o })) ed
  where
    put : StmObject → Store → Option Store
    put o t = dec_object (record o { copy = none }) >>= λ (o'' : Option StmObject).
        some (record t { object = o'' })

    after : StmObject → Option Store
    after o = o.copy >>= λ (k : ℕ). releasecopy_at s k >>= put o

pub dec_reader_eq :
    (s : Store) (b : StmObject) (o' : Option StmObject)
    → s.object ≡ some b
    → dec_object b ≡ some o'
    → is_left o' b.copy ≡ true
    → dec_reader s ≡ some (is_gone o', record s { object = o' })
unfolding dec_reader
dec_reader_eq s b o' eo ed el =
    ap (λ o. o >>= λ (o : StmObject). dec_object o >>= put o) eo
    ∙ ap (λ o. o >>= put b) ed
    ∙ ap (λ t. if t then some (is_gone o', record s { object = o' }) else none) el
  where
    put : StmObject → Option StmObject → Option (Bool × Store)
    put o p = if is_left p o.copy then some (is_gone p, record s { object = p }) else none

pub unlock_eq :
    (s : Store) (o' : Option StmObject)
    → unlock_reader (is_gone o') (record s { object = o' }) ≡ some (record s { object = o' })
unfolding unlock_reader rwlock_runlock is_gone
unlock_eq s none = refl
unlock_eq s (some b) = refl

pub releasereader_eq :
    (s : Store) (b : StmObject) (o' : Option StmObject)
    → s.object ≡ some b
    → dec_object b ≡ some o'
    → is_left o' b.copy ≡ true
    → stm_releasereader s ≡ some (record s { object = o' })
unfolding stm_releasereader
releasereader_eq s b o' eo ed el =
    ap (λ p. p >>= λ ((l, t) : Bool × Store). unlock_reader l t) (dec_reader_eq s b o' eo ed el)
    ∙ unlock_eq s o'

pub grab_eq :
    (s : Store) (k : ℕ) (c : StmCopy)
    → s.copies k ≡ some c
    → 0 < c.reference
    → grab_at s k
      ≡ some (record s {
        copies = update s.copies k (some (record c { reference = suc c.reference }));
      })
unfolding grab_at
grab_eq s k c e lt =
    ap (λ o. o >>= after) e ∙ ap (λ t. if t then taken c else none) (lt→ltb 0 c.reference lt)
  where
    taken : StmCopy → Option Store
    taken d =
        some (record s {
          copies = update s.copies k (some (record d { reference = suc d.reference }));
        })

    after : StmCopy → Option Store
    after d = if ltb 0 d.reference then taken d else none
