-- ===== src/Stm.antt =====
-- skynet/lualib-src/lua-stm.c: an object that one writer and any number of readers share, and the
-- counts of references to it and to its copies. `none` is an assertion that fails, memory used after
-- it is freed, or a count that would fall below 0. The counts do not wrap.
mod Calls
mod Counts
mod Holders
mod Objects
mod Progress
mod Race
mod Safety
mod Sums
mod Swap
mod Tests
use mathlib.Core.Option
use skynet_athena.Base.{
  Bool, Option, false, if◌then◌else◌, ltb, none, some, suc, true, update, ℕ, ◌-◌, ◌==◌,
}

-- `struct stm_copy`, with the address of its message.
pub record StmCopy : Type 0 where
  pub reference : ℕ
  pub sz : ℕ
  pub msg : ℕ

-- `struct stm_object`. The lock is not a field: what runs under it is one step, but for
-- `stm_releasereader`.
pub record StmObject : Type 0 where
  pub reference : ℕ
  pub copy : Option ℕ

-- One object, the copies by address, and the first address not used yet. `none` is freed memory.
pub record Store : Type 0 where
  pub object : Option StmObject
  pub copies : ℕ → Option StmCopy
  pub fresh : ℕ

infixl 5 ◌>>=◌
abbrev pub ◌>>=◌ : {A B : Type 0} → Option A → (A → Option B) → Option B
some a >>= f = f a
none >>= f = none

-- `stm_newcopy`, at the address `fresh`.
unfoldable pub stm_newcopy : Store → ℕ → ℕ → Store
stm_newcopy s msg sz = record s {
  copies = update s.copies s.fresh (some (record { reference = 1; sz = sz; msg = msg }));
  fresh = suc s.fresh;
}

-- `stm_new`.
unfoldable pub stm_new : ℕ → ℕ → Store
stm_new msg sz =
    let s = stm_newcopy (record { object = none; copies = λ k. none; fresh = 0 }) msg sz in
    record s { object = some (record { reference = 1; copy = some 0 }) }

-- A copy after `ATOM_DEC` of its count: freed where the count is 0 then.
unfoldable pub dec_copy : StmCopy → Option (Option StmCopy)
dec_copy c =
    if c.reference == 0
    then none
    else if c.reference - 1 == 0
    then some none
    else some (some (record c { reference = c.reference - 1 }))

-- `stm_releasecopy` of the copy at an address.
unfoldable pub releasecopy_at : Store → ℕ → Option Store
releasecopy_at s k = do
  c ← s.copies k
  c' ← dec_copy c
  some (record s { copies = update s.copies k c' })

-- `stm_releasecopy`, where `none` is `NULL`.
unfoldable pub stm_releasecopy : Store → Option ℕ → Option Store
stm_releasecopy s none = some s
stm_releasecopy s (some k) = releasecopy_at s k

-- The object after its count goes down: freed where the count is 0 then.
unfoldable pub dec_object : StmObject → Option (Option StmObject)
dec_object o =
    if o.reference == 0
    then none
    else if o.reference - 1 == 0
    then some none
    else some (some (record o { reference = o.reference - 1 }))

-- `stm_release`: the writer leaves.
unfoldable pub stm_release : Store → Option Store
stm_release s = do
  o ← s.object
  k ← o.copy
  s' ← releasecopy_at s k
  o' ← dec_object (record o { copy = none })
  some (record s' { object = o' })

-- The assertion of `stm_releasereader`: the last reader leaves no copy behind.
unfoldable pub is_left : Option StmObject → Option ℕ → Bool
is_left (some o) k = true
is_left none none = true
is_left none (some k) = false

unfoldable pub is_gone : Option StmObject → Bool
is_gone none = true
is_gone (some o) = false

-- `stm_releasereader` up to the unlock, which the last reader leaves out: it has freed the object.
unfoldable pub dec_reader : Store → Option (Bool × Store)
dec_reader s = do
  o ← s.object
  o' ← dec_object o
  if is_left o' o.copy then some (is_gone o', record s { object = o' }) else none

-- `rwlock_runlock` writes to the lock in the object.
unfoldable pub rwlock_runlock : Store → Option Store
rwlock_runlock s = do o ← s.object; some s

unfoldable pub unlock_reader : Bool → Store → Option Store
unlock_reader true s = some s
unlock_reader false s = rwlock_runlock s

-- `stm_releasereader`, both steps together.
unfoldable pub stm_releasereader : Store → Option Store
stm_releasereader s = do (last, s') ← dec_reader s; unlock_reader last s'

-- `stm_grab`.
unfoldable pub stm_grab : Store → Option Store
stm_grab s = do
  o ← s.object
  (if ltb 0 o.reference
      then some (record s { object = some (record o { reference = suc o.reference }) })
      else none)

-- A copy taken once more, as `stm_copy` does.
unfoldable pub grab_at : Store → ℕ → Option Store
grab_at s k = do
  c ← s.copies k
  (if ltb 0 c.reference
      then some (record s {
        copies = update s.copies k (some (record c { reference = suc c.reference }));
      })
      else none)

-- The body of `stm_copy`, on the copy that the object has.
unfoldable pub copy_at : Store → Option ℕ → Option (Option ℕ × Store)
copy_at s none = some (none, s)
copy_at s (some k) = do s' ← grab_at s k; some (some k, s')

-- `stm_copy`.
unfoldable pub stm_copy : Store → Option (Option ℕ × Store)
stm_copy s = do o ← s.object; copy_at s o.copy

-- `stm_update` up to the write unlock: the new copy is in place, and the old one is returned.
unfoldable pub swap_copy : Store → ℕ → ℕ → Option (Option ℕ × Store)
swap_copy s msg sz = do
  o ← s.object
  let s' = stm_newcopy s msg sz
  some (o.copy, record s' { object = some (record o { copy = some s.fresh }) })

-- `stm_update`.
unfoldable pub stm_update : Store → ℕ → ℕ → Option Store
stm_update s msg sz = do (oldcopy, s') ← swap_copy s msg sz; stm_releasecopy s' oldcopy
