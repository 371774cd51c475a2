-- ===== src/Stm/Holders.antt =====
-- skynet/lualib-src/lua-stm.c: who holds a reference, and what the holders call in any order.
use mathlib.Core.Option
use skynet_athena.Base.{
  Bool, Option, false, if◌then◌else◌, none, some, suc, true, update, ℕ, ◌-◌, ◌<◌, ◌≡◌, ◌≤◌, ◌⊎◌,
}
use skynet_athena.Stm.{
  Store, dec_reader, rwlock_runlock, stm_copy, stm_grab, stm_new, stm_release, stm_releasecopy,
  swap_copy,
}

-- Who holds a reference: the writer, the readers, and by address how often a copy is held; and how
-- many readers have given up theirs and have yet to unlock.
pub record Holders : Type 0 where
  pub writer : Bool
  pub readers : ℕ
  pub held : ℕ → ℕ
  pub leaving : ℕ

-- The copy at an address held once more, where there is one.
abbrev pub hold : Option ℕ → (ℕ → ℕ) → ℕ → ℕ
hold none held = held
hold (some k) held = update held k (suc (held k))

-- The store together with its holders.
pub record Shared : Type 0 where
  pub store : Store
  pub holders : Holders

-- What a holder does. `swap` is the locked part of `stm_update`, whose release of the old copy is a
-- `release_copy`; `leave` and `unlock` are the two steps of `stm_releasereader`.
pub data Action : Type 0 where
  grab : Action
  copy_out : Action
  swap : ℕ → ℕ → Action
  release_copy : ℕ → Action
  leave : Action
  unlock : Action
  release : Action

-- Only a holder acts: the writer hands out readers (`lcopy`), updates and leaves; a reader takes
-- copies (`lread`) and leaves; whoever holds a copy gives it back. The write lock waits for the
-- readers that have yet to unlock. The last reference is not given up while another reader has yet to
-- unlock, which the code does not ensure (Race).
abbrev pub IsAllowed : Action → Holders → Type 0
IsAllowed grab h = h.writer ≡ true
IsAllowed copy_out h = 0 < h.readers
IsAllowed (swap msg sz) h = (h.writer ≡ true) × (h.leaving ≡ 0)
IsAllowed (release_copy k) h = 0 < h.held k
IsAllowed leave h = (0 < h.readers) × ((h.leaving ≡ 0) ⊎ ((h.writer ≡ true) ⊎ (2 ≤ h.readers)))
IsAllowed unlock h = 0 < h.leaving
IsAllowed release h = (h.writer ≡ true) × (h.leaving ≡ 0)

-- The call of an action, and who holds what afterwards.
unfoldable pub perform : Action → Shared → Option Shared
perform grab w =
    Option.map
      (λ s. record { store = s; holders = record w.holders { readers = suc w.holders.readers } })
      (stm_grab w.store)
perform copy_out w =
    Option.map
      (λ (k, s). record { store = s; holders = record w.holders { held = hold k w.holders.held } })
      (stm_copy w.store)
perform (swap msg sz) w =
    Option.map
      (λ (k, s). record { store = s; holders = record w.holders { held = hold k w.holders.held } })
      (swap_copy w.store msg sz)
perform (release_copy k) w =
    Option.map
      (λ s. record {
        store = s;
        holders = record w.holders { held = update w.holders.held k (w.holders.held k - 1) };
      })
      (stm_releasecopy w.store (some k))
perform leave w =
    Option.map
      (λ (last, s). record {
        store = s;
        holders = record w.holders {
          readers = w.holders.readers - 1;
          leaving = if last then w.holders.leaving else suc w.holders.leaving;
        };
      })
      (dec_reader w.store)
perform unlock w =
    Option.map
      (λ s. record { store = s; holders = record w.holders { leaving = w.holders.leaving - 1 } })
      (rwlock_runlock w.store)
perform release w =
    Option.map (λ s. record { store = s; holders = record w.holders { writer = false } })
      (stm_release w.store)

-- A new object, held by its writer.
unfoldable pub shared_new : ℕ → ℕ → Shared
shared_new msg sz = record {
  store = stm_new msg sz;
  holders = record { writer = true; readers = 0; held = λ k. 0; leaving = 0 };
}

-- Any sequence of allowed actions on a new object.
pub data Reach : Shared → Type 0 where
  new : (msg sz : ℕ) → Reach (shared_new msg sz)
  next :
      {w w' : Shared} (a : Action)
      → Reach w
      → IsAllowed a w.holders
      → perform a w ≡ some w'
      → Reach w'
