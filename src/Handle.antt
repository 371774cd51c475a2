-- ===== src/Handle.antt =====
-- skynet/skynet-src/skynet_handle.c: the table of live services. A handle has the harbor in its high
-- 8 bits; the low 24 bits, masked, are the slot. Names are kept sorted for a binary search. The
-- read-write lock makes each function one step. A context is named by its address, and `handle_of`
-- reads the handle that it holds.
pub mod Register
pub mod Names
pub mod Order
mod Tests
use skynet_athena.Base.{
  Bool, List, Option, [], bit_and, bit_or, drop, false, get_or, if◌then◌else◌, leb, length, ltb,
  none, some, suc, take, true, update, zero, ℕ, ◌*◌, ◌++◌, ◌+◌, ◌-◌, ◌/◌, ◌==◌, ◌^◌, ◌∷◌,
}

abbrev pub default_slot_size : ℕ
default_slot_size = 4

abbrev pub max_slot_size : ℕ
max_slot_size = 0x40000000

abbrev pub handle_mask : ℕ
handle_mask = 0xffffff

abbrev pub handle_remote_shift : ℕ
handle_remote_shift = 24

-- `struct handle_name`; the name is its bytes.
pub record HandleName : Type 0 where
  pub text : List ℕ
  pub handle : ℕ

-- `struct handle_storage`. The slot array is indexed by masked values only; `name_count` is the
-- length of the list of names.
pub record HandleStorage : Type 0 where
  pub harbor : ℕ
  pub handle_index : ℕ
  pub slot_size : ℕ
  pub slot : ℕ → Option ℕ
  pub name_cap : ℕ
  pub names : List HandleName

-- `skynet_handle_init`.
unfoldable pub handle_init : ℕ → HandleStorage
handle_init harbor = record {
  harbor = bit_and harbor 0xff * 2 ^ handle_remote_shift;
  handle_index = 1;
  slot_size = default_slot_size;
  slot = λ _. none;
  name_cap = 2;
  names = [];
}

-- The inner loop of `skynet_handle_register`, for `n` rounds from `handle` on: the first handle whose
-- slot is free, and the slot.
unfoldable pub find_free : (ℕ → Option ℕ) → ℕ → ℕ → ℕ → Option (ℕ × ℕ)
find_free slot size zero handle = none
find_free slot size (suc n) handle =
    let h = if ltb handle_mask handle then 1 else handle in
    let hash = bit_and h (size - 1) in
    let further = find_free slot size n (h + 1) in
    elim (slot hash) [ none ↦ some (h, hash) | some _ ↦ further ]

-- The loop that moves the contexts to an array of twice the size, for `n` slots from `i` on. `none`
-- is the read through an empty slot, or the failed assertion that the new slot is free.
unfoldable pub rehash :
    (ℕ → ℕ) → (ℕ → Option ℕ) → ℕ → ℕ → ℕ → (ℕ → Option ℕ) → Option (ℕ → Option ℕ)
rehash handle_of slot size zero i fresh = some fresh
rehash handle_of slot size (suc n) i fresh = elim (slot i) [
  | none ↦ none
  | some ctx ↦
      let hash = bit_and (handle_of ctx) (size * 2 - 1) in
      let further = rehash handle_of slot size n (i + 1) (update fresh hash (some ctx)) in
      elim (fresh hash) [ none ↦ further | some _ ↦ none ]
]

-- `skynet_handle_register`, at most `rounds` times round the outer loop; `none` is a fault.
unfoldable pub register : ℕ → (ℕ → ℕ) → HandleStorage → ℕ → Option (ℕ × HandleStorage)
register zero handle_of s ctx = none
register (suc rounds) handle_of s ctx =
    elim (find_free s.slot s.slot_size s.slot_size s.handle_index) [
      | some (handle, hash) ↦ some (
        bit_or handle s.harbor,
        record s { slot = update s.slot hash (some ctx); handle_index = handle + 1 },
      )
      | none ↦
          if ltb handle_mask (s.slot_size * 2 - 1)
          then none
          else elim (rehash handle_of s.slot s.slot_size s.slot_size 0 (λ _. none)) [
            | none ↦ none
            | some fresh ↦
                register rounds handle_of (record s { slot = fresh; slot_size = s.slot_size * 2 })
                  ctx
          ]
    ]

-- The compaction loop over the names of a retired handle.
unfoldable pub drop_names : ℕ → List HandleName → List HandleName
drop_names handle [] = []
drop_names handle (n ∷ ns) =
    let rest = drop_names handle ns in if n.handle == handle then rest else n ∷ rest

-- `skynet_handle_grab`: the context, whose reference count the caller raises.
unfoldable pub grab : (ℕ → ℕ) → HandleStorage → ℕ → Option ℕ
grab handle_of s handle = elim (s.slot (bit_and handle (s.slot_size - 1))) [
  | none ↦ none
  | some ctx ↦ if handle_of ctx == handle then some ctx else none
]

-- `skynet_handle_retire`: the context to release, if the handle was live.
unfoldable pub retire : (ℕ → ℕ) → HandleStorage → ℕ → Option ℕ × HandleStorage
retire handle_of s handle = elim (grab handle_of s handle) [
  | none ↦ (none, s)
  | some ctx ↦ (
    some ctx,
    record s {
      slot = update s.slot (bit_and handle (s.slot_size - 1)) none;
      names = drop_names handle s.names;
    },
  )
]

-- One sweep of `skynet_handle_retireall` over `n` slots from `i` on: the number retired. A context
-- whose handle is still 0 is passed over.
unfoldable pub retire_sweep : (ℕ → ℕ) → ℕ → ℕ → HandleStorage → ℕ × HandleStorage
retire_sweep handle_of zero i s = (0, s)
retire_sweep handle_of (suc n) i s = elim (s.slot i) [
  | none ↦ retire_sweep handle_of n (i + 1) s
  | some ctx ↦
      if handle_of ctx == 0
      then retire_sweep handle_of n (i + 1) s
      else let (gone, s') = retire handle_of s (handle_of ctx) in
        let (count, s'') = retire_sweep handle_of n (i + 1) s' in
        (elim gone [ none ↦ count | some _ ↦ count + 1 ], s'')
]

-- `strcmp`.
pub data Ordering : Type 0 where
  before same after : Ordering

unfoldable pub strcmp : List ℕ → List ℕ → Ordering
strcmp [] [] = same
strcmp [] (b ∷ bs) = before
strcmp (a ∷ as') [] = after
strcmp (a ∷ as') (b ∷ bs) = if ltb a b then before else if ltb b a then after else strcmp as' bs

-- The binary search of `skynet_handle_findname` and `_insert_name`, on fuel, over the half-open range
-- from `begin` to `end`: the handle of an equal name, or the place to insert.
pub data Search : Type 0 where
  found : ℕ → Search
  missing : ℕ → Search

unfoldable pub search_name : List HandleName → List ℕ → ℕ → ℕ → ℕ → Search
search_name names text zero begin end = missing begin
search_name names text (suc fuel) begin end =
    let mid = (begin + end - 1) / 2 in
    let n = get_or names mid (record { text = []; handle = 0 }) in
    let right = search_name names text fuel (mid + 1) end in
    let left = search_name names text fuel begin mid in
    if leb end begin
    then missing begin
    else elim (strcmp n.text text) [ same ↦ found n.handle | before ↦ right | after ↦ left ]

-- `skynet_handle_findname`; 0 where there is no such name.
unfoldable pub findname : HandleStorage → List ℕ → ℕ
findname s text = elim (search_name s.names text (length s.names) 0 (length s.names)) [
  | found handle ↦ handle
  | missing _ ↦ 0
]

-- `_insert_name_before`; `none` is the failed assertion on the capacity.
unfoldable pub insert_name_before : HandleStorage → HandleName → ℕ → Option HandleStorage
insert_name_before s n before' =
    let names = take before' s.names ++ (n ∷ drop before' s.names) in
    if leb s.name_cap (length s.names)
    then (if ltb max_slot_size (s.name_cap * 2)
        then none
        else some (record s { names = names; name_cap = s.name_cap * 2 }))
    else some (record s { names = names })

-- `skynet_handle_namehandle` with `_insert_name`; the flag says that the name was taken.
unfoldable pub namehandle : HandleStorage → ℕ → List ℕ → Option (Bool × HandleStorage)
namehandle s handle text = elim (search_name s.names text (length s.names) 0 (length s.names)) [
  | found _ ↦ some (true, s)
  | missing begin ↦ elim (insert_name_before s (record { text = text; handle = handle }) begin) [
    | none ↦ none
    | some s' ↦ some (false, s')
  ]
]
