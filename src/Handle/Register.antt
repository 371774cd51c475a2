-- ===== src/Handle/Register.antt =====
-- skynet/skynet-src/skynet_handle.c: what registering and retiring do to the other handles.
use skynet_athena.Handle.{
  HandleName, HandleStorage, drop_names, find_free, grab, handle_mask, register, rehash, retire,
}
use skynet_athena.Base.{
  In, List, Option, Option-cases, [], ap, arith, bit_and, bit_or, false, if◌then◌else◌, inl, inr,
  ltb, none, refl, some, suc, sym, true, update, update_ne, update_self, zero, ℕ, ℕ_discrete, ◌+◌,
  ◌-◌, ◌<◌, ◌==◌, ◌↔◌, ◌∙◌, ◌∷◌, ◌≡◌, ◌≢◌, ◌≤◌,
}

-- The handle that a round tries.
abbrev candidate : ℕ → ℕ
candidate start = if ltb handle_mask start then 1 else start

module _ (slot : ℕ → Option ℕ) (size : ℕ) where
  find_free-free :
      (n start : ℕ)
      → slot (bit_and (candidate start) (size - 1)) ≡ none
      → find_free slot size (suc n) start
        ≡ some (candidate start, bit_and (candidate start) (size - 1))
  unfolding find_free
  find_free-free n start e = rw (e, find_free) refl

  find_free-taken :
      (n start c : ℕ)
      → slot (bit_and (candidate start) (size - 1)) ≡ some c
      → find_free slot size (suc n) start ≡ find_free slot size n (candidate start + 1)
  unfolding find_free
  find_free-taken n start c e = rw (e, find_free) refl

  find_free_lem :
      (n start : ℕ) (h hash : ℕ)
      → 0 < start
      → find_free slot size n start ≡ some (h, hash)
      → (slot hash ≡ none) × (hash ≡ bit_and h (size - 1)) × (0 < h) × (h ≤ handle_mask)
  find_free_lem zero start h hash pos e = unfold find_free in cc e
  find_free_lem (suc n) start h hash pos e =
      elim (Option-cases (slot (bit_and (candidate start) (size - 1)))) [
        | inl free ↦
            let e' = sym (find_free-free n start free) ∙ e in
            let eh : candidate start ≡ h = cc e' in
            let ek : bit_and (candidate start) (size - 1) ≡ hash = cc e' in
            (
              ap slot (sym ek) ∙ free,
              sym ek ∙ ap (λ k. bit_and k (size - 1)) eh,
              ground (arith, eh),
              ground (arith, eh),
            )
        | inr (c, taken) ↦
            find_free_lem n (candidate start + 1) h hash (omega arith)
              (sym (find_free-taken n start c taken) ∙ e)
      ]

-- A live handle has a context in its slot.
live_slot :
    (handle_of : ℕ → ℕ) (s : HandleStorage) (g c : ℕ)
    → grab handle_of s g ≡ some c
    → s.slot (bit_and g (s.slot_size - 1)) ≢ none
live_slot handle_of s g c live e =
    let shut : grab handle_of s g ≡ none = unfold grab in rw (e, grab) refl in cc (live, shut)

-- Two handles of one slot are not live together.
grab_clash :
    (handle_of : ℕ → ℕ) (s : HandleStorage) (handle ctx g : ℕ)
    → grab handle_of s handle ≡ some ctx
    → bit_and g (s.slot_size - 1) ≡ bit_and handle (s.slot_size - 1)
    → g ≢ handle
    → grab handle_of s g ≡ none
unfolding grab
grab_clash handle_of s handle ctx g live clash ne = rw (clash, grab) (ground arith)

-- Where the search from a positive handle finds a slot, registering gives out a positive handle of 24 bits under the
-- harbor, puts the context in the slot of that handle, and every handle that was live still finds its
-- context.
pub register_lem :
    (rounds : ℕ) (handle_of : ℕ → ℕ) (s : HandleStorage) (ctx h hash : ℕ)
    → 0 < s.handle_index
    → find_free s.slot s.slot_size s.slot_size s.handle_index ≡ some (h, hash)
    → (s' : HandleStorage) × (register (suc rounds) handle_of s ctx ≡ some (bit_or h s.harbor, s'))
      × (0 < h)
      × (h ≤ handle_mask)
      × (s'.slot (bit_and h (s.slot_size - 1)) ≡ some ctx)
      × (s'.handle_index ≡ h + 1)
      × ((g c : ℕ) → grab handle_of s g ≡ some c → grab handle_of s' g ≡ some c)
unfolding register grab
register_lem rounds handle_of s ctx h hash pos e =
    let (free, at, low, high) =
      find_free_lem s.slot s.slot_size s.slot_size s.handle_index h hash pos e in
    (
      record s { slot = update s.slot hash (some ctx); handle_index = h + 1 },
      rw (e, register) refl,
      low,
      high,
      rw (← at) (update_self s.slot hash (some ctx)),
      refl,
      λ g c live. elim (ℕ_discrete (bit_and g (s.slot_size - 1)) hash) [
        | yes clash ↦ absurd (live_slot handle_of s g c live (ap s.slot clash ∙ free))
        | no ne ↦ rw (update_ne s.slot hash (bit_and g (s.slot_size - 1)) (some ctx) ne, grab) live
      ],
    )

-- The names that point to another handle, in order.
drop_names-In :
    (handle : ℕ) (ns : List HandleName) (n : HandleName)
    → In n (drop_names handle ns) ↔ (In n ns × (n.handle ≢ handle))
unfolding drop_names
drop_names-In handle [] n = (λ h. absurd h, λ h. absurd h.0)
drop_names-In handle (m ∷ ns) n = elim (ℕ_discrete m.handle handle) [
  | yes e ↦
      let e' : (m.handle == handle) ≡ true = ground arith in
      rw e' (
        λ h. (inr ((drop_names-In handle ns n).0 h).0, ((drop_names-In handle ns n).0 h).1),
        λ h. elim h.0 [
          | inl f ↦ absurd (h.1 (ap (λ (x : HandleName). x.handle) f ∙ e))
          | inr i ↦ (drop_names-In handle ns n).1 (i, h.1)
        ],
      )
  | no ne ↦
      let e' : (m.handle == handle) ≡ false = ground arith in
      rw e' (
        λ h. elim h [
          | inl f ↦ (inl f, λ g. ne (sym (ap (λ (x : HandleName). x.handle) f) ∙ g))
          | inr i ↦ (inr ((drop_names-In handle ns n).0 i).0, ((drop_names-In handle ns n).0 i).1)
        ],
        λ h. elim h.0 [ inl f ↦ inl f | inr i ↦ inr ((drop_names-In handle ns n).1 (i, h.1)) ],
      )
]

-- Retiring a live handle returns its context; afterwards the handle finds nothing, every other handle
-- finds what it found before, and exactly the names of that handle are gone.
pub retire_lem :
    (handle_of : ℕ → ℕ) (s : HandleStorage) (handle ctx : ℕ)
    → grab handle_of s handle ≡ some ctx
    → ((retire handle_of s handle).0 ≡ some ctx)
      × (grab handle_of (retire handle_of s handle).1 handle ≡ none)
      × ((g : ℕ) → g ≢ handle → grab handle_of (retire handle_of s handle).1 g ≡ grab handle_of s g)
      × ((n : HandleName)
          → In n (retire handle_of s handle).1.names ↔ (In n s.names × (n.handle ≢ handle)))
unfolding retire
retire_lem handle_of s handle ctx live =
    rw (live, retire)
      (
        refl,
        unfold grab in rw (update_self s.slot (bit_and handle (s.slot_size - 1)) none, grab) refl,
        λ g ne. elim (ℕ_discrete (bit_and g (s.slot_size - 1)) (bit_and handle (s.slot_size - 1))) [
          | yes clash ↦
              let gone : grab handle_of
                    (record s {
                      slot = update s.slot (bit_and handle (s.slot_size - 1)) none;
                      names = drop_names handle s.names;
                    })
                    g
                  ≡ none =
                unfold grab in
                rw (clash, update_self s.slot (bit_and handle (s.slot_size - 1)) none, grab) refl in
              gone ∙ sym (grab_clash handle_of s handle ctx g live clash ne)
          | no apart ↦
              unfold grab in
              rw
                (
                  update_ne s.slot (bit_and handle (s.slot_size - 1)) (bit_and g (s.slot_size - 1))
                      none apart,
                  grab,
                )
                refl
        ],
        drop_names-In handle s.names,
      )

-- A handle that is not live is not retired, and nothing changes.
pub retire_nothing :
    (handle_of : ℕ → ℕ) (s : HandleStorage) (handle : ℕ)
    → grab handle_of s handle ≡ none
    → retire handle_of s handle ≡ (none, s)
unfolding retire
retire_nothing handle_of s handle e = rw (e, retire) refl

-- When the next handle of a table of four slots is one below the mask, with slot 0 free and the other
-- three taken, the search finds no slot, moving the contexts reads through the empty slot, and so
-- registering fails.
pub register_fault :
    (rounds : ℕ) (handle_of : ℕ → ℕ) (s : HandleStorage) (ctx a b c : ℕ)
    → s.slot_size ≡ 4
    → s.handle_index ≡ handle_mask - 1
    → s.slot 0 ≡ none
    → s.slot 1 ≡ some a
    → s.slot 2 ≡ some b
    → s.slot 3 ≡ some c
    → (find_free s.slot s.slot_size s.slot_size s.handle_index ≡ none)
      × (rehash handle_of s.slot s.slot_size s.slot_size 0 (λ _. none) ≡ none)
      × (register (suc rounds) handle_of s ctx ≡ none)
unfolding register
register_fault rounds handle_of s ctx a b c size idx z e1 e2 e3 = (
  rw (size, idx) full,
  rw size stuck,
  rw (size, idx) (rw (full, register) (rw (stuck, register) refl)),
)
  where
    full : find_free s.slot 4 4 (handle_mask - 1) ≡ none
    full =
        find_free-taken s.slot 4 3 (handle_mask - 1) b e2
        ∙ find_free-taken s.slot 4 2 handle_mask c e3
        ∙ find_free-taken s.slot 4 1 (handle_mask + 1) a e1
        ∙ find_free-taken s.slot 4 0 2 b e2
        ∙ unfold find_free in refl

    stuck : rehash handle_of s.slot 4 4 0 (λ _. none) ≡ none
    stuck = unfold rehash in rw (z, rehash) refl
