-- ===== src/Handle/Names.antt =====
-- skynet/skynet-src/skynet_handle.c: what the binary search over the names finds, and what
-- registering a name does.
use skynet_athena.Handle.{
  HandleName, HandleStorage, Ordering, Search, after, before, findname, found, insert_name_before,
  max_slot_size, missing, namehandle, same, search_name, strcmp,
}
use skynet_athena.Handle.Order.{
  In-at, In-insert, IsSorted, IsSorted-at, Splits, at-In, eq_of_same, insert-IsSorted, name_at,
  strcmp_flip, strcmp_refl, strcmp_trans, strcmp_unflip,
}
use skynet_athena.Base.{
  Bool-cases, In, List, ap, arith, dec_lt, drop, false, inl, inr, leb, length, ltb, refl, some,
  subst, suc, sym, take, true, zero, ℕ, ℕ_discrete, ◌*◌, ◌++◌, ◌+◌, ◌-◌, ◌/◌, ◌<◌, ◌^◌, ◌↔◌, ◌∙◌,
  ◌∷◌, ◌≡◌, ◌≢◌, ◌≤◌, ◌⊎◌,
}

-- What the search may answer: the handle of a name with this text, or a place that the text splits at.
abbrev Answers : List HandleName → List ℕ → Search → Type 0
Answers ns text (found h) =
    (i : ℕ) × (i < length ns) × (name_at ns i ≡ record { text = text; handle = h })
Answers ns text (missing k) = (k ≤ length ns) × Splits ns text k

module _ (ns : List HandleName) (text : List ℕ) (sorted : IsSorted ns) where
  -- The names up to a smaller one are smaller, the names from a larger one on are larger.
  low_below :
      (m : ℕ)
      → m < length ns
      → strcmp (name_at ns m).text text ≡ before
      → (i : ℕ) → i < m + 1
      → i < length ns
      → strcmp (name_at ns i).text text ≡ before
  low_below m inside e i le lt = elim (ℕ_discrete i m) [
    | yes same' ↦ rw same' e
    | no ne ↦
        strcmp_trans (name_at ns i).text (name_at ns m).text text
          (IsSorted-at ns i m sorted (omega arith) inside) e
  ]

  high_above :
      (m : ℕ)
      → strcmp (name_at ns m).text text ≡ after
      → (i : ℕ) → m ≤ i
      → i < length ns
      → strcmp (name_at ns i).text text ≡ after
  high_above m e i le lt = elim (ℕ_discrete i m) [
    | yes same' ↦ rw same' e
    | no ne ↦ strcmp_flip text (name_at ns i).text (
        strcmp_trans text (name_at ns m).text (name_at ns i).text
          (strcmp_unflip (name_at ns m).text text e) (IsSorted-at ns m i sorted (omega arith) lt))
  ]

  search-Answers :
      (fuel begin end : ℕ)
      → begin ≤ end
      → end ≤ length ns
      → end - begin ≤ fuel
      → ((i : ℕ) → i < begin → i < length ns → strcmp (name_at ns i).text text ≡ before)
      → ((i : ℕ) → end ≤ i → i < length ns → strcmp (name_at ns i).text text ≡ after)
      → Answers ns text (search_name ns text fuel begin end)
  unfolding search_name
  search-Answers zero begin end le fits few low high =
      (omega arith, record { low = low; high = λ i h lt. high i (omega arith) lt })
  search-Answers (suc fuel) begin end le fits few low high = elim (Bool-cases (leb end begin)) [
    | inl done ↦
        rw done (omega arith, record { low = low; high = λ i h lt. high i (ground arith) lt })
    | inr go ↦
        let mid = (begin + end - 1) / 2 in
        let room : begin < end = ground arith in
        let inside : mid < end = omega arith in
        let above : begin ≤ mid = omega arith in
        rw go (
          middle mid above inside (strcmp (name_at ns mid).text text) refl
            (λ e.
              search-Answers fuel (mid + 1) end (omega arith) fits (omega arith)
                (low_below mid (omega arith) e) high)
            (λ e.
              search-Answers fuel begin mid above (omega arith) (omega arith) low
                (high_above mid e)))
  ]
    where
      middle :
          (mid : ℕ)
          → begin ≤ mid
          → mid < end
          → (o : Ordering) → strcmp (name_at ns mid).text text ≡ o
          → (strcmp (name_at ns mid).text text ≡ before
              → Answers ns text (search_name ns text fuel (mid + 1) end))
          → (strcmp (name_at ns mid).text text ≡ after
              → Answers ns text (search_name ns text fuel begin mid))
          → Answers ns text (elim (strcmp (name_at ns mid).text text) [
            | same ↦ found (name_at ns mid).handle
            | before ↦ search_name ns text fuel (mid + 1) end
            | after ↦ search_name ns text fuel begin mid
          ])
      middle mid lo hi same e right left = rw e (
        mid,
        omega arith,
        ap (λ (t : List ℕ). record { text = t; handle = (name_at ns mid).handle })
            (eq_of_same (name_at ns mid).text text e),
      )
      middle mid lo hi before e right left = rw e (right e)
      middle mid lo hi after e right left = rw e (left e)

-- What the search answers on all names.
searched :
    (s : HandleStorage) (text : List ℕ)
    → IsSorted s.names
    → Answers s.names text (search_name s.names text (length s.names) 0 (length s.names))
searched s text h =
    search-Answers s.names text h (length s.names) 0 (length s.names) (omega arith) (omega arith)
      (omega arith) (λ i lt inside. absurd (omega arith)) (λ i le lt. absurd (omega arith))

-- A name that is there is where the search says, and a text that splits the names is not there.
one_place :
    (ns : List HandleName) (n : HandleName) (r : Search)
    → IsSorted ns
    → In n ns
    → Answers ns n.text r
    → r ≡ found n.handle
one_place ns n (found h) sorted i (j, lt, e) =
    let (k, inside, f) = In-at ns n i in
    let clash : (a b : ℕ)
        → a < b
        → b < length ns
        → (name_at ns a).text ≡ n.text
        → (name_at ns b).text ≡ n.text
        → ⊥ =
      λ a b ab lb ea eb.
        let x : strcmp n.text n.text ≡ before =
          subst (λ (t : List ℕ). strcmp t n.text ≡ before) ea
            (subst (λ (t : List ℕ). strcmp (name_at ns a).text t ≡ before) eb
              (IsSorted-at ns a b sorted ab lb)) in
        cc (x, strcmp_refl n.text) in
    let ej : (name_at ns j).text ≡ n.text = ap (λ (m : HandleName). m.text) e in
    let ek : (name_at ns k).text ≡ n.text = ap (λ (m : HandleName). m.text) f in
    elim (ℕ_discrete j k) [
      | yes at ↦
          let g : record { text = n.text; handle = h } ≡ n = sym e ∙ ap (name_at ns) at ∙ f in
          ap found (ap (λ (m : HandleName). m.handle) g)
      | no ne ↦ elim (dec_lt j k) [
        | yes less ↦ absurd (clash j k less inside ej ek)
        | no more ↦ absurd (clash k j (omega arith) lt ek ej)
      ]
    ]
one_place ns n (missing k) sorted i (le, s) =
    let (j, inside, f) = In-at ns n i in
    let ej : strcmp (name_at ns j).text n.text ≡ same =
      rw (ap (λ (m : HandleName). m.text) f) (strcmp_refl n.text) in
    elim (dec_lt j k) [
      | yes low ↦ let x = s.low j low inside in cc (x, ej)
      | no high ↦ let x = s.high j (omega arith) inside in cc (x, ej)
    ]

-- Where the names are sorted, `skynet_handle_findname` answers the handle of the name with that text.
pub findname-In :
    (s : HandleStorage) (n : HandleName)
    → IsSorted s.names
    → In n s.names
    → findname s n.text ≡ n.handle
unfolding findname
findname-In s n h i =
    rw
      (
        one_place s.names n (search_name s.names n.text (length s.names) 0 (length s.names)) h i
            (searched s n.text h),
        findname,
      )
      refl

-- A text that no name has is missing at a place that it splits.
absent :
    (ns : List HandleName) (text : List ℕ) (r : Search)
    → Answers ns text r
    → ((n : HandleName) → In n ns → n.text ≢ text)
    → (k : ℕ) × (r ≡ missing k) × (k ≤ length ns) × Splits ns text k
absent ns text (found h) (i, lt, e) no_such =
    absurd (no_such (name_at ns i) (at-In ns i lt) (ap (λ (m : HandleName). m.text) e))
absent ns text (missing k) (le, s) no_such = (k, refl, le, s)

-- Where the names are sorted, `skynet_handle_findname` answers 0 for a text that no name has.
pub findname_absent :
    (s : HandleStorage) (text : List ℕ)
    → IsSorted s.names
    → ((n : HandleName) → In n s.names → n.text ≢ text)
    → findname s text ≡ 0
unfolding findname
findname_absent s text h no_such =
    let (k, e, le, sp) =
      absent s.names text (search_name s.names text (length s.names) 0 (length s.names))
        (searched s text h) no_such in
    rw (e, findname) refl

-- Where the names are sorted, a text that a name has is refused and nothing changes.
pub namehandle_taken :
    (s : HandleStorage) (handle : ℕ) (n : HandleName)
    → IsSorted s.names
    → In n s.names
    → namehandle s handle n.text ≡ some (true, s)
unfolding namehandle
namehandle_taken s handle n h i =
    rw
      (
        one_place s.names n (search_name s.names n.text (length s.names) 0 (length s.names)) h i
            (searched s n.text h),
        namehandle,
      )
      refl

-- Below the limit on the capacity the name is put in, whether or not the array grows.
insert_name_before-names :
    (s : HandleStorage) (m : HandleName) (k : ℕ)
    → s.name_cap < 2 ^ 29
    → (s' : HandleStorage) × (insert_name_before s m k ≡ some s')
      × (s'.names ≡ take k s.names ++ (m ∷ drop k s.names))
unfolding insert_name_before
insert_name_before-names s m k small = elim (Bool-cases (leb s.name_cap (length s.names))) [
  | inl full ↦
      let fits : ltb max_slot_size (s.name_cap * 2) ≡ false = ground arith in
      (
        record s { names = take k s.names ++ (m ∷ drop k s.names); name_cap = s.name_cap * 2 },
        rw (full, fits) refl,
        refl,
      )
  | inr free ↦ (record s { names = take k s.names ++ (m ∷ drop k s.names) }, rw free refl, refl)
]

-- Where the names are sorted and their capacity is below 2^29, a text that no name has is entered: the
-- names stay sorted, the new one is among them, and all others are those that were there.
pub namehandle_new :
    (s : HandleStorage) (handle : ℕ) (text : List ℕ)
    → IsSorted s.names
    → s.name_cap < 2 ^ 29
    → ((n : HandleName) → In n s.names → n.text ≢ text)
    → (s' : HandleStorage) × (namehandle s handle text ≡ some (false, s'))
      × IsSorted s'.names
      × ((n : HandleName)
          → In n s'.names ↔ ((n ≡ record { text = text; handle = handle }) ⊎ In n s.names))
unfolding namehandle
namehandle_new s handle text h small no_such =
    let (k, e, le, sp) =
      absent s.names text (search_name s.names text (length s.names) 0 (length s.names))
        (searched s text h) no_such in
    let m : HandleName = record { text = text; handle = handle } in
    let (s', f, g) = insert_name_before-names s m k small in
    (
      s',
      rw (e, namehandle) (rw (f, namehandle) refl),
      subst IsSorted (sym g) (insert-IsSorted s.names m k h sp),
      λ n.
          subst (λ (ns : List HandleName). In n ns ↔ ((n ≡ m) ⊎ In n s.names)) (sym g)
            (In-insert k s.names m n),
    )
