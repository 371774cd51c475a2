-- ===== src/Seri/Blocks.antt =====
-- skynet/lualib-src/lua-seri.c: the chain of blocks that collects what is packed.
use skynet_athena.Base.{
  Bool-cases, List, [], ap, append-nil, append_assoc, arith, dec_le, drop, false, if◌then◌else◌,
  inl, inr, leb, length, length-append, length-drop, length-take, refl, suc, sym, take,
  take-append-drop, take_all, true, zero, ℕ, ℕ_discrete, ◌%◌, ◌&&◌, ◌++◌, ◌+◌, ◌-◌, ◌<◌, ◌==◌, ◌^◌,
  ◌∙◌, ◌∷◌, ◌≡◌, ◌≤◌,
}

abbrev pub block_size : ℕ
block_size = 128

-- `struct write_block`: the blocks before the current one, each full, the used part of the current
-- one, whose length is `ptr`, and the bit pattern of the `int` `len`.
pub record WriteBlock : Type 0 where
  pub full : List (List ℕ)
  pub current : List ℕ
  pub len : ℕ

unfoldable pub wb_init : WriteBlock
wb_init = record { full = []; current = []; len = 0 }

-- A new block behind the current one.
abbrev next_block : WriteBlock → WriteBlock
next_block b = record b { full = b.full ++ (b.current ∷ []); current = [] }

-- The copy in `wb_push` and its jump back to `_again`, on fuel.
unfoldable pub fill : ℕ → WriteBlock → List ℕ → WriteBlock
fill zero b buf = b
fill (suc fuel) b buf =
    let copy = block_size - length b.current in
    let again =
      fill fuel
        (next_block
          (record b { current = b.current ++ take copy buf; len = (b.len + copy) % 2 ^ 32 }))
        (drop copy buf) in
    if leb (length b.current) (block_size - length buf) && leb (length buf) block_size
    then record b { current = b.current ++ buf; len = (b.len + length buf) % 2 ^ 32 }
    else again

-- `wb_push`; a round copies up to a whole block, so one round for each byte and one more suffice.
unfoldable pub wb_push : WriteBlock → List ℕ → WriteBlock
wb_push b buf =
    fill (suc (length buf)) (if length b.current == block_size then next_block b else b) buf

abbrev pub push_all : WriteBlock → List (List ℕ) → WriteBlock
push_all b [] = b
push_all b (w ∷ ws) = push_all (wb_push b w) ws

-- The loop of `seri` over the chain: `len` bytes, block by block.
unfoldable pub gather : List (List ℕ) → ℕ → List ℕ
gather [] len = []
gather (b ∷ bs) len =
    let rest = gather bs (len - block_size) in
    if leb block_size len then take block_size b ++ rest else take len b

-- With a negative `len` nothing is copied.
unfoldable pub seri : WriteBlock → List ℕ
seri b =
    let all = gather (b.full ++ (b.current ∷ [])) b.len in if leb (2 ^ 31) b.len then [] else all

abbrev pub flatten : List (List ℕ) → List ℕ
flatten [] = []
flatten (w ∷ ws) = w ++ flatten ws

pub flatten-append : (xs ys : List (List ℕ)) → flatten (xs ++ ys) ≡ flatten xs ++ flatten ys
flatten-append [] ys = refl
flatten-append (x ∷ xs) ys =
    ap (◌++◌ x) (flatten-append xs ys) ∙ sym (append_assoc x (flatten xs) (flatten ys))

-- All blocks but the last are full, and `len` counts the bytes.
abbrev AllFull : List (List ℕ) → Type 0
AllFull [] = Unit
AllFull (b ∷ bs) = (length b ≡ block_size) × AllFull bs

pub record IsValid (b : WriteBlock) : Type 0 where
  pub fulls : AllFull b.full
  pub fits : length b.current ≤ block_size
  pub counted : b.len ≡ (length (flatten b.full) + length b.current) % 2 ^ 32

abbrev pub written : WriteBlock → List ℕ
written b = flatten b.full ++ b.current

AllFull-append :
    (bs : List (List ℕ)) (b : List ℕ)
    → AllFull bs
    → length b ≡ block_size
    → AllFull (bs ++ (b ∷ []))
AllFull-append [] b h e = (e, tt)
AllFull-append (x ∷ bs) b h e = (h.0, AllFull-append bs b h.1 e)

flatten-snoc : (bs : List (List ℕ)) (b : List ℕ) → flatten (bs ++ (b ∷ [])) ≡ flatten bs ++ b
flatten-snoc bs b = flatten-append bs (b ∷ []) ∙ ap (◌++◌ (flatten bs)) (append-nil b)

-- The chain of blocks holds the bytes in order.
gather-written :
    (bs : List (List ℕ)) (c : List ℕ) (len : ℕ)
    → AllFull bs
    → length c ≤ block_size
    → len ≡ length (flatten bs) + length c
    → gather (bs ++ (c ∷ [])) len ≡ flatten bs ++ c
unfolding gather
gather-written [] c len f h e = elim (Bool-cases (leb block_size len)) [
  | inl tall ↦ rw tall (append-nil (take block_size c) ∙ take_all block_size c h)
  | inr short ↦ rw short (take_all len c (omega arith))
]
gather-written (b ∷ bs) c len f h e =
    let tall : leb block_size len ≡ true = ground (arith, f.0, length-append b (flatten bs)) in
    rw tall (
      ap (λ d. d ++ gather (bs ++ (c ∷ [])) (len - block_size))
        (take_all block_size b (omega (arith, f.0)))
      ∙ ap (◌++◌ b) (
          gather-written bs c (len - block_size) f.1 h
            (omega (arith, f.0, length-append b (flatten bs))))
      ∙ sym (append_assoc b (flatten bs) c))

split_off : WriteBlock → List ℕ → WriteBlock
split_off b buf =
    let copy = block_size - length b.current in
    next_block (record b { current = b.current ++ take copy buf; len = (b.len + copy) % 2 ^ 32 })

split_off-IsValid :
    (b : WriteBlock) (buf : List ℕ)
    → IsValid b
    → block_size < length b.current + length buf
    → IsValid (split_off b buf)
      × (written (split_off b buf) ++ drop (block_size - length b.current) buf ≡ written b ++ buf)
unfolding split_off
split_off-IsValid b buf v over =
    let copy = block_size - length b.current in
    let top = b.current ++ take copy buf in
    let full : length top ≡ block_size =
      omega (arith, length-append b.current (take copy buf), length-take copy buf, v.fits) in
    (
      record {
        fulls = AllFull-append b.full top v.fulls full;
        fits = omega arith;
        counted = omega (
          arith,
          v.counted,
          v.fits,
          ap length (flatten-snoc b.full top),
          length-append (flatten b.full) top,
        );
      },
      ap (λ l. l ++ drop copy buf)
            (append-nil (flatten (b.full ++ (top ∷ []))) ∙ flatten-snoc b.full top)
          ∙ append_assoc (flatten b.full) top (drop copy buf)
          ∙ ap (◌++◌ (flatten b.full)) (
              append_assoc b.current (take copy buf) (drop copy buf)
              ∙ ap (◌++◌ b.current) (take-append-drop copy buf))
          ∙ sym (append_assoc (flatten b.full) b.current buf),
    )

abbrev Wrote : WriteBlock → List ℕ → WriteBlock → Type 0
Wrote b buf b' = IsValid b' × (written b' ≡ written b ++ buf)

fill_fits :
    (fuel : ℕ) (b : WriteBlock) (buf : List ℕ)
    → IsValid b
    → length b.current + length buf ≤ block_size
    → Wrote b buf (fill (suc fuel) b buf)
unfolding fill
fill_fits fuel b buf v fits =
    let here : (leb (length b.current) (block_size - length buf) && leb (length buf) block_size)
        ≡ true =
      ground arith in
    rw here (
      record {
        fulls = v.fulls;
        fits = omega (arith, length-append b.current buf);
        counted = omega (arith, v.counted, length-append b.current buf);
      },
      sym (append_assoc (flatten b.full) b.current buf),
    )

fill_over :
    (fuel : ℕ) (b : WriteBlock) (buf : List ℕ)
    → block_size < length b.current + length buf
    → fill (suc fuel) b buf ≡ fill fuel (split_off b buf) (drop (block_size - length b.current) buf)
unfolding fill split_off
fill_over fuel b buf over =
    let there : (leb (length b.current) (block_size - length buf) && leb (length buf) block_size)
        ≡ false =
      ground arith in
    rw there refl

fill-Wrote :
    (fuel : ℕ) (b : WriteBlock) (buf : List ℕ)
    → IsValid b
    → length b.current < block_size
    → length buf < fuel
    → Wrote b buf (fill fuel b buf)
fill-Wrote zero b buf v room h = absurd (omega arith)
fill-Wrote (suc fuel) b buf v room h = elim (dec_le (length b.current + length buf) block_size) [
  | yes fits ↦ fill_fits fuel b buf v fits
  | no over ↦
      let (v', same) = split_off-IsValid b buf v (omega arith) in
      let (v'', more) =
        fill-Wrote fuel (split_off b buf) (drop (block_size - length b.current) buf) v'
          (unfold split_off in omega arith)
          (omega (arith, length-drop (block_size - length b.current) buf)) in
      rw (fill_over fuel b buf (omega arith)) (v'', more ∙ same)
]

-- `wb_push` appends its bytes, however they fall over the blocks.
pub wb_push-Wrote :
    (b : WriteBlock) (buf : List ℕ)
    → IsValid b
    → IsValid (wb_push b buf) × (written (wb_push b buf) ≡ written b ++ buf)
unfolding wb_push
wb_push-Wrote b buf v = elim (ℕ_discrete (length b.current) block_size) [
  | yes full ↦
      let e : (length b.current == block_size) ≡ true = ground arith in
      let v' : IsValid (next_block b) = record {
        fulls = AllFull-append b.full b.current v.fulls full;
        fits = omega arith;
        counted = omega (
          arith,
          v.counted,
          ap length (flatten-snoc b.full b.current),
          length-append (flatten b.full) b.current,
        );
      } in
      let (v'', f) =
        fill-Wrote (suc (length buf)) (next_block b) buf v' (omega arith) (omega arith) in
      rw e (
        v'',
        f
            ∙ ap (λ l. l ++ buf)
                (append-nil (flatten (b.full ++ (b.current ∷ []))) ∙ flatten-snoc b.full b.current),
      )
  | no ne ↦
      let e : (length b.current == block_size) ≡ false = ground arith in
      rw e (fill-Wrote (suc (length buf)) b buf v (omega (arith, v.fits)) (omega arith))
]

wb_init-IsValid : IsValid wb_init
unfolding wb_init
wb_init-IsValid = record { fulls = tt; fits = omega arith; counted = refl }

push_all-Wrote :
    (b : WriteBlock) (ws : List (List ℕ))
    → IsValid b
    → IsValid (push_all b ws) × (written (push_all b ws) ≡ written b ++ flatten ws)
push_all-Wrote b [] v = (v, sym (append-nil (written b)))
push_all-Wrote b (w ∷ ws) v =
    let (v', e) = wb_push-Wrote b w v in
    let (v'', f) = push_all-Wrote (wb_push b w) ws v' in
    (v'', f ∙ ap (λ l. l ++ flatten ws) e ∙ append_assoc (written b) w (flatten ws))

-- What `seri` copies out of the blocks is what was pushed, in order, where that is less than 2^31
-- bytes.
pub seri-push_all :
    (ws : List (List ℕ)) → length (flatten ws) < 2 ^ 31 → seri (push_all wb_init ws) ≡ flatten ws
unfolding seri wb_init
seri-push_all ws few =
    let (v, e) = push_all-Wrote wb_init ws wb_init-IsValid in
    let b = push_all wb_init ws in
    let size : length (flatten b.full) + length b.current ≡ length (flatten ws) =
      sym (length-append (flatten b.full) b.current) ∙ ap length e in
    let len : b.len ≡ length (flatten b.full) + length b.current = omega (arith, v.counted, size) in
    let positive : leb (2 ^ 31) b.len ≡ false = ground (arith, len, size) in
    rw positive (gather-written b.full b.current b.len v.fulls v.fits len ∙ e)
