-- ===== src/Netpack/Frame.antt =====
-- skynet/lualib-src/lua-netpack.c: what `filter_data` makes of the bytes that `lpack` wrote.
use skynet_athena.Netpack.{
  Packet, PacketQueue, Uncomplete, fill_pack, fill_uncomplete, filter_data, find_uncomplete,
  get_queue, hash_fd, nothing, only_header, pack, packet, partial, push_data, push_more, read_size,
  save_uncomplete, start_pack, unlink, write_size,
}
use skynet_athena.Base.Bits.{bit_and_low, bit_or_low_shifted, bit_or_shifted}
use skynet_athena.Base.{
  List, Option, [], ap, arith, bit_and, bit_or, dec_lt, drop, false, leb, length, length-drop,
  length-take, ltb, none, refl, some, suc, sym, take, take-append-drop, take_all, true, update,
  update_ne, update_self, zero, ℕ, ℕ_discrete, ◌%◌, ◌*◌, ◌++◌, ◌+◌, ◌-◌, ◌/◌, ◌<◌, ◌==◌, ◌^◌, ◌∙◌,
  ◌∷◌, ◌≡◌, ◌≤◌,
}

-- The two bytes of a length, read again.
read_size-write :
    (len : ℕ) → len < 0x10000 → read_size (bit_and (len / 2 ^ 8) 0xff) (bit_and len 0xff) ≡ len
unfolding read_size
read_size-write len small =
    rw (bit_and_low 8 (len / 2 ^ 8), bit_and_low 8 len)
      (bit_or_shifted 8 (len / 2 ^ 8 % 2 ^ 8) (len % 2 ^ 8) (omega arith) ∙ omega arith)

late_size :
    (len : ℕ) → len < 0x10000 → bit_or (bit_and len 0xff) (bit_and (len / 2 ^ 8) 0xff * 2 ^ 8) ≡ len
late_size len small =
    rw (bit_and_low 8 (len / 2 ^ 8), bit_and_low 8 len)
      (bit_or_low_shifted 8 (len / 2 ^ 8 % 2 ^ 8) (len % 2 ^ 8) (omega arith) ∙ omega arith)

-- The queue after an incomplete packet was saved and found again.
abbrev taken : Option PacketQueue → ℕ → Uncomplete → PacketQueue
taken o fd uc = record (save_uncomplete o fd uc) {
  hash = update (save_uncomplete o fd uc).hash (hash_fd fd) ((get_queue o).hash (hash_fd fd));
}

find-save :
    (o : Option PacketQueue) (fd : ℕ) (uc : Uncomplete)
    → uc.pack.id ≡ fd
    → find_uncomplete (some (save_uncomplete o fd uc)) fd ≡ some (uc, taken o fd uc)
unfolding find_uncomplete unlink save_uncomplete
find-save o fd uc e =
    let same : (uc.pack.id == fd) ≡ true = ground arith in
    rw (update_self (get_queue o).hash (hash_fd fd) (uc ∷ (get_queue o).hash (hash_fd fd)), same)
      refl

hash-taken :
    (o : Option PacketQueue) (fd : ℕ) (uc : Uncomplete) (i : ℕ)
    → (taken o fd uc).hash i ≡ (get_queue o).hash i
unfolding save_uncomplete
hash-taken o fd uc i = elim (ℕ_discrete i (hash_fd fd)) [
  | yes e ↦
      rw e
        (update_self (save_uncomplete o fd uc).hash (hash_fd fd) ((get_queue o).hash (hash_fd fd)))
  | no ne ↦
      rw
        (
          update_ne (save_uncomplete o fd uc).hash (hash_fd fd) i ((get_queue o).hash (hash_fd fd))
              ne,
          update_ne (get_queue o).hash (hash_fd fd) i (uc ∷ (get_queue o).hash (hash_fd fd)) ne,
        )
        refl
]

-- The bytes on the wire.
abbrev pub wire : List ℕ → List ℕ
wire msg = write_size (length msg) ++ msg

abbrev pub whole : ℕ → List ℕ → Packet
whole fd msg = record { id = fd; size = length msg; buffer = msg }

-- What is still missing completes the packet.
fill_rest :
    (q : PacketQueue) (fd : ℕ) (uc : Uncomplete) (n : ℕ) (bs : List ℕ)
    → uc.pack.size ≡ n + length bs
    → fill_pack q fd uc n bs
      ≡ some
          (packet (record { id = fd; size = uc.pack.size; buffer = uc.pack.buffer ++ bs }), some q)
unfolding fill_pack
fill_rest q fd uc n bs e =
    let need : uc.pack.size - n ≡ length bs = omega arith in
    let no : ltb (length bs) (length bs) ≡ false = ground arith in
    let yes' : (length bs == length bs) ≡ true = ground arith in
    rw (need, no, yes', take_all (length bs) bs (omega arith)) refl

pack-wire :
    (msg bytes : List ℕ) → pack msg ≡ some bytes → (length msg < 0x10000) × (bytes ≡ wire msg)
unfolding pack
pack-wire msg bytes e = elim (dec_lt (length msg) 0x10000) [
  | yes small ↦
      let fits : leb 0x10000 (length msg) ≡ false = ground arith in
      let e' : pack msg ≡ some (wire msg) = unfold pack in rw fits refl in (small, cc (sym e ∙ e'))
  | no large ↦
      let long : leb 0x10000 (length msg) ≡ true = ground arith in
      let e' : pack msg ≡ none = unfold pack in rw long refl in cc (sym e ∙ e')
]

start-wire :
    (o : Option PacketQueue) (fd : ℕ) (msg : List ℕ)
    → length msg < 0x10000
    → start_pack o fd (wire msg) ≡ some (packet (whole fd msg), o)
unfolding start_pack write_size
start-wire o fd msg small =
    let no : ltb (length msg) (length msg) ≡ false = ground arith in
    let same : (length msg == length msg) ≡ true = ground arith in
    rw (read_size-write (length msg) small, no, same, take_all (length msg) msg (omega arith)) refl

filter_start :
    (o : Option PacketQueue) (fd : ℕ) (bs : List ℕ)
    → find_uncomplete o fd ≡ none
    → filter_data o fd bs ≡ start_pack o fd bs
unfolding filter_data
filter_start o fd bs e = rw (e, filter_data) refl

filter_found :
    (o : Option PacketQueue) (fd : ℕ) (bs : List ℕ) (uc : Uncomplete) (q : PacketQueue)
    → find_uncomplete o fd ≡ some (uc, q)
    → filter_data o fd bs ≡ fill_uncomplete q fd uc bs
unfolding filter_data
filter_found o fd bs uc q e = rw (e, filter_data) refl

-- A message that `pack` accepts and that comes in one piece, with nothing incomplete before it, is
-- handed on as it was, and the queue stays the same.
pub filter_data-pack :
    (o : Option PacketQueue) (fd : ℕ) (msg bytes : List ℕ)
    → find_uncomplete o fd ≡ none
    → pack msg ≡ some bytes
    → filter_data o fd bytes ≡ some (packet (whole fd msg), o)
filter_data-pack o fd msg bytes free e =
    let (small, at) = pack-wire msg bytes e in
    filter_start o fd bytes free ∙ ap (start_pack o fd) at ∙ start-wire o fd msg small

-- What a piece leaves behind: the queue, and the event of the next piece.
abbrev pub IsCompleted : Option PacketQueue → ℕ → List ℕ → List ℕ → List ℕ → Type 0
IsCompleted o fd msg first second =
    (q : PacketQueue) × (q' : PacketQueue) × (filter_data o fd first ≡ some (nothing, some q))
    × (filter_data (some q) fd second ≡ some (packet (whole fd msg), some q'))
    × ((i : ℕ) → q'.hash i ≡ (get_queue o).hash i)

-- Cut behind the first byte of the length.
cut_header :
    (o : Option PacketQueue) (fd : ℕ) (msg : List ℕ)
    → find_uncomplete o fd ≡ none
    → length msg < 0x10000
    → IsCompleted o fd msg (take 1 (wire msg)) (drop 1 (wire msg))
unfolding start_pack fill_uncomplete write_size
cut_header o fd msg free small =
    let b = bit_and (length msg / 2 ^ 8) 0xff in
    let uc = only_header fd b in
    (
      save_uncomplete o fd uc,
      taken o fd uc,
      filter_start o fd (take 1 (wire msg)) free,
      filter_found (some (save_uncomplete o fd uc)) fd (drop 1 (wire msg)) uc (taken o fd uc)
            (find-save o fd uc refl)
          ∙ rw (late_size (length msg) small) (
              fill_rest (taken o fd uc) fd
                (record uc {
                  pack = record { id = fd; size = length msg; buffer = [] };
                  read = some 0;
                })
                0 msg (omega arith)),
      hash-taken o fd uc,
    )

-- Cut inside the message.
cut_body :
    (o : Option PacketQueue) (fd : ℕ) (msg : List ℕ) (j : ℕ)
    → find_uncomplete o fd ≡ none
    → length msg < 0x10000
    → j < length msg
    → IsCompleted o fd msg (take (suc (suc j)) (wire msg)) (drop (suc (suc j)) (wire msg))
unfolding start_pack fill_uncomplete write_size
cut_body o fd msg j free small inside =
    let uc = partial fd (length msg) (take j msg) in
    let short : ltb (length (take j msg)) (length msg) ≡ true =
      rw (length-take j msg) (ground arith) in
    (
      save_uncomplete o fd uc,
      taken o fd uc,
      filter_start o fd (take (suc (suc j)) (wire msg)) free
          ∙ rw (read_size-write (length msg) small, short) refl,
      filter_found (some (save_uncomplete o fd uc)) fd (drop (suc (suc j)) (wire msg)) uc
            (taken o fd uc) (find-save o fd uc refl)
          ∙ fill_rest (taken o fd uc) fd uc (length (take j msg)) (drop j msg)
              (rw (length-take j msg, length-drop j msg) (omega arith))
          ∙ rw (take-append-drop j msg) refl,
      hash-taken o fd uc,
    )

-- A message that `pack` accepts and that comes in two pieces, cut anywhere, with nothing incomplete
-- before it, gives nothing with the first piece and the whole message with the second; afterwards the
-- table of the incomplete packets is what it was.
pub filter_data-split :
    (o : Option PacketQueue) (fd : ℕ) (msg bytes : List ℕ) (k : ℕ)
    → find_uncomplete o fd ≡ none
    → pack msg ≡ some bytes
    → 0 < k
    → k < length bytes
    → IsCompleted o fd msg (take k bytes) (drop k bytes)
filter_data-split o fd msg bytes zero free e lo hi = let no : ⊥ = omega arith in absurd no
filter_data-split o fd msg bytes (suc zero) free e lo hi =
    let (small, at) = pack-wire msg bytes e in rw at (cut_header o fd msg free small)
filter_data-split o fd msg bytes (suc (suc j)) free e lo hi =
    let (small, at) = pack-wire msg bytes e in
    let total : length bytes ≡ suc (suc (length msg)) = unfold write_size in ap length at in
    rw at (cut_body o fd msg j free small (omega arith))

-- As many rounds as there are bytes are enough for `push_more`.
push_more-total :
    (rounds : ℕ) (q : PacketQueue) (fd : ℕ) (bs : List ℕ)
    → 0 < length bs
    → length bs ≤ rounds
    → (q' : PacketQueue) × (push_more rounds q fd bs ≡ some q')
unfolding push_more
push_more-total zero q fd bs lo hi = let no : ⊥ = omega arith in absurd no
push_more-total (suc rounds) q fd [] lo hi = let no : ⊥ = omega arith in absurd no
push_more-total (suc rounds) q fd (b ∷ []) lo hi =
    (save_uncomplete (some q) fd (only_header fd b), refl)
push_more-total (suc rounds) q fd (b ∷ c ∷ bs) lo hi =
    let size = read_size b c in
    let q' = push_data (some q) (record { id = fd; size = size; buffer = take size bs }) in
    elim (dec_lt (length bs) size) [
      | yes less ↦
          let e : ltb (length bs) size ≡ true = ground arith in
          (save_uncomplete (some q) fd (partial fd size bs), rw e refl)
      | no enough ↦
          let e : ltb (length bs) size ≡ false = ground arith in
          elim (ℕ_discrete (length bs) size) [
            | yes same ↦ let f : (length bs == size) ≡ true = ground arith in (q', rw (e, f) refl)
            | no more' ↦
                let f : (length bs == size) ≡ false = ground arith in
                let (r, g) =
                  push_more-total rounds q' fd (drop size bs)
                    (rw (length-drop size bs) (omega arith))
                    (rw (length-drop size bs) (omega arith)) in
                (r, rw (e, f) g)
          ]
    ]
