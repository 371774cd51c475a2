-- ===== src/Gate/Run.antt =====
-- skynet/service-src/service_gate.c: what one run of the loop of `dispatch_message` forwards.
use skynet_athena.Base.{
  List, [], ap, append-nil, append_assoc, arith, bit_or, drop, false, if◌then◌else◌, inl, inr, leb,
  length, length-drop, map, not, refl, some, subst, suc, sym, take, zero, ℕ, ℕ_discrete, ◌*◌, ◌++◌,
  ◌+◌, ◌<◌, ◌==◌, ◌^◌, ◌∙◌, ◌∷◌, ◌≡◌, ◌≢◌, ◌≤◌, ◌⊎◌,
}
use skynet_athena.DataBuffer.{DataBuffer, MessagePool, minus_one, readheader, reset}
use skynet_athena.DataBuffer.Read.{IsValid, pending, read_lem}
use skynet_athena.Gate.{Connection, Forward, Gate, dispatch_loop, forward, forward_to, send_read}
use skynet_athena.Gate.Frames.{frames, frames_empty, frames_full, frames_short, sizes}
use skynet_athena.Gate.Stream.{
  IsBytes, IsBytes-drop, IsStream, readheader-IsStream, readheader-IsStream_short,
}
use skynet_athena.Server.{tag_dontcopy}

-- The connection of a socket, headers of two bytes, and somebody to forward to.
abbrev pub IsWired : ℕ → Connection → Gate → Type 0
IsWired fd c g =
    (fd ≢ 0)
    × (c.id ≡ some fd)
    × (g.header_size ≡ 2)
    × ((g.broker ≢ 0) ⊎ ((c.agent ≢ 0) ⊎ (g.watchdog ≢ 0)))

-- How a package goes out: to the broker if there is one, else to the agent of the connection,
-- else to the watchdog behind the text.
abbrev pub package_of : (ℕ → List ℕ) → ℕ → Connection → Gate → List ℕ → Forward
package_of text fd c g bytes =
    if not (g.broker == 0)
    then record {
      source = 0;
      destination = g.broker;
      type = bit_or g.client_tag tag_dontcopy;
      session = fd;
      bytes = bytes;
    }
    else if not (c.agent == 0)
    then record {
      source = c.client;
      destination = c.agent;
      type = bit_or g.client_tag tag_dontcopy;
      session = fd;
      bytes = bytes;
    }
    else record {
      source = 0;
      destination = g.watchdog;
      type = tag_dontcopy;
      session = fd;
      bytes = text fd ++ bytes;
    }

abbrev pub buffered : Connection → DataBuffer → Connection
buffered c db = record c { buffer = db }

abbrev pub sending : Gate → MessagePool → List Forward → Gate
sending g mp fs = record g { mp = mp; sent = g.sent ++ fs }

module _ (text : ℕ → List ℕ) (fd : ℕ) (c : Connection) (g : Gate) (w : IsWired fd c g) where
  -- A package that is there is read and forwarded.
  pub forward_lem :
      (size : ℕ)
      → IsValid c.buffer
      → 0 < size
      → size ≤ c.buffer.size
      → (db : DataBuffer) × (mp : MessagePool) × (forward text size c g
          ≡ some (
            buffered c db,
            sending g mp
                (package_of text fd c g (take size (pending c.buffer.chunks c.buffer.offset)) ∷ []),
          ))
        × IsValid db
        × (pending db.chunks db.offset ≡ drop size (pending c.buffer.chunks c.buffer.offset))
  unfolding forward forward_to send_read
  forward_lem size v pos h =
      let (ne, socket, _, target) = w in
      let (db, mp, e, v', left, _, _) = read_lem c.buffer g.mp size v pos h in
      (
        db,
        mp,
        rw (socket, e)
            (elim (ℕ_discrete g.broker 0) [
              | yes b ↦ elim (ℕ_discrete c.agent 0) [
                | yes a ↦ elim (ℕ_discrete g.watchdog 0) [
                  | yes n ↦ elim target [
                    | inl x ↦ absurd (x b)
                    | inr (inl x) ↦ absurd (x a)
                    | inr (inr x) ↦ absurd (x n)
                  ]
                  | no n ↦ ground arith
                ]
                | no a ↦ ground arith
              ]
              | no b ↦ ground arith
            ]),
        v',
        left,
      )

module _ (text : ℕ → List ℕ) (id fd : ℕ) where
  -- The loop has sent these packages and leaves these bytes.
  abbrev pub Ran : ℕ → Connection → Gate → List (List ℕ) × List ℕ → Type 0
  Ran fuel c g b =
      (db : DataBuffer) × (mp : MessagePool) × (dispatch_loop text id fuel c g
        ≡ some (buffered c db, sending g mp (map (package_of text fd c g) b.0)))
      × IsStream db b.1

  waits :
      (fuel : ℕ) (c : Connection) (g : Gate) (db : DataBuffer) (mp : MessagePool)
      → readheader c.buffer g.mp g.header_size ≡ some (minus_one, db, mp)
      → dispatch_loop text id (suc fuel) c g ≡ some (buffered c db, sending g mp [])
  unfolding dispatch_loop
  waits fuel c g db mp e = rw (e, append-nil g.sent) refl

  empties :
      (fuel : ℕ) (c : Connection) (g : Gate) (db : DataBuffer) (mp : MessagePool)
      → readheader c.buffer g.mp g.header_size ≡ some (0, db, mp)
      → dispatch_loop text id (suc fuel) c g
        ≡ dispatch_loop text id fuel (buffered c db) (record g { mp = mp })
  unfolding dispatch_loop
  empties fuel c g db mp e = rw e refl

  forwards :
      (fuel size : ℕ) (c : Connection) (g : Gate) (db db' : DataBuffer) (mp mp' : MessagePool)
      (f : List Forward)
      → readheader c.buffer g.mp g.header_size ≡ some (size, db, mp)
      → 0 < size
      → size < 2 ^ 16
      → forward text size (buffered c db) (record g { mp = mp })
        ≡ some (buffered c db', sending g mp' f)
      → dispatch_loop text id (suc fuel) c g
        ≡ dispatch_loop text id fuel (buffered c (reset db')) (sending g mp' f)
  unfolding dispatch_loop
  forwards fuel size c g db db' mp mp' f e pos small e' =
      let small31 : leb (2 ^ 31) size ≡ false = ground arith in
      let some_size : (size == 0) ≡ false = ground arith in
      let small24 : leb 0x1000000 size ≡ false = ground arith in
      ground (arith, e, small31, some_size, small24, e')

  module _ (fuel hi lo : ℕ) (rest : List ℕ) (c : Connection) (g : Gate) (w : IsWired fd c g)
      (bytes : IsBytes (hi ∷ lo ∷ rest)) (db : DataBuffer) (mp : MessagePool) (v : IsValid db)
      (left : pending db.chunks db.offset ≡ rest) where
    abbrev size : ℕ
    size = hi * 2 ^ 8 + lo

    after_package :
        0 < size
        → size ≤ length rest
        → readheader c.buffer g.mp g.header_size ≡ some (size, db, mp)
        → ((c' : Connection) (g' : Gate)
            → IsWired fd c' g'
            → IsStream c'.buffer (drop size rest)
            → Ran fuel c' g' (frames fuel (drop size rest)))
        → Ran
            (suc fuel)
            c
            g
            (take size rest ∷ (frames fuel (drop size rest)).0, (frames fuel (drop size rest)).1)
    unfolding reset
    after_package pos o e more =
        let (h, (l, b)) = bytes in
        let (db1, mp1, e1, v1, left1) =
          forward_lem text fd (buffered c db) (record g { mp = mp }) w size v pos
            (omega (arith, v.counted, ap length left)) in
        let p = package_of text fd c g (take size rest) in
        let goes : forward text size (buffered c db) (record g { mp = mp })
            ≡ some (buffered c db1, sending g mp1 (p ∷ [])) =
          e1
          ∙ ap
              (λ l.
                some (buffered c db1, sending g mp1 (package_of text fd c g (take size l) ∷ [])))
              left in
        let (db2, mp2, e2, i2) = more (buffered c (reset db1)) (sending g mp1 (p ∷ [])) w (
          record { inside = v1.inside; counted = v1.counted },
          IsBytes-drop size rest b,
          inl (refl, left1 ∙ ap (drop size) left),
        ) in
        (
          db2,
          mp2,
          forwards fuel size c g db db1 mp mp1 (p ∷ []) e pos (omega arith) goes
              ∙ e2
              ∙ ap (λ fs. some (buffered c db2, record g { mp = mp2; sent = fs }))
                  (append_assoc g.sent (p ∷ [])
                    (map (package_of text fd c g) (frames fuel (drop size rest)).0)),
          i2,
        )

  pub loop_lem :
      (fuel : ℕ) (s : List ℕ) (c : Connection) (g : Gate)
      → IsWired fd c g
      → IsStream c.buffer s
      → length s < fuel
      → Ran fuel c g (frames fuel s)
  unfolding frames
  loop_lem zero s c g w i h = absurd (omega arith)
  loop_lem (suc fuel) [] c g w i h =
      let e = readheader-IsStream_short c.buffer g.mp [] i (omega arith) in
      let (ne, socket, two, target) = w in
      (c.buffer, g.mp, waits fuel c g c.buffer g.mp (rw two e), i)
  loop_lem (suc fuel) (x ∷ []) c g w i h =
      let e = readheader-IsStream_short c.buffer g.mp (x ∷ []) i (omega arith) in
      let (ne, socket, two, target) = w in
      (c.buffer, g.mp, waits fuel c g c.buffer g.mp (rw two e), i)
  loop_lem (suc fuel) (hi ∷ lo ∷ rest) c g w i h =
      let (ne, socket, two, target) = w in
      let (db, mp, e, v, left, hd) = readheader-IsStream c.buffer g.mp hi lo rest i in
      let e' : readheader c.buffer g.mp g.header_size
          ≡ some
              (if leb (hi * 2 ^ 8 + lo) (length rest) then hi * 2 ^ 8 + lo else minus_one, db, mp) =
        rw two e in
      elim (sizes fuel hi lo rest) [
        | inl z ↦
            let (db', mp', e'', i') =
              loop_lem fuel rest (buffered c db) (record g { mp = mp }) w
                (v, i.1.1.1, inl (hd ∙ z, left)) (omega arith) in
            subst (Ran (suc fuel) c g) (sym (frames_empty fuel hi lo rest z))
              (db', mp', empties fuel c g db mp (e' ∙ ground (arith, z)) ∙ e'', i')
        | inr (inl (n, o)) ↦ subst (Ran (suc fuel) c g) (sym (frames_full fuel hi lo rest n o)) (
            after_package fuel hi lo rest c g w i.1 db mp v left (omega arith) o (e' ∙ ground arith)
              λ c' g' w' i'.
                loop_lem fuel (drop (hi * 2 ^ 8 + lo) rest) c' g' w' i'
                  (omega (arith, length-drop (hi * 2 ^ 8 + lo) rest)))
        | inr (inr o) ↦ subst (Ran (suc fuel) c g) (sym (frames_short fuel hi lo rest o)) (
          db,
          mp,
          waits fuel c g db mp (e' ∙ ground arith),
          (v, i.1, inr (omega arith, (λ z. omega (arith, hd, z)), hd, left)),
        )
      ]
