-- ===== src/Socket/Requests.antt =====
-- skynet/skynet-src/socket_server.c: a request in the control pipe, on a connected and on a closed socket.
use mathlib.Core.Option
use skynet_athena.Base.{
  ==_iff, Bool, Bool-cases, List, [], ap, append-nil, append_assoc, ap₂, arith, false,
  if◌then◌else◌, inl, inr, leb, length, none, refl, some, suc, sym, take, true, ℕ, ◌%◌, ◌&&◌, ◌*◌,
  ◌++◌, ◌+◌, ◌-◌, ◌/◌, ◌<◌, ◌==◌, ◌^◌, ◌∙◌, ◌∷◌, ◌≡◌,
}
use skynet_athena.Socket.{
  Event, Socket, WriteBuffer, connected, id_tag16, invalid, is_connected, is_halfclose, is_invalid,
  is_listening, is_paccept, is_tcp, message, quiet, socket_warning, tcp, warning_size,
}
use skynet_athena.Socket.Send.{Outcome, offered, send_buffer_empty}
use skynet_athena.Socket.Request.{
  append_high, append_sendbuffer, ctrl_send, dec_sending_ref, node, send_socket, warn,
}
use skynet_athena.Socket.Flush.{pending, size_of}
use skynet_athena.Socket.Lists.{IsQueued, all_bytes, direct_bytes}
use skynet_athena.Socket.Pass.{take-length}
use skynet_athena.Socket.Line.{concat}

pub concat-append : (bs : List (List ℕ)) (b : List ℕ) → concat (bs ++ (b ∷ [])) ≡ concat bs ++ b
concat-append [] b = append-nil b
concat-append (c ∷ bs) b =
    ap (λ r. c ++ r) (concat-append bs b) ∙ sym (append_assoc c (concat bs) b)

pending-append :
    (bs : List WriteBuffer) (bytes address : List ℕ)
    → pending (bs ++ (node bytes address ∷ [])) ≡ pending bs ++ bytes
pending-append [] bytes address = append-nil (take (length bytes) bytes) ∙ take-length bytes
pending-append (b ∷ bs) bytes address =
    ap (λ r. offered b ++ r) (pending-append bs bytes address)
    ∙ sym (append_assoc (offered b) (pending bs) bytes)

size_of-append :
    (bs : List WriteBuffer) (bytes address : List ℕ)
    → size_of (bs ++ (node bytes address ∷ [])) ≡ size_of bs + length bytes
size_of-append [] bytes address = omega arith
size_of-append (b ∷ bs) bytes address = omega (arith, size_of-append bs bytes address)

last_place : (o d p b : List ℕ) → o ++ (d ++ ((p ++ b) ++ [])) ≡ (o ++ (d ++ (p ++ []))) ++ b
last_place o d p b = simp (append-nil, append_assoc)

-- With an empty low list, a new node of the high list comes last.
pub append_high-bytes :
    (s : Socket) (bytes : List ℕ)
    → s.low ≡ []
    → all_bytes (append_high bytes [] s) ≡ all_bytes s ++ bytes
unfolding append_high
append_high-bytes s bytes e =
    let d = direct_bytes s.dw_buffer s.dw_offset in
    ap₂ (λ p l. s.out ++ (d ++ (p ++ pending l))) (pending-append s.high bytes []) e
    ∙ last_place s.out d (pending s.high) bytes
    ∙ sym (ap (λ l. (s.out ++ (d ++ (pending s.high ++ pending l))) ++ bytes) e)

pub append_high-IsQueued :
    (s : Socket) (bytes : List ℕ) → IsQueued s → IsQueued (append_high bytes [] s)
unfolding append_high
append_high-IsQueued s bytes q = record {
  counted = omega (arith, q.counted, size_of-append s.high bytes []);
  fresh = q.fresh;
}

pub warn_eq : (s : Socket) → (e : Event) × (n : ℕ) × (warn s ≡ (e, record s { warn_size = n }))
unfolding warn
warn_eq s = elim (Bool-cases (leb warning_size s.wb_size && leb s.warn_size s.wb_size)) [
  | inl big ↦ (
    socket_warning (record (message s) { ud = (s.wb_size + 1023) / 1024 }),
    if s.warn_size == 0 then warning_size * 2 else s.warn_size * 2,
    rw big refl,
  )
  | inr small ↦ (quiet, s.warn_size, rw small refl)
]

-- On a connected TCP socket a request is put at the end of the high list.
send_socket_eq :
    (id : ℕ) (bytes : List ℕ) (o : Outcome) (s : Socket)
    → s.type ≡ connected
    → s.protocol ≡ tcp
    → s.id ≡ id
    → (e : Event) × (p : Bool) × (n : ℕ) × (send_socket id true bytes none o s
        ≡ (e, record (append_high bytes [] s) { polled = p; warn_size = n }))
unfolding send_socket append_sendbuffer append_high
send_socket_eq id bytes o s et ep ei =
    let e_id : (s.id == id) ≡ true = (==_iff s.id id).1 ei in
    let e_invalid : is_invalid s.type ≡ false = ap is_invalid et in
    let e_half : is_halfclose s.type ≡ false = ap is_halfclose et in
    let e_paccept : is_paccept s.type ≡ false = ap is_paccept et in
    let e_listening : is_listening s.type ≡ false = ap is_listening et in
    let e_connected : is_connected s.type ≡ true = ap is_connected et in
    let e_tcp : is_tcp s.protocol ≡ true = ap is_tcp ep in
    elim (Bool-cases (send_buffer_empty s)) [
      | inl z ↦
          let (e, n, w) = warn_eq (record (append_high bytes [] s) { polled = true }) in
          (
            e,
            true,
            n,
            rw (e_id, e_invalid, e_half, e_paccept, e_listening, e_connected, e_tcp, z) w,
          )
      | inr z ↦
          let (e, n, w) = warn_eq (append_high bytes [] s) in
          (
            e,
            s.polled,
            n,
            rw (e_id, e_invalid, e_half, e_paccept, e_listening, e_connected, e_tcp, z) w,
          )
    ]

-- A request was counted, so its end can be counted.
dec_eq :
    (s : Socket) (id n : ℕ)
    → s.protocol ≡ tcp
    → s.id ≡ id
    → s.sending ≡ id_tag16 id * 2 ^ 16 + suc n
    → suc n < 2 ^ 16
    → dec_sending_ref s id ≡ some (record s { sending = s.sending - 1 })
unfolding dec_sending_ref
dec_eq s id n ep ei es lt =
    let e_id : (s.id == id) ≡ true = (==_iff s.id id).1 ei in
    let e_tcp : is_tcp s.protocol ≡ true = ap is_tcp ep in
    let e_count : (s.sending % 2 ^ 16 == 0) ≡ false = ground arith in rw (e_id, e_tcp, e_count) refl

-- The socket thread takes a request on a connected socket.
pub ctrl_send_eq :
    (id n : ℕ) (bytes : List ℕ) (o : Outcome) (s : Socket)
    → s.type ≡ connected
    → s.protocol ≡ tcp
    → s.id ≡ id
    → s.sending ≡ id_tag16 id * 2 ^ 16 + suc n
    → suc n < 2 ^ 16
    → (e : Event) × (p : Bool) × (w : ℕ) × (ctrl_send id true bytes o s
        ≡ some (
          e,
          record (append_high bytes [] s) { polled = p; warn_size = w; sending = s.sending - 1 },
        ))
unfolding ctrl_send append_high
ctrl_send_eq id n bytes o s et ep ei es lt =
    let (e, p, w, eq) = send_socket_eq id bytes o s et ep ei in
    let s' : Socket = record (append_high bytes [] s) { polled = p; warn_size = w } in
    (e, p, w, rw eq (ap (Option.map (λ t. (e, t))) (dec_eq s' id n ep ei es lt)))

-- On an invalid slot the request is dropped and counted.
pub ctrl_send_invalid :
    (id n : ℕ) (bytes : List ℕ) (o : Outcome) (s : Socket)
    → s.type ≡ invalid
    → s.protocol ≡ tcp
    → s.id ≡ id
    → s.sending ≡ id_tag16 id * 2 ^ 16 + suc n
    → suc n < 2 ^ 16
    → ctrl_send id true bytes o s ≡ some (quiet, record s { sending = s.sending - 1 })
unfolding ctrl_send send_socket
ctrl_send_invalid id n bytes o s et ep ei es lt =
    let e_invalid : is_invalid s.type ≡ true = ap is_invalid et in
    rw e_invalid (ap (Option.map (λ t. (quiet, t))) (dec_eq s id n ep ei es lt))
