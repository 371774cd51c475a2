-- ===== src/Socket/Uncounted.antt =====
-- skynet/skynet-src/socket_server.c: a request to a slot that is only reserved is not counted.
use skynet_athena.Socket.Lists.{true_ne_false}
use skynet_athena.Socket.Requests.{warn_eq}
use skynet_athena.Socket.Direct.{and_true}
use skynet_athena.Socket.Send.{Outcome, again, eintr, failed, send_buffer_empty, wrote}
use skynet_athena.Socket.Request.{
  append_high, append_low, append_sendbuffer, can_direct_write, ctrl_send, dec_sending_ref,
  inc_sending_ref, requested, send_by_request, send_first_udp, send_socket, socket_server_send,
  warn,
}
use skynet_athena.Socket.Safety.{new_fd_facts}
use skynet_athena.Base.{
  ==_iff, Bool, Bool-cases, List, [], ap, arith, false, if◌then◌else◌, inl, inr, length, none, not,
  refl, some, subst, sym, true, ℕ, ◌%◌, ◌&&◌, ◌++◌, ◌==◌, ◌^◌, ◌||◌, ◌∙◌, ◌≡◌,
}
use skynet_athena.Socket.{
  Event, Socket, SocketType, WriteBuffer, is_connected, is_halfclose, is_invalid, is_listening,
  is_paccept, is_tcp, new_fd, quiet, tcp,
}
use skynet_athena.Socket.Reserve.{reserved}

-- What `dec_sending_ref` looks at is the same in `t`, with any event.
record Leaves (s : Socket) (r : Event × Socket) : Type 0 where
  keeps_id : r.1.id ≡ s.id
  keeps_protocol : r.1.protocol ≡ s.protocol
  keeps_sending : r.1.sending ≡ s.sending

record Uncounted (s t : Socket) : Type 0 where
  same_id : t.id ≡ s.id
  same_protocol : t.protocol ≡ s.protocol
  same_sending : t.sending ≡ s.sending

pair_Leaves : (s t : Socket) (e : Event) → Uncounted s t → Leaves s (e, t)
pair_Leaves s t e u = record {
  keeps_id = u.same_id;
  keeps_protocol = u.same_protocol;
  keeps_sending = u.same_sending;
}

unchanged : (s : Socket) (e : Event) → Leaves s (e, s)
unchanged s e = record { keeps_id = refl; keeps_protocol = refl; keeps_sending = refl }

appended :
    (s : Socket) (high low : List WriteBuffer) (wb_size : ℕ)
    → Uncounted s (record s { high = high; low = low; wb_size = wb_size })
appended s high low wb_size = record { same_id = refl; same_protocol = refl; same_sending = refl }

polled_too : (s t : Socket) → Uncounted s t → Uncounted s (record t { polled = true })
polled_too s t u = record {
  same_id = u.same_id;
  same_protocol = u.same_protocol;
  same_sending = u.same_sending;
}

if_both : {A : Type 0} (P : A → Type 0) (b : Bool) (x y : A) → P x → P y → P (if b then x else y)
if_both P true x y hx hy = hx
if_both P false x y hx hy = hy

warn-Leaves : (s t : Socket) → Uncounted s t → Leaves s (warn t)
warn-Leaves s t u =
    let (e, n, eq) = warn_eq t in
    subst (Leaves s) (sym eq) (record {
      keeps_id = u.same_id;
      keeps_protocol = u.same_protocol;
      keeps_sending = u.same_sending;
    })

append_sendbuffer-Uncounted :
    (high : Bool) (bytes address : List ℕ) (s : Socket)
    → Uncounted s (append_sendbuffer high bytes address s)
unfolding append_sendbuffer append_high append_low
append_sendbuffer-Uncounted high bytes address s =
    if_both (Uncounted s) high (append_high bytes address s) (append_low bytes address s)
      (appended s _ _ _) (appended s _ _ _)

send_first_udp-Leaves :
    (high : Bool) (bytes address : List ℕ) (o : Outcome) (s : Socket)
    → Leaves s (send_first_udp high bytes address o s)
unfolding send_first_udp
send_first_udp-Leaves high bytes address o s =
    if_both (Leaves s) _ (quiet, s) _ (unchanged s quiet) (by_outcome o)
  where
    later : Leaves s (warn (record (append_sendbuffer high bytes address s) { polled = true }))
    later = warn-Leaves s _ (polled_too s _ (append_sendbuffer-Uncounted high bytes address s))

    by_outcome :
        (o : Outcome)
        → Leaves s (elim o [
          | wrote k ↦
              if k == length bytes
              then (quiet, record s { out = s.out ++ bytes })
              else warn (record (append_sendbuffer high bytes address s) { polled = true })
          | eintr ↦ warn (record (append_sendbuffer high bytes address s) { polled = true })
          | again ↦ warn (record (append_sendbuffer high bytes address s) { polled = true })
          | failed ↦ warn (record (append_sendbuffer high bytes address s) { polled = true })
        ])
    by_outcome (wrote k) =
        if_both (Leaves s) (k == length bytes) (quiet, record s { out = s.out ++ bytes }) _
          (record { keeps_id = refl; keeps_protocol = refl; keeps_sending = refl }) later
    by_outcome eintr = later
    by_outcome again = later
    by_outcome failed = later

send_socket-Leaves :
    (id : ℕ) (high : Bool) (bytes : List ℕ) (o : Outcome) (s : Socket)
    → Leaves s (send_socket id high bytes none o s)
unfolding send_socket append_high
send_socket-Leaves id high bytes o s =
    let P = Leaves s in
    let first = record (append_high bytes [] s) { polled = true } in
    let nothing = unchanged s quiet in
    let later =
      λ (address : List ℕ). warn-Leaves s _ (append_sendbuffer-Uncounted high bytes address s) in
    if_both P (is_invalid s.type || not (s.id == id) || is_halfclose s.type || is_paccept s.type)
      (quiet, s) _ nothing
      (if_both P (is_listening s.type) (quiet, s) _ nothing
        (if_both P (send_buffer_empty s && is_connected s.type) _ _
          (if_both P (is_tcp s.protocol) (warn first) _
            (warn-Leaves s first (polled_too s (append_high bytes [] s) (appended s _ _ _)))
            (send_first_udp-Leaves high bytes s.udp_address o s))
          (if_both P (is_tcp s.protocol) _ _ (later []) (later s.udp_address))))

ctrl_send_uncounted :
    (id : ℕ) (high : Bool) (bytes : List ℕ) (o : Outcome) (s : Socket)
    → s.id ≡ id
    → s.protocol ≡ tcp
    → s.sending % 2 ^ 16 ≡ 0
    → ctrl_send id high bytes o s ≡ none
unfolding ctrl_send dec_sending_ref
ctrl_send_uncounted id high bytes o s ei ep es =
    let k = send_socket-Leaves id high bytes o s in
    let t = (send_socket id high bytes none o s).1 in
    let e_id : (t.id == id) ≡ true = (==_iff _ _).1 (k.keeps_id ∙ ei) in
    let e_tcp : is_tcp t.protocol ≡ true = ap is_tcp (k.keeps_protocol ∙ ep) in
    let e_count : (t.sending % 2 ^ 16 == 0) ≡ true =
      (==_iff _ _).1 (ap (λ n. n % 2 ^ 16) k.keeps_sending ∙ es) in
    rw (e_id, e_tcp, e_count) refl

direct_connected : (s : Socket) (id : ℕ) → can_direct_write s id ≡ true → is_connected s.type ≡ true
unfolding can_direct_write
direct_connected s id e = (and_true _ _ (and_true _ _ e).0).1

-- A service that sends to an id before the socket thread has opened the connection: the request is
-- not counted, since the slot is only reserved, so `dec_sending_ref` fails its assertion when the
-- socket thread takes the request after it has made the connection, finished or not.
pub reserved_send_fault :
    (id opaque : ℕ) (bytes : List ℕ) (locked : Bool) (o o' : Outcome) (high : Bool) (s t : Socket)
    (y : SocketType)
    → new_fd (reserved id s) id tcp opaque false ≡ some (true, t)
    → (socket_server_send id bytes locked o (reserved id s) ≡ (requested, reserved id s))
      × (ctrl_send id high bytes o' (record t { type = y }) ≡ none)
unfolding socket_server_send send_by_request inc_sending_ref
reserved_send_fault id opaque bytes locked o o' high s t y e =
    let (ei, ep, es, _, _, _, _, _) = new_fd_facts (reserved id s) t id opaque tcp e in
    let same : (id == id) ≡ true = (==_iff id id).1 refl in
    (
      elim (Bool-cases (can_direct_write (reserved id s) id && not locked)) [
        | inl can ↦
            absurd (true_ne_false (sym (direct_connected (reserved id s) id (and_true _ _ can).0)))
        | inr cannot ↦ rw (same, cannot) refl
      ],
      ctrl_send_uncounted id high bytes o' (record t { type = y }) ei ep (omega (arith, es)),
    )
