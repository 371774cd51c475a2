-- ===== src/Socket/Order.antt =====
-- skynet/skynet-src/socket_server.c: whatever the interleaving, the bytes of one TCP connection stay in
-- order.
use skynet_athena.Base.{
  ==_iff, Bool, Bool-cases, List, [], ap, append_assoc, arith, false, inl, inr, length,
  length-append, not, refl, some, suc, sym, true, ℕ, ◌&&◌, ◌*◌, ◌++◌, ◌+◌, ◌-◌, ◌<◌, ◌==◌, ◌^◌, ◌∙◌,
  ◌∷◌, ◌≡◌, ◌⊎◌,
}
use skynet_athena.Socket.{Socket, id_tag16, is_invalid, is_reserve, is_tcp}
use skynet_athena.Socket.Send.{Outcome}
use skynet_athena.Socket.Request.{append_high, can_direct_write, socket_server_send}
use skynet_athena.Socket.Lists.{Closed, all_bytes}
use skynet_athena.Socket.Pass.{Kept, send_buffer_lem}
use skynet_athena.Socket.Line.{Alive, IsLine, Line, concat, flush, handle_request, perform, submit}
use skynet_athena.Socket.Requests.{
  append_high-IsQueued, append_high-bytes, concat-append, ctrl_send_eq, ctrl_send_invalid,
}
use skynet_athena.Socket.Direct.{
  and_true, direct_facts, inc_eq, no_requests, send_by_request_eq, send_direct-Alive,
}

-- A call of `socket_server_send` keeps the line in order.
pub send-IsLine :
    (id : ℕ) (bytes : List ℕ) (locked : Bool) (o : Outcome) (l : Line)
    → IsLine id l
    → IsLine id (submit bytes l (socket_server_send id bytes locked o l.socket))
unfolding socket_server_send
send-IsLine id bytes locked o l is = elim is.state [
  | inr d ↦
      let e_id : (l.socket.id == id) ≡ true = (==_iff _ _).1 is.named in
      let e_invalid : is_invalid l.socket.type ≡ true = ap is_invalid d.shut in
      rw (e_id, e_invalid) is
  | inl a ↦
      let e_id : (l.socket.id == id) ≡ true = (==_iff _ _).1 is.named in
      let e_invalid : is_invalid l.socket.type ≡ false = ap is_invalid a.connection in
      elim (Bool-cases (can_direct_write l.socket id && not locked)) [
        | inl can ↦
            let (eh, el, ed, ec) = direct_facts l.socket id (and_true _ _ can).0 in
            let (s', run, alive, ep, ei, es) =
              send_direct-Alive bytes o l is.stream a eh ed
                (no_requests l.pipe (omega (arith, ec, is.counted, is.short))) in
            rw (e_id, e_invalid, can)
              (rw run (record {
                stream = ep ∙ is.stream;
                named = ei ∙ is.named;
                counted = es ∙ is.counted;
                short = is.short;
                state = inl alive;
              }))
        | inr cannot ↦ elim (inc_eq l.socket id (length l.pipe) is.stream is.counted is.short) [
          | inl full ↦ rw (e_id, e_invalid, cannot) (rw (send_by_request_eq id l.socket _ full) is)
          | inr (room, lt) ↦
              rw (e_id, e_invalid, cannot)
                (rw (send_by_request_eq id l.socket _ room) (record {
                  stream = is.stream;
                  named = is.named;
                  counted = omega (arith, is.counted, length-append l.pipe (bytes ∷ []));
                  short = omega (arith, length-append l.pipe (bytes ∷ []));
                  state = inl (record {
                    connection = a.connection;
                    queued = record { counted = a.queued.counted; fresh = a.queued.fresh };
                    empty_low = a.empty_low;
                    bytes =
                        ap (λ c. all_bytes l.socket ++ c) (concat-append l.pipe bytes)
                        ∙ sym (append_assoc (all_bytes l.socket) (concat l.pipe) bytes)
                        ∙ ap (λ b. b ++ bytes) a.bytes;
                  });
                }))
        ]
      ]
]

-- The socket thread takes a request.
pub handle-IsLine :
    (id : ℕ) (o : Outcome) (p : List (List ℕ)) (l : Line)
    → l.pipe ≡ p
    → IsLine id l
    → (l' : Line) × (handle_request id o p l ≡ some l') × IsLine id l'
unfolding handle_request append_high
handle-IsLine id o [] l e is = (l, refl, is)
handle-IsLine id o (bytes ∷ rest) l e is =
    let s = l.socket in
    let n = length rest in
    let lt : suc n < 2 ^ 16 = omega (arith, is.short, ap length e) in
    let es : s.sending ≡ id_tag16 id * 2 ^ 16 + suc n = omega (arith, is.counted, ap length e) in
    elim is.state [
      | inl a ↦
          let (_, p, w, run) = ctrl_send_eq id n bytes o s a.connection is.stream is.named es lt in
          (
            record l {
              socket = record (append_high bytes [] s) {
                polled = p;
                warn_size = w;
                sending = s.sending - 1;
              };
              pipe = rest;
            },
            rw run refl,
            record {
              stream = is.stream;
              named = is.named;
              counted = omega (arith, es);
              short = omega (arith, lt);
              state = inl (record {
                connection = a.connection;
                queued =
                    (let q = append_high-IsQueued s bytes a.queued in
                      record { counted = q.counted; fresh = q.fresh });
                empty_low = a.empty_low;
                bytes =
                    ap (λ b. b ++ concat rest) (append_high-bytes s bytes a.empty_low)
                    ∙ append_assoc (all_bytes s) bytes (concat rest)
                    ∙ ap (λ q. all_bytes s ++ concat q) (sym e)
                    ∙ a.bytes;
              });
            },
          )
      | inr d ↦ (
        record l { socket = record s { sending = s.sending - 1 }; pipe = rest },
        rw (ctrl_send_invalid id n bytes o s d.shut is.stream is.named es lt) refl,
        record {
          stream = is.stream;
          named = is.named;
          counted = omega (arith, es);
          short = omega (arith, lt);
          state = inr (record { shut = d.shut; rest = d.rest; prefix = d.prefix });
        },
      )
    ]

-- The socket thread at a write event.
pub flush-IsLine :
    (id : ℕ) (locked : Bool) (os : List Outcome) (l : Line)
    → IsLine id l
    → (l' : Line) × (perform id (flush locked os) l ≡ some l') × IsLine id l'
unfolding perform
flush-IsLine id locked os l is = elim is.state [
  | inr d ↦ let e : is_invalid l.socket.type ≡ true = ap is_invalid d.shut in (l, rw e refl, is)
  | inl a ↦
      let e : is_invalid l.socket.type ≡ false = ap is_invalid a.connection in
      let (_, s', run, end) =
        send_buffer_lem locked os l.socket
          (record { stream = ap is_tcp is.stream; valid = e; taken = ap is_reserve a.connection })
          a.queued in
      (record l { socket = s' }, rw (e, run) refl, flushed s' a end)
]
  where
    flushed :
        (s' : Socket)
        → Alive l
        → Kept l.socket s' ⊎ Closed os (all_bytes l.socket) l.socket s'
        → IsLine id (record l { socket = s' })
    flushed s' a (inl k) = record {
      stream = k.same_protocol ∙ is.stream;
      named = k.same_id ∙ is.named;
      counted = k.same_sending ∙ is.counted;
      short = is.short;
      state = inl (record {
        connection = k.same_type ∙ a.connection;
        queued = k.queued;
        empty_low = k.same_low a.empty_low;
        bytes = ap (λ b. b ++ concat l.pipe) k.bytes ∙ a.bytes;
      });
    }
    flushed s' a (inr c) = record {
      stream = c.same_protocol ∙ is.stream;
      named = c.same_id ∙ is.named;
      counted = c.same_sending ∙ is.counted;
      short = is.short;
      state = inr (record {
        shut = c.shut;
        rest = c.rest ++ concat l.pipe;
        prefix =
            sym (append_assoc s'.out c.rest (concat l.pipe))
            ∙ ap (λ b. b ++ concat l.pipe) c.prefix
            ∙ a.bytes;
      });
    }
