-- ===== src/Socket/Safety.antt =====
-- skynet/skynet-src/socket_server.c: one TCP connection from `new_fd` on, under any interleaving of its
-- senders and the socket thread.
use mathlib.Core.Option
use skynet_athena.Base.{
  Bool, Bool-cases, List, Option, [], ap, append-nil, append_assoc, ap₂, arith, drop, false, inl,
  inr, none, not, refl, some, subst, sym, take, true, ℕ, ◌*◌, ◌++◌, ◌^◌, ◌||◌, ◌∙◌, ◌∷◌, ◌≡◌,
}
use skynet_athena.Socket.{
  Protocol, Socket, WriteBuffer, connected, id_tag16, is_invalid, is_null, is_reserve, new_fd, tcp,
}
use skynet_athena.Socket.Flush.{IsFresh, pending, size_of}
use skynet_athena.Socket.Lists.{direct_bytes, true_ne_false}
use skynet_athena.Socket.Line.{Action, IsLine, Line, concat, flush, handle, perform, send}
use skynet_athena.Socket.Direct.{stretch}
use skynet_athena.Socket.Order.{flush-IsLine, handle-IsLine, send-IsLine}

-- A slot after `new_fd` for a connection that is made, and whatever is done with it from there.
pub data Reach (id : ℕ) : Line → Type 0 where
  opened :
      (s t : Socket) (opaque : ℕ)
      → new_fd s id tcp opaque false ≡ some (true, t)
      → Reach id (record { socket = record t { type = connected }; pipe = []; accepted = [] })
  acted : {l l' : Line} (a : Action) → Reach id l → perform id a l ≡ some l' → Reach id l'

abbrev of_result : (A : Type 0) → (Socket → A) → A → Option (Bool × Socket) → A
of_result A f a none = a
of_result A f a (some (b, u)) = f u

both_null :
    (h l : List WriteBuffer) → not (is_null h) || not (is_null l) ≡ false → (h ≡ []) × (l ≡ [])
both_null [] [] e = (refl, refl)
both_null [] (b ∷ l) e = cc
both_null (b ∷ h) l e = cc

-- What `new_fd` leaves.
pub new_fd_facts :
    (s t : Socket) (id opaque : ℕ) (protocol : Protocol)
    → new_fd s id protocol opaque false ≡ some (true, t)
    → (t.id ≡ id)
      × (t.protocol ≡ protocol)
      × (t.sending ≡ id_tag16 id * 2 ^ 16)
      × (t.high ≡ [])
      × (t.low ≡ [])
      × (t.dw_buffer ≡ none)
      × (t.wb_size ≡ 0)
      × (t.out ≡ [])
unfolding new_fd
new_fd_facts s t id opaque protocol e = elim (Bool-cases (not (is_reserve s.type))) [
  | inl no_reserve ↦ cc (rw no_reserve at e)
  | inr r ↦ elim (Bool-cases (not (is_null s.high) || not (is_null s.low))) [
    | inl filled ↦ cc (rw (r, filled) at e)
    | inr empty ↦
        let (eh, el) = both_null s.high s.low empty in
        let h = sym (rw (r, empty) at e) in
        let read = λ (A : Type 0) (f : Socket → A). ap (of_result A f (f s)) h in
        (
          read ℕ (λ u. u.id),
          read Protocol (λ u. u.protocol),
          read ℕ (λ u. u.sending),
          read (List WriteBuffer) (λ u. u.high) ∙ eh,
          read (List WriteBuffer) (λ u. u.low) ∙ el,
          read (Option (List ℕ)) (λ u. u.dw_buffer),
          read ℕ (λ u. u.wb_size),
          read (List ℕ) (λ u. u.out),
        )
  ]
]

opened-IsLine :
    (id opaque : ℕ) (s t : Socket)
    → new_fd s id tcp opaque false ≡ some (true, t)
    → IsLine id (record { socket = record t { type = connected }; pipe = []; accepted = [] })
opened-IsLine id opaque s t e =
    let (ei, ep, es, eh, el, ed, ew, eo) = new_fd_facts s t id opaque tcp e in
    record {
      stream = ep;
      named = ei;
      counted = omega (arith, es);
      short = omega arith;
      state = inl (record {
        connection = refl;
        queued = record {
          counted = omega (arith, ew, ap size_of eh, ap size_of el);
          fresh = subst IsFresh (sym el) tt;
        };
        empty_low = el;
        bytes =
            stretch t.out _ _ [] (ap₂ (λ h l. pending h ++ pending l) eh el) refl
            ∙ ap₂ ◌++◌ eo (ap (λ d. direct_bytes d t.dw_offset) ed);
      });
    }

perform-IsLine :
    (id : ℕ) (a : Action) (l : Line)
    → IsLine id l
    → (l' : Line) × (perform id a l ≡ some l') × IsLine id l'
unfolding perform
perform-IsLine id (send bytes locked o) l is = (_, refl, send-IsLine id bytes locked o l is)
perform-IsLine id (handle o) l is = handle-IsLine id o l.pipe l refl is
perform-IsLine id (flush locked os) l is = flush-IsLine id locked os l is

pub Reach-IsLine : {id : ℕ} {l : Line} → Reach id l → IsLine id l
Reach-IsLine {id} (opened s t opaque e) = opened-IsLine id opaque s t e
Reach-IsLine {id} (acted {l} {l'} a r e) =
    let (m, f, is) = perform-IsLine id a l (Reach-IsLine r) in
    subst (IsLine id) (Option.some-injective _ _ (sym f ∙ e)) is

-- However senders and the socket thread interleave on a TCP connection that only
-- `socket_server_send` writes to, and however the calls of `write` end: the next action fails no
-- assertion.
pub send_no_fault :
    {id : ℕ} {l : Line} (a : Action) → Reach id l → (l' : Line) × (perform id a l ≡ some l')
send_no_fault {id} {l} a r = let (l', e, is) = perform-IsLine id a l (Reach-IsLine r) in (l', e)

-- However senders and the socket thread interleave on a TCP connection that only
-- `socket_server_send` writes to, and however the calls of `write` end: the bytes that the kernel
-- has taken are a first part of the messages that were accepted, in their order.
pub in_order :
    {id : ℕ} {l : Line} → Reach id l → (rest : List ℕ) × (l.socket.out ++ rest ≡ l.accepted)
in_order {id} {l} r = elim (Reach-IsLine r).state [
  | inl a ↦ (
    (direct_bytes l.socket.dw_buffer l.socket.dw_offset
          ++ (pending l.socket.high ++ pending l.socket.low))
        ++ concat l.pipe,
    sym (append_assoc l.socket.out _ _) ∙ a.bytes,
  )
  | inr d ↦ (d.rest, d.prefix)
]

pending_zero : (bs : List WriteBuffer) → size_of bs ≡ 0 → pending bs ≡ []
pending_zero [] e = refl
pending_zero (b ∷ bs) e =
    ap₂ (λ n r. take n (drop b.ptr b.buffer) ++ r) {y = 0} (omega arith)
      (pending_zero bs (omega arith))

-- On such a connection that is not closed: once no request is in the pipe and the socket thread has
-- nothing more to send, the kernel has taken all messages that were accepted.
pub all_sent :
    {id : ℕ} {l : Line}
    → Reach id l
    → is_invalid l.socket.type ≡ false
    → l.pipe ≡ []
    → l.socket.dw_buffer ≡ none
    → l.socket.wb_size ≡ 0
    → l.socket.out ≡ l.accepted
all_sent {id} {l} r v ep ed ew = elim (Reach-IsLine r).state [
  | inl a ↦
      let s = l.socket in
      let zero_high : size_of s.high ≡ 0 = omega (arith, a.queued.counted) in
      let zero_low : size_of s.low ≡ 0 = omega (arith, a.queued.counted) in
      let e_w : pending s.high ++ pending s.low ≡ [] =
        ap₂ ◌++◌ (pending_zero s.high zero_high) (pending_zero s.low zero_low) in
      sym (
        stretch s.out _ _ _ e_w (ap concat ep)
        ∙ ap (λ d. s.out ++ d) (ap (λ d. direct_bytes d s.dw_offset) ed)
        ∙ append-nil s.out)
      ∙ a.bytes
  | inr d ↦ absurd (true_ne_false (sym (ap is_invalid d.shut) ∙ v))
]
