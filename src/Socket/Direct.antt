-- ===== src/Socket/Direct.antt =====
-- skynet/skynet-src/socket_server.c: a write that a sender makes itself.
use skynet_athena.Base.{
  ==_iff, Bool, Bool-cases, List, Option, [], ap, append-nil, append_assoc, ap₂, arith, drop, false,
  inl, inr, length, none, refl, some, subst, suc, sym, take, take-append-drop, true, ℕ, ◌%◌, ◌&&◌,
  ◌*◌, ◌++◌, ◌+◌, ◌/◌, ◌<◌, ◌==◌, ◌^◌, ◌∙◌, ◌∷◌, ◌≡◌, ◌⊎◌,
}
use skynet_athena.Socket.{Socket, id_tag16, is_none, is_null, is_tcp, tcp}
use skynet_athena.Socket.Send.{Outcome, send_buffer_empty}
use skynet_athena.Socket.Request.{
  Reply, can_direct_write, done, inc_sending_ref, nomore_sending_data, requested, send_by_request,
  send_direct, waits, written,
}
use skynet_athena.Socket.Flush.{pending}
use skynet_athena.Socket.Lists.{direct_bytes, null_list}
use skynet_athena.Socket.Pass.{take-length}
use skynet_athena.Socket.Line.{Alive, Line, concat}

pub and_true : (a b : Bool) → a && b ≡ true → (a ≡ true) × (b ≡ true)
and_true true true e = (refl, refl)
and_true true false e = cc
and_true false b e = cc

none_of : {A : Type 0} (o : Option A) → is_none o ≡ true → o ≡ none
none_of none e = refl
none_of (some a) e = cc

-- A direct write finds nothing else to send.
pub direct_facts :
    (s : Socket) (id : ℕ)
    → can_direct_write s id ≡ true
    → (s.high ≡ []) × (s.low ≡ []) × (s.dw_buffer ≡ none) × (s.sending % 2 ^ 16 ≡ 0)
unfolding can_direct_write nomore_sending_data send_buffer_empty
direct_facts s id e =
    let idle = (and_true _ _ (and_true _ _ (and_true _ _ e).0).0).1 in
    let (empty, count) = and_true _ _ idle in
    let (lists, direct) = and_true (send_buffer_empty s) (is_none s.dw_buffer) empty in
    let (high, low) = and_true (is_null s.high) (is_null s.low) lists in
    (null_list s.high high, null_list s.low low, none_of s.dw_buffer direct, (==_iff _ _).0 count)

pub inc_eq :
    (s : Socket) (id n : ℕ)
    → s.protocol ≡ tcp
    → s.sending ≡ id_tag16 id * 2 ^ 16 + n
    → n < 2 ^ 16
    → (inc_sending_ref s id ≡ none)
      ⊎ ((inc_sending_ref s id ≡ some (record s { sending = s.sending + 1 })) × (suc n < 2 ^ 16))
unfolding inc_sending_ref
inc_eq s id n ep es lt =
    let e_tcp : is_tcp s.protocol ≡ true = ap is_tcp ep in
    let e_tag : (s.sending / 2 ^ 16 == id_tag16 id) ≡ true = (==_iff _ _).1 (omega arith) in
    elim (Bool-cases (s.sending % 2 ^ 16 == 0xffff)) [
      | inl full ↦ inl (rw (e_tcp, e_tag, full) refl)
      | inr room ↦ inr (rw (e_tcp, e_tag, room) refl, ground arith)
    ]

pub stretch : (o d w c : List ℕ) → w ≡ [] → c ≡ [] → (o ++ (d ++ w)) ++ c ≡ o ++ d
stretch o d w c ew ec =
    ap₂ (λ w c. (o ++ (d ++ w)) ++ c) ew ec
    ∙ append-nil (o ++ (d ++ []))
    ∙ ap (λ d. o ++ d) (append-nil d)

-- A direct write, whole or in part, puts the bytes behind all that was sent.
pub send_direct-Alive :
    (bytes : List ℕ) (o : Outcome) (l : Line)
    → l.socket.protocol ≡ tcp
    → Alive l
    → l.socket.high ≡ []
    → l.socket.dw_buffer ≡ none
    → l.pipe ≡ []
    → (s' : Socket) × (send_direct bytes o l.socket ≡ (done, s'))
      × Alive (record l { socket = s'; accepted = l.accepted ++ bytes })
      × (s'.protocol ≡ l.socket.protocol)
      × (s'.id ≡ l.socket.id)
      × (s'.sending ≡ l.socket.sending)
unfolding send_direct
send_direct-Alive bytes o l ep a eh ed epi =
    let s = l.socket in
    let n = written o (length bytes) in
    let t : Socket = record s { out = s.out ++ take n bytes } in
    let e_tcp : is_tcp s.protocol ≡ true = ap is_tcp ep in
    let d = direct_bytes s.dw_buffer s.dw_offset in
    let e_d : d ≡ [] = ap (λ d. direct_bytes d s.dw_offset) ed in
    let e_w : pending s.high ++ pending s.low ≡ [] =
      ap₂ (λ h l. pending h ++ pending l) eh a.empty_low in
    let e_c : concat l.pipe ≡ [] = ap concat epi in
    let alone = λ (o : List ℕ). stretch o d _ _ e_w e_c ∙ ap (λ d. o ++ d) e_d ∙ append-nil o in
    let e_out : s.out ≡ l.accepted = sym (alone s.out) ∙ a.bytes in
    elim (Bool-cases (n == length bytes)) [
      | inl whole ↦ (
        t,
        rw (e_tcp, whole) refl,
        record {
          connection = a.connection;
          queued = record { counted = a.queued.counted; fresh = a.queued.fresh };
          empty_low = a.empty_low;
          bytes =
              alone t.out
              ∙ ap₂ ◌++◌ e_out (
                  subst (λ k. take k bytes ≡ bytes) (sym ((==_iff _ _).0 whole))
                    (take-length bytes));
        },
        refl,
        refl,
        refl,
      )
      | inr part ↦ (
        record t { dw_buffer = some bytes; dw_offset = n; polled = true },
        rw (e_tcp, part) refl,
        record {
          connection = a.connection;
          queued = record { counted = a.queued.counted; fresh = a.queued.fresh };
          empty_low = a.empty_low;
          bytes =
              stretch t.out (drop n bytes) _ _ e_w e_c
              ∙ append_assoc s.out (take n bytes) (drop n bytes)
              ∙ ap₂ ◌++◌ e_out (take-append-drop n bytes);
        },
        refl,
        refl,
        refl,
      )
    ]

pub send_by_request_eq :
    (id : ℕ) (s : Socket) (r : Option Socket)
    → inc_sending_ref s id ≡ r
    → send_by_request id s
      ≡ (elim r as (λ o. Reply × Socket) [ some s' ↦ (requested, s') | none ↦ (waits, s) ])
unfolding send_by_request
send_by_request_eq id s r e =
    ap (λ q. elim q as (λ o. Reply × Socket) [ some s' ↦ (requested, s') | none ↦ (waits, s) ]) e

pub no_requests : (p : List (List ℕ)) → length p ≡ 0 → p ≡ []
no_requests [] e = refl
no_requests (b ∷ p) e = absurd (omega arith)
