-- ===== src/Socket/Ends.antt =====
-- skynet/skynet-src/socket_server.c: one pass over the write lists of an open TCP socket.
use mathlib.Core.Option
use skynet_athena.Base.{
  ==_iff, Bool-cases, In, List, [], ap, append-nil, append_assoc, ap₂, arith, false, inl, inr, ltb,
  none, refl, some, subst, sym, true, ℕ, ◌&&◌, ◌++◌, ◌+◌, ◌==◌, ◌∙◌, ◌∷◌, ◌≡◌, ◌⊎◌,
}
use skynet_athena.Socket.{
  Event, Socket, WriteBuffer, invalid, is_halfclose, is_null, is_tcp, message, quiet, socket_close,
  socket_warning,
}
use skynet_athena.Socket.Send.{
  Outcome, after_high, after_low, failed, list_uncomplete, offered, send_buffer_, send_buffer_empty,
  send_list, send_low, send_rest, sent_all, write_list,
}
use skynet_athena.Socket.Flush.{
  IsFresh, IsFreshTail, pending, size_of, write_list-Sends, write_list-broken, write_list-script,
}
use skynet_athena.Socket.Lists.{
  Ends, IsOpen, IsQueued, Same, bytes_empty, close_lists, closing_eq, empty_both, null_list,
  queued_bytes, raise_eq, true_ne_false, unchanged_lists, whole_list,
}

-- Nothing waits: the last step ends well.
sent_all-Ends :
    (os : List Outcome) (s : Socket)
    → IsOpen s
    → IsQueued s
    → s.high ≡ []
    → s.low ≡ []
    → (e : Event) × (s' : Socket) × (sent_all s ≡ some (e, s')) × Ends os (queued_bytes s) s s'
unfolding sent_all
sent_all-Ends os s o q eh el =
    let z : s.wb_size ≡ 0 = omega (arith, q.counted, ap size_of eh, ap size_of el) in
    let e : send_buffer_empty s && s.wb_size == 0 ≡ true =
      ap₂ (λ a b. a && b) (empty_both s eh el) ((==_iff s.wb_size 0).1 z) in
    let s' : Socket = record s { polled = false } in
    elim (Bool-cases (is_halfclose s.type)) [
      | inl half ↦ (
        socket_close (message s'),
        record s' { high = []; low = []; type = invalid; dw_buffer = none },
        rw (e, half) (closing_eq s' o.valid o.taken),
        inr (close_lists os _ s _ _ _ [] (append-nil s.out ∙ sym (bytes_empty s eh el)) (inr refl)),
      )
      | inr whole ↦ elim (Bool-cases (ltb 0 s.warn_size)) [
        | inl w ↦ (
          socket_warning (message s),
          record s' { warn_size = 0 },
          rw (e, whole, w) refl,
          inl (
            refl,
            record { counted = q.counted; fresh = q.fresh },
            unchanged_lists s _ _ _ _ _ _ λ n. n,
          ),
        )
        | inr w ↦ (
          quiet,
          s',
          rw (e, whole, w) refl,
          inl (
            refl,
            record { counted = q.counted; fresh = q.fresh },
            unchanged_lists s _ _ _ _ _ _ λ n. n,
          ),
        )
      ]
    ]

send_rest-Ends :
    (os : List Outcome) (s : Socket)
    → IsOpen s
    → s.wb_size ≡ size_of s.high + size_of s.low
    → IsFreshTail s.low
    → s.high ≡ []
    → (e : Event) × (s' : Socket) × (send_rest s ≡ some (e, s')) × Ends os (queued_bytes s) s s'
unfolding send_rest
send_rest-Ends os s o c f eh = elim (Bool-cases (list_uncomplete s.low)) [
  | inl u ↦
      let (b, bs, el, er) = raise_eq s.low s.high s eh u in
      (
        quiet,
        record s { high = b ∷ []; low = bs },
        rw u (ap (Option.map _) er),
        inl (
          ap (λ l. s.out ++ (l ++ pending bs)) (append-nil (offered b))
              ∙ sym (ap₂ (λ h l. s.out ++ (pending h ++ pending l)) eh el),
          record {
            counted = omega (arith, c, ap size_of eh, ap size_of el);
            fresh = subst IsFreshTail el f;
          },
          unchanged_lists s _ _ _ _ _ _ λ n. cc,
        ),
      )
  | inr u ↦
      let q : IsQueued s = record { counted = c; fresh = whole_list s.low u f } in
      elim (Bool-cases (is_null s.low)) [
        | inl z ↦ rw (u, z) (sent_all-Ends os s o q eh (null_list s.low z))
        | inr z ↦ (quiet, s, rw (u, z) refl, inl (refl, q, unchanged_lists s _ _ _ _ _ _ λ n. n))
      ]
]

passed_on : {A B C : Type 0} → (A → B) → A ⊎ C → B ⊎ C
passed_on f (inl a) = inl (f a)
passed_on f (inr c) = inr c

-- Two steps of a pass, one behind the other.
then_Ends :
    (os os' : List Outcome) (bytes bytes' : List ℕ) (s s' t : Socket)
    → (In failed os' → In failed os)
    → bytes' ≡ bytes
    → Same s s'
    → Ends os' bytes' s' t
    → Ends os bytes s t
then_Ends os os' bytes bytes' s s' t sub eb m (inl (b, q, m')) = inl (
  b ∙ eb,
  q,
  record {
    same_type = m'.same_type ∙ m.same_type;
    same_id = m'.same_id ∙ m.same_id;
    same_protocol = m'.same_protocol ∙ m.same_protocol;
    same_sending = m'.same_sending ∙ m.same_sending;
    same_direct = m'.same_direct ∙ m.same_direct;
    same_low = λ n. m'.same_low (m.same_low n);
  },
)
then_Ends os os' bytes bytes' s s' t sub eb m (inr c) = inr (record {
  shut = c.shut;
  rest = c.rest;
  prefix = c.prefix ∙ eb;
  why = passed_on sub c.why;
  same_id = c.same_id ∙ m.same_id;
  same_protocol = c.same_protocol ∙ m.same_protocol;
  same_sending = c.same_sending ∙ m.same_sending;
})

pub send_list_eq :
    (os : List Outcome) (s : Socket) (l : List WriteBuffer)
    → is_tcp s.protocol ≡ true
    → send_list os s l ≡ write_list os l
unfolding send_list
send_list_eq os s l e = rw e refl

after_low-bytes :
    (os : List Outcome) (s : Socket)
    → s.high ≡ []
    → queued_bytes (after_low (write_list os s.low) s) ≡ queued_bytes s
unfolding after_low
after_low-bytes os s eh =
    let r = write_list os s.low in
    ap (λ h. (s.out ++ r.out) ++ (pending h ++ pending r.list)) eh
    ∙ append_assoc s.out r.out (pending r.list)
    ∙ ap (λ l. s.out ++ l) (write_list-Sends os s.low).bytes
    ∙ sym (ap (λ h. s.out ++ (pending h ++ pending s.low)) eh)

send_low-Ends :
    (os : List Outcome) (s : Socket)
    → IsOpen s
    → IsQueued s
    → s.high ≡ []
    → (e : Event) × (s' : Socket) × (send_low os s ≡ some (e, s')) × Ends os (queued_bytes s) s s'
unfolding send_low after_low
send_low-Ends os s o q eh =
    let r = write_list os s.low in
    let sends = write_list-Sends os s.low in
    let t : Socket = after_low r s in
    let es = send_list_eq os s s.low o.stream in
    elim (Bool-cases (is_null s.low)) [
      | inl z ↦ rw z (sent_all-Ends os s o q eh (null_list s.low z))
      | inr z ↦ elim (Bool-cases r.broken) [
        | inl b ↦ (
          socket_close (message t),
          record t { high = []; low = []; type = invalid; dw_buffer = none },
          rw (es, z, b) (closing_eq t o.valid o.taken),
          inr (
              close_lists os _ s _ _ _ (pending t.high ++ pending t.low) (after_low-bytes os s eh)
                (inl (write_list-broken os s.low b))),
        )
        | inr b ↦
            let (e, s', run, ends) =
              send_rest-Ends os t (record { stream = o.stream; valid = o.valid; taken = o.taken })
                (omega (arith, q.counted, sends.counted)) (sends.fresh q.fresh) eh in
            (
              e,
              s',
              rw (es, z, b) run,
              then_Ends os os _ _ s t s' (λ h. h) (after_low-bytes os s eh)
                  (unchanged_lists s _ _ _ _ _ _
                    λ n. absurd (true_ne_false (sym (ap is_null n) ∙ z)))
                  ends,
            )
      ]
    ]

after_high-bytes :
    (os : List Outcome) (s : Socket)
    → queued_bytes (after_high (write_list os s.high) s) ≡ queued_bytes s
unfolding after_high
after_high-bytes os s =
    let r = write_list os s.high in
    append_assoc s.out r.out (pending r.list ++ pending s.low)
    ∙ ap (λ l. s.out ++ l)
        (sym (append_assoc r.out (pending r.list) (pending s.low))
          ∙ ap (λ l. l ++ pending s.low) (write_list-Sends os s.high).bytes)

pub fresh_complete : (l : List WriteBuffer) → IsFresh l → list_uncomplete l ≡ false
unfolding list_uncomplete
fresh_complete [] f = refl
fresh_complete (b ∷ bs) f = ground (arith, f.0.0, f.0.1)

pub send_buffer_-Ends :
    (os : List Outcome) (s : Socket)
    → IsOpen s
    → IsQueued s
    → (e : Event) × (s' : Socket) × (send_buffer_ os s ≡ some (e, s'))
      × Ends os (queued_bytes s) s s'
unfolding send_buffer_ after_high
send_buffer_-Ends os s o q =
    let r = write_list os s.high in
    let sends = write_list-Sends os s.high in
    let t : Socket = after_high r s in
    let es = send_list_eq os s s.high o.stream in
    let c = fresh_complete s.low q.fresh in
    let ot : IsOpen t = record { stream = o.stream; valid = o.valid; taken = o.taken } in
    let qt : IsQueued t = record {
      counted = omega (arith, q.counted, sends.counted);
      fresh = q.fresh;
    } in
    elim (Bool-cases r.broken) [
      | inl b ↦ (
        socket_close (message t),
        record t { high = []; low = []; type = invalid; dw_buffer = none },
        rw (es, c, b) (closing_eq t o.valid o.taken),
        inr (
            close_lists os _ s _ _ _ (pending t.high ++ pending t.low) (after_high-bytes os s)
              (inl (write_list-broken os s.high b))),
      )
      | inr b ↦ elim (Bool-cases (is_null r.list)) [
        | inl z ↦
            let (e, s', run, ends) = send_low-Ends r.script t ot qt (null_list r.list z) in
            (
              e,
              s',
              rw (es, c, b, z) run,
              then_Ends os r.script _ _ s t s' (write_list-script os s.high) (after_high-bytes os s)
                  (unchanged_lists s _ _ _ _ _ _ λ n. n) ends,
            )
        | inr z ↦ (
          quiet,
          t,
          rw (es, c, b, z) refl,
          inl (after_high-bytes os s, qt, unchanged_lists s _ _ _ _ _ _ λ n. n),
        )
      ]
    ]
