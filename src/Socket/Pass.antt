-- ===== src/Socket/Pass.antt =====
-- skynet/skynet-src/socket_server.c: `send_buffer` on an open TCP socket.
use skynet_athena.Base.{
  Bool, List, Option, [], ap, append_assoc, arith, drop, false, inl, inr, length, length-drop, none,
  refl, some, subst, sym, take, true, ℕ, ◌++◌, ◌-◌, ◌∙◌, ◌∷◌, ◌≡◌, ◌⊎◌,
}
use skynet_athena.Socket.{Event, Socket, quiet}
use skynet_athena.Socket.Send.{Outcome, send_buffer, take_direct}
use skynet_athena.Socket.Flush.{pending}
use skynet_athena.Socket.Lists.{
  Closed, Ends, IsOpen, IsQueued, all_bytes, direct_bytes, queued_bytes,
}
use skynet_athena.Socket.Ends.{send_buffer_-Ends}

-- The socket is as it was to its senders: nothing is lost, doubled or moved.
pub record Kept (s s' : Socket) : Type 0 where
  pub bytes : all_bytes s' ≡ all_bytes s
  pub queued : IsQueued s'
  pub same_type : s'.type ≡ s.type
  pub same_id : s'.id ≡ s.id
  pub same_protocol : s'.protocol ≡ s.protocol
  pub same_sending : s'.sending ≡ s.sending
  pub same_low : s.low ≡ [] → s'.low ≡ []

pub take-length : (l : List ℕ) → take (length l) l ≡ l
take-length [] = refl
take-length (x ∷ l) = ap (λ r. x ∷ r) (take-length l)

take_rest : (n : ℕ) (l : List ℕ) → take (length l - n) (drop n l) ≡ drop n l
take_rest n l = subst (λ k. take k (drop n l) ≡ drop n l) (length-drop n l) (take-length (drop n l))

-- With no direct write under way, everything waits in the lists.
no_direct : (s : Socket) → s.dw_buffer ≡ none → all_bytes s ≡ queued_bytes s
no_direct s e =
    ap (λ d. s.out ++ (direct_bytes d s.dw_offset ++ (pending s.high ++ pending s.low))) e

-- The socket with the rest of a direct write in its lists.
pub take_direct-Kept :
    (d : Option (List ℕ)) (s : Socket)
    → IsOpen s
    → IsQueued s
    → s.dw_buffer ≡ d
    → IsOpen (take_direct d s) × Kept s (take_direct d s) × ((take_direct d s).dw_buffer ≡ none)
unfolding take_direct
take_direct-Kept none s o q e = (
  o,
  record {
    bytes = refl;
    queued = q;
    same_type = refl;
    same_id = refl;
    same_protocol = refl;
    same_sending = refl;
    same_low = λ n. n;
  },
  e,
)
take_direct-Kept (some bytes) s o q e = (
  record { stream = o.stream; valid = o.valid; taken = o.taken },
  record {
    bytes =
        ap (λ l. s.out ++ ((l ++ pending s.high) ++ pending s.low)) (take_rest s.dw_offset bytes)
        ∙ ap (λ l. s.out ++ l)
            (append_assoc (drop s.dw_offset bytes) (pending s.high) (pending s.low))
        ∙ sym (
            ap (λ d. s.out ++ (direct_bytes d s.dw_offset ++ (pending s.high ++ pending s.low))) e);
    queued = record { counted = omega (arith, q.counted); fresh = q.fresh };
    same_type = refl;
    same_id = refl;
    same_protocol = refl;
    same_sending = refl;
    same_low = λ n. n;
  },
  refl,
)

-- From the pass over the lists to the whole of `send_buffer`.
ended :
    (os : List Outcome) (s t s' : Socket)
    → Kept s t
    → t.dw_buffer ≡ none
    → Ends os (queued_bytes t) t s'
    → Kept s s' ⊎ Closed os (all_bytes s) s s'
ended os s t s' k d (inl (b, q, m)) = inl (record {
  bytes = no_direct s' (m.same_direct ∙ d) ∙ b ∙ sym (no_direct t d) ∙ k.bytes;
  queued = q;
  same_type = m.same_type ∙ k.same_type;
  same_id = m.same_id ∙ k.same_id;
  same_protocol = m.same_protocol ∙ k.same_protocol;
  same_sending = m.same_sending ∙ k.same_sending;
  same_low = λ n. m.same_low (k.same_low n);
})
ended os s t s' k d (inr c) = inr (record {
  shut = c.shut;
  rest = c.rest;
  prefix = c.prefix ∙ sym (no_direct t d) ∙ k.bytes;
  why = c.why;
  same_id = c.same_id ∙ k.same_id;
  same_protocol = c.same_protocol ∙ k.same_protocol;
  same_sending = c.same_sending ∙ k.same_sending;
})

-- On an open TCP socket whose `wb_size` is the size of what waits, and whose low list has no user object
-- and no node that was sent in part, `send_buffer` fails no assertion, however the calls of `write`
-- end. After it the bytes that the kernel has taken, followed by those that wait, are those from before, and the
-- sizes still add up; or the socket is closed, and the kernel has taken a first part of them, and all
-- of them unless a call has failed.
pub send_buffer_lem :
    (locked : Bool) (os : List Outcome) (s : Socket)
    → IsOpen s
    → IsQueued s
    → (e : Event) × (s' : Socket) × (send_buffer locked os s ≡ some (e, s'))
      × (Kept s s' ⊎ Closed os (all_bytes s) s s')
unfolding send_buffer
send_buffer_lem true os s o q = (
  quiet,
  s,
  refl,
  inl (record {
    bytes = refl;
    queued = q;
    same_type = refl;
    same_id = refl;
    same_protocol = refl;
    same_sending = refl;
    same_low = λ n. n;
  }),
)
send_buffer_lem false os s o q =
    let (ot, k, d) = take_direct-Kept s.dw_buffer s o q refl in
    let t : Socket = take_direct s.dw_buffer s in
    let (e, s', run, ends) = send_buffer_-Ends os t ot k.queued in
    (e, s', run, ended os s t s' k d ends)
