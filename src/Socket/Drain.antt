-- ===== src/Socket/Drain.antt =====
-- skynet/skynet-src/socket_server.c: a write event while the kernel takes everything.
use skynet_athena.Socket.Safety.{Reach, Reach-IsLine, acted, all_sent}
use skynet_athena.Socket.Line.{Alive, Dead, Line, flush, perform}
use skynet_athena.Socket.Direct.{and_true}
use skynet_athena.Base.{
  ==_iff, Bool-cases, List, Option, [], ap, arith, false, inl, inr, length, length-drop, ltb, min,
  none, refl, replicate, some, suc, sym, true, zero, ℕ, ◌&&◌, ◌+◌, ◌-◌, ◌<◌, ◌==◌, ◌∙◌, ◌∷◌, ◌≡◌,
  ◌≤◌, ◌⊎◌,
}
use skynet_athena.Socket.{
  Event, Socket, SocketType, WriteBuffer, connected, invalid, is_halfclose, is_invalid, is_null,
  is_reserve, is_tcp,
}
use skynet_athena.Socket.Send.{
  Outcome, after_high, after_low, list_uncomplete, send_buffer, send_buffer_, send_buffer_empty,
  send_low, send_rest, sent_all, take_direct, write_list, wrote,
}
use skynet_athena.Socket.Flush.{size_of}
use skynet_athena.Socket.Lists.{IsOpen, IsQueued, direct_bytes, true_ne_false}
use skynet_athena.Socket.Ends.{fresh_complete, send_buffer_-Ends, send_list_eq}
use skynet_athena.Socket.Pass.{take_direct-Kept}

-- `n` calls of `write` that take up to `k` bytes each.
abbrev pub taking : ℕ → ℕ → List Outcome
taking n k = replicate n (wrote k)

write_list-taking :
    (n k : ℕ) (bs : List WriteBuffer)
    → length bs ≤ n
    → size_of bs ≤ k
    → ((write_list (taking n k) bs).list ≡ [])
      × ((write_list (taking n k) bs).broken ≡ false)
      × ((write_list (taking n k) bs).script ≡ taking (n - length bs) k)
unfolding write_list
write_list-taking n k [] le fits =
    (refl, refl, ap (λ m. taking m k) {x = n} {y = n - 0} (omega arith))
write_list-taking zero k (b ∷ bs) le fits = absurd (omega arith)
write_list-taking (suc n) k (b ∷ bs) le fits =
    let whole : (min k b.sz == b.sz) ≡ true = (==_iff _ _).1 (omega arith) in
    let (el, eb, es) = write_list-taking n k bs (omega arith) (omega arith) in
    rw whole (el, eb, es ∙ ap (λ m. taking m k) {y = suc n - suc (length bs)} (omega arith))

-- Nothing is left of a connected socket's lists.
pub record Drained (s : Socket) : Type 0 where
  pub connection : s.type ≡ connected
  pub no_size : s.wb_size ≡ 0
  pub no_direct_write : s.dw_buffer ≡ none

abbrev of_end : (A : Type 0) → (Socket → A) → A → Option (Event × Socket) → A
of_end A f a none = a
of_end A f a (some (e, s)) = f s

emptied_at :
    (u s' : Socket) {f e : Event}
    → u.type ≡ connected
    → u.wb_size ≡ 0
    → u.dw_buffer ≡ none
    → ◌≡◌ {A = Option (Event × Socket)} (some (f, u)) (some (e, s'))
    → Drained s'
emptied_at u s' et ew ed h = record {
  connection = sym (ap (of_end SocketType (λ x. x.type) invalid) h) ∙ et;
  no_size = sym (ap (of_end ℕ (λ x. x.wb_size) 0) h) ∙ ew;
  no_direct_write = sym (ap (of_end (Option (List ℕ)) (λ x. x.dw_buffer) none) h) ∙ ed;
}

sent_all-Drained :
    (s : Socket) {e : Event} {s' : Socket}
    → s.type ≡ connected
    → s.dw_buffer ≡ none
    → sent_all s ≡ some (e, s')
    → Drained s'
unfolding sent_all
sent_all-Drained s {e} {s'} et ed run =
    let half : is_halfclose s.type ≡ false = ap is_halfclose et in
    elim (Bool-cases (send_buffer_empty s && s.wb_size == 0)) [
      | inr full ↦ cc (rw full at run)
      | inl empty ↦
          let z = (==_iff s.wb_size 0).0 (and_true _ _ empty).1 in
          elim (Bool-cases (ltb 0 s.warn_size)) [
            | inl w ↦
                emptied_at (record s { polled = false; warn_size = 0 }) s' et z ed
                  (rw (empty, half, w) at run)
            | inr w ↦
                emptied_at (record s { polled = false }) s' et z ed (rw (empty, half, w) at run)
          ]
    ]

send_rest-Drained :
    (s : Socket) {e : Event} {s' : Socket}
    → s.type ≡ connected
    → s.dw_buffer ≡ none
    → s.low ≡ []
    → send_rest s ≡ some (e, s')
    → Drained s'
unfolding send_rest
send_rest-Drained s et ed el run =
    let whole : list_uncomplete s.low ≡ false = ap list_uncomplete el ∙ fresh_complete [] tt in
    let empty : is_null s.low ≡ true = ap is_null el in
    sent_all-Drained s et ed (rw (whole, empty) at run)

send_low-Drained :
    (n k : ℕ) (s : Socket) {e : Event} {s' : Socket}
    → s.type ≡ connected
    → s.dw_buffer ≡ none
    → is_tcp s.protocol ≡ true
    → length s.low ≤ n
    → size_of s.low ≤ k
    → send_low (taking n k) s ≡ some (e, s')
    → Drained s'
unfolding send_low after_low
send_low-Drained n k s et ed ep le fits run =
    let es = send_list_eq (taking n k) s s.low ep in
    let (el, eb, _) = write_list-taking n k s.low le fits in
    elim (Bool-cases (is_null s.low)) [
      | inl z ↦ sent_all-Drained s et ed (rw z at run)
      | inr z ↦ send_rest-Drained _ et ed el (rw (es, z, eb) at run)
    ]

send_buffer_-Drained :
    (n k : ℕ) (s : Socket) {e : Event} {s' : Socket}
    → s.type ≡ connected
    → s.dw_buffer ≡ none
    → is_tcp s.protocol ≡ true
    → IsQueued s
    → length s.high + length s.low ≤ n
    → s.wb_size ≤ k
    → send_buffer_ (taking n k) s ≡ some (e, s')
    → Drained s'
unfolding send_buffer_ after_high
send_buffer_-Drained n k s et ed ep q le fits run =
    let es = send_list_eq (taking n k) s s.high ep in
    let c = fresh_complete s.low q.fresh in
    let (el, eb, ec) = write_list-taking n k s.high (omega arith) (omega (arith, q.counted)) in
    let z : is_null (write_list (taking n k) s.high).list ≡ true = ap is_null el in
    send_low-Drained (n - length s.high) k _ et ed ep (omega arith) (omega (arith, q.counted))
      (rw ec at (rw (es, c, eb, z) at run))

take_direct_bounds :
    (d : Option (List ℕ)) (s : Socket)
    → (length (take_direct d s).high ≤ suc (length s.high))
      × ((take_direct d s).low ≡ s.low)
      × ((take_direct d s).wb_size ≤ s.wb_size + length (direct_bytes d s.dw_offset))
unfolding take_direct
take_direct_bounds none s = (omega arith, refl, omega arith)
take_direct_bounds (some bytes) s =
    (omega arith, refl, omega (arith, length-drop s.dw_offset bytes))

-- On such a connection that is not closed and has no request in the pipe: a write event at which no
-- sender holds the lock, and at which every call of `write` takes all it is given, ends with all
-- messages that were accepted sent. Each call is given at most `k` bytes, and `n` calls are enough.
pub drains :
    {id : ℕ} {l : Line} (n k : ℕ)
    → Reach id l
    → is_invalid l.socket.type ≡ false
    → l.pipe ≡ []
    → length l.socket.high + length l.socket.low < n
    → l.socket.wb_size + length (direct_bytes l.socket.dw_buffer l.socket.dw_offset) ≤ k
    → (l' : Line) × (perform id (flush false (taking n k)) l ≡ some l')
      × (l'.accepted ≡ l.accepted)
      × (l'.socket.out ≡ l.accepted)
unfolding perform send_buffer
drains {id} {l} n k r v ep le fits =
    let s = l.socket in
    let is = Reach-IsLine r in
    let a = alive is.state in
    let o : IsOpen s = record {
      stream = ap is_tcp is.stream;
      valid = v;
      taken = ap is_reserve a.connection;
    } in
    let (ot, kt, dt) = take_direct-Kept s.dw_buffer s o a.queued refl in
    let (bh, bl, bw) = take_direct_bounds s.dw_buffer s in
    let t : Socket = take_direct s.dw_buffer s in
    let (e, s', run, _) = send_buffer_-Ends (taking n k) t ot kt.queued in
    let d =
      send_buffer_-Drained n k t (kt.same_type ∙ a.connection) dt ot.stream kt.queued
        (omega (arith, ap (λ (x : List WriteBuffer). length x) bl)) (omega arith) run in
    let eq : perform id (flush false (taking n k)) l ≡ some (record l { socket = s' }) =
      rw (v, run) refl in
    (
      record l { socket = s' },
      eq,
      refl,
      all_sent (acted (flush false (taking n k)) r eq) (ap is_invalid d.connection) ep
          d.no_direct_write d.no_size,
    )
  where
    alive : Alive l ⊎ Dead l → Alive l
    alive (inl a) = a
    alive (inr d) = absurd (true_ne_false (sym (ap is_invalid d.shut) ∙ v))
