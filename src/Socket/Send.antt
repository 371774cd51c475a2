-- ===== src/Socket/Send.antt =====
-- skynet/skynet-src/socket_server.c: what is written to a socket, by its senders and by the socket
-- thread.
use mathlib.Core.Option
use skynet_athena.Base.{
  Bool, List, Option, [], drop, false, get_or, if◌then◌else◌, length, ltb, min, none, not, some,
  take, true, ℕ, ◌&&◌, ◌++◌, ◌+◌, ◌-◌, ◌==◌, ◌||◌, ◌∷◌,
}
use skynet_athena.Socket.{
  Event, Socket, WriteBuffer, force_close, is_halfclose, is_null, is_tcp, message, protocol_code,
  quiet, socket_close, socket_warning,
}

-- How one call of `write` or `sendto` ends: with a number of bytes, at most those offered, or with an
-- errno.
pub data Outcome : Type 0 where
  wrote : ℕ → Outcome
  eintr : Outcome
  again : Outcome
  failed : Outcome

-- A pass over a write list: the nodes left, the bytes taken by the kernel and their number, whether
-- an error ends it, and the outcomes not used. After its outcomes every further call would block.
pub record Sent : Type 0 where
  pub list : List WriteBuffer
  pub out : List ℕ
  pub sent : ℕ
  pub broken : Bool
  pub script : List Outcome

-- Where a pass stops without writing more.
abbrev pub stop : List WriteBuffer → List Outcome → Sent
stop bs os = record { list = bs; out = []; sent = 0; broken = false; script = os }

-- The bytes of a node that `write` is given.
abbrev pub offered : WriteBuffer → List ℕ
offered b = take b.sz (drop b.ptr b.buffer)

-- The loops of `send_list_tcp`.
unfoldable pub write_list : List Outcome → List WriteBuffer → Sent
write_list os [] = stop [] os
write_list [] (b ∷ bs) = stop (b ∷ bs) []
write_list (eintr ∷ os) (b ∷ bs) = write_list os (b ∷ bs)
write_list (again ∷ os) (b ∷ bs) = stop (b ∷ bs) os
write_list (failed ∷ os) (b ∷ bs) = record (stop (b ∷ bs) os) { broken = true }
write_list (wrote k ∷ os) (b ∷ bs) =
    let n = min k b.sz in
    let rest = write_list os bs in
    if n == b.sz
    then record rest { out = take n (offered b) ++ rest.out; sent = n + rest.sent }
    else record (stop (record b { ptr = b.ptr + n; sz = b.sz - n } ∷ bs) os) {
      out = take n (offered b);
      sent = n;
    }

-- `udp_socket_address` answers with a size: the address is of the socket's own protocol.
unfoldable pub udp_socket_address : Socket → List ℕ → Bool
udp_socket_address s address =
    get_or address 0 0 == protocol_code s.protocol
    && (protocol_code s.protocol == 1 || protocol_code s.protocol == 2)

-- The loop of `send_list_udp`, whose every way out but the last also returns -1; a datagram of
-- another protocol, and one that `sendto` refuses, is dropped (`drop_udp`).
unfoldable pub send_datagrams : List Outcome → Socket → List WriteBuffer → Sent
send_datagrams os s [] = stop [] os
send_datagrams [] s (b ∷ bs) =
    if udp_socket_address s b.udp_address
    then stop (b ∷ bs) []
    else record (stop bs []) { sent = b.sz }
send_datagrams (o ∷ os) s (b ∷ bs) =
    let rest = send_datagrams os s bs in
    if udp_socket_address s b.udp_address
    then elim o [
      | wrote k ↦ record rest { out = offered b ++ rest.out; sent = b.sz + rest.sent }
      | eintr ↦ stop (b ∷ bs) os
      | again ↦ stop (b ∷ bs) os
      | failed ↦ record (stop bs os) { sent = b.sz }
    ]
    else record (stop bs (o ∷ os)) { sent = b.sz }

-- `send_list`.
unfoldable pub send_list : List Outcome → Socket → List WriteBuffer → Sent
send_list os s l = if is_tcp s.protocol then write_list os l else send_datagrams os s l

-- `list_uncomplete`: whether `ptr` is not `buffer`, which holds for a user object from the start.
unfoldable pub list_uncomplete : List WriteBuffer → Bool
list_uncomplete [] = false
list_uncomplete (b ∷ bs) = b.userobject || not (b.ptr == 0)

-- `raise_uncomplete` on the low and the high list.
unfoldable pub raise_uncomplete : List WriteBuffer → List WriteBuffer → Socket → Option Socket
raise_uncomplete (b ∷ bs) [] s = some (record s { high = b ∷ []; low = bs })
raise_uncomplete [] high s = none
raise_uncomplete (b ∷ bs) (c ∷ cs) s = none

unfoldable pub send_buffer_empty : Socket → Bool
send_buffer_empty s = is_null s.high && is_null s.low

-- `force_close` with the event for it.
unfoldable pub closing : Socket → Option (Event × Socket)
closing s = Option.map (λ (m, s'). (socket_close m, s')) (force_close s)

-- Step 4 of `send_buffer_`.
unfoldable pub sent_all : Socket → Option (Event × Socket)
sent_all s =
    let s' = record s { polled = false } in
    if not (send_buffer_empty s && s.wb_size == 0)
    then none
    else if is_halfclose s.type
    then closing s'
    else if ltb 0 s.warn_size
    then some (socket_warning (message s), record s' { warn_size = 0 })
    else some (quiet, s')

-- The socket after a pass over its high list.
unfoldable pub after_high : Sent → Socket → Socket
after_high r s = record s { high = r.list; wb_size = s.wb_size - r.sent; out = s.out ++ r.out }

-- The socket after a pass over its low list.
unfoldable pub after_low : Sent → Socket → Socket
after_low r s = record s { low = r.list; wb_size = s.wb_size - r.sent; out = s.out ++ r.out }

-- Steps 3 and 4 of `send_buffer_`, after the low list.
unfoldable pub send_rest : Socket → Option (Event × Socket)
send_rest s =
    if list_uncomplete s.low
    then Option.map (λ s'. (quiet, s')) (raise_uncomplete s.low s.high s)
    else if not (is_null s.low)
    then some (quiet, s)
    else sent_all s

-- Step 2 of `send_buffer_`.
unfoldable pub send_low : List Outcome → Socket → Option (Event × Socket)
send_low os s =
    let r = send_list os s s.low in
    if is_null s.low
    then sent_all s
    else if r.broken
    then closing (after_low r s)
    else send_rest (after_low r s)

-- `send_buffer_`.
unfoldable pub send_buffer_ : List Outcome → Socket → Option (Event × Socket)
send_buffer_ os s =
    let r = send_list os s s.high in
    if list_uncomplete s.low
    then none
    else if r.broken
    then closing (after_high r s)
    else if is_null r.list
    then send_low r.script (after_high r s)
    else some (quiet, after_high r s)

-- What a direct write of memory has left, before `high.head`.
unfoldable pub take_direct : Option (List ℕ) → Socket → Socket
take_direct none s = s
take_direct (some bytes) s = record s {
  high =
      record {
        buffer = bytes;
        userobject = false;
        ptr = s.dw_offset;
        sz = length bytes - s.dw_offset;
        udp_address = [];
      }
      ∷ s.high;
  wb_size = s.wb_size + (length bytes - s.dw_offset);
  dw_buffer = none;
}

-- `send_buffer`, where `locked` says that a sender holds the lock.
unfoldable pub send_buffer : Bool → List Outcome → Socket → Option (Event × Socket)
send_buffer locked os s =
    if locked then some (quiet, s) else send_buffer_ os (take_direct s.dw_buffer s)
