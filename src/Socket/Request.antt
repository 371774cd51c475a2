-- ===== src/Socket/Request.antt =====
-- skynet/skynet-src/socket_server.c: a service sends, directly or by a request through the control
-- pipe, and the socket thread takes the request.
use mathlib.Core.Option
use skynet_athena.Base.{
  Bool, List, Option, [], false, if◌then◌else◌, leb, length, min, none, not, some, take, true, ℕ,
  ◌%◌, ◌&&◌, ◌*◌, ◌++◌, ◌+◌, ◌-◌, ◌/◌, ◌==◌, ◌^◌, ◌||◌, ◌∷◌,
}
use skynet_athena.Socket.{
  Event, Socket, WriteBuffer, id_tag16, is_connected, is_halfclose, is_invalid, is_listening,
  is_none, is_paccept, is_tcp, message, quiet, socket_warning, warning_size,
}
use skynet_athena.Socket.Send.{
  Outcome, again, eintr, failed, send_buffer_empty, udp_socket_address, wrote,
}

-- The node that `append_sendbuffer_` makes of a buffer in memory; a send of a user object is left out.
abbrev pub node : List ℕ → List ℕ → WriteBuffer
node bytes address = record {
  buffer = bytes;
  userobject = false;
  ptr = 0;
  sz = length bytes;
  udp_address = address;
}

-- `append_sendbuffer`; `append_sendbuffer_udp` at the high priority.
unfoldable pub append_high : List ℕ → List ℕ → Socket → Socket
append_high bytes address s = record s {
  high = s.high ++ (node bytes address ∷ []);
  wb_size = s.wb_size + length bytes;
}

-- `append_sendbuffer_low`; `append_sendbuffer_udp` at the low priority.
unfoldable pub append_low : List ℕ → List ℕ → Socket → Socket
append_low bytes address s = record s {
  low = s.low ++ (node bytes address ∷ []);
  wb_size = s.wb_size + length bytes;
}

-- The two priorities.
unfoldable pub append_sendbuffer : Bool → List ℕ → List ℕ → Socket → Socket
append_sendbuffer high bytes address s =
    if high then append_high bytes address s else append_low bytes address s

-- The end of `send_socket`: a warning when too much waits, the next one at twice the size.
unfoldable pub warn : Socket → Event × Socket
warn s =
    if leb warning_size s.wb_size && leb s.warn_size s.wb_size
    then (
      socket_warning (record (message s) { ud = (s.wb_size + 1023) / 1024 }),
      record s { warn_size = if s.warn_size == 0 then warning_size * 2 else s.warn_size * 2 },
    )
    else (quiet, s)

-- `send_socket` on a UDP socket with nothing to send.
unfoldable pub send_first_udp : Bool → List ℕ → List ℕ → Outcome → Socket → Event × Socket
send_first_udp high bytes address o s =
    let later = warn (record (append_sendbuffer high bytes address s) { polled = true }) in
    if not (udp_socket_address s address) then (quiet, s) else elim o [
      | wrote k ↦ if k == length bytes then (quiet, record s { out = s.out ++ bytes }) else later
      | eintr ↦ later
      | again ↦ later
      | failed ↦ later
    ]

-- `send_socket`; the address of a UDP socket is its own where the request has none.
unfoldable pub send_socket : ℕ → Bool → List ℕ → Option (List ℕ) → Outcome → Socket → Event × Socket
send_socket id high bytes udp_address o s =
    let address : List ℕ = elim udp_address [ some a ↦ a | none ↦ s.udp_address ] in
    if is_invalid s.type || not (s.id == id) || is_halfclose s.type || is_paccept s.type
    then (quiet, s)
    else if is_listening s.type
    then (quiet, s)
    else if send_buffer_empty s && is_connected s.type
    then if is_tcp s.protocol
      then warn (record (append_high bytes [] s) { polled = true })
      else send_first_udp high bytes address o s
    else if is_tcp s.protocol
    then warn (append_sendbuffer high bytes [] s)
    else warn (append_sendbuffer high bytes address s)

-- `nomore_sending_data`.
unfoldable pub nomore_sending_data : Socket → Bool
nomore_sending_data s = send_buffer_empty s && is_none s.dw_buffer && s.sending % 2 ^ 16 == 0

-- `can_direct_write`.
unfoldable pub can_direct_write : Socket → ℕ → Bool
can_direct_write s id =
    s.id == id && nomore_sending_data s && is_connected s.type && s.udpconnecting == 0

-- `inc_sending_ref`; `none` is the loop that waits for the socket thread.
unfoldable pub inc_sending_ref : Socket → ℕ → Option Socket
inc_sending_ref s id =
    if not (is_tcp s.protocol)
    then some s
    else if not (s.sending / 2 ^ 16 == id_tag16 id)
    then some s
    else if s.sending % 2 ^ 16 == 0xffff
    then none
    else some (record s { sending = s.sending + 1 })

-- `dec_sending_ref`; `none` is its assertion.
unfoldable pub dec_sending_ref : Socket → ℕ → Option Socket
dec_sending_ref s id =
    if not (s.id == id && is_tcp s.protocol)
    then some s
    else if s.sending % 2 ^ 16 == 0
    then none
    else some (record s { sending = s.sending - 1 })

-- The bytes that a direct write gets rid of; an error counts as none.
abbrev pub written : Outcome → ℕ → ℕ
written (wrote k) n = min k n
written eintr n = 0
written again n = 0
written failed n = 0

-- What a sender comes back with: an error, success with or without a request in the pipe, or it
-- waits.
pub data Reply : Type 0 where
  refused : Reply
  done : Reply
  requested : Reply
  waits : Reply

-- The direct write of `socket_server_send`: what is left goes to the socket thread.
unfoldable pub send_direct : List ℕ → Outcome → Socket → Reply × Socket
send_direct bytes o s =
    let n = written o (length bytes) in
    let s' = record s { out = s.out ++ take n bytes } in
    if not (is_tcp s.protocol) && not (udp_socket_address s s.udp_address)
    then (refused, s)
    else if n == length bytes
    then (done, s')
    else (done, record s' { dw_buffer = some bytes; dw_offset = n; polled = true })

-- The request of `socket_server_send` and of `socket_server_send_lowpriority`.
unfoldable pub send_by_request : ℕ → Socket → Reply × Socket
send_by_request id s = elim (inc_sending_ref s id) [ some s' ↦ (requested, s') | none ↦ (waits, s) ]

-- `socket_server_send`; `locked` says that the lock is taken.
unfoldable pub socket_server_send : ℕ → List ℕ → Bool → Outcome → Socket → Reply × Socket
socket_server_send id bytes locked o s =
    if not (s.id == id) || is_invalid s.type
    then (refused, s)
    else if can_direct_write s id && not locked
    then send_direct bytes o s
    else send_by_request id s

-- `socket_server_send_lowpriority`.
unfoldable pub socket_server_send_lowpriority : ℕ → Socket → Reply × Socket
socket_server_send_lowpriority id s =
    if not (s.id == id) || is_invalid s.type then (refused, s) else send_by_request id s

-- The requests `D` and `P` of `ctrl_cmd`.
unfoldable pub ctrl_send : ℕ → Bool → List ℕ → Outcome → Socket → Option (Event × Socket)
ctrl_send id high bytes o s =
    let (e, s') = send_socket id high bytes none o s in
    Option.map (λ t. (e, t)) (dec_sending_ref s' id)
