-- ===== src/Socket/Control.antt =====
-- skynet/skynet-src/socket_server.c: the other requests and events of the socket thread. The calls of
-- the system are arguments: whether `sp_add` fails, what `read` returns, whether the peer answered.
use mathlib.Core.Option
use skynet_athena.Base.{
  Bool, List, Option, drop, false, get_or, if◌then◌else◌, length, ltb, none, not, replicate, some,
  take, ℕ, ◌%◌, ◌&&◌, ◌*◌, ◌++◌, ◌+◌, ◌-◌, ◌/◌, ◌==◌, ◌^◌, ◌||◌,
}
use skynet_athena.Socket.{
  Event, Socket, SocketMessage, SocketType, bind, connected, force_close, halfclose, is_halfclose,
  is_invalid, listen, message, min_read_buffer, new_fd, paccept, plisten, protocol_code, quiet,
  socket_close, socket_data, socket_err, socket_open, socket_warning, tcp, udp, udpv6,
}
use skynet_athena.Socket.Send.{Outcome, closing, send_buffer}
use skynet_athena.Socket.Request.{nomore_sending_data}

-- The message for a request that names an id.
abbrev pub reply : ℕ → ℕ → SocketMessage
reply id opaque = record { opaque = opaque; id = id; ud = 0 }

-- The end of `close_socket`, once the lists had a chance to be sent.
unfoldable pub close_or_wait : ℕ → ℕ → Bool → Socket → Option (Event × Socket)
close_or_wait id opaque shutdown s =
    if shutdown || nomore_sending_data s
    then Option.map (λ (m, t). (socket_close (reply id opaque), t)) (force_close s)
    else some (quiet, record s { type = halfclose })

-- What `close_socket` does with the event of `send_buffer`: only a close ends it.
unfoldable pub close_after : ℕ → ℕ → Bool → Event × Socket → Option (Event × Socket)
close_after id opaque shutdown (quiet, s) = close_or_wait id opaque shutdown s
close_after id opaque shutdown (socket_warning m, s) = close_or_wait id opaque shutdown s
close_after id opaque shutdown (socket_close m, s) = some (socket_close m, s)
close_after id opaque shutdown (socket_err m, s) = some (socket_err m, s)
close_after id opaque shutdown (socket_open m, s) = some (socket_open m, s)
close_after id opaque shutdown (socket_data m d, s) = some (socket_data m d, s)

infixl 5 ◌>>=◌
abbrev pub ◌>>=◌ : {A B : Type 0} → Option A → (A → Option B) → Option B
some a >>= f = f a
none >>= f = none

-- `close_socket`.
unfoldable pub close_socket : ℕ → ℕ → Bool → Bool → List Outcome → Socket → Option (Event × Socket)
close_socket id opaque shutdown locked os s =
    if is_invalid s.type || not (s.id == id)
    then some (socket_close (reply id opaque), s)
    else if nomore_sending_data s
    then close_or_wait id opaque shutdown s
    else (send_buffer locked os s >>= λ r. close_after id opaque shutdown r)

-- The slot enters the poller, where `fails` says whether `sp_add` fails.
unfoldable pub started : ℕ → ℕ → Bool → SocketType → Socket → Option (Event × Socket)
started id opaque fails y s =
    if fails
    then Option.map (λ (m, t). (socket_err m, t)) (force_close s)
    else some (socket_open (reply id opaque), record s { type = y; opaque = opaque })

-- `start_socket`.
unfoldable pub start_socket : ℕ → ℕ → Bool → Socket → Option (Event × Socket)
start_socket id opaque fails s =
    if is_invalid s.type || not (s.id == id)
    then some (socket_err (reply id opaque), s)
    else elim s.type [
      | paccept ↦ started id opaque fails connected s
      | plisten ↦ started id opaque fails listen s
      | connected ↦ some (socket_open (reply id opaque), record s { opaque = opaque })
      | _ ↦ some (quiet, s)
    ]

-- `report_connect`, where `fails` says whether the connection fails.
unfoldable pub report_connect : Bool → Socket → Option (Event × Socket)
report_connect fails s =
    if fails
    then Option.map (λ (m, t). (socket_err m, t)) (force_close s)
    else some (
      socket_open (message s),
      record s { type = connected; polled = if nomore_sending_data s then false else s.polled },
    )

-- `bind_socket`; a failure leaves the slot invalid, by `new_fd`.
unfoldable pub bind_socket : ℕ → ℕ → Bool → Socket → Option (Event × Socket)
bind_socket id opaque fails s = new_fd s id tcp opaque fails >>= λ ((ok, t) : Bool × Socket).
    if ok
    then some (socket_open (reply id opaque), record t { type = bind })
    else some (socket_err (reply id opaque), t)

-- `listen_socket`.
unfoldable pub listen_socket : ℕ → ℕ → Socket → Option (Event × Socket)
listen_socket id opaque s = new_fd s id tcp opaque false >>= λ ((ok, t) : Bool × Socket).
    some (quiet, record t { type = plisten })

-- `add_udp_socket`, where `v6` says whether the family is `AF_INET6`.
unfoldable pub add_udp_socket : ℕ → ℕ → Bool → Bool → Socket → Option Socket
add_udp_socket id opaque v6 fails s =
    new_fd s id (if v6 then udpv6 else udp) opaque fails >>= λ ((ok, t) : Bool × Socket).
    if ok then some (record t { type = connected; udp_address = replicate 19 0 }) else some t

-- `set_udp_address`.
unfoldable pub set_udp_address : ℕ → List ℕ → Socket → Event × Socket
set_udp_address id address s =
    let kind = get_or address 0 0 in
    let n = if kind == 1 then 7 else 19 in
    if is_invalid s.type || not (s.id == id)
    then (quiet, s)
    else if not (kind == protocol_code s.protocol)
    then (socket_err (message s), s)
    else (
      quiet,
      record s {
        udp_address = take n address ++ drop n s.udp_address;
        udpconnecting = (s.udpconnecting + 2 ^ 16 - 1) % 2 ^ 16;
      },
    )

-- How a call of `read` ends: with bytes, at the end of the stream, with `EINTR` or `EAGAIN`, or with
-- another errno.
pub data Reading : Type 0 where
  bytes : List ℕ → Reading
  eof : Reading
  blocked : Reading
  broken : Reading

-- The next `p.size` after `n` bytes were read.
unfoldable pub next_size : ℕ → ℕ → ℕ
next_size sz n =
    if n == sz then sz * 2 else if ltb min_read_buffer sz && ltb (n * 2) sz then sz / 2 else sz

-- `forward_message_tcp`.
unfoldable pub forward_message_tcp : Reading → Socket → Option (Event × Socket)
forward_message_tcp blocked s = some (quiet, s)
forward_message_tcp broken s = Option.map (λ (m, t). (socket_err m, t)) (force_close s)
forward_message_tcp eof s = closing s
forward_message_tcp (bytes d) s =
    if is_halfclose s.type
    then some (quiet, s)
    else some (
      socket_data (record (message s) { ud = length d }) d,
      record s { size = next_size s.size (length d) },
    )
