-- ===== src/Socket/Line.antt =====
-- skynet/skynet-src/socket_server.c: services send on one TCP connection while the socket thread works
-- on it.
use mathlib.Core.Option
use skynet_athena.Base.{
  Bool, List, Option, [], if◌then◌else◌, length, some, true, ℕ, ◌*◌, ◌++◌, ◌+◌, ◌<◌, ◌^◌, ◌∷◌, ◌≡◌,
  ◌⊎◌,
}
use skynet_athena.Socket.{Socket, connected, id_tag16, invalid, is_invalid, tcp}
use skynet_athena.Socket.Send.{Outcome, send_buffer}
use skynet_athena.Socket.Request.{
  Reply, ctrl_send, done, refused, requested, socket_server_send, waits,
}
use skynet_athena.Socket.Lists.{IsQueued, all_bytes}

-- A connection: its slot, the payloads of its requests in the control pipe, and all bytes that the
-- services were told are taken over, in order.
pub record Line : Type 0 where
  pub socket : Socket
  pub pipe : List (List ℕ)
  pub accepted : List ℕ

-- `send` is a call of `socket_server_send` by any service, `handle` the socket thread at a request,
-- `flush` the socket thread at a write event.
pub data Action : Type 0 where
  send : List ℕ → Bool → Outcome → Action
  handle : Outcome → Action
  flush : Bool → List Outcome → Action

-- What a reply means to the caller.
abbrev pub submit : List ℕ → Line → Reply × Socket → Line
submit bytes l (refused, s) = record l { socket = s }
submit bytes l (done, s) = record l { socket = s; accepted = l.accepted ++ bytes }
submit bytes l (requested, s) = record {
  socket = s;
  pipe = l.pipe ++ (bytes ∷ []);
  accepted = l.accepted ++ bytes;
}
submit bytes l (waits, s) = record l { socket = s }

unfoldable pub handle_request : ℕ → Outcome → List (List ℕ) → Line → Option Line
handle_request id o [] l = some l
handle_request id o (bytes ∷ rest) l =
    Option.map (λ (e, s). record l { socket = s; pipe = rest }) (ctrl_send id true bytes o l.socket)

-- An action on the connection `id`; no write event reaches an invalid slot.
unfoldable pub perform : ℕ → Action → Line → Option Line
perform id (send bytes locked o) l =
    some (submit bytes l (socket_server_send id bytes locked o l.socket))
perform id (handle o) l = handle_request id o l.pipe l
perform id (flush locked os) l =
    if is_invalid l.socket.type
    then some l
    else Option.map (λ (e, s). record l { socket = s }) (send_buffer locked os l.socket)

abbrev pub concat : List (List ℕ) → List ℕ
concat [] = []
concat (b ∷ bs) = b ++ concat bs

-- A connected socket has, or will be asked to send, what was accepted.
pub record Alive (l : Line) : Type 0 where
  pub connection : l.socket.type ≡ connected
  pub queued : IsQueued l.socket
  pub empty_low : l.socket.low ≡ []
  pub bytes : all_bytes l.socket ++ concat l.pipe ≡ l.accepted

-- A closed one has sent a first part of it.
pub record Dead (l : Line) : Type 0 where
  pub shut : l.socket.type ≡ invalid
  pub rest : List ℕ
  pub prefix : l.socket.out ++ rest ≡ l.accepted

pub record IsLine (id : ℕ) (l : Line) : Type 0 where
  pub stream : l.socket.protocol ≡ tcp
  pub named : l.socket.id ≡ id
  pub counted : l.socket.sending ≡ id_tag16 id * 2 ^ 16 + length l.pipe
  pub short : length l.pipe < 2 ^ 16
  pub state : Alive l ⊎ Dead l
