-- ===== src/Socket.antt =====
-- skynet/skynet-src/socket_server.c: one slot of the socket server. `none` is an assertion that
-- fails. A write list is the list of its nodes, so `tail` is no field. The statistics, the
-- descriptor's number and the calls of the poller but `sp_write` are left out.
mod Send
mod Request
mod Flush
mod Lists
mod Ends
mod Pass
mod Line
mod Requests
mod Direct
mod Order
mod Safety
mod Drain
mod Control
mod Reserve
mod Uncounted
mod Tests
use skynet_athena.Base.{
  Bool, List, Option, [], false, if◌then◌else◌, none, not, some, true, ℕ, ◌%◌, ◌*◌, ◌/◌, ◌^◌, ◌||◌,
  ◌∷◌,
}

-- SOCKET_TYPE_*
pub data SocketType : Type 0 where
  invalid reserve plisten listen connecting connected halfclose paccept bind : SocketType

-- PROTOCOL_*
pub data Protocol : Type 0 where
  tcp udp udpv6 unknown : Protocol

abbrev pub protocol_code : Protocol → ℕ
protocol_code tcp = 0
protocol_code udp = 1
protocol_code udpv6 = 2
protocol_code unknown = 255

abbrev pub min_read_buffer : ℕ
min_read_buffer = 64

abbrev pub max_socket_p : ℕ
max_socket_p = 16

-- MAX_SOCKET, 1 << MAX_SOCKET_P
abbrev pub max_socket : ℕ
max_socket = 65536

abbrev pub warning_size : ℕ
warning_size = 1024 * 1024

-- HASH_ID
abbrev pub hash_id : ℕ → ℕ
hash_id id = id % max_socket

-- ID_TAG16
abbrev pub id_tag16 : ℕ → ℕ
id_tag16 id = id / 2 ^ max_socket_p % 2 ^ 16

-- `struct write_buffer`: the bytes of the buffer or of the user object, `ptr` as the distance from
-- their start, and `sz`. Of a user object `buffer` is the address of the object itself, which its
-- bytes are not at.
pub record WriteBuffer : Type 0 where
  pub buffer : List ℕ
  pub userobject : Bool
  pub ptr : ℕ
  pub sz : ℕ
  pub udp_address : List ℕ

-- `struct socket`. `out` is what the kernel has taken for the descriptor, `polled` whether write
-- events are wanted (`sp_write`), `size` the `p.size` of TCP and `udp_address` the `p.udp_address`.
pub record Socket : Type 0 where
  pub opaque : ℕ
  pub high : List WriteBuffer
  pub low : List WriteBuffer
  pub wb_size : ℕ
  pub sending : ℕ
  pub id : ℕ
  pub protocol : Protocol
  pub type : SocketType
  pub udpconnecting : ℕ
  pub warn_size : ℕ
  pub size : ℕ
  pub udp_address : List ℕ
  pub dw_offset : ℕ
  pub dw_buffer : Option (List ℕ)
  pub polled : Bool
  pub out : List ℕ

-- `struct socket_message`, without the data.
pub record SocketMessage : Type 0 where
  pub opaque : ℕ
  pub id : ℕ
  pub ud : ℕ

-- What the socket thread reports; `quiet` is -1.
pub data Event : Type 0 where
  quiet : Event
  socket_close : SocketMessage → Event
  socket_err : SocketMessage → Event
  socket_open : SocketMessage → Event
  socket_warning : SocketMessage → Event
  socket_data : SocketMessage → List ℕ → Event

abbrev pub is_invalid : SocketType → Bool
is_invalid invalid = true
is_invalid _ = false

abbrev pub is_reserve : SocketType → Bool
is_reserve reserve = true
is_reserve _ = false

abbrev pub is_connected : SocketType → Bool
is_connected connected = true
is_connected _ = false

abbrev pub is_halfclose : SocketType → Bool
is_halfclose halfclose = true
is_halfclose _ = false

abbrev pub is_paccept : SocketType → Bool
is_paccept paccept = true
is_paccept _ = false

abbrev pub is_listening : SocketType → Bool
is_listening plisten = true
is_listening listen = true
is_listening _ = false

abbrev pub is_tcp : Protocol → Bool
is_tcp tcp = true
is_tcp _ = false

abbrev pub is_null : {A : Type 0} → List A → Bool
is_null [] = true
is_null (x ∷ xs) = false

abbrev pub is_none : {A : Type 0} → Option A → Bool
is_none none = true
is_none (some a) = false

-- The message about a socket.
abbrev pub message : Socket → SocketMessage
message s = record { opaque = s.opaque; id = s.id; ud = 0 }

-- `force_close`: every buffer is dropped.
unfoldable pub force_close : Socket → Option (SocketMessage × Socket)
force_close s =
    if is_invalid s.type
    then some (message s, s)
    else if is_reserve s.type
    then none
    else some (message s, record s { high = []; low = []; type = invalid; dw_buffer = none })

-- `new_fd`, where `failed` says whether `sp_add` fails. `none` inside is `NULL`.
unfoldable pub new_fd : Socket → ℕ → Protocol → ℕ → Bool → Option (Bool × Socket)
new_fd s id protocol opaque failed =
    if not (is_reserve s.type)
    then none
    else if failed
    then some (false, record s { type = invalid })
    else if not (is_null s.high) || not (is_null s.low)
    then none
    else some (
      true,
      record s {
        id = id;
        sending = id_tag16 id * 2 ^ 16;
        protocol = protocol;
        size = min_read_buffer;
        opaque = opaque;
        wb_size = 0;
        warn_size = 0;
        dw_buffer = none;
        out = [];
      },
    )
