-- ===== src/Gate.antt =====
-- skynet/service-src/service_gate.c: the gate cuts the bytes of its connections into packages and
-- forwards them. What it sends to services and the sockets it closes are recorded in order; `none` is
-- a failed assertion, a NULL read, or a loop that ran out of fuel.
mod Frames
mod Run
mod Cut
mod Stream
mod Tests
use mathlib.Core.Option
use skynet_athena.Base.{
  List, Option, [], bit_or, false, if◌then◌else◌, leb, none, not, some, suc, true, zero, ℕ, ◌++◌,
  ◌+◌, ◌==◌, ◌^◌, ◌∷◌,
}
use skynet_athena.DataBuffer
use skynet_athena.DataBuffer.{DataBuffer, MessagePool, clear, read, readheader, reset}
use skynet_athena.Server.{tag_dontcopy}

-- `struct connection`; `none` is the id -1.
pub record Connection : Type 0 where
  pub id : Option ℕ
  pub agent : ℕ
  pub client : ℕ
  pub remote_name : List ℕ
  pub buffer : DataBuffer

-- The arguments of a call of `skynet_send`.
pub record Forward : Type 0 where
  pub source : ℕ
  pub destination : ℕ
  pub type : ℕ
  pub session : ℕ
  pub bytes : List ℕ

-- `struct gate`, without the tables of connections, with what was sent and which sockets were closed.
pub record Gate : Type 0 where
  pub watchdog : ℕ
  pub broker : ℕ
  pub client_tag : ℕ
  pub header_size : ℕ
  pub mp : MessagePool
  pub sent : List Forward
  pub closed : List ℕ

infixl 5 ◌>>=◌
abbrev pub ◌>>=◌ : {A B : Type 0} → Option A → (A → Option B) → Option B
some a >>= f = f a
none >>= f = none

-- A package read from the buffer and sent behind a prefix.
unfoldable pub send_read :
    List ℕ → ℕ → ℕ → ℕ → ℕ → ℕ → Connection → Gate → Option (Connection × Gate)
send_read prefix source destination type fd size c g =
    Option.map
      (λ ((bytes, db, mp) : List ℕ × DataBuffer × MessagePool). (
        record c { buffer = db },
        record g {
          mp = mp;
          sent =
              g.sent
              ++ (record {
                source = source;
                destination = destination;
                type = type;
                session = fd;
                bytes = prefix ++ bytes;
              }
                  ∷ []);
        },
      ))
      (read c.buffer g.mp size)

-- `_forward` to a socket; `text` prints "%d data ".
unfoldable pub forward_to : (ℕ → List ℕ) → ℕ → ℕ → Connection → Gate → Option (Connection × Gate)
forward_to text fd size c g =
    let type = bit_or g.client_tag tag_dontcopy in
    if fd == 0
    then some (c, g)
    else if not (g.broker == 0)
    then send_read [] 0 g.broker type fd size c g
    else if not (c.agent == 0)
    then send_read [] c.client c.agent type fd size c g
    else if not (g.watchdog == 0)
    then send_read (text fd) 0 g.watchdog tag_dontcopy fd size c g
    else some (c, g)

-- `_forward`.
unfoldable pub forward : (ℕ → List ℕ) → ℕ → Connection → Gate → Option (Connection × Gate)
forward text size c g = elim c.id [ none ↦ some (c, g) | some fd ↦ forward_to text fd size c g ]

-- The loop of `dispatch_message`, on fuel.
unfoldable pub dispatch_loop : (ℕ → List ℕ) → ℕ → ℕ → Connection → Gate → Option (Connection × Gate)
dispatch_loop text id zero c g = none
dispatch_loop text id (suc fuel) c g =
    readheader c.buffer g.mp g.header_size >>= λ ((size, db, mp) : ℕ × DataBuffer × MessagePool).
    let c' = record c { buffer = db } in
    let g' = record g { mp = mp } in
    elim (leb (2 ^ 31) size) [
      | true ↦ some (c', g')
      | false ↦ elim (size == 0) [
        | true ↦ dispatch_loop text id fuel c' g'
        | false ↦ elim (leb 0x1000000 size) [
          | true ↦ some (
            record c' { buffer = (clear db mp).0 },
            record g' { mp = (clear db mp).1; closed = g.closed ++ (id ∷ []) },
          )
          | false ↦ forward text size c' g' >>= λ ((c'', g'') : Connection × Gate).
              dispatch_loop text id fuel (record c'' { buffer = reset c''.buffer }) g''
        ]
      ]
    ]

-- `dispatch_message`; every round but the last takes a byte at least.
unfoldable pub dispatch_message :
    (ℕ → List ℕ) → ℕ → List ℕ → Connection → Gate → Option (Connection × Gate)
dispatch_message text id bytes c g =
    let (db, mp) = DataBuffer.push c.buffer g.mp bytes in
    dispatch_loop text id (db.size + 4) (record c { buffer = db }) (record g { mp = mp })
