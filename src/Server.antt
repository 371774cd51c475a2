-- ===== src/Server.antt =====
-- skynet/skynet-src/skynet_server.c: the contexts of services, with their reference counts, and the
-- path of a message from `skynet_send` to the queue of the service. A context is named by its address;
-- one that is freed is gone, and touching it is a fault (`none`). Each function is one step.
pub mod Text
pub mod Deliver
mod Tests
use mathlib.Core.Option
use skynet_athena.Handle.{HandleStorage, grab, handle_remote_shift}
use skynet_athena.Mq.{Message}
use skynet_athena.Mq.World.{World, mark_release, mq_push}
use skynet_athena.Base.{
  Bool, Option, bit_and, bit_or, false, if◌then◌else◌, leb, none, not, some, true, update, ℕ, ◌%◌,
  ◌&&◌, ◌*◌, ◌+◌, ◌-◌, ◌/◌, ◌==◌, ◌^◌, ◌||◌,
}

-- The counters and marks of `struct skynet_context`; `queue` is an address, `session_id` the pattern
-- of an `int`.
pub record Context : Type 0 where
  pub handle : ℕ
  pub session_id : ℕ
  pub ref : ℕ
  pub queue : ℕ
  pub message_count : ℕ
  pub init : Bool
  pub endless : Bool

-- What the process has: `struct skynet_node`, the live contexts, the handles, the queues, and the
-- harbor of this node, shifted.
pub record Node : Type 0 where
  pub total : ℕ
  pub contexts : ℕ → Option Context
  pub handles : HandleStorage
  pub world : World
  pub harbor : ℕ

abbrev pub message_type_shift : ℕ
message_type_shift = 56

abbrev pub tag_dontcopy : ℕ
tag_dontcopy = 0x10000

abbrev pub tag_allocsession : ℕ
tag_allocsession = 0x20000

-- `skynet_context_newsession`.
unfoldable pub newsession : Context → ℕ × Context
newsession ctx =
    let session = (ctx.session_id + 1) % 2 ^ 32 in
    if (session == 0) || leb (2 ^ 31) session
    then (1, record ctx { session_id = 1 })
    else (session, record ctx { session_id = session })

-- The handle that a context holds.
abbrev pub handle_of : Node → ℕ → ℕ
handle_of node c = elim (node.contexts c) [ none ↦ 0 | some ctx ↦ ctx.handle ]

abbrev pub set_context : Node → ℕ → Option Context → Node
set_context node c ctx = record node { contexts = update node.contexts c ctx }

-- `skynet_context_grab`.
unfoldable pub context_grab : Node → ℕ → Option Node
context_grab node c = elim (node.contexts c) [
  | none ↦ none
  | some ctx ↦ some (set_context node c (some (record ctx { ref = ctx.ref + 1 })))
]

-- `delete_context`.
unfoldable pub delete_context : Node → ℕ → Context → Option Node
delete_context node c ctx =
    Option.map
      (λ (w : World). record (set_context node c none) { world = w; total = node.total - 1 })
      (mark_release node.world ctx.queue)

-- `skynet_context_release`.
unfoldable pub context_release : Node → ℕ → Option Node
context_release node c = elim (node.contexts c) [
  | none ↦ none
  | some ctx ↦
      if ctx.ref - 1 == 0
      then delete_context node c ctx
      else some (set_context node c (some (record ctx { ref = ctx.ref - 1 })))
]

-- A step between the grab of a live handle and its release; `false` where the handle is not live.
unfoldable pub with_handle : Node → ℕ → (Node → ℕ → Context → Option Node) → Option (Bool × Node)
with_handle node handle step = elim (grab (handle_of node) node.handles handle) [
  | none ↦ some (false, node)
  | some c ↦ elim (node.contexts c) [
    | none ↦ none
    | some ctx ↦ elim (context_grab node c) [
      | none ↦ none
      | some held ↦ elim (step held c ctx) [
        | none ↦ none
        | some done ↦ Option.map (λ (n : Node). (true, n)) (context_release done c)
      ]
    ]
  ]
]

unfoldable pub push_step : Message → Node → ℕ → Context → Option Node
push_step m node c ctx =
    Option.map (λ (w : World). record node { world = w }) (mq_push node.world ctx.queue m)

-- `skynet_context_push`; `false` is -1.
unfoldable pub context_push : Node → ℕ → Message → Option (Bool × Node)
context_push node handle m = with_handle node handle (push_step m)

unfoldable pub endless_step : Node → ℕ → Context → Option Node
endless_step node c ctx = elim (node.contexts c) [
  | none ↦ none
  | some now ↦ some (set_context node c (some (record now { endless = true })))
]

-- `skynet_context_endless`.
unfoldable pub context_endless : Node → ℕ → Option Node
context_endless node handle =
    Option.map (λ (r : Bool × Node). r.1) (with_handle node handle endless_step)

-- `skynet_harbor_message_isremote` for this node's harbor.
unfoldable pub isremote : Node → ℕ → Bool
isremote node handle =
    let h = handle - handle % 2 ^ handle_remote_shift in not (h == node.harbor) && not (h == 0)

-- `_filter_args`: the session, the data and the size with the type in its high byte. `copy` is what
-- `skynet_malloc` answers for the copy; `none` is the failed assertion.
unfoldable pub filter_args : Context → ℕ → ℕ → ℕ → ℕ → ℕ → Option (Context × ℕ × ℕ × ℕ)
filter_args ctx type session pointer sz copy =
    let needcopy = bit_and type tag_dontcopy == 0 in
    let alloc = not (bit_and type tag_allocsession == 0) in
    let pointer' = if needcopy && not (pointer == 0) then copy else pointer in
    let sz' = bit_or sz (bit_and type 0xff * 2 ^ message_type_shift) in
    if alloc
    then (if session == 0
        then (let (id, ctx') = newsession ctx in some (ctx', id, pointer', sz'))
        else none)
    else some (ctx, session, pointer', sz')

-- What `skynet_send` answers: -2, -1, or the session.
pub data Sent : Type 0 where
  too_large : Sent
  refused : Sent
  sent : ℕ → Sent

-- A message that goes to the harbor service: source, destination, session, type, data and size.
pub record Remote : Type 0 where
  pub source : ℕ
  pub destination : ℕ
  pub session : ℕ
  pub type : ℕ
  pub pointer : ℕ
  pub sz : ℕ

abbrev pub local : Option (Sent × Node) → Option (Sent × Option Remote × Node)
local r = Option.map (λ (x : Sent × Node). (x.0, none, x.1)) r

-- The end of `skynet_send`, once the arguments are filtered.
unfoldable pub deliver : Node → ℕ → ℕ → ℕ → ℕ → ℕ → Option (Sent × Option Remote × Node)
deliver node source destination session pointer sz =
    if destination == 0
    then some (if pointer == 0 then sent session else refused, none, node)
    else if isremote node destination
    then some (
      sent session,
      some (record {
        source = source;
        destination = destination;
        session = session;
        type = sz / 2 ^ message_type_shift;
        pointer = pointer;
        sz = sz % 2 ^ message_type_shift;
      }),
      node,
    )
    else local (
        Option.map (λ (r : Bool × Node). (if r.0 then sent session else refused, r.1))
          (context_push node destination
            (record { source = source; session = session; data_ptr = pointer; sz = sz })))

-- `skynet_send` from the context `c`.
unfoldable pub send : Node → ℕ → ℕ → ℕ → ℕ → ℕ → ℕ → ℕ → ℕ → Option (Sent × Option Remote × Node)
send node c source destination type session pointer sz copy = elim (node.contexts c) [
  | none ↦ none
  | some ctx ↦
      if leb (2 ^ message_type_shift) sz
      then some (too_large, none, node)
      else elim (filter_args ctx type session pointer sz copy) [
        | none ↦ none
        | some (ctx', session', pointer', sz') ↦
            deliver (set_context node c (some ctx')) (if source == 0 then ctx.handle else source)
              destination session' pointer' sz'
      ]
]

-- The type and the size that `dispatch_message` hands to the callback.
unfoldable pub message_type : Message → ℕ
message_type m = m.sz / 2 ^ message_type_shift

unfoldable pub message_size : Message → ℕ
message_size m = m.sz % 2 ^ message_type_shift
