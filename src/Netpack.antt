-- ===== src/Netpack.antt =====
-- skynet/lualib-src/lua-netpack.c: packets with a two-byte length, cut out of the data of many
-- sockets. Packets not yet complete wait in a chained table by socket, the complete ones in a ring.
-- `none` in the place of the queue is the nil that Lua passes before there is one; a buffer is the
-- list of the bytes written to it. Descriptors are not negative.
pub mod Frame
mod Tests
use mathlib.Core.Option
use skynet_athena.Base.{
  List, Option, [], bit_and, bit_or, drop, get_or, if◌then◌else◌, leb, length, ltb, none, replicate,
  set, some, suc, take, update, zero, ℕ, ◌%◌, ◌*◌, ◌++◌, ◌+◌, ◌-◌, ◌/◌, ◌==◌, ◌^◌, ◌∷◌,
}

abbrev pub queue_size : ℕ
queue_size = 1024

abbrev pub hash_size : ℕ
hash_size = 4096

pub record Packet : Type 0 where
  pub id : ℕ
  pub size : ℕ
  pub buffer : List ℕ

-- `struct uncomplete`; `read` is `none` for -1, where only the first byte of the length is known.
pub record Uncomplete : Type 0 where
  pub pack : Packet
  pub read : Option ℕ
  pub header : ℕ

pub record PacketQueue : Type 0 where
  pub cap : ℕ
  pub head : ℕ
  pub tail : ℕ
  pub hash : ℕ → List Uncomplete
  pub queue : List (Option Packet)

unfoldable pub hash_fd : ℕ → ℕ
hash_fd fd = (fd / 2 ^ 24 + fd / 2 ^ 12 + fd) % 2 ^ 32 % hash_size

-- The walk of `find_uncomplete` along one chain, which unlinks what it finds.
unfoldable pub unlink : ℕ → List Uncomplete → Option (Uncomplete × List Uncomplete)
unlink fd [] = none
unlink fd (uc ∷ ucs) =
    let further = unlink fd ucs in
    if uc.pack.id == fd
    then some (uc, ucs)
    else Option.map (λ (r : Uncomplete × List Uncomplete). (r.0, uc ∷ r.1)) further

unfoldable pub find_uncomplete : Option PacketQueue → ℕ → Option (Uncomplete × PacketQueue)
find_uncomplete none fd = none
find_uncomplete (some q) fd =
    Option.map
      (λ (r : Uncomplete × List Uncomplete).
        (r.0, record q { hash = update q.hash (hash_fd fd) r.1 }))
      (unlink fd (q.hash (hash_fd fd)))

unfoldable pub get_queue : Option PacketQueue → PacketQueue
get_queue (some q) = q
get_queue none = record {
  cap = queue_size;
  head = 0;
  tail = 0;
  hash = λ _. [];
  queue = replicate queue_size none;
}

-- The copying loop of `expand_queue`, for `n` cells from `head + i` on.
unfoldable pub unroll : List (Option Packet) → ℕ → ℕ → ℕ → ℕ → List (Option Packet)
unroll cells head cap i zero = []
unroll cells head cap i (suc n) =
    get_or cells ((head + i) % cap) none ∷ unroll cells head cap (i + 1) n

unfoldable pub expand_queue : PacketQueue → PacketQueue
expand_queue q = record q {
  cap = q.cap + queue_size;
  head = 0;
  tail = q.cap;
  queue = unroll q.queue q.head q.cap 0 q.cap ++ replicate queue_size none;
}

unfoldable pub push_data : Option PacketQueue → Packet → PacketQueue
push_data o p =
    let q = get_queue o in
    let q' = record q {
      queue = set q.queue q.tail (some p);
      tail = if leb q.cap (q.tail + 1) then q.tail + 1 - q.cap else q.tail + 1;
    } in
    if q'.head == q'.tail then expand_queue q' else q'

-- `save_uncomplete`, with the fields that its callers set.
unfoldable pub save_uncomplete : Option PacketQueue → ℕ → Uncomplete → PacketQueue
save_uncomplete o fd uc =
    let q = get_queue o in record q { hash = update q.hash (hash_fd fd) (uc ∷ q.hash (hash_fd fd)) }

-- A packet of which one byte of the length has come, and one with some of its bytes.
abbrev pub only_header : ℕ → ℕ → Uncomplete
only_header fd b = record {
  pack = record { id = fd; size = 0; buffer = [] };
  read = none;
  header = b;
}

abbrev pub partial : ℕ → ℕ → List ℕ → Uncomplete
partial fd size bs = record {
  pack = record { id = fd; size = size; buffer = bs };
  read = some (length bs);
  header = 0;
}

unfoldable pub read_size : ℕ → ℕ → ℕ
read_size b c = bit_or (b * 2 ^ 8) c

-- `push_more`, at most `rounds` deep; `none` is a read beyond the buffer.
unfoldable pub push_more : ℕ → PacketQueue → ℕ → List ℕ → Option PacketQueue
push_more zero q fd bs = none
push_more (suc rounds) q fd [] = none
push_more (suc rounds) q fd (b ∷ []) = some (save_uncomplete (some q) fd (only_header fd b))
push_more (suc rounds) q fd (b ∷ c ∷ bs) =
    let size = read_size b c in
    let q' = push_data (some q) (record { id = fd; size = size; buffer = take size bs }) in
    let further = push_more rounds q' fd (drop size bs) in
    if ltb (length bs) size
    then some (save_uncomplete (some q) fd (partial fd size bs))
    else if length bs == size
    then some q'
    else further

-- What `filter_data_` returns to Lua besides the queue.
pub data Event : Type 0 where
  nothing : Event
  packet : Packet → Event
  more : Event

abbrev pub in_more : Option PacketQueue → Option (Event × Option PacketQueue)
in_more o = Option.map (λ (q : PacketQueue). (more, some q)) o

-- The branch with an incomplete packet, once its size is known and `n` of its bytes are there.
unfoldable pub fill_pack :
    PacketQueue → ℕ → Uncomplete → ℕ → List ℕ → Option (Event × Option PacketQueue)
fill_pack q fd uc n bs =
    let need = uc.pack.size - n in
    let full : Packet = record {
      id = fd;
      size = uc.pack.size;
      buffer = uc.pack.buffer ++ take need bs;
    } in
    let longer : Uncomplete = record uc {
      pack = record { id = uc.pack.id; size = uc.pack.size; buffer = uc.pack.buffer ++ bs };
      read = some (n + length bs);
    } in
    if ltb (length bs) need
    then some (nothing, some (save_uncomplete (some q) fd longer))
    else if length bs == need
    then some (packet full, some q)
    else in_more (push_more (length bs) (push_data (some q) full) fd (drop need bs))

unfoldable pub fill_uncomplete :
    PacketQueue → ℕ → Uncomplete → List ℕ → Option (Event × Option PacketQueue)
fill_uncomplete q fd uc bs = elim uc.read [
  | some n ↦ fill_pack q fd uc n bs
  | none ↦ elim bs [
    | [] ↦ none
    | c ∷ rest ↦
        let size = bit_or c (uc.header * 2 ^ 8) in
        fill_pack q fd
          (record uc { pack = record { id = uc.pack.id; size = size; buffer = [] }; read = some 0 })
          0 rest
  ]
]

-- The other branch, which starts at a packet.
unfoldable pub start_pack : Option PacketQueue → ℕ → List ℕ → Option (Event × Option PacketQueue)
start_pack o fd [] = none
start_pack o fd (b ∷ []) = some (nothing, some (save_uncomplete o fd (only_header fd b)))
start_pack o fd (b ∷ c ∷ bs) =
    let size = read_size b c in
    let first : Packet = record { id = fd; size = size; buffer = take size bs } in
    if ltb (length bs) size
    then some (nothing, some (save_uncomplete o fd (partial fd size bs)))
    else if length bs == size
    then some (packet first, o)
    else in_more (push_more (length bs) (push_data o first) fd (drop size bs))

-- `filter_data_` on the bytes of one socket message.
unfoldable pub filter_data : Option PacketQueue → ℕ → List ℕ → Option (Event × Option PacketQueue)
filter_data o fd bs = elim (find_uncomplete o fd) [
  | some (uc, q) ↦ fill_uncomplete q fd uc bs
  | none ↦ start_pack o fd bs
]

unfoldable pub close_uncomplete : Option PacketQueue → ℕ → Option PacketQueue
close_uncomplete o fd = elim (find_uncomplete o fd) [ some (uc, q) ↦ some q | none ↦ o ]

-- `lpop`: a cell that was never written counts as no packet.
unfoldable pub pop : Option PacketQueue → Option Packet × Option PacketQueue
pop none = (none, none)
pop (some q) = if q.head == q.tail then (none, some q) else (
  get_or q.queue q.head none,
  some (record q { head = if leb q.cap (q.head + 1) then 0 else q.head + 1 }),
)

-- `lclear`.
unfoldable pub clear : Option PacketQueue → Option PacketQueue
clear o = Option.map (λ (q : PacketQueue). record q { hash = λ _. []; head = 0; tail = 0 }) o

unfoldable pub write_size : ℕ → List ℕ
write_size len = bit_and (len / 2 ^ 8) 0xff ∷ bit_and len 0xff ∷ []

-- `lpack`; `none` is the error of a message that is too long.
unfoldable pub pack : List ℕ → Option (List ℕ)
pack msg = if leb 0x10000 (length msg) then none else some (write_size (length msg) ++ msg)
