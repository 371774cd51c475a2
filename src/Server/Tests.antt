-- ===== src/Server/Tests.antt =====
-- Runs of contexts and handles as text, and the theorems at concrete nodes.
use skynet_athena.Server.{
  Context, Node, context_push, isremote, message_size, message_type, send, sent, set_context,
  tag_dontcopy,
}
use skynet_athena.Server.Text.{
  ReadsHex, hex_from, id_to_hex, positional, queryname, queryname-id_to_hex,
}
use skynet_athena.Server.Deliver.{IsLive, context_push-Holds, send-Holds}
use skynet_athena.Handle.{grab}
use skynet_athena.Mq.{Message, MessageQueue, mq_length}
use skynet_athena.Mq.Refine.{Holds}
use skynet_athena.Mq.Global.{mq_init, mq_init-Lists}
use skynet_athena.Mq.World.{IsScheduled}
use skynet_athena.Base.{
  List, [], arith, bit_and, false, none, refl, some, true, update, ℕ, ◌++◌, ◌∷◌, ◌≡◌, ◌≢◌,
}

id_run : id_to_hex 0x1000a0f ≡ 58 ∷ 48 ∷ 49 ∷ 48 ∷ 48 ∷ 48 ∷ 65 ∷ 48 ∷ 70 ∷ []
unfolding id_to_hex hex_from
id_run = refl

positional-ReadsHex : ReadsHex (positional 0)
positional-ReadsHex = λ cs all pos short. refl

queryname-id_to_hex_example : queryname (positional 0) (λ t. 0) (id_to_hex 0x1000a0f) ≡ 0x1000a0f
queryname-id_to_hex_example =
    queryname-id_to_hex (positional 0) (λ t. 0) 0x1000a0f positional-ReadsHex (omega arith)

-- A service with the handle 1, the context 50 and the queue 9.
abbrev service : Context
service = record {
  handle = 1;
  session_id = 0;
  ref = 1;
  queue = 9;
  message_count = 0;
  init = true;
  endless = false;
}

abbrev ring : MessageQueue
ring = record {
  handle = 1;
  cap = 2;
  head = 0;
  tail = 0;
  release = 0;
  in_global = 1;
  overload = 0;
  overload_threshold = 1024;
  queue = none ∷ none ∷ [];
}

abbrev node : Node
node = record {
  total = 1;
  contexts = update (λ c. none) 50 (some service);
  handles = record {
    harbor = 0;
    handle_index = 2;
    slot_size = 4;
    slot = update (λ i. none) 1 (some 50);
    name_cap = 2;
    names = [];
  };
  world = record { queues = λ i. ring; global = mq_init };
  harbor = 0;
}

ring-Holds : Holds ring []
unfolding mq_length
ring-Holds = record { valid = omega arith; exact = refl }

node-IsScheduled : IsScheduled node.world []
node-IsScheduled = record {
  lists = mq_init-Lists;
  valid = λ i. omega arith;
  marked = λ i h. absurd (omega (arith, h));
}

service-IsLive : IsLive node 1 50 service
unfolding grab
service-IsLive = record { found = refl; there = refl; counted = omega arith }

service-IsLive_set : IsLive (set_context node 50 (some service)) 1 50 service
unfolding grab
service-IsLive_set = record { found = refl; there = refl; counted = omega arith }

abbrev message : Message
message = record { source = 7; session = 3; data_ptr = 0; sz = 0 }

context_push-Holds_example :
    (node' : Node) × (ys : List ℕ) × (context_push node 1 message ≡ some (true, node'))
    × IsScheduled node'.world ys
    × (ring.in_global ≡ 0 → ys ≡ 9 ∷ [])
    × (ring.in_global ≢ 0 → ys ≡ [])
    × Holds (node'.world.queues 9) ([] ++ (message ∷ []))
    × ((node'.world.queues 9).in_global ≢ 0)
    × ((i : ℕ) → node'.contexts i ≡ node.contexts i)
    × (node'.total ≡ node.total)
context_push-Holds_example =
    context_push-Holds node 1 50 service message [] [] service-IsLive node-IsScheduled ring-Holds
      (omega arith)

near : isremote node 1 ≡ false
unfolding isremote
near = refl

abbrev pointer : ℕ
pointer = 800

send-Holds_example :
    (node' : Node) × (m : Message) × (ys : List ℕ) × (send node 50 0 1 3 4 pointer 16 99
      ≡ some (sent 4, none, node'))
    × IsScheduled node'.world ys
    × (ring.in_global ≡ 0 → ys ≡ 9 ∷ [])
    × (ring.in_global ≢ 0 → ys ≡ [])
    × Holds (node'.world.queues 9) ([] ++ (m ∷ []))
    × (m.source ≡ 1)
    × (m.session ≡ 4)
    × (bit_and 3 tag_dontcopy ≡ 0 → pointer ≢ 0 → m.data_ptr ≡ 99)
    × (bit_and 3 tag_dontcopy ≢ 0 → m.data_ptr ≡ pointer)
    × (pointer ≡ 0 → m.data_ptr ≡ 0)
    × (message_type m ≡ 3)
    × (message_size m ≡ 16)
send-Holds_example =
    send-Holds node 50 0 1 3 4 pointer 16 99 50 service service [] [] refl (omega arith) refl
      (omega arith) near service-IsLive_set node-IsScheduled ring-Holds (omega arith)
