-- ===== src/Netpack/Tests.antt =====
-- Runs of the packet framing, and its theorems at concrete messages.
use mathlib.Core.Option
use skynet_athena.Netpack.{
  Event, PacketQueue, filter_data, find_uncomplete, get_queue, pack, pop, push_data, push_more,
  read_size, start_pack, write_size,
}
use skynet_athena.Netpack.Frame.{IsCompleted, filter_data-split, whole}
use skynet_athena.Base.{List, Option, [], arith, drop, none, refl, some, take, ℕ, ◌++◌, ◌∷◌, ◌≡◌}

abbrev hello : List ℕ
hello = 104 ∷ 105 ∷ 33 ∷ []

abbrev hello_wire : List ℕ
hello_wire = 0 ∷ 3 ∷ 104 ∷ 105 ∷ 33 ∷ []

pack-hello : pack hello ≡ some hello_wire
unfolding pack write_size
pack-hello = refl

find-nothing : find_uncomplete none 5 ≡ none
unfolding find_uncomplete
find-nothing = refl

-- Two packets in one piece: both are queued.
two_packets :
    Option.map
      (λ (r : Event × Option PacketQueue). (pop r.1).0)
      (filter_data none 5 (hello_wire ++ hello_wire))
    ≡ some (some (whole 5 hello))
unfolding filter_data find_uncomplete start_pack push_more push_data get_queue read_size pop
two_packets = refl

filter_data-split_example : IsCompleted none 5 hello (take 1 hello_wire) (drop 1 hello_wire)
filter_data-split_example =
    filter_data-split none 5 hello hello_wire 1 find-nothing pack-hello (omega arith) (omega arith)
