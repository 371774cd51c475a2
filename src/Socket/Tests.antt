-- ===== src/Socket/Tests.antt =====
-- skynet/skynet-src/socket_server.c: a connection, its writes in part, and the ids.
use skynet_athena.Base.{
  List, [], arith, false, none, refl, some, true, update, ℕ, ◌++◌, ◌<◌, ◌∷◌, ◌≡◌, ◌⊎◌,
}
use skynet_athena.Socket.{
  Event, Socket, connected, connecting, invalid, is_invalid, max_socket, new_fd, reserve, tcp,
  unknown,
}
use skynet_athena.Socket.Send.{Outcome, again, eintr, send_buffer, send_buffer_empty, wrote}
use skynet_athena.Socket.Request.{
  can_direct_write, ctrl_send, node, nomore_sending_data, requested, send_direct,
  socket_server_send,
}
use skynet_athena.Socket.Lists.{Closed, all_bytes, queued_bytes}
use skynet_athena.Socket.Pass.{Kept, send_buffer_lem}
use skynet_athena.Socket.Line.{Line, flush, perform, send}
use skynet_athena.Socket.Safety.{Reach, acted, in_order, opened, send_no_fault}
use skynet_athena.Socket.Drain.{drains, taking}
use skynet_athena.Socket.Reserve.{Reserved, SocketServer, reserve_id, reserve_id_lem, reserved}
use skynet_athena.Socket.Uncounted.{reserved_send_fault}

-- A slot that nothing was done with.
abbrev blank : Socket
blank = record {
  opaque = 0;
  high = [];
  low = [];
  wb_size = 0;
  sending = 0;
  id = 0;
  protocol = unknown;
  type = invalid;
  udpconnecting = 0;
  warn_size = 0;
  size = 0;
  udp_address = [];
  dw_offset = 0;
  dw_buffer = none;
  polled = false;
  out = [];
}

-- The connection 65543, in slot 7.
abbrev connection : Socket
connection = record (reserved 65543 blank) {
  opaque = 9;
  protocol = tcp;
  type = connected;
  sending = 65536;
  size = 64;
}

abbrev new_line : Line
new_line = record { socket = connection; pipe = []; accepted = [] }

new_line-Reach : Reach 65543 new_line
unfolding new_fd
new_line-Reach = opened (reserved 65543 blank) (record connection { type = reserve }) 9 refl

-- The kernel has taken one byte of three.
abbrev part_line : Line
part_line = record {
  socket = record connection {
    out = 1 ∷ [];
    dw_buffer = some (1 ∷ 2 ∷ 3 ∷ []);
    dw_offset = 1;
    polled = true;
  };
  pipe = [];
  accepted = 1 ∷ 2 ∷ 3 ∷ [];
}

part_line-Reach : Reach 65543 part_line
unfolding perform socket_server_send can_direct_write nomore_sending_data send_buffer_empty
    send_direct
part_line-Reach = acted (send (1 ∷ 2 ∷ 3 ∷ []) false (wrote 1)) new_line-Reach refl

send_no_fault_example :
    (l' : Line) × (perform 65543 (send (4 ∷ []) false (wrote 1)) part_line ≡ some l')
send_no_fault_example = send_no_fault (send (4 ∷ []) false (wrote 1)) part_line-Reach

in_order_example : (rest : List ℕ) × (part_line.socket.out ++ rest ≡ part_line.accepted)
in_order_example = in_order part_line-Reach

drains_example :
    (l' : Line) × (perform 65543 (flush false (taking 2 5)) part_line ≡ some l')
    × (l'.accepted ≡ part_line.accepted)
    × (l'.socket.out ≡ part_line.accepted)
drains_example = drains 2 5 part_line-Reach refl refl (omega arith) (omega arith)

-- Two messages in each list, the first of the high list sent in part.
abbrev full : Socket
full = record connection {
  high =
      record { buffer = 1 ∷ 2 ∷ 3 ∷ []; userobject = false; ptr = 1; sz = 2; udp_address = [] }
      ∷ node (4 ∷ []) []
      ∷ [];
  low = node (5 ∷ 6 ∷ []) [] ∷ node (7 ∷ []) [] ∷ [];
  wb_size = 6;
  out = 1 ∷ [];
}

-- The bytes in the order of sending.
full_bytes : queued_bytes full ≡ 1 ∷ 2 ∷ 3 ∷ 4 ∷ 5 ∷ 6 ∷ 7 ∷ []
full_bytes = refl

abbrev full_outcomes : List Outcome
full_outcomes = wrote 2 ∷ eintr ∷ wrote 1 ∷ wrote 1 ∷ again ∷ []

send_buffer_lem_example :
    (e : Event) × (s' : Socket) × (send_buffer false full_outcomes full ≡ some (e, s'))
    × (Kept full s' ⊎ Closed full_outcomes (all_bytes full) full s')
send_buffer_lem_example =
    send_buffer_lem false full_outcomes full (record { stream = refl; valid = refl; taken = refl })
      (record { counted = refl; fresh = ((refl, refl), ((refl, refl), tt)) })

-- Every slot but slot 2 is taken.
abbrev crowded : SocketServer
crowded = record { alloc_id = 2147483647; slot = update (λ _. connection) 2 blank }

reserve_id_lem_example :
    ((id : ℕ) × ((reserve_id crowded).0 ≡ some id) × Reserved crowded (reserve_id crowded).1 id)
    ⊎ (((reserve_id crowded).0 ≡ none)
        × ((k : ℕ) → k < max_socket → is_invalid (crowded.slot k).type ≡ false))
reserve_id_lem_example = reserve_id_lem crowded

reserved_send_fault_example :
    (socket_server_send 65543 (1 ∷ []) false again (reserved 65543 blank)
      ≡ (requested, reserved 65543 blank))
    × (ctrl_send 65543 true (1 ∷ []) again (record connection { type = connecting }) ≡ none)
unfolding new_fd
reserved_send_fault_example =
    reserved_send_fault 65543 9 (1 ∷ []) false again again true blank
      (record connection { type = reserve }) connecting refl
