-- ===== src/Lib.antt =====
-- A verification library for the C core of the skynet framework in skynet/.
--
-- A skynet process runs many services. A service has a handle, which `skynet_handle.c` gives out and
-- looks up; messages to it wait in its own ring of `skynet_mq.c`, and the queues that hold messages
-- wait in one global list for a worker thread. Timeouts wait in the wheel of `skynet_timer.c` and
-- become messages when they are due. A gate service collects the bytes of a connection in the chunk
-- list of `databuffer.h` and cuts messages out of it by a length header; it finds its
-- connections by socket id through `hashid.h`. Services in Lua use
-- `lua-netpack.c` for the same with two-byte lengths. Services pack the arguments
-- of a message with `lua-seri.c` and unpack them on the other side. Between the nodes of a cluster
-- `lua-cluster.c` packs whole messages, and clients log in with the functions of `lua-crypt.c`.
--
-- Which module models which code:
--   Base: the names, lists and bit operations that all the others use.
--   Mq: skynet/skynet-src/skynet_mq.c. `push`, `pop`, `expand_queue` on one ring (the indices are
--     numbers below the capacity, the array a list of cells); Mq.Global has the list of queues linked
--     by `next`, Mq.World both together, with the `in_global` mark and the release of a queue. The
--     capacity is the pattern of an `int`, so a queue has room for less than 2^30 messages. Each
--     function runs under its spin lock and is one step. Mq.Ring reads a ring as a
--     window of its array, and Mq.Refine compares a ring with a plain list.
--   Timer: skynet/skynet-src/skynet_timer.c. The wheel is a function from slots to lists; time is 32
--     bits wide and wraps. Timer.Place computes the slot of a node in closed form, Timer.Wheel follows
--     a cascade, Timer.Tick and Timer.Fires one tick and many.
--   DataBuffer: skynet/service-src/databuffer.h. Nodes are lists of bytes; the free list is a count.
--   Gate: skynet/service-src/service_gate.c, the stream of one connection; what `skynet_send` gets is
--     recorded in order. Gate.Frames reads a stream without buffer or chunks, Gate.Run follows the
--     loop of `dispatch_message`, Gate.Cut a stream in any number of messages. The loop has four more
--     rounds of fuel than the buffer has bytes; each round but the last takes two.
--   Seri: skynet/lualib-src/lua-seri.c. Seri.Value is the Lua value, Seri.Pack the writers, Seri.Blocks
--     the block list they write to, Seri.Unpack the reader, and the rest the round trip. Integers,
--     doubles and pointers are 64-bit patterns.
--   Handle: skynet/skynet-src/skynet_handle.c. The slot array is a function, read at masked indices.
--   Server: skynet/skynet-src/skynet_server.c. Contexts by address, with their reference counts; it
--     uses the tables of Handle and the queues of Mq.World. Server.Deliver follows a message from the
--     sender to the queue, Server.Text has handles as text, with `strtoul` as a parameter.
--   Socket: skynet/skynet-src/socket_server.c, one slot at a time; the bytes that the kernel has taken
--     are a field, and how each call of `write` ends is an argument. What is sent is a buffer in memory;
--     a user object may be in a list. Socket.Send is the socket thread's
--     writing, Socket.Request the senders and the control pipe, Socket.Control the other requests and
--     events, Socket.Reserve the ids. Socket.Flush,
--     Socket.Lists, Socket.Ends and Socket.Pass follow one pass over the write lists; Socket.Line has
--     a connection with its senders, Socket.Requests and Socket.Direct what a request and a direct
--     write do to it, and Socket.Order, Socket.Safety and Socket.Drain any interleaving of the
--     senders with the socket thread, where each locked section is one step.
--   Stm: skynet/lualib-src/lua-stm.c, with the unlock of skynet/skynet-src/rwlock.h. The object and its
--     copies with their counts of references. A locked section is one step, but a leaving reader takes
--     two, since the read lock does not keep readers apart; `Reach` of Stm.Holders has every order of
--     the steps of the holders, but for two last readers that leave at once, which Stm.Race is about.
--   HashId: skynet/service-src/hashid.h. A node is its index, a chain the list of its nodes.
--     HashId.Table has the invariant, lookup and removal, HashId.Insert the insertion.
--   Crypt: skynet/lualib-src/lua-crypt.c. Crypt.Dh has the key exchange over 64-bit words, with the
--     wrap of each operation written out, Crypt.Hex and Crypt.Base64 the text encodings, Crypt.Mix the
--     xor with a key and the string hash.
--   Cluster: skynet/lualib-src/lua-cluster.c. Requests and responses between nodes, one package each or
--     in parts; the packages travel through the framing of Netpack.
--   Netpack: skynet/lualib-src/lua-netpack.c. A buffer is the list of its bytes; the userdata queue is
--     nil or a record with the chained table of incomplete packets and the ring of complete ones.
-- The module Tests of a component runs it and applies its theorems to concrete states.
--
-- Loops of the code are recursion on the structure where there is one. Fuel stands for a loop in
-- `unpack_one`, `unpack_pairs` and `unpack_all`, where it is one more than the number of bytes left,
-- and every round reads a byte; in `find_free` and `rehash`, where it is the number of rounds of the
-- loop; in `free_node`, the capacity; in `hash_cap`, the size asked for; in `search_name`, where it is
-- the number of names; in `mul_loop` and `pow_mod_p`, where it is the width of a word; in
-- `decode_loop`, where it is the length of the text; in `push_more`, where it is at least the number
-- of bytes, and every round takes two; and in `register`, where it bounds how often the slot array
-- doubles.
--
-- Not modelled: the reading of clocks, `malloc` (it never fails here), the interleaving inside a
-- lock but for the readers of Stm, a failed compare-and-swap in `reserve_id`, the sending of user
-- objects on a socket, system calls, the Lua binding code, services written in Lua, and third-party libraries.
-- `wb_table_metapairs`, which calls a metamethod in Lua, is left out: tables have no `__pairs`.
pub mod Base
pub mod Cluster
pub mod Crypt
pub mod DataBuffer
pub mod Gate
pub mod Handle
pub mod HashId
pub mod Mq
pub mod Netpack
pub mod Seri
pub mod Server
pub mod Socket
pub mod Stm
pub mod Timer
