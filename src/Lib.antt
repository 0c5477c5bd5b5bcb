-- ===== src/Lib.antt =====
-- A user-space IP and TCP stack: hosts and routers over simulated links, a routing table fed by RIP,
-- and TCP connections on top.
--
-- The parts and their files. Paths are from the root of the repository.
--   Common     names, lists and 32-bit arithmetic that the parts share.
--   Ip         the network layer:
--     Address  lib/include/ip/address.hpp, lib/include/util/util.hpp: addresses and byte order.
--     Rip      lib/src/ip/rip_message.cpp and `sendRipMessage_`: RIP messages and their bytes.
--     Routing  lib/src/ip/routing_table.cpp: lookups, updates by RIP messages, messages to the
--              neighbours, and the removal of stale routes.
--     Datagram lib/src/ip/datagram.cpp, lib/src/ip/util.cpp: headers, their checksum, and reception.
--   Nodes      lib/src/network_node.cpp, network_interface.cpp and host_node.cpp: sending, forwarding
--              and delivery, over Ip; Nodes/Router is lib/src/router_node.cpp, and
--              Nodes/Configuration what the constructors make of a configuration file's data,
--              which Nodes/Parsing has from lib/src/util/lnx_parser/parse_lnx.cpp; Nodes/Files is
--              the loop of `tcpRecvFile`.
--   Tcp        the transport layer:
--     Intervals       lib/include/tcp/intervals.hpp: the set of early arrivals.
--     Ring            lib/include/tcp/buffers.hpp, `RingBuffer`, under the next two.
--     SendBuffer      the same file, `SendBuffer`: una <= nxt <= nbw, and zero window probing.
--     RecvBuffer      the same file, `RecvBuffer`: reassembly, which uses Intervals.
--     Transfer        a SendBuffer at one end and a RecvBuffer at the other, over a bad network.
--     Retransmission  lib/include/tcp/retransmission_queue.hpp, which SendBuffer owns.
--     Packet          lib/include/tcp/packet.hpp, session_tuple.hpp: the fields of a packet.
--     Wire            lib/include/tcp/util.hpp and packet.hpp: the checksum and the bytes of a packet.
--     States          lib/include/tcp/states.hpp, lib/src/tcp/states.cpp: states and events.
--     Sockets         lib/include/tcp/sockets.hpp: a socket owns one buffer of each kind.
--     Handlers        lib/src/tcp/tcp_stack.cpp: what a packet does to a socket.
--     Connections     lib/include/tcp/tcp_stack.hpp: opening and closing connections.
--     Listeners       lib/src/tcp/sockets.cpp: a listen socket, its pending list and accept queue.
--     Stack           lib/include/tcp/tcp_stack.hpp: the table of sockets; Stack/Calls is its calls by
--                     id, Stack/Packets what it does with a datagram that a node delivers to it.
--
-- An object's state is a record, and an operation a function from the state to a result and a
-- state. An operation under a mutex is one step, and so is a round of a socket's thread; a wait on
-- a condition variable is the outcome `waits`, and another thread's step may come before the call
-- is made again. What goes to other objects is a list of effects. A failed assertion or an
-- exception is `none`. Times are arguments.
--
-- Bounds. Machine words wrap as in C++. A theorem that needs sequence numbers not to wrap says so: the
-- program compares them as plain integers. The buffer capacity is a parameter (65535 in the program).
-- Loops are recursions over a list or a count. Two run on a number of rounds that is proved enough:
-- that which removes stale routes, as many as there are routes, and that which measures a mask, 32. Of
-- a loop that waits, such as that of `write`, one round is modelled, and Run makes any sequence of
-- rounds.
--
-- Not modelled: sockets of the operating system, threads, text input and output with
-- lnxconfig_parse, which reads configuration files, and the text of addresses, the programs of
-- app/, and the copy of tl::expected; and so far tcpSendFile, and what tcpRecvFile does before and
-- after its loop.
pub mod Common
pub mod Ip
pub mod Nodes
pub mod Tcp
