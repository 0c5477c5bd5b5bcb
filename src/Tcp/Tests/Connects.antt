-- ===== src/Tcp/Tests/Connects.antt =====
-- The theorem on a connection between two stacks, at two new ones.
use tns.Common.{ℕ, ◌≡◌, refl, false, some, List, [], ◌∷◌, arith, emplace, find}
use tns.Ip.Address.{Ipv4Address, hton16}
use tns.Ip.Datagram.{IpHeader}
use tns.Tcp.SocketError.{value}
use tns.Tcp.States.{State}
use tns.Tcp.Listeners.{ListenSocket, make_listener}
use tns.Tcp.Stack.{listener, TcpStack, iota, make_stack, get_next_socket_id, create_listen_socket}
use tns.Tcp.Stack.Calls.{v_listen}
use tns.Tcp.Stack.Packets.{Fresh}
use tns.Tcp.Stack.Invariant.{IsValid}
use tns.Tcp.Stack.Runs.{here, next, listens, Run-IsValid}
use tns.Tcp.Stack.Connecting.{Connected, connect_accept, AreConnected, connect_accept-AreConnected}

abbrev server : Ipv4Address
server = record { addr = 0x0200000a; port = 0x901f }

abbrev zeros : List ℕ
zeros = 0 ∷ 0 ∷ 0 ∷ 0 ∷ []

abbrev client_fresh : Fresh
client_fresh = record { send_array = zeros; recv_array = zeros; isn = 100 }

abbrev server_fresh : Fresh
server_fresh = record { send_array = zeros; recv_array = zeros; isn = 200 }

abbrev header : IpHeader
header = record {
  ihl = 5;
  version = 4;
  tos = 0;
  tot_len = 0x2800;
  id = 0;
  frag_off = 0;
  ttl = 15;
  protocol = 6;
  check = 0;
  saddr = 0;
  daddr = 0;
}

-- A stack that listens on port 8080.
abbrev listening_socket : ListenSocket
listening_socket = record {
  id = 1;
  port = 8080;
  state = State.listen;
  pending = [];
  accept_queue = [];
  closed = false;
}

abbrev listening : TcpStack
listening = record {
  socket_table = (1, listener listening_socket) ∷ [];
  session_to_socket = [];
  port_to_listen_socket = (8080, 1) ∷ [];
  free_socket_ids = iota 2 127;
}

make_stack-listens : v_listen 8080 make_stack ≡ some (value 1, listening)
unfolding v_listen create_listen_socket get_next_socket_id make_stack iota emplace find
    make_listener
make_stack-listens = refl

listening-IsValid : IsValid listening
listening-IsValid =
    Run-IsValid 4 listening (next here (listens 8080 (value 1, listening) make_stack-listens))

make_stack-free : make_stack.free_socket_ids ≡ 1 ∷ iota 2 127
unfolding make_stack iota
make_stack-free = refl

listening-free : listening.free_socket_ids ≡ 2 ∷ iota 3 126
unfolding iota
listening-free = refl

connect_accept-AreConnected_example :
    (done : Connected) × (connect_accept 4 client_fresh server_fresh header 0x0100000a 80 server 1 5
        make_stack listening
      ≡ some done)
    × AreConnected 4 100 200 1 2 done
unfolding make_stack find hton16
connect_accept-AreConnected_example =
    connect_accept-AreConnected 4 client_fresh server_fresh header 0x0100000a 80 server 5 make_stack
      listening listening_socket 1 2 (iota 2 127) (iota 3 126) (omega arith) (omega arith)
      (omega arith) (omega arith) (omega arith) (omega arith) (omega arith)
      (Run-IsValid 4 make_stack here) refl make_stack-free listening-IsValid refl listening-free
      refl refl refl refl refl
