-- ===== src/Nodes.antt =====
-- lib/src/network_interface.cpp, lib/src/network_node.cpp, lib/src/router_node.cpp and
-- lib/src/host_node.cpp: what a node does with a datagram and with its interfaces. What it puts on its
-- links is a list of frames, in order. `none` is the use of an iterator that is `end()`, or an
-- exception that no caller catches.
pub mod Router
mod Tests
pub mod NextHop
pub mod Path
pub mod Configuration
pub mod Sorting
pub mod Parsing
pub mod Collected
pub mod Parsed
pub mod Configured
pub mod Taken
pub mod Made
pub mod Changes
pub mod Runs
pub mod Safety
pub mod Files
pub mod Receiving
use Prim.Native.String.{String}
use text.Mathlib.Text.{◌==◌ as str_eq}
use text.Mathlib.TextEquality.{eq_iff}
use tns.Common.{
  ℕ, ◌+◌, ◌^◌, Bool, true, false, not, Option, none, some, List, [], ◌∷◌, ◌++◌, ◌==◌, if◌then◌else◌,
  ◌>>=◌, get_elem?, set, length, Map, Eq, find, is_some,
}
use tns.Ip.Address.{Ipv4Address, same_address, less_address, same_address_iff}
use tns.Ip.Datagram.{
  Datagram, make_datagram, update_checksum, wire, Received, datagram, recv_datagram,
}
use tns.Ip.Rip.{RipMessage, request, response, make_message, parse_message, message_payload}
use tns.Ip.Routing.{TableEntry, query_routing_table, handle_rip_entries}
use tns.Ip.Routing.Upkeep.{
  generate_rip_entries, enable_local_route, disable_local_route, remove_stale_rip_entries,
}

instance abbrev pub address_eq : Eq Ipv4Address
address_eq = record { same = same_address; same_iff = same_address_iff }

instance abbrev pub string_eq : Eq String
string_eq = record { same = str_eq; same_iff = eq_iff }

-- `NetworkInterface`, its neighbours by their addresses.
pub record NetworkInterface : Type 0 where
  pub name : String
  pub ip_address : Ipv4Address
  pub neighbors : List Ipv4Address
  pub is_up : Bool

-- The lower bound of `std::equal_range`, and what follows it, in a sorted range.
unfoldable pub lower_bound : Ipv4Address → List Ipv4Address → List Ipv4Address
lower_bound addr [] = []
lower_bound addr (a ∷ others) =
    let rest = lower_bound addr others in if less_address a addr then rest else a ∷ others

-- `findNextHopInterface`: the range is empty if its first element is greater.
unfoldable pub find_next_hop : Ipv4Address → List Ipv4Address → Option Ipv4Address
unfolding lower_bound
find_next_hop addr neighbors = elim (lower_bound addr neighbors) [
  | [] ↦ none
  | a ∷ rest ↦ if less_address addr a then none else some a
]

-- What a link takes: the interface it leaves by, the neighbour, and the bytes.
pub record Frame : Type 0 where
  pub interface : ℕ
  pub neighbor : Ipv4Address
  pub bytes : List ℕ

-- `sendDatagram` of the interface `i`.
unfoldable pub send_datagram : ℕ → NetworkInterface → Datagram → Ipv4Address → List Frame
unfolding find_next_hop
send_datagram i iface d next_hop =
    let sent : List Frame = elim (find_next_hop next_hop iface.neighbors) [
      | none ↦ []
      | some a ↦ record { interface = i; neighbor = a; bytes = wire d } ∷ []
    ] in
    if iface.is_up then sent else []

-- `NetworkInterface::recvDatagram`: the datagram that is submitted to the node.
unfoldable pub receive : NetworkInterface → List ℕ → Option (Option Datagram)
receive iface bytes = do
  r ← recv_datagram bytes
  elim r [ datagram d ↦ some (if iface.is_up then some d else none) | _ ↦ some none ]

pub record NetworkNode : Type 0 where
  pub interfaces : List NetworkInterface
  pub interfaces_by_addr : Map Ipv4Address ℕ
  pub interfaces_by_name : Map String ℕ
  pub entries : List TableEntry

unfoldable pub is_my_ip_address : NetworkNode → Ipv4Address → Bool
is_my_ip_address n addr = is_some (find addr n.interfaces_by_addr)

-- What comes of a datagram: it is given to the handler of its protocol, or frames are sent.
pub data Handled : Type 0 where
  local_delivery : Datagram → Handled
  -- `throws` is the exception of the constructor of `Datagram`.
  unreachable discarded throws : Handled
  sends : List Frame → Handled

-- The end of `forwardDatagram_`: out by the interface of a query's result.
unfoldable pub send_out : NetworkNode → Option ℕ → Datagram → Ipv4Address → Option Handled
unfolding send_datagram
send_out n interface d next_hop = do
  i ← interface
  iface ← get_elem? n.interfaces i
  some (sends (send_datagram i iface d next_hop))

-- `Ipv4Address::LOCALHOST()`, 127.0.0.1.
abbrev pub localhost : Ipv4Address
localhost = record { addr = 0x0100007f; port = 0 }

-- `sendIp_`, its datagram made for the interface that it leaves by.
unfoldable pub send_ip : NetworkNode → Ipv4Address → List ℕ → ℕ → Option Handled
unfolding is_my_ip_address send_datagram
send_ip n dest payload protocol =
    let own : Option Handled = elim (make_datagram localhost dest payload protocol) [
      | none ↦ some throws
      | some d ↦ some (local_delivery d)
    ] in
    let out : Option Handled = elim (query_routing_table n.entries dest) [
      | none ↦ some unreachable
      | some (interface, next_hop) ↦ do
        i ← interface
        iface ← get_elem? n.interfaces i
        elim (make_datagram iface.ip_address dest payload protocol) [
          | none ↦ some throws
          | some d ↦ some (sends (send_datagram i iface d next_hop))
        ]
    ] in
    if is_my_ip_address n dest then own else out

-- `RouterNode::forwardDatagram_`
unfoldable pub forward_datagram : NetworkNode → Datagram → Option Handled
unfolding send_out
forward_datagram n d =
    let dest : Ipv4Address = record { addr = d.header.daddr; port = 0 } in
    elim (query_routing_table n.entries dest) [
      | none ↦ some unreachable
      | some (interface, next_hop) ↦ send_out n interface d next_hop
    ]

-- `RouterNode::datagramHandler_`
unfoldable pub router_datagram_handler : NetworkNode → Datagram → Option Handled
unfolding is_my_ip_address forward_datagram
router_datagram_handler n d =
    if is_my_ip_address n (record { addr = d.header.daddr; port = 0 })
    then some (local_delivery d)
    else forward_datagram n (update_checksum d)

-- `HostNode::datagramHandler_`, for the address of the interface that the datagram came by.
unfoldable pub host_datagram_handler : Ipv4Address → Datagram → Handled
host_datagram_handler interface_addr d =
    if same_address interface_addr (record { addr = d.header.daddr; port = 0 })
    then local_delivery d
    else discarded
