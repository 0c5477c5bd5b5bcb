-- ===== src/Nodes/Configuration.antt =====
-- lib/src/network_node.cpp, `NetworkNode::initialize_`, with the constructors of lib/src/
-- network_interface.cpp and lib/src/host_node.cpp: a node made of the data of its configuration file. The
-- text of an address or a subnet has been read by `inet_aton` or `parseCidr`, with `none` for an error.
-- `none` is an exception of a constructor; the UDP sockets are opened and bound.
use Prim.Native.String.{String}
use tns.Common.{
  ℕ, true, not, ◌||◌, Option, none, some, List, [], ◌∷◌, ◌++◌, ◌==◌, if◌then◌else◌, ◌>>=◌, length,
  is_some, find, emplace,
}
use tns.Ip.Address.{Ipv4Address, less_address}
use tns.Ip.Routing.{local, static}
use tns.Ip.Routing.Upkeep.{add_entry}
use tns.Nodes.{NetworkInterface, NetworkNode, address_eq, string_eq}

-- `ParsedIfaceData`
pub record InterfaceData : Type 0 where
  pub name : String
  pub subnet : Option (Ipv4Address × ℕ)
  pub ip_addrs : List (Option Ipv4Address)
  pub udp_ports : List ℕ
  pub udp_addrs : List (Option ℕ)

-- The loop of the constructor of `NetworkInterface`.
unfoldable pub read_neighbors :
    List (Option Ipv4Address) → List (Option ℕ) → Option (List Ipv4Address)
read_neighbors (ip ∷ ips) (udp ∷ udps) = do
  _ ← udp
  a ← ip
  rest ← read_neighbors ips udps
  some (a ∷ rest)
read_neighbors _ _ = some []

-- `std::sort` by `operator<`.
unfoldable pub insert_address : Ipv4Address → List Ipv4Address → List Ipv4Address
insert_address a [] = a ∷ []
insert_address a (b ∷ others) =
    let rest = insert_address a others in if less_address b a then b ∷ rest else a ∷ b ∷ others

unfoldable pub sort_addresses : List Ipv4Address → List Ipv4Address
unfolding insert_address
sort_addresses [] = []
sort_addresses (a ∷ others) = insert_address a (sort_addresses others)

-- The constructor of `NetworkInterface`.
unfoldable pub make_interface : InterfaceData → Option NetworkInterface
unfolding read_neighbors sort_addresses
make_interface d =
    let made : Option NetworkInterface = do
      subnet ← d.subnet
      neighbors ← read_neighbors d.ip_addrs d.udp_addrs
      some (record {
        name = d.name;
        ip_address = subnet.0;
        neighbors = sort_addresses neighbors;
        is_up = true;
      })
    in if not (length d.ip_addrs == length d.udp_ports)
        || not (length d.ip_addrs == length d.udp_addrs)
      then none
      else made

-- An interface put into the maps and the routing table; its position is the last.
unfoldable pub register : ℕ → InterfaceData → NetworkInterface → NetworkNode → Option NetworkNode
unfolding add_entry
register now d iface n =
    let i = length n.interfaces in
    if is_some (find iface.ip_address n.interfaces_by_addr)
    then none
    else if is_some (find iface.name n.interfaces_by_name)
    then none
    else some (record {
      interfaces = n.interfaces ++ (iface ∷ []);
      interfaces_by_addr = emplace iface.ip_address i n.interfaces_by_addr;
      interfaces_by_name = emplace iface.name i n.interfaces_by_name;
      entries = add_entry local d.subnet none (some i) (some 0) now n.entries;
    })

-- One round of the loop of `initialize_`.
unfoldable pub add_interface : ℕ → InterfaceData → NetworkNode → Option NetworkNode
unfolding make_interface register
add_interface now d n = do iface ← make_interface d; register now d iface n

unfoldable pub add_interfaces : ℕ → List InterfaceData → NetworkNode → Option NetworkNode
unfolding add_interface
add_interfaces now [] n = some n
add_interfaces now (d ∷ ds) n = do n' ← add_interface now d n; add_interfaces now ds n'

unfoldable pub initialize : ℕ → List InterfaceData → Option NetworkNode
unfolding add_interfaces
initialize now ds =
    add_interfaces now ds
      (record { interfaces = []; interfaces_by_addr = []; interfaces_by_name = []; entries = [] })

-- The loop of the constructor of `HostNode`, over subnets and next hops.
unfoldable pub add_static_routes :
    ℕ → List (Option (Ipv4Address × ℕ) × Option Ipv4Address) → NetworkNode → Option NetworkNode
unfolding add_entry
add_static_routes now [] n = some n
add_static_routes now ((subnet, next_hop) ∷ routes) n = do
  gateway ← next_hop
  add_static_routes now routes
      (record n { entries = add_entry static subnet (some gateway) none none now n.entries })

-- `HostNode::HostNode`
unfoldable pub make_host :
    ℕ
    → List InterfaceData
    → List (Option (Ipv4Address × ℕ) × Option Ipv4Address)
    → Option NetworkNode
unfolding initialize add_static_routes
make_host now ds routes = do n ← initialize now ds; add_static_routes now routes n

-- The addresses of the neighbours that `RouterNode::RouterNode` records.
unfoldable pub read_addresses : List (Option Ipv4Address) → Option (List Ipv4Address)
read_addresses [] = some []
read_addresses (text ∷ texts) = do a ← text; rest ← read_addresses texts; some (a ∷ rest)

-- `RouterNode::RouterNode`: the node, and the neighbours that it sends RIP messages to.
unfoldable pub make_router :
    ℕ → List InterfaceData → List (Option Ipv4Address) → Option (NetworkNode × List Ipv4Address)
unfolding initialize read_addresses
make_router now ds rip_neighbors = do
  n ← initialize now ds
  neighbors ← read_addresses rip_neighbors
  some (n, neighbors)
