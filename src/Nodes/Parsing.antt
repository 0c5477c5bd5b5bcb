-- ===== src/Nodes/Parsing.antt =====
-- lib/src/util/lnx_parser/parse_lnx.cpp: the data of a node from a configuration that `lnxconfig_parse`
-- has read (`none` where it returns null), and `parseCidr` of lib/src/ip/util.cpp on a text made of an
-- address and a number. The texts of addresses are those of a library, a parameter here.
use Prim.Native.String.{String}
use tns.Common.{
  ℕ, Option, none, some, List, [], ◌∷◌, ◌++◌, ltb, if◌then◌else◌, ◌>>=◌, Map, find, emplace, modify,
  map, map_option,
}
use tns.Ip.Address.{Ipv4Address}
use tns.Ip.Datagram.{mask_of_length}
use tns.Nodes.{string_eq}
use tns.Nodes.Configuration.{InterfaceData}

-- An `int`.
pub data ℤ : Type 0 where
  pos negsuc : ℕ → ℤ

-- `lnx_interface_t`
pub record ConfigInterface : Type 0 where
  pub name : String
  pub assigned_ip : ℕ
  pub prefix_len : ℤ
  pub udp_addr : ℕ
  pub udp_port : ℕ

-- `lnx_neighbor_t`
pub record ConfigNeighbor : Type 0 where
  pub dest_addr : ℕ
  pub udp_addr : ℕ
  pub udp_port : ℕ
  pub ifname : String

-- `lnx_static_route_t`
pub record ConfigRoute : Type 0 where
  pub network_addr : ℕ
  pub prefix_len : ℤ
  pub next_hop : ℕ

-- `lnxconfig_t`, a RIP neighbour being its address.
pub record Config : Type 0 where
  pub interfaces : List ConfigInterface
  pub neighbors : List ConfigNeighbor
  pub rip_neighbors : List ℕ
  pub static_routes : List ConfigRoute

-- `NetworkNodeData`
pub record NodeData : Type 0 where
  pub interfaces : List InterfaceData
  pub routes : List (Option (Ipv4Address × ℕ) × Option Ipv4Address)
  pub rip_neighbors : List (Option Ipv4Address)

-- The three static maps `ifaceNameTo...`, over the texts of addresses.
pub record NeighborMaps (Text : Type 0) : Type 0 where
  pub ip_addrs : Map String (List Text)
  pub udp_ports : Map String (List ℕ)
  pub udp_addrs : Map String (List Text)

-- The end of `parseCidr`, on the address and the number before and after the slash.
unfoldable pub parse_cidr : Option Ipv4Address → ℤ → Option (Ipv4Address × ℕ)
parse_cidr none len = none
parse_cidr (some a) (negsuc len) = none
parse_cidr (some a) (pos len) = if ltb 32 len then none else some (a, mask_of_length len)

-- An element put at the end of the vector of a name, which is made if there is none.
unfoldable pub push_back {ℓ} : {A : Type ℓ} → String → A → Map String (List A) → Map String (List A)
push_back name x m = modify name (λ xs. xs ++ x ∷ []) (emplace name [] m)

-- What `operator[]` finds, in the map that it leaves.
unfoldable pub at_name {ℓ} : {A : Type ℓ} → String → Map String (List A) → List A
at_name name m = elim (find name m) [ none ↦ [] | some xs ↦ xs ]

module _ (Text : Type 0) (inet_ntop : ℕ → Text) (inet_aton : Text → Option Ipv4Address) where
  unfoldable pub create_neighbor : ConfigNeighbor → NeighborMaps Text → NeighborMaps Text
  unfolding push_back
  create_neighbor n m = record {
    ip_addrs = push_back n.ifname (inet_ntop n.dest_addr) m.ip_addrs;
    udp_addrs = push_back n.ifname (inet_ntop n.udp_addr) m.udp_addrs;
    udp_ports = push_back n.ifname n.udp_port m.udp_ports;
  }

  unfoldable pub create_neighbors : List ConfigNeighbor → NeighborMaps Text → NeighborMaps Text
  unfolding create_neighbor
  create_neighbors [] m = m
  create_neighbors (n ∷ ns) m = create_neighbors ns (create_neighbor n m)

  unfoldable pub create_interface :
      ConfigInterface → NeighborMaps Text → InterfaceData × NeighborMaps Text
  unfolding at_name parse_cidr
  create_interface c m = (
    record {
      name = c.name;
      subnet = parse_cidr (inet_aton (inet_ntop c.assigned_ip)) c.prefix_len;
      ip_addrs = map inet_aton (at_name c.name m.ip_addrs);
      udp_ports = at_name c.name m.udp_ports;
      udp_addrs =
          map (λ text. map_option (λ a. a.addr) (inet_aton text)) (at_name c.name m.udp_addrs);
    },
    record {
      ip_addrs = emplace c.name [] m.ip_addrs;
      udp_ports = emplace c.name [] m.udp_ports;
      udp_addrs = emplace c.name [] m.udp_addrs;
    },
  )

  unfoldable pub create_interfaces :
      List ConfigInterface → NeighborMaps Text → List InterfaceData × NeighborMaps Text
  unfolding create_interface
  create_interfaces [] m = ([], m)
  create_interfaces (c ∷ cs) m =
      let (d, m') = create_interface c m in
      let (ds, last) = create_interfaces cs m' in (d ∷ ds, last)

  unfoldable pub create_static_route : ConfigRoute → Option (Ipv4Address × ℕ) × Option Ipv4Address
  unfolding parse_cidr
  create_static_route r = (
    parse_cidr (inet_aton (inet_ntop r.network_addr)) r.prefix_len,
    inet_aton (inet_ntop r.next_hop),
  )

  -- `createRipNeighbor`
  unfoldable pub create_rip_neighbor : ℕ → Option Ipv4Address
  create_rip_neighbor dest = inet_aton (inet_ntop dest)

  -- `parseLnx`, with the static maps that an earlier call has left.
  unfoldable pub parse_lnx :
      Option Config → NeighborMaps Text → Option (NodeData × NeighborMaps Text)
  unfolding create_neighbors create_interfaces create_static_route create_rip_neighbor
  parse_lnx config m = do
    c ← config
    let (ds, last) = create_interfaces c.interfaces (create_neighbors c.neighbors m)
    some (
      record {
        interfaces = ds;
        routes = map create_static_route c.static_routes;
        rip_neighbors = map create_rip_neighbor c.rip_neighbors;
      },
      last,
    )
