-- ===== src/Nodes/Made.antt =====
-- A node that is made of a configuration file.
use tns.Common.{ℕ, ◌^◌, ◌<◌, ◌≡◌, ◌≢◌, refl, ap, ◌∙◌, Option, none, some, List, [], ◌∷◌, map, All}
use tns.Ip.Address.{Ipv4Address}
use tns.Ip.Routing.{static}
use tns.Ip.Routing.Upkeep.{add_entry}
use tns.Nodes.{NetworkNode, address_eq, string_eq}
use tns.Nodes.Configuration.{add_static_routes, make_host, read_addresses, make_router}
use tns.Nodes.Parsing.{
  Config, ConfigInterface, ConfigRoute, ConfigNeighbor, NeighborMaps, NodeData, parse_cidr,
  parse_lnx, create_neighbors, create_interfaces, create_static_route, create_rip_neighbor,
}
use tns.Nodes.Parsed.{
  FitsNeighbor, FitsInterface, address, described, create_neighbors-Holds, create_interfaces-Makes,
}
use tns.Nodes.Taken.{AreApart, AreAllApart, initialize-taken}

-- Two interfaces of a configuration with another name and address, and a configuration with numbers
-- that fit, where this holds of any two.
abbrev pub AreUnlike : ConfigInterface → ConfigInterface → Type 0
AreUnlike c d = (c.assigned_ip ≢ d.assigned_ip) × (c.name ≢ d.name)

unfoldable pub AreAllUnlike : List ConfigInterface → Type 0
AreAllUnlike [] = Unit
AreAllUnlike (c ∷ cs) = All (λ d. AreUnlike d c) cs × AreAllUnlike cs

pub record IsUsable (c : Config) : Type 0 where
  pub interfaces : All FitsInterface c.interfaces
  pub neighbors : All FitsNeighbor c.neighbors
  pub routes : All (λ r. r.next_hop < 2 ^ 32) c.static_routes
  pub rip_neighbors : All (λ a. a < 2 ^ 32) c.rip_neighbors
  pub unlike : AreAllUnlike c.interfaces

described-apart :
    (ns : List ConfigNeighbor) (c : ConfigInterface) (cs : List ConfigInterface)
    → All (λ d. AreUnlike d c) cs
    → All (λ g. AreApart g (described ns c)) (map (described ns) cs)
unfolding described
described-apart ns c [] h = tt
described-apart ns c (d ∷ cs) h =
    ((λ e. h.0.0 (ap (λ a. a.addr) e), h.0.1), described-apart ns c cs h.1)

described-AreAllApart :
    (ns : List ConfigNeighbor) (cs : List ConfigInterface)
    → AreAllUnlike cs
    → AreAllApart (map (described ns) cs)
unfolding AreAllUnlike AreAllApart
described-AreAllApart ns [] h = tt
described-AreAllApart ns (c ∷ cs) h = (described-apart ns c cs h.0, described-AreAllApart ns cs h.1)

-- The host and the router that are made of the data `d` have the interfaces that the configuration
-- describes, and the router its neighbours.
pub record IsMadeOf (now : ℕ) (c : Config) (d : NodeData) : Type 0 where
  pub host : NetworkNode
  pub host_made : make_host now d.interfaces d.routes ≡ some host
  pub host_interfaces : host.interfaces ≡ map (described c.neighbors) c.interfaces
  pub router : NetworkNode
  pub router_made :
      make_router now d.interfaces d.rip_neighbors ≡ some (router, map address c.rip_neighbors)
  pub router_interfaces : router.interfaces ≡ map (described c.neighbors) c.interfaces

module _ (Text : Type 0) (inet_ntop : ℕ → Text) (inet_aton : Text → Option Ipv4Address)
    (reads_back : (a : ℕ) → a < 2 ^ 32 → inet_aton (inet_ntop a) ≡ some (address a)) where
  add_static_routes-taken :
      (now : ℕ) (rs : List ConfigRoute) (n : NetworkNode)
      → All (λ r. r.next_hop < 2 ^ 32) rs
      → (n' : NetworkNode) × (add_static_routes now
            (map (create_static_route Text inet_ntop inet_aton) rs)
            n
          ≡ some n')
        × (n'.interfaces ≡ n.interfaces)
  unfolding add_static_routes create_static_route
  add_static_routes-taken now [] n h = (n, refl, refl)
  add_static_routes-taken now (r ∷ rs) n h =
      let back = reads_back r.next_hop h.0 in
      let subnet = parse_cidr (inet_aton (inet_ntop r.network_addr)) r.prefix_len in
      let with_route : NetworkNode = record n {
        entries = add_entry static subnet (some (address r.next_hop)) none none now n.entries;
      } in
      let (n1, p, q) = add_static_routes-taken now rs with_route h.1 in (n1, rw back p, q)

  read_addresses-map :
      (addrs : List ℕ)
      → All (λ a. a < 2 ^ 32) addrs
      → read_addresses (map (create_rip_neighbor Text inet_ntop inet_aton) addrs)
        ≡ some (map address addrs)
  unfolding read_addresses create_rip_neighbor
  read_addresses-map [] h = refl
  read_addresses-map (a ∷ addrs) h =
      let back = reads_back a h.0 in let rest = read_addresses-map addrs h.1 in rw (back, rest) refl

  -- Of a configuration whose numbers fit and no two of whose interfaces have one address or one name,
  -- where the static maps are empty and inet_aton reads what inet_ntop writes, parseLnx makes data of
  -- which a host and a router are made: each has, in the order of the configuration, the interfaces
  -- that it describes, each with the neighbours that are named as its own, sorted; and the router has
  -- the neighbours that it is to send RIP messages to.
  pub parse_lnx-IsMadeOf :
      (now : ℕ) (c : Config)
      → IsUsable c
      → (d : NodeData) × (last : NeighborMaps Text) × (parse_lnx Text inet_ntop inet_aton
            (some c)
            (record { ip_addrs = []; udp_ports = []; udp_addrs = [] })
          ≡ some (d, last))
        × IsMadeOf now c d
  unfolding parse_lnx make_host make_router
  parse_lnx-IsMadeOf now c u =
      let m =
        create_neighbors Text inet_ntop inet_aton c.neighbors
          (record { ip_addrs = []; udp_ports = []; udp_addrs = [] }) in
      let (ds, last) = create_interfaces Text inet_ntop inet_aton c.interfaces m in
      let holds = create_neighbors-Holds Text inet_ntop inet_aton reads_back c.neighbors in
      let makes =
        create_interfaces-Makes Text inet_ntop inet_aton reads_back c.interfaces c.neighbors m
          u.interfaces u.neighbors holds in
      let fs = map (described c.neighbors) c.interfaces in
      let (n, p, q) =
        initialize-taken now ds fs makes
          (described-AreAllApart c.neighbors c.interfaces u.unlike) in
      let (n1, r, s) = add_static_routes-taken now c.static_routes n u.routes in
      let told = read_addresses-map c.rip_neighbors u.rip_neighbors in
      (
        record {
          interfaces = ds;
          routes = map (create_static_route Text inet_ntop inet_aton) c.static_routes;
          rip_neighbors = map (create_rip_neighbor Text inet_ntop inet_aton) c.rip_neighbors;
        },
        last,
        refl,
        record {
          host = n1;
          host_made = rw p r;
          host_interfaces = s ∙ q;
          router = n;
          router_made = rw (p, told) refl;
          router_interfaces = q;
        },
      )
