-- ===== src/Nodes/Parsed.antt =====
-- What the interfaces are that a configuration file gives a node.
use Prim.Native.String.{String}
use mathlib.Core.List.{append-nil}
use tns.Common.{
  ℕ, ◌^◌, ◌<◌, ◌≤◌, ◌≡◌, refl, sym, ◌∙◌, true, Option, some, List, [], ◌∷◌, ◌++◌, find, map,
  map_option, arith, All,
}
use tns.Ip.Address.{Ipv4Address}
use tns.Ip.Datagram.{mask_of_length}
use tns.Nodes.{NetworkInterface, string_eq}
use tns.Nodes.Configuration.{InterfaceData, read_neighbors, sort_addresses, make_interface}
use tns.Nodes.Parsing.{
  pos, ConfigInterface, ConfigNeighbor, NeighborMaps, parse_cidr, at_name, create_neighbor,
  create_neighbors, create_interface, create_interfaces,
}
use tns.Nodes.Collected.{
  neighbors_of, at_name-emplace, All-neighbors_of, length-map, make_interface-some, grown,
}

-- Numbers that fit an `in_addr`, and a prefix length that is one.
abbrev pub FitsNeighbor : ConfigNeighbor → Type 0
FitsNeighbor n = (n.dest_addr < 2 ^ 32) × (n.udp_addr < 2 ^ 32)

abbrev pub FitsInterface : ConfigInterface → Type 0
FitsInterface c = (c.assigned_ip < 2 ^ 32) × ((len : ℕ) × (c.prefix_len ≡ pos len) × (len ≤ 32))

abbrev pub address : ℕ → Ipv4Address
address a = record { addr = a; port = 0 }

-- The interface that a configuration describes.
unfoldable pub described : List ConfigNeighbor → ConfigInterface → NetworkInterface
unfolding neighbors_of
described ns c = record {
  name = c.name;
  ip_address = address c.assigned_ip;
  neighbors = sort_addresses (map (λ n. address n.dest_addr) (neighbors_of c.name ns));
  is_up = true;
}

-- The interfaces that the constructor makes of the data of a list.
unfoldable pub Makes : List InterfaceData → List NetworkInterface → Type 0
Makes [] [] = Unit
Makes (d ∷ ds) (f ∷ fs) = (make_interface d ≡ some f) × Makes ds fs
Makes _ _ = ⊥

module _ (Text : Type 0) (inet_ntop : ℕ → Text) (inet_aton : Text → Option Ipv4Address)
    (reads_back : (a : ℕ) → a < 2 ^ 32 → inet_aton (inet_ntop a) ≡ some (address a)) where
  -- Each vector has got what is of its name, behind what it had.
  record Grown (ns : List ConfigNeighbor) (m m' : NeighborMaps Text) : Type 0 where
    ips :
        (name : String)
        → at_name name m'.ip_addrs
          ≡ at_name name m.ip_addrs ++ map (λ n. inet_ntop n.dest_addr) (neighbors_of name ns)
    ports :
        (name : String)
        → at_name name m'.udp_ports
          ≡ at_name name m.udp_ports ++ map (λ n. n.udp_port) (neighbors_of name ns)
    udps :
        (name : String)
        → at_name name m'.udp_addrs
          ≡ at_name name m.udp_addrs ++ map (λ n. inet_ntop n.udp_addr) (neighbors_of name ns)

  create_neighbors-Grown :
      (ns : List ConfigNeighbor) (m : NeighborMaps Text)
      → Grown ns m (create_neighbors Text inet_ntop inet_aton ns m)
  unfolding create_neighbors create_neighbor neighbors_of
  create_neighbors-Grown [] m = record {
    ips = λ name. sym (append-nil (at_name name m.ip_addrs));
    ports = λ name. sym (append-nil (at_name name m.udp_ports));
    udps = λ name. sym (append-nil (at_name name m.udp_addrs));
  }
  create_neighbors-Grown (n ∷ ns) m =
      let g = create_neighbors-Grown ns (create_neighbor Text inet_ntop inet_aton n m) in
      record {
        ips = λ name. g.ips name ∙ grown (λ n. inet_ntop n.dest_addr) name n ns m.ip_addrs;
        ports = λ name. g.ports name ∙ grown (λ n. n.udp_port) name n ns m.udp_ports;
        udps = λ name. g.udps name ∙ grown (λ n. inet_ntop n.udp_addr) name n ns m.udp_addrs;
      }

  -- The maps hold the neighbours of a configuration.
  pub record Holds (ns : List ConfigNeighbor) (m : NeighborMaps Text) : Type 0 where
    pub ips :
        (name : String)
        → at_name name m.ip_addrs ≡ map (λ n. inet_ntop n.dest_addr) (neighbors_of name ns)
    pub ports :
        (name : String) → at_name name m.udp_ports ≡ map (λ n. n.udp_port) (neighbors_of name ns)
    pub udps :
        (name : String)
        → at_name name m.udp_addrs ≡ map (λ n. inet_ntop n.udp_addr) (neighbors_of name ns)

  -- The maps of the first call, which start empty.
  pub create_neighbors-Holds :
      (ns : List ConfigNeighbor)
      → Holds ns (
          create_neighbors Text inet_ntop inet_aton ns
            (record { ip_addrs = []; udp_ports = []; udp_addrs = [] }))
  unfolding at_name find
  create_neighbors-Holds ns =
      let g =
        create_neighbors-Grown ns (record { ip_addrs = []; udp_ports = []; udp_addrs = [] }) in
      record { ips = g.ips; ports = g.ports; udps = g.udps }

  read_neighbors-map :
      (ns : List ConfigNeighbor)
      → All FitsNeighbor ns
      → read_neighbors (map inet_aton (map (λ n. inet_ntop n.dest_addr) ns)) (
          map
            (λ text. map_option (λ a. a.addr) (inet_aton text))
            (map (λ n. inet_ntop n.udp_addr) ns))
        ≡ some (map (λ n. address n.dest_addr) ns)
  unfolding read_neighbors
  read_neighbors-map [] h = refl
  read_neighbors-map (n ∷ ns) h =
      let d = reads_back n.dest_addr h.0.0 in
      let u = reads_back n.udp_addr h.0.1 in
      let rest = read_neighbors-map ns h.1 in rw (d, u, rest) refl

  -- The data of an interface make what is described.
  create_interface-described :
      (c : ConfigInterface) (ns : List ConfigNeighbor) (m : NeighborMaps Text)
      → FitsInterface c
      → All FitsNeighbor ns
      → Holds ns m
      → make_interface (create_interface Text inet_ntop inet_aton c m).0 ≡ some (described ns c)
  unfolding create_interface parse_cidr described
  create_interface-described c ns m f h hold =
      let (fits, q) = f in
      let (len, is, small) = q in
      let mine = neighbors_of c.name ns in
      let ips = hold.ips c.name in
      let udps = hold.udps c.name in
      let ports = hold.ports c.name in
      make_interface-some (create_interface Text inet_ntop inet_aton c m).0 (address c.assigned_ip)
        (mask_of_length len) (map (λ n. address n.dest_addr) mine)
        (ground (arith, reads_back c.assigned_ip fits, is))
        (rw (ips, ports)
          (length-map inet_aton (map (λ n. inet_ntop n.dest_addr) mine)
            ∙ length-map (λ n. inet_ntop n.dest_addr) mine
            ∙ sym (length-map (λ n. n.udp_port) mine)))
        (rw (ips, udps)
          (length-map inet_aton (map (λ n. inet_ntop n.dest_addr) mine)
            ∙ length-map (λ n. inet_ntop n.dest_addr) mine
            ∙ sym (
                length-map (λ text. map_option (λ a. a.addr) (inet_aton text))
                  (map (λ n. inet_ntop n.udp_addr) mine)
                ∙ length-map (λ n. inet_ntop n.udp_addr) mine)))
        (rw (ips, udps) (read_neighbors-map mine (All-neighbors_of FitsNeighbor c.name ns h)))

  Holds-create_interface :
      (c : ConfigInterface) (ns : List ConfigNeighbor) (m : NeighborMaps Text)
      → Holds ns m
      → Holds ns (create_interface Text inet_ntop inet_aton c m).1
  unfolding create_interface
  Holds-create_interface c ns m h = record {
    ips = λ name. at_name-emplace name c.name m.ip_addrs ∙ h.ips name;
    ports = λ name. at_name-emplace name c.name m.udp_ports ∙ h.ports name;
    udps = λ name. at_name-emplace name c.name m.udp_addrs ∙ h.udps name;
  }

  pub create_interfaces-Makes :
      (cs : List ConfigInterface) (ns : List ConfigNeighbor) (m : NeighborMaps Text)
      → All FitsInterface cs
      → All FitsNeighbor ns
      → Holds ns m
      → Makes (create_interfaces Text inet_ntop inet_aton cs m).0 (map (described ns) cs)
  unfolding create_interfaces Makes
  create_interfaces-Makes [] ns m f g h = tt
  create_interfaces-Makes (c ∷ cs) ns m f g h = (
    create_interface-described c ns m f.0 g h,
    create_interfaces-Makes cs ns (create_interface Text inet_ntop inet_aton c m).1 f.1 g
        (Holds-create_interface c ns m h),
  )
