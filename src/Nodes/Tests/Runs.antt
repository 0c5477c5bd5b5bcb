-- ===== src/Nodes/Tests/Runs.antt =====
-- The theorems on the use of nodes at a router that learns a route and brings an interface down.
use tns.Common.{
  ◌≡◌, refl, true, false, some, none, List, ℕ, [], ◌∷◌, find, emplace, sym, subst, All, arith,
}
use tns.Ip.Address.{Ipv4Address, same_address, less_address, hton16, hton32}
use tns.Ip.Rip.{parse_message, parse_entries, load16, load32, make_message}
use tns.Ip.Routing.{
  TableEntry, local, rip, same_subnet, is_longer, longest_prefix_from, query_longest_prefix_match,
  is_entry_for, find_entry, handle_rip_entry, handle_rip_loop, handle_rip_entries, repeat_from,
}
use tns.Ip.Routing.Upkeep.{add_entry}
use tns.Nodes.{NetworkInterface, NetworkNode}
use tns.Nodes.Configuration.{
  InterfaceData, read_neighbors, insert_address, sort_addresses, make_interface, register,
  add_interface, add_interfaces, initialize, read_addresses, make_router,
}
use tns.Nodes.Configured.{IsConfigured}
use tns.Nodes.Router.{
  rip_protocol_handler, handle_rip_message, learn_response, broadcast_if_any, broadcast_rip_message,
  switch_interface, turn,
}
use tns.Nodes.Runs.{IsMade, made_router, Run, step, stop, message, switches, Run-IsConfigured}
use tns.Nodes.Safety.{IsDirect, GoesThrough, Run-GoesThrough}

abbrev address : ℕ → Ipv4Address
address a = record { addr = a; port = 0 }

-- 10.0.0.2/24 with the neighbour 10.0.0.1, and 10.1.0.2/24 with 10.1.0.3 and 10.1.0.1.
abbrev near : InterfaceData
near = record {
  name = "if0";
  subnet = some (address 0x0200000a, 0xffffff00);
  ip_addrs = some (address 0x0100000a) ∷ [];
  udp_ports = 5000 ∷ [];
  udp_addrs = some 0x0100007f ∷ [];
}

abbrev far : InterfaceData
far = record {
  name = "if1";
  subnet = some (address 0x0200010a, 0xffffff00);
  ip_addrs = some (address 0x0300010a) ∷ some (address 0x0100010a) ∷ [];
  udp_ports = 5001 ∷ 5002 ∷ [];
  udp_addrs = some 0x0100007f ∷ some 0x0100007f ∷ [];
}

abbrev on_link : Ipv4Address → ℕ → TableEntry
on_link subnet i = record {
  type = local;
  addr = subnet;
  mask = 0xffffff00;
  gateway = none;
  interface = some i;
  metric = some 0;
  last_refresh = 1;
}

-- 10.2.0.0/24 over 10.0.0.1, at the cost told, 1, and one more.
abbrev learned : TableEntry
learned = record {
  type = rip;
  addr = address 0x0000020a;
  mask = 0xffffff00;
  gateway = some (address 0x0100000a);
  interface = none;
  metric = some 2;
  last_refresh = 2;
}

abbrev router : List NetworkInterface → List TableEntry → NetworkNode
router interfaces learned = record {
  interfaces = interfaces;
  interfaces_by_addr = (address 0x0200010a, 1) ∷ (address 0x0200000a, 0) ∷ [];
  interfaces_by_name = ("if1", 1) ∷ ("if0", 0) ∷ [];
  entries = on_link (address 0x0200000a) 0 ∷ on_link (address 0x0200010a) 1 ∷ learned;
}

abbrev near_interface : NetworkInterface
near_interface = record {
  name = "if0";
  ip_address = address 0x0200000a;
  neighbors = address 0x0100000a ∷ [];
  is_up = true;
}

abbrev far_interface : NetworkInterface
far_interface = record {
  name = "if1";
  ip_address = address 0x0200010a;
  neighbors = address 0x0100010a ∷ address 0x0300010a ∷ [];
  is_up = true;
}

abbrev first : NetworkNode
first = router (near_interface ∷ far_interface ∷ []) []

abbrev last : NetworkNode
last = router (near_interface ∷ record far_interface { is_up = false } ∷ []) (learned ∷ [])

made : IsMade [] first
unfolding make_router initialize add_interfaces add_interface make_interface read_neighbors
    sort_addresses insert_address register add_entry read_addresses find emplace same_address
    less_address hton16 hton32
made = made_router 1 (near ∷ far ∷ []) [] refl

abbrev told : List ℕ
told = 0 ∷ 2 ∷ 0 ∷ 1 ∷ 0 ∷ 0 ∷ 0 ∷ 1 ∷ 10 ∷ 2 ∷ 0 ∷ 0 ∷ 255 ∷ 255 ∷ 255 ∷ 0 ∷ []

used : Run [] first last
unfolding rip_protocol_handler parse_message parse_entries load16 load32 make_message
    handle_rip_message learn_response broadcast_if_any broadcast_rip_message handle_rip_entries
    handle_rip_loop handle_rip_entry find_entry is_entry_for repeat_from switch_interface turn find
    hton16 hton32
used = step (message (address 0x0100000a) told 2 [] refl) (step (switches false "if1" refl) stop)

gateway_on_link :
    (hop : TableEntry)
    → query_longest_prefix_match last.entries (address 0x0100000a) ≡ some hop
    → hop.gateway ≡ none
unfolding query_longest_prefix_match longest_prefix_from same_subnet is_longer hton32
gateway_on_link hop q = ground (arith, q)

direct : All (IsDirect last.entries) last.entries
direct = (
  (λ g hop p q. absurd (ground (arith, p))),
  (
    (λ g hop p q. absurd (ground (arith, p))),
    (
      (λ g hop p q.
          let same : address 0x0100000a ≡ g = ground (arith, p) in
          gateway_on_link hop
            (subst (λ a. query_longest_prefix_match last.entries a ≡ some hop) (sym same) q)),
      tt,
    ),
  ),
)

Run-IsConfigured_example : IsConfigured last
Run-IsConfigured_example = Run-IsConfigured [] first last made used

Run-GoesThrough_example : GoesThrough last
Run-GoesThrough_example = Run-GoesThrough [] first last made used direct
