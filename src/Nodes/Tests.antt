-- ===== src/Nodes/Tests.antt =====
-- The theorems on nodes at a concrete network: two hosts on the two links of a router.
mod Runs
mod Parsing
use tns.Common.{ℕ, ◌≡◌, ◌<◌, ◌^◌, refl, true, none, some, [], ◌∷◌, arith, find}
use tns.Ip.Address.{Ipv4Address, same_address, less_address, hton16, hton32}
use tns.Ip.Routing.{
  local, static, TableEntry, query_routing_table, query_longest_prefix_match, longest_prefix_from,
  same_subnet, is_longer,
}
use tns.Nodes.{NetworkInterface, NetworkNode, find_next_hop, lower_bound, is_my_ip_address}
use tns.Nodes.NextHop.{FitsAddress, IsSorted, look_up, find_next_hop-look_up}
use tns.Nodes.Path.{Routes, Arrives, send_ip-Arrives}

abbrev address : ℕ → Ipv4Address
address a = record { addr = a; port = 0 }

-- 10.0.0.1, the router's 10.0.0.2 and 10.1.0.2, and 10.1.0.1.
abbrev first_host : Ipv4Address
first_host = address 0x0100000a

abbrev router_near : Ipv4Address
router_near = address 0x0200000a

abbrev router_far : Ipv4Address
router_far = address 0x0200010a

abbrev second_host : Ipv4Address
second_host = address 0x0100010a

abbrev on_link : Ipv4Address → ℕ → TableEntry
on_link subnet i = record {
  type = local;
  addr = subnet;
  mask = 0xffffff00;
  gateway = none;
  interface = some i;
  metric = some 0;
  last_refresh = 0;
}

abbrev default_route : TableEntry
default_route = record {
  type = static;
  addr = address 0;
  mask = 0;
  gateway = some router_near;
  interface = none;
  metric = none;
  last_refresh = 0;
}

abbrev host_interface : NetworkInterface
host_interface = record {
  name = "if0";
  ip_address = first_host;
  neighbors = router_near ∷ [];
  is_up = true;
}

abbrev near : NetworkInterface
near = record { name = "if0"; ip_address = router_near; neighbors = first_host ∷ []; is_up = true }

abbrev far : NetworkInterface
far = record { name = "if1"; ip_address = router_far; neighbors = second_host ∷ []; is_up = true }

abbrev end_interface : NetworkInterface
end_interface = record {
  name = "if0";
  ip_address = second_host;
  neighbors = router_far ∷ [];
  is_up = true;
}

abbrev host : NetworkNode
host = record {
  interfaces = host_interface ∷ [];
  interfaces_by_addr = (first_host, 0) ∷ [];
  interfaces_by_name = ("if0", 0) ∷ [];
  entries = on_link (address 0x0000000a) 0 ∷ default_route ∷ [];
}

abbrev router : NetworkNode
router = record {
  interfaces = near ∷ far ∷ [];
  interfaces_by_addr = (router_near, 0) ∷ (router_far, 1) ∷ [];
  interfaces_by_name = ("if0", 0) ∷ ("if1", 1) ∷ [];
  entries = on_link (address 0x0000000a) 0 ∷ on_link (address 0x0000010a) 1 ∷ [];
}

host_routes : Routes host second_host
unfolding query_routing_table query_longest_prefix_match longest_prefix_from same_subnet is_longer
    find_next_hop lower_bound is_my_ip_address find same_address less_address hton16 hton32
host_routes = record {
  i = 0;
  iface = host_interface;
  hop = router_near;
  not_mine = refl;
  route = refl;
  there = refl;
  is_up = refl;
  on_link = refl;
}

router_routes : Routes router second_host
unfolding query_routing_table query_longest_prefix_match longest_prefix_from same_subnet is_longer
    find_next_hop lower_bound is_my_ip_address find same_address less_address hton16 hton32
router_routes = record {
  i = 1;
  iface = far;
  hop = second_host;
  not_mine = refl;
  route = refl;
  there = refl;
  is_up = refl;
  on_link = refl;
}

send_ip-Arrives_example : Arrives host router near end_interface second_host (104 ∷ 105 ∷ []) 0
unfolding host_routes
send_ip-Arrives_example =
    send_ip-Arrives host router near end_interface (104 ∷ 105 ∷ []) 0 host_routes router_routes refl
      refl refl (omega arith) (omega arith) (omega arith) (omega arith)

fits : (a : ℕ) → a < 2 ^ 32 → FitsAddress (address a)
fits a h = record { addr = h; port = omega arith }

sorted : IsSorted (first_host ∷ router_near ∷ [])
unfolding IsSorted less_address hton16 hton32
sorted = ((refl, tt), (tt, tt))

find_next_hop-look_up_example :
    find_next_hop router_near (first_host ∷ router_near ∷ [])
    ≡ look_up router_near (first_host ∷ router_near ∷ [])
find_next_hop-look_up_example =
    find_next_hop-look_up router_near (first_host ∷ router_near ∷ [])
      (fits 0x0200000a (omega arith))
      (fits 0x0100000a (omega arith), (fits 0x0200000a (omega arith), tt)) sorted
