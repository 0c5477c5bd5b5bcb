-- ===== src/Nodes/Tests/Parsing.antt =====
-- The theorem on configuration files at a router with two interfaces.
use text.Mathlib.TextEquality.{eq_iff}
use tns.Common.{ℕ, ◌≡◌, refl, some, [], ◌∷◌, arith}
use tns.Nodes.Parsing.{
  pos, ConfigInterface, ConfigNeighbor, Config, NodeData, NeighborMaps, parse_lnx,
}
use tns.Nodes.Parsed.{address}
use tns.Nodes.Made.{AreAllUnlike, IsUsable, IsMadeOf, parse_lnx-IsMadeOf}

-- 10.0.0.2/24 with the neighbour 10.0.0.1, 10.1.0.2/24 with 10.1.0.3 and 10.1.0.1, and a route.
abbrev near : ConfigInterface
near = record {
  name = "if0";
  assigned_ip = 0x0200000a;
  prefix_len = pos 24;
  udp_addr = 0x0100007f;
  udp_port = 5000;
}

abbrev far : ConfigInterface
far = record {
  name = "if1";
  assigned_ip = 0x0200010a;
  prefix_len = pos 24;
  udp_addr = 0x0100007f;
  udp_port = 5001;
}

abbrev neighbor : ℕ → ℕ → ConfigNeighbor
neighbor dest port = record {
  dest_addr = dest;
  udp_addr = 0x0100007f;
  udp_port = port;
  ifname = "if1";
}

abbrev config : Config
config = record {
  interfaces = near ∷ far ∷ [];
  neighbors =
      neighbor 0x0300010a 5003
      ∷ record (neighbor 0x0100000a 5004) { ifname = "if0" }
      ∷ neighbor 0x0100010a 5005
      ∷ [];
  rip_neighbors = 0x0100000a ∷ [];
  static_routes = record { network_addr = 0; prefix_len = pos 0; next_hop = 0x0100010a } ∷ [];
}

usable : IsUsable config
unfolding AreAllUnlike
usable = record {
  interfaces =
      ((omega arith, (24, refl, omega arith)), ((omega arith, (24, refl, omega arith)), tt));
  neighbors =
      ((omega arith, omega arith), ((omega arith, omega arith), ((omega arith, omega arith), tt)));
  routes = (omega arith, tt);
  rip_neighbors = (omega arith, tt);
  unlike = (
    (
      ((λ e. absurd (ground (arith, e))), (λ e. absurd (ground (arith, (eq_iff "if1" "if0").1 e)))),
      tt,
    ),
    (tt, tt),
  );
}

-- Texts that are the numbers themselves.
parse_lnx-IsMadeOf_example :
    (d : NodeData) × (last : NeighborMaps ℕ) × (parse_lnx ℕ
        (λ a. a)
        (λ text. some (address text))
        (some config)
        (record { ip_addrs = []; udp_ports = []; udp_addrs = [] })
      ≡ some (d, last))
    × IsMadeOf 1 config d
parse_lnx-IsMadeOf_example =
    parse_lnx-IsMadeOf ℕ (λ a. a) (λ text. some (address text)) (λ a h. refl) 1 config usable
