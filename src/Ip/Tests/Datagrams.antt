-- ===== src/Ip/Tests/Datagrams.antt =====
-- The theorems on datagrams, masks and stale routes at concrete ones.
use tns.Common.{ℕ, ◌≡◌, refl, none, some, List, [], ◌∷◌, map, arith, ◌==◌, leb, if◌then◌else◌}
use tns.Ip.Address.{Ipv4Address, hton16}
use tns.Ip.Rip.{RipEntry, make_message, response}
use tns.Ip.Routing.{rip, local, TableEntry}
use tns.Ip.Routing.Upkeep.{remove_stale_rip_entries}
use tns.Ip.Routing.Stale.{Removed, remove_stale_rip_entries-Removed}
use tns.Ip.Datagram.{
  IpHeader, Datagram, words, ipv4_checksum, fold_carries, compute_checksum, wire, ttl_expired,
  datagram, recv_datagram, subnet_mask_length, mask_of_length,
}
use tns.Ip.Datagram.Delivery.{IsSound, one_hop, recv_datagram-wire}
use tns.Ip.Datagram.Hops.{cross, after, cross-expires}
use tns.Ip.Datagram.Masks.{subnet_mask_length-mask_of_length}

-- From 10.0.0.1 to 10.0.0.2, three bytes.
abbrev bare : IpHeader
bare = record {
  ihl = 5;
  version = 4;
  tos = 0;
  tot_len = 0x1700;
  id = 0;
  frag_off = 0;
  ttl = 16;
  protocol = 0;
  check = 0;
  saddr = 0x0100000a;
  daddr = 0x0200000a;
}

abbrev hello : Datagram
hello = record {
  header = record bare { check = compute_checksum bare };
  payload = 104 ∷ 105 ∷ 33 ∷ [];
}

hello-IsSound : IsSound hello
unfolding compute_checksum ipv4_checksum words fold_carries hton16
hello-IsSound = record {
  fits = record {
    ihl = refl;
    version = omega arith;
    tos = omega arith;
    tot_len = omega arith;
    id = omega arith;
    frag_off = omega arith;
    ttl = omega arith;
    protocol = omega arith;
    check = omega arith;
    saddr = omega arith;
    daddr = omega arith;
  };
  fits_buffer = omega arith;
  total = refl;
  check = refl;
}

recv_datagram-wire_example :
    recv_datagram (wire hello) ≡ some (if 16 == 0 then ttl_expired else datagram (one_hop hello))
recv_datagram-wire_example = recv_datagram-wire hello hello-IsSound

cross-expires_example : cross 17 hello ≡ (if leb 17 16 then some (after 17 hello) else none)
cross-expires_example = cross-expires 17 hello hello-IsSound

subnet_mask_length-mask_of_length_example : subnet_mask_length (mask_of_length 24) ≡ some 24
subnet_mask_length-mask_of_length_example = subnet_mask_length-mask_of_length 24 (omega arith)

-- A local route, a route at infinity, an old one and a new one.
abbrev neighbour : Ipv4Address
neighbour = record { addr = 0x0200000a; port = 0 }

abbrev learned : ℕ → ℕ → ℕ → TableEntry
learned addr metric last_refresh = record {
  type = rip;
  addr = record { addr = addr; port = 0 };
  mask = 0xffffff00;
  gateway = some neighbour;
  interface = none;
  metric = some metric;
  last_refresh = last_refresh;
}

abbrev table : List TableEntry
table =
    record (learned 0x0000000a 0 0) { type = local; gateway = none; interface = some 0 }
    ∷ learned 0x0001000a 16 8
    ∷ learned 0x0002000a 2 1
    ∷ learned 0x0003000a 2 8
    ∷ []

remove_stale_rip_entries-Removed_example :
    (r : List TableEntry × List RipEntry) × (remove_stale_rip_entries 10 5 table
      ≡ some (r.0, make_message response r.1 (map (λ e. none) r.1)))
    × Removed 10 5 [] table r
remove_stale_rip_entries-Removed_example = remove_stale_rip_entries-Removed 10 5 table
