-- ===== src/Nodes/Path.antt =====
-- A payload goes from a host over a router to another host.
use tns.Common.{
  ℕ, ◌+◌, ◌-◌, ◌^◌, ◌≤◌, ◌<◌, ◌≡◌, refl, ◌∙◌, true, false, some, List, [], ◌∷◌, arith, ◌==◌,
  get_elem?, length,
}
use tns.Ip.Address.{Ipv4Address, same_address}
use tns.Ip.Datagram.{Datagram, make_datagram, update_checksum, wire, max_datagram_size}
use tns.Ip.Datagram.Delivery.{IsSound, one_hop, recv_datagram-wire}
use tns.Ip.Datagram.Hops.{make_datagram-IsSound, after, after-IsSound}
use tns.Ip.Routing.{query_routing_table}
use tns.Nodes.{
  NetworkInterface, NetworkNode, Frame, local_delivery, sends, find_next_hop, send_datagram,
  receive, is_my_ip_address, send_out, send_ip, forward_datagram, router_datagram_handler,
  host_datagram_handler,
}

-- The node `n` is not `dest`, and has a route to it by the interface `i`, which is up, on a link with
-- the next hop.
pub record Routes (n : NetworkNode) (dest : Ipv4Address) : Type 0 where
  pub i : ℕ
  pub iface : NetworkInterface
  pub hop : Ipv4Address
  pub not_mine : is_my_ip_address n dest ≡ false
  pub route : query_routing_table n.entries dest ≡ some (some i, hop)
  pub there : get_elem? n.interfaces i ≡ some iface
  pub is_up : iface.is_up ≡ true
  pub on_link : find_next_hop hop iface.neighbors ≡ some hop

abbrev pub frame_of : {n : NetworkNode} {dest : Ipv4Address} → Routes n dest → Datagram → Frame
frame_of r d = record { interface = r.i; neighbor = r.hop; bytes = wire d }

send_datagram-Routes :
    (n : NetworkNode) (dest : Ipv4Address) (r : Routes n dest) (d : Datagram)
    → send_datagram r.i r.iface d r.hop ≡ frame_of r d ∷ []
unfolding send_datagram
send_datagram-Routes n dest r d = ground (arith, r.is_up, r.on_link)

send_ip-Routes :
    (n : NetworkNode) (dest : Ipv4Address) (r : Routes n dest) (payload : List ℕ) (protocol : ℕ)
    (d : Datagram)
    → make_datagram r.iface.ip_address dest payload protocol ≡ some d
    → send_ip n dest payload protocol ≡ some (sends (frame_of r d ∷ []))
unfolding send_ip
send_ip-Routes n dest r payload protocol d h =
    ground (arith, r.not_mine, r.route, r.there, send_datagram-Routes n dest r d)

router-Routes :
    (n : NetworkNode) (dest : Ipv4Address) (r : Routes n dest) (d : Datagram)
    → (record { addr = d.header.daddr; port = 0 }) ≡ dest
    → router_datagram_handler n d ≡ some (sends (frame_of r (update_checksum d) ∷ []))
unfolding router_datagram_handler forward_datagram send_out update_checksum
router-Routes n dest r d h =
    ground
      (arith, h, r.not_mine, r.route, r.there, send_datagram-Routes n dest r (update_checksum d))

receive_sound :
    (iface : NetworkInterface) (d : Datagram)
    → IsSound d
    → iface.is_up ≡ true
    → (d.header.ttl == 0) ≡ false
    → receive iface (wire d) ≡ some (some (one_hop d))
unfolding receive
receive_sound iface d s up ttl = ground (arith, recv_datagram-wire d s, up, ttl)

-- The datagram that a router passes on.
passed-IsSound : (d : Datagram) → IsSound d → IsSound (update_checksum (one_hop d))
unfolding one_hop after
passed-IsSound d s = after-IsSound 1 d s

-- The fields that the router leaves, and the TTL.
passed :
    (d : Datagram)
    → ((update_checksum (one_hop d)).header.ttl ≡ d.header.ttl - 1)
      × ((update_checksum (one_hop d)).header.daddr ≡ d.header.daddr)
      × ((one_hop (update_checksum (one_hop d))).payload ≡ d.payload)
      × ((one_hop (update_checksum (one_hop d))).header.protocol ≡ d.header.protocol)
      × ((one_hop (update_checksum (one_hop d))).header.daddr ≡ d.header.daddr)
      × ((one_hop (update_checksum (one_hop d))).header.ttl ≡ d.header.ttl - 1 - 1)
      × ((one_hop d).header.daddr ≡ d.header.daddr)
unfolding one_hop update_checksum
passed d = (refl, refl, refl, refl, refl, refl, refl)

deliver :
    (dest : Ipv4Address) (d : Datagram)
    → d.header.daddr ≡ dest.addr
    → dest.port ≡ 0
    → host_datagram_handler dest d ≡ local_delivery d
unfolding host_datagram_handler same_address
deliver dest d h p = ground (arith, h, p)

-- What the two frames are, and the datagram that the handler of the protocol gets at last.
pub record Arrives (host router : NetworkNode) (link end : NetworkInterface) (dest : Ipv4Address)
    (payload : List ℕ) (protocol : ℕ) : Type 0 where
  pub first : Frame
  pub at_router : Datagram
  pub second : Frame
  pub at_end : Datagram
  pub sent : send_ip host dest payload protocol ≡ some (sends (first ∷ []))
  pub received : receive link first.bytes ≡ some (some at_router)
  pub forwarded : router_datagram_handler router at_router ≡ some (sends (second ∷ []))
  pub received_at_end : receive end second.bytes ≡ some (some at_end)
  pub delivered : host_datagram_handler end.ip_address at_end ≡ local_delivery at_end
  pub payload_kept : at_end.payload ≡ payload
  pub protocol_kept : at_end.header.protocol ≡ protocol
  pub ttl : at_end.header.ttl ≡ 14

-- A payload of at most 1380 bytes that a host sends to the address of another's interface, over a
-- router, both of which have a route to it, is delivered there as it was, with a TTL of 14; `link` and
-- `end` are the interfaces that the frames arrive by, and are up.
pub send_ip-Arrives :
    (host router : NetworkNode) (link end : NetworkInterface) (payload : List ℕ) (protocol : ℕ)
    → (r : Routes host end.ip_address) → Routes router end.ip_address
    → link.is_up ≡ true
    → end.is_up ≡ true
    → end.ip_address.port ≡ 0
    → end.ip_address.addr < 2 ^ 32
    → r.iface.ip_address.addr < 2 ^ 32
    → protocol < 256
    → length payload + 20 ≤ max_datagram_size
    → Arrives host router link end end.ip_address payload protocol
send_ip-Arrives host router link end payload protocol r q up up_end port hd hs hp hl =
    let dest = end.ip_address in
    let (d, made, sound, ttl, same, src, daddr, proto) =
      make_datagram-IsSound r.iface.ip_address dest payload protocol hs hd hp hl in
    let d1 = one_hop d in
    let d2 = update_checksum d1 in
    let sound2 : IsSound d2 = passed-IsSound d sound in
    let (ttl2, daddr2, payload2, proto2, daddr3, ttl3, daddr1) = passed d in
    let to : Ipv4Address = record { addr = d1.header.daddr; port = 0 } in
    let same_dest : to ≡ dest = ground (arith, daddr, daddr1, port) in
    record {
      first = frame_of r d;
      at_router = d1;
      second = frame_of q d2;
      at_end = one_hop d2;
      sent = send_ip-Routes host dest r payload protocol d made;
      received = receive_sound link d sound up (ground (arith, ttl));
      forwarded = router-Routes router dest q d1 same_dest;
      received_at_end = receive_sound end d2 sound2 up_end (ground (arith, ttl, ttl2));
      delivered = deliver dest (one_hop d2) (daddr3 ∙ daddr) port;
      payload_kept = payload2 ∙ same;
      protocol_kept = proto2 ∙ proto;
      ttl = ground (arith, ttl, ttl3);
    }
