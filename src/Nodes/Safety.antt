-- ===== src/Nodes/Safety.antt =====
-- Where a node is as it should be, what it sends finds an interface.
use tns.Common.{
  ℕ, ◌≡◌, inl, inr, refl, subst, Option, none, some, List, [], ◌∷◌, ◌++◌, get_elem?,
  get_elem?-below, arith, All, Bool-cases, Option-cases,
}
use tns.Ip.Address.{Ipv4Address}
use tns.Ip.Datagram.{Datagram, make_datagram, update_checksum}
use tns.Ip.Routing.{TableEntry, query_longest_prefix_match, query_routing_table}
use tns.Ip.Routing.Lookup.{Matches, IsBest, query_longest_prefix_match-IsBest}
use tns.Nodes.{
  NetworkInterface, NetworkNode, Handled, Frame, discarded, is_my_ip_address, send_ip, send_out,
  sends, forward_datagram, router_datagram_handler, send_datagram, throws, unreachable,
  local_delivery, localhost,
}
use tns.Nodes.Router.{protocol_rip, send_rip_message, broadcast_rip_message}
use tns.Ip.Rip.{RipMessage, message_payload}
use tns.Nodes.Runs.{Run, IsMade, Run-IsConfigured}
use tns.Nodes.Configured.{LeadsOut, IsConfigured}

-- What matches an address is an entry of the table.
All-Matches :
    (P : TableEntry → Type 0) (addr : Ipv4Address) (e : TableEntry) (es : List TableEntry)
    → All P es
    → Matches addr e es
    → P e
All-Matches P addr e [] h m = elim m [ ]
All-Matches P addr e (_ ∷ es) h (Matches.here m) = h.0
All-Matches P addr e (_ ∷ es) h (Matches.there m) = All-Matches P addr e es h.1 m

matched :
    (P : TableEntry → Type 0) (es : List TableEntry) (addr : Ipv4Address) (e : TableEntry)
    → query_longest_prefix_match es addr ≡ some e
    → All P es
    → P e
matched P es addr e p h =
    let best : IsBest addr none es (some e) =
      subst (IsBest addr none es) p (query_longest_prefix_match-IsBest es addr) in
    elim best.0 [ inl q ↦ absurd (ground (arith, q)) | inr q ↦ All-Matches P addr e es h q ]

-- The gateway of an entry, if it has a route, is on link.
abbrev pub IsDirect : List TableEntry → TableEntry → Type 0
IsDirect es e =
    (g : Ipv4Address) (hop : TableEntry)
    → e.gateway ≡ some g
    → query_longest_prefix_match es g ≡ some hop
    → hop.gateway ≡ none

-- The result of a lookup is an interface of the node.
query-LeadsOut :
    (n : NetworkNode) (dest : Ipv4Address) (out : Option ℕ) (hop : Ipv4Address)
    → IsConfigured n
    → All (IsDirect n.entries) n.entries
    → query_routing_table n.entries dest ≡ some (out, hop)
    → (i : ℕ) × (f : NetworkInterface) × (out ≡ some i) × (get_elem? n.interfaces i ≡ some f)
unfolding query_routing_table
query-LeadsOut n dest out hop c d h =
    elim (Option-cases (query_longest_prefix_match n.entries dest)) [
      | inl k ↦ absurd (ground (arith, k, h))
      | inr (e, k) ↦ elim (Option-cases e.gateway) [
        | inl g ↦
            let (i, p, q) = matched (LeadsOut n) n.entries dest e k c.routes g in
            let (f, there) = get_elem?-below n.interfaces i q in
            (i, f, (ground (arith, k, g, h, p)), there)
        | inr (g, r) ↦ elim (Option-cases (query_longest_prefix_match n.entries g)) [
          | inl l ↦ absurd (ground (arith, k, r, l, h))
          | inr (x, l) ↦
              let direct = matched (IsDirect n.entries) n.entries dest e k d g x r l in
              let (i, p, q) = matched (LeadsOut n) n.entries g x l c.routes direct in
              let (f, there) = get_elem?-below n.interfaces i q in
              (i, f, (ground (arith, k, r, l, h, p)), there)
        ]
      ]
    ]

send_ip_total :
    (n : NetworkNode)
    → IsConfigured n
    → All (IsDirect n.entries) n.entries
    → (dest : Ipv4Address) (payload : List ℕ) (protocol : ℕ)
    → (r : Handled) × (send_ip n dest payload protocol ≡ some r)
unfolding send_ip
send_ip_total n c d dest payload protocol = elim (Bool-cases (is_my_ip_address n dest)) [
  | inl t ↦ elim (Option-cases (make_datagram localhost dest payload protocol)) [
    | inl k ↦ (throws, (ground (arith, t, k)))
    | inr (own, k) ↦ (local_delivery own, (ground (arith, t, k)))
  ]
  | inr t ↦ elim (Option-cases (query_routing_table n.entries dest)) [
    | inl k ↦ (unreachable, (ground (arith, t, k)))
    | inr (q, k) ↦
        let (i, f, at, there) = query-LeadsOut n dest q.0 q.1 c d k in
        elim (Option-cases (make_datagram f.ip_address dest payload protocol)) [
          | inl m ↦ (throws, (ground (arith, t, k, at, there, m)))
          | inr (out, m) ↦ (sends (send_datagram i f out q.1), (ground (arith, t, k, at, there, m)))
        ]
  ]
]

forward_datagram_total :
    (n : NetworkNode) (d : Datagram)
    → IsConfigured n
    → All (IsDirect n.entries) n.entries
    → (r : Handled) × (forward_datagram n d ≡ some r)
unfolding forward_datagram send_out
forward_datagram_total n d c direct =
    let dest : Ipv4Address = record { addr = d.header.daddr; port = 0 } in
    elim (Option-cases (query_routing_table n.entries dest)) [
      | inl k ↦ (unreachable, (ground (arith, k)))
      | inr (q, k) ↦
          let (i, f, at, there) = query-LeadsOut n dest q.0 q.1 c direct k in
          (sends (send_datagram i f d q.1), (ground (arith, k, at, there)))
    ]

router_datagram_handler_total :
    (n : NetworkNode) (d : Datagram)
    → IsConfigured n
    → All (IsDirect n.entries) n.entries
    → (r : Handled) × (router_datagram_handler n d ≡ some r)
unfolding router_datagram_handler
router_datagram_handler_total n d c direct =
    let dest : Ipv4Address = record { addr = d.header.daddr; port = 0 } in
    let (r, p) = forward_datagram_total n (update_checksum d) c direct in
    elim (Bool-cases (is_my_ip_address n dest)) [
      | inl t ↦ (local_delivery d, (ground (arith, t)))
      | inr t ↦ (r, (ground (arith, t, p)))
    ]

broadcast_total :
    (n : NetworkNode)
    → IsConfigured n
    → All (IsDirect n.entries) n.entries
    → (neighbors : List Ipv4Address) (m : RipMessage)
    → (frames : List Frame) × (broadcast_rip_message n neighbors m ≡ some frames)
unfolding broadcast_rip_message send_rip_message
broadcast_total n c d [] m = ([], refl)
broadcast_total n c d (a ∷ neighbors) m =
    let (r, p) = send_ip_total n c d a (message_payload a m) protocol_rip in
    let (frames, q) = broadcast_total n c d neighbors m in
    elim r
        as (λ x.
          send_ip n a (message_payload a m) protocol_rip ≡ some x
          → (fs : List Frame) × (broadcast_rip_message n (a ∷ neighbors) m ≡ some fs)) [
            | sends first ↦ λ k. (first ++ frames, (ground (arith, k, q)))
            | local_delivery own ↦ λ k. (frames, (ground (arith, k, q)))
            | unreachable ↦ λ k. (frames, (ground (arith, k, q)))
            | discarded ↦ λ k. (frames, (ground (arith, k, q)))
            | throws ↦ λ k. (frames, (ground (arith, k, q)))
          ]
      p

-- What a node sends, what comes in and what it tells its neighbours: it all goes through, to a frame,
-- to a handler, or to an error that is reported.
pub record GoesThrough (n : NetworkNode) : Type 0 where
  pub sends :
      (dest : Ipv4Address) (payload : List ℕ) (protocol : ℕ)
      → (r : Handled) × (send_ip n dest payload protocol ≡ some r)
  pub handles : (d : Datagram) → (r : Handled) × (router_datagram_handler n d ≡ some r)
  pub broadcasts :
      (neighbors : List Ipv4Address) (m : RipMessage)
      → (frames : List Frame) × (broadcast_rip_message n neighbors m ≡ some frames)

-- However a host or a router that was made of its configuration has been used, as long as the gateways
-- of its routes are themselves reached without a gateway, sending a payload, handling a datagram as a
-- router and broadcasting a RIP message never go through the `end()` of the interfaces.
pub Run-GoesThrough :
    (neighbors : List Ipv4Address) (n n' : NetworkNode)
    → IsMade neighbors n
    → Run neighbors n n'
    → All (IsDirect n'.entries) n'.entries
    → GoesThrough n'
Run-GoesThrough neighbors n n' made r direct =
    let c = Run-IsConfigured neighbors n n' made r in
    record {
      sends = send_ip_total n' c direct;
      handles = λ d. router_datagram_handler_total n' d c direct;
      broadcasts = broadcast_total n' c direct;
    }
