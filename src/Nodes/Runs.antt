-- ===== src/Nodes/Runs.antt =====
-- lib/src/router_node.cpp and lib/src/network_node.cpp: what a node still is after it has been used.
use Prim.Native.String.{String}
use tns.Common.{
  ℕ, ◌≡◌, inl, inr, subst, Bool, true, false, Option, some, List, [], ◌==◌, length, find, get_elem?,
  arith, Bool-cases, Option-cases, bind-some,
}
use tns.Ip.Address.{Ipv4Address}
use tns.Ip.Rip.{RipMessage, parse_message, request, response}
use tns.Ip.Routing.{handle_rip_loop, handle_rip_entries}
use tns.Ip.Routing.Upkeep.{remove_loop, remove_stale_rip_entries}
use tns.Nodes.{NetworkNode, Frame, string_eq}
use tns.Nodes.Configuration.{InterfaceData, make_router, make_host}
use tns.Nodes.Configured.{
  LeadsOut, IsConfigured, IsConfigured-entries, make_router-IsConfigured, make_host-IsConfigured,
}
use tns.Nodes.Router.{
  rip_protocol_handler, handle_rip_message, answer_request, learn_response, rip_cleaner_period,
  broadcast_if_any, enable_interface, bring_up, disable_interface, take_down, switch_interface,
}
use tns.Nodes.Changes.{handle_rip_loop-LeadsOut, All-remove_loop, turn-IsConfigured}

-- The switch on the command of a message.
handle_rip_message-IsConfigured :
    (n n' : NetworkNode) (neighbors : List Ipv4Address) (src : Ipv4Address) (m : RipMessage)
    (now : ℕ) (frames : List Frame)
    → handle_rip_message n neighbors src m now ≡ some (n', frames)
    → IsConfigured n
    → IsConfigured n'
unfolding handle_rip_message answer_request learn_response handle_rip_entries
handle_rip_message-IsConfigured n n' neighbors src m now frames h c =
    let learned =
      IsConfigured-entries n (handle_rip_loop n.entries m.entries src now).0 c
        (handle_rip_loop-LeadsOut n n.entries m.entries src now c.routes) in
    elim (Bool-cases (m.command == request)) [
      | inl t ↦ subst IsConfigured (ground (arith, t, h)) c
      | inr t ↦ elim (Bool-cases (m.command == response)) [
        | inl s ↦ subst IsConfigured (ground (arith, t, s, h)) learned
        | inr s ↦ subst IsConfigured (ground (arith, t, s, h)) c
      ]
    ]

cleaner-IsConfigured :
    (n n' : NetworkNode) (neighbors : List Ipv4Address) (now expiration_time : ℕ)
    (frames : List Frame)
    → rip_cleaner_period n neighbors now expiration_time ≡ some (n', frames)
    → IsConfigured n
    → IsConfigured n'
unfolding rip_cleaner_period remove_stale_rip_entries
cleaner-IsConfigured n n' neighbors now expiration_time frames h c =
    let (r, p, q) =
      bind-some (remove_stale_rip_entries now expiration_time n.entries) _ (n', frames) h in
    let (s, k, l) =
      bind-some (remove_loop now expiration_time (length n.entries) [] n.entries) _ r p in
    let (m, a, b) = bind-some r.1 _ (n', frames) q in
    let (sent, d, e) =
      bind-some (broadcast_if_any (record n { entries = r.0 }) neighbors m) _ (n', frames) b in
    subst IsConfigured (ground (arith, l, e)) (
      IsConfigured-entries n s.0 c (
        All-remove_loop (LeadsOut n) now expiration_time (length n.entries) [] n.entries s k tt
          c.routes))

enable-IsConfigured :
    (n n' : NetworkNode) (neighbors : List Ipv4Address) (name : String) (frames : List Frame)
    → enable_interface n neighbors name ≡ some (n', frames)
    → IsConfigured n
    → IsConfigured n'
unfolding enable_interface bring_up
enable-IsConfigured n n' neighbors name frames h c =
    elim (Option-cases (find name n.interfaces_by_name)) [
      | inl k ↦ subst IsConfigured (ground (arith, k, h)) c
      | inr (i, k) ↦ elim (Option-cases (get_elem? n.interfaces i)) [
        | inl l ↦ absurd (ground (arith, k, l, h))
        | inr (f, l) ↦ elim (Bool-cases f.is_up) [
          | inl t ↦ subst IsConfigured (ground (arith, k, l, t, h)) c
          | inr t ↦
              subst IsConfigured (ground (arith, k, l, t, h)) (turn-IsConfigured true i f n l c)
        ]
      ]
    ]

disable-IsConfigured :
    (n n' : NetworkNode) (neighbors : List Ipv4Address) (name : String) (frames : List Frame)
    → disable_interface n neighbors name ≡ some (n', frames)
    → IsConfigured n
    → IsConfigured n'
unfolding disable_interface take_down
disable-IsConfigured n n' neighbors name frames h c =
    elim (Option-cases (find name n.interfaces_by_name)) [
      | inl k ↦ subst IsConfigured (ground (arith, k, h)) c
      | inr (i, k) ↦ elim (Option-cases (get_elem? n.interfaces i)) [
        | inl l ↦ absurd (ground (arith, k, l, h))
        | inr (f, l) ↦ elim (Bool-cases f.is_up) [
          | inl t ↦
              subst IsConfigured (ground (arith, k, l, t, h)) (turn-IsConfigured false i f n l c)
          | inr t ↦ subst IsConfigured (ground (arith, k, l, t, h)) c
        ]
      ]
    ]

switch-IsConfigured :
    (up : Bool) (n n' : NetworkNode) (name : String)
    → switch_interface up n name ≡ some n'
    → IsConfigured n
    → IsConfigured n'
unfolding switch_interface
switch-IsConfigured up n n' name h c =
    let (i, k, p) = bind-some (find name n.interfaces_by_name) _ n' h in
    let (f, l, q) = bind-some (get_elem? n.interfaces i) _ n' p in
    elim (Bool-cases up) [
      | inl t ↦ elim (Bool-cases f.is_up) [
        | inl s ↦ subst IsConfigured (ground (arith, t, s, q)) c
        | inr s ↦ subst IsConfigured (ground (arith, t, s, q)) (turn-IsConfigured up i f n l c)
      ]
      | inr t ↦ elim (Bool-cases f.is_up) [
        | inl s ↦ subst IsConfigured (ground (arith, t, s, q)) (turn-IsConfigured up i f n l c)
        | inr s ↦ subst IsConfigured (ground (arith, t, s, q)) c
      ]
    ]

-- A node in use, with the neighbours that it sends RIP messages to: a RIP message comes in, stale
-- routes are removed, or an interface is brought up or down, by a router or a host.
pub data Step (neighbors : List Ipv4Address) (n : NetworkNode) : NetworkNode → Type 0 where
  message :
      (src : Ipv4Address) (payload : List ℕ) (now : ℕ) (frames : List Frame) {n' : NetworkNode}
      → rip_protocol_handler n neighbors src payload now ≡ some (n', frames)
      → Step neighbors n n'
  cleans :
      (now expiration_time : ℕ) (frames : List Frame) {n' : NetworkNode}
      → rip_cleaner_period n neighbors now expiration_time ≡ some (n', frames)
      → Step neighbors n n'
  enables :
      (name : String) (frames : List Frame) {n' : NetworkNode}
      → enable_interface n neighbors name ≡ some (n', frames)
      → Step neighbors n n'
  disables :
      (name : String) (frames : List Frame) {n' : NetworkNode}
      → disable_interface n neighbors name ≡ some (n', frames)
      → Step neighbors n n'
  switches :
      (up : Bool) (name : String) {n' : NetworkNode}
      → switch_interface up n name ≡ some n'
      → Step neighbors n n'

pub data Run (neighbors : List Ipv4Address) : NetworkNode → NetworkNode → Type 0 where
  stop : {n : NetworkNode} → Run neighbors n n
  step : {n m k : NetworkNode} → Step neighbors n m → Run neighbors m k → Run neighbors n k

Step-IsConfigured :
    (neighbors : List Ipv4Address) (n n' : NetworkNode)
    → Step neighbors n n'
    → IsConfigured n
    → IsConfigured n'
unfolding rip_protocol_handler
Step-IsConfigured neighbors n n' (message src payload now frames h) c =
    let (m, p, q) = bind-some (parse_message payload) _ (n', frames) h in
    handle_rip_message-IsConfigured n n' neighbors src m now frames q c
Step-IsConfigured neighbors n n' (cleans now expiration_time frames h) c =
    cleaner-IsConfigured n n' neighbors now expiration_time frames h c
Step-IsConfigured neighbors n n' (enables name frames h) c =
    enable-IsConfigured n n' neighbors name frames h c
Step-IsConfigured neighbors n n' (disables name frames h) c =
    disable-IsConfigured n n' neighbors name frames h c
Step-IsConfigured neighbors n n' (switches up name h) c = switch-IsConfigured up n n' name h c

Run-kept :
    (neighbors : List Ipv4Address) (n n' : NetworkNode)
    → Run neighbors n n'
    → IsConfigured n
    → IsConfigured n'
Run-kept neighbors n _ stop c = c
Run-kept neighbors n n' (step {m = m} s r) c =
    Run-kept neighbors m n' r (Step-IsConfigured neighbors n m s c)

-- A host or a router that was made of its configuration.
pub data IsMade (neighbors : List Ipv4Address) (n : NetworkNode) : Type 0 where
  made_host :
      (now : ℕ) (ds : List InterfaceData)
      (routes : List (Option (Ipv4Address × ℕ) × Option Ipv4Address))
      → make_host now ds routes ≡ some n
      → IsMade neighbors n
  made_router :
      (now : ℕ) (ds : List InterfaceData) (texts : List (Option Ipv4Address))
      → make_router now ds texts ≡ some (n, neighbors)
      → IsMade neighbors n

IsMade-IsConfigured :
    (neighbors : List Ipv4Address) (n : NetworkNode) → IsMade neighbors n → IsConfigured n
IsMade-IsConfigured neighbors n (made_host now ds routes h) =
    make_host-IsConfigured now ds routes n h
IsMade-IsConfigured neighbors n (made_router now ds texts h) =
    make_router-IsConfigured now ds texts n neighbors h

-- However a host or a router that was made of its configuration has been used, by RIP messages, the
-- removal of stale routes and its interfaces brought up and down, its tables fit its interfaces: each
-- interface is found by its address and by its name, and what is found there has that address or name;
-- its neighbours are sorted; and every route leads over a gateway or out by one of its interfaces.
pub Run-IsConfigured :
    (neighbors : List Ipv4Address) (n n' : NetworkNode)
    → IsMade neighbors n
    → Run neighbors n n'
    → IsConfigured n'
Run-IsConfigured neighbors n n' made r =
    Run-kept neighbors n n' r (IsMade-IsConfigured neighbors n made)
