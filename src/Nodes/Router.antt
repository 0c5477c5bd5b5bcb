-- ===== src/Nodes/Router.antt =====
-- lib/src/router_node.cpp: RIP messages in and out, and interfaces brought up and down; and the last
-- two for a host, which has them from lib/src/network_node.cpp.
use Prim.Native.String.{String}
use tns.Common.{
  ℕ, Bool, true, false, Option, none, some, List, [], ◌∷◌, ◌++◌, ◌==◌, if◌then◌else◌, ◌>>=◌,
  get_elem?, set, find,
}
use tns.Ip.Address.{Ipv4Address}
use tns.Ip.Rip.{RipMessage, request, response, parse_message, message_payload}
use tns.Ip.Routing.{handle_rip_entries}
use tns.Ip.Routing.Upkeep.{
  generate_rip_entries, enable_local_route, disable_local_route, remove_stale_rip_entries,
}
use tns.Nodes.{NetworkInterface, Frame, NetworkNode, sends, send_ip, string_eq}

abbrev pub protocol_rip : ℕ
protocol_rip = 200

-- The frames of `sendRipMessage_`, which catches what `sendIp_` throws.
unfoldable pub send_rip_message : NetworkNode → RipMessage → Ipv4Address → Option (List Frame)
send_rip_message n m dest = do
  r ← send_ip n dest (message_payload dest m) protocol_rip
  elim r [ sends frames ↦ some frames | _ ↦ some [] ]

-- `broadcastRipMessage_`
unfoldable pub broadcast_rip_message :
    NetworkNode → List Ipv4Address → RipMessage → Option (List Frame)
unfolding send_rip_message
broadcast_rip_message n [] m = some []
broadcast_rip_message n (neighbor ∷ neighbors) m = do
  first ← send_rip_message n m neighbor
  rest ← broadcast_rip_message n neighbors m
  some (first ++ rest)

-- A message is sent only if it has entries.
unfoldable pub broadcast_if_any : NetworkNode → List Ipv4Address → RipMessage → Option (List Frame)
unfolding broadcast_rip_message
broadcast_if_any n neighbors m = elim m.entries [
  | [] ↦ some []
  | e ∷ es ↦ broadcast_rip_message n neighbors m
]

-- `ripProtocolHandler_` on a request, and on a response.
unfoldable pub answer_request : NetworkNode → Ipv4Address → Option (NetworkNode × List Frame)
unfolding send_rip_message
answer_request n src = do
  r ← generate_rip_entries n.entries
  frames ← elim r.entries [ [] ↦ some [] | e ∷ es ↦ send_rip_message n r src ]
  some (n, frames)

unfoldable pub learn_response :
    NetworkNode
    → List Ipv4Address
    → Ipv4Address
    → RipMessage
    → ℕ
    → Option (NetworkNode × List Frame)
unfolding broadcast_if_any
learn_response n neighbors src m now = do
  let (entries, update) = handle_rip_entries n.entries m.entries src now
  r ← update
  frames ← broadcast_if_any (record n { entries = entries }) neighbors r
  some (record n { entries = entries }, frames)

-- The switch of `ripProtocolHandler_` on the command.
unfoldable pub handle_rip_message :
    NetworkNode
    → List Ipv4Address
    → Ipv4Address
    → RipMessage
    → ℕ
    → Option (NetworkNode × List Frame)
unfolding answer_request learn_response
handle_rip_message n neighbors src m now =
    if m.command == request
    then answer_request n src
    else if m.command == response
    then learn_response n neighbors src m now
    else some (n, [])

-- `ripProtocolHandler_`: the node, and the frames sent.
unfoldable pub rip_protocol_handler :
    NetworkNode → List Ipv4Address → Ipv4Address → List ℕ → ℕ → Option (NetworkNode × List Frame)
unfolding handle_rip_message
rip_protocol_handler n neighbors src payload now = do
  m ← parse_message payload
  handle_rip_message n neighbors src m now

-- A period of `ripThread_`.
unfoldable pub rip_period : NetworkNode → List Ipv4Address → Option (List Frame)
unfolding broadcast_if_any
rip_period n neighbors = do r ← generate_rip_entries n.entries; broadcast_if_any n neighbors r

-- A period of `ripCleanerThread_`.
unfoldable pub rip_cleaner_period :
    NetworkNode → List Ipv4Address → ℕ → ℕ → Option (NetworkNode × List Frame)
unfolding broadcast_if_any
rip_cleaner_period n neighbors now expiration_time = do
  r ← remove_stale_rip_entries now expiration_time n.entries
  let n' = record n { entries = r.0 }
  m ← r.1
  frames ← broadcast_if_any n' neighbors m
  some (n', frames)

unfoldable pub turn : Bool → ℕ → NetworkInterface → NetworkNode → NetworkNode
turn up i iface n = record n { interfaces = set n.interfaces i (record iface { is_up = up }) }

-- `RouterNode::enableInterface`: up before the message is sent.
unfoldable pub bring_up :
    NetworkNode → List Ipv4Address → ℕ → NetworkInterface → Option (NetworkNode × List Frame)
unfolding broadcast_rip_message turn
bring_up n neighbors i iface = do
  m ← enable_local_route i n.entries
  frames ← broadcast_rip_message (turn true i iface n) neighbors m
  some (turn true i iface n, frames)

unfoldable pub enable_interface :
    NetworkNode → List Ipv4Address → String → Option (NetworkNode × List Frame)
unfolding bring_up
enable_interface n neighbors name = elim (find name n.interfaces_by_name) [
  | none ↦ some (n, [])
  | some i ↦ do
    iface ← get_elem? n.interfaces i
    if iface.is_up then some (n, []) else bring_up n neighbors i iface
]

-- `RouterNode::disableInterface`: down after the message has been sent.
unfoldable pub take_down :
    NetworkNode → List Ipv4Address → ℕ → NetworkInterface → Option (NetworkNode × List Frame)
unfolding broadcast_rip_message turn
take_down n neighbors i iface = do
  m ← disable_local_route i n.entries
  frames ← broadcast_rip_message n neighbors m
  some (turn false i iface n, frames)

unfoldable pub disable_interface :
    NetworkNode → List Ipv4Address → String → Option (NetworkNode × List Frame)
unfolding take_down
disable_interface n neighbors name = elim (find name n.interfaces_by_name) [
  | none ↦ some (n, [])
  | some i ↦ do
    iface ← get_elem? n.interfaces i
    if iface.is_up then take_down n neighbors i iface else some (n, [])
]

-- `NetworkNode::enableInterface` and `disableInterface`, which a host has. A name that is not found is
-- reported, and then its `end()` is used.
unfoldable pub switch_interface : Bool → NetworkNode → String → Option NetworkNode
unfolding turn
switch_interface up n name = do
  i ← find name n.interfaces_by_name
  iface ← get_elem? n.interfaces i
  some (
      if up
      then (if iface.is_up then n else turn up i iface n)
      else (if iface.is_up then turn up i iface n else n))
