-- ===== src/Ip/Routing.antt =====
-- lib/include/ip/routing_table.hpp and lib/src/ip/routing_table.cpp: the routing table, a vector of
-- entries. An interface is its position among the node's interfaces, and `none` their `end()`. Times
-- are in ns.
pub mod Lookup
pub mod Update
pub mod Learn
pub mod Upkeep
pub mod Stale
pub mod Vector
pub mod Hearing
pub mod Neighbors
use Prim.Native.Nat.{bit_and}
use tns.Common.{
  ℕ, zero, suc, ◌+◌, ◌-◌, ◌≡◌, Bool, true, false, ◌&&◌, Option, none, some, List, [], ◌∷◌, ◌++◌,
  ltb, leb, ◌==◌, if◌then◌else◌, length, ◌>>=◌,
}
use tns.Ip.Address.{Ipv4Address, same_address, hton32, get_addr_host}
use tns.Ip.Rip.{RipEntry, RipMessage, infinity, make_message, response}

pub data EntryType : Type 0 where
  local rip static : EntryType

-- `RoutingTable::Entry`
pub record TableEntry : Type 0 where
  pub type : EntryType
  pub addr : Ipv4Address
  pub mask : ℕ
  pub gateway : Option Ipv4Address
  pub interface : Option ℕ
  pub metric : Option ℕ
  pub last_refresh : ℕ

-- lib/include/ip/util.hpp
unfoldable pub same_subnet : Ipv4Address → Ipv4Address → ℕ → Bool
same_subnet a b mask = bit_and a.addr (hton32 mask) == bit_and b.addr (hton32 mask)

-- `queryFirstMatchNoLock_`
unfoldable pub query_first_match : List TableEntry → Ipv4Address → Option TableEntry
query_first_match [] addr = none
query_first_match (e ∷ es) addr =
    let rest = query_first_match es addr in if same_subnet addr e.addr e.mask then some e else rest

unfoldable pub is_longer : TableEntry → Option TableEntry → Bool
is_longer e none = true
is_longer e (some best) = ltb best.mask e.mask

-- The loop of `queryLongestPrefixMatchNoLock_`, `best` being `longestPrefixEntry`.
unfoldable pub longest_prefix_from :
    Option TableEntry → List TableEntry → Ipv4Address → Option TableEntry
unfolding is_longer
longest_prefix_from best [] addr = best
longest_prefix_from best (e ∷ es) addr =
    let better = longest_prefix_from (some e) es addr in
    let same = longest_prefix_from best es addr in
    if same_subnet addr e.addr e.mask && is_longer e best then better else same

unfoldable pub query_longest_prefix_match : List TableEntry → Ipv4Address → Option TableEntry
unfolding longest_prefix_from
query_longest_prefix_match entries addr = longest_prefix_from none entries addr

-- `NetworkNode::queryRoutingTable_` by the longest prefix: the interface and the next hop. The outer
-- `none` is an unreachable destination or gateway.
unfoldable pub query_routing_table : List TableEntry → Ipv4Address → Option (Option ℕ × Ipv4Address)
unfolding query_longest_prefix_match
query_routing_table entries dest_ip = do
  e ← query_longest_prefix_match entries dest_ip
  elim e.gateway [
    | none ↦ some (e.interface, dest_ip)
    | some gateway ↦ do
      hop ← query_longest_prefix_match entries gateway
      some (hop.interface, gateway)
  ]

-- The test of `findEntryNoLock_`.
unfoldable pub is_entry_for : Ipv4Address → ℕ → TableEntry → Bool
is_entry_for addr mask_host e =
    bit_and (get_addr_host e.addr) e.mask == bit_and (get_addr_host addr) mask_host

-- `findEntryNoLock_`: the entries before the one found, that one, and those after it.
unfoldable pub find_entry :
    List TableEntry → Ipv4Address → ℕ → Option (List TableEntry × TableEntry × List TableEntry)
find_entry [] addr mask_host = none
find_entry (e ∷ es) addr mask_host =
    let rest = find_entry es addr mask_host in
    if is_entry_for addr mask_host e
    then some ([], e, es)
    else elim rest [ none ↦ none | some (before, found, after) ↦ some (e ∷ before, found, after) ]

-- `cost < metric` and `cost == metric` of a number and a `std::optional`.
unfoldable pub is_cheaper : ℕ → Option ℕ → Bool
is_cheaper cost none = false
is_cheaper cost (some metric) = ltb cost metric

unfoldable pub is_metric : ℕ → Option ℕ → Bool
is_metric cost none = false
is_metric cost (some metric) = cost == metric

unfoldable pub is_gateway : Option Ipv4Address → Ipv4Address → Bool
unfolding same_address
is_gateway none addr = false
is_gateway (some gateway) addr = same_address gateway addr

-- The branch of `handleRipEntries_` for an entry that was found: what becomes of it, and whether it
-- is told to the neighbours.
unfoldable pub refresh_entry : TableEntry → RipEntry → Ipv4Address → ℕ → TableEntry × Bool
unfolding is_cheaper is_metric is_gateway
refresh_entry e r learned_from now =
    let refreshed =
      if is_cheaper r.cost e.metric
      then (
        record e { last_refresh = now; metric = some r.cost; gateway = some learned_from },
        true,
      )
      else if is_gateway e.gateway learned_from
      then (if is_metric r.cost e.metric
          then (record e { last_refresh = now }, false)
          else (record e { last_refresh = now; metric = some r.cost }, true))
      else (e, false) in
    elim e.type [ local ↦ (e, false) | _ ↦ refreshed ]

-- One round of the loop of `handleRipEntries_`: the table, and whether the entry is told on.
unfoldable pub handle_rip_entry :
    List TableEntry → RipEntry → Ipv4Address → ℕ → List TableEntry × Bool
handle_rip_entry entries r learned_from now =
    let addr : Ipv4Address = record { addr = hton32 r.address; port = 0 } in
    elim (find_entry entries addr r.mask) [
      | some (before, e, after) ↦
          let (e', told) = refresh_entry e r learned_from now in (before ++ e' ∷ after, told)
      | none ↦
          if ltb r.cost infinity
          then (
            entries
                ++ (record {
                  type = rip;
                  addr = addr;
                  mask = r.mask;
                  gateway = some learned_from;
                  interface = none;
                  metric = some r.cost;
                  last_refresh = now;
                }
                    ∷ []),
            true,
          )
          else (entries, false)
    ]

-- The loop: the table, and the entries to tell on.
unfoldable pub handle_rip_loop :
    List TableEntry → List RipEntry → Ipv4Address → ℕ → List TableEntry × List RipEntry
handle_rip_loop entries [] learned_from now = (entries, [])
handle_rip_loop entries (r ∷ rs) learned_from now =
    let (entries', told) = handle_rip_entry entries r learned_from now in
    let (last, updates) = handle_rip_loop entries' rs learned_from now in
    (last, if told then r ∷ updates else updates)

unfoldable pub repeat_from : Ipv4Address → List RipEntry → List (Option Ipv4Address)
repeat_from a [] = []
repeat_from a (r ∷ rs) = some a ∷ repeat_from a rs

-- `handleRipEntries_`: the table, and the triggered update (`none` if its constructor throws).
unfoldable pub handle_rip_entries :
    List TableEntry → List RipEntry → Ipv4Address → ℕ → List TableEntry × Option RipMessage
unfolding handle_rip_loop repeat_from make_message
handle_rip_entries entries rs learned_from now =
    let (last, updates) = handle_rip_loop entries rs learned_from now in
    (last, make_message response updates (repeat_from learned_from updates))
