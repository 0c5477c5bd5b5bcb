-- ===== src/Ip/Routing/Upkeep.antt =====
-- lib/include/ip/routing_table.hpp and lib/src/ip/routing_table.cpp: entries added, local routes told
-- as an interface goes up or down, the periodic message, and the removal of stale routes. Where a
-- message comes back, `none` is an exception.
use tns.Common.{
  ℕ, zero, suc, ◌-◌, Bool, false, Option, none, some, List, [], ◌∷◌, ◌++◌, ltb, if◌then◌else◌,
  length, map, to_u32, ◌>>=◌,
}
use tns.Ip.Address.{Ipv4Address, get_addr_host}
use tns.Ip.Rip.{RipEntry, RipMessage, infinity, make_message, response}
use tns.Ip.Routing.{EntryType, local, rip, TableEntry, is_metric}

-- `addEntry_`, `subnet` being the address and the mask that `parseCidr` gives, or its error.
unfoldable pub add_entry :
    EntryType
    → Option (Ipv4Address × ℕ)
    → Option Ipv4Address
    → Option ℕ
    → Option ℕ
    → ℕ
    → List TableEntry
    → List TableEntry
add_entry type none gateway interface metric now entries = entries
add_entry type (some (addr, mask)) gateway interface metric now entries =
    entries
    ++ (record {
      type = type;
      addr = addr;
      mask = mask;
      gateway = gateway;
      interface = interface;
      metric = metric;
      last_refresh = now;
    }
        ∷ [])

unfoldable pub is_local_route : ℕ → TableEntry → Bool
is_local_route interface e = elim e.type [ local ↦ is_metric interface e.interface | _ ↦ false ]

-- The first local route of an interface, as the loops of the next two find it.
unfoldable pub find_local_route : ℕ → List TableEntry → Option TableEntry
unfolding is_local_route
find_local_route interface [] = none
find_local_route interface (e ∷ es) =
    let rest = find_local_route interface es in if is_local_route interface e then some e else rest

unfoldable pub tell_local_route : ℕ → ℕ → List TableEntry → Option RipMessage
unfolding find_local_route make_message
tell_local_route cost interface entries = elim (find_local_route interface entries) [
  | none ↦ make_message response [] []
  | some e ↦
      let told : RipEntry = record { cost = cost; address = get_addr_host e.addr; mask = e.mask } in
      make_message response (told ∷ []) (e.gateway ∷ [])
]

-- `enableLocalRouteNoLock_`, which leaves the table as it is.
unfoldable pub enable_local_route : ℕ → List TableEntry → Option RipMessage
unfolding tell_local_route
enable_local_route interface entries = tell_local_route 0 interface entries

-- `disableLocalRouteNoLock_`, which leaves the table as it is.
unfoldable pub disable_local_route : ℕ → List TableEntry → Option RipMessage
unfolding tell_local_route
disable_local_route interface entries = tell_local_route infinity interface entries

-- The loop of `generateRipEntries_`; `value()` throws on a route with no metric.
unfoldable pub generate_loop : List TableEntry → Option (List RipEntry)
generate_loop [] = some []
generate_loop (e ∷ es) = do
  metric ← e.metric
  rest ← generate_loop es
  some (record { cost = to_u32 metric; address = get_addr_host e.addr; mask = e.mask } ∷ rest)

unfoldable pub generate_rip_entries : List TableEntry → Option RipMessage
unfolding generate_loop make_message
generate_rip_entries entries = do
  told ← generate_loop entries
  make_message response told (map (λ e. e.gateway) entries)

-- What `removeStaleRipEntries_` does with an entry.
pub data Fate : Type 0 where
  stays poisoned expired : Fate

unfoldable pub fate : ℕ → ℕ → TableEntry → Fate
unfolding is_metric
fate now expiration_time e = elim e.type [
  | rip ↦
      if is_metric infinity e.metric
      then poisoned
      else if ltb expiration_time (now - e.last_refresh)
      then expired
      else stays
  | _ ↦ stays
]

-- What `*it = entries_.back(); entries_.pop_back()` leaves of the entries after `it`: the last one is
-- now the first.
unfoldable pub back_first : List TableEntry → List TableEntry
back_first [] = []
back_first (e ∷ es) = elim (back_first es) [ [] ↦ e ∷ [] | last ∷ init ↦ last ∷ e ∷ init ]

unfoldable pub expired_entry : TableEntry → RipEntry
expired_entry e = record { cost = infinity; address = get_addr_host e.addr; mask = e.mask }

-- The loop of `removeStaleRipEntries_`, with the entries before `it` and those from it on: the table
-- and the expired entries. `none` is a loop that has run out of rounds.
unfoldable pub remove_loop :
    ℕ → ℕ → ℕ → List TableEntry → List TableEntry → Option (List TableEntry × List RipEntry)
remove_loop now expiration_time rounds before [] = some (before, [])
remove_loop now expiration_time zero before (e ∷ es) = none
remove_loop now expiration_time (suc rounds) before (e ∷ es) = elim (fate now expiration_time e) [
  | stays ↦ remove_loop now expiration_time rounds (before ++ (e ∷ [])) es
  | poisoned ↦ remove_loop now expiration_time rounds before (back_first es)
  | expired ↦ do
    r ← remove_loop now expiration_time rounds before (back_first es)
    some (r.0, expired_entry e ∷ r.1)
]

-- `removeStaleRipEntries_`: the table, and the triggered update. As many rounds are enough as there
-- are entries.
unfoldable pub remove_stale_rip_entries :
    ℕ → ℕ → List TableEntry → Option (List TableEntry × Option RipMessage)
unfolding remove_loop make_message
remove_stale_rip_entries now expiration_time entries = do
  r ← remove_loop now expiration_time (length entries) [] entries
  some (r.0, make_message response r.1 (map (λ e. none) r.1))
