-- ===== src/Ip/Tests.antt =====
-- The theorems on lib/include/ip and lib/src/ip at concrete tables and messages.
mod Datagrams
mod Routes
use tns.Common.{◌≤◌, ◌≡◌, refl, none, some, List, [], ◌∷◌, All, arith}
use tns.Ip.Address.{Ipv4Address}
use tns.Ip.Rip.{
  RipEntry, RipMessage, infinity, make_message, message_payload, parse_message, response,
}
use tns.Ip.Rip.Wire.{FitsWords, heard_entries, parse_message-payload}
use tns.Ip.Routing.{local, TableEntry, handle_rip_loop, query_longest_prefix_match}
use tns.Ip.Routing.Lookup.{IsBest, query_longest_prefix_match-IsBest}
use tns.Ip.Routing.Update.{InRange, local_routes}
use tns.Ip.Routing.Learn.{handle_rip_loop-local_routes, handle_rip_loop-InRange}

abbrev neighbour : Ipv4Address
neighbour = record { addr = 0x0200000a; port = 0 }

abbrev home : TableEntry
home = record {
  type = local;
  addr = record { addr = 0x0000000a; port = 0 };
  mask = 0xffffff00;
  gateway = none;
  interface = some 0;
  metric = some 0;
  last_refresh = 0;
}

abbrev told : List RipEntry
told = record { cost = 2; address = 0x0a010000; mask = 0xffffff00 } ∷ []

told-fits : All (λ r. r.cost ≤ infinity) told
told-fits = (omega arith, tt)

query_longest_prefix_match-IsBest_example :
    IsBest neighbour none (home ∷ []) (query_longest_prefix_match (home ∷ []) neighbour)
query_longest_prefix_match-IsBest_example = query_longest_prefix_match-IsBest (home ∷ []) neighbour

home-InRange : All InRange (home ∷ [])
home-InRange = ((λ m k p. absurd (k refl)), tt)

abbrev message : RipMessage
message = record { command = response; num_entries = 1; entries = told; learned_from = none ∷ [] }

message-made : make_message response told (none ∷ []) ≡ some message
unfolding make_message
message-made = refl

told-FitsWords : All FitsWords told
told-FitsWords = (record { cost = omega arith; address = omega arith; mask = omega arith }, tt)

parse_message-payload_example :
    parse_message (message_payload neighbour message)
    ≡ some (record {
      command = response;
      num_entries = 1;
      entries = heard_entries neighbour told (none ∷ []);
      learned_from = [];
    })
parse_message-payload_example =
    parse_message-payload neighbour response told (none ∷ []) message (omega arith) told-FitsWords
      message-made
