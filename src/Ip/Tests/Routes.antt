-- ===== src/Ip/Tests/Routes.antt =====
-- The theorem on periodic messages at two routers.
use tns.Common.{ℕ, ◌==◌, if◌then◌else◌, ◌≡◌, refl, none, some, List, [], ◌∷◌, All, arith}
use tns.Ip.Address.{Ipv4Address, hton32}
use tns.Ip.Rip.{RipEntry, RipMessage, make_message, message_payload, parse_message, response}
use tns.Ip.Routing.{local, rip, TableEntry, handle_rip_loop}
use tns.Ip.Routing.Upkeep.{generate_rip_entries, generate_loop}
use tns.Ip.Routing.Vector.{HasMasks, TellsMasks, subnet_told, route_to, subnet_of, vector, hear_all}
use tns.Ip.Routing.Hearing.{handle_rip_loop-hear_all}
use tns.Ip.Routing.Neighbors.{IsTold, AreDistinct, updated, generate_rip_entries-updated}

abbrev sender : Ipv4Address
sender = record { addr = 0x0200000a; port = 0 }

abbrev neighbor : Ipv4Address
neighbor = record { addr = 0x0100000a; port = 0 }

-- 10.0.0.0/24 is on a link of the sender, and 10.1.0.0/24 is reached over the neighbour.
abbrev on_link : TableEntry
on_link = record {
  type = local;
  addr = record { addr = 0x0000000a; port = 0 };
  mask = 0xffffff00;
  gateway = none;
  interface = some 0;
  metric = some 0;
  last_refresh = 0;
}

abbrev learned : TableEntry
learned = record {
  type = rip;
  addr = record { addr = 0x0000010a; port = 0 };
  mask = 0xffffff00;
  gateway = some neighbor;
  interface = none;
  metric = some 3;
  last_refresh = 5;
}

abbrev routes : List TableEntry
routes = on_link ∷ learned ∷ []

routes-IsTold : All IsTold routes
routes-IsTold = (
  record { addr = omega arith; mask = omega arith; in_range = λ c p. ground (arith, p) },
  (record { addr = omega arith; mask = omega arith; in_range = λ c p. ground (arith, p) }, tt),
)

routes-AreDistinct : AreDistinct routes
unfolding route_to subnet_of hton32
routes-AreDistinct = (refl, (refl, tt))

abbrev told : RipMessage
told = record {
  command = response;
  num_entries = 2;
  entries =
      record { cost = 0; address = 0x0a000000; mask = 0xffffff00 }
      ∷ record { cost = 3; address = 0x0a010000; mask = 0xffffff00 }
      ∷ [];
  learned_from = none ∷ some neighbor ∷ [];
}

told-generated : generate_rip_entries routes ≡ some told
unfolding generate_rip_entries generate_loop make_message hton32
told-generated = refl

abbrev heard : List RipEntry
heard = record { cost = 4; address = 0x0a020000; mask = 0xffff0000 } ∷ []

-- 10.2.0.0/16, and all else of 24 bits.
abbrev mask_of : ℕ → ℕ
mask_of k = if k == 0x0a020000 then 0xffff0000 else 0xffffff00

routes-HasMasks : HasMasks mask_of routes
unfolding subnet_of hton32
routes-HasMasks = (refl, (refl, tt))

heard-TellsMasks : TellsMasks mask_of heard
unfolding subnet_told hton32
heard-TellsMasks = (refl, tt)

-- The neighbour has a route over another router.
abbrev other : TableEntry
other = record learned { gateway = some (record { addr = 0x0300000a; port = 0 }) }

other-HasMasks : HasMasks mask_of (other ∷ [])
unfolding subnet_of hton32
other-HasMasks = (refl, tt)

generate_rip_entries-updated_example :
    (read : RipMessage) × (parse_message (message_payload neighbor told) ≡ some read)
    × (read.command ≡ response)
    × (route_to 0x0a000000 0xffffff00 (handle_rip_loop (other ∷ []) read.entries sender 9).0
        ≡ updated
            (route_to 0x0a000000 0xffffff00 (other ∷ []))
            (route_to 0x0a000000 0xffffff00 routes)
            neighbor
            sender
            9)
generate_rip_entries-updated_example =
    generate_rip_entries-updated mask_of routes (other ∷ []) told neighbor sender 9 0x0a000000
      0xffffff00 routes-IsTold routes-AreDistinct routes-HasMasks other-HasMasks told-generated

handle_rip_loop-hear_all_example :
    let (last, news) = handle_rip_loop routes heard sender 9 in
    (vector last, news) ≡ hear_all (vector routes) heard sender 9
handle_rip_loop-hear_all_example =
    handle_rip_loop-hear_all mask_of routes heard sender 9 routes-HasMasks heard-TellsMasks
