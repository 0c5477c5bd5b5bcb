-- ===== src/Ip/Routing/Vector.antt =====
-- The routing table as a distance vector: for each subnet, which is a masked address with its mask, the
-- first entry for it; and what a message from a neighbour does to it.
use Prim.Native.Nat.{bit_and}
use tns.Common.{
  ℕ, ◌≡◌, All, ◌&&◌, Bool, true, false, Option, none, some, List, [], ◌∷◌, ltb, ◌==◌, not,
  if◌then◌else◌,
}
use tns.Ip.Address.{Ipv4Address, hton32, get_addr_host}
use tns.Ip.Rip.{RipEntry, infinity}
use tns.Ip.Rip.Wire.{leads_over}
use tns.Ip.Routing.{rip, TableEntry}
use tns.Ip.Routing.Update.{is_local}

unfoldable pub subnet_of : Ipv4Address → ℕ → ℕ
subnet_of addr mask = bit_and (get_addr_host addr) mask

-- The subnet that a neighbour tells of.
unfoldable pub subnet_told : RipEntry → ℕ
unfolding subnet_of
subnet_told r = subnet_of (record { addr = hton32 r.address; port = 0 }) r.mask

unfoldable pub route_to : ℕ → ℕ → List TableEntry → Option TableEntry
route_to k m [] = none
route_to k m (e ∷ es) =
    if (subnet_of e.addr e.mask == k) && (e.mask == m) then some e else route_to k m es

-- A cost below that of a route, if it has one.
unfoldable pub is_nearer : ℕ → Option ℕ → Bool
is_nearer cost none = false
is_nearer cost (some m) = ltb cost m

-- What becomes of the route to a subnet that the neighbour `from` is `r.cost` away from: the next hop
-- of a route is believed, and any other neighbour only if it is nearer.
unfoldable pub hear : Option TableEntry → RipEntry → Ipv4Address → ℕ → Option TableEntry
unfolding is_local leads_over is_nearer
hear none r from now =
    if ltb r.cost infinity
    then some (record {
      type = rip;
      addr = record { addr = hton32 r.address; port = 0 };
      mask = r.mask;
      gateway = some from;
      interface = none;
      metric = some r.cost;
      last_refresh = now;
    })
    else none
hear (some e) r from now =
    if is_local e.type
    then some e
    else if leads_over e.gateway from
    then some (record e { metric = some r.cost; last_refresh = now })
    else if is_nearer r.cost e.metric
    then some (record e { metric = some r.cost; gateway = some from; last_refresh = now })
    else some e

-- The distance of a route.
unfoldable pub distance : Option TableEntry → Option ℕ
distance none = none
distance (some e) = e.metric

unfoldable pub differ : Option ℕ → Option ℕ → Bool
differ none none = false
differ (some m) (some n) = not (m == n)
differ _ _ = true

-- For each subnet, the route to it.
abbrev pub Vector : Type 0
Vector = ℕ → ℕ → Option TableEntry

abbrev pub vector : List TableEntry → Vector
vector es = λ k m. route_to k m es

-- One entry of a message, and whether the distance to its subnet changes.
unfoldable pub hear_entry : Vector → RipEntry → Ipv4Address → ℕ → Vector × Bool
unfolding hear subnet_told distance differ
hear_entry v r from now =
    let heard = hear (v (subnet_told r) r.mask) r from now in
    (
      λ k m. if (subnet_told r == k) && (r.mask == m) then heard else v k m,
      differ (distance heard) (distance (v (subnet_told r) r.mask)),
    )

-- A message, and the entries of it that change a distance.
unfoldable pub hear_all : Vector → List RipEntry → Ipv4Address → ℕ → Vector × List RipEntry
hear_all v [] from now = (v, [])
hear_all v (r ∷ rs) from now =
    let (v', changed) = hear_entry v r from now in
    let (last, news) = hear_all v' rs from now in (last, if changed then r ∷ news else news)

-- Of subnets with one masked address there is one mask, `mask_of`, among those of a table and among
-- those that a neighbour tells of.
abbrev pub HasMasks : (ℕ → ℕ) → List TableEntry → Type 0
HasMasks mask_of = All (λ e. e.mask ≡ mask_of (subnet_of e.addr e.mask))

abbrev pub TellsMasks : (ℕ → ℕ) → List RipEntry → Type 0
TellsMasks mask_of = All (λ r. r.mask ≡ mask_of (subnet_told r))
