-- ===== src/Ip/Routing/Update.antt =====
-- What an update from a neighbour does to the table.
use tns.Common.{
  ℕ, ◌≤◌, ◌≡◌, ◌≢◌, ◌⊎◌, inl, inr, refl, Bool, true, false, Option, some, List, [], ◌∷◌, ◌++◌,
  if◌then◌else◌, arith, Bool-cases, Option-cases, All,
}
use tns.Ip.Address.{Ipv4Address, same_address}
use tns.Ip.Rip.{RipEntry, infinity}
use tns.Ip.Routing.{
  EntryType, local, rip, static, TableEntry, is_entry_for, find_entry, refresh_entry, is_cheaper,
  is_metric, is_gateway,
}

-- A table where every entry that is not local has at most infinite cost, if it has any.
abbrev pub InRange : TableEntry → Type 0
InRange e = (m : ℕ) → e.type ≢ local → e.metric ≡ some m → m ≤ infinity

-- The local routes of a table.
unfoldable pub is_local : EntryType → Bool
is_local local = true
is_local rip = false
is_local static = false

unfoldable pub local_routes : List TableEntry → List TableEntry
unfolding is_local
local_routes [] = []
local_routes (e ∷ es) = let rest = local_routes es in if is_local e.type then e ∷ rest else rest

-- How one entry may change when the neighbour `from` tells of a route at `cost`: only if it is no
-- local route, and then to a route over that neighbour at that cost, which was its next hop already
-- or was dearer before.
pub record Refreshes (from : Ipv4Address) (cost now : ℕ) (e e' : TableEntry) (told : Bool)
    : Type 0 where
  pub type : e'.type ≡ e.type
  pub addr : e'.addr ≡ e.addr
  pub mask : e'.mask ≡ e.mask
  pub interface : e'.interface ≡ e.interface
  pub local_same : e.type ≡ local → e' ≡ e
  pub untold : told ≡ false → (e'.gateway ≡ e.gateway) × (e'.metric ≡ e.metric)
  pub told_route :
      told ≡ true
      → (e'.gateway ≡ some from)
        × (e'.metric ≡ some cost)
        × (e'.last_refresh ≡ now)
        × (e.metric ≢ some cost)
  pub told_reason : told ≡ true → (is_cheaper cost e.metric ≡ true) ⊎ (e.gateway ≡ some from)

refresh_by_type :
    (type : EntryType) (addr : Ipv4Address) (mask : ℕ) (gateway : Option Ipv4Address)
    (interface : Option ℕ) (metric : Option ℕ) (last : ℕ) (r : RipEntry) (from : Ipv4Address)
    (now : ℕ)
    → let e : TableEntry = record {
      type = type;
      addr = addr;
      mask = mask;
      gateway = gateway;
      interface = interface;
      metric = metric;
      last_refresh = last;
    } in
      let (e', told) = refresh_entry e r from now in Refreshes from r.cost now e e' told
unfolding refresh_entry is_cheaper is_metric is_gateway same_address
refresh_by_type local addr mask gateway interface metric last r from now = ground arith
refresh_by_type rip addr mask gateway interface metric last r from now = ground arith
refresh_by_type static addr mask gateway interface metric last r from now = ground arith

pub refresh_entry-Refreshes :
    (e : TableEntry) (r : RipEntry) (from : Ipv4Address) (now : ℕ)
    → let (e', told) = refresh_entry e r from now in Refreshes from r.cost now e e' told
refresh_entry-Refreshes e r from now =
    refresh_by_type e.type e.addr e.mask e.gateway e.interface e.metric e.last_refresh r from now

pub is_local-cases : (t : EntryType) → (t ≡ local) ⊎ (is_local t ≡ false)
unfolding is_local
is_local-cases local = inl refl
is_local-cases rip = inr refl
is_local-cases static = inr refl

pub local_routes-append :
    (xs ys : List TableEntry) → local_routes (xs ++ ys) ≡ local_routes xs ++ local_routes ys
unfolding local_routes
local_routes-append [] ys = refl
local_routes-append (x ∷ xs) ys = ground (arith, local_routes-append xs ys)

pub local_routes-swap :
    (before after : List TableEntry) (e e' : TableEntry)
    → e'.type ≡ e.type
    → (e.type ≡ local → e' ≡ e)
    → local_routes (before ++ e' ∷ after) ≡ local_routes (before ++ e ∷ after)
unfolding local_routes is_local
local_routes-swap [] after e e' t l = elim (is_local-cases e.type) [
  | inl p ↦ ground (arith, l p)
  | inr p ↦ ground (arith, t, p)
]
local_routes-swap (x ∷ xs) after e e' t l = ground (arith, local_routes-swap xs after e e' t l)

pub find_entry-split :
    (entries : List TableEntry) (addr : Ipv4Address) (mask : ℕ) (before after : List TableEntry)
    (e : TableEntry)
    → find_entry entries addr mask ≡ some (before, e, after)
    → (entries ≡ before ++ e ∷ after) × (is_entry_for addr mask e ≡ true)
unfolding find_entry
find_entry-split [] addr mask before after e h = ground (arith, h)
find_entry-split (x ∷ xs) addr mask before after e h =
    elim (Bool-cases (is_entry_for addr mask x)) [
      | inl t ↦ ground (arith, rw t at h, t)
      | inr t ↦ elim (Option-cases (find_entry xs addr mask)) [
        | inl n ↦ ground (arith, n, t, h)
        | inr (r, n) ↦
            let (b, f, a) = r in ground (arith, find_entry-split xs addr mask b a f n, n, t, h)
      ]
    ]

pub All-middle :
    (P : TableEntry → Type 0) (before after : List TableEntry) (e e' : TableEntry)
    → (P e → P e')
    → All P (before ++ e ∷ after)
    → All P (before ++ e' ∷ after)
All-middle P [] after e e' f h = (f h.0, h.1)
All-middle P (x ∷ xs) after e e' f h = (h.0, All-middle P xs after e e' f h.1)
