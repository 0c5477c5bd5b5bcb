-- ===== src/Nodes/Configured.antt =====
-- What a node is like when it has been made of its configuration.
use Prim.Native.String.{String}
use tns.Common.{
  ℕ, ◌≡◌, ◌<◌, ◌≤◌, length-append, inl, inr, refl, sym, subst, Option, none, some, List, [], ◌∷◌,
  ◌++◌, ◌>>=◌, length, find, emplace, find-emplace, get_elem?, arith, All, All-end, All-map,
  get_elem?-end, get_elem?-kept, get_elem?-last, Bool-cases, Option-cases, bind-some,
}
use text.Mathlib.Text.{◌==◌ as str_eq}
use text.Mathlib.TextEquality.{eq_iff}
use tns.Ip.Address.{Ipv4Address, same_address, same_address_iff}
use tns.Ip.Routing.{TableEntry, local, static}
use tns.Ip.Routing.Upkeep.{add_entry}
use tns.Nodes.{NetworkInterface, NetworkNode, address_eq, string_eq}
use tns.Nodes.NextHop.{IsSorted}
use tns.Nodes.Sorting.{sort_addresses-IsSorted}
use tns.Nodes.Configuration.{
  InterfaceData, read_neighbors, sort_addresses, register, make_interface, add_interface,
  add_interfaces, initialize, add_static_routes, make_host, make_router, read_addresses,
}

-- A route leads out by an interface of the node, or over a gateway.
abbrev pub LeadsOut : NetworkNode → TableEntry → Type 0
LeadsOut n e = (e.gateway ≡ none) → (i : ℕ) × (e.interface ≡ some i) × (i < length n.interfaces)

-- Each interface is found by its address and its name, and by no other; its neighbours are sorted; and
-- every route leads out by an interface or over a gateway.
pub record IsConfigured (n : NetworkNode) : Type 0 where
  pub by_address :
      (i : ℕ) (f : NetworkInterface)
      → get_elem? n.interfaces i ≡ some f
      → find f.ip_address n.interfaces_by_addr ≡ some i
  pub by_name :
      (i : ℕ) (f : NetworkInterface)
      → get_elem? n.interfaces i ≡ some f
      → find f.name n.interfaces_by_name ≡ some i
  pub address_of :
      (a : Ipv4Address) (i : ℕ)
      → find a n.interfaces_by_addr ≡ some i
      → (f : NetworkInterface) × (get_elem? n.interfaces i ≡ some f) × (f.ip_address ≡ a)
  pub name_of :
      (s : String) (i : ℕ)
      → find s n.interfaces_by_name ≡ some i
      → (f : NetworkInterface) × (get_elem? n.interfaces i ≡ some f) × (f.name ≡ s)
  pub sorted : All (λ f. IsSorted f.neighbors) n.interfaces
  pub routes : All (LeadsOut n) n.entries

make_interface-made :
    (d : InterfaceData) (f : NetworkInterface)
    → make_interface d ≡ some f
    → IsSorted f.neighbors × (f.name ≡ d.name) × ((m : ℕ) × (d.subnet ≡ some (f.ip_address, m)))
unfolding make_interface
make_interface-made d f h = elim (Option-cases d.subnet) [
  | inl n ↦ absurd (ground (arith, n, h))
  | inr (s, n) ↦ elim (Option-cases (read_neighbors d.ip_addrs d.udp_addrs)) [
    | inl m ↦ absurd (ground (arith, n, m, h))
    | inr (xs, m) ↦
        let same : (sort_addresses xs ≡ f.neighbors) × (d.name ≡ f.name) × (s.0 ≡ f.ip_address) =
          ground (arith, n, m, h) in
        (
          subst IsSorted same.0 (sort_addresses-IsSorted xs),
          sym same.1,
          (s.1, ground (arith, n, same)),
        )
  ]
]

LeadsOut-more :
    (n n' : NetworkNode) (e : TableEntry)
    → length n.interfaces ≤ length n'.interfaces
    → LeadsOut n e
    → LeadsOut n' e
LeadsOut-more n n' e h s g = let (i, p, q) = s g in (i, p, omega arith)

pub register-IsConfigured :
    (now : ℕ) (d : InterfaceData) (f : NetworkInterface) (n n' : NetworkNode)
    → make_interface d ≡ some f
    → register now d f n ≡ some n'
    → IsConfigured n
    → IsConfigured n'
unfolding register
register-IsConfigured now d f n n' made h c =
    let (sorted, name, of_mask) = make_interface-made d f made in
    let (mask, subnet) = of_mask in
    let i = length n.interfaces in
    let e : TableEntry = record {
      type = local;
      addr = f.ip_address;
      mask = mask;
      gateway = none;
      interface = some i;
      metric = some 0;
      last_refresh = now;
    } in
    let n2 : NetworkNode = record {
      interfaces = n.interfaces ++ (f ∷ []);
      interfaces_by_addr = emplace f.ip_address i n.interfaces_by_addr;
      interfaces_by_name = emplace f.name i n.interfaces_by_name;
      entries = n.entries ++ (e ∷ []);
    } in
    let facts : (find f.ip_address n.interfaces_by_addr ≡ none)
        × (find f.name n.interfaces_by_name ≡ none)
        × (n2 ≡ n') =
      ground (arith, h, subnet) in
    let (new_addr, new_name, same) = facts in
    let at = λ (a : Ipv4Address). find-emplace a f.ip_address i n.interfaces_by_addr new_addr in
    let called = λ (s : String). find-emplace s f.name i n.interfaces_by_name new_name in
    let longer = length-append n.interfaces (f ∷ []) in
    subst IsConfigured same (record {
      by_address = λ j g k. elim (get_elem?-end n.interfaces f g j k) [
        | inl old ↦ ground (
          arith,
          at g.ip_address,
          c.by_address j g old,
          new_addr,
          same_address_iff g.ip_address f.ip_address,
        )
        | inr (last, is) ↦
            ground (arith, at g.ip_address, last, is, same_address_iff g.ip_address f.ip_address)
      ];
      by_name = λ j g k. elim (get_elem?-end n.interfaces f g j k) [
        | inl old ↦ ground (arith, called g.name, c.by_name j g old, new_name, eq_iff g.name f.name)
        | inr (last, is) ↦ ground (arith, called g.name, last, is, eq_iff g.name f.name)
      ];
      address_of = λ a j k. elim (Bool-cases (same_address a f.ip_address)) [
        | inl t ↦ (
          f,
          ground (arith, at a, t, k, get_elem?-last n.interfaces f),
          ground (arith, same_address_iff a f.ip_address),
        )
        | inr t ↦
            let (g, p, q) = c.address_of a j (ground (arith, at a, t, k)) in
            (g, get_elem?-kept n.interfaces f g j p, q)
      ];
      name_of = λ s j k. elim (Bool-cases (str_eq s f.name)) [
        | inl t ↦ (
          f,
          ground (arith, called s, t, k, get_elem?-last n.interfaces f),
          ground (arith, eq_iff s f.name),
        )
        | inr t ↦
            let (g, p, q) = c.name_of s j (ground (arith, called s, t, k)) in
            (g, get_elem?-kept n.interfaces f g j p, q)
      ];
      sorted = All-end (λ g. IsSorted g.neighbors) n.interfaces f sorted c.sorted;
      routes =
          All-end (LeadsOut n2) n.entries e (λ g. (i, refl, omega (arith, longer)))
            (All-map (LeadsOut n) (LeadsOut n2) n.entries
              (λ x. LeadsOut-more n n2 x (omega (arith, longer))) c.routes);
    })

pub add_interfaces-IsConfigured :
    (now : ℕ) (ds : List InterfaceData) (n n' : NetworkNode)
    → add_interfaces now ds n ≡ some n'
    → IsConfigured n
    → IsConfigured n'
unfolding add_interfaces add_interface
add_interfaces-IsConfigured now [] n n' h c = subst IsConfigured (ground (arith, h)) c
add_interfaces-IsConfigured now (d ∷ ds) n n' h c =
    let (n1, p, q) = bind-some (add_interface now d n) (add_interfaces now ds) n' h in
    let (f, made, r) = bind-some (make_interface d) (λ f. register now d f n) n1 p in
    add_interfaces-IsConfigured now ds n1 n' q (register-IsConfigured now d f n n1 made r c)

-- Before any interface, there is nothing that could be wrong.
pub empty-IsConfigured :
    IsConfigured
      (record { interfaces = []; interfaces_by_addr = []; interfaces_by_name = []; entries = [] })
unfolding find
empty-IsConfigured = record {
  by_address = λ i f h. absurd (ground arith);
  by_name = λ i f h. absurd (ground arith);
  address_of = λ a i h. absurd (ground arith);
  name_of = λ s i h. absurd (ground arith);
  sorted = tt;
  routes = tt;
}

-- An entry over a gateway may be added.
pub IsConfigured-entries :
    (n : NetworkNode) (es : List TableEntry)
    → IsConfigured n
    → All (LeadsOut n) es
    → IsConfigured (record n { entries = es })
IsConfigured-entries n es c h = record {
  by_address = c.by_address;
  by_name = c.by_name;
  address_of = c.address_of;
  name_of = c.name_of;
  sorted = c.sorted;
  routes = h;
}

add_static_routes-IsConfigured :
    (now : ℕ) (routes : List (Option (Ipv4Address × ℕ) × Option Ipv4Address)) (n n' : NetworkNode)
    → add_static_routes now routes n ≡ some n'
    → IsConfigured n
    → IsConfigured n'
unfolding add_static_routes add_entry
add_static_routes-IsConfigured now [] n n' h c = subst IsConfigured (ground (arith, h)) c
add_static_routes-IsConfigured now ((none, next_hop) ∷ routes) n n' h c =
    let (g, p, q) = bind-some next_hop (λ g. add_static_routes now routes n) n' h in
    add_static_routes-IsConfigured now routes n n' q c
add_static_routes-IsConfigured now ((some (a, m), next_hop) ∷ routes) n n' h c =
    let with_route : Ipv4Address → NetworkNode =
      λ g. record n { entries = add_entry static (some (a, m)) (some g) none none now n.entries } in
    let (g, p, q) = bind-some next_hop (λ g. add_static_routes now routes (with_route g)) n' h in
    add_static_routes-IsConfigured now routes (with_route g) n' q (
      IsConfigured-entries n (with_route g).entries c
        (All-end (LeadsOut n) n.entries _ (λ e. absurd (ground arith)) c.routes))

-- A host that is made of its configuration is as it should be.
pub make_host-IsConfigured :
    (now : ℕ) (ds : List InterfaceData)
    (routes : List (Option (Ipv4Address × ℕ) × Option Ipv4Address)) (n : NetworkNode)
    → make_host now ds routes ≡ some n
    → IsConfigured n
unfolding make_host initialize
make_host-IsConfigured now ds routes n h =
    let (n1, p, q) = bind-some (initialize now ds) (add_static_routes now routes) n h in
    add_static_routes-IsConfigured now routes n1 n q
      (add_interfaces-IsConfigured now ds _ n1 p empty-IsConfigured)

-- A router that is made of its configuration is as it should be.
pub make_router-IsConfigured :
    (now : ℕ) (ds : List InterfaceData) (texts : List (Option Ipv4Address)) (n : NetworkNode)
    (neighbors : List Ipv4Address)
    → make_router now ds texts ≡ some (n, neighbors)
    → IsConfigured n
unfolding make_router initialize
make_router-IsConfigured now ds texts n neighbors h =
    let (n1, p, q) =
      bind-some (initialize now ds) (λ n. do xs ← read_addresses texts; some (n, xs)) (n, neighbors)
        h in
    let (xs, r, s) = bind-some (read_addresses texts) (λ xs. some (n1, xs)) (n, neighbors) q in
    subst IsConfigured (ground (arith, s))
      (add_interfaces-IsConfigured now ds _ n1 p empty-IsConfigured)
