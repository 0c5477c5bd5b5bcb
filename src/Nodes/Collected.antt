-- ===== src/Nodes/Collected.antt =====
-- The static maps of lib/src/util/lnx_parser/parse_lnx.cpp, by the names of interfaces.
use Prim.Native.String.{String}
use mathlib.Core.List.{append_assoc}
use text.Mathlib.Text.{◌==◌ as str_eq}
use tns.Common.{
  ℕ, suc, ◌≡◌, inl, inr, refl, ap, ◌∙◌, true, some, List, [], ◌∷◌, ◌++◌, if◌then◌else◌, Map, find,
  emplace, find-emplace, find-modify, map, length, arith, All, Bool-cases, Option-cases,
}
use tns.Ip.Address.{Ipv4Address}
use tns.Nodes.{string_eq}
use tns.Nodes.Configuration.{InterfaceData, read_neighbors, sort_addresses, make_interface}
use tns.Nodes.Parsing.{ConfigNeighbor, push_back, at_name}

pub at_name-emplace :
    {A : Type 0} (j k : String) (m : Map String (List A)) → at_name j (emplace k [] m) ≡ at_name j m
unfolding at_name emplace
at_name-emplace j k m = elim (Option-cases (find k m)) [
  | inl n ↦ ground (arith, find-emplace j k [] m n, n, (string_eq.same_iff j k))
  | inr (x, n) ↦ ground (arith, n)
]

pub at_name-push_back :
    {A : Type 0} (j k : String) (x : A) (m : Map String (List A))
    → at_name j (push_back k x m) ≡ (if str_eq j k then at_name j m ++ x ∷ [] else at_name j m)
unfolding at_name push_back emplace
at_name-push_back j k x m =
    let changed = find-modify j k (λ xs. xs ++ x ∷ []) (emplace k [] m) in
    elim (Option-cases (find k m)) [
      | inl n ↦ ground (arith, changed, find-emplace j k [] m n, n, (string_eq.same_iff j k))
      | inr (y, n) ↦ ground (arith, changed, n, (string_eq.same_iff j k))
    ]

-- The neighbours that a configuration gives the interface of a name, in their order.
unfoldable pub neighbors_of : String → List ConfigNeighbor → List ConfigNeighbor
neighbors_of name [] = []
neighbors_of name (n ∷ ns) =
    let rest = neighbors_of name ns in if str_eq name n.ifname then n ∷ rest else rest

pub All-neighbors_of :
    (P : ConfigNeighbor → Type 0) (name : String) (ns : List ConfigNeighbor)
    → All P ns
    → All P (neighbors_of name ns)
unfolding neighbors_of
All-neighbors_of P name [] h = tt
All-neighbors_of P name (n ∷ ns) h = elim (Bool-cases (str_eq name n.ifname)) [
  | inl t ↦ rw t (h.0, All-neighbors_of P name ns h.1)
  | inr t ↦ rw t (All-neighbors_of P name ns h.1)
]

moved :
    {A : Type 0} (f : ConfigNeighbor → A) (name : String) (n : ConfigNeighbor)
    (ns : List ConfigNeighbor) (xs : List A)
    → (if str_eq name n.ifname then xs ++ f n ∷ [] else xs) ++ map f (neighbors_of name ns)
      ≡ xs ++ map f (neighbors_of name (n ∷ ns))
unfolding neighbors_of
moved f name n ns xs = elim (Bool-cases (str_eq name n.ifname)) [
  | inl t ↦ rw t (append_assoc xs (f n ∷ []) (map f (neighbors_of name ns)))
  | inr t ↦ rw t refl
]

pub length-map : {A B : Type 0} (f : A → B) (xs : List A) → length (map f xs) ≡ length xs
length-map f [] = refl
length-map f (x ∷ xs) = ap suc (length-map f xs)

map-map :
    {A B C : Type 0} (f : A → B) (g : B → C) (xs : List A)
    → map g (map f xs) ≡ map (λ x. g (f x)) xs
map-map f g [] = refl
map-map f g (x ∷ xs) = ap (λ ys. g (f x) ∷ ys) (map-map f g xs)

pub make_interface-some :
    (d : InterfaceData) (a : Ipv4Address) (mask : ℕ) (xs : List Ipv4Address)
    → d.subnet ≡ some (a, mask)
    → length d.ip_addrs ≡ length d.udp_ports
    → length d.ip_addrs ≡ length d.udp_addrs
    → read_neighbors d.ip_addrs d.udp_addrs ≡ some xs
    → make_interface d
      ≡ some (record { name = d.name; ip_address = a; neighbors = sort_addresses xs; is_up = true })
unfolding make_interface
make_interface-some d a mask xs h l m r = ground (arith, h, l, m, r)

pub grown :
    {A : Type 0} (f : ConfigNeighbor → A) (name : String) (n : ConfigNeighbor)
    (ns : List ConfigNeighbor) (m : Map String (List A))
    → at_name name (push_back n.ifname (f n) m) ++ map f (neighbors_of name ns)
      ≡ at_name name m ++ map f (neighbors_of name (n ∷ ns))
grown f name n ns m =
    ap (λ xs. xs ++ map f (neighbors_of name ns)) (at_name-push_back name n.ifname (f n) m)
    ∙ moved f name n ns (at_name name m)
