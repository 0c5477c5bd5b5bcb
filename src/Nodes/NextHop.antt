-- ===== src/Nodes/NextHop.antt =====
-- The binary search among the neighbours finds exactly those there are.
use tns.Common.{
  ◌^◌, ◌<◌, ◌≡◌, refl, true, false, Option, none, some, List, [], ◌∷◌, arith, if◌then◌else◌, All,
  Bool-cases, inl, inr,
}
use tns.Ip.Address.{
  Ipv4Address, same_address, same_address_iff, less_address, hton16-hton16, hton32-hton32,
}
use tns.Nodes.{lower_bound, find_next_hop}

-- An address and a port that fit their words.
pub record FitsAddress (a : Ipv4Address) : Type 0 where
  pub addr : a.addr < 2 ^ 32
  pub port : a.port < 2 ^ 16

-- `std::sort`: no neighbour is less than one before it.
unfoldable pub IsSorted : List Ipv4Address → Type 0
IsSorted [] = Unit
IsSorted (a ∷ others) = All (λ b. less_address b a ≡ false) others × IsSorted others

-- The first neighbour with an address, by a look at each.
unfoldable pub look_up : Ipv4Address → List Ipv4Address → Option Ipv4Address
look_up addr [] = none
look_up addr (a ∷ others) =
    let rest = look_up addr others in if same_address addr a then some a else rest

-- Neither is less: they are the same.
trichotomy :
    (a b : Ipv4Address)
    → FitsAddress a
    → FitsAddress b
    → less_address a b ≡ false
    → less_address b a ≡ false
    → same_address a b ≡ true
unfolding less_address same_address
trichotomy a b fa fb h k =
    let aa = hton32-hton32 a.addr fa.addr in
    let bb = hton32-hton32 b.addr fb.addr in
    let ap' = hton16-hton16 a.port fa.port in
    let bp = hton16-hton16 b.port fb.port in (ground (arith, aa, bb, ap', bp))

irreflexive : (a b : Ipv4Address) → same_address a b ≡ true → less_address a b ≡ false
unfolding less_address same_address
irreflexive a b h = ground arith

-- An address less than all is not among them.
look_up-less :
    (addr a : Ipv4Address) (others : List Ipv4Address)
    → less_address addr a ≡ true
    → All (λ b. less_address b a ≡ false) others
    → look_up addr others ≡ none
unfolding look_up
look_up-less addr a [] h s = refl
look_up-less addr a (b ∷ others) h (hb, s) =
    ground (arith, look_up-less addr a others h s, same_address_iff addr b)

-- Among sorted neighbours, the search finds what a look at each of them finds.
pub find_next_hop-look_up :
    (addr : Ipv4Address) (neighbors : List Ipv4Address)
    → FitsAddress addr
    → All FitsAddress neighbors
    → IsSorted neighbors
    → find_next_hop addr neighbors ≡ look_up addr neighbors
unfolding find_next_hop lower_bound look_up IsSorted
find_next_hop-look_up addr [] fa fn s = refl
find_next_hop-look_up addr (a ∷ others) fa (fb, fn) (least, s) =
    let rest = find_next_hop-look_up addr others fa fn s in
    elim (Bool-cases (less_address a addr)) [
      | inl less ↦
          ground (
            arith,
            rest,
            less,
            irreflexive a addr,
            same_address_iff a addr,
            same_address_iff addr a,
          )
      | inr more ↦ elim (Bool-cases (less_address addr a)) [
        | inl below ↦ ground (arith, look_up-less addr a others below least, irreflexive addr a)
        | inr equal ↦ ground (arith, trichotomy addr a fa fb equal more)
      ]
    ]
