-- ===== src/Nodes/Sorting.antt =====
-- The sorting of the neighbours in the constructor of lib/src/network_interface.cpp.
use tns.Common.{◌≡◌, true, false, List, [], ◌∷◌, arith, All, Bool-cases, inl, inr}
use tns.Ip.Address.{Ipv4Address, less_address}
use tns.Nodes.NextHop.{IsSorted}
use tns.Nodes.Configuration.{insert_address, sort_addresses}

-- `less_address` is transitive in this form on what `std::sort` compares.
less_address_trans :
    (a b c : Ipv4Address)
    → less_address b a ≡ false
    → less_address c b ≡ false
    → less_address c a ≡ false
unfolding less_address
less_address_trans a b c h k = ground arith

less_address_asym : (a b : Ipv4Address) → less_address b a ≡ true → less_address a b ≡ false
unfolding less_address
less_address_asym a b h = ground arith

All-insert :
    (x a : Ipv4Address) (others : List Ipv4Address)
    → less_address a x ≡ false
    → All (λ b. less_address b x ≡ false) others
    → All (λ b. less_address b x ≡ false) (insert_address a others)
unfolding insert_address
All-insert x a [] h s = (h, tt)
All-insert x a (b ∷ others) h s = elim (Bool-cases (less_address b a)) [
  | inl t ↦ rw t (s.0, All-insert x a others h s.1)
  | inr t ↦ rw t (h, s)
]

All-trans :
    (a b : Ipv4Address) (others : List Ipv4Address)
    → less_address b a ≡ false
    → All (λ c. less_address c b ≡ false) others
    → All (λ c. less_address c a ≡ false) others
All-trans a b [] h s = tt
All-trans a b (c ∷ others) h s = (less_address_trans a b c h s.0, All-trans a b others h s.1)

insert_address-IsSorted :
    (a : Ipv4Address) (others : List Ipv4Address)
    → IsSorted others
    → IsSorted (insert_address a others)
unfolding insert_address IsSorted
insert_address-IsSorted a [] s = (tt, tt)
insert_address-IsSorted a (b ∷ others) s = elim (Bool-cases (less_address b a)) [
  | inl t ↦
      rw t
        (All-insert b a others (less_address_asym a b t) s.0, insert_address-IsSorted a others s.1)
  | inr t ↦ rw t ((t, All-trans a b others t s.0), s)
]

-- The neighbours of an interface are sorted.
pub sort_addresses-IsSorted : (xs : List Ipv4Address) → IsSorted (sort_addresses xs)
unfolding sort_addresses IsSorted
sort_addresses-IsSorted [] = tt
sort_addresses-IsSorted (a ∷ xs) =
    insert_address-IsSorted a (sort_addresses xs) (sort_addresses-IsSorted xs)
