-- ===== src/Nodes/Taken.antt =====
-- Interfaces that the constructor of lib/src/network_node.cpp takes.
use mathlib.Core.List.{append_assoc, append-nil}
use tns.Common.{
  ℕ, ◌≡◌, ◌≢◌, inl, inr, refl, sym, ap, subst, ◌∙◌, none, some, List, [], ◌∷◌, ◌++◌, find, emplace,
  length, All, All-end, All-get_elem?, Option-cases,
}
use tns.Ip.Routing.{local}
use tns.Ip.Routing.Upkeep.{add_entry}
use tns.Nodes.{NetworkInterface, NetworkNode, address_eq, string_eq}
use tns.Nodes.Configuration.{InterfaceData, register, add_interface, add_interfaces, initialize}
use tns.Nodes.Configured.{IsConfigured, register-IsConfigured, empty-IsConfigured}
use tns.Nodes.Parsed.{Makes}

abbrev pub AreApart : NetworkInterface → NetworkInterface → Type 0
AreApart f g = (f.ip_address ≢ g.ip_address) × (f.name ≢ g.name)

-- No two interfaces have one address or one name.
unfoldable pub AreAllApart : List NetworkInterface → Type 0
AreAllApart [] = Unit
AreAllApart (f ∷ fs) = All (λ g. AreApart g f) fs × AreAllApart fs

-- An interface whose address and name are new is taken.
register-taken :
    (now : ℕ) (d : InterfaceData) (f : NetworkInterface) (n : NetworkNode)
    → IsConfigured n
    → All (AreApart f) n.interfaces
    → (n' : NetworkNode) × (register now d f n ≡ some n') × (n'.interfaces ≡ n.interfaces ++ f ∷ [])
unfolding register
register-taken now d f n c apart =
    let new_addr : find f.ip_address n.interfaces_by_addr ≡ none =
      elim (Option-cases (find f.ip_address n.interfaces_by_addr)) [
        | inl h ↦ h
        | inr (i, h) ↦
            let (g, p, q) = c.address_of f.ip_address i h in
            absurd ((All-get_elem? (AreApart f) n.interfaces i g p apart).0 (sym q))
      ] in
    let new_name : find f.name n.interfaces_by_name ≡ none =
      elim (Option-cases (find f.name n.interfaces_by_name)) [
        | inl h ↦ h
        | inr (i, h) ↦
            let (g, p, q) = c.name_of f.name i h in
            absurd ((All-get_elem? (AreApart f) n.interfaces i g p apart).1 (sym q))
      ] in
    (
      record {
        interfaces = n.interfaces ++ (f ∷ []);
        interfaces_by_addr = emplace f.ip_address (length n.interfaces) n.interfaces_by_addr;
        interfaces_by_name = emplace f.name (length n.interfaces) n.interfaces_by_name;
        entries = add_entry local d.subnet none (some (length n.interfaces)) (some 0) now n.entries;
      },
      rw (new_addr, new_name) refl,
      refl,
    )

apart-end :
    (xs : List NetworkInterface) (f : NetworkInterface) (fs : List NetworkInterface)
    → All (λ g. All (AreApart g) xs) fs
    → All (λ g. AreApart g f) fs
    → All (λ g. All (AreApart g) (xs ++ f ∷ [])) fs
apart-end xs f [] h k = tt
apart-end xs f (g ∷ fs) h k = (All-end (AreApart g) xs f k.0 h.0, apart-end xs f fs h.1 k.1)

-- All of them are, if no two are alike.
add_interfaces-taken :
    (now : ℕ) (ds : List InterfaceData) (fs : List NetworkInterface) (n : NetworkNode)
    → IsConfigured n
    → Makes ds fs
    → All (λ f. All (AreApart f) n.interfaces) fs
    → AreAllApart fs
    → (n' : NetworkNode) × (add_interfaces now ds n ≡ some n')
      × (n'.interfaces ≡ n.interfaces ++ fs)
unfolding add_interfaces add_interface Makes AreAllApart
add_interfaces-taken now [] [] n c m new apart = (n, refl, sym (append-nil n.interfaces))
add_interfaces-taken now [] (f ∷ fs) n c m new apart = absurd m
add_interfaces-taken now (d ∷ ds) [] n c m new apart = absurd m
add_interfaces-taken now (d ∷ ds) (f ∷ fs) n c m new apart =
    let (n1, p, q) = register-taken now d f n c new.0 in
    let more : All (λ g. All (AreApart g) n1.interfaces) fs =
      subst (λ xs. All (λ g. All (AreApart g) xs) fs) (sym q)
        (apart-end n.interfaces f fs new.1 apart.0) in
    let (n2, r, s) =
      add_interfaces-taken now ds fs n1 (register-IsConfigured now d f n n1 m.0 p c) m.1 more
        apart.1 in
    (n2, rw (m.0, p) r, s ∙ ap (λ xs. xs ++ fs) q ∙ append_assoc n.interfaces (f ∷ []) fs)

apart_from_none : (fs : List NetworkInterface) → All (λ f. All (AreApart f) []) fs
apart_from_none [] = tt
apart_from_none (f ∷ fs) = (tt, apart_from_none fs)

-- Interfaces that make what no two of are alike are all taken.
pub initialize-taken :
    (now : ℕ) (ds : List InterfaceData) (fs : List NetworkInterface)
    → Makes ds fs
    → AreAllApart fs
    → (n : NetworkNode) × (initialize now ds ≡ some n) × (n.interfaces ≡ fs)
unfolding initialize
initialize-taken now ds fs m apart =
    add_interfaces-taken now ds fs
      (record { interfaces = []; interfaces_by_addr = []; interfaces_by_name = []; entries = [] })
      empty-IsConfigured m (apart_from_none fs) apart
