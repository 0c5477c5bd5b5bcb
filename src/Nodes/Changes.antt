-- ===== src/Nodes/Changes.antt =====
-- What changes the routes and the interfaces of a node leaves it as it should be.
use tns.Common.{
  ℕ, zero, suc, ◌≡◌, inl, inr, refl, sym, subst, ◌∙◌, Bool, true, false, some, List, [], ◌∷◌, ◌++◌,
  length-set, get_elem?, get_elem?-set, get_elem?-set_kept, ltb, arith, All, All-end, All-map,
  All-set, List-cases, Bool-cases, Option-cases,
}
use tns.Ip.Address.{Ipv4Address, hton32}
use tns.Ip.Rip.{RipEntry, infinity}
use tns.Ip.Routing.{TableEntry, find_entry, refresh_entry, handle_rip_entry, handle_rip_loop}
use tns.Ip.Routing.Update.{Refreshes, refresh_entry-Refreshes, find_entry-split, All-middle}
use tns.Ip.Routing.Stale.{fate-cases}
use tns.Ip.Routing.Upkeep.{back_first, remove_loop}
use tns.Nodes.{NetworkInterface, NetworkNode, string_eq}
use tns.Nodes.NextHop.{IsSorted}
use tns.Nodes.Configured.{LeadsOut, IsConfigured}
use tns.Nodes.Router.{turn}

-- What a neighbour tells of leads over that neighbour.
LeadsOut-Refreshes :
    (n : NetworkNode) (from : Ipv4Address) (cost now : ℕ) (e e' : TableEntry) (told : Bool)
    → Refreshes from cost now e e' told
    → LeadsOut n e
    → LeadsOut n e'
LeadsOut-Refreshes n from cost now e e' true c h g = absurd (ground (arith, c.told_route refl, g))
LeadsOut-Refreshes n from cost now e e' false c h g =
    let (i, p, q) = h (sym (c.untold refl).0 ∙ g) in (i, c.interface ∙ p, q)

handle_rip_entry-LeadsOut :
    (n : NetworkNode) (entries : List TableEntry) (r : RipEntry) (from : Ipv4Address) (now : ℕ)
    → All (LeadsOut n) entries
    → All (LeadsOut n) (handle_rip_entry entries r from now).0
unfolding handle_rip_entry
handle_rip_entry-LeadsOut n entries r from now h =
    let addr : Ipv4Address = record { addr = hton32 r.address; port = 0 } in
    elim (Option-cases (find_entry entries addr r.mask)) [
      | inl k ↦ elim (Bool-cases (ltb r.cost infinity)) [
        | inl t ↦
            rw (k, t, handle_rip_entry)
              (All-end (LeadsOut n) entries _ (λ g. absurd (ground arith)) h)
        | inr t ↦ rw (k, t, handle_rip_entry) h
      ]
      | inr (f, k) ↦
          let (before, e, after) = f in
          let (split, found) = find_entry-split entries addr r.mask before after e k in
          let (e', told) = refresh_entry e r from now in
          rw (k, handle_rip_entry)
            (All-middle (LeadsOut n) before after e e'
              (LeadsOut-Refreshes n from r.cost now e e' told
                (refresh_entry-Refreshes e r from now))
              (subst (All (LeadsOut n)) split h))
    ]

pub handle_rip_loop-LeadsOut :
    (n : NetworkNode) (entries : List TableEntry) (rs : List RipEntry) (from : Ipv4Address)
    (now : ℕ)
    → All (LeadsOut n) entries
    → All (LeadsOut n) (handle_rip_loop entries rs from now).0
unfolding handle_rip_loop
handle_rip_loop-LeadsOut n entries [] from now h = h
handle_rip_loop-LeadsOut n entries (r ∷ rs) from now h =
    handle_rip_loop-LeadsOut n (handle_rip_entry entries r from now).0 rs from now
      (handle_rip_entry-LeadsOut n entries r from now h)

module _ (P : TableEntry → Type 0) (now expiration_time : ℕ) where
  All-back_first : (es : List TableEntry) → All P es → All P (back_first es)
  unfolding back_first
  All-back_first [] h = h
  All-back_first (e ∷ es) h = elim (List-cases (back_first es)) [
    | inl p ↦ rw p (h.0, tt)
    | inr (last, init, p) ↦
        let k : All P (last ∷ init) = subst (All P) p (All-back_first es h.1) in
        rw p (k.0, (h.0, k.1))
  ]

  -- The removal of stale routes leaves only entries that were there.
  pub All-remove_loop :
      (rounds : ℕ) (before rest : List TableEntry) (r : List TableEntry × List RipEntry)
      → remove_loop now expiration_time rounds before rest ≡ some r
      → All P before
      → All P rest
      → All P r.0
  unfolding remove_loop
  All-remove_loop zero before [] r h b a = subst (All P) (ground (arith, h)) b
  All-remove_loop (suc rounds) before [] r h b a = subst (All P) (ground (arith, h)) b
  All-remove_loop zero before (e ∷ es) r h b a = absurd (ground (arith, h))
  All-remove_loop (suc rounds) before (e ∷ es) r h b a = elim (fate-cases now expiration_time e) [
    | inl (inl stay) ↦
        All-remove_loop rounds (before ++ (e ∷ [])) es r (ground (arith, stay, h))
          (All-end P before e a.0 b) a.1
    | inl (inr poison) ↦
        All-remove_loop rounds before (back_first es) r (ground (arith, poison, h)) b
          (All-back_first es a.1)
    | inr expire ↦
        elim (Option-cases (remove_loop now expiration_time rounds before (back_first es))) [
          | inl k ↦ absurd (ground (arith, expire, k, h))
          | inr (s, k) ↦
              subst (All P) (ground (arith, expire, k, h))
                (All-remove_loop rounds before (back_first es) s k b (All-back_first es a.1))
        ]
  ]

-- An interface that is brought up or down keeps its place, address and name.
pub turn-IsConfigured :
    (up : Bool) (i : ℕ) (iface : NetworkInterface) (n : NetworkNode)
    → get_elem? n.interfaces i ≡ some iface
    → IsConfigured n
    → IsConfigured (turn up i iface n)
unfolding turn
turn-IsConfigured up i iface n there c =
    let v : NetworkInterface = record iface { is_up = up } in
    let same = length-set n.interfaces i v in
    record {
      by_address = λ j g h. elim (get_elem?-set n.interfaces i j v g h) [
        | inl p ↦ c.by_address j g p
        | inr (p, q) ↦ ground (arith, c.by_address i iface there, p, q)
      ];
      by_name = λ j g h. elim (get_elem?-set n.interfaces i j v g h) [
        | inl p ↦ c.by_name j g p
        | inr (p, q) ↦ ground (arith, c.by_name i iface there, p, q)
      ];
      address_of = λ a j h.
          let (f, p, q) = c.address_of a j h in
          elim (get_elem?-set_kept n.interfaces i j v f p) [
            | inl k ↦ (f, k, q)
            | inr (k, m) ↦ (v, m, ground (arith, there, p, k, q))
          ];
      name_of = λ a j h.
          let (f, p, q) = c.name_of a j h in
          elim (get_elem?-set_kept n.interfaces i j v f p) [
            | inl k ↦ (f, k, q)
            | inr (k, m) ↦ (v, m, ground (arith, there, p, k, q))
          ];
      sorted = All-set (λ f. IsSorted f.neighbors) n.interfaces i iface v there (λ s. s) c.sorted;
      routes =
          All-map (LeadsOut n) (LeadsOut (turn up i iface n)) n.entries
            (λ e h g. let (k, p, q) = h g in (k, p, omega (arith, same))) c.routes;
    }
