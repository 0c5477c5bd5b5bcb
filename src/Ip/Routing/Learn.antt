-- ===== src/Ip/Routing/Learn.antt =====
-- What a whole message from a neighbour does to the table.
use tns.Common.{
  ℕ, ◌≤◌, ◌≡◌, inl, inr, refl, ap, sym, subst, ◌∙◌, Bool, true, false, List, [], ◌∷◌, ◌++◌, ltb,
  arith, Bool-cases, Option-cases, All, All-end,
}
use tns.Ip.Address.{Ipv4Address}
use tns.Ip.Rip.{RipEntry, infinity}
use tns.Ip.Routing.{rip, TableEntry, find_entry, refresh_entry, handle_rip_entry, handle_rip_loop}
use tns.Ip.Address.{hton32}
use tns.Ip.Routing.Update.{
  InRange, is_local, local_routes, Refreshes, refresh_entry-Refreshes, local_routes-swap,
  find_entry-split, All-middle,
}

InRange-Refreshes :
    (from : Ipv4Address) (cost now : ℕ) (e e' : TableEntry) (told : Bool)
    → cost ≤ infinity
    → Refreshes from cost now e e' told
    → InRange e
    → InRange e'
InRange-Refreshes from cost now e e' true fits c h m k p = ground (arith, c.told_route refl, p)
InRange-Refreshes from cost now e e' false fits c h m k p =
    h m (λ q. k (c.type ∙ q)) (sym (c.untold refl).1 ∙ p)

-- A table that still has the local routes of `entries`, and is in range if that is.
pub record Keeps (entries last : List TableEntry) : Type 0 where
  pub locals : local_routes last ≡ local_routes entries
  pub in_range : All InRange entries → All InRange last

local_routes-end :
    (xs : List TableEntry) (e : TableEntry)
    → e.type ≡ rip
    → local_routes (xs ++ e ∷ []) ≡ local_routes xs
unfolding local_routes is_local
local_routes-end [] e p = ground (arith, p)
local_routes-end (x ∷ xs) e p = ground (arith, local_routes-end xs e p)

handle_rip_entry-Keeps :
    (entries : List TableEntry) (r : RipEntry) (from : Ipv4Address) (now : ℕ)
    → r.cost ≤ infinity
    → Keeps entries (handle_rip_entry entries r from now).0
unfolding handle_rip_entry
handle_rip_entry-Keeps entries r from now fits =
    let addr : Ipv4Address = record { addr = hton32 r.address; port = 0 } in
    elim (Option-cases (find_entry entries addr r.mask)) [
      | inl n ↦ elim (Bool-cases (ltb r.cost infinity)) [
        | inl t ↦
            rw (n, t, handle_rip_entry)
              (record {
                locals = local_routes-end entries _ refl;
                in_range = λ h. All-end InRange entries _ (λ m k p. ground (arith, p, t)) h;
              })
        | inr t ↦ rw (n, t, handle_rip_entry) (record { locals = refl; in_range = λ h. h })
      ]
      | inr (f, n) ↦
          let (before, e, after) = f in
          let (split, found) = find_entry-split entries addr r.mask before after e n in
          let c = refresh_entry-Refreshes e r from now in
          let e' = (refresh_entry e r from now).0 in
          rw (n, handle_rip_entry)
            (record {
              locals =
                  local_routes-swap before after e e' c.type c.local_same
                  ∙ ap local_routes (sym split);
              in_range = λ h.
                  All-middle InRange before after e e'
                    (InRange-Refreshes from r.cost now e e' (refresh_entry e r from now).1 fits c)
                    (subst (All InRange) split h);
            })
    ]

pub handle_rip_loop-Keeps :
    (entries : List TableEntry) (rs : List RipEntry) (from : Ipv4Address) (now : ℕ)
    → All (λ r. r.cost ≤ infinity) rs
    → Keeps entries (handle_rip_loop entries rs from now).0
unfolding handle_rip_loop
handle_rip_loop-Keeps entries [] from now fits = record { locals = refl; in_range = λ h. h }
handle_rip_loop-Keeps entries (r ∷ rs) from now fits =
    let a = handle_rip_entry-Keeps entries r from now fits.0 in
    let b = handle_rip_loop-Keeps (handle_rip_entry entries r from now).0 rs from now fits.1 in
    record { locals = b.locals ∙ a.locals; in_range = λ h. b.in_range (a.in_range h) }

-- A message from a neighbour, whose costs are at most infinity, leaves the local routes of the table
-- as they were, in their order.
pub handle_rip_loop-local_routes :
    (entries : List TableEntry) (rs : List RipEntry) (from : Ipv4Address) (now : ℕ)
    → All (λ r. r.cost ≤ infinity) rs
    → local_routes (handle_rip_loop entries rs from now).0 ≡ local_routes entries
handle_rip_loop-local_routes entries rs from now fits =
    (handle_rip_loop-Keeps entries rs from now fits).locals

-- Where every route that is not local costs at most infinity, this is so after a message from a
-- neighbour whose costs are at most infinity.
pub handle_rip_loop-InRange :
    (entries : List TableEntry) (rs : List RipEntry) (from : Ipv4Address) (now : ℕ)
    → All (λ r. r.cost ≤ infinity) rs
    → All InRange entries
    → All InRange (handle_rip_loop entries rs from now).0
handle_rip_loop-InRange entries rs from now fits h =
    (handle_rip_loop-Keeps entries rs from now fits).in_range h
