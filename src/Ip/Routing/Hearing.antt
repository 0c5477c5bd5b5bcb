-- ===== src/Ip/Routing/Hearing.antt =====
-- `handleRipEntries_` does to the table what a message does to its distance vector.
use mathlib.Core.Path.{fun_ext}
use tns.Common.{
  ℕ, ◌≡◌, inl, inr, refl, sym, ap, subst, ◌∙◌, ◌&&◌, All, All-end, Bool, false, Option, none, some,
  List, [], ◌∷◌, ◌++◌, ltb, ◌==◌, if◌then◌else◌, arith, Bool-cases, Option-cases,
}
use tns.Ip.Address.{Ipv4Address, same_address, hton32}
use tns.Ip.Rip.{RipEntry, infinity}
use tns.Ip.Rip.Wire.{leads_over}
use tns.Ip.Routing.{
  EntryType, local, rip, static, TableEntry, is_entry_for, find_entry, refresh_entry, is_cheaper,
  is_gateway, is_metric, handle_rip_entry, handle_rip_loop,
}
use tns.Ip.Routing.Update.{refresh_entry-Refreshes, find_entry-split, All-middle}
use tns.Ip.Routing.Vector.{
  subnet_of, subnet_told, HasMasks, TellsMasks, is_nearer, route_to, hear, vector, distance, differ,
  hear_entry, hear_all,
}

refresh_by_type :
    (type : EntryType) (addr : Ipv4Address) (mask : ℕ) (gateway : Option Ipv4Address)
    (interface : Option ℕ) (metric : Option ℕ) (last : ℕ) (r : RipEntry) (from : Ipv4Address)
    (now : ℕ)
    → let e : TableEntry = record {
      type = type;
      addr = addr;
      mask = mask;
      gateway = gateway;
      interface = interface;
      metric = metric;
      last_refresh = last;
    } in
      some (refresh_entry e r from now).0 ≡ hear (some e) r from now
unfolding refresh_entry hear same_address is_cheaper is_gateway is_metric leads_over is_nearer
refresh_by_type local addr mask gateway interface metric last r from now = ground arith
refresh_by_type rip addr mask gateway interface metric last r from now = ground arith
refresh_by_type static addr mask gateway interface metric last r from now = ground arith

refresh_entry-hear :
    (e : TableEntry) (r : RipEntry) (from : Ipv4Address) (now : ℕ)
    → some (refresh_entry e r from now).0 ≡ hear (some e) r from now
refresh_entry-hear e r from now =
    refresh_by_type e.type e.addr e.mask e.gateway e.interface e.metric e.last_refresh r from now

find_entry-none :
    (es : List TableEntry) (addr : Ipv4Address) (mask : ℕ)
    → find_entry es addr mask ≡ none
    → route_to (subnet_of addr mask) mask es ≡ none
unfolding find_entry route_to is_entry_for subnet_of
find_entry-none [] addr mask h = refl
find_entry-none (e ∷ es) addr mask h = ground (arith, find_entry-none es addr mask)

-- The entry found, with another for its subnet in its place.
record Replaces (es : List TableEntry) (key mask : ℕ) (before after : List TableEntry)
    (e e' : TableEntry) : Type 0 where
  pub found : route_to key mask es ≡ some e
  pub same :
      (k m : ℕ)
      → route_to k m (before ++ e' ∷ after)
        ≡ (if (key == k) && (mask == m) then some e' else route_to k m es)

-- Where there is one mask for a masked address, the entry found is that of the subnet.
find_entry-Replaces :
    (mask_of : ℕ → ℕ) (es : List TableEntry) (addr : Ipv4Address) (mask : ℕ)
    (before after : List TableEntry) (e e' : TableEntry)
    → HasMasks mask_of es
    → mask ≡ mask_of (subnet_of addr mask)
    → find_entry es addr mask ≡ some (before, e, after)
    → e'.addr ≡ e.addr
    → e'.mask ≡ e.mask
    → Replaces es (subnet_of addr mask) mask before after e e'
unfolding find_entry route_to is_entry_for
find_entry-Replaces mask_of [] addr mask before after e e' u w h a m = absurd (ground arith)
find_entry-Replaces mask_of (x ∷ es) addr mask before after e e' u w h a m =
    elim (Bool-cases (is_entry_for addr mask x)) [
      | inl t ↦
          let key : subnet_of x.addr x.mask ≡ subnet_of addr mask =
            unfold subnet_of in ground (arith, t) in
          let one : x.mask ≡ mask = u.0 ∙ ap mask_of key ∙ sym w in
          let is : x ≡ e = ground (arith, rw t at h) in
          record {
            found = ground (arith, is, key, one);
            same = λ k n. (ground (arith, rw t at h, key, one, a, m));
          }
      | inr t ↦ elim (Option-cases (find_entry es addr mask)) [
        | inl n ↦ absurd (ground (arith, n, t, h))
        | inr (r, n) ↦
            let (b, f, c) = r in
            let same : (x ∷ b ≡ before) × (f ≡ e) × (c ≡ after) = ground (arith, n, t, h) in
            let (p, q, s) = same in
            let other : (subnet_of x.addr x.mask == subnet_of addr mask) ≡ false =
              unfold subnet_of in ground (arith, t) in
            let ih = find_entry-Replaces mask_of es addr mask b c f e' u.1 w n (rw q a) (rw q m) in
            record {
              found = ground (arith, ih.found, other, q);
              same = λ k v. rw (← p, ← s) (ground (arith, ih.same k v, other));
            }
      ]
    ]

route_to-end :
    (es : List TableEntry) (e : TableEntry) (k m : ℕ)
    → route_to (subnet_of e.addr e.mask) e.mask es ≡ none
    → route_to k m (es ++ e ∷ [])
      ≡ (if (subnet_of e.addr e.mask == k) && (e.mask == m) then some e else route_to k m es)
unfolding route_to
route_to-end [] e k m h = refl
route_to-end (x ∷ es) e k m h = ground (arith, route_to-end es e k m)

told_by_type :
    (type : EntryType) (addr : Ipv4Address) (mask : ℕ) (gateway : Option Ipv4Address)
    (interface : Option ℕ) (metric : Option ℕ) (last : ℕ) (r : RipEntry) (from : Ipv4Address)
    (now : ℕ)
    → let e : TableEntry = record {
      type = type;
      addr = addr;
      mask = mask;
      gateway = gateway;
      interface = interface;
      metric = metric;
      last_refresh = last;
    } in
      (refresh_entry e r from now).1 ≡ differ (distance (hear (some e) r from now)) metric
unfolding refresh_entry hear same_address distance differ is_cheaper is_gateway is_metric leads_over
    is_nearer
told_by_type local addr mask gateway interface metric last r from now = ground arith
told_by_type rip addr mask gateway interface metric last r from now = ground arith
told_by_type static addr mask gateway interface metric last r from now = ground arith

-- What one entry of a message does to the table, and whether it is told on.
record Hears (es : List TableEntry) (r : RipEntry) (from : Ipv4Address) (now : ℕ)
    (done : List TableEntry × Bool) : Type 0 where
  pub route : (k m : ℕ) → route_to k m done.0 ≡ (hear_entry (vector es) r from now).0 k m
  pub told : done.1 ≡ (hear_entry (vector es) r from now).1

handle_rip_entry-Hears :
    (mask_of : ℕ → ℕ) (es : List TableEntry) (r : RipEntry) (from : Ipv4Address) (now : ℕ)
    → HasMasks mask_of es
    → r.mask ≡ mask_of (subnet_told r)
    → Hears es r from now (handle_rip_entry es r from now)
unfolding handle_rip_entry
handle_rip_entry-Hears mask_of es r from now u w =
    let addr : Ipv4Address = record { addr = hton32 r.address; port = 0 } in
    elim (Option-cases (find_entry es addr r.mask)) [
      | inl n ↦
          let absent = find_entry-none es addr r.mask n in
          let new : TableEntry = record {
            type = rip;
            addr = addr;
            mask = r.mask;
            gateway = some from;
            interface = none;
            metric = some r.cost;
            last_refresh = now;
          } in
          elim (Bool-cases (ltb r.cost infinity)) [
            | inl t ↦
                rw (n, t, handle_rip_entry)
                  (record {
                    route =
                        unfold hear_entry subnet_of in
                        λ k m. ground (arith, absent, t, route_to-end es new k m);
                    told = unfold hear_entry subnet_of in ground (arith, absent, t);
                  })
            | inr t ↦
                rw (n, t, handle_rip_entry)
                  (record {
                    route = unfold hear_entry subnet_of in λ k m. ground (arith, absent, t);
                    told = unfold hear_entry subnet_of in ground (arith, absent, t);
                  })
          ]
      | inr (f, n) ↦
          let (before, e, after) = f in
          let e' = (refresh_entry e r from now).0 in
          let c = refresh_entry-Refreshes e r from now in
          let p =
            find_entry-Replaces mask_of es addr r.mask before after e e' u (unfold subnet_told in w)
              n c.addr c.mask in
          let q = refresh_entry-hear e r from now in
          let told =
            told_by_type e.type e.addr e.mask e.gateway e.interface e.metric e.last_refresh r from
              now in
          rw (n, handle_rip_entry)
            (record {
              route = unfold hear_entry subnet_of in λ k m. ground (arith, p.found, p.same k m, q);
              told = unfold hear_entry subnet_of in ground (arith, p.found, told);
            })
    ]

-- The new table has no other masks.
handle_rip_entry-HasMasks :
    (mask_of : ℕ → ℕ) (es : List TableEntry) (r : RipEntry) (from : Ipv4Address) (now : ℕ)
    → HasMasks mask_of es
    → r.mask ≡ mask_of (subnet_told r)
    → HasMasks mask_of (handle_rip_entry es r from now).0
unfolding handle_rip_entry subnet_told
handle_rip_entry-HasMasks mask_of es r from now u w =
    let addr : Ipv4Address = record { addr = hton32 r.address; port = 0 } in
    let P = λ (e : TableEntry). e.mask ≡ mask_of (subnet_of e.addr e.mask) in
    elim (Option-cases (find_entry es addr r.mask)) [
      | inl n ↦ elim (Bool-cases (ltb r.cost infinity)) [
        | inl t ↦ rw (n, t, handle_rip_entry) (All-end P es _ w u)
        | inr t ↦ rw (n, t, handle_rip_entry) u
      ]
      | inr (f, n) ↦
          let (before, e, after) = f in
          let (split, found) = find_entry-split es addr r.mask before after e n in
          let e' = (refresh_entry e r from now).0 in
          let c = refresh_entry-Refreshes e r from now in
          rw (n, handle_rip_entry)
            (All-middle P before after e e' (λ h. ground (arith, h, c.addr, c.mask))
              (subst (All P) split u))
    ]

-- Where, in the table and in the message, there is one mask for a masked address, the loop of
-- `handleRipEntries_` does to the routes to all subnets just what `hear_all` does, and the entries that
-- it tells on are just those that change a distance.
pub handle_rip_loop-hear_all :
    (mask_of : ℕ → ℕ) (es : List TableEntry) (rs : List RipEntry) (from : Ipv4Address) (now : ℕ)
    → HasMasks mask_of es
    → TellsMasks mask_of rs
    → let (last, told) = handle_rip_loop es rs from now in
      (vector last, told) ≡ hear_all (vector es) rs from now
unfolding handle_rip_loop hear_all
handle_rip_loop-hear_all mask_of es [] from now u w = refl
handle_rip_loop-hear_all mask_of es (r ∷ rs) from now u w =
    let h = handle_rip_entry-Hears mask_of es r from now u w.0 in
    let u' = handle_rip_entry-HasMasks mask_of es r from now u w.0 in
    let es' = (handle_rip_entry es r from now).0 in
    let same : vector es' ≡ (hear_entry (vector es) r from now).0 =
      fun_ext (λ k. fun_ext (λ m. h.route k m)) in
    rw (h.told, ← same) (ground (arith, handle_rip_loop-hear_all mask_of es' rs from now u' w.1))
