-- ===== src/Ip/Routing/Neighbors.antt =====
-- The periodic message of one router, in the routing table of a neighbour.
use tns.Common.{
  ℕ, ◌+◌, ◌≤◌, ◌<◌, ◌≡◌, refl, sym, ap, ◌∙◌, ◌&&◌, subst, min, Option, none, some, List, [], ◌∷◌,
  ◌==◌, if◌then◌else◌, arith, Bool-cases, Option-cases, inl, inr, bind-some, All, length, map,
  u32_mod, to_u32,
}
use tns.Ip.Address.{Ipv4Address, hton32-hton32, hton32-lt, get_addr_host}
use tns.Ip.Rip.{RipEntry, RipMessage, infinity, response, parse_message, message_payload}
use tns.Ip.Rip.Wire.{FitsWords, leads_over, heard_entries, parse_message-payload}
use tns.Ip.Routing.{TableEntry, handle_rip_loop}
use tns.Ip.Routing.Upkeep.{generate_loop, generate_rip_entries}
use tns.Ip.Routing.Hearing.{handle_rip_loop-hear_all}
use tns.Ip.Routing.Vector.{
  HasMasks, TellsMasks, subnet_of, subnet_told, route_to, hear, Vector, vector, hear_entry,
  hear_all,
}

-- A route that can be told: its fields fit their words, and its distance is at most infinity.
pub record IsTold (e : TableEntry) : Type 0 where
  pub addr : e.addr.addr < u32_mod
  pub mask : e.mask < u32_mod
  pub in_range : (c : ℕ) → e.metric ≡ some c → c ≤ infinity

-- No two routes are to one subnet.
abbrev pub AreDistinct : List TableEntry → Type 0
AreDistinct [] = Unit
AreDistinct (e ∷ es) = (route_to (subnet_of e.addr e.mask) e.mask es ≡ none) × AreDistinct es

-- What the neighbour at `dest` makes of a route at the distance `c`: it is one hop further away, and
-- infinitely far if it leads over that neighbour.
unfoldable pub advertised : Ipv4Address → ℕ → TableEntry → RipEntry
unfolding leads_over
advertised dest c e = record {
  cost = if leads_over e.gateway dest then infinity else min (c + 1) infinity;
  address = get_addr_host e.addr;
  mask = e.mask;
}

-- The route of the neighbour, once it has heard of that of the sender, if there is one.
unfoldable pub updated :
    Option TableEntry → Option TableEntry → Ipv4Address → Ipv4Address → ℕ → Option TableEntry
unfolding advertised hear
updated route none dest from now = route
updated route (some e) dest from now = elim e.metric [
  | none ↦ route
  | some c ↦ hear route (advertised dest c e) from now
]

unfoldable pub all_advertised : Ipv4Address → List TableEntry → List RipEntry
unfolding advertised
all_advertised dest [] = []
all_advertised dest (e ∷ es) = elim e.metric [
  | none ↦ all_advertised dest es
  | some c ↦ advertised dest c e ∷ all_advertised dest es
]

subnet_told-advertised :
    (dest : Ipv4Address) (c : ℕ) (e : TableEntry)
    → IsTold e
    → subnet_told (advertised dest c e) ≡ subnet_of e.addr e.mask
unfolding subnet_told subnet_of advertised
subnet_told-advertised dest c e h = rw (hton32-hton32 e.addr.addr h.addr) refl

TellsMasks-advertised :
    (mask_of : ℕ → ℕ) (dest : Ipv4Address) (es : List TableEntry)
    → All IsTold es
    → HasMasks mask_of es
    → TellsMasks mask_of (all_advertised dest es)
unfolding all_advertised
TellsMasks-advertised mask_of dest [] h u = tt
TellsMasks-advertised mask_of dest (e ∷ es) h u = elim (Option-cases e.metric) [
  | inl n ↦ rw n (TellsMasks-advertised mask_of dest es h.1 u.1)
  | inr (c, n) ↦
      let s = subnet_told-advertised dest c e h.0 in
      let one : (advertised dest c e).mask ≡ mask_of (subnet_told (advertised dest c e)) =
        unfold advertised in (u.0 ∙ ap mask_of (sym s)) in
      rw n (one, TellsMasks-advertised mask_of dest es h.1 u.1)
]

-- The message, in the abstract.
hear_all-advertised :
    (v : Vector) (es : List TableEntry) (dest from : Ipv4Address) (now k m : ℕ)
    → All IsTold es
    → AreDistinct es
    → (hear_all v (all_advertised dest es) from now).0 k m
      ≡ updated (v k m) (route_to k m es) dest from now
unfolding hear_all all_advertised updated route_to
hear_all-advertised v [] dest from now k m h d = refl
hear_all-advertised v (e ∷ es) dest from now k m h d = elim (Option-cases e.metric) [
  | inl n ↦ ground (arith, n, hear_all-advertised v es dest from now k m h.1 d.1)
  | inr (c, n) ↦
      let r = advertised dest c e in
      let v' = (hear_entry v r from now).0 in
      let ih = hear_all-advertised v' es dest from now k m h.1 d.1 in
      let s = subnet_told-advertised dest c e h.0 in
      elim (Bool-cases ((subnet_of e.addr e.mask == k) && (e.mask == m))) [
        | inl t ↦
            let same : (subnet_of e.addr e.mask ≡ k) × (e.mask ≡ m) = ground (arith, t) in
            let heard : v' k m ≡ hear (v k m) r from now =
              unfold hear_entry in (ground (arith, t, s, same)) in
            let gone : route_to k m es ≡ none = (rw (same.0, same.1) at d.0) in
            let end : updated (v' k m) (route_to k m es) dest from now ≡ hear (v k m) r from now =
              rw (gone, heard) refl in
            rw (n, t) (ih ∙ end)
        | inr t ↦
            let heard : v' k m ≡ v k m = unfold hear_entry in (ground (arith, t, s)) in
            let end : updated (v' k m) (route_to k m es) dest from now
                ≡ updated (v k m) (route_to k m es) dest from now =
              rw heard refl in
            rw (n, t) (ih ∙ end)
      ]
]

cost-advertised :
    (dest : Ipv4Address) (c : ℕ) (e : TableEntry)
    → c ≤ infinity
    → (if leads_over e.gateway dest then infinity else min (to_u32 c + 1) infinity)
      ≡ (advertised dest c e).cost
unfolding advertised
cost-advertised dest c e h = ground arith

-- What the sender tells.
record Tells (dest : Ipv4Address) (es : List TableEntry) (told : List RipEntry) : Type 0 where
  pub fits : All FitsWords told
  pub heard : heard_entries dest told (map (λ e. e.gateway) es) ≡ all_advertised dest es

Tells-cons :
    (dest : Ipv4Address) (e : TableEntry) (es : List TableEntry) (rest : List RipEntry) (c : ℕ)
    → e.metric ≡ some c
    → IsTold e
    → Tells dest es rest
    → Tells dest
        (e ∷ es)
        (record { cost = to_u32 c; address = get_addr_host e.addr; mask = e.mask } ∷ rest)
unfolding heard_entries all_advertised
Tells-cons dest e es rest c n h t =
    let cost = cost-advertised dest c e (h.in_range c n) in
    record {
      fits = (
        record {
          cost = omega (arith, h.in_range c n);
          address = hton32-lt e.addr.addr h.addr;
          mask = h.mask;
        },
        t.fits,
      );
      heard = ground (arith, n, t.heard, cost);
    }

generate_loop-Tells :
    (dest : Ipv4Address) (es : List TableEntry) (told : List RipEntry)
    → All IsTold es
    → generate_loop es ≡ some told
    → Tells dest es told
unfolding generate_loop heard_entries all_advertised
generate_loop-Tells dest [] told h g =
    let same : [] ≡ told = ground (arith, g) in
    subst (Tells dest []) same (record { fits = tt; heard = refl })
generate_loop-Tells dest (e ∷ es) told h g = elim (Option-cases e.metric) [
  | inl n ↦ absurd (ground (arith, n, g))
  | inr (c, n) ↦ elim (Option-cases (generate_loop es)) [
    | inl m ↦ absurd (ground (arith, n, m, g))
    | inr (rest, m) ↦
        let r : RipEntry = record {
          cost = to_u32 c;
          address = get_addr_host e.addr;
          mask = e.mask;
        } in
        let same : r ∷ rest ≡ told = ground (arith, n, m, g) in
        let ih = generate_loop-Tells dest es rest h.1 m in
        subst (Tells dest (e ∷ es)) same (Tells-cons dest e es rest c n h.0 ih)
  ]
]

-- A router sends its periodic message, with routes whose fields fit and no two of which are to one
-- subnet, to a neighbour; in the two tables together there is one mask for a masked address. The
-- neighbour reads a response from its bytes, and then has, for each subnet, the route that its own and
-- the sender's give by `updated`.
pub generate_rip_entries-updated :
    (mask_of : ℕ → ℕ) (es bs : List TableEntry) (message : RipMessage) (dest from : Ipv4Address)
    (now k m : ℕ)
    → All IsTold es
    → AreDistinct es
    → HasMasks mask_of es
    → HasMasks mask_of bs
    → generate_rip_entries es ≡ some message
    → (read : RipMessage) × (parse_message (message_payload dest message) ≡ some read)
      × (read.command ≡ response)
      × (route_to k m (handle_rip_loop bs read.entries from now).0
          ≡ updated (route_to k m bs) (route_to k m es) dest from now)
unfolding generate_rip_entries
generate_rip_entries-updated mask_of es bs message dest from now k m h d u w g =
    let (told, loop, made) = bind-some (generate_loop es) _ message g in
    let t = generate_loop-Tells dest es told h loop in
    let gateways = map (λ (e : TableEntry). e.gateway) es in
    let parsed =
      parse_message-payload dest response told gateways message (omega arith) t.fits made in
    let read : RipMessage = record {
      command = response;
      num_entries = length told;
      entries = heard_entries dest told gateways;
      learned_from = [];
    } in
    (
      read,
      parsed,
      refl,
      rw t.heard (
          ap (λ (p : Vector × List RipEntry). p.0 k m)
            (handle_rip_loop-hear_all mask_of bs (all_advertised dest es) from now w
              (TellsMasks-advertised mask_of dest es h u))
          ∙ hear_all-advertised (vector bs) es dest from now k m h d),
    )
