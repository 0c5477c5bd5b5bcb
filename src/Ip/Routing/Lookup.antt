-- ===== src/Ip/Routing/Lookup.antt =====
-- The longest prefix match.
use tns.Common.{
  ◌≤◌, ◌≡◌, ◌⊎◌, inl, inr, refl, subst, true, false, ◌&&◌, Option, none, some, List, [], ◌∷◌, arith,
  Bool-cases,
}
use tns.Ip.Address.{Ipv4Address}
use tns.Ip.Routing.{
  TableEntry, same_subnet, is_longer, longest_prefix_from, query_longest_prefix_match,
}

-- `e` is an entry of the table whose subnet holds the address.
pub data Matches (addr : Ipv4Address) (e : TableEntry) : List TableEntry → Type 0 where
  here : {es : List TableEntry} → same_subnet addr e.addr e.mask ≡ true → Matches addr e (e ∷ es)
  there : {x : TableEntry} {es : List TableEntry} → Matches addr e es → Matches addr e (x ∷ es)

-- The answer `o` to a lookup with the candidate `best`.
abbrev pub IsBest : Ipv4Address → Option TableEntry → List TableEntry → Option TableEntry → Type 0
IsBest addr best es none = (best ≡ none) × ((e : TableEntry) → Matches addr e es → ⊥)
IsBest addr best es (some b) =
    ((best ≡ some b) ⊎ Matches addr b es)
    × ((e : TableEntry) → Matches addr e es → e.mask ≤ b.mask)
    × ((e : TableEntry) → best ≡ some e → e.mask ≤ b.mask)

Matches-split :
    (addr : Ipv4Address) (e f : TableEntry) (es : List TableEntry)
    → Matches addr f (e ∷ es)
    → ((f ≡ e) × (same_subnet addr e.addr e.mask ≡ true)) ⊎ Matches addr f es
Matches-split addr e _ es (here m) = inl (refl, m)
Matches-split addr e f es (there m) = inr m

Matches-take :
    (addr : Ipv4Address) (e b : TableEntry) (es : List TableEntry)
    → e ≡ b
    → same_subnet addr e.addr e.mask ≡ true
    → Matches addr b (e ∷ es)
Matches-take addr e b es p m = subst (λ x. Matches addr x (e ∷ es)) p (here m)

IsBest-take :
    (addr : Ipv4Address) (best : Option TableEntry) (e : TableEntry) (es : List TableEntry)
    (o : Option TableEntry)
    → same_subnet addr e.addr e.mask ≡ true
    → is_longer e best ≡ true
    → IsBest addr (some e) es o
    → IsBest addr best (e ∷ es) o
unfolding is_longer
IsBest-take addr best e es none m l h = absurd (ground (arith, h.0))
IsBest-take addr best e es (some b) m l h =
    let (from, all, old) = h in
    (
      (elim from [ inl p ↦ inr (Matches-take addr e b es (cc) m) | inr q ↦ inr (there q) ]),
      (λ f k. elim (Matches-split addr e f es k) [
        | inl (p, n) ↦ ground (arith, old e refl, p)
        | inr q ↦ all f q
      ]),
      (λ f p. ground (arith, old e refl, p, l)),
    )

IsBest-skip :
    (addr : Ipv4Address) (best : Option TableEntry) (e : TableEntry) (es : List TableEntry)
    (o : Option TableEntry)
    → (same_subnet addr e.addr e.mask && is_longer e best) ≡ false
    → IsBest addr best es o
    → IsBest addr best (e ∷ es) o
unfolding is_longer
IsBest-skip addr none e es none l h = (
  refl,
  λ f k. elim (Matches-split addr e f es k) [ inl (p, n) ↦ ground (arith, n, l) | inr q ↦ h.1 f q ],
)
IsBest-skip addr (some c) e es none l h = absurd (ground (arith, h.0))
IsBest-skip addr none e es (some b) l h =
    let (from, all, old) = h in
    (
      (elim from [ inl p ↦ inl p | inr q ↦ inr (there q) ]),
      (λ f k. elim (Matches-split addr e f es k) [
        | inl (p, n) ↦ absurd (ground (arith, n, l))
        | inr q ↦ all f q
      ]),
      old,
    )
IsBest-skip addr (some c) e es (some b) l h =
    let (from, all, old) = h in
    (
      (elim from [ inl p ↦ inl p | inr q ↦ inr (there q) ]),
      (λ f k. elim (Matches-split addr e f es k) [
        | inl (p, n) ↦ ground (arith, n, l, old c refl, p)
        | inr q ↦ all f q
      ]),
      old,
    )

longest_prefix_from-IsBest :
    (addr : Ipv4Address) (best : Option TableEntry) (es : List TableEntry)
    → IsBest addr best es (longest_prefix_from best es addr)
unfolding longest_prefix_from
longest_prefix_from-IsBest addr none [] = (refl, λ e k. elim k [ ])
longest_prefix_from-IsBest addr (some b) [] =
    (inl refl, (λ e k. elim k [ ]), λ e p. ground (arith, p))
longest_prefix_from-IsBest addr best (e ∷ es) =
    elim (Bool-cases (same_subnet addr e.addr e.mask && is_longer e best)) [
      | inl t ↦ rw t (
          IsBest-take addr best e es (longest_prefix_from (some e) es addr) ground (arith, t) ground
            (arith, t) (longest_prefix_from-IsBest addr (some e) es))
      | inr t ↦ rw t (
          IsBest-skip addr best e es (longest_prefix_from best es addr) t
            (longest_prefix_from-IsBest addr best es))
    ]

-- The longest prefix match is an entry of the table whose subnet holds the address, with the greatest
-- mask among these; there is none only if no entry's subnet holds the address.
pub query_longest_prefix_match-IsBest :
    (entries : List TableEntry) (addr : Ipv4Address)
    → IsBest addr none entries (query_longest_prefix_match entries addr)
unfolding query_longest_prefix_match
query_longest_prefix_match-IsBest entries addr = longest_prefix_from-IsBest addr none entries
