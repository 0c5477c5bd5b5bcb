-- ===== src/Ip/Routing/Stale.antt =====
-- The removal of stale routes ends, and removes and tells exactly those that it should.

use mathlib.Core.List.Permᴰ
use mathlib.Core.List.{Permᴰ, filter_map, filter_map-cons-none, filter_map-cons-some, append_assoc}
use tns.Common.{
  ℕ, zero, suc, ◌≤◌, ◌≡◌, refl, sym, subst, ◌∙◌, ap, Bool, true, false, not, ◌&&◌, ◌||◌, ltb, ◌==◌,
  ◌-◌, if◌then◌else◌, Option, none, some, List, [], ◌∷◌, ◌++◌, arith, length, map, List-cases, ◌⊎◌,
  inl, inr,
}
use tns.Ip.Address.{Ipv4Address, get_addr_host}
use tns.Ip.Rip.{RipEntry, infinity, make_message, response}
use tns.Ip.Routing.{EntryType, local, rip, static, TableEntry, is_metric}
use tns.Ip.Routing.Upkeep.{
  Fate, stays, poisoned, expired, fate, back_first, expired_entry, remove_loop,
  remove_stale_rip_entries,
}

module _ (now expiration_time : ℕ) where
  -- An entry that was learned by RIP, one that is unreachable, and one not heard of for too long.
  unfoldable pub is_learned : TableEntry → Bool
  is_learned e = elim e.type [ rip ↦ true | _ ↦ false ]

  unfoldable pub is_unreachable : TableEntry → Bool
  is_unreachable e = elim e.metric [ none ↦ false | some m ↦ m == infinity ]

  unfoldable pub is_old : TableEntry → Bool
  is_old e = ltb expiration_time (now - e.last_refresh)

  -- What stays of an entry, and what is told of it.
  unfoldable pub stay_of : TableEntry → Option TableEntry
  unfolding is_learned is_unreachable is_old
  stay_of e = if is_learned e && (is_unreachable e || is_old e) then none else some e

  unfoldable pub told_of : TableEntry → Option RipEntry
  unfolding is_learned is_unreachable is_old
  told_of e =
      if is_learned e && (not (is_unreachable e) && is_old e)
      then some (record { cost = infinity; address = get_addr_host e.addr; mask = e.mask })
      else none

  -- They follow from what the loop does with the entry.
  record Means (e : TableEntry) (f : Fate) : Type 0 where
    pub stay : stay_of e ≡ elim f [ stays ↦ some e | _ ↦ none ]
    pub told : told_of e ≡ elim f [ expired ↦ some (expired_entry e) | _ ↦ none ]

  fate_by_type :
      (type : EntryType) (addr : Ipv4Address) (mask : ℕ) (gateway : Option Ipv4Address)
      (interface : Option ℕ) (metric : Option ℕ) (last : ℕ)
      → let e : TableEntry = record {
        type = type;
        addr = addr;
        mask = mask;
        gateway = gateway;
        interface = interface;
        metric = metric;
        last_refresh = last;
      } in
        Means e (fate now expiration_time e)
  unfolding fate stay_of told_of expired_entry is_metric
  fate_by_type local addr mask gateway interface metric last = record { stay = refl; told = refl }
  fate_by_type static addr mask gateway interface metric last = record { stay = refl; told = refl }
  fate_by_type rip addr mask gateway interface none last = record {
    stay = ground arith;
    told = ground arith;
  }
  fate_by_type rip addr mask gateway interface (some m) last = record {
    stay = ground arith;
    told = ground arith;
  }

  fate-Means : (e : TableEntry) → Means e (fate now expiration_time e)
  fate-Means e = fate_by_type e.type e.addr e.mask e.gateway e.interface e.metric e.last_refresh

  -- The table `r.0` has the entries of `before` and those of `rest` that stay, and `r.1` those that are
  -- told, in some order.
  pub record Removed (before rest : List TableEntry) (r : List TableEntry × List RipEntry)
      : Type 0 where
    pub table : Permᴰ r.0 (before ++ filter_map stay_of rest)
    pub told : Permᴰ r.1 (filter_map told_of rest)

  pub fate-cases :
      (e : TableEntry)
      → ((fate now expiration_time e ≡ stays) ⊎ (fate now expiration_time e ≡ poisoned))
        ⊎ (fate now expiration_time e ≡ expired)
  fate-cases e =
      elim (fate now expiration_time e) as (λ f. ((f ≡ stays) ⊎ (f ≡ poisoned)) ⊎ (f ≡ expired)) [
        | stays ↦ inl (inl refl)
        | poisoned ↦ inl (inr refl)
        | expired ↦ inr refl
      ]

  back_first-Permᴰ : (es : List TableEntry) → Permᴰ (back_first es) es
  unfolding back_first
  back_first-Permᴰ [] = Permᴰ.nil
  back_first-Permᴰ (e ∷ es) = elim (List-cases (back_first es)) [
    | inl h ↦
        subst (λ xs. Permᴰ (elim xs [ [] ↦ e ∷ [] | last ∷ init ↦ last ∷ e ∷ init ]) (e ∷ es))
          (sym h) (Permᴰ.cons refl (subst (λ xs. Permᴰ xs es) h (back_first-Permᴰ es)))
    | inr (last, init, h) ↦
        subst (λ xs. Permᴰ (elim xs [ [] ↦ e ∷ [] | last ∷ init ↦ last ∷ e ∷ init ]) (e ∷ es))
          (sym h)
          (Permᴰ.trans (Permᴰ.swap refl refl)
            (Permᴰ.cons refl (subst (λ xs. Permᴰ xs es) h (back_first-Permᴰ es))))
  ]

  length-back_first : (es : List TableEntry) → length (back_first es) ≡ length es
  unfolding back_first
  length-back_first [] = refl
  length-back_first (e ∷ es) = ground (arith, length-back_first es)

  -- With the last entry first, the rest stays and is told as it would be.
  back_first-Removed :
      (before es : List TableEntry) (r : List TableEntry × List RipEntry)
      → Removed before (back_first es) r
      → Removed before es r
  back_first-Removed before es r h = record {
    table =
        Permᴰ.trans h.table
          (Permᴰ.append_left before (Permᴰ.filter_map stay_of (back_first-Permᴰ es)));
    told = Permᴰ.trans h.told (Permᴰ.filter_map told_of (back_first-Permᴰ es));
  }

  -- The three ways in which a round goes on.
  stays-Removed :
      (before es : List TableEntry) (e : TableEntry) (r : List TableEntry × List RipEntry)
      → fate now expiration_time e ≡ stays
      → Removed (before ++ (e ∷ [])) es r
      → Removed before (e ∷ es) r
  stays-Removed before es e r h k = record {
    table =
        subst (Permᴰ r.0)
          (append_assoc before (e ∷ []) (filter_map stay_of es)
            ∙ ap (λ xs. before ++ xs)
                (sym (filter_map-cons-some stay_of e es (ground (arith, h, fate-Means e)))))
          k.table;
    told =
        subst (Permᴰ r.1)
          (sym (filter_map-cons-none told_of e es (ground (arith, h, fate-Means e)))) k.told;
  }

  poisoned-Removed :
      (before es : List TableEntry) (e : TableEntry) (r : List TableEntry × List RipEntry)
      → fate now expiration_time e ≡ poisoned
      → Removed before es r
      → Removed before (e ∷ es) r
  poisoned-Removed before es e r h k = record {
    table =
        subst (λ xs. Permᴰ r.0 (before ++ xs))
          (sym (filter_map-cons-none stay_of e es (ground (arith, h, fate-Means e)))) k.table;
    told =
        subst (Permᴰ r.1)
          (sym (filter_map-cons-none told_of e es (ground (arith, h, fate-Means e)))) k.told;
  }

  expired-Removed :
      (before es : List TableEntry) (e : TableEntry) (r : List TableEntry × List RipEntry)
      → fate now expiration_time e ≡ expired
      → Removed before es r
      → Removed before (e ∷ es) (r.0, expired_entry e ∷ r.1)
  expired-Removed before es e r h k = record {
    table =
        subst (λ xs. Permᴰ r.0 (before ++ xs))
          (sym (filter_map-cons-none stay_of e es (ground (arith, h, fate-Means e)))) k.table;
    told =
        subst (Permᴰ (expired_entry e ∷ r.1))
          (sym (filter_map-cons-some told_of e es (ground (arith, h, fate-Means e))))
          (Permᴰ.cons refl k.told);
  }

  done : (before : List TableEntry) → Removed before [] (before, [])
  unfolding filter_map
  done before = record { table = Permᴰ.symm (Permᴰ.append-nil before); told = Permᴰ.nil }

  remove_loop-Removed :
      (rounds : ℕ) (before rest : List TableEntry)
      → length rest ≤ rounds
      → (r : List TableEntry × List RipEntry) × (remove_loop now expiration_time rounds before rest
          ≡ some r)
        × Removed before rest r
  unfolding remove_loop
  remove_loop-Removed zero before [] h = ((before, []), refl, done before)
  remove_loop-Removed (suc rounds) before [] h = ((before, []), refl, done before)
  remove_loop-Removed zero before (e ∷ es) h = absurd (omega arith)
  remove_loop-Removed (suc rounds) before (e ∷ es) h = elim (fate-cases e) [
    | inl (inl stay) ↦
        let (r, hr, k) = remove_loop-Removed rounds (before ++ (e ∷ [])) es (omega arith) in
        (r, ground (arith, stay, hr), stays-Removed before es e r stay k)
    | inl (inr poison) ↦
        let (r, hr, k) =
          remove_loop-Removed rounds before (back_first es) (omega (arith, length-back_first es)) in
        (
          r,
          ground (arith, poison, hr),
          poisoned-Removed before es e r poison (back_first-Removed before es r k),
        )
    | inr expire ↦
        let (r, hr, k) =
          remove_loop-Removed rounds before (back_first es) (omega (arith, length-back_first es)) in
        (
          (r.0, expired_entry e ∷ r.1),
          ground (arith, expire, hr),
          expired-Removed before es e r expire (back_first-Removed before es r k),
        )
  ]

  -- `removeStaleRipEntries_` ends within as many rounds as there are entries. The table keeps exactly
  -- the entries that are not RIP routes, or are neither at infinity nor expired, and those told are
  -- exactly the expired ones that were not at infinity, now at infinity; the order of neither is kept.
  pub remove_stale_rip_entries-Removed :
      (entries : List TableEntry)
      → (r : List TableEntry × List RipEntry) × (remove_stale_rip_entries now expiration_time
            entries
          ≡ some (r.0, make_message response r.1 (map (λ e. none) r.1)))
        × Removed [] entries r
  unfolding remove_stale_rip_entries
  remove_stale_rip_entries-Removed entries =
      let (r, hr, k) = remove_loop-Removed (length entries) [] entries (omega arith) in
      (r, rw hr refl, k)
