-- ===== src/Ip/Datagram/Hops.antt =====
-- A datagram made by a host crosses at most as many routers as its TTL allows.
use tns.Common.{
  ℕ, zero, suc, ◌+◌, ◌-◌, ◌≤◌, ◌<◌, ◌^◌, ◌≡◌, refl, sym, ◌∙◌, ap, false, Option, none, some, List,
  arith, ◌==◌, ltb, leb, length, u16_mod, to_u16, ◌>>=◌, if◌then◌else◌,
}
use tns.Ip.Address.{Ipv4Address, hton16}
use tns.Ip.Datagram.{
  IpHeader, Datagram, words, compute_checksum, fold_carries, ipv4_checksum, make_ipv4_header,
  make_datagram, update_checksum, wire, max_datagram_size, datagram, recv_datagram, init_ttl,
}
use tns.Ip.Datagram.Delivery.{IsSound, one_hop, recv_datagram-wire}

compute_checksum-lt : (h : IpHeader) → compute_checksum h < u16_mod
unfolding compute_checksum ipv4_checksum fold_carries
compute_checksum-lt h = omega arith

-- The checksum does not read its own field.
compute_checksum-check :
    (h : IpHeader) (c : ℕ) → compute_checksum (record h { check = c }) ≡ compute_checksum h
unfolding compute_checksum ipv4_checksum words
compute_checksum-check h c = refl

hton16-lt : (x : ℕ) → x < u16_mod → hton16 x < u16_mod
unfolding hton16
hton16-lt x h = omega arith

new_header : Ipv4Address → Ipv4Address → ℕ → ℕ → IpHeader
new_header src dest protocol len = record {
  ihl = 5;
  version = 4;
  tos = 0;
  tot_len = hton16 (to_u16 (to_u16 len + 20));
  id = 0;
  frag_off = 0;
  ttl = init_ttl;
  protocol = protocol;
  check = 0;
  saddr = src.addr;
  daddr = dest.addr;
}

-- What the constructor makes of a payload that fits a buffer is sound, with the initial TTL, the
-- addresses and the protocol that it is given.
pub make_datagram-IsSound :
    (src dest : Ipv4Address) (payload : List ℕ) (protocol : ℕ)
    → src.addr < 2 ^ 32
    → dest.addr < 2 ^ 32
    → protocol < 256
    → length payload + 20 ≤ max_datagram_size
    → (d : Datagram) × (make_datagram src dest payload protocol ≡ some d)
      × IsSound d
      × (d.header.ttl ≡ init_ttl)
      × (d.payload ≡ payload)
      × (d.header.saddr ≡ src.addr)
      × (d.header.daddr ≡ dest.addr)
      × (d.header.protocol ≡ protocol)
unfolding make_datagram make_ipv4_header new_header
make_datagram-IsSound src dest payload protocol hs hd hp hl =
    let h = new_header src dest protocol (length payload) in
    let d : Datagram = record {
      header = record h { check = compute_checksum h };
      payload = payload;
    } in
    let short : ltb (u16_mod - 1 - 20) (to_u16 (length payload)) ≡ false = ground arith in
    (
      d,
      ground (arith, short),
      record {
        fits = record {
          ihl = refl;
          version = omega arith;
          tos = omega arith;
          tot_len = hton16-lt _ (omega arith);
          id = omega arith;
          frag_off = omega arith;
          ttl = omega arith;
          protocol = hp;
          check = compute_checksum-lt h;
          saddr = hs;
          daddr = hd;
        };
        fits_buffer = hl;
        total = ap hton16 (omega arith);
        check = sym (compute_checksum-check h (compute_checksum h));
      },
      refl,
      refl,
      refl,
      refl,
      refl,
    )

-- What the router after a link sends on, if its receiver takes the datagram: `recvDatagram` and the
-- `updateChecksum` of `RouterNode::datagramHandler_`.
unfoldable pub relay : Datagram → Option Datagram
relay d = elim (recv_datagram (wire d)) [
  | none ↦ none
  | some (datagram e) ↦ some (update_checksum e)
  | _ ↦ none
]

unfoldable pub cross : ℕ → Datagram → Option Datagram
cross zero d = some d
cross (suc n) d = do e ← cross n d; relay e

abbrev pub with_ttl : ℕ → Datagram → Datagram
with_ttl t d = record d { header = record d.header { ttl = t } }

unfoldable pub after : ℕ → Datagram → Datagram
after n d = update_checksum (with_ttl (d.header.ttl - n) d)

ttl-after : (n : ℕ) (d : Datagram) → (after n d).header.ttl ≡ d.header.ttl - n
unfolding after update_checksum
ttl-after n d = refl

pub after-IsSound : (n : ℕ) (d : Datagram) → IsSound d → IsSound (after n d)
unfolding after update_checksum
after-IsSound n d s = record {
  fits = record {
    ihl = s.fits.ihl;
    version = s.fits.version;
    tos = s.fits.tos;
    tot_len = s.fits.tot_len;
    id = s.fits.id;
    frag_off = s.fits.frag_off;
    ttl = omega (arith, s.fits.ttl);
    protocol = s.fits.protocol;
    check = compute_checksum-lt (with_ttl (d.header.ttl - n) d).header;
    saddr = s.fits.saddr;
    daddr = s.fits.daddr;
  };
  fits_buffer = s.fits_buffer;
  total = s.total;
  check = sym (
      compute_checksum-check (with_ttl (d.header.ttl - n) d).header
        (compute_checksum (with_ttl (d.header.ttl - n) d).header));
}

after-zero : (d : Datagram) → IsSound d → after 0 d ≡ d
unfolding after update_checksum
after-zero d s =
    let same : d.header.ttl - 0 ≡ d.header.ttl = omega arith in
    (ap (λ t. update_checksum (with_ttl t d)) same
      ∙ ap (λ c. record d { header = record d.header { check = c } }) (sym s.check))

after-suc : (n : ℕ) (d : Datagram) → update_checksum (one_hop (after n d)) ≡ after (suc n) d
unfolding after update_checksum one_hop
after-suc n d =
    let ttl : d.header.ttl - n - 1 ≡ d.header.ttl - suc n = omega arith in
    (ap (λ c. record d { header = record d.header { ttl = d.header.ttl - n - 1; check = c } })
        (compute_checksum-check (with_ttl (d.header.ttl - n - 1) d).header
          (compute_checksum (with_ttl (d.header.ttl - n) d).header))
      ∙ ap (λ t. update_checksum (with_ttl t d)) ttl)

relay_sound :
    (d : Datagram)
    → IsSound d
    → relay d ≡ (if d.header.ttl == 0 then none else some (update_checksum (one_hop d)))
unfolding relay
relay_sound d s = ground (arith, recv_datagram-wire d s)

-- A sound datagram crosses as many routers as its TTL says, with its fields and payload, and no more:
-- the next one drops it.
pub cross-expires :
    (n : ℕ) (d : Datagram)
    → IsSound d
    → cross n d ≡ (if leb n d.header.ttl then some (after n d) else none)
unfolding cross
cross-expires zero d s = ground (arith, after-zero d s)
cross-expires (suc n) d s =
    let before = cross-expires n d s in
    let next = relay_sound (after n d) (after-IsSound n d s) in
    ap (λ o. o >>= relay) before ∙ (ground (arith, next, after-suc n d, ttl-after n d))
