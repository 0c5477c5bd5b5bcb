-- ===== src/Ip/Datagram/Delivery.antt =====
-- A datagram put on the link is received as it was, but for its TTL.
use mathlib.Core.List.{append_assoc}
use tns.Common.{
  ℕ, ◌+◌, ◌-◌, ◌^◌, ◌≤◌, ◌<◌, ◌≡◌, refl, ◌∙◌, ap, some, List, ◌++◌, arith, ◌==◌, length,
  length-append, take, drop, take-all, take-length_append, u16_mod, if◌then◌else◌,
}
use tns.Ip.Address.{hton16, hton16-hton16}
use tns.Ip.Datagram.{
  IpHeader, Datagram, words, compute_checksum, bytes_of, wire, max_datagram_size, zeros, word_at,
  load_header, any_nonzero, datagram, ttl_expired, recv_datagram, check_datagram, fill_buffer,
}

-- The fields of a header without options fit their bits.
pub record FitsFields (h : IpHeader) : Type 0 where
  pub ihl : h.ihl ≡ 5
  pub version : h.version < 16
  pub tos : h.tos < 256
  pub tot_len : h.tot_len < u16_mod
  pub id : h.id < u16_mod
  pub frag_off : h.frag_off < u16_mod
  pub ttl : h.ttl < 256
  pub protocol : h.protocol < 256
  pub check : h.check < u16_mod
  pub saddr : h.saddr < 2 ^ 32
  pub daddr : h.daddr < 2 ^ 32

-- A datagram that fits a buffer, its length and its checksum right.
pub record IsSound (d : Datagram) : Type 0 where
  pub fits : FitsFields d.header
  pub fits_buffer : length d.payload + 20 ≤ max_datagram_size
  pub total : d.header.tot_len ≡ hton16 (length d.payload + 20)
  pub check : d.header.check ≡ compute_checksum d.header

load_header-wire :
    (h : IpHeader) (rest : List ℕ) → FitsFields h → load_header (bytes_of (words h) ++ rest) ≡ h
unfolding load_header bytes_of words word_at
load_header-wire h rest f = ground (
  arith, f.ihl, f.version, f.tos, f.tot_len, f.id, f.frag_off, f.ttl, f.protocol, f.check, f.saddr,
  f.daddr,
)

length-wire_header : (h : IpHeader) → length (bytes_of (words h)) ≡ 20
unfolding bytes_of words
length-wire_header h = refl

drop-wire : (h : IpHeader) (rest : List ℕ) → drop 20 (bytes_of (words h) ++ rest) ≡ rest
unfolding bytes_of words
drop-wire h rest = refl

-- The buffer after a datagram has been read into it: the header, the payload and zeros.
fill_buffer-wire :
    (d : Datagram)
    → length d.payload + 20 ≤ max_datagram_size
    → fill_buffer (wire d)
      ≡ bytes_of (words d.header) ++ (d.payload ++ zeros (max_datagram_size - length (wire d)))
unfolding fill_buffer wire
fill_buffer-wire d h =
    let head = bytes_of (words d.header) in
    let len = length-append head d.payload in
    let all : take max_datagram_size (head ++ d.payload) ≡ head ++ d.payload =
      take-all max_datagram_size (head ++ d.payload)
        (omega (arith, len, length-wire_header d.header)) in
    (ap (λ r. r ++ zeros (max_datagram_size - length r)) all
      ∙ append_assoc head d.payload (zeros (max_datagram_size - length (wire d))))

length-wire : (d : Datagram) → length (wire d) ≡ length d.payload + 20
unfolding wire
length-wire d =
    omega (arith, length-append (bytes_of (words d.header)) d.payload, length-wire_header d.header)

-- What a sound datagram's receiver gets.
unfoldable pub one_hop : Datagram → Datagram
one_hop d = record d { header = record d.header { ttl = d.header.ttl - 1 } }

check_datagram_sound :
    (d : Datagram) (rest : List ℕ)
    → IsSound d
    → check_datagram (bytes_of (words d.header) ++ (d.payload ++ rest)) d.header
      ≡ some (if d.header.ttl == 0 then ttl_expired else datagram (one_hop d))
unfolding check_datagram one_hop any_nonzero
check_datagram_sound d rest s =
    let drops = drop-wire d.header (d.payload ++ rest) in
    let takes = take-length_append d.payload rest in
    let total : hton16 d.header.tot_len ≡ length d.payload + 20 =
      ap hton16 s.total ∙ hton16-hton16 _ (omega (arith, s.fits_buffer)) in
    (ground (arith, s.fits.ihl, s.check, s.fits_buffer, total, drops, takes))

-- The receiver of a sound datagram takes it off the link as it was put there, with its TTL one lower,
-- and drops it as expired if its TTL is 0.
pub recv_datagram-wire :
    (d : Datagram)
    → IsSound d
    → recv_datagram (wire d)
      ≡ some (if d.header.ttl == 0 then ttl_expired else datagram (one_hop d))
unfolding recv_datagram
recv_datagram-wire d s =
    let tail = zeros (max_datagram_size - length (wire d)) in
    let buf = fill_buffer-wire d s.fits_buffer in
    let header : load_header (fill_buffer (wire d)) ≡ d.header =
      ap load_header buf ∙ load_header-wire d.header (d.payload ++ tail) s.fits in
    let len = length-wire d in (ground (arith, header, buf, len, check_datagram_sound d tail s))
