-- ===== src/Ip/Datagram.antt =====
-- lib/src/ip/util.cpp, lib/src/ip/datagram.cpp and lib/include/ip/datagram.hpp: IP headers with their
-- checksum, datagrams made and received, and what `sendDatagram` of lib/src/network_interface.cpp puts
-- on the link. The words of a header are in memory order, on a little-endian host.
pub mod Delivery
pub mod Hops
pub mod Masks
use Prim.Native.Nat.{bit_and}
use tns.Common.{
  ℕ, zero, suc, ◌+◌, ◌-◌, ◌*◌, ◌/◌, ◌%◌, ◌^◌, min, Bool, true, false, not, ◌||◌, Option, none, some,
  List, [], ◌∷◌, ◌++◌, ltb, leb, ◌==◌, if◌then◌else◌, length, get_or, take, drop, ◌>>=◌, to_u16,
  to_u32, u16_mod, u32_mod,
}
use tns.Ip.Address.{Ipv4Address, hton16}

-- `iphdr`, as the values of its fields in memory.
pub record IpHeader : Type 0 where
  pub ihl : ℕ
  pub version : ℕ
  pub tos : ℕ
  pub tot_len : ℕ
  pub id : ℕ
  pub frag_off : ℕ
  pub ttl : ℕ
  pub protocol : ℕ
  pub check : ℕ
  pub saddr : ℕ
  pub daddr : ℕ

pub record Datagram : Type 0 where
  pub header : IpHeader
  pub payload : List ℕ

-- The ten 16-bit words that a header is read as.
unfoldable pub words : IpHeader → List ℕ
words h =
    (h.ihl + h.version * 16 + h.tos * 256)
    ∷ h.tot_len
    ∷ h.id
    ∷ h.frag_off
    ∷ (h.ttl + h.protocol * 256)
    ∷ h.check
    ∷ h.saddr % u16_mod
    ∷ h.saddr / u16_mod
    ∷ h.daddr % u16_mod
    ∷ h.daddr / u16_mod
    ∷ []

abbrev pub sum : List ℕ → ℕ
sum [] = 0
sum (x ∷ xs) = x + sum xs

-- The end of `ipv4Checksum`, and of `inetChecksum`: the carries are added twice, and the complement
-- taken.
unfoldable pub fold_carries : ℕ → ℕ
fold_carries csum =
    let once = csum / u16_mod + csum % u16_mod in
    u16_mod - 1 - to_u16 (to_u32 (once + once / u16_mod))

-- `ipv4Checksum` of the words from `hdr` on. Of a header with options, up to ten more 32-bit words are
-- summed.
unfoldable pub ipv4_checksum : List ℕ → ℕ → ℕ
unfolding fold_carries
ipv4_checksum hdr ihl =
    let base = sum (take 5 hdr) + sum (take 4 (drop 6 hdr)) in
    let options = sum (take (2 * min 10 ((ihl + u16_mod - 5) % u16_mod)) (drop 10 hdr)) in
    fold_carries (to_u32 (base + options))

-- `computeChecksum_`
unfoldable pub compute_checksum : IpHeader → ℕ
unfolding words ipv4_checksum
compute_checksum h = ipv4_checksum (words h) 5

abbrev pub init_ttl : ℕ
init_ttl = 16

-- `makeIpv4Header`: `none` is a payload that is too long.
unfoldable pub make_ipv4_header : Ipv4Address → Ipv4Address → ℕ → ℕ → Option IpHeader
unfolding compute_checksum
make_ipv4_header src dest protocol payload_length =
    let h : IpHeader = record {
      ihl = 5;
      version = 4;
      tos = 0;
      tot_len = hton16 (to_u16 (payload_length + 20));
      id = 0;
      frag_off = 0;
      ttl = init_ttl;
      protocol = protocol;
      check = 0;
      saddr = src.addr;
      daddr = dest.addr;
    } in
    if ltb (u16_mod - 1 - 20) payload_length
    then none
    else some (record h { check = compute_checksum h })

-- The constructor of `Datagram` for sending, which throws where the result is `none`.
unfoldable pub make_datagram : Ipv4Address → Ipv4Address → List ℕ → ℕ → Option Datagram
unfolding make_ipv4_header
make_datagram src dest payload protocol = do
  h ← make_ipv4_header src dest protocol (to_u16 (length payload))
  some (record { header = h; payload = payload })

unfoldable pub update_checksum : Datagram → Datagram
unfolding compute_checksum
update_checksum d = record d { header = record d.header { check = compute_checksum d.header } }

unfoldable pub bytes_of : List ℕ → List ℕ
bytes_of [] = []
bytes_of (w ∷ ws) = w % 256 ∷ w / 256 ∷ bytes_of ws

-- What `sendDatagram` puts on the link: the header and the payload.
unfoldable pub wire : Datagram → List ℕ
unfolding words bytes_of
wire d = bytes_of (words d.header) ++ d.payload

abbrev pub max_datagram_size : ℕ
max_datagram_size = 1400

unfoldable pub zeros : ℕ → List ℕ
zeros zero = []
zeros (suc n) = 0 ∷ zeros n

unfoldable pub word_at : List ℕ → ℕ → ℕ
word_at buf i = get_or buf (2 * i) 0 + get_or buf (2 * i + 1) 0 * 256

unfoldable pub load_header : List ℕ → IpHeader
unfolding word_at
load_header buf = record {
  ihl = get_or buf 0 0 % 16;
  version = get_or buf 0 0 / 16;
  tos = get_or buf 1 0;
  tot_len = word_at buf 1;
  id = word_at buf 2;
  frag_off = word_at buf 3;
  ttl = get_or buf 8 0;
  protocol = get_or buf 9 0;
  check = word_at buf 5;
  saddr = word_at buf 6 + word_at buf 7 * u16_mod;
  daddr = word_at buf 8 + word_at buf 9 * u16_mod;
}

unfoldable pub any_nonzero : List ℕ → Bool
any_nonzero [] = false
any_nonzero (b ∷ bs) = not (b == 0) || any_nonzero bs

pub data Received : Type 0 where
  checksum_invalid ttl_expired options_found length_invalid : Received
  datagram : Datagram → Received

-- `recvDatagram` from the checksum on, for the buffer and the header that its first bytes are. `none` is
-- a range that is no part of the buffer.
unfoldable pub check_datagram : List ℕ → IpHeader → Option Received
unfolding any_nonzero
check_datagram buf h =
    let header_len = h.ihl * 4 in
    let total_len = hton16 h.tot_len in
    if not (h.check == compute_checksum h)
    then some checksum_invalid
    else if h.ttl == 0
    then some ttl_expired
    else if ltb header_len 20
    then none
    else if any_nonzero (take (header_len - 20) (drop 20 buf))
    then some options_found
    else if ltb total_len header_len
    then some length_invalid
    else if ltb max_datagram_size total_len
    then none
    else some (
        datagram (record {
          header = record h { ttl = h.ttl - 1 };
          payload = take (total_len - header_len) (drop header_len buf);
        }))

-- The buffer once `recv` has read a UDP datagram into it, at most its size.
unfoldable pub fill_buffer : List ℕ → List ℕ
unfolding zeros
fill_buffer bytes =
    let read = take max_datagram_size bytes in read ++ zeros (max_datagram_size - length read)

-- `recvDatagram`; it throws where nothing is read.
unfoldable pub recv_datagram : List ℕ → Option Received
recv_datagram bytes =
    let buf = fill_buffer bytes in
    if length bytes == 0 then none else check_datagram buf (load_header buf)

-- `subnetMaskLength`: its loop, of which 32 rounds are enough. `none` is a loop that has run out of
-- rounds.
unfoldable pub mask_length_loop : ℕ → ℕ → ℕ → Option ℕ
mask_length_loop rounds zero len = some len
mask_length_loop zero (suc m) len = none
mask_length_loop (suc rounds) (suc m) len = mask_length_loop rounds (to_u32 (suc m * 2)) (len + 1)

unfoldable pub subnet_mask_length : ℕ → Option ℕ
unfolding mask_length_loop
subnet_mask_length mask = mask_length_loop 32 mask 0

-- The mask that `parseCidr` makes of a length from 0 to 32, where the conversion to `int` has given it.
unfoldable pub mask_of_length : ℕ → ℕ
mask_of_length len = if len == 0 then 0 else to_u32 ((u32_mod - 1) * 2 ^ (32 - len))
