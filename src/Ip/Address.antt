-- ===== src/Ip/Address.antt =====
-- lib/include/ip/address.hpp: `Ipv4Address`, an address and a port in network byte order, and
-- lib/include/util/util.hpp: the byte swaps. (A little-endian host, as the program assumes.)
use tns.Common.{ℕ, ◌+◌, ◌*◌, ◌/◌, ◌%◌, ◌^◌, ◌<◌, ◌≡◌, ◌↔◌, Bool, true, ◌&&◌, ◌||◌, arith, ltb, ◌==◌}

-- `hton` and `ntoh` at `uint16_t` and at `uint32_t`: the bytes in reverse.
unfoldable pub hton16 : ℕ → ℕ
hton16 x = x % 256 * 256 + x / 256

unfoldable pub hton32 : ℕ → ℕ
hton32 x = x % 256 * 2 ^ 24 + x / 2 ^ 8 % 256 * 2 ^ 16 + x / 2 ^ 16 % 256 * 2 ^ 8 + x / 2 ^ 24

pub record Ipv4Address : Type 0 where
  pub addr : ℕ
  pub port : ℕ

-- `operator==`
unfoldable pub same_address : Ipv4Address → Ipv4Address → Bool
same_address a b = a.addr == b.addr && a.port == b.port

abbrev pub get_addr_host : Ipv4Address → ℕ
get_addr_host a = hton32 a.addr

abbrev pub get_port_host : Ipv4Address → ℕ
get_port_host a = hton16 a.port

-- `operator<`
unfoldable pub less_address : Ipv4Address → Ipv4Address → Bool
less_address a b =
    ltb (get_addr_host a) (get_addr_host b)
    || (get_addr_host a == get_addr_host b && ltb (get_port_host a) (get_port_host b))

pub hton16-hton16 : (x : ℕ) → x < 2 ^ 16 → hton16 (hton16 x) ≡ x
unfolding hton16
hton16-hton16 x h = omega arith

pub hton32-hton32 : (x : ℕ) → x < 2 ^ 32 → hton32 (hton32 x) ≡ x
unfolding hton32
hton32-hton32 x h = omega arith

pub hton32-lt : (x : ℕ) → x < 2 ^ 32 → hton32 x < 2 ^ 32
unfolding hton32
hton32-lt x h = omega arith

pub same_address_iff : (a b : Ipv4Address) → (same_address a b ≡ true) ↔ (a ≡ b)
unfolding same_address
same_address_iff a b = ground arith
