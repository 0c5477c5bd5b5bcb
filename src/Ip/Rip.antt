-- ===== src/Ip/Rip.antt =====
-- lib/include/ip/rip_message.hpp, lib/src/ip/rip_message.cpp and `sendRipMessage_` of
-- lib/src/router_node.cpp: RIP messages and their bytes. A `reinterpret_cast` load or a copy of an
-- integer moves its bytes with the least significant first, and `none` is a load past the end, which
-- the program does not check for.
pub mod Wire
use tns.Common.{
  ℕ, zero, suc, ◌+◌, ◌-◌, ◌*◌, ◌/◌, ◌%◌, ◌^◌, min, Bool, true, false, Option, none, some, List, [],
  ◌∷◌, ◌++◌, ltb, ◌==◌, if◌then◌else◌, not, length, add_u32, u16_mod, ◌>>=◌,
}
use tns.Ip.Address.{Ipv4Address, same_address, hton16, hton32}

abbrev pub infinity : ℕ
infinity = 16

-- `RipMessage::Entry`, in host byte order.
pub record RipEntry : Type 0 where
  pub cost : ℕ
  pub address : ℕ
  pub mask : ℕ

pub record RipMessage : Type 0 where
  pub command : ℕ
  pub num_entries : ℕ
  pub entries : List RipEntry
  pub learned_from : List (Option Ipv4Address)

abbrev pub request : ℕ
request = 1

abbrev pub response : ℕ
response = 2

-- The constructor for messages to send; it throws where the result is `none`.
unfoldable pub make_message : ℕ → List RipEntry → List (Option Ipv4Address) → Option RipMessage
make_message command entries learned_from =
    if ltb (u16_mod - 1) (length entries)
    then none
    else if not (length entries == length learned_from)
    then none
    else some (record {
      command = command;
      num_entries = length entries;
      entries = entries;
      learned_from = learned_from;
    })

unfoldable pub load16 : List ℕ → Option (ℕ × List ℕ)
load16 (a ∷ b ∷ rest) = some (a + b * 256, rest)
load16 _ = none

unfoldable pub load32 : List ℕ → Option (ℕ × List ℕ)
load32 (a ∷ b ∷ c ∷ d ∷ rest) = some (a + b * 256 + c * 2 ^ 16 + d * 2 ^ 24, rest)
load32 _ = none

unfoldable pub store16 : ℕ → List ℕ
store16 x = x % 256 ∷ x / 256 ∷ []

unfoldable pub store32 : ℕ → List ℕ
store32 x = x % 256 ∷ x / 256 % 256 ∷ x / 2 ^ 16 % 256 ∷ x / 2 ^ 24 ∷ []

-- The loop of the constructor for a received payload.
unfoldable pub parse_entries : ℕ → List ℕ → Option (List RipEntry)
parse_entries zero p = some []
parse_entries (suc n) p = do
  (cost, p1) ← load32 p
  (address, p2) ← load32 p1
  (mask, p3) ← load32 p2
  rest ← parse_entries n p3
  some (
      record {
        cost = min (add_u32 (hton32 cost) 1) infinity;
        address = hton32 address;
        mask = hton32 mask;
      }
      ∷ rest)

-- `RipMessage(PayloadView)`
unfoldable pub parse_message : List ℕ → Option RipMessage
parse_message p = do
  (command, p1) ← load16 p
  (num_entries, p2) ← load16 p1
  entries ← parse_entries (hton16 num_entries) p2
  some (record {
    command = hton16 command;
    num_entries = hton16 num_entries;
    entries = entries;
    learned_from = [];
  })

-- The cost told to `dest_ip`: infinite for a route learned from it (poisoned reverse).
unfoldable pub told_cost : Ipv4Address → RipEntry → Option Ipv4Address → ℕ
unfolding same_address
told_cost dest_ip e none = e.cost
told_cost dest_ip e (some from) = if same_address dest_ip from then infinity else e.cost

-- The loop of `sendRipMessage_`, whose second iterator is not checked: it runs along, and the
-- constructor has made the two lists of one length.
unfoldable pub entries_payload : Ipv4Address → List RipEntry → List (Option Ipv4Address) → List ℕ
entries_payload dest_ip (e ∷ es) (f ∷ fs) =
    store32 (hton32 (told_cost dest_ip e f))
    ++ (store32 (hton32 e.address) ++ (store32 (hton32 e.mask) ++ entries_payload dest_ip es fs))
entries_payload dest_ip _ _ = []

-- The payload that `sendRipMessage_` sends.
unfoldable pub message_payload : Ipv4Address → RipMessage → List ℕ
message_payload dest_ip m =
    store16 (hton16 m.command)
    ++ (store16 (hton16 m.num_entries) ++ entries_payload dest_ip m.entries m.learned_from)
