-- ===== src/Ip/Rip/Wire.antt =====
-- What a neighbour reads out of the payload of a message.
use tns.Common.{
  ℕ, ◌+◌, ◌^◌, ◌<◌, ◌≡◌, refl, sym, min, Bool, false, ◌&&◌, ◌==◌, if◌then◌else◌, Option, none, some,
  List, [], ◌∷◌, ◌++◌, length, add_u32, u16_mod, u32_mod, All, arith,
}
use tns.Ip.Address.{
  Ipv4Address, same_address, hton16, hton32, hton16-hton16, hton32-hton32, hton32-lt,
}
use tns.Ip.Rip.{
  RipEntry, RipMessage, infinity, make_message, load16, load32, store16, store32, parse_entries,
  parse_message, told_cost, entries_payload, message_payload,
}

-- The fields are `uint32_t`, and so is the cost plus one.
pub record FitsWords (e : RipEntry) : Type 0 where
  pub cost : e.cost + 1 < u32_mod
  pub address : e.address < u32_mod
  pub mask : e.mask < u32_mod

-- A route that leads over the neighbour at `dest`.
unfoldable pub leads_over : Option Ipv4Address → Ipv4Address → Bool
leads_over none dest = false
leads_over (some g) dest = (g.addr == dest.addr) && (g.port == dest.port)

-- The entries as the neighbour `dest_ip` takes them in: one hop further away, at most infinity, and at
-- infinity where the route leads over that neighbour.
unfoldable pub heard_entries :
    Ipv4Address → List RipEntry → List (Option Ipv4Address) → List RipEntry
unfolding leads_over
heard_entries dest_ip (e ∷ es) (f ∷ fs) =
    record e { cost = if leads_over f dest_ip then infinity else min (e.cost + 1) infinity }
    ∷ heard_entries dest_ip es fs
heard_entries dest_ip _ _ = []

-- The cost told and then taken in.
heard-told :
    (dest_ip : Ipv4Address) (e : RipEntry) (f : Option Ipv4Address)
    → FitsWords e
    → min (add_u32 (told_cost dest_ip e f) 1) infinity
      ≡ (if leads_over f dest_ip then infinity else min (e.cost + 1) infinity)
unfolding told_cost leads_over same_address
heard-told dest_ip e none h = ground (arith, h.cost)
heard-told dest_ip e (some g) h = ground (arith, h.cost)

load32-store32 : (x : ℕ) (rest : List ℕ) → x < u32_mod → load32 (store32 x ++ rest) ≡ some (x, rest)
unfolding load32 store32
load32-store32 x rest h = ground arith

load16-store16 : (x : ℕ) (rest : List ℕ) → x < u16_mod → load16 (store16 x ++ rest) ≡ some (x, rest)
unfolding load16 store16
load16-store16 x rest h = ground arith

hton16-lt : (x : ℕ) → x < 2 ^ 16 → hton16 x < 2 ^ 16
unfolding hton16
hton16-lt x h = omega arith

told_cost-lt :
    (dest_ip : Ipv4Address) (e : RipEntry) (f : Option Ipv4Address)
    → FitsWords e
    → told_cost dest_ip e f < u32_mod
unfolding told_cost
told_cost-lt dest_ip e none h = omega (arith, h.cost)
told_cost-lt dest_ip e (some f) h = ground (arith, h.cost)

parse_entries-payload :
    (dest_ip : Ipv4Address) (es : List RipEntry) (fs : List (Option Ipv4Address))
    → All FitsWords es
    → length es ≡ length fs
    → parse_entries (length es) (entries_payload dest_ip es fs) ≡ some (heard_entries dest_ip es fs)
unfolding parse_entries entries_payload heard_entries
parse_entries-payload dest_ip [] fs h e = refl
parse_entries-payload dest_ip (x ∷ es) [] h e = absurd (omega arith)
parse_entries-payload dest_ip (x ∷ es) (f ∷ fs) h e =
    let c = told_cost-lt dest_ip x f h.0 in
    let rest = entries_payload dest_ip es fs in
    rw
      (
        load32-store32 (hton32 (told_cost dest_ip x f))
            (store32 (hton32 x.address) ++ (store32 (hton32 x.mask) ++ rest))
            (hton32-lt (told_cost dest_ip x f) c),
        load32-store32 (hton32 x.address) (store32 (hton32 x.mask) ++ rest)
            (hton32-lt x.address h.0.address),
        load32-store32 (hton32 x.mask) rest (hton32-lt x.mask h.0.mask),
        parse_entries-payload dest_ip es fs h.1 (omega arith),
        hton32-hton32 (told_cost dest_ip x f) c,
        hton32-hton32 x.address h.0.address,
        hton32-hton32 x.mask h.0.mask,
        heard-told dest_ip x f h.0,
      )
      refl

-- A neighbour reads back the command and the entries of a message that the constructor makes from
-- fields that fit their words, each cost plus one too: the same addresses and masks, and each cost one
-- higher, infinity at most, and infinity for a route learned from that neighbour.
pub parse_message-payload :
    (dest_ip : Ipv4Address) (command : ℕ) (es : List RipEntry) (fs : List (Option Ipv4Address))
    (m : RipMessage)
    → command < u16_mod
    → All FitsWords es
    → make_message command es fs ≡ some m
    → parse_message (message_payload dest_ip m)
      ≡ some (record {
        command = command;
        num_entries = length es;
        entries = heard_entries dest_ip es fs;
        learned_from = [];
      })
unfolding parse_message message_payload make_message
parse_message-payload dest_ip command es fs m h fit e =
    let (n, l, same) : (length es < u16_mod)
        × (length es ≡ length fs)
        × (record { command = command; num_entries = length es; entries = es; learned_from = fs }
            ≡ m) =
      ground (arith, e) in
    rw
      (
        sym same,
        load16-store16 (hton16 command)
            (store16 (hton16 (length es)) ++ entries_payload dest_ip es fs) (hton16-lt command h),
        load16-store16 (hton16 (length es)) (entries_payload dest_ip es fs)
            (hton16-lt (length es) n),
        hton16-hton16 (length es) n,
        hton16-hton16 command h,
        parse_entries-payload dest_ip es fs fit l,
      )
      refl
