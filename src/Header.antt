-- ===== src/Header.antt =====
-- obsidian/protocol.go, range-based packet headers: `HeaderRange`, `HeaderConfig` and the map
-- between packet types and type-ids. A uint32 is a number; `rand.Uint32N` is an argument.
pub mod Ranges
pub mod Classify
mod Examples
use obsidian_vpn.Base.{
  ℕ, suc, ◌+◌, ◌-◌, ◌^◌, ◌%◌, ◌<◌, ◌≤◌, ◌≡◌, refl, Bool, true, false, ◌&&◌, Option, none, some,
  List, [], ◌∷◌, leb, if◌then◌else◌,
}

-- `other` is any uint8 that is no constant of the source.
pub data PacketType : Type 0 where
  data_packet keepalive noise handshake close : PacketType
  other : ℕ → PacketType

pub record HeaderRange : Type 0 where
  pub min_id : ℕ
  pub max_id : ℕ

pub record HeaderConfig : Type 0 where
  pub data_range : HeaderRange
  pub keepalive_range : HeaderRange
  pub noise_range : HeaderRange
  pub handshake_range : HeaderRange
  pub close_range : HeaderRange

-- `Pick`: the argument stands for `rand.Uint32N`. The span `Max-Min+1` is a uint32 and wraps to 0
-- on the whole range, where Go's `rand.Uint32N(0)` panics: `none`.
unfoldable pub pick : (ℕ → ℕ) → HeaderRange → Option ℕ
pick uint32_n h =
    let span = (h.max_id - h.min_id + 1) % 2 ^ 32 in
    if leb h.max_id h.min_id
    then some h.min_id
    else if leb span 0
    then none
    else some ((h.min_id + uint32_n span) % 2 ^ 32)

unfoldable pub contains : HeaderRange → ℕ → Bool
contains h v = leb h.min_id v && leb v h.max_id

unfoldable pub default_header_config : HeaderConfig
default_header_config = record {
  data_range = record { min_id = 0x10000000; max_id = 0x1fffffff };
  keepalive_range = record { min_id = 0x20000000; max_id = 0x2fffffff };
  noise_range = record { min_id = 0x30000000; max_id = 0x3fffffff };
  handshake_range = record { min_id = 0x40000000; max_id = 0x4fffffff };
  close_range = record { min_id = 0x50000000; max_id = 0x5fffffff };
}

-- The test in the inner loop of `Validate`.
unfoldable pub overlap : HeaderRange → HeaderRange → Bool
overlap a b = leb a.min_id b.max_id && leb b.min_id a.max_id

-- The inner loop, from index `j` on: the first range that overlaps `a`.
unfoldable pub validate_inner : HeaderRange → ℕ → List HeaderRange → Option ℕ
validate_inner a j [] = none
validate_inner a j (b ∷ bs) = if overlap a b then some j else validate_inner a (suc j) bs

-- The outer loop, from index `i` on: the indices of the first pair that overlaps.
unfoldable pub validate_outer : ℕ → List HeaderRange → Option (ℕ × ℕ)
validate_outer i [] = none
validate_outer i (a ∷ bs) = elim (validate_inner a (suc i) bs) [
  | some j ↦ some (i, j)
  | none ↦ validate_outer (suc i) bs
]

-- `Validate`: `none` is the nil error.
unfoldable pub validate : HeaderConfig → Option (ℕ × ℕ)
validate hc =
    validate_outer 0 (
      hc.data_range ∷ hc.keepalive_range ∷ hc.noise_range ∷ hc.handshake_range ∷ hc.close_range
      ∷ [])

-- `typeIDToPacketType`: `none` is the error "unknown type-id".
unfoldable pub type_id_to_packet_type : HeaderConfig → ℕ → Option PacketType
type_id_to_packet_type hc id =
    if contains hc.data_range id
    then some data_packet
    else if contains hc.keepalive_range id
    then some keepalive
    else if contains hc.noise_range id
    then some noise
    else if contains hc.handshake_range id
    then some handshake
    else if contains hc.close_range id
    then some close
    else none

unfoldable pub range_for : HeaderConfig → PacketType → HeaderRange
range_for hc data_packet = hc.data_range
range_for hc keepalive = hc.keepalive_range
range_for hc noise = hc.noise_range
range_for hc handshake = hc.handshake_range
range_for hc close = hc.close_range
range_for hc (other n) = hc.data_range
