-- ===== src/Header/Classify.antt =====
-- The type that a receiver reads off an id is the type that the sender picked the id for.
use obsidian_vpn.Base.{ℕ, ◌^◌, ◌<◌, ◌≡◌, ◌↔◌, true, false, none, some, arith, Bool-cases, inl, inr}
use obsidian_vpn.Header.{
  PacketType, data_packet, keepalive, noise, handshake, close, other, HeaderRange, HeaderConfig,
  pick, contains, overlap, validate, type_id_to_packet_type, range_for,
}
use obsidian_vpn.Header.Ranges.{
  Draws, IsUsable, IsSeparate, pick-contains, overlap_of_common, validate-IsSeparate,
}

-- One of the five packet types of the source.
abbrev pub IsKnown : PacketType → Type 0
IsKnown (other n) = ⊥
IsKnown _ = Unit {0}

disjoint :
    (a b : HeaderRange) (id : ℕ)
    → overlap a b ≡ false
    → contains b id ≡ true
    → contains a id ≡ false
disjoint a b id sep p = elim (Bool-cases (contains a id)) [
  | inl q ↦ cc (overlap_of_common a b id q p)
  | inr q ↦ q
]

pub classify_complete :
    (hc : HeaderConfig) (pt : PacketType) (id : ℕ)
    → IsSeparate hc
    → IsKnown pt
    → contains (range_for hc pt) id ≡ true
    → type_id_to_packet_type hc id ≡ some pt
unfolding type_id_to_packet_type range_for
classify_complete hc data_packet id s k c = rw c
classify_complete hc keepalive id s k c = rw (disjoint _ _ id s.data_keepalive c, c)
classify_complete hc noise id s k c =
    rw (disjoint _ _ id s.data_noise c, disjoint _ _ id s.keepalive_noise c, c)
classify_complete hc handshake id s k c = rw (
  disjoint _ _ id s.data_handshake c,
  disjoint _ _ id s.keepalive_handshake c,
  disjoint _ _ id s.noise_handshake c,
  c,
)
classify_complete hc close id s k c = rw (
  disjoint _ _ id s.data_close c,
  disjoint _ _ id s.keepalive_close c,
  disjoint _ _ id s.noise_close c,
  disjoint _ _ id s.handshake_close c,
  c,
)
classify_complete hc (other n) id s k c = absurd k

classify_sound :
    (hc : HeaderConfig) (pt : PacketType) (id : ℕ)
    → type_id_to_packet_type hc id ≡ some pt
    → contains (range_for hc pt) id ≡ true
unfolding type_id_to_packet_type range_for
classify_sound hc pt id e = ground arith

-- Under a configuration that `Validate` accepts, an id is read as a packet type exactly when it
-- lies in the range of that type, whichever of the five types it is.
pub classify_iff :
    (hc : HeaderConfig) (pt : PacketType) (id : ℕ)
    → validate hc ≡ none
    → IsKnown pt
    → (type_id_to_packet_type hc id ≡ some pt) ↔ (contains (range_for hc pt) id ≡ true)
classify_iff hc pt id v k =
    (classify_sound hc pt id, classify_complete hc pt id (validate-IsSeparate hc v) k)

-- Under a configuration that `Validate` accepts, the id that `Pick` draws from the usable range of
-- one of the five types is a uint32 that the receiver reads as that type.
pub classify-pick :
    (uint32_n : ℕ → ℕ) (hc : HeaderConfig) (pt : PacketType)
    → Draws uint32_n
    → validate hc ≡ none
    → IsKnown pt
    → IsUsable (range_for hc pt)
    → (id : ℕ) × (pick uint32_n (range_for hc pt) ≡ some id)
      × (type_id_to_packet_type hc id ≡ some pt)
      × (id < 2 ^ 32)
classify-pick f hc pt d v k u =
    let (id, e, c, w) = pick-contains f (range_for hc pt) d u in
    (id, e, classify_complete hc pt id (validate-IsSeparate hc v) k c, w)
