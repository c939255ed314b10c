-- ===== src/Mss/Syn/Effect.antt =====
-- cmd/server/mss.go: what `normalizeUplinkSYN` and `clampDownlinkSYN` do to a SYN with an MSS option.
use obsidian_vpn.Base.{
  ℕ, ◌+◌, ◌*◌, ◌-◌, ◌/◌, ◌%◌, ◌^◌, ◌≤◌, ◌<◌, ◌≡◌, refl, ap, sym, ◌∙◌, subst, List, ◌++◌, Bool, true,
  false, Option, none, some, min, max, ltb, length, arith, All, take, drop, length-take,
  length-slice, take-append, drop-append, Bool-cases, inl, inr, lt→leb, ltb→lt, ltb_false→le,
}
use obsidian_vpn.Base.Bytes.{IsByte, at, get_u16}
use obsidian_vpn.Base.Bytes.Put.{get_u16-lt, take-IsByte, drop-IsByte}
use obsidian_vpn.Mss.{TcpLayout, locate_tcp, mss_option_value}
use obsidian_vpn.Mss.Layout.{
  addresses-le, Located, IpFits, locate-Located, OptionAt, mss_option_within,
}
use obsidian_vpn.Mss.Checksum.{set_mss_value, pseudo_sum, word_end, ones_sum, fold_sum}
use obsidian_vpn.Mss.Checksum.Valid.{SegmentVerifies, pseudo_sum-prefix}
use obsidian_vpn.Mss.Checksum.Patch.{
  set_mss_value-SegmentVerifies, length-set_mss_value, get_u16-set_mss_value,
}
use obsidian_vpn.Mss.Syn.{
  tcp_of, with_tcp, at_layout, syn_option, syn_mss, external_mss, overhead, raise_mss,
  normalize_uplink_syn, lower_mss, clamp_downlink_syn,
}

-- Replacing the TCP part.
tcp_of-with_tcp :
    (pkt : List ℕ) (l : TcpLayout) (tcp : List ℕ)
    → l.ip_len ≤ l.total
    → l.total ≤ length pkt
    → length tcp ≡ l.total - l.ip_len
    → tcp_of (with_tcp pkt l tcp) l ≡ tcp
unfolding tcp_of with_tcp
tcp_of-with_tcp pkt l tcp h k e =
    let n = length-take l.ip_len pkt in
    let head : length (take l.ip_len pkt) ≡ l.ip_len = omega arith in
    let rest = drop l.total pkt in
    ap (λ m. take (l.total - l.ip_len) (drop m (take l.ip_len pkt ++ (tcp ++ rest)))) (sym head)
    ∙ ap (take (l.total - l.ip_len)) (drop-append (take l.ip_len pkt) (tcp ++ rest))
    ∙ ap (λ m. take m (tcp ++ rest)) (sym e)
    ∙ take-append tcp rest

pseudo_sum-with_tcp :
    (pkt : List ℕ) (l : TcpLayout) (tcp : List ℕ) (n : ℕ)
    → Located pkt l
    → pseudo_sum (with_tcp pkt l tcp) l.v6 n ≡ pseudo_sum pkt l.v6 n
unfolding with_tcp
pseudo_sum-with_tcp pkt l tcp n h =
    pseudo_sum-prefix pkt (tcp ++ drop l.total pkt) l.v6 l.ip_len n
      (addresses-le pkt l.v6 l.ip_len l.total h.ip) (omega (arith, h.room, h.within))

-- What is known of a SYN that both functions change.
pub record SynAt (pkt : List ℕ) (l : TcpLayout) (idx : ℕ) : Type 0 where
  pub layout : Located pkt l
  pub value : OptionAt (take l.tcp_len (tcp_of pkt l)) 20 idx

at_layout-some :
    (l l' : TcpLayout) (o : Option ℕ) (idx : ℕ)
    → at_layout l' o ≡ some (l, idx)
    → (l' ≡ l) × (o ≡ some idx)
unfolding at_layout
at_layout-some l l' none idx h = absurd (ground arith)
at_layout-some l l' (some i) idx h = ground arith

syn_value :
    (pkt : List ℕ) (l l' : TcpLayout) (idx : ℕ)
    → syn_option pkt (some l') ≡ some (l, idx)
    → (l' ≡ l) × (mss_option_value (take l'.tcp_len (tcp_of pkt l')) ≡ some idx)
unfolding syn_option
syn_value pkt l l' idx h =
    let value = mss_option_value (take l'.tcp_len (tcp_of pkt l')) in
    at_layout-some l l' value idx (ground arith)

SynAt-transport :
    (pkt : List ℕ) (l' l : TcpLayout) (idx : ℕ)
    → l' ≡ l
    → Located pkt l'
    → OptionAt (take l'.tcp_len (tcp_of pkt l')) 20 idx
    → SynAt pkt l idx
SynAt-transport pkt l' l idx same a b =
    subst (λ m. SynAt pkt m idx) same (record { layout = a; value = b })

syn_option-SynAt :
    (pkt : List ℕ) (l : TcpLayout) (idx : ℕ) (found : Option TcpLayout)
    → locate_tcp pkt ≡ found
    → syn_option pkt found ≡ some (l, idx)
    → SynAt pkt l idx
unfolding syn_option
syn_option-SynAt pkt l idx none e h = absurd (ground arith)
syn_option-SynAt pkt l idx (some l') e h =
    let value = mss_option_value (take l'.tcp_len (tcp_of pkt l')) in
    let (same, found) = syn_value pkt l l' idx h in
    SynAt-transport pkt l' l idx same (locate-Located pkt l' e)
      (mss_option_within (take l'.tcp_len (tcp_of pkt l')) idx found)

length-tcp_of :
    (pkt : List ℕ) (l : TcpLayout)
    → l.ip_len ≤ l.total
    → l.total ≤ length pkt
    → length (tcp_of pkt l) ≡ l.total - l.ip_len
unfolding tcp_of
length-tcp_of pkt l h k = length-slice pkt l.ip_len l.total h k

tcp_of-IsByte : (pkt : List ℕ) (l : TcpLayout) → All IsByte pkt → All IsByte (tcp_of pkt l)
unfolding tcp_of
tcp_of-IsByte pkt l bytes =
    take-IsByte (l.total - l.ip_len) (drop l.ip_len pkt) (drop-IsByte l.ip_len pkt bytes)

-- The TCP header is a whole number of words.
word_end-le :
    (idx n tcp_len : ℕ) → idx + 2 ≤ tcp_len → tcp_len % 4 ≡ 0 → tcp_len ≤ n → word_end idx ≤ n
unfolding word_end
word_end-le idx n tcp_len p q r = omega arith

tcp_short :
    (pkt : List ℕ) (v6 : Bool) (ip_len total : ℕ)
    → All IsByte pkt
    → IpFits pkt v6 ip_len total
    → total - ip_len ≤ 65535
unfolding IpFits
tcp_short pkt true ip_len total bytes (long, version, ihl, len, proto) =
    omega (arith, get_u16-lt pkt 4 bytes)
tcp_short pkt false ip_len total bytes (long, version, ihl, least, len, le, proto, whole) =
    omega (arith, get_u16-lt pkt 2 bytes)

-- The segment after a new value was written: its checksum and the value.
pub record Written (new : List ℕ) (l : TcpLayout) (idx mss : ℕ) : Type 0 where
  pub verifies : SegmentVerifies new l.v6 (tcp_of new l)
  pub value : get_u16 (tcp_of new l) idx ≡ mss

with_value : List ℕ → TcpLayout → ℕ → ℕ → List ℕ
with_value pkt l idx mss = with_tcp pkt l (set_mss_value (tcp_of pkt l) idx mss)

set_mss_value-Written :
    (pkt : List ℕ) (l : TcpLayout) (idx mss : ℕ)
    → All IsByte pkt
    → SynAt pkt l idx
    → mss < 2 ^ 16
    → SegmentVerifies pkt l.v6 (tcp_of pkt l)
    → Written (with_value pkt l idx mss) l idx mss
unfolding SegmentVerifies OptionAt with_value
set_mss_value-Written pkt l idx mss bytes at_syn small ok =
    let tcp = tcp_of pkt l in
    let tcp' = set_mss_value tcp idx mss in
    let new = with_tcp pkt l tcp' in
    let lay = at_syn.layout in
    let (behind, within, kind, size) = at_syn.value in
    let bounds : l.ip_len + l.tcp_len ≤ l.total = lay.tcp_within in
    let room : l.ip_len + 20 ≤ l.total = lay.room in
    let ends : l.total ≤ length pkt = lay.within in
    let words : l.tcp_len ≡ at pkt (l.ip_len + 12) / 16 * 4 = lay.data_offset in
    let len = length-tcp_of pkt l (omega arith) ends in
    let few = length-take l.tcp_len tcp in
    let len' = length-set_mss_value tcp idx mss in
    let short = tcp_short pkt l.v6 l.ip_len l.total bytes lay.ip in
    let e = tcp_of-with_tcp pkt l tcp' (omega arith) ends (omega arith) in
    record {
      verifies =
          ap (λ t. fold_sum ((pseudo_sum new l.v6 (length t) + ones_sum t) % 2 ^ 32)) e
          ∙ ap (λ p. fold_sum ((p + ones_sum tcp') % 2 ^ 32))
              (pseudo_sum-with_tcp pkt l tcp' (length tcp') lay)
          ∙ set_mss_value-SegmentVerifies pkt l.v6 tcp idx mss bytes (tcp_of-IsByte pkt l bytes)
              (omega arith) (omega arith)
              (word_end-le idx (length tcp) l.tcp_len (omega arith) (omega arith) (omega arith))
              small ok;
      value =
          ap (λ t. get_u16 t idx) e
          ∙ get_u16-set_mss_value tcp idx mss (omega arith) (omega arith) small;
    }

syn_mss-SynAt :
    (pkt : List ℕ) (l : TcpLayout) (idx : ℕ) → syn_mss pkt ≡ some (l, idx) → SynAt pkt l idx
unfolding syn_mss
syn_mss-SynAt pkt l idx h = syn_option-SynAt pkt l idx (locate_tcp pkt) refl h

kept :
    (pkt : List ℕ) (l : TcpLayout) (idx mss : ℕ)
    → SegmentVerifies pkt l.v6 (tcp_of pkt l)
    → get_u16 (tcp_of pkt l) idx ≡ mss
    → Written pkt l idx mss
kept pkt l idx mss ok e = record { verifies = ok; value = e }

external_mss-lt : (v6 : Bool) → external_mss v6 < 2 ^ 16
unfolding external_mss
external_mss-lt true = omega arith
external_mss-lt false = omega arith

raise_mss-Written :
    (pkt : List ℕ) (l : TcpLayout) (idx : ℕ)
    → All IsByte pkt
    → SynAt pkt l idx
    → SegmentVerifies pkt l.v6 (tcp_of pkt l)
    → Written
        (raise_mss pkt (some (l, idx))).1
        l
        idx
        (max (get_u16 (tcp_of pkt l) idx) (external_mss l.v6))
unfolding raise_mss with_value
raise_mss-Written pkt l idx bytes s ok =
    let mss = get_u16 (tcp_of pkt l) idx in
    elim (Bool-cases (ltb mss (external_mss l.v6))) [
      | inl below ↦
          let e : external_mss l.v6 ≡ max mss (external_mss l.v6) =
            omega (arith, ltb→lt mss (external_mss l.v6) below) in
          rw below (
            subst (λ m. Written (with_value pkt l idx (external_mss l.v6)) l idx m) e
              (set_mss_value-Written pkt l idx (external_mss l.v6) bytes s (external_mss-lt l.v6)
                ok))
      | inr above ↦
          rw above (kept pkt l idx _ ok (omega (arith, ltb_false→le mss (external_mss l.v6) above)))
    ]

raise_mss_returns :
    (pkt : List ℕ) (l : TcpLayout) (idx : ℕ)
    → (raise_mss pkt (some (l, idx))).0 ≡ get_u16 (tcp_of pkt l) idx + overhead l.v6
unfolding raise_mss
raise_mss_returns pkt l idx = refl

-- For a SYN with an MSS option and a correct TCP checksum, `normalizeUplinkSYN` returns the MTU that
-- the client's MSS stands for, and leaves the packet with a correct checksum and with the greater of
-- that MSS and the external one, 1460 for IPv4 and 1440 for IPv6.
pub normalize_uplink_raises :
    (pkt : List ℕ) (l : TcpLayout) (idx : ℕ)
    → All IsByte pkt
    → syn_mss pkt ≡ some (l, idx)
    → SegmentVerifies pkt l.v6 (tcp_of pkt l)
    → ((normalize_uplink_syn pkt).0 ≡ get_u16 (tcp_of pkt l) idx + overhead l.v6)
      × Written
          (normalize_uplink_syn pkt).1
          l
          idx
          (max (get_u16 (tcp_of pkt l) idx) (external_mss l.v6))
unfolding normalize_uplink_syn
normalize_uplink_raises pkt l idx bytes found ok =
    let s = syn_mss-SynAt pkt l idx found in
    rw found (raise_mss_returns pkt l idx, raise_mss-Written pkt l idx bytes s ok)

lower_mss-Written :
    (pkt : List ℕ) (limit_mtu : ℕ) (l : TcpLayout) (idx : ℕ)
    → All IsByte pkt
    → SynAt pkt l idx
    → SegmentVerifies pkt l.v6 (tcp_of pkt l)
    → overhead l.v6 < limit_mtu
    → Written
        (lower_mss pkt limit_mtu (some (l, idx)))
        l
        idx
        (min (get_u16 (tcp_of pkt l) idx) (limit_mtu - overhead l.v6))
unfolding lower_mss with_value
lower_mss-Written pkt limit_mtu l idx bytes s ok room =
    let mss = get_u16 (tcp_of pkt l) idx in
    let limit = limit_mtu - overhead l.v6 in
    let e = lt→leb limit_mtu (overhead l.v6) room in
    elim (Bool-cases (ltb limit mss)) [
      | inl above ↦
          let gt = ltb→lt limit mss above in
          let word = get_u16-lt (tcp_of pkt l) idx (tcp_of-IsByte pkt l bytes) in
          let v : limit % 2 ^ 16 ≡ min mss limit = omega arith in
          rw (e, above)
            (subst (λ m. Written (with_value pkt l idx (limit % 2 ^ 16)) l idx m) v
              (set_mss_value-Written pkt l idx (limit % 2 ^ 16) bytes s (omega arith) ok))
      | inr within ↦
          rw (e, within) (kept pkt l idx _ ok (omega (arith, ltb_false→le limit mss within)))
    ]

-- For a SYN with an MSS option and a correct TCP checksum, and a limit above the headers' size,
-- `clampDownlinkSYN` leaves the packet with a correct checksum and with the lesser of its MSS and
-- what the limit leaves after the headers.
pub clamp_downlink_lowers :
    (pkt : List ℕ) (limit_mtu : ℕ) (l : TcpLayout) (idx : ℕ)
    → All IsByte pkt
    → syn_mss pkt ≡ some (l, idx)
    → SegmentVerifies pkt l.v6 (tcp_of pkt l)
    → overhead l.v6 < limit_mtu
    → Written
        (clamp_downlink_syn pkt limit_mtu)
        l
        idx
        (min (get_u16 (tcp_of pkt l) idx) (limit_mtu - overhead l.v6))
unfolding clamp_downlink_syn
clamp_downlink_lowers pkt limit_mtu l idx bytes found ok room =
    rw found (lower_mss-Written pkt limit_mtu l idx bytes (syn_mss-SynAt pkt l idx found) ok room)
