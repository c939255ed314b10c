-- ===== src/Mss/Fragments/Reassembly.antt =====
-- cmd/server/mss.go, `fragmentIPv4`: the fragments reassemble to the payload.
use obsidian_vpn.Base.{
  ℕ, zero, suc, ◌+◌, ◌-◌, ◌*◌, ◌/◌, ◌%◌, ◌^◌, ◌≤◌, ◌<◌, ◌≡◌, refl, ap, sym, ◌∙◌, min, bit_or, List,
  [], ◌∷◌, ◌++◌, Bool, true, false, not, some, if◌then◌else◌, length, take, drop, slice, arith, All,
  ◌||◌, length-take, length-drop, length-append, length-slice, drop-append, drop-drop, drop_past,
  Bool-cases, inl, inr, ltb, subst, le→ltb, ltb→lt, ltb_false→le, ◌==◌, ne→==, eq→==, lt→leb, ==→eq,
  ==_false→ne,
}
use obsidian_vpn.Base.Bits.{bit_or_pow}
use obsidian_vpn.Base.Bytes.{IsByte, at, get_u16, put_u16}
use obsidian_vpn.Base.Bytes.Put.{
  take-IsByte, drop-IsByte, append-IsByte, get_u16-lt, length-put_u16, drop-put_u16, put_u16-IsByte,
  get_u16-put_u16, get_u16-put_u16_ne,
}
use obsidian_vpn.Mss.Checksum.{set_ipv4_checksum}
use obsidian_vpn.Mss.Checksum.Valid.{HeaderVerifies, get_u16-checksum_set}
use obsidian_vpn.Mss.Segments.Fields.{checksum-IpDone}
use obsidian_vpn.Mss.Fragments.{fragment, fragment_loop, fragment_ipv4}

-- A fragment of at most `max_len` bytes with `content` at `offset`, DF clear, and MF as `more` says.
pub record IsFragment (ihl max_len offset : ℕ) (content : List ℕ) (more : Bool) (frag : List ℕ)
    : Type 0 where
  pub size : length frag ≤ max_len
  pub length_field : get_u16 frag 2 ≡ length frag
  pub carries : drop ihl frag ≡ content
  pub place : get_u16 frag 6 ≡ offset / 8 + (if more then 0x2000 else 0)
  pub aligned : offset % 8 ≡ 0
  pub header_checked : HeaderVerifies (take ihl frag)

-- The fragments carry `content` from `offset` on, one after the other, none of them empty; all but the
-- last have MF set, and the last as `more` says.
pub Reassembles : ℕ → ℕ → ℕ → List ℕ → Bool → List (List ℕ) → Type 0
Reassembles ihl max_len offset content more [] = content ≡ []
Reassembles ihl max_len offset content more (frag ∷ frags) =
    (n : ℕ) × (0 < n)
    × (n ≤ length content)
    × IsFragment ihl max_len offset (take n content) (not (n == length content) || more) frag
    × Reassembles ihl max_len (offset + n) (drop n content) more frags

flag_word :
    (f : ℕ) (more : Bool)
    → f < 2 ^ 13
    → (if more then bit_or f 0x2000 else f) ≡ f + (if more then 0x2000 else 0)
flag_word f true h = bit_or_pow 13 f h
flag_word f false h = omega arith

flag_bound : (more : Bool) → (if more then 0x2000 else 0) ≤ 0x2000
flag_bound true = omega arith
flag_bound false = omega arith

fragment-IsFragment :
    (pkt : List ℕ) (ihl base : ℕ) (payload : List ℕ) (max_len off end : ℕ) (more : Bool)
    → All IsByte pkt
    → All IsByte payload
    → 20 ≤ ihl
    → ihl ≤ length pkt
    → off < end
    → end ≤ length payload
    → ihl + (end - off) ≤ max_len
    → ihl + (end - off) ≤ 65535
    → (base + off) % 8 ≡ 0
    → base + off < 2 ^ 16
    → IsFragment ihl max_len
        (base + off)
        (slice payload off end)
        more
        (fragment pkt ihl base payload off end more)
unfolding fragment
fragment-IsFragment pkt ihl base payload max_len off end more bp bd least fits lt within room most
      aligned small =
    let content = slice payload off end in
    let buf = take ihl pkt ++ content in
    let n_take = length-take ihl pkt in
    let n_content = length-slice payload off end (omega arith) within in
    let n_buf = length-append (take ihl pkt) content in
    let bb =
      append-IsByte (take ihl pkt) content (take-IsByte ihl pkt bp)
        (take-IsByte (end - off) (drop off payload) (drop-IsByte off payload bd)) in
    let f = (base + off) / 8 % 2 ^ 16 in
    let word = if more then bit_or f 0x2000 else f in
    let sized = put_u16 buf 2 (length buf % 2 ^ 16) in
    let placed = put_u16 sized 6 word in
    let n_sized = length-put_u16 buf 2 (length buf % 2 ^ 16) in
    let n_placed = length-put_u16 sized 6 word in
    let flag = flag_word f more (omega arith) in
    let flag_le : (if more then 0x2000 else 0) ≤ 0x2000 = flag_bound more in
    let d =
      checksum-IpDone placed ihl buf least (omega arith) (omega arith) (omega arith)
        (λ n h. drop-put_u16 n sized 6 word (omega arith) ∙ drop-put_u16 n buf 2 _ (omega arith))
        (put_u16-IsByte sized 6 word (put_u16-IsByte buf 2 _ bb)) in
    let out = set_ipv4_checksum (take ihl placed) ++ drop ihl placed in
    let size : length out ≡ length buf = d.size in
    let whole : length (take ihl pkt) ≡ ihl = omega arith in
    record {
      size = omega arith;
      length_field = omega (
        arith,
        get_u16-checksum_set placed ihl 2 least (omega arith) (omega arith),
        get_u16-put_u16_ne sized 6 word 2 (λ e. omega arith) (λ e. omega arith) (λ e. omega arith),
        get_u16-put_u16 buf 2 (length buf % 2 ^ 16) (omega arith) (omega arith),
      );
      carries =
          d.behind ihl (omega arith)
          ∙ ap (λ m. drop m buf) (sym whole)
          ∙ drop-append (take ihl pkt) content;
      place = omega (
        arith,
        get_u16-checksum_set placed ihl 6 least (omega arith) (omega arith),
        get_u16-put_u16 sized 6 word (omega arith) (omega arith),
      );
      aligned = aligned;
      header_checked = d.checked refl;
    }

fragment_loop_done :
    (fuel : ℕ) (pkt : List ℕ) (ihl base : ℕ) (more : Bool) (payload : List ℕ) (per off : ℕ)
    → length payload ≤ off
    → fragment_loop fuel pkt ihl base more payload per off ≡ []
unfolding fragment_loop
fragment_loop_done zero pkt ihl base more payload per off h = refl
fragment_loop_done (suc fuel) pkt ihl base more payload per off h =
    let e = le→ltb off (length payload) h in rw e

-- Where the next round starts after `n` bytes: at its own offset, or past the end.
Reassembles-next :
    (ihl max_len base off per : ℕ) (payload : List ℕ) (more : Bool) (frags : List (List ℕ))
    → off ≤ length payload
    → (length payload ≤ off + per → frags ≡ [])
    → Reassembles ihl max_len (base + (off + per)) (drop (off + per) payload) more frags
    → let n = min (off + per) (length payload) - off in
      Reassembles ihl max_len (base + off + n) (drop n (drop off payload)) more frags
unfolding Reassembles
Reassembles-next ihl max_len base off per payload more frags h last d =
    let n = min (off + per) (length payload) - off in
    elim (Bool-cases (ltb (off + per) (length payload))) [
      | inl within ↦
          let lt = ltb→lt (off + per) (length payload) within in
          let full : per ≡ n = omega arith in
          let place : base + (off + per) ≡ base + off + per = omega arith in
          subst
            (λ k. Reassembles ihl max_len (base + off + k) (drop k (drop off payload)) more frags)
            full
            (subst (λ q. Reassembles ihl max_len q (drop per (drop off payload)) more frags) place
              (subst (λ c. Reassembles ihl max_len (base + (off + per)) c more frags)
                (sym (drop-drop per off payload)) d))
      | inr past ↦
          let ge = ltb_false→le (off + per) (length payload) past in
          let none_left = drop_past n (drop off payload) (omega (arith, length-drop off payload)) in
          subst (λ t. Reassembles ihl max_len (base + off + n) (drop n (drop off payload)) more t)
            (sym (last ge)) none_left
    ]

-- The last fragment is the one that ends with the payload.
ends_alike :
    (off end m k : ℕ) (more : Bool)
    → off < end
    → m ≡ k - off
    → end ≤ k
    → (not (end == k) || more) ≡ (not ((end - off) == m) || more)
ends_alike off end m k more h e le = elim (Bool-cases (end == k)) [
  | inl same ↦ let t = eq→== (end - off) m (omega (arith, ==→eq end k same)) in rw (same, t)
  | inr apart ↦
      let t = ne→== (end - off) m (λ q. ==_false→ne end k apart (omega arith)) in rw (apart, t)
]

fragment_loop-Reassembles :
    (fuel : ℕ) (pkt : List ℕ) (ihl base : ℕ) (more : Bool) (payload : List ℕ) (max_len per off : ℕ)
    → All IsByte pkt
    → All IsByte payload
    → 20 ≤ ihl
    → ihl ≤ length pkt
    → ihl + per ≤ max_len
    → ihl + length payload ≤ 65535
    → 0 < per
    → per % 8 ≡ 0
    → (base + off) % 8 ≡ 0
    → base + length payload ≤ 2 ^ 16
    → length payload ≤ off + fuel
    → Reassembles ihl max_len
        (base + off)
        (drop off payload)
        more
        (fragment_loop fuel pkt ihl base more payload per off)
unfolding fragment_loop Reassembles
fragment_loop-Reassembles zero pkt ihl base more payload max_len per off bp bd least fits room most
      positive whole aligned small enough =
    drop_past off payload (omega arith)
fragment_loop-Reassembles (suc fuel) pkt ihl base more payload max_len per off bp bd least fits room
      most positive whole aligned small enough =
    let end = min (off + per) (length payload) in
    let rest = fragment_loop fuel pkt ihl base more payload per (off + per) in
    let m = length-drop off payload in
    elim (Bool-cases (ltb off (length payload))) [
      | inr done ↦ rw done (drop_past off payload (ltb_false→le off (length payload) done))
      | inl under ↦
          let lt = ltb→lt off (length payload) under in
          let alike =
            ends_alike off end (length (drop off payload)) (length payload) more (omega arith) m
              (omega arith) in
          let frag = fragment pkt ihl base payload off end (not (end == length payload) || more) in
          let first =
            fragment-IsFragment pkt ihl base payload max_len off end
              (not (end == length payload) || more) bp bd least fits (omega arith) (omega arith)
              (omega arith) (omega arith) aligned (omega arith) in
          let later =
            fragment_loop-Reassembles fuel pkt ihl base more payload max_len per (off + per) bp bd
              least fits room most positive whole (omega arith) small (omega arith) in
          rw under (
            end - off,
            omega arith,
            omega arith,
            subst (λ b. IsFragment ihl max_len (base + off) (slice payload off end) b frag) alike
                first,
            Reassembles-next ihl max_len base off per payload more rest (omega arith)
                (λ h. fragment_loop_done fuel pkt ihl base more payload per (off + per) h) later,
          )
    ]

-- An IPv4 packet whose header of 20 bytes or more lies within its total length, and that within the
-- packet, whose total length is above `max_len`, and whose offset and payload stay within 65536 bytes,
-- is split when `max_len` leaves room for 8 bytes behind the header; the fragments, none longer than
-- `max_len`, have a correct header checksum, a correct length, DF clear, and reassemble at the
-- packet's own offset to its payload, with MF clear on the last one only if it was clear.
pub fragment_ipv4-Reassembles :
    (pkt : List ℕ) (max_len : ℕ)
    → All IsByte pkt
    → 20 ≤ length pkt
    → at pkt 0 / 16 ≡ 4
    → 20 ≤ at pkt 0 % 16 * 4
    → at pkt 0 % 16 * 4 ≤ get_u16 pkt 2
    → get_u16 pkt 2 ≤ length pkt
    → max_len < get_u16 pkt 2
    → at pkt 0 % 16 * 4 + 8 ≤ max_len
    → get_u16 pkt 6 % 2 ^ 13 * 8 + (get_u16 pkt 2 - at pkt 0 % 16 * 4) ≤ 2 ^ 16
    → (frags : List (List ℕ)) × (fragment_ipv4 pkt max_len ≡ some frags)
      × Reassembles
          (at pkt 0 % 16 * 4)
          max_len
          (get_u16 pkt 6 % 2 ^ 13 * 8)
          (slice pkt (at pkt 0 % 16 * 4) (get_u16 pkt 2))
          (not (get_u16 pkt 6 / 2 ^ 13 % 2 == 0))
          frags
unfolding fragment_ipv4
fragment_ipv4-Reassembles pkt max_len bytes long version least le within above room small =
    let ihl = at pkt 0 % 16 * 4 in
    let total = get_u16 pkt 2 in
    let per = (max_len - ihl) / 8 * 8 in
    let base = get_u16 pkt 6 % 2 ^ 13 * 8 in
    let more = not (get_u16 pkt 6 / 2 ^ 13 % 2 == 0) in
    let payload = slice pkt ihl total in
    let n = length-slice pkt ihl total le within in
    let word = get_u16-lt pkt 2 bytes in
    let place : base + 0 ≡ base = omega arith in
    let frags = fragment_loop (length payload) pkt ihl base more payload per 0 in
    let e1 = le→ltb (length pkt) 20 long in
    let e2 = eq→== (at pkt 0 / 16) 4 version in
    let e3 = le→ltb ihl 20 least in
    let e4 = le→ltb total ihl le in
    let e5 = le→ltb (length pkt) total within in
    let e6 = lt→leb total max_len above in
    let e7 = ne→== per 0 (λ e. omega arith) in
    (
      frags,
      rw (e1, e2, e3, e4, e5, e6, e7),
      subst (λ q. Reassembles ihl max_len q payload more frags) place
          (fragment_loop-Reassembles (length payload) pkt ihl base more payload max_len per 0 bytes
            (take-IsByte (total - ihl) (drop ihl pkt) (drop-IsByte ihl pkt bytes)) least
            (omega arith) (omega arith) (omega arith) (omega arith) (omega arith) (omega arith)
            (omega arith) (omega arith)),
    )
