-- ===== src/Mss/Segments/Delivery.antt =====
-- cmd/server/mss.go, `splitTCP`: the segments carry the payload in order.
use obsidian_vpn.Base.{
  ℕ, zero, suc, ◌+◌, ◌-◌, ◌%◌, ◌^◌, ◌≤◌, ◌<◌, ◌≡◌, refl, ap, sym, ◌∙◌, min, List, [], ◌∷◌, ◌++◌,
  Bool, true, false, some, length, take, drop, slice, arith, All, length-take, length-drop,
  length-append, length-slice, drop-append, ◌==◌, drop_past, Bool-cases, inl, inr, ltb, ltb→lt,
  ltb_false→le, drop-drop, ne→==, lt→leb, subst, le→ltb,
}
use obsidian_vpn.Base.Bytes.{IsByte, get_u32}
use obsidian_vpn.Base.Bytes.Put.{take-IsByte, drop-IsByte, append-IsByte, get_u32-lt}
use obsidian_vpn.Mss.{TcpLayout, locate_tcp}
use obsidian_vpn.Mss.Layout.{locate-Located, addresses-le}
use obsidian_vpn.Mss.Checksum.Valid.{SegmentVerifies, HeaderVerifies, addresses_end}
use obsidian_vpn.Mss.Segments.{
  ip_fields, tcp_fields, segment, header_of, split_loop, split_located, split_tcp,
}
use obsidian_vpn.Mss.Segments.Fields.{ip_fields-IpDone, tcp_fields-TcpDone}

-- A segment of at most `max_len` bytes that carries `content` from sequence number `seq` on.
pub record IsSegment (l : TcpLayout) (max_len seq : ℕ) (content seg : List ℕ) : Type 0 where
  pub size : length seg ≤ max_len
  pub carries : drop (header_of l) seg ≡ content
  pub placed : get_u32 seg (l.ip_len + 4) ≡ seq
  pub segment_checked : SegmentVerifies seg l.v6 (drop l.ip_len seg)
  pub header_checked : l.v6 ≡ false → HeaderVerifies (take l.ip_len seg)

-- The packets carry `content` from `seq` on, one after the other, none of them empty.
pub Delivers : TcpLayout → ℕ → ℕ → List ℕ → List (List ℕ) → Type 0
Delivers l max_len seq content [] = content ≡ []
Delivers l max_len seq content (seg ∷ segs) =
    (n : ℕ) × (0 < n)
    × (n ≤ length content)
    × IsSegment l max_len seq (take n content) seg
    × Delivers l max_len ((seq + n) % 2 ^ 32) (drop n content) segs

segment-IsSegment :
    (pkt : List ℕ) (l : TcpLayout) (payload : List ℕ) (max_len i off end : ℕ)
    → All IsByte pkt
    → All IsByte payload
    → addresses_end l.v6 ≤ l.ip_len
    → 20 ≤ l.ip_len
    → 20 ≤ l.tcp_len
    → header_of l ≤ length pkt
    → off ≤ end
    → end ≤ length payload
    → header_of l + (end - off) ≤ max_len
    → max_len ≤ 65535
    → IsSegment l max_len
        ((get_u32 pkt (l.ip_len + 4) + off % 2 ^ 32) % 2 ^ 32)
        (slice payload off end)
        (segment pkt l payload i off end)
unfolding segment
segment-IsSegment pkt l payload max_len i off end bp bd far least tcp_least fits le within room
      most =
    let h = header_of l in
    let content = slice payload off end in
    let buf = take h pkt ++ content in
    let n_take = length-take h pkt in
    let n_data = length-slice payload off end le within in
    let n_buf = length-append (take h pkt) content in
    let bb =
      append-IsByte (take h pkt) content (take-IsByte h pkt bp)
        (take-IsByte (end - off) (drop off payload) (drop-IsByte off payload bd)) in
    let d = ip_fields-IpDone pkt l i (end - off) buf bb least (omega arith) (omega arith) in
    let out = ip_fields pkt l i (end - off) buf in
    let size : length out ≡ length buf = d.size in
    let t =
      tcp_fields-TcpDone pkt l off (end == length payload) out bp d.octets far (omega arith)
        (omega arith) in
    let seg = tcp_fields pkt l off (end == length payload) out in
    let size' : length seg ≡ length out = t.size in
    let whole : length (take h pkt) ≡ h = omega arith in
    record {
      size = omega arith;
      carries =
          t.behind h (omega arith)
          ∙ d.behind h (omega arith)
          ∙ ap (λ m. drop m buf) (sym whole)
          ∙ drop-append (take h pkt) content;
      placed = t.placed;
      segment_checked = t.checked;
      header_checked = λ e. subst HeaderVerifies (sym t.before) (d.checked e);
    }

addresses_least : (v6 : Bool) (n : ℕ) → addresses_end v6 ≤ n → 20 ≤ n
unfolding addresses_end
addresses_least true n h = omega arith
addresses_least false n h = h

split_loop_done :
    (fuel : ℕ) (pkt : List ℕ) (l : TcpLayout) (payload : List ℕ) (chunk i off : ℕ)
    → length payload ≤ off
    → split_loop fuel pkt l payload chunk i off ≡ []
unfolding split_loop
split_loop_done zero pkt l payload chunk i off h = refl
split_loop_done (suc fuel) pkt l payload chunk i off h =
    let e = le→ltb off (length payload) h in rw e

Delivers-nil : (l : TcpLayout) (max_len seq : ℕ) → Delivers l max_len seq [] []
unfolding Delivers
Delivers-nil l max_len seq = refl

-- Where the next round starts after `n` bytes: at its own offset, or past the end.
Delivers-next :
    (l : TcpLayout) (max_len g off chunk : ℕ) (payload : List ℕ) (segs : List (List ℕ))
    → off ≤ length payload
    → (length payload ≤ off + chunk → segs ≡ [])
    → Delivers l max_len ((g + (off + chunk)) % 2 ^ 32) (drop (off + chunk) payload) segs
    → let n = min (off + chunk) (length payload) - off in
      Delivers l max_len (((g + off) % 2 ^ 32 + n) % 2 ^ 32) (drop n (drop off payload)) segs
Delivers-next l max_len g off chunk payload segs h last d =
    let n = min (off + chunk) (length payload) - off in
    elim (Bool-cases (ltb (off + chunk) (length payload))) [
      | inl more ↦
          let lt = ltb→lt (off + chunk) (length payload) more in
          let full : n ≡ chunk = omega arith in
          let seq : (g + (off + chunk)) % 2 ^ 32 ≡ ((g + off) % 2 ^ 32 + chunk) % 2 ^ 32 =
            omega arith in
          subst
            (λ k.
              Delivers l max_len (((g + off) % 2 ^ 32 + k) % 2 ^ 32) (drop k (drop off payload))
                segs)
            (sym full)
            (subst (λ q. Delivers l max_len q (drop chunk (drop off payload)) segs) seq
              (subst (λ c. Delivers l max_len ((g + (off + chunk)) % 2 ^ 32) c segs)
                (sym (drop-drop chunk off payload)) d))
      | inr past ↦
          let ge = ltb_false→le (off + chunk) (length payload) past in
          let none_left = drop_past n (drop off payload) (omega (arith, length-drop off payload)) in
          let q = ((g + off) % 2 ^ 32 + n) % 2 ^ 32 in
          subst (λ c. Delivers l max_len q c segs) (sym none_left)
            (subst (λ t. Delivers l max_len q [] t) (sym (last ge)) (Delivers-nil l max_len q))
    ]

split_loop-Delivers :
    (fuel : ℕ) (pkt : List ℕ) (l : TcpLayout) (payload : List ℕ) (max_len i off : ℕ)
    → All IsByte pkt
    → All IsByte payload
    → addresses_end l.v6 ≤ l.ip_len
    → 20 ≤ l.ip_len
    → 20 ≤ l.tcp_len
    → header_of l ≤ length pkt
    → header_of l < max_len
    → max_len ≤ 65535
    → length payload ≤ off + fuel
    → Delivers l max_len
        ((get_u32 pkt (l.ip_len + 4) + off) % 2 ^ 32)
        (drop off payload)
        (split_loop fuel pkt l payload (max_len - header_of l) i off)
unfolding split_loop Delivers
split_loop-Delivers zero pkt l payload max_len i off bp bd far least tcp_least fits room most
      enough =
    drop_past off payload (omega arith)
split_loop-Delivers (suc fuel) pkt l payload max_len i off bp bd far least tcp_least fits room most
      enough =
    let g = get_u32 pkt (l.ip_len + 4) in
    let chunk = max_len - header_of l in
    let end = min (off + chunk) (length payload) in
    let rest = split_loop fuel pkt l payload chunk (i + 1) (off + chunk) in
    elim (Bool-cases (ltb off (length payload))) [
      | inr done ↦ rw done (drop_past off payload (ltb_false→le off (length payload) done))
      | inl more ↦
          let lt = ltb→lt off (length payload) more in
          let seq : (g + off % 2 ^ 32) % 2 ^ 32 ≡ (g + off) % 2 ^ 32 = omega arith in
          let first =
            segment-IsSegment pkt l payload max_len i off end bp bd far least tcp_least fits
              (omega arith) (omega arith) (omega arith) most in
          let later =
            split_loop-Delivers fuel pkt l payload max_len (i + 1) (off + chunk) bp bd far least
              tcp_least fits room most (omega arith) in
          rw more (
            end - off,
            omega arith,
            omega (arith, length-drop off payload),
            subst
                (λ q.
                  IsSegment l max_len q (slice payload off end) (segment pkt l payload i off end))
                seq first,
            Delivers-next l max_len g off chunk payload rest (omega arith)
                (λ h. split_loop_done fuel pkt l payload chunk (i + 1) (off + chunk) h) later,
          )
    ]

-- A packet with a TCP header and a total length above `max_len`, where `max_len` exceeds its two
-- headers and is at most 65535, is split; the segments carry the payload whole and
-- in order, each with the sequence number of its first byte, none of them empty or longer than
-- `max_len`, and each with a correct TCP checksum and, for IPv4, a correct header checksum.
pub split_tcp-Delivers :
    (pkt : List ℕ) (l : TcpLayout) (max_len : ℕ)
    → All IsByte pkt
    → locate_tcp pkt ≡ some l
    → header_of l < max_len
    → max_len < l.total
    → max_len ≤ 65535
    → (segs : List (List ℕ)) × (split_tcp pkt max_len ≡ some segs)
      × Delivers l max_len (get_u32 pkt (l.ip_len + 4)) (slice pkt (header_of l) l.total) segs
unfolding split_tcp split_located
split_tcp-Delivers pkt l max_len bytes found room long most =
    let lay = locate-Located pkt l found in
    let within = lay.within in
    let both : l.ip_len + l.tcp_len ≤ l.total = lay.tcp_within in
    let payload = slice pkt (header_of l) l.total in
    let chunk = max_len - header_of l in
    let n = length-slice pkt (header_of l) l.total both within in
    let g = get_u32 pkt (l.ip_len + 4) in
    let small = get_u32-lt pkt (l.ip_len + 4) bytes in
    let seq : (g + 0) % 2 ^ 32 ≡ g = omega arith in
    let positive = ne→== chunk 0 (λ e. omega arith) in
    let longer = lt→leb (length payload) chunk (omega arith) in
    let segs = split_loop (length payload) pkt l payload chunk 0 0 in
    let far = addresses-le pkt l.v6 l.ip_len l.total lay.ip in
    (
      segs,
      rw (found, positive, longer),
      subst (λ q. Delivers l max_len q payload segs) seq
          (split_loop-Delivers (length payload) pkt l payload max_len 0 0 bytes
            (take-IsByte (l.total - header_of l) (drop (header_of l) pkt)
              (drop-IsByte (header_of l) pkt bytes))
            far (addresses_least l.v6 l.ip_len far) lay.tcp_least (omega arith) room most
            (omega arith)),
    )
