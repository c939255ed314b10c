-- ===== src/Mss/Segments/Fields.antt =====
-- cmd/server/mss.go, `splitTCP`: the fields of one segment.
use obsidian_vpn.Base.{
  bit_and, ℕ, ◌+◌, ◌-◌, ◌%◌, ◌^◌, ◌≤◌, ◌<◌, ◌≡◌, ap, sym, ◌∙◌, List, ◌++◌, Bool, true, false,
  if◌then◌else◌, length, take, drop, set, arith, All, length-set, get_or-set_ne, length-take,
  length-drop, length-append, drop-append, drop-joined, take-joined, drop-drop_to, subst,
  Bool-cases, inl, inr, get_or-splice, get_or-drop,
}
use obsidian_vpn.Base.Bits.{and_not, bit_and-le}
use obsidian_vpn.Base.Bytes.{bit_xor-lt, IsByte, at, get_u32, put_u16, put_u32}
use obsidian_vpn.Base.Bytes.Put.{
  length-put_u16, drop-put_u16, put_u16-IsByte, put_u32-IsByte, at-IsByte, set-IsByte,
  length-put_u32, take-set, drop-set, take-put_u32, drop-put_u32, get_u32-put_u32, at-put_u16_ne,
  take-IsByte, drop-IsByte, append-IsByte,
}
use obsidian_vpn.Mss.{TcpLayout}
use obsidian_vpn.Mss.Checksum.{fold_sum, ones_sum, pseudo_sum, set_ipv4_checksum, set_tcp_checksum}
use obsidian_vpn.Mss.Checksum.Valid.{
  length-set_ipv4_checksum, set_ipv4_checksum-IsByte, addresses_end, pseudo_sum-prefix,
  SegmentVerifies, HeaderVerifies, set_tcp_checksum-SegmentVerifies,
  set_ipv4_checksum-HeaderVerifies,
}
use obsidian_vpn.Mss.Segments.{ip_fields, tcp_fields}

length-set_tcp_checksum :
    (ip : List ℕ) (v6 : Bool) (tcp : List ℕ) → length (set_tcp_checksum ip v6 tcp) ≡ length tcp
unfolding set_tcp_checksum
length-set_tcp_checksum ip v6 tcp = length-put_u16 (put_u16 tcp 16 0) 16 _ ∙ length-put_u16 tcp 16 0

drop-set_tcp_checksum :
    (ip : List ℕ) (v6 : Bool) (tcp : List ℕ) (n : ℕ)
    → 18 ≤ n
    → drop n (set_tcp_checksum ip v6 tcp) ≡ drop n tcp
unfolding set_tcp_checksum
drop-set_tcp_checksum ip v6 tcp n h =
    drop-put_u16 n (put_u16 tcp 16 0) 16 _ (omega arith) ∙ drop-put_u16 n tcp 16 0 (omega arith)

-- What `ip_fields` leaves: the size, the bytes behind the IP header, and a correct header checksum.
pub record IpDone (v6 : Bool) (ip_len : ℕ) (buf out : List ℕ) : Type 0 where
  pub size : length out ≡ length buf
  pub behind : (n : ℕ) → ip_len ≤ n → drop n out ≡ drop n buf
  pub octets : All IsByte out
  pub checked : v6 ≡ false → HeaderVerifies (take ip_len out)

-- Setting the header checksum of a packet whose fields are in place.
pub checksum-IpDone :
    (out : List ℕ) (ip_len : ℕ) (buf : List ℕ)
    → 20 ≤ ip_len
    → ip_len ≤ length buf
    → length buf ≤ 65535
    → length out ≡ length buf
    → ((n : ℕ) → ip_len ≤ n → drop n out ≡ drop n buf)
    → All IsByte out
    → IpDone false ip_len buf (set_ipv4_checksum (take ip_len out) ++ drop ip_len out)
checksum-IpDone out ip_len buf least fits most size behind octets =
    let head = set_ipv4_checksum (take ip_len out) in
    let n_head = length-set_ipv4_checksum (take ip_len out) in
    let n_take = length-take ip_len out in
    let whole : length head ≡ ip_len = omega arith in
    let bt = take-IsByte ip_len out octets in
    record {
      size = omega (arith, length-append head (drop ip_len out), length-drop ip_len out);
      behind = λ n h.
          drop-joined head ip_len n (drop ip_len out) h whole
          ∙ drop-drop_to ip_len n out h
          ∙ behind n h;
      octets =
          append-IsByte head (drop ip_len out) (set_ipv4_checksum-IsByte (take ip_len out) bt)
            (drop-IsByte ip_len out octets);
      checked = λ e.
          subst HeaderVerifies (sym (take-joined head ip_len (drop ip_len out) whole))
            (set_ipv4_checksum-HeaderVerifies (take ip_len out) bt (omega arith) (omega arith));
    }

pub ip_fields-IpDone :
    (pkt : List ℕ) (l : TcpLayout) (i part : ℕ) (buf : List ℕ)
    → All IsByte buf
    → 20 ≤ l.ip_len
    → l.ip_len ≤ length buf
    → length buf ≤ 65535
    → IpDone l.v6 l.ip_len buf (ip_fields pkt l i part buf)
unfolding ip_fields
ip_fields-IpDone pkt l i part buf bytes least fits most = elim (Bool-cases l.v6) [
  | inl six ↦ rw six (record {
    size = length-put_u16 buf 4 _;
    behind = λ n h. drop-put_u16 n buf 4 _ (omega arith);
    octets = put_u16-IsByte buf 4 _ bytes;
    checked = λ e. absurd (ground arith);
  })
  | inr four ↦ rw four (
      checksum-IpDone (put_u16 (put_u16 buf 2 _) 4 _) l.ip_len buf least fits most
        (length-put_u16 (put_u16 buf 2 _) 4 _ ∙ length-put_u16 buf 2 _)
        (λ n h.
          drop-put_u16 n (put_u16 buf 2 _) 4 _ (omega arith) ∙ drop-put_u16 n buf 2 _ (omega arith))
        (put_u16-IsByte (put_u16 buf 2 _) 4 _ (put_u16-IsByte buf 2 _ bytes)))
]

-- What `tcp_fields` leaves of a packet `buf` with both headers in place.
pub record TcpDone (v6 : Bool) (ip_len seq : ℕ) (buf out : List ℕ) : Type 0 where
  pub size : length out ≡ length buf
  pub before : take ip_len out ≡ take ip_len buf
  pub behind : (n : ℕ) → ip_len + 20 ≤ n → drop n out ≡ drop n buf
  pub octets : All IsByte out
  pub placed : get_u32 out (ip_len + 4) ≡ seq
  pub checked : SegmentVerifies out v6 (drop ip_len out)

at-set_tcp_checksum :
    (ip : List ℕ) (v6 : Bool) (tcp : List ℕ) (j : ℕ)
    → j < 16
    → at (set_tcp_checksum ip v6 tcp) j ≡ at tcp j
unfolding set_tcp_checksum
at-set_tcp_checksum ip v6 tcp j h =
    at-put_u16_ne (put_u16 tcp 16 0) 16 _ j (λ e. omega arith) (λ e. omega arith)
    ∙ at-put_u16_ne tcp 16 0 j (λ e. omega arith) (λ e. omega arith)

set_tcp_checksum-IsByte :
    (ip : List ℕ) (v6 : Bool) (tcp : List ℕ)
    → All IsByte tcp
    → All IsByte (set_tcp_checksum ip v6 tcp)
unfolding set_tcp_checksum
set_tcp_checksum-IsByte ip v6 tcp b =
    put_u16-IsByte (put_u16 tcp 16 0) 16 _ (put_u16-IsByte tcp 16 0 b)

-- A read before the checksum's field sees through the last step.
at-joined :
    (out : List ℕ) (v6 : Bool) (ip_len j : ℕ)
    → ip_len ≤ length out
    → j < 16
    → at (take ip_len out ++ set_tcp_checksum out v6 (drop ip_len out)) (ip_len + j)
      ≡ at out (ip_len + j)
at-joined out v6 ip_len j fits h =
    get_or-splice ip_len j out (set_tcp_checksum out v6 (drop ip_len out)) 0 fits
    ∙ at-set_tcp_checksum out v6 (drop ip_len out) j h
    ∙ get_or-drop ip_len j out 0

get_u32-joined :
    (out : List ℕ) (v6 : Bool) (ip_len : ℕ)
    → ip_len ≤ length out
    → get_u32 (take ip_len out ++ set_tcp_checksum out v6 (drop ip_len out)) (ip_len + 4)
      ≡ get_u32 out (ip_len + 4)
unfolding get_u32
get_u32-joined out v6 ip_len fits =
    let e5 : ip_len + 4 + 1 ≡ ip_len + 5 = omega arith in
    let e6 : ip_len + 4 + 2 ≡ ip_len + 6 = omega arith in
    let e7 : ip_len + 4 + 3 ≡ ip_len + 7 = omega arith in
    rw (e5, e6, e7)
      (omega (
        arith,
        at-joined out v6 ip_len 4 fits (omega arith),
        at-joined out v6 ip_len 5 fits (omega arith),
        at-joined out v6 ip_len 6 fits (omega arith),
        at-joined out v6 ip_len 7 fits (omega arith),
      ))

-- Setting the TCP checksum of a packet whose fields are in place.
checksum-TcpDone :
    (out : List ℕ) (v6 : Bool) (ip_len seq : ℕ) (buf : List ℕ)
    → addresses_end v6 ≤ ip_len
    → ip_len + 20 ≤ length buf
    → length buf ≤ ip_len + 65535
    → length out ≡ length buf
    → take ip_len out ≡ take ip_len buf
    → ((n : ℕ) → ip_len + 20 ≤ n → drop n out ≡ drop n buf)
    → All IsByte out
    → get_u32 out (ip_len + 4) ≡ seq
    → TcpDone v6 ip_len seq buf (take ip_len out ++ set_tcp_checksum out v6 (drop ip_len out))
unfolding SegmentVerifies
checksum-TcpDone out v6 ip_len seq buf far fits most size before behind octets placed =
    let head = take ip_len out in
    let tail = set_tcp_checksum out v6 (drop ip_len out) in
    let n_head = length-take ip_len out in
    let n_tail = length-set_tcp_checksum out v6 (drop ip_len out) in
    let n_drop = length-drop ip_len out in
    let whole : length head ≡ ip_len = omega arith in
    let bd = drop-IsByte ip_len out octets in
    let e : drop ip_len (head ++ tail) ≡ tail =
      ap (λ m. drop m (head ++ tail)) (sym whole) ∙ drop-append head tail in
    record {
      size = omega (arith, length-append head tail);
      before = take-joined head ip_len tail whole ∙ before;
      behind = λ n h.
          drop-joined head ip_len n tail (omega arith) whole
          ∙ drop-set_tcp_checksum out v6 (drop ip_len out) (n - ip_len) (omega arith)
          ∙ drop-drop_to ip_len n out (omega arith)
          ∙ behind n h;
      octets =
          append-IsByte head tail (take-IsByte ip_len out octets)
            (set_tcp_checksum-IsByte out v6 (drop ip_len out) bd);
      placed = get_u32-joined out v6 ip_len (omega arith) ∙ placed;
      checked =
          ap (λ t. fold_sum ((pseudo_sum (head ++ tail) v6 (length t) + ones_sum t) % 2 ^ 32)) e
          ∙ ap (λ p. fold_sum ((p + ones_sum tail) % 2 ^ 32))
              (pseudo_sum-prefix out tail v6 ip_len (length tail) far (omega arith))
          ∙ set_tcp_checksum-SegmentVerifies out v6 (drop ip_len out) octets bd (omega arith)
              (omega arith);
    }

flags-IsByte : (b : Bool) (f : ℕ) → f < 256 → (if b then f else and_not f 9) < 256
unfolding and_not
flags-IsByte true f h = h
flags-IsByte false f h = bit_xor-lt 8 f (bit_and f 9) h (omega (arith, bit_and-le f 9))

get_u32-set_ne : (xs : List ℕ) (i v j : ℕ) → j + 4 ≤ i → get_u32 (set xs i v) j ≡ get_u32 xs j
unfolding get_u32
get_u32-set_ne xs i v j h = omega (
  arith,
  get_or-set_ne xs i j v 0 (λ e. omega arith),
  get_or-set_ne xs i (j + 1) v 0 (λ e. omega arith),
  get_or-set_ne xs i (j + 2) v 0 (λ e. omega arith),
  get_or-set_ne xs i (j + 3) v 0 (λ e. omega arith),
)

pub tcp_fields-TcpDone :
    (pkt : List ℕ) (l : TcpLayout) (off : ℕ) (last : Bool) (buf : List ℕ)
    → All IsByte pkt
    → All IsByte buf
    → addresses_end l.v6 ≤ l.ip_len
    → l.ip_len + 20 ≤ length buf
    → length buf ≤ l.ip_len + 65535
    → TcpDone l.v6 l.ip_len
        ((get_u32 pkt (l.ip_len + 4) + off % 2 ^ 32) % 2 ^ 32)
        buf
        (tcp_fields pkt l off last buf)
unfolding tcp_fields
tcp_fields-TcpDone pkt l off last buf bp bytes far fits most =
    let seq = (get_u32 pkt (l.ip_len + 4) + off % 2 ^ 32) % 2 ^ 32 in
    let f = at pkt (l.ip_len + 13) in
    let v = if last then f else and_not f 9 in
    let mid = put_u32 buf (l.ip_len + 4) seq in
    checksum-TcpDone (set mid (l.ip_len + 13) v) l.v6 l.ip_len seq buf far fits most
      (length-set mid (l.ip_len + 13) v ∙ length-put_u32 buf (l.ip_len + 4) seq)
      (take-set l.ip_len mid (l.ip_len + 13) v (omega arith)
        ∙ take-put_u32 l.ip_len buf (l.ip_len + 4) seq (omega arith))
      (λ n h.
        drop-set n mid (l.ip_len + 13) v (omega arith)
        ∙ drop-put_u32 n buf (l.ip_len + 4) seq (omega arith))
      (set-IsByte mid (l.ip_len + 13) v (put_u32-IsByte buf (l.ip_len + 4) seq bytes)
        (flags-IsByte last f (at-IsByte pkt (l.ip_len + 13) bp)))
      (get_u32-set_ne mid (l.ip_len + 13) v (l.ip_len + 4) (omega arith)
        ∙ get_u32-put_u32 buf (l.ip_len + 4) seq (omega arith) (omega arith))
