-- ===== src/Udp/Mux/Start.antt =====
-- A client and a server that have derived their keys from one handshake: the first payload arrives.
use obsidian_vpn.Base.{
  ℕ, ◌+◌, ◌≤◌, ◌<◌, ◌^◌, ◌≡◌, refl, sym, ap, subst, ◌∙◌, inl, List, [], ◌∷◌, Bool, not, true, false,
  Option, none, some, length, take, arith, eq→==, length-take,
}
use obsidian_vpn.Cipher.{Aead}
use obsidian_vpn.Packet.{ok}
use obsidian_vpn.Replay.{ReplayWindow, empty_window, check, check_fuel, mark, is_marked}
use obsidian_vpn.Router.{same_bytes, put_of}
use obsidian_vpn.Router.Keys.{same_bytes_self}
use obsidian_vpn.Keys.Material.{length-read_full}
use obsidian_vpn.Keys.{SessionKeys}
use obsidian_vpn.Udp.{Block, Crypto, UdpKeys, derive_udp_keys}
use obsidian_vpn.Udp.Datagram.{Endpoint, SendDraws, fresh_endpoint, endpoint_with, new_endpoint}
use obsidian_vpn.Udp.Channel.{UdpAddr, UdpChannel, channel_on, new_udp_channel, send, keys_for}
use obsidian_vpn.Udp.Channel.Delivery.{Pairs, FitsBucket}
use obsidian_vpn.Udp.Sessions.{table_get, table_set, get-set}
use obsidian_vpn.Udp.Mux.{
  UdpSession, UdpMux, fresh_session, register_with, register_udp, put_session, push_data,
  handle_datagram, or_current,
}
use obsidian_vpn.Udp.Mux.Lookup.{IsRouted}
use obsidian_vpn.Udp.Mux.Delivery.{taken, handle_datagram-send}

-- The keys that the two ends of a session derive are each other's, and of the sizes that the ciphers
-- want; the tag has four bytes.
pub derive_udp_keys_mirror :
    (c : Crypto) (sk : SessionKeys) (side : Bool)
    → length sk.session_id ≡ 16
    → let mine = derive_udp_keys c sk side in
      let theirs = derive_udp_keys c sk (not side) in
      (mine.send_key ≡ theirs.recv_key)
      × (mine.recv_key ≡ theirs.send_key)
      × (mine.header_key ≡ theirs.header_key)
      × (mine.session_tag ≡ theirs.session_tag)
      × (length mine.send_key ≡ 32)
      × (length mine.recv_key ≡ 32)
      × (length mine.header_key ≡ 16)
      × (length mine.session_tag ≡ 4)
unfolding derive_udp_keys
derive_udp_keys_mirror c sk true h = (
  refl,
  refl,
  refl,
  refl,
  length-read_full _ 0 32,
  length-read_full _ 32 32,
  length-read_full _ 64 16,
  omega (arith, length-take 4 sk.session_id),
)
derive_udp_keys_mirror c sk false h = (
  refl,
  refl,
  refl,
  refl,
  length-read_full _ 32 32,
  length-read_full _ 0 32,
  length-read_full _ 64 16,
  omega (arith, length-take 4 sk.session_id),
)

-- What makes an endpoint of keys.
record Fresh (c : Crypto) (keys : UdpKeys) (ep : Endpoint) : Type 0 where
  enc : Aead
  dec : Aead
  hp : Block
  sends : c.new_aead keys.send_key ≡ some enc
  receives : c.new_aead keys.recv_key ≡ some dec
  masks : c.new_block keys.header_key ≡ some hp
  now : ep ≡ fresh_endpoint enc dec hp keys.session_tag

fresh_parts :
    (c : Crypto) (keys : UdpKeys) (ep : Endpoint) (x y : Option Aead) (z : Option Block)
    → c.new_aead keys.send_key ≡ x
    → c.new_aead keys.recv_key ≡ y
    → c.new_block keys.header_key ≡ z
    → endpoint_with x y z keys.session_tag ≡ some ep
    → Fresh c keys ep
unfolding endpoint_with
fresh_parts c keys ep (some enc) (some dec) (some hp) p q r e = record {
  enc = enc;
  dec = dec;
  hp = hp;
  sends = p;
  receives = q;
  masks = r;
  now = cc;
}
fresh_parts c keys ep (some enc) (some dec) none p q r e = absurd (ground arith)
fresh_parts c keys ep (some enc) none z p q r e = absurd (ground arith)
fresh_parts c keys ep none y z p q r e = absurd (ground arith)

new_endpoint-Fresh :
    (c : Crypto) (keys : UdpKeys) (ep : Endpoint) → new_endpoint c keys ≡ some ep → Fresh c keys ep
unfolding new_endpoint
new_endpoint-Fresh c keys ep e =
    fresh_parts c keys ep (c.new_aead keys.send_key) (c.new_aead keys.recv_key)
      (c.new_block keys.header_key) refl refl refl e

-- The first counter is new to an empty window.
first_counter : (w : ReplayWindow) × (check empty_window 0 ≡ some (true, w))
unfolding check check_fuel is_marked
first_counter = (record { max_seq = 0; bitmap = mark empty_window.bitmap 0 }, refl)

-- Endpoints made of the keys of the two sides agree.
module _ (c : Crypto) (sk : SessionKeys) (a b : Endpoint) (id : length sk.session_id ≡ 16)
    (client : new_endpoint c (derive_udp_keys c sk true) ≡ some a)
    (server : new_endpoint c (derive_udp_keys c sk false) ≡ some b) where
  abbrev fa : Fresh c (derive_udp_keys c sk true) a
  fa = new_endpoint-Fresh c (derive_udp_keys c sk true) a client

  abbrev fb : Fresh c (derive_udp_keys c sk false) b
  fb = new_endpoint-Fresh c (derive_udp_keys c sk false) b server

  tag_a : a.tag ≡ take 4 sk.session_id
  unfolding fresh_endpoint derive_udp_keys
  tag_a = ap (λ e. e.tag) fa.now

  tag_b : b.tag ≡ take 4 sk.session_id
  unfolding fresh_endpoint derive_udp_keys
  tag_b = ap (λ e. e.tag) fb.now

  start-Pairs : Pairs a b
  unfolding fresh_endpoint
  start-Pairs = record {
    four = ap length tag_a ∙ omega (arith, length-take 4 sk.session_id);
    within = subst (λ e. e.send_ctr < 2 ^ 64) (sym fa.now) (omega arith);
    plain = inl (ap (λ e. e.enable_stun) fa.now);
    same = ap (λ e. e.use_bucket_padding) fb.now ∙ sym (ap (λ e. e.use_bucket_padding) fa.now);
  }

  start_keys : keys_for b a.tag ≡ some (a.enc, a.hp)
  unfolding keys_for fresh_endpoint derive_udp_keys
  start_keys =
      let enc : some a.enc ≡ some b.dec =
        ap (λ e. some e.enc) fa.now
        ∙ sym fa.sends
        ∙ fb.receives
        ∙ ap (λ e. some e.dec) (sym fb.now) in
      let hp : some a.hp ≡ some b.hp =
        ap (λ e. some e.hp) fa.now ∙ sym fa.masks ∙ fb.masks ∙ ap (λ e. some e.hp) (sym fb.now) in
      let own : same_bytes a.tag b.tag ≡ true =
        ap (same_bytes a.tag) (tag_b ∙ sym tag_a) ∙ same_bytes_self a.tag in
      rw own (cc (enc, hp))

  start_fits : (payload : List ℕ) → FitsBucket a payload
  unfolding fresh_endpoint
  start_fits payload = inl (ap (λ e. e.use_bucket_padding) fa.now)

  start_window : (w : ReplayWindow) × (check b.replay a.send_ctr ≡ some (true, w))
  unfolding fresh_endpoint
  start_window =
      let (w, e) = first_counter in
      (
        w,
        ap (λ r. check r a.send_ctr) (ap (λ x. x.replay) fb.now)
            ∙ ap (check empty_window) (ap (λ x. x.send_ctr) fa.now)
            ∙ e,
      )

channel_parts :
    (o : Option Endpoint) (ch : UdpChannel)
    → channel_on o ≡ some ch
    → (o ≡ some ch.ep) × (ch.dest_addr ≡ none)
unfolding channel_on or_current
channel_parts none ch e = absurd (ground arith)
channel_parts (some ep) ch e =
    let same = ap (λ q. or_current q ch) e in
    (ap (λ q. some q.ep) same, sym (ap (λ q. q.dest_addr) same))

-- A mux in which a session was registered.
record Registered (m m' : UdpMux) (s : ℕ) (b : Endpoint) : Type 0 where
  made : m' ≡ record m {
    table = table_set m.table b.tag s;
    mru_session = some s;
    session = put_of m.session s (some (fresh_session m.conn b));
  }

register_parts :
    (m m' : UdpMux) (s : ℕ) (o : Option Endpoint)
    → register_with m s o ≡ some m'
    → (b : Endpoint) × (o ≡ some b) × Registered m m' s b
unfolding register_with or_current
register_parts m m' s none e = absurd (ground arith)
register_parts m m' s (some b) e = (b, refl, record { made = sym (ap (λ q. or_current q m') e) })

Registered-IsRouted :
    (m m' : UdpMux) (s : ℕ) (b : Endpoint) (tag : List ℕ)
    → Registered m m' s b
    → same_bytes b.tag tag ≡ true
    → IsRouted m' tag s
Registered-IsRouted m m' s b tag r same = record {
  listed = ap (λ x. table_get x.table tag) r.made ∙ get-set m.table b.tag tag s ∙ rw same;
  alone = λ o mru other.
      let e : some s ≡ some o = sym (ap (λ x. x.mru_session) r.made) ∙ mru in absurd (other (cc e));
}

Registered-session :
    (m m' : UdpMux) (s : ℕ) (b : Endpoint)
    → Registered m m' s b
    → m'.session s ≡ some (fresh_session m.conn b)
unfolding put_of
Registered-session m m' s b r = ap (λ x. x.session s) r.made ∙ rw (eq→== s s refl)

taken_fields :
    (conn sock : ℕ) (b : Endpoint) (w : ReplayWindow) (addr : UdpAddr) (payload : List ℕ)
    → let v = taken (fresh_session conn b) w addr sock payload in
      (v.data_in ≡ payload ∷ []) × (v.client_addr ≡ some addr) × (v.active_conn ≡ some sock)
unfolding push_data fresh_session
taken_fields conn sock b w addr payload = (refl, refl, refl)

-- A client channel and a server session made of the keys that both derive from one handshake, with
-- a session id of 16 bytes, and a pool whose buffers hold at least 2048 bytes: the first payload
-- that the client sends, if it has between 1 and 65507 bytes, in a datagram that reaches any socket
-- of the server, is the one packet in the session's queue, and the session has learnt the client's
-- address and the socket. Nothing is sent back.
pub first_payload_arrives :
    (c : Crypto) (sk : SessionKeys) (ch : UdpChannel) (m m' : UdpMux) (s : ℕ) (d d' : SendDraws)
    (pooled sock : ℕ) (addr : UdpAddr) (b : ℕ) (rest : List ℕ)
    → length sk.session_id ≡ 16
    → new_udp_channel c (derive_udp_keys c sk true) ≡ some ch
    → register_udp c m s (derive_udp_keys c sk false) ≡ some m'
    → 2048 ≤ pooled
    → length rest + 29 < 2 ^ 16
    → (x : List ℕ) × (m'' : UdpMux) × (v : UdpSession) × ((send pooled d ch (b ∷ rest)).0
        ≡ ok (none, x))
      × (handle_datagram d' m' sock addr x ≡ some ([], m''))
      × (m''.session s ≡ some v)
      × (v.data_in ≡ (b ∷ rest) ∷ [])
      × (v.client_addr ≡ some addr)
      × (v.active_conn ≡ some sock)
unfolding new_udp_channel register_udp put_session put_of fresh_session
first_payload_arrives c sk ch m m' s d d' pooled sock addr b rest id client server room short =
    let (made, peer) = channel_parts (new_endpoint c (derive_udp_keys c sk true)) ch client in
    let (ep, of_keys, reg) =
      register_parts m m' s (new_endpoint c (derive_udp_keys c sk false)) server in
    let u : UdpSession = fresh_session m.conn ep in
    let tags : same_bytes ep.tag ch.ep.tag ≡ true =
      ap (same_bytes ep.tag)
        (tag_a c sk ch.ep ep id made of_keys ∙ sym (tag_b c sk ch.ep ep id made of_keys))
      ∙ same_bytes_self ep.tag in
    let (w, new) = start_window c sk ch.ep ep id made of_keys in
    let (x, sent, took) =
      handle_datagram-send d d' ch m' s sock addr u (Registered-session m m' s ep reg)
        (Registered-IsRouted m m' s ep ch.ep.tag reg tags)
        (start_keys c sk ch.ep ep id made of_keys) (start-Pairs c sk ch.ep ep id made of_keys)
        pooled b rest w room short (start_fits c sk ch.ep ep id made of_keys (b ∷ rest)) new in
    let v : UdpSession = taken u w addr sock (b ∷ rest) in
    let (queue, from_addr, by_sock) = taken_fields m.conn sock ep w addr (b ∷ rest) in
    (
      x,
      put_session (record m' { mru_session = some s }) s v,
      v,
      sent ∙ ap (λ q. ok (q, x)) peer,
      took,
      rw (eq→== s s refl),
      queue,
      from_addr,
      by_sock,
    )
