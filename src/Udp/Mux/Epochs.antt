-- ===== src/Udp/Mux/Epochs.antt =====
-- The tags that the table holds for a session over its epochs, and what `Close` leaves of them.
use obsidian_vpn.Base.{
  ℕ, ◌≡◌, refl, sym, ap, subst, ◌∙◌, List, false, Option, none, some, if◌then◌else◌, arith, eq→==,
}
use obsidian_vpn.Router.{same_bytes, put_of}
use obsidian_vpn.Router.Keys.{same_bytes_self}
use obsidian_vpn.Cipher.{Aead}
use obsidian_vpn.Udp.{Block, Crypto, UdpKeys}
use obsidian_vpn.Udp.Datagram.{
  Endpoint, fresh_endpoint, endpoint_with, new_endpoint, ratchet_epoch, ratchet_send, ratchet_recv,
}
use obsidian_vpn.Udp.Channel.Ratchet.{ratchet_epoch-Ratcheted}
use obsidian_vpn.Udp.Sessions.{table_get, table_set, get-set}
use obsidian_vpn.Udp.Mux.{
  UdpSession, UdpMux, fresh_session, register_with, register_udp, put_session, or_current,
  ratchet_to, ratchet_session, close_session,
}
use obsidian_vpn.Udp.Mux.Closing.{old_tag_kept}

-- The state after a session was registered or ratcheted under a tag.
record Under (m m' : UdpMux) (s : ℕ) (tag : List ℕ) (u' : UdpSession) : Type 0 where
  table :
      (t : List ℕ)
      → table_get m'.table t ≡ (if same_bytes tag t then some s else table_get m.table t)
  current : u'.ep.tag ≡ tag
  open_still : u'.once ≡ false

endpoint_tag :
    (x y : Option Aead) (z : Option Block) (tag : List ℕ) (ep : Endpoint)
    → endpoint_with x y z tag ≡ some ep
    → ep.tag ≡ tag
unfolding endpoint_with fresh_endpoint or_current
endpoint_tag (some enc) (some dec) (some hp) tag ep e = sym (ap (λ o. (or_current o ep).tag) e)
endpoint_tag (some enc) (some dec) none tag ep e = absurd (ground arith)
endpoint_tag (some enc) none z tag ep e = absurd (ground arith)
endpoint_tag none y z tag ep e = absurd (ground arith)

-- A session that is stored at `s` beside the table with the new tag.
stored :
    (m m' : UdpMux) (s : ℕ) (u u' : UdpSession)
    → m'.table ≡ table_set m.table u.ep.tag s
    → m'.session s ≡ some u
    → u.once ≡ false
    → m'.session s ≡ some u'
    → Under m m' s u.ep.tag u'
unfolding or_current
stored m m' s u u' table here fresh at_s =
    let same : u ≡ u' = ap (λ o. or_current o u) (sym here ∙ at_s) in
    record {
      table = λ t. ap (λ st. table_get st t) table ∙ get-set m.table u.ep.tag t s;
      current = ap (λ v. v.ep.tag) (sym same);
      open_still = ap (λ v. v.once) (sym same) ∙ fresh;
    }

registered :
    (m m' : UdpMux) (s : ℕ) (o : Option Endpoint) (tag : List ℕ) (u' : UdpSession)
    → ((ep : Endpoint) → o ≡ some ep → ep.tag ≡ tag)
    → register_with m s o ≡ some m'
    → m'.session s ≡ some u'
    → Under m m' s tag u'
unfolding register_with put_of or_current fresh_session
registered m m' s none tag u' has e at_s = absurd (ground arith)
registered m m' s (some ep) tag u' has e at_s =
    let same = ap (λ o. or_current o m') (sym e) in
    subst (λ t. Under m m' s t u') (has ep refl)
      (stored m m' s (fresh_session m.conn ep) u' (ap (λ x. x.table) same)
        (ap (λ x. x.session s) same ∙ rw (eq→== s s refl)) refl at_s)

ratcheted :
    (m m' : UdpMux) (s : ℕ) (u u' : UdpSession) (o : Option Endpoint) (tag : List ℕ)
    → ((ep : Endpoint) → o ≡ some ep → ep.tag ≡ tag)
    → u.once ≡ false
    → ratchet_to m s u o ≡ some m'
    → m'.session s ≡ some u'
    → Under m m' s tag u'
unfolding ratchet_to put_session put_of or_current
ratcheted m m' s u u' none tag has first e at_s = absurd (ground arith)
ratcheted m m' s u u' (some ep) tag has first e at_s =
    let same = ap (λ o. or_current o m') (sym e) in
    subst (λ t. Under m m' s t u') (has ep refl)
      (stored m m' s (record u { ep = ep }) u' (ap (λ x. x.table) same)
        (ap (λ x. x.session s) same ∙ rw (eq→== s s refl)) first at_s)

prev_of_ratchet :
    (m m' : UdpMux) (s : ℕ) (u u' : UdpSession) (o : Option Endpoint)
    → ((ep : Endpoint) → o ≡ some ep → ep.prev_tag ≡ u.ep.tag)
    → ratchet_to m s u o ≡ some m'
    → m'.session s ≡ some u'
    → u'.ep.prev_tag ≡ u.ep.tag
unfolding ratchet_to put_session put_of or_current
prev_of_ratchet m m' s u u' none has e at_s = absurd (ground arith)
prev_of_ratchet m m' s u u' (some ep) has e at_s =
    let same = ap (λ o. or_current o m') (sym e) in
    let here : m'.session s ≡ some (record u { ep = ep }) =
      ap (λ x. x.session s) same ∙ rw (eq→== s s refl) in
    ap (λ o. (or_current o u').ep.prev_tag) (sym at_s ∙ here) ∙ has ep refl

ratcheted_tag :
    (c : Crypto) (keys : UdpKeys) (ep ep' : Endpoint)
    → ratchet_epoch c ep keys ≡ some ep'
    → ep'.tag ≡ keys.session_tag
unfolding ratchet_send ratchet_recv
ratcheted_tag c keys ep ep' e =
    let r = ratchet_epoch-Ratcheted c keys ep ep' e in ap (λ x. x.tag) r.now

ratcheted_prev :
    (c : Crypto) (keys : UdpKeys) (ep ep' : Endpoint)
    → ratchet_epoch c ep keys ≡ some ep'
    → ep'.prev_tag ≡ ep.tag
unfolding ratchet_send ratchet_recv
ratcheted_prev c keys ep ep' e =
    let r = ratchet_epoch-Ratcheted c keys ep ep' e in ap (λ x. x.prev_tag) r.now

module _ (c : Crypto) (s : ℕ) (m0 m1 m2 m3 : UdpMux) (k0 k1 k2 : UdpKeys) (u1 u2 u3 : UdpSession)
    (register : register_udp c m0 s k0 ≡ some m1) (at1 : m1.session s ≡ some u1)
    (first : ratchet_session c m1 s u1 k1 ≡ some m2) (at2 : m2.session s ≡ some u2)
    (second : ratchet_session c m2 s u2 k2 ≡ some m3) (at3 : m3.session s ≡ some u3) where
  under1 : Under m0 m1 s k0.session_tag u1
  unfolding register_udp new_endpoint
  under1 =
      registered m0 m1 s (new_endpoint c k0) k0.session_tag u1
        (endpoint_tag (c.new_aead k0.send_key) (c.new_aead k0.recv_key) (c.new_block k0.header_key)
          k0.session_tag)
        register at1

  under2 : Under m1 m2 s k1.session_tag u2
  unfolding ratchet_session
  under2 =
      ratcheted m1 m2 s u1 u2 (ratchet_epoch c u1.ep k1) k1.session_tag (ratcheted_tag c k1 u1.ep)
        under1.open_still first at2

  under3 : Under m2 m3 s k2.session_tag u3
  unfolding ratchet_session
  under3 =
      ratcheted m2 m3 s u2 u3 (ratchet_epoch c u2.ep k2) k2.session_tag (ratcheted_tag c k2 u2.ep)
        under2.open_still second at3

  before : u3.ep.prev_tag ≡ k1.session_tag
  unfolding ratchet_session
  before =
      prev_of_ratchet m2 m3 s u2 u3 (ratchet_epoch c u2.ep k2) (ratcheted_prev c k2 u2.ep) second
        at3
      ∙ under2.current

  -- A session that is registered and then ratchets twice, under three different tags, and is closed,
  -- is still what the table leads to from its first tag: `Close` takes out its last two.
  pub first_tag_leaks :
      same_bytes k1.session_tag k0.session_tag ≡ false
      → same_bytes k2.session_tag k0.session_tag ≡ false
      → table_get (close_session m3 s u3).table k0.session_tag ≡ some s
  first_tag_leaks p q =
      old_tag_kept m3 s u3 k0.session_tag under3.open_still
        (ap (λ t. same_bytes t k0.session_tag) under3.current ∙ q)
        (ap (λ t. same_bytes t k0.session_tag) before ∙ p)
      ∙ under3.table k0.session_tag
      ∙ rw q (
          under2.table k0.session_tag
          ∙ rw p (under1.table k0.session_tag ∙ rw (same_bytes_self k0.session_tag)))
