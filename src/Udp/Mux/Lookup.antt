-- ===== src/Udp/Mux/Lookup.antt =====
-- The session that a tag leads to, by the most recently used one or by the table, and its keys.
use obsidian_vpn.Base.{
  ℕ, ◌≡◌, ◌≢◌, refl, sym, ap, ◌∙◌, inl, inr, List, Bool, true, Option, none, some, arith, ◌==◌,
  Bool-cases, ==→eq, Option-cases, ==_false→ne,
}
use obsidian_vpn.Cipher.{Aead}
use obsidian_vpn.Router.{same_bytes}
use obsidian_vpn.Udp.{Block}
use obsidian_vpn.Udp.Datagram.{Endpoint}
use obsidian_vpn.Udp.Channel.{keys_for, prev_keys}
use obsidian_vpn.Udp.Sessions.{table_get}
use obsidian_vpn.Udp.Mux.{
  UdpSession, UdpMux, matches, matches_prev, is_prev_tag, look_up, found_by, find, epoch_keys,
  or_current,
}

-- The table leads from the tag to `s`, and no other session is the most recently used with that tag.
pub record IsRouted (m : UdpMux) (tag : List ℕ) (s : ℕ) : Type 0 where
  pub listed : table_get m.table tag ≡ some s
  pub alone : (o : ℕ) → m.mru_session ≡ some o → o ≢ s → matches (m.session o) tag ≡ none

matches_prev-some :
    (u : UdpSession) (p : Option Aead) (tag : List ℕ) (b : Bool)
    → matches_prev u p tag ≡ some b
    → (same_bytes tag u.ep.prev_tag ≡ true) × (b ≡ true)
unfolding matches_prev
matches_prev-some u none tag b h = absurd (ground arith)
matches_prev-some u (some dec) tag b h = ground arith

matches-is_prev :
    (o : Option UdpSession) (tag : List ℕ) (b : Bool)
    → matches o tag ≡ some b
    → is_prev_tag o tag ≡ b
unfolding matches is_prev_tag
matches-is_prev none tag b h = absurd (ground arith)
matches-is_prev (some u) tag b h = ground (arith, matches_prev-some u u.ep.prev_dec tag b)

looked_up :
    (m : UdpMux) (tag : List ℕ) (s : ℕ)
    → IsRouted m tag s
    → look_up m tag (table_get m.table tag) ≡ (some (s, is_prev_tag (m.session s) tag), some s)
unfolding look_up
looked_up m tag s r = rw (r.listed, look_up)

found_lem :
    (m : UdpMux) (tag : List ℕ) (s o : ℕ)
    → IsRouted m tag s
    → m.mru_session ≡ some o
    → found_by m tag o (matches (m.session o) tag)
      ≡ (some (s, is_prev_tag (m.session s) tag), some s)
unfolding found_by
found_lem m tag s o r mru = elim (Bool-cases (o == s)) [
  | inl own ↦ elim (Option-cases (matches (m.session o) tag)) [
    | inl no_match ↦ rw (no_match, found_by) (looked_up m tag s r)
    | inr (b, e) ↦
        rw (e, found_by)
          (ap (λ x. (some (x, b), some x)) (==→eq o s own)
            ∙ ap (λ c. (some (s, c), some s))
                (sym (
                  matches-is_prev (m.session s) tag b
                    (ap (λ x. matches (m.session x) tag) (sym (==→eq o s own)) ∙ e))))
  ]
  | inr other ↦ rw (r.alone o mru (==_false→ne o s other), found_by) (looked_up m tag s r)
]

found_at :
    (m : UdpMux) (tag : List ℕ) (s : ℕ)
    → IsRouted m tag s
    → (mru : Option ℕ) → m.mru_session ≡ mru
    → find m tag mru ≡ (some (s, is_prev_tag (m.session s) tag), some s)
unfolding find
found_at m tag s r none e = looked_up m tag s r
found_at m tag s r (some o) e = found_lem m tag s o r e

pub find_lem :
    (m : UdpMux) (tag : List ℕ) (s : ℕ)
    → IsRouted m tag s
    → find m tag m.mru_session ≡ (some (s, is_prev_tag (m.session s) tag), some s)
unfolding find
find_lem m tag s r = found_at m tag s r m.mru_session refl

prev_keys-some :
    (ep : Endpoint) (p : Option Aead) (q : Option Block) (tag : List ℕ) (keys : Aead × Block)
    → prev_keys ep p q tag ≡ some keys
    → (same_bytes tag ep.prev_tag ≡ true) × ((or_current p ep.dec, or_current q ep.hp) ≡ keys)
unfolding prev_keys or_current
prev_keys-some ep none q tag keys h = absurd (ground arith)
prev_keys-some ep (some dec) none tag keys h = elim (Bool-cases (same_bytes tag ep.prev_tag)) [
  | inl same ↦ (same, cc (rw same at h))
  | inr apart ↦ cc (rw apart at h)
]
prev_keys-some ep (some dec) (some hp) tag keys h = elim (Bool-cases (same_bytes tag ep.prev_tag)) [
  | inl same ↦ (same, cc (rw same at h))
  | inr apart ↦ cc (rw apart at h)
]

-- The keys that the server chooses are those that a channel would choose.
pub epoch_keys-keys_for :
    (u : UdpSession) (tag : List ℕ) (keys : Aead × Block)
    → keys_for u.ep tag ≡ some keys
    → epoch_keys u.ep (is_prev_tag (some u) tag) ≡ keys
unfolding keys_for is_prev_tag epoch_keys
epoch_keys-keys_for u tag keys h = elim (Bool-cases (same_bytes tag u.ep.tag)) [
  | inl now ↦ rw now (cc (rw now at h))
  | inr past ↦
      let chosen = rw past at h in
      let (same, e) = prev_keys-some u.ep u.ep.prev_dec u.ep.prev_hp tag keys chosen in
      rw (past, same) e
]
