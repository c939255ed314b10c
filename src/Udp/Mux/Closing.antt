-- ===== src/Udp/Mux/Closing.antt =====
-- What is left of a session after `Close`.
use obsidian_vpn.Base.{
  ℕ, ◌≡◌, ◌≢◌, refl, sym, ap, ◌∙◌, ◌⊎◌, List, Bool, true, false, Option, none, some, if◌then◌else◌,
  arith, eq→==, not, ◌&&◌,
}
use obsidian_vpn.Router.{same_bytes, put_of}
use obsidian_vpn.Udp.Datagram.{SendDraws}
use obsidian_vpn.Udp.Sessions.{table_get, get-delete}
use obsidian_vpn.Udp.Mux.{
  UdpSession, UdpMux, unregister_session, unregister_prev, close_once, session_send, closed_pipe,
  failed, put_session, zero_tag, close_session,
}

table_after_prev :
    (m : UdpMux) (zero : Bool) (prev t : List ℕ)
    → table_get (unregister_prev m zero prev).table t
      ≡ (if not zero && same_bytes prev t then none else table_get m.table t)
unfolding unregister_prev unregister_session
table_after_prev m true prev t = refl
table_after_prev m false prev t = get-delete m.table prev t

-- What the table holds after `Close`: nothing under the two tags of the session, the rest as before.
close_table :
    (m : UdpMux) (s : ℕ) (u : UdpSession) (t : List ℕ)
    → u.once ≡ false
    → table_get (close_session m s u).table t ≡ (
        if not (zero_tag u.ep.prev_tag) && same_bytes u.ep.prev_tag t
        then none
        else if same_bytes u.ep.tag t
        then none
        else table_get m.table t)
unfolding close_session close_once unregister_session put_session
close_table m s u t first =
    ap (λ b. table_get (close_once b m s u).table t) first
    ∙ table_after_prev (unregister_session m u.ep.tag) (zero_tag u.ep.prev_tag) u.ep.prev_tag t
    ∙ ap (λ o. if not (zero_tag u.ep.prev_tag) && same_bytes u.ep.prev_tag t then none else o)
        (get-delete m.table u.ep.tag t)

-- What becomes of the session itself.
closed_state :
    (m : UdpMux) (s : ℕ) (u : UdpSession)
    → u.once ≡ false
    → (close_session m s u).session s ≡ some (record u { done = true; once = true })
unfolding close_session close_once put_session put_of
closed_state m s u first = ap (λ b. (close_once b m s u).session s) first ∙ rw (eq→== s s refl)

none_else :
    (p q : Bool) (o : Option ℕ) (s : ℕ)
    → (if p then none else if q then none else o) ≡ some s
    → (p ≡ false) × (q ≡ false) × (o ≡ some s)
none_else p q o s h = ground arith

abbrev pub ended : UdpSession → UdpSession
ended u = record u { done = true; once = true }

-- For a session that is open and to which the table leads by its present tag and, if it has one,
-- its previous tag only: after `Close` no tag leads to it, these two tags are out of the table and
-- what any other tag leads to has not changed. Its Send fails from then on with io.ErrClosedPipe
-- and takes no counter.
pub close_session-Ends :
    (d : SendDraws) (m : UdpMux) (s : ℕ) (u : UdpSession) (payload t : List ℕ)
    → u.once ≡ false
    → ((o : List ℕ)
        → table_get m.table o ≡ some s
        → (same_bytes u.ep.tag o ≡ true)
          ⊎ ((zero_tag u.ep.prev_tag ≡ false) × (same_bytes u.ep.prev_tag o ≡ true)))
    → (table_get (close_session m s u).table t ≢ some s)
      × (table_get (close_session m s u).table t ≡ (
          if not (zero_tag u.ep.prev_tag) && same_bytes u.ep.prev_tag t
          then none
          else if same_bytes u.ep.tag t
          then none
          else table_get m.table t))
      × ((close_session m s u).session s ≡ some (ended u))
      × (session_send d m.conn (ended u) payload ≡ (failed closed_pipe, ended u))
unfolding session_send
close_session-Ends d m s u payload t first only = (
  λ e.
      let (p, q, old) =
        none_else (not (zero_tag u.ep.prev_tag) && same_bytes u.ep.prev_tag t)
          (same_bytes u.ep.tag t) (table_get m.table t) s (sym (close_table m s u t first) ∙ e) in
      ground (arith, only t old),
  close_table m s u t first,
  closed_state m s u first,
  refl,
)

-- A tag that a session had two ratchets before or earlier is not one of the two that `Close` takes out: the table goes on
-- to lead from it to the closed session.
pub old_tag_kept :
    (m : UdpMux) (s : ℕ) (u : UdpSession) (t : List ℕ)
    → u.once ≡ false
    → same_bytes u.ep.tag t ≡ false
    → same_bytes u.ep.prev_tag t ≡ false
    → table_get (close_session m s u).table t ≡ table_get m.table t
old_tag_kept m s u t first now before = close_table m s u t first ∙ ground arith
