-- ===== src/Udp/Mux.antt =====
-- obsidian/udp.go, UDPMux and UDPSession: the server's sockets, the sessions behind them, and the
-- loop that gives datagrams to sessions. Sessions are pointers, here numbers; sockets are numbers.
pub mod Lookup
pub mod Closing
pub mod Epochs
pub mod Batches
pub mod Start
pub mod Delivery
use obsidian_vpn.Base.{
  ℕ, zero, suc, ◌+◌, ◌-◌, List, [], ◌∷◌, ◌++◌, Bool, true, false, Option, none, some, ◌&&◌, not,
  ltb, if◌then◌else◌, length, take, drop,
}
use obsidian_vpn.Cipher.{Aead}
use obsidian_vpn.Router.{same_bytes, put_of}
use obsidian_vpn.Udp.{Block, Crypto, UdpKeys, udp_tag_size, udp_overhead}
use obsidian_vpn.Udp.Datagram.{
  Endpoint, SendDraws, plain_payload, datagram, take_counter, header_offset, open_body, admit,
  ratchet_epoch, new_endpoint,
}
use obsidian_vpn.Udp.Channel.{UdpAddr}
use obsidian_vpn.Udp.Sessions.{SessionTable, new_session_table, table_get, table_set, table_delete}

abbrev pub udp_session_queue_size : ℕ
udp_session_queue_size = 8192

-- `data_in` is the channel's buffer, `done` the closed channel, `once` that `closeOnce` has run.
pub record UdpSession : Type 0 where
  pub ep : Endpoint
  pub client_addr : Option UdpAddr
  pub active_conn : Option ℕ
  pub data_in : List (List ℕ)
  pub done : Bool
  pub once : Bool

pub record UdpMux : Type 0 where
  pub conn : ℕ
  pub listeners : List ℕ
  pub table : SessionTable
  pub mru_session : Option ℕ
  pub session : ℕ → Option UdpSession

unfoldable pub new_udp_mux : ℕ → UdpMux
unfolding new_session_table
new_udp_mux conn = record {
  conn = conn;
  listeners = conn ∷ [];
  table = new_session_table;
  mru_session = none;
  session = λ s. none;
}

-- `none` is the nil socket.
unfoldable pub add_listener : UdpMux → Option ℕ → UdpMux
add_listener m none = m
add_listener m (some conn) = record m { listeners = m.listeners ++ conn ∷ [] }

unfoldable pub fresh_session : ℕ → Endpoint → UdpSession
fresh_session conn ep = record {
  ep = ep;
  client_addr = none;
  active_conn = some conn;
  data_in = [];
  done = false;
  once = false;
}

unfoldable pub register_with : UdpMux → ℕ → Option Endpoint → Option UdpMux
register_with m s none = none
register_with m s (some ep) = some (record m {
  table = table_set m.table ep.tag s;
  mru_session = some s;
  session = put_of m.session s (some (fresh_session m.conn ep));
})

-- `RegisterSession`; `s` is the pointer to the new session.
unfoldable pub register_udp : Crypto → UdpMux → ℕ → UdpKeys → Option UdpMux
register_udp c m s keys = register_with m s (new_endpoint c keys)

unfoldable pub tag_of : Option UdpSession → List ℕ → Bool
tag_of none tag = false
tag_of (some u) tag = same_bytes tag u.ep.tag

-- The most recently used session is forgotten if it has the tag.
unfoldable pub forget : UdpMux → Option ℕ → List ℕ → Option ℕ
forget m none tag = none
forget m (some s) tag = if tag_of (m.session s) tag then none else some s

unfoldable pub unregister_session : UdpMux → List ℕ → UdpMux
unregister_session m tag = record m {
  table = table_delete m.table tag;
  mru_session = forget m m.mru_session tag;
}

unfoldable pub put_session : UdpMux → ℕ → UdpSession → UdpMux
put_session m s u = record m { session = put_of m.session s (some u) }

unfoldable pub ratchet_to : UdpMux → ℕ → UdpSession → Option Endpoint → Option UdpMux
ratchet_to m s u none = none
ratchet_to m s u (some ep) =
    let m' : UdpMux = put_session m s (record u { ep = ep }) in
    some (record m' { table = table_set m.table ep.tag s })

-- `RatchetEpoch` of the session `u` at `s`.
unfoldable pub ratchet_session : Crypto → UdpMux → ℕ → UdpSession → UdpKeys → Option UdpMux
ratchet_session c m s u keys = ratchet_to m s u (ratchet_epoch c u.ep keys)

unfoldable pub matches_prev : UdpSession → Option Aead → List ℕ → Option Bool
matches_prev u none tag = none
matches_prev u (some dec) tag = if same_bytes tag u.ep.prev_tag then some true else none

-- The fast path: `some` if the session has the tag, with whether that is its previous one.
unfoldable pub matches : Option UdpSession → List ℕ → Option Bool
matches none tag = none
matches (some u) tag =
    if same_bytes tag u.ep.tag then some false else matches_prev u u.ep.prev_dec tag

unfoldable pub is_prev_tag : Option UdpSession → List ℕ → Bool
is_prev_tag none tag = false
is_prev_tag (some u) tag = not (same_bytes tag u.ep.tag) && same_bytes tag u.ep.prev_tag

-- The session found, whether by its previous tag, and the most recently used one after that.
unfoldable pub look_up : UdpMux → List ℕ → Option ℕ → Option (ℕ × Bool) × Option ℕ
look_up m tag none = (none, m.mru_session)
look_up m tag (some s) = (some (s, is_prev_tag (m.session s) tag), some s)

unfoldable pub found_by : UdpMux → List ℕ → ℕ → Option Bool → Option (ℕ × Bool) × Option ℕ
found_by m tag s none = look_up m tag (table_get m.table tag)
found_by m tag s (some prev) = (some (s, prev), some s)

unfoldable pub find : UdpMux → List ℕ → Option ℕ → Option (ℕ × Bool) × Option ℕ
find m tag none = look_up m tag (table_get m.table tag)
find m tag (some s) = found_by m tag s (matches (m.session s) tag)

unfoldable pub or_current {ℓ} : {A : Type ℓ} → Option A → A → A
or_current none a = a
or_current (some a) b = a

unfoldable pub epoch_keys : Endpoint → Bool → Aead × Block
epoch_keys ep false = (ep.dec, ep.hp)
epoch_keys ep true = (or_current ep.prev_dec ep.dec, or_current ep.prev_hp ep.hp)

-- `Send` of the session `u`, with a buffer that its size is asked for: what is written, to whom and
-- from which socket.
pub data SendError : Type 0 where
  closed_pipe client_addr_unknown : SendError

pub data Sent : Type 0 where
  failed : SendError → Sent
  written : ℕ → UdpAddr → List ℕ → Sent

unfoldable pub send_to : SendDraws → ℕ → UdpSession → Option UdpAddr → List ℕ → Sent × UdpSession
send_to d conn u none payload = (failed client_addr_unknown, u)
send_to d conn u (some addr) payload = (
  written (or_current u.active_conn conn) addr
      (datagram d 0x0101 u.ep (plain_payload d.rand u.ep payload)),
  record u { ep = take_counter u.ep },
)

unfoldable pub session_send : SendDraws → ℕ → UdpSession → List ℕ → Sent × UdpSession
session_send d conn u payload =
    let sent = send_to d conn u u.client_addr payload in
    if u.done then (failed closed_pipe, u) else sent

-- The `select` at the end of the loop: a full queue drops the payload.
unfoldable pub push_data : UdpSession → List ℕ → UdpSession
push_data u payload =
    if ltb (length u.data_in) udp_session_queue_size
    then record u { data_in = u.data_in ++ payload ∷ [] }
    else u

unfoldable pub hand_over : SendDraws → ℕ → UdpSession → List ℕ → List Sent × UdpSession
hand_over d conn u [] = let (sent, u') = session_send d conn u [] in (sent ∷ [], u')
hand_over d conn u (b ∷ payload) = ([], push_data u (b ∷ payload))

-- The session after a datagram from `addr` by the socket `sock`: its address and socket are those of
-- the last datagram that was authentic and new.
unfoldable pub accept :
    SendDraws
    → ℕ
    → ℕ
    → UdpAddr
    → UdpSession
    → Option (Option (List ℕ) × Endpoint)
    → Option (List Sent × UdpSession)
accept d conn sock addr u none = none
accept d conn sock addr u (some (none, ep)) = some ([], record u { ep = ep })
accept d conn sock addr u (some (some payload, ep)) = some (
    hand_over d conn (record u { ep = ep; client_addr = some addr; active_conn = some sock })
      payload)

unfoldable pub store_session :
    UdpMux → ℕ → Option (List Sent × UdpSession) → Option (List Sent × UdpMux)
store_session m s none = none
store_session m s (some (sent, u)) = some (sent, put_session m s u)

unfoldable pub handle :
    SendDraws
    → UdpMux
    → ℕ
    → UdpAddr
    → List ℕ
    → ℕ
    → Bool
    → Option UdpSession
    → Option (List Sent × UdpMux)
handle d m sock addr packet s prev none = some ([], m)
handle d m sock addr packet s prev (some u) =
    store_session m s
      (accept d m.conn sock addr u (admit u.ep (open_body (epoch_keys u.ep prev) packet)))

unfoldable pub route_datagram :
    SendDraws
    → UdpMux
    → ℕ
    → UdpAddr
    → List ℕ
    → Option (ℕ × Bool) × Option ℕ
    → Option (List Sent × UdpMux)
route_datagram d m sock addr packet (none, mru) = some ([], m)
route_datagram d m sock addr packet (some (s, prev), mru) =
    handle d (record m { mru_session = mru }) sock addr packet s prev (m.session s)

-- One round of `runOnConn` on the socket `sock`: what is sent back, and the state after; `none` if
-- the replay check does not end.
unfoldable pub handle_datagram :
    SendDraws → UdpMux → ℕ → UdpAddr → List ℕ → Option (List Sent × UdpMux)
handle_datagram d m sock addr datagram =
    let packet = drop (header_offset datagram) datagram in
    let tag = take udp_tag_size packet in
    if ltb (length datagram - header_offset datagram) udp_overhead
    then some ([], m)
    else route_datagram d m sock addr packet (find m tag m.mru_session)

unfoldable pub zero_tag : List ℕ → Bool
zero_tag tag = same_bytes tag (0 ∷ 0 ∷ 0 ∷ 0 ∷ [])

-- The flag says that there is no previous tag.
unfoldable pub unregister_prev : UdpMux → Bool → List ℕ → UdpMux
unregister_prev m true tag = m
unregister_prev m false tag = unregister_session m tag

-- The flag is that of `closeOnce`.
unfoldable pub close_once : Bool → UdpMux → ℕ → UdpSession → UdpMux
close_once true m s u = m
close_once false m s u =
    put_session
      (unregister_prev (unregister_session m u.ep.tag) (zero_tag u.ep.prev_tag) u.ep.prev_tag) s
      (record u { done = true; once = true })

-- `Close` of the session `u` at `s`.
unfoldable pub close_session : UdpMux → ℕ → UdpSession → UdpMux
close_session m s u = close_once u.once m s u

-- `Recv`. Where data waits and the session is closed, either case of the `select` may run; `none` is
-- io.EOF, and a session that is open with nothing queued blocks.
pub data SessionRead : Type 0 where
  got : List ℕ → SessionRead
  eof : SessionRead
  blocks : SessionRead

unfoldable pub recv_from : UdpSession → Bool → List (List ℕ) → SessionRead × UdpSession
recv_from u saw_done [] = (if u.done then eof else blocks, u)
recv_from u saw_done (p ∷ ps) =
    if u.done && saw_done then (eof, u) else (got p, record u { data_in = ps })

unfoldable pub session_recv : UdpSession → Bool → SessionRead × UdpSession
session_recv u saw_done = recv_from u saw_done u.data_in

-- The loop of `RecvBatch` with room for `room` packets more; `saw_done` is asked by the room left.
unfoldable pub drain_queued :
    UdpSession → (ℕ → Bool) → ℕ → List (List ℕ) → List (List ℕ) × UdpSession
drain_queued u saw_done zero queue = ([], u)
drain_queued u saw_done (suc room) [] = ([], u)
drain_queued u saw_done (suc room) (p ∷ ps) =
    let (taken, rest) = drain_queued (record u { data_in = ps }) saw_done room ps in
    if u.done && saw_done room then ([], u) else (p ∷ taken, rest)

pub data Batch : Type 0 where
  batch : List (List ℕ) → Batch
  eof : Batch
  blocks : Batch

unfoldable pub first_of : SessionRead × UdpSession → (ℕ → Bool) → ℕ → Batch × UdpSession
first_of (got p, u) saw_done room =
    let (taken, u') = drain_queued u saw_done room u.data_in in (batch (p ∷ taken), u')
first_of (eof, u) saw_done room = (eof, u)
first_of (blocks, u) saw_done room = (blocks, u)

unfoldable pub recv_batch : UdpSession → (ℕ → Bool) → ℕ → Batch × UdpSession
recv_batch u saw_done zero = (batch [], u)
recv_batch u saw_done (suc room) = first_of (session_recv u (saw_done (suc room))) saw_done room
