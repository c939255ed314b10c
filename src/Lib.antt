-- ===== src/Lib.antt =====
-- Obsidian VPN: the core of the transport, modelled from the Go sources.
--
-- A sender frames packets for a TCP stream and a receiver reads them back. A packet carries a
-- four-byte type-id drawn from the range of its type (Header), is padded (Padding), sealed by an
-- AEAD whose nonce comes from a running counter (Cipher), given a header masked by a sample of the
-- ciphertext (Packet), and prefixed with a masked length (Framer). The tunnel writes such frames
-- and its receive loop parses and dispatches them (Tunnel). The other transport is UDP: a channel
-- of the client and a session of the server exchange datagrams with a tag, a masked counter and a
-- ciphertext behind a STUN header; the server finds the session by the tag in a sharded table, and
-- keys change by ratchets (Udp). Each datagram is checked by an anti-replay window (Replay). The
-- keys of both come from the handshake's secret, which is guarded by cookies (Keys). Packets that
-- leave or enter the tunnel on the server have the MSS of a SYN rewritten, and are cut to the
-- tunnel's size (Mss). Handshakes are admitted by a token bucket for each address (Limiter), and
-- clients whose keys are revoked are refused (Revocation). Behind the REALITY camouflage a client
-- is known by its TLS session id, which works once (Reality). The server's router sends a packet
-- from the TUN device to the session whose client uses its destination, and cuts it to that
-- client's size (Router over Mss). A client answers IPv6 packets that the tunnel does not carry
-- itself (Reject). What the router queues for a session its write loop sends, latency-sensitive
-- packets first (Queue). On a desktop the client plans which routes go into the tunnel and which
-- to the old gateway, installs what is missing and deletes at the end what it installed (Routes).
--
-- Files and sources:
--   Base            numbers, lists, bits and byte slices shared by all modules
--   Replay          obsidian/udp.go, replayWindow
--   Padding         obsidian/obfuscation.go, CalculateBucketPaddingWithTrailer
--   Header          obsidian/protocol.go, HeaderRange and HeaderConfig
--   Cipher          obsidian/crypto.go, Cipher, FastRandomBytes and FastRandomPaddingInplace
--   Packet          obsidian/protocol.go, packet encoding and decoding
--   Framer          obsidian/protocol.go, StreamFramer
--   Mss             cmd/server/mss.go, TCP and IPv4 packets on their way through the server
--   Limiter         obsidian/ip_rate_limiter.go, IPRateLimiter
--   Reject          obsidian/ipv6_reject.go, BuildIPv6Reject
--   Reality         obsidian/reality.go, session ids and RealityReplayCache
--   Revocation      cmd/server/revocation.go
--   Router          cmd/server/tun_router.go, the sessions and addresses of tunRouter
--   Queue           cmd/server/tun_router.go, the queues and the write loop of routedSession
--   Keys            obsidian/crypto.go, key pairs, session keys, hopping ports and handshake cookies
--   Udp             obsidian/udp.go: Udp/Datagram one datagram, Udp/Channel UDPChannel, Udp/Sessions
--                   SessionTable, Udp/Mux UDPMux and UDPSession
--   Profiles        obsidian/profiles.go, with the settings of obsidian/handshake.go and
--                   obsidian/obfuscation.go that profiles change
--   Routes          obsidian/tun/plan.go and, in Routes/Manager, obsidian/tun/routemgr.go
--   Tunnel          obsidian/obfuscation.go, sessionExpired, writePacket and recvLoop
--
-- Conventions. A fixed-width integer is a number with its wrap written out. A byte slice is a list
-- of numbers; a function that writes to a buffer takes the buffer's size and returns the bytes
-- written. A Go error is a value; an operation that moves a counter returns the new state beside
-- its result. Random draws, clock readings and what the connection returns are arguments.
--
-- Parameters. ChaCha20-Poly1305 is `Cipher.Aead` (opening undoes sealing, sealing adds 16 bytes);
-- ChaCha20 is the function `Packet.Keystream`; SHA-256 is `Framer.Sha256` (32 bytes); math/rand/v2
-- is `Cipher.Rand` (draws lie below their bound). X25519, HKDF and HMAC-SHA256 are
-- `Keys.Primitives` (HMAC gives 32 bytes), and the ciphers that the UDP transport makes of keys
-- `Udp.Crypto`, AES as the function `Udp.Block`. net/netip's reading of texts is `Routes.Netip`,
-- and encoding/json's of the revocation file a function `Revocation.Unmarshal`. Cipher/Concrete
-- and Framer/Concrete have values of these to run the models with.
--
-- Fuel. The clearing loop of the replay window runs on 4096 rounds: at most 4095 slots are cleared
-- and one test ends it, except at the greatest uint64, where it does not end. The receive loop
-- runs on one round more than there are packets. The option walk of a TCP header runs on one round
-- more than the header has bytes, the walk over IPv6 extension headers on as many as the packet
-- has bytes, and the loops over a payload on as many rounds as it has bytes. A fold of a 32-bit
-- sum ends after two rounds. These are theorems.
--
-- UDP: what a socket reads is a list of datagrams, sessions and sockets are numbers, and one
-- datagram is one step of the server's loop; the two critical sections of a ratchet are two
-- functions. `cap` and `room` of the sending functions are the capacity and the length of their
-- buffers. The draws of one call are `SendDraws`. Pooled plaintext buffers hold 2048 bytes.
--
-- Where a select has several ready cases, an argument says which one runs. A round of the write
-- loop is one step: packets that arrive while it sends are taken by the next.
--
-- Not modelled: buffer pools (memory reuse), logging, goroutine scheduling, sockets, ML-KEM, and
-- the parts of the repository that are not named above.
pub mod Base
pub mod Cipher
pub mod Framer
pub mod Header
pub mod Keys
pub mod Limiter
pub mod Mss
pub mod Packet
pub mod Padding
pub mod Profiles
pub mod Queue
pub mod Reality
pub mod Reject
pub mod Replay
pub mod Revocation
pub mod Router
pub mod Routes
pub mod Tunnel
pub mod Udp
