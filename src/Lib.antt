-- ===== src/Lib.antt =====
-- go-openlawsvpn: an OpenVPN 3 client. This library models the wire formats, the reliable control
-- channel, the data channel and its key epochs, the profile, the options and challenges that the server
-- sends, the states of a client, the netlink messages, the ownership of routes and of the DNS settings, and
-- the frames of the relay, and proves what they promise one another.
--
-- The parts, from the wire upwards:
--
-- - Framing: internal/framing. The first byte of a packet, control packets (ParseControl), and the
--   length-prefixed stream of the TCP transport (ReadTCP, WriteTCP). A reader is the list of bytes still
--   to come; a writer is the bytes written.
-- - Client.Packets: the builders and readers of control packets at the end of client.go
--   (buildControlV1WithKeyID and its kin, parseControlV1Payload, parseControlV1AckIDs).
-- - Reliable: internal/reliable/reliable.go. SendQueue with its retransmission, and RecvWindow. The
--   control channel sends a packet through the first, and delivers received ones through the second.
-- - Compress: internal/compress/compress.go. The pushed mode and the stub byte of each payload.
-- - Crypto: internal/crypto. The interface DataCipher with the law of a matching pair (Matches), and its
--   two implementations over AES-GCM (Gcm) and AES-CBC with HMAC (Cbc, Padding), which fill that law.
-- - DataChannel: internal/datachannel/datachannel.go. One key epoch: Encrypt, Decrypt, the send sequence
--   and the replay window (checkReplay, markSeen). It uses the ciphers through DataCipher only.
-- - Manager: internal/datachannel/manager.go. The current, the prepared and the previous key epoch, the
--   choice among them by key ID, and when to renegotiate. It passes payloads through Compress and
--   DataChannel.
-- - Mssfix: internal/mssfix/mssfix.go. Clamp on the packets of the TUN device: the option walk, the
--   checksums, and the same for IPv6. The loop over the options has one round of fuel per byte, and
--   folding a 32-bit sum takes two rounds.
-- - ControlTransport: internal/ctls/ctls.go. The byte stream under TLS, over the chunks that the control
--   channel delivers (InjectInbound) and takes (DrainOutbound).
-- - Prf: internal/prf/prf.go. Derive and ExpandKeys over HMAC-SHA256. The loop of Derive has one round of
--   fuel per byte, and each round adds 32 bytes.
-- - Client.Settings: effectiveKeepalive, effectiveMSSFix and clampMSS of client.go. The MTU derived there
--   goes into Mssfix, and must leave room for what Manager adds to a packet.
-- - Text: Go's strings package over lists of bytes, for the parsers. What rests on Unicode tables or on the
--   syntax of numbers and addresses is the record Library, a parameter.
-- - Routing.Push: ParsePushReply of routing/push.go. Each case of its switch is a function on the options
--   parsed so far and the route gateway.
-- - Routing.Ownership: routing/ownership.go. The ledger of the routes that the client added: Check, Repair and
--   Cleanup. The routing table is a state of any type, and the callbacks are functions on it.
-- - Routing.Netlink: routing/netlink.go. Messages builds the netlink messages that add routes, Replies has the
--   readers of what the kernel answers, and Gateway parseRouteGateway. Every round of their loops takes four
--   bytes at least, so one round of fuel per byte is enough.
-- - Saml: auth/saml. Challenge has the two parsers of the CRV1 challenge and the credential (saml.go, msg.go,
--   session.go), Control the control messages and their stream (msg.go), Session the two phases
--   (session.go), Response normalizeAndValidateResponse (saml.go), and Token the expiry (token.go), whose
--   loop has one round of fuel per byte. An error stands for its message; what HandlePhase1 returns beside
--   an error is left out.
-- - Client.Auth: the key-method-2 packets of client.go, sendAuthPacket and consumeServerAuthPacket.
--   Client.Auth.Fields has a reader of the layout, independent of both, which
--   wants the NUL of each string. Client.Pushed: parseTunMTU and
--   parsePeerID.
-- - Profile: profile/profile.go. Directives has the cases of the switch in ParseFile, Lines its loop and the
--   inline blocks, over the lines that bufio.Scanner yields. Profile.Settings hands a parsed profile to
--   Client.Settings.
-- - Client.Lifecycle: the states of a Client in client.go. A step is one critical section of a goroutine
--   (Connect, Disconnect, the teardown, the monitors), or a write without the mutex, and a run is any sequence
--   of them; connectPhase2 has a step for its check, for caching the token, for the data channel and for the
--   TLS secrets. Cleanup has what a teardown gives back, Rekey parts of doRekey, and Reconnect the loop over
--   attempts, between whose parts no other step comes.
-- - Dns: ParsePushReply and Merge of dns/dns.go. The maps of Merge are lists of keys beside what is merged.
-- - Dns.Ownership: dns/ownership.go. Check, Repair and Cleanup of resolv.conf over the files of the host, a
--   state of any type.
-- - Relay: relay/relay.go. readMessage and sendFrame on the frames of a WebSocket. Relay.Wire is the layout
--   of RFC 6455 and Relay.Masking its masking, independent of both. The loop of readMessage has one
--   round of fuel per input.
--
-- Base holds what these share: tests and lists over native numbers, big-endian integers, and Go's
-- (value, error) pair as Result, in which a run-time panic is an outcome of its own, so that its absence
-- can be stated.
--
-- Conventions. A byte slice is a list of numbers; where a fact needs each to be below 256 it says so. An
-- unsigned integer of w bits is a number with its wrap-around written out (% 2 ^ w); int64 is an integer
-- (ℤ) with the wrap-around in to_int64. A method that holds the mutex is one function on the state. The
-- clock (`now`) and the bytes that rand.Read draws are arguments. A Go map from packet IDs is a function,
-- and so is the bit array of the replay window. The loop of Receive takes nine rounds of fuel: the map
-- holds at most eight IDs from the expected one on, and Delivered states that the loop has ended by its
-- test.
--
-- Taken as parameters: AES-GCM (record Aead), AES-CBC and HMAC-SHA256 (record Primitives), each with the
-- documented laws that are needed (IsAead, ArePrimitives). Crypto.Samples has an instance of each.
-- HMAC-SHA256 in Prf, with the length of a MAC; strings.EqualFold and net.IP's To4 in Client.Settings;
-- strings, strconv, fmt.Sscanf and net as the record Library in Routing, Saml, Dns, Profile and
-- Client.Pushed (Text.Samples has an instance); base64, encoding/xml and time.Parse in Saml; how fmt prints a number in
-- Client.Auth, and how net.IP prints an address in Dns; the callbacks of Ownership, on a table with one
-- route for each destination (IsBackend); os.ReadFile, os.WriteFile and os.Remove in Dns.Ownership, with the
-- laws AreFiles; how net.IP prints and compares addresses in Routing.Netlink.
--
-- Not modelled: sockets, the TUN device, the backends of the DNS and the other system calls; the TLS library;
-- the relay server; the command line, the daemon and the mobile bindings; log lines.
pub mod Base
pub mod Text
pub mod Framing
pub mod Compress
pub mod Reliable
pub mod Crypto
pub mod DataChannel
pub mod Manager
pub mod Client
pub mod Mssfix
pub mod Prf
pub mod Profile
pub mod ControlTransport
pub mod Routing
pub mod Saml
pub mod Relay
pub mod Dns
