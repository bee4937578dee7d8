-- ===== src/Lib.antt =====
-- MyMesh: the data, the wire format and the mesh protocol of a peer-to-peer device mesh, modelled
-- with the theorems that make them correct.
--
-- The program. Nodes are named by the verifying key of an Ed25519 identity (crates/mymesh-crypto).
-- A node keeps a store of linked devices with their trust and capabilities, a mesh record, pending
-- kicks, and the files by which a join is asked for and decided (crates/mymesh-core). Peers exchange
-- frames of a channel (crates/mymesh-protocol). Over the control channel they tell each other signed
-- rosters and kicks, which each merges into its own store (crates/mymesh-session). A node that is not
-- known joins by a request that the host's user accepts, at the host or through a web server for a phone
-- (carrier.rs), or by a code that one node shows and the other enters (pair.rs). A trusted peer may read and write files under a
-- root (crates/mymesh-files), and be reached by name (magic.rs); nodes that pair leave each other messages
-- at a rendezvous (crates/mymesh-net).
--
-- The files.
--   Base            lists, bytes, texts, sorting, dictionaries, results (error.rs), decidable equality
--   Core/Identity   crates/mymesh-core/src/identity.rs: DeviceId, DeviceLabel, NodeFingerprint
--   Core/MeshIp     crates/mymesh-core/src/mesh_ip.rs
--   Core/Device     crates/mymesh-core/src/device.rs: DeviceStore; Persist and Trust hold proofs,
--                   Naming holds aliases, groups and resolve_query, with proofs below it
--   Core/Mesh       crates/mymesh-core/src/mesh.rs: MeshState, PendingKickStore
--   Core/Join       crates/mymesh-core/src/join.rs: ArmState, JoinStore
--   Core/Failure    crates/mymesh-core/src/error.rs: the texts of the errors
--   Protocol        crates/mymesh-protocol/src/channel.rs, frame.rs and messages.rs
--   Crypto/Identity crates/mymesh-crypto/src/identity.rs
--   Crypto/Words    crates/mymesh-crypto/src/words.rs; RoundTrip holds proofs
--   Crypto/Pairing  crates/mymesh-crypto/src/pairing.rs
--   Crypto/WordId   crates/mymesh-crypto/src/word_id.rs; Readings, Letters and Phrase hold
--                   proofs
--   Session/MeshSync crates/mymesh-session/src/mesh_sync.rs: Materials (what is signed), Roster (what
--                   is told), Apply (the merge), Kicks
--   Session/Handshake crates/mymesh-session/src/session.rs: both sides of the handshake
--   Session/Call    crates/mymesh-session/src/agent.rs: the state that a handler works on, and calls on it
--   Session/Agent   crates/mymesh-session/src/agent.rs: handle_control; Guards holds proofs
--   Session/Inbound crates/mymesh-session/src/agent.rs: a connection that is accepted, up to the loop of
--                   its session
--   Session/Channels crates/mymesh-session/src/agent.rs: a frame of a session; Guarded holds proofs
--   Session/Delivery crates/mymesh-session/src/agent.rs: what the agent tells by itself: push_mesh_to_all,
--                   validate_mesh, flush_pending_kicks, flush_leave_outbox; Lost holds proofs
--   Session/Join    crates/mymesh-session/src/join.rs: Guest and Host; Laws, Host/Guards and
--                   Host/Accepting hold proofs
--   Session/Pair    crates/mymesh-session/src/pair.rs; Ceremony has both sides, Vouched, Stages and
--                   Meeting hold proofs, and Local those over Net/Rendezvous
--   Session/Carrier crates/mymesh-session/src/carrier.rs: the token; Handlers, Start and Page have the
--                   rest, Token, Steps, LetIn, Decide, Guarded, Opening and Escapes hold proofs
--   Session/Magic   crates/mymesh-session/src/magic.rs: names; Dns has build_dns_response and the
--                   request of a SOCKS client, Query and Names hold proofs
--   Net/Rendezvous  crates/mymesh-net/src/rendezvous.rs; Lanes and Fifo hold proofs
--   Core/Metrics    crates/mymesh-core/src/metrics.rs
--   Files/Sandbox   crates/mymesh-files/src/sandbox.rs
--   Files/Chunks    crates/mymesh-files/src/transfer.rs: the loop of Get, and a write at a position;
--                   Resume holds proofs
--   Files/Transfer  crates/mymesh-files/src/transfer.rs: apply_host_message, write_chunk; Confined and
--                   Resumed hold proofs
--   Examples        an implementation of the interfaces, and the statements at concrete inputs
--
-- How the code is written down. A method that changes a store takes the store and returns its result
-- with the store that it leaves, also where it fails. A result is a value, an error, or a panic. What
-- the operating system answers to the writes of a call is an argument, `disk`: none where they
-- succeed, the number of an error where they fail; a write of a temporary file and its rename are one
-- write. A file of JSON is absent, unreadable, or holds a value. The time, and a fresh UUID, are
-- arguments too; times are nanoseconds. A text is the list of the bytes of its UTF-8, and an id is a
-- list of bytes of which the predicate IsId says that there are 32. A HashMap is a list of entries in
-- the order of insertion; the code sorts wherever the order could show, but for records of the same
-- label. Numbers are unbounded naturals with the casts, shifts and saturating sums of the code
-- written out.
--
-- Loops. A loop over a list is a recursion on it. What a peer sends is a list of frames, with how it
-- ends where the code looks at that; the looks of a host for a decision are a list. Three loops have
-- fuel: that of Get, whose fuel is an argument, enough where it exceeds the bytes that are left of the
-- file, since no read gives nothing before the end; the labels of a DNS question, whose fuel is the
-- length of the question, of which each round reads at least a byte. So has the splitting of a text at
-- white space, with a round for each of its bytes and one more.
--
-- The agent and the host of a join are calls that change a state and can fail (Base/Stateful); what
-- such a call changed before an error stays changed.
--
-- What is a parameter: the hex crate (Hex: its digits, its lengths, and that it decodes what it
-- encodes), the signature scheme (Ed25519: a signature that is made is accepted), chrono (Chrono: a
-- sum of a time and a short window), Unicode lower case and the reading of UTF-8 (Unicode, Utf8: on
-- ASCII they are those of ASCII), the parsing of an address (ParseIp), the calls of the file system (Os), the
-- shells (Shells), the key exchange with its digests (Spake: two sides of one password come to one key),
-- the words of an id (Bip39: 24 words that are read back), tokens as text (Base64: what is encoded is
-- decoded), times and errors as text (Texts), the rendezvous of a ceremony (Mailbox),
-- and the encoding of messages (Codec: what is encoded is decoded). A connection is what it answers.
-- Examples gives each an implementation, which satisfies all that is asked of it.
--
-- What is not modelled: sockets, terminals, the command line and its screens, the iroh library, and the
-- serialisation of messages and of files, which are input and output or other libraries'; and, of the
-- session layer, the timers of the agent, the output of shells, the HTML of the page for the phone, and tunnels.
mod Base
pub mod Core
pub mod Protocol
pub mod Crypto
pub mod Net
pub mod Session
pub mod Files
pub mod Examples
