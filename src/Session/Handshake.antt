-- ===== src/Session/Handshake.antt =====
-- crates/mymesh-session/src/session.rs: the handshake of a session. The connection is what it answers:
-- the id of its peer, what `recv_frame` gives, what `send_frame` gives for a frame. A call returns its
-- result with the frames that it hands to `send_frame`.
pub mod Laws
use my_mesh.Base.{
  em_dash, ◌+◌, ◌-◌, ◌/◌, ◌≡◌, not, Option, none, some, List, [], ◌∷◌, ◌++◌, arith, if◌then◌else◌,
  keep_if, ◌==◌, contains, nat_eq, text_eq, identity, protocol, permission_denied, Result, ok, err,
  panic, ◌>>=◌, ◌>>◌, Text, text, decimal,
}
use my_mesh.Core.Identity.{Hex, DeviceId, id_eq, to_string}
use my_mesh.Core.Device.{Capability, cap_eq, DeviceRecord, DeviceStore, get, is_trusted}
use my_mesh.Crypto.Identity.{Ed25519, Identity, device_id, sign}
use my_mesh.Protocol.Channel.{control_channel}
use my_mesh.Protocol.Frame.{Frame}
use my_mesh.Protocol.Messages.{ControlMessage, hello, hello_ack}

-- `encode_msg` and `decode_msg` of the serialisation library, and the `Debug` text of a message:
-- what is encoded is decoded.
pub record Codec : Type 0 where
  pub encode : ControlMessage → Result Text
  pub decode : Text → Result ControlMessage
  pub debug : ControlMessage → Text
  pub decode-encode : (m : ControlMessage) (b : Text) → encode m ≡ ok b → decode b ≡ ok m

pub record Session : Type 0 where
  pub local_id : DeviceId
  pub peer_id : DeviceId
  pub capabilities : List Capability

pub record Conn : Type 0 where
  pub peer : DeviceId
  pub recv : Result Frame
  pub send : Frame → Result (Unit {0})

abbrev pub Handshake : Type 0
Handshake = Result Session × List Frame

-- What this side offers.
pub record Local : Type 0 where
  pub identity : Identity
  pub label : Text
  pub offered : List Capability

module _ ⦃ed : Ed25519⦄ where
  -- `[local_id, label].concat()`, signed.
  unfoldable pub hello_signature : Local → Text
  hello_signature l = sign l.identity ((device_id l.identity).bytes ++ l.label)

  unfoldable pub hello_of : Local → ControlMessage
  unfolding hello_signature
  hello_of l = hello 1 (device_id l.identity) l.label l.offered (hello_signature l)

  unfoldable pub ack_of : Local → List Capability → ControlMessage
  unfolding hello_signature
  ack_of l accepted = hello_ack (device_id l.identity) l.label accepted (hello_signature l)

abbrev pub control_frame : Text → Frame
control_frame payload = record { channel = control_channel; payload = payload }

-- The capabilities that both sides and the store allow.
unfoldable pub accepted_caps :
    List Capability → List Capability → Option DeviceRecord → List Capability
accepted_caps offered told none = keep_if (contains told) offered
accepted_caps offered told (some r) =
    keep_if (contains r.capabilities) (keep_if (contains told) offered)

module _ ⦃hex : Hex⦄ ⦃ed : Ed25519⦄ ⦃codec : Codec⦄ where
  -- `encode_msg`, then `send_frame`.
  unfoldable pub send_control : Conn → ControlMessage → Result (Unit {0}) × List Frame
  send_control conn m = elim (codec.encode m) [
    | ok b ↦ (conn.send (control_frame b), control_frame b ∷ [])
    | err e ↦ (err e, [])
    | panic ↦ (panic, [])
  ]

  -- What the dialer makes of the answer.
  unfoldable pub check_ack : Local → DeviceId → ControlMessage → Result Session
  check_ack l peer (hello_ack device label accepted signature) =
      if not (device == peer)
      then err (protocol (text "peer id mismatch"))
      else ok (record { local_id = device_id l.identity; peer_id = peer; capabilities = l.offered })
  check_ack l peer m = err (protocol (text "expected HelloAck, got " ++ codec.debug m))

  unfoldable pub handshake_dialer : Local → DeviceStore → Conn → Handshake
  unfolding send_control hello_of check_ack
  handshake_dialer l store conn =
      if not (is_trusted store conn.peer)
      then (
        err (
            permission_denied
              (text "peer " ++ to_string conn.peer ++ text " is not a linked device")),
        [],
      )
      else let (sent, frames) = send_control conn (hello_of l) in
        (do _ ← sent; f ← conn.recv; m ← codec.decode f.payload; check_ack l conn.peer m, frames)

  -- What the acceptor reads of the opening: the capabilities that it tells.
  unfoldable pub check_hello : DeviceId → ControlMessage → Result (List Capability)
  check_hello peer (hello version device label told signature) =
      if not (version == 1)
      then err (protocol (text "unsupported protocol " ++ decimal version))
      else if not (device == peer)
      then err (protocol (text "peer id mismatch"))
      else ok told
  check_hello peer m = err (protocol (text "expected Hello, got " ++ codec.debug m))

  answer : Local → DeviceStore → Conn → Result (List Capability) → Handshake
  unfolding send_control ack_of accepted_caps
  answer l store conn (err e) = (err e, [])
  answer l store conn panic = (panic, [])
  answer l store conn (ok told) =
      let accepted = accepted_caps l.offered told (get store conn.peer) in
      let (sent, frames) = send_control conn (ack_of l accepted) in
      (
        sent
            >> ok (record {
              local_id = device_id l.identity;
              peer_id = conn.peer;
              capabilities = accepted;
            }),
        frames,
      )

  unfoldable pub handshake_acceptor : Local → DeviceStore → Conn → Handshake
  unfolding answer check_hello
  handshake_acceptor l store conn =
      if not (is_trusted store conn.peer)
      then (
        err (
            permission_denied (
              text "peer "
              ++ to_string conn.peer
              ++ text " is not a linked device "
              ++ em_dash
              ++ text " unlink/ignore")),
        [],
      )
      else answer l store conn
          (do f ← conn.recv; m ← codec.decode f.payload; check_hello conn.peer m)
