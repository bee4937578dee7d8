-- ===== src/Session/Agent/Guards.antt =====
-- crates/mymesh-session/src/agent.rs: what a control message may change.
use my_mesh.Base.{ℕ, ◌≡◌, refl, Bool, false, ◌&&◌, arith, ◌==◌, nat_eq, text_eq, ok}
use my_mesh.Core.Identity.{Hex, DeviceId, id_eq}
use my_mesh.Core.Device.{DeviceStore, open_store, is_trusted}
use my_mesh.Core.Join.{Chrono}
use my_mesh.Crypto.Identity.{Ed25519, device_id}
use my_mesh.Protocol.Messages.{
  ControlMessage, ping, pong, host_metrics_request, host_metrics, HostMetrics, membership_request,
  membership_snapshot, membership_announce, kick_announce, kick_notice, kick_leave_ack,
  kick_member_ack,
}
use my_mesh.Session.Handshake.{Codec, Conn}
use my_mesh.Session.MeshSync.{verify_membership, verify_kick, verify_leave_ack}
use my_mesh.Session.Call.{
  AgentState, Env, Agent, open_devices, open_pending, on_kicks, on_mesh, send_frame, send_message,
}
use my_mesh.Session.Agent.{
  is_ok, on_membership, on_kick_announce, on_kick_notice, on_leave_ack, on_member_ack,
  handle_control,
}

-- The devices, the notice to the user and the outbox are as they were.
abbrev pub Keeps : AgentState → AgentState → Type 0
Keeps w w' = (w'.devices ≡ w.devices) × (w'.notice ≡ w.notice) × (w'.outbox ≡ w.outbox)

send_message-Keeps :
    ⦃codec : Codec⦄ (conn : Conn) (m : ControlMessage) (w : AgentState)
    → Keeps w (send_message conn m w).1
unfolding send_message send_frame
send_message-Keeps conn m w = ground arith

-- Whether a message may change what devices this node knows, or what it tells its user: a roster must
-- be that of the peer itself, a kick must be announced by the peer itself, both trusted here; a
-- notice of a kick must be by a device that is trusted here; and each must be signed.
unfoldable pub is_authorised :
    ⦃hex : Hex⦄ ⦃ed : Ed25519⦄ → DeviceStore → DeviceId → DeviceId → ControlMessage → Bool
is_authorised s self_id peer (membership_snapshot nonce m) =
    is_trusted s m.from_id
    && m.from_id == peer
    && is_ok (verify_membership m.from_id m.mesh_id m.ts m.members m.signature)
is_authorised s self_id peer (membership_announce m) =
    is_trusted s m.from_id
    && m.from_id == peer
    && is_ok (verify_membership m.from_id m.mesh_id m.ts m.members m.signature)
is_authorised s self_id peer (kick_announce k) =
    is_trusted s k.by_id
    && k.by_id == peer
    && is_ok (verify_kick k.mesh_id k.target_id k.by_id k.ts k.signature)
is_authorised s self_id peer (kick_notice k) =
    is_trusted s k.by_id && is_ok (verify_kick k.mesh_id self_id k.by_id k.ts k.signature)
is_authorised s self_id peer (kick_leave_ack k) =
    is_ok (verify_leave_ack k.mesh_id k.target_id k.by_id k.ts k.signature)
is_authorised s self_id peer _ = false

module _ ⦃hex : Hex⦄ ⦃chrono : Chrono⦄ ⦃ed : Ed25519⦄ ⦃codec : Codec⦄ (env : Env) (agent : Agent)
    (metrics : ℕ → HostMetrics) where
  on_member_ack-Keeps :
      (target from : DeviceId) (w : AgentState)
      → Keeps w (on_member_ack env agent metrics target from w).1
  unfolding on_member_ack open_pending on_kicks
  on_member_ack-Keeps target from w = ground arith

  tell_roster-Keeps :
      (conn : Conn) (peer : DeviceId) (nonce : ℕ) (w : AgentState)
      → Keeps w (handle_control env agent metrics conn peer (membership_request nonce) w).1
  unfolding handle_control on_mesh open_devices send_message send_frame
  tell_roster-Keeps conn peer nonce w = ground arith

  -- A control message that is not authorised changes neither the devices that the node knows, nor
  -- the notice to its user, nor what it has to tell others of its leaving, where the device file
  -- can be read. A roster and an announced kick are authorised if they are the peer's own, the
  -- peer is trusted, and they are signed by it; a notice of a kick if it is signed by a trusted
  -- device; a leave if it is signed by who leaves; all other messages are not.
  pub handle_control_unauthorised :
      (conn : Conn) (peer : DeviceId) (m : ControlMessage) (w : AgentState) (s : DeviceStore)
      → open_store w.devices ≡ ok s
      → is_authorised s (device_id agent.identity) peer m ≡ false
      → (let w' = (handle_control env agent metrics conn peer m w).1 in
          (w'.devices ≡ w.devices) × (w'.notice ≡ w.notice) × (w'.outbox ≡ w.outbox))
  unfolding handle_control on_membership on_kick_announce on_kick_notice on_leave_ack open_devices
      is_authorised
  handle_control_unauthorised conn peer (ping nonce) w s e h =
      send_message-Keeps conn (pong nonce) w
  handle_control_unauthorised conn peer (host_metrics_request nonce) w s e h =
      send_message-Keeps conn (host_metrics (metrics nonce)) w
  handle_control_unauthorised conn peer (membership_request nonce) w s e h =
      tell_roster-Keeps conn peer nonce w
  handle_control_unauthorised conn peer (membership_snapshot nonce m) w s e h = ground (arith, e, h)
  handle_control_unauthorised conn peer (membership_announce m) w s e h = ground (arith, e, h)
  handle_control_unauthorised conn peer (kick_announce k) w s e h = ground (arith, e, h)
  handle_control_unauthorised conn peer (kick_notice k) w s e h = ground (arith, e, h)
  handle_control_unauthorised conn peer (kick_leave_ack k) w s e h = ground (arith, h)
  handle_control_unauthorised conn peer (kick_member_ack mesh_id target from ts) w s e h =
      on_member_ack-Keeps target from w
  handle_control_unauthorised conn peer _ w s e h = (refl, refl, refl)
