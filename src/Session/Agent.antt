-- ===== src/Session/Agent.antt =====
-- crates/mymesh-session/src/agent.rs: what the agent does with a control message of a session.
pub mod Guards
use my_mesh.Base.{
  ℕ, Bool, true, false, not, ◌&&◌, none, some, List, [], ◌∷◌, map, arith, if◌then◌else◌, keep_if,
  ◌==◌, nat_eq, text_eq, io, identity, Result, ok, err, panic, holds, Text, ℤ,
}
use my_mesh.Core.Identity.{Hex, DeviceId, id_eq}
use my_mesh.Core.Device.{DeviceStore, is_trusted, is_trusted_state, list}
use my_mesh.Core.Mesh.{
  MeshState, load_mesh, PendingKick, PendingKickStore, upsert_kick, mark_delivered, add_ack,
  gc_completed,
}
use my_mesh.Core.Join.{Chrono}
use my_mesh.Crypto.Identity.{Ed25519, device_id}
use my_mesh.Protocol.Messages.{
  ControlMessage, ping, pong, host_metrics_request, host_metrics, HostMetrics, membership_request,
  membership_snapshot, membership_announce, Membership, kick_announce, KickAnnouncement,
  kick_notice, KickNotice, kick_leave_ack, KickLeave, kick_member_ack, kick_ack,
}
use my_mesh.Session.Handshake.{Codec, Conn}
use my_mesh.Session.MeshSync.{
  verify_membership, verify_kick, verify_leave_ack, sign_leave_ack, build_snapshot,
}
use my_mesh.Session.MeshSync.Apply.{Node, apply_membership}
use my_mesh.Session.MeshSync.Kicks.{
  KickNode, trusted_ids, apply_kick_target, apply_kick_notice_local,
}
use my_mesh.Base.Stateful.{pure, ◌>>=◌, ◌>>◌, ignore}
use my_mesh.Session.Call.{
  LeaveOutboxItem, Env, Agent, Action, open_devices, open_pending, on_devices, on_kicks, on_mesh,
  send_message,
}

abbrev pub is_ok {ℓ} : {A : Type ℓ} → Result A → Bool
is_ok (ok a) = true
is_ok (err e) = false
is_ok panic = false

-- Without `return Ok(())` before, the rest.
abbrev pub unless_return : Bool → Action (Unit {0}) → Action (Unit {0})
unless_return b rest = if b then rest else pure tt

module _ ⦃hex : Hex⦄ ⦃chrono : Chrono⦄ (env : Env) where
  abbrev load : Action MeshState
  load = on_mesh (load_mesh env.disk env.uuid env.now)

  unfoldable pub membership_call : DeviceStore → Membership → DeviceId → Action ℕ
  membership_call s m self_id w =
      let node : Node = record { store = s; mesh = w.mesh; dirty = w.dirty } in
      let (r, n) =
        apply_membership env.disk env.now env.uuid m.from_id m.mesh_id m.members self_id node in
      (r, record w { devices = n.store.file; mesh = n.mesh; dirty = n.dirty })

  unfoldable pub notice_call : DeviceStore → DeviceId → Text → Text → Action (Unit {0})
  notice_call s by_id by_label message w =
      let node : KickNode = record {
        store = s;
        mesh = w.mesh;
        notice = w.notice;
        dirty = w.dirty;
      } in
      let (r, n) =
        apply_kick_notice_local env.disk env.uuid env.fresh_uuid env.now by_id by_label message
          node in
      (r, record w { devices = n.store.file; mesh = n.mesh; notice = n.notice; dirty = n.dirty })

  -- `write_leave_outbox`.
  unfoldable pub leave_item : KickNotice → DeviceId → ℤ → Text → DeviceId → LeaveOutboxItem
  leave_item k self_id ts signature peer = record {
    peer = peer;
    mesh_id = k.mesh_id;
    target_id = self_id;
    by_id = k.by_id;
    ts = ts;
    signature_hex = hex.encode signature;
  }

  unfoldable pub write_leave_outbox : List LeaveOutboxItem → Action (Unit {0})
  write_leave_outbox items w = elim env.disk [
    | none ↦ (ok tt, record w { outbox = holds items })
    | some e ↦ (err (io e), w)
  ]

-- The members that are asked to ack: those that the announcement names, or, where it names none, all
-- that are trusted here but the target.
unfoldable pub expected_acks : DeviceStore → DeviceId → List DeviceId → List DeviceId
expected_acks s target (e ∷ es) = e ∷ es
expected_acks s target [] =
    map (λ d. d.id) (keep_if (λ d. is_trusted_state d.trust && not (d.id == target)) (list s))

unfoldable pub pending_kick : ℕ → List DeviceId → KickAnnouncement → PendingKick
pending_kick now expected k = record {
  target_id = k.target_id;
  target_label = k.target_label;
  by_id = k.by_id;
  by_label = k.by_label;
  mesh_id = k.mesh_id;
  message = k.message;
  ts = k.ts;
  signature = k.signature;
  force = k.force;
  created_at = now;
  delivered_to_target = false;
  acks = [];
  expected = expected;
}

module _ ⦃hex : Hex⦄ ⦃chrono : Chrono⦄ ⦃ed : Ed25519⦄ ⦃codec : Codec⦄ (env : Env) (agent : Agent)
    -- What `sample_metrics` reads of the host.
    (metrics : ℕ → HostMetrics) where
  abbrev self : DeviceId
  self = device_id agent.identity

  unfoldable pub on_membership : DeviceId → Membership → Action (Unit {0})
  unfolding open_devices membership_call
  on_membership peer m = do
    store ← open_devices
    unless_return
        (is_trusted store m.from_id
          && m.from_id == peer
          && is_ok (verify_membership m.from_id m.mesh_id m.ts m.members m.signature))
        (do store ← open_devices; n ← membership_call env store m self; pure tt)

  -- Once the kick is stored: this node is its target, or removes the target and acks.
  kick_here : Conn → KickAnnouncement → PendingKickStore → Action (Unit {0})
  unfolding open_devices notice_call on_devices on_kicks send_message
  kick_here conn k pk = do
    store ← open_devices
    if k.target_id == self
        then (do
          notice_call env store k.by_id k.by_label k.message
          on_kicks (mark_delivered env.disk k.target_id) pk
          pure tt)
        else (do
          on_devices (apply_kick_target env.disk k.target_id) store
          send_message conn (kick_member_ack k.mesh_id k.target_id self (chrono.to_unix env.now)))

  unfoldable pub on_kick_announce : Conn → DeviceId → KickAnnouncement → Action (Unit {0})
  unfolding kick_here open_devices open_pending on_kicks expected_acks pending_kick
  on_kick_announce conn peer k = do
    store ← open_devices
    unless_return
        (is_trusted store k.by_id
          && k.by_id == peer
          && is_ok (verify_kick k.mesh_id k.target_id k.by_id k.ts k.signature))
        (do
          pk ← open_pending
          (_, pk') ←
              on_kicks
                (upsert_kick env.disk
                  (pending_kick env.now (expected_acks store k.target_id k.expected) k))
                pk
          kick_here conn k pk')

  -- This node was kicked: it clears its mesh, answers, and keeps what it has to tell its peers.
  leave : Conn → KickNotice → DeviceStore → Action (Unit {0})
  unfolding notice_call send_message leave_item write_leave_outbox trusted_ids
  leave conn k store = do
    notice_call env store k.by_id k.by_label k.message
    send_message conn (kick_ack true)
    let ts = chrono.to_unix env.now
    let signature = sign_leave_ack agent.identity k.mesh_id k.by_id ts
    send_message conn (
        kick_leave_ack (record {
          mesh_id = k.mesh_id;
          target_id = self;
          by_id = k.by_id;
          ts = ts;
          signature = signature;
        }))
    write_leave_outbox env (map (leave_item env k self ts signature) (trusted_ids store))

  unfoldable pub on_kick_notice : Conn → KickNotice → Action (Unit {0})
  unfolding leave open_devices
  on_kick_notice conn k = do
    store ← open_devices
    unless_return
        (is_trusted store k.by_id && is_ok (verify_kick k.mesh_id self k.by_id k.ts k.signature))
        (do store ← open_devices; leave conn k store)

  unfoldable pub on_leave_ack : DeviceId → KickLeave → Action (Unit {0})
  unfolding open_devices open_pending on_devices on_kicks
  on_leave_ack peer k =
      unless_return (is_ok (verify_leave_ack k.mesh_id k.target_id k.by_id k.ts k.signature)) (do
        store ← open_devices
        on_devices (apply_kick_target env.disk k.target_id) store
        pk ← open_pending
        (_, pk) ← on_kicks (mark_delivered env.disk k.target_id) pk
        (_, pk) ← on_kicks (add_ack env.disk k.target_id k.target_id) pk
        (_, pk) ← on_kicks (add_ack env.disk k.target_id peer) pk
        ignore (on_kicks (gc_completed env.disk env.now) pk))

  unfoldable pub on_member_ack : DeviceId → DeviceId → Action (Unit {0})
  unfolding open_pending on_kicks
  on_member_ack target from = do
    pk ← open_pending
    (_, pk) ← on_kicks (add_ack env.disk target from) pk
    ignore (on_kicks (gc_completed env.disk env.now) pk)

  unfoldable pub handle_control : Conn → DeviceId → ControlMessage → Action (Unit {0})
  unfolding on_membership on_kick_announce on_kick_notice on_leave_ack on_member_ack send_message
      on_mesh open_devices
  handle_control conn peer (ping nonce) = send_message conn (pong nonce)
  handle_control conn peer (host_metrics_request nonce) =
      send_message conn (host_metrics (metrics nonce))
  handle_control conn peer (membership_request nonce) = do
    mesh ← load env
    store ← open_devices
    send_message conn (build_snapshot agent.identity agent.label store mesh nonce env.now)
  handle_control conn peer (membership_snapshot nonce m) = on_membership peer m
  handle_control conn peer (membership_announce m) = on_membership peer m
  handle_control conn peer (kick_announce k) = on_kick_announce conn peer k
  handle_control conn peer (kick_notice k) = on_kick_notice conn k
  handle_control conn peer (kick_leave_ack k) = on_leave_ack peer k
  handle_control conn peer (kick_member_ack mesh_id target from ts) = on_member_ack target from
  handle_control conn peer _ = pure tt
