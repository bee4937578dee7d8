-- ===== src/Session/Delivery.antt =====
-- crates/mymesh-session/src/agent.rs: what the agent tells its peers by itself: its roster, the kicks
-- that wait, and that it has left.
pub mod Lost
use my_mesh.Base.{
  ℕ, ◌+◌, inl, inr, Bool, true, false, Option, none, some, List, [], ◌∷◌, ◌++◌, map, arith,
  if◌then◌else◌, length, ◌==◌, nat_eq, text_eq, identity, Result, ok, err, panic, missing, corrupt,
  holds, Text,
}
use my_mesh.Core.Identity.{Hex, DeviceId, id_eq, fingerprint, DeviceLabel, label_new}
use my_mesh.Core.Device.{
  all_caps, trusted, DeviceRecord, DeviceStore, get, is_trusted, upsert, remove_device,
}
use my_mesh.Core.Mesh.{MeshState, load_mesh, PendingKick, get_kick, list_kicks, mark_delivered}
use my_mesh.Core.Join.{Chrono}
use my_mesh.Crypto.Identity.{Ed25519, device_id}
use my_mesh.Protocol.Channel.{control, kind_eq}
use my_mesh.Protocol.Frame.{Frame}
use my_mesh.Protocol.Messages.{
  ControlMessage, membership_request, membership_snapshot, kick_notice, kick_leave_ack,
}
use my_mesh.Session.Handshake.{Codec, Conn, Local, Session, handshake_dialer}
use my_mesh.Session.MeshSync.{verify_membership, build_announce}
use my_mesh.Session.MeshSync.Kicks.{trusted_ids}
use my_mesh.Base.Stateful.{pure, raise, ◌>>=◌, ◌>>◌, ignore}
use my_mesh.Session.Call.{
  LeaveOutboxItem, Env, Agent, Action, open_devices, open_pending, on_devices, on_kicks, on_mesh,
  send_message,
}
use my_mesh.Session.Agent.{is_ok, membership_call, write_leave_outbox}

-- `if let Err(e) = ...`: whether the call succeeded; a panic goes on.
abbrev pub attempted : {A : Type 0} → Result A → Result Bool
attempted (ok a) = ok true
attempted (err e) = ok false
attempted panic = panic

abbrev pub attempt : {A : Type 0} → Action A → Action Bool
attempt m w = let (r, w') = m w in (attempted r, w')

-- `for peer in peers { if let Err(e) = ... { warn } }`.
unfoldable pub each_attempt : {A : Type 0} → (A → Action (Unit {0})) → List A → Action (Unit {0})
each_attempt f [] = pure tt
each_attempt f (a ∷ rest) = do attempt (f a); each_attempt f rest

unfoldable pub notice_of : PendingKick → ControlMessage
notice_of k = kick_notice (record {
  mesh_id = k.mesh_id;
  by_id = k.by_id;
  by_label = k.by_label;
  message = k.message;
  ts = k.ts;
  force = k.force;
  signature = k.signature;
})

module _ ⦃hex : Hex⦄ where
  -- The record by which a target is trusted for the length of one handshake.
  unfoldable pub kicked_record : ℕ → DeviceId → PendingKick → DeviceLabel → DeviceRecord
  kicked_record now target k label = record {
    id = target;
    label = label;
    fingerprint = fingerprint target;
    capabilities = all_caps;
    trust = trusted;
    linked_at = now;
    last_seen = none;
    endpoint_hint = none;
    mesh_id = some k.mesh_id;
    aliases = [];
    groups = [];
  }

  -- `hex::decode(..).unwrap_or_default()`, which is 64 bytes, or the item is kept as it is.
  unfoldable pub item_signature : LeaveOutboxItem → Option Text
  item_signature item = elim (hex.decode item.signature_hex) [
    | inl _ ↦ none
    | inr s ↦ if length s == 64 then some s else none
  ]

unfoldable pub leave_message : LeaveOutboxItem → Text → ControlMessage
leave_message item signature = kick_leave_ack (record {
  mesh_id = item.mesh_id;
  target_id = item.target_id;
  by_id = item.by_id;
  ts = item.ts;
  signature = signature;
})

module _ ⦃hex : Hex⦄ ⦃chrono : Chrono⦄ ⦃ed : Ed25519⦄ ⦃codec : Codec⦄ (env : Env)
    (agent : Agent) where
  abbrev self : DeviceId
  self = device_id agent.identity

  abbrev load : Action MeshState
  load = on_mesh (load_mesh env.disk env.uuid env.now)

  -- The handshake of a dialer that offers all capabilities.
  unfoldable pub shake : DeviceStore → Conn → Action Session
  shake store conn w =
      let side : Local = record {
        identity = agent.identity;
        label = agent.label;
        offered = all_caps;
      } in
      let (r, frames) = handshake_dialer side store conn in
      (r, record w { sent = w.sent ++ map (λ f. (conn.peer, f)) frames })

  unfoldable pub dial_send : DeviceId → ControlMessage → Action (Unit {0})
  unfolding open_devices shake send_message
  dial_send peer m = do
    store ← open_devices
    if is_trusted store peer
        then (do link ← raise (env.dial peer); shake store link.conn; send_message link.conn m)
        else pure tt

  -- The answers, until a roster is among them.
  unfoldable pub await_roster : List Frame → Action (Unit {0})
  unfolding membership_call open_devices
  await_roster [] = pure tt
  await_roster (f ∷ fs) =
      let rest = await_roster fs in
      if f.channel.kind == control
      then (do
        m ← raise (codec.decode f.payload)
        elim m [
          | membership_snapshot nonce r ↦
              if is_ok (verify_membership r.from_id r.mesh_id r.ts r.members r.signature)
              then (do store ← open_devices; n ← membership_call env store r self; pure tt)
              else pure tt
          | _ ↦ rest
        ])
      else pure tt

  unfoldable pub dial_request_membership : DeviceId → Action (Unit {0})
  unfolding open_devices shake send_message await_roster on_mesh
  dial_request_membership peer = do
    store ← open_devices
    link ← raise (env.dial peer)
    shake store link.conn
    mesh ← load
    store ← open_devices
    send_message link.conn (build_announce agent.identity agent.label store mesh env.now)
    send_message link.conn (membership_request 1)
    await_roster link.later

  -- A target that is stored stays as it is; one that is not is trusted, if a kick waits for it.
  unfoldable pub trust_target : DeviceId → Action (Unit {0})
  unfolding open_devices open_pending on_devices kicked_record
  trust_target target = do
    store ← open_devices
    elim (get store target) [
      | some _ ↦ pure tt
      | none ↦ do
        pk ← open_pending
        elim (get_kick pk target) [
          | none ↦ pure tt
          | some k ↦ do
            label ← raise (label_new k.target_label)
            on_devices (upsert env.disk (kicked_record env.now target k label)) store
        ]
    ]

  unfoldable pub dial_kick_notice : DeviceId → ControlMessage → Action (Unit {0})
  unfolding trust_target open_devices shake send_message on_devices
  dial_kick_notice target m = do
    trust_target target
    store ← open_devices
    link ← raise (env.dial target)
    shake store link.conn
    send_message link.conn m
    store ← open_devices
    ignore (on_devices (remove_device env.disk target) store)

  flush_one : PendingKick → Action (Unit {0})
  unfolding dial_kick_notice notice_of open_pending on_kicks
  flush_one k = if k.delivered_to_target then pure tt else do
    told ← attempt (dial_kick_notice k.target_id (notice_of k))
    if told
        then (do pk ← open_pending; on_kicks (mark_delivered env.disk k.target_id) pk; pure tt)
        else pure tt

  flush_each : List PendingKick → Action (Unit {0})
  unfolding flush_one
  flush_each [] = pure tt
  flush_each (k ∷ ks) = do flush_one k; flush_each ks

  unfoldable pub flush_pending_kicks : Action (Unit {0})
  unfolding flush_each open_pending
  flush_pending_kicks = do pk ← open_pending; flush_each (list_kicks pk)

  -- The items that remain.
  unfoldable pub deliver_items : List LeaveOutboxItem → Action (List LeaveOutboxItem)
  unfolding item_signature dial_send leave_message
  deliver_items [] = pure []
  deliver_items (i ∷ is) = elim (item_signature i) [
    | none ↦ do rest ← deliver_items is; pure (i ∷ rest)
    | some s ↦ do
      told ← attempt (dial_send i.peer (leave_message i s))
      rest ← deliver_items is
      pure (if told then rest else i ∷ rest)
  ]

  unfoldable pub remove_outbox : Action (Unit {0})
  remove_outbox w = elim env.disk [
    | none ↦ (ok tt, record w { outbox = missing })
    | some e ↦ (ok tt, w)
  ]

  flush_items : List LeaveOutboxItem → Action (Unit {0})
  unfolding deliver_items write_leave_outbox remove_outbox
  flush_items [] = pure tt
  flush_items (i ∷ is) = do
    remaining ← deliver_items (i ∷ is)
    elim remaining [ [] ↦ remove_outbox | r ∷ rs ↦ write_leave_outbox env (r ∷ rs) ]

  -- A file that cannot be read counts as one without items.
  unfoldable pub flush_leave_outbox : Action (Unit {0})
  unfolding flush_items
  flush_leave_outbox w = elim w.outbox [
    | missing ↦ (ok tt, w)
    | corrupt _ ↦ (ok tt, w)
    | holds items ↦ flush_items items w
  ]

  unfoldable pub push_mesh_to_all : Action (Unit {0})
  unfolding open_devices on_mesh each_attempt dial_send flush_pending_kicks flush_leave_outbox
  push_mesh_to_all = do
    store ← open_devices
    mesh ← load
    let told = build_announce agent.identity agent.label store mesh env.now
    each_attempt (λ peer. dial_send peer told) (trusted_ids store)
    flush_pending_kicks
    flush_leave_outbox

  unfoldable pub validate_mesh : Action (Unit {0})
  unfolding open_devices each_attempt dial_request_membership flush_pending_kicks flush_leave_outbox
  validate_mesh = do
    store ← open_devices
    each_attempt dial_request_membership (trusted_ids store)
    flush_pending_kicks
    flush_leave_outbox
