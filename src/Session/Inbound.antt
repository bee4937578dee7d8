-- ===== src/Session/Inbound.antt =====
-- crates/mymesh-session/src/agent.rs: what becomes of a connection that is accepted, and what a session
-- tells its peer first.
use my_mesh.Base.{
  ℕ, Bool, not, ◌&&◌, none, some, List, [], ◌∷◌, ◌++◌, map, if◌then◌else◌, ◌==◌, nat_eq, text_eq,
  ok, err, panic, JsonFile,
}
use my_mesh.Base.Stateful.{pure, raise, ◌>>=◌, ◌>>◌, ignore}
use my_mesh.Core.Identity.{Hex, DeviceId, id_eq}
use my_mesh.Core.Device.{Capability, terminal, files, desktop, tcp, open_store, is_trusted}
use my_mesh.Core.Mesh.{load_mesh, PendingKick, open_kicks, get_kick, list_kicks}
use my_mesh.Core.Join.{Chrono, ArmState, load_arm, is_effectively_armed}
use my_mesh.Crypto.Identity.{Ed25519}
use my_mesh.Protocol.Messages.{ControlMessage, kick_announce}
use my_mesh.Session.Handshake.{Codec, Conn, Local, Session, control_frame, handshake_acceptor}
use my_mesh.Session.MeshSync.{build_snapshot}
use my_mesh.Session.Call.{Env, Agent, Action, open_devices, open_pending, send_frame}
use my_mesh.Session.Delivery.{notice_of}

pub data Route : Type 0 where
  serves : Route
  joins : Route
  rejects : Route

-- A peer that is not trusted is served where a kick waits for it, and may join where the node is armed.
unfoldable pub route : JsonFile ArmState → ℕ → DeviceId → Action Route
unfolding open_devices open_pending
route arm now peer = do
  store ← open_devices
  if is_trusted store peer then pure serves else (do
    pk ← open_pending
    elim (get_kick pk peer) [
      | some _ ↦ pure serves
      | none ↦ do
        a ← raise (load_arm arm)
        pure (if is_effectively_armed now a then joins else rejects)
    ])

-- The capabilities that the settings let a node offer.
unfoldable pub offered_caps : (enable_terminal enable_files enable_desktop : Bool) → List Capability
offered_caps enable_terminal enable_files enable_desktop =
    (if enable_terminal then terminal ∷ [] else [])
    ++ (if enable_files then files ∷ [] else [])
    ++ (if enable_desktop then desktop ∷ [] else [])
    ++ tcp ∷ []

unfoldable pub announcement_of : PendingKick → ControlMessage
announcement_of k = kick_announce (record {
  mesh_id = k.mesh_id;
  target_id = k.target_id;
  target_label = k.target_label;
  by_id = k.by_id;
  by_label = k.by_label;
  message = k.message;
  ts = k.ts;
  force = k.force;
  expected = k.expected;
  signature = k.signature;
})

module _ ⦃hex : Hex⦄ ⦃chrono : Chrono⦄ ⦃ed : Ed25519⦄ ⦃codec : Codec⦄ (env : Env)
    (agent : Agent) where
  -- A message that must be encoded, and may be lost.
  unfoldable pub offer_message : Conn → ControlMessage → Action (Unit {0})
  unfolding send_frame
  offer_message conn m = do b ← raise (codec.encode m); ignore (send_frame conn (control_frame b))

  -- `handle_inbound` up to the session: whether there is one.
  unfoldable pub handle_inbound : Conn → DeviceId → Action Bool
  unfolding open_devices open_pending offer_message notice_of
  handle_inbound conn peer = do
    pk ← open_pending
    elim (get_kick pk peer) [
      | none ↦ pure tt
      | some k ↦ if k.delivered_to_target then pure tt else offer_message conn (notice_of k)
    ]
    store ← open_devices
    pure (is_trusted store peer)

  -- The roster, where the mesh and the devices can be read.
  unfoldable pub offer_roster : Conn → Action (Unit {0})
  unfolding offer_message
  offer_roster conn w =
      let (r, file) = load_mesh env.disk env.uuid env.now w.mesh in
      let w' = record w { mesh = file } in
      elim r [
        | err _ ↦ (ok tt, w')
        | panic ↦ (panic, w')
        | ok mesh ↦ elim (open_store w'.devices) [
          | err _ ↦ (ok tt, w')
          | panic ↦ (panic, w')
          | ok store ↦
              offer_message conn (build_snapshot agent.identity agent.label store mesh 0 env.now) w'
        ]
      ]

  unfoldable pub offer_kicks : Conn → DeviceId → List PendingKick → Action (Unit {0})
  unfolding offer_message announcement_of notice_of
  offer_kicks conn peer [] = pure tt
  offer_kicks conn peer (k ∷ ks) = do
    offer_message conn (announcement_of k)
    if k.target_id == peer && not k.delivered_to_target
        then offer_message conn (notice_of k)
        else pure tt
    offer_kicks conn peer ks

  unfoldable pub offer_pending : Conn → DeviceId → Action (Unit {0})
  unfolding offer_kicks
  offer_pending conn peer w = elim (open_kicks w.kicks) [
    | err _ ↦ (ok tt, w)
    | panic ↦ (panic, w)
    | ok pk ↦ offer_kicks conn peer (list_kicks pk) w
  ]

  -- `handle_session` up to its loop.
  unfoldable pub open_session : Conn → Action Session
  unfolding open_devices offer_roster offer_pending
  open_session conn = do
    store ← open_devices
    opened ← (λ w.
        let side : Local = record {
          identity = agent.identity;
          label = agent.label;
          offered = agent.offered;
        } in
        let (r, frames) = handshake_acceptor side store conn in
        (r, record w { sent = w.sent ++ map (λ f. (conn.peer, f)) frames }))
    offer_roster conn
    offer_pending conn opened.peer_id
    pure opened
