-- ===== src/Session/Join/Host.antt =====
-- crates/mymesh-session/src/join.rs: `handle_join_as_host`. The files are the state; between two looks
-- for a decision others may change the arm file and the requests, so each look brings its own. That
-- the directories of the requests can be made is taken for granted.
pub mod Guards
pub mod Accepting
use my_mesh.Base.{
  ℕ, ◌+◌, ◌-◌, true, false, not, ◌||◌, Option, none, some, List, [], ◌∷◌, ◌++◌, arith,
  if◌then◌else◌, ◌==◌, nat_eq, text_eq, protocol, ok, err, panic, JsonFile, Text, text, join, ℤ,
}
use my_mesh.Base.Stateful.{Stateful, pure, raise, ◌>>=◌, ◌>>◌, ignore}
use my_mesh.Core.Identity.{Hex, DeviceId, id_eq, short, fingerprint, label_new}
use my_mesh.Core.Device.{
  Capability, all_caps, DeviceRecord, DeviceStore, StoreFile, open_store, upsert,
}
use my_mesh.Core.Mesh.{MeshFile, MeshState, load_mesh}
use my_mesh.Core.Join.{
  Chrono, ArmState, is_effectively_armed, load_arm, disarm, PendingJoin, JoinDecision, accept, deny,
  JoinStore, write_pending, clear_pending, take_decision,
}
use my_mesh.Crypto.Identity.{Ed25519, Identity, device_id}
use my_mesh.Protocol.Frame.{Frame}
use my_mesh.Protocol.Messages.{ControlMessage, join_request, join_pending, join_deny}
use my_mesh.Session.Handshake.{Codec, Conn, control_frame}
use my_mesh.Session.MeshSync.{build_snapshot}
use my_mesh.Session.MeshSync.Apply.{caps_or}
use my_mesh.Session.Join.{accept_of, verify_request, is_out_of_range, joined_record}

pub record HostFiles : Type 0 where
  pub devices : JsonFile StoreFile
  pub arm : JsonFile ArmState
  pub joins : JoinStore
  pub mesh : MeshFile
  pub sent : List Frame

-- A look before the deadline: what it finds, and when.
pub record Look : Type 0 where
  pub arm : JsonFile ArmState
  pub joins : JoinStore
  pub now : ℕ

abbrev pub HostAction : Type 0 → Type 0
HostAction A = Stateful HostFiles A

module _ ⦃codec : Codec⦄ (conn : Conn) where
  hand : Text → HostAction (Unit {0})
  hand b w = (conn.send (control_frame b), record w { sent = w.sent ++ control_frame b ∷ [] })

  unfoldable pub say : ControlMessage → HostAction (Unit {0})
  unfolding hand
  say m = do b ← raise (codec.encode m); hand b

  -- `let _ = conn.send_frame(..)` of a refusal: only that it cannot be encoded is an error.
  unfoldable pub refuse : Text → HostAction (Unit {0})
  unfolding hand
  refuse reason = do b ← raise (codec.encode (join_deny reason)); ignore (hand b)

module _ ⦃hex : Hex⦄ where
  unfoldable pub take_here : DeviceId → HostAction (Option JoinDecision)
  take_here id w = let (r, s) = take_decision id w.joins in (r, record w { joins = s })

  unfoldable pub look : Look → HostAction ArmState
  look l w = (load_arm l.arm, record w { arm = l.arm; joins = l.joins })

  -- The looks are those before the deadline; after them the request is denied.
  unfoldable pub await_decision : DeviceId → List Look → HostAction JoinDecision
  unfolding take_here look
  await_decision id [] = pure (deny (text "approval timed out"))
  await_decision id (l ∷ ls) = do
    a ← look l
    d ← take_here id
    elim d [
      | some d ↦ pure d
      | none ↦ elim (is_effectively_armed l.now a) [
        | true ↦ await_decision id ls
        | false ↦ pure (deny (text "host disarmed before approval"))
      ]
    ]

module _ ⦃hex : Hex⦄ ⦃chrono : Chrono⦄ ⦃ed : Ed25519⦄ ⦃codec : Codec⦄ (disk : Option ℕ) (now : ℕ)
    (uuid : Text) (me : Identity) (my_label : Text) (conn : Conn) where
  load_here : HostAction MeshState
  load_here w = let (r, file) = load_mesh disk uuid now w.mesh in (r, record w { mesh = file })

  store_here : DeviceRecord → DeviceStore → HostAction DeviceStore
  unfolding upsert
  store_here r s w =
      let (done, s') = upsert disk r s in
      (elim done [ ok _ ↦ ok s' | err e ↦ err e | panic ↦ panic ], record w { devices = s'.file })

  disarm_here : HostAction (Unit {0})
  unfolding disarm
  disarm_here w =
      let (r, file) = disarm disk w.arm in
      (elim r [ ok _ ↦ ok tt | err e ↦ err e | panic ↦ panic ], record w { arm = file })

  -- The request is granted: the joiner is stored, and is told who the members are.
  unfoldable pub grant : DeviceId → Text → List Capability → HostAction (Unit {0})
  unfolding load_here store_here disarm_here say joined_record accept_of
  grant id label caps = do
    mesh ← load_here
    store ← (λ w. (open_store w.devices, w))
    l ← raise (label_new label)
    store ← store_here (joined_record now id l (caps_or all_caps caps) (some mesh.mesh_id)) store
    say conn (accept_of me my_label)
    say conn (build_snapshot me my_label store mesh 0 now)
    disarm_here

  unfoldable pub decline : DeviceId → Text → HostAction (Unit {0})
  unfolding say
  decline id reason = do
    (λ w. let (r, s) = clear_pending id w.joins in (r, record w { joins = s }))
    say conn (join_deny reason)

  unfoldable pub pending_of : DeviceId → Text → List Capability → PendingJoin
  pending_of id label caps = record {
    device_id = id;
    label = label;
    capabilities = caps;
    received_at = now;
    fingerprint = fingerprint id;
  }

  unfoldable pub settle : DeviceId → Text → List Capability → List Look → HostAction (Unit {0})
  unfolding await_decision grant decline
  settle id label caps looks = do
    d ← await_decision id looks
    elim d [ accept ↦ grant id label caps | deny reason ↦ decline id reason ]

  -- A request that is sound waits for a decision.
  unfoldable pub on_sound : DeviceId → Text → List Capability → List Look → HostAction (Unit {0})
  unfolding pending_of say settle
  on_sound id label caps looks = do
    (λ w.
        let (r, s) = write_pending disk (pending_of id label caps) w.joins in
        (r, record w { joins = s }))
    say conn (
        join_pending (device_id me) my_label
          (text "approve with: mymesh requests accept " ++ short id))
    settle id label caps looks

  unfoldable pub on_request :
      DeviceId → Text → Text → List Capability → ℤ → Text → List Look → HostAction (Unit {0})
  unfolding refuse on_sound verify_request
  on_request id label key caps ts signature looks =
      if not (id == conn.peer) || not (key == id.bytes)
      then refuse conn (text "device id mismatch")
      else elim (verify_request id label ts signature) [
        | err _ ↦ refuse conn (text "invalid signature")
        | panic ↦ raise panic
        | ok _ ↦
            if is_out_of_range (chrono.to_unix now) ts
            then refuse conn (text "join request timestamp out of range")
            else on_sound id label caps looks
      ]

  unfoldable pub on_message : ControlMessage → List Look → HostAction (Unit {0})
  unfolding on_request refuse
  on_message (join_request version id label key caps ts signature) looks =
      if version == 1
      then on_request id label key caps ts signature looks
      else raise (err (protocol (text "bad join version")))
  on_message _ looks = refuse conn (text "expected JoinRequest")

  unfoldable pub handle_join_as_host : List Look → HostAction (Unit {0})
  unfolding on_message refuse
  handle_join_as_host looks = do
    a ← (λ w. (load_arm w.arm, w))
    if is_effectively_armed now a
        then (do f ← raise conn.recv; m ← raise (codec.decode f.payload); on_message m looks)
        else refuse conn
            (text "host is not accepting connection requests (run: mymesh connect-request allow)")
