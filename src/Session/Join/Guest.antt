-- ===== src/Session/Join/Guest.antt =====
-- crates/mymesh-session/src/join.rs: `run_join_as_guest`. What `recv_frame` gives is a list of frames
-- and how it ends: an error, or a wait of 600 seconds.
use my_mesh.Base.{
  ℕ, Option, none, some, List, [], ◌∷◌, ◌++◌, nat_eq, text_eq, Error, protocol, permission_denied,
  other, Result, ok, err, Text, text,
}
use my_mesh.Base.Stateful.{Stateful, pure, raise, ◌>>=◌, ◌>>◌}
use my_mesh.Core.Identity.{Hex, DeviceId, id_eq, label_new}
use my_mesh.Core.Device.{Capability, DeviceRecord, upsert}
use my_mesh.Core.Join.{Chrono}
use my_mesh.Crypto.Identity.{Ed25519, Identity, device_id}
use my_mesh.Protocol.Frame.{Frame}
use my_mesh.Protocol.Messages.{
  join_pending, join_accept, join_deny, membership_snapshot, Membership,
}
use my_mesh.Session.Handshake.{Codec, send_control, Conn}
use my_mesh.Session.MeshSync.{verify_membership}
use my_mesh.Session.MeshSync.Apply.{Node, apply_membership}
use my_mesh.Session.Join.{request_of, verify_accept, joined_record}

-- How the frames end.
pub data Ending : Type 0 where
  failed : Error → Ending
  timed_out : Ending

-- What is returned when no frame comes any more.
unfoldable pub at_end : Ending → Option DeviceRecord → Result DeviceRecord
at_end ending (some r) = ok r
at_end (failed e) none = err e
at_end timed_out none = err (other (text "join timed out waiting for host"))

module _ ⦃hex : Hex⦄ ⦃chrono : Chrono⦄ ⦃ed : Ed25519⦄ ⦃codec : Codec⦄ (disk : Option ℕ) (now : ℕ)
    (uuid : Text) (me : Identity) where
  -- A `JoinAccept`: the host is stored, as a device that is trusted.
  unfoldable pub accepted : DeviceId → Text → List Capability → Text → Stateful Node DeviceRecord
  unfolding verify_accept joined_record
  accepted host host_label caps signature = do
    raise (verify_accept host host_label signature)
    label ← raise (label_new host_label)
    let r = joined_record now host label caps none
    (λ n. let (done, s) = upsert disk r n.store in (done, record n { store = s }))
    pure r

  unfoldable pub apply_roster : Membership → Stateful Node ℕ
  unfolding verify_membership
  apply_roster m = do
    raise (verify_membership m.from_id m.mesh_id m.ts m.members m.signature)
    apply_membership disk now uuid m.from_id m.mesh_id m.members (device_id me)

  -- The loop; the record is that of the host, once it has accepted.
  unfoldable pub await_host : Ending → Option DeviceRecord → List Frame → Stateful Node DeviceRecord
  unfolding at_end accepted apply_roster
  await_host ending host [] = raise (at_end ending host)
  await_host ending host (f ∷ fs) = do
    m ← raise (codec.decode f.payload)
    elim m [
      | join_pending host_id host_label message ↦ await_host ending host fs
      | join_accept host_id host_label caps signature ↦ do
        r ← accepted host_id host_label caps signature
        await_host ending (some r) fs
      | membership_snapshot nonce roster ↦ do
        apply_roster roster
        elim host [ none ↦ await_host ending none fs | some r ↦ pure r ]
      | join_deny reason ↦ raise (err (permission_denied reason))
      | m ↦ elim host [
        | none ↦ raise (err (protocol (text "unexpected join response: " ++ codec.debug m)))
        | some r ↦ pure r
      ]
    ]

  unfoldable pub run_join_as_guest :
      Conn → Text → List Capability → Ending → List Frame → Stateful Node DeviceRecord
  unfolding request_of send_control await_host
  run_join_as_guest conn label caps ending frames = do
    raise (send_control conn (request_of me label caps (chrono.to_unix now))).0
    await_host ending none frames
