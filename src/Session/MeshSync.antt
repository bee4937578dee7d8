-- ===== src/Session/MeshSync.antt =====
-- crates/mymesh-session/src/mesh_sync.rs: what is signed, the roster that a node tells, and the merge
-- of a roster that it is told. The writes of one call all succeed or all fail, as `disk` says; `uuid`
-- and `now` are the fresh identifier and the time that the call would be given.
pub mod Materials
pub mod Roster
pub mod Apply
pub mod Kicks
use my_mesh.Base.{
  ℕ, zero, suc, ◌+◌, ◌-◌, ◌/◌, ◌%◌, ◌^◌, Bool, not, ◌&&◌, List, [], ◌∷◌, ◌++◌, map, arith, keep_if,
  ◌==◌, nat_eq, text_eq, Result, ◌>>=◌, ◌>>◌, Text, text, text_lt, sort_by, ℤ, pos, negsuc,
}
use my_mesh.Core.Identity.{Hex, DeviceId, id_eq, to_string, fingerprint}
use my_mesh.Core.Device.{all_caps, is_trusted_state, DeviceRecord, DeviceStore, list}
use my_mesh.Core.Mesh.{MeshState}
use my_mesh.Core.Join.{Chrono}
use my_mesh.Crypto.Identity.{Ed25519, Identity, device_id, sign, verify}
use my_mesh.Protocol.Messages.{
  MeshMemberWire, Membership, ControlMessage, membership_snapshot, membership_announce,
}

-- `i64::to_le_bytes`: the bits of a negative number are those of its sum with 2^64.
unfoldable pub as_u64 : ℤ → ℕ
as_u64 (pos n) = n % 2 ^ 64
as_u64 (negsuc n) = 2 ^ 64 - 1 - n % 2 ^ 64

unfoldable pub le_bytes : ℕ → ℕ → Text
le_bytes zero n = []
le_bytes (suc k) n = n % 256 ∷ le_bytes k (n / 256)

abbrev pub le64 : ℤ → Text
le64 ts = le_bytes 8 (as_u64 ts)

unfoldable pub concat : List Text → Text
concat [] = []
concat (t ∷ ts) = t ++ concat ts

module _ ⦃hex : Hex⦄ where
  unfoldable pub membership_material : Text → DeviceId → ℤ → List MeshMemberWire → Text
  unfolding concat
  membership_material mesh_id from_id ts members =
      text "mymesh-membership-v1"
      ++ mesh_id
      ++ from_id.bytes
      ++ le64 ts
      ++ concat (sort_by text_lt (map (λ m. to_string m.id) members))

unfoldable pub kick_material : Text → DeviceId → DeviceId → ℤ → Text
kick_material mesh_id target by ts =
    text "mymesh-kick-v1" ++ mesh_id ++ target.bytes ++ by.bytes ++ le64 ts

unfoldable pub leave_ack_material : Text → DeviceId → DeviceId → ℤ → Text
leave_ack_material mesh_id target by ts =
    text "mymesh-kick-leave-v1" ++ mesh_id ++ target.bytes ++ by.bytes ++ le64 ts

module _ ⦃ed : Ed25519⦄ where
  unfoldable pub sign_kick : Identity → Text → DeviceId → ℤ → Text
  sign_kick i mesh_id target ts = sign i (kick_material mesh_id target (device_id i) ts)

  unfoldable pub verify_kick : Text → DeviceId → DeviceId → ℤ → Text → Result (Unit {0})
  verify_kick mesh_id target by ts signature =
      verify by.bytes (kick_material mesh_id target by ts) signature

  unfoldable pub sign_leave_ack : Identity → Text → DeviceId → ℤ → Text
  sign_leave_ack i mesh_id by ts = sign i (leave_ack_material mesh_id (device_id i) by ts)

  unfoldable pub verify_leave_ack : Text → DeviceId → DeviceId → ℤ → Text → Result (Unit {0})
  verify_leave_ack mesh_id target by ts signature =
      verify target.bytes (leave_ack_material mesh_id target by ts) signature

module _ ⦃hex : Hex⦄ ⦃ed : Ed25519⦄ where
  unfoldable pub sign_membership : Identity → Text → DeviceId → ℤ → List MeshMemberWire → Text
  sign_membership i mesh_id from_id ts members =
      sign i (membership_material mesh_id from_id ts members)

  unfoldable pub verify_membership :
      DeviceId → Text → ℤ → List MeshMemberWire → Text → Result (Unit {0})
  verify_membership from_id mesh_id ts members signature =
      verify from_id.bytes (membership_material mesh_id from_id ts members) signature

module _ ⦃hex : Hex⦄ ⦃chrono : Chrono⦄ where
  unfoldable pub own_member : DeviceId → Text → ℕ → MeshMemberWire
  own_member self_id self_label now = record {
    id = self_id;
    label = self_label;
    fingerprint = fingerprint self_id;
    capabilities = all_caps;
    linked_at_unix = chrono.to_unix now;
  }

  unfoldable pub wire_member : DeviceRecord → MeshMemberWire
  wire_member d = record {
    id = d.id;
    label = d.label.name;
    fingerprint = d.fingerprint;
    capabilities = d.capabilities;
    linked_at_unix = chrono.to_unix d.linked_at;
  }

  -- `continue` on a device that is not trusted, or is this one.
  unfoldable pub is_told : DeviceId → DeviceRecord → Bool
  is_told self_id d = is_trusted_state d.trust && not (d.id == self_id)

  unfoldable pub members_from_store : DeviceStore → DeviceId → Text → ℕ → List MeshMemberWire
  unfolding own_member wire_member is_told
  members_from_store store self_id self_label now =
      sort_by (λ a b. text_lt (to_string a.id) (to_string b.id))
        (own_member self_id self_label now
          ∷ map wire_member (keep_if (is_told self_id) (list store)))

  module _ ⦃ed : Ed25519⦄ where
    unfoldable pub build_membership : Identity → Text → DeviceStore → MeshState → ℕ → Membership
    build_membership i label store mesh now =
        let from_id = device_id i in
        let members = members_from_store store from_id label now in
        record {
          mesh_id = mesh.mesh_id;
          from_id = from_id;
          from_label = label;
          members = members;
          ts = chrono.to_unix now;
          signature = sign_membership i mesh.mesh_id from_id (chrono.to_unix now) members;
        }

    unfoldable pub build_snapshot :
        Identity → Text → DeviceStore → MeshState → ℕ → ℕ → ControlMessage
    build_snapshot i label store mesh nonce now =
        membership_snapshot nonce (build_membership i label store mesh now)

    unfoldable pub build_announce : Identity → Text → DeviceStore → MeshState → ℕ → ControlMessage
    build_announce i label store mesh now =
        membership_announce (build_membership i label store mesh now)
