-- ===== src/Session/Join.antt =====
-- crates/mymesh-session/src/join.rs: what a joiner and a host sign and make of each other.
pub mod Guest
pub mod Host
pub mod Laws
use my_mesh.Base.{
  ℕ, ◌+◌, ◌-◌, Bool, false, Option, none, some, List, [], ◌++◌, arith, ltb, if◌then◌else◌, ◌==◌,
  nat_eq, text_eq, Result, Text, text, ℤ, distance,
}
use my_mesh.Core.Identity.{Hex, DeviceId, id_eq, fingerprint, DeviceLabel}
use my_mesh.Core.Device.{Capability, DeviceRecord, trusted, all_caps}
use my_mesh.Crypto.Identity.{Ed25519, Identity, device_id, sign, verify}
use my_mesh.Protocol.Messages.{ControlMessage, join_request, join_accept}
use my_mesh.Session.MeshSync.{le64}

unfoldable pub sign_material : DeviceId → Text → ℤ → Text
sign_material id label ts = id.bytes ++ label ++ le64 ts ++ text "mymesh-join-v1"

unfoldable pub accept_material : DeviceId → Text → Text
accept_material host label = host.bytes ++ label ++ text "mymesh-join-accept-v1"

-- `(now - ts).abs() > 3600` in `i64` as a release build computes it: a difference that does not fit
-- is taken modulo 2^64, and the smallest number is its own absolute value.
unfoldable pub is_out_of_range : ℤ → ℤ → Bool
is_out_of_range now ts =
    let d = distance now ts in
    if ltb d 9223372036854775808
    then ltb 3600 d
    else if d == 9223372036854775808
    then false
    else ltb 3600 (18446744073709551616 - d)

module _ ⦃ed : Ed25519⦄ where
  -- What a joiner asks.
  unfoldable pub request_of : Identity → Text → List Capability → ℤ → ControlMessage
  unfolding sign_material
  request_of i label caps ts =
      let id = device_id i in
      join_request 1 id label id.bytes caps ts (sign i (sign_material id label ts))

  -- What a host that accepts tells.
  unfoldable pub accept_of : Identity → Text → ControlMessage
  unfolding accept_material
  accept_of i label =
      let id = device_id i in join_accept id label all_caps (sign i (accept_material id label))

  unfoldable pub verify_request : DeviceId → Text → ℤ → Text → Result (Unit {0})
  unfolding sign_material
  verify_request id label ts signature = verify id.bytes (sign_material id label ts) signature

  unfoldable pub verify_accept : DeviceId → Text → Text → Result (Unit {0})
  unfolding accept_material
  verify_accept host label signature = verify host.bytes (accept_material host label) signature

module _ ⦃hex : Hex⦄ where
  -- The record that either side makes of the other.
  unfoldable pub joined_record :
      ℕ → DeviceId → DeviceLabel → List Capability → Option Text → DeviceRecord
  joined_record now id label caps mesh_id = record {
    id = id;
    label = label;
    fingerprint = fingerprint id;
    capabilities = caps;
    trust = trusted;
    linked_at = now;
    last_seen = some now;
    endpoint_hint = none;
    mesh_id = mesh_id;
    aliases = [];
    groups = [];
  }
