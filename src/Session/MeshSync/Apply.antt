-- ===== src/Session/MeshSync/Apply.antt =====
-- crates/mymesh-session/src/mesh_sync.rs: `apply_membership`, the merge of a roster into the store.
pub mod Merge
pub mod Kept
pub mod Whole
pub mod Total
use my_mesh.Base.{
  ℕ, zero, suc, ◌+◌, Option, none, some, List, [], ◌∷◌, arith, if◌then◌else◌, ◌==◌, nat_eq, text_eq,
  Result, ok, err, panic, ◌>>=◌, ◌>>◌, Text,
}
use my_mesh.Core.Identity.{Hex, DeviceId, id_eq, fingerprint, DeviceLabel, label_new}
use my_mesh.Core.Device.{
  Capability, all_caps, trusted, is_trusted_state, DeviceRecord, DeviceStore, get, is_trusted,
  upsert,
}
use my_mesh.Core.Mesh.{
  MeshState, MeshFile, load_mesh, save_mesh, adopt_mesh_id, bump_generation, mark_mesh_dirty,
}
use my_mesh.Core.Join.{Chrono}
use my_mesh.Protocol.Messages.{MeshMemberWire}

-- What the calls change: the store, the mesh's file, and the dirty marker next to it.
pub record Node : Type 0 where
  pub store : DeviceStore
  pub mesh : MeshFile
  pub dirty : Option ℕ

-- `m.capabilities`, or another list where the member tells none.
abbrev pub caps_or : List Capability → List Capability → List Capability
caps_or fallback [] = fallback
caps_or fallback (c ∷ cs) = c ∷ cs

-- A member that is trusted already is refreshed.
unfoldable pub refreshed : ℕ → Text → MeshMemberWire → DeviceLabel → DeviceRecord → DeviceRecord
refreshed now mesh_id m label r = record r {
  label = label;
  fingerprint = m.fingerprint;
  capabilities = caps_or r.capabilities m.capabilities;
  mesh_id = some mesh_id;
  last_seen = some now;
}

-- Any other is learned: the record of a device that was revoked or pending is replaced.
module _ ⦃chrono : Chrono⦄ where
  unfoldable pub learned : ℕ → Text → MeshMemberWire → DeviceLabel → DeviceRecord
  learned now mesh_id m label = record {
    id = m.id;
    label = label;
    fingerprint = m.fingerprint;
    capabilities = caps_or all_caps m.capabilities;
    trust = trusted;
    linked_at = elim (chrono.of_unix m.linked_at_unix) [ none ↦ now | some t ↦ t ];
    last_seen = some now;
    endpoint_hint = none;
    mesh_id = some mesh_id;
    aliases = [];
    groups = [];
  }

  -- What becomes of the record that is stored under the member's id.
  unfoldable pub merged :
      ℕ → Text → MeshMemberWire → DeviceLabel → Option DeviceRecord → DeviceRecord
  unfolding refreshed learned
  merged now mesh_id m label none = learned now mesh_id m label
  merged now mesh_id m label (some r) =
      if is_trusted_state r.trust
      then refreshed now mesh_id m label r
      else learned now mesh_id m label

module _ ⦃hex : Hex⦄ ⦃chrono : Chrono⦄ (disk : Option ℕ) (now : ℕ) where
  -- `upsert` and `?`: the count of members learned is the result.
  upsert_counting : ℕ → DeviceRecord → DeviceStore → Result ℕ × DeviceStore
  unfolding upsert
  upsert_counting n r s = let (done, s') = upsert disk r s in (done >> ok n, s')

  -- The body of the loop, for a label that may panic.
  merge_labelled : Text → MeshMemberWire → Result DeviceLabel → DeviceStore → Result ℕ × DeviceStore
  unfolding upsert_counting merged
  merge_labelled mesh_id m (ok label) s =
      upsert_counting (if is_trusted s m.id then 0 else 1) (merged now mesh_id m label (get s m.id))
        s
  merge_labelled mesh_id m (err e) s = (err e, s)
  merge_labelled mesh_id m panic s = (panic, s)

  unfoldable pub merge_member :
      Text → DeviceId → MeshMemberWire → DeviceStore → Result ℕ × DeviceStore
  unfolding merge_labelled
  merge_member mesh_id self_id m s =
      if m.id == self_id then (ok 0, s) else merge_labelled mesh_id m (label_new m.label) s

  -- The loop; it returns how many members were learned.
  unfoldable pub merge_members :
      Text → DeviceId → List MeshMemberWire → ℕ → DeviceStore → Result ℕ × DeviceStore
  merge_members mesh_id self_id [] added s = (ok added, s)
  merge_members mesh_id self_id (m ∷ ms) added s =
      let (r, s') = merge_member mesh_id self_id m s in
      elim r [
        | ok n ↦ merge_members mesh_id self_id ms (added + n) s'
        | err e ↦ (err e, s')
        | panic ↦ (panic, s')
      ]

  -- The peer's own record is tagged with the mesh.
  unfoldable pub tag_peer : Text → DeviceId → DeviceStore → Result (Unit {0}) × DeviceStore
  tag_peer mesh_id from_id s = elim (get s from_id) [
    | none ↦ (ok tt, s)
    | some r ↦ upsert disk (record r { mesh_id = some mesh_id }) s
  ]

  -- A roster that grew bumps the generation and touches the marker, whose own error is dropped.
  finish : ℕ → MeshState → Node → Result ℕ × Node
  unfolding save_mesh bump_generation mark_mesh_dirty
  finish zero mesh w = (ok 0, w)
  finish (suc n) mesh w =
      let (r, file) = save_mesh disk (bump_generation mesh) w.mesh in
      let w' = record w { mesh = file } in
      elim r [
        | ok _ ↦ (ok (suc n), record w' { dirty = (mark_mesh_dirty disk now w.dirty).1 })
        | err e ↦ (err e, w')
        | panic ↦ (panic, w')
      ]

  then_tag : Result ℕ → MeshState → DeviceId → Node → Result ℕ × Node
  unfolding tag_peer finish
  then_tag (ok added) mesh from_id w =
      let (r, s) = tag_peer mesh.mesh_id from_id w.store in
      let w' = record w { store = s } in
      elim r [ ok _ ↦ finish added mesh w' | err e ↦ (err e, w') | panic ↦ (panic, w') ]
  then_tag (err e) mesh from_id w = (err e, w)
  then_tag panic mesh from_id w = (panic, w)

  then_merge :
      Result (Unit {0})
      → MeshState
      → DeviceId
      → List MeshMemberWire
      → DeviceId
      → Node
      → Result ℕ × Node
  unfolding merge_members then_tag
  then_merge (ok _) mesh from_id members self_id w =
      let (r, s) = merge_members mesh.mesh_id self_id members 0 w.store in
      then_tag r mesh from_id (record w { store = s })
  then_merge (err e) mesh from_id members self_id w = (err e, w)
  then_merge panic mesh from_id members self_id w = (panic, w)

  -- The mesh as it is saved before the merge.
  abbrev pub synced : Text → MeshState → MeshState
  synced mesh_id mesh = record (adopt_mesh_id mesh_id mesh) { last_sync = some now }

  then_adopt :
      Result MeshState → Text → DeviceId → List MeshMemberWire → DeviceId → Node → Result ℕ × Node
  unfolding then_merge save_mesh adopt_mesh_id
  then_adopt (ok mesh) mesh_id from_id members self_id w =
      let m = synced mesh_id mesh in
      let (r, file) = save_mesh disk m w.mesh in
      then_merge r m from_id members self_id (record w { mesh = file })
  then_adopt (err e) mesh_id from_id members self_id w = (err e, w)
  then_adopt panic mesh_id from_id members self_id w = (panic, w)

  unfoldable pub apply_membership :
      Text → DeviceId → Text → List MeshMemberWire → DeviceId → Node → Result ℕ × Node
  unfolding then_adopt load_mesh
  apply_membership uuid from_id mesh_id members self_id w =
      let (r, file) = load_mesh disk uuid now w.mesh in
      then_adopt r mesh_id from_id members self_id (record w { mesh = file })
