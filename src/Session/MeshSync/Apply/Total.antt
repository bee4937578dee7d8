-- ===== src/Session/MeshSync/Apply/Total.antt =====
-- crates/mymesh-session/src/mesh_sync.rs: `apply_membership` returns.
use my_mesh.Base.{
  ℕ, zero, suc, ◌+◌, ◌≤◌, ◌≡◌, refl, inl, inr, none, List, [], ◌∷◌, arith, if◌then◌else◌,
  Bool-cases, length, All, ◌==◌, nat_eq, text_eq, Result, ok, missing, corrupt, holds, Text,
}
use my_mesh.Core.Identity.{Hex, DeviceId, id_eq, label_new}
use my_mesh.Core.Identity.Laws.{label_new_lem}
use my_mesh.Core.Device.{DeviceStore, is_trusted, upsert, flush}
use my_mesh.Core.Mesh.{MeshState, MeshFile, new_mesh, load_mesh, save_mesh}
use my_mesh.Core.Join.{Chrono}
use my_mesh.Protocol.Messages.{MeshMemberWire}
use my_mesh.Session.MeshSync.Apply.{
  Node, synced, upsert_counting, merge_labelled, merge_member, merge_members, tag_peer, finish,
  then_tag, then_merge, then_adopt, apply_membership,
}

-- A result that is a value.
abbrev Returns {ℓ} : {A : Type ℓ} → Result A → Type ℓ
Returns {A} r = (a : A) × (r ≡ ok a)

short_label : (s : Text) → length s ≤ 64 → label_new s ≡ ok (record { name = s })
short_label s h = ground (arith, label_new_lem s)

-- A file of the mesh that is absent or can be read.
abbrev pub IsReadable : MeshFile → Type 0
IsReadable missing = Unit
IsReadable (corrupt _) = ⊥
IsReadable (holds _) = Unit

module _ ⦃hex : Hex⦄ ⦃chrono : Chrono⦄ (now : ℕ) where
  merge_member-Returns :
      (mesh_id : Text) (self_id : DeviceId) (m : MeshMemberWire) (s : DeviceStore)
      → length m.label ≤ 64
      → Returns (merge_member none now mesh_id self_id m s).0
  unfolding merge_member merge_labelled upsert_counting upsert flush
  merge_member-Returns mesh_id self_id m s h = elim (Bool-cases (m.id == self_id)) [
    | inl e ↦ rw e (0, refl)
    | inr e ↦ rw (e, short_label m.label h) ((if is_trusted s m.id then 0 else 1), refl)
  ]

  merge_members-Returns :
      (mesh_id : Text) (self_id : DeviceId) (ms : List MeshMemberWire) (added : ℕ) (s : DeviceStore)
      → All (λ m. length m.label ≤ 64) ms
      → Returns (merge_members none now mesh_id self_id ms added s).0
  unfolding merge_members
  merge_members-Returns mesh_id self_id [] added s h = (added, refl)
  merge_members-Returns mesh_id self_id (m ∷ ms) added s h =
      let (n, e) = merge_member-Returns mesh_id self_id m s h.0 in
      let s' = (merge_member none now mesh_id self_id m s).1 in
      rw (e, merge_members) (merge_members-Returns mesh_id self_id ms (added + n) s' h.1)

  tag_peer_returns :
      (mesh_id : Text) (from_id : DeviceId) (s : DeviceStore)
      → (tag_peer none now mesh_id from_id s).0 ≡ ok tt
  unfolding tag_peer upsert flush
  tag_peer_returns mesh_id from_id s = ground arith

  finish-Returns : (n : ℕ) (mesh : MeshState) (w : Node) → Returns (finish none now n mesh w).0
  unfolding finish save_mesh
  finish-Returns zero mesh w = (0, refl)
  finish-Returns (suc n) mesh w = (suc n, refl)

  then_merge-Returns :
      (mesh : MeshState) (from_id : DeviceId) (ms : List MeshMemberWire) (self_id : DeviceId)
      (w : Node)
      → All (λ m. length m.label ≤ 64) ms
      → Returns (then_merge none now (ok tt) mesh from_id ms self_id w).0
  unfolding then_merge then_tag
  then_merge-Returns mesh from_id ms self_id w h =
      let (n, e) = merge_members-Returns mesh.mesh_id self_id ms 0 w.store h in
      let s = (merge_members none now mesh.mesh_id self_id ms 0 w.store).1 in
      let t = (tag_peer none now mesh.mesh_id from_id s).1 in
      rw (e, then_tag, tag_peer_returns mesh.mesh_id from_id s)
        (finish-Returns n mesh (record w { store = t }))

  by_file :
      (uuid : Text) (from_id : DeviceId) (mesh_id : Text) (members : List MeshMemberWire)
      (self_id : DeviceId) (w : Node) (file : MeshFile)
      → IsReadable file
      → All (λ m. length m.label ≤ 64) members
      → Returns
          (apply_membership none now uuid from_id mesh_id members self_id
            (record w { mesh = file })).0
  unfolding apply_membership load_mesh save_mesh then_adopt
  by_file uuid from_id mesh_id members self_id w missing r h =
      let m = synced none now mesh_id (new_mesh uuid now) in
      then_merge-Returns m from_id members self_id (record w { mesh = holds m }) h
  by_file uuid from_id mesh_id members self_id w (corrupt _) r h = elim r [ ]
  by_file uuid from_id mesh_id members self_id w (holds mesh) r h =
      let m = synced none now mesh_id mesh in
      then_merge-Returns m from_id members self_id (record w { mesh = holds m }) h

  -- Where the disk takes the writes, the mesh's file is absent or can be read, and no label told is
  -- longer than 64 bytes, `apply_membership` returns a count, whatever else the roster tells.
  pub apply_membership_returns :
      (uuid : Text) (from_id : DeviceId) (mesh_id : Text) (members : List MeshMemberWire)
      (self_id : DeviceId) (w : Node)
      → IsReadable w.mesh
      → All (λ m. length m.label ≤ 64) members
      → (n : ℕ) × ((apply_membership none now uuid from_id mesh_id members self_id w).0 ≡ ok n)
  apply_membership_returns uuid from_id mesh_id members self_id w r h =
      by_file uuid from_id mesh_id members self_id w w.mesh r h
