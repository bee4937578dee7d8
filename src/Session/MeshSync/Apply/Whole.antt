-- ===== src/Session/MeshSync/Apply/Whole.antt =====
-- crates/mymesh-session/src/mesh_sync.rs: what `apply_membership` leaves, when it returns a count.
use my_mesh.Base.{
  ℕ, zero, suc, ◌+◌, ◌≡◌, refl, sym, ap, ◌∙◌, subst, ◌≢◌, ◌⊎◌, inl, inr, true, false, not, ◌&&◌,
  ◌||◌, Option, none, some, List, [], ◌∷◌, map, arith, if◌then◌else◌, Bool-cases, Option-cases, All,
  ◌==◌, contains, nat_eq, text_eq, Result, ok, err, panic, Text,
}
use my_mesh.Core.Identity.{Hex, DeviceId, id_eq, IsId}
use my_mesh.Core.Device.{DeviceStore, get, is_trusted}
use my_mesh.Core.Device.Persist.{IsKeyed, lookup-IsKeyed}
use my_mesh.Core.Device.Trust.{get-upsert}
use my_mesh.Core.Mesh.{MeshState, load_mesh, save_mesh}
use my_mesh.Core.Join.{Chrono}
use my_mesh.Protocol.Messages.{MeshMemberWire}
use my_mesh.Session.MeshSync.Apply.{
  Node, merge_member, merge_members, tag_peer, finish, then_tag, then_merge, then_adopt, synced,
  apply_membership,
}
use my_mesh.Session.MeshSync.Apply.Kept.{trusted_part, Extends, Grows-Extends}
use my_mesh.Session.MeshSync.Apply.Merge.{
  Grows, Grows-refl, Grows-trans, Grows-trusted, merge_member_lem, get-after, after-IsKeyed,
  after-Grows, after_trusted,
}

abbrev ids : List MeshMemberWire → List DeviceId
ids = map (λ m. m.id)

module _ ⦃hex : Hex⦄ ⦃chrono : Chrono⦄ (disk : Option ℕ) (now : ℕ) (self_id : DeviceId) where
  -- What one member, or several, leave of the store `s`.
  record Merged (members : List MeshMemberWire) (s s' : DeviceStore) : Type 0 where
    keyed : IsKeyed s'.devices
    grows : Grows self_id s s'
    members_trusted : All (λ m. (m.id ≡ self_id) ⊎ (is_trusted s' m.id ≡ true)) members
    others : (j : DeviceId) → contains (ids members) j ≡ false → get s' j ≡ get s j

  merge_member-Merged :
      (mesh_id : Text) (m : MeshMemberWire) (s s' : DeviceStore) (n : ℕ)
      → IsId m.id
      → IsKeyed s.devices
      → merge_member disk now mesh_id self_id m s ≡ (ok n, s')
      → Merged (m ∷ []) s s'
  merge_member-Merged mesh_id m s s' n v keyed e =
      elim (merge_member_lem disk now mesh_id self_id m s s' n e) [
        | inl (own, same) ↦ rw same (record {
          keyed = keyed;
          grows = Grows-refl self_id s;
          members_trusted = (inl own, tt);
          others = λ j h. refl;
        })
        | inr (there, (label, _, same)) ↦ rw same (record {
          keyed = after-IsKeyed disk now mesh_id self_id m label s keyed v;
          grows = after-Grows disk now mesh_id self_id m label s keyed there;
          members_trusted = (inr (after_trusted disk now mesh_id self_id m label s keyed), tt);
          others = λ j h. ground (arith, get-after disk now mesh_id self_id m label s keyed j);
        })
      ]

  both :
      (m : MeshMemberWire) (ms : List MeshMemberWire) (s s1 s' : DeviceStore)
      → Merged (m ∷ []) s s1
      → Merged ms s1 s'
      → Merged (m ∷ ms) s s'
  both m ms s s1 s' f g = record {
    keyed = g.keyed;
    grows = Grows-trans f.grows g.grows;
    members_trusted =
        (ground (arith, f.members_trusted, Grows-trusted m.id g.grows), g.members_trusted);
    others = λ j h. ground (arith, f.others j, g.others j);
  }

  split_step :
      (mesh_id : Text) (ms : List MeshMemberWire) (added : ℕ) (r : Result ℕ) (s1 s' : DeviceStore)
      (n : ℕ)
      → (elim r [
        | ok k ↦ merge_members disk now mesh_id self_id ms (added + k) s1
        | err e ↦ (err e, s1)
        | panic ↦ (panic, s1)
      ])
        ≡ (ok n, s')
      → (k : ℕ) × (r ≡ ok k)
        × (merge_members disk now mesh_id self_id ms (added + k) s1 ≡ (ok n, s'))
  split_step mesh_id ms added (ok k) s1 s' n e = (k, refl, e)
  split_step mesh_id ms added (err x) s1 s' n e = ground arith
  split_step mesh_id ms added panic s1 s' n e = ground arith

  merge_members-Merged :
      (mesh_id : Text) (ms : List MeshMemberWire) (added : ℕ) (s s' : DeviceStore) (n : ℕ)
      → All (λ m. IsId m.id) ms
      → IsKeyed s.devices
      → merge_members disk now mesh_id self_id ms added s ≡ (ok n, s')
      → Merged ms s s'
  unfolding merge_members
  merge_members-Merged mesh_id [] added s s' n v keyed e =
      let same : s ≡ s' = ground arith in
      rw (← same) (record {
        keyed = keyed;
        grows = Grows-refl self_id s;
        members_trusted = tt;
        others = λ j h. refl;
      })
  merge_members-Merged mesh_id (m ∷ ms) added s s' n v keyed e =
      let first = merge_member disk now mesh_id self_id m s in
      let (k, ek, em) = split_step mesh_id ms added first.0 first.1 s' n e in
      let step =
        merge_member-Merged mesh_id m s first.1 k v.0 keyed
          (ap (λ (r : Result ℕ). (r, first.1)) ek) in
      both m ms s first.1 s' step
        (merge_members-Merged mesh_id ms (added + k) first.1 s' n v.1 step.keyed em)

  -- What the calls before `finish` do is done when a count comes back.
  then_tag_ok :
      (r : Result ℕ) (mesh : MeshState) (from_id : DeviceId) (w w' : Node) (n : ℕ)
      → then_tag disk now r mesh from_id w ≡ (ok n, w')
      → (r ≡ ok n) × (w'.store ≡ (tag_peer disk now mesh.mesh_id from_id w.store).1)
  unfolding then_tag finish
  then_tag_ok (ok zero) mesh from_id w w' n e = ground arith
  then_tag_ok (ok (suc k)) mesh from_id w w' n e = ground arith
  then_tag_ok (err x) mesh from_id w w' n e = ground arith
  then_tag_ok panic mesh from_id w w' n e = ground arith

  then_merge_ok :
      (r : Result (Unit {0})) (mesh : MeshState) (from_id : DeviceId)
      (members : List MeshMemberWire) (w w' : Node) (n : ℕ)
      → then_merge disk now r mesh from_id members self_id w ≡ (ok n, w')
      → (s : DeviceStore) × (merge_members disk now mesh.mesh_id self_id members 0 w.store
          ≡ (ok n, s))
        × (w'.store ≡ (tag_peer disk now mesh.mesh_id from_id s).1)
  unfolding then_merge
  then_merge_ok (ok u) mesh from_id members w w' n e =
      let merge = merge_members disk now mesh.mesh_id self_id members 0 w.store in
      let (counted, stored) =
        then_tag_ok merge.0 mesh from_id (record w { store = merge.1 }) w' n e in
      (merge.1, ap (λ (r : Result ℕ). (r, merge.1)) counted, stored)
  then_merge_ok (err x) mesh from_id members w w' n e = ground arith
  then_merge_ok panic mesh from_id members w w' n e = ground arith

  then_adopt_ok :
      (r : Result MeshState) (mesh_id : Text) (from_id : DeviceId) (members : List MeshMemberWire)
      (w w' : Node) (n : ℕ)
      → then_adopt disk now r mesh_id from_id members self_id w ≡ (ok n, w')
      → (id : Text) × (s : DeviceStore) × (merge_members disk now id self_id members 0 w.store
          ≡ (ok n, s))
        × (w'.store ≡ (tag_peer disk now id from_id s).1)
  unfolding then_adopt
  then_adopt_ok (ok mesh) mesh_id from_id members w w' n e =
      let m = synced disk now mesh_id mesh in
      let (saved, file) = save_mesh disk m w.mesh in
      let (s, merge, stored) =
        then_merge_ok saved m from_id members (record w { mesh = file }) w' n e in
      (m.mesh_id, s, merge, stored)
  then_adopt_ok (err x) mesh_id from_id members w w' n e = ground arith
  then_adopt_ok panic mesh_id from_id members w w' n e = ground arith

  tag_peer_lem :
      (mesh_id : Text) (from_id : DeviceId) (s : DeviceStore) (j : DeviceId)
      → IsKeyed s.devices
      → get (tag_peer disk now mesh_id from_id s).1 j ≡ (
          if from_id == j
          then (elim (get s j) [
            | none ↦ none
            | some r ↦ some (record r { mesh_id = some mesh_id })
          ])
          else get s j)
  unfolding tag_peer
  tag_peer_lem mesh_id from_id s j keyed = elim (Option-cases (get s from_id)) [
    | inl e ↦ rw (e, tag_peer) (ground arith)
    | inr (r, e) ↦
        rw (e, tag_peer)
          (ground (
            arith,
            get-upsert disk (record r { mesh_id = some mesh_id }) s j,
            lookup-IsKeyed from_id s.devices r keyed (unfold get in e),
          ))
  ]

  tag_is_trusted :
      (mesh_id : Text) (from_id : DeviceId) (s : DeviceStore) (j : DeviceId)
      → IsKeyed s.devices
      → is_trusted (tag_peer disk now mesh_id from_id s).1 j ≡ is_trusted s j
  unfolding is_trusted
  tag_is_trusted mesh_id from_id s j keyed = ground (arith, tag_peer_lem mesh_id from_id s j keyed)

  tag_trusted_part :
      (mesh_id : Text) (from_id : DeviceId) (s : DeviceStore) (j : DeviceId)
      → IsKeyed s.devices
      → trusted_part (get (tag_peer disk now mesh_id from_id s).1 j) ≡ trusted_part (get s j)
  tag_trusted_part mesh_id from_id s j keyed =
      ground (arith, tag_peer_lem mesh_id from_id s j keyed)

  told :
      (members : List MeshMemberWire) (s' : DeviceStore) (j : DeviceId)
      → All (λ m. (m.id ≡ self_id) ⊎ (is_trusted s' m.id ≡ true)) members
      → contains (ids members) j ≡ true
      → (j ≡ self_id) ⊎ (is_trusted s' j ≡ true)
  told [] s' j h c = cc
  told (m ∷ ms) s' j h c = ground (arith, told ms s' j h.1, h.0)

  -- Who is trusted once the members are merged.
  Merged-is_trusted :
      (members : List MeshMemberWire) (s s' : DeviceStore) (j : DeviceId)
      → Merged members s s'
      → is_trusted s' j ≡ (is_trusted s j || contains (ids members) j && not (j == self_id))
  unfolding is_trusted
  Merged-is_trusted members s s' j m = elim (Bool-cases (contains (ids members) j)) [
    | inl c ↦ ground (arith, told members s' j m.members_trusted c, m.grows.own)
    | inr c ↦ ground (arith, m.others j c)
  ]

  -- A roster that is merged without an error changes the store so: this node's own record stays; a
  -- device is trusted afterwards exactly if it was before or is told of and is not this node, also
  -- if it was revoked; and a device that was trusted keeps its aliases, its groups and the time of
  -- its link. The ids told are 32 bytes, the store keeps each record once, under its id, and the
  -- teller is not this node.
  pub apply_membership_store :
      (uuid : Text) (from_id : DeviceId) (mesh_id : Text) (members : List MeshMemberWire)
      (w w' : Node) (n : ℕ) (j : DeviceId)
      → All (λ m. IsId m.id) members
      → IsKeyed w.store.devices
      → from_id ≢ self_id
      → apply_membership disk now uuid from_id mesh_id members self_id w ≡ (ok n, w')
      → (get w'.store self_id ≡ get w.store self_id)
        × (is_trusted w'.store j
            ≡ (is_trusted w.store j || contains (ids members) j && not (j == self_id)))
        × Extends (trusted_part (get w.store j)) (trusted_part (get w'.store j))
  unfolding apply_membership
  apply_membership_store uuid from_id mesh_id members w w' n j v keyed apart e =
      let (mesh, file) = load_mesh disk uuid now w.mesh in
      let (id, s, merge, stored) =
        then_adopt_ok mesh mesh_id from_id members (record w { mesh = file }) w' n e in
      let m = merge_members-Merged id members 0 w.store s n v keyed merge in
      rw stored (
        ground (arith, tag_peer_lem id from_id s self_id m.keyed, m.grows.own),
        tag_is_trusted id from_id s j m.keyed ∙ Merged-is_trusted members w.store s j m,
        subst (Extends (trusted_part (get w.store j)))
            (sym (tag_trusted_part id from_id s j m.keyed)) (Grows-Extends j m.grows),
      )
