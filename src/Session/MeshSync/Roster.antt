-- ===== src/Session/MeshSync/Roster.antt =====
-- crates/mymesh-session/src/mesh_sync.rs: the roster that a node tells, and what becomes of it where
-- it is merged.
use my_mesh.Base.{
  ℕ, ◌≡◌, refl, sym, ap, ◌∙◌, subst, ◌≢◌, inl, inr, Bool, false, not, ◌&&◌, ◌||◌, Option, none,
  some, List, [], ◌∷◌, map, arith, Bool-cases, any, keep_if, All, ◌==◌, contains, nat_eq, text_eq,
  ok, Text, sort_by-All, any-sort_by,
}
use my_mesh.Base.Dict.{Dict, values, lookup}
use my_mesh.Core.Identity.{Hex, DeviceId, id_eq, IsId}
use my_mesh.Core.Device.{DeviceRecord, DeviceStore, get, is_trusted, is_trusted_state, list}
use my_mesh.Core.Device.Persist.{IsKeyed}
use my_mesh.Core.Mesh.{MeshState}
use my_mesh.Core.Join.{Chrono}
use my_mesh.Crypto.Identity.{Ed25519, Identity, device_id, verify-sign}
use my_mesh.Protocol.Messages.{MeshMemberWire}
use my_mesh.Session.MeshSync.{
  wire_member, is_told, members_from_store, build_membership, sign_membership, verify_membership,
}
use my_mesh.Session.MeshSync.Apply.{Node, apply_membership}
use my_mesh.Session.MeshSync.Apply.Whole.{apply_membership_store}

-- Whether a list of records has a trusted one of an id.
abbrev pub names_trusted : DeviceId → DeviceRecord → Bool
names_trusted j r = is_trusted_state r.trust && r.id == j

pub any-values :
    (j : DeviceId) (d : Dict DeviceId DeviceRecord)
    → IsKeyed d
    → any (names_trusted j) (values d)
      ≡ elim (lookup j d) [ none ↦ false | some r ↦ is_trusted_state r.trust ]
unfolding lookup
any-values j [] h = refl
any-values j ((k, r) ∷ d) (e, v, fresh, h) = ground (arith, any-values j d h)

pub any-list :
    (j : DeviceId) (s : DeviceStore)
    → IsKeyed s.devices
    → any (names_trusted j) (list s) ≡ is_trusted s j
unfolding list is_trusted get
any-list j s h = any-sort_by (names_trusted j) _ (values s.devices) ∙ any-values j s.devices h

values-IsId : (d : Dict DeviceId DeviceRecord) → IsKeyed d → All (λ r. IsId r.id) (values d)
values-IsId [] h = tt
values-IsId ((k, r) ∷ d) (e, v, fresh, h) = (subst IsId e v, values-IsId d h)

contains-ids :
    (j : DeviceId) (ms : List MeshMemberWire)
    → contains (map (λ m. m.id) ms) j ≡ any (λ m. m.id == j) ms
contains-ids j [] = refl
contains-ids j (m ∷ ms) = ap (λ b. m.id == j || b) (contains-ids j ms)

module _ ⦃hex : Hex⦄ ⦃chrono : Chrono⦄ (self_id : DeviceId) (label : Text) (now : ℕ) where
  contains-kept :
      (j : DeviceId) (ds : List DeviceRecord)
      → contains (map (λ m. m.id) (map wire_member (keep_if (is_told self_id) ds))) j
        ≡ (not (j == self_id) && any (names_trusted j) ds)
  unfolding wire_member is_told
  contains-kept j [] = ground arith
  contains-kept j (d ∷ ds) = ground (arith, contains-kept j ds)

  -- The roster of a node, whose store keeps each record once, under its id, names itself and the
  -- devices that it trusts, and no others.
  pub members_from_store_lem :
      (store : DeviceStore) (j : DeviceId)
      → IsKeyed store.devices
      → contains (map (λ m. m.id) (members_from_store store self_id label now)) j
        ≡ (self_id == j || is_trusted store j)
  unfolding members_from_store
  members_from_store_lem store j h =
      let own_or_trusted : (self_id == j
            || not (j == self_id) && any (names_trusted j) (list store))
          ≡ (self_id == j || is_trusted store j) =
        ground (arith, any-list j store h) in
      contains-ids j (members_from_store store self_id label now)
      ∙ any-sort_by (λ m. m.id == j) _ _
      ∙ ap (λ b. self_id == j || b) (sym (contains-ids j _) ∙ contains-kept j (list store))
      ∙ own_or_trusted

  kept_ids :
      (ds : List DeviceRecord)
      → All (λ r. IsId r.id) ds
      → All (λ m. IsId m.id) (map wire_member (keep_if (is_told self_id) ds))
  unfolding wire_member
  kept_ids [] h = tt
  kept_ids (d ∷ ds) h = elim (Bool-cases (is_told self_id d)) [
    | inl e ↦ rw e (h.0, kept_ids ds h.1)
    | inr e ↦ rw e (kept_ids ds h.1)
  ]

  member_ids :
      (store : DeviceStore)
      → IsId self_id
      → IsKeyed store.devices
      → All (λ m. IsId m.id) (members_from_store store self_id label now)
  unfolding members_from_store list
  member_ids store v h =
      sort_by-All (λ m. IsId m.id) _ _
        (v, kept_ids (list store) (sort_by-All (λ r. IsId r.id) _ _ (values-IsId store.devices h)))

-- A roster that a node builds verifies, as the receiver checks it, under the id that it names.
pub verify-build_membership :
    ⦃hex : Hex⦄ ⦃chrono : Chrono⦄ ⦃ed : Ed25519⦄ (i : Identity) (label : Text) (store : DeviceStore)
    (mesh : MeshState) (now : ℕ)
    → (let m = build_membership i label store mesh now in
        verify_membership m.from_id m.mesh_id m.ts m.members m.signature ≡ ok tt)
unfolding build_membership sign_membership verify_membership
verify-build_membership i label store mesh now = verify-sign i _

module _ ⦃hex : Hex⦄ ⦃chrono : Chrono⦄ ⦃ed : Ed25519⦄ (i : Identity) (label : Text)
    (store : DeviceStore) (mesh : MeshState) (told_at : ℕ) where
  -- A node that merges, without an error, the roster that another node built trusts afterwards
  -- the devices that it trusted, the teller, and the devices that the teller trusts, less itself.
  -- The teller is another node with a 32-byte id; both stores keep each record once, under its id.
  pub apply_membership-build_membership :
      (disk : Option ℕ) (now : ℕ) (self_id : DeviceId) (uuid : Text) (w w' : Node) (n : ℕ)
      (j : DeviceId)
      → IsId (device_id i)
      → IsKeyed store.devices
      → IsKeyed w.store.devices
      → device_id i ≢ self_id
      → (let m = build_membership i label store mesh told_at in
          apply_membership disk now uuid m.from_id m.mesh_id m.members self_id w ≡ (ok n, w'))
      → is_trusted w'.store j
        ≡ (is_trusted w.store j || (device_id i == j || is_trusted store j) && not (j == self_id))
  unfolding build_membership
  apply_membership-build_membership disk now self_id uuid w w' n j v keyed keyed' apart e =
      rw (← members_from_store_lem (device_id i) label told_at store j keyed)
        (apply_membership_store disk now self_id uuid (device_id i) mesh.mesh_id
          (members_from_store store (device_id i) label told_at) w w' n j
          (member_ids (device_id i) label told_at store v keyed) keyed' apart e).1
