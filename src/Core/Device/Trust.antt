-- ===== src/Core/Device/Trust.antt =====
-- crates/mymesh-core/src/device.rs: who is trusted, and what a trusted peer may do.
use my_mesh.Base.{
  ℕ, ◌≡◌, refl, ◌≢◌, ◌↔◌, inl, inr, Bool, true, false, ◌&&◌, Option, none, some, arith,
  if◌then◌else◌, Option-cases, ◌==◌, contains, nat_eq, text_eq, not_found, err, Text,
}
use my_mesh.Base.Dict.{lookup, lookup-insert, lookup-remove}
use my_mesh.Core.Identity.{Hex, DeviceId, id_eq, to_string}
use my_mesh.Core.Device.{
  Capability, trusted, revoked, is_trusted_state, DeviceRecord, DeviceStore, get, is_trusted,
  allows, flush, upsert, revoke, remove_device, cap_eq,
}

-- What a record by itself grants.
unfoldable pub grants : DeviceRecord → Capability → Bool
grants r cap = is_trusted_state r.trust && contains r.capabilities cap

-- A peer may use a capability exactly when it is stored, trusted, and lists the capability.
pub allows_iff :
    (s : DeviceStore) (id : DeviceId) (cap : Capability)
    → (allows s id cap ≡ true) ↔ (
        (r : DeviceRecord) × (get s id ≡ some r)
        × (r.trust ≡ trusted)
        × (contains r.capabilities cap ≡ true))
unfolding allows
allows_iff s id cap = elim (Option-cases (get s id)) [
  | inl e ↦ (λ h. ground arith, λ (r, f, t, c). ground arith)
  | inr (q, e) ↦ (λ h. (q, e, ground arith, ground arith), λ (r, f, t, c). ground arith)
]

module _ ⦃hex : Hex⦄ (disk : Option ℕ) (s : DeviceStore) where
  -- A write changes nothing in memory, and fails only as the operating system does.
  pub devices-flush : (flush disk s).1.devices ≡ s.devices
  unfolding flush
  devices-flush = ground arith

  flush-ne-not_found : (m : Text) → (flush disk s).0 ≢ err (not_found m)
  unfolding flush
  flush-ne-not_found m h = ground arith

-- A record after `revoke`.
abbrev pub marked_revoked : Option DeviceRecord → Option DeviceRecord
marked_revoked none = none
marked_revoked (some r) = some (record r { trust = revoked })

module _ ⦃hex : Hex⦄ (disk : Option ℕ) (id : DeviceId) (s : DeviceStore) where
  pub get-revoke :
      (j : DeviceId)
      → get (revoke disk id s).1 j ≡ (if id == j then marked_revoked (get s id) else get s j)
  unfolding revoke get
  get-revoke j = elim (Option-cases (lookup id s.devices)) [
    | inl e ↦ rw (e, revoke) (ground arith)
    | inr (r, e) ↦
        let r' : DeviceRecord = record r { trust = revoked } in
        rw (e, revoke, devices-flush) (lookup-insert j id r' s.devices)
  ]

  -- After `revoke`, whether its write succeeds or not, the device is not trusted and may use
  -- nothing, and every other device has the record that it had.
  pub revoke_lem :
      (j : DeviceId) (cap : Capability)
      → (is_trusted (revoke disk id s).1 id ≡ false)
        × (allows (revoke disk id s).1 id cap ≡ false)
        × (get (revoke disk id s).1 j ≡ (if id == j then marked_revoked (get s id) else get s j))
  unfolding is_trusted allows
  revoke_lem j cap = (ground (arith, get-revoke id), ground (arith, get-revoke id), get-revoke j)

  -- After `remove` the device has no record, and every other has the one that it had; the call
  -- fails with NotFound exactly when there was none.
  pub remove_device_lem :
      (j : DeviceId)
      → (get (remove_device disk id s).1 j ≡ (if id == j then none else get s j))
        × (((remove_device disk id s).0 ≡ err (not_found (to_string id))) ↔ (get s id ≡ none))
  unfolding remove_device get
  remove_device_lem j = elim (Option-cases (lookup id s.devices)) [
    | inl e ↦ rw (e, remove_device) (ground arith, (λ _. refl, λ _. refl))
    | inr (r, e) ↦
        rw (e, remove_device, devices-flush)
          (
            lookup-remove j id s.devices,
            (λ h. absurd (flush-ne-not_found disk _ (to_string id) h), λ h. cc),
          )
  ]

module _ ⦃hex : Hex⦄ (disk : Option ℕ) (r : DeviceRecord) (s : DeviceStore) where
  pub get-upsert :
      (j : DeviceId) → get (upsert disk r s).1 j ≡ (if r.id == j then some r else get s j)
  unfolding upsert get
  get-upsert j = rw devices-flush (lookup-insert j r.id r s.devices)

  -- After `upsert` the record alone says what its device may do; others keep what they may.
  pub allows-upsert :
      (j : DeviceId) (cap : Capability)
      → allows (upsert disk r s).1 j cap ≡ (if r.id == j then grants r cap else allows s j cap)
  unfolding allows grants
  allows-upsert j cap = ground (arith, get-upsert j)
