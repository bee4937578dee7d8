-- ===== src/Session/MeshSync/Apply/Kept.antt =====
-- crates/mymesh-session/src/mesh_sync.rs: what a merge keeps of a device that is trusted.
use my_mesh.Base.{
  ℕ, ◌≡◌, inl, inr, Option, none, some, List, map, arith, if◌then◌else◌, Bool-cases, Option-cases,
  nat_eq, text_eq, Text,
}
use my_mesh.Core.Identity.{DeviceId, id_eq}
use my_mesh.Core.Device.{DeviceRecord, DeviceStore, get, is_trusted_state, trusted}
use my_mesh.Protocol.Messages.{MeshMemberWire}
use my_mesh.Session.MeshSync.Apply.Merge.{Grows}

abbrev ids : List MeshMemberWire → List DeviceId
ids = map (λ m. m.id)

-- What is kept of a trusted device.
abbrev pub trusted_part : Option DeviceRecord → Option (List Text × List Text × ℕ)
trusted_part none = none
trusted_part (some r) =
    if is_trusted_state r.trust then some (r.aliases, r.groups, r.linked_at) else none

-- The second says what the first says, if that says anything.
abbrev pub Extends {ℓ} : {A : Type ℓ} → Option A → Option A → Type ℓ
Extends none o = Unit
Extends (some a) o = o ≡ some a

still_there :
    (b : DeviceStore) (j : DeviceId) (r : DeviceRecord)
    → (q : DeviceRecord) × (get b j ≡ some q)
      × (q.trust ≡ trusted)
      × (q.aliases ≡ r.aliases)
      × (q.groups ≡ r.groups)
      × (q.linked_at ≡ r.linked_at)
    → trusted_part (get b j) ≡ some (r.aliases, r.groups, r.linked_at)
still_there b j r (q, e, t, a, g, l) = rw e (ground arith)

pub Grows-Extends :
    {self_id : DeviceId} {a b : DeviceStore} (j : DeviceId)
    → Grows self_id a b
    → Extends (trusted_part (get a j)) (trusted_part (get b j))
Grows-Extends {a} {b} j g = elim (Option-cases (get a j)) [
  | inl e ↦ rw e tt
  | inr (r, e) ↦ elim (Bool-cases (is_trusted_state r.trust)) [
    | inl t ↦ rw (e, t) (still_there b j r (g.kept j r e (ground arith)))
    | inr t ↦ rw (e, t) tt
  ]
]
