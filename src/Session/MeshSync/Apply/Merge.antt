-- ===== src/Session/MeshSync/Apply/Merge.antt =====
-- crates/mymesh-session/src/mesh_sync.rs: what a merge of a roster does to the store.
use my_mesh.Base.{
  ℕ, ◌≡◌, refl, sym, ◌∙◌, subst, ◌≢◌, ◌⊎◌, inl, inr, true, Option, none, some, arith, if◌then◌else◌,
  Option-cases, ◌==◌, nat_eq, text_eq, Result, ok, err, panic, Text,
}
use my_mesh.Core.Identity.{Hex, DeviceId, DeviceId-discrete, id_eq, IsId, DeviceLabel, label_new}
use my_mesh.Core.Device.{trusted, DeviceRecord, DeviceStore, get, is_trusted, upsert}
use my_mesh.Core.Device.Persist.{IsKeyed, insert-IsKeyed, lookup-IsKeyed}
use my_mesh.Core.Device.Trust.{get-upsert, devices-flush}
use my_mesh.Core.Join.{Chrono}
use my_mesh.Protocol.Messages.{MeshMemberWire}
use my_mesh.Session.MeshSync.Apply.{
  refreshed, learned, merged, upsert_counting, merge_labelled, merge_member,
}

-- From one store to the next: the node's own record stays, and a trusted device stays trusted, with
-- its aliases, groups and the time of its link.
pub record Grows (self_id : DeviceId) (s s' : DeviceStore) : Type 0 where
  pub own : get s' self_id ≡ get s self_id
  pub kept :
      (j : DeviceId) (r : DeviceRecord)
      → get s j ≡ some r
      → r.trust ≡ trusted
      → (q : DeviceRecord) × (get s' j ≡ some q)
        × (q.trust ≡ trusted)
        × (q.aliases ≡ r.aliases)
        × (q.groups ≡ r.groups)
        × (q.linked_at ≡ r.linked_at)

pub Grows-refl : (self_id : DeviceId) (s : DeviceStore) → Grows self_id s s
Grows-refl self_id s = record { own = refl; kept = λ j r e t. (r, e, t, refl, refl, refl) }

pub Grows-trans :
    {self_id : DeviceId} {a b c : DeviceStore}
    → Grows self_id a b
    → Grows self_id b c
    → Grows self_id a c
Grows-trans f g = record {
  own = g.own ∙ f.own;
  kept = λ j r e t.
      let (q, eq, tq, al, gr, li) = f.kept j r e t in
      let (p, ep, tp, al', gr', li') = g.kept j q eq tq in
      (p, ep, tp, al' ∙ al, gr' ∙ gr, li' ∙ li);
}

trusted_there :
    (b : DeviceStore) (j : DeviceId) (r : DeviceRecord)
    → (q : DeviceRecord) × (get b j ≡ some q)
      × (q.trust ≡ trusted)
      × (q.aliases ≡ r.aliases)
      × (q.groups ≡ r.groups)
      × (q.linked_at ≡ r.linked_at)
    → is_trusted b j ≡ true
unfolding is_trusted
trusted_there b j r (q, e, t, _, _, _) = ground arith

pub Grows-trusted :
    {self_id : DeviceId} {a b : DeviceStore} (j : DeviceId)
    → Grows self_id a b
    → is_trusted a j ≡ true
    → is_trusted b j ≡ true
unfolding is_trusted
Grows-trusted {a} {b} j g h = elim (Option-cases (get a j)) [
  | inl e ↦ ground arith
  | inr (r, e) ↦ trusted_there b j r (g.kept j r e (ground arith))
]

upsert-IsKeyed :
    ⦃hex : Hex⦄ (disk : Option ℕ) (r : DeviceRecord) (s : DeviceStore)
    → IsId r.id
    → IsKeyed s.devices
    → IsKeyed (upsert disk r s).1.devices
unfolding upsert
upsert-IsKeyed disk r s v h = rw devices-flush (insert-IsKeyed r.id r s.devices refl v h)

module _ ⦃hex : Hex⦄ ⦃chrono : Chrono⦄ (disk : Option ℕ) (now : ℕ) (mesh_id : Text)
    (self_id : DeviceId) where
  merged-id :
      (m : MeshMemberWire) (label : DeviceLabel) (s : DeviceStore)
      → IsKeyed s.devices
      → (merged now mesh_id m label (get s m.id)).id ≡ m.id
  unfolding merged refreshed learned get
  merged-id m label s keyed = elim (Option-cases (get s m.id)) [
    | inl e ↦ rw (e, merged)
    | inr (r, e) ↦ rw (e, merged) (ground (arith, lookup-IsKeyed m.id s.devices r keyed e))
  ]

  merged_trusted :
      (m : MeshMemberWire) (label : DeviceLabel) (r : DeviceRecord)
      → r.trust ≡ trusted
      → merged now mesh_id m label (some r) ≡ refreshed now mesh_id m label r
  unfolding merged
  merged_trusted m label r t = ground arith

  refreshed_keeps :
      (m : MeshMemberWire) (label : DeviceLabel) (r : DeviceRecord)
      → let q = refreshed now mesh_id m label r in
        (q.trust ≡ r.trust)
        × (q.aliases ≡ r.aliases)
        × (q.groups ≡ r.groups)
        × (q.linked_at ≡ r.linked_at)
  unfolding refreshed
  refreshed_keeps m label r = (refl, refl, refl, refl)

  merged-trust :
      (m : MeshMemberWire) (label : DeviceLabel) (o : Option DeviceRecord)
      → (merged now mesh_id m label o).trust ≡ trusted
  unfolding merged refreshed learned
  merged-trust m label none = refl
  merged-trust m label (some r) = ground arith

  labelled_step :
      (m : MeshMemberWire) (r : Result DeviceLabel) (s s' : DeviceStore) (n : ℕ)
      → merge_labelled disk now mesh_id m r s ≡ (ok n, s')
      → (label : DeviceLabel) × (r ≡ ok label)
        × (s' ≡ (upsert disk (merged now mesh_id m label (get s m.id)) s).1)
  unfolding merge_labelled upsert_counting
  labelled_step m (ok label) s s' n e = (label, refl, ground arith)
  labelled_step m (err x) s s' n e = ground arith
  labelled_step m panic s s' n e = ground arith

  -- One member that is merged without an error or a panic.
  pub merge_member_lem :
      (m : MeshMemberWire) (s s' : DeviceStore) (n : ℕ)
      → merge_member disk now mesh_id self_id m s ≡ (ok n, s')
      → ((m.id ≡ self_id) × (s' ≡ s))
        ⊎ ((m.id ≢ self_id)
            × ((label : DeviceLabel) × (label_new m.label ≡ ok label)
                × (s' ≡ (upsert disk (merged now mesh_id m label (get s m.id)) s).1)))
  unfolding merge_member
  merge_member_lem m s s' n e = elim (DeviceId-discrete m.id self_id) [
    | yes own ↦ inl (own, ground arith)
    | no there ↦ inr (there, labelled_step m (label_new m.label) s s' n (ground arith))
  ]

  module _ (m : MeshMemberWire) (label : DeviceLabel) (s : DeviceStore)
      (keyed : IsKeyed s.devices) where
    abbrev pub after : DeviceStore
    after = (upsert disk (merged now mesh_id m label (get s m.id)) s).1

    pub get-after :
        (j : DeviceId)
        → get after j
          ≡ (if m.id == j then some (merged now mesh_id m label (get s m.id)) else get s j)
    get-after j =
        let r = merged now mesh_id m label (get s m.id) in
        subst (λ (k : DeviceId). get after j ≡ (if k == j then some r else get s j))
          (merged-id m label s keyed) (get-upsert disk r s j)

    pub after-IsKeyed : IsId m.id → IsKeyed after.devices
    after-IsKeyed v =
        upsert-IsKeyed disk (merged now mesh_id m label (get s m.id)) s
          (subst IsId (sym (merged-id m label s keyed)) v) keyed

    pub after-Grows : m.id ≢ self_id → Grows self_id s after
    after-Grows there = record {
      own = ground (arith, get-after self_id);
      kept = λ j r e t. elim (DeviceId-discrete m.id j) [
        | yes same ↦ (
          refreshed now mesh_id m label r,
          get-after j
              ∙ ground (
                arith,
                merged_trusted m label r t,
                subst (λ (k : DeviceId). get s k ≡ some r) (sym same) e,
              ),
          (refreshed_keeps m label r).0 ∙ t,
          (refreshed_keeps m label r).1,
          (refreshed_keeps m label r).2,
          (refreshed_keeps m label r).3,
        )
        | no apart ↦ (r, ground (arith, get-after j), t, refl, refl, refl)
      ];
    }

    pub after_trusted : is_trusted after m.id ≡ true
    unfolding is_trusted
    after_trusted =
        let r = merged now mesh_id m label (get s m.id) in
        ground (arith, get-after m.id, merged-trust m label (get s m.id))
