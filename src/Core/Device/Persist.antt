-- ===== src/Core/Device/Persist.antt =====
-- crates/mymesh-core/src/device.rs: what a store writes is what the next `open` reads.
use my_mesh.Base.{
  ◌≡◌, refl, sym, ap, ◌∙◌, subst, ◌≢◌, inl, inr, none, some, List, [], ◌∷◌, ◌++◌, map, append_assoc,
  append-nil, arith, Option-cases, All, Eq, nat_eq, text_eq, ok,
}
use my_mesh.Base.Dict.{Dict, values, lookup, insert, remove, lookup-insert, lookup-remove}
use my_mesh.Core.Identity.{Hex, DeviceId, id_eq, IsId, to_string}
use my_mesh.Core.Identity.Laws.{to_string-injective}
use my_mesh.Core.Device.{
  DeviceRecord, DeviceStore, collect, collect_into, open_store, file_of, flush, upsert, revoke,
  remove_device, revoked,
}

-- No two values of the list have one key.
abbrev Distinct {ℓ κ} : {K : Type ℓ} {V : Type κ} → (V → K) → List V → Type (ℓ ⊔ κ)
Distinct key [] = Unit
Distinct key (v ∷ vs) = All (λ w. key w ≢ key v) vs × Distinct key vs

module _ {ℓ κ} {K : Type ℓ} {V : Type κ} ⦃e : Eq K⦄ (key : V → K) where
  lookup-append-none :
      (k : K) (d : Dict K V) (j : K) (v : V)
      → lookup k d ≡ none
      → k ≢ j
      → lookup k (d ++ (j, v) ∷ []) ≡ none
  unfolding lookup
  lookup-append-none k [] j v h n = ground arith
  lookup-append-none k ((i, w) ∷ d) j v h n = ground (arith, lookup-append-none k d j v)

  insert-append :
      (k : K) (v : V) (d : Dict K V) → lookup k d ≡ none → insert k v d ≡ d ++ (k, v) ∷ []
  unfolding lookup insert
  insert-append k v [] h = refl
  insert-append k v ((j, w) ∷ d) h = ground (arith, insert-append k v d)

  -- Where the keys are distinct, each value is kept under its own key, in order.
  collect_into-append :
      (vs : List V) (d : Dict K V)
      → Distinct key vs
      → All (λ v. lookup (key v) d ≡ none) vs
      → collect_into key vs d ≡ d ++ map (λ v. (key v, v)) vs
  unfolding collect_into
  collect_into-append [] d h f = sym (append-nil d)
  collect_into-append (v ∷ vs) d h f = rw (insert-append (key v) v d f.0) (
      collect_into-append vs (d ++ (key v, v) ∷ []) h.1 (still vs h.0 f.1)
      ∙ append_assoc d ((key v, v) ∷ []) (map (λ w. (key w, w)) vs))
    where
      still :
          (ws : List V)
          → All (λ w. key w ≢ key v) ws
          → All (λ w. lookup (key w) d ≡ none) ws
          → All (λ w. lookup (key w) (d ++ (key v, v) ∷ []) ≡ none) ws
      still [] a b = tt
      still (w ∷ ws) a b = (lookup-append-none (key w) d (key v) v b.0 a.0, still ws a.1 b.1)

  abbrev nothing : Dict K V
  nothing = []

  no_entries : (vs : List V) → All (λ v. lookup (key v) nothing ≡ none) vs
  unfolding lookup
  no_entries [] = tt
  no_entries (v ∷ vs) = (refl, no_entries vs)

  collect-map : (vs : List V) → Distinct key vs → collect key vs ≡ map (λ v. (key v, v)) vs
  unfolding collect
  collect-map vs h = collect_into-append vs nothing h (no_entries vs)

  values-map : (vs : List V) → values (map (λ v. (key v, v)) vs) ≡ vs
  values-map [] = refl
  values-map (v ∷ vs) = ap (◌∷◌ v) (values-map vs)

-- Every entry stands under its own id, a 32-byte one, and no id has two entries.
abbrev pub IsKeyed : Dict DeviceId DeviceRecord → Type 0
IsKeyed [] = Unit
IsKeyed ((k, r) ∷ d) = (k ≡ r.id) × IsId k × (lookup k d ≡ none) × IsKeyed d

pub insert-IsKeyed :
    (k : DeviceId) (r : DeviceRecord) (d : Dict DeviceId DeviceRecord)
    → k ≡ r.id
    → IsId k
    → IsKeyed d
    → IsKeyed (insert k r d)
unfolding insert lookup
insert-IsKeyed k r [] e v h = (e, v, refl, tt)
insert-IsKeyed k r ((j, q) ∷ d) e v h = ground (arith, insert-IsKeyed k r d, lookup-insert j k r d)

pub remove-IsKeyed :
    (id : DeviceId) (d : Dict DeviceId DeviceRecord) → IsKeyed d → IsKeyed (remove id d)
unfolding remove lookup
remove-IsKeyed id [] h = tt
remove-IsKeyed id ((k, q) ∷ d) h = ground (arith, remove-IsKeyed id d, lookup-remove k id d)

-- A stored entry has the id that it is found under.
pub lookup-IsKeyed :
    (id : DeviceId) (d : Dict DeviceId DeviceRecord) (r : DeviceRecord)
    → IsKeyed d
    → lookup id d ≡ some r
    → (r.id ≡ id) × IsId r.id
unfolding lookup
lookup-IsKeyed id [] r h e = cc
lookup-IsKeyed id ((k, q) ∷ d) r h e = ground (arith, lookup-IsKeyed id d r)

values-ids :
    (k : DeviceId) (d : Dict DeviceId DeviceRecord)
    → IsKeyed d
    → lookup k d ≡ none
    → All (λ w. (w.id ≢ k) × IsId w.id) (values d)
unfolding lookup
values-ids k [] h e = tt
values-ids k ((j, q) ∷ d) h e = ground (arith, values-ids k d)

ids_differ :
    (k : DeviceId) (vs : List DeviceRecord)
    → All (λ w. (w.id ≢ k) × IsId w.id) vs
    → All (λ w. w.id ≢ k) vs
ids_differ k [] h = tt
ids_differ k (w ∷ vs) h = (h.0.0, ids_differ k vs h.1)

IsKeyed-Distinct : (d : Dict DeviceId DeviceRecord) → IsKeyed d → Distinct (λ r. r.id) (values d)
IsKeyed-Distinct [] h = tt
IsKeyed-Distinct ((k, r) ∷ d) (e, v, fresh, h) =
    (rw (← e) (ids_differ k (values d) (values-ids k d h fresh)), IsKeyed-Distinct d h)

rekey-values : (d : Dict DeviceId DeviceRecord) → IsKeyed d → map (λ r. (r.id, r)) (values d) ≡ d
rekey-values [] h = refl
rekey-values ((k, r) ∷ d) h = ground (arith, rekey-values d)

module _ ⦃hex : Hex⦄ where
  strings_differ :
      (k : DeviceId) (vs : List DeviceRecord)
      → IsId k
      → All (λ w. (w.id ≢ k) × IsId w.id) vs
      → All (λ w. to_string w.id ≢ to_string k) vs
  strings_differ k [] v h = tt
  strings_differ k (w ∷ vs) v h =
      (λ e. h.0.0 (to_string-injective w.id k h.0.1 v e), strings_differ k vs v h.1)

  strings-Distinct :
      (d : Dict DeviceId DeviceRecord) → IsKeyed d → Distinct (λ r. to_string r.id) (values d)
  strings-Distinct [] h = tt
  strings-Distinct ((k, r) ∷ d) (e, v, fresh, h) =
      (rw (← e) (strings_differ k (values d) v (values-ids k d h fresh)), strings-Distinct d h)

  values-file_of : (d : Dict DeviceId DeviceRecord) → IsKeyed d → values (file_of d) ≡ values d
  unfolding file_of
  values-file_of d h =
      ap values (collect-map (λ r. to_string r.id) (values d) (strings-Distinct d h))
      ∙ values-map (λ r. to_string r.id) (values d)

  -- What `flush` writes is read back as it was.
  pub flush-open :
      (s : DeviceStore) → IsKeyed s.devices → open_store (flush none s).1.file ≡ ok (flush none s).1
  unfolding open_store flush
  flush-open s h = rw (
    values-file_of s.devices h,
    collect-map (λ r. r.id) (values s.devices) (IsKeyed-Distinct s.devices h),
    rekey-values s.devices h,
  )

  flushed :
      (s : DeviceStore) (d : Dict DeviceId DeviceRecord)
      → IsKeyed d
      → IsKeyed (flush none (record s { devices = d })).1.devices
        × (open_store (flush none (record s { devices = d })).1.file
            ≡ ok (flush none (record s { devices = d })).1)
  unfolding flush
  flushed s d h = (h, unfold flush in flush-open (record s { devices = d }) h)

  -- After an `upsert` that could write, of a record with a 32-byte id, opening the file gives the
  -- store as it stands in memory, and the store has still one entry for each id, under that id.
  pub upsert-open :
      (r : DeviceRecord) (s : DeviceStore)
      → IsId r.id
      → IsKeyed s.devices
      → IsKeyed (upsert none r s).1.devices
        × (open_store (upsert none r s).1.file ≡ ok (upsert none r s).1)
  unfolding upsert
  upsert-open r s v h = flushed s _ (insert-IsKeyed r.id r s.devices refl v h)

  -- `revoke` of any id, stored or not, with a disk that takes the write: where opening the file gave
  -- the store in memory it does so afterwards, and entries still stand once, each under its id.
  pub revoke-open :
      (id : DeviceId) (s : DeviceStore)
      → IsKeyed s.devices
      → open_store s.file ≡ ok s
      → IsKeyed (revoke none id s).1.devices
        × (open_store (revoke none id s).1.file ≡ ok (revoke none id s).1)
  unfolding revoke
  revoke-open id s h saved = elim (Option-cases (lookup id s.devices)) [
    | inl e ↦ rw (e, revoke) (h, saved)
    | inr (r, e) ↦
        let (same, v) = lookup-IsKeyed id s.devices r h e in
        rw (e, revoke)
          (flushed s _ (
            insert-IsKeyed id (record r { trust = revoked }) s.devices (sym same)
              (subst IsId same v) h))
  ]

  -- `remove` of any id, stored or not, with a disk that takes the write: where opening the file gave
  -- the store in memory it does so afterwards, and entries still stand once, each under its id.
  pub remove_device-open :
      (id : DeviceId) (s : DeviceStore)
      → IsKeyed s.devices
      → open_store s.file ≡ ok s
      → IsKeyed (remove_device none id s).1.devices
        × (open_store (remove_device none id s).1.file ≡ ok (remove_device none id s).1)
  unfolding remove_device
  remove_device-open id s h saved = elim (Option-cases (lookup id s.devices)) [
    | inl e ↦ rw (e, remove_device) (h, saved)
    | inr (r, e) ↦ rw (e, remove_device) (flushed s _ (remove-IsKeyed id s.devices h))
  ]
