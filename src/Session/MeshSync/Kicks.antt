-- ===== src/Session/MeshSync/Kicks.antt =====
-- crates/mymesh-session/src/mesh_sync.rs: what a kick does to the node that is told of it, and to the
-- node that is kicked.
use my_mesh.Base.{
  ℕ, ◌≡◌, refl, ap, ◌∙◌, ◌≢◌, ◌⊎◌, inl, inr, false, Option, none, some, List, [], ◌∷◌, ◌++◌, map,
  arith, if◌then◌else◌, Option-cases, any, keep_if, ◌==◌, contains, nat_eq, text_eq, io, not_found,
  serialize, Result, ok, err, panic, ◌>>◌, missing, corrupt, holds, Text, text,
}
use my_mesh.Core.Identity.{Hex, DeviceId, id_eq, to_string}
use my_mesh.Core.Device.{
  DeviceRecord, DeviceStore, get, is_trusted, is_trusted_state, list, remove_device, Call,
}
use my_mesh.Core.Device.Persist.{IsKeyed}
use my_mesh.Core.Device.Trust.{remove_device_lem}
use my_mesh.Core.Mesh.{
  MeshState, MeshFile, KickNoticeRecord, load_mesh, save_mesh, new_mesh, bump_generation,
  mark_mesh_dirty,
}
use my_mesh.Session.MeshSync.Roster.{names_trusted, any-list}

-- What a call changes: the store, the mesh's file, the file of the notice, and the dirty marker.
pub record KickNode : Type 0 where
  pub store : DeviceStore
  pub mesh : MeshFile
  pub notice : Option Text
  pub dirty : Option ℕ

unfoldable pub trusted_ids : DeviceStore → List DeviceId
trusted_ids s = map (λ d. d.id) (keep_if (λ d. is_trusted_state d.trust) (list s))

-- The text that is written for the user.
unfoldable pub notice_text : ⦃hex : Hex⦄ → DeviceId → Text → Text → Text
notice_text by_id by_label message =
    text "you were kicked from the mesh by "
    ++ by_label
    ++ text " ("
    ++ to_string by_id
    ++ text ")"
    ++ 10 ∷ message
    ++ 10 ∷ []

unfoldable pub write_notice : Option ℕ → Text → Option Text → Result (Unit {0}) × Option Text
write_notice none t file = (ok tt, some t)
write_notice (some e) t file = (err (io e), file)

module _ ⦃hex : Hex⦄ (disk : Option ℕ) where
  unfoldable pub apply_kick_target : DeviceId → DeviceStore → Call (Unit {0})
  apply_kick_target target s = elim (get s target) [
    | none ↦ (ok tt, s)
    | some _ ↦ remove_device disk target s
  ]

  -- `let _ = store.remove(&id)` for each.
  unfoldable pub remove_each : List DeviceId → DeviceStore → DeviceStore
  remove_each [] s = s
  remove_each (id ∷ ids) s = remove_each ids (remove_device disk id s).1

  -- Once the mesh with the notice is saved, and the text written.
  then_leave : Text → KickNoticeRecord → Result (Unit {0}) → KickNode → Result (Unit {0}) × KickNode
  unfolding save_mesh new_mesh remove_each trusted_ids
  then_leave uuid told (err e) w = (err e, w)
  then_leave uuid told panic w = (panic, w)
  then_leave uuid told (ok _) w =
      let store = remove_each (trusted_ids w.store) w.store in
      let fresh : MeshState = record (new_mesh uuid told.at) { last_kick_notice = some told } in
      let (r, file) = save_mesh disk fresh w.mesh in (r, record w { store = store; mesh = file })

  then_write : Text → KickNoticeRecord → Result (Unit {0}) → KickNode → Result (Unit {0}) × KickNode
  unfolding then_leave write_notice notice_text
  then_write uuid told (err e) w = (err e, w)
  then_write uuid told panic w = (panic, w)
  then_write uuid told (ok _) w =
      let (r, file) =
        write_notice disk (notice_text told.by_id told.by_label told.message) w.notice in
      then_leave uuid told r (record w { notice = file })

  then_record : Text → KickNoticeRecord → Result MeshState → KickNode → Result (Unit {0}) × KickNode
  unfolding then_write save_mesh
  then_record uuid told (err e) w = (err e, w)
  then_record uuid told panic w = (panic, w)
  then_record uuid told (ok mesh) w =
      let (r, file) = save_mesh disk (record mesh { last_kick_notice = some told }) w.mesh in
      then_write uuid told r (record w { mesh = file })

  -- `uuid` is taken where there is no mesh yet, `uuid'` by the mesh that is made at the end.
  unfoldable pub apply_kick_notice_local :
      Text → Text → ℕ → DeviceId → Text → Text → KickNode → Result (Unit {0}) × KickNode
  unfolding then_record load_mesh
  apply_kick_notice_local uuid uuid' now by_id by_label message w =
      let told : KickNoticeRecord = record {
        by_id = by_id;
        by_label = by_label;
        message = message;
        at = now;
      } in
      let (r, file) = load_mesh disk uuid now w.mesh in
      then_record uuid' told r (record w { mesh = file })

-- `bump_mesh_dirty`.
bump_loaded : Option ℕ → ℕ → Result MeshState → KickNode → Result (Unit {0}) × KickNode
unfolding save_mesh bump_generation mark_mesh_dirty
bump_loaded disk now (err e) w = (err e, w)
bump_loaded disk now panic w = (panic, w)
bump_loaded disk now (ok mesh) w =
    let (r, file) = save_mesh disk (bump_generation mesh) w.mesh in
    let (r', dirty) = mark_mesh_dirty disk now w.dirty in
    (r >> r', record w { mesh = file; dirty = dirty })

unfoldable pub bump_mesh_dirty : Option ℕ → Text → ℕ → KickNode → Result (Unit {0}) × KickNode
unfolding bump_loaded load_mesh
bump_mesh_dirty disk uuid now w =
    let (r, file) = load_mesh disk uuid now w.mesh in
    bump_loaded disk now r (record w { mesh = file })

module _ ⦃hex : Hex⦄ (disk : Option ℕ) where
  get-remove_each :
      (ids : List DeviceId) (s : DeviceStore) (j : DeviceId)
      → get (remove_each disk ids s) j ≡ (if contains ids j then none else get s j)
  unfolding remove_each
  get-remove_each [] s j = refl
  get-remove_each (id ∷ ids) s j =
      ground (
        arith,
        get-remove_each ids (remove_device disk id s).1 j,
        (remove_device_lem disk id s j).0,
      )

  contains-trusted :
      (ds : List DeviceRecord) (j : DeviceId)
      → contains (map (λ d. d.id) (keep_if (λ d. is_trusted_state d.trust) ds)) j
        ≡ any (names_trusted j) ds
  contains-trusted [] j = refl
  contains-trusted (d ∷ ds) j = ground (arith, contains-trusted ds j)

  get-remove_trusted :
      (s : DeviceStore) (j : DeviceId)
      → IsKeyed s.devices
      → get (remove_each disk (trusted_ids s) s) j ≡ (if is_trusted s j then none else get s j)
  unfolding trusted_ids
  get-remove_trusted s j h =
      let c = contains-trusted (list s) j ∙ any-list j s h in
      get-remove_each (trusted_ids s) s j ∙ ap (λ b. if b then none else get s j) c

module _ ⦃hex : Hex⦄ (uuid uuid' : Text) (now : ℕ) (by_id : DeviceId)
    (by_label message : Text) where
  abbrev told : KickNoticeRecord
  told = record { by_id = by_id; by_label = by_label; message = message; at = now }

  abbrev Left : DeviceId → KickNode → Result (Unit {0}) × KickNode → Type 0
  Left j w (r, w') =
      (r ≡ ok tt)
      × (get w'.store j ≡ (if is_trusted w.store j then none else get w.store j))
      × (is_trusted w'.store j ≡ false)
      × (w'.mesh ≡ holds (record (new_mesh uuid' now) { last_kick_notice = some told }))
      × (w'.notice ≡ some (notice_text by_id by_label message))

  then_record_lem :
      (w : KickNode) (mesh : MeshState) (j : DeviceId)
      → IsKeyed w.store.devices
      → Left j w (then_record none uuid' told (ok mesh) w)
  unfolding then_record then_write then_leave save_mesh write_notice is_trusted
  then_record_lem w mesh j h =
      let e = get-remove_trusted none w.store j h in (refl, e, ground (arith, e), refl, refl)

  by_file :
      (file : MeshFile) (w : KickNode) (j : DeviceId)
      → IsKeyed w.store.devices
      → (let call =
            apply_kick_notice_local none uuid uuid' now by_id by_label message
              (record w { mesh = file }) in
          ((m : Text) × (file ≡ corrupt m) × (call ≡ (err (serialize m), record w { mesh = file })))
          ⊎ Left j w call)
  unfolding apply_kick_notice_local load_mesh then_record save_mesh
  by_file missing w j h =
      inr (then_record_lem (record w { mesh = holds (new_mesh uuid now) }) (new_mesh uuid now) j h)
  by_file (corrupt m) w j h = inl (m, refl, refl)
  by_file (holds mesh) w j h = inr (then_record_lem (record w { mesh = holds mesh }) mesh j h)

  -- What a kick leaves where the disk takes every write and the store keeps each record once, under
  -- its id. A mesh file that cannot be read ends the
  -- call with that error before anything changes. In any other case the call succeeds; each device
  -- that was trusted is gone and each other keeps its record; the mesh is a fresh one that holds
  -- the notice; and the notice is written for the user.
  pub apply_kick_notice_local_lem :
      (w : KickNode) (j : DeviceId)
      → IsKeyed w.store.devices
      → (let (r, w') = apply_kick_notice_local none uuid uuid' now by_id by_label message w in
          ((m : Text) × (w.mesh ≡ corrupt m) × (r ≡ err (serialize m)) × (w' ≡ w))
          ⊎ ((r ≡ ok tt)
              × (get w'.store j ≡ (if is_trusted w.store j then none else get w.store j))
              × (is_trusted w'.store j ≡ false)
              × (w'.mesh ≡ holds (record (new_mesh uuid' now) { last_kick_notice = some told }))
              × (w'.notice ≡ some (notice_text by_id by_label message))))
  apply_kick_notice_local_lem w j h = elim (by_file w.mesh w j h) [
    | inl (m, e, f) ↦ inl (m, e, ap (λ c. c.0) f, ap (λ c. c.1) f)
    | inr l ↦ inr l
  ]

-- A device that a kick removes is gone, and every other keeps its record; that it is not stored is no
-- error.
pub apply_kick_target_lem :
    ⦃hex : Hex⦄ (disk : Option ℕ) (target j : DeviceId) (s : DeviceStore)
    → (get (apply_kick_target disk target s).1 j ≡ (if target == j then none else get s j))
      × ((apply_kick_target disk target s).0 ≢ err (not_found (to_string target)))
unfolding apply_kick_target
apply_kick_target_lem disk target j s = elim (Option-cases (get s target)) [
  | inl e ↦ rw (e, apply_kick_target) (ground (arith, e), λ h. ground arith)
  | inr (r, e) ↦
      let (gone, refused) = remove_device_lem disk target s j in
      rw (e, apply_kick_target) (gone, λ h. ground (arith, refused.0 h, e))
]
