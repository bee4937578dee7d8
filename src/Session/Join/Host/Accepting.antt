-- ===== src/Session/Join/Host/Accepting.antt =====
-- crates/mymesh-session/src/join.rs: what a host does once a request is accepted.
use my_mesh.Base.{
  ℕ, ◌≤◌, ◌≡◌, refl, ap, ◌∙◌, none, some, List, [], ◌∷◌, ◌++◌, arith, if◌then◌else◌, length, ◌==◌,
  nat_eq, text_eq, ok, holds, Text,
}
use my_mesh.Core.Identity.{Hex, DeviceId, id_eq, IsId, fingerprint}
use my_mesh.Core.Identity.Laws.{label_new_short}
use my_mesh.Core.Device.{
  Capability, all_caps, trusted, DeviceRecord, DeviceStore, open_store, upsert, flush, get,
}
use my_mesh.Core.Device.Persist.{IsKeyed, upsert-open}
use my_mesh.Core.Device.Trust.{get-upsert}
use my_mesh.Core.Mesh.{MeshState, load_mesh}
use my_mesh.Core.Join.{Chrono, disarmed, disarm, save_arm}
use my_mesh.Crypto.Identity.{Ed25519, Identity}
use my_mesh.Session.Handshake.{Codec, Conn, control_frame}
use my_mesh.Session.MeshSync.{build_snapshot}
use my_mesh.Session.MeshSync.Apply.{caps_or}
use my_mesh.Session.Join.{accept_of, joined_record}
use my_mesh.Session.Join.Host.{HostFiles, say, grant, load_here, store_here, disarm_here}

-- What a joiner is let in with: what it asked for, or all where it asked for nothing.
abbrev pub granted : List Capability → List Capability
granted [] = all_caps
granted (c ∷ caps) = c ∷ caps

caps_or-granted : (caps : List Capability) → caps_or all_caps caps ≡ granted caps
caps_or-granted [] = refl
caps_or-granted (c ∷ caps) = refl

-- The record of a joiner that is let in, field by field.
abbrev pub joiner : ⦃hex : Hex⦄ → ℕ → DeviceId → Text → List Capability → MeshState → DeviceRecord
joiner now id label caps mesh = record {
  id = id;
  label = record { name = label };
  fingerprint = fingerprint id;
  capabilities = granted caps;
  trust = trusted;
  linked_at = now;
  last_seen = some now;
  endpoint_hint = none;
  mesh_id = some mesh.mesh_id;
  aliases = [];
  groups = [];
}

module _ ⦃hex : Hex⦄ ⦃chrono : Chrono⦄ ⦃ed : Ed25519⦄ ⦃codec : Codec⦄ (now : ℕ) (uuid : Text)
    (me : Identity) (my_label : Text) (conn : Conn) where
  grant_result :
      (id : DeviceId) (label : Text) (caps : List Capability) (w : HostFiles) (s : DeviceStore)
      (mesh : MeshState) (b c : Text)
      → length label ≤ 64
      → open_store w.devices ≡ ok s
      → (load_mesh none uuid now w.mesh).0 ≡ ok mesh
      → codec.encode (accept_of me my_label) ≡ ok b
      → codec.encode
          (build_snapshot me my_label (upsert none (joiner now id label caps mesh) s).1 mesh 0 now)
        ≡ ok c
      → conn.send (control_frame b) ≡ ok tt
      → conn.send (control_frame c) ≡ ok tt
      → grant none now uuid me my_label conn id label caps w ≡ (
        ok tt,
        record w {
          devices = (upsert none (joiner now id label caps mesh) s).1.file;
          arm = holds disarmed;
          mesh = (load_mesh none uuid now w.mesh).1;
          sent = w.sent ++ control_frame b ∷ [] ++ control_frame c ∷ [];
        },
      )
  unfolding grant joined_record load_here store_here disarm_here say disarm save_arm upsert flush
  grant_result id label caps w s mesh b c short_label opened loaded eb ec sb sc =
      rw (caps_or-granted caps)
        (ground (arith, label_new_short label short_label, opened, loaded, eb, ec, sb, sc))

  -- Where the files can be read and written, the two messages can be encoded and sent, the store
  -- keeps each record once, under its id, the joiner's id is 32 bytes and its label at most 64,
  -- letting a joiner in succeeds: a device file that is opened afterwards has the joiner's record,
  -- which is trusted and of this mesh, with what it asked for, or all where it asked for nothing,
  -- and every other device as it was; the node is disarmed; the acceptance and then the roster are
  -- what was sent.
  pub grant_lem :
      (id : DeviceId) (label : Text) (caps : List Capability) (w : HostFiles) (s : DeviceStore)
      (mesh : MeshState) (b c : Text)
      → IsId id
      → length label ≤ 64
      → open_store w.devices ≡ ok s
      → IsKeyed s.devices
      → (load_mesh none uuid now w.mesh).0 ≡ ok mesh
      → codec.encode (accept_of me my_label) ≡ ok b
      → codec.encode
          (build_snapshot me my_label (upsert none (joiner now id label caps mesh) s).1 mesh 0 now)
        ≡ ok c
      → conn.send (control_frame b) ≡ ok tt
      → conn.send (control_frame c) ≡ ok tt
      → let (done, w') = grant none now uuid me my_label conn id label caps w in
        (done ≡ ok tt)
        × ((s' : DeviceStore) × (open_store w'.devices ≡ ok s')
            × ((j : DeviceId)
                → get s' j ≡ (if id == j then some (joiner now id label caps mesh) else get s j)))
        × (w'.arm ≡ holds disarmed)
        × (w'.sent ≡ w.sent ++ control_frame b ∷ [] ++ control_frame c ∷ [])
  grant_lem id label caps w s mesh b c v short_label opened keyed loaded eb ec sb sc =
      let r = joiner now id label caps mesh in
      let result = grant_result id label caps w s mesh b c short_label opened loaded eb ec sb sc in
      (
        ap (λ g. g.0) result,
        (
          (upsert none r s).1,
          ap (λ g. open_store g.1.devices) result ∙ (upsert-open r s v keyed).1,
          get-upsert none r s,
        ),
        ap (λ g. g.1.arm) result,
        ap (λ g. g.1.sent) result,
      )
