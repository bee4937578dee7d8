-- ===== src/Session/Carrier/Opening.antt =====
-- crates/mymesh-session/src/carrier.rs: the token that the start of the server shows is one that it
-- takes; and what a peer that is told to the page does to the arm window.
use my_mesh.Base.{
  ℕ, ◌+◌, ◌*◌, ◌≤◌, ◌≡◌, refl, ap, ◌∙◌, inl, inr, true, false, none, some, ◌++◌, arith,
  if◌then◌else◌, Bool-cases, length, nat_eq, text_eq, Result, ok, holds, Text, text, decimal,
}
use my_mesh.Base.Stateful.{◌>>=◌}
use my_mesh.Core.Identity.{Hex, id_eq}
use my_mesh.Core.Join.{Chrono, ArmState, load_arm, arm, arm_until, save_arm, is_effectively_armed}
use my_mesh.Core.Mesh.{MeshState, load_mesh}
use my_mesh.Crypto.Identity.{Ed25519, Identity}
use my_mesh.Session.Carrier.{Base64, Carrier, Moment, arm_or_default, require_bootstrap}
use my_mesh.Session.Carrier.Handlers.{arm_if_not, api_peer, peer_received}
use my_mesh.Session.Carrier.Start.{CarrierHandle, handle_of, nothing_shared, start_carrier}
use my_mesh.Session.Carrier.Token.{IsRaw, IsKept, IsWindow, with_token, ensure_lem}
use my_mesh.Session.Carrier.LetIn.{require_bootstrap_own}

module _ ⦃base64 : Base64⦄ where
  nothing_shared-IsKept : (w : Carrier) → IsKept w → IsKept (nothing_shared w)
  nothing_shared-IsKept w k = record { memory = λ b e. absurd (ground (arith, e)); file = k.file }

  moved :
      {w : Carrier} {now until : ℕ} (v : Carrier)
      → IsWindow w now until
      → v.arm_file ≡ w.arm_file
      → IsWindow v now until
  moved v win same = record {
    arm = win.arm;
    loads = ap load_arm same ∙ win.loads;
    armed = win.armed;
    ends = win.ends;
  }

module _ ⦃hex : Hex⦄ ⦃base64 : Base64⦄ ⦃ed : Ed25519⦄ ⦃chrono : Chrono⦄ where
  arm_if_not_armed :
      (t : Moment) (ttl until : ℕ) (w : Carrier)
      → IsWindow w t.now until
      → arm_if_not t ttl w ≡ (ok tt, w)
  unfolding arm_if_not arm_or_default
  arm_if_not_armed t ttl until w win = ground (arith, win.loads, win.armed)

  -- Where the host is armed, in a window that is open while the server starts and while a later
  -- request is looked at, the disk takes the writes, the directories can be made, the listener is
  -- bound, the file of the mesh can be read and holds one, 32 random bytes are drawn, a token in
  -- memory is that of its file, and one in the file is 32 bytes encoded, `start_carrier` succeeds,
  -- and a request that bears the token that it shows is let in and changes nothing.
  pub start_carrier-require_bootstrap :
      (me : Identity) (t request : Moment) (uuid ip : Text) (port until : ℕ) (m : MeshState)
      (w : Carrier)
      → IsRaw t.random
      → t.disk ≡ none
      → t.directories ≡ none
      → w.mesh_file ≡ holds m
      → IsKept w
      → IsWindow w t.now until
      → IsWindow w t.later until
      → IsWindow w request.now until
      → IsWindow w request.later until
      → (raw : Text) × (handle : CarrierHandle) × (v : Carrier) × (start_carrier me t uuid ip
            (ok port)
            w
          ≡ (ok handle, v))
        × (require_bootstrap request (some (text "Bearer " ++ handle.bootstrap_token)) v
            ≡ (inr raw, v))
  unfolding start_carrier load_mesh handle_of
  start_carrier-require_bootstrap me t request uuid ip port until m w drawn writes makes mesh k now
        later r_now r_later =
      let shared = nothing_shared w in
      let (raw, v, done) =
        ensure_lem (record t { now = t.later }) until drawn writes shared (moved shared later refl)
          (nothing_shared-IsKept w k) in
      let after = with_token raw until shared in
      (
        raw,
        handle_of me ip port (base64.encode raw) m.mesh_id,
        after,
        ground (arith, makes, now.loads, arm_if_not_armed t 900 until w now, done, mesh),
        require_bootstrap_own request raw until after v refl (moved after r_now refl)
            (moved after r_later refl),
      )

module _ ⦃chrono : Chrono⦄ where
  arm_kept :
      (t : Moment) (ttl : ℕ) (w : Carrier)
      → is_effectively_armed t.now (arm_or_default w) ≡ true
      → arm_if_not t ttl w ≡ (ok tt, w)
  unfolding arm_if_not
  arm_kept t ttl w e = rw e refl

  abbrev pub opened : ℕ → ArmState
  opened now = record { armed = true; until = some (now + 600 * 1000000000); armed_at = some now }

  arm_opened :
      (t : Moment) (w : Carrier)
      → t.disk ≡ none
      → t.now + 600 * 1000000000 ≤ chrono.last
      → is_effectively_armed t.now (arm_or_default w) ≡ false
      → arm_if_not t 600 w ≡ (ok tt, record w { arm_file = holds (opened t.now) })
  unfolding arm_if_not arm arm_until save_arm
  arm_opened t w writes fits e =
      rw (e, chrono.plus_secs_lem t.now 600 (omega arith) fits, writes) refl

  abbrev told : Carrier → Text → Carrier
  told w uri = record w {
    pending_peer = some uri;
    status = text "received peer (" ++ decimal (length uri) ++ text " bytes) - host will dial";
  }

  api_peer_after :
      (t : Moment) (uri : Text) (w v : Carrier)
      → arm_if_not t 600 (told w uri) ≡ (ok tt, v)
      → api_peer t uri w ≡ (
        ok (peer_received (text "ok - keep page open; host completes join")),
        record v { pending_file = elim t.disk [ none ↦ some uri | some e ↦ v.pending_file ] },
      )
  unfolding api_peer
  api_peer_after t uri w v e =
      ap
        (λ (out : Result (Unit {0}) × Carrier).
          ((λ (start : Carrier). out) >>= (λ (u : Unit {0}) (w : Carrier). (
            ok (peer_received (text "ok - keep page open; host completes join")),
            record w { pending_file = elim t.disk [ none ↦ some uri | some e ↦ w.pending_file ] },
          )))
            w)
        e

  same_arm : (v w : Carrier) → v.arm_file ≡ w.arm_file → arm_or_default v ≡ arm_or_default w
  unfolding arm_or_default
  same_arm v w e = ground (arith, e)

-- A peer that is told to the page is kept in its file; joins and token stay, and the host is armed
-- for 600 seconds where it was not, without any token.
pub api_peer_lem :
    ⦃chrono : Chrono⦄
    → (t : Moment) (uri : Text) (w : Carrier) → t.disk ≡ none
    → t.now + 600 * 1000000000 ≤ chrono.last
    → ((api_peer t uri w).0 ≡ ok (peer_received (text "ok - keep page open; host completes join")))
      × ((api_peer t uri w).1.pending_file ≡ some uri)
      × ((api_peer t uri w).1.joins ≡ w.joins)
      × ((api_peer t uri w).1.bootstrap ≡ w.bootstrap)
      × ((api_peer t uri w).1.arm_file ≡ (
          if is_effectively_armed t.now (arm_or_default w)
          then w.arm_file
          else holds (opened t.now)))
api_peer_lem t uri w writes fits =
    let armed_same = same_arm (told w uri) w refl in
    elim (Bool-cases (is_effectively_armed t.now (arm_or_default w))) [
      | inl open_already ↦
          let run = api_peer_after t uri w (told w uri) (
            arm_kept t 600 (told w uri)
              (ap (is_effectively_armed t.now) armed_same ∙ open_already)) in
          ground (arith, writes, open_already, run)
      | inr shut ↦
          let run =
            api_peer_after t uri w (record (told w uri) { arm_file = holds (opened t.now) })
              (arm_opened t (told w uri) writes fits
                (ap (is_effectively_armed t.now) armed_same ∙ shut)) in
          ground (arith, writes, shut, run)
    ]
