-- ===== src/Session/Carrier/Start.antt =====
-- crates/mymesh-session/src/carrier.rs: `start_carrier`. `bound` is what the listener answers, the port
-- that it got; `ip` is the address to show, given, or found, or that of the local host.
use my_mesh.Base.{ℕ, none, some, ◌++◌, nat_eq, text_eq, io, Result, ok, err, Text, text, decimal}
use my_mesh.Base.Stateful.{Stateful, pure, raise, ◌>>=◌, ◌>>◌}
use my_mesh.Core.Identity.{Hex, id_eq, fingerprint}
use my_mesh.Core.Join.{Chrono, load_arm}
use my_mesh.Core.Mesh.{load_mesh}
use my_mesh.Crypto.Identity.{Ed25519, Identity, device_id}
use my_mesh.Session.Carrier.{Base64, Carrier, Moment, ensure_bootstrap_locked}
use my_mesh.Session.Carrier.Handlers.{arm_if_not}
use my_mesh.Session.Carrier.Page.{build_pair_qr}

pub record CarrierHandle : Type 0 where
  pub url : Text
  pub port : ℕ
  pub host_base : Text
  pub bootstrap_token : Text
  pub pair_qr : Text

abbrev pub nothing_shared : Carrier → Carrier
nothing_shared w = record w {
  bootstrap = none;
  pending_peer = none;
  status = text "waiting for phone";
}

module _ ⦃hex : Hex⦄ ⦃base64 : Base64⦄ ⦃ed : Ed25519⦄ ⦃chrono : Chrono⦄ where
  unfoldable pub handle_of : Identity → Text → ℕ → Text → Text → CarrierHandle
  handle_of me ip port token mesh_id =
      let host_base = text "http://" ++ ip ++ text ":" ++ decimal port in
      record {
        url = host_base ++ text "/";
        port = port;
        host_base = host_base;
        bootstrap_token = token;
        pair_qr = build_pair_qr host_base token (fingerprint (device_id me)) (some mesh_id);
      }

  -- The shared state is new; of the files the state is what the handlers find.
  unfoldable pub start_carrier :
      Identity → Moment → Text → Text → Result ℕ → Stateful Carrier CarrierHandle
  unfolding handle_of
  start_carrier me t uuid ip bound = do
    raise (elim t.directories [ none ↦ ok tt | some e ↦ err (io e) ])
    (λ w. (load_arm w.arm_file, w))
    arm_if_not t 900
    (λ w. (ok tt, nothing_shared w))
    token ← ensure_bootstrap_locked (record t { now = t.later })
    port ← raise bound
    mesh ← (λ w.
        let (m, file) = load_mesh t.disk uuid t.later w.mesh_file in
        (m, record w { mesh_file = file }))
    pure (handle_of me ip port token mesh.mesh_id)
