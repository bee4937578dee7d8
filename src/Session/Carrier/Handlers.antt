-- ===== src/Session/Carrier/Handlers.antt =====
-- crates/mymesh-session/src/carrier.rs: what the server answers to the requests, and its start.
use my_mesh.Base.{
  ℕ, inl, inr, Bool, Option, none, some, List, [], ◌++◌, map, if◌then◌else◌, length, any, ◌==◌,
  nat_eq, text_eq, io, Result, ok, err, panic, Text, text, decimal,
}
use my_mesh.Base.Stateful.{Stateful, pure, ◌>>◌, ignored}
use my_mesh.Base.Dict.{remove}
use my_mesh.Core.Identity.{Hex, DeviceId, id_eq, to_string, short, from_str, fingerprint}
use my_mesh.Core.Failure.{display}
use my_mesh.Core.Device.{Capability}
use my_mesh.Core.Join.{
  Chrono, is_effectively_armed, arm, PendingJoin, JoinDecision, accept, deny, JoinStore,
  list_pending, file_name, write_decision,
}
use my_mesh.Core.Mesh.{MeshState, load_mesh}
use my_mesh.Crypto.Identity.{Ed25519, Identity, device_id}
use my_mesh.Crypto.WordId.{Bip39, device_id_to_words, device_join_uri}
use my_mesh.Session.Carrier.{
  Base64, Carrier, Moment, PairError, arm_or_default, ensure_bootstrap_locked, require_bootstrap,
}

pub record HostPairStatus : Type 0 where
  pub protocol_version : ℕ
  pub mesh_id : Text
  pub host_label : Text
  pub host_device_id_hex : Text
  pub host_fingerprint : Text
  pub host_short_id : Text
  pub armed : Bool
  pub arm_until : Text
  pub auth_mode : Text

pub record PendingJoinWire : Type 0 where
  pub device_id_hex : Text
  pub short_id : Text
  pub label : Text
  pub fingerprint : Text
  pub words : Text
  pub capabilities : List Capability
  pub received_at : Text

pub data DecideKind : Type 0 where
  accept_it deny_it : DecideKind

pub record DecideRequest : Type 0 where
  pub device_id_hex : Text
  pub decision : DecideKind
  pub reason : Option Text

pub record StatusBody : Type 0 where
  pub status : Text
  pub local_uri : Text
  pub local_label : Text

pub data Response : Type 0 where
  failure : PairError → Response
  host_status : HostPairStatus → Response
  pending_list : List PendingJoinWire → Response
  decided : (state : Text) → Response
  status_body : StatusBody → Response
  local_body : (uri label : Text) → Response
  peer_received : (status : Text) → Response

-- The text of a time in seconds, and of an operating system error.
pub record Texts : Type 0 where
  pub rfc3339 : ℕ → Text
  pub io_text : ℕ → Text

unfoldable pub internal : Text → Response
internal message = failure (record { http_status = 500; code = text "internal"; error = message })

unfoldable pub or_empty : Result Text → Text
or_empty (ok t) = t
or_empty _ = []

-- `JoinStore::open`, which makes the directories.
unfoldable pub open_joins : Option ℕ → JoinStore → Result JoinStore
open_joins none s = ok s
open_joins (some e) s = err (io e)

module _ ⦃texts : Texts⦄ where
  -- A `match` of a result whose error is answered with what went wrong.
  unfoldable pub or_internal :
      {A : Type 0} → Text → Result A → (A → Stateful Carrier Response) → Stateful Carrier Response
  unfolding internal
  or_internal what (ok a) go w = go a w
  or_internal what (err e) go w = (ok (internal (what ++ text ": " ++ display texts.io_text e)), w)
  or_internal what panic go w = (panic, w)

module _ ⦃hex : Hex⦄ ⦃texts : Texts⦄ ⦃bip39 : Bip39⦄ where
  unfoldable pub wire_of : PendingJoin → PendingJoinWire
  unfolding or_empty
  wire_of p = record {
    device_id_hex = to_string p.device_id;
    short_id = short p.device_id;
    label = p.label;
    fingerprint = p.fingerprint;
    words = or_empty (device_id_to_words p.device_id);
    capabilities = p.capabilities;
    received_at = texts.rfc3339 p.received_at;
  }

module _ ⦃base64 : Base64⦄ (t : Moment) where
  -- A request that must present the token.
  unfoldable pub authorized : Option Text → Stateful Carrier Response → Stateful Carrier Response
  authorized header go w =
      let (r, w') = require_bootstrap t header w in
      elim r [ inl e ↦ (ok (failure e), w') | inr _ ↦ go w' ]

unfoldable pub decision_of : DecideRequest → JoinDecision × Text
decision_of body = elim body.decision [
  | accept_it ↦ (accept, text "accepted")
  | deny_it ↦
      (deny (elim body.reason [ none ↦ text "denied by carrier" | some r ↦ r ]), text "denied")
]

module _ ⦃hex : Hex⦄ ⦃texts : Texts⦄ ⦃base64 : Base64⦄ ⦃bip39 : Bip39⦄ (t : Moment) where
  unfoldable pub pair_pending : Option Text → Stateful Carrier Response
  unfolding authorized open_joins or_internal
  pair_pending header = authorized t header λ w.
      or_internal (text "join store") (open_joins t.directories w.joins)
        (λ joins.
          or_internal (text "list pending") (list_pending joins)
            (λ list. pure (pending_list (map wire_of list))))
        w

  -- The decision is written, and the request is taken off the list.
  unfoldable pub write_and_drop : DeviceId → JoinDecision × Text → Stateful Carrier Response
  unfolding or_internal
  write_and_drop id (decision, state) w =
      let (r, joins) = write_decision t.disk t.later id decision w.joins in
      or_internal (text "write decision") r
        (λ _ v. (
          ok (decided state),
          record v { joins = record joins { pending = remove (file_name id) joins.pending } },
        ))
        (record w { joins = joins })

  unfoldable pub decide_among :
      DeviceId → DecideRequest → List PendingJoin → Stateful Carrier Response
  unfolding write_and_drop decision_of
  decide_among id body pending w =
      if any (λ p. p.device_id == id) pending
      then write_and_drop id (decision_of body) w
      else (ok (decided (text "not_found")), w)

  unfoldable pub decide_for : Result DeviceId → DecideRequest → Stateful Carrier Response
  unfolding decide_among open_joins or_internal
  decide_for (ok id) body w =
      or_internal (text "join store") (open_joins t.directories w.joins)
        (λ joins.
          or_internal (text "list pending") (list_pending joins)
            (λ pending. decide_among id body pending))
        w
  decide_for (err e) body w = (
    ok (
        failure (record {
          http_status = 400;
          code = text "bad_request";
          error = text "device_id_hex must be 64 hex chars";
        })),
    w,
  )
  decide_for panic body w = (panic, w)

  unfoldable pub pair_decide : Option Text → DecideRequest → Stateful Carrier Response
  unfolding authorized decide_for
  pair_decide header body = authorized t header (decide_for (from_str body.device_id_hex) body)

module _ ⦃chrono : Chrono⦄ (t : Moment) where
  -- `arm` where the host is not armed; its result is dropped.
  unfoldable pub arm_if_not : ℕ → Stateful Carrier (Unit {0})
  arm_if_not ttl w =
      let (r, file) = arm t.disk t.now ttl w.arm_file in
      if is_effectively_armed t.now (arm_or_default w)
      then (ok tt, w)
      else (ignored r, record w { arm_file = file })

  unfoldable pub api_peer : Text → Stateful Carrier Response
  unfolding arm_if_not
  api_peer uri = do
    (λ w. (
      ok tt,
      record w {
        pending_peer = some uri;
        status = text "received peer (" ++ decimal (length uri) ++ text " bytes) - host will dial";
      },
    ))
    arm_if_not 600
    (λ w. (
      ok (peer_received (text "ok - keep page open; host completes join")),
      record w { pending_file = elim t.disk [ none ↦ some uri | some e ↦ w.pending_file ] },
    ))

-- What the node is: its identity and label. `told` is the label that the configuration gives, and
-- `uuid` the fresh identifier of a mesh.
module _ ⦃hex : Hex⦄ ⦃texts : Texts⦄ ⦃base64 : Base64⦄ ⦃ed : Ed25519⦄ (me : Identity) (label : Text)
    (t : Moment) where
  status_of : Result Text → MeshState → Carrier → HostPairStatus
  status_of told mesh w =
      let id = device_id me in
      let arm = arm_or_default w in
      record {
        protocol_version = 1;
        mesh_id = mesh.mesh_id;
        host_label = elim told [ ok l ↦ l | _ ↦ label ];
        host_device_id_hex = to_string id;
        host_fingerprint = fingerprint id;
        host_short_id = short id;
        armed = is_effectively_armed t.now arm;
        arm_until = elim arm.until [ none ↦ [] | some until ↦ texts.rfc3339 until ];
        auth_mode = text "bootstrap_token";
      }

  unfoldable pub pair_status : Text → Result Text → Stateful Carrier Response
  unfolding status_of or_internal
  pair_status uuid told w =
      let (m, file) = load_mesh t.disk uuid t.now w.mesh_file in
      or_internal (text "mesh load") m
        (λ mesh v. (
          ok (host_status (status_of told mesh v)),
          (ensure_bootstrap_locked (record t { now = t.later }) v).1,
        ))
        (record w { mesh_file = file })

  unfoldable pub local_uri : Text
  unfolding or_empty
  local_uri = or_empty (device_join_uri (device_id me))

  unfoldable pub api_status : Stateful Carrier Response
  unfolding local_uri
  api_status w = (
    ok (status_body (record { status = w.status; local_uri = local_uri; local_label = label })),
    w,
  )

  unfoldable pub api_local : Stateful Carrier Response
  unfolding local_uri
  api_local w = (ok (local_body local_uri label), w)
