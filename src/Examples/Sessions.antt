-- ===== src/Examples/Sessions.antt =====
-- The statements on handshakes, on paths and on metrics, tried.
use my_mesh.Base.{
  ◌≡◌, refl, ap, true, false, ◌&&◌, none, some, List, [], ◌∷◌, ◌++◌, ℕ_discrete, replicate,
  contains, text_discrete, nat_eq, text_eq, io, ok, err, panic, missing, Text,
}
use my_mesh.Base.Dict.{lookup}
use my_mesh.Core.Identity.{DeviceId-discrete, id_eq}
use my_mesh.Core.Device.{
  Capability, terminal, files, tcp, cap_eq, trusted, DeviceStore, get, is_trusted, allows,
}
use my_mesh.Core.Metrics.{LatencySample, PeerMetrics}
use my_mesh.Crypto.Identity.{device_id}
use my_mesh.Files.Sandbox.{components, escapes, resolve, normalise, resolve_lem}
use my_mesh.Protocol.Frame.{Frame}
use my_mesh.Protocol.Messages.{ControlMessage, hello}
use my_mesh.Session.Handshake.{
  Session, Conn, Local, hello_of, ack_of, control_frame, accepted_caps, handshake_dialer,
  handshake_acceptor,
}
use my_mesh.Session.Handshake.Laws.{handshake_acceptor_lem, handshake_meets}
use my_mesh.Examples.Codec.{encode_message, decode_message, plain_codec}
use my_mesh.Examples.Plain.{plain_hex, plain_ed}
use my_mesh.Examples.Devices.{alice, bob, carol, device, two_device_store}

abbrev alice_side : Local
alice_side = record {
  identity = record { secret = replicate 32 1 };
  label = 97 ∷ [];
  offered = terminal ∷ tcp ∷ [];
}

abbrev bob_side : Local
bob_side = record {
  identity = record { secret = replicate 32 2 };
  label = 98 ∷ [];
  offered = files ∷ terminal ∷ [];
}

-- Bob's store, with Alice in it.
abbrev bob_store : DeviceStore
bob_store = record { devices = (alice, device alice (97 ∷ []) trusted) ∷ []; file = missing }

abbrev bytes_of : ControlMessage → Text
bytes_of m = elim (plain_codec.encode m) [ ok b ↦ b | err e ↦ [] | panic ↦ [] ]

abbrev opening : ControlMessage
opening = hello_of ⦃ed = plain_ed⦄ alice_side

abbrev answering : ControlMessage
answering =
    ack_of ⦃ed = plain_ed⦄ bob_side
      (accepted_caps bob_side.offered alice_side.offered (get bob_store alice))

abbrev alice_conn : Conn
alice_conn = record {
  peer = bob;
  recv = ok (control_frame (bytes_of answering));
  send = λ f. ok tt;
}

abbrev bob_conn : Conn
bob_conn = record { peer = alice; recv = ok (control_frame (bytes_of opening)); send = λ f. ok tt }

alice_trusts : is_trusted two_device_store bob ≡ true
unfolding is_trusted get lookup DeviceId-discrete text_discrete ℕ_discrete
alice_trusts = refl

bob_trusts : is_trusted bob_store alice ≡ true
unfolding is_trusted get lookup DeviceId-discrete text_discrete ℕ_discrete
bob_trusts = refl

handshake_meets_example :
    (handshake_dialer ⦃hex = plain_hex⦄ ⦃ed = plain_ed⦄ ⦃codec = plain_codec⦄ alice_side
        two_device_store alice_conn
      ≡ (
        ok (record {
          local_id = device_id ⦃ed = plain_ed⦄ alice_side.identity;
          peer_id = device_id ⦃ed = plain_ed⦄ bob_side.identity;
          capabilities = alice_side.offered;
        }),
        control_frame (bytes_of opening) ∷ [],
      ))
    × (handshake_acceptor ⦃hex = plain_hex⦄ ⦃ed = plain_ed⦄ ⦃codec = plain_codec⦄ bob_side bob_store
          bob_conn
        ≡ (
          ok (record {
            local_id = device_id ⦃ed = plain_ed⦄ bob_side.identity;
            peer_id = device_id ⦃ed = plain_ed⦄ alice_side.identity;
            capabilities = accepted_caps bob_side.offered alice_side.offered (get bob_store alice);
          }),
          control_frame (bytes_of answering) ∷ [],
        ))
unfolding hello_of ack_of encode_message device_id
handshake_meets_example =
    handshake_meets ⦃hex = plain_hex⦄ ⦃ed = plain_ed⦄ ⦃codec = plain_codec⦄ alice_side bob_side
      two_device_store bob_store alice_conn bob_conn (bytes_of opening) (bytes_of answering)
      alice_trusts bob_trusts refl refl refl refl refl refl refl refl

stranger : is_trusted two_device_store carol ≡ false
unfolding is_trusted get lookup DeviceId-discrete text_discrete ℕ_discrete
stranger = refl

abbrev carol_conn : Conn
carol_conn = record { peer = carol; recv = err (io 104); send = λ f. ok tt }

abbrev bob_session : Session
bob_session = record {
  local_id = device_id ⦃ed = plain_ed⦄ bob_side.identity;
  peer_id = alice;
  capabilities = accepted_caps bob_side.offered alice_side.offered (get bob_store alice);
}

accepted_by_bob :
    (handshake_acceptor ⦃hex = plain_hex⦄ ⦃ed = plain_ed⦄ ⦃codec = plain_codec⦄ bob_side bob_store
      bob_conn).0
    ≡ ok bob_session
unfolding device_id
accepted_by_bob = ap (λ h. h.0) handshake_meets_example.1

handshake_acceptor_lem_example :
    (f : Frame) × (told : List Capability) × (label signature : Text) × (is_trusted bob_store alice
      ≡ true)
    × (alice ≡ alice)
    × (bob_conn.recv ≡ ok f)
    × (decode_message f.payload ≡ ok (hello 1 alice label told signature))
    × (contains bob_session.capabilities terminal ≡ (
        contains bob_side.offered terminal
        && contains told terminal
        && allows bob_store alice terminal))
handshake_acceptor_lem_example =
    handshake_acceptor_lem ⦃hex = plain_hex⦄ ⦃ed = plain_ed⦄ ⦃codec = plain_codec⦄ bob_side
      bob_store bob_conn bob_session terminal accepted_by_bob

resolve_lem_example :
    resolve ((114 ∷ []) ∷ []) (97 ∷ 47 ∷ 46 ∷ 46 ∷ 47 ∷ 46 ∷ 46 ∷ [])
    ≡ elim (normalise [] (components (97 ∷ 47 ∷ 46 ∷ 46 ∷ 47 ∷ 46 ∷ 46 ∷ []))) [
      | none ↦ escapes
      | some t ↦ ok (((114 ∷ []) ∷ []) ++ t)
    ]
resolve_lem_example = resolve_lem ((114 ∷ []) ∷ []) (97 ∷ 47 ∷ 46 ∷ 46 ∷ 47 ∷ 46 ∷ 46 ∷ [])

abbrev sample : LatencySample
sample = record { at = 5; rtt_ms = some 20; is_ok = true; note = none }

abbrev full_metrics : PeerMetrics
full_metrics = record {
  device_id = some bob;
  samples = replicate 60 (record { at = 4; rtt_ms = none; is_ok = false; note = none });
  last_bandwidth = none;
  last_host = none;
}
