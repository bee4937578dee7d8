-- ===== src/Examples/Joins.antt =====
-- The statements on joins, tried: Bob asks Alice to let him in.
use my_mesh.Base.{
  ◌≤◌, ◌≡◌, refl, ◌≢◌, ◌↔◌, ◌⊎◌, true, false, none, some, [], ◌∷◌, ◌++◌, arith, if◌then◌else◌,
  replicate, ◌==◌, nat_eq, text_eq, io, Result, ok, err, missing, holds, truncate, pos, distance,
  text,
}
use my_mesh.Base.Stateful.{◌>>=◌, ◌>>◌}
use my_mesh.Core.Identity.{DeviceId, id_eq, label_new, short}
use my_mesh.Core.Device.{tcp, all_caps, DeviceRecord, DeviceStore, open_store, get, upsert, flush}
use my_mesh.Core.Mesh.{MeshState, new_mesh, load_mesh}
use my_mesh.Core.Join.{ArmState, disarmed, is_effectively_armed, load_arm}
use my_mesh.Crypto.Identity.{Identity, device_id, sign, verify-sign}
use my_mesh.Protocol.Frame.{Frame}
use my_mesh.Protocol.Messages.{ControlMessage, join_pending}
use my_mesh.Session.Handshake.{Codec, Conn, control_frame, send_control}
use my_mesh.Session.MeshSync.{build_snapshot}
use my_mesh.Session.MeshSync.Apply.{Node}
use my_mesh.Session.Join.{
  request_of, accept_of, is_out_of_range, verify_accept, joined_record, accept_material,
}
use my_mesh.Session.Join.Guest.{timed_out, at_end, accepted, await_host, run_join_as_guest}
use my_mesh.Session.Join.Host.{HostFiles, Look, grant, handle_join_as_host}
use my_mesh.Session.Join.Host.Guards.{WasAsked, handle_join_as_host_safe}
use my_mesh.Session.Join.Host.Accepting.{joiner, grant_lem}
use my_mesh.Session.Join.Laws.{is_out_of_range_iff, IsTold, run_join_as_guest-IsTold}
use my_mesh.Examples.Plain.{plain_hex, plain_ed, plain_chrono}
use my_mesh.Examples.Table.{
  table_codec, table_decode, table_decode-encode, encode_first, encode_second,
}
use my_mesh.Examples.Devices.{alice, bob, id_of-IsId}

is_out_of_range_iff_example : (is_out_of_range (pos 7200) (pos 3600) ≡ false) ↔ (
    (distance (pos 7200) (pos 3600) ≤ 3600)
    ⊎ (distance (pos 7200) (pos 3600) ≡ 9223372036854775808))
is_out_of_range_iff_example = is_out_of_range_iff (pos 7200) (pos 3600) (omega arith)

abbrev alice_identity : Identity
alice_identity = record { secret = replicate 32 1 }

abbrev bob_identity : Identity
bob_identity = record { secret = replicate 32 2 }

abbrev request : ControlMessage
request = request_of ⦃ed = plain_ed⦄ bob_identity (98 ∷ []) (tcp ∷ []) (pos 0)

abbrev acceptance : ControlMessage
acceptance = accept_of ⦃ed = plain_ed⦄ alice_identity (97 ∷ [])

abbrev mesh : MeshState
mesh = new_mesh (109 ∷ []) 0

abbrev bob_joined : DeviceRecord
bob_joined = joiner ⦃hex = plain_hex⦄ 0 bob (98 ∷ []) (tcp ∷ []) mesh

abbrev snapshot : ControlMessage
snapshot =
    build_snapshot ⦃hex = plain_hex⦄ ⦃chrono = plain_chrono⦄ ⦃ed = plain_ed⦄ alice_identity
      (97 ∷ [])
      (upsert ⦃hex = plain_hex⦄ none bob_joined (record { devices = []; file = missing })).1 mesh 0
      0

-- A connection with Bob that gives one frame.
abbrev with_bob : Conn
with_bob = record { peer = bob; recv = ok (control_frame (0 ∷ [])); send = λ f. ok tt }

abbrev armed_host : HostFiles
armed_host = record {
  devices = missing;
  arm = holds (record { armed = true; until = none; armed_at = none });
  joins = record { pending = []; decisions = [] };
  mesh = holds mesh;
  sent = [];
}

-- A look that finds the host still armed, and no decision.
abbrev waiting : Look
waiting = record { arm = armed_host.arm; joins = armed_host.joins; now = 0 }

handle_join_as_host_safe_example :
    ((handle_join_as_host ⦃hex = plain_hex⦄ ⦃chrono = plain_chrono⦄ ⦃ed = plain_ed⦄
        ⦃codec = table_codec (request ∷ [])⦄ none 0
        (109 ∷ [])
        alice_identity
        (97 ∷ [])
        with_bob
        (waiting ∷ [])
        armed_host).1.devices
      ≡ missing)
    ⊎ ((a : ArmState) × (f : Frame) × (m : ControlMessage) × (load_arm armed_host.arm ≡ ok a)
        × (is_effectively_armed 0 a ≡ true)
        × (with_bob.recv ≡ ok f)
        × (table_decode (request ∷ []) f.payload ≡ ok m)
        × WasAsked ⦃hex = plain_hex⦄ ⦃chrono = plain_chrono⦄ ⦃ed = plain_ed⦄
            ⦃codec = table_codec (request ∷ [])⦄ none 0
            (109 ∷ [])
            alice_identity
            (97 ∷ [])
            with_bob
            m
            (waiting ∷ [])
            armed_host)
handle_join_as_host_safe_example =
    handle_join_as_host_safe ⦃hex = plain_hex⦄ ⦃chrono = plain_chrono⦄ ⦃ed = plain_ed⦄
      ⦃codec = table_codec (request ∷ [])⦄ none 0 (109 ∷ []) alice_identity (97 ∷ []) with_bob
      (waiting ∷ []) armed_host

opens : open_store armed_host.devices ≡ ok (record { devices = []; file = missing })
unfolding open_store
opens = refl

loads : (load_mesh none (109 ∷ []) 0 armed_host.mesh).0 ≡ ok mesh
unfolding load_mesh
loads = refl

abbrev grant_here : Result (Unit {0}) × HostFiles
grant_here =
    grant ⦃hex = plain_hex⦄ ⦃chrono = plain_chrono⦄ ⦃ed = plain_ed⦄
      ⦃codec = table_codec (acceptance ∷ snapshot ∷ [])⦄ none 0 (109 ∷ []) alice_identity (97 ∷ [])
      with_bob bob (98 ∷ []) (tcp ∷ []) armed_host

told_apart : acceptance ≢ snapshot
unfolding accept_of build_snapshot
told_apart e = absurd cc

grant_lem_example :
    (grant_here.0 ≡ ok tt)
    × ((s' : DeviceStore) × (open_store grant_here.1.devices ≡ ok s')
        × ((j : DeviceId)
            → get s' j ≡ (
                if bob == j
                then some bob_joined
                else get (record { devices = []; file = missing }) j)))
    × (grant_here.1.arm ≡ holds disarmed)
    × (grant_here.1.sent ≡ [] ++ control_frame (0 ∷ []) ∷ [] ++ control_frame (1 ∷ []) ∷ [])
grant_lem_example =
    grant_lem ⦃hex = plain_hex⦄ ⦃chrono = plain_chrono⦄ ⦃ed = plain_ed⦄
      ⦃codec = table_codec (acceptance ∷ snapshot ∷ [])⦄ 0 (109 ∷ []) alice_identity (97 ∷ [])
      with_bob bob (98 ∷ []) (tcp ∷ []) armed_host (record { devices = []; file = missing }) mesh
      (0 ∷ []) (1 ∷ []) (id_of-IsId 2 (omega arith)) (omega arith) opens tt loads
      (encode_first acceptance (snapshot ∷ [])) (encode_second snapshot acceptance [] told_apart)
      refl refl

abbrev wait_message : ControlMessage
wait_message =
    join_pending alice (97 ∷ [])
      (text "approve with: mymesh requests accept " ++ short ⦃hex = plain_hex⦄ bob)

-- The request and the message that it waits, in one table.
abbrev waiting_codec : Codec
waiting_codec = table_codec (wait_message ∷ request ∷ [])

abbrev with_bob_asking : Conn
with_bob_asking = record { peer = bob; recv = ok (control_frame (1 ∷ [])); send = λ f. ok tt }

abbrev guest_codec : Codec
guest_codec = table_codec (acceptance ∷ request ∷ [])

abbrev empty_node : Node
empty_node = record {
  store = record { devices = []; file = missing };
  mesh = missing;
  dirty = none;
}

abbrev alice_host : DeviceRecord
alice_host = joined_record ⦃hex = plain_hex⦄ 0 alice (record { name = 97 ∷ [] }) all_caps none

-- A connection with Alice, on which only what is sent counts.
abbrev with_alice : Conn
with_alice = record { peer = alice; recv = err (io 1); send = λ f. ok tt }

asked_apart : acceptance ≢ request
unfolding accept_of request_of
asked_apart e = absurd cc

accepts :
    accepted ⦃hex = plain_hex⦄ ⦃chrono = plain_chrono⦄ ⦃ed = plain_ed⦄ ⦃codec = guest_codec⦄ none 0
      [] bob_identity alice
      (97 ∷ [])
      all_caps
      (sign ⦃ed = plain_ed⦄ alice_identity (accept_material alice (97 ∷ [])))
      empty_node
    ≡ (
      ok alice_host,
      record empty_node { store = (upsert ⦃hex = plain_hex⦄ none alice_host empty_node.store).1 },
    )
unfolding accepted verify_accept upsert flush label_new truncate device_id
accepts =
    ground (arith, verify-sign ⦃ed = plain_ed⦄ alice_identity (accept_material alice (97 ∷ [])))

joins_alice :
    (run_join_as_guest ⦃hex = plain_hex⦄ ⦃chrono = plain_chrono⦄ ⦃ed = plain_ed⦄
      ⦃codec = guest_codec⦄ none 0 [] bob_identity with_alice
      (98 ∷ [])
      (tcp ∷ [])
      timed_out
      (control_frame (0 ∷ []) ∷ [])
      empty_node).0
    ≡ ok alice_host
unfolding run_join_as_guest send_control await_host at_end accept_of device_id
joins_alice = ground (
  arith,
  encode_second request acceptance [] asked_apart,
  table_decode-encode (acceptance ∷ request ∷ []) acceptance (0 ∷ [])
      (encode_first acceptance (request ∷ [])),
  accepts,
)

run_join_as_guest-IsTold_example :
    IsTold ⦃hex = plain_hex⦄ ⦃chrono = plain_chrono⦄ ⦃ed = plain_ed⦄ ⦃codec = guest_codec⦄ none 0 []
      bob_identity timed_out alice_host
      (control_frame (0 ∷ []) ∷ [])
run_join_as_guest-IsTold_example =
    run_join_as_guest-IsTold ⦃hex = plain_hex⦄ ⦃chrono = plain_chrono⦄ ⦃ed = plain_ed⦄
      ⦃codec = guest_codec⦄ none 0 [] bob_identity timed_out with_alice (98 ∷ []) (tcp ∷ [])
      (control_frame (0 ∷ []) ∷ []) empty_node alice_host joins_alice
