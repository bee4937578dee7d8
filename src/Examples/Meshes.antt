-- ===== src/Examples/Meshes.antt =====
-- The statements on the mesh, on kicks and on joins, tried.
use my_mesh.Base.{
  ◌≡◌, refl, ◌↔◌, Bool, true, false, none, some, [], ◌∷◌, arith, contains, nat_eq, text_eq, ok,
  missing, Text, pos,
}
use my_mesh.Base.Dict.{lookup}
use my_mesh.Core.Identity.{id_eq}
use my_mesh.Core.Mesh.{
  MeshState, new_mesh, u64_max, PendingKick, PendingKickStore, get_kick, add_ack, gc_completed,
}
use my_mesh.Core.Mesh.MeshId.{adopt_all, adopt_all-converges}
use my_mesh.Core.Mesh.Acks.{add_ack-gc}
use my_mesh.Core.Join.{PendingJoin, JoinStore, write_pending}
use my_mesh.Examples.Plain.{plain_hex}
use my_mesh.Examples.Devices.{alice, bob, carol}

abbrev mesh_a : MeshState
mesh_a = new_mesh (97 ∷ []) 5

abbrev mesh_b : MeshState
mesh_b = new_mesh (98 ∷ []) 6

same_ids :
    (v : Text)
    → contains (mesh_a.mesh_id ∷ (98 ∷ []) ∷ (98 ∷ []) ∷ []) v
      ≡ contains (mesh_b.mesh_id ∷ (97 ∷ []) ∷ []) v
unfolding new_mesh
same_ids v = ground arith

adopt_all-converges_example :
    (adopt_all ((98 ∷ []) ∷ (98 ∷ []) ∷ []) mesh_a).mesh_id
    ≡ (adopt_all ((97 ∷ []) ∷ []) mesh_b).mesh_id
adopt_all-converges_example =
    adopt_all-converges ((98 ∷ []) ∷ (98 ∷ []) ∷ []) ((97 ∷ []) ∷ []) mesh_a mesh_b same_ids

abbrev last_mesh : MeshState
last_mesh = record mesh_a { roster_generation = u64_max }

abbrev kick : Bool → PendingKick
kick forced = record {
  target_id = bob;
  target_label = [];
  by_id = alice;
  by_label = [];
  mesh_id = [];
  message = [];
  ts = pos 7;
  signature = [];
  force = forced;
  created_at = 7;
  delivered_to_target = true;
  acks = [];
  expected = carol ∷ [];
}

abbrev kicks_of : Bool → PendingKickStore
kicks_of forced = record { kicks = (bob, kick forced) ∷ []; file = missing }

found_kick : (forced : Bool) → get_kick (kicks_of forced) bob ≡ some (kick forced)
unfolding get_kick lookup
found_kick forced = ground arith

add_ack-gc_example : ((add_ack ⦃hex = plain_hex⦄ none bob carol (kicks_of false)).0 ≡ ok true) ↔ (
    get_kick
      (gc_completed ⦃hex = plain_hex⦄ none 9
        (add_ack ⦃hex = plain_hex⦄ none bob carol (kicks_of false)).1).1
      bob
    ≡ none)
unfolding lookup
add_ack-gc_example =
    add_ack-gc ⦃hex = plain_hex⦄ bob carol 9 (kicks_of false) (kick false) (refl, tt)
      (found_kick false) refl

abbrev request : PendingJoin
request = record {
  device_id = bob;
  label = [];
  capabilities = [];
  received_at = 5;
  fingerprint = [];
}

abbrev one_request : JoinStore
one_request =
    (write_pending ⦃hex = plain_hex⦄ none request (record { pending = []; decisions = [] })).1
