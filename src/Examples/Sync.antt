-- ===== src/Examples/Sync.antt =====
-- The statements on rosters and kicks, tried.
use my_mesh.Base.{
  ℕ, ◌≡◌, refl, ap, ◌≢◌, ◌⊎◌, false, not, ◌&&◌, ◌||◌, none, some, List, [], ◌∷◌, map, arith,
  ℕ_discrete, if◌then◌else◌, get_or, replicate, All, ◌==◌, contains, text_discrete, nat_eq, text_eq,
  serialize, Result, ok, err, missing, corrupt, holds, Text, text_lt, sort_by, pos,
}
use my_mesh.Base.Dict.{lookup, insert}
use my_mesh.Core.Identity.{DeviceId, DeviceId-discrete, id_eq, IsId, to_string, label_new}
use my_mesh.Core.Device.{get, is_trusted, list}
use my_mesh.Core.Mesh.{new_mesh}
use my_mesh.Crypto.Identity.{Identity, device_id}
use my_mesh.Protocol.Messages.{MeshMemberWire}
use my_mesh.Session.MeshSync.{members_from_store, build_membership}
use my_mesh.Session.MeshSync.Apply.{Node, merge_member, apply_membership}
use my_mesh.Session.MeshSync.Apply.Whole.{apply_membership_store}
use my_mesh.Session.MeshSync.Apply.Kept.{Extends, trusted_part}
use my_mesh.Session.MeshSync.Apply.Total.{apply_membership_returns}
use my_mesh.Session.MeshSync.Roster.{apply_membership-build_membership}
use my_mesh.Session.MeshSync.Kicks.{
  KickNode, notice_text, apply_kick_notice_local, apply_kick_notice_local_lem,
}
use my_mesh.Examples.Plain.{encode, plain_hex, plain_chrono, plain_ed}
use my_mesh.Examples.Devices.{alice, bob, carol, two_device_store, two_devices-IsKeyed, id_of-IsId}

abbrev alice_identity : Identity
alice_identity = record { secret = replicate 32 1 }

abbrev member : DeviceId → MeshMemberWire
member id = record {
  id = id;
  label = 109 ∷ [];
  fingerprint = [];
  capabilities = [];
  linked_at_unix = pos 1;
}

abbrev roster : List MeshMemberWire
roster = member bob ∷ member carol ∷ []

abbrev alice_node : Node
alice_node = record { store = two_device_store; mesh = holds (new_mesh (98 ∷ []) 5); dirty = none }

abbrev told : Result ℕ × Node
told =
    apply_membership ⦃hex = plain_hex⦄ ⦃chrono = plain_chrono⦄ none 9 [] bob (97 ∷ []) roster alice
      alice_node

told_one : told.0 ≡ ok 1
unfolding apply_membership merge_member DeviceId-discrete text_discrete ℕ_discrete label_new get
    lookup insert is_trusted
told_one = refl

bob_not_alice : bob ≢ alice
bob_not_alice h = omega (arith, ap (λ (d : DeviceId). get_or d.bytes 0 0) h)

roster-IsId : All (λ m. IsId m.id) roster
roster-IsId = (id_of-IsId 2 (omega arith), (id_of-IsId 3 (omega arith), tt))

-- Bob tells Alice of himself, whom she trusts, and of Carol, whom she had revoked.
apply_membership_store_example :
    (get told.1.store alice ≡ get two_device_store alice)
    × (is_trusted told.1.store carol ≡ (
        is_trusted two_device_store carol
        || contains (map (λ m. m.id) roster) carol && not (carol == alice)))
    × Extends (trusted_part (get two_device_store carol)) (trusted_part (get told.1.store carol))
apply_membership_store_example =
    apply_membership_store ⦃hex = plain_hex⦄ ⦃chrono = plain_chrono⦄ none 9 alice [] bob (97 ∷ [])
      roster alice_node told.1 1 carol roster-IsId two_devices-IsKeyed bob_not_alice
      (ap (λ r. (r, told.1)) told_one)

abbrev carol_node : Node
carol_node = record {
  store = record { devices = []; file = missing };
  mesh = missing;
  dirty = none;
}

abbrev heard : Result ℕ × Node
heard =
    let m =
      build_membership ⦃hex = plain_hex⦄ ⦃chrono = plain_chrono⦄ ⦃ed = plain_ed⦄ alice_identity
        (97 ∷ []) two_device_store (new_mesh (98 ∷ []) 5) 6 in
    apply_membership ⦃hex = plain_hex⦄ ⦃chrono = plain_chrono⦄ none 9 (99 ∷ []) m.from_id m.mesh_id
      m.members carol carol_node

heard_two : heard.0 ≡ ok 2
unfolding apply_membership build_membership members_from_store sort_by list text_lt
    DeviceId-discrete text_discrete device_id ℕ_discrete to_string encode merge_member label_new get
    lookup insert is_trusted
heard_two = refl

alice_not_carol : device_id ⦃ed = plain_ed⦄ alice_identity ≢ carol
unfolding device_id
alice_not_carol h = omega (arith, ap (λ (d : DeviceId). get_or d.bytes 0 0) h)

alice_identity-IsId : IsId (device_id ⦃ed = plain_ed⦄ alice_identity)
unfolding device_id
alice_identity-IsId = id_of-IsId 1 (omega arith)

-- Alice tells Carol of herself and of Bob.
apply_membership-build_membership_example : is_trusted heard.1.store bob ≡ (
    is_trusted carol_node.store bob
    || (device_id ⦃ed = plain_ed⦄ alice_identity == bob || is_trusted two_device_store bob)
      && not (bob == carol))
apply_membership-build_membership_example =
    apply_membership-build_membership ⦃hex = plain_hex⦄ ⦃chrono = plain_chrono⦄ ⦃ed = plain_ed⦄
      alice_identity (97 ∷ []) two_device_store (new_mesh (98 ∷ []) 5) 6 none 9 carol (99 ∷ [])
      carol_node heard.1 2 bob alice_identity-IsId two_devices-IsKeyed tt alice_not_carol
      (ap (λ r. (r, heard.1)) heard_two)

abbrev kicked : KickNode
kicked = record {
  store = two_device_store;
  mesh = holds (new_mesh (98 ∷ []) 5);
  notice = none;
  dirty = none;
}

apply_kick_notice_local_lem_example :
    let (r, w') =
      apply_kick_notice_local ⦃hex = plain_hex⦄ none []
        (120 ∷ [])
        9
        alice
        (97 ∷ [])
        (98 ∷ [])
        kicked in
    ((m : Text) × (kicked.mesh ≡ corrupt m) × (r ≡ err (serialize m)) × (w' ≡ kicked))
    ⊎ ((r ≡ ok tt)
        × (get w'.store bob
            ≡ (if is_trusted two_device_store bob then none else get two_device_store bob))
        × (is_trusted w'.store bob ≡ false)
        × (w'.mesh
            ≡ holds (record (new_mesh (120 ∷ []) 9) {
              last_kick_notice =
                  some (record { by_id = alice; by_label = 97 ∷ []; message = 98 ∷ []; at = 9 });
            }))
        × (w'.notice ≡ some (notice_text ⦃hex = plain_hex⦄ alice (97 ∷ []) (98 ∷ []))))
apply_kick_notice_local_lem_example =
    apply_kick_notice_local_lem ⦃hex = plain_hex⦄ [] (120 ∷ []) 9 alice (97 ∷ []) (98 ∷ []) kicked
      bob two_devices-IsKeyed

apply_membership_returns_example :
    (n : ℕ) × ((apply_membership ⦃hex = plain_hex⦄ ⦃chrono = plain_chrono⦄ none 9 [] bob
        (97 ∷ [])
        roster
        alice
        alice_node).0
      ≡ ok n)
apply_membership_returns_example =
    apply_membership_returns ⦃hex = plain_hex⦄ ⦃chrono = plain_chrono⦄ 9 [] bob (97 ∷ []) roster
      alice alice_node tt (omega arith, (omega arith, tt))
