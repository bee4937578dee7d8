-- ===== src/Session/MeshSync/Materials.antt =====
-- crates/mymesh-session/src/mesh_sync.rs: what a signature of a roster, a kick or a leave covers.
use mathlib.Core.Logic.{∥∥₁_elim}
use mathlib.Core.List.{Perm, Permᴰ}
use mathlib.Core.HLevel.{hedberg}
use my_mesh.Base.{
  ℕ, ◌≡◌, refl, ap, ◌∙◌, ◌≢◌, List, [], ◌∷◌, map, arith, ℕ_discrete, get_or, nat_eq, text_eq, ok,
  Text, text, text_lt, sort_by, text_lt_asymm, text_lt_connected, ℤ, text_lt_le_trans,
}
use my_mesh.Core.Identity.{Hex, DeviceId, id_eq, to_string}
use my_mesh.Base.{insert_sorted}
use my_mesh.Crypto.Identity.{Ed25519, Identity, device_id, verify-sign}
use my_mesh.Protocol.Messages.{MeshMemberWire}
use my_mesh.Session.MeshSync.{
  membership_material, kick_material, leave_ack_material, sign_membership, verify_membership,
  sign_kick, verify_kick, sign_leave_ack, verify_leave_ack,
}

text_list_discrete : Discrete (List Text)
text_list_discrete = hlevel ℕ_discrete

insert_sorted_swap :
    (a b : Text) (xs : List Text)
    → insert_sorted text_lt a (insert_sorted text_lt b xs)
      ≡ insert_sorted text_lt b (insert_sorted text_lt a xs)
unfolding insert_sorted
insert_sorted_swap a b [] = ground (arith, text_lt_asymm a b, text_lt_connected a b)
insert_sorted_swap a b (x ∷ xs) = ground (
  arith,
  insert_sorted_swap a b xs,
  text_lt_asymm a b,
  text_lt_connected a b,
  text_lt_le_trans b x a,
  text_lt_le_trans a x b,
  text_lt_le_trans x a b,
  text_lt_le_trans x b a,
)

sort_by-Permᴰ : {xs ys : List Text} → Permᴰ xs ys → sort_by text_lt xs ≡ sort_by text_lt ys
unfolding sort_by
sort_by-Permᴰ Permᴰ.nil = refl
sort_by-Permᴰ (Permᴰ.cons {a} e p) = rw (← e) (ap (insert_sorted text_lt a) (sort_by-Permᴰ p))
sort_by-Permᴰ (Permᴰ.swap {a} {b} {l = l} e f) =
    rw (← e, ← f) (insert_sorted_swap a b (sort_by text_lt l))
sort_by-Permᴰ (Permᴰ.trans p q) = sort_by-Permᴰ p ∙ sort_by-Permᴰ q

-- Sorted, a list of texts does not depend on the order that it had.
pub sort_by-Perm : (xs ys : List Text) → Perm xs ys → sort_by text_lt xs ≡ sort_by text_lt ys
sort_by-Perm xs ys p = ∥∥₁_elim p (hedberg text_list_discrete _ _) sort_by-Permᴰ

module _ ⦃hex : Hex⦄ ⦃ed : Ed25519⦄ where
  -- A roster that a node signs verifies under the node's id, however its members are ordered, and
  -- whatever labels, fingerprints, capabilities and times stand beside the ids: the signature
  -- covers the mesh id, the teller, the time and the set of ids.
  pub verify_membership-sign_membership :
      (i : Identity) (mesh_id : Text) (ts : ℤ) (signed told : List MeshMemberWire)
      → Perm (map (λ m. to_string m.id) told) (map (λ m. to_string m.id) signed)
      → verify_membership
          (device_id i)
          mesh_id
          ts
          told
          (sign_membership i mesh_id (device_id i) ts signed)
        ≡ ok tt
  unfolding verify_membership sign_membership membership_material
  verify_membership-sign_membership i mesh_id ts signed told p =
      rw (sort_by-Perm _ _ p) (verify-sign i _)

-- A kick and a leave verify under the key of the node that signs them.
pub kick_signed :
    ⦃ed : Ed25519⦄ (i : Identity) (mesh_id : Text) (target by : DeviceId) (ts : ℤ)
    → (verify_kick mesh_id target (device_id i) ts (sign_kick i mesh_id target ts) ≡ ok tt)
      × (verify_leave_ack mesh_id (device_id i) by ts (sign_leave_ack i mesh_id by ts) ≡ ok tt)
unfolding verify_kick sign_kick verify_leave_ack sign_leave_ack
kick_signed i mesh_id target by ts = (
  verify-sign i (kick_material mesh_id target (device_id i) ts),
  verify-sign i (leave_ack_material mesh_id (device_id i) by ts),
)

byte_at : ℕ → Text → ℕ
byte_at i s = get_or s i 0

-- The materials of the three kinds of statement never coincide, whatever they are about.
pub materials_apart :
    ⦃hex : Hex⦄ (mesh mesh' mesh'' : Text) (a b c d e : DeviceId) (t t' t'' : ℤ)
    (members : List MeshMemberWire)
    → (kick_material mesh a b t ≢ leave_ack_material mesh' c d t')
      × (kick_material mesh a b t ≢ membership_material mesh'' e t'' members)
      × (leave_ack_material mesh' c d t' ≢ membership_material mesh'' e t'' members)
unfolding kick_material leave_ack_material membership_material text byte_at
materials_apart mesh mesh' mesh'' a b c d e t t' t'' members = (
  λ h. omega (arith, ap (byte_at 12) h),
  λ h. omega (arith, ap (byte_at 7) h),
  λ h. omega (arith, ap (byte_at 7) h),
)
