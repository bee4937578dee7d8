-- ===== src/Core/Mesh/MeshId.antt =====
-- crates/mymesh-core/src/mesh.rs: nodes that hear of the same mesh ids settle on the same one.
use my_mesh.Base.{
  ◌≤◌, ◌≡◌, sym, ◌∙◌, ◌↔◌, inl, inr, true, false, List, [], ◌∷◌, arith, Bool-cases, contains,
  nat_eq, text_eq, Text, text_lt, text_lt_irrefl, text_lt_trans, text_lt_connected,
  text_lt_le_trans,
}
use my_mesh.Core.Mesh.{MeshState, adopt_mesh_id, bump_generation, u64_max}

-- The mesh ids that a node hears of, in the order in which it does.
unfoldable pub adopt_all : List Text → MeshState → MeshState
adopt_all [] m = m
adopt_all (t ∷ ts) m = adopt_all ts (adopt_mesh_id t m)

-- The least text of a list.
pub record IsLeast (t : Text) (ts : List Text) : Type 0 where
  pub present : contains ts t ≡ true
  pub least : (u : Text) → contains ts u ≡ true → text_lt u t ≡ false

IsLeast-unique :
    (t u : Text) (ts us : List Text)
    → IsLeast t ts
    → IsLeast u us
    → ((v : Text) → contains ts v ≡ contains us v)
    → t ≡ u
IsLeast-unique t u ts us lt lu same =
    text_lt_connected t u (lu.least t (sym (same t) ∙ lt.present))
      (lt.least u (same u ∙ lu.present))

-- What a node has after hearing of the ids `ts` is the least of them and its own.
pub adopt_all-IsLeast :
    (ts : List Text) (m : MeshState) → IsLeast (adopt_all ts m).mesh_id (m.mesh_id ∷ ts)
unfolding adopt_all adopt_mesh_id
adopt_all-IsLeast [] m = record {
  present = ground arith;
  least = λ u h. ground (arith, text_lt_irrefl m.mesh_id);
}
adopt_all-IsLeast (t ∷ ts) m =
    let m' = adopt_mesh_id t m in
    let ih = adopt_all-IsLeast ts m' in
    let r = (adopt_all ts m').mesh_id in
    record {
      present = ground (arith, ih.present);
      least = λ u h. elim (Bool-cases (text_lt u r)) [
        | inr e ↦ e
        | inl e ↦ ground (
          arith,
          ih.least u,
          ih.least t,
          ih.least m.mesh_id,
          text_lt_trans t m.mesh_id r,
          text_lt_le_trans m.mesh_id t r,
        )
      ];
    }

-- Two nodes that have heard of the same ids, each its own among them, have the same mesh id,
-- in whatever order and however often they heard of them.
pub adopt_all-converges :
    (ts us : List Text) (m n : MeshState)
    → ((v : Text) → contains (m.mesh_id ∷ ts) v ≡ contains (n.mesh_id ∷ us) v)
    → (adopt_all ts m).mesh_id ≡ (adopt_all us n).mesh_id
adopt_all-converges ts us m n same =
    IsLeast-unique _ _ (m.mesh_id ∷ ts) (n.mesh_id ∷ us) (adopt_all-IsLeast ts m)
      (adopt_all-IsLeast us n) same

-- The generation grows by one until it stays at the greatest `u64`.
pub bump_generation_lem :
    (m : MeshState)
    → m.roster_generation ≤ u64_max
    → ((bump_generation m).roster_generation ≤ u64_max)
      × (m.roster_generation ≤ (bump_generation m).roster_generation)
      × (((bump_generation m).roster_generation ≡ m.roster_generation)
          ↔ (m.roster_generation ≡ u64_max))
      × ((bump_generation m).mesh_id ≡ m.mesh_id)
unfolding bump_generation
bump_generation_lem m h = ground arith
