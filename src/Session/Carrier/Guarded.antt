-- ===== src/Session/Carrier/Guarded.antt =====
-- crates/mymesh-session/src/carrier.rs: who may see the requests to join, and decide on them.
use my_mesh.Base.{
  ◌≡◌, sym, ◌∙◌, subst, ◌⊎◌, inl, inr, Bool, true, false, Option, List, arith, Bool-cases,
  Option-cases, Result-cases, any, ◌==◌, nat_eq, text_eq, Result, ok, Text,
}
use my_mesh.Core.Identity.{Hex, DeviceId, id_eq, from_str}
use my_mesh.Core.Join.{PendingJoin, JoinStore, list_pending, write_decision}
use my_mesh.Crypto.WordId.{Bip39}
use my_mesh.Session.Carrier.{Base64, Carrier, Moment, require_bootstrap}
use my_mesh.Session.Carrier.Handlers.{
  DecideRequest, Response, pending_list, Texts, open_joins, or_internal, authorized, decision_of,
  write_and_drop, decide_among, decide_for, pair_pending, pair_decide,
}
use my_mesh.Session.Carrier.LetIn.{IsLetIn, require_bootstrap_lem}
use my_mesh.Session.Carrier.Decide.{decided_joins}

module _ ⦃hex : Hex⦄ ⦃texts : Texts⦄ ⦃base64 : Base64⦄ ⦃bip39 : Bip39⦄ (t : Moment) where
  pub record IsDecided (body : DecideRequest) (s s' : JoinStore) : Type 0 where
    pub id : DeviceId
    pub listed : List PendingJoin
    pub named : from_str body.device_id_hex ≡ ok id
    pub lists : list_pending s ≡ ok listed
    pub asked : any (λ p. p.device_id == id) listed ≡ true
    pub joins : s' ≡ decided_joins t id (decision_of body).0 s

  decide_for_lem :
      (body : DecideRequest) (w : Carrier)
      → ((decide_for t (from_str body.device_id_hex) body w).1.joins ≡ w.joins)
        ⊎ IsDecided body w.joins (decide_for t (from_str body.device_id_hex) body w).1.joins
  unfolding decide_for open_joins or_internal decide_among write_and_drop write_decision
  decide_for_lem body w = elim (Result-cases (from_str body.device_id_hex)) [
    | inr bad ↦ inl (ground (arith, bad))
    | inl (id, named) ↦ elim (Option-cases t.directories) [
      | inr (e, fails) ↦ inl (ground (arith, named, fails))
      | inl makes ↦ elim (Result-cases (list_pending w.joins)) [
        | inr bad ↦ inl (ground (arith, named, makes, bad))
        | inl (listed, lists) ↦ elim (Bool-cases (any (λ p. p.device_id == id) listed)) [
          | inr nobody ↦ inl (ground (arith, named, makes, lists, nobody))
          | inl asked ↦ elim (Option-cases t.disk) [
            | inr (e, fails) ↦ inl (ground (arith, named, makes, lists, asked, fails))
            | inl writes ↦ inr (record {
              id = id;
              listed = listed;
              named = named;
              lists = lists;
              asked = asked;
              joins = ground (arith, named, makes, lists, asked, writes);
            })
          ]
        ]
      ]
    ]
  ]

  -- A request to decide changes no file of the joins, unless it bears the token that is kept in
  -- memory for the window that is open, and the host is armed both times that is looked at; then
  -- it wrote the decision that the body asks for, for a device that the body names and that asked
  -- to join, and took that device's request off the list.
  pub pair_decide_lem :
      (header : Option Text) (body : DecideRequest) (w : Carrier)
      → ((pair_decide t header body w).1.joins ≡ w.joins)
        ⊎ ((raw : Text) × IsLetIn t header w raw
            × IsDecided body w.joins (pair_decide t header body w).1.joins)
  unfolding pair_decide authorized
  pair_decide_lem header body w = elim (require_bootstrap_lem t header w) [
    | inl (refused, keeps) ↦ inl (ground (arith, refused, keeps))
    | inr (raw, accepts, keeps, proof) ↦
        let v = (require_bootstrap t header w).1 in
        let same : (pair_decide t header body w).1.joins
            ≡ (decide_for t (from_str body.device_id_hex) body v).1.joins =
          ground (arith, accepts) in
        elim (decide_for_lem body v) [
          | inl kept ↦ inl (same ∙ kept ∙ keeps.0)
          | inr d ↦ inr (
            raw,
            proof,
            subst (λ s. IsDecided body s (pair_decide t header body w).1.joins) keeps.0
                (subst (IsDecided body v.joins) (sym same) d),
          )
        ]
  ]

  abbrev pub tells_pending : Result Response → Bool
  tells_pending (ok (pending_list ps)) = true
  tells_pending _ = false

  -- A request for the list of those who ask to join changes no file of the joins, and it is
  -- answered with the list only if it bears the token that is kept in memory for the window that
  -- is open, and the host is armed both times that is looked at.
  pub pair_pending_lem :
      (header : Option Text) (w : Carrier)
      → ((pair_pending t header w).1.joins ≡ w.joins)
        × ((tells_pending (pair_pending t header w).0 ≡ false)
            ⊎ ((raw : Text) × IsLetIn t header w raw))
  unfolding pair_pending authorized open_joins or_internal
  pair_pending_lem header w = elim (require_bootstrap_lem t header w) [
    | inl (refused, keeps) ↦ (ground (arith, refused, keeps), inl (ground (arith, refused)))
    | inr (raw, accepts, keeps, proof) ↦
        let v = (require_bootstrap t header w).1 in
        let stays : (pair_pending t header w).1.joins ≡ v.joins =
          elim (Option-cases t.directories) [
            | inr (e, fails) ↦ ground (arith, accepts, fails)
            | inl makes ↦ elim (Result-cases (list_pending v.joins)) [
              | inr bad ↦ ground (arith, accepts, makes, bad)
              | inl (ps, lists) ↦ ground (arith, accepts, makes, lists)
            ]
          ] in
        (stays ∙ keeps.0, inr (raw, proof))
  ]
