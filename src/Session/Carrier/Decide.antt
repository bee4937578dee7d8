-- ===== src/Session/Carrier/Decide.antt =====
-- crates/mymesh-session/src/carrier.rs: what a decision on a request to join does.
use my_mesh.Base.{
  ℕ, ◌≡◌, refl, ap, ◌∙◌, inl, inr, Bool, true, false, Option, none, some, List, [], ◌∷◌, ◌++◌,
  arith, ltb, Bool-cases, Result-cases, any, ◌==◌, text_discrete, nat_eq, text_eq, ok, JsonFile,
  missing, corrupt, holds, Text, text, sort_by, any-sort_by,
}
use my_mesh.Base.Stateful.{Stateful}
use my_mesh.Base.Dict.{Dict, insert, remove, lookup-insert}
use my_mesh.Core.Identity.{Hex, DeviceId, DeviceId-discrete, id_eq, from_str}
use my_mesh.Core.Join.{
  load_arm, PendingJoin, JoinDecision, JoinDecisionFile, JoinStore, list_pending, read_pending,
  is_json, file_name, write_decision, take_decision,
}
use my_mesh.Crypto.WordId.{Bip39}
use my_mesh.Session.Carrier.{Base64, Carrier, Moment, require_bootstrap}
use my_mesh.Session.Carrier.Handlers.{
  DecideRequest, Response, decided, Texts, open_joins, or_internal, authorized, decision_of,
  write_and_drop, decide_among, decide_for, pair_decide,
}
use my_mesh.Session.Carrier.Token.{IsRaw, IsWindow}
use my_mesh.Session.Carrier.LetIn.{require_bootstrap_own}

-- A request lies in the file that is named by its device.
abbrev IsNamedEntry : ⦃hex : Hex⦄ → Text → JsonFile PendingJoin → Type 0
IsNamedEntry name (holds p) = name ≡ file_name p.device_id
IsNamedEntry name _ = Unit

abbrev pub IsNamed : ⦃hex : Hex⦄ → Dict Text (JsonFile PendingJoin) → Type 0
IsNamed [] = Unit
IsNamed ((name, f) ∷ d) = IsNamedEntry name f × IsNamed d

abbrev is_of : DeviceId → PendingJoin → Bool
is_of id p = p.device_id == id

module _ ⦃hex : Hex⦄ (id : DeviceId) where
  -- Without its file a device is not among the requests.
  removed_lem :
      (d : Dict Text (JsonFile PendingJoin)) (ps : List PendingJoin)
      → IsNamed d
      → read_pending d ≡ ok ps
      → (qs : List PendingJoin) × (read_pending (remove (file_name id) d) ≡ ok qs)
        × (any (is_of id) qs ≡ false)
  unfolding read_pending remove
  removed_lem [] ps n h = ([], refl, refl)
  removed_lem ((name, missing) ∷ d) ps n h =
      let (qs, reads, none_of) = removed_lem d ps n.1 h in (qs, ground (arith, reads), none_of)
  removed_lem ((name, corrupt message) ∷ d) ps n h = elim (Bool-cases (is_json name)) [
    | inl json ↦ absurd (ground (arith, json, h))
    | inr skipped ↦
        let (qs, reads, none_of) = removed_lem d ps n.1 (ground (arith, skipped, h)) in
        (qs, ground (arith, skipped, reads), none_of)
  ]
  removed_lem ((name, holds p) ∷ d) ps n h = elim (Bool-cases (is_json name)) [
    | inr skipped ↦
        let (qs, reads, none_of) = removed_lem d ps n.1 (ground (arith, skipped, h)) in
        (qs, ground (arith, skipped, reads), none_of)
    | inl json ↦ elim (Result-cases (read_pending d)) [
      | inr bad ↦ absurd (ground (arith, json, bad, h))
      | inl (rest, rest_reads) ↦
          let (qs, reads, none_of) = removed_lem d rest n.1 rest_reads in
          elim (DeviceId-discrete p.device_id id) [
            | yes same ↦ (qs, ground (arith, n.0, ap file_name same, reads), none_of)
            | no differs ↦ elim (text_discrete name (file_name id)) [
              | yes named ↦ (qs, ground (arith, named, reads), none_of)
              | no else_ ↦
                  (p ∷ qs, ground (arith, json, else_, reads), ground (arith, differs, none_of))
            ]
          ]
    ]
  ]

  list_pending-remove :
      (s : JoinStore) (ds : Dict Text (JsonFile JoinDecisionFile)) (ps : List PendingJoin)
      → IsNamed s.pending
      → list_pending s ≡ ok ps
      → (qs : List PendingJoin) × (list_pending
            (record { pending = remove (file_name id) s.pending; decisions = ds })
          ≡ ok qs)
        × (any (is_of id) qs ≡ false)
  unfolding list_pending
  list_pending-remove s ds ps n h = elim (Result-cases (read_pending s.pending)) [
    | inr bad ↦ absurd (ground (arith, bad, h))
    | inl (rest, rest_reads) ↦
        let (qs, reads, none_of) = removed_lem s.pending rest n rest_reads in
        (
          sort_by (λ a b. ltb a.received_at b.received_at) qs,
          ground (arith, reads),
          any-sort_by _ _ qs ∙ none_of,
        )
  ]

module _ ⦃hex : Hex⦄ ⦃texts : Texts⦄ ⦃base64 : Base64⦄ ⦃bip39 : Bip39⦄ (t : Moment) where
  -- A decision is written for a device that asked to join, and its request is off the list.
  abbrev pub decided_joins : DeviceId → JoinDecision → JoinStore → JoinStore
  decided_joins id d s = record {
    pending = remove (file_name id) s.pending;
    decisions =
        insert (file_name id) (holds (record { decision = d; decided_at = t.later })) s.decisions;
  }

  moved-IsWindow :
      {w : Carrier} {now until : ℕ} (v : Carrier)
      → IsWindow w now until
      → v.arm_file ≡ w.arm_file
      → IsWindow v now until
  moved-IsWindow v win same = record {
    arm = win.arm;
    loads = ap load_arm same ∙ win.loads;
    armed = win.armed;
    ends = win.ends;
  }

  authorized_lem :
      (header : Option Text) (w : Carrier) (raw : Text)
      → require_bootstrap t header w ≡ (inr raw, w)
      → (go : Stateful Carrier Response) → authorized t header go w ≡ go w
  unfolding authorized
  authorized_lem header w raw e go = ground (arith, e)

  module _ (writes : t.disk ≡ none) (makes : t.directories ≡ none) where
    decide_some :
        (id : DeviceId) (body : DecideRequest) (w : Carrier) (listed : List PendingJoin)
        → from_str body.device_id_hex ≡ ok id
        → list_pending w.joins ≡ ok listed
        → any (λ p. p.device_id == id) listed ≡ true
        → decide_for t (from_str body.device_id_hex) body w ≡ (
          ok (decided (decision_of body).1),
          record w { joins = decided_joins id (decision_of body).0 w.joins },
        )
    unfolding decide_for open_joins or_internal decide_among write_and_drop write_decision
    decide_some id body w listed named lists asked =
        ground (arith, writes, makes, named, lists, asked)

    decide_none :
        (id : DeviceId) (body : DecideRequest) (w : Carrier) (listed : List PendingJoin)
        → from_str body.device_id_hex ≡ ok id
        → list_pending w.joins ≡ ok listed
        → any (λ p. p.device_id == id) listed ≡ false
        → decide_for t (from_str body.device_id_hex) body w ≡ (ok (decided (text "not_found")), w)
    unfolding decide_for open_joins or_internal decide_among
    decide_none id body w listed named lists nobody = ground (arith, makes, named, lists, nobody)

  decision_taken :
      (id : DeviceId) (d : JoinDecision) (s : JoinStore)
      → (take_decision id (decided_joins id d s)).0 ≡ ok (some d)
  unfolding take_decision
  decision_taken id d s = ground (
    arith,
    lookup-insert (file_name id) (file_name id)
        (holds (record { decision = d; decided_at = t.later })) s.decisions,
  )

  -- Where the host is armed and the disk takes the writes, a request that bears the token of the
  -- window, and names a device that is on a list whose requests lie in the files named by their
  -- devices, is answered with the decision; the next `take_decision` of the device returns it, and
  -- a second request for the device finds nobody and changes nothing.
  pub pair_decide_own :
      (raw : Text) (until : ℕ) (w : Carrier) (id : DeviceId) (body again : DecideRequest)
      (listed : List PendingJoin)
      → IsRaw raw
      → w.bootstrap ≡ some (record { raw = raw; until = until })
      → IsWindow w t.now until
      → IsWindow w t.later until
      → t.disk ≡ none
      → t.directories ≡ none
      → from_str body.device_id_hex ≡ ok id
      → from_str again.device_id_hex ≡ ok id
      → IsNamed w.joins.pending
      → list_pending w.joins ≡ ok listed
      → any (λ p. p.device_id == id) listed ≡ true
      → let after : Carrier = record w { joins = decided_joins id (decision_of body).0 w.joins } in
        (pair_decide t (some (text "Bearer " ++ base64.encode raw)) body w
          ≡ (ok (decided (decision_of body).1), after))
        × ((take_decision id after.joins).0 ≡ ok (some (decision_of body).0))
        × (pair_decide t (some (text "Bearer " ++ base64.encode raw)) again after
            ≡ (ok (decided (text "not_found")), after))
  unfolding pair_decide authorized
  pair_decide_own raw until w id body again listed v e first second writes makes named named_again
        files lists asked =
      let after : Carrier = record w { joins = decided_joins id (decision_of body).0 w.joins } in
      let lets_in = require_bootstrap_own t raw until w v e first second in
      let lets_in_again =
        require_bootstrap_own t raw until after v e (moved-IsWindow after first refl)
          (moved-IsWindow after second refl) in
      let (left, lists_left, none_of) =
        list_pending-remove id w.joins after.joins.decisions listed files lists in
      (
        authorized_lem _ w raw lets_in (decide_for t (from_str body.device_id_hex) body)
            ∙ decide_some writes makes id body w listed named lists asked,
        decision_taken id (decision_of body).0 w.joins,
        authorized_lem _ after raw lets_in_again (decide_for t (from_str again.device_id_hex) again)
            ∙ decide_none writes makes id again after left named_again lists_left none_of,
      )
