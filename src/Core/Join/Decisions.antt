-- ===== src/Core/Join/Decisions.antt =====
-- crates/mymesh-core/src/join.rs: a decision is taken once; the arm window closes by itself.
use my_mesh.Base.{
  ℕ, ◌+◌, ◌*◌, ◌≤◌, ◌≡◌, refl, true, false, Option, none, some, arith, ltb, if◌then◌else◌, ◌==◌,
  nat_eq, text_eq, ok, JsonFile, holds, Text,
}
use my_mesh.Base.Dict.{lookup, insert, lookup-insert, lookup-remove}
use my_mesh.Core.Identity.{Hex, DeviceId, id_eq}
use my_mesh.Core.Join.{
  Chrono, ArmState, is_effectively_armed, load_arm, save_arm, arm, arm_until, disarm, disarmed,
  PendingJoin, JoinDecision, JoinDecisionFile, JoinStore, file_name, write_pending, write_decision,
  taken, take_decision,
}

module _ ⦃chrono : Chrono⦄ where
  -- After `arm` for `ttl` seconds at `now` the file says armed exactly until `now + ttl`; after
  -- `disarm` it never does.
  pub arm_window :
      (now ttl later : ℕ) (file : JsonFile ArmState)
      → ttl ≤ 31536000
      → now + ttl * 1000000000 ≤ chrono.last
      → ((a : ArmState) × (load_arm (arm none now ttl file).1 ≡ ok a)
          × (is_effectively_armed later a ≡ ltb later (now + ttl * 1000000000)))
        × ((d : ArmState) × (load_arm (disarm none (arm none now ttl file).1).1 ≡ ok d)
            × (is_effectively_armed later d ≡ false))
  unfolding arm arm_until disarm load_arm save_arm is_effectively_armed
  arm_window now ttl later file small fits =
      rw (chrono.plus_secs_lem now ttl small fits, arm_until)
        (
          (
            record { armed = true; until = some (now + ttl * 1000000000); armed_at = some now },
            refl,
            refl,
          ),
          (disarmed, refl, refl),
        )

module _ ⦃hex : Hex⦄ where
  -- A decision that is written for a device is what its next `take_decision` returns, and the one
  -- after that finds none, nor does it find the request; requests of other devices are kept.
  pub take_decision-write_decision :
      (now : ℕ) (id : DeviceId) (d : JoinDecision) (s : JoinStore) (name : Text)
      → let s1 = (write_decision none now id d s).1 in
        let s2 = (take_decision id s1).1 in
        ((take_decision id s1).0 ≡ ok (some d))
        × ((take_decision id s2).0 ≡ ok none)
        × (lookup (file_name id) s2.pending ≡ none)
        × (lookup name s2.pending ≡ (if file_name id == name then none else lookup name s.pending))
  unfolding write_decision take_decision taken
  take_decision-write_decision now id d s name =
      let f = file_name id in
      let v : JsonFile JoinDecisionFile = holds (record { decision = d; decided_at = now }) in
      ground (
        arith,
        lookup-insert f f v s.decisions,
        lookup-remove f f (insert f v s.decisions),
        lookup-remove f f s.pending,
        lookup-remove name f s.pending,
      )

  -- A new request clears a decision that was left from before, so nobody is let in by an old one;
  -- other devices' decisions stay.
  pub take_decision-write_pending :
      (disk : Option ℕ) (p : PendingJoin) (s : JoinStore) (name : Text)
      → ((take_decision p.device_id (write_pending disk p s).1).0 ≡ ok none)
        × (lookup name (write_pending disk p s).1.decisions
            ≡ (if file_name p.device_id == name then none else lookup name s.decisions))
  unfolding write_pending take_decision taken
  take_decision-write_pending disk p s name =
      let f = file_name p.device_id in
      ground (arith, lookup-remove f f s.decisions, lookup-remove name f s.decisions)
