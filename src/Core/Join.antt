-- ===== src/Core/Join.antt =====
-- crates/mymesh-core/src/join.rs: the arm window, and the directories of pending requests and of
-- decisions. A file is named by the digits of its device's id; its JSON text is not modelled.
pub mod Decisions
use my_mesh.Base.{
  ℕ, ◌+◌, ◌-◌, ◌*◌, ◌≤◌, ◌≡◌, Bool, true, false, not, ◌&&◌, Option, none, some, List, [], ◌∷◌, ◌++◌,
  arith, ltb, if◌then◌else◌, length, drop, ◌==◌, nat_eq, text_eq, io, serialize, Result, ok, err,
  panic, ◌>>=◌, ◌>>◌, JsonFile, missing, corrupt, holds, Text, text, sort_by, ℤ,
}
use my_mesh.Base.Dict.{Dict, lookup, insert, remove}
use my_mesh.Core.Identity.{Hex, DeviceId, id_eq, to_string, fingerprint}
use my_mesh.Core.Device.{Capability}

-- `chrono`: `now + Duration::seconds(ttl as i64)`, which can panic; for a window of at most a year
-- it is a sum as long as it stays before the last time there is. Times are nanoseconds.
pub record Chrono : Type 0 where
  pub plus_secs : ℕ → ℕ → Result ℕ
  pub last : ℕ
  pub plus_secs_lem :
      (now secs : ℕ)
      → secs ≤ 31536000
      → now + secs * 1000000000 ≤ last
      → plus_secs now secs ≡ ok (now + secs * 1000000000)
  -- `timestamp_opt(secs, 0).single()` and `timestamp()`.
  pub of_unix : ℤ → Option ℕ
  pub to_unix : ℕ → ℤ

pub record ArmState : Type 0 where
  pub armed : Bool
  pub until : Option ℕ
  pub armed_at : Option ℕ

abbrev pub disarmed : ArmState
disarmed = record { armed = false; until = none; armed_at = none }

unfoldable pub is_effectively_armed : ℕ → ArmState → Bool
is_effectively_armed now a =
    if not a.armed then false else elim a.until [ none ↦ true | some t ↦ ltb now t ]

unfoldable pub load_arm : JsonFile ArmState → Result ArmState
load_arm missing = ok disarmed
load_arm (corrupt message) = err (serialize message)
load_arm (holds a) = ok a

-- `save` writes the file in place.
unfoldable pub save_arm :
    Option ℕ → ArmState → JsonFile ArmState → Result (Unit {0}) × JsonFile ArmState
save_arm none a file = (ok tt, holds a)
save_arm (some e) a file = (err (io e), file)

module _ ⦃chrono : Chrono⦄ where
  -- `arm`.
  unfoldable pub arm_until :
      Option ℕ → ℕ → Result ℕ → JsonFile ArmState → Result ArmState × JsonFile ArmState
  unfolding save_arm
  arm_until disk now (ok t) file =
      let a : ArmState = record { armed = true; until = some t; armed_at = some now } in
      let (r, file') = save_arm disk a file in (r >> ok a, file')
  arm_until disk now (err e) file = (err e, file)
  arm_until disk now panic file = (panic, file)

  unfoldable pub arm : Option ℕ → ℕ → ℕ → JsonFile ArmState → Result ArmState × JsonFile ArmState
  unfolding arm_until
  arm disk now ttl_secs file = arm_until disk now (chrono.plus_secs now ttl_secs) file

unfoldable pub disarm : Option ℕ → JsonFile ArmState → Result ArmState × JsonFile ArmState
unfolding save_arm
disarm disk file = let (r, file') = save_arm disk disarmed file in (r >> ok disarmed, file')

pub record PendingJoin : Type 0 where
  pub device_id : DeviceId
  pub label : Text
  pub capabilities : List Capability
  pub received_at : ℕ
  pub fingerprint : Text

pub data JoinDecision : Type 0 where
  accept : JoinDecision
  deny : Text → JoinDecision

pub record JoinDecisionFile : Type 0 where
  pub decision : JoinDecision
  pub decided_at : ℕ

pub record JoinStore : Type 0 where
  pub pending : Dict Text (JsonFile PendingJoin)
  pub decisions : Dict Text (JsonFile JoinDecisionFile)

-- `extension() == Some("json")` of a file name.
unfoldable pub is_json : Text → Bool
is_json name = let at = length name - 5 in ltb 5 (length name) && drop at name == text ".json"

-- The files with that extension, read in turn; the first that cannot be read ends the call.
unfoldable pub read_pending : Dict Text (JsonFile PendingJoin) → Result (List PendingJoin)
unfolding is_json
read_pending [] = ok []
read_pending ((name, holds p) ∷ d) =
    let rest = read_pending d in if is_json name then (do ps ← rest; ok (p ∷ ps)) else rest
read_pending ((name, corrupt message) ∷ d) =
    let rest = read_pending d in if is_json name then err (serialize message) else rest
read_pending ((name, missing) ∷ d) = read_pending d

-- `list_pending`: the oldest first.
unfoldable pub list_pending : JoinStore → Result (List PendingJoin)
unfolding read_pending
list_pending s = do
  ps ← read_pending s.pending
  ok (sort_by (λ a b. ltb a.received_at b.received_at) ps)

abbrev pub JoinCall : Type 0 → Type 0
JoinCall A = Result A × JoinStore

module _ ⦃hex : Hex⦄ where
  -- `{id}.json`.
  unfoldable pub file_name : DeviceId → Text
  file_name id = to_string id ++ text ".json"

  unfoldable pub write_pending : Option ℕ → PendingJoin → JoinStore → JoinCall (Unit {0})
  unfolding file_name
  write_pending disk p s =
      let s' : JoinStore = record s { decisions = remove (file_name p.device_id) s.decisions } in
      elim disk [
        | none ↦
            (ok tt, record s' { pending = insert (file_name p.device_id) (holds p) s'.pending })
        | some e ↦ (err (io e), s')
      ]

  unfoldable pub write_decision :
      Option ℕ → ℕ → DeviceId → JoinDecision → JoinStore → JoinCall (Unit {0})
  unfolding file_name
  write_decision disk now id decision s = elim disk [
    | none ↦ (
      ok tt,
      record s {
        decisions =
            insert (file_name id) (holds (record { decision = decision; decided_at = now }))
              s.decisions;
      },
    )
    | some e ↦ (err (io e), s)
  ]

  unfoldable pub clear_pending : DeviceId → JoinStore → JoinCall (Unit {0})
  unfolding file_name
  clear_pending id s = (
    ok tt,
    record s {
      pending = remove (file_name id) s.pending;
      decisions = remove (file_name id) s.decisions;
    },
  )

  -- A decision that is read is taken away, and the request with it.
  taken : DeviceId → Option (JsonFile JoinDecisionFile) → JoinStore → JoinCall (Option JoinDecision)
  unfolding file_name
  taken id none s = (ok none, s)
  taken id (some missing) s = (ok none, s)
  taken id (some (corrupt message)) s = (err (serialize message), s)
  taken id (some (holds f)) s = (
    ok (some f.decision),
    record s {
      pending = remove (file_name id) s.pending;
      decisions = remove (file_name id) s.decisions;
    },
  )

  unfoldable pub take_decision : DeviceId → JoinStore → JoinCall (Option JoinDecision)
  unfolding taken
  take_decision id s = taken id (lookup (file_name id) s.decisions) s
