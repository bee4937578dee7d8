-- ===== src/Core/Mesh.antt =====
-- crates/mymesh-core/src/mesh.rs: the mesh's own record, and the kicks that wait for delivery.
-- A call returns its result with the store it leaves. `disk` is what the operating system answers to
-- the writes. The dirty marker is the time of its last write.
pub mod MeshId
pub mod Acks
use my_mesh.Base.{
  ℕ, ◌+◌, ◌-◌, ◌/◌, ◌^◌, min, Bool, true, false, not, ◌&&◌, ◌||◌, Option, none, some, List, [], ◌∷◌,
  ◌++◌, arith, ltb, leb, if◌then◌else◌, length, all, ◌==◌, contains, nat_eq, text_eq, io, serialize,
  Result, ok, err, ◌>>=◌, ◌>>◌, JsonFile, missing, corrupt, holds, Text, text_lt, sort_by, ℤ,
}
use my_mesh.Base.Dict.{Dict, values, lookup, insert, remove}
use my_mesh.Core.Identity.{Hex, DeviceId, id_eq, to_string, fingerprint}
use my_mesh.Core.Device.{Capability, collect}

pub record MeshMember : Type 0 where
  pub id : DeviceId
  pub label : Text
  pub fingerprint : Text
  pub capabilities : List Capability
  pub linked_at : ℕ

pub record KickNoticeRecord : Type 0 where
  pub by_id : DeviceId
  pub by_label : Text
  pub message : Text
  pub at : ℕ

pub record MeshState : Type 0 where
  pub mesh_id : Text
  pub created_at : ℕ
  pub last_sync : Option ℕ
  pub last_kick_notice : Option KickNoticeRecord
  pub roster_generation : ℕ

abbrev pub u64_max : ℕ
u64_max = 2 ^ 64 - 1

-- `uuid` is the fresh identifier, `now` the time.
unfoldable pub new_mesh : Text → ℕ → MeshState
new_mesh uuid now = record {
  mesh_id = uuid;
  created_at = now;
  last_sync = none;
  last_kick_notice = none;
  roster_generation = 0;
}

abbrev pub MeshFile : Type 0
MeshFile = JsonFile MeshState

-- `save` writes a temporary file and renames it.
unfoldable pub save_mesh : Option ℕ → MeshState → MeshFile → Result (Unit {0}) × MeshFile
save_mesh none m file = (ok tt, holds m)
save_mesh (some e) m file = (err (io e), file)

-- `load`: a mesh that has no file yet is made and saved.
unfoldable pub load_mesh : Option ℕ → Text → ℕ → MeshFile → Result MeshState × MeshFile
unfolding save_mesh new_mesh
load_mesh disk uuid now missing =
    let m = new_mesh uuid now in
    let (saved, file) = save_mesh disk m missing in (saved >> ok m, file)
load_mesh disk uuid now (corrupt message) = (err (serialize message), corrupt message)
load_mesh disk uuid now (holds m) = (ok m, holds m)

unfoldable pub adopt_mesh_id : Text → MeshState → MeshState
adopt_mesh_id given m = if text_lt given m.mesh_id then record m { mesh_id = given } else m

-- `saturating_add`.
unfoldable pub bump_generation : MeshState → MeshState
bump_generation m = record m { roster_generation = min (m.roster_generation + 1) u64_max }

pub record PendingKick : Type 0 where
  pub target_id : DeviceId
  pub target_label : Text
  pub by_id : DeviceId
  pub by_label : Text
  pub mesh_id : Text
  pub message : Text
  pub ts : ℤ
  pub signature : Text
  pub force : Bool
  pub created_at : ℕ
  pub delivered_to_target : Bool
  pub acks : List DeviceId
  pub expected : List DeviceId

abbrev pub KickFile : Type 0
KickFile = Dict Text PendingKick

pub record PendingKickStore : Type 0 where
  pub kicks : Dict DeviceId PendingKick
  pub file : JsonFile KickFile

unfoldable pub open_kicks : JsonFile KickFile → Result PendingKickStore
open_kicks missing = ok (record { kicks = []; file = missing })
open_kicks (corrupt message) = err (serialize message)
open_kicks (holds f) = ok (record { kicks = collect (λ k. k.target_id) (values f); file = holds f })

-- `list`: the newest first.
unfoldable pub list_kicks : PendingKickStore → List PendingKick
list_kicks s = sort_by (λ a b. ltb b.created_at a.created_at) (values s.kicks)

unfoldable pub get_kick : PendingKickStore → DeviceId → Option PendingKick
get_kick s target = lookup target s.kicks

abbrev pub KickCall : Type 0 → Type 0
KickCall A = Result A × PendingKickStore

-- Push `from` once.
unfoldable pub with_ack : DeviceId → PendingKick → PendingKick
with_ack from k = if contains k.acks from then k else record k { acks = k.acks ++ from ∷ [] }

-- What `add_ack` reports of the kick that now holds the ack.
unfoldable pub is_complete : DeviceId → PendingKick → Bool
is_complete from k =
    k.delivered_to_target && all (λ e. contains k.acks e || e == from) k.expected
    || k.force && k.delivered_to_target && leb (length k.expected - 0) (length k.acks)

abbrev pub day_hours : ℕ
day_hours = 24

abbrev pub ns_per_hour : ℕ
ns_per_hour = 3600000000000

-- The test of `gc_completed`: whether a kick is kept.
unfoldable pub is_retained : ℕ → PendingKick → Bool
is_retained now k =
    if not k.delivered_to_target
    then true
    else if all (contains k.acks) k.expected
    then false
    else if k.force && leb day_hours ((now - k.created_at) / ns_per_hour)
    then false
    else true

unfoldable pub retain_kicks :
    (PendingKick → Bool) → Dict DeviceId PendingKick → Dict DeviceId PendingKick
retain_kicks p [] = []
retain_kicks p ((k, v) ∷ d) = let rest = retain_kicks p d in if p v then (k, v) ∷ rest else rest

module _ ⦃hex : Hex⦄ (disk : Option ℕ) where
  unfoldable pub flush_kicks : PendingKickStore → KickCall (Unit {0})
  flush_kicks s = elim disk [
    | none ↦
        (ok tt, record s { file = holds (collect (λ k. to_string k.target_id) (values s.kicks)) })
    | some e ↦ (err (io e), s)
  ]

  unfoldable pub upsert_kick : PendingKick → PendingKickStore → KickCall (Unit {0})
  unfolding flush_kicks
  upsert_kick k s = flush_kicks (record s { kicks = insert k.target_id k s.kicks })

  unfoldable pub mark_delivered : DeviceId → PendingKickStore → KickCall (Unit {0})
  unfolding flush_kicks
  mark_delivered target s = elim (lookup target s.kicks) [
    | none ↦ (ok tt, s)
    | some k ↦
        flush_kicks
          (record s { kicks = insert target (record k { delivered_to_target = true }) s.kicks })
  ]

  -- The result of `flush` is asked for first, then what was found.
  unfoldable pub add_ack : DeviceId → DeviceId → PendingKickStore → KickCall Bool
  unfolding flush_kicks with_ack is_complete
  add_ack target from s = elim (lookup target s.kicks) [
    | none ↦ let (r, s') = flush_kicks s in (r >> ok false, s')
    | some k ↦
        let k' = with_ack from k in
        let (r, s') = flush_kicks (record s { kicks = insert target k' s.kicks }) in
        (r >> ok (is_complete from k'), s')
  ]

  unfoldable pub remove_kick : DeviceId → PendingKickStore → KickCall (Unit {0})
  unfolding flush_kicks
  remove_kick target s = flush_kicks (record s { kicks = remove target s.kicks })

  -- It returns how many kicks it drops, and writes only if it drops one.
  unfoldable pub gc_completed : ℕ → PendingKickStore → KickCall ℕ
  unfolding flush_kicks is_retained retain_kicks
  gc_completed now s =
      let kept = retain_kicks (is_retained now) s.kicks in
      let n = length s.kicks - length kept in
      let s' = record s { kicks = kept } in
      let (r, s'') = flush_kicks s' in if ltb 0 n then (r >> ok n, s'') else (ok n, s')

-- `mark_mesh_dirty`, and the time that `mesh_dirty_mtime` reads.
unfoldable pub mark_mesh_dirty : Option ℕ → ℕ → Option ℕ → Result (Unit {0}) × Option ℕ
mark_mesh_dirty none now dirty = (ok tt, some now)
mark_mesh_dirty (some e) now dirty = (err (io e), dirty)
