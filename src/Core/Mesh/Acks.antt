-- ===== src/Core/Mesh/Acks.antt =====
-- crates/mymesh-core/src/mesh.rs: what acks do, and when a kick is dropped.
use my_mesh.Base.{
  ℕ, ◌+◌, ◌*◌, ◌<◌, ◌≡◌, refl, ◌↔◌, inl, inr, Bool, true, false, ◌&&◌, ◌||◌, Option, none, some,
  List, [], ◌∷◌, arith, if◌then◌else◌, Option-cases, all, ◌==◌, contains, contains-append, nat_eq,
  text_eq, ok,
}
use my_mesh.Base.Dict.{Dict, lookup, insert, lookup-insert, NodupKeys, insert-NodupKeys}
use my_mesh.Core.Identity.{Hex, DeviceId, id_eq}
use my_mesh.Core.Mesh.{
  PendingKick, PendingKickStore, get_kick, with_ack, is_complete, is_retained, retain_kicks,
  flush_kicks, add_ack, gc_completed, ns_per_hour,
}

abbrev pub acked : DeviceId → Option PendingKick → Option PendingKick
acked from none = none
acked from (some k) = some (with_ack from k)

module _ ⦃hex : Hex⦄ (disk : Option ℕ) where
  kicks-flush : (s : PendingKickStore) → (flush_kicks disk s).1.kicks ≡ s.kicks
  unfolding flush_kicks
  kicks-flush s = ground arith

  result-flush : (s : PendingKickStore) → disk ≡ none → (flush_kicks disk s).0 ≡ ok tt
  unfolding flush_kicks
  result-flush s h = ground arith

  -- What `add_ack` leaves: the target's kick with the ack, every other kick as it was.
  pub get-add_ack :
      (target from j : DeviceId) (s : PendingKickStore)
      → get_kick (add_ack disk target from s).1 j
        ≡ (if target == j then acked from (get_kick s target) else get_kick s j)
  unfolding add_ack get_kick
  get-add_ack target from j s = elim (Option-cases (lookup target s.kicks)) [
    | inl e ↦ rw (e, add_ack, kicks-flush) (ground arith)
    | inr (k, e) ↦ rw (e, add_ack, kicks-flush) (lookup-insert j target (with_ack from k) s.kicks)
  ]

pub lookup-retain_kicks :
    (p : PendingKick → Bool) (d : Dict DeviceId PendingKick) (j : DeviceId)
    → NodupKeys d
    → lookup j (retain_kicks p d)
      ≡ elim (lookup j d) [ none ↦ none | some k ↦ if p k then some k else none ]
unfolding lookup retain_kicks
lookup-retain_kicks p [] j h = refl
lookup-retain_kicks p ((i, k) ∷ d) j h = ground (arith, lookup-retain_kicks p d j h.1)

-- An ack is held once it is given, and acks given before stay.
with_ack_lem :
    (from e : DeviceId) (k : PendingKick)
    → contains (with_ack from k).acks e ≡ (contains k.acks e || from == e)
unfolding with_ack
with_ack_lem from e k = ground (arith, contains-append k.acks (from ∷ []) e)

with_ack_fields :
    (from : DeviceId) (k : PendingKick)
    → ((with_ack from k).delivered_to_target ≡ k.delivered_to_target)
      × ((with_ack from k).force ≡ k.force)
      × ((with_ack from k).expected ≡ k.expected)
unfolding with_ack
with_ack_fields from k = ground arith

-- Giving the same ack again changes nothing.
pub with_ack_again :
    (from : DeviceId) (k : PendingKick) → with_ack from (with_ack from k) ≡ with_ack from k
unfolding with_ack
with_ack_again from k =
    ground (arith, with_ack_lem from from k, contains-append k.acks (from ∷ []) from)

all-cong :
    (p q : DeviceId → Bool) (xs : List DeviceId)
    → ((x : DeviceId) → p x ≡ q x)
    → all p xs ≡ all q xs
all-cong p q [] h = refl
all-cong p q (x ∷ xs) h = ground (arith, h x, all-cong p q xs h)

-- For a kick that is not forced, the report of `add_ack` is that it is delivered and that every
-- expected member has acked.
is_complete_lem :
    (from : DeviceId) (k : PendingKick)
    → k.force ≡ false
    → is_complete from (with_ack from k)
      ≡ (k.delivered_to_target && all (contains (with_ack from k).acks) k.expected)
unfolding is_complete
is_complete_lem from k h = ground (
  arith,
  all-cong (λ e. contains (with_ack from k).acks e || e == from) (contains (with_ack from k).acks)
      k.expected (λ x. ground (arith, with_ack_lem from x k)),
  with_ack_fields from k,
)

module _ ⦃hex : Hex⦄ where
  -- Of kicks that stand once for each target, `gc_completed` keeps exactly those that pass its test,
  -- also where the write fails.
  pub get-gc_completed :
      (disk : Option ℕ) (now : ℕ) (s : PendingKickStore) (j : DeviceId)
      → NodupKeys s.kicks
      → get_kick (gc_completed disk now s).1 j
        ≡ elim (get_kick s j) [ none ↦ none | some k ↦ if is_retained now k then some k else none ]
  unfolding gc_completed get_kick
  get-gc_completed disk now s j h =
      let kept = lookup-retain_kicks (is_retained now) s.kicks j h in
      ground (
        arith,
        kept,
        kicks-flush disk (record s { kicks = retain_kicks (is_retained now) s.kicks }),
      )

  reported :
      (target from : DeviceId) (s : PendingKickStore) (k : PendingKick)
      → get_kick s target ≡ some k
      → (add_ack none target from s).0 ≡ ok (is_complete from (with_ack from k))
  unfolding add_ack get_kick flush_kicks
  reported target from s k e = rw (e, add_ack)

  -- Among kicks that stand once for each target, and with a disk that takes the writes, a stored kick
  -- that is not forced is reported complete by `add_ack` exactly when the next
  -- `gc_completed` drops it.
  pub add_ack-gc :
      (target from : DeviceId) (now : ℕ) (s : PendingKickStore) (k : PendingKick)
      → NodupKeys s.kicks
      → get_kick s target ≡ some k
      → k.force ≡ false
      → ((add_ack none target from s).0 ≡ ok true)
        ↔ (get_kick (gc_completed none now (add_ack none target from s).1).1 target ≡ none)
  unfolding is_retained add_ack get_kick
  add_ack-gc target from now s k distinct e f =
      let k' = with_ack from k in
      let d = insert target k' s.kicks in
      let s' = (add_ack none target from s).1 in
      let distinct' : NodupKeys s'.kicks =
        unfold flush_kicks in rw (e, add_ack) (insert-NodupKeys target k' s.kicks distinct) in
      ground (
        arith,
        reported target from s k e,
        is_complete_lem from k f,
        with_ack_fields from k,
        get-add_ack none target from target s,
        get-gc_completed none now s' target distinct',
      )

  -- Among kicks that stand once for each target, a stored kick that is forced and not acked by all
  -- those expected stays while it is younger than twenty-four hours.
  pub gc_keeps_forced :
      (disk : Option ℕ) (now : ℕ) (s : PendingKickStore) (target : DeviceId) (k : PendingKick)
      → NodupKeys s.kicks
      → get_kick s target ≡ some k
      → k.force ≡ true
      → all (contains k.acks) k.expected ≡ false
      → now < k.created_at + 24 * ns_per_hour
      → get_kick (gc_completed disk now s).1 target ≡ some k
  unfolding is_retained
  gc_keeps_forced disk now s target k distinct e f unacked young =
      ground (arith, get-gc_completed disk now s target distinct)
