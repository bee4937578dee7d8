-- ===== src/Core/Device/Naming/Aliases.antt =====
-- crates/mymesh-core/src/device.rs: an alias names one device.
use my_mesh.Base.{
  ℕ, ◌≡◌, refl, ◌≢◌, ◌⊎◌, inl, inr, Bool, true, false, not, ◌&&◌, ◌||◌, Option, none, some, List,
  [], ◌∷◌, arith, if◌then◌else◌, Bool-cases, Option-cases, any, ◌==◌, contains, contains-append,
  nat_eq, text_eq, Text, trim,
}
use my_mesh.Base.Dict.{Dict, values, lookup, lookup-insert}
use my_mesh.Core.Identity.{Hex, DeviceId, id_eq}
use my_mesh.Core.Device.{DeviceRecord, DeviceStore, get}
use my_mesh.Core.Device.Persist.{IsKeyed, lookup-IsKeyed}
use my_mesh.Core.Device.Trust.{devices-flush}
use my_mesh.Core.Device.Naming.{Unicode, modify, push_new, without, uses_alias, add_alias}

abbrev pub has_alias : Text → Option DeviceRecord → Bool
has_alias alias none = false
has_alias alias (some r) = contains r.aliases alias

-- No alias is held by two devices.
pub record HasUniqueAliases (s : DeviceStore) : Type 0 where
  pub unique :
      (alias : Text) (i j : DeviceId)
      → has_alias alias (get s i) && has_alias alias (get s j) && not (i == j) ≡ false

same_holder :
    (s : DeviceStore) (alias : Text) (i j : DeviceId) (r q : DeviceRecord)
    → HasUniqueAliases s
    → get s i ≡ some r
    → get s j ≡ some q
    → contains r.aliases alias ≡ true
    → contains q.aliases alias ≡ true
    → i ≡ j
same_holder s alias i j r q u ei ej ci cj = ground (arith, u.unique alias i j)

has_alias_cases :
    (s : DeviceStore) (alias : Text) (i : DeviceId)
    → (has_alias alias (get s i) ≡ false)
      ⊎ ((r : DeviceRecord) × (get s i ≡ some r) × (contains r.aliases alias ≡ true))
has_alias_cases s alias i = elim (Option-cases (get s i)) [
  | inl e ↦ inl (rw e refl)
  | inr (r, e) ↦ elim (Bool-cases (contains r.aliases alias)) [
    | inl c ↦ inr (r, e, c)
    | inr c ↦ inl (rw e c)
  ]
]

any-lookup :
    (p : DeviceRecord → Bool) (d : Dict DeviceId DeviceRecord) (j : DeviceId) (r : DeviceRecord)
    → any p (values d) ≡ false
    → lookup j d ≡ some r
    → p r ≡ false
unfolding lookup
any-lookup p [] j r h e = cc
any-lookup p ((k, q) ∷ d) j r h e = ground (arith, any-lookup p d j r)

contains-push_new :
    (t a : Text) (ts : List Text) → contains (push_new t ts) a ≡ (contains ts a || t == a)
contains-push_new t a ts = ground (arith, contains-append ts (t ∷ []) a)

contains-without :
    (t a : Text) (ts : List Text) → contains (without t ts) a ≡ (contains ts a && not (a == t))
contains-without t a [] = refl
contains-without t a (x ∷ ts) = ground (arith, contains-without t a ts)

module _ ⦃hex : Hex⦄ where
  pub get-modify :
      (disk : Option ℕ) (id : DeviceId) (f : DeviceRecord → DeviceRecord) (s : DeviceStore)
      (j : DeviceId)
      → get (modify disk id f s).1 j
        ≡ (if id == j then elim (get s id) [ none ↦ none | some r ↦ some (f r) ] else get s j)
  unfolding modify get
  get-modify disk id f s j = elim (Option-cases (lookup id s.devices)) [
    | inl e ↦ rw (e, modify) (ground arith)
    | inr (r, e) ↦ rw (e, modify, devices-flush) (lookup-insert j id (f r) s.devices)
  ]

module _ ⦃hex : Hex⦄ ⦃uni : Unicode⦄ where
  -- Where the test of `add_alias` has found no other device, no other device has the alias.
  nobody_else :
      (id : DeviceId) (alias : Text) (s : DeviceStore) (j : DeviceId) (q : DeviceRecord)
      → IsKeyed s.devices
      → any (uses_alias id alias) (values s.devices) ≡ false
      → get s j ≡ some q
      → id ≢ j
      → contains q.aliases alias ≡ false
  unfolding get uses_alias
  nobody_else id alias s j q keyed free e n = ground (
    arith,
    any-lookup (uses_alias id alias) s.devices j q free e,
    lookup-IsKeyed j s.devices q keyed e,
  )

  module _ (disk : Option ℕ) (id : DeviceId) (alias : Text) (s : DeviceStore) where
    abbrev named : DeviceRecord → DeviceRecord
    named r = record r { aliases = push_new alias r.aliases }

    -- What a device has for aliases after the change.
    has_after :
        (j : DeviceId) (q : DeviceRecord) (a : Text)
        → get (modify disk id named s).1 j ≡ some q
        → contains q.aliases a ≡ true
        → (r : DeviceRecord) × (get s j ≡ some r)
          × ((contains r.aliases a ≡ true) ⊎ ((id ≡ j) × (alias ≡ a)))
    has_after j q a e c = elim (Option-cases (get s j)) [
      | inl none_there ↦ ground (arith, get-modify disk id named s j)
      | inr (r, there) ↦ (
        r,
        there,
        ground (arith, get-modify disk id named s j, contains-push_new alias a r.aliases),
      )
    ]

    modify-HasUniqueAliases :
        HasUniqueAliases s
        → IsKeyed s.devices
        → any (uses_alias id alias) (values s.devices) ≡ false
        → HasUniqueAliases (modify disk id named s).1
    modify-HasUniqueAliases u keyed free = record {
      unique = λ a i j. elim (has_alias_cases (modify disk id named s).1 a i) [
        | inl n ↦ ground arith
        | inr (r, gi, ci) ↦ elim (has_alias_cases (modify disk id named s).1 a j) [
          | inl n ↦ ground arith
          | inr (q, gj, cj) ↦
              let (r0, ri, hi) = has_after i r a gi ci in
              let (q0, qj, hj) = has_after j q a gj cj in
              ground (
                arith,
                hi,
                hj,
                same_holder s a i j r0 q0 u ri qj,
                nobody_else id alias s i r0 keyed free ri,
                nobody_else id alias s j q0 keyed free qj,
              )
        ]
      ];
    }

  -- In a store that keeps each record once, under its id, `add_alias` never gives a device an alias that another has: after it, as before it, no alias
  -- is held by two devices, whether the call succeeds, refuses the alias, or fails to write.
  pub add_alias-HasUniqueAliases :
      (disk : Option ℕ) (id : DeviceId) (given : Text) (s : DeviceStore)
      → IsKeyed s.devices
      → HasUniqueAliases s
      → HasUniqueAliases (add_alias disk id given s).1
  unfolding add_alias
  add_alias-HasUniqueAliases disk id given s keyed u =
      let alias = uni.to_lowercase (trim given) in
      elim (Bool-cases (alias == [])) [
        | inl e ↦ rw (e, add_alias) u
        | inr e ↦ elim (Bool-cases (any (uses_alias id alias) (values s.devices))) [
          | inl f ↦ rw (e, f, add_alias) u
          | inr f ↦ rw (e, f, add_alias) (modify-HasUniqueAliases disk id alias s u keyed f)
        ]
      ]
