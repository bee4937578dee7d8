-- ===== src/Core/Device/Naming/Found.antt =====
-- crates/mymesh-core/src/device.rs: by what `resolve_query` finds a device.
use my_mesh.Base.{
  ◌≤◌, ◌≡◌, ◌⊎◌, inl, inr, Bool, true, List, [], ◌∷◌, arith, any, Bool-cases, contains, length,
  some, take, length-take, nat_eq, text_eq, ok, Text, to_ascii_lowercase, starts_with,
}
use my_mesh.Core.Identity.{Hex, DeviceId, id_eq, short}
use my_mesh.Core.Device.{DeviceRecord, DeviceStore, get}
use my_mesh.Core.Device.Persist.{IsKeyed, lookup-IsKeyed}
use my_mesh.Core.Device.Naming.{
  Unicode, eq_ignore_ascii_case, query_host, is_exact_match, is_prefix_match, resolve_query,
}
use my_mesh.Core.Device.Naming.Resolve.{resolve_query_sound}

length-starts_with : (s p : Text) → starts_with s p ≡ true → length p ≤ length s
unfolding starts_with
length-starts_with s [] h = omega arith
length-starts_with [] (p ∷ ps) h = absurd (ground (arith, h))
length-starts_with (b ∷ s) (p ∷ ps) h = ground (arith, h, length-starts_with s ps)

any-member :
    (test : Text → Bool) (xs : List Text)
    → any test xs ≡ true
    → (a : Text) × (contains xs a ≡ true) × (test a ≡ true)
any-member test [] h = absurd (ground (arith, h))
any-member test (x ∷ xs) h = elim (Bool-cases (test x)) [
  | inl e ↦ (x, ground arith, e)
  | inr e ↦
      let (a, there, passes) = any-member test xs (ground (arith, e, h)) in
      (a, ground (arith, there), passes)
]

module _ ⦃hex : Hex⦄ ⦃uni : Unicode⦄ where
  length-short : (id : DeviceId) → length (short id) ≤ 8
  unfolding short
  length-short id = omega (arith, hex.length-encode (take 4 id.bytes), length-take 4 id.bytes)

  -- That a device has a label or an alias which is a name, but for the case of ASCII letters.
  abbrev pub IsCalled : Text → DeviceRecord → Type 0
  IsCalled name r =
      (to_ascii_lowercase r.label.name ≡ to_ascii_lowercase name)
      ⊎ ((a : Text) × (contains r.aliases a ≡ true)
          × (to_ascii_lowercase a ≡ to_ascii_lowercase name))

  -- That a device has a label or an alias which, in small letters, starts with a text.
  abbrev pub IsCalledLike : Text → DeviceRecord → Type 0
  IsCalledLike start r =
      (starts_with (uni.to_lowercase r.label.name) start ≡ true)
      ⊎ ((a : Text) × (contains r.aliases a ≡ true)
          × (starts_with (uni.to_lowercase a) start ≡ true))

  is_exact_match-IsCalled :
      (name : Text) (r : DeviceRecord) → is_exact_match name r ≡ true → IsCalled name r
  unfolding is_exact_match eq_ignore_ascii_case
  is_exact_match-IsCalled name r h = elim (Bool-cases (eq_ignore_ascii_case r.label.name name)) [
    | inl e ↦ inl (ground (arith, e))
    | inr e ↦
        let (a, there, same) =
          any-member (λ b. eq_ignore_ascii_case b name) r.aliases (ground (arith, e, h)) in
        inr (a, there, ground (arith, same))
  ]

  is_prefix_match-cases :
      (start : Text) (r : DeviceRecord)
      → is_prefix_match start r ≡ true
      → IsCalledLike start r ⊎ (starts_with (short r.id) start ≡ true)
  unfolding is_prefix_match
  is_prefix_match-cases start r h =
      elim (Bool-cases (starts_with (uni.to_lowercase r.label.name) start)) [
        | inl e ↦ inl (inl e)
        | inr e ↦ elim (Bool-cases (starts_with (short r.id) start)) [
          | inl f ↦ inr f
          | inr f ↦ inl (
              inr (
                any-member (λ b. starts_with (uni.to_lowercase b) start) r.aliases
                  (ground (arith, e, f, h))))
        ]
      ]

  -- In a store that keeps each record once, under its id, a device that a query resolves to is
  -- stored under that id, and its label or one of its aliases is the query, but for the case of ASCII
  -- letters, or starts with it in small letters, or its short id does, and what it starts with then
  -- has at most 8 bytes. The query is taken without its blanks, `.mym` and a last dot.
  pub resolve_query_found :
      (q : Text) (s : DeviceStore) (id : DeviceId)
      → IsKeyed s.devices
      → resolve_query q s ≡ ok id
      → let name = query_host q in
        let start = uni.to_lowercase name in
        (r : DeviceRecord) × (get s id ≡ some r)
        × (r.id ≡ id)
        × (IsCalled name r
            ⊎ IsCalledLike start r
            ⊎ ((starts_with (short id) start ≡ true) × (length start ≤ 8)))
  unfolding get
  resolve_query_found q s id keyed h =
      let (r, there, m) = resolve_query_sound q s id keyed h in
      let (same, is_id) = lookup-IsKeyed id s.devices r keyed there in
      let start = uni.to_lowercase (query_host q) in
      (
        r,
        there,
        same,
        elim m [
          | inl exact ↦ inl (is_exact_match-IsCalled (query_host q) r exact)
          | inr near ↦ elim (is_prefix_match-cases start r near) [
            | inl like ↦ inr (inl like)
            | inr digits ↦
                let of_id : starts_with (short id) start ≡ true = ground (arith, same, digits) in
                inr (
                  inr (
                    of_id,
                    omega (arith, length-starts_with (short id) start of_id, length-short id),
                  ))
          ]
        ],
      )
