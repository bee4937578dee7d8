-- ===== src/Core/Device/Naming/Resolve.antt =====
-- crates/mymesh-core/src/device.rs: what `resolve_query` finds.
use my_mesh.Base.{
  ◌≡◌, refl, sym, ap, ◌∙◌, ◌⊎◌, inl, inr, Bool, true, false, Option, none, some, List, [], ◌∷◌, map,
  arith, keep_if, All, contains, nat_eq, text_eq, ok, Text, text_lt, trim, sort_by,
  contains-sort_by, dedup, contains-dedup,
}
use my_mesh.Base.Dict.{Dict, values, lookup}
use my_mesh.Core.Identity.{Hex, DeviceId, id_eq, to_string}
use my_mesh.Core.Device.{DeviceRecord, DeviceStore, get}
use my_mesh.Core.Device.Persist.{IsKeyed}
use my_mesh.Core.Device.Naming.{
  Unicode, query_host, is_exact_match, is_prefix_match, hits, by_name, by_prefix, resolve_query,
}

-- The ids of the records that pass a test.
ids_of : (DeviceRecord → Bool) → Dict DeviceId DeviceRecord → List DeviceId
ids_of p d = map (λ r. r.id) (keep_if p (values d))

passes : (DeviceRecord → Bool) → Option DeviceRecord → Bool
passes p none = false
passes p (some r) = p r

contains-ids_of :
    (p : DeviceRecord → Bool) (d : Dict DeviceId DeviceRecord) (id : DeviceId)
    → IsKeyed d
    → contains (ids_of p d) id ≡ passes p (lookup id d)
unfolding ids_of passes lookup
contains-ids_of p [] id h = refl
contains-ids_of p ((k, r) ∷ d) id h = ground (arith, contains-ids_of p d id)

All-eq :
    (a : DeviceId) (xs : List DeviceId)
    → ((b : DeviceId) → contains xs b ≡ true → b ≡ a)
    → All (λ x. x ≡ a) xs
All-eq a [] h = tt
All-eq a (x ∷ xs) h = (h x (ground arith), All-eq a xs (λ b c. h b (ground arith)))

dedup-constant :
    (a x : DeviceId) (xs : List DeviceId) → All (λ y. y ≡ a) (x ∷ xs) → dedup (x ∷ xs) ≡ a ∷ []
unfolding dedup
dedup-constant a x [] h = ap (λ (y : DeviceId). y ∷ []) h.0
dedup-constant a x (y ∷ xs) h = ground (arith, dedup-constant a y xs h.1)

dedup-one :
    (a : DeviceId) (xs : List DeviceId)
    → contains xs a ≡ true
    → ((b : DeviceId) → contains xs b ≡ true → b ≡ a)
    → dedup xs ≡ a ∷ []
dedup-one a [] c only = cc
dedup-one a (x ∷ xs) c only = dedup-constant a x xs (All-eq a (x ∷ xs) only)

passes-some :
    (p : DeviceRecord → Bool) (o : Option DeviceRecord)
    → passes p o ≡ true
    → (r : DeviceRecord) × (o ≡ some r) × (p r ≡ true)
unfolding passes
passes-some p none h = cc
passes-some p (some r) h = (r, refl, h)

module _ ⦃hex : Hex⦄ ⦃uni : Unicode⦄ where
  contains-hits :
      (p : DeviceRecord → Bool) (s : DeviceStore) (id : DeviceId)
      → IsKeyed s.devices
      → contains (hits p s) id ≡ passes p (get s id)
  unfolding hits get ids_of
  contains-hits p s id h =
      contains-dedup id (sort_by (λ a b. text_lt (to_string a) (to_string b)) (ids_of p s.devices))
      ∙ contains-sort_by (λ a b. text_lt (to_string a) (to_string b)) id (ids_of p s.devices)
      ∙ contains-ids_of p s.devices id h

  hits-one :
      (p : DeviceRecord → Bool) (s : DeviceStore) (id : DeviceId)
      → contains (hits p s) id ≡ true
      → ((j : DeviceId) → contains (hits p s) j ≡ true → j ≡ id)
      → hits p s ≡ id ∷ []
  unfolding hits
  hits-one p s id c only =
      let sorted =
        sort_by (λ a b. text_lt (to_string a) (to_string b))
          (map (λ (r : DeviceRecord). r.id) (keep_if p (values s.devices))) in
      dedup-one id sorted (sym (contains-dedup id sorted) ∙ c)
        (λ j cj. only j (contains-dedup j sorted ∙ cj))

  by_name_found :
      (q host : Text) (exact others : List DeviceId) (id : DeviceId)
      → by_name q host exact others ≡ ok id
      → (contains exact id ≡ true) ⊎ (contains others id ≡ true)
  unfolding by_name by_prefix
  by_name_found q host [] [] id h = cc
  by_name_found q host [] (x ∷ []) id h = ground arith
  by_name_found q host [] (x ∷ y ∷ o) id h = cc
  by_name_found q host (x ∷ []) o id h = ground arith
  by_name_found q host (x ∷ y ∷ e) o id h = cc

  -- In a store that keeps each record once, under its id, the id that a query resolves to is stored, and its record matches the query by its whole label
  -- or an alias, or by a prefix of its label, an alias or its short id.
  pub resolve_query_sound :
      (q : Text) (s : DeviceStore) (id : DeviceId)
      → IsKeyed s.devices
      → resolve_query q s ≡ ok id
      → (r : DeviceRecord) × (get s id ≡ some r)
        × ((is_exact_match (query_host q) r ≡ true)
            ⊎ (is_prefix_match (uni.to_lowercase (query_host q)) r ≡ true))
  unfolding resolve_query
  resolve_query_sound q s id keyed h =
      let host = query_host q in
      let near = is_prefix_match (uni.to_lowercase host) in
      elim (by_name_found (trim q) host (hits (is_exact_match host) s) (hits near s) id h) [
        | inl c ↦
            let (r, e, m) =
              passes-some (is_exact_match host) (get s id)
                (sym (contains-hits (is_exact_match host) s id keyed) ∙ c) in
            (r, e, inl m)
        | inr c ↦
            let (r, e, m) = passes-some near (get s id) (sym (contains-hits near s id keyed) ∙ c) in
            (r, e, inr m)
      ]

  -- In a store that keeps each record once, under its id, a query that is the whole label or an alias of just one device resolves to that device,
  -- whatever it may be a prefix of.
  pub resolve_query_unique :
      (q : Text) (s : DeviceStore) (id : DeviceId) (r : DeviceRecord)
      → IsKeyed s.devices
      → get s id ≡ some r
      → is_exact_match (query_host q) r ≡ true
      → ((j : DeviceId) (o : DeviceRecord)
          → get s j ≡ some o
          → is_exact_match (query_host q) o ≡ true
          → j ≡ id)
      → resolve_query q s ≡ ok id
  unfolding resolve_query by_name passes
  resolve_query_unique q s id r keyed e m only =
      let host = query_host q in
      let p = is_exact_match host in
      rw (
        hits-one p s id (contains-hits p s id keyed ∙ ap (passes p) e ∙ m) (λ j cj.
            let (o, f, n) = passes-some p (get s j) (sym (contains-hits p s j keyed) ∙ cj) in
            only j o f n),
        by_name,
      )
