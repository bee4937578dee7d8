-- ===== src/Session/Magic/Names.antt =====
-- crates/mymesh-session/src/magic.rs: a name leads to this node or to a device that is trusted.
use my_mesh.Base.{
  ◌≡◌, refl, subst, inl, inr, true, some, List, [], ◌∷◌, arith, Bool-cases, Option-cases, All, ◌==◌,
  nat_eq, text_eq, ok, Text, trim,
}
use my_mesh.Base.Dict.{Dict, values, lookup, insert}
use my_mesh.Core.Identity.{Hex, DeviceId, id_eq}
use my_mesh.Core.MeshIp.{Ipv4Addr, mesh_ipv4}
use my_mesh.Core.Device.{is_trusted_state, DeviceRecord, DeviceStore, list}
use my_mesh.Core.Device.Naming.{Unicode, resolve_query}
use my_mesh.Session.Magic.{
  ParseIp, NameMap, Plane, trim_end_dots, push_name, push_names, push_devices, name_map, is_same_ip,
  with_ip, by_ip, resolve_host,
}

module _ {V : Type 0} (P : V → Type 0) where
  insert-All :
      (k : Text) (v : V) (m : Dict Text V) → P v → All P (values m) → All P (values (insert k v m))
  unfolding insert
  insert-All k v [] h all_ = (h, tt)
  insert-All k v ((j, w) ∷ m) h (first, rest) = elim (Bool-cases (j == k)) [
    | inl e ↦ rw (e, insert) (h, rest)
    | inr e ↦ rw (e, insert) (first, insert-All k v m h rest)
  ]

  lookup-All : (k : Text) (v : V) (m : Dict Text V) → All P (values m) → lookup k m ≡ some v → P v
  unfolding lookup
  lookup-All k v [] h e = absurd (ground (arith, e))
  lookup-All k v ((j, w) ∷ m) (first, rest) e = elim (Bool-cases (j == k)) [
    | inl same ↦ subst P (ground (arith, e, same)) first
    | inr differs ↦ lookup-All k v m rest (ground (arith, e, differs))
  ]

-- A property that this node has, and each of the devices that is trusted.
unfoldable pub HasAll : (DeviceId → Type 0) → DeviceId → List DeviceRecord → Type 0
HasAll P local ds = P local × All (λ d. is_trusted_state d.trust ≡ true → P d.id) ds

module _ ⦃uni : Unicode⦄ (P : DeviceId → Type 0) where
  abbrev Entry : DeviceId × Ipv4Addr → Type 0
  Entry e = P e.0 × (e.1 ≡ mesh_ipv4 e.0)

  push_name-All :
      (domain : Text) (id : DeviceId) (n : Text) (m : NameMap)
      → P id
      → All Entry (values m)
      → All Entry (values (push_name domain id n m))
  unfolding push_name
  push_name-All domain id n m h all_ = elim (Bool-cases (uni.to_lowercase (trim n) == [])) [
    | inl e ↦ rw (e, push_name) all_
    | inr e ↦
        rw (e, push_name)
          (insert-All Entry _ (id, mesh_ipv4 id) _ (h, refl)
            (insert-All Entry _ (id, mesh_ipv4 id) m (h, refl) all_))
  ]

  push_names-All :
      (domain : Text) (id : DeviceId) (ns : List Text) (m : NameMap)
      → P id
      → All Entry (values m)
      → All Entry (values (push_names domain id ns m))
  unfolding push_names
  push_names-All domain id [] m h all_ = all_
  push_names-All domain id (n ∷ ns) m h all_ =
      push_names-All domain id ns (push_name domain id n m) h (push_name-All domain id n m h all_)

  push_devices-All :
      (domain : Text) (ds : List DeviceRecord) (m : NameMap)
      → All (λ d. is_trusted_state d.trust ≡ true → P d.id) ds
      → All Entry (values m)
      → All Entry (values (push_devices domain ds m))
  unfolding push_devices
  push_devices-All domain [] m h all_ = all_
  push_devices-All domain (d ∷ ds) m (first, rest) all_ =
      elim (Bool-cases (is_trusted_state d.trust)) [
        | inl e ↦
            rw (e, push_devices)
              (push_devices-All domain ds _ rest
                (push_names-All domain d.id (d.label.name ∷ d.aliases) m (first e) all_))
        | inr e ↦ rw (e, push_devices) (push_devices-All domain ds m rest all_)
      ]

  -- Every entry of the name map has the address of its device, and its device has every property
  -- that this node and the trusted devices have.
  pub name_map-All :
      (p : Plane) (s : DeviceStore)
      → HasAll P p.local_id (list s)
      → All Entry (values (name_map p (ok s)))
  unfolding name_map HasAll
  name_map-All p s (own, devices) =
      push_devices-All _ (list s) _ devices (push_name-All _ p.local_id p.label [] own tt)

  with_ip-All :
      (ip : Ipv4Addr) (es : List (DeviceId × Ipv4Addr)) (id : DeviceId)
      → All Entry es
      → with_ip ip es ≡ some id
      → P id
  unfolding with_ip
  with_ip-All ip [] id h e = absurd (ground (arith, e))
  with_ip-All ip ((j, at) ∷ es) id ((first, _), rest) e = elim (Bool-cases (is_same_ip at ip)) [
    | inl same ↦ subst P (ground (arith, e, same)) first
    | inr differs ↦ with_ip-All ip es id rest (ground (arith, e, differs))
  ]

  module _ ⦃hex : Hex⦄ ⦃ip : ParseIp⦄ where
    by_ip-All :
        (m : NameMap) (key : Text) (id : DeviceId)
        → All Entry (values m)
        → by_ip m key ≡ some id
        → P id
    unfolding by_ip
    by_ip-All m key id h e = elim (Option-cases (ip.parse key)) [
      | inl bad ↦ absurd (ground (arith, e, bad))
      | inr (at, there) ↦ with_ip-All at (values m) id h (ground (arith, e, there))
    ]

    -- A host that is resolved is this node, or a device that is trusted, or what `resolve_query`
    -- finds: it has every property that these have.
    pub resolve_host_known :
        (p : Plane) (s : DeviceStore) (host : Text) (id : DeviceId)
        → HasAll P p.local_id (list s)
        → ((j : DeviceId) → resolve_query host s ≡ ok j → P j)
        → resolve_host p (ok s) host ≡ ok id
        → P id
    unfolding resolve_host
    resolve_host_known p s host id h query e =
        let key = uni.to_lowercase (trim_end_dots host) in
        let m = name_map p (ok s) in
        elim (Option-cases (lookup key m)) [
          | inr ((j, at), there) ↦
              subst P (ground (arith, e, there))
                (lookup-All Entry key (j, at) m (name_map-All p s h) there).0
          | inl gone ↦ elim (Option-cases (by_ip m key)) [
            | inr (j, there) ↦
                subst P (ground (arith, e, gone, there))
                  (by_ip-All m key j (name_map-All p s h) there)
            | inl none_ ↦ query id (ground (arith, e, gone, none_))
          ]
        ]
