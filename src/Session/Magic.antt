-- ===== src/Session/Magic.antt =====
-- crates/mymesh-session/src/magic.rs: the names and addresses of the mesh, and the questions that are
-- asked about them.
pub mod Dns
pub mod Query
pub mod Names
use my_mesh.Base.{
  ◌+◌, ◌-◌, ◌<◌, ◌≡◌, Bool, ◌&&◌, Option, none, some, List, [], ◌∷◌, ◌++◌, arith, if◌then◌else◌,
  All, ◌==◌, nat_eq, text_eq, Result, ok, ◌>>=◌, ◌>>◌, Text, text, trim,
}
use my_mesh.Base.Dict.{Dict, values, lookup, insert}
use my_mesh.Core.Identity.{Hex, DeviceId, id_eq}
use my_mesh.Core.MeshIp.{Ipv4Addr, mesh_ipv4}
use my_mesh.Core.Device.{is_trusted_state, DeviceRecord, DeviceStore, list}
use my_mesh.Core.Device.Naming.{Unicode, resolve_query}

-- `String::from_utf8_lossy`: a text of ASCII characters stays as it is.
pub record Utf8 : Type 0 where
  pub lossy : Text → Text
  pub lossy-ascii : (t : Text) → All (λ b. b < 128) t → lossy t ≡ t

-- `parse::<Ipv4Addr>()`, which the standard library does.
pub record ParseIp : Type 0 where
  pub parse : Text → Option Ipv4Addr

abbrev pub NameMap : Type 0
NameMap = Dict Text (DeviceId × Ipv4Addr)

-- The plane's own part: its id, its label, and the domain of the configuration.
pub record Plane : Type 0 where
  pub local_id : DeviceId
  pub label : Text
  pub domain : Text

unfoldable pub is_same_ip : Ipv4Addr → Ipv4Addr → Bool
is_same_ip a b =
    a.octets.0 == b.octets.0
    && a.octets.1 == b.octets.1
    && a.octets.2 == b.octets.2
    && a.octets.3 == b.octets.3

-- `trim_start_matches('.')`.
unfoldable pub trim_dots : Text → Text
trim_dots [] = []
trim_dots (c ∷ s) = let rest = trim_dots s in if c == 46 then rest else c ∷ s

-- `trim_end_matches('.')`.
unfoldable pub trim_end_dots : Text → Text
trim_end_dots [] = []
trim_end_dots (c ∷ s) = elim (trim_end_dots s) [
  | [] ↦ if c == 46 then [] else c ∷ []
  | d ∷ t ↦ c ∷ d ∷ t
]

module _ ⦃uni : Unicode⦄ where
  -- `push`: under the name, and under the name in the domain.
  unfoldable pub push_name : Text → DeviceId → Text → NameMap → NameMap
  push_name domain id name m =
      let n = uni.to_lowercase (trim name) in
      if n == []
      then m
      else insert (n ++ text "." ++ domain) (id, mesh_ipv4 id) (insert n (id, mesh_ipv4 id) m)

  unfoldable pub push_names : Text → DeviceId → List Text → NameMap → NameMap
  unfolding push_name
  push_names domain id [] m = m
  push_names domain id (n ∷ ns) m = push_names domain id ns (push_name domain id n m)

  -- Devices that are not trusted are passed over.
  unfoldable pub push_devices : Text → List DeviceRecord → NameMap → NameMap
  unfolding push_names
  push_devices domain [] m = m
  push_devices domain (d ∷ ds) m =
      push_devices domain ds (
        if is_trusted_state d.trust then push_names domain d.id (d.label.name ∷ d.aliases) m else m)

  -- A store that cannot be opened adds no names.
  unfoldable pub name_map : Plane → Result DeviceStore → NameMap
  unfolding trim_dots push_name push_devices
  name_map p store =
      let domain = uni.to_lowercase (trim_dots p.domain) in
      let own = push_name domain p.local_id p.label [] in
      elim store [ ok s ↦ push_devices domain (list s) own | _ ↦ own ]

  -- `values().find(..)`: of several devices with one address the map may give any; here the first.
  unfoldable pub with_ip : Ipv4Addr → List (DeviceId × Ipv4Addr) → Option DeviceId
  unfolding is_same_ip
  with_ip ip [] = none
  with_ip ip ((id, at) ∷ rest) =
      let later = with_ip ip rest in if is_same_ip at ip then some id else later

  module _ ⦃hex : Hex⦄ ⦃ip : ParseIp⦄ where
    unfoldable pub by_ip : NameMap → Text → Option DeviceId
    unfolding with_ip
    by_ip m key = elim (ip.parse key) [ none ↦ none | some at ↦ with_ip at (values m) ]

    unfoldable pub resolve_host : Plane → Result DeviceStore → Text → Result DeviceId
    unfolding name_map trim_end_dots by_ip
    resolve_host p store host =
        let key = uni.to_lowercase (trim_end_dots host) in
        let m = name_map p store in
        elim (lookup key m) [
          | some (id, _) ↦ ok id
          | none ↦ elim (by_ip m key) [
            | some id ↦ ok id
            | none ↦ do s ← store; resolve_query host s
          ]
        ]
