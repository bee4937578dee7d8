-- ===== src/Core/Device/Naming.antt =====
-- crates/mymesh-core/src/device.rs: labels, aliases and groups, and `resolve_query`.
pub mod Aliases
pub mod Resolve
pub mod Found
use my_mesh.Base.{
  ℕ, ◌+◌, ◌-◌, ◌<◌, ◌≡◌, Bool, not, ◌&&◌, ◌||◌, Option, none, some, List, [], ◌∷◌, ◌++◌, map, arith,
  leb, if◌then◌else◌, length, take, drop, any, keep_if, All, ◌==◌, contains, nat_eq, text_eq,
  config, not_found, Result, ok, err, ◌>>=◌, ◌>>◌, Text, text, text_lt, trim, to_ascii_lowercase,
  starts_with, sort_by, dedup,
}
use my_mesh.Base.Dict.{values, lookup, insert}
use my_mesh.Core.Identity.{Hex, DeviceId, id_eq, to_string, short, DeviceLabel}
use my_mesh.Core.Device.{DeviceRecord, DeviceStore, flush, Call}

-- `str::to_lowercase`: on a text of ASCII characters it is `to_ascii_lowercase`.
pub record Unicode : Type 0 where
  pub to_lowercase : Text → Text
  pub to_lowercase-ascii : (t : Text) → All (λ b. b < 128) t → to_lowercase t ≡ to_ascii_lowercase t

unfoldable pub eq_ignore_ascii_case : Text → Text → Bool
eq_ignore_ascii_case a b = to_ascii_lowercase a == to_ascii_lowercase b

-- `strip_suffix(..).unwrap_or(..)`.
unfoldable pub strip_suffix : Text → Text → Text
strip_suffix suffix s =
    let at = length s - length suffix in
    if leb (length suffix) (length s) && drop at s == suffix then take at s else s

-- `get_mut(id)`, NotFound if there is none, then a change of the record, then `flush`.
module _ ⦃hex : Hex⦄ where
  unfoldable pub modify :
      Option ℕ → DeviceId → (DeviceRecord → DeviceRecord) → DeviceStore → Call (Unit {0})
  unfolding flush
  modify disk id f s = elim (lookup id s.devices) [
    | none ↦ (err (not_found (to_string id)), s)
    | some r ↦ flush disk (record s { devices = insert id (f r) s.devices })
  ]

  unfoldable pub set_label : Option ℕ → DeviceId → DeviceLabel → DeviceStore → Call (Unit {0})
  unfolding modify
  set_label disk id label s = modify disk id (λ r. record r { label = label }) s

abbrev pub push_new : Text → List Text → List Text
push_new t ts = if contains ts t then ts else ts ++ t ∷ []

abbrev pub without : Text → List Text → List Text
without t ts = keep_if (λ a. not (a == t)) ts

module _ ⦃hex : Hex⦄ ⦃uni : Unicode⦄ where
  -- Another device has the alias, or has it for its label.
  unfoldable pub uses_alias : DeviceId → Text → DeviceRecord → Bool
  unfolding eq_ignore_ascii_case
  uses_alias id alias d =
      not (d.id == id) && (eq_ignore_ascii_case d.label.name alias || contains d.aliases alias)

  unfoldable pub add_alias : Option ℕ → DeviceId → Text → DeviceStore → Call (Unit {0})
  unfolding modify uses_alias
  add_alias disk id given s =
      let alias = uni.to_lowercase (trim given) in
      if alias == []
      then (err (config (text "empty alias")), s)
      else if any (uses_alias id alias) (values s.devices)
      then (err (config (text "alias '" ++ alias ++ text "' already used")), s)
      else modify disk id (λ r. record r { aliases = push_new alias r.aliases }) s

  unfoldable pub remove_alias : Option ℕ → DeviceId → Text → DeviceStore → Call (Unit {0})
  unfolding modify
  remove_alias disk id given s =
      let alias = uni.to_lowercase (trim given) in
      modify disk id (λ r. record r { aliases = without alias r.aliases }) s

  unfoldable pub add_group : Option ℕ → DeviceId → Text → DeviceStore → Call (Unit {0})
  unfolding modify
  add_group disk id given s =
      let g = uni.to_lowercase (trim given) in
      if g == []
      then (err (config (text "empty group")), s)
      else modify disk id (λ r. record r { groups = push_new g r.groups }) s

  unfoldable pub remove_group : Option ℕ → DeviceId → Text → DeviceStore → Call (Unit {0})
  unfolding modify
  remove_group disk id given s =
      let g = uni.to_lowercase (trim given) in
      modify disk id (λ r. record r { groups = without g r.groups }) s

  -- `in_group`; the group is not trimmed here.
  unfoldable pub in_group : Text → DeviceStore → List DeviceRecord
  in_group group s =
      sort_by (λ a b. text_lt a.label.name b.label.name)
        (keep_if (λ d. contains d.groups (uni.to_lowercase group)) (values s.devices))

  -- The name that `resolve_query` looks for: without `.mym`, without a last dot.
  unfoldable pub query_host : Text → Text
  unfolding strip_suffix
  query_host q = strip_suffix (text ".") (strip_suffix (text ".mym") (trim q))

  unfoldable pub is_exact_match : Text → DeviceRecord → Bool
  unfolding eq_ignore_ascii_case
  is_exact_match host d =
      eq_ignore_ascii_case d.label.name host || any (λ a. eq_ignore_ascii_case a host) d.aliases

  unfoldable pub is_prefix_match : Text → DeviceRecord → Bool
  is_prefix_match lower d =
      starts_with (uni.to_lowercase d.label.name) lower
      || starts_with (short d.id) lower
      || any (λ a. starts_with (uni.to_lowercase a) lower) d.aliases

  -- The ids that match, in the order of their digits, each once.
  unfoldable pub hits : (DeviceRecord → Bool) → DeviceStore → List DeviceId
  hits p s = dedup (
      sort_by (λ a b. text_lt (to_string a) (to_string b))
        (map (λ d. d.id) (keep_if p (values s.devices))))

  by_prefix : Text → List DeviceId → Result DeviceId
  by_prefix q (one ∷ []) = ok one
  by_prefix q [] = err (not_found (text "no device matched '" ++ q ++ text "'"))
  by_prefix q (_ ∷ _ ∷ _) = err (config (text "ambiguous device '" ++ q ++ text "'"))

  by_name : Text → Text → List DeviceId → List DeviceId → Result DeviceId
  unfolding by_prefix
  by_name q host (one ∷ []) others = ok one
  by_name q host [] others = by_prefix q others
  by_name q host (_ ∷ _ ∷ _) others = err (config (text "ambiguous name '" ++ host ++ text "'"))

  unfoldable pub resolve_query : Text → DeviceStore → Result DeviceId
  unfolding by_name
  resolve_query q s =
      let host = query_host q in
      by_name (trim q) host (hits (is_exact_match host) s)
        (hits (is_prefix_match (uni.to_lowercase host)) s)
