-- ===== src/Core/Device.antt =====
-- crates/mymesh-core/src/device.rs: capabilities, trust, and the on-disk store of linked devices.
-- A call returns its result with the store it leaves, since what it changed before an error stays
-- changed. `disk` is what the operating system answers to the writes of `flush`.
pub mod Persist
pub mod Trust
pub mod Naming
use my_mesh.Base.{
  ℕ, ◌-◌, Bool, true, false, Option, none, some, List, [], ◌∷◌, arith, if◌then◌else◌, Eq, contains,
  nat_eq, text_eq, io, not_found, serialize, Result, ok, err, ◌>>=◌, ◌>>◌, JsonFile, missing,
  corrupt, holds, Text, text_lt, sort_by,
}
use my_mesh.Base.Dict.{Dict, values, lookup, insert, remove}
use my_mesh.Core.Identity.{Hex, DeviceId, id_eq, to_string, fingerprint, DeviceLabel}

pub data Capability : Type 0 where
  terminal files desktop tcp admin : Capability

unfoldable pub Capability-discrete : Discrete Capability
Capability-discrete = hlevel

instance abbrev pub cap_eq : Eq Capability
cap_eq = record { dec = Capability-discrete }

-- `Capability::all`.
abbrev pub all_caps : List Capability
all_caps = terminal ∷ files ∷ desktop ∷ tcp ∷ []

pub data TrustState : Type 0 where
  trusted pending revoked : TrustState

abbrev pub is_trusted_state : TrustState → Bool
is_trusted_state trusted = true
is_trusted_state _ = false

-- Times are nanoseconds; an endpoint hint is opaque.
pub record DeviceRecord : Type 0 where
  pub id : DeviceId
  pub label : DeviceLabel
  pub fingerprint : Text
  pub capabilities : List Capability
  pub trust : TrustState
  pub linked_at : ℕ
  pub last_seen : Option ℕ
  pub endpoint_hint : Option Text
  pub mesh_id : Option Text
  pub aliases : List Text
  pub groups : List Text

abbrev pub StoreFile : Type 0
StoreFile = Dict Text DeviceRecord

pub record DeviceStore : Type 0 where
  pub devices : Dict DeviceId DeviceRecord
  -- The content of the file at the store's path.
  pub file : JsonFile StoreFile

-- `.map(|d| (key(d), d)).collect()` into a `HashMap`: a later entry replaces one of the same key.
collect_into {ℓ κ} : {K : Type ℓ} {V : Type κ} ⦃e : Eq K⦄ → (V → K) → List V → Dict K V → Dict K V
collect_into key [] d = d
collect_into key (v ∷ vs) d = collect_into key vs (insert (key v) v d)

unfoldable pub collect {ℓ κ} : {K : Type ℓ} {V : Type κ} ⦃e : Eq K⦄ → (V → K) → List V → Dict K V
unfolding collect_into
collect key vs = collect_into key vs []

-- `DeviceStore::open`.
unfoldable pub open_store : JsonFile StoreFile → Result DeviceStore
open_store missing = ok (record { devices = []; file = missing })
open_store (corrupt message) = err (serialize message)
open_store (holds f) = ok (record { devices = collect (λ d. d.id) (values f); file = holds f })

-- `list`: in the order of the labels.
unfoldable pub list : DeviceStore → List DeviceRecord
list s = sort_by (λ a b. text_lt a.label.name b.label.name) (values s.devices)

unfoldable pub get : DeviceStore → DeviceId → Option DeviceRecord
get s id = lookup id s.devices

unfoldable pub is_trusted : DeviceStore → DeviceId → Bool
unfolding get
is_trusted s id = elim (get s id) [ none ↦ false | some d ↦ is_trusted_state d.trust ]

unfoldable pub allows : DeviceStore → DeviceId → Capability → Bool
unfolding get
allows s id cap = elim (get s id) [
  | none ↦ false
  | some d ↦ if is_trusted_state d.trust then contains d.capabilities cap else false
]

abbrev pub Call : Type 0 → Type 0
Call A = Result A × DeviceStore

module _ ⦃hex : Hex⦄ where
  -- What `flush` writes.
  unfoldable pub file_of : Dict DeviceId DeviceRecord → StoreFile
  file_of d = collect (λ r. to_string r.id) (values d)

  -- `flush` writes a temporary file and renames it: a failed write leaves the file as it was.
  unfoldable pub flush : Option ℕ → DeviceStore → Call (Unit {0})
  unfolding file_of
  flush none s = (ok tt, record s { file = holds (file_of s.devices) })
  flush (some e) s = (err (io e), s)

  unfoldable pub upsert : Option ℕ → DeviceRecord → DeviceStore → Call (Unit {0})
  unfolding flush
  upsert disk r s = flush disk (record s { devices = insert r.id r s.devices })

  unfoldable pub revoke : Option ℕ → DeviceId → DeviceStore → Call (Unit {0})
  unfolding flush
  revoke disk id s = elim (lookup id s.devices) [
    | none ↦ (err (not_found (to_string id)), s)
    | some r ↦
        flush disk (record s { devices = insert id (record r { trust = revoked }) s.devices })
  ]

  unfoldable pub remove_device : Option ℕ → DeviceId → DeviceStore → Call (Unit {0})
  unfolding flush
  remove_device disk id s = elim (lookup id s.devices) [
    | none ↦ (err (not_found (to_string id)), s)
    | some r ↦ flush disk (record s { devices = remove id s.devices })
  ]
