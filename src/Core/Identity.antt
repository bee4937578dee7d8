-- ===== src/Core/Identity.antt =====
-- crates/mymesh-core/src/identity.rs: device ids, labels and fingerprints.
pub mod Laws
use my_mesh.Base.{
  ℕ, ◌+◌, ◌*◌, ◌≤◌, ◌≡◌, ◌⊎◌, inl, inr, [], ◌∷◌, ◌++◌, map, arith, Eq, ◌==◌, if◌then◌else◌, Text,
  text, trim, truncate, slice, join, decimal, IsBytes, All, length, take, Result, ok, err, identity,
  ◌>>=◌, text_discrete, nat_eq,
}

-- The `hex` crate: lower case digits, two for a byte; `decode` takes back what `encode` writes.
abbrev pub IsHexDigit : ℕ → Type 0
IsHexDigit c = ((48 ≤ c) × (c ≤ 57)) ⊎ ((97 ≤ c) × (c ≤ 102))

pub record Hex : Type 0 where
  pub encode : Text → Text
  pub decode : Text → Text ⊎ Text
  pub decode-encode : (b : Text) → IsBytes b → decode (encode b) ≡ inr b
  pub length-encode : (b : Text) → length (encode b) ≡ length b + length b
  pub encode-digits : (b : Text) → IsBytes b → All IsHexDigit (encode b)
  pub encode-take : (n : ℕ) (b : Text) → encode (take n b) ≡ take (n + n) (encode b)

-- `DeviceId([u8; 32])`; that it has 32 bytes is the predicate `IsId`.
pub record DeviceId : Type 0 where
  pub bytes : Text

unfoldable pub DeviceId-discrete : Discrete DeviceId
DeviceId-discrete = hlevel text_discrete

instance abbrev pub id_eq : Eq DeviceId
id_eq = record { dec = DeviceId-discrete }

abbrev pub IsId : DeviceId → Type 0
IsId id = (length id.bytes ≡ 32) × IsBytes id.bytes

module _ ⦃hex : Hex⦄ where
  -- `Display`.
  unfoldable pub to_string : DeviceId → Text
  to_string id = hex.encode id.bytes

  unfoldable pub short : DeviceId → Text
  short id = hex.encode (take 4 id.bytes)

  -- `FromStr`.
  checked : Text ⊎ Text → Result DeviceId
  checked (inl message) = err (identity message)
  checked (inr raw) =
      if length raw == 32
      then ok (record { bytes = raw })
      else err (identity (text "expected 32 bytes, got " ++ decimal (length raw)))

  unfoldable pub from_str : Text → Result DeviceId
  unfolding checked
  from_str s = checked (hex.decode (trim s))

  -- `NodeFingerprint::from_device_id`: the first eight groups of four digits.
  unfoldable pub fingerprint : DeviceId → Text
  unfolding join
  fingerprint id =
      let h = hex.encode id.bytes in
      join (text "-")
        (map (λ i. slice (i * 4) ((i + 1) * 4) h) (0 ∷ 1 ∷ 2 ∷ 3 ∷ 4 ∷ 5 ∷ 6 ∷ 7 ∷ []))

-- `DeviceLabel(String)`.
pub record DeviceLabel : Type 0 where
  pub name : Text

-- `DeviceLabel::new`.
unfoldable pub label_new : Text → Result DeviceLabel
unfolding truncate
label_new s = do t ← truncate 64 s; ok (record { name = t })
