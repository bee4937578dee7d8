-- ===== src/Core/Identity/Laws.antt =====
-- crates/mymesh-core/src/identity.rs: round trip of device ids, shape of fingerprints, labels.
use my_mesh.Base.{
  ℕ, ◌+◌, ◌≤◌, ◌<◌, ◌≡◌, ap, ◌⊎◌, [], ◌∷◌, arith, get_or, Text, text, truncate, trim-visible,
  IsVisible, is_boundary, All, length, take, length-take, length-append, ok, panic, join, drop,
  true, false, length-drop,
}
use my_mesh.Core.Identity.{
  Hex, IsHexDigit, DeviceId, IsId, to_string, short, from_str, checked, fingerprint, label_new,
}

pub digits-IsVisible : (s : Text) → All IsHexDigit s → All IsVisible s
digits-IsVisible [] h = tt
digits-IsVisible (c ∷ s) h = (omega arith, digits-IsVisible s h.1)

module _ ⦃hex : Hex⦄ where
  -- A 32-byte id survives being printed and parsed.
  pub from_str-to_string : (id : DeviceId) → IsId id → from_str (to_string id) ≡ ok id
  unfolding from_str to_string checked
  from_str-to_string id v =
      rw
        (
          trim-visible _ (digits-IsVisible _ (hex.encode-digits id.bytes v.1)),
          hex.decode-encode id.bytes v.1,
        )
        (ground (arith, v.0))

  -- So distinct ids print differently.
  pub to_string-injective : (a b : DeviceId) → IsId a → IsId b → to_string a ≡ to_string b → a ≡ b
  to_string-injective a b va vb e =
      grind (arith, from_str-to_string a va, from_str-to_string b vb, ap from_str e)

  -- The short form is the first eight digits of the long one.
  pub short-to_string : (id : DeviceId) → short id ≡ take 8 (to_string id)
  unfolding short to_string
  short-to_string id = hex.encode-take 4 id.bytes

  -- What parses is a 32-byte id.
  pub from_str-length : (s : Text) (id : DeviceId) → from_str s ≡ ok id → length id.bytes ≡ 32
  unfolding from_str checked
  from_str-length s id e = ground arith

  -- Four digits of an id's sixty-four.
  length-piece : (h : Text) (k : ℕ) → 4 + k ≤ length h → length (take 4 (drop k h)) ≡ 4
  length-piece h k le = omega (arith, length-take 4 (drop k h), length-drop k h)

  pub length-fingerprint : (id : DeviceId) → IsId id → length (fingerprint id) ≡ 39
  unfolding fingerprint join text
  length-fingerprint id v =
      let h = hex.encode id.bytes in
      let long : length h ≡ 64 = omega (arith, hex.length-encode id.bytes, v.0) in
      let piece = λ (k : ℕ) (le : 4 + k ≤ 64). length-piece h k (omega arith) in
      simp length-append (
        omega (
          arith,
          piece 0 (omega arith),
          piece 4 (omega arith),
          piece 8 (omega arith),
          piece 12 (omega arith),
          piece 16 (omega arith),
          piece 20 (omega arith),
          piece 24 (omega arith),
          piece 28 (omega arith),
        ))

-- A label is cut to 64 bytes; where that cut would split a character the call panics.
pub label_new_lem :
    (s : Text)
    → ((length s ≤ 64) × (label_new s ≡ ok (record { name = s })))
      ⊎ ((64 < length s)
          × (is_boundary (get_or s 64 0) ≡ true)
          × (label_new s ≡ ok (record { name = take 64 s })))
      ⊎ ((64 < length s) × (is_boundary (get_or s 64 0) ≡ false) × (label_new s ≡ panic))
unfolding label_new truncate
label_new_lem s = ground arith

-- A label of at most 64 bytes is kept.
pub label_new_short : (s : Text) → length s ≤ 64 → label_new s ≡ ok (record { name = s })
label_new_short s h = ground (arith, h, label_new_lem s)
