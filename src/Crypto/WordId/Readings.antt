-- ===== src/Crypto/WordId/Readings.antt =====
-- crates/mymesh-crypto/src/word_id.rs: an id is read back from its digits and from its URI.
use my_mesh.Base.{
  ℕ, ◌≡◌, refl, ap, ◌∙◌, ◌≢◌, ◌↔◌, ◌⊎◌, inl, inr, true, ◌&&◌, [], ◌∷◌, ◌++◌, arith, ℕ_discrete, ltb,
  leb, Result-cases, length, all, keep_if, All, All-append, nat_eq, text_eq, Result, ok, panic,
  ◌>>=◌, Text, text, trim, trim-visible, IsVisible, starts_with,
}
use my_mesh.Base.{strip_prefix}
use my_mesh.Core.Identity.{Hex, IsHexDigit, DeviceId, id_eq, IsId, to_string}
use my_mesh.Core.Identity.Laws.{from_str-to_string, digits-IsVisible}
use my_mesh.Core.Device.Naming.{Unicode}
use my_mesh.Crypto.WordId.{
  Bip39, is_hex_digit, unquote, unquoted, is_quoted_by, without_uri, digits_or_phrase,
  normalize_device_id_input, device_join_uri, parse_normalized, parse_device_id,
}

hex_kept :
    (h : Text) → All IsHexDigit h → (keep_if is_hex_digit h ≡ h) × (all is_hex_digit h ≡ true)
unfolding is_hex_digit
hex_kept [] v = (refl, refl)
hex_kept (c ∷ h) v = ground (arith, v, hex_kept h v.1)

hex_first :
    (h : Text)
    → All IsHexDigit h
    → length h ≡ 64
    → (c : ℕ) × (rest : Text) × (h ≡ c ∷ rest) × IsHexDigit c
hex_first [] v e = absurd (omega (arith, e))
hex_first (c ∷ rest) v e = (c, rest, refl, v.0)

pub unquote-first : (c : ℕ) (s : Text) → c ≢ 34 → c ≢ 39 → unquote (c ∷ s) ≡ ok (c ∷ s)
unfolding unquote is_quoted_by
unquote-first c s h k = ground (arith, h, k)

uri_kept : (c : ℕ) (s : Text) → c ≢ 109 → without_uri (c ∷ s) ≡ c ∷ s
unfolding without_uri strip_prefix starts_with text
uri_kept c s h = ground (arith, h)

all-IsVisible : (s : Text) → all (λ c. leb 33 c && ltb c 127) s ≡ true → All IsVisible s
all-IsVisible [] h = tt
all-IsVisible (c ∷ s) h = (ground (arith, h), all-IsVisible s (ground (arith, h)))

prefix-IsVisible : All IsVisible (text "mymesh:v1:join:")
unfolding text
prefix-IsVisible = all-IsVisible (text "mymesh:v1:join:") refl

unquote-uri : (t : Text) → unquote (text "mymesh:v1:join:" ++ t) ≡ ok (text "mymesh:v1:join:" ++ t)
unfolding unquote is_quoted_by text ℕ_discrete
unquote-uri t = refl

unquote-panic : (s : Text) → (unquote s ≡ panic) ↔ ((s ≡ 34 ∷ []) ⊎ (s ≡ 39 ∷ []))
unfolding unquote unquoted is_quoted_by
unquote-panic [] = ground arith
unquote-panic (c ∷ []) = ground arith
unquote-panic (c ∷ d ∷ s) = ground arith

-- The reading of an id that is pasted panics exactly where the text without white space around it
-- is one quotation mark alone.
pub normalize_device_id_input-panic :
    ⦃uni : Unicode⦄
    → (input : Text)
    → (normalize_device_id_input input ≡ panic) ↔ ((trim input ≡ 34 ∷ []) ⊎ (trim input ≡ 39 ∷ []))
unfolding normalize_device_id_input
normalize_device_id_input-panic input =
    let (there, back) = unquote-panic (trim input) in
    elim (Result-cases (unquote (trim input))) [
      | inl (s, e) ↦ ground (arith, e, there, back)
      | inr bad ↦ ground (arith, bad, there, back)
    ]

module _ ⦃hex : Hex⦄ ⦃uni : Unicode⦄ ⦃bip39 : Bip39⦄ where
  hex_digits : (id : DeviceId) → IsId id → All IsHexDigit (to_string id)
  unfolding to_string
  hex_digits id v = hex.encode-digits id.bytes v.1

  sixty_four : (id : DeviceId) → IsId id → length (to_string id) ≡ 64
  unfolding to_string
  sixty_four id v = omega (arith, hex.length-encode id.bytes, v.0)

  digits_read :
      (id : DeviceId) → IsId id → parse_normalized (digits_or_phrase (to_string id)) ≡ ok id
  unfolding parse_normalized digits_or_phrase
  digits_read id v =
      let (kept, every) = hex_kept (to_string id) (hex_digits id v) in
      ground (arith, kept, every, sixty_four id v, from_str-to_string id v)

  pub parse_steps :
      (t s q p : Text)
      → trim t ≡ s
      → unquote s ≡ ok q
      → without_uri q ≡ p
      → parse_device_id t ≡ parse_normalized (digits_or_phrase p)
  unfolding parse_device_id normalize_device_id_input
  parse_steps t s q p e1 e2 e3 =
      let after = λ (r : Result Text).
        (do a ← r; ok (digits_or_phrase (without_uri a))) >>= parse_normalized in
      ap (λ x. after (unquote x)) e1
      ∙ ap after e2
      ∙ ap (λ x. parse_normalized (digits_or_phrase x)) e3

  -- An id is read back from its digits.
  pub parse_device_id-to_string : (id : DeviceId) → IsId id → parse_device_id (to_string id) ≡ ok id
  parse_device_id-to_string id v =
      let (c, rest, e, digit) = hex_first (to_string id) (hex_digits id v) (sixty_four id v) in
      let plain : unquote (to_string id) ≡ ok (to_string id) =
        rw e (unquote-first c rest (ground (arith, digit)) (ground (arith, digit))) in
      let kept : without_uri (to_string id) ≡ to_string id =
        rw e (uri_kept c rest (ground (arith, digit))) in
      parse_steps _ _ _ _ (trim-visible (to_string id) (digits-IsVisible _ (hex_digits id v))) plain
        kept
      ∙ digits_read id v

  uri_text : (t : Text) → without_uri (text "mymesh:v1:join:" ++ t) ≡ t
  unfolding without_uri strip_prefix starts_with text
  uri_text t = refl

  -- An id is read back from its URI.
  pub parse_device_id-device_join_uri :
      (id : DeviceId) → IsId id → (device_join_uri id >>= parse_device_id) ≡ ok id
  unfolding device_join_uri
  parse_device_id-device_join_uri id v =
      let visible = digits-IsVisible _ (hex_digits id v) in
      parse_steps _ _ _ _
        (trim-visible (text "mymesh:v1:join:" ++ to_string id)
          (All-append IsVisible (text "mymesh:v1:join:") _ prefix-IsVisible visible))
        (unquote-uri (to_string id)) (uri_text (to_string id))
      ∙ digits_read id v
