-- ===== src/Crypto/WordId/Phrase.antt =====
-- crates/mymesh-crypto/src/word_id.rs: an id is read back from its words.
use my_mesh.Base.{
  ℕ, ◌<◌, ◌≡◌, ◌∙◌, ◌≢◌, ◌⊎◌, inl, inr, List, [], ◌∷◌, arith, ℕ_discrete, length, keep_if, All,
  nat_eq, text_eq, ok, Text, text, join,
}
use my_mesh.Base.{trim-ends}
use my_mesh.Core.Identity.{Hex, DeviceId, id_eq, IsId, from_str}
use my_mesh.Core.Device.Naming.{Unicode}
use my_mesh.Crypto.WordId.{
  Bip39, IsLetters, is_hex_digit, unquote, digits_or_phrase, device_id_to_words, parse_normalized,
  of_entropy, parse_device_id,
}
use my_mesh.Crypto.WordId.Readings.{parse_steps, unquote-first}
use my_mesh.Crypto.WordId.Letters.{
  join-EndsVisible, phrase-join, count_words-join, contains-join, all-keep_if, keep_if-all,
  first_not, no_uri, no_0x,
}

module _ ⦃hex : Hex⦄ ⦃uni : Unicode⦄ ⦃bip39 : Bip39⦄ where
  -- The text of 24 words comes unchanged to the choice between digits and words.
  phrase_steps :
      (w : Text) (ws : List Text)
      → All IsLetters (w ∷ ws)
      → parse_device_id (join (text " ") (w ∷ ws))
        ≡ parse_normalized (digits_or_phrase (join (text " ") (w ∷ ws)))
  phrase_steps w ws h =
      let m = join (text " ") (w ∷ ws) in
      let v = join-EndsVisible w ws h in
      let quote = λ (c : ℕ) (k : c < 97) (n : c ≢ 32). contains-join w ws c h k n in
      let plain : unquote m ≡ ok m = rw v.starts (
        unquote-first v.first v.front (first_not m v 34 (quote 34 (omega arith) (ground arith)))
          (first_not m v 39 (quote 39 (omega arith) (ground arith)))) in
      parse_steps m m m m (trim-ends m v) plain
        (no_uri m (contains-join w ws 58 h (omega arith) (ground arith)))

  as_words :
      (w : Text) (ws : List Text) (id : DeviceId)
      → All IsLetters (w ∷ ws)
      → length (w ∷ ws) ≡ 24
      → length id.bytes ≡ 32
      → bip39.to_entropy (join (text " ") (w ∷ ws)) ≡ inr id.bytes
      → length (keep_if is_hex_digit (join (text " ") (w ∷ ws))) ≢ 64
      → parse_normalized (digits_or_phrase (join (text " ") (w ∷ ws))) ≡ ok id
  unfolding parse_normalized digits_or_phrase of_entropy
  as_words w ws id h n size back k =
      let m = join (text " ") (w ∷ ws) in
      let v = join-EndsVisible w ws h in
      ground (
        arith,
        k,
        n,
        size,
        v.starts,
        no_0x m (contains-join w ws 48 h (omega arith) (ground arith)),
        phrase-join w ws h,
        count_words-join w ws h,
        back,
        keep_if-all is_hex_digit m,
      )

  as_digits :
      (m : Text)
      → length (keep_if is_hex_digit m) ≡ 64
      → parse_normalized (digits_or_phrase m) ≡ from_str (keep_if is_hex_digit m)
  unfolding parse_normalized digits_or_phrase
  as_digits m e = ground (arith, e, all-keep_if is_hex_digit m)

  read_back :
      (id : DeviceId)
      → IsId id
      → (ws : List Text) → length ws ≡ 24
      → All IsLetters ws
      → bip39.to_words id.bytes ≡ inr (join (text " ") ws)
      → bip39.to_entropy (join (text " ") ws) ≡ inr id.bytes
      → (m : Text) × (device_id_to_words id ≡ ok m)
        × ((parse_device_id m ≡ ok id)
            ⊎ ((length (keep_if is_hex_digit m) ≡ 64)
                × (parse_device_id m ≡ from_str (keep_if is_hex_digit m))))
  unfolding device_id_to_words
  read_back id v [] n h e d = absurd (omega (arith, n))
  read_back id v (w ∷ ws) n h e d =
      let m = join (text " ") (w ∷ ws) in
      (
        m,
        ground (arith, e),
        elim (ℕ_discrete (length (keep_if is_hex_digit m)) 64) [
          | yes k ↦ inr (k, phrase_steps w ws h ∙ as_digits m k)
          | no k ↦ inl (phrase_steps w ws h ∙ as_words w ws id h n v.0 d k)
        ],
      )

  -- A 32-byte id has words, which are read back as the id, unless exactly 64 of their letters are
  -- digits of hexadecimal: then they are read as those digits.
  pub parse_device_id-device_id_to_words :
      (id : DeviceId)
      → IsId id
      → (m : Text) × (device_id_to_words id ≡ ok m)
        × ((parse_device_id m ≡ ok id)
            ⊎ ((length (keep_if is_hex_digit m) ≡ 64)
                × (parse_device_id m ≡ from_str (keep_if is_hex_digit m))))
  parse_device_id-device_id_to_words id v =
      let (ws, n, h, e, d) = bip39.words_lem id.bytes v.0 v.1 in read_back id v ws n h e d
