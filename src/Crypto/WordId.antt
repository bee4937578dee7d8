-- ===== src/Crypto/WordId.antt =====
-- crates/mymesh-crypto/src/word_id.rs: device ids as 24 words, as digits or in a URI, and the reading
-- of what a person pastes.
pub mod Readings
pub mod Letters
pub mod Phrase
use my_mesh.Base.{
  ℕ, ◌+◌, ◌-◌, ◌≤◌, ◌≡◌, ◌≢◌, ◌⊎◌, inl, inr, Bool, not, ◌&&◌, ◌||◌, Option, none, some, List, [],
  ◌∷◌, ◌++◌, arith, ltb, leb, if◌then◌else◌, length, get_or, all, keep_if, All, ◌==◌, contains,
  nat_eq, text_eq, identity, Result, ok, err, panic, ◌>>=◌, ◌>>◌, Text, text, IsBytes, trim, join,
  slice, decimal,
}
use my_mesh.Base.{em_dash, space_len, split_where, drop_while, strip_prefix}
use my_mesh.Core.Identity.{Hex, DeviceId, id_eq, to_string, from_str}
use my_mesh.Core.Device.Naming.{Unicode}

-- A word of the list: small letters of ASCII.
abbrev pub IsLetters : Text → Type 0
IsLetters w = All (λ c. (97 ≤ c) × (c ≤ 122)) w × (w ≢ [])

-- The `bip39` crate with its English list: 32 bytes are 24 words with a space between, and those are
-- read back as the bytes.
pub record Bip39 : Type 0 where
  pub to_words : Text → Text ⊎ Text
  pub to_entropy : Text → Text ⊎ Text
  pub words_lem :
      (b : Text)
      → length b ≡ 32
      → IsBytes b
      → (ws : List Text) × (length ws ≡ 24)
        × All IsLetters ws
        × (to_words b ≡ inr (join (text " ") ws))
        × (to_entropy (join (text " ") ws) ≡ inr b)

unfoldable pub is_hex_digit : ℕ → Bool
is_hex_digit c = leb 48 c && leb c 57 || leb 97 c && leb c 102 || leb 65 c && leb c 70

unfoldable pub is_digit : ℕ → Bool
is_digit c = leb 48 c && leb c 57

unfoldable pub is_alphabetic : ℕ → Bool
is_alphabetic c = leb 97 c && leb c 122 || leb 65 c && leb c 90

-- `,`, `;`, `|`, `/`, `\\`, `+` and `=`.
abbrev is_mark : ℕ → Bool
is_mark c = contains (44 ∷ 59 ∷ 124 ∷ 47 ∷ 92 ∷ 43 ∷ 61 ∷ []) c

-- `.`, `)`, `:` and `-`.
unfoldable pub is_index_mark : ℕ → Bool
is_index_mark c = contains (46 ∷ 41 ∷ 58 ∷ 45 ∷ []) c

-- The bytes of a separator of words.
unfoldable pub separator_len : ℕ → ℕ → ℕ → ℕ
separator_len a b c = if is_mark a then 1 else space_len a b c

-- `s[1..s.len() - 1]`, where the text starts and ends with a quote; of one quote alone it panics.
unquoted : Text → Result Text
unquoted s = if ltb (length s - 1) 1 then panic else ok (trim (slice 1 (length s - 1) s))

is_quoted_by : ℕ → Text → Bool
is_quoted_by quote s = get_or s 0 0 == quote && get_or s (length s - 1) 0 == quote

unfoldable pub unquote : Text → Result Text
unfolding unquoted is_quoted_by
unquote s = if is_quoted_by 34 s || is_quoted_by 39 s then unquoted s else ok s

unfoldable pub without_uri : Text → Text
without_uri s = elim (strip_prefix (text "mymesh:v1:join:") s) [ none ↦ s | some rest ↦ rest ]

-- What follows `0x` or `0X`.
pub after_0x : Text → Option Text
after_0x s = elim (strip_prefix (text "0x") s) [
  | none ↦ strip_prefix (text "0X") s
  | some rest ↦ some rest
]

module _ ⦃uni : Unicode⦄ where
  -- The words of one token: none, or one. The token is `t`, and `u` without the number in front.
  lettered : Text → Text → List Text
  unfolding is_digit is_alphabetic
  lettered t u =
      if t == [] || all (λ c. is_digit c || c == 46 || c == 41) t
      then []
      else if u == []
      then []
      else if all is_alphabetic u
      then uni.to_lowercase u ∷ []
      else []

  unfoldable pub token_words : Text → List Text
  unfolding lettered is_digit is_index_mark
  token_words tok =
      let t = trim tok in lettered t (trim (drop_while is_index_mark (drop_while is_digit t)))

  words_of : List Text → List Text
  unfolding token_words
  words_of [] = []
  words_of (tok ∷ toks) = token_words tok ++ words_of toks

  pub phrase : Text → Text
  unfolding separator_len words_of
  phrase s = join (text " ") (words_of (split_where separator_len s))

  -- What is made of the text without quotes and prefix.
  unfoldable pub digits_or_phrase : Text → Text
  unfolding is_hex_digit phrase after_0x
  digits_or_phrase s =
      let digits = keep_if is_hex_digit s in
      if length digits == 64 then digits else elim (after_0x s) [
        | none ↦ phrase s
        | some rest ↦
            if length (keep_if is_hex_digit rest) == 64 then keep_if is_hex_digit rest else phrase s
      ]

  unfoldable pub normalize_device_id_input : Text → Result Text
  unfolding unquote without_uri digits_or_phrase
  normalize_device_id_input input = do
    s ← unquote (trim input)
    ok (digits_or_phrase (without_uri s))

-- `split_whitespace().count()`.
unfoldable pub count_words : Text → ℕ
count_words s = length (keep_if (λ t. not (t == [])) (split_where space_len s))

unfoldable pub device_id_to_words : ⦃bip39 : Bip39⦄ → DeviceId → Result Text
device_id_to_words ⦃bip39⦄ id = elim (bip39.to_words id.bytes) [
  | inl e ↦ err (identity (text "word encode: " ++ e))
  | inr m ↦ ok m
]

module _ ⦃hex : Hex⦄ where
  unfoldable pub device_join_uri : DeviceId → Result Text
  device_join_uri id = ok (text "mymesh:v1:join:" ++ to_string id)

module _ ⦃hex : Hex⦄ ⦃uni : Unicode⦄ ⦃bip39 : Bip39⦄ where
  of_entropy : ℕ → Text ⊎ Text → Result DeviceId
  of_entropy words (inl e) = err (
      identity (
        text "invalid word id ("
        ++ decimal words
        ++ text " tokens): "
        ++ e
        ++ text " "
        ++ em_dash
        ++ text " need a valid 24-word BIP39 phrase"))
  of_entropy words (inr b) =
      if length b == 32
      then ok (record { bytes = b })
      else err (
          identity (
            text "word id must encode 32 bytes (24 words), got "
            ++ decimal (length b)
            ++ text " bytes from "
            ++ decimal words
            ++ text " words"))

  -- `parse_device_id` of the normalised text.
  unfoldable pub parse_normalized : Text → Result DeviceId
  unfolding is_hex_digit count_words of_entropy
  parse_normalized s =
      if s == []
      then err (identity (text "empty device id"))
      else if length s == 64 && all is_hex_digit s
      then from_str s
      else if leb 12 (count_words s)
      then of_entropy (count_words s) (bip39.to_entropy s)
      else if leb 8 (length s) && all is_hex_digit s
      then err (
          identity (
            text "partial hex is ambiguous "
            ++ em_dash
            ++ text " use full 64-char hex or 24-word id"))
      else err (
          identity (
            text "could not parse device id (need 64-char hex or 24-word phrase); got "
            ++ decimal (count_words s)
            ++ text " tokens"))

  unfoldable pub parse_device_id : Text → Result DeviceId
  unfolding normalize_device_id_input parse_normalized
  parse_device_id input = do s ← normalize_device_id_input input; parse_normalized s
