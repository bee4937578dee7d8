-- ===== src/Crypto/Words/RoundTrip.antt =====
-- crates/mymesh-crypto/src/words.rs: a pairing code that is shown is read back as it is.
use my_mesh.Base.{
  ℕ, zero, suc, ◌≤◌, ◌<◌, ◌≡◌, refl, ◌∙◌, ◌≢◌, ◌⊎◌, Bool, true, not, ◌&&◌, List, [], ◌∷◌, ◌++◌,
  append_assoc, arith, ℕ_discrete, leb, length, get_or, all, All, All-append, ◌==◌, text_discrete,
  nat_eq, text_eq, ok, Text, text, trim-visible, to_ascii_lowercase, decimal,
}
use my_mesh.Base.{
  split, split-Lacks, split-append, IsDecimal, decimal-IsDecimal, parse_unsigned-decimal,
}
use my_mesh.Core.Device.Naming.{Unicode}
use my_mesh.Crypto.Words.{
  PairingCode, words, as_string, code_from_entropy, coded, of_parts, parse_code,
}

-- A visible character of ASCII, no capital letter; in a word it is no dash.
abbrev pub IsPlain : ℕ → Type 0
IsPlain c = (33 ≤ c) × (c < 127) × ((c < 65) ⊎ (90 < c))

abbrev pub IsInWord : ℕ → Type 0
IsInWord c = IsPlain c × (c ≢ 45)

pub record IsCode (c : PairingCode) : Type 0 where
  pub nameplate_pos : 0 < c.nameplate
  pub nameplate_fits : c.nameplate ≤ 65535
  pub first_chars : All IsInWord c.first
  pub second_chars : All IsInWord c.second
  pub first_nonempty : c.first ≢ []
  pub second_nonempty : c.second ≢ []

plain_lower : (s : Text) → All IsPlain s → to_ascii_lowercase s ≡ s
unfolding to_ascii_lowercase
plain_lower [] h = refl
plain_lower (c ∷ s) h = ground (arith, h, plain_lower s h.1)

All-map : {P Q : ℕ → Type 0} → ((c : ℕ) → P c → Q c) → (s : Text) → All P s → All Q s
All-map f [] h = tt
All-map f (c ∷ s) h = (f c h.0, All-map f s h.1)

decimal-IsInWord : (n : ℕ) → All IsInWord (decimal n)
decimal-IsInWord n =
    All-map (λ c (h : IsDecimal c). (ground (arith, h))) (decimal n) (decimal-IsDecimal n)

shown : (c : PairingCode) → as_string c ≡ decimal c.nameplate ++ 45 ∷ (c.first ++ 45 ∷ c.second)
unfolding as_string text
shown c = simp append_assoc

as_string-IsPlain : (c : PairingCode) → IsCode c → All IsPlain (as_string c)
as_string-IsPlain c v =
    let plain = λ (s : Text) (h : All IsInWord s). All-map (λ c (p : IsInWord c). p.0) s h in
    let dash : IsPlain 45 = ground arith in
    let words_plain =
      All-append IsPlain c.first _ (plain _ v.first_chars) (dash, plain _ v.second_chars) in
    rw (shown c) (
      All-append IsPlain (decimal c.nameplate) _ (plain _ (decimal-IsInWord c.nameplate))
        (dash, words_plain))

split-as_string :
    (c : PairingCode)
    → IsCode c
    → split 45 (as_string c) ≡ decimal c.nameplate ∷ c.first ∷ c.second ∷ []
split-as_string c v =
    let lacks = λ (s : Text) (h : All IsInWord s). All-map (λ c (p : IsInWord c). p.1) s h in
    rw
      (
        shown c,
        split-append 45 (decimal c.nameplate) (c.first ++ 45 ∷ c.second)
            (lacks _ (decimal-IsInWord c.nameplate)),
        split-append 45 c.first c.second (lacks _ v.first_chars),
        split-Lacks 45 c.second (lacks _ v.second_chars),
      )
      refl

module _ ⦃uni : Unicode⦄ where
  -- A code whose words are small letters, digits and signs but dashes is read back as it is.
  pub parse_code-as_string : (c : PairingCode) → IsCode c → parse_code (as_string c) ≡ ok c
  unfolding parse_code of_parts coded
  parse_code-as_string c v =
      let plain = as_string-IsPlain c v in
      let seen =
        trim-visible (as_string c)
          (All-map (λ c (p : IsPlain c). let (a, b, d) = p in (a, b)) _ plain) in
      let low =
        uni.to_lowercase-ascii (as_string c)
          (All-map (λ c (p : IsPlain c). let (a, b, d) = p in omega (arith, b)) _ plain)
        ∙ plain_lower _ plain in
      ground (
        arith,
        seen,
        low,
        split-as_string c v,
        parse_unsigned-decimal 65535 c.nameplate v.nameplate_fits,
        v.nameplate_pos,
        v.first_nonempty,
        v.second_nonempty,
      )

is_in_word : ℕ → Bool
is_in_word c = leb 97 c && leb c 122

is_word : Text → Bool
unfolding is_in_word
is_word s = not (s == []) && all is_in_word s

all-get_or :
    (p : Text → Bool) (xs : List Text) (i : ℕ)
    → all p xs ≡ true
    → i < length xs
    → p (get_or xs i []) ≡ true
all-get_or p [] i h k = absurd (omega (arith, k))
all-get_or p (x ∷ xs) zero h k = ground (arith, h)
all-get_or p (x ∷ xs) (suc i) h k = all-get_or p xs i (ground (arith, h)) (omega (arith, k))

words-are_words : all is_word words ≡ true
unfolding words is_word is_in_word text text_discrete ℕ_discrete
words-are_words = refl

is_word-IsInWord : (s : Text) → all is_in_word s ≡ true → All IsInWord s
unfolding is_in_word
is_word-IsInWord [] h = tt
is_word-IsInWord (c ∷ s) h = (ground (arith, h), is_word-IsInWord s (ground (arith, h)))

-- The codes that are made are such codes.
pub code_from_entropy-IsCode :
    (nameplate i j : ℕ)
    → nameplate ≤ 65535
    → i < length words
    → j < length words
    → IsCode (code_from_entropy nameplate i j)
unfolding code_from_entropy is_word
code_from_entropy-IsCode nameplate i j h hi hj =
    let a = all-get_or is_word words i words-are_words hi in
    let b = all-get_or is_word words j words-are_words hj in
    record {
      nameplate_pos = ground arith;
      nameplate_fits = ground (arith, h);
      first_chars = is_word-IsInWord _ (ground (arith, a));
      second_chars = is_word-IsInWord _ (ground (arith, b));
      first_nonempty = ground (arith, a);
      second_nonempty = ground (arith, b);
    }

module _ ⦃uni : Unicode⦄ where
  -- A code that is made for a number of 16 bits, from two words of the list, and shown, is read
  -- back as it is.
  pub parse_code-code_from_entropy :
      (nameplate i j : ℕ)
      → nameplate ≤ 65535
      → i < length words
      → j < length words
      → parse_code (as_string (code_from_entropy nameplate i j))
        ≡ ok (code_from_entropy nameplate i j)
  parse_code-code_from_entropy nameplate i j h hi hj =
      parse_code-as_string (code_from_entropy nameplate i j)
        (code_from_entropy-IsCode nameplate i j h hi hj)
