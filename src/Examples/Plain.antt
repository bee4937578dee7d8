-- ===== src/Examples/Plain.antt =====
-- An implementation of the interfaces of the parameters, on which the statements are tried.
use my_mesh.Base.{
  ℕ, zero, suc, ◌+◌, ◌-◌, ◌*◌, ◌/◌, ◌%◌, ◌^◌, ◌<◌, ◌≡◌, refl, ◌⊎◌, inl, inr, Bool, true, false,
  ◌&&◌, ◌||◌, Option, none, some, [], ◌∷◌, ◌++◌, arith, ltb, leb, if◌then◌else◌, length, take, All,
  ◌==◌, ==_self, nat_eq, text_eq, ok, Text, text, IsBytes, to_ascii_lowercase, pos, pos_part,
}
use my_mesh.Core.Identity.{Hex, IsHexDigit, id_eq}
use my_mesh.Core.Join.{Chrono}
use my_mesh.Crypto.Identity.{Ed25519}
use my_mesh.Core.Device.Naming.{Unicode}

unfoldable pub digit : ℕ → ℕ
digit n = if ltb n 10 then 48 + n else 87 + n

unfoldable pub digit_value : ℕ → ℕ
digit_value c = if ltb c 58 then c - 48 else c - 87

unfoldable pub is_digit : ℕ → Bool
is_digit c = leb 48 c && leb c 57 || leb 97 c && leb c 102

unfoldable pub encode : Text → Text
unfolding digit
encode [] = []
encode (b ∷ s) = digit (b / 16) ∷ digit (b % 16) ∷ encode s

unfoldable pub decoded : Bool → ℕ → Text ⊎ Text → Text ⊎ Text
decoded true b (inr s) = inr (b ∷ s)
decoded true b (inl e) = inl e
decoded false b rest = inl (text "Invalid character")

unfoldable pub decode : Text → Text ⊎ Text
unfolding decoded is_digit digit_value
decode [] = inr []
decode (x ∷ []) = inl (text "Odd number of digits")
decode (x ∷ y ∷ s) =
    decoded (is_digit x && is_digit y) (digit_value x * 16 + digit_value y) (decode s)

digit-is_digit : (n : ℕ) → n < 16 → is_digit (digit n) ≡ true
unfolding is_digit digit
digit-is_digit n h = ground arith

digit_value-digit : (n : ℕ) → n < 16 → digit_value (digit n) ≡ n
unfolding digit_value digit
digit_value-digit n h = ground arith

digit-IsHexDigit : (n : ℕ) → n < 16 → IsHexDigit (digit n)
unfolding digit
digit-IsHexDigit n h = ground arith

pub decode-encode : (b : Text) → IsBytes b → decode (encode b) ≡ inr b
unfolding decode encode decoded
decode-encode [] h = refl
decode-encode (b ∷ s) h =
    let hi : b / 16 < 16 = omega (arith, h.0) in
    let lo : b % 16 < 16 = omega arith in
    let whole : b / 16 * 16 + b % 16 ≡ b = omega arith in
    rw
      (
        digit-is_digit (b / 16) hi,
        digit-is_digit (b % 16) lo,
        digit_value-digit (b / 16) hi,
        digit_value-digit (b % 16) lo,
        decode-encode s h.1,
        whole,
      )
      refl

pub length-encode : (b : Text) → length (encode b) ≡ length b + length b
unfolding encode
length-encode [] = refl
length-encode (b ∷ s) = omega (arith, length-encode s)

pub encode-digits : (b : Text) → IsBytes b → All IsHexDigit (encode b)
unfolding encode
encode-digits [] h = tt
encode-digits (b ∷ s) h = (
  digit-IsHexDigit (b / 16) (omega (arith, h.0)),
  (digit-IsHexDigit (b % 16) (omega arith), encode-digits s h.1),
)

take-nil : (n : ℕ) → [] ≡ take {A = ℕ} n []
take-nil zero = refl
take-nil (suc n) = refl

pub encode-take : (n : ℕ) (b : Text) → encode (take n b) ≡ take (n + n) (encode b)
unfolding encode
encode-take zero b = refl
encode-take (suc n) [] = take-nil (suc n + suc n)
encode-take (suc n) (b ∷ s) =
    let two : suc n + suc n ≡ suc (suc (n + n)) = omega arith in rw (two, encode-take n s) refl

-- The `hex` crate.
abbrev pub plain_hex : Hex
plain_hex = record {
  encode = encode;
  decode = decode;
  decode-encode = decode-encode;
  length-encode = length-encode;
  encode-digits = encode-digits;
  encode-take = encode-take;
}

-- `chrono`, with times up to the year 262143.
abbrev pub plain_chrono : Chrono
plain_chrono = record {
  plus_secs = λ now secs. ok (now + secs * 1000000000);
  last = 10 ^ 21;
  plus_secs_lem = λ now secs h k. refl;
  of_unix = λ t. some (pos_part t * 1000000000);
  to_unix = λ t. pos (t / 1000000000);
}

unfoldable pub check : Text → Text → Text → Option Text
check key message signature =
    if signature == key ++ message then none else some (text "signature error")

pub check-sign : (secret message : Text) → check secret message (secret ++ message) ≡ none
unfolding check
check-sign secret message = ground (arith, ==_self (secret ++ message))

-- A scheme in which a signature is the key and the message: it accepts what it makes, and no other.
abbrev pub plain_ed : Ed25519
plain_ed = record {
  verifying_key = λ secret. secret;
  sign = λ secret message. secret ++ message;
  check = check;
  check-sign = check-sign;
}

-- Lower case of the letters of ASCII.
abbrev pub plain_unicode : Unicode
plain_unicode = record { to_lowercase = to_ascii_lowercase; to_lowercase-ascii = λ t h. refl }
