-- ===== src/Session/Carrier/Page.antt =====
-- crates/mymesh-session/src/carrier.rs: the texts that are escaped, and the deep link for the phone.
use my_mesh.Base.{
  ℕ, ◌+◌, ◌/◌, ◌%◌, Bool, ◌&&◌, ◌||◌, Option, none, some, [], ◌∷◌, ◌++◌, ltb, leb, if◌then◌else◌,
  ◌==◌, contains, nat_eq, text_eq, Text, text,
}

abbrev pub is_unreserved : ℕ → Bool
is_unreserved b =
    leb 65 b && leb b 90
    || leb 97 b && leb b 122
    || leb 48 b && leb b 57
    || contains (45 ∷ 95 ∷ 46 ∷ 126 ∷ []) b

-- A digit of `{:X}`.
abbrev pub upper_digit : ℕ → ℕ
upper_digit n = if ltb n 10 then 48 + n else 55 + n

unfoldable pub percent_byte : ℕ → Text
percent_byte b =
    if is_unreserved b then b ∷ [] else 37 ∷ upper_digit (b / 16) ∷ upper_digit (b % 16) ∷ []

unfoldable pub percent_encode : Text → Text
unfolding percent_byte
percent_encode [] = []
percent_encode (b ∷ s) = percent_byte b ++ percent_encode s

unfoldable pub build_pair_qr : Text → Text → Text → Option Text → Text
unfolding percent_encode
build_pair_qr host_base token fp mesh =
    let q =
      text "carrier://pair?v=1&host="
      ++ percent_encode host_base
      ++ text "&token="
      ++ percent_encode token
      ++ text "&fp="
      ++ percent_encode fp in
    elim mesh [ none ↦ q | some m ↦ if m == [] then q else q ++ text "&mesh=" ++ percent_encode m ]

unfoldable pub escape_char : ℕ → Text
escape_char c =
    if c == 38
    then text "&amp;"
    else if c == 60
    then text "&lt;"
    else if c == 62
    then text "&gt;"
    else if c == 34
    then text "&quot;"
    else c ∷ []

unfoldable pub html_escape : Text → Text
unfolding escape_char
html_escape [] = []
html_escape (c ∷ s) = escape_char c ++ html_escape s
