-- ===== src/Base/Strings.antt =====
-- Texts: a Rust `String` is the list of the bytes of its UTF-8, a byte slice the list of its bytes.
use mathlib.Core.Path.{◌≡◌, refl}
use Prim.Native.Nat.{zero, suc, ◌≤◌, ◌+◌, ◌-◌, ◌/◌, ◌%◌, ℕ, ◌<◌}
use Prim.Native.Char.{code}
use Prim.Native.String.{String}
use native.Mathlib.Omega.{arith}
use mathlib.Core.Bool.{◌&&◌, ◌||◌, Bool, true, false}
use mathlib.Core.List.{◌++◌, map, reverse, reverse-cons, reverse-reverse, List, [], ◌∷◌}
use my_mesh.Base.Tests.{ltb, leb, if◌then◌else◌}
use my_mesh.Base.Lists.{All, All-append, length, take, drop, get_or}
use my_mesh.Base.Outcome.{Result, ok, panic}

abbrev pub Text : Type 0
Text = List ℕ

-- An ASCII literal of the source.
unfoldable pub text : String → Text
text String.[] = []
text (String.◌∷◌ c s) = code c ∷ text s

-- The bytes of U+2014.
abbrev pub em_dash : Text
em_dash = 226 ∷ 128 ∷ 148 ∷ []

abbrev pub IsBytes : Text → Type 0
IsBytes = All (λ b. b < 256)

-- `Ord` of `str` and of byte slices, as the test `a < b`.
unfoldable pub text_lt : Text → Text → Bool
text_lt a [] = false
text_lt [] (y ∷ b) = true
text_lt (x ∷ a) (y ∷ b) =
    let rest = text_lt a b in if ltb x y then true else if ltb y x then false else rest

-- `is_char_boundary` inside a text: the byte there is no continuation byte.
abbrev pub is_boundary : ℕ → Bool
is_boundary b = ltb b 128 || leb 192 b

-- `String::truncate`: it panics where the cut would split a character.
unfoldable pub truncate : ℕ → Text → Result Text
truncate n s =
    if ltb n (length s) then (if is_boundary (get_or s n 0) then ok (take n s) else panic) else ok s

-- `char::is_whitespace`, on the one, two or three bytes of a character: U+0009 to U+000D, U+0020,
-- U+0085, U+00A0, U+1680, U+2000 to U+200A, U+2028, U+2029, U+202F, U+205F and U+3000.
abbrev is_byte : ℕ → ℕ → Bool
is_byte x y = leb x y && leb y x

unfoldable pub is_space1 : ℕ → Bool
is_space1 a = leb 9 a && leb a 13 || is_byte 32 a

unfoldable pub is_space2 : ℕ → ℕ → Bool
is_space2 a b = is_byte 194 a && (is_byte 133 b || is_byte 160 b)

unfoldable pub is_space3 : ℕ → ℕ → ℕ → Bool
is_space3 a b c =
    is_byte 225 a && is_byte 154 b && is_byte 128 c
    || is_byte 226 a
      && is_byte 128 b
      && (leb 128 c && leb c 138 || is_byte 168 c || is_byte 169 c || is_byte 175 c)
    || is_byte 226 a && is_byte 129 b && is_byte 159 c
    || is_byte 227 a && is_byte 128 b && is_byte 128 c

-- The number of bytes of the white space character at the start of a text, and of the one at the
-- end of a text that is given from its end; 0 if there is none.
unfoldable pub space_len : ℕ → ℕ → ℕ → ℕ
unfolding is_space1 is_space2 is_space3
space_len a b c =
    if is_space1 a then 1 else if is_space2 a b then 2 else if is_space3 a b c then 3 else 0

space_len_back : ℕ → ℕ → ℕ → ℕ
unfolding is_space1 is_space2 is_space3
space_len_back a b c =
    if is_space1 a then 1 else if is_space2 b a then 2 else if is_space3 c b a then 3 else 0

-- Drops such characters; each round drops a byte, so the length is fuel enough.
drop_spaces : (ℕ → ℕ → ℕ → ℕ) → ℕ → Text → Text
drop_spaces measure zero s = s
drop_spaces measure (suc fuel) s = elim (measure (get_or s 0 0) (get_or s 1 0) (get_or s 2 0)) [
  | zero ↦ s
  | suc k ↦ drop_spaces measure fuel (drop (suc k) s)
]

-- `str::trim`.
unfoldable pub trim : Text → Text
unfolding drop_spaces space_len space_len_back
trim s =
    let front = drop_spaces space_len (length s) s in
    reverse (drop_spaces space_len_back (length front) (reverse front))

-- A byte of a visible ASCII character.
abbrev pub IsVisible : ℕ → Type 0
IsVisible b = (33 ≤ b) × (b < 127)

drop_spaces-visible :
    (fuel b : ℕ) (s : Text)
    → IsVisible b
    → (drop_spaces space_len fuel (b ∷ s) ≡ b ∷ s)
      × (drop_spaces space_len_back fuel (b ∷ s) ≡ b ∷ s)
unfolding drop_spaces space_len space_len_back is_space1 is_space2 is_space3
drop_spaces-visible zero b s v = (refl, refl)
drop_spaces-visible (suc f) b s v = (ground arith, ground arith)

pub reverse-IsVisible : (s : Text) → All IsVisible s → All IsVisible (reverse s)
reverse-IsVisible [] h = tt
reverse-IsVisible (b ∷ s) h =
    rw (reverse-cons b s)
      (All-append IsVisible (reverse s) (b ∷ []) (reverse-IsVisible s h.1) (h.0, tt))

drop-visible :
    (s : Text) (fuel : ℕ)
    → All IsVisible s
    → (drop_spaces space_len fuel s ≡ s) × (drop_spaces space_len_back fuel s ≡ s)
unfolding drop_spaces space_len space_len_back is_space1 is_space2 is_space3
drop-visible [] zero h = (refl, refl)
drop-visible [] (suc fuel) h = (refl, refl)
drop-visible (b ∷ s) fuel h = drop_spaces-visible fuel b s h.0

-- A text of visible ASCII characters is trimmed already.
pub trim-visible : (s : Text) → All IsVisible s → trim s ≡ s
unfolding trim
trim-visible s h =
    rw
      (
        (drop-visible s (length s) h).0,
        (drop-visible (reverse s) (length s) (reverse-IsVisible s h)).1,
      )
      (reverse-reverse s)

-- A text that starts and ends with a visible character of ASCII.
pub record EndsVisible (s : Text) : Type 0 where
  pub first : ℕ
  pub front : Text
  pub last : ℕ
  pub back : Text
  pub starts : s ≡ first ∷ front
  pub ends : reverse s ≡ last ∷ back
  pub visible : IsVisible first × IsVisible last

-- It is trimmed already.
pub trim-ends : (s : Text) → EndsVisible s → trim s ≡ s
unfolding trim
trim-ends s v =
    let here : drop_spaces space_len (length s) s ≡ s =
      rw v.starts
        ((drop_spaces-visible (length (v.first ∷ v.front)) v.first v.front v.visible.0).0) in
    let there : drop_spaces space_len_back (length s) (reverse s) ≡ reverse s =
      rw v.ends ((drop_spaces-visible (length s) v.last v.back v.visible.1).1) in
    rw (here, there) (reverse-reverse s)

-- `eq_ignore_ascii_case` and `to_ascii_lowercase`.
abbrev pub ascii_lower : ℕ → ℕ
ascii_lower b = if leb 65 b && leb b 90 then b + 32 else b

unfoldable pub to_ascii_lowercase : Text → Text
to_ascii_lowercase = map ascii_lower

-- `[&str]::join`.
unfoldable pub join : Text → List Text → Text
join sep [] = []
join sep (t ∷ []) = t
join sep (t ∷ u ∷ ts) = t ++ sep ++ join sep (u ∷ ts)

-- `&t[a..b]`, at bounds that lie inside.
abbrev pub slice : ℕ → ℕ → Text → Text
slice a b t = take (b - a) (drop a t)

-- `starts_with`.
unfoldable pub starts_with : Text → Text → Bool
starts_with s [] = true
starts_with [] (p ∷ ps) = false
starts_with (b ∷ s) (p ∷ ps) = leb b p && leb p b && starts_with s ps

-- `Display` of an unsigned integer; a number has at most as many digits as its value plus one.
unfoldable pub decimal_digits : ℕ → ℕ → Text → Text
decimal_digits zero n acc = acc
decimal_digits (suc fuel) n acc =
    let rest = decimal_digits fuel (n / 10) ((48 + n % 10) ∷ acc) in
    if ltb n 10 then (48 + n) ∷ acc else rest

unfoldable pub decimal : ℕ → Text
unfolding decimal_digits
decimal n = decimal_digits (suc n) n []
