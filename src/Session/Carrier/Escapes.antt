-- ===== src/Session/Carrier/Escapes.antt =====
-- crates/mymesh-session/src/carrier.rs: what is put into the deep link can be read from it, and what is put
-- into the page is no markup.
use my_mesh.Base.{
  ℕ, ◌+◌, ◌-◌, ◌*◌, ◌/◌, ◌%◌, ◌<◌, ◌≡◌, refl, ap, ◌∙◌, ◌≢◌, inl, inr, true, false, some, [], ◌∷◌,
  ◌++◌, append_assoc, arith, ℕ_discrete, ltb, if◌then◌else◌, Bool-cases, All, All-append, ◌==◌,
  contains, nat_eq, text_eq, Text, text, IsBytes,
}
use my_mesh.Base.{split, Lacks, split-Lacks, split-append}
use my_mesh.Session.Carrier.Page.{
  is_unreserved, upper_digit, percent_byte, percent_encode, build_pair_qr, escape_char, html_escape,
}

-- The decoding of a percent-encoded text, as its reader does it.
abbrev pub digit_value : ℕ → ℕ
digit_value c = if ltb c 58 then c - 48 else c - 55

unfoldable pub percent_decode : Text → Text
percent_decode [] = []
percent_decode (c ∷ []) = c ∷ []
percent_decode (c ∷ x ∷ []) = c ∷ x ∷ []
percent_decode (c ∷ x ∷ y ∷ s) = elim (c == 37) [
  | true ↦ (digit_value x * 16 + digit_value y) ∷ percent_decode s
  | false ↦ c ∷ percent_decode (x ∷ y ∷ s)
]

plain_kept : (c : ℕ) (s : Text) → c ≢ 37 → percent_decode (c ∷ s) ≡ c ∷ percent_decode s
unfolding percent_decode
plain_kept c [] n = refl
plain_kept c (x ∷ []) n = refl
plain_kept c (x ∷ y ∷ s) n = ground (arith, n)

digit_value-upper_digit : (n : ℕ) → n < 16 → digit_value (upper_digit n) ≡ n
digit_value-upper_digit n h = ground (arith, h)

escaped_byte :
    (b : ℕ) (s : Text)
    → b < 256
    → percent_decode (37 ∷ upper_digit (b / 16) ∷ upper_digit (b % 16) ∷ s) ≡ b ∷ percent_decode s
unfolding percent_decode ℕ_discrete
escaped_byte b s h =
    let high = digit_value-upper_digit (b / 16) (omega (arith, h)) in
    let low = digit_value-upper_digit (b % 16) (omega arith) in
    let whole : b / 16 * 16 + b % 16 ≡ b = omega arith in
    let value : digit_value (upper_digit (b / 16)) * 16 + digit_value (upper_digit (b % 16)) ≡ b =
      ap (λ v. v * 16 + digit_value (upper_digit (b % 16))) high
      ∙ ap (λ v. b / 16 * 16 + v) low
      ∙ whole in
    ap (λ v. v ∷ percent_decode s) value

pub percent_decode-percent_encode : (s : Text) → IsBytes s → percent_decode (percent_encode s) ≡ s
unfolding percent_decode percent_encode percent_byte
percent_decode-percent_encode [] h = refl
percent_decode-percent_encode (b ∷ s) h = elim (Bool-cases (is_unreserved b)) [
  | inl plain ↦ ground (
    arith,
    plain,
    plain_kept b (percent_encode s) (ground (arith, plain)),
    percent_decode-percent_encode s h.1,
  )
  | inr odd ↦
      ground
        (arith, odd, escaped_byte b (percent_encode s) h.0, percent_decode-percent_encode s h.1)
]

encoded-Lacks : (s : Text) → IsBytes s → Lacks 38 (percent_encode s)
unfolding percent_encode percent_byte
encoded-Lacks [] h = tt
encoded-Lacks (b ∷ s) h = elim (Bool-cases (is_unreserved b)) [
  | inl plain ↦ ground (arith, plain, encoded-Lacks s h.1)
  | inr odd ↦ ground (arith, odd, h.0, encoded-Lacks s h.1)
]

abbrev IsNoMarkup : ℕ → Type 0
IsNoMarkup c = (c ≢ 60) × (c ≢ 62) × (c ≢ 34)

escape_char-IsNoMarkup : (c : ℕ) → All IsNoMarkup (escape_char c)
unfolding escape_char text
escape_char-IsNoMarkup c = ground arith

-- What is escaped has no angle bracket and no quotation mark.
pub html_escape-IsNoMarkup : (s : Text) → All IsNoMarkup (html_escape s)
unfolding html_escape
html_escape-IsNoMarkup [] = tt
html_escape-IsNoMarkup (c ∷ s) =
    All-append IsNoMarkup (escape_char c) (html_escape s) (escape_char-IsNoMarkup c)
      (html_escape-IsNoMarkup s)

contains-Lacks : (p : Text) → contains p 38 ≡ false → Lacks 38 p
contains-Lacks [] h = tt
contains-Lacks (c ∷ p) h = (ground (arith, h), contains-Lacks p (ground (arith, h)))

append-Lacks : (p s : Text) → contains p 38 ≡ false → IsBytes s → Lacks 38 (p ++ percent_encode s)
append-Lacks p s h v =
    All-append (λ c. c ≢ 38) p (percent_encode s) (contains-Lacks p h) (encoded-Lacks s v)

link_text :
    (host_base token fp m : Text)
    → m ≢ []
    → build_pair_qr host_base token fp (some m)
      ≡ text "carrier://pair?v=1"
        ++ 38
          ∷ ((text "host=" ++ percent_encode host_base)
              ++ 38
                ∷ ((text "token=" ++ percent_encode token)
                    ++ 38
                      ∷ ((text "fp=" ++ percent_encode fp)
                          ++ 38 ∷ (text "mesh=" ++ percent_encode m))))
unfolding build_pair_qr text
link_text host_base token fp m n =
    let given : (m == []) ≡ false = ground (arith, n) in rw given (simp append_assoc)

names_lack :
    Lacks 38 (text "carrier://pair?v=1")
    × (contains (text "host=") 38 ≡ false)
    × (contains (text "token=") 38 ≡ false)
    × (contains (text "fp=") 38 ≡ false)
    × (contains (text "mesh=") 38 ≡ false)
unfolding text ℕ_discrete
names_lack = (contains-Lacks (text "carrier://pair?v=1") refl, refl, refl, refl, refl)

-- A deep link of a mesh that is not empty, cut at every `&`, has exactly its five parts, each its
-- name and the encoding of its value, whatever bytes the values have.
pub split-build_pair_qr :
    (host_base token fp m : Text)
    → IsBytes host_base
    → IsBytes token
    → IsBytes fp
    → IsBytes m
    → m ≢ []
    → split 38 (build_pair_qr host_base token fp (some m))
      ≡ text "carrier://pair?v=1"
        ∷ (text "host=" ++ percent_encode host_base)
        ∷ (text "token=" ++ percent_encode token)
        ∷ (text "fp=" ++ percent_encode fp)
        ∷ (text "mesh=" ++ percent_encode m)
        ∷ []
split-build_pair_qr host_base token fp m vh vt vf vm n =
    let start = text "carrier://pair?v=1" in
    let h = text "host=" ++ percent_encode host_base in
    let t = text "token=" ++ percent_encode token in
    let f = text "fp=" ++ percent_encode fp in
    let e = text "mesh=" ++ percent_encode m in
    let cut = split-append 38 in
    ap (split 38) (link_text host_base token fp m n)
    ∙ cut start (h ++ 38 ∷ (t ++ 38 ∷ (f ++ 38 ∷ e))) names_lack.0
    ∙ ap (◌∷◌ start) (
        cut h (t ++ 38 ∷ (f ++ 38 ∷ e)) (append-Lacks (text "host=") host_base names_lack.1 vh)
        ∙ ap (◌∷◌ h) (
            cut t (f ++ 38 ∷ e) (append-Lacks (text "token=") token names_lack.2 vt)
            ∙ ap (◌∷◌ t) (
                cut f e (append-Lacks (text "fp=") fp names_lack.3 vf)
                ∙ ap (◌∷◌ f) (split-Lacks 38 e (append-Lacks (text "mesh=") m names_lack.4 vm)))))
