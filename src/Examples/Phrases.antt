-- ===== src/Examples/Phrases.antt =====
-- A list of words for the bytes of an id: 23 words of one letter and one of the other 41.
use my_mesh.Base.{
  ℕ, zero, suc, ◌+◌, ◌-◌, ◌*◌, ◌/◌, ◌%◌, ◌≤◌, ◌<◌, ◌≡◌, refl, ap, ◌∙◌, ◌⊎◌, inr, Bool, not, List,
  [], ◌∷◌, arith, length, keep_if, All, ◌==◌, nat_eq, text_eq, Text, text, IsBytes, join,
}
use my_mesh.Crypto.WordId.{Bip39, IsLetters}

abbrev pub letter : ℕ → ℕ
letter n = 103 + n

unfoldable pub letters : Text → Text
letters [] = []
letters (b ∷ s) = letter (b / 16) ∷ letter (b % 16) ∷ letters s

unfoldable pub of_letters : Text → Text
of_letters [] = []
of_letters (x ∷ []) = []
of_letters (x ∷ y ∷ s) = ((x - 103) * 16 + (y - 103)) ∷ of_letters s

of_letters-letters : (b : Text) → of_letters (letters b) ≡ b
unfolding of_letters letters
of_letters-letters [] = refl
of_letters-letters (b ∷ s) =
    let whole : (letter (b / 16) - 103) * 16 + (letter (b % 16) - 103) ≡ b = omega arith in
    rw (whole, of_letters-letters s) refl

length-letters : (b : Text) → length (letters b) ≡ length b + length b
unfolding letters
length-letters [] = refl
length-letters (b ∷ s) = omega (arith, length-letters s)

abbrev IsLetter : ℕ → Type 0
IsLetter c = (97 ≤ c) × (c ≤ 122)

letters-IsLetter : (b : Text) → IsBytes b → All IsLetter (letters b)
unfolding letters
letters-IsLetter [] h = tt
letters-IsLetter (b ∷ s) h = (omega (arith, h.0), (omega arith, letters-IsLetter s h.1))

-- The first letters each a word, the others one more.
unfoldable pub spread : ℕ → Text → List Text
spread zero s = s ∷ []
spread (suc n) [] = [] ∷ spread n []
spread (suc n) (c ∷ s) = (c ∷ []) ∷ spread n s

length-spread : (n : ℕ) (s : Text) → length (spread n s) ≡ suc n
unfolding spread
length-spread zero s = refl
length-spread (suc n) [] = ap suc (length-spread n [])
length-spread (suc n) (c ∷ s) = ap suc (length-spread n s)

spread-IsLetters : (n : ℕ) (s : Text) → n < length s → All IsLetter s → All IsLetters (spread n s)
unfolding spread
spread-IsLetters zero [] k h = absurd (omega (arith, k))
spread-IsLetters zero (c ∷ s) k h = ((h, ground arith), tt)
spread-IsLetters (suc n) [] k h = absurd (omega (arith, k))
spread-IsLetters (suc n) (c ∷ s) k h =
    (((h.0, tt), ground arith), spread-IsLetters n s (omega (arith, k)) h.1)

abbrev pub not_space : ℕ → Bool
not_space c = not (c == 32)

unspaced : (s : Text) → All IsLetter s → keep_if not_space s ≡ s
unspaced [] h = refl
unspaced (c ∷ s) h = ground (arith, h, unspaced s h.1)

spread_cons : (n : ℕ) (s : Text) → (w : Text) × (ws : List Text) × (spread n s ≡ w ∷ ws)
unfolding spread
spread_cons zero s = (s, [], refl)
spread_cons (suc n) [] = ([], spread n [], refl)
spread_cons (suc n) (c ∷ s) = (c ∷ [], spread n s, refl)

join_cons :
    (c : ℕ) (ts : List Text)
    → ((w : Text) × (ws : List Text) × (ts ≡ w ∷ ws))
    → join (32 ∷ []) ((c ∷ []) ∷ ts) ≡ c ∷ 32 ∷ join (32 ∷ []) ts
unfolding join
join_cons c ts (w, ws, e) = rw e refl

unspread :
    (n : ℕ) (s : Text)
    → n < length s
    → All IsLetter s
    → keep_if not_space (join (32 ∷ []) (spread n s)) ≡ s
unfolding spread join
unspread zero s k h = unspaced s h
unspread (suc n) [] k h = absurd (omega (arith, k))
unspread (suc n) (c ∷ s) k h =
    ap (keep_if not_space) (join_cons c (spread n s) (spread_cons n s))
    ∙ ground (arith, h, unspread n s (omega (arith, k)) h.1)

abbrev pub given : Text → Text ⊎ Text
given t = inr t

pub plain_words :
    (b : Text)
    → length b ≡ 32
    → IsBytes b
    → (ws : List Text) × (length ws ≡ 24)
      × All IsLetters ws
      × (given (join (text " ") (spread 23 (letters b))) ≡ inr (join (text " ") ws))
      × (given (of_letters (keep_if not_space (join (text " ") ws))) ≡ inr b)
unfolding text
plain_words b n h =
    let long : 23 < length (letters b) = omega (arith, length-letters b, n) in
    let v = letters-IsLetter b h in
    (
      spread 23 (letters b),
      length-spread 23 (letters b),
      spread-IsLetters 23 (letters b) long v,
      refl,
      ap (λ s. given (of_letters s)) (unspread 23 (letters b) long v)
          ∙ ap given (of_letters-letters b),
    )

abbrev pub plain_bip39 : Bip39
plain_bip39 = record {
  to_words = λ b. given (join (text " ") (spread 23 (letters b)));
  to_entropy = λ m. given (of_letters (keep_if not_space m));
  words_lem = plain_words;
}
