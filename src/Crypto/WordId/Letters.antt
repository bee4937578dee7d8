-- ===== src/Crypto/WordId/Letters.antt =====
-- crates/mymesh-crypto/src/word_id.rs: words of small letters, with one space between, come through the
-- reading as they are.
use my_mesh.Base.{
  ℕ, ◌≤◌, ◌<◌, ◌≡◌, refl, sym, ap, ◌∙◌, subst, ◌≢◌, ◌⊎◌, inl, inr, Bool, true, false, not, none,
  List, [], ◌∷◌, ◌++◌, arith, ℕ_discrete, length, all, keep_if, All, ◌==◌, contains,
  contains-append, nat_eq, text_eq, Text, text, trim, trim-visible, IsVisible, to_ascii_lowercase,
  join, starts_with,
}
use my_mesh.Base.{
  space_len, is_space1, is_space2, is_space3, Separates, split_where-join, drop_while, strip_prefix,
  EndsVisible, reverse-IsVisible,
}
use mathlib.Core.List.{reverse, reverse-append, reverse-reverse}
use my_mesh.Core.Identity.{id_eq}
use my_mesh.Core.Device.Naming.{Unicode}
use my_mesh.Crypto.WordId.{
  IsLetters, is_digit, is_alphabetic, is_index_mark, lettered, separator_len, without_uri, after_0x,
  token_words, words_of, phrase, count_words,
}

list_cases : (s : Text) → (s ≡ []) ⊎ ((c : ℕ) × (t : Text) × (s ≡ c ∷ t))
list_cases [] = inl refl
list_cases (c ∷ s) = inr (c, s, refl)

All-EndsVisible : (s : Text) → s ≢ [] → All IsVisible s → EndsVisible s
All-EndsVisible [] k h = absurd (k refl)
All-EndsVisible (c ∷ s) k h = elim (list_cases (reverse (c ∷ s))) [
  | inl e ↦ absurd (k (sym (reverse-reverse (c ∷ s)) ∙ ap reverse e))
  | inr (l, back, e) ↦ record {
    first = c;
    front = s;
    last = l;
    back = back;
    starts = refl;
    ends = e;
    visible = (h.0, (subst (All IsVisible) e (reverse-IsVisible (c ∷ s) h)).0);
  }
]

append-EndsVisible : (a mid b : Text) → EndsVisible a → EndsVisible b → EndsVisible (a ++ mid ++ b)
append-EndsVisible a mid b u v = record {
  first = u.first;
  front = u.front ++ mid ++ b;
  last = v.last;
  back = v.back ++ reverse (a ++ mid);
  starts = ap (λ t. t ++ mid ++ b) u.starts;
  ends = reverse-append (a ++ mid) b ∙ ap (λ t. t ++ reverse (a ++ mid)) v.ends;
  visible = (u.visible.0, v.visible.1);
}

-- What the words of an id are, between spaces.
abbrev IsLetter : ℕ → Type 0
IsLetter c = (97 ≤ c) × (c ≤ 122)

separator_len-Separates : Separates IsLetter separator_len
unfolding separator_len space_len is_space1 is_space2 is_space3 ℕ_discrete
separator_len-Separates = record {
  at_space = λ b c. refl;
  elsewhere = λ a b c h. ground (arith, h);
}

space_len-Separates : Separates IsLetter space_len
unfolding space_len is_space1 is_space2 is_space3
space_len-Separates = record { at_space = λ b c. refl; elsewhere = λ a b c h. ground (arith, h) }

letters-IsVisible : (w : Text) → All IsLetter w → All IsVisible w
letters-IsVisible [] h = tt
letters-IsVisible (c ∷ w) h = (omega (arith, h.0), letters-IsVisible w h.1)

pub join-EndsVisible :
    (w : Text) (ws : List Text) → All IsLetters (w ∷ ws) → EndsVisible (join (text " ") (w ∷ ws))
unfolding join
join-EndsVisible w [] h = All-EndsVisible w h.0.1 (letters-IsVisible w h.0.0)
join-EndsVisible w (v ∷ ws) h =
    append-EndsVisible w (text " ") (join (text " ") (v ∷ ws))
      (All-EndsVisible w h.0.1 (letters-IsVisible w h.0.0)) (join-EndsVisible v ws h.1)

-- A word comes through the reading of a token as it is.
letters_only :
    (w : Text)
    → All IsLetter w
    → (all is_alphabetic w ≡ true)
      × (drop_while is_digit w ≡ w)
      × (drop_while is_index_mark w ≡ w)
      × (to_ascii_lowercase w ≡ w)
      × All (λ c. c < 128) w
unfolding is_alphabetic is_digit is_index_mark drop_while to_ascii_lowercase
letters_only [] h = (refl, refl, refl, refl, tt)
letters_only (c ∷ w) h =
    let (a, b, d, e, f) = letters_only w h.1 in
    (
      ground (arith, h, a),
      ground (arith, h),
      ground (arith, h),
      ground (arith, h, e),
      (omega (arith, h.0), f),
    )

lettered-word :
    ⦃uni : Unicode⦄
    → (c : ℕ) (w : Text) → All IsLetter (c ∷ w)
    → lettered (c ∷ w) (c ∷ w) ≡ (c ∷ w) ∷ []
unfolding lettered
lettered-word ⦃uni⦄ c w h =
    let (a, b, d, e, f) = letters_only (c ∷ w) h in
    ground (arith, a, e, h, uni.to_lowercase-ascii (c ∷ w) f)

token_words-word : ⦃uni : Unicode⦄ → (w : Text) → IsLetters w → token_words w ≡ w ∷ []
unfolding token_words
token_words-word [] h = absurd (h.1 refl)
token_words-word (c ∷ w) h =
    let (a, b, d, e, f) = letters_only (c ∷ w) h.0 in
    let seen = trim-visible (c ∷ w) (letters-IsVisible (c ∷ w) h.0) in
    ap (λ t. lettered t (trim (drop_while is_index_mark (drop_while is_digit t)))) seen
    ∙ ap (λ u. lettered (c ∷ w) (trim (drop_while is_index_mark u))) b
    ∙ ap (λ u. lettered (c ∷ w) (trim u)) d
    ∙ ap (lettered (c ∷ w)) seen
    ∙ lettered-word c w h.0

only_letters : (ws : List Text) → All IsLetters ws → All (All IsLetter) ws
only_letters [] h = tt
only_letters (w ∷ ws) h = (h.0.0, only_letters ws h.1)

keep_if_words : (ws : List Text) → All IsLetters ws → keep_if (λ t. not (t == [])) ws ≡ ws
keep_if_words [] h = refl
keep_if_words (w ∷ ws) h = ground (arith, h.0.1, keep_if_words ws h.1)

starts_with-contains :
    (s p : Text) (c : ℕ) → starts_with s p ≡ true → contains p c ≡ true → contains s c ≡ true
unfolding starts_with
starts_with-contains s [] c h k = absurd (ground (arith, k))
starts_with-contains [] (x ∷ p) c h k = absurd (ground (arith, h))
starts_with-contains (b ∷ s) (x ∷ p) c h k = ground (arith, h, k, starts_with-contains s p c)

words_of-words : ⦃uni : Unicode⦄ → (ws : List Text) → All IsLetters ws → words_of ws ≡ ws
unfolding words_of
words_of-words [] h = refl
words_of-words (w ∷ ws) h = rw (token_words-word w h.0, words_of-words ws h.1) refl

pub phrase-join :
    ⦃uni : Unicode⦄
    → (w : Text) (ws : List Text) → All IsLetters (w ∷ ws)
    → phrase (join (text " ") (w ∷ ws)) ≡ join (text " ") (w ∷ ws)
unfolding phrase text
phrase-join w ws h =
    ap (λ toks. join (text " ") (words_of toks))
      (split_where-join IsLetter separator_len separator_len-Separates w ws
        (only_letters (w ∷ ws) h))
    ∙ ap (join (text " ")) (words_of-words (w ∷ ws) h)

pub count_words-join :
    (w : Text) (ws : List Text)
    → All IsLetters (w ∷ ws)
    → count_words (join (text " ") (w ∷ ws)) ≡ length (w ∷ ws)
unfolding count_words text
count_words-join w ws h =
    ap (λ toks. length (keep_if (λ t. not (t == [])) toks))
      (split_where-join IsLetter space_len space_len-Separates w ws (only_letters (w ∷ ws) h))
    ∙ ap length (keep_if_words (w ∷ ws) h)

no_prefix :
    (p s : Text) (c : ℕ) → contains p c ≡ true → contains s c ≡ false → strip_prefix p s ≡ none
unfolding strip_prefix
no_prefix p s c h k = ground (arith, starts_with-contains s p c, h, k)

contains-letters : (w : Text) (c : ℕ) → All IsLetter w → c < 97 → contains w c ≡ false
contains-letters [] c h k = refl
contains-letters (d ∷ w) c h k = ground (arith, h.0, k, contains-letters w c h.1 k)

pub contains-join :
    (w : Text) (ws : List Text) (c : ℕ)
    → All IsLetters (w ∷ ws)
    → c < 97
    → c ≢ 32
    → contains (join (text " ") (w ∷ ws)) c ≡ false
unfolding join text
contains-join w [] c h k n = contains-letters w c h.0.0 k
contains-join w (v ∷ ws) c h k n =
    let rest = join (text " ") (v ∷ ws) in
    ground (
      arith,
      n,
      contains-letters w c h.0.0 k,
      contains-append (w ++ 32 ∷ []) rest c,
      contains-append w (32 ∷ []) c,
      contains-join v ws c h.1 k n,
    )

pub all-keep_if : (p : ℕ → Bool) (s : Text) → all p (keep_if p s) ≡ true
all-keep_if p [] = refl
all-keep_if p (c ∷ s) = ground (arith, all-keep_if p s)

pub keep_if-all : (p : ℕ → Bool) (s : Text) → all p s ≡ true → keep_if p s ≡ s
keep_if-all p [] h = refl
keep_if-all p (c ∷ s) h = ground (arith, h, keep_if-all p s)

pub first_not : (m : Text) (v : EndsVisible m) (c : ℕ) → contains m c ≡ false → v.first ≢ c
first_not m v c h = ground (arith, subst (λ t. contains t c ≡ false) v.starts h)

pub no_uri : (m : Text) → contains m 58 ≡ false → without_uri m ≡ m
unfolding without_uri text
no_uri m h = ground (arith, no_prefix (text "mymesh:v1:join:") m 58 (ground arith) h)

pub no_0x : (m : Text) → contains m 48 ≡ false → after_0x m ≡ none
unfolding after_0x text
no_0x m h = ground (
  arith,
  no_prefix (text "0x") m 48 (ground arith) h,
  no_prefix (text "0X") m 48 (ground arith) h,
)
