-- ===== src/Session/Magic/Query.antt =====
-- crates/mymesh-session/src/magic.rs: a question for a name is answered with the address of the name.
use my_mesh.Base.{
  ℕ, zero, suc, ◌+◌, ◌-◌, ◌≤◌, ◌<◌, bit_and, ◌≡◌, refl, sym, ap, ◌∙◌, subst, false, not, none, some,
  List, [], ◌∷◌, ◌++◌, append_assoc, arith, ℕ_discrete, length, take, drop, get_or, length-append,
  length-drop, take-append_length, drop-append_length, All, ◌==◌, nat_eq, text_eq, Text, text, join,
  slice, be16, be32,
}
use my_mesh.Base.{holds_below-at, drop_add, take_all, get_or-drop, take-append_left}
use my_mesh.Base.Dict.{lookup}
use my_mesh.Core.Device.Naming.{Unicode}
use my_mesh.Session.Magic.{Utf8, NameMap}
use my_mesh.Session.Magic.Dns.{read_labels, octets_of, dns_answer, asked_ip, build_dns_response}

-- A name on the wire: each label behind its length, then a zero.
unfoldable pub wire : List Text → Text
wire [] = 0 ∷ []
wire (l ∷ ls) = length l ∷ l ++ wire ls

-- A label has at most 63 bytes, and at least one; each is ASCII.
abbrev pub IsLabel : Text → Type 0
IsLabel l = (0 < length l) × (length l ≤ 63) × All (λ b. b < 128) l

not_pointer : (l : ℕ) → l ≤ 63 → (bit_and l 192 == 192) ≡ false
unfolding ℕ_discrete
not_pointer l h =
    ground (arith, holds_below-at (λ n. not (bit_and n 192 == 192)) 64 l refl (omega (arith, h)))

module _ ⦃utf : Utf8⦄ where
  read_label :
      (fuel : ℕ) (req l rest : Text) (i : ℕ)
      → IsLabel l
      → drop i req ≡ length l ∷ l ++ rest
      → i + 1 + length l ≤ length req
      → read_labels (suc fuel) req i ≡ elim (read_labels fuel req (i + 1 + length l)) [
        | none ↦ none
        | some (ls, j) ↦ some (l ∷ ls, j)
      ]
  unfolding read_labels
  read_label fuel req l rest i (some_, short, ascii) at inside = ground (
    arith,
    at,
    not_pointer (length l) short,
    inside,
    some_,
    take-append_length l rest,
    utf.lossy-ascii l ascii,
  )

  labels_fit : (ls : List Text) → length ls < length (wire ls)
  unfolding wire
  labels_fit [] = omega arith
  labels_fit (l ∷ ls) = omega (arith, labels_fit ls, length-append l (wire ls))

  read_labels-wire :
      (ls : List Text) (fuel : ℕ) (req tail : Text) (i : ℕ)
      → All IsLabel ls
      → length ls < fuel
      → drop i req ≡ wire ls ++ tail
      → read_labels fuel req i ≡ some (ls, i + length (wire ls))
  unfolding wire
  read_labels-wire [] zero req tail i h enough at = absurd (omega (arith, enough))
  read_labels-wire [] (suc fuel) req tail i h enough at = unfold read_labels in ground (arith, at)
  read_labels-wire (l ∷ ls) zero req tail i h enough at = absurd (omega (arith, enough))
  read_labels-wire (l ∷ ls) (suc fuel) req tail i (good, h) enough at =
      let rest = wire ls ++ tail in
      let here : drop i req ≡ length l ∷ l ++ rest =
        at ∙ ap (◌∷◌ (length l)) (append_assoc l (wire ls) tail) in
      let size : length req - i ≡ suc (length l + length rest) =
        sym (length-drop i req) ∙ ap length here ∙ ap suc (length-append l rest) in
      let next : drop (i + 1 + length l) req ≡ rest =
        ap (λ n. drop n req) (omega arith)
        ∙ drop_add i (suc (length l)) req
        ∙ ap (drop (suc (length l))) here
        ∙ drop-append_length l rest in
      rw
        (
          read_label fuel req l rest i good here (omega (arith, size)),
          read_labels-wire ls fuel req tail (i + 1 + length l) h (omega (arith, enough)) next,
        )
        (ap (λ n. some (l ∷ ls, n)) (omega (arith, length-append l (wire ls))))

module _ ⦃uni : Unicode⦄ ⦃utf : Utf8⦄ where
  -- A question of a header of 12 bytes, a name of labels of 1 to 63 bytes of ASCII, the type A and
  -- a class is answered: where the name in lower case has an address, with that address; where it
  -- has none, with the code for a name that does not exist. The question is repeated in the
  -- answer.
  pub build_dns_response-wire :
      (header : Text) (ls : List Text) (class : Text) (names : NameMap)
      → length header ≡ 12
      → length class ≡ 2
      → All IsLabel ls
      → build_dns_response (header ++ (wire ls ++ (be16 1 ++ class))) names
        ≡ some (elim (lookup (uni.to_lowercase (join (text ".") ls)) names) [
          | none ↦
              take 2 header
              ++ be16 33155
              ++ be16 1
              ++ be16 0
              ++ be16 0
              ++ be16 0
              ++ (wire ls ++ (be16 1 ++ class))
          | some (id, ip) ↦
              take 2 header
              ++ be16 33152
              ++ be16 1
              ++ be16 1
              ++ be16 0
              ++ be16 0
              ++ (wire ls ++ (be16 1 ++ class))
              ++ be16 49164
              ++ be16 1
              ++ be16 1
              ++ be32 30
              ++ be16 4
              ++ octets_of ip
        ])
  unfolding build_dns_response asked_ip dns_answer
  build_dns_response-wire header ls class names twelve two h =
      let tail = be16 1 ++ class in
      let body = wire ls ++ tail in
      let req = header ++ body in
      let i = 12 + length (wire ls) in
      let size : length req ≡ i + 4 =
        omega (arith, length-append header body, length-append (wire ls) tail, twelve, two) in
      let at : drop 12 req ≡ body =
        subst (λ n. drop n req ≡ body) twelve (drop-append_length header body) in
      let after : drop i req ≡ tail =
        drop_add 12 (length (wire ls)) req
        ∙ ap (drop (length (wire ls))) at
        ∙ drop-append_length (wire ls) tail in
      let read : read_labels (length req) req 12 ≡ some (ls, i) =
        read_labels-wire ls (length req) req tail 12 h (omega (arith, labels_fit ls, size)) at in
      let high : get_or req i 0 ≡ 0 = get_or-drop req i 0 ∙ ap (λ (t : Text). get_or t 0 0) after in
      let low : get_or req (i + 1) 0 ≡ 1 =
        get_or-drop req (i + 1) 0
        ∙ ap (λ (t : Text). get_or t 0 0) (drop_add i 1 req ∙ ap (drop 1) after) in
      let question : slice 12 (i + 4) req ≡ body =
        ap (take (i + 4 - 12)) at
        ∙ take_all (i + 4 - 12) body (omega (arith, length-append (wire ls) tail, two)) in
      let start : take 2 req ≡ take 2 header =
        take-append_left 2 header body (omega (arith, twelve)) in
      ground (arith, size, read, high, low, question, start)
