-- ===== src/Examples/Table.antt =====
-- An encoding of the messages of a table, each by its place.
use my_mesh.Base.{
  ◌≢◌, inl, inr, subst, Option-cases, ℕ, zero, suc, ◌≡◌, refl, Option, none, some, List, [], ◌∷◌,
  arith, ℤ, serialize, Result, ok, err, Text, nat_eq, text_discrete, ℕ_discrete,
}
use my_mesh.Core.Identity.{DeviceId-discrete}
use my_mesh.Core.Device.{Capability-discrete}
use my_mesh.Protocol.Messages.{ControlMessage, MeshMemberWire}
use my_mesh.Session.Handshake.{Codec}

ℤ-discrete : Discrete ℤ
ℤ-discrete = hlevel ℕ_discrete

Member-discrete : Discrete MeshMemberWire
Member-discrete = hlevel (DeviceId-discrete, text_discrete, Capability-discrete, ℤ-discrete)

ControlMessage-discrete : Discrete ControlMessage
ControlMessage-discrete =
    hlevel (
      ℕ_discrete, DeviceId-discrete, text_discrete, Capability-discrete, ℤ-discrete,
      Member-discrete,
    )

place : ControlMessage → List ControlMessage → Option ℕ
unfolding ControlMessage-discrete
place m [] = none
place m (n ∷ ns) =
    let later = place m ns in
    elim (ControlMessage-discrete n m) [
      | yes _ ↦ some 0
      | no _ ↦ elim later [ none ↦ none | some i ↦ some (suc i) ]
    ]

at_place : List ControlMessage → ℕ → Option ControlMessage
at_place [] i = none
at_place (n ∷ ns) zero = some n
at_place (n ∷ ns) (suc i) = at_place ns i

at_place-place :
    (m : ControlMessage) (ns : List ControlMessage) (i : ℕ)
    → place m ns ≡ some i
    → at_place ns i ≡ some m
unfolding place at_place
at_place-place m [] i h = absurd (ground (arith, h))
at_place-place m (n ∷ ns) zero h = ground (arith, h)
at_place-place m (n ∷ ns) (suc i) h = at_place-place m ns i (ground (arith, h))

pub table_encode : List ControlMessage → ControlMessage → Result Text
unfolding place
table_encode table m = elim (place m table) [ none ↦ err (serialize []) | some i ↦ ok (i ∷ []) ]

pub table_decode : List ControlMessage → Text → Result ControlMessage
unfolding at_place
table_decode table (i ∷ []) = elim (at_place table i) [ none ↦ err (serialize []) | some m ↦ ok m ]
table_decode table _ = err (serialize [])

pub table_decode-encode :
    (table : List ControlMessage) (m : ControlMessage) (b : Text)
    → table_encode table m ≡ ok b
    → table_decode table b ≡ ok m
unfolding table_encode table_decode
table_decode-encode table m b h = elim (Option-cases (place m table)) [
  | inl none_ ↦ absurd (ground (arith, h, none_))
  | inr (i, found) ↦
      let bytes : i ∷ [] ≡ b = ground (arith, h, found) in
      subst (λ c. table_decode table c ≡ ok m) bytes
        (ground (arith, at_place-place m table i found))
]

pub encode_first :
    (m : ControlMessage) (ns : List ControlMessage) → table_encode (m ∷ ns) m ≡ ok (0 ∷ [])
unfolding table_encode
encode_first m ns = elim (ControlMessage-discrete m m) [
  | yes e ↦ ground arith
  | no d ↦ absurd (d refl)
]

pub encode_second :
    (m n : ControlMessage) (ns : List ControlMessage)
    → n ≢ m
    → table_encode (n ∷ m ∷ ns) m ≡ ok (1 ∷ [])
unfolding table_encode
encode_second m n ns d = ground (arith, d, encode_first m ns)

pub encode_third :
    (m n o : ControlMessage) (ns : List ControlMessage)
    → n ≢ m
    → o ≢ m
    → table_encode (n ∷ o ∷ m ∷ ns) m ≡ ok (2 ∷ [])
unfolding table_encode
encode_third m n o ns d e = ground (arith, d, e, encode_first m ns)

abbrev pub table_codec : List ControlMessage → Codec
table_codec table = record {
  encode = table_encode table;
  decode = table_decode table;
  debug = λ m. [];
  decode-encode = table_decode-encode table;
}
