-- ===== src/Examples/Codec.antt =====
-- An encoding of the two messages of a handshake.
use my_mesh.Base.{
  ℕ, zero, suc, ◌≡◌, refl, ap, subst, List, [], ◌∷◌, ◌++◌, map, nat_eq, text_eq, serialize, Result,
  ok, err, Text,
}
use my_mesh.Core.Identity.{DeviceId, id_eq}
use my_mesh.Core.Device.{Capability, terminal, files, desktop, tcp, admin, cap_eq}
use my_mesh.Protocol.Messages.{ControlMessage, hello, hello_ack}
use my_mesh.Session.Handshake.{Codec}

-- A text as its bytes, each one more, and a zero behind them.
unfoldable pub quote : Text → Text
quote [] = 0 ∷ []
quote (b ∷ s) = suc b ∷ quote s

unfoldable pub unquote : Text → Text × Text
unquote [] = ([], [])
unquote (zero ∷ s) = ([], s)
unquote (suc b ∷ s) = let (t, rest) = unquote s in (b ∷ t, rest)

unquote-quote : (s rest : Text) → unquote (quote s ++ rest) ≡ (s, rest)
unfolding quote unquote
unquote-quote [] rest = refl
unquote-quote (b ∷ s) rest = rw (unquote-quote s rest) refl

unfoldable pub cap_number : Capability → ℕ
cap_number terminal = 0
cap_number files = 1
cap_number desktop = 2
cap_number tcp = 3
cap_number admin = 4

unfoldable pub cap_of : ℕ → Capability
cap_of zero = terminal
cap_of (suc zero) = files
cap_of (suc (suc zero)) = desktop
cap_of (suc (suc (suc zero))) = tcp
cap_of _ = admin

cap_of-cap_number : (c : Capability) → cap_of (cap_number c) ≡ c
unfolding cap_of cap_number
cap_of-cap_number terminal = refl
cap_of-cap_number files = refl
cap_of-cap_number desktop = refl
cap_of-cap_number tcp = refl
cap_of-cap_number admin = refl

caps_of-numbers : (cs : List Capability) → map cap_of (map cap_number cs) ≡ cs
caps_of-numbers [] = refl
caps_of-numbers (c ∷ cs) = rw (cap_of-cap_number c, caps_of-numbers cs) refl

unfoldable pub fields : DeviceId → Text → List Capability → Text → Text
unfolding quote
fields id label caps signature =
    quote id.bytes ++ (quote label ++ (quote (map cap_number caps) ++ signature))

unfoldable pub read_fields : Text → DeviceId × Text × List Capability × Text
unfolding unquote
read_fields s =
    let (id, s1) = unquote s in
    let (label, s2) = unquote s1 in
    let (caps, s3) = unquote s2 in (record { bytes = id }, label, map cap_of caps, s3)

read_fields-fields :
    (id : DeviceId) (label : Text) (caps : List Capability) (signature : Text)
    → read_fields (fields id label caps signature) ≡ (id, label, caps, signature)
unfolding read_fields fields
read_fields-fields id label caps signature =
    rw
      (
        unquote-quote id.bytes (quote label ++ (quote (map cap_number caps) ++ signature)),
        unquote-quote label (quote (map cap_number caps) ++ signature),
        unquote-quote (map cap_number caps) signature,
        caps_of-numbers caps,
      )
      refl

unfoldable pub encode_message : ControlMessage → Result Text
unfolding fields
encode_message (hello v id label caps signature) = ok (0 ∷ v ∷ fields id label caps signature)
encode_message (hello_ack id label caps signature) = ok (1 ∷ fields id label caps signature)
encode_message _ = err (serialize [])

unfoldable pub decode_message : Text → Result ControlMessage
unfolding read_fields
decode_message (zero ∷ v ∷ s) =
    let (id, label, caps, signature) = read_fields s in ok (hello v id label caps signature)
decode_message (suc _ ∷ s) =
    let (id, label, caps, signature) = read_fields s in ok (hello_ack id label caps signature)
decode_message _ = err (serialize [])

ok-injective : {a b : Text} → ok a ≡ ok b → a ≡ b
ok-injective h = cc

pub decode_message-encode_message :
    (m : ControlMessage) (b : Text) → encode_message m ≡ ok b → decode_message b ≡ ok m
unfolding encode_message decode_message
decode_message-encode_message (hello v id label caps signature) b h =
    subst (λ x. decode_message x ≡ ok (hello v id label caps signature)) (ok-injective h)
      (ap (λ p. ok (hello v p.0 p.1 p.2 p.3)) (read_fields-fields id label caps signature))
decode_message-encode_message (hello_ack id label caps signature) b h =
    subst (λ x. decode_message x ≡ ok (hello_ack id label caps signature)) (ok-injective h)
      (ap (λ p. ok (hello_ack p.0 p.1 p.2 p.3)) (read_fields-fields id label caps signature))
decode_message-encode_message _ b h = cc

-- The encoding is that of the two messages; no other is encoded.
abbrev pub plain_codec : Codec
plain_codec = record {
  encode = encode_message;
  decode = decode_message;
  debug = λ m. [];
  decode-encode = decode_message-encode_message;
}
