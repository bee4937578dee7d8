-- ===== src/Protocol/Frame/RoundTrip.antt =====
-- crates/mymesh-protocol/src/frame.rs: what is written is read, and nothing else is.
use my_mesh.Base.{
  ℕ, ◌+◌, ◌-◌, ◌/◌, ◌%◌, ◌^◌, ◌≤◌, ◌<◌, ◌≡◌, refl, ap, inl, inr, [], ◌∷◌, ◌++◌, arith, Option-cases,
  length, take, drop, length-append, take-append-drop, length-take, take-append_length,
  drop-append_length, nat_eq, text_eq, Text, IsBytes, be32, of_be32,
}
use my_mesh.Protocol.Channel.{ChannelKind, to_u8, from_u8, from_u8_iff}
use my_mesh.Protocol.Frame.{
  Frame, done, write_frame, read_frame, read_body, read_payload, max_frame_bytes,
}

be32-of_be32 :
    (a b c d : ℕ)
    → a < 256
    → b < 256
    → c < 256
    → d < 256
    → be32 (of_be32 a b c d) ≡ a ∷ b ∷ c ∷ d ∷ []
be32-of_be32 a b c d ha hb hc hd = ground arith

of_be32-be32 :
    (n : ℕ)
    → n < 2 ^ 32
    → of_be32 (n / 16777216 % 256) (n / 65536 % 256) (n / 256 % 256) (n % 256) ≡ n
of_be32-be32 n h = omega arith

read_payload-append :
    (k : ChannelKind) (stream : ℕ) (p rest : Text)
    → read_payload (length p) k stream (p ++ rest)
      ≡ done (record { channel = record { kind = k; stream = stream }; payload = p }, rest)
unfolding read_payload
read_payload-append k stream p rest =
    ground (arith, length-append p rest, take-append_length p rest, drop-append_length p rest)

-- A frame that fits is read back from its bytes, and what follows it is left on the stream.
pub read_frame-write_frame :
    (f : Frame) (rest : Text)
    → f.channel.stream < 2 ^ 32
    → length f.payload ≤ max_frame_bytes
    → (bytes : Text) × (write_frame f ≡ done bytes) × (read_frame (bytes ++ rest) ≡ done (f, rest))
unfolding write_frame read_frame read_body
read_frame-write_frame f rest small fits =
    let n = (5 + length f.payload) % 2 ^ 32 in
    (
      be32 n ++ to_u8 f.channel.kind ∷ be32 f.channel.stream ++ f.payload,
      ground arith,
      rw
          (
            of_be32-be32 n (omega arith),
            of_be32-be32 f.channel.stream small,
            (from_u8_iff (to_u8 f.channel.kind) f.channel.kind).1 refl,
          )
          (ground (arith, read_payload-append f.channel.kind f.channel.stream f.payload rest)),
    )

-- What a frame that is read says of the bytes that it is read from.
read_frame_inversion :
    (a b c d k e g i j : ℕ) (s rest : Text) (f : Frame)
    → read_frame (a ∷ b ∷ c ∷ d ∷ k ∷ e ∷ g ∷ i ∷ j ∷ s) ≡ done (f, rest)
    → let len = of_be32 a b c d in
      (5 ≤ len)
      × (len - 5 ≤ max_frame_bytes)
      × (len - 5 ≤ length s)
      × (k ≡ to_u8 f.channel.kind)
      × (f.channel.stream ≡ of_be32 e g i j)
      × (f.payload ≡ take (len - 5) s)
      × (rest ≡ drop (len - 5) s)
unfolding read_frame read_body read_payload
read_frame_inversion a b c d k e g i j s rest f h = elim (Option-cases (from_u8 k)) [
  | inl n ↦ ground arith
  | inr (kind, q) ↦ ground (arith, (from_u8_iff k kind).0 q)
]

-- What is read is what `write_frame` writes for the frame, followed by what is left.
pub write_frame-read_frame :
    (s rest : Text) (f : Frame)
    → IsBytes s
    → read_frame s ≡ done (f, rest)
    → (bytes : Text) × (write_frame f ≡ done bytes) × (s ≡ bytes ++ rest)
unfolding read_frame write_frame
write_frame-read_frame (a ∷ b ∷ c ∷ d ∷ k ∷ e ∷ g ∷ i ∷ j ∷ s) rest f bytes h =
    let len = of_be32 a b c d in
    let (lo, hi, fits, kind, stream, payload, left) =
      read_frame_inversion a b c d k e g i j s rest f h in
    let size : length f.payload ≡ len - 5 =
      omega (arith, ap length payload, length-take (len - 5) s) in
    (
      be32 ((5 + length f.payload) % 2 ^ 32)
          ++ to_u8 f.channel.kind ∷ be32 f.channel.stream
          ++ f.payload,
      ground arith,
      ground (arith, be32-of_be32 a b c d, be32-of_be32 e g i j, take-append-drop (len - 5) s),
    )
write_frame-read_frame _ rest f bytes h = cc
